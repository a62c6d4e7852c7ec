-- ===== src/Reach/Advisories.antt =====
-- What LintFeedbackReach of internal/graph/feedback_reach.go reports on a well-formed graph.
use mathlib.Core.List.Memᴰ
use mathlib.Core.Option.{some-injective}
use oh_my_graph.Base.{
  String, List, [], ◌∷◌, ◌++◌, ◌≡◌, ◌≢◌, ◌↔◌, inl, inr, refl, sym, ap, subst, ◌∙◌, none, some, Memᴰ,
  Option-cases,
}
use oh_my_graph.Graph.{Graph, Node, Feedback, node_by_id}
use oh_my_graph.Graph.Index.{IsIndexed, last_with_id-distinct}
use oh_my_graph.Validate.{Std}
use oh_my_graph.Validate.Decides.{IsWellFormed}
use oh_my_graph.Reach.Parents.{IsUnreachable, mem-arc_advisories, sole-reached}
use oh_my_graph.Reach.{
  FeedbackAdvisory, advisory, arc_advisories, advisories_from, lint_feedback_reach,
}

module _ (std : Std) (g : Graph) (indexed : IsIndexed g) (sound : IsWellFormed std g indexed)
    (listing : String → List String) (a : FeedbackAdvisory) where
  -- Among these nodes, one declares an arc that cannot reach the producer of the advisory.
  abbrev pub IsReported : List Node → Type 0
  IsReported nodes =
      (n : Node) × (f : Feedback) × ((Memᴰ n nodes × (n.feedback ≡ some f))
        × ((p : String) × IsUnreachable g n f p × (a ≡ advisory g listing n f p)))

  IsReported-later : (k : Node) (nodes : List Node) → IsReported nodes → IsReported (k ∷ nodes)
  IsReported-later k nodes (n, f, ((m, arc), rest)) = (n, f, ((Memᴰ.tail m, arc), rest))

  advisories_from-none :
      (k : Node) (nodes : List Node)
      → k.feedback ≡ none
      → advisories_from g listing (k ∷ nodes) ≡ advisories_from g listing nodes
  unfolding advisories_from
  advisories_from-none k nodes e = rw e refl

  advisories_from-some :
      (k : Node) (nodes : List Node) (f : Feedback)
      → k.feedback ≡ some f
      → advisories_from g listing (k ∷ nodes)
        ≡ arc_advisories g listing k f ++ advisories_from g listing nodes
  unfolding advisories_from
  advisories_from-some k nodes f e =
      ap
        (λ o. elim o [
          | none ↦ advisories_from g listing nodes
          | some f ↦ arc_advisories g listing k f ++ advisories_from g listing nodes
        ])
        e

  abbrev IsProducer : Node → Feedback → Type 0
  IsProducer n f = (p : String) × IsUnreachable g n f p × (a ≡ advisory g listing n f p)

  IsProducer-same :
      (n k : Node) (f f' : Feedback)
      → n ≡ k
      → k.feedback ≡ some f
      → n.feedback ≡ some f'
      → IsProducer n f'
      → IsProducer k f
  IsProducer-same n k f f' same here arc rest =
      let arc' : k.feedback ≡ some f' = subst (λ (x : Node). x.feedback ≡ some f') same arc in
      let one : f' ≡ f = cc in
      subst (λ x. IsProducer k x) one (subst (λ x. IsProducer x f') same rest)

  mem-advisories_from :
      (nodes : List Node)
      → ((n : Node) → Memᴰ n nodes → Memᴰ n g.nodes)
      → Memᴰ a (advisories_from g listing nodes) ↔ IsReported nodes
  mem-advisories_from [] sub =
      unfold advisories_from in
      (λ m. absurd (Memᴰ.not-nil m), λ (n, f, ((m, arc), rest)). absurd (Memᴰ.not-nil m))
  mem-advisories_from (k ∷ nodes) sub =
      let ih = mem-advisories_from nodes (λ n m. sub n (Memᴰ.tail m)) in
      elim (Option-cases k.feedback) [
        | inl e ↦ rw (advisories_from-none k nodes e) (
          λ m. IsReported-later k nodes (ih.0 m),
          λ (n, f, ((m, arc), rest)). elim (Memᴰ.cases_cons m) [
            | inl same ↦
                let here : k.feedback ≡ some f =
                  subst (λ (x : Node). x.feedback ≡ some f) same arc in
                absurd (cc (here, e))
            | inr later ↦ ih.1 (n, f, ((later, arc), rest))
          ],
        )
        | inr (f, e) ↦
            let here =
              mem-arc_advisories std g indexed sound k f (sub k (Memᴰ.head refl)) e listing a in
            rw (advisories_from-some k nodes f e) (
              λ m. elim (Memᴰ.append_cases (arc_advisories g listing k f) m) [
                | inl first ↦ (k, f, ((Memᴰ.head refl, e), here.0 first))
                | inr later ↦ IsReported-later k nodes (ih.0 later)
              ],
              λ (n, f', ((m, arc), rest)). elim (Memᴰ.cases_cons m) [
                | inl same ↦
                    Memᴰ.append_left (advisories_from g listing nodes)
                      (here.1 (IsProducer-same n k f f' same e arc rest))
                | inr later ↦
                    Memᴰ.append_right (arc_advisories g listing k f)
                      (ih.1 (n, f', ((later, arc), rest)))
              ],
            )
      ]

  -- On a well-formed graph the lint reports, for each declared arc, exactly those parents of its
  -- declarer that are declared nodes other than gates, lie on no path from the target up to the
  -- declarer and are no ancestors of the target, each with the target that covers them all.
  pub lint_feedback_reach_iff : Memᴰ a (lint_feedback_reach g listing) ↔ IsReported g.nodes
  unfolding lint_feedback_reach
  lint_feedback_reach_iff = mem-advisories_from g.nodes (λ n m. m)

  declared_found : (n : Node) → Memᴰ n g.nodes → node_by_id g n.id ≡ some n
  declared_found n m = indexed.last n.id ∙ last_with_id-distinct g.nodes n sound.distinct m

  -- On a well-formed graph, a declarer with a single parent is never reported: its parent lies on every path to it.
  pub lint_feedback_reach-sole :
      Memᴰ a (lint_feedback_reach g listing)
      → (n : Node) → Memᴰ n g.nodes
      → (p : String) → n.depends_on ≡ p ∷ []
      → a.declarer ≢ n.id
  lint_feedback_reach-sole m n listed p only same =
      let (k, f, ((mem, arc), (q, unreached, e))) = lint_feedback_reach_iff.0 m in
      let ids_same : k.id ≡ n.id = sym (ap (λ (x : FeedbackAdvisory). x.declarer) e) ∙ same in
      let one : n ≡ k =
        some-injective _ _ (
          sym (declared_found n listed)
          ∙ ap (node_by_id g) (sym ids_same)
          ∙ declared_found k mem) in
      let only' : k.depends_on ≡ p ∷ [] = subst (λ (x : Node). x.depends_on ≡ p ∷ []) one only in
      let at : q ≡ p = elim (Memᴰ.cases_cons (subst (Memᴰ q) only' unreached.0.0)) [
        | inl here ↦ here
        | inr none_left ↦ absurd (Memᴰ.not-nil none_left)
      ] in
      sole-reached std g indexed sound k f mem arc p only'
        (subst (IsUnreachable g k f) at unreached)
