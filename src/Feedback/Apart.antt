-- ===== src/Feedback/Apart.antt =====
-- The bodies of the arcs of internal/graph/feedback.go, where none is claimed twice.
use mathlib.Core.List.Memᴰ
use oh_my_graph.Base.{
  String, ◌≡◌, ◌≢◌, sym, ap, subst, ◌∙◌, inl, inr, List, [], ◌∷◌, some, Memᴰ, IsDistinct,
  IsDistinct-append, Option-cases,
}
use oh_my_graph.Graph.{Graph, Node, Feedback}
use oh_my_graph.Graph.Index.{IsIndexed}
use oh_my_graph.Feedback.{feedback_body}
use oh_my_graph.Feedback.Shape.{all_bodies}

module _ (g : Graph) (indexed : IsIndexed g) where
  mem-all_bodies :
      (nodes : List Node) (n : Node) (f : Feedback) (x : String)
      → Memᴰ n nodes
      → n.feedback ≡ some f
      → Memᴰ x (feedback_body g n.id)
      → Memᴰ x (all_bodies g indexed nodes)
  mem-all_bodies [] n f x m declared inside = absurd (Memᴰ.not-nil m)
  mem-all_bodies (k ∷ nodes) n f x m declared inside = elim (Option-cases k.feedback) [
    | inl e ↦ elim (Memᴰ.cases_cons m) [
      | inl same ↦
          let here : k.feedback ≡ some f =
            subst (λ (y : Node). y.feedback ≡ some f) same declared in
          absurd (cc (e, here))
      | inr later ↦ rw (e, all_bodies) (mem-all_bodies nodes n f x later declared inside)
    ]
    | inr (f', e) ↦
        rw (e, all_bodies)
          (elim (Memᴰ.cases_cons m) [
            | inl same ↦
                Memᴰ.append_left (all_bodies g indexed nodes)
                  (subst (λ (y : Node). Memᴰ x (feedback_body g y.id)) same inside)
            | inr later ↦
                Memᴰ.append_right (feedback_body g k.id)
                  (mem-all_bodies nodes n f x later declared inside)
          ])
  ]

  -- The body of the first declarer shares no node with that of a later one.
  head_apart :
      (k : Node) (nodes : List Node) (n : Node) (f f' : Feedback) (x : String)
      → IsDistinct (all_bodies g indexed (k ∷ nodes))
      → k.feedback ≡ some f'
      → Memᴰ n nodes
      → n.feedback ≡ some f
      → Memᴰ x (feedback_body g k.id)
      → ¬ Memᴰ x (feedback_body g n.id)
  head_apart k nodes n f f' x distinct here m declared mine inside =
      let (_, (_, apart)) =
        (IsDistinct-append (feedback_body g k.id) (all_bodies g indexed nodes)).0
          (rw (here, all_bodies) at distinct) in
      apart x mine (mem-all_bodies nodes n f x m declared inside)

  tail_distinct :
      (k : Node) (nodes : List Node)
      → IsDistinct (all_bodies g indexed (k ∷ nodes))
      → IsDistinct (all_bodies g indexed nodes)
  tail_distinct k nodes h = elim (Option-cases k.feedback) [
    | inl e ↦ rw (e, all_bodies) at h
    | inr (f, e) ↦
        let (_, (rest, _)) =
          (IsDistinct-append (feedback_body g k.id) (all_bodies g indexed nodes)).0
            (rw (e, all_bodies) at h) in
        rest
  ]

  -- Two declarers with different ids have no node of their bodies in common.
  pub bodies_apart :
      (nodes : List Node) (m n : Node) (f f' : Feedback) (x : String)
      → IsDistinct (all_bodies g indexed nodes)
      → Memᴰ m nodes
      → m.feedback ≡ some f'
      → Memᴰ n nodes
      → n.feedback ≡ some f
      → m.id ≢ n.id
      → Memᴰ x (feedback_body g m.id)
      → ¬ Memᴰ x (feedback_body g n.id)
  bodies_apart [] m n f f' x distinct there e there' e' other mine = absurd (Memᴰ.not-nil there)
  bodies_apart (k ∷ nodes) m n f f' x distinct there e there' e' other mine =
      elim (Memᴰ.cases_cons there) [
        | inl first ↦ elim (Memᴰ.cases_cons there') [
          | inl second ↦ absurd (other (ap (λ (y : Node). y.id) (first ∙ sym second)))
          | inr later ↦
              head_apart k nodes n f f' x distinct
                (subst (λ (y : Node). y.feedback ≡ some f') first e) later e'
                (subst (λ (y : Node). Memᴰ x (feedback_body g y.id)) first mine)
        ]
        | inr later ↦ elim (Memᴰ.cases_cons there') [
          | inl second ↦ λ inside.
              head_apart k nodes m f' f x distinct
                (subst (λ (y : Node). y.feedback ≡ some f) second e') later e
                (subst (λ (y : Node). Memᴰ x (feedback_body g y.id)) second inside) mine
          | inr later' ↦
              bodies_apart nodes m n f f' x (tail_distinct k nodes distinct) later e later' e' other
                mine
        ]
      ]
