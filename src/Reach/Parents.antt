-- ===== src/Reach/Parents.antt =====
-- Which parents LintFeedbackReach of internal/graph/feedback_reach.go reports.
use mathlib.Core.List.Memᴰ
use mathlib.Core.Bool.{false≢true}
use oh_my_graph.Base.{
  String, ◌==◌, eq_false_iff, Bool, true, false, ◌||◌, List, [], ◌∷◌, map, ◌≡◌, ◌≢◌, ◌↔◌, inl, inr,
  refl, sym, subst, ◌∙◌, some, Memᴰ, All, All-mem, All-map, arith, contains, contains_iff,
  Bool-cases, Option-cases, if◌then◌else◌,
}
use oh_my_graph.Graph.{Graph, Node, Feedback, node_by_id, parents_of, type_gate}
use oh_my_graph.Graph.Index.{IsIndexed, ids, last_with_id-distinct, node_by_id-mem_ids}
use oh_my_graph.Graph.Paths.{Above, parent, Above-first}
use oh_my_graph.Ancestors.{ancestor_set, IdSet}
use oh_my_graph.Ancestors.Decides.{Between, ancestor_set_iff}
use oh_my_graph.Feedback.{feedback_body}
use oh_my_graph.Feedback.Body.{mem-feedback_body}
use oh_my_graph.Feedback.Declared.{AllArcs-mem}
use oh_my_graph.Issue.Collect.{iff_trans}
use oh_my_graph.Validate.{Std}
use oh_my_graph.Validate.Decides.{IsWellFormed}
use oh_my_graph.Reach.{
  FeedbackAdvisory, is_nil, unreachable_from, unreachable_producers, advisory, arc_advisories,
}

-- A declared node that is no gate, outside the body and not above the target.
abbrev IsOutside : Graph → List String → IdSet → String → Type 0
IsOutside g body upstream p =
    ((contains body p ≡ false) × (upstream p ≡ false))
    × ((m : Node) × (node_by_id g p ≡ some m) × ((m.type == type_gate) ≡ false))

unreachable_from-All :
    (g : Graph) (body : List String) (upstream : IdSet) (parents : List String)
    → All
        (λ p. Memᴰ p parents × IsOutside g body upstream p)
        (unreachable_from g body upstream parents)
unfolding unreachable_from
unreachable_from-All g body upstream [] = tt
unreachable_from-All g body upstream (p ∷ parents) =
    let rest =
      All-map (λ q. Memᴰ q parents × IsOutside g body upstream q)
        (λ q. Memᴰ q (p ∷ parents) × IsOutside g body upstream q) (λ q (m, out). (Memᴰ.tail m, out))
        _ (unreachable_from-All g body upstream parents) in
    elim (Bool-cases (contains body p || upstream p)) [
      | inl e ↦ rw e rest
      | inr e ↦ elim (Option-cases (node_by_id g p)) [
        | inl none_known ↦ rw (e, none_known) rest
        | inr (m, known) ↦ elim (Bool-cases (m.type == type_gate)) [
          | inl gate ↦ rw (e, known, gate) rest
          | inr other ↦
              rw (e, known, other) ((Memᴰ.head refl, (or_false _ _ e, (m, known, other))), rest)
        ]
      ]
    ]
  where
    or_false : (a b : Bool) → (a || b) ≡ false → (a ≡ false) × (b ≡ false)
    or_false a b h = ground arith

mem-unreachable_from :
    (g : Graph) (body : List String) (upstream : IdSet) (parents : List String) (p : String)
    → Memᴰ p parents
    → IsOutside g body upstream p
    → Memᴰ p (unreachable_from g body upstream parents)
unfolding unreachable_from
mem-unreachable_from g body upstream [] p m out = absurd (Memᴰ.not-nil m)
mem-unreachable_from g body upstream (q ∷ parents) p m out = elim (Memᴰ.cases_cons m) [
  | inl same ↦
      let ((apart, below), (node, known, other)) = subst (IsOutside g body upstream) same out in
      rw (apart, below, known, other) (Memᴰ.head same)
  | inr later ↦
      let rest = mem-unreachable_from g body upstream parents p later out in
      elim (Bool-cases (contains body q || upstream q)) [
        | inl e ↦ rw e rest
        | inr e ↦ elim (Option-cases (node_by_id g q)) [
          | inl none_known ↦ rw (e, none_known) rest
          | inr (node, known) ↦ elim (Bool-cases (node.type == type_gate)) [
            | inl gate ↦ rw (e, known, gate) rest
            | inr other ↦ rw (e, known, other) (Memᴰ.tail rest)
          ]
        ]
      ]
]

false_iff {ℓ} : {P : Type ℓ} {b : Bool} → (b ≡ true) ↔ P → (b ≡ false) ↔ (¬ P)
false_iff {b = true} test = (λ h. absurd (false≢true (sym h)), λ off. absurd (off (test.0 refl)))
false_iff {b = false} test = (λ _ p. absurd (false≢true (test.1 p)), λ _. refl)

mem-map :
    {A : Type 0} {B : Type 0} (h : A → B) (b : B) (xs : List A)
    → Memᴰ b (map h xs) ↔ ((x : A) × Memᴰ x xs × (b ≡ h x))
mem-map h b [] = (λ m. absurd (Memᴰ.not-nil m), λ (x, m, e). absurd (Memᴰ.not-nil m))
mem-map h b (x ∷ xs) = (
  λ m. elim (Memᴰ.cases_cons m) [
    | inl e ↦ (x, Memᴰ.head refl, e)
    | inr later ↦ let (y, m', e) = (mem-map h b xs).0 later in (y, Memᴰ.tail m', e)
  ],
  λ (y, m, e). Memᴰ.cast e (Memᴰ.map h m),
)

mem-if_nil :
    {A : Type 0} {B : Type 0} (h : A → B) (b : B) (xs : List A)
    → Memᴰ b (if is_nil xs then [] else map h xs) ↔ Memᴰ b (map h xs)
mem-if_nil h b [] = (λ m. m, λ m. m)
mem-if_nil h b (x ∷ xs) = (λ m. m, λ m. m)

mem-not_nil : {A : Type 0} {x : A} {xs : List A} → Memᴰ x xs → is_nil xs ≡ false
mem-not_nil {xs = []} m = absurd (Memᴰ.not-nil m)
mem-not_nil {xs = _ ∷ _} m = refl

-- The parent `p` of the declarer `n` is a declared node other than a gate, lies on no path from the
-- target of the arc up to the declarer, and is no ancestor of the target.
abbrev pub IsUnreachable : Graph → Node → Feedback → String → Type 0
IsUnreachable g n f p =
    (Memᴰ p n.depends_on × (¬ Between g f.rerun n.id p × ¬ Above g f.rerun p))
    × ((m : Node) × (node_by_id g p ≡ some m) × (m.type ≢ type_gate))

module _ (std : Std) (g : Graph) (indexed : IsIndexed g) (sound : IsWellFormed std g indexed)
    (n : Node) (f : Feedback) (listed : Memᴰ n g.nodes) (arc : n.feedback ≡ some f) where
  abbrev body : List String
  body = feedback_body g n.id

  found : node_by_id g n.id ≡ some n
  found = indexed.last n.id ∙ last_with_id-distinct g.nodes n sound.distinct listed

  in_body : (p : String) → Memᴰ p body ↔ (Memᴰ p (ids g) × Between g f.rerun n.id p)
  in_body p =
      let (_, ((_, target), _)) = AllArcs-mem g indexed g.nodes n f sound.arcs.0 listed arc in
      mem-feedback_body g n f p indexed found arc target

  IsOutside-iff :
      (p : String)
      → (Memᴰ p n.depends_on × IsOutside g body (ancestor_set g f.rerun) p) ↔ IsUnreachable g n f p
  IsOutside-iff p = (
    λ (m, ((apart, below), (node, known, other))). (
      (
        m,
        (
          λ between.
              (false_iff (contains_iff body p)).0 apart
                ((in_body p).1 (node_by_id-mem_ids indexed p node known, between)),
          λ up. (false_iff (ancestor_set_iff g indexed f.rerun p)).0 below up,
        ),
      ),
      (node, known, (eq_false_iff _ _).0 other),
    ),
    λ ((m, (apart, below)), (node, known, other)). (
      m,
      (
        (
          (false_iff (contains_iff body p)).1 (λ inside. apart ((in_body p).0 inside).1),
          (false_iff (ancestor_set_iff g indexed f.rerun p)).1 below,
        ),
        (node, known, (eq_false_iff _ _).1 other),
      ),
    ),
  )

  -- The producers that an arc cannot reach.
  reported_iff : (p : String) → Memᴰ p (unreachable_producers g n f) ↔ IsUnreachable g n f p
  reported_iff p = (
    λ m.
        (IsOutside-iff p).0
          (All-mem _ _ (unreachable_from-All g body (ancestor_set g f.rerun) n.depends_on) p m),
    λ out.
        let (m, outside) = (IsOutside-iff p).1 out in
        mem-unreachable_from g body (ancestor_set g f.rerun) n.depends_on p m outside,
  )

  -- A parent that is the only one lies on every path to the declarer.
  pub sole-reached : (p : String) → n.depends_on ≡ p ∷ [] → ¬ IsUnreachable g n f p
  unfolding parents_of
  sole-reached p only ((m, (apart, below)), known) =
      let (_, ((_, (_, up)), _)) = AllArcs-mem g indexed g.nodes n f sound.arcs.0 listed arc in
      let (y, first, rest) = Above-first up in
      let only_parent : Memᴰ y (p ∷ []) = rw (found, parents_of, only) at first in
      let same : y ≡ p = elim (Memᴰ.cases_cons only_parent) [
        | inl e ↦ e
        | inr none_left ↦ absurd (Memᴰ.not-nil none_left)
      ] in
      elim rest [
        | inl target ↦ apart (inr (inl (sym same ∙ target)))
        | inr above ↦ apart (
            inr (
              inr (
                subst (Above g n.id) same (parent first),
                subst (λ z. Above g z f.rerun) same above,
              )))
      ]

  pub mem-arc_advisories :
      (listing : String → List String) (a : FeedbackAdvisory)
      → Memᴰ a (arc_advisories g listing n f)
        ↔ ((p : String) × IsUnreachable g n f p × (a ≡ advisory g listing n f p))
  unfolding arc_advisories
  mem-arc_advisories listing a =
      let own : Memᴰ n.id body =
        (in_body n.id).1 (node_by_id-mem_ids indexed n.id n found, inl refl) in
      rw (mem-not_nil own) (
        iff_trans (mem-if_nil (advisory g listing n f) a (unreachable_producers g n f)) (
          λ m.
              let (p, m', e) =
                (mem-map (advisory g listing n f) a (unreachable_producers g n f)).0 m in
              (p, (reported_iff p).0 m', e),
          λ (p, out, e).
              (mem-map (advisory g listing n f) a (unreachable_producers g n f)).1
                (p, (reported_iff p).1 out, e),
        ))
