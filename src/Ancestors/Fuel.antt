-- ===== src/Ancestors/Fuel.antt =====
-- The walk of `ancestorSet` ends within its fuel, two more than the number of nodes.
use oh_my_graph.Base.{
  ℕ, zero, suc, ◌+◌, ◌≤◌, ◌<◌, String, eq_iff, ◌≡◌, refl, ◌≢◌, ◌⊎◌, inl, inr, false, not, List, [],
  ◌∷◌, none, some, arith, length, length-map, count_if, count_if-le-length, count_if_mono,
  count_if_strict, Memᴰ, Option-cases,
}
use oh_my_graph.Graph.{Graph, Node, parents_of}
use oh_my_graph.Graph.Index.{IsIndexed, ids, parents_of-known, node_by_id-mem_ids}
use oh_my_graph.Ancestors.{IdSet, no_ids, mark, climb, walk}
use oh_my_graph.Ancestors.Walk.{Walked, walk-Walked, climb_step, seen, starves, enters}

-- How many declared ids the set lacks.
abbrev missing : Graph → IdSet → ℕ
missing g set = count_if (λ x. not (set x)) (ids g)

missing-mark-le : (g : Graph) (set : IdSet) (p : String) → missing g (mark set p) ≤ missing g set
missing-mark-le g set p =
    count_if_mono (λ x. not (set x)) (λ x. not (mark set p x)) (λ x h. ground (arith, eq_iff p x))
      (ids g)

missing-mark-lt :
    (g : Graph) (set : IdSet) (p : String)
    → Memᴰ p (ids g)
    → set p ≡ false
    → missing g (mark set p) < missing g set
missing-mark-lt g set p m f =
    count_if_strict (λ x. not (set x)) (λ x. not (mark set p x)) (λ x h. ground (arith, eq_iff p x))
      (ids g) p m (rw f) (ground (arith, eq_iff p p))

Walked-missing-le :
    {g : Graph} {id : String} {ps : List String} {set set' : IdSet}
    → Walked g id ps set set'
    → missing g set' ≤ missing g set
Walked-missing-le {g} {set} {set'} w =
    count_if_mono (λ x. not (set x)) (λ x. not (set' x)) (λ x h. ground (arith, w.grows x)) (ids g)

-- Enough fuel to walk up from `id`: one round where it has no parents.
abbrev Enough : Graph → ℕ → String → IdSet → Type 0
Enough g f id set = (0 < f) × ((parents_of g id ≡ []) ⊎ (missing g set + 1 < f))

abbrev NeverStarves : Graph → ℕ → Type 0
NeverStarves g f = (id : String) (set : IdSet) → Enough g f id set → walk g f id set ≢ none

module _ (g : Graph) (indexed : IsIndexed g) where
  -- The parent `p` was just marked.
  Enough-mark :
      (f : ℕ) (set : IdSet) (p : String)
      → set p ≡ false
      → missing g set < f
      → Enough g f p (mark set p)
  Enough-mark f set p e lt = (omega arith, from_parents (parents_of g p) (λ q m. m))
    where
      from_parents :
          (ps : List String)
          → ((q : String) → Memᴰ q ps → Memᴰ q (parents_of g p))
          → (ps ≡ []) ⊎ (missing g (mark set p) + 1 < f)
      from_parents [] sub = inl refl
      from_parents (q ∷ qs) sub =
          let (n, found) = parents_of-known indexed p q (sub q (Memᴰ.head refl)) in
          let lt' = missing-mark-lt g set p (node_by_id-mem_ids indexed p n found) e in
          inr (omega arith)

  climb-ne-none :
      (f : ℕ)
      → NeverStarves g f
      → (ps : List String) (set : IdSet) → missing g set < f
      → climb (walk g f) ps set ≢ none
  unfolding climb
  climb-ne-none f known [] set lt h = cc
  climb-ne-none f known (p ∷ ps) set lt h = elim (climb_step (walk g f) p ps set none h) [
    | seen e rest ↦ climb-ne-none f known ps set lt rest
    | starves e v r ↦ known p (mark set p) (Enough-mark f set p e lt) v
    | enters s1 e v rest ↦
        let le = Walked-missing-le (walk-Walked g f p (mark set p) s1 v) in
        let le' = missing-mark-le g set p in climb-ne-none f known ps s1 (omega arith) rest
  ]

  walk-ne-none : (f : ℕ) → NeverStarves g f
  unfolding walk
  walk-ne-none zero id set enough h = omega arith
  walk-ne-none (suc f) id set (pos, inl none_above) h = cc (rw (none_above, climb) at h)
  walk-ne-none (suc f) id set (pos, inr lt) h =
      climb-ne-none f (walk-ne-none f) (parents_of g id) set (omega arith) h

  -- The walk from any id returns a set.
  pub walk_total :
      (id : String) → (set : IdSet) × (walk g (length g.nodes + 2) id no_ids ≡ some set)
  walk_total id = elim (Option-cases (walk g (length g.nodes + 2) id no_ids)) [
    | inr found ↦ found
    | inl e ↦
        let bound = count_if-le-length (λ x. not (no_ids x)) (ids g) in
        let size = length-map (λ (n : Node). n.id) g.nodes in
        absurd (walk-ne-none (length g.nodes + 2) id no_ids (omega arith, inr (omega arith)) e)
  ]
