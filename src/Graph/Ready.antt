-- ===== src/Graph/Ready.antt =====
-- `ReadyGiven`, `Roots` and `DependentsOf` in internal/graph/graph.go, read as sets of nodes.
use mathlib.Core.List.Memᴰ
use oh_my_graph.Base.{
  IsDistinct, map, String, ◌≡◌, refl, subst, ap, ◌↔◌, inl, inr, Bool, true, false, List, [], ◌∷◌,
  Memᴰ, contains, contains_iff, All, Bool-cases, arith,
}
use oh_my_graph.Graph.{
  Graph, Node, dependencies_satisfied, ready_from, ready_given, dependents_from, dependents_of,
}

-- A node that is not done, with all its dependencies done.
abbrev pub IsReady : (String → Bool) → Node → Type 0
IsReady done n = (done n.id ≡ false) × All (λ parent. done parent ≡ true) n.depends_on

dependencies_satisfied_iff :
    (parents : List String) (done : String → Bool)
    → (dependencies_satisfied parents done ≡ true) ↔ All (λ parent. done parent ≡ true) parents
unfolding dependencies_satisfied
dependencies_satisfied_iff [] done = (λ _. tt, λ _. refl)
dependencies_satisfied_iff (p ∷ parents) done =
    ground (arith, dependencies_satisfied_iff parents done)

-- The nodes of the list that satisfy `P`, in order, each by its id.
pub data Picks {ℓ} (P : Node → Type ℓ) : List Node → List String → Type ℓ where
  stop : Picks P [] []
  pick :
      {n : Node} {nodes : List Node} {out : List String}
      → P n
      → Picks P nodes out
      → Picks P (n ∷ nodes) (n.id ∷ out)
  skip :
      {n : Node} {nodes : List Node} {out : List String}
      → ¬ P n
      → Picks P nodes out
      → Picks P (n ∷ nodes) out

pub Picks-mem {ℓ} :
    {P : Node → Type ℓ} {nodes : List Node} {out : List String}
    → Picks P nodes out
    → (n : Node) → Memᴰ n nodes
    → P n
    → Memᴰ n.id out
Picks-mem stop n m p = absurd (Memᴰ.not-nil m)
Picks-mem (pick q rest) n m p = elim (Memᴰ.cases_cons m) [
  | inl e ↦ Memᴰ.head (ap (λ (k : Node). k.id) e)
  | inr later ↦ Memᴰ.tail (Picks-mem rest n later p)
]
Picks-mem {P} (skip not_q rest) n m p = elim (Memᴰ.cases_cons m) [
  | inl e ↦ absurd (not_q (subst P e p))
  | inr later ↦ Picks-mem rest n later p
]

-- Each id that is picked is the id of a node that satisfies `P`.
pub picked {ℓ} :
    {P : Node → Type ℓ} {nodes : List Node} {out : List String}
    → Picks P nodes out
    → (x : String) → Memᴰ x out
    → (n : Node) × Memᴰ n nodes × P n × (x ≡ n.id)
picked stop x m = absurd (Memᴰ.not-nil m)
picked (pick {n} p rest) x m = elim (Memᴰ.cases_cons m) [
  | inl e ↦ (n, Memᴰ.head refl, p, e)
  | inr later ↦ let (k, mem, q, e) = picked rest x later in (k, Memᴰ.tail mem, q, e)
]
picked (skip not_p rest) x m = let (k, mem, q, e) = picked rest x m in (k, Memᴰ.tail mem, q, e)

pub picked-IsDistinct {ℓ} :
    {P : Node → Type ℓ} {nodes : List Node} {out : List String}
    → Picks P nodes out
    → IsDistinct (map (λ (k : Node). k.id) nodes)
    → IsDistinct out
picked-IsDistinct stop h = tt
picked-IsDistinct (pick {n} p rest) (fresh, h) = (
  λ m.
      let (k, mem, _, e) = picked rest n.id m in
      fresh (Memᴰ.cast e (Memᴰ.map (λ (j : Node). j.id) mem)),
  picked-IsDistinct rest h,
)
picked-IsDistinct (skip not_p rest) (fresh, h) = picked-IsDistinct rest h

ready_from-Picks :
    (nodes : List Node) (done : String → Bool) → Picks (IsReady done) nodes (ready_from nodes done)
unfolding ready_from
ready_from-Picks [] done = stop
ready_from-Picks (n ∷ nodes) done =
    let rest = ready_from-Picks nodes done in
    let met = dependencies_satisfied_iff n.depends_on done in
    elim (Bool-cases (done n.id)) [
      | inl e ↦ rw e (skip (λ (h, _). absurd (cc (e, h))) rest)
      | inr e ↦ elim (Bool-cases (dependencies_satisfied n.depends_on done)) [
        | inl f ↦ rw (e, f) (pick (e, met.0 f) rest)
        | inr f ↦ rw (e, f) (skip (λ (_, h). absurd (cc (f, met.1 h))) rest)
      ]
    ]

-- `ReadyGiven` lists, in declaration order, the nodes that are ready and no others.
pub ready_given-Picks :
    (g : Graph) (done : String → Bool) → Picks (IsReady done) g.nodes (ready_given g done)
unfolding ready_given
ready_given-Picks g done = ready_from-Picks g.nodes done

dependents_from-Picks :
    (nodes : List Node) (id : String)
    → Picks (λ n. Memᴰ id n.depends_on) nodes (dependents_from nodes id)
unfolding dependents_from
dependents_from-Picks [] id = stop
dependents_from-Picks (n ∷ nodes) id =
    let rest = dependents_from-Picks nodes id in
    let known = contains_iff n.depends_on id in
    elim (Bool-cases (contains n.depends_on id)) [
      | inl e ↦ rw e (pick (known.0 e) rest)
      | inr e ↦ rw e (skip (λ m. absurd (cc (e, known.1 m))) rest)
    ]

-- `DependentsOf` lists, in declaration order, the nodes that name the id among their
-- dependencies, and no others.
pub dependents_of-Picks :
    (g : Graph) (id : String) → Picks (λ n. Memᴰ id n.depends_on) g.nodes (dependents_of g id)
unfolding dependents_of
dependents_of-Picks g id = dependents_from-Picks g.nodes id
