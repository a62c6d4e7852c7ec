-- ===== src/Validate/Progress.antt =====
-- A well-formed graph is never stuck: `ReadyGiven` in internal/graph/graph.go finds a node to run
-- as long as a node is not done.
use mathlib.Core.List.Memᴰ
use oh_my_graph.Base.{
  ℕ, zero, suc, ◌<◌, String, eq_iff, ◌≡◌, refl, sym, subst, ◌∙◌, ◌⊎◌, inl, inr, Bool, true, false,
  not, List, [], ◌∷◌, some, All, All-mem, All-map, Memᴰ, contains, contains_iff, arith, Bool-cases,
  count_if, count_if_strict, count_if-le-length, length,
}
use oh_my_graph.Graph.{Graph, Node, node_by_id, parents_of, ready_given}
use oh_my_graph.Graph.Index.{IsIndexed, ids, node_by_id-mem, last_with_id-distinct}
use oh_my_graph.Graph.Paths.{Above, parent, Above-trans, IsAcyclic}
use oh_my_graph.Graph.Ready.{IsReady, Picks-mem, ready_given-Picks}
use oh_my_graph.Checks.Nodes.{IsProperParent}
use oh_my_graph.Validate.{Std}
use oh_my_graph.Validate.Decides.{IsWellFormed}

-- All are done, or one is not.
done_or_first :
    (done : String → Bool) (parents : List String)
    → All (λ p. done p ≡ true) parents ⊎ ((p : String) × Memᴰ p parents × (done p ≡ false))
done_or_first done [] = inl tt
done_or_first done (p ∷ parents) = elim (Bool-cases (done p)) [
  | inr e ↦ inr (p, Memᴰ.head refl, e)
  | inl e ↦ elim (done_or_first done parents) [
    | inl all ↦ inl (e, all)
    | inr (q, m, f) ↦ inr (q, Memᴰ.tail m, f)
  ]
]

module _ (g : Graph) (indexed : IsIndexed g)
    (edges : All (λ n. All (IsProperParent g n.id) n.depends_on) g.nodes) (acyclic : IsAcyclic g)
    (done : String → Bool) where
  -- The ids that the climb has not passed.
  abbrev unpassed : List String → String → Bool
  unpassed path id = not (contains path id)

  passing :
      (path : List String) (x : String)
      → Memᴰ x (ids g)
      → (¬ Memᴰ x path)
      → count_if (unpassed (x ∷ path)) (ids g) < count_if (unpassed path) (ids g)
  passing path x m fresh =
      count_if_strict (unpassed path) (unpassed (x ∷ path)) (λ y. ground (arith, eq_iff x y))
        (ids g) x m (ground (arith, contains_iff path x)) (ground (arith, eq_iff x x))

  -- The climb from a node that is not done, along parents that are not done.
  climb-IsReady :
      (fuel : ℕ) (path : List String) (n : Node)
      → node_by_id g n.id ≡ some n
      → done n.id ≡ false
      → All (λ z. Above g z n.id) path
      → count_if (unpassed path) (ids g) < fuel
      → (m : Node) × Memᴰ m g.nodes × IsReady done m
  unfolding parents_of
  climb-IsReady zero path n found undone below enough = absurd (omega (arith, enough))
  climb-IsReady (suc fuel) path n found undone below enough =
      elim (done_or_first done n.depends_on) [
        | inl all ↦ (n, (node_by_id-mem indexed n.id n found).0, (undone, all))
        | inr (p, m, undone_p) ↦
            let here = (node_by_id-mem indexed n.id n found).0 in
            let fresh : ¬ Memᴰ n.id path = λ k. acyclic n.id (All-mem _ path below n.id k) in
            let less = passing path n.id (Memᴰ.map (λ (k : Node). k.id) here) fresh in
            let edge : Above g n.id p = parent (rw (found, parents_of) m) in
            let ((k, found_k), _) = All-mem _ n.depends_on (All-mem _ g.nodes edges n here) p m in
            let same : p ≡ k.id = sym (node_by_id-mem indexed p k found_k).1 in
            let edge_k : Above g n.id k.id = subst (Above g n.id) same edge in
            let found_at : node_by_id g k.id ≡ some k =
              subst (λ i. node_by_id g i ≡ some k) same found_k in
            let undone_k : done k.id ≡ false = subst (λ i. done i ≡ false) same undone_p in
            let below_k : All (λ z. Above g z k.id) (n.id ∷ path) =
              (edge_k, All-map _ _ (λ z above. Above-trans above edge_k) path below) in
            climb-IsReady fuel (n.id ∷ path) k found_at undone_k below_k
              (omega (arith, less, enough))
      ]

-- As long as a node of a well-formed graph is not done, some node is ready, and `ReadyGiven`
-- lists it.
pub ready_given-progress :
    (std : Std) (g : Graph) (indexed : IsIndexed g)
    → IsWellFormed std g indexed
    → (done : String → Bool) (n : Node) → Memᴰ n g.nodes
    → done n.id ≡ false
    → (m : Node) × Memᴰ m g.nodes × IsReady done m × Memᴰ m.id (ready_given g done)
ready_given-progress std g indexed wf done n mem undone =
    let found = indexed.last n.id ∙ last_with_id-distinct g.nodes n wf.distinct mem in
    let few = count_if-le-length (λ id. not (contains [] id)) (ids g) in
    let (m, at, ready) =
      climb-IsReady g indexed wf.edges wf.acyclic done (suc (length (ids g))) [] n found undone tt
        (omega (arith, few)) in
    (m, at, ready, Picks-mem (ready_given-Picks g done) m at ready)
