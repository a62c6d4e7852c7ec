-- ===== src/Graph/Index.antt =====
-- Laws of the index of internal/graph/graph.go: a lookup finds the last node declared with the id.
use mathlib.Core.List.Memᴰ
use oh_my_graph.Base.{
  String, ◌==◌, eq_iff, ◌≡◌, refl, sym, ap, subst, ◌∙◌, inl, inr, List, [], ◌∷◌, map, Option, none,
  some, Memᴰ, arith, if◌then◌else◌, Option-cases, IsDistinct,
}
use oh_my_graph.Graph.{
  Graph, Node, RawGraph, Index, index_lookup, index_set, build_index, from_raw, normalize_nodes,
  node_by_id, parents_of,
}

pub index_lookup-set :
    (index : Index) (k j : String) (n : Node)
    → index_lookup (index_set index k n) j ≡ (if k == j then some n else index_lookup index j)
unfolding index_lookup index_set
index_lookup-set [] k j n = refl
index_lookup-set ((i, old) ∷ rest) k j n =
    ground (arith, eq_iff k j, eq_iff i k, eq_iff i j, index_lookup-set rest k j n)

-- The last node of the list with the given id.
abbrev pub last_with_id : List Node → String → Option Node
last_with_id [] id = none
last_with_id (n ∷ nodes) id = elim (last_with_id nodes id) [
  | some later ↦ some later
  | none ↦ if n.id == id then some n else none
]

build_index-last :
    (nodes : List Node) (index : Index) (id : String)
    → index_lookup (build_index index nodes) id
      ≡ elim (last_with_id nodes id) [ some n ↦ some n | none ↦ index_lookup index id ]
unfolding build_index
build_index-last [] index id = refl
build_index-last (n ∷ nodes) index id =
    ground
      (arith, build_index-last nodes (index_set index n.id n) id, index_lookup-set index n.id id n)

-- In a graph built from a decoded document, an id is looked up as the last node that has it.
pub node_by_id-from_raw :
    (raw : RawGraph) (id : String)
    → node_by_id (from_raw raw) id ≡ last_with_id (from_raw raw).nodes id
unfolding node_by_id from_raw index_lookup
node_by_id-from_raw raw id = ground (arith, build_index-last (normalize_nodes raw.nodes) [] id)

-- The index agrees with the node list, as `from_raw` leaves it.
pub record IsIndexed (g : Graph) : Type 0 where
  pub last : (id : String) → node_by_id g id ≡ last_with_id g.nodes id

pub from_raw-IsIndexed : (raw : RawGraph) → IsIndexed (from_raw raw)
from_raw-IsIndexed raw = record { last = node_by_id-from_raw raw }

pub last_with_id-mem :
    (nodes : List Node) (id : String) (n : Node)
    → last_with_id nodes id ≡ some n
    → Memᴰ n nodes × (n.id ≡ id)
last_with_id-mem [] id n h = cc
last_with_id-mem (m ∷ nodes) id n h = elim (Option-cases (last_with_id nodes id)) [
  | inl none_later ↦
      let found : (m.id ≡ id) × (m ≡ n) = ground (arith, eq_iff m.id id) in
      (Memᴰ.head (sym found.1), subst (λ (k : Node). k.id ≡ id) found.1 found.0)
  | inr (k, later) ↦
      let same : k ≡ n = ground arith in
      let rest = last_with_id-mem nodes id n (later ∙ ap some same) in (Memᴰ.tail rest.0, rest.1)
]

-- A declared node is found under its id.
pub last_with_id-some :
    (nodes : List Node) (n : Node) → Memᴰ n nodes → (m : Node) × (last_with_id nodes n.id ≡ some m)
last_with_id-some [] n m = absurd (Memᴰ.not-nil m)
last_with_id-some (k ∷ nodes) n m = elim (Option-cases (last_with_id nodes n.id)) [
  | inr (later, e) ↦ (later, ground arith)
  | inl e ↦ elim (Memᴰ.cases_cons m) [
    | inl same ↦ (k, ground (arith, eq_iff k.id n.id, ap (λ (x : Node). x.id) same))
    | inr deep ↦ let (found, f) = last_with_id-some nodes n deep in absurd (cc (e, f))
  ]
]

pub node_by_id-mem :
    {g : Graph}
    → IsIndexed g
    → (id : String) (n : Node) → node_by_id g id ≡ some n
    → Memᴰ n g.nodes × (n.id ≡ id)
node_by_id-mem {g} indexed id n h = last_with_id-mem g.nodes id n (sym (indexed.last id) ∙ h)

-- An id with parents is the id of a declared node.
pub parents_of-known :
    {g : Graph}
    → IsIndexed g
    → (id parent : String) → Memᴰ parent (parents_of g id)
    → (n : Node) × (node_by_id g id ≡ some n)
unfolding parents_of
parents_of-known {g} indexed id parent m = elim (Option-cases (node_by_id g id)) [
  | inr found ↦ found
  | inl missing ↦ absurd (Memᴰ.not-nil (rw (missing, parents_of) at m))
]

-- The ids that the graph declares, in order.
abbrev pub ids : Graph → List String
ids g = map (λ n. n.id) g.nodes

pub node_by_id-mem_ids :
    {g : Graph}
    → IsIndexed g
    → (id : String) (n : Node) → node_by_id g id ≡ some n
    → Memᴰ id (ids g)
node_by_id-mem_ids {g} indexed id n h =
    let (m, e) = node_by_id-mem indexed id n h in
    Memᴰ.cast (sym e) (Memᴰ.map (λ (k : Node). k.id) m)

-- Where ids differ, a declared node is the one found under its id.
pub last_with_id-distinct :
    (nodes : List Node) (n : Node)
    → IsDistinct (map (λ (k : Node). k.id) nodes)
    → Memᴰ n nodes
    → last_with_id nodes n.id ≡ some n
last_with_id-distinct [] n distinct m = absurd (Memᴰ.not-nil m)
last_with_id-distinct (k ∷ nodes) n (fresh, distinct) m = elim (Memᴰ.cases_cons m) [
  | inr later ↦ rw (last_with_id-distinct nodes n distinct later)
  | inl same ↦ elim (Option-cases (last_with_id nodes n.id)) [
    | inl e ↦ rw (e, same) (ground (arith, eq_iff k.id k.id))
    | inr (later, e) ↦
        let (mem, at) = last_with_id-mem nodes n.id later e in
        let here = Memᴰ.map (λ (x : Node). x.id) mem in
        absurd (fresh (Memᴰ.cast (ap (λ (x : Node). x.id) (sym same) ∙ sym at) here))
  ]
]
