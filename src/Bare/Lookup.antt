-- ===== src/Bare/Lookup.antt =====
-- Lookups and lists of ids in a bare graph.
use oh_my_graph.Base.{
  suc, String, ◌==◌, ◌≡◌, refl, ap, List, [], ◌∷◌, map, Option, none, some, length, Option-cases,
  Bool-cases, inl, inr,
}
use oh_my_graph.Graph.{
  Graph, Node, Index, index_lookup, node_by_id, parents_of, dependents_from, dependents_of, is_none,
}
use oh_my_graph.Bare.{bare_node, bare_index, bare, bare_found}

pub index_lookup-bare :
    (index : Index) (id : String)
    → index_lookup (bare_index index) id ≡ bare_found (index_lookup index id)
unfolding index_lookup
index_lookup-bare [] id = refl
index_lookup-bare ((k, n) ∷ index) id = elim (Bool-cases (k == id)) [
  | inl e ↦ rw e
  | inr e ↦ rw e (index_lookup-bare index id)
]

pub node_by_id-bare :
    (g : Graph) (id : String) → node_by_id (bare g) id ≡ bare_found (node_by_id g id)
unfolding node_by_id
node_by_id-bare g id = index_lookup-bare g.by_id id

pub is_none-bare :
    (g : Graph) (id : String) → is_none (node_by_id (bare g) id) ≡ is_none (node_by_id g id)
is_none-bare g id = rw (node_by_id-bare g id) (known (node_by_id g id))
  where
    known : (o : Option Node) → is_none (bare_found o) ≡ is_none o
    known none = refl
    known (some n) = refl

pub parents_of-bare : (g : Graph) (id : String) → parents_of (bare g) id ≡ parents_of g id
unfolding parents_of
parents_of-bare g id = elim (Option-cases (node_by_id g id)) [
  | inl e ↦ rw (node_by_id-bare g id, e, parents_of)
  | inr (n, e) ↦ rw (node_by_id-bare g id, e, parents_of)
]

pub length-bare : (nodes : List Node) → length (map bare_node nodes) ≡ length nodes
length-bare [] = refl
length-bare (n ∷ nodes) = ap suc (length-bare nodes)

dependents_from-bare :
    (nodes : List Node) (id : String)
    → dependents_from (map bare_node nodes) id ≡ dependents_from nodes id
unfolding dependents_from
dependents_from-bare [] id = refl
dependents_from-bare (n ∷ nodes) id = rw (dependents_from-bare nodes id)

pub dependents_of-bare : (g : Graph) (id : String) → dependents_of (bare g) id ≡ dependents_of g id
unfolding dependents_of
dependents_of-bare g id = dependents_from-bare g.nodes id
