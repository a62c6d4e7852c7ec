-- ===== src/Ancestors.antt =====
-- internal/graph/feedback.go: `ancestorSet` and `betweenSet`.
-- The recursive walk takes fuel, two more than the number of nodes. Ancestors/Walk shows that the
-- fuel is enough, so the empty set that stands for running out of it is never returned.
pub mod Walk
pub mod Fuel
pub mod Decides
use oh_my_graph.Base.{
  ℕ, zero, suc, ◌+◌, String, ◌==◌, Bool, true, false, ◌&&◌, ◌||◌, List, [], ◌∷◌, Option, none, some,
  if◌then◌else◌, length,
}
use oh_my_graph.Graph.{Graph, Node, parents_of}

-- A `map[string]bool` as a function; a missing key reads false.
abbrev pub IdSet : Type 0
IdSet = String → Bool

abbrev pub no_ids : IdSet
no_ids _ = false

abbrev pub mark : IdSet → String → IdSet
mark set id x = if id == x then true else set x

-- The loop over the parents; `go` is the recursive call of `walk`.
unfoldable pub climb : (String → IdSet → Option IdSet) → List String → IdSet → Option IdSet
climb go [] set = some set
climb go (parent ∷ parents) set = elim (set parent) [
  | true ↦ climb go parents set
  | false ↦ elim (go parent (mark set parent)) [ none ↦ none | some set' ↦ climb go parents set' ]
]

-- `none` is running out of fuel.
unfoldable pub walk : Graph → ℕ → String → IdSet → Option IdSet
unfolding climb
walk g zero id set = none
walk g (suc fuel) id set = climb (walk g fuel) (parents_of g id) set

unfoldable pub ancestor_set : Graph → String → IdSet
unfolding walk
ancestor_set g id = elim (walk g (length g.nodes + 2) id no_ids) [ none ↦ no_ids | some set ↦ set ]

unfoldable pub between_from : Graph → String → String → List Node → List String
unfolding ancestor_set
between_from g target declarer [] = []
between_from g target declarer (n ∷ nodes) =
    let rest = between_from g target declarer nodes in
    if n.id == declarer || n.id == target
    then n.id ∷ rest
    else if ancestor_set g declarer n.id && ancestor_set g n.id target
    then n.id ∷ rest
    else rest

unfoldable pub between_set : Graph → String → String → List String
unfolding between_from
between_set g target declarer = between_from g target declarer g.nodes
