-- ===== src/Acyclic.antt =====
-- internal/graph/validate.go: the three-colour depth-first search for a dependency cycle.
-- The colour map is a function whose missing keys read white, as Go's zero value does. The search
-- takes fuel, one more than the number of nodes; Acyclic/Fuel shows that it is never used up.
pub mod Colours
pub mod Fuel
pub mod Sound
pub mod Complete
pub mod Decides
use oh_my_graph.Base.{ℕ, zero, suc, String, ◌==◌, List, [], ◌∷◌, if◌then◌else◌, length}
use oh_my_graph.Graph.{Graph, Node, parents_of}

pub data Colour : Type 0 where
  white grey black : Colour

abbrev pub Colours : Type 0
Colours = String → Colour

abbrev pub all_white : Colours
all_white _ = white

unfoldable pub paint : Colours → String → Colour → Colours
paint colour id c x = if id == x then c else colour x

-- The outcome of `visit`: the id at which a cycle closed, or the colours of an acyclic subtree.
pub data Visit : Type 0 where
  cycle : String → Visit
  clear : Colours → Visit
  out_of_fuel : Visit

-- The loop over a node's DependsOn; `go` is the recursive call of `visit`.
unfoldable pub scan_parents : (String → Colours → Visit) → List String → Colours → Visit
scan_parents go [] colour = clear colour
scan_parents go (parent ∷ parents) colour = elim (colour parent) [
  | grey ↦ cycle parent
  | black ↦ scan_parents go parents colour
  | white ↦ elim (go parent colour) [
    | clear colour' ↦ scan_parents go parents colour'
    | cycle at ↦ cycle at
    | out_of_fuel ↦ out_of_fuel
  ]
]

finish : String → Visit → Visit
unfolding paint
finish id (clear colour) = clear (paint colour id black)
finish id (cycle at) = cycle at
finish id out_of_fuel = out_of_fuel

unfoldable pub visit : Graph → ℕ → String → Colours → Visit
unfolding scan_parents finish paint
visit g zero id colour = out_of_fuel
visit g (suc fuel) id colour =
    finish id (scan_parents (visit g fuel) (parents_of g id) (paint colour id grey))

-- The loop of `validateAcyclic` over the nodes: a search from each white node.
unfoldable pub sweep : Graph → ℕ → List Node → Colours → Visit
unfolding visit
sweep g fuel [] colour = clear colour
sweep g fuel (n ∷ nodes) colour = elim (colour n.id) [
  | white ↦ elim (visit g fuel n.id colour) [
    | clear colour' ↦ sweep g fuel nodes colour'
    | cycle at ↦ cycle at
    | out_of_fuel ↦ out_of_fuel
  ]
  | _ ↦ sweep g fuel nodes colour
]

unfoldable pub search_cycle : Graph → Visit
unfolding sweep
search_cycle g = sweep g (suc (length g.nodes)) g.nodes all_white
