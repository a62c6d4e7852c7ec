-- ===== src/Bare.antt =====
-- A graph without the durations that validation stores (internal/graph/validate.go writes
-- `timeout` fields while it checks). Every other check reads a graph through its bare form.
pub mod Lookup
pub mod Walks
pub mod Checks
use oh_my_graph.Base.{String, List, [], ◌∷◌, map, Option, none, some}
use oh_my_graph.Base.Int.{pos}
use oh_my_graph.Graph.{Graph, Node, Index, Verification}

abbrev pub bare_verify : Option Verification → Option Verification
bare_verify none = none
bare_verify (some v) = some (record v { parsed_timeout = pos 0 })

abbrev pub bare_node : Node → Node
bare_node n = record n {
  parsed_timeout = pos 0;
  success_check = record n.success_check { verify = bare_verify n.success_check.verify };
}

abbrev pub bare_index : Index → Index
bare_index [] = []
bare_index ((id, n) ∷ index) = (id, bare_node n) ∷ bare_index index

abbrev pub bare : Graph → Graph
bare g = record g { nodes = map bare_node g.nodes; by_id = bare_index g.by_id }

abbrev pub bare_found : Option Node → Option Node
bare_found none = none
bare_found (some n) = some (bare_node n)
