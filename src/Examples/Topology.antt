-- ===== src/Examples/Topology.antt =====
-- The graph walks and questions of internal/graph on the sample graph, and a cycle that is found.
use oh_my_graph.Base.{String, ◌==◌, ◌≡◌, refl, ◌↔◌, ◌⊎◌, true, Bool, some, Memᴰ}
use oh_my_graph.Base.Int.{pos}
use oh_my_graph.Graph.{Node, Feedback, node_by_id, ready_given, from_raw, parents_of}
use oh_my_graph.Graph.Index.{ids}
use oh_my_graph.Graph.Paths.{Above, parent, IsAcyclic}
use oh_my_graph.Graph.Ready.{IsReady}
use oh_my_graph.Acyclic.{Colours, cycle, clear, search_cycle}
use oh_my_graph.Acyclic.Decides.{search_cycle_decides}
use oh_my_graph.Ancestors.{ancestor_set}
use oh_my_graph.Ancestors.Decides.{Between, ancestor_set_iff}
use oh_my_graph.Feedback.{feedback_body}
use oh_my_graph.Feedback.Body.{HasTarget, mem-feedback_body}
use oh_my_graph.Validate.Progress.{ready_given-progress}
use oh_my_graph.Examples.Samples.{
  sample_std, sample_graph, sample_indexed, sample_runnable, check_node, go_test,
}

search_cycle_decides_example :
    ((y : String) × (search_cycle sample_graph ≡ cycle y) × Above sample_graph y y)
    ⊎ ((c : Colours) × (search_cycle sample_graph ≡ clear c) × IsAcyclic sample_graph)
search_cycle_decides_example = search_cycle_decides sample_graph sample_indexed

ancestor_set_iff_example :
    (ancestor_set sample_graph "check" "plan" ≡ true) ↔ Above sample_graph "check" "plan"
ancestor_set_iff_example = ancestor_set_iff sample_graph sample_indexed "check" "plan"

-- Only the plan is done.
abbrev planned : String → Bool
planned id = id == "plan"

abbrev pub sample_check : Node
sample_check = record check_node {
  type = "claude-run";
  success_check = record check_node.success_check {
    verify = some (record go_test { timeout = "2m0s" });
  };
}

abbrev pub sample_arc : Feedback
sample_arc = record { rerun = "build"; max = pos 2 }

pub check_listed : Memᴰ sample_check sample_graph.nodes
unfolding from_raw
check_listed = Memᴰ.tail (Memᴰ.tail (Memᴰ.head refl))

ready_given-progress_example :
    (m : Node) × Memᴰ m sample_graph.nodes
    × IsReady planned m
    × Memᴰ m.id (ready_given sample_graph planned)
ready_given-progress_example =
    ready_given-progress sample_std sample_graph sample_indexed sample_runnable planned sample_check
      check_listed refl

check_found : node_by_id sample_graph "check" ≡ some sample_check
unfolding from_raw node_by_id
check_found = refl

check_target : HasTarget sample_graph "check" sample_arc
unfolding from_raw node_by_id parents_of
check_target = ((_, refl), parent (Memᴰ.head refl))

mem-feedback_body_example :
    Memᴰ "build" (feedback_body sample_graph "check")
    ↔ (Memᴰ "build" (ids sample_graph) × Between sample_graph "build" "check" "build")
mem-feedback_body_example =
    mem-feedback_body sample_graph sample_check sample_arc "build" sample_indexed check_found refl
      check_target
