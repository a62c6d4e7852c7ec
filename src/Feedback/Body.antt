-- ===== src/Feedback/Body.antt =====
-- The body of a feedback arc, node by node.
use oh_my_graph.Base.{String, ◌≡◌, ◌↔◌, some, Memᴰ}
use oh_my_graph.Graph.{Graph, Node, Feedback, node_by_id, is_none}
use oh_my_graph.Graph.Index.{IsIndexed, ids}
use oh_my_graph.Graph.Paths.{Above}
use oh_my_graph.Ancestors.{between_set}
use oh_my_graph.Ancestors.Decides.{Between, ancestor_set_iff, mem-between_set}
use oh_my_graph.Feedback.{feedback_body, body_of_arc}

-- The rerun target of an arc that leaves `id` is a declared node and a proper ancestor of it.
abbrev pub HasTarget : Graph → String → Feedback → Type 0
HasTarget g id f = ((n : Node) × (node_by_id g f.rerun ≡ some n)) × Above g id f.rerun

pub feedback_body-eq :
    (g : Graph) (declarer : Node) (f : Feedback)
    → IsIndexed g
    → node_by_id g declarer.id ≡ some declarer
    → declarer.feedback ≡ some f
    → HasTarget g declarer.id f
    → feedback_body g declarer.id ≡ between_set g f.rerun declarer.id
unfolding feedback_body
feedback_body-eq g declarer f indexed found arc ((t, known), above) =
    let marked = (ancestor_set_iff g indexed declarer.id f.rerun).1 above in
    rw (found, arc, known, is_none, marked, feedback_body, body_of_arc)

-- The body of an arc with a sound target is the declared nodes on a path of depends_on edges from
-- the target up to the declaring node, both included.
pub mem-feedback_body :
    (g : Graph) (declarer : Node) (f : Feedback) (x : String)
    → IsIndexed g
    → node_by_id g declarer.id ≡ some declarer
    → declarer.feedback ≡ some f
    → HasTarget g declarer.id f
    → Memᴰ x (feedback_body g declarer.id) ↔ (Memᴰ x (ids g) × Between g f.rerun declarer.id x)
mem-feedback_body g declarer f x indexed found arc target =
    rw (feedback_body-eq g declarer f indexed found arc target)
      (mem-between_set g indexed f.rerun declarer.id x)
