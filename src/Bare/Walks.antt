-- ===== src/Bare/Walks.antt =====
-- Ancestors and loop bodies in a bare graph.
use mathlib.Core.Path.{fun_ext}
use oh_my_graph.Base.{
  ℕ, zero, suc, ◌+◌, String, ◌≡◌, refl, List, [], ◌∷◌, map, Option, none, some, length,
  Option-cases, inl, inr,
}
use oh_my_graph.Graph.{Graph, Node, Feedback, node_by_id}
use oh_my_graph.Ancestors.{walk, ancestor_set, between_from, between_set}
use oh_my_graph.Feedback.{body_of_arc, feedback_body}
use oh_my_graph.Bare.{bare_node, bare}
use oh_my_graph.Bare.Lookup.{node_by_id-bare, is_none-bare, parents_of-bare, length-bare}

walk-bare : (g : Graph) (fuel : ℕ) → walk (bare g) fuel ≡ walk g fuel
unfolding walk
walk-bare g zero = refl
walk-bare g (suc fuel) =
    fun_ext (λ id. fun_ext (λ set. rw (walk-bare g fuel) (rw (parents_of-bare g id))))

pub ancestor_set-bare : (g : Graph) (id : String) → ancestor_set (bare g) id ≡ ancestor_set g id
unfolding ancestor_set
ancestor_set-bare g id = rw (length-bare g.nodes, walk-bare g (length g.nodes + 2), ancestor_set)

between_from-bare :
    (g : Graph) (target declarer : String) (nodes : List Node)
    → between_from (bare g) target declarer (map bare_node nodes)
      ≡ between_from g target declarer nodes
unfolding between_from
between_from-bare g target declarer [] = refl
between_from-bare g target declarer (n ∷ nodes) = rw (
  between_from-bare g target declarer nodes,
  ancestor_set-bare g declarer,
  ancestor_set-bare g n.id,
)

pub between_set-bare :
    (g : Graph) (target declarer : String)
    → between_set (bare g) target declarer ≡ between_set g target declarer
unfolding between_set
between_set-bare g target declarer = between_from-bare g target declarer g.nodes

body_of_arc-bare :
    (g : Graph) (id : String) (f : Option Feedback) → body_of_arc (bare g) id f ≡ body_of_arc g id f
unfolding body_of_arc
body_of_arc-bare g id none = refl
body_of_arc-bare g id (some f) =
    rw (is_none-bare g f.rerun, ancestor_set-bare g id, between_set-bare g f.rerun id)

pub feedback_body-bare : (g : Graph) (id : String) → feedback_body (bare g) id ≡ feedback_body g id
unfolding feedback_body
feedback_body-bare g id = elim (Option-cases (node_by_id g id)) [
  | inl e ↦ rw (node_by_id-bare g id, e, feedback_body)
  | inr (n, e) ↦ rw (node_by_id-bare g id, e, feedback_body) (body_of_arc-bare g id n.feedback)
]
