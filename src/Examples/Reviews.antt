-- ===== src/Examples/Reviews.antt =====
-- The advice on feedback arcs at work: a review of two producers whose arc reruns one of them.
use oh_my_graph.Base.{String, List, [], ◌∷◌, ◌≡◌, ◌≢◌, ◌↔◌, refl, some, Memᴰ, contains_iff, arith}
use oh_my_graph.Base.Int.{pos}
use oh_my_graph.Base.Text.{is_blank, trim_space}
use oh_my_graph.Graph.Index.{IsIndexed, from_raw-IsIndexed}
use oh_my_graph.Validate.Decides.{IsWellFormed, issues_of-nil}
use oh_my_graph.Checks.{
  validate_on_fail, validate_nodes_unique, validate_node_ids, id_issues, validate_enums,
  enum_issues, validate_descriptions, description_issues, validate_dependencies_exist,
  dependency_issues, validate_acyclic, validate_agent_names, agent_issues, validate_worktrees,
  worktree_issues, validate_retry, retry_issues, validate_fragments_resolved, fragment_issues,
  validate_reuse_spliced, reuse_issues,
}
use oh_my_graph.Names.{node_id_matches, worktree_name_matches}
use oh_my_graph.Graph.{
  Node, Feedback, Graph, RawGraph, node_by_id, parents_of, from_raw, dependents_of,
}
use oh_my_graph.Acyclic.{search_cycle}
use oh_my_graph.Ancestors.{ancestor_set, mark, no_ids, between_set}
use oh_my_graph.Sessions.{validate_handoff_constraints, sibling_issues, session_issues}
use oh_my_graph.Validate.{
  issues_of, validate_success_checks, success_checks_from, check_success, validate_verification,
  result_issues, set_verify_timeout, validate_node_timeouts, timeouts_from, check_timeout,
}
use oh_my_graph.Feedback.{
  is_gate, outside_parent, side_exits, member_issues, codes_eq, validate_feedback, arcs_from,
  arc_issues, feedback_body, validate_feedback_placeholders, token_fields, field_issues,
  token_issues, arc_body,
}
use oh_my_graph.Tokens.{tokens_of}
use oh_my_graph.Reach.{
  FeedbackAdvisory, unreachable_from, covering_feedback_target, best_of, qualifies, is_better,
  with_rerun, declaration_index, lint_feedback_reach,
}
use oh_my_graph.Reach.Target.{
  Lists, IsAdvice, covering_feedback_target-IsAdvice, covering_feedback_target-order,
}
use oh_my_graph.Reach.Advisories.{IsReported, lint_feedback_reach_iff, lint_feedback_reach-sole}
use oh_my_graph.Examples.Samples.{sample_std, blank_node}

abbrev impl_node : Node
impl_node = record blank_node { id = "impl"; depends_on = "spec" ∷ [] }

abbrev review_arc : Feedback
review_arc = record { rerun = "impl"; max = pos 1 }

abbrev review_node : Node
review_node = record blank_node {
  id = "review";
  depends_on = "impl" ∷ "docs" ∷ [];
  feedback = some review_arc;
}

abbrev review_raw : RawGraph
review_raw = record {
  name = "review";
  version = "1";
  inputs = [];
  concurrency = pos 0;
  on_fail = "";
  nodes =
      record blank_node { id = "spec" }
      ∷ impl_node
      ∷ record blank_node { id = "docs"; depends_on = "spec" ∷ [] }
      ∷ review_node
      ∷ [];
}

abbrev review_graph : Graph
review_graph = from_raw review_raw

review_indexed : IsIndexed review_graph
review_indexed = from_raw-IsIndexed review_raw

review_clear : (issues_of sample_std review_graph).1 ≡ []
unfolding is_blank trim_space validate_on_fail validate_nodes_unique validate_node_ids id_issues
    validate_enums enum_issues validate_descriptions description_issues validate_dependencies_exist
    dependency_issues validate_acyclic validate_agent_names agent_issues validate_worktrees
    worktree_issues validate_retry retry_issues validate_fragments_resolved fragment_issues
    validate_reuse_spliced reuse_issues node_id_matches worktree_name_matches node_by_id parents_of
    from_raw dependents_of search_cycle ancestor_set between_set validate_handoff_constraints
    sibling_issues session_issues issues_of validate_success_checks success_checks_from
    check_success validate_verification result_issues set_verify_timeout validate_node_timeouts
    timeouts_from check_timeout is_gate outside_parent side_exits member_issues codes_eq
    validate_feedback arcs_from arc_issues feedback_body validate_feedback_placeholders token_fields
    field_issues token_issues arc_body tokens_of
review_clear = refl

review_runnable : IsWellFormed sample_std review_graph review_indexed
review_runnable = (issues_of-nil sample_std review_graph review_indexed).0 review_clear

-- Two orders in which Go may range over the ancestors of the review.
abbrev listing : String → List String
listing _ = "spec" ∷ "impl" ∷ "docs" ∷ []

abbrev other_listing : String → List String
other_listing _ = "docs" ∷ "spec" ∷ "impl" ∷ []

ancestors_of_review :
    ancestor_set review_graph "review" ≡ mark (mark (mark no_ids "impl") "spec") "docs"
unfolding ancestor_set from_raw parents_of node_by_id
ancestors_of_review = refl

listing-Lists :
    Lists sample_std review_graph review_indexed review_runnable "review" (listing "review")
listing-Lists a =
    rw ancestors_of_review (ground (arith, contains_iff ("spec" ∷ "impl" ∷ "docs" ∷ []) a))

other_listing-Lists :
    Lists sample_std review_graph review_indexed review_runnable "review" (other_listing "review")
other_listing-Lists a =
    rw ancestors_of_review (ground (arith, contains_iff ("docs" ∷ "spec" ∷ "impl" ∷ []) a))

abbrev unreached : FeedbackAdvisory
unreached = record {
  declarer = "review";
  rerun = "impl";
  body = "impl" ∷ "review" ∷ [];
  producer = "docs";
  suggestion = "spec";
}

unreached_reported : lint_feedback_reach review_graph listing ≡ unreached ∷ []
unfolding lint_feedback_reach unreachable_from covering_feedback_target best_of qualifies is_better
    with_rerun declaration_index feedback_body between_set ancestor_set from_raw validate_feedback
    validate_feedback_placeholders node_by_id is_gate outside_parent side_exits member_issues
    codes_eq arcs_from arc_issues token_fields field_issues token_issues arc_body tokens_of is_blank
    trim_space dependents_of parents_of
unreached_reported = refl

unreached_listed : Memᴰ unreached (lint_feedback_reach review_graph listing)
unreached_listed = rw unreached_reported (Memᴰ.head refl)

covering_feedback_target-IsAdvice_example :
    IsAdvice sample_std review_graph review_indexed review_runnable "review"
      ("docs" ∷ [])
      (covering_feedback_target review_graph listing "review" ("docs" ∷ []))
covering_feedback_target-IsAdvice_example =
    covering_feedback_target-IsAdvice sample_std review_graph review_indexed review_runnable listing
      "review" ("docs" ∷ []) listing-Lists

covering_feedback_target-order_example :
    covering_feedback_target review_graph listing "review" ("docs" ∷ [])
    ≡ covering_feedback_target review_graph other_listing "review" ("docs" ∷ [])
covering_feedback_target-order_example =
    covering_feedback_target-order sample_std review_graph review_indexed review_runnable listing
      other_listing "review" ("docs" ∷ []) listing-Lists other_listing-Lists

lint_feedback_reach_iff_example :
    Memᴰ unreached (lint_feedback_reach review_graph listing)
    ↔ IsReported sample_std review_graph review_indexed review_runnable listing unreached
        review_graph.nodes
lint_feedback_reach_iff_example =
    lint_feedback_reach_iff sample_std review_graph review_indexed review_runnable listing unreached

abbrev impl_listed_node : Node
impl_listed_node = record impl_node { type = "claude-run"; handoff = "artifact" }

impl_listed : Memᴰ impl_listed_node review_graph.nodes
unfolding from_raw
impl_listed = Memᴰ.tail (Memᴰ.head refl)

lint_feedback_reach-sole_example : unreached.declarer ≢ impl_listed_node.id
lint_feedback_reach-sole_example =
    lint_feedback_reach-sole sample_std review_graph review_indexed review_runnable listing
      unreached unreached_listed impl_listed_node impl_listed "spec" refl
