-- ===== src/Examples/Samples.antt =====
-- A sample document, as internal/graph/graph.go decodes it, with a standard library and a regular
-- expression engine that know the texts it uses.
use oh_my_graph.Base.{◌==◌, ◌≡◌, refl, false, not, [], ◌∷◌, none, some, if◌then◌else◌}
use oh_my_graph.Base.Int.{pos}
use oh_my_graph.Base.Text.{is_blank, trim_space}
use oh_my_graph.Graph.Index.{IsIndexed, from_raw-IsIndexed}
use oh_my_graph.Validate.Decides.{IsWellFormed, issues_of-nil}
use oh_my_graph.Schedule.Verdict.{Matcher}
use oh_my_graph.Checks.{
  validate_on_fail, validate_nodes_unique, validate_node_ids, id_issues, validate_enums,
  enum_issues, validate_descriptions, description_issues, validate_dependencies_exist,
  dependency_issues, validate_acyclic, validate_agent_names, agent_issues, validate_worktrees,
  worktree_issues, validate_retry, retry_issues, validate_fragments_resolved, fragment_issues,
  validate_reuse_spliced, reuse_issues,
}
use oh_my_graph.Names.{node_id_matches, worktree_name_matches}
use oh_my_graph.Graph.{
  Node, SuccessCheck, Verification, Graph, RawGraph, node_by_id, parents_of, from_raw,
  dependents_of,
}
use oh_my_graph.Acyclic.{search_cycle}
use oh_my_graph.Ancestors.{ancestor_set, between_set}
use oh_my_graph.Sessions.{validate_handoff_constraints, sibling_issues, session_issues}
use oh_my_graph.Validate.{
  Std, issues_of, validate_success_checks, success_checks_from, check_success,
  validate_verification, result_issues, set_verify_timeout, validate_node_timeouts, timeouts_from,
  check_timeout,
}
use oh_my_graph.Feedback.{
  is_gate, outside_parent, side_exits, member_issues, codes_eq, validate_feedback, arcs_from,
  arc_issues, feedback_body, validate_feedback_placeholders, token_fields, field_issues,
  token_issues, arc_body,
}
use oh_my_graph.Tokens.{tokens_of}

abbrev pub sample_std : Std
sample_std = record {
  parse_duration = λ s.
      if s == "2m0s"
      then some (pos 120_000_000_000)
      else if s == "90s"
      then some (pos 90_000_000_000)
      else none;
  regexp_compiles = λ pattern. not (pattern == "[");
}

-- Every pattern that compiles is taken for a plain text.
abbrev pub sample_matcher : Matcher
sample_matcher pattern text = if pattern == "[" then none else some (pattern == text)

abbrev pub no_check : SuccessCheck
no_check = record {
  exit_zero = false;
  result_matches = "";
  result_min_bytes = pos 0;
  verify = none;
}

abbrev pub blank_node : Node
blank_node = record {
  id = "";
  type = "";
  depends_on = [];
  prompt = "";
  cwd = "";
  allowed_tools = [];
  permission_mode = "";
  budget_usd = pos 0;
  handoff = "";
  success_check = no_check;
  retry = none;
  description = "";
  timeout = "";
  agent = "";
  worktree = "";
  feedback = none;
  use_fragment = "";
  with_bindings = none;
  reuse = "";
  bind = none;
  parsed_timeout = pos 0;
}

abbrev pub go_test : Verification
go_test = record {
  command = "go test ./...";
  cwd = "";
  timeout = "";
  expect_exit = none;
  output_matches = "ok";
  parsed_timeout = pos 0;
}

abbrev pub plan_node : Node
plan_node = record blank_node { id = "plan"; prompt = "Plan the change"; timeout = "90s" }

abbrev pub build_node : Node
build_node = record blank_node {
  id = "build";
  depends_on = "plan" ∷ [];
  prompt = "Fix {{ feedback.check }}";
  budget_usd = pos 2_000_000;
  retry = some (record { max = pos 2; on = "timeout" ∷ "result_mismatch" ∷ [] });
  success_check = record no_check { result_matches = "PASS"; result_min_bytes = pos 4 };
}

abbrev pub check_node : Node
check_node = record blank_node {
  id = "check";
  depends_on = "build" ∷ [];
  handoff = "session";
  success_check = record no_check { verify = some go_test };
  feedback = some (record { rerun = "build"; max = pos 2 });
}

abbrev pub sample_raw : RawGraph
sample_raw = record {
  name = "change";
  version = "1";
  inputs = [];
  concurrency = pos 0;
  on_fail = "";
  nodes = plan_node ∷ build_node ∷ check_node ∷ [];
}

abbrev pub sample_graph : Graph
sample_graph = from_raw sample_raw

pub sample_indexed : IsIndexed sample_graph
sample_indexed = from_raw-IsIndexed sample_raw

pub sample_clear : (issues_of sample_std sample_graph).1 ≡ []
unfolding is_blank trim_space validate_on_fail validate_nodes_unique validate_node_ids id_issues
    validate_enums enum_issues validate_descriptions description_issues validate_dependencies_exist
    dependency_issues validate_acyclic validate_agent_names agent_issues validate_worktrees
    worktree_issues validate_retry retry_issues validate_fragments_resolved fragment_issues
    validate_reuse_spliced reuse_issues node_id_matches worktree_name_matches node_by_id parents_of
    from_raw dependents_of search_cycle ancestor_set between_set validate_handoff_constraints
    sibling_issues session_issues issues_of validate_success_checks success_checks_from
    check_success validate_verification result_issues set_verify_timeout validate_node_timeouts
    timeouts_from check_timeout is_gate outside_parent side_exits member_issues codes_eq
    validate_feedback arcs_from arc_issues feedback_body validate_feedback_placeholders token_fields
    field_issues token_issues arc_body tokens_of
sample_clear = refl

pub sample_runnable : IsWellFormed sample_std sample_graph sample_indexed
sample_runnable = (issues_of-nil sample_std sample_graph sample_indexed).0 sample_clear
