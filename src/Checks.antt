-- ===== src/Checks.antt =====
-- internal/graph/validate.go: the checks that look at one node, or at one edge, at a time.
pub mod Nodes
pub mod Unique
use oh_my_graph.Base.{
  String, ◌==◌, Bool, true, false, not, ◌&&◌, ◌||◌, List, [], ◌∷◌, ◌++◌, Option, none, some,
  if◌then◌else◌, contains,
}
use oh_my_graph.Base.Int.{pos, ltb_ℤ}
use oh_my_graph.Base.Text.{codes, is_blank, trim_space}
use oh_my_graph.Graph.{
  Graph, Node, Retry, node_by_id, is_none, type_claude_run, type_gate, handoff_artifact,
  handoff_session, on_fail_halt, on_fail_continue,
}
use oh_my_graph.Acyclic.{Visit, cycle, clear, out_of_fuel, search_cycle}
use oh_my_graph.Names.{node_id_matches, worktree_name_matches}
use oh_my_graph.Feedback.{codes_eq}
use oh_my_graph.Issue.{
  unresolved_fragment, unspliced_reuse, misplaced_description, Issue, issue, when, each,
  unknown_on_fail, empty_id, duplicate_id, id_not_path_element, unknown_type, unknown_handoff,
  unknown_permission_mode, description_off_gate, depends_on_unknown, depends_on_itself,
  dependency_cycle, agent_whitespace, worktree_not_path_element, cwd_with_worktree,
  negative_retry_max, unknown_retry_cause, unresolved_use, unspliced_citation,
}

abbrev pub permission_modes : List String
permission_modes = "acceptEdits" ∷ "auto" ∷ "bypassPermissions" ∷ "dontAsk" ∷ "manual" ∷ "plan" ∷ []

abbrev pub retry_causes : List String
retry_causes =
    "nonzero_exit" ∷ "run_error" ∷ "timeout" ∷ "output_error" ∷ "budget_exceeded" ∷ "verify_failed"
    ∷ "result_mismatch" ∷ []

unfoldable pub validate_on_fail : Graph → List Issue
validate_on_fail g =
    if g.on_fail == on_fail_halt || g.on_fail == on_fail_continue
    then []
    else issue "" (unknown_on_fail g.on_fail) ∷ []

-- The loop of `validateNodesUnique` with the ids seen so far.
unfoldable pub unique_from : List String → List Node → List Issue
unique_from seen [] = []
unique_from seen (n ∷ nodes) =
    let skipped = unique_from seen nodes in
    let added = unique_from (n.id ∷ seen) nodes in
    if is_blank n.id
    then issue "" empty_id ∷ skipped
    else if contains seen n.id
    then issue n.id duplicate_id ∷ skipped
    else added

unfoldable pub validate_nodes_unique : Graph → List Issue
unfolding unique_from
validate_nodes_unique g = unique_from [] g.nodes

unfoldable pub id_issues : Node → List Issue
id_issues n =
    if is_blank n.id
    then []
    else when (not (node_id_matches n.id)) (issue n.id (id_not_path_element n.id))

unfoldable pub validate_node_ids : Graph → List Issue
validate_node_ids g = each id_issues g.nodes

unfoldable pub enum_issues : Node → List Issue
enum_issues n =
    when (not (n.type == type_claude_run || n.type == type_gate)) (issue n.id (unknown_type n.type))
    ++ (when (not (n.handoff == handoff_artifact || n.handoff == handoff_session))
          (issue n.id (unknown_handoff n.handoff))
        ++ when (not (n.permission_mode == "") && not (contains permission_modes n.permission_mode))
            (issue n.id (unknown_permission_mode n.permission_mode)))

unfoldable pub validate_enums : Graph → List Issue
validate_enums g = each enum_issues g.nodes

unfoldable pub description_issues : Node → List Issue
description_issues n =
    if n.description == "" || n.type == type_gate
    then []
    else record {
      kind = misplaced_description;
      node_id = n.id;
      reason = description_off_gate n.type;
    }
      ∷ []

unfoldable pub validate_descriptions : Graph → List Issue
validate_descriptions g = each description_issues g.nodes

unfoldable pub dependency_issues : Graph → String → String → List Issue
dependency_issues g id parent =
    if is_none (node_by_id g parent)
    then issue id (depends_on_unknown parent) ∷ []
    else when (parent == id) (issue id depends_on_itself)

unfoldable pub validate_dependencies_exist : Graph → List Issue
validate_dependencies_exist g = each (λ n. each (dependency_issues g n.id) n.depends_on) g.nodes

cycle_issues : Visit → List Issue
cycle_issues (cycle at) = issue at dependency_cycle ∷ []
cycle_issues (clear _) = []
cycle_issues out_of_fuel = []

-- The fuel of the search is never used up (Acyclic/Fuel).
unfoldable pub validate_acyclic : Graph → List Issue
unfolding cycle_issues
validate_acyclic g = cycle_issues (search_cycle g)

unfoldable pub agent_issues : Node → List Issue
agent_issues n =
    when (not (n.agent == "") && not (codes_eq (trim_space (codes n.agent)) (codes n.agent)))
      (issue n.id (agent_whitespace n.agent))

unfoldable pub validate_agent_names : Graph → List Issue
validate_agent_names g = each agent_issues g.nodes

unfoldable pub worktree_issues : Node → List Issue
worktree_issues n =
    if n.worktree == ""
    then []
    else when (not (worktree_name_matches n.worktree))
        (issue n.id (worktree_not_path_element n.worktree))
      ++ when (not (n.cwd == "")) (issue n.id (cwd_with_worktree n.cwd n.worktree))

unfoldable pub validate_worktrees : Graph → List Issue
validate_worktrees g = each worktree_issues g.nodes

cause_issues : String → String → List Issue
cause_issues id cause =
    when (not (contains retry_causes cause)) (issue id (unknown_retry_cause cause))

retry_issues_of : String → Option Retry → List Issue
retry_issues_of id none = []
retry_issues_of id (some r) =
    when (ltb_ℤ r.max (pos 0)) (issue id (negative_retry_max r.max)) ++ each (cause_issues id) r.on

unfoldable pub retry_issues : Node → List Issue
unfolding retry_issues_of cause_issues
retry_issues n = retry_issues_of n.id n.retry

unfoldable pub validate_retry : Graph → List Issue
validate_retry g = each retry_issues g.nodes

unfoldable pub fragment_issues : Node → List Issue
fragment_issues n =
    if n.use_fragment == "" && is_none n.with_bindings
    then []
    else record { kind = unresolved_fragment; node_id = n.id; reason = unresolved_use } ∷ []

unfoldable pub validate_fragments_resolved : Graph → List Issue
validate_fragments_resolved g = each fragment_issues g.nodes

unfoldable pub reuse_issues : Node → List Issue
reuse_issues n =
    if n.reuse == "" && is_none n.bind
    then []
    else record { kind = unspliced_reuse; node_id = n.id; reason = unspliced_citation } ∷ []

unfoldable pub validate_reuse_spliced : Graph → List Issue
validate_reuse_spliced g = each reuse_issues g.nodes
