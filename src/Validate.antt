-- ===== src/Validate.antt =====
-- internal/graph/validate.go: the passes that store a parsed duration, `Issues` and `Validate`; and
-- the parsing entry points of internal/graph/graph.go behind the YAML decoder.
-- `time.ParseDuration` and whether `regexp.Compile` accepts a pattern are parameters. A pass that
-- stores a parsed duration returns the changed graph.
pub mod Durations
pub mod Stored
pub mod Unmoved
pub mod Decides
pub mod Planner
pub mod Progress
use oh_my_graph.Base.{
  String, ◌==◌, Bool, true, false, not, ◌&&◌, ◌||◌, List, [], ◌∷◌, ◌++◌, map, Option, none, some,
  if◌then◌else◌, any,
}
use oh_my_graph.Base.Int.{ℤ, pos, ltb_ℤ, leb_ℤ}
use oh_my_graph.Base.Text.{is_blank}
use oh_my_graph.Graph.{
  Graph, Node, Index, Verification, RawGraph, from_raw, index_set, max_verify_timeout,
}
use oh_my_graph.Checks.{
  validate_on_fail, validate_nodes_unique, validate_node_ids, validate_enums, validate_descriptions,
  validate_dependencies_exist, validate_acyclic, validate_agent_names, validate_worktrees,
  validate_retry, validate_fragments_resolved, validate_reuse_spliced,
}
use oh_my_graph.Sessions.{validate_handoff_constraints}
use oh_my_graph.Feedback.{validate_feedback, validate_feedback_placeholders}
use oh_my_graph.Issue.{
  Kind, unspliced_reuse, misplaced_description, Issue, issue, when, negative_min_bytes,
  bad_result_matches, verify_needs_command, verify_bad_timeout, verify_timeout_not_positive,
  verify_timeout_over_ceiling, bad_output_matches, bad_timeout, timeout_not_positive,
}

-- `time.ParseDuration` in nanoseconds, and whether `regexp.Compile` succeeds.
pub record Std : Type 0 where
  pub parse_duration : String → Option ℤ
  pub regexp_compiles : String → Bool

-- A parsed timeout, or the one issue of a verify block.
pub data VerifyCheck : Type 0 where
  good : (timeout : ℤ) → VerifyCheck
  bad : Issue → VerifyCheck

-- The tests that follow a parsed timeout.
judge_timeout : Std → String → Verification → ℤ → VerifyCheck
judge_timeout std id v timeout =
    if leb_ℤ timeout (pos 0)
    then bad (issue id (verify_timeout_not_positive v.timeout))
    else if ltb_ℤ max_verify_timeout timeout
    then bad (issue id (verify_timeout_over_ceiling timeout))
    else if not (v.output_matches == "") && not (std.regexp_compiles v.output_matches)
    then bad (issue id (bad_output_matches v.output_matches))
    else good timeout

unfoldable pub validate_verification : Std → String → Verification → VerifyCheck
unfolding judge_timeout
validate_verification std id v =
    if is_blank v.command
    then bad (issue id verify_needs_command)
    else elim (std.parse_duration v.timeout) [
      | none ↦ bad (issue id (verify_bad_timeout v.timeout))
      | some timeout ↦ judge_timeout std id v timeout
    ]

-- The two tests of a success check in front of its verify block.
unfoldable pub result_issues : Std → Node → List Issue
result_issues std n =
    let check = n.success_check in
    when (ltb_ℤ check.result_min_bytes (pos 0))
      (issue n.id (negative_min_bytes check.result_min_bytes))
    ++ when (not (check.result_matches == "") && not (std.regexp_compiles check.result_matches))
        (issue n.id (bad_result_matches check.result_matches))

-- `verification.timeout = timeout`, through the node's pointer.
unfoldable pub set_verify_timeout : ℤ → Verification → Node → Node
set_verify_timeout timeout v n = record n {
  success_check = record n.success_check { verify = some (record v { parsed_timeout = timeout }) };
}

-- One node of the loop: its new value, and the issues.
unfoldable pub check_success : Std → Node → Node × List Issue
unfolding validate_verification result_issues set_verify_timeout
check_success std n = elim n.success_check.verify [
  | none ↦ (n, result_issues std n)
  | some v ↦ elim (validate_verification std n.id v) [
    | good timeout ↦ (set_verify_timeout timeout v n, result_issues std n)
    | bad i ↦ (n, result_issues std n ++ i ∷ [])
  ]
]

-- The loop of `validateSuccessChecks`. The index holds a copy of the last node with an id, which
-- shares its Verification with the list: a write through the pointer shows in both.
unfoldable pub success_checks_from : Std → List Node → Index → List Node × Index × List Issue
success_checks_from std [] index = ([], index, [])
success_checks_from std (n ∷ nodes) index =
    let (n', issues) = check_success std n in
    let shared = not (any (λ m. m.id == n.id) nodes) in
    let (nodes', index', rest) =
      success_checks_from std nodes (if shared then index_set index n.id n' else index) in
    (n' ∷ nodes', index', issues ++ rest)

unfoldable pub validate_success_checks : Std → Graph → Graph × List Issue
unfolding success_checks_from
validate_success_checks std g =
    let (nodes, index, issues) = success_checks_from std g.nodes g.by_id in
    (record g { nodes = nodes; by_id = index }, issues)

-- One node of the loop of `validateNodeTimeouts`: its new value if a timeout was stored.
unfoldable pub check_timeout : Std → Node → Option Node × List Issue
check_timeout std n = if n.timeout == "" then (none, []) else elim (std.parse_duration n.timeout) [
  | none ↦ (none, issue n.id (bad_timeout n.timeout) ∷ [])
  | some timeout ↦
      if leb_ℤ timeout (pos 0)
      then (none, issue n.id (timeout_not_positive n.timeout) ∷ [])
      else (some (record n { parsed_timeout = timeout }), [])
]

-- `g.Nodes[i].timeout = timeout; g.byID[n.ID] = g.Nodes[i]`
unfoldable pub timeouts_from : Std → List Node → Index → List Node × Index × List Issue
timeouts_from std [] index = ([], index, [])
timeouts_from std (n ∷ nodes) index =
    let (stored, issues) = check_timeout std n in
    let n' : Node = elim stored [ none ↦ n | some m ↦ m ] in
    let kept : Index = elim stored [ none ↦ index | some m ↦ index_set index n.id m ] in
    let (nodes', index', rest) = timeouts_from std nodes kept in
    (n' ∷ nodes', index', issues ++ rest)

unfoldable pub validate_node_timeouts : Std → Graph → Graph × List Issue
unfolding timeouts_from
validate_node_timeouts std g =
    let (nodes, index, issues) = timeouts_from std g.nodes g.by_id in
    (record g { nodes = nodes; by_id = index }, issues)

-- `Issues`: every check in its order, each on the graph that the earlier ones left.
unfoldable pub issues_of : Std → Graph → Graph × List Issue
issues_of std g =
    let before =
      validate_on_fail g
      ++ (validate_nodes_unique g
          ++ (validate_node_ids g
              ++ (validate_enums g
                  ++ (validate_descriptions g
                      ++ (validate_dependencies_exist g
                          ++ (validate_acyclic g ++ validate_handoff_constraints g)))))) in
    let (g1, checks) = validate_success_checks std g in
    let middle = validate_agent_names g1 ++ (validate_worktrees g1 ++ validate_retry g1) in
    let (g2, timeouts) = validate_node_timeouts std g1 in
    let after =
      validate_fragments_resolved g2
      ++ (validate_reuse_spliced g2
          ++ (validate_feedback g2 ++ validate_feedback_placeholders g2)) in
    (g2, before ++ (checks ++ (middle ++ (timeouts ++ after))))

abbrev pub first_issue : List Issue → Option Issue
first_issue [] = none
first_issue (i ∷ _) = some i

-- `Validate`: the graph with its durations stored, and the first issue.
unfoldable pub validate : Std → Graph → Graph × Option Issue
validate std g = let (g', issues) = issues_of std g in (g', first_issue issues)

pub data Parsed : Type 0 where
  accepted : Graph → Parsed
  refused : Issue → Parsed

-- `Parse`, from what the YAML decoder yields.
unfoldable pub parse : Std → RawGraph → Parsed
unfolding validate
parse std raw =
    let (g, found) = validate std (from_raw raw) in
    elim found [ none ↦ accepted g | some i ↦ refused i ]

abbrev pub is_planner_business : Kind → Bool
is_planner_business unspliced_reuse = true
is_planner_business misplaced_description = true
is_planner_business _ = false

-- The loop of `ParsePlannerReply`: the first issue that is not the coordinator's to judge.
unfoldable pub first_structural : List Issue → Option Issue
first_structural [] = none
first_structural (i ∷ issues) =
    if is_planner_business i.kind then first_structural issues else some i

unfoldable pub parse_planner_reply : Std → RawGraph → Parsed
unfolding first_structural
parse_planner_reply std raw =
    let (g, issues) = issues_of std (from_raw raw) in
    elim (first_structural issues) [ none ↦ accepted g | some i ↦ refused i ]
