-- ===== src/Issue.antt =====
-- internal/graph/validate.go: the structural issues that validation returns, and the loops that
-- collect them. A reason is a constructor with the values that the message's format verbs print.
pub mod Collect
use oh_my_graph.Base.{
  ℕ, String, Bool, true, false, List, [], ◌∷◌, ◌++◌, Option, none, some, if◌then◌else◌,
}
use oh_my_graph.Base.Int.{ℤ}
use oh_my_graph.Graph.{Node}

-- The Go type of an issue; each of the four specialised types embeds GraphValidationError.
pub data Kind : Type 0 where
  graph_validation unresolved_fragment unspliced_reuse misplaced_description session_siblings : Kind

pub data Reason : Type 0 where
  unknown_on_fail : (on_fail : String) → Reason
  empty_id duplicate_id : Reason
  id_not_path_element : (id : String) → Reason
  unknown_type unknown_handoff unknown_permission_mode : (value : String) → Reason
  description_off_gate : (type : String) → Reason
  depends_on_unknown : (parent : String) → Reason
  depends_on_itself dependency_cycle : Reason
  session_parent_count : (parents : ℕ) → Reason
  session_gate_parent : (parent : String) → Reason
  session_siblings_of : (parent : String) (children : List String) → Reason
  negative_min_bytes : (bytes : ℤ) → Reason
  bad_result_matches : (pattern : String) → Reason
  verify_needs_command : Reason
  verify_bad_timeout verify_timeout_not_positive : (timeout : String) → Reason
  verify_timeout_over_ceiling : (timeout : ℤ) → Reason
  bad_output_matches : (pattern : String) → Reason
  agent_whitespace : (agent : String) → Reason
  worktree_not_path_element : (worktree : String) → Reason
  cwd_with_worktree : (cwd worktree : String) → Reason
  negative_retry_max : (max : ℤ) → Reason
  unknown_retry_cause : (cause : String) → Reason
  bad_timeout timeout_not_positive : (timeout : String) → Reason
  unresolved_use unspliced_citation : Reason
  feedback_max_not_positive : (max : ℤ) → Reason
  feedback_needs_rerun : Reason
  feedback_unknown_rerun feedback_not_ancestor : (rerun : String) → Reason
  feedback_overlap : (member owner : String) → Reason
  feedback_gate : (member : String) → Reason
  feedback_session_parent : (member parent : String) → Reason
  feedback_side_exit : (dependent member : String) → Reason
  token_filter : (field : String) → Reason
  token_without_arc token_outside_body : (field : String) (ref : List ℕ) → Reason

pub record Issue : Type 0 where
  pub kind : Kind
  pub node_id : String
  pub reason : Reason

-- `&GraphValidationError{NodeID: id, Reason: …}`
abbrev pub issue : String → Reason → Issue
issue id reason = record { kind = graph_validation; node_id = id; reason = reason }

-- `if test { issues = append(issues, i) }`
abbrev pub when : Bool → Issue → List Issue
when true i = i ∷ []
when false i = []

-- A loop that appends the issues of each element.
abbrev pub each {ℓ} : {A : Type ℓ} → (A → List Issue) → List A → List Issue
each check [] = []
each check (x ∷ xs) = check x ++ each check xs
