-- ===== src/Schedule/Verdict.antt =====
-- internal/schedule/scheduler.go, errors.go and feedback.go: how the outcome of one execution of a
-- node is judged, and the retry cause of what went wrong.
-- Whether a pattern compiles and matches is a parameter. A message is a constructor with the values
-- that it prints; the cut of the evidence to 4000 runes is not modelled.
pub mod Passes
use oh_my_graph.Base.{
  ℕ, ◌+◌, String, ◌==◌, Bool, true, false, not, ◌&&◌, ◌||◌, List, [], ◌∷◌, Option, none, some,
  if◌then◌else◌, leb, ltb, contains,
}
use oh_my_graph.Base.Int.{ℤ, pos, ltb_ℤ, leb_ℤ, eqb_ℤ}
use oh_my_graph.Base.Text.{codes}
use oh_my_graph.Graph.{Node, Verification, is_zero, expected_exit_code}

-- What `regexp` says of a pattern and a text: `none` where the pattern does not compile.
abbrev pub Matcher : Type 0
Matcher = String → String → Option Bool

-- `NodeOutcome` of internal/runner/runner.go, the fields that are read here. Costs are millionths
-- of a dollar.
pub record Outcome : Type 0 where
  pub result : String
  pub session_id : String
  pub exit_code : ℤ
  pub failure_cause : String
  pub total_cost : ℤ
  pub cost_unknown : Bool
  pub budget_exhausted : Bool
  pub session_limited : Bool

pub data Predicate : Type 0 where
  exit_zero_failed result_min_bytes_failed result_matches_failed verify_failed : Predicate

pub data Detail : Type 0 where
  exited : (code : ℤ) (cause : String) → Detail
  below_minimum : (bytes : ℕ) (minimum : ℤ) → Detail
  invalid_regex no_match : (pattern : String) → Detail
  wrong_exit : (command : String) (code expected : ℤ) → Detail
  output_no_match : (command pattern : String) → Detail
  could_not_run : (message : String) → Detail

-- `NodeCheckError`. The evidence is the failed command with its output.
pub record CheckError : Type 0 where
  pub node_id : String
  pub predicate : Predicate
  pub detail : Detail
  pub infrastructure : Bool
  pub evidence : Option (String × String)

-- The errors that `runNode` tells apart; `wrapped` is `fmt.Errorf` with `%w`.
pub data NodeError : Type 0 where
  check_failed : CheckError → NodeError
  over_budget : (node_id : String) (budget actual : ℤ) (unknown : Bool) → NodeError
  bad_output timed_out : (message : String) → NodeError
  other : (message : String) → NodeError
  wrapped : (message : String) → NodeError → NodeError

-- `errors.As` with a `*NodeCheckError`.
unfoldable pub as_check : NodeError → Option CheckError
as_check (check_failed e) = some e
as_check (over_budget _ _ _ _) = none
as_check (bad_output _) = none
as_check (timed_out _) = none
as_check (other _) = none
as_check (wrapped _ e) = as_check e

-- `errors.As` with a `*NodeBudgetError`.
unfoldable pub is_over_budget : NodeError → Bool
is_over_budget (check_failed _) = false
is_over_budget (over_budget _ _ _ _) = true
is_over_budget (bad_output _) = false
is_over_budget (timed_out _) = false
is_over_budget (other _) = false
is_over_budget (wrapped _ e) = is_over_budget e

-- `len` of a Go string: the bytes of its UTF-8 form.
abbrev pub utf8_length : List ℕ → ℕ
utf8_length [] = 0
utf8_length (c ∷ cs) =
    (if ltb c 0x80 then 1 else if ltb c 0x800 then 2 else if ltb c 0x10000 then 3 else 4)
    + utf8_length cs

check_error : Node → Predicate → Detail → NodeError
check_error n predicate detail = check_failed record {
  node_id = n.id;
  predicate = predicate;
  detail = detail;
  infrastructure = false;
  evidence = none;
}

-- The test of `result_matches`, the last of the success check.
evaluate_matches : Matcher → Node → Outcome → Option NodeError
unfolding check_error
evaluate_matches matches n outcome =
    let pattern = n.success_check.result_matches in
    if pattern == "" then none else elim (matches pattern outcome.result) [
      | none ↦ some (check_error n result_matches_failed (invalid_regex pattern))
      | some true ↦ none
      | some false ↦ some (check_error n result_matches_failed (no_match pattern))
    ]

unfoldable pub evaluate_success_check : Matcher → Node → Outcome → Option NodeError
unfolding check_error evaluate_matches
evaluate_success_check matches n outcome =
    let check = n.success_check in
    let failed_exit = not (eqb_ℤ outcome.exit_code (pos 0)) in
    let exit_error =
      check_error n exit_zero_failed (exited outcome.exit_code outcome.failure_cause) in
    let bytes = utf8_length (codes outcome.result) in
    if is_zero check
    then if failed_exit then some exit_error else none
    else if check.exit_zero && failed_exit
    then some exit_error
    else if ltb_ℤ (pos 0) check.result_min_bytes && ltb_ℤ (pos bytes) check.result_min_bytes
    then some (check_error n result_min_bytes_failed (below_minimum bytes check.result_min_bytes))
    else evaluate_matches matches n outcome

-- `verify.Result`: the exit code and the output of the verification command.
pub record VerifyResult : Type 0 where
  pub exit_code : ℤ
  pub output : String

verify_error : String → Detail → Bool → Option (String × String) → NodeError
verify_error id detail infrastructure evidence = check_failed record {
  node_id = id;
  predicate = verify_failed;
  detail = detail;
  infrastructure = infrastructure;
  evidence = evidence;
}

-- The two tests behind the compilation of the pattern; `matched` is absent without a pattern.
judge_result : String → Verification → String → VerifyResult → Option Bool → Option NodeError
unfolding verify_error
judge_result id v command result matched =
    let evidence = some (command, result.output) in
    if not (eqb_ℤ result.exit_code (expected_exit_code v))
    then some (
        verify_error id (wrong_exit command result.exit_code (expected_exit_code v)) false evidence)
    else elim matched [
      | none ↦ none
      | some true ↦ none
      | some false ↦
          some (verify_error id (output_no_match command v.output_matches) false evidence)
    ]

unfoldable pub judge_verification :
    Matcher → String → Verification → String → VerifyResult → Option NodeError
unfolding judge_result verify_error
judge_verification matches id v command result =
    if v.output_matches == ""
    then judge_result id v command result none
    else elim (matches v.output_matches result.output) [
      | none ↦ some (verify_error id (invalid_regex v.output_matches) true none)
      | some matched ↦ judge_result id v command result (some matched)
    ]

unfoldable pub evaluate_budget : Node → Outcome → Option NodeError
evaluate_budget n outcome =
    if leb_ℤ n.budget_usd (pos 0) || outcome.cost_unknown || leb_ℤ outcome.total_cost n.budget_usd
    then none
    else some (over_budget n.id n.budget_usd outcome.total_cost false)

-- `errors.As` on the runner's errors, in the order of the code.
unfoldable pub cause_from_run_error : NodeError → String
cause_from_run_error (bad_output _) = "output_error"
cause_from_run_error (timed_out _) = "timeout"
cause_from_run_error (check_failed _) = "run_error"
cause_from_run_error (over_budget _ _ _ _) = "run_error"
cause_from_run_error (other _) = "run_error"
cause_from_run_error (wrapped _ e) = cause_from_run_error e

abbrev cause_of_predicate : Predicate → String
cause_of_predicate verify_failed = "verify_failed"
cause_of_predicate result_matches_failed = "result_mismatch"
cause_of_predicate result_min_bytes_failed = "result_mismatch"
cause_of_predicate exit_zero_failed = "nonzero_exit"

unfoldable pub cause_from_check : NodeError → String
unfolding is_over_budget as_check
cause_from_check e =
    if is_over_budget e
    then "budget_exceeded"
    else elim (as_check e) [ none ↦ "nonzero_exit" | some c ↦ cause_of_predicate c.predicate ]

unfoldable pub is_judgment_cause : String → Bool
is_judgment_cause cause =
    cause == "verify_failed" || cause == "result_mismatch" || cause == "nonzero_exit"

unfoldable pub is_judgment_failure : NodeError → Bool
is_judgment_failure cause =
    let judged = is_judgment_cause (cause_from_check cause) in
    elim (as_check cause) [ none ↦ judged | some c ↦ if c.infrastructure then false else judged ]
