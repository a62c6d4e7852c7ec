-- ===== src/Schedule/Attempts.antt =====
-- internal/schedule/scheduler.go: the retry loop of `runNode`, from its first attempt on.
-- What an attempt meets outside the scheduler (the runner, the verification command, the disk) is
-- an Execution; the prompt that a retry is given, and the records and events, are not modelled.
pub mod Bounds
pub mod Passing
use oh_my_graph.Base.{
  ℕ, zero, suc, ◌+◌, ◌-◌, String, ◌==◌, Bool, true, false, List, [], ◌∷◌, Option, none, some,
  if◌then◌else◌, leb, contains,
}
use oh_my_graph.Base.Int.{ℤ, pos, pos_part, ltb_ℤ, ◌+int◌}
use oh_my_graph.Graph.{Node, Retry, Verification}
use oh_my_graph.Schedule.Verdict.{
  Matcher, Outcome, NodeError, VerifyResult, check_failed, over_budget, wrapped, CheckError,
  verify_failed, could_not_run, evaluate_success_check, judge_verification, evaluate_budget,
  cause_from_run_error, cause_from_check,
}
use oh_my_graph.Schedule.Arcs.{FeedbackState, Writes, Judged, fired, not_fired, judge_feedback}

-- A verification that could not be run, or its command with the result.
pub data VerifyRun : Type 0 where
  broken : (message : String) → VerifyRun
  ran : (command : String) → VerifyResult → VerifyRun

-- `run_error` is the runner's error after `halt.explain`; `killed` says that the context ended it.
-- The costs of the outcome are the corrected ones.
pub record Execution : Type 0 where
  pub run_error : Option NodeError
  pub killed : Bool
  pub outcome : Outcome
  pub verify_run : VerifyRun
  pub persist_error : Option NodeError
  pub writes : Writes

-- How a node ends: what `runNode` returns, with the attempt that ended it.
pub data NodeEnd : Type 0 where
  passed : (attempt : ℕ) → NodeEnd
  failed : (attempt : ℕ) → NodeError → NodeEnd
  limited : (cause : String) → NodeEnd
  feedback : (target : String) (round : ℤ) → NodeEnd
  fell_through : (last_error : Option NodeError) → NodeEnd

verify_fault : String → String → NodeError
verify_fault id message = check_failed record {
  node_id = id;
  predicate = verify_failed;
  detail = could_not_run message;
  infrastructure = true;
  evidence = none;
}

unfoldable pub verify_with : Matcher → Node → Verification → VerifyRun → Option NodeError
unfolding verify_fault
verify_with matches n v (broken message) = some (verify_fault n.id message)
verify_with matches n v (ran command result) = judge_verification matches n.id v command result

unfoldable pub verify_evidence : Matcher → Node → VerifyRun → Option NodeError
unfolding verify_with
verify_evidence matches n run = elim n.success_check.verify [
  | none ↦ none
  | some v ↦ verify_with matches n v run
]

-- The verdict in front of `PersistOutput`.
unfoldable pub verdict_of : Matcher → Node → Execution → Option NodeError
verdict_of matches n x =
    if x.outcome.budget_exhausted
    then some (over_budget n.id n.budget_usd x.outcome.total_cost x.outcome.cost_unknown)
    else elim (evaluate_success_check matches n x.outcome) [
      | some e ↦ some e
      | none ↦ verify_evidence matches n x.verify_run
    ]

-- What one attempt comes to, before retries and arcs are considered.
pub data Attempt : Type 0 where
  attempt_passed : Attempt
  run_failed unsaved : NodeError → Attempt
  attempt_limited : (cause : String) → Attempt
  rejected : NodeError → Attempt

-- The part of an attempt behind a run that returned.
unfoldable pub judge_outcome : Matcher → Node → Execution → Attempt
judge_outcome matches n x = elim (verdict_of matches n x) [
  | some e ↦ rejected e
  | none ↦ elim x.persist_error [
    | some e ↦ unsaved e
    | none ↦ elim (evaluate_budget n x.outcome) [ none ↦ attempt_passed | some e ↦ rejected e ]
  ]
]

unfoldable pub attempt_of : Matcher → Node → Execution → Attempt
attempt_of matches n x = elim x.run_error [
  | some e ↦ run_failed e
  | none ↦
      if x.outcome.session_limited
      then attempt_limited x.outcome.failure_cause
      else judge_outcome matches n x
]

unfoldable pub should_retry : Node → ℕ → ℕ → String → Bool
should_retry n attempt attempts cause =
    if leb (attempts - 1) attempt
    then false
    else elim n.retry [ none ↦ false | some r ↦ contains r.on cause ]

-- `attempts := 1`, and the declared retries on top, in the arithmetic of `int`.
unfoldable pub attempts_of : Node → ℤ
unfolding ◌+int◌
attempts_of n = elim n.retry [
  | none ↦ pos 1
  | some r ↦ if ltb_ℤ (pos 0) r.max then pos 1 +int r.max else pos 1
]

-- How many rounds the loop can make; a bound below zero allows none.
unfoldable pub rounds_of : Node → ℕ
unfolding attempts_of
rounds_of n = pos_part (attempts_of n)

-- `lastErr` behind an attempt that the loop goes on from.
abbrev pub last_error : Attempt → Option NodeError → Option NodeError
last_error attempt_passed before = before
last_error (run_failed e) before = some e
last_error (unsaved _) before = before
last_error (attempt_limited _) before = before
last_error (rejected e) before = some e

abbrev pub killed_error : Bool → NodeError → NodeError
killed_error killed e = if killed then wrapped "cost unknown (killed before reporting)" e else e

-- An attempt that is not retried and did not pass its checks: the arc fires, or the node fails.
unfoldable pub finish_rejected :
    FeedbackState → Node → Execution → ℕ → NodeError → FeedbackState × NodeEnd
finish_rejected st n x attempt e =
    let (st', judged) = judge_feedback st x.writes n e in
    elim judged [
      | fired _ target round ↦ (st', feedback target round)
      | not_fired e' ↦ (st', failed attempt e')
    ]

-- What follows an attempt; `rest` is the loop from the next attempt on.
unfoldable pub follow :
    FeedbackState
    → Node
    → Execution
    → ℕ
    → ℕ
    → FeedbackState × NodeEnd
    → Attempt
    → FeedbackState × NodeEnd
follow st n x attempt attempts rest attempt_passed = (st, passed attempt)
follow st n x attempt attempts rest (run_failed e) =
    if should_retry n attempt attempts (cause_from_run_error e)
    then rest
    else (st, failed attempt (killed_error x.killed e))
follow st n x attempt attempts rest (unsaved e) = (st, failed attempt e)
follow st n x attempt attempts rest (attempt_limited cause) = (st, limited cause)
follow st n x attempt attempts rest (rejected e) =
    if should_retry n attempt attempts (cause_from_check e)
    then rest
    else finish_rejected st n x attempt e

-- `for attempt := 0; attempt < attempts; attempt++`, with the attempts that are left and `lastErr`.
-- In a round of the loop the bound is positive, and `rounds_of` is the bound.
unfoldable pub run_attempts :
    Matcher
    → FeedbackState
    → Node
    → (ℕ → Execution)
    → (left attempt : ℕ) → (last : Option NodeError) → FeedbackState × NodeEnd
run_attempts matches st n world zero attempt last = (st, fell_through last)
run_attempts matches st n world (suc left) attempt last =
    let judged = attempt_of matches n (world attempt) in
    let rest = run_attempts matches st n world left (suc attempt) (last_error judged last) in
    follow st n (world attempt) attempt (rounds_of n) rest judged

unfoldable pub run_node : Matcher → FeedbackState → Node → (ℕ → Execution) → FeedbackState × NodeEnd
run_node matches st n world = run_attempts matches st n world (rounds_of n) 0 none
