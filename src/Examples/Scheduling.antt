-- ===== src/Examples/Scheduling.antt =====
-- The decisions of internal/schedule on the sample graph.
use oh_my_graph.Base.{
  ℕ, String, ◌≡◌, refl, sym, ◌∷◌, ◌⊎◌, arith, ◌↔◌, false, true, none, some, eqb, if◌then◌else◌,
}
use oh_my_graph.Base.Int.{pos, ◌≤ℤ◌, ◌+int◌}
use mathlib.Core.Option.{some-injective}
use oh_my_graph.Graph.{from_raw, is_zero, node_by_id, parents_of}
use oh_my_graph.Feedback.{feedback_body}
use oh_my_graph.Ancestors.{ancestor_set, between_set}
use oh_my_graph.Schedule.Verdict.{
  Outcome, CheckError, check_failed, no_match, result_matches_failed, VerifyResult,
  evaluate_success_check, cause_from_check, is_judgment_failure, as_check, is_judgment_cause,
}
use oh_my_graph.Schedule.Costs.{ReportedCost, SessionCost, no_note}
use oh_my_graph.Schedule.Arcs.{
  FeedbackState, new_feedback_state, fire, Writes, fired, judge_feedback, judge_arc, fire_arc,
}
use oh_my_graph.Schedule.Arcs.Rounds.{Firing, Call, firings_of, judge_feedback-fired}
use oh_my_graph.Schedule.Arcs.Start.{feedback_bounded}
use oh_my_graph.Schedule.Attempts.{
  ran, Execution, fell_through, attempt_passed, attempt_of, judge_outcome, verdict_of, run_node,
  should_retry, attempts_of, rounds_of,
}
use oh_my_graph.Base.{ℕ, List, [], ◌++◌, Option, get_elem?}
use oh_my_graph.Base.Bytes.{Bytes, bytes}
use oh_my_graph.Base.Text.{is_space}
use oh_my_graph.Schedule.Prompts.{
  Invocation, specs_from, start_cold, retry_prompt, retry_feedback_template, is_retried,
}
use oh_my_graph.Schedule.Prompts.Retries.{retry_spec, specs_from-retry}
use oh_my_graph.Schedule.Attempts.Bounds.{Decides, IsInt, Overflows, run_node-Decides}
use oh_my_graph.Schedule.Attempts.Passing.{PassesAll, attempt_of-PassesAll}
use oh_my_graph.Examples.Samples.{
  sample_std, sample_matcher, sample_graph, sample_indexed, sample_runnable, build_node,
}
use oh_my_graph.Examples.Topology.{sample_check, sample_arc, check_listed}

abbrev reply : String → Outcome
reply text = record {
  result = text;
  session_id = "s1";
  exit_code = pos 0;
  failure_cause = "";
  total_cost = pos 500_000;
  cost_unknown = false;
  budget_exhausted = false;
  session_limited = false;
}

abbrev no_writes : Writes
no_writes = record { set_feedback = none; archive_round = none; record_marker = none }

abbrev go_result : VerifyResult
go_result = record { exit_code = pos 1; output = "FAIL" }

abbrev execution : String → Execution
execution text = record {
  run_error = none;
  killed = false;
  outcome = reply text;
  verify_run = ran "go test ./..." go_result;
  persist_error = none;
  writes = no_writes;
}

-- The first attempt says something else, the second passes.
abbrev world : ℕ → Execution
world k = if eqb k 0 then execution "not yet" else execution "PASS"

abbrev start : FeedbackState
start = new_feedback_state sample_graph (λ _. pos 0)

abbrev mismatch : CheckError
mismatch = record {
  node_id = "check";
  predicate = result_matches_failed;
  detail = no_match "ok";
  infrastructure = false;
  evidence = none;
}

build_bound : IsInt build_node
build_bound r e =
    let same : r ≡ record { max = pos 2; on = "timeout" ∷ "result_mismatch" ∷ [] } =
      sym (some-injective _ _ e) in
    rw same (omega arith)

run_node-Decides_example :
    Decides sample_matcher start build_node world 0 (run_node sample_matcher start build_node world)
    ⊎ (Overflows build_node
        × (run_node sample_matcher start build_node world ≡ (start, fell_through none)))
run_node-Decides_example = run_node-Decides sample_matcher start build_node world build_bound

attempt_of-PassesAll_example :
    (attempt_of sample_matcher build_node (execution "PASS") ≡ attempt_passed)
    ↔ PassesAll sample_matcher build_node (execution "PASS")
attempt_of-PassesAll_example = attempt_of-PassesAll sample_matcher build_node (execution "PASS")

abbrev once : FeedbackState
once = (fire start "check").1

first_firing :
    judge_feedback start no_writes sample_check (check_failed mismatch)
    ≡ (once, fired "check" "build" (pos 1))
unfolding judge_feedback judge_arc fire_arc fire is_judgment_failure is_judgment_cause
    cause_from_check as_check new_feedback_state from_raw
first_firing = refl

judge_feedback-fired_example :
    Firing start sample_check (check_failed mismatch) once "build" (pos 1)
judge_feedback-fired_example =
    judge_feedback-fired start no_writes sample_check (check_failed mismatch) once "check" "build"
      (pos 1) first_firing

-- The check fails for its own fault three times; the arc fires twice.
abbrev failing_call : Call
failing_call = record { node = sample_check; writes = no_writes; cause = check_failed mismatch }

abbrev three_calls : List Call
three_calls = failing_call ∷ failing_call ∷ failing_call ∷ []

fired_twice : firings_of "check" start three_calls ≡ 2
unfolding firings_of judge_feedback judge_arc fire_arc fire is_judgment_failure is_judgment_cause
    cause_from_check as_check new_feedback_state from_raw feedback_body node_by_id ancestor_set
    parents_of between_set
fired_twice = refl

feedback_bounded_example : pos (firings_of "check" start three_calls) ≤ℤ pos 2
feedback_bounded_example =
    feedback_bounded sample_std sample_graph sample_indexed sample_check sample_arc three_calls
      sample_runnable check_listed refl (check_listed, (check_listed, (check_listed, tt)))

-- A session that has cost a dollar, and then three.
abbrev session : ℕ → SessionCost
session total = record {
  total = pos total;
  unknown = false;
  includes_resumed = true;
  reported = pos 0;
  reported_unknown = true;
  note = no_note;
}

abbrev one_dollar : ReportedCost
one_dollar = record { usd = pos 1_000_000; unknown = false }

abbrev built : Invocation
built = record {
  prompt = bytes "Fix it";
  cwd = [];
  permission_mode = "";
  resume_session = bytes "s0";
  agent = "";
  model = "";
  budget_usd = pos 2_000_000;
  timeout = pos 0;
  policy = record { allowed_tools = [] };
}

abbrev nonces : ℕ → Option Bytes
nonces _ = some (bytes "a1b2c3")

abbrev specs : List Invocation
specs = specs_from sample_matcher build_node world [] (bytes "Fix it") nonces 3 0 built

-- The second attempt quotes the first one's reply, in a session of its own.
abbrev second : Invocation
second = record built {
  prompt = bytes "Fix it" ++ retry_feedback_template (bytes "a1b2c3") (bytes "not yet");
  resume_session = [];
}

spec_of_second : get_elem? specs 1 ≡ some second
unfolding specs_from start_cold retry_prompt attempt_of is_retried should_retry judge_outcome
    verdict_of evaluate_success_check is_zero rounds_of attempts_of ◌+int◌ cause_from_check
    is_judgment_failure is_judgment_cause is_space
spec_of_second = refl

specs_from-retry_example :
    second ≡ retry_spec sample_matcher build_node world [] (bytes "Fix it") nonces 0 built
specs_from-retry_example =
    specs_from-retry sample_matcher build_node world [] (bytes "Fix it") nonces 3 0 0 built second
      spec_of_second
