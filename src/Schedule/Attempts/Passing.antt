-- ===== src/Schedule/Attempts/Passing.antt =====
-- What a node that passes has been checked for.
use oh_my_graph.Base.{
  ◌≡◌, refl, ◌↔◌, ◌⊎◌, inl, inr, true, false, Option, none, some, arith, Option-cases,
}
use oh_my_graph.Base.Int.{pos, ◌≤ℤ◌}
use oh_my_graph.Graph.{Node, Verification, expected_exit_code}
use oh_my_graph.Schedule.Verdict.{Matcher, evaluate_success_check, evaluate_budget}
use oh_my_graph.Schedule.Verdict.Passes.{
  AcceptsText, Passes, evaluate_success_check-none, evaluate_budget-none, judge_verification-none,
}
use oh_my_graph.Schedule.Attempts.{
  VerifyRun, broken, ran, Execution, NodeEnd, passed, failed, limited, feedback, fell_through,
  attempt_passed, verify_with, verify_evidence, verdict_of, judge_outcome, attempt_of,
}

-- A verification that is declared ran, exited as declared, and its output matched.
abbrev pub IsVerifiedBy : Matcher → Option Verification → VerifyRun → Type 0
IsVerifiedBy matches none run = Unit
IsVerifiedBy matches (some v) (broken _) = ⊥
IsVerifiedBy matches (some v) (ran _ r) =
    (r.exit_code ≡ expected_exit_code v) × AcceptsText matches v.output_matches r.output

verify_with-none :
    (matches : Matcher) (n : Node) (v : Verification) (run : VerifyRun)
    → (verify_with matches n v run ≡ none) ↔ IsVerifiedBy matches (some v) run
unfolding verify_with
verify_with-none matches n v (broken message) = (λ h. absurd (cc h), λ h. absurd h)
verify_with-none matches n v (ran command r) = judge_verification-none matches n.id v command r

verify_evidence-none :
    (matches : Matcher) (n : Node) (run : VerifyRun)
    → (verify_evidence matches n run ≡ none) ↔ IsVerifiedBy matches n.success_check.verify run
unfolding verify_evidence
verify_evidence-none matches n run = elim (Option-cases n.success_check.verify) [
  | inl e ↦ rw (e, verify_evidence, IsVerifiedBy) (λ _. tt, λ _. refl)
  | inr (v, e) ↦ rw (e, verify_evidence) (verify_with-none matches n v run)
]

-- Everything that a passing attempt was checked for.
abbrev pub PassesAll : Matcher → Node → Execution → Type 0
PassesAll matches n x =
    (x.run_error ≡ none)
    × (x.outcome.session_limited ≡ false)
    × (x.outcome.budget_exhausted ≡ false)
    × Passes matches n x.outcome
    × IsVerifiedBy matches n.success_check.verify x.verify_run
    × (x.persist_error ≡ none)
    × ((n.budget_usd ≤ℤ pos 0)
        ⊎ ((x.outcome.cost_unknown ≡ true) ⊎ (x.outcome.total_cost ≤ℤ n.budget_usd)))

verdict_of-none :
    (matches : Matcher) (n : Node) (x : Execution)
    → (verdict_of matches n x ≡ none) ↔ (
        (x.outcome.budget_exhausted ≡ false)
        × (evaluate_success_check matches n x.outcome ≡ none)
        × (verify_evidence matches n x.verify_run ≡ none))
unfolding verdict_of
verdict_of-none matches n x = ground arith

attempt_of-passed :
    (matches : Matcher) (n : Node) (x : Execution)
    → (attempt_of matches n x ≡ attempt_passed) ↔ (
        (x.run_error ≡ none)
        × (x.outcome.session_limited ≡ false)
        × (verdict_of matches n x ≡ none)
        × (x.persist_error ≡ none)
        × (evaluate_budget n x.outcome ≡ none))
unfolding attempt_of judge_outcome
attempt_of-passed matches n x = ground arith

-- An attempt passes exactly if the runner returned, within the session limit and its own budget,
-- the success check and the verification hold, the output was saved, and the cost is not known to
-- exceed the budget.
pub attempt_of-PassesAll :
    (matches : Matcher) (n : Node) (x : Execution)
    → (attempt_of matches n x ≡ attempt_passed) ↔ PassesAll matches n x
attempt_of-PassesAll matches n x =
    let verdict = verdict_of-none matches n x in
    let check = evaluate_success_check-none matches n x.outcome in
    let verified = verify_evidence-none matches n x.verify_run in
    let budget = evaluate_budget-none n x.outcome in
    let whole = attempt_of-passed matches n x in
    (
      λ h.
          let (run, limit, v, saved, paid) = whole.0 h in
          let (left, c, e) = verdict.0 v in
          (run, limit, left, check.0 c, verified.0 e, saved, budget.0 paid),
      λ (run, limit, left, c, e, saved, paid).
          whole.1 (run, limit, verdict.1 (left, check.1 c, verified.1 e), saved, budget.1 paid),
    )

-- `runNode` returns nil: an attempt passed, or no attempt was made.
abbrev pub ReturnsNil : NodeEnd → Type 0
ReturnsNil (passed _) = Unit
ReturnsNil (failed _ _) = ⊥
ReturnsNil (limited _) = ⊥
ReturnsNil (feedback _ _) = ⊥
ReturnsNil (fell_through none) = Unit
ReturnsNil (fell_through (some _)) = ⊥
