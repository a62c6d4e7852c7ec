-- ===== src/Schedule/Verdict/Passes.antt =====
-- What the checks of one execution accept, and the cause that each failure has.
use oh_my_graph.Base.{
  String, eq_iff, ◌≡◌, refl, ◌↔◌, ◌⊎◌, inl, inr, true, false, not, ◌||◌, none, some, arith, Memᴰ,
  contains, contains_iff, Bool-cases, Option-cases,
}
use oh_my_graph.Base.Int.{ℤ, pos, ◌≤ℤ◌, eqb_ℤ, eq_of_parts}
use oh_my_graph.Base.Text.{codes}
use oh_my_graph.Graph.{Node, SuccessCheck, Verification, is_zero, expected_exit_code}
use oh_my_graph.Checks.{retry_causes}
use oh_my_graph.Schedule.Verdict.{
  Matcher, Outcome, CheckError, NodeError, VerifyResult, as_check, is_over_budget, utf8_length,
  evaluate_success_check, evaluate_matches, judge_verification, judge_result, evaluate_budget,
  cause_from_check, is_judgment_cause, is_judgment_failure, verify_failed, result_matches_failed,
  result_min_bytes_failed, exit_zero_failed, Predicate, cause_of_predicate,
}

eqb_ℤ_iff : (a b : ℤ) → (eqb_ℤ a b ≡ true) ↔ (a ≡ b)
eqb_ℤ_iff a b = (λ h. eq_of_parts a b (ground arith), λ e. rw e (ground arith))

-- A pattern that is declared matches the text.
abbrev pub AcceptsText : Matcher → String → String → Type 0
AcceptsText matches pattern text = (pattern ≡ "") ⊎ (matches pattern text ≡ some true)

-- The success check as the documentation puts it: exit code 0 where it is asked for or nothing
-- else is declared, enough bytes, and a match.
abbrev pub Passes : Matcher → Node → Outcome → Type 0
Passes matches n outcome =
    ((is_zero n.success_check || n.success_check.exit_zero) ≡ true → outcome.exit_code ≡ pos 0)
    × (n.success_check.result_min_bytes ≤ℤ pos (utf8_length (codes outcome.result)))
    × AcceptsText matches n.success_check.result_matches outcome.result

evaluate_matches-none :
    (matches : Matcher) (n : Node) (outcome : Outcome)
    → (evaluate_matches matches n outcome ≡ none)
      ↔ AcceptsText matches n.success_check.result_matches outcome.result
unfolding evaluate_matches
evaluate_matches-none matches n outcome = ground (arith, eq_iff n.success_check.result_matches "")

is_zero-parts :
    (c : SuccessCheck) → is_zero c ≡ true → (c.result_matches ≡ "") × (c.result_min_bytes ≡ pos 0)
unfolding is_zero
is_zero-parts c h = ground (arith, eq_iff c.result_matches "")

-- The success check holds exactly if the exit code is 0 where the node asks for it or declares
-- nothing else, the result has the minimum of bytes, and it matches the pattern, if there is one.
pub evaluate_success_check-none :
    (matches : Matcher) (n : Node) (outcome : Outcome)
    → (evaluate_success_check matches n outcome ≡ none) ↔ Passes matches n outcome
unfolding evaluate_success_check
evaluate_success_check-none matches n outcome =
    let check = n.success_check in
    let matched = evaluate_matches-none matches n outcome in
    let exit = eqb_ℤ_iff outcome.exit_code (pos 0) in
    elim (Bool-cases (is_zero check)) [
      | inl e ↦
          let (no_pattern, no_minimum) = is_zero-parts check e in
          rw (e, no_pattern, no_minimum) (ground (arith, exit))
      | inr e ↦ rw e (ground (arith, exit, matched))
    ]

-- The budget holds exactly if none is declared, the cost is unknown, or it is not above it.
pub evaluate_budget-none :
    (n : Node) (outcome : Outcome)
    → (evaluate_budget n outcome ≡ none) ↔ (
        (n.budget_usd ≤ℤ pos 0)
        ⊎ ((outcome.cost_unknown ≡ true) ⊎ (outcome.total_cost ≤ℤ n.budget_usd)))
unfolding evaluate_budget
evaluate_budget-none n outcome = ground arith

-- A verification holds exactly if the command exited as expected and its output matches the pattern,
-- if there is one.
pub judge_verification-none :
    (matches : Matcher) (id : String) (v : Verification) (command : String) (r : VerifyResult)
    → (judge_verification matches id v command r ≡ none)
      ↔ ((r.exit_code ≡ expected_exit_code v) × AcceptsText matches v.output_matches r.output)
unfolding judge_verification judge_result
judge_verification-none matches id v command r =
    ground (arith, eq_iff v.output_matches "", eqb_ℤ_iff r.exit_code (expected_exit_code v))

known_cause_of : (p : Predicate) → contains retry_causes (cause_of_predicate p) ≡ true
known_cause_of verify_failed = refl
known_cause_of result_matches_failed = refl
known_cause_of result_min_bytes_failed = refl
known_cause_of exit_zero_failed = refl

-- The cause of every failed check is one that validation accepts in `retry.on`.
pub cause_from_check-known : (e : NodeError) → Memᴰ (cause_from_check e) retry_causes
unfolding cause_from_check
cause_from_check-known e =
    (contains_iff retry_causes (cause_from_check e)).0 (elim (Bool-cases (is_over_budget e)) [
      | inl h ↦ rw (h, cause_from_check) refl
      | inr h ↦ elim (Option-cases (as_check e)) [
        | inl k ↦ rw (h, k, cause_from_check) refl
        | inr (c, k) ↦ rw (h, k, cause_from_check) (known_cause_of c.predicate)
      ]
    ])

judgment_of : (p : Predicate) → is_judgment_cause (cause_of_predicate p) ≡ true
unfolding is_judgment_cause
judgment_of verify_failed = refl
judgment_of result_matches_failed = refl
judgment_of result_min_bytes_failed = refl
judgment_of exit_zero_failed = refl

-- Every cause of a failed check is a judgment, but the one of a budget.
cause_from_check-judgment :
    (e : NodeError) → is_judgment_cause (cause_from_check e) ≡ not (is_over_budget e)
unfolding cause_from_check
cause_from_check-judgment e = elim (Bool-cases (is_over_budget e)) [
  | inl h ↦ rw (h, cause_from_check) (unfold is_judgment_cause in refl)
  | inr h ↦ elim (Option-cases (as_check e)) [
    | inl k ↦ rw (h, k, cause_from_check) (unfold is_judgment_cause in refl)
    | inr (c, k) ↦ rw (h, k, cause_from_check) (judgment_of c.predicate)
  ]
]

-- A failure is a judgment on the work exactly if no budget was exceeded and it is not a
-- verification that could not be completed.
pub is_judgment_failure_iff :
    (e : NodeError)
    → (is_judgment_failure e ≡ true) ↔ (
        (is_over_budget e ≡ false)
        × ((c : CheckError) → as_check e ≡ some c → c.infrastructure ≡ false))
unfolding is_judgment_failure
is_judgment_failure_iff e =
    let judged = cause_from_check-judgment e in
    elim (Option-cases (as_check e)) [
      | inl k ↦
          rw (k, judged, is_judgment_failure)
            (λ h. (ground arith, λ c m. absurd (cc m)), λ (h, _). rw h refl)
      | inr (c, k) ↦ elim (Bool-cases c.infrastructure) [
        | inl b ↦
            rw (k, is_judgment_failure)
              (λ h. absurd (cc (rw b at h)), λ (_, h). absurd (cc (h c refl, b)))
        | inr b ↦
            rw (k, is_judgment_failure)
              (
                λ h. (ground (arith, judged, rw b at h), λ c' m. cc (b, m)),
                λ (h, _). ground (arith, judged, h),
              )
      ]
    ]
