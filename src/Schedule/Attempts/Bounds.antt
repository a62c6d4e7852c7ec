-- ===== src/Schedule/Attempts/Bounds.antt =====
-- How often a node runs, and which attempt decides.
use Prim.Native.Nat.{◌%◌}
use oh_my_graph.Base.{
  ℕ, zero, suc, ◌+◌, ◌-◌, ◌≤◌, ◌<◌, String, ◌≡◌, ◌≢◌, refl, sym, ap, ◌↔◌, ◌⊎◌, inl, inr, true,
  false, Option, none, some, arith, leb, ltb, eqb, subst, contains_iff, Memᴰ, Bool-cases,
  Option-cases,
}
use oh_my_graph.Base.Int.{
  ℤ, pos, negsuc, pos_part, ltb_ℤ, eqb_ℤ, eq_of_parts, max_int, ◌+int◌, ◌≤ℤ◌,
}
use oh_my_graph.Graph.{Node, Retry}
use oh_my_graph.Schedule.Verdict.{Matcher, NodeError, cause_from_run_error, cause_from_check}
use oh_my_graph.Schedule.Arcs.{FeedbackState}
use oh_my_graph.Schedule.Attempts.{
  Execution, NodeEnd, passed, failed, limited, Attempt, attempt_passed, run_failed, unsaved,
  attempt_limited, rejected, attempt_of, should_retry, attempts_of, rounds_of, killed_error,
  finish_rejected, follow, last_error, fell_through, run_attempts, run_node,
}

-- The node declares retries, on this cause among others.
abbrev pub RetriesOn : Node → String → Type 0
RetriesOn n cause = (r : Retry) × (n.retry ≡ some r) × Memᴰ cause r.on

-- An attempt that went wrong in a way that the node wants to be retried.
abbrev pub IsRetriable : Node → Attempt → Type 0
IsRetriable n attempt_passed = ⊥
IsRetriable n (run_failed e) = RetriesOn n (cause_from_run_error e)
IsRetriable n (unsaved _) = ⊥
IsRetriable n (attempt_limited _) = ⊥
IsRetriable n (rejected e) = RetriesOn n (cause_from_check e)

-- How a node ends on an attempt that is not retried.
abbrev pub end_of : FeedbackState → Node → Execution → ℕ → Attempt → FeedbackState × NodeEnd
end_of st n x k attempt_passed = (st, passed k)
end_of st n x k (run_failed e) = (st, failed k (killed_error x.killed e))
end_of st n x k (unsaved e) = (st, failed k e)
end_of st n x k (attempt_limited cause) = (st, limited cause)
end_of st n x k (rejected e) = finish_rejected st n x k e

spent : (k a : ℕ) → leb (a - 1) k ≡ true → ¬ (suc k < a)
spent k a h more = ground (arith, more)

has_more : (k a : ℕ) → leb (a - 1) k ≡ false → suc k < a
has_more k a h = ground arith

last_attempt : (k a : ℕ) → (¬ (suc k < a)) → a ≤ suc k
last_attempt k a h = elim (Bool-cases (ltb (suc k) a)) [
  | inl more ↦ absurd (h (ground arith))
  | inr done ↦ ground arith
]

should_retry_iff :
    (n : Node) (attempt attempts : ℕ) (cause : String)
    → (should_retry n attempt attempts cause ≡ true)
      ↔ ((suc attempt < attempts) × RetriesOn n cause)
unfolding should_retry
should_retry_iff n attempt attempts cause = elim (Bool-cases (leb (attempts - 1) attempt)) [
  | inl late ↦
      rw (late, should_retry)
        (λ h. absurd (cc h), λ (more, _). absurd (spent attempt attempts late more))
  | inr early ↦ elim (Option-cases n.retry) [
    | inl e ↦
        rw (early, e, should_retry) (λ h. absurd (cc h), λ (_, (r, known, _)). absurd (cc known))
    | inr (r, e) ↦
        rw (early, e, should_retry)
          (
            λ h. (has_more attempt attempts early, (r, refl, (contains_iff r.on cause).0 h)),
            λ (_, (r', known, m)).
                let same : r' ≡ r = cc in
                (contains_iff r.on cause).1 (subst (λ (x : Retry). Memᴰ cause x.on) same m),
          )
  ]
]

-- The loop goes on only on a retriable attempt with one left; otherwise the attempt decides.
follow-cases :
    (st : FeedbackState) (n : Node) (x : Execution) (k attempts : ℕ)
    (rest : FeedbackState × NodeEnd) (a : Attempt)
    → ((suc k < attempts) × IsRetriable n a × (follow st n x k attempts rest a ≡ rest))
      ⊎ ((follow st n x k attempts rest a ≡ end_of st n x k a)
          × (IsRetriable n a → attempts ≤ suc k))
unfolding follow
follow-cases st n x k attempts rest attempt_passed = inr (refl, λ h. absurd h)
follow-cases st n x k attempts rest (unsaved e) = inr (refl, λ h. absurd h)
follow-cases st n x k attempts rest (attempt_limited cause) = inr (refl, λ h. absurd h)
follow-cases st n x k attempts rest (run_failed e) =
    let known = should_retry_iff n k attempts (cause_from_run_error e) in
    elim (Bool-cases (should_retry n k attempts (cause_from_run_error e))) [
      | inl h ↦ let (more, on) = known.0 h in inl (more, on, rw h refl)
      | inr h ↦
          inr
            (rw h refl, λ on. last_attempt k attempts (λ more. absurd (cc (h, known.1 (more, on)))))
    ]
follow-cases st n x k attempts rest (rejected e) =
    let known = should_retry_iff n k attempts (cause_from_check e) in
    elim (Bool-cases (should_retry n k attempts (cause_from_check e))) [
      | inl h ↦ let (more, on) = known.0 h in inl (more, on, rw h refl)
      | inr h ↦
          inr
            (rw h refl, λ on. last_attempt k attempts (λ more. absurd (cc (h, known.1 (more, on)))))
    ]

-- The attempts before `k` were retriable, and attempt `k`, the last that ran, decides the end: it
-- is not retriable, or no attempt is left.
abbrev pub Decides :
    Matcher → FeedbackState → Node → (ℕ → Execution) → (from : ℕ) → FeedbackState × NodeEnd → Type 0
Decides matches st n world from result =
    (k : ℕ) × (from ≤ k)
    × (k < rounds_of n)
    × ((j : ℕ) → from ≤ j → j < k → IsRetriable n (attempt_of matches n (world j)))
    × (IsRetriable n (attempt_of matches n (world k)) → rounds_of n ≤ suc k)
    × (result ≡ end_of st n (world k) k (attempt_of matches n (world k)))

module _ (matches : Matcher) (st : FeedbackState) (n : Node) (world : ℕ → Execution) where
  -- One more attempt in front, a retriable one.
  earlier :
      (attempt : ℕ) (result : FeedbackState × NodeEnd)
      → IsRetriable n (attempt_of matches n (world attempt))
      → Decides matches st n world (suc attempt) result
      → Decides matches st n world attempt result
  earlier attempt result on (k, low, high, before, last, ended) =
      let all : (j : ℕ) → attempt ≤ j → j < k → IsRetriable n (attempt_of matches n (world j)) =
        λ j from below. elim (Bool-cases (eqb attempt j)) [
          | inl here ↦
              let same : attempt ≡ j = ground arith in
              subst (λ i. IsRetriable n (attempt_of matches n (world i))) same on
          | inr other ↦ before j (ground arith) below
        ] in
      (k, omega (arith, low), high, all, last, ended)

  run_attempts-Decides :
      (left attempt : ℕ) (err : Option NodeError)
      → left + attempt ≡ rounds_of n
      → attempt < rounds_of n
      → Decides matches st n world attempt (run_attempts matches st n world left attempt err)
  unfolding run_attempts
  run_attempts-Decides zero attempt err total more = absurd (omega (arith, total, more))
  run_attempts-Decides (suc left) attempt err total more =
      let a = attempt_of matches n (world attempt) in
      let err' = last_error a err in
      let rest = run_attempts matches st n world left (suc attempt) err' in
      elim (follow-cases st n (world attempt) attempt (rounds_of n) rest a) [
        | inr (ended, last) ↦ (
          attempt,
          omega arith,
          more,
          λ j low high. absurd (omega (arith, low, high)),
          last,
          ended,
        )
        | inl (next, on, same) ↦
            let decided =
              run_attempts-Decides left (suc attempt) err' (omega (arith, total)) next in
            subst (Decides matches st n world attempt) (sym same) (earlier attempt rest on decided)
      ]

-- Go's `int`, and the one value of it at which the bound of the loop overflows.
abbrev pub IsInt : Node → Type 0
IsInt n = (r : Retry) → n.retry ≡ some r → r.max ≤ℤ pos max_int

abbrev pub Overflows : Node → Type 0
Overflows n = (r : Retry) × (n.retry ≡ some r) × (r.max ≡ pos max_int)

bound_of_positive : (k : ℕ) → 0 < k → k < max_int → 0 < pos_part (pos 1 +int pos k)
unfolding ◌+int◌
bound_of_positive k low high =
    let test : ltb ((1 + k) % 18446744073709551616) 9223372036854775808 ≡ true =
      ground (arith, high) in
    ground (arith, test, high, low)

bound_positive :
    (max : ℤ)
    → max ≤ℤ pos max_int
    → max ≢ pos max_int
    → ltb_ℤ (pos 0) max ≡ true
    → 0 < pos_part (pos 1 +int max)
bound_positive (negsuc k) int other low = absurd (ground arith)
bound_positive (pos k) int other low = elim (Bool-cases (eqb k max_int)) [
  | inl same ↦ let e : k ≡ max_int = ground arith in absurd (other (ap pos e))
  | inr apart ↦ bound_of_positive k (ground arith) (ground arith)
]

overflow : pos_part (pos 1 +int pos max_int) ≡ 0
unfolding ◌+int◌
overflow = refl

rounds_of-cases : (n : Node) → IsInt n → (0 < rounds_of n) ⊎ (Overflows n × (rounds_of n ≡ 0))
unfolding rounds_of attempts_of
rounds_of-cases n int = elim (Option-cases n.retry) [
  | inl e ↦ inl (rw (e, rounds_of, attempts_of) (omega arith))
  | inr (r, e) ↦ elim (Bool-cases (ltb_ℤ (pos 0) r.max)) [
    | inr low ↦ inl (rw (e, low, rounds_of, attempts_of) (omega arith))
    | inl high ↦ elim (Bool-cases (eqb_ℤ r.max (pos max_int))) [
      | inl top ↦
          let same : r.max ≡ pos max_int = eq_of_parts r.max (pos max_int) (ground arith) in
          inr ((r, e, same), rw (e, high, rounds_of, attempts_of) (rw same overflow))
      | inr apart ↦
          let other : r.max ≢ pos max_int = λ same. absurd (ground (arith, same, apart)) in
          inl (rw (e, high, rounds_of, attempts_of) (bound_positive r.max (int r e) other high))
    ]
  ]
]

-- For a `retry.max` that an `int` holds, the retry loop of `runNode` ends, whatever the attempts
-- meet. Unless `retry.max` is the largest
-- `int`, it ends within the node's attempts: those before the last all failed for a cause that the
-- node retries on, and the last decides the end, as it is not of that kind or no attempt is left. With
-- the largest `int` the bound overflows, and `runNode` returns nil without an attempt.
pub run_node-Decides :
    (matches : Matcher) (st : FeedbackState) (n : Node) (world : ℕ → Execution)
    → IsInt n
    → Decides matches st n world 0 (run_node matches st n world)
      ⊎ (Overflows n × (run_node matches st n world ≡ (st, fell_through none)))
unfolding run_node
run_node-Decides matches st n world int = elim (rounds_of-cases n int) [
  | inl positive ↦
      inl (run_attempts-Decides matches st n world (rounds_of n) 0 none (omega arith) positive)
  | inr (over, e) ↦ inr (over, rw e (unfold run_attempts in refl))
]
