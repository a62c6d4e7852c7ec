-- ===== src/Validate/Durations.antt =====
-- What the two passes that store durations accept, node by node.
use oh_my_graph.Base.{
  String, ◌==◌, eq_iff, eq_false_iff, ◌≡◌, refl, subst, ◌↔◌, ◌⊎◌, inl, inr, true, false, not, ◌&&◌,
  [], Option, none, some, arith, Bool-cases, Option-cases,
}
use oh_my_graph.Base.Int.{ℤ, pos, ◌≤ℤ◌, ◌<ℤ◌, leb_ℤ}
use oh_my_graph.Base.Text.{is_blank}
use oh_my_graph.Graph.{Node, Verification, max_verify_timeout}
use oh_my_graph.Issue.{Issue}
use oh_my_graph.Issue.Collect.{when-nil, iff_trans, ++-nil, snoc-ne-nil}
use oh_my_graph.Validate.{
  Std, VerifyCheck, good, bad, judge_timeout, validate_verification, result_issues, check_success,
  check_timeout,
}

module _ (std : Std) where
  abbrev pub Compiles : String → Type 0
  Compiles pattern = (pattern ≡ "") ⊎ (std.regexp_compiles pattern ≡ true)

  -- A timeout that a verify block may declare, and a pattern that compiles.
  abbrev IsJudged : Verification → ℤ → Type 0
  IsJudged v t = (pos 0 <ℤ t) × ((t ≤ℤ max_verify_timeout) × Compiles v.output_matches)

  -- A verify block that can be run.
  abbrev pub IsRunnable : Verification → Type 0
  IsRunnable v =
      (is_blank v.command ≡ false)
      × ((t : ℤ) × (std.parse_duration v.timeout ≡ some t) × IsJudged v t)

  abbrev pub IsRunnableIfAny : Option Verification → Type 0
  IsRunnableIfAny none = Unit
  IsRunnableIfAny (some v) = IsRunnable v

  abbrev pub HasSoundCheck : Node → Type 0
  HasSoundCheck n =
      ((pos 0 ≤ℤ n.success_check.result_min_bytes) × Compiles n.success_check.result_matches)
      × IsRunnableIfAny n.success_check.verify

  abbrev pub HasSoundTimeout : Node → Type 0
  HasSoundTimeout n =
      (n.timeout ≡ "") ⊎ ((t : ℤ) × (std.parse_duration n.timeout ≡ some t) × (pos 0 <ℤ t))

  abbrev IsGood : VerifyCheck → Type 0
  IsGood c = (t : ℤ) × (c ≡ good t)

  Compiles-test :
      (pattern : String)
      → ((not (pattern == "") && not (std.regexp_compiles pattern)) ≡ false) ↔ Compiles pattern
  Compiles-test pattern = ground (arith, eq_iff pattern "")

  judge_timeout-IsGood :
      (id : String) (v : Verification) (t : ℤ) → IsGood (judge_timeout std id v t) ↔ IsJudged v t
  unfolding judge_timeout
  judge_timeout-IsGood id v t = (
    λ (u, h). ground (arith, Compiles-test v.output_matches),
    λ h. (t, ground (arith, Compiles-test v.output_matches)),
  )

  validate_verification-IsGood :
      (id : String) (v : Verification) → IsGood (validate_verification std id v) ↔ IsRunnable v
  unfolding validate_verification
  validate_verification-IsGood id v = elim (Bool-cases (is_blank v.command)) [
    | inl blank ↦ (
      λ (t, h). absurd (cc (rw (blank, validate_verification) at h)),
      λ (named, _). absurd (cc (blank, named)),
    )
    | inr named ↦ elim (Option-cases (std.parse_duration v.timeout)) [
      | inl e ↦ (
        λ (t, h). absurd (cc (rw (named, e, validate_verification) at h)),
        λ (_, (t, parsed, _)). absurd (cc (e, parsed)),
      )
      | inr (u, e) ↦
          let judged = judge_timeout-IsGood id v u in
          (
            λ (t, h). (named, (u, e, judged.0 (t, rw (named, e, validate_verification) at h))),
            λ (_, (t, parsed, j)).
                let same : t ≡ u = cc in
                let (s, h) = judged.1 (subst (IsJudged v) same j) in
                (s, rw (named, e, validate_verification) h),
          )
    ]
  ]

  VerifyCheck-cases : (c : VerifyCheck) → IsGood c ⊎ ((i : Issue) × (c ≡ bad i))
  VerifyCheck-cases (good t) = inl (t, refl)
  VerifyCheck-cases (bad i) = inr (i, refl)

  result_issues-nil :
      (n : Node)
      → (result_issues std n ≡ [])
        ↔ ((pos 0 ≤ℤ n.success_check.result_min_bytes) × Compiles n.success_check.result_matches)
  unfolding result_issues
  result_issues-nil n =
      ++-nil _ _ (iff_trans (when-nil _ _) (ground arith))
        (iff_trans (when-nil _ _) (Compiles-test n.success_check.result_matches))

  -- The success check of a node is accepted exactly if its byte minimum is not negative, its patterns
  -- compile, and its verification, if any, has a command and a timeout above zero and at most ten
  -- minutes.
  pub check_success-nil : (n : Node) → ((check_success std n).1 ≡ []) ↔ HasSoundCheck n
  unfolding check_success
  check_success-nil n =
      let own = result_issues-nil n in
      elim (Option-cases n.success_check.verify) [
        | inl e ↦ rw (e, check_success) (λ h. (own.0 h, tt), λ h. own.1 h.0)
        | inr (v, e) ↦
            let verified = validate_verification-IsGood n.id v in
            elim (VerifyCheck-cases (validate_verification std n.id v)) [
              | inl (t, h) ↦
                  rw (e, h, check_success)
                    (λ none_here. (own.0 none_here, verified.0 (t, h)), λ sound. own.1 sound.0)
              | inr (i, h) ↦
                  rw (e, h, check_success)
                    (
                      λ none_here. absurd (snoc-ne-nil _ _ none_here),
                      λ (_, runnable). let (t, h') = verified.1 runnable in absurd (cc (h, h')),
                    )
            ]
      ]

  -- A declared timeout that is sound parses to a positive duration.
  declared :
      (n : Node)
      → (n.timeout == "") ≡ false
      → HasSoundTimeout n
      → (t : ℤ) × (std.parse_duration n.timeout ≡ some t) × (pos 0 <ℤ t)
  declared n e (inl empty) = absurd ((eq_false_iff n.timeout "").0 e empty)
  declared n e (inr sound) = sound

  -- A node's timeout is accepted exactly if it is empty or parses to a duration above zero.
  pub check_timeout-nil : (n : Node) → ((check_timeout std n).1 ≡ []) ↔ HasSoundTimeout n
  unfolding check_timeout
  check_timeout-nil n = elim (Bool-cases (n.timeout == "")) [
    | inl e ↦ rw (e, check_timeout) (λ _. inl ((eq_iff n.timeout "").0 e), λ _. refl)
    | inr e ↦ elim (Option-cases (std.parse_duration n.timeout)) [
      | inl p ↦ (
        λ h. absurd (cc (rw (e, p, check_timeout) at h)),
        λ h. let (t, parsed, _) = declared n e h in absurd (cc (parsed, p)),
      )
      | inr (t, p) ↦ elim (Bool-cases (leb_ℤ t (pos 0))) [
        | inl low ↦ (
          λ h. absurd (cc (rw (e, p, low, check_timeout) at h)),
          λ h.
              let (u, parsed, positive) = declared n e h in
              let same : u ≡ t = cc in
              let positive' = subst (λ x. pos 0 <ℤ x) same positive in absurd (ground arith),
        )
        | inr high ↦ rw (e, p, high, check_timeout) (λ _. inr (t, refl, ground arith), λ _. refl)
      ]
    ]
  ]
