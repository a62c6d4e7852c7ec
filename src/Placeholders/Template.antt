-- ===== src/Placeholders/Template.antt =====
-- A template is a sequence of literal texts and placeholders; substitution replaces the placeholders
-- one by one and leaves the literal texts as they are.
use mathlib.Core.Bool.{true≢false}
use oh_my_graph.Base.{
  ◌↔◌, ℕ, zero, suc, ◌-◌, ◌≡◌, refl, ap, inl, inr, Bool, true, false, List, [], ◌∷◌, Option, none,
  some, arith, length, Option-cases,
}
use oh_my_graph.Base.Bytes.{Bytes}
use oh_my_graph.Placeholders.{
  Placeholder, Resolved, match_placeholder, placeholders_from, placeholders_of,
  contains_placeholder, replace_from, replace_all,
}

abbrev pub is_value {ℓ} : {E : Type ℓ} → Resolved E → Bool
is_value (Resolved.value _) = true
is_value (Resolved.failed _) = false

contains-placeholders :
    (cs : Bytes) → (contains_placeholder cs ≡ false) ↔ (placeholders_from 0 cs ≡ [])
unfolding contains_placeholder placeholders_from
contains-placeholders [] = (λ _. refl, λ _. refl)
contains-placeholders (c ∷ cs) = elim (Option-cases (match_placeholder (c ∷ cs))) [
  | inl e ↦ rw (e, contains_placeholder, placeholders_from) (contains-placeholders cs)
  | inr (found, e) ↦
      rw (e, contains_placeholder, placeholders_from)
        (λ h. absurd (true≢false h), λ h. absurd (cc h))
]

module _ {ℓ} {E : Type ℓ} (resolve : ℕ → Placeholder → Resolved E) where
  -- The error of the first placeholder that does not resolve.
  abbrev pub first_failure : List Placeholder → ℕ → Option E
  first_failure [] k = none
  first_failure (token ∷ tokens) k = elim (resolve k token) [
    | Resolved.value _ ↦ first_failure tokens (suc k)
    | Resolved.failed e ↦ some e
  ]

  replace_from-error :
      (skip : ℕ) (cs : Bytes) (k : ℕ)
      → (replace_from resolve skip cs k).0 ≡ first_failure (placeholders_from skip cs) k
  unfolding replace_from placeholders_from
  replace_from-error skip [] k = refl
  replace_from-error (suc skip) (c ∷ cs) k = replace_from-error skip cs k
  replace_from-error zero (c ∷ cs) k = elim (Option-cases (match_placeholder (c ∷ cs))) [
    | inl e ↦ rw (e, replace_from, placeholders_from) (replace_from-error 0 cs k)
    | inr ((token, rest), e) ↦
        let ih = replace_from-error (length cs - length rest) cs (suc k) in
        rw (e, replace_from, placeholders_from) (ground (arith, ih))
  ]

  replace_from-literal :
      (cs : Bytes) (k : ℕ) → placeholders_from 0 cs ≡ [] → replace_from resolve 0 cs k ≡ (none, cs)
  unfolding replace_from placeholders_from
  replace_from-literal [] k h = refl
  replace_from-literal (c ∷ cs) k h = elim (Option-cases (match_placeholder (c ∷ cs))) [
    | inl e ↦
        let ih = replace_from-literal cs k (rw (e, placeholders_from) at h) in
        rw (e, replace_from) (ap (λ r. (r.0, c ∷ r.1)) ih)
    | inr (found, e) ↦ absurd (cc (rw (e, placeholders_from) at h))
  ]

  pub replace_all-is_value :
      (tmpl : Bytes)
      → (is_value (replace_all resolve tmpl) ≡ true)
        ↔ (first_failure (placeholders_of tmpl) 0 ≡ none)
  unfolding replace_all placeholders_of
  replace_all-is_value tmpl = ground (arith, replace_from-error 0 tmpl 0)

  pub replace_all_failed :
      (tmpl : Bytes) (e : E)
      → (replace_all resolve tmpl ≡ Resolved.failed e)
        ↔ (first_failure (placeholders_of tmpl) 0 ≡ some e)
  unfolding replace_all placeholders_of
  replace_all_failed tmpl e = ground (arith, replace_from-error 0 tmpl 0)

  pub replace_all_literal :
      (tmpl : Bytes)
      → contains_placeholder tmpl ≡ false
      → replace_all resolve tmpl ≡ Resolved.value tmpl
  unfolding replace_all
  replace_all_literal tmpl h =
      let e = replace_from-literal tmpl 0 ((contains-placeholders tmpl).0 h) in ground (arith, e)
