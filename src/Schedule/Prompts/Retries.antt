-- ===== src/Schedule/Prompts/Retries.antt =====
-- Each retry starts cold and quotes the one attempt in front of it.
use mathlib.Core.Option.{some-injective}
use oh_my_graph.Base.{
  ℕ, zero, suc, ◌+◌, ◌≡◌, refl, sym, ap, subst, ◌∙◌, inl, inr, [], ◌∷◌, ◌++◌, Option, none, some,
  arith, get_elem?, Bool-cases, Option-cases,
}
use oh_my_graph.Base.Bytes.{Bytes}
use oh_my_graph.Graph.{Node}
use oh_my_graph.Schedule.Attempts.{Execution, attempt_of}
use oh_my_graph.Schedule.Prompts.{
  Invocation, start_cold, with_conventions, prior_of, is_retried, specs_from, quote_prior_attempt,
  retry_prompt,
}
use oh_my_graph.Schedule.Verdict.{Matcher}

-- The prompt with the quote, or the plain prompt if no nonce could be drawn.
abbrev pub quoted : Option Bytes → Bytes → Bytes → Bytes
quoted nonce base prior = elim (retry_prompt nonce base prior) [
  | none ↦ base
  | some prompt ↦ prompt
]

start_cold-eq :
    (nonce : Option Bytes) (invocation : Invocation) (base prior : Bytes)
    → start_cold nonce invocation base prior
      ≡ record invocation { prompt = quoted nonce base prior; resume_session = [] }
unfolding start_cold quote_prior_attempt
start_cold-eq nonce invocation base prior = elim (Option-cases (retry_prompt nonce base prior)) [
  | inl e ↦ rw (e, start_cold, quote_prior_attempt, quoted) refl
  | inr (prompt, e) ↦ rw (e, start_cold, quote_prior_attempt, quoted) refl
]

with_conventions-cold :
    (conventions prompt : Bytes) (invocation : Invocation)
    → with_conventions conventions (record invocation { prompt = prompt; resume_session = [] })
      ≡ record invocation { prompt = conventions ++ prompt; resume_session = [] }
unfolding with_conventions
with_conventions-cold [] prompt invocation = refl
with_conventions-cold (c ∷ cs) prompt invocation = refl

module _ (matches : Matcher) (n : Node) (world : ℕ → Execution) (conventions base : Bytes)
    (nonce : ℕ → Option Bytes) where
  -- The reply of an attempt that the next one quotes.
  abbrev reply_of : ℕ → Bytes
  reply_of attempt = prior_of (world attempt) (attempt_of matches n (world attempt))

  abbrev pub retry_spec : ℕ → Invocation → Invocation
  retry_spec attempt first = record first {
    prompt = conventions ++ quoted (nonce (suc attempt)) base (reply_of attempt);
    resume_session = [];
  }

  abbrev retry_of : ℕ → Invocation → Invocation
  retry_of attempt first = start_cold (nonce (suc attempt)) first base (reply_of attempt)

  retry_of-spec :
      (attempt other : ℕ) (first : Invocation)
      → retry_spec attempt (retry_of other first) ≡ retry_spec attempt first
  retry_of-spec attempt other first =
      rw (start_cold-eq (nonce (suc other)) first base (reply_of other)) refl

  specs_from-head :
      (left attempt : ℕ) (first spec : Invocation)
      → get_elem? (specs_from matches n world conventions base nonce left attempt first) 0
        ≡ some spec
      → spec ≡ with_conventions conventions first
  unfolding specs_from
  specs_from-head zero attempt first spec h = absurd (cc h)
  specs_from-head (suc left) attempt first spec h = sym (some-injective _ _ h)

  nothing :
      (attempt k : ℕ) (first spec : Invocation)
      → ¬ (
          get_elem? (specs_from matches n world conventions base nonce zero attempt first) (suc k)
          ≡ some spec)
  unfolding specs_from
  nothing attempt k first spec h = cc h

  cold-eq :
      (attempt : ℕ) (first spec : Invocation)
      → spec ≡ with_conventions conventions (retry_of attempt first)
      → spec ≡ retry_spec attempt first
  cold-eq attempt first spec h =
      h
      ∙ ap (with_conventions conventions)
          (start_cold-eq (nonce (suc attempt)) first base (reply_of attempt))
      ∙ with_conventions-cold conventions _ first

  specs_from-rest :
      (left attempt k : ℕ) (first spec : Invocation)
      → get_elem?
          (specs_from matches n world conventions base nonce (suc left) attempt first)
          (suc k)
        ≡ some spec
      → get_elem?
          (specs_from matches n world conventions base nonce left
            (suc attempt)
            (retry_of attempt first))
          k
        ≡ some spec
  unfolding specs_from
  specs_from-rest left attempt k first spec h =
      elim (Bool-cases (is_retried n attempt (attempt_of matches n (world attempt)))) [
        | inr last ↦ absurd (cc (rw (last, specs_from) at h))
        | inl again ↦ rw (again, specs_from) at h
      ]

  -- Every spec behind the first starts a new session, keeps the other settings, and its prompt is the
  -- conventions, the node's own prompt and a quote of the attempt just before it, of no other one; it
  -- quotes nothing if that attempt was not judged or said nothing, or if no nonce could be drawn.
  pub specs_from-retry :
      (left attempt k : ℕ) (first spec : Invocation)
      → get_elem? (specs_from matches n world conventions base nonce left attempt first) (suc k)
        ≡ some spec
      → spec ≡ retry_spec (k + attempt) first
  specs_from-retry zero attempt k first spec h = absurd (nothing attempt k first spec h)
  specs_from-retry (suc left) attempt zero first spec h =
      let e = cold-eq attempt first spec (
        specs_from-head left (suc attempt) (retry_of attempt first) spec
          (specs_from-rest left attempt zero first spec h)) in
      subst (λ j. spec ≡ retry_spec j first) (omega arith) e
  specs_from-retry (suc left) attempt (suc k) first spec h =
      let ih =
        specs_from-retry left (suc attempt) k (retry_of attempt first) spec
          (specs_from-rest left attempt (suc k) first spec h) in
      subst (λ j. spec ≡ retry_spec j first) (omega arith)
        (ih ∙ retry_of-spec (k + suc attempt) attempt first)
