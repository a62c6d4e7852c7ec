-- ===== src/Lint/Clean.antt =====
-- A graph without findings: its templates can be interpolated when the nodes run.
use mathlib.Core.Option.{some-injective}
use oh_my_graph.Base.{
  String, ◌≡◌, refl, sym, ap, subst, ◌∙◌, inl, inr, true, false, List, [], ◌∷◌, none, some, All,
  append-eq-nil, Option-cases,
}
use oh_my_graph.Base.Bytes.{Bytes, bytes, same_bytes}
use oh_my_graph.Graph.{Graph, Node}
use oh_my_graph.Placeholders.{
  Kind, Placeholder, kind_text, match_placeholder, placeholders_of, loose_tokens, full_match,
}
use oh_my_graph.Placeholders.Scan.{matching, placeholders_of-loose}
use oh_my_graph.Lint.{
  placeholder_kinds, holds, judge_placeholder, judge_token, token_findings, field_findings,
  findings_from, templated_fields, to_lower,
}
use oh_my_graph.Lint.Words.{leading_word-kind}

full_match-match :
    (token : Bytes) (p : Placeholder)
    → full_match token ≡ some p
    → match_placeholder token ≡ some (p, [])
unfolding full_match
full_match-match token p e = elim (Option-cases (match_placeholder token)) [
  | inl m ↦ absurd (cc (rw (m, full_match) at e))
  | inr ((q, []), m) ↦ m ∙ ap (λ x. some (x, [])) (some-injective _ _ (rw (m, full_match) at e))
  | inr ((q, c ∷ r), m) ↦ absurd (cc (rw (m, full_match) at e))
]

-- The word of a placeholder's kind is one that the lint judges.
kind-judged :
    (k : Kind)
    → (holds placeholder_kinds (to_lower (kind_text k)) ≡ true)
      × (same_bytes (to_lower (kind_text k)) (bytes "with") ≡ false)
kind-judged Kind.inputs = (refl, refl)
kind-judged Kind.artifacts = (refl, refl)
kind-judged Kind.feedback = (refl, refl)
kind-judged Kind.self = (refl, refl)

judge_token-placeholder :
    (g : Graph) (id : String) (token : Bytes) (p : Placeholder)
    → full_match token ≡ some p
    → judge_token g id token ≡ judge_placeholder g id p
unfolding judge_token
judge_token-placeholder g id token p e =
    let word = leading_word-kind token [] p (full_match-match token p e) in
    let (judged, other) = kind-judged p.kind in rw (word, judged, other, e, judge_token) refl

module _ (g : Graph) (id : String) where
  abbrev pub IsSilent : List Placeholder → Type 0
  IsSilent = All (λ p. judge_placeholder g id p ≡ none)

  token_findings-nil :
      (field : String) (tokens : List Bytes)
      → token_findings g id field tokens ≡ []
      → IsSilent (matching tokens)
  unfolding token_findings
  token_findings-nil field [] h = tt
  token_findings-nil field (token ∷ tokens) h = elim (Option-cases (judge_token g id token)) [
    | inr (fault, j) ↦ absurd (cc (rw (j, token_findings) at h))
    | inl j ↦
        let ih = token_findings-nil field tokens (rw (j, token_findings) at h) in
        elim (Option-cases (full_match token)) [
          | inl f ↦ rw (f, matching) ih
          | inr (p, f) ↦ rw (f, matching) (sym (judge_token-placeholder g id token p f) ∙ j, ih)
        ]
  ]

  field_findings-nil :
      (fields : List (String × String))
      → field_findings g id fields ≡ []
      → All (λ field. IsSilent (placeholders_of (bytes field.1))) fields
  unfolding field_findings
  field_findings-nil [] h = tt
  field_findings-nil ((field, tmpl) ∷ fields) h =
      let (here, later) = (append-eq-nil _ _).0 h in
      (
        subst IsSilent (sym (placeholders_of-loose (bytes tmpl)))
            (token_findings-nil field (loose_tokens (bytes tmpl)) here),
        field_findings-nil fields later,
      )

pub findings_from-nil :
    (g : Graph) (nodes : List Node)
    → findings_from g nodes ≡ []
    → All
        (λ n. All (λ field. IsSilent g n.id (placeholders_of (bytes field.1))) (templated_fields n))
        nodes
unfolding findings_from
findings_from-nil g [] h = tt
findings_from-nil g (n ∷ nodes) h =
    let (here, later) = (append-eq-nil _ _).0 h in
    (field_findings-nil g n.id (templated_fields n) here, findings_from-nil g nodes later)
