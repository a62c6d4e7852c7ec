-- ===== src/Feedback/Placeholders.antt =====
-- What the check of {{ feedback.<id> }} placeholders accepts.
use oh_my_graph.Base.{
  String, ◌≡◌, subst, ◌↔◌, inl, inr, false, not, List, [], some, contains, contains_iff, not-false,
  All, Memᴰ, Bool-cases, Option-cases,
}
use oh_my_graph.Graph.{Graph, Node}
use oh_my_graph.Issue.{each}
use oh_my_graph.Issue.Collect.{when-nil, iff_trans, each-nil}
use oh_my_graph.Tokens.{Token, tokens_of}
use oh_my_graph.Feedback.{
  arc_body, token_fields, token_issues, field_issues, validate_feedback_placeholders,
}

-- A placeholder that can resolve: it has no filter, its id declares an arc, and the node that
-- quotes it lies in the body of that arc.
abbrev pub IsSoundToken : Graph → Node → Token → Type 0
IsSoundToken g n token =
    (token.filtered ≡ false)
    × ((body : List String) × (arc_body g g.nodes token.ref ≡ some body) × Memᴰ n.id body)

token_issues-nil :
    (g : Graph) (n : Node) (field : String) (token : Token)
    → (token_issues g n field token ≡ []) ↔ IsSoundToken g n token
unfolding token_issues
token_issues-nil g n field token = elim (Bool-cases token.filtered) [
  | inl e ↦ (λ h. absurd (cc (rw (e, token_issues) at h)), λ (plain, _). absurd (cc (e, plain)))
  | inr e ↦ elim (Option-cases (arc_body g g.nodes token.ref)) [
    | inl k ↦ (
      λ h. absurd (cc (rw (e, k, token_issues) at h)),
      λ (_, (body, known, _)). absurd (cc (k, known)),
    )
    | inr (body, k) ↦
        let test =
          iff_trans (when-nil (not (contains body n.id)) _)
            (iff_trans (not-false _) (contains_iff body n.id)) in
        (
          λ h. (e, (body, k, test.0 (rw (e, k, token_issues) at h))),
          λ (_, (body', known, m)).
              let same : body' ≡ body = cc in
              rw (e, k, token_issues) (test.1 (subst (Memᴰ n.id) same m)),
        )
  ]
]

-- Every placeholder in a field that is interpolated can resolve.
abbrev pub HasSoundTokens : Graph → Type 0
HasSoundTokens g =
    All (λ n. All (λ field. All (IsSoundToken g n) (tokens_of field.1)) (token_fields n)) g.nodes

field_issues-nil :
    (g : Graph) (n : Node) (field : String × String)
    → (field_issues g n field ≡ []) ↔ All (IsSoundToken g n) (tokens_of field.1)
unfolding field_issues
field_issues-nil g n (name, text) =
    each-nil (IsSoundToken g n) (token_issues g n name) (token_issues-nil g n name) (tokens_of text)

-- The check of feedback placeholders finds nothing exactly if each placeholder in a prompt, a cwd or
-- a verification has no filter and names the declarer of an arc whose body holds the node.
pub validate_feedback_placeholders-nil :
    (g : Graph) → (validate_feedback_placeholders g ≡ []) ↔ HasSoundTokens g
unfolding validate_feedback_placeholders
validate_feedback_placeholders-nil g =
    each-nil _ (λ n. each (field_issues g n) (token_fields n))
      (λ n. each-nil _ (field_issues g n) (field_issues-nil g n) (token_fields n)) g.nodes
