-- ===== src/Bare/Checks.antt =====
-- The checks of arcs and placeholders read a graph through its bare form.
use mathlib.Core.Path.{fun_ext}
use oh_my_graph.Base.{ℕ, String, ◌≡◌, refl, ap, List, [], ◌∷◌, map, Option-cases, inl, inr}
use oh_my_graph.Graph.{Graph, Node, Feedback, node_by_id}
use oh_my_graph.Issue.{Issue, each}
use oh_my_graph.Tokens.{tokens_of}
use oh_my_graph.Feedback.{
  Owners, is_gate, outside_parent, member_issues, arc_issues, arcs_from, validate_feedback,
  arc_body, token_fields, token_issues, field_issues, validate_feedback_placeholders, feedback_body,
}
use oh_my_graph.Bare.{bare_node, bare_verify, bare}
use oh_my_graph.Bare.Lookup.{node_by_id-bare, is_none-bare, dependents_of-bare}
use oh_my_graph.Bare.Walks.{ancestor_set-bare, feedback_body-bare}

-- A loop over the nodes whose check does not look at the stored durations.
pub each-bare :
    (check : Node → List Issue)
    → ((n : Node) → check (bare_node n) ≡ check n)
    → (nodes : List Node) → each check (map bare_node nodes) ≡ each check nodes
each-bare check same [] = refl
each-bare check same (n ∷ nodes) = rw (same n, each-bare check same nodes)

is_gate-bare : (g : Graph) (id : String) → is_gate (bare g) id ≡ is_gate g id
unfolding is_gate
is_gate-bare g id = elim (Option-cases (node_by_id g id)) [
  | inl e ↦ rw (node_by_id-bare g id, e, is_gate)
  | inr (n, e) ↦ rw (node_by_id-bare g id, e, is_gate)
]

outside_parent-bare :
    (g : Graph) (body : List String) (id : String)
    → outside_parent (bare g) body id ≡ outside_parent g body id
unfolding outside_parent
outside_parent-bare g body id = elim (Option-cases (node_by_id g id)) [
  | inl e ↦ rw (node_by_id-bare g id, e, outside_parent)
  | inr (n, e) ↦ rw (node_by_id-bare g id, e, outside_parent)
]

member_issues-bare :
    (g : Graph) (declarer : String) (body : List String)
    → member_issues (bare g) declarer body ≡ member_issues g declarer body
member_issues-bare g declarer body = fun_ext (λ id.
    unfold member_issues in
    rw (is_gate-bare g id, outside_parent-bare g body id, dependents_of-bare g id))

arc_issues-bare :
    (g : Graph) (id : String) (f : Feedback) (owners : Owners)
    → arc_issues (bare g) id f owners ≡ arc_issues g id f owners
unfolding arc_issues
arc_issues-bare g id f owners = rw (
  is_none-bare g f.rerun,
  ancestor_set-bare g id,
  feedback_body-bare g id,
  member_issues-bare g id (feedback_body g id),
)

arcs_from-bare :
    (g : Graph) (nodes : List Node) (owners : Owners)
    → arcs_from (bare g) (map bare_node nodes) owners ≡ arcs_from g nodes owners
unfolding arcs_from
arcs_from-bare g [] owners = refl
arcs_from-bare g (n ∷ nodes) owners = elim (Option-cases n.feedback) [
  | inl e ↦ rw (e, arcs_from) (arcs_from-bare g nodes owners)
  | inr (f, e) ↦
      rw (e, arcs_from)
        (rw (arc_issues-bare g n.id f owners)
          (rw (arcs_from-bare g nodes (arc_issues g n.id f owners).1)))
]

pub validate_feedback-bare : (g : Graph) → validate_feedback (bare g) ≡ validate_feedback g
unfolding validate_feedback
validate_feedback-bare g = arcs_from-bare g g.nodes []

arc_body-bare :
    (g : Graph) (nodes : List Node) (ref : List ℕ)
    → arc_body (bare g) (map bare_node nodes) ref ≡ arc_body g nodes ref
unfolding arc_body
arc_body-bare g [] ref = refl
arc_body-bare g (n ∷ nodes) ref = rw (feedback_body-bare g n.id, arc_body-bare g nodes ref)

token_fields-bare : (n : Node) → token_fields (bare_node n) ≡ token_fields n
unfolding token_fields
token_fields-bare n = elim (Option-cases n.success_check.verify) [
  | inl e ↦ rw (e, bare_verify)
  | inr (v, e) ↦ rw (e, bare_verify)
]

field_issues-bare : (g : Graph) (n : Node) → field_issues (bare g) (bare_node n) ≡ field_issues g n
field_issues-bare g n = fun_ext (λ (field, text).
    unfold field_issues in
    ap (λ check. each check (tokens_of text))
      (fun_ext (λ token. unfold token_issues in rw (arc_body-bare g g.nodes token.ref))))

placeholders_from-bare :
    (g : Graph) (nodes : List Node)
    → each (λ n. each (field_issues (bare g) n) (token_fields n)) (map bare_node nodes)
      ≡ each (λ n. each (field_issues g n) (token_fields n)) nodes
placeholders_from-bare g [] = refl
placeholders_from-bare g (n ∷ nodes) =
    rw (token_fields-bare n, field_issues-bare g n, placeholders_from-bare g nodes)

pub validate_feedback_placeholders-bare :
    (g : Graph) → validate_feedback_placeholders (bare g) ≡ validate_feedback_placeholders g
unfolding validate_feedback_placeholders
validate_feedback_placeholders-bare g = placeholders_from-bare g g.nodes
