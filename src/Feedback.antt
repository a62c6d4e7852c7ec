-- ===== src/Feedback.antt =====
-- internal/graph/feedback.go: the loop body of a feedback arc, and the load-time checks of arcs and
-- of {{ feedback.<id> }} placeholders. A set built from a body is read as membership in that body.
pub mod Apart
pub mod Body
pub mod Shape
pub mod Declared
pub mod Disjoint
pub mod Placeholders
pub mod Quoted
use oh_my_graph.Base.{
  ℕ, String, ◌==◌, Bool, true, false, not, ◌&&◌, ◌||◌, List, [], ◌∷◌, ◌++◌, Option, none, some,
  if◌then◌else◌, eqb, contains,
}
use oh_my_graph.Base.Int.{ℤ, pos, ltb_ℤ}
use oh_my_graph.Base.Text.{codes, is_blank}
use oh_my_graph.Graph.{
  Graph, Node, Feedback, node_by_id, dependents_of, is_none, type_gate, handoff_session,
}
use oh_my_graph.Ancestors.{ancestor_set, between_set}
use oh_my_graph.Issue.{
  Issue, issue, when, each, feedback_max_not_positive, feedback_needs_rerun, feedback_unknown_rerun,
  feedback_not_ancestor, feedback_overlap, feedback_gate, feedback_session_parent,
  feedback_side_exit, token_filter, token_without_arc, token_outside_body,
}
use oh_my_graph.Tokens.{Token, tokens_of}

unfoldable pub body_of_arc : Graph → String → Option Feedback → List String
body_of_arc g id none = []
body_of_arc g id (some f) =
    if is_none (node_by_id g f.rerun)
    then []
    else if ancestor_set g id f.rerun
    then between_set g f.rerun id
    else []

-- `FeedbackBody`; Go's nil is the empty list, which no body of an arc is.
unfoldable pub feedback_body : Graph → String → List String
unfolding body_of_arc
feedback_body g id = elim (node_by_id g id) [
  | none ↦ []
  | some declarer ↦ body_of_arc g id declarer.feedback
]

-- `bodyOwner`, from a body node to the declarer that claimed it.
abbrev pub Owners : Type 0
Owners = List (String × String)

unfoldable pub owner_of : Owners → String → Option String
owner_of [] id = none
owner_of ((member, declarer) ∷ owners) id =
    if member == id then some declarer else owner_of owners id

-- The loop that claims a body's nodes.
unfoldable pub claim : String → List String → Owners → List Issue × Owners
unfolding owner_of
claim declarer [] owners = ([], owners)
claim declarer (id ∷ body) owners = elim (owner_of owners id) [
  | none ↦ claim declarer body ((id, declarer) ∷ owners)
  | some owner ↦
      let (rest, owners') = claim declarer body owners in
      (issue declarer (feedback_overlap id owner) ∷ rest, owners')
]

-- `len(parents) == 1`
abbrev pub sole : List String → Option String
sole (parent ∷ []) = some parent
sole _ = none

unfoldable pub is_gate : Graph → String → Bool
is_gate g id = elim (node_by_id g id) [ none ↦ false | some member ↦ member.type == type_gate ]

-- The only parent of a session node, where it lies outside the body.
unfoldable pub outside_parent : Graph → List String → String → Option String
outside_parent g body id = elim (node_by_id g id) [
  | none ↦ none
  | some member ↦
      if member.handoff == handoff_session
      then elim (sole member.depends_on) [
        | none ↦ none
        | some parent ↦ if contains body parent then none else some parent
      ]
      else none
]

abbrev pub session_issue : String → String → Option String → List Issue
session_issue declarer id none = []
session_issue declarer id (some parent) = issue declarer (feedback_session_parent id parent) ∷ []

unfoldable pub side_exits : String → List String → String → List String → List Issue
side_exits declarer body id dependents =
    each
      (λ dependent.
        when (not (contains body dependent)) (issue declarer (feedback_side_exit dependent id)))
      dependents

-- The checks of one body node.
unfoldable pub member_issues : Graph → String → List String → String → List Issue
unfolding is_gate outside_parent side_exits
member_issues g declarer body id =
    when (is_gate g id) (issue declarer (feedback_gate id))
    ++ (session_issue declarer id (outside_parent g body id)
        ++ (if id == declarer then [] else side_exits declarer body id (dependents_of g id)))

-- The checks of one arc, from the nodes claimed so far.
unfoldable pub arc_issues : Graph → String → Feedback → Owners → List Issue × Owners
unfolding claim
arc_issues g id f owners =
    let bound = when (ltb_ℤ f.max (pos 1)) (issue id (feedback_max_not_positive f.max)) in
    if is_blank f.rerun
    then (bound ++ issue id feedback_needs_rerun ∷ [], owners)
    else if is_none (node_by_id g f.rerun)
    then (bound ++ issue id (feedback_unknown_rerun f.rerun) ∷ [], owners)
    else if not (ancestor_set g id f.rerun)
    then (bound ++ issue id (feedback_not_ancestor f.rerun) ∷ [], owners)
    else let body = feedback_body g id in
      let (overlaps, owners') = claim id body owners in
      (bound ++ (overlaps ++ each (member_issues g id body) body), owners')

-- The loop of `validateFeedback` over the nodes.
unfoldable pub arcs_from : Graph → List Node → Owners → List Issue
unfolding arc_issues
arcs_from g [] owners = []
arcs_from g (n ∷ nodes) owners = elim n.feedback [
  | none ↦ arcs_from g nodes owners
  | some f ↦
      let (issues, owners') = arc_issues g n.id f owners in issues ++ arcs_from g nodes owners'
]

unfoldable pub validate_feedback : Graph → List Issue
unfolding arcs_from
validate_feedback g = arcs_from g g.nodes []

unfoldable pub codes_eq : List ℕ → List ℕ → Bool
codes_eq [] [] = true
codes_eq (c ∷ cs) (d ∷ ds) = eqb c d && codes_eq cs ds
codes_eq _ _ = false

-- `bodies[ref]`. Nodes that share an id share the body, so the first declarer stands for the last.
unfoldable pub arc_body : Graph → List Node → List ℕ → Option (List String)
unfolding codes_eq
arc_body g [] ref = none
arc_body g (n ∷ nodes) ref =
    if not (is_none n.feedback) && codes_eq (codes n.id) ref
    then some (feedback_body g n.id)
    else arc_body g nodes ref

-- The interpolated fields of a node, with their names.
unfoldable pub token_fields : Node → List (String × String)
token_fields n = ("prompt", n.prompt) ∷ ("cwd", n.cwd) ∷ elim n.success_check.verify [
  | none ↦ []
  | some v ↦ ("success_check.verify.command", v.command) ∷ ("success_check.verify.cwd", v.cwd) ∷ []
]

unfoldable pub token_issues : Graph → Node → String → Token → List Issue
unfolding arc_body
token_issues g n field token =
    if token.filtered
    then issue n.id (token_filter field) ∷ []
    else elim (arc_body g g.nodes token.ref) [
      | none ↦ issue n.id (token_without_arc field token.ref) ∷ []
      | some body ↦
          when (not (contains body n.id)) (issue n.id (token_outside_body field token.ref))
    ]

unfoldable pub field_issues : Graph → Node → String × String → List Issue
field_issues g n (field, text) = each (token_issues g n field) (tokens_of text)

unfoldable pub validate_feedback_placeholders : Graph → List Issue
validate_feedback_placeholders g = each (λ n. each (field_issues g n) (token_fields n)) g.nodes
