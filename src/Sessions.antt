-- ===== src/Sessions.antt =====
-- internal/graph/validate.go: `validateHandoffConstraints`, the session-handoff rules.
pub mod Families
pub mod Laws
use oh_my_graph.Base.{
  ℕ, String, ◌==◌, Bool, true, false, not, List, [], ◌∷◌, ◌++◌, Option, none, some, if◌then◌else◌,
  length,
}
use oh_my_graph.Graph.{Graph, Node, node_by_id, is_none, handoff_session}
use oh_my_graph.Feedback.{sole, is_gate}
use oh_my_graph.Issue.{
  session_siblings, Issue, issue, each, session_parent_count, session_gate_parent,
  session_siblings_of,
}

-- `parents` and `childrenOf` in one list: the parents in the order of their first session child,
-- each with its session children in order.
abbrev pub Families : Type 0
Families = List (String × List String)

unfoldable pub add_child : String → String → Families → Families
add_child parent child [] = (parent, child ∷ []) ∷ []
add_child parent child ((p, children) ∷ families) =
    if p == parent
    then (p, children ++ child ∷ []) ∷ families
    else (p, children) ∷ add_child parent child families

-- One node of the first loop of `validateHandoffConstraints`.
unfoldable pub session_issues : Graph → Node → Families → List Issue × Families
session_issues g n families =
    if not (n.handoff == handoff_session) then ([], families) else elim (sole n.depends_on) [
      | none ↦ (issue n.id (session_parent_count (length n.depends_on)) ∷ [], families)
      | some parent ↦
          if is_gate g parent
          then (issue n.id (session_gate_parent parent) ∷ [], families)
          else if is_none (node_by_id g parent)
          then ([], families)
          else ([], add_child parent n.id families)
    ]

unfoldable pub sessions_from : Graph → List Node → Families → List Issue × Families
unfolding session_issues add_child
sessions_from g [] families = ([], families)
sessions_from g (n ∷ nodes) families =
    let (issues, families') = session_issues g n families in
    let (rest, families'') = sessions_from g nodes families' in (issues ++ rest, families'')

abbrev rest_of : List String → List String
rest_of [] = []
rest_of (_ ∷ xs) = xs

unfoldable pub sibling_issues : String × List String → List Issue
sibling_issues (parent, children) =
    each
      (λ id.
        record {
          kind = session_siblings;
          node_id = id;
          reason = session_siblings_of parent children;
        }
        ∷ [])
      (rest_of children)

unfoldable pub validate_handoff_constraints : Graph → List Issue
unfolding sessions_from
validate_handoff_constraints g =
    let (issues, families) = sessions_from g g.nodes [] in issues ++ each sibling_issues families
