-- ===== src/Validate/Unmoved.antt =====
-- The durations that validation stores do not change what a later check sees.
use oh_my_graph.Base.{◌≡◌, refl, sym, ◌∙◌, ap, inl, inr, List, ◌++◌, Bool-cases, Option-cases, ◌==◌}
use oh_my_graph.Base.Int.{pos, leb_ℤ}
use oh_my_graph.Graph.{Graph, Node}
use oh_my_graph.Issue.{Issue, each}
use oh_my_graph.Checks.{
  validate_on_fail, validate_nodes_unique, validate_node_ids, validate_enums, validate_descriptions,
  validate_dependencies_exist, validate_acyclic, validate_agent_names, validate_worktrees,
  validate_retry, validate_fragments_resolved, validate_reuse_spliced, agent_issues,
  worktree_issues, retry_issues, fragment_issues, reuse_issues,
}
use oh_my_graph.Sessions.{validate_handoff_constraints}
use oh_my_graph.Feedback.{validate_feedback, validate_feedback_placeholders}
use oh_my_graph.Bare.{bare, bare_node}
use oh_my_graph.Validate.{
  Std, check_success, check_timeout, validate_success_checks, validate_node_timeouts, issues_of,
}
use oh_my_graph.Bare.Checks.{each-bare, validate_feedback-bare, validate_feedback_placeholders-bare}
use oh_my_graph.Validate.Stored.{
  IsListed, validate_success_checks-bare, validate_node_timeouts-bare, IsListed-bare,
}

-- A check that reads a graph through its bare form cannot tell two such graphs apart.
unmoved :
    (check : Graph → List Issue)
    → ((g : Graph) → check (bare g) ≡ check g)
    → (g h : Graph) → bare g ≡ bare h
    → check g ≡ check h
unmoved check through g h same = sym (through g) ∙ ap check same ∙ through h

validate_agent_names-bare : (g : Graph) → validate_agent_names (bare g) ≡ validate_agent_names g
unfolding validate_agent_names agent_issues
validate_agent_names-bare g = each-bare agent_issues (λ n. refl) g.nodes

validate_worktrees-bare : (g : Graph) → validate_worktrees (bare g) ≡ validate_worktrees g
unfolding validate_worktrees worktree_issues
validate_worktrees-bare g = each-bare worktree_issues (λ n. refl) g.nodes

validate_retry-bare : (g : Graph) → validate_retry (bare g) ≡ validate_retry g
unfolding validate_retry retry_issues
validate_retry-bare g = each-bare retry_issues (λ n. refl) g.nodes

validate_fragments_resolved-bare :
    (g : Graph) → validate_fragments_resolved (bare g) ≡ validate_fragments_resolved g
unfolding validate_fragments_resolved fragment_issues
validate_fragments_resolved-bare g = each-bare fragment_issues (λ n. refl) g.nodes

validate_reuse_spliced-bare :
    (g : Graph) → validate_reuse_spliced (bare g) ≡ validate_reuse_spliced g
unfolding validate_reuse_spliced reuse_issues
validate_reuse_spliced-bare g = each-bare reuse_issues (λ n. refl) g.nodes

check_timeout-bare :
    (std : Std) (n : Node) → (check_timeout std (bare_node n)).1 ≡ (check_timeout std n).1
unfolding check_timeout
check_timeout-bare std n = elim (Bool-cases (n.timeout == "")) [
  | inl e ↦ rw e refl
  | inr e ↦ elim (Option-cases (std.parse_duration n.timeout)) [
    | inl p ↦ rw (e, p) refl
    | inr (t, p) ↦ elim (Bool-cases (leb_ℤ t (pos 0))) [
      | inl low ↦ rw (e, p, low) refl
      | inr high ↦ rw (e, p, high) refl
    ]
  ]
]

-- The checks in front of the success checks, and those behind the timeouts.
unfoldable pub early : Graph → List Issue
early g =
    validate_on_fail g
    ++ (validate_nodes_unique g
        ++ (validate_node_ids g
            ++ (validate_enums g
                ++ (validate_descriptions g
                    ++ (validate_dependencies_exist g
                        ++ (validate_acyclic g ++ validate_handoff_constraints g))))))

unfoldable pub middle : Graph → List Issue
middle g = validate_agent_names g ++ (validate_worktrees g ++ validate_retry g)

unfoldable pub late : Graph → List Issue
late g =
    validate_fragments_resolved g
    ++ (validate_reuse_spliced g ++ (validate_feedback g ++ validate_feedback_placeholders g))

middle-bare : (g : Graph) → middle (bare g) ≡ middle g
unfolding middle
middle-bare g = rw (validate_agent_names-bare g, validate_worktrees-bare g, validate_retry-bare g)

late-bare : (g : Graph) → late (bare g) ≡ late g
unfolding late
late-bare g = rw (
  validate_fragments_resolved-bare g,
  validate_reuse_spliced-bare g,
  validate_feedback-bare g,
  validate_feedback_placeholders-bare g,
)

module _ (std : Std) where
  abbrev pub success_issues : Node → List Issue
  success_issues n = (check_success std n).1

  abbrev pub timeout_issues : Node → List Issue
  timeout_issues n = (check_timeout std n).1

  timeouts-unmoved :
      (g h : Graph) → bare g ≡ bare h → each timeout_issues g.nodes ≡ each timeout_issues h.nodes
  timeouts-unmoved g h same =
      sym (each-bare timeout_issues (check_timeout-bare std) g.nodes)
      ∙ ap (λ b. each timeout_issues b.nodes) same
      ∙ each-bare timeout_issues (check_timeout-bare std) h.nodes

  -- On a graph whose index lists every node, `Issues` changes stored durations alone, and it lists
  -- what the checks find, in their order, on the graph as it was given.
  pub issues_of-eq :
      (g : Graph)
      → IsListed g
      → (bare (issues_of std g).0 ≡ bare g)
        × ((issues_of std g).1
            ≡ early g
              ++ (each success_issues g.nodes
                  ++ (middle g ++ (each timeout_issues g.nodes ++ late g))))
  unfolding issues_of early middle late
  issues_of-eq g listed =
      let g1 = (validate_success_checks std g).0 in
      let (same1, checks) = validate_success_checks-bare std g listed in
      let g2 = (validate_node_timeouts std g1).0 in
      let (same2, timeouts) =
        validate_node_timeouts-bare std g1 (IsListed-bare g g1 (sym same1) listed) in
      let timed = timeouts ∙ timeouts-unmoved g1 g same1 in
      let mid = unmoved middle middle-bare g1 g same1 in
      let end = unmoved late late-bare g2 g (same2 ∙ same1) in
      (same2 ∙ same1, λ i. early g ++ (checks i ++ (mid i ++ (timed i ++ end i))))
