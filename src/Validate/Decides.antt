-- ===== src/Validate/Decides.antt =====
-- `Validate` and `Parse` accept exactly the well-formed graphs.
use oh_my_graph.Base.{
  ◌≡◌, refl, sym, ◌∙◌, ◌↔◌, ◌⊎◌, inl, inr, List, [], ◌∷◌, none, some, All, IsDistinct,
  append-eq-nil,
}
use oh_my_graph.Graph.{Graph, RawGraph, from_raw, on_fail_halt, on_fail_continue}
use oh_my_graph.Graph.Index.{IsIndexed, ids, from_raw-IsIndexed}
use oh_my_graph.Graph.Paths.{IsAcyclic}
use oh_my_graph.Issue.{Issue}
use oh_my_graph.Issue.Collect.{iff_trans, ++-nil, each-nil}
use oh_my_graph.Checks.Unique.{HasId, validate_nodes_unique-nil}
use oh_my_graph.Checks.Nodes.{
  HasSafeId, HasKnownEnums, DescribesGateOnly, IsProperParent, HasTrimmedAgent, HasSoundWorktree,
  HasSoundRetry, IsResolved, IsSpliced, validate_on_fail-nil, validate_acyclic-nil,
  validate_node_ids-nil, validate_enums-nil, validate_descriptions-nil,
  validate_dependencies_exist-nil, validate_agent_names-nil, validate_worktrees-nil,
  validate_retry-nil, validate_fragments_resolved-nil, validate_reuse_spliced-nil,
}
use oh_my_graph.Sessions.Laws.{HasSoundSessions, validate_handoff_constraints-nil}
use oh_my_graph.Feedback.Shape.{HasSoundFeedback, validate_feedback-nil}
use oh_my_graph.Feedback.Placeholders.{HasSoundTokens, validate_feedback_placeholders-nil}
use oh_my_graph.Bare.{bare}
use oh_my_graph.Validate.{Std, issues_of, first_issue, validate, accepted, refused, parse}
use oh_my_graph.Validate.Durations.{
  HasSoundCheck, HasSoundTimeout, check_success-nil, check_timeout-nil,
}
use oh_my_graph.Validate.Stored.{IsListed, IsIndexed-IsListed}
use oh_my_graph.Validate.Unmoved.{early, middle, late, issues_of-eq}

-- A graph that may run: what `Issues` lists, said of the graph itself.
pub record IsWellFormed (std : Std) (g : Graph) (indexed : IsIndexed g) : Type 0 where
  pub policy : (g.on_fail ≡ on_fail_halt) ⊎ (g.on_fail ≡ on_fail_continue)
  pub named : All HasId g.nodes
  pub distinct : IsDistinct (ids g)
  pub safe_ids : All HasSafeId g.nodes
  pub enums : All HasKnownEnums g.nodes
  pub described : All DescribesGateOnly g.nodes
  pub edges : All (λ n. All (IsProperParent g n.id) n.depends_on) g.nodes
  pub acyclic : IsAcyclic g
  pub sessions : HasSoundSessions g
  pub checks : All (HasSoundCheck std) g.nodes
  pub agents : All HasTrimmedAgent g.nodes
  pub worktrees : All HasSoundWorktree g.nodes
  pub retries : All HasSoundRetry g.nodes
  pub timeouts : All (HasSoundTimeout std) g.nodes
  pub resolved : All IsResolved g.nodes
  pub spliced : All IsSpliced g.nodes
  pub arcs : HasSoundFeedback g indexed
  pub tokens : HasSoundTokens g

early-nil :
    (g : Graph) (indexed : IsIndexed g)
    → (early g ≡ []) ↔ (
        ((g.on_fail ≡ on_fail_halt) ⊎ (g.on_fail ≡ on_fail_continue))
        × ((All HasId g.nodes × IsDistinct (ids g))
            × (All HasSafeId g.nodes
                × (All HasKnownEnums g.nodes
                    × (All DescribesGateOnly g.nodes
                        × (All (λ n. All (IsProperParent g n.id) n.depends_on) g.nodes
                            × (IsAcyclic g × HasSoundSessions g)))))))
unfolding early
early-nil g indexed = ++-nil _ _ (validate_on_fail-nil g) (
    ++-nil _ _ (validate_nodes_unique-nil g) (
      ++-nil _ _ (validate_node_ids-nil g) (
        ++-nil _ _ (validate_enums-nil g) (
          ++-nil _ _ (validate_descriptions-nil g) (
            ++-nil _ _ (validate_dependencies_exist-nil g) (
              ++-nil _ _ (validate_acyclic-nil g indexed) (validate_handoff_constraints-nil g)))))))

middle-nil :
    (g : Graph)
    → (middle g ≡ [])
      ↔ (All HasTrimmedAgent g.nodes × (All HasSoundWorktree g.nodes × All HasSoundRetry g.nodes))
unfolding middle
middle-nil g =
    ++-nil _ _ (validate_agent_names-nil g)
      (++-nil _ _ (validate_worktrees-nil g) (validate_retry-nil g))

late-nil :
    (g : Graph) (indexed : IsIndexed g)
    → (late g ≡ []) ↔ (
        All IsResolved g.nodes
        × (All IsSpliced g.nodes × (HasSoundFeedback g indexed × HasSoundTokens g)))
unfolding late
late-nil g indexed = ++-nil _ _ (validate_fragments_resolved-nil g) (
    ++-nil _ _ (validate_reuse_spliced-nil g)
      (++-nil _ _ (validate_feedback-nil g indexed) (validate_feedback_placeholders-nil g)))

empty_iff : (xs ys : List Issue) → xs ≡ ys → (xs ≡ []) ↔ (ys ≡ [])
empty_iff xs ys same = (λ h. sym same ∙ h, λ h. same ∙ h)

module _ (std : Std) (g : Graph) (indexed : IsIndexed g) where
  -- `Issues` finds nothing exactly on a well-formed graph, if the index lists every node.
  listed-nil : IsListed g → ((issues_of std g).1 ≡ []) ↔ IsWellFormed std g indexed
  listed-nil listed =
      let whole = iff_trans (empty_iff _ _ (issues_of-eq std g listed).1) (
        ++-nil _ _ (early-nil g indexed) (
          ++-nil _ _ (each-nil _ _ (check_success-nil std) g.nodes) (
            ++-nil _ _ (middle-nil g)
              (++-nil _ _ (each-nil _ _ (check_timeout-nil std) g.nodes) (late-nil g indexed))))) in
      (
        λ h.
            let (
              (
                policy,
                ((named, distinct), (safe, (enums, (described, (edges, (acyclic, sessions)))))),
              ),
              (
                checks,
                ((agents, (worktrees, retries)), (timeouts, (resolved, (spliced, (arcs, tokens))))),
              ),
            ) =
              whole.0 h in
            record {
              policy = policy;
              named = named;
              distinct = distinct;
              safe_ids = safe;
              enums = enums;
              described = described;
              edges = edges;
              acyclic = acyclic;
              sessions = sessions;
              checks = checks;
              agents = agents;
              worktrees = worktrees;
              retries = retries;
              timeouts = timeouts;
              resolved = resolved;
              spliced = spliced;
              arcs = arcs;
              tokens = tokens;
            },
        λ wf. whole.1 (
          (
            wf.policy,
            (
              (wf.named, wf.distinct),
              (wf.safe_ids, (wf.enums, (wf.described, (wf.edges, (wf.acyclic, wf.sessions))))),
            ),
          ),
          (
            wf.checks,
            (
              (wf.agents, (wf.worktrees, wf.retries)),
              (wf.timeouts, (wf.resolved, (wf.spliced, (wf.arcs, wf.tokens)))),
            ),
          ),
        ),
      )

  early-of : (issues_of std g).1 ≡ [] → early g ≡ []
  unfolding issues_of early
  early-of h = ((append-eq-nil (early g) _).0 h).0

  -- The uniqueness check runs first, so a graph without issues has an index that lists its nodes.
  pub issues_of-nil : ((issues_of std g).1 ≡ []) ↔ IsWellFormed std g indexed
  issues_of-nil = (
    λ h.
        let (_, ((_, distinct), _)) = (early-nil g indexed).0 (early-of h) in
        (listed-nil (IsIndexed-IsListed g indexed distinct)).0 h,
    λ wf. (listed-nil (IsIndexed-IsListed g indexed wf.distinct)).1 wf,
  )

pub first_issue-cases :
    (issues : List Issue)
    → ((first_issue issues ≡ none) × (issues ≡ []))
      ⊎ ((i : Issue) × (rest : List Issue) × (first_issue issues ≡ some i) × (issues ≡ i ∷ rest))
first_issue-cases [] = inl (refl, refl)
first_issue-cases (i ∷ rest) = inr (i, rest, refl, refl)

-- The index of a parsed graph is the one that the parser builds.
abbrev pub IsRunnable : Std → RawGraph → Type 0
IsRunnable std raw = IsWellFormed std (from_raw raw) (from_raw-IsIndexed raw)

-- The graph that `Parse` returns: the one of the document, with durations stored.
abbrev pub IsAccepted : Std → RawGraph → Type 0
IsAccepted std raw =
    (g : Graph) × (parse std raw ≡ accepted g) × (bare g ≡ bare (from_raw raw)) × IsRunnable std raw

-- The refusal of `Parse`: the first issue that `Issues` lists for the graph of the document.
abbrev pub IsRefused : Std → RawGraph → Type 0
IsRefused std raw =
    (i : Issue) × (rest : List Issue) × (parse std raw ≡ refused i)
    × ((issues_of std (from_raw raw)).1 ≡ i ∷ rest)
    × ¬ IsRunnable std raw

-- On every decoded document, `Parse` either returns the graph, which differs from the decoded one
-- in the stored durations alone, and then the decoded graph is well formed; or it returns the first
-- issue that `Issues` lists, and then the decoded graph is not well formed.
pub parse_decides : (std : Std) (raw : RawGraph) → IsAccepted std raw ⊎ IsRefused std raw
unfolding parse validate
parse_decides std raw =
    let g = from_raw raw in
    let indexed = from_raw-IsIndexed raw in
    let known = issues_of-nil std g indexed in
    elim (first_issue-cases (issues_of std g).1) [
      | inl (e, empty) ↦
          let wf = known.0 empty in
          let listed = IsIndexed-IsListed g indexed wf.distinct in
          inl ((issues_of std g).0, rw (e, parse) refl, (issues_of-eq std g listed).0, wf)
      | inr (i, rest, e, listed) ↦
          inr (i, rest, rw (e, parse) refl, listed, λ wf. absurd (cc (known.1 wf, listed)))
    ]
