-- ===== src/Checks/Nodes.antt =====
-- What each check of one node accepts.
use mathlib.Core.Bool.{false≢true}
use oh_my_graph.Base.{
  ℕ, String, ◌==◌, eq_iff, eq_false_iff, not-false, ◌≡◌, refl, sym, ◌≢◌, ◌↔◌, ◌⊎◌, inl, inr, Bool,
  true, false, not, ◌&&◌, List, [], ◌∷◌, Option, none, some, arith, contains, contains_iff, All,
  Memᴰ, Option-cases,
}
use oh_my_graph.Base.Int.{pos, ◌≤ℤ◌}
use oh_my_graph.Base.Text.{codes, is_blank, trim_space}
use oh_my_graph.Graph.{
  Graph, Node, Retry, node_by_id, is_none, type_claude_run, type_gate, handoff_artifact,
  handoff_session, on_fail_halt, on_fail_continue,
}
use oh_my_graph.Graph.Index.{IsIndexed}
use oh_my_graph.Graph.Paths.{IsAcyclic}
use oh_my_graph.Acyclic.Decides.{search_cycle_decides}
use oh_my_graph.Names.Segments.{
  IsPathElement, segments, node_id_matches_iff, worktree_name_matches_iff,
}
use oh_my_graph.Feedback.{codes_eq}
use oh_my_graph.Issue.Collect.{when-nil, iff_trans, ++-nil, each-nil}
use oh_my_graph.Checks.{
  permission_modes, retry_causes, validate_on_fail, id_issues, validate_node_ids, enum_issues,
  validate_enums, description_issues, validate_descriptions, dependency_issues,
  validate_dependencies_exist, cycle_issues, validate_acyclic, agent_issues, validate_agent_names,
  worktree_issues, validate_worktrees, cause_issues, retry_issues_of, retry_issues, validate_retry,
  fragment_issues, validate_fragments_resolved, reuse_issues, validate_reuse_spliced,
}

pub codes_eq_iff : (cs ds : List ℕ) → (codes_eq cs ds ≡ true) ↔ (cs ≡ ds)
unfolding codes_eq
codes_eq_iff [] [] = ground arith
codes_eq_iff [] (d ∷ ds) = ground arith
codes_eq_iff (c ∷ cs) [] = ground arith
codes_eq_iff (c ∷ cs) (d ∷ ds) = ground (arith, codes_eq_iff cs ds)

pub validate_on_fail-nil :
    (g : Graph)
    → (validate_on_fail g ≡ []) ↔ ((g.on_fail ≡ on_fail_halt) ⊎ (g.on_fail ≡ on_fail_continue))
unfolding validate_on_fail
validate_on_fail-nil g =
    ground (arith, eq_iff g.on_fail on_fail_halt, eq_iff g.on_fail on_fail_continue)

either {ℓ κ} :
    {P : Type ℓ} {Q : Type κ} {a b : Bool}
    → (a ≡ true) ↔ P
    → (b ≡ true) ↔ Q
    → (not a && not b ≡ false) ↔ (P ⊎ Q)
either {a = true} p q = (λ _. inl (p.0 refl), λ _. refl)
either {a = false} {b = true} p q = (λ _. inr (q.0 refl), λ _. refl)
either {a = false} {b = false} p q = (
  λ h. absurd (false≢true (sym h)),
  λ s. elim s [ inl x ↦ absurd (false≢true (p.1 x)) | inr y ↦ absurd (false≢true (q.1 y)) ],
)

-- A blank id is reported by the uniqueness check alone.
abbrev pub HasSafeId : Node → Type 0
HasSafeId n = (is_blank n.id ≡ true) ⊎ All IsPathElement (segments n.id)

id_issues-nil : (n : Node) → (id_issues n ≡ []) ↔ HasSafeId n
unfolding id_issues
id_issues-nil n = ground (arith, node_id_matches_iff n.id)

abbrev pub HasKnownEnums : Node → Type 0
HasKnownEnums n =
    ((n.type ≡ type_claude_run) ⊎ (n.type ≡ type_gate))
    × (((n.handoff ≡ handoff_artifact) ⊎ (n.handoff ≡ handoff_session))
        × ((n.permission_mode ≡ "") ⊎ Memᴰ n.permission_mode permission_modes))

mode_test :
    (mode : String)
    → ((not (mode == "") && not (contains permission_modes mode)) ≡ false)
      ↔ ((mode ≡ "") ⊎ Memᴰ mode permission_modes)
mode_test mode = either (eq_iff mode "") (contains_iff permission_modes mode)

enum_issues-nil : (n : Node) → (enum_issues n ≡ []) ↔ HasKnownEnums n
unfolding enum_issues
enum_issues-nil n =
    ++-nil _ _ (ground (arith, eq_iff n.type type_claude_run, eq_iff n.type type_gate)) (
      ++-nil _ _
        (ground (arith, eq_iff n.handoff handoff_artifact, eq_iff n.handoff handoff_session))
        (iff_trans (when-nil _ _) (mode_test n.permission_mode)))

abbrev pub DescribesGateOnly : Node → Type 0
DescribesGateOnly n = (n.description ≡ "") ⊎ (n.type ≡ type_gate)

description_issues-nil : (n : Node) → (description_issues n ≡ []) ↔ DescribesGateOnly n
unfolding description_issues
description_issues-nil n = ground (arith, eq_iff n.description "", eq_iff n.type type_gate)

-- The parent is a declared node, and another one.
abbrev pub IsProperParent : Graph → String → String → Type 0
IsProperParent g id parent = ((n : Node) × (node_by_id g parent ≡ some n)) × (parent ≢ id)

dependency_issues-nil :
    (g : Graph) (id parent : String)
    → (dependency_issues g id parent ≡ []) ↔ IsProperParent g id parent
unfolding dependency_issues
dependency_issues-nil g id parent = elim (Option-cases (node_by_id g parent)) [
  | inl e ↦ (
    λ h. absurd (cc (rw (e, dependency_issues, is_none) at h)),
    λ (known, _). absurd (cc (known.1, e)),
  )
  | inr (m, e) ↦
      rw (e, is_none)
        (
          λ h. ((m, refl), (eq_false_iff parent id).0 ((when-nil _ _).0 h)),
          λ (_, other). (when-nil _ _).1 ((eq_false_iff parent id).1 other),
        )
]

pub validate_acyclic-nil : (g : Graph) → IsIndexed g → (validate_acyclic g ≡ []) ↔ IsAcyclic g
unfolding validate_acyclic
validate_acyclic-nil g indexed = elim (search_cycle_decides g indexed) [
  | inl (y, e, round) ↦ (λ h. absurd (cc (rw (e, cycle_issues) at h)), λ h. absurd (h y round))
  | inr (c, e, acyclic) ↦ (λ h. acyclic, λ h. rw (e, cycle_issues))
]

abbrev pub HasTrimmedAgent : Node → Type 0
HasTrimmedAgent n = trim_space (codes n.agent) ≡ codes n.agent

trim_space-empty : (s : String) → s ≡ "" → trim_space (codes s) ≡ codes s
unfolding trim_space
trim_space-empty s e = rw e

agent_issues-nil : (n : Node) → (agent_issues n ≡ []) ↔ HasTrimmedAgent n
unfolding agent_issues
agent_issues-nil n =
    let trimmed = trim_space (codes n.agent) in
    iff_trans (when-nil _ _) (
      λ h. elim ((either (eq_iff n.agent "") (codes_eq_iff trimmed (codes n.agent))).0 h) [
        | inl e ↦ trim_space-empty n.agent e
        | inr e ↦ e
      ],
      λ e. (either (eq_iff n.agent "") (codes_eq_iff trimmed (codes n.agent))).1 (inr e),
    )

abbrev pub HasSoundWorktree : Node → Type 0
HasSoundWorktree n = (n.worktree ≡ "") ⊎ (IsPathElement (codes n.worktree) × (n.cwd ≡ ""))

worktree_issues-nil : (n : Node) → (worktree_issues n ≡ []) ↔ HasSoundWorktree n
unfolding worktree_issues
worktree_issues-nil n =
    ground (arith, eq_iff n.worktree "", eq_iff n.cwd "", worktree_name_matches_iff n.worktree)

abbrev pub IsSoundRetry : Option Retry → Type 0
IsSoundRetry none = Unit
IsSoundRetry (some r) = (pos 0 ≤ℤ r.max) × All (λ cause. Memᴰ cause retry_causes) r.on

known_cause :
    (cause : String) → (not (contains retry_causes cause) ≡ false) ↔ Memᴰ cause retry_causes
known_cause cause = iff_trans (not-false _) (contains_iff retry_causes cause)

retry_issues_of-nil :
    (id : String) (r : Option Retry) → (retry_issues_of id r ≡ []) ↔ IsSoundRetry r
unfolding retry_issues_of cause_issues
retry_issues_of-nil id none = (λ _. tt, λ _. refl)
retry_issues_of-nil id (some r) =
    ++-nil _ _ (iff_trans (when-nil _ _) (ground arith))
      (each-nil _ _ (λ cause. iff_trans (when-nil _ _) (known_cause cause)) r.on)

abbrev pub IsResolved : Node → Type 0
IsResolved n = (n.use_fragment ≡ "") × (n.with_bindings ≡ none)

fragment_issues-nil : (n : Node) → (fragment_issues n ≡ []) ↔ IsResolved n
unfolding fragment_issues
fragment_issues-nil n = ground (arith, eq_iff n.use_fragment "")

abbrev pub IsSpliced : Node → Type 0
IsSpliced n = (n.reuse ≡ "") × (n.bind ≡ none)

reuse_issues-nil : (n : Node) → (reuse_issues n ≡ []) ↔ IsSpliced n
unfolding reuse_issues
reuse_issues-nil n = ground (arith, eq_iff n.reuse "")

pub validate_node_ids-nil : (g : Graph) → (validate_node_ids g ≡ []) ↔ All HasSafeId g.nodes
unfolding validate_node_ids
validate_node_ids-nil g = each-nil _ _ id_issues-nil g.nodes

pub validate_enums-nil : (g : Graph) → (validate_enums g ≡ []) ↔ All HasKnownEnums g.nodes
unfolding validate_enums
validate_enums-nil g = each-nil _ _ enum_issues-nil g.nodes

pub validate_descriptions-nil :
    (g : Graph) → (validate_descriptions g ≡ []) ↔ All DescribesGateOnly g.nodes
unfolding validate_descriptions
validate_descriptions-nil g = each-nil _ _ description_issues-nil g.nodes

pub validate_dependencies_exist-nil :
    (g : Graph)
    → (validate_dependencies_exist g ≡ [])
      ↔ All (λ n. All (IsProperParent g n.id) n.depends_on) g.nodes
unfolding validate_dependencies_exist
validate_dependencies_exist-nil g =
    each-nil _ _ (λ n. each-nil _ _ (dependency_issues-nil g n.id) n.depends_on) g.nodes

pub validate_agent_names-nil :
    (g : Graph) → (validate_agent_names g ≡ []) ↔ All HasTrimmedAgent g.nodes
unfolding validate_agent_names
validate_agent_names-nil g = each-nil _ _ agent_issues-nil g.nodes

pub validate_worktrees-nil :
    (g : Graph) → (validate_worktrees g ≡ []) ↔ All HasSoundWorktree g.nodes
unfolding validate_worktrees
validate_worktrees-nil g = each-nil _ _ worktree_issues-nil g.nodes

abbrev pub HasSoundRetry : Node → Type 0
HasSoundRetry n = IsSoundRetry n.retry

pub validate_retry-nil : (g : Graph) → (validate_retry g ≡ []) ↔ All HasSoundRetry g.nodes
unfolding validate_retry retry_issues
validate_retry-nil g = each-nil _ _ (λ n. retry_issues_of-nil n.id n.retry) g.nodes

pub validate_fragments_resolved-nil :
    (g : Graph) → (validate_fragments_resolved g ≡ []) ↔ All IsResolved g.nodes
unfolding validate_fragments_resolved
validate_fragments_resolved-nil g = each-nil _ _ fragment_issues-nil g.nodes

pub validate_reuse_spliced-nil :
    (g : Graph) → (validate_reuse_spliced g ≡ []) ↔ All IsSpliced g.nodes
unfolding validate_reuse_spliced
validate_reuse_spliced-nil g = each-nil _ _ reuse_issues-nil g.nodes
