-- ===== src/Feedback/Shape.antt =====
-- What the checks of feedback arcs accept.
use mathlib.Core.List.Memᴰ
use mathlib.Core.Logic.{⊎_elim}
use oh_my_graph.Base.{
  String, ◌==◌, eq_iff, eq_false_iff, not-false, ◌≡◌, refl, ◌↔◌, ◌⊎◌, inl, inr, false, List, [],
  ◌∷◌, ◌++◌, Option, none, some, arith, if◌then◌else◌, contains_iff, All, Memᴰ, Bool-cases,
  Option-cases, append-eq-nil, IsDistinct, IsDistinct-append,
}
use oh_my_graph.Base.Int.{pos, ◌≤ℤ◌, ltb_ℤ}
use oh_my_graph.Base.Text.{is_blank}
use oh_my_graph.Graph.{Graph, Node, Feedback, node_by_id, is_none, dependents_of}
use oh_my_graph.Graph.Index.{IsIndexed}
use oh_my_graph.Ancestors.{ancestor_set}
use oh_my_graph.Ancestors.Decides.{ancestor_set_iff}
use oh_my_graph.Issue.{Issue, when}
use oh_my_graph.Issue.Collect.{when-nil, iff_trans, ++-nil, each-nil, snoc-ne-nil}
use oh_my_graph.Feedback.{
  Owners, owner_of, claim, feedback_body, is_gate, outside_parent, session_issue, side_exits,
  member_issues, arc_issues, arcs_from, validate_feedback,
}
use oh_my_graph.Feedback.Body.{HasTarget}
use oh_my_graph.Feedback.Disjoint.{AreFree, claim-nil, claim-owners}

-- Every dependent of a body node is in the body.
abbrev pub HasNoSideExit : Graph → List String → String → Type 0
HasNoSideExit g body id = All (λ dependent. Memᴰ dependent body) (dependents_of g id)

-- A body node is no gate; its session parent, if it has one, lies in the body; and, but for the
-- declarer, so do all its dependents.
abbrev pub IsSoundMember : Graph → String → List String → String → Type 0
IsSoundMember g declarer body id =
    (is_gate g id ≡ false)
    × ((outside_parent g body id ≡ none) × ((id ≡ declarer) ⊎ HasNoSideExit g body id))

session_issue-nil :
    (declarer id : String) (o : Option String) → (session_issue declarer id o ≡ []) ↔ (o ≡ none)
session_issue-nil declarer id none = (λ _. refl, λ _. refl)
session_issue-nil declarer id (some p) = (λ h. cc, λ h. cc)

side_exits-nil :
    (declarer : String) (body : List String) (id : String) (dependents : List String)
    → (side_exits declarer body id dependents ≡ []) ↔ All (λ d. Memᴰ d body) dependents
unfolding side_exits
side_exits-nil declarer body id dependents =
    each-nil _ _ (λ d. iff_trans (when-nil _ _) (iff_trans (not-false _) (contains_iff body d)))
      dependents

guarded_exits-nil :
    (g : Graph) (declarer : String) (body : List String) (id : String)
    → ((if id == declarer then [] else side_exits declarer body id (dependents_of g id)) ≡ [])
      ↔ ((id ≡ declarer) ⊎ HasNoSideExit g body id)
guarded_exits-nil g declarer body id =
    let exits = side_exits-nil declarer body id (dependents_of g id) in
    elim (Bool-cases (id == declarer)) [
      | inl e ↦ rw e (λ _. inl ((eq_iff id declarer).0 e), λ _. refl)
      | inr e ↦ rw e (
        λ h. inr (exits.0 h),
        ⊎_elim (λ same. absurd ((eq_false_iff id declarer).0 e same)) exits.1,
      )
    ]

pub member_issues-nil :
    (g : Graph) (declarer : String) (body : List String) (id : String)
    → (member_issues g declarer body id ≡ []) ↔ IsSoundMember g declarer body id
unfolding member_issues
member_issues-nil g declarer body id =
    ++-nil _ _ (when-nil _ _)
      (++-nil _ _ (session_issue-nil declarer id _) (guarded_exits-nil g declarer body id))

-- The arc may fire at least once, it has a sound target, and its body's nodes are sound members.
abbrev pub IsSoundArc : Graph → String → Feedback → Type 0
IsSoundArc g id f =
    (pos 1 ≤ℤ f.max)
    × (((is_blank f.rerun ≡ false) × HasTarget g id f)
        × All (IsSoundMember g id (feedback_body g id)) (feedback_body g id))

bound-nil :
    (id : String) (f : Feedback) (i : Issue)
    → (when (ltb_ℤ f.max (pos 1)) i ≡ []) ↔ (pos 1 ≤ℤ f.max)
bound-nil id f i = iff_trans (when-nil _ _) (ground arith)

module _ (g : Graph) (indexed : IsIndexed g) where
  abbrev IsFreeArc : String → Feedback → Owners → Type 0
  IsFreeArc id f owners =
      IsSoundArc g id f × (IsDistinct (feedback_body g id) × AreFree (feedback_body g id) owners)

  arc_issues-nil :
      (id : String) (f : Feedback) (owners : Owners)
      → ((arc_issues g id f owners).0 ≡ []) ↔ IsFreeArc id f owners
  unfolding arc_issues
  arc_issues-nil id f owners = elim (Bool-cases (is_blank f.rerun)) [
    | inl blank ↦ (
      λ h. absurd (snoc-ne-nil _ _ (rw (blank, arc_issues) at h)),
      λ ((_, ((named, _), _)), _). absurd (cc (blank, named)),
    )
    | inr named ↦ elim (Option-cases (node_by_id g f.rerun)) [
      | inl e ↦ (
        λ h. absurd (snoc-ne-nil _ _ (rw (named, e, is_none, arc_issues) at h)),
        λ ((_, ((_, (known, _)), _)), _). absurd (cc (e, known.1)),
      )
      | inr (t, e) ↦ elim (Bool-cases (ancestor_set g id f.rerun)) [
        | inr outside ↦ (
          λ h. absurd (snoc-ne-nil _ _ (rw (named, e, is_none, outside, arc_issues) at h)),
          λ ((_, ((_, (_, above)), _)), _).
              absurd (cc (outside, (ancestor_set_iff g indexed id f.rerun).1 above)),
        )
        | inl marked ↦
            let above = (ancestor_set_iff g indexed id f.rerun).0 marked in
            let body = feedback_body g id in
            let members = each-nil _ _ (member_issues-nil g id body) body in
            let claims = claim-nil id body owners in
            let parts = ++-nil _ _ (bound-nil id f _) (++-nil _ _ claims members) in
            rw (named, e, is_none, marked, arc_issues)
              (
                λ h.
                    let (bounded, (free, sound)) = parts.0 h in
                    ((bounded, ((refl, ((t, refl), above)), sound)), free),
                λ ((bounded, (_, sound)), free). parts.1 (bounded, (free, sound)),
              )
      ]
    ]
  ]

  arc_issues-owners :
      (id : String) (f : Feedback) (owners : Owners)
      → IsSoundArc g id f
      → (arc_issues g id f owners).1 ≡ (claim id (feedback_body g id) owners).1
  unfolding arc_issues
  arc_issues-owners id f owners (_, ((named, ((t, e), above)), _)) =
      let marked = (ancestor_set_iff g indexed id f.rerun).1 above in
      rw (named, e, is_none, marked, arc_issues)

  -- The arcs of the nodes, in order.
  abbrev pub AllArcs : List Node → Type 0
  AllArcs [] = Unit
  AllArcs (n ∷ nodes) = elim n.feedback [
    | none ↦ AllArcs nodes
    | some f ↦ IsSoundArc g n.id f × AllArcs nodes
  ]

  -- The bodies of the nodes' arcs, one after the other.
  abbrev pub all_bodies : List Node → List String
  all_bodies [] = []
  all_bodies (n ∷ nodes) = elim n.feedback [
    | none ↦ all_bodies nodes
    | some f ↦ feedback_body g n.id ++ all_bodies nodes
  ]

  arcs_from-nil :
      (nodes : List Node) (owners : Owners)
      → (arcs_from g nodes owners ≡ [])
        ↔ (AllArcs nodes × (IsDistinct (all_bodies nodes) × AreFree (all_bodies nodes) owners))
  unfolding arcs_from
  arcs_from-nil [] owners = (λ _. (tt, (tt, λ x m. absurd (Memᴰ.not-nil m))), λ _. refl)
  arcs_from-nil (n ∷ nodes) owners = elim (Option-cases n.feedback) [
    | inl e ↦ rw (e, arcs_from) (arcs_from-nil nodes owners)
    | inr (f, e) ↦
        let body = feedback_body g n.id in
        let here = arc_issues-nil n.id f owners in
        let rest = arcs_from-nil nodes (claim n.id body owners).1 in
        let joined = IsDistinct-append body (all_bodies nodes) in
        let after = claim-owners n.id body owners in
        rw (e, arcs_from)
          (
            λ h.
                let (own, later) = (append-eq-nil _ _).0 h in
                let (sound, (distinct, free)) = here.0 own in
                let (arcs, (apart, free')) =
                  rest.0 (rw (arc_issues-owners n.id f owners sound) at later) in
                (
                  (sound, arcs),
                  (
                    joined.1 (distinct, (apart, λ x m m'. ((after x).0 (free' x m')).1 m)),
                    λ x m.
                        ⊎_elim (free x) (λ m'. ((after x).0 (free' x m')).0)
                          (Memᴰ.append_cases body m),
                  ),
                ),
            λ ((sound, arcs), (distinct, free)).
                let (own, (apart, across)) = joined.0 distinct in
                let none_here =
                  here.1 (sound, (own, λ x m. free x (Memᴰ.append_left (all_bodies nodes) m))) in
                let none_later = rest.1 (
                  arcs,
                  (
                    apart,
                    λ x m. (after x).1 (free x (Memᴰ.append_right body m), λ m'. across x m' m),
                  ),
                ) in
                (append-eq-nil _ _).1
                  (none_here, rw (arc_issues-owners n.id f owners sound) none_later),
          )
  ]

  -- Every arc is sound, and no node lies in the bodies of two arcs.
  abbrev pub HasSoundFeedback : Type 0
  HasSoundFeedback = AllArcs g.nodes × IsDistinct (all_bodies g.nodes)

  -- On an indexed graph, the check of feedback arcs finds nothing exactly if each arc may fire at
  -- least once, reruns a declared proper ancestor, and has a body of sound members, and no node lies
  -- in two bodies.
  pub validate_feedback-nil : (validate_feedback g ≡ []) ↔ HasSoundFeedback
  unfolding validate_feedback
  validate_feedback-nil =
      let whole = arcs_from-nil g.nodes [] in
      (
        λ h. let (arcs, (distinct, _)) = whole.0 h in (arcs, distinct),
        λ (arcs, distinct). whole.1 (arcs, (distinct, λ x m. unfold owner_of in refl)),
      )
