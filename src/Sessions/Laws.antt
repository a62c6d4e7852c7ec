-- ===== src/Sessions/Laws.antt =====
-- What the session-handoff rules accept.
use mathlib.Core.List.Memᴰ
use oh_my_graph.Base.{
  String, ◌==◌, eq_iff, ◌≡◌, refl, subst, ◌↔◌, inl, inr, false, ◌||◌, List, [], ◌∷◌, Option, none,
  some, arith, if◌then◌else◌, All, Bool-cases, Option-cases, append-eq-nil, IsDistinct,
}
use oh_my_graph.Graph.{Graph, Node, node_by_id, is_none, handoff_session}
use oh_my_graph.Feedback.{sole, is_gate}
use oh_my_graph.Issue.Collect.{each-nil}
use oh_my_graph.Sessions.{
  Families, add_child, session_issues, sessions_from, sibling_issues, validate_handoff_constraints,
}
use oh_my_graph.Sessions.Families.{
  IsSingle, HasChild, sibling_issues-nil, add_child-HasChild, AreSingle, AreSingle-add_child,
}

abbrev pub IsSession : Node → Type 0
IsSession n = n.handoff ≡ handoff_session

-- The one parent, by id, whose session the node continues.
abbrev pub session_parent : Node → Option String
session_parent n = if n.handoff == handoff_session then sole n.depends_on else none

-- That parent, where it is a declared node that is no gate.
abbrev pub resumed : Graph → Node → Option String
resumed g n = elim (session_parent n) [
  | none ↦ none
  | some p ↦ if is_gate g p || is_none (node_by_id g p) then none else some p
]

-- The parents whose sessions are resumed, once for each node that resumes one.
abbrev pub resumed_parents : Graph → List Node → List String
resumed_parents g [] = []
resumed_parents g (n ∷ nodes) = elim (resumed g n) [
  | none ↦ resumed_parents g nodes
  | some p ↦ p ∷ resumed_parents g nodes
]

-- A session node has one parent, and that parent is no gate.
abbrev pub HasOneSession : Graph → Node → Type 0
HasOneSession g n =
    n.handoff ≡ handoff_session
    → (p : String) × (sole n.depends_on ≡ some p) × (is_gate g p ≡ false)

abbrev grow : Node → Option String → Families → Families
grow n none families = families
grow n (some p) families = add_child p n.id families

session_issues-nil :
    (g : Graph) (n : Node) (families : Families)
    → ((session_issues g n families).0 ≡ []) ↔ HasOneSession g n
unfolding session_issues
session_issues-nil g n families = elim (Bool-cases (n.handoff == handoff_session)) [
  | inr e ↦ (
    λ _ session. absurd (cc (e, (eq_iff n.handoff handoff_session).1 session)),
    λ _. rw (e, session_issues),
  )
  | inl e ↦ elim (Option-cases (sole n.depends_on)) [
    | inl many ↦ (
      λ h. absurd (cc (rw (e, many, session_issues) at h)),
      λ one. let (p, single, _) = one ((eq_iff _ _).0 e) in absurd (cc (many, single)),
    )
    | inr (p, single) ↦ elim (Bool-cases (is_gate g p)) [
      | inl gate ↦ (
        λ h. absurd (cc (rw (e, single, gate, session_issues) at h)),
        λ one.
            let (q, single', plain) = one ((eq_iff _ _).0 e) in
            let same : q ≡ p = cc in
            absurd (cc (subst (λ x. is_gate g x ≡ false) same plain, gate)),
      )
      | inr plain ↦ (
        λ _ _. (p, single, plain),
        λ _. elim (Bool-cases (is_none (node_by_id g p))) [
          | inl k ↦ rw (e, single, plain, k, session_issues)
          | inr k ↦ rw (e, single, plain, k, session_issues)
        ],
      )
    ]
  ]
]

session_issues-families :
    (g : Graph) (n : Node) (families : Families)
    → (session_issues g n families).1 ≡ grow n (resumed g n) families
unfolding session_issues
session_issues-families g n families = ground arith

grow-AreSingle :
    (g : Graph) (n : Node) (nodes : List Node) (families : Families)
    → All HasChild families
    → AreSingle (grow n (resumed g n) families) (resumed_parents g nodes)
      ↔ AreSingle families (resumed_parents g (n ∷ nodes))
grow-AreSingle g n nodes families h = elim (Option-cases (resumed g n)) [
  | inl e ↦ rw (e, grow, resumed_parents) (λ x. x, λ x. x)
  | inr (p, e) ↦
      rw (e, grow, resumed_parents)
        (AreSingle-add_child p n.id families (resumed_parents g nodes) h)
]

grow-HasChild :
    (n : Node) (o : Option String) (families : Families)
    → All HasChild families
    → All HasChild (grow n o families)
grow-HasChild n none families h = h
grow-HasChild n (some p) families h = add_child-HasChild p n.id families h

sessions_from-nil :
    (g : Graph) (nodes : List Node) (families : Families)
    → All HasChild families
    → (((sessions_from g nodes families).0 ≡ []) × All IsSingle (sessions_from g nodes families).1)
      ↔ (All (HasOneSession g) nodes × AreSingle families (resumed_parents g nodes))
unfolding sessions_from
sessions_from-nil g [] families h =
    unfold AreSingle in
    (λ (_, s). (tt, (s, (tt, λ p m. absurd (Memᴰ.not-nil m)))), λ (_, (s, _)). (refl, s))
sessions_from-nil g (n ∷ nodes) families h =
    let own = session_issues-nil g n families in
    let next = session_issues-families g n families in
    let grown = grow n (resumed g n) families in
    let ih = sessions_from-nil g nodes grown (grow-HasChild n (resumed g n) families h) in
    let step = grow-AreSingle g n nodes families h in
    rw next (
      λ (none_here, s).
          let (here, later) = (append-eq-nil _ _).0 none_here in
          let (sound, single) = ih.0 (later, s) in ((own.0 here, sound), step.0 single),
      λ ((sound_n, sound), single).
          let (later, s) = ih.1 (sound, step.1 single) in
          ((append-eq-nil _ _).1 (own.1 sound_n, later), s),
    )

-- The rules of session handoff for a whole graph: every session node resumes one parent that is no
-- gate, and no session is resumed by two nodes.
abbrev pub HasSoundSessions : Graph → Type 0
HasSoundSessions g = All (HasOneSession g) g.nodes × IsDistinct (resumed_parents g g.nodes)

-- The check of session handoff finds nothing exactly if every session node has one parent, which is
-- no gate, and no two session nodes resume the same declared parent.
pub validate_handoff_constraints-nil :
    (g : Graph) → (validate_handoff_constraints g ≡ []) ↔ HasSoundSessions g
unfolding validate_handoff_constraints
validate_handoff_constraints-nil g =
    let whole = sessions_from-nil g g.nodes [] tt in
    let families = (sessions_from g g.nodes []).1 in
    let siblings = each-nil IsSingle sibling_issues sibling_issues-nil families in
    unfold AreSingle in
    (
      λ h.
          let (issues, large) = (append-eq-nil _ _).0 h in
          let (sound, (_, (distinct, _))) = whole.0 (issues, siblings.0 large) in (sound, distinct),
      λ (sound, distinct).
          let (issues, single) = whole.1 (sound, (tt, (distinct, λ p m k. Memᴰ.not-nil k))) in
          (append-eq-nil _ _).1 (issues, siblings.1 single),
    )
