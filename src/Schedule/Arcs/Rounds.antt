-- ===== src/Schedule/Arcs/Rounds.antt =====
-- A feedback arc fires a bounded number of times, and moves its body alone.
use oh_my_graph.Base.{
  ℕ, ◌+◌, ◌≤◌, String, ◌==◌, ◌≡◌, refl, sym, ap, subst, ◌⊎◌, inl, inr, true, false, List, [], ◌∷◌,
  some, arith, if◌then◌else◌, Memᴰ, contains, contains_iff, Bool-cases, Option-cases,
}
use oh_my_graph.Base.Int.{ℤ, pos, ◌+ℤ◌, ◌≤ℤ◌, leb_ℤ}
use oh_my_graph.Graph.{Node, Feedback}
use oh_my_graph.Schedule.Verdict.{NodeError, is_judgment_failure}
use oh_my_graph.Schedule.Arcs.{
  assign, FeedbackState, assign_round, fire, fire_arc, judge_arc, Writes, Judged, fired, not_fired,
  judge_feedback,
}

assign_round-lookup :
    (rounds : String → ℤ) (body : List String) (round : ℤ) (id : String)
    → assign_round rounds body round id ≡ (if contains body id then round else rounds id)
assign_round-lookup rounds [] round id = refl
assign_round-lookup rounds (x ∷ body) round id =
    let rest = assign_round-lookup (assign rounds x round) body round id in ground (arith, rest)

-- Firing an arc begins the next round for every member of the body, and for no other node.
abbrev pub BeginsRound : FeedbackState → FeedbackState → String → ℤ → Type 0
BeginsRound st st' declarer round =
    (round ≡ st.rounds declarer +ℤ pos 1)
    × ((id : String) → Memᴰ id (st.bodies declarer) → st'.rounds id ≡ round)
    × ((id : String) → (¬ Memᴰ id (st.bodies declarer)) → st'.rounds id ≡ st.rounds id)
    × (st'.bodies ≡ st.bodies)

pub fire-BeginsRound :
    (st : FeedbackState) (declarer : String)
    → BeginsRound st (fire st declarer).1 declarer (fire st declarer).0
unfolding fire
fire-BeginsRound st declarer =
    let body = st.bodies declarer in
    let round = st.rounds declarer +ℤ pos 1 in
    (
      refl,
      λ id m. rw (assign_round-lookup st.rounds body round id, (contains_iff body id).1 m) refl,
      λ id out.
          let absent : contains body id ≡ false = ground (arith, contains_iff body id) in
          rw (assign_round-lookup st.rounds body round id, absent) refl,
      refl,
    )

-- What a firing needs and does.
abbrev pub Firing : FeedbackState → Node → NodeError → FeedbackState → String → ℤ → Type 0
Firing st n cause st' target round =
    (f : Feedback) × (n.feedback ≡ some f)
    × (target ≡ f.rerun)
    × (is_judgment_failure cause ≡ true)
    × (round ≤ℤ f.max)
    × BeginsRound st st' n.id round

pub next-le : (a m : ℤ) → leb_ℤ m a ≡ false → a +ℤ pos 1 ≤ℤ m
next-le a m h = ground arith

fire_arc-fired :
    (st : FeedbackState) (writes : Writes) (n : Node) (f : Feedback) (st' : FeedbackState)
    (id target : String) (round : ℤ)
    → fire_arc st writes n f ≡ (st', fired id target round)
    → (target ≡ f.rerun) × (round ≡ (fire st n.id).0) × (st' ≡ (fire st n.id).1)
unfolding fire_arc
fire_arc-fired st writes n f st' id target round h = elim (Option-cases writes.record_marker) [
  | inr (e, k) ↦ absurd (cc (rw (k, fire_arc) at h))
  | inl k ↦
      let ran : (fire st n.id).1 ≡ st' = ap (λ r. r.0) (rw (k, fire_arc) at h) in
      let signal : fired n.id f.rerun (fire st n.id).0 ≡ fired id target round =
        ap (λ r. r.1) (rw (k, fire_arc) at h) in
      (cc, cc, sym ran)
]

judge_arc-fired :
    (st : FeedbackState) (writes : Writes) (n : Node) (f : Feedback) (cause : NodeError)
    (st' : FeedbackState) (id target : String) (round : ℤ)
    → judge_arc st writes n f cause ≡ (st', fired id target round)
    → (leb_ℤ f.max (st.rounds n.id) ≡ false)
      × (fire_arc st writes n f ≡ (st', fired id target round))
unfolding judge_arc
judge_arc-fired st writes n f cause st' id target round h =
    elim (Bool-cases (leb_ℤ f.max (st.rounds n.id))) [
      | inl spent ↦ absurd (cc (rw (spent, judge_arc) at h))
      | inr left ↦ elim (Option-cases writes.set_feedback) [
        | inr (e, k) ↦ absurd (cc (rw (left, k, judge_arc) at h))
        | inl k ↦ elim (Option-cases writes.archive_round) [
          | inr (e, a) ↦ absurd (cc (rw (left, k, a, judge_arc) at h))
          | inl a ↦ (left, rw (left, k, a, judge_arc) at h)
        ]
      ]
    ]

-- If an arc fires, the node declares it, the failure is a judgment on the work, and the round that
-- begins is within the maximum; every member of its body is then in that round, one after the
-- declarer's last, and the round of every other node stays.
pub judge_feedback-fired :
    (st : FeedbackState) (writes : Writes) (n : Node) (cause : NodeError) (st' : FeedbackState)
    (id target : String) (round : ℤ)
    → judge_feedback st writes n cause ≡ (st', fired id target round)
    → Firing st n cause st' target round
unfolding judge_feedback
judge_feedback-fired st writes n cause st' id target round h = elim (Option-cases n.feedback) [
  | inl e ↦ absurd (cc (rw (e, judge_feedback) at h))
  | inr (f, e) ↦ elim (Bool-cases (is_judgment_failure cause)) [
    | inr k ↦ absurd (cc (rw (e, k, judge_feedback) at h))
    | inl k ↦
        let judged = rw (e, k, judge_feedback) at h in
        let (left, run) = judge_arc-fired st writes n f cause st' id target round judged in
        let (aim, at, moved) = fire_arc-fired st writes n f st' id target round run in
        let began =
          subst (λ r. BeginsRound st (fire st n.id).1 n.id r) (sym at) (fire-BeginsRound st n.id) in
        (
          f,
          e,
          aim,
          k,
          subst (λ r. r ≤ℤ f.max) (sym (began.0)) (next-le (st.rounds n.id) f.max left),
          subst (λ s. BeginsRound st s n.id round) (sym moved) began,
        )
  ]
]

-- A call of `judgeFeedback` while the run goes on.
pub record Call : Type 0 where
  pub node : Node
  pub writes : Writes
  pub cause : NodeError

-- Whether the call signalled a firing of the node's arc.
abbrev pub fires_of : String → Judged → ℕ
fires_of id (fired declarer _ _) = if declarer == id then 1 else 0
fires_of id (not_fired _) = 0

-- How often the node's arc fires in a run that makes these calls in this order.
unfoldable pub firings_of : String → FeedbackState → List Call → ℕ
firings_of id st [] = 0
firings_of id st (call ∷ calls) =
    let (st', judged) = judge_feedback st call.writes call.node call.cause in
    fires_of id judged + firings_of id st' calls

-- The call leaves the state and signals nothing, or it fires the arc of its own node, below the
-- maximum.
abbrev pub Moved : FeedbackState → Node → FeedbackState × Judged → Type 0
Moved st n (st', judged) =
    ((st' ≡ st) × ((id : String) → fires_of id judged ≡ 0))
    ⊎ ((f : Feedback) × (n.feedback ≡ some f)
        × (leb_ℤ f.max (st.rounds n.id) ≡ false)
        × (st' ≡ (fire st n.id).1)
        × ((id : String) → fires_of id judged ≤ fires_of id (fired n.id f.rerun (pos 0))))

fire_arc-Moved :
    (st : FeedbackState) (writes : Writes) (n : Node) (f : Feedback)
    → n.feedback ≡ some f
    → leb_ℤ f.max (st.rounds n.id) ≡ false
    → Moved st n (fire_arc st writes n f)
unfolding fire_arc
fire_arc-Moved st writes n f declared below = elim (Option-cases writes.record_marker) [
  | inl k ↦ rw (k, fire_arc) (inr (f, declared, below, refl, λ id. ground arith))
  | inr (e, k) ↦ rw (k, fire_arc) (inr (f, declared, below, refl, λ id. ground arith))
]

judge_arc-Moved :
    (st : FeedbackState) (writes : Writes) (n : Node) (f : Feedback) (cause : NodeError)
    → n.feedback ≡ some f
    → Moved st n (judge_arc st writes n f cause)
unfolding judge_arc
judge_arc-Moved st writes n f cause declared = elim (Bool-cases (leb_ℤ f.max (st.rounds n.id))) [
  | inl spent ↦ rw (spent, judge_arc) (inl (refl, λ _. refl))
  | inr below ↦ elim (Option-cases writes.set_feedback) [
    | inr (e, k) ↦ rw (below, k, judge_arc) (inl (refl, λ _. refl))
    | inl k ↦ elim (Option-cases writes.archive_round) [
      | inr (e, a) ↦ rw (below, k, a, judge_arc) (inl (refl, λ _. refl))
      | inl a ↦ rw (below, k, a, judge_arc) (fire_arc-Moved st writes n f declared below)
    ]
  ]
]

pub judge_feedback-Moved :
    (st : FeedbackState) (writes : Writes) (n : Node) (cause : NodeError)
    → Moved st n (judge_feedback st writes n cause)
unfolding judge_feedback judge_arc
judge_feedback-Moved st writes n cause = elim (Option-cases n.feedback) [
  | inl e ↦ rw (e, judge_feedback) (inl (refl, λ _. refl))
  | inr (f, e) ↦ elim (Bool-cases (is_judgment_failure cause)) [
    | inr k ↦ rw (e, k, judge_feedback) (inl (refl, λ _. refl))
    | inl k ↦
        let same : judge_feedback st writes n cause ≡ judge_arc st writes n f cause =
          rw (e, k, judge_feedback) refl in
        subst (Moved st n) (sym same) (judge_arc-Moved st writes n f cause e)
  ]
]
