-- ===== src/Schedule/Arcs.antt =====
-- internal/schedule/feedback.go: the rounds of the feedback arcs, and whether an arc fires.
-- A Go map that is only looked up and assigned is a function.
pub mod Rounds
pub mod Start
use oh_my_graph.Base.{
  ℕ, suc, String, ◌==◌, Bool, true, false, not, ◌||◌, List, [], ◌∷◌, map, Option, none, some,
  if◌then◌else◌, contains,
}
use oh_my_graph.Base.Int.{ℤ, pos, ◌+ℤ◌, leb_ℤ, eqb_ℤ}
use oh_my_graph.Graph.{Graph, Node, Feedback, parents_of}
use oh_my_graph.Feedback.{feedback_body}
use oh_my_graph.Schedule.Verdict.{NodeError, wrapped, is_judgment_failure}

-- `m[key] = value`
abbrev pub assign {ℓ} : {A : Type ℓ} → (String → A) → String → A → String → A
assign m key value id = if key == id then value else m id

pub record Arc : Type 0 where
  pub declarer : String
  pub target : String
  pub max : ℤ

pub record FeedbackState : Type 0 where
  pub rounds : String → ℤ
  pub arcs : String → Option Arc
  pub bodies : String → List String
  pub body_in_degrees : String → List (String × ℕ)

-- The dependencies of a member that lie in the body.
abbrev pub parents_within : List String → List String → ℕ
parents_within body [] = 0
parents_within body (parent ∷ parents) =
    let count = parents_within body parents in if contains body parent then suc count else count

abbrev pub assign_all : (String → Option Arc) → List String → Arc → String → Option Arc
assign_all arcs [] arc = arcs
assign_all arcs (id ∷ body) arc = assign_all (assign arcs id (some arc)) body arc

-- One declarer of the loop.
abbrev pub add_arc : Graph → FeedbackState → Node → Feedback → FeedbackState
add_arc g st n f =
    let body = feedback_body g n.id in
    let arc : Arc = record { declarer = n.id; target = f.rerun; max = f.max } in
    record st {
      arcs = assign_all st.arcs body arc;
      bodies = assign st.bodies n.id body;
      body_in_degrees =
          assign st.body_in_degrees n.id
            (map (λ id. (id, parents_within body (parents_of g id))) body);
    }

unfoldable pub add_arcs : Graph → FeedbackState → List Node → FeedbackState
add_arcs g st [] = st
add_arcs g st (n ∷ nodes) = elim n.feedback [
  | none ↦ add_arcs g st nodes
  | some f ↦ add_arcs g (add_arc g st n f) nodes
]

unfoldable pub new_feedback_state : Graph → (String → ℤ) → FeedbackState
unfolding add_arcs
new_feedback_state g initial_rounds =
    add_arcs g
      record {
        rounds = initial_rounds;
        arcs = λ _. none;
        bodies = λ _. [];
        body_in_degrees = λ _. [];
      }
      g.nodes

-- `roundOf`; a scheduler without the state is in round 0.
unfoldable pub round_of : Option FeedbackState → String → ℤ
round_of none id = pos 0
round_of (some st) id = st.rounds id

-- The two numbers of the note "feedback round k/N".
unfoldable pub round_note : FeedbackState → String → Option (ℤ × ℤ)
round_note st id = elim (st.arcs id) [
  | none ↦ none
  | some arc ↦
      if eqb_ℤ (st.rounds id) (pos 0) || arc.declarer == id
      then none
      else some (st.rounds id, arc.max)
]

abbrev pub assign_round : (String → ℤ) → List String → ℤ → String → ℤ
assign_round rounds [] round = rounds
assign_round rounds (id ∷ body) round = assign_round (assign rounds id round) body round

-- `fire`: the round that begins, and every member of the body in it.
unfoldable pub fire : FeedbackState → String → ℤ × FeedbackState
fire st declarer =
    let round = st.rounds declarer +ℤ pos 1 in
    (round, record st { rounds = assign_round st.rounds (st.bodies declarer) round })

-- What `SetFeedback`, `ArchiveRound` and the recorder's `RecordNode` return.
pub record Writes : Type 0 where
  pub set_feedback : Option NodeError
  pub archive_round : Option NodeError
  pub record_marker : Option NodeError

pub data Judged : Type 0 where
  fired : (node_id target : String) (round : ℤ) → Judged
  not_fired : NodeError → Judged

-- The arc fires; only the marker can still fail.
unfoldable pub fire_arc : FeedbackState → Writes → Node → Feedback → FeedbackState × Judged
fire_arc st writes n f =
    let (round, st') = fire st n.id in
    elim writes.record_marker [
      | some e ↦ (st', not_fired (wrapped "persist feedback marker" e))
      | none ↦ (st', fired n.id f.rerun round)
    ]

unfoldable pub judge_arc :
    FeedbackState → Writes → Node → Feedback → NodeError → FeedbackState × Judged
judge_arc st writes n f cause =
    if leb_ℤ f.max (st.rounds n.id)
    then (st, not_fired (wrapped "feedback exhausted" cause))
    else elim writes.set_feedback [
      | some e ↦ (st, not_fired (wrapped "feedback arc could not fire" e))
      | none ↦ elim writes.archive_round [
        | some e ↦ (st, not_fired (wrapped "feedback arc could not fire" e))
        | none ↦ fire_arc st writes n f
      ]
    ]

unfoldable pub judge_feedback : FeedbackState → Writes → Node → NodeError → FeedbackState × Judged
judge_feedback st writes n cause = elim n.feedback [
  | none ↦ (st, not_fired cause)
  | some f ↦
      if not (is_judgment_failure cause)
      then (st, not_fired cause)
      else judge_arc st writes n f cause
]
