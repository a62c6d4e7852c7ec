-- ===== src/Schedule/Arcs/Start.antt =====
-- The feedback state of a run that begins: its bodies are those of the graph's arcs.
use mathlib.Core.List.Memᴰ
use mathlib.Core.Option.{some-injective}
use oh_my_graph.Base.{
  ℕ, ◌+◌, ◌≤◌, String, ◌==◌, eq_iff, eq_false_iff, ◌≡◌, refl, sym, subst, ◌∙◌, ap, ◌⊎◌, inl, inr,
  false, if◌then◌else◌, List, [], ◌∷◌, some, arith, All, Memᴰ, Bool-cases, Option-cases,
}
use oh_my_graph.Base.Int.{ℤ, pos, ◌+ℤ◌, ◌≤ℤ◌, leb_ℤ}
use oh_my_graph.Graph.{Graph, Node, Feedback}
use oh_my_graph.Graph.Index.{IsIndexed, last_with_id, last_with_id-distinct, node_by_id-mem_ids}
use oh_my_graph.Feedback.{feedback_body}
use oh_my_graph.Feedback.Body.{mem-feedback_body}
use oh_my_graph.Feedback.Declared.{AllArcs-mem}
use oh_my_graph.Feedback.Apart.{bodies_apart}
use oh_my_graph.Validate.{Std}
use oh_my_graph.Validate.Decides.{IsWellFormed}
use oh_my_graph.Schedule.Arcs.{
  FeedbackState, add_arc, add_arcs, new_feedback_state, fire, judge_feedback,
}
use oh_my_graph.Schedule.Arcs.Rounds.{
  Call, fires_of, firings_of, fire-BeginsRound, next-le, judge_feedback-Moved,
}

add_arcs-rounds :
    (g : Graph) (nodes : List Node) (st : FeedbackState) → (add_arcs g st nodes).rounds ≡ st.rounds
unfolding add_arcs
add_arcs-rounds g [] st = refl
add_arcs-rounds g (n ∷ nodes) st = elim (Option-cases n.feedback) [
  | inl e ↦ rw (e, add_arcs) (add_arcs-rounds g nodes st)
  | inr (f, e) ↦ rw (e, add_arcs) (add_arcs-rounds g nodes (add_arc g st n f))
]

add_arc-kept :
    (g : Graph) (st : FeedbackState) (n : Node) (f : Feedback) (id : String)
    → (n.id ≡ id) ⊎ (st.bodies id ≡ feedback_body g id)
    → (add_arc g st n f).bodies id ≡ feedback_body g id
add_arc-kept g st n f id h = elim (Bool-cases (n.id == id)) [
  | inl e ↦ rw e (ap (feedback_body g) ((eq_iff n.id id).0 e))
  | inr e ↦ rw e (elim h [ inl same ↦ absurd (cc (e, (eq_iff n.id id).1 same)) | inr kept ↦ kept ])
]

-- Once a body is entered, it stays: a second declarer with the id enters the same body.
add_arcs-kept :
    (g : Graph) (nodes : List Node) (st : FeedbackState) (id : String)
    → st.bodies id ≡ feedback_body g id
    → (add_arcs g st nodes).bodies id ≡ feedback_body g id
unfolding add_arcs
add_arcs-kept g [] st id h = h
add_arcs-kept g (n ∷ nodes) st id h = elim (Option-cases n.feedback) [
  | inl e ↦ rw (e, add_arcs) (add_arcs-kept g nodes st id h)
  | inr (f, e) ↦
      rw (e, add_arcs)
        (add_arcs-kept g nodes (add_arc g st n f) id (add_arc-kept g st n f id (inr h)))
]

add_arcs-entered :
    (g : Graph) (nodes : List Node) (st : FeedbackState) (n : Node) (f : Feedback)
    → Memᴰ n nodes
    → n.feedback ≡ some f
    → (add_arcs g st nodes).bodies n.id ≡ feedback_body g n.id
unfolding add_arcs
add_arcs-entered g [] st n f m h = absurd (Memᴰ.not-nil m)
add_arcs-entered g (k ∷ nodes) st n f m h = elim (Option-cases k.feedback) [
  | inl e ↦ elim (Memᴰ.cases_cons m) [
    | inl same ↦
        let here : k.feedback ≡ some f = subst (λ (x : Node). x.feedback ≡ some f) same h in
        absurd (cc (e, here))
    | inr later ↦ rw (e, add_arcs) (add_arcs-entered g nodes st n f later h)
  ]
  | inr (f', e) ↦
      let st' = add_arc g st k f' in
      rw (e, add_arcs)
        (elim (Memᴰ.cases_cons m) [
          | inl same ↦
              add_arcs-kept g nodes st' n.id
                (add_arc-kept g st k f' n.id (inl (ap (λ (x : Node). x.id) (sym same))))
          | inr later ↦ add_arcs-entered g nodes st' n f later h
        ])
]

-- One call: the round of the node goes up with each firing of its arc, and no other call lowers it.
stay_le : (r max : ℤ) (fires k : ℕ) → fires ≤ 0 → r +ℤ pos k ≤ℤ max → r +ℤ pos (fires + k) ≤ℤ max
stay_le r max fires k h le = ground (arith, h, le)

next_le :
    (r r' max : ℤ) (fires k : ℕ)
    → r' ≡ r +ℤ pos 1
    → fires ≤ 1
    → r' +ℤ pos k ≤ℤ max
    → r +ℤ pos (fires + k) ≤ℤ max
next_le r r' max fires k e h le = ground (arith, h, rw e at le)

nothing_le : (r max : ℤ) → r ≤ℤ max → r +ℤ pos 0 ≤ℤ max
nothing_le r max h = ground (arith, h)

start_le : (r max : ℤ) (k : ℕ) → r ≡ pos 0 → r +ℤ pos k ≤ℤ max → pos k ≤ℤ max
start_le r max k e h = ground (arith, rw e at h)

zero_le : (r max : ℤ) → r ≡ pos 0 → pos 1 ≤ℤ max → r ≤ℤ max
zero_le r max e h = rw e (ground (arith, h))

module _ (std : Std) (g : Graph) (indexed : IsIndexed g) (n : Node) (f : Feedback)
    (wf : IsWellFormed std g indexed) (there : Memᴰ n g.nodes)
    (declared : n.feedback ≡ some f) where
  abbrev start : FeedbackState
  start = new_feedback_state g (λ _. pos 0)

  entered :
      (m : Node) (f' : Feedback)
      → Memᴰ m g.nodes
      → m.feedback ≡ some f'
      → start.bodies m.id ≡ feedback_body g m.id
  unfolding new_feedback_state
  entered m f' here e = add_arcs-entered g g.nodes _ m f' here e

  inside_own : Memᴰ n.id (feedback_body g n.id)
  inside_own =
      let found = indexed.last n.id ∙ last_with_id-distinct g.nodes n wf.distinct there in
      let (_, ((_, target), _)) = AllArcs-mem g indexed g.nodes n f wf.arcs.0 there declared in
      (mem-feedback_body g n f n.id indexed found declared target).1
        (node_by_id-mem_ids indexed n.id n found, inl refl)

  same_node : (m : Node) → Memᴰ m g.nodes → m.id ≡ n.id → m ≡ n
  same_node m here e =
      let a = last_with_id-distinct g.nodes m wf.distinct here in
      let b = last_with_id-distinct g.nodes n wf.distinct there in
      some-injective _ _ (sym a ∙ ap (last_with_id g.nodes) e ∙ b)

  -- The calls that follow fire the arc as often at most as rounds are left.
  abbrev Within : List Call → FeedbackState → Type 0
  Within calls st =
      st.bodies ≡ start.bodies
      → st.rounds n.id ≤ℤ f.max
      → st.rounds n.id +ℤ pos (firings_of n.id st calls) ≤ℤ f.max

  fired-bounded :
      (st : FeedbackState) (m : Node) (f' : Feedback) (calls : List Call) (fires : ℕ)
      → st.bodies ≡ start.bodies
      → st.rounds n.id ≤ℤ f.max
      → Memᴰ m g.nodes
      → m.feedback ≡ some f'
      → leb_ℤ f'.max (st.rounds m.id) ≡ false
      → fires ≤ (if m.id == n.id then 1 else 0)
      → Within calls (fire st m.id).1
      → st.rounds n.id +ℤ pos (fires + firings_of n.id (fire st m.id).1 calls) ≤ℤ f.max
  fired-bounded st m f' calls fires kept low here e below most rest =
      let (next, members, others, bodies) = fire-BeginsRound st m.id in
      let st' = (fire st m.id).1 in
      let own : st.bodies m.id ≡ feedback_body g m.id =
        ap (λ b. b m.id) kept ∙ entered m f' here e in
      elim (Bool-cases (m.id == n.id)) [
        | inl same ↦
            let id = (eq_iff m.id n.id).0 same in
            let known : m ≡ n = same_node m here id in
            let max : f' ≡ f =
              some-injective _ _ (sym e ∙ ap (λ (y : Node). y.feedback) known ∙ declared) in
            let mine : Memᴰ n.id (st.bodies m.id) =
              subst (Memᴰ n.id) (sym own)
                (subst (λ x. Memᴰ n.id (feedback_body g x)) (sym id) inside_own) in
            let moved : st'.rounds n.id ≡ st.rounds n.id +ℤ pos 1 =
              members n.id mine ∙ next ∙ ap (λ x. st.rounds x +ℤ pos 1) id in
            let left : st.rounds n.id +ℤ pos 1 ≤ℤ f.max = next-le (st.rounds n.id) f.max (
              subst (λ x. leb_ℤ f.max (st.rounds x) ≡ false) id
                (subst (λ (y : Feedback). leb_ℤ y.max (st.rounds m.id) ≡ false) max below)) in
            next_le (st.rounds n.id) (st'.rounds n.id) f.max fires (firings_of n.id st' calls) moved
              (rw same at most) (rest (bodies ∙ kept) (subst (λ r. r ≤ℤ f.max) (sym moved) left))
        | inr other ↦
            let out : ¬ Memᴰ n.id (st.bodies m.id) = λ inside.
              bodies_apart g indexed g.nodes m n f f' n.id wf.arcs.1 here e there declared
                ((eq_false_iff m.id n.id).0 other) (subst (Memᴰ n.id) own inside) inside_own in
            let stays : st'.rounds n.id ≡ st.rounds n.id = others n.id out in
            stay_le (st.rounds n.id) f.max fires (firings_of n.id st' calls) (rw other at most) (
              subst (λ r. r +ℤ pos (firings_of n.id st' calls) ≤ℤ f.max) stays
                (rest (bodies ∙ kept) (subst (λ r. r ≤ℤ f.max) (sym stays) low)))
      ]

  calls-bounded :
      (calls : List Call) (st : FeedbackState)
      → All (λ (call : Call). Memᴰ call.node g.nodes) calls
      → Within calls st
  unfolding firings_of
  calls-bounded [] st _ kept low = nothing_le (st.rounds n.id) f.max low
  calls-bounded (call ∷ calls) st (here, later) kept low =
      let result = judge_feedback st call.writes call.node call.cause in
      let rest = calls-bounded calls in
      elim (judge_feedback-Moved st call.writes call.node call.cause) [
        | inl (same, none_fired) ↦
            let ih : Within calls result.0 = rest result.0 later in
            let le =
              ih (ap (λ (s : FeedbackState). s.bodies) same ∙ kept)
                (subst (λ (s : FeedbackState). s.rounds n.id ≤ℤ f.max) (sym same) low) in
            stay_le (st.rounds n.id) f.max (fires_of n.id result.1) (firings_of n.id result.0 calls)
              (omega (arith, none_fired n.id))
              (subst
                (λ (s : FeedbackState).
                  s.rounds n.id +ℤ pos (firings_of n.id result.0 calls) ≤ℤ f.max)
                same le)
        | inr (f', e, below, moved, most) ↦
            subst
              (λ s.
                st.rounds n.id +ℤ pos (fires_of n.id result.1 + firings_of n.id s calls) ≤ℤ f.max)
              (sym moved)
              (fired-bounded st call.node f' calls (fires_of n.id result.1) kept low here e below
                (most n.id) (rest (fire st call.node.id).1 later))
      ]

-- In a well-formed graph, a run that starts without a round spent fires the arc of a node at most
-- `feedback.max` times, whichever calls of `judgeFeedback` the nodes of the graph make, in whichever
-- order, and whatever fails in them.
pub feedback_bounded :
    (std : Std) (g : Graph) (indexed : IsIndexed g) (n : Node) (f : Feedback) (calls : List Call)
    → IsWellFormed std g indexed
    → Memᴰ n g.nodes
    → n.feedback ≡ some f
    → All (λ (call : Call). Memᴰ call.node g.nodes) calls
    → pos (firings_of n.id (new_feedback_state g (λ _. pos 0)) calls) ≤ℤ f.max
unfolding new_feedback_state
feedback_bounded std g indexed n f calls wf there declared nodes =
    let start = new_feedback_state g (λ _. pos 0) in
    let (positive, _) = AllArcs-mem g indexed g.nodes n f wf.arcs.0 there declared in
    let zero_round : start.rounds n.id ≡ pos 0 = ap (λ r. r n.id) (add_arcs-rounds g g.nodes _) in
    start_le (start.rounds n.id) f.max (firings_of n.id start calls) zero_round (
      calls-bounded std g indexed n f wf there declared calls start nodes refl
        (zero_le (start.rounds n.id) f.max zero_round positive))
