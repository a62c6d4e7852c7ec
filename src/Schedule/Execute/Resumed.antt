-- ===== src/Schedule/Execute/Resumed.antt =====
-- What an earlier leg settled stays settled, unless a feedback arc re-arms it.
use oh_my_graph.Base.{
  ℕ, String, ◌≡◌, subst, ◌⊎◌, inl, inr, Bool, true, false, not, ◌&&◌, List, [], ◌∷◌, ◌++◌, arith,
  All, All-append, All-map, Bool-cases,
}
use oh_my_graph.Base.Int.{pos, ◌-ℤ◌, eqb_ℤ}
use oh_my_graph.Schedule.Policy.{effective_continue_on_fail}
use oh_my_graph.Schedule.Arcs.{assign}
use oh_my_graph.Schedule.Execute.{
  Config, waiting, running, releasing, Task, RunState, Returned, node_passed, gate_paused,
  gate_rejected, node_failed, session_limited, arc_fired, launch, is_paused, rearm, settle, release,
  task, settled_task, Move, move, start, launch_next, stop, abandon, finish, release_one, return,
  cancel, Reachable, begin, then_step,
}

-- A node with a goroutine was not settled by an earlier leg, or an arc has re-armed it.
abbrev pub MayRun : Config → RunState → Task → Type 0
MayRun c st t = (c.settled t.id ≡ false) ⊎ (st.rearmed t.id ≡ true)

abbrev pub AllMayRun : Config → RunState → Type 0
AllMayRun c st = All (MayRun c st) st.tasks

launch-AllMayRun :
    (c : Config) (id : String) (st : RunState) → AllMayRun c st → AllMayRun c (launch c id st)
unfolding launch
launch-AllMayRun c id st h = elim (Bool-cases (c.settled id && not (st.rearmed id))) [
  | inl e ↦ rw e h
  | inr e ↦ rw e ((All-append (MayRun c st) st.tasks (task id waiting ∷ [])).1 (h, (open_id e, tt)))
]
  where
    open_id : (c.settled id && not (st.rearmed id)) ≡ false → MayRun c st (task id waiting)
    open_id e = elim (Bool-cases (c.settled id)) [
      | inr new ↦ inl new
      | inl old ↦ inr (ground (arith, rw old at e))
    ]

-- One member of a body, re-armed.
abbrev rearm_one : String → ℕ → RunState → RunState
rearm_one member degree st = record st {
  in_degree = assign st.in_degree member (pos degree);
  rearmed = assign st.rearmed member true;
}

rearm_one-AllMayRun :
    (c : Config) (member : String) (degree : ℕ) (st : RunState)
    → AllMayRun c st
    → AllMayRun c (rearm_one member degree st)
rearm_one-AllMayRun c member degree st h =
    All-map (MayRun c st) (MayRun c (rearm_one member degree st))
      (λ t may. elim may [ inl new ↦ inl new | inr armed ↦ inr (ground arith) ]) st.tasks h

rearm-AllMayRun :
    (c : Config) (degrees : List (String × ℕ)) (st : RunState)
    → AllMayRun c st
    → AllMayRun c (rearm degrees st)
unfolding rearm
rearm-AllMayRun c [] st h = h
rearm-AllMayRun c ((member, degree) ∷ degrees) st h =
    rearm-AllMayRun c degrees (rearm_one member degree st)
      (rearm_one-AllMayRun c member degree st h)

settle-AllMayRun :
    (c : Config) (id : String) (returned : Returned) (st : RunState)
    → AllMayRun c st
    → AllMayRun c (settle c id returned st).0
unfolding settle
settle-AllMayRun c id node_passed st h = h
settle-AllMayRun c id gate_paused st h = h
settle-AllMayRun c id (session_limited cause) st h = h
settle-AllMayRun c id gate_rejected st h = h
settle-AllMayRun c id (arc_fired target) st h = elim (Bool-cases (is_paused st)) [
  | inl e ↦ rw e h
  | inr e ↦ rw e (
      launch-AllMayRun c target (rearm (c.body_in_degrees id) st)
        (rearm-AllMayRun c (c.body_in_degrees id) st h))
]
settle-AllMayRun c id node_failed st h =
    elim (Bool-cases (effective_continue_on_fail c.continue_flag c.graph)) [
      | inl e ↦ rw e h
      | inr e ↦ rw e h
    ]

abbrev lowered : String → RunState → RunState
lowered dependent st = record st {
  in_degree = assign st.in_degree dependent (st.in_degree dependent -ℤ pos 1);
}

release-AllMayRun :
    (c : Config) (dependent : String) (st : RunState)
    → AllMayRun c st
    → AllMayRun c (release c dependent st)
unfolding release
release-AllMayRun c dependent st h =
    elim (Bool-cases (eqb_ℤ (st.in_degree dependent -ℤ pos 1) (pos 0))) [
      | inl e ↦ rw e (launch-AllMayRun c dependent (lowered dependent st) h)
      | inr e ↦ rw e h
    ]

-- One task gives way to others that may run if it may.
replace-AllMayRun :
    (c : Config) (st : RunState) (before after own : List Task) (t : Task)
    → (MayRun c st t → All (MayRun c st) own)
    → st.tasks ≡ before ++ t ∷ after
    → AllMayRun c st
    → AllMayRun c (record st { tasks = before ++ (own ++ after) })
replace-AllMayRun c st before after own t keeps at h =
    let P = MayRun c st in
    let (front, (here, back)) = (All-append P before (t ∷ after)).0 (subst (All P) at h) in
    (All-append P before (own ++ after)).1 (front, (All-append P own after).1 (keeps here, back))

settled_task-MayRun :
    (c : Config) (st : RunState) (id : String) (goes_on : Bool)
    → MayRun c st (task id running)
    → All (MayRun c st) (settled_task c id goes_on)
settled_task-MayRun c st id true may = (may, tt)
settled_task-MayRun c st id false may = tt

Move-AllMayRun : (c : Config) (st st' : RunState) → Move c st st' → AllMayRun c st → AllMayRun c st'
Move-AllMayRun c st st' (start before after id at live free) h =
    replace-AllMayRun c st before after (task id running ∷ []) (task id waiting) (λ m. (m, tt)) at h
Move-AllMayRun c st st' (abandon before after id at dead) h =
    replace-AllMayRun c st before after [] (task id waiting) (λ _. tt) at h
Move-AllMayRun c st st' (finish before after id returned at can) h =
    let goes_on = (settle c id returned st).1 in
    let own = settled_task c id goes_on in
    settle-AllMayRun c id returned (record st { tasks = before ++ (own ++ after) })
      (replace-AllMayRun c st before after own (task id running)
        (settled_task-MayRun c st id goes_on) at h)
Move-AllMayRun c st st' (release_one before after id dependent others at) h =
    let own = task id (releasing others) ∷ [] in
    release-AllMayRun c dependent (record st { tasks = before ++ (own ++ after) })
      (replace-AllMayRun c st before after own (task id (releasing (dependent ∷ others)))
        (λ m. (m, tt)) at h)
Move-AllMayRun c st st' (launch_next id ids at) h =
    launch-AllMayRun c id (record st { to_launch = ids }) h
Move-AllMayRun c st st' (stop id halted live) h = h
Move-AllMayRun c st st' (return before after id at) h =
    replace-AllMayRun c st before after [] (task id (releasing [])) (λ _. tt) at h

-- Whatever the interleaving, a node that an earlier leg settled gets a goroutine only after an arc
-- has re-armed it.
pub Reachable-AllMayRun : (c : Config) (st : RunState) → Reachable c st → AllMayRun c st
Reachable-AllMayRun c st begin = tt
Reachable-AllMayRun c st (then_step {st = st0} run (move m)) =
    Move-AllMayRun c st0 st m (Reachable-AllMayRun c st0 run)
Reachable-AllMayRun c st (then_step {st = st0} run cancel) = Reachable-AllMayRun c st0 run
