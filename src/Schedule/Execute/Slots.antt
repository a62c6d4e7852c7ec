-- ===== src/Schedule/Execute/Slots.antt =====
-- The semaphore of a run, through every step.
use oh_my_graph.Base.{
  ℕ, suc, ◌+◌, ◌≤◌, String, ◌≡◌, refl, sym, ap, subst, ◌∙◌, inl, inr, Bool, true, false, not, ◌&&◌,
  List, [], ◌∷◌, ◌++◌, arith, Bool-cases,
}
use oh_my_graph.Base.Int.{pos, ◌-ℤ◌, eqb_ℤ}
use oh_my_graph.Schedule.Policy.{effective_continue_on_fail}
use oh_my_graph.Schedule.Arcs.{assign}
use oh_my_graph.Schedule.Execute.{
  Config, waiting, running, releasing, Task, RunState, Returned, node_passed, gate_paused,
  gate_rejected, node_failed, session_limited, arc_fired, slots, launch, is_paused, rearm, settle,
  release, task, taken, settled_task, Move, Step, move, start, launch_next, stop, abandon, finish,
  release_one, return, cancel, Reachable, begin, then_step,
}

taken-append : (xs ys : List Task) → taken (xs ++ ys) ≡ taken xs + taken ys
unfolding taken
taken-append [] ys = omega arith
taken-append (t ∷ xs) ys = ground (arith, taken-append xs ys)

-- A launch takes no slot.
launch-taken :
    (c : Config) (id : String) (st : RunState) → taken (launch c id st).tasks ≡ taken st.tasks
unfolding launch taken
launch-taken c id st = elim (Bool-cases (c.settled id && not (st.rearmed id))) [
  | inl e ↦ rw e refl
  | inr e ↦ rw e (omega (arith, taken-append st.tasks (task id waiting ∷ [])))
]

rearm-tasks : (degrees : List (String × ℕ)) (st : RunState) → (rearm degrees st).tasks ≡ st.tasks
unfolding rearm
rearm-tasks [] st = refl
rearm-tasks ((member, degree) ∷ degrees) st = rearm-tasks degrees _

settle-taken :
    (c : Config) (id : String) (returned : Returned) (st : RunState)
    → taken (settle c id returned st).0.tasks ≡ taken st.tasks
unfolding settle
settle-taken c id node_passed st = refl
settle-taken c id gate_paused st = refl
settle-taken c id (session_limited cause) st = refl
settle-taken c id gate_rejected st = refl
settle-taken c id (arc_fired target) st = elim (Bool-cases (is_paused st)) [
  | inl e ↦ rw e refl
  | inr e ↦ rw e (
      launch-taken c target (rearm (c.body_in_degrees id) st)
      ∙ ap taken (rearm-tasks (c.body_in_degrees id) st))
]
settle-taken c id node_failed st =
    elim (Bool-cases (effective_continue_on_fail c.continue_flag c.graph)) [
      | inl e ↦ rw e refl
      | inr e ↦ rw e refl
    ]

abbrev lowered : String → RunState → RunState
lowered dependent st = record st {
  in_degree = assign st.in_degree dependent (st.in_degree dependent -ℤ pos 1);
}

release-taken :
    (c : Config) (dependent : String) (st : RunState)
    → taken (release c dependent st).tasks ≡ taken st.tasks
unfolding release
release-taken c dependent st = elim (Bool-cases (eqb_ℤ (st.in_degree dependent -ℤ pos 1) (pos 0))) [
  | inl e ↦ rw e (launch-taken c dependent (lowered dependent st))
  | inr e ↦ rw e refl
]

-- One task gives way to others that hold no more slots than it did.
taken-replace :
    (before after own : List Task) (t : Task) (k : ℕ)
    → taken own ≤ taken (t ∷ [])
    → taken (before ++ t ∷ after) ≤ k
    → taken (before ++ (own ++ after)) ≤ k
taken-replace before after own t k fewer bound = omega (
  arith,
  fewer,
  bound,
  taken-append before (own ++ after),
  taken-append own after,
  taken-append before (t ∷ after),
  taken-append (t ∷ []) after,
)

settled_task-taken :
    (c : Config) (id : String) (goes_on : Bool) → taken (settled_task c id goes_on) ≤ 1
unfolding taken
settled_task-taken c id true = omega arith
settled_task-taken c id false = omega arith

start-taken :
    (before after : List Task) (id : String)
    → taken (before ++ task id running ∷ after) ≡ suc (taken (before ++ task id waiting ∷ after))
unfolding taken
start-taken before after id = omega (
  arith,
  taken-append before (task id running ∷ after),
  taken-append before (task id waiting ∷ after),
)

-- A step takes a slot only when one is free.
Move-taken :
    (c : Config) (st st' : RunState)
    → Move c st st'
    → taken st.tasks ≤ slots c
    → taken st'.tasks ≤ slots c
unfolding taken
Move-taken c st st' (start before after id at live free) h =
    omega (arith, start-taken before after id, ap taken at, free)
Move-taken c st st' (abandon before after id at dead) h =
    taken-replace before after [] (task id waiting) (slots c) (omega arith)
      (subst (λ l. taken l ≤ slots c) at h)
Move-taken c st st' (finish before after id returned at can) h =
    let own = settled_task c id (settle c id returned st).1 in
    let left =
      taken-replace before after own (task id running) (slots c)
        (settled_task-taken c id (settle c id returned st).1)
        (subst (λ l. taken l ≤ slots c) at h) in
    subst (λ k. k ≤ slots c)
      (sym (settle-taken c id returned (record st { tasks = before ++ (own ++ after) }))) left
Move-taken c st st' (release_one before after id dependent others at) h =
    let left =
      taken-replace before after (task id (releasing others) ∷ [])
        (task id (releasing (dependent ∷ others))) (slots c) (omega arith)
        (subst (λ l. taken l ≤ slots c) at h) in
    subst (λ k. k ≤ slots c)
      (sym (
        release-taken c dependent
          (record st { tasks = before ++ task id (releasing others) ∷ after })))
      left
Move-taken c st st' (launch_next id ids at) h =
    subst (λ k. k ≤ slots c) (sym (launch-taken c id (record st { to_launch = ids }))) h
Move-taken c st st' (stop id halted live) h = h
Move-taken c st st' (return before after id at) h =
    taken-replace before after [] (task id (releasing [])) (slots c) (omega arith)
      (subst (λ l. taken l ≤ slots c) at h)

Step-taken :
    (c : Config) (st st' : RunState)
    → Step c st st'
    → taken st.tasks ≤ slots c
    → taken st'.tasks ≤ slots c
Step-taken c st st' (move m) h = Move-taken c st st' m h
Step-taken c st st' cancel h = h

-- However the goroutines interleave, never more nodes run at once than the run is wide.
pub Reachable-taken : (c : Config) (st : RunState) → Reachable c st → taken st.tasks ≤ slots c
unfolding taken
Reachable-taken c st begin = omega arith
Reachable-taken c st (then_step {st = st0} run step) =
    Step-taken c st0 st step (Reachable-taken c st0 run)
