-- ===== src/Schedule/Execute/Launched.antt =====
-- In a run without feedback arcs, a node is launched once, after all its dependencies.
use oh_my_graph.Base.{
  String, ◌≡◌, inl, inr, Bool, true, not, List, [], ◌∷◌, ◌++◌, Option, none, arith, All, mem-All,
  Memᴰ, IsDistinct, Bool-cases,
}
use mathlib.Core.List.Memᴰ
use oh_my_graph.Graph.{Node, dependents_of}
use oh_my_graph.Graph.Index.{IsIndexed, node_by_id-mem}
use oh_my_graph.Schedule.Policy.{effective_continue_on_fail}
use oh_my_graph.Schedule.Execute.{
  Config, waiting, running, releasing, Task, RunState, task, settle, settled_task, is_paused,
  Returned, node_passed, gate_paused, gate_rejected, node_failed, session_limited, arc_fired,
  CanReturn, Move, start, abandon, finish, release_one, launch_next, stop, return,
}
use oh_my_graph.Schedule.Execute.Ordered.{HasParentsDone, Ordered, task_ids, gone, goes_to}
use oh_my_graph.Schedule.Execute.Order.{own_sound, same_passed}
use oh_my_graph.Graph.Index.{ids}
use oh_my_graph.Schedule.Execute.{move, cancel, Reachable, begin, then_step}
use oh_my_graph.Schedule.Execute.Order.{passing-Ordered}
use oh_my_graph.Schedule.Execute.Release.{release-Ordered, release-PastOf}
use oh_my_graph.Schedule.Execute.Begin.{
  dependents_sound, idle-Ordered, idle-PastOf, launch_next-kept,
}
use oh_my_graph.Schedule.Execute.Past.{PastOf, same-PastOf, passed-PastOf}

-- What the scheduler may rely on: an index of different ids, no arcs, and every node completed in
-- an earlier leg settled by it.
pub record IsPlain (c : Config) : Type 0 where
  pub indexed : IsIndexed c.graph
  pub different : IsDistinct (ids c.graph)
  pub no_arcs : (n : Node) → Memᴰ n c.graph.nodes → n.feedback ≡ none
  pub settles : (x : String) → c.completed x ≡ true → c.settled x ≡ true

-- The invariant does not look at pauses, limits, failures and cancellation.
elsewhere :
    (c : Config) (st : RunState)
    → Ordered c st
    → (paused_at : Option String) (limited : List String) (limit_cause : String)
      (pruned : List String) (halted : Option String) (cancelled : Bool) (to_launch : List String)
    → Ordered c (record st {
      paused_at = paused_at;
      limited = limited;
      limit_cause = limit_cause;
      pruned = pruned;
      halted = halted;
      cancelled = cancelled;
      to_launch = to_launch;
    })
elsewhere c st g paused_at limited limit_cause pruned halted cancelled to_launch = record {
  degrees = g.degrees;
  spent = g.spent;
  spent_passed = g.spent_passed;
  distinct = g.distinct;
  sound = g.sound;
  still = g.still;
}

module _ (c : Config) (plain : IsPlain c) where
  gone_Ordered :
      (st : RunState) (o : Ordered c st) (before after : List Task) (t : Task)
      → st.tasks ≡ before ++ t ∷ after
      → Ordered c (record st { tasks = before ++ after })
  gone_Ordered st o before after t at =
      same_passed c st o before after t at gone tt (λ p d h. absurd (cc h))

  finish-Ordered :
      (st : RunState) (o : Ordered c st) (before after : List Task) (id : String)
      (returned : Returned)
      → st.tasks ≡ before ++ task id running ∷ after
      → CanReturn c id returned
      → Ordered c (
          let own = settled_task c id (settle c id returned st).1 in
          (settle c id returned (record st { tasks = before ++ (own ++ after) })).0)
  unfolding settle
  finish-Ordered st o before after id node_passed at can =
      passing-Ordered c (dependents_sound c plain.indexed plain.different) st o before after id
        (not (is_paused st)) at
  finish-Ordered st o before after id gate_paused at can =
      let g = gone_Ordered st o before after (task id running) at in
      elsewhere c (record st { tasks = before ++ after }) g _ _ _ _ _ _ _
  finish-Ordered st o before after id gate_rejected at can =
      let g = gone_Ordered st o before after (task id running) at in
      elsewhere c (record st { tasks = before ++ after }) g _ _ _ _ _ _ _
  finish-Ordered st o before after id (session_limited cause) at can =
      let g = gone_Ordered st o before after (task id running) at in
      elsewhere c (record st { tasks = before ++ after }) g _ _ _ _ _ _ _
  finish-Ordered st o before after id (arc_fired target) at (n, f, found, declared, _) =
      let here = (node_by_id-mem plain.indexed id n found).0 in
      absurd (cc (plain.no_arcs n here, declared))
  finish-Ordered st o before after id node_failed at can =
      let g = gone_Ordered st o before after (task id running) at in
      elim (Bool-cases (effective_continue_on_fail c.continue_flag c.graph)) [
        | inl e ↦ rw e (elsewhere c (record st { tasks = before ++ after }) g _ _ _ _ _ _ _)
        | inr e ↦ rw e (elsewhere c (record st { tasks = before ++ after }) g _ _ _ _ _ _ _)
      ]

  Move-Ordered : (st st' : RunState) → Move c st st' → Ordered c st × PastOf c st → Ordered c st'
  Move-Ordered st st' (start before after id at live free) (o, _) =
      same_passed c st o before after (task id waiting) at (goes_to running)
        (own_sound c st o before after (task id waiting) at, tt) (λ p d h. ground (arith, h))
  Move-Ordered st st' (abandon before after id at dead) (o, _) =
      gone_Ordered st o before after (task id waiting) at
  Move-Ordered st st' (finish before after id returned at can) (o, _) =
      finish-Ordered st o before after id returned at can
  Move-Ordered st st' (release_one before after id dependent others at) (o, _) =
      release-Ordered c st o before after id dependent others at plain.settles
  Move-Ordered st st' (launch_next id ids at) (o, past) =
      (launch_next-kept c st id ids plain.settles at (elsewhere c st o _ _ _ _ _ _ ids) past).0
  Move-Ordered st st' (stop id halted live) (o, _) = elsewhere c st o _ _ _ _ _ _ _
  Move-Ordered st st' (return before after id at) (o, _) =
      gone_Ordered st o before after (task id (releasing [])) at

  finish-PastOf :
      (st : RunState) (past : PastOf c st) (before after : List Task) (id : String)
      (returned : Returned)
      → st.tasks ≡ before ++ task id running ∷ after
      → CanReturn c id returned
      → PastOf c (
          let own = settled_task c id (settle c id returned st).1 in
          (settle c id returned (record st { tasks = before ++ (own ++ after) })).0)
  unfolding settle
  finish-PastOf st past before after id node_passed at can =
      elim (Bool-cases (not (is_paused st))) [
        | inl e ↦ rw e (
            passed-PastOf c st past before after (task id running) at
              (goes_to (releasing (dependents_of c.graph id))))
        | inr e ↦ rw e (passed-PastOf c st past before after (task id running) at gone)
      ]
  finish-PastOf st past before after id gate_paused at can =
      same-PastOf c st past before after (task id running) at gone
  finish-PastOf st past before after id gate_rejected at can =
      same-PastOf c st past before after (task id running) at gone
  finish-PastOf st past before after id (session_limited cause) at can =
      same-PastOf c st past before after (task id running) at gone
  finish-PastOf st past before after id (arc_fired target) at (n, f, found, declared, _) =
      let here = (node_by_id-mem plain.indexed id n found).0 in
      absurd (cc (plain.no_arcs n here, declared))
  finish-PastOf st past before after id node_failed at can =
      let same = same-PastOf c st past before after (task id running) at gone in
      elim (Bool-cases (effective_continue_on_fail c.continue_flag c.graph)) [
        | inl e ↦ rw e same
        | inr e ↦ rw e same
      ]

  Move-PastOf : (st st' : RunState) → Move c st st' → Ordered c st × PastOf c st → PastOf c st'
  Move-PastOf st st' (start before after id at live free) (_, past) =
      same-PastOf c st past before after (task id waiting) at (goes_to running)
  Move-PastOf st st' (abandon before after id at dead) (_, past) =
      same-PastOf c st past before after (task id waiting) at gone
  Move-PastOf st st' (finish before after id returned at can) (_, past) =
      finish-PastOf st past before after id returned at can
  Move-PastOf st st' (release_one before after id dependent others at) (o, past) =
      release-PastOf c st o before after id dependent others at past
  Move-PastOf st st' (launch_next id ids at) (o, past) =
      (launch_next-kept c st id ids plain.settles at (elsewhere c st o _ _ _ _ _ _ ids) past).1
  Move-PastOf st st' (stop id halted live) (_, past) = past
  Move-PastOf st st' (return before after id at) (_, past) =
      same-PastOf c st past before after (task id (releasing [])) at gone

  Reachable-kept : (st : RunState) → Reachable c st → Ordered c st × PastOf c st
  Reachable-kept st begin =
      (idle-Ordered c plain.indexed plain.different, idle-PastOf c plain.indexed plain.different)
  Reachable-kept st (then_step {st = st0} run (move m)) =
      let both = Reachable-kept st0 run in (Move-Ordered st0 st m both, Move-PastOf st0 st m both)
  Reachable-kept st (then_step {st = st0} run cancel) =
      let (o, past) = Reachable-kept st0 run in (elsewhere c st0 o _ _ _ _ _ _ _, past)

-- Without feedback arcs, in every state that a run can reach, however its goroutines interleave, no
-- node has been launched twice, and every dependency of a launched node was completed in an earlier
-- leg or has passed in this run. Each goroutine is that of a launched node, and no node has two.
pub Reachable-HasParentsDone :
    (c : Config) (st : RunState)
    → IsPlain c
    → Reachable c st
    → IsDistinct st.launched
      × All (HasParentsDone c st.passed) st.launched
      × All (λ t. Memᴰ t.id st.launched) st.tasks
      × IsDistinct (task_ids st.tasks)
Reachable-HasParentsDone c st plain run =
    let (o, past) = Reachable-kept c plain st run in
    (
      past.once,
      mem-All (HasParentsDone c st.passed) st.launched past.done,
      mem-All (λ t. Memᴰ t.id st.launched) st.tasks
          (λ t m. past.covers t.id (Memᴰ.map (λ (u : Task). u.id) m)),
      o.distinct,
    )
