-- ===== src/Examples/Runs.antt =====
-- Steps of a run of the sample graph.
use oh_my_graph.Base.{◌≡◌, refl, ◌≤◌, ◌<◌, false, [], ◌∷◌, ◌++◌, arith}
use oh_my_graph.Base.Int.{pos}
use oh_my_graph.Graph.{Node, RawGraph, from_raw, ready_given, dependents_of}
use oh_my_graph.Schedule.Policy.{effective_concurrency}
use oh_my_graph.Schedule.Execute.{
  Config, RunState, waiting, running, task, taken, slots, launch, idle, Move, Reachable, begin,
  then_step, move, start, launch_next, finish, release_one, releasing, node_passed, settle,
  settled_task, release, is_paused, in_degrees, remaining,
}
use oh_my_graph.Base.{none, Memᴰ, All, All-mem, IsDistinct}
use oh_my_graph.Base.Text.{is_blank}
use oh_my_graph.Graph.Index.{ids, from_raw-IsIndexed}
use oh_my_graph.Checks.{validate_nodes_unique}
use oh_my_graph.Checks.Unique.{validate_nodes_unique-nil}
use oh_my_graph.Schedule.Execute.Ordered.{task_ids, HasParentsDone}
use oh_my_graph.Schedule.Execute.Launched.{IsPlain, Reachable-HasParentsDone}
use oh_my_graph.Schedule.Execute.Slots.{Reachable-taken}
use oh_my_graph.Schedule.Execute.Progress.{Move-progress}
use oh_my_graph.Schedule.Execute.Resumed.{AllMayRun, Reachable-AllMayRun}
use oh_my_graph.Examples.Samples.{sample_graph, sample_raw, plan_node, build_node}

abbrev sample_config : Config
sample_config = record {
  graph = sample_graph;
  completed = λ _. false;
  settled = λ _. false;
  concurrency = pos 0;
  continue_flag = false;
  body_in_degrees = λ _. [];
}

ready_first : (idle sample_config).to_launch ≡ "plan" ∷ []
unfolding ready_given from_raw
ready_first = refl

-- The loop has launched the plan.
abbrev planned : RunState
planned = launch sample_config "plan" (record (idle sample_config) { to_launch = [] })

first_task : planned.tasks ≡ task "plan" waiting ∷ []
unfolding launch
first_task = refl

first_live : planned.cancelled ≡ false
unfolding launch
first_live = refl

free_slot : taken planned.tasks < slots sample_config
unfolding launch taken effective_concurrency from_raw
free_slot = omega arith

-- The plan runs.
abbrev planning : RunState
planning = record planned { tasks = task "plan" running ∷ [] }

planning-Reachable : Reachable sample_config planning
planning-Reachable =
    then_step (then_step begin (move (launch_next "plan" [] ready_first)))
      (move (start [] [] "plan" first_task first_live free_slot))

Reachable-taken_example : taken planning.tasks ≤ slots sample_config
Reachable-taken_example = Reachable-taken sample_config planning planning-Reachable

Move-progress_example : (st : RunState) × Move sample_config planning st
Move-progress_example = Move-progress sample_config planning (task "plan" running) [] refl

Reachable-AllMayRun_example : AllMayRun sample_config planning
Reachable-AllMayRun_example = Reachable-AllMayRun sample_config planning planning-Reachable

-- The first two nodes alone, without an arc.
abbrev plain_raw : RawGraph
plain_raw = record sample_raw { nodes = plan_node ∷ build_node ∷ [] }

abbrev plain_config : Config
plain_config = record sample_config { graph = from_raw plain_raw }

plain_different : IsDistinct (ids plain_config.graph)
plain_different =
    ((validate_nodes_unique-nil plain_config.graph).0
      (unfold validate_nodes_unique from_raw is_blank in refl)).1

no_arcs : (n : Node) → Memᴰ n plain_config.graph.nodes → n.feedback ≡ none
no_arcs n m =
    All-mem (λ (k : Node). k.feedback ≡ none) plain_config.graph.nodes
      (unfold from_raw in (refl, (refl, tt))) n m

plain_config-IsPlain : IsPlain plain_config
plain_config-IsPlain = record {
  indexed = from_raw-IsIndexed plain_raw;
  different = plain_different;
  no_arcs = no_arcs;
  settles = λ x h. h;
}

plain_ready : (idle plain_config).to_launch ≡ "plan" ∷ []
unfolding ready_given from_raw
plain_ready = refl

abbrev plain_planned : RunState
plain_planned = launch plain_config "plan" (record (idle plain_config) { to_launch = [] })

plain_first : plain_planned.tasks ≡ task "plan" waiting ∷ []
unfolding launch
plain_first = refl

plain_live : plain_planned.cancelled ≡ false
unfolding launch
plain_live = refl

plain_slot : taken plain_planned.tasks < slots plain_config
unfolding launch taken effective_concurrency from_raw
plain_slot = omega arith

abbrev plain_planning : RunState
plain_planning = record plain_planned { tasks = task "plan" running ∷ [] }

-- The plan passes, and its goroutine launches the build.
abbrev told_by_plan : RunState
told_by_plan =
    (settle plain_config "plan" node_passed (record plain_planning {
      tasks =
          settled_task plain_config "plan" (settle plain_config "plan" node_passed plain_planning).1
          ++ [];
    })).0

plan_tells : told_by_plan.tasks ≡ task "plan" (releasing ("build" ∷ [])) ∷ []
unfolding settle is_paused launch dependents_of from_raw
plan_tells = refl

abbrev building : RunState
building =
    release plain_config "build" (record told_by_plan { tasks = task "plan" (releasing []) ∷ [] })

building-Reachable : Reachable plain_config building
building-Reachable =
    then_step
      (then_step
        (then_step (then_step begin (move (launch_next "plan" [] plain_ready)))
          (move (start [] [] "plan" plain_first plain_live plain_slot)))
        (move (finish [] [] "plan" node_passed refl tt)))
      (move (release_one [] [] "plan" "build" [] plan_tells))

both_launched : building.launched ≡ "plan" ∷ "build" ∷ []
unfolding release launch settle in_degrees remaining from_raw
both_launched = refl

Reachable-HasParentsDone_example :
    IsDistinct building.launched
    × All (HasParentsDone plain_config building.passed) building.launched
    × All (λ t. Memᴰ t.id building.launched) building.tasks
    × IsDistinct (task_ids building.tasks)
Reachable-HasParentsDone_example =
    Reachable-HasParentsDone plain_config building plain_config-IsPlain building-Reachable
