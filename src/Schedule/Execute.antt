-- ===== src/Schedule/Execute.antt =====
-- internal/schedule/scheduler.go: `execute`, as steps of the loop over the ready nodes, of the
-- goroutines that are launched, and of the group that cancels its context. A goroutine waits for a
-- slot of the semaphore, runs its node, and then releases the node's dependents one by one; each step
-- is what it does under one lock. What `runNode` returns is the argument of the step that ends a node.
pub mod Slots
pub mod Progress
pub mod Resumed
pub mod Owed
pub mod Ordered
pub mod Kept
pub mod Order
pub mod Release
pub mod Begin
pub mod Past
pub mod Launched
use oh_my_graph.Base.{
  ℕ, zero, suc, ◌<◌, String, ◌==◌, ◌≡◌, ◌||◌, ◌&&◌, Bool, true, false, not, List, [], ◌∷◌, ◌++◌,
  Option, none, some, if◌then◌else◌,
}
use oh_my_graph.Base.Int.{ℤ, pos, ◌-ℤ◌, eqb_ℤ, pos_part}
use oh_my_graph.Graph.{
  Graph, Node, Feedback, is_none, node_by_id, dependents_of, ready_given, type_gate,
}
use oh_my_graph.Schedule.Policy.{effective_concurrency, effective_continue_on_fail}
use oh_my_graph.Schedule.Arcs.{assign}

-- What `execute` reads: the graph, the nodes of earlier legs, the flags, and `bodyInDegrees`.
pub record Config : Type 0 where
  pub graph : Graph
  pub completed : String → Bool
  pub settled : String → Bool
  pub concurrency : ℤ
  pub continue_flag : Bool
  pub body_in_degrees : String → List (String × ℕ)

-- Where a goroutine is.
pub data Phase : Type 0 where
  waiting running : Phase
  releasing : (dependents : List String) → Phase

pub record Task : Type 0 where
  pub id : String
  pub phase : Phase

-- `cancelled` is the state of the group's context; `passed` lists the nodes whose `runNode` returned
-- nil, in order. `to_launch` are the ready nodes that the loop of `execute` is still to launch, and
-- `launched` the nodes that got a goroutine, in order.
pub record RunState : Type 0 where
  pub in_degree : String → ℤ
  pub rearmed : String → Bool
  pub tasks : List Task
  pub paused_at : Option String
  pub limited : List String
  pub limit_cause : String
  pub pruned : List String
  pub halted : Option String
  pub cancelled : Bool
  pub passed : List String
  pub to_launch : List String
  pub launched : List String

-- What `runNode` returns: nil, one of its signals, or another error.
pub data Returned : Type 0 where
  node_passed gate_paused gate_rejected node_failed : Returned
  session_limited : (cause : String) → Returned
  arc_fired : (target : String) → Returned

abbrev pub slots : Config → ℕ
slots c = pos_part (effective_concurrency c.concurrency c.graph.concurrency)

-- How many dependencies are not completed; a repeated one counts each time.
unfoldable pub remaining : (String → Bool) → List String → ℕ
remaining completed [] = 0
remaining completed (parent ∷ parents) =
    let count = remaining completed parents in if completed parent then count else suc count

-- The loop that fills `inDegree`, with the entries made so far.
unfoldable pub in_degrees : (String → Bool) → List Node → (String → ℤ) → String → ℤ
unfolding remaining
in_degrees completed [] degree = degree
in_degrees completed (n ∷ nodes) degree =
    in_degrees completed nodes (assign degree n.id (pos (remaining completed n.depends_on)))

unfoldable pub launch : Config → String → RunState → RunState
launch c id st = if c.settled id && not (st.rearmed id) then st else record st {
  tasks = st.tasks ++ record { id = id; phase = waiting } ∷ [];
  launched = st.launched ++ id ∷ [];
}

-- The state in front of the first launch.
abbrev pub idle : Config → RunState
idle c = record {
  in_degree = in_degrees c.completed c.graph.nodes (λ _. pos 0);
  rearmed = λ _. false;
  tasks = [];
  paused_at = none;
  limited = [];
  limit_cause = "";
  pruned = [];
  halted = none;
  cancelled = false;
  passed = [];
  to_launch = ready_given c.graph c.completed;
  launched = [];
}

abbrev pub is_nil {ℓ} : {A : Type ℓ} → List A → Bool
is_nil [] = true
is_nil (_ ∷ _) = false

-- `pausedAt != "" || len(limitedNodes) > 0`
unfoldable pub is_paused : RunState → Bool
is_paused st = not (is_none st.paused_at) || not (is_nil st.limited)

-- `if m == "" { m = value }` on an optional entry.
abbrev pub first_of : Option String → String → Option String
first_of none value = some value
first_of (some old) value = some old

-- The loop that re-arms the members of a body.
unfoldable pub rearm : List (String × ℕ) → RunState → RunState
rearm [] st = st
rearm ((member, degree) ∷ degrees) st = rearm degrees (record st {
  in_degree = assign st.in_degree member (pos degree);
  rearmed = assign st.rearmed member true;
})

-- What the goroutine of `id` does when `runNode` returns: the state, and whether it goes on to
-- release the node's dependents.
unfoldable pub settle : Config → String → Returned → RunState → RunState × Bool
unfolding is_paused rearm launch
settle c id node_passed st =
    let recorded = record st { passed = st.passed ++ id ∷ [] } in (recorded, not (is_paused st))
settle c id gate_paused st = (record st { paused_at = first_of st.paused_at id }, false)
settle c id (session_limited cause) st =
    let named = if st.limit_cause == "" then cause else st.limit_cause in
    (record st { limited = st.limited ++ id ∷ []; limit_cause = named }, false)
settle c id (arc_fired target) st =
    if is_paused st then (st, false) else (launch c target (rearm (c.body_in_degrees id) st), false)
settle c id gate_rejected st = (record st { pruned = st.pruned ++ id ∷ [] }, false)
settle c id node_failed st =
    if effective_continue_on_fail c.continue_flag c.graph
    then (record st { pruned = st.pruned ++ id ∷ [] }, false)
    else (record st { halted = first_of st.halted id }, false)

-- `inDegree[dependent]--`, and the launch at zero.
unfoldable pub release : Config → String → RunState → RunState
unfolding launch
release c dependent st =
    let left = st.in_degree dependent -ℤ pos 1 in
    let lowered = record st { in_degree = assign st.in_degree dependent left } in
    if eqb_ℤ left (pos 0) then launch c dependent lowered else lowered

abbrev pub task : String → Phase → Task
task id phase = record { id = id; phase = phase }

abbrev pub is_running : Phase → Bool
is_running waiting = false
is_running running = true
is_running (releasing _) = true

-- The slots of the semaphore that are taken: a goroutine gives its slot back when it returns.
unfoldable pub taken : List Task → ℕ
taken [] = 0
taken (t ∷ tasks) = let count = taken tasks in if is_running t.phase then suc count else count

-- The tasks after the goroutine of a node has settled.
abbrev pub settled_task : Config → String → Bool → List Task
settled_task c id true = task id (releasing (dependents_of c.graph id)) ∷ []
settled_task c id false = []

-- What the node of a goroutine can return: the signals of a gate come from a gate, and an arc fires
-- from its declarer to its target.
abbrev pub CanReturn : Config → String → Returned → Type 0
CanReturn c id node_passed = Unit
CanReturn c id node_failed = Unit
CanReturn c id (session_limited _) = Unit
CanReturn c id gate_paused = (n : Node) × (node_by_id c.graph id ≡ some n) × (n.type ≡ type_gate)
CanReturn c id gate_rejected = (n : Node) × (node_by_id c.graph id ≡ some n) × (n.type ≡ type_gate)
CanReturn c id (arc_fired target) =
    (n : Node) × (f : Feedback) × (node_by_id c.graph id ≡ some n)
    × (n.feedback ≡ some f)
    × (f.rerun ≡ target)

-- One step of one goroutine, of the loop that launches, or of the group. A step that launches nodes puts their goroutines behind the others.
pub data Move (c : Config) : RunState → RunState → Type 0 where
  start :
      {st : RunState} (before after : List Task) (id : String)
      → st.tasks ≡ before ++ task id waiting ∷ after
      → st.cancelled ≡ false
      → taken st.tasks < slots c
      → Move c st (record st { tasks = before ++ task id running ∷ after })
  abandon :
      {st : RunState} (before after : List Task) (id : String)
      → st.tasks ≡ before ++ task id waiting ∷ after
      → st.cancelled ≡ true
      → Move c st (record st { tasks = before ++ after })
  finish :
      {st : RunState} (before after : List Task) (id : String) (returned : Returned)
      → st.tasks ≡ before ++ task id running ∷ after
      → CanReturn c id returned
      → Move c st (
          let own = settled_task c id (settle c id returned st).1 in
          (settle c id returned (record st { tasks = before ++ (own ++ after) })).0)
  release_one :
      {st : RunState} (before after : List Task) (id dependent : String) (others : List String)
      → st.tasks ≡ before ++ task id (releasing (dependent ∷ others)) ∷ after
      → Move c st
          (release c dependent (record st { tasks = before ++ task id (releasing others) ∷ after }))
  -- The loop over the ready nodes launches the next one; goroutines run meanwhile.
  launch_next :
      {st : RunState} (id : String) (ids : List String)
      → st.to_launch ≡ id ∷ ids
      → Move c st (launch c id (record st { to_launch = ids }))
  -- The group cancels its context after the goroutine that halts the run has returned and given
  -- its slot back.
  stop :
      {st : RunState} (id : String)
      → st.halted ≡ some id
      → st.cancelled ≡ false
      → Move c st (record st { cancelled = true })
  return :
      {st : RunState} (before after : List Task) (id : String)
      → st.tasks ≡ before ++ task id (releasing []) ∷ after
      → Move c st (record st { tasks = before ++ after })

-- A step of a run: one of a goroutine, or the cancellation from outside.
pub data Step (c : Config) : RunState → RunState → Type 0 where
  move : {st st' : RunState} → Move c st st' → Step c st st'
  cancel : {st : RunState} → Step c st (record st { cancelled = true })

-- The states that a run can reach.
pub data Reachable (c : Config) : RunState → Type 0 where
  begin : Reachable c (idle c)
  then_step : {st st' : RunState} → Reachable c st → Step c st st' → Reachable c st'
