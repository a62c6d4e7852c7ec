-- ===== src/Schedule/Execute/Progress.antt =====
-- No state of a run with a goroutine left is stuck.
use oh_my_graph.Base.{
  ◌<◌, String, ◌≡◌, refl, ap, ◌∙◌, ◌⊎◌, inl, inr, true, List, [], ◌∷◌, ◌++◌, arith, All, Bool-cases,
}
use oh_my_graph.Schedule.Policy.Bounds.{effective_concurrency_bounds}
use oh_my_graph.Schedule.Execute.{
  Config, Phase, waiting, running, releasing, Task, RunState, node_passed, slots, task, taken, Move,
  start, abandon, finish, release_one, return, is_running,
}

AllWaiting : List Task → Type 0
AllWaiting tasks = All (λ t. t.phase ≡ waiting) tasks

idle-taken : (tasks : List Task) → AllWaiting tasks → taken tasks ≡ 0
unfolding AllWaiting taken
idle-taken [] h = refl
idle-taken (t ∷ tasks) (e, h) = rw e (idle-taken tasks h)

phase_cases : (p : Phase) → (p ≡ waiting) ⊎ (is_running p ≡ true)
phase_cases waiting = inl refl
phase_cases running = inr refl
phase_cases (releasing ds) = inr refl

-- A task that holds a slot, if there is one.
busy_or_idle :
    (tasks : List Task)
    → AllWaiting tasks
      ⊎ ((before : List Task) × (after : List Task) × (t : Task) × (tasks ≡ before ++ t ∷ after)
          × (is_running t.phase ≡ true))
unfolding AllWaiting
busy_or_idle [] = inl tt
busy_or_idle (t ∷ tasks) = elim (phase_cases t.phase) [
  | inr e ↦ inr ([], tasks, t, refl, e)
  | inl e ↦ elim (busy_or_idle tasks) [
    | inl rest ↦ inl (e, rest)
    | inr (before, after, u, split, e') ↦ inr (t ∷ before, after, u, ap (λ l. t ∷ l) split, e')
  ]
]

busy_moves :
    (c : Config) (st : RunState) (before after : List Task) (id : String) (p : Phase)
    → st.tasks ≡ before ++ task id p ∷ after
    → is_running p ≡ true
    → (st' : RunState) × Move c st st'
busy_moves c st before after id waiting at busy = absurd (cc busy)
busy_moves c st before after id running at busy = (_, finish before after id node_passed at tt)
busy_moves c st before after id (releasing []) at busy = (_, return before after id at)
busy_moves c st before after id (releasing (d ∷ ds)) at busy =
    (_, release_one before after id d ds at)

slots-positive : (c : Config) → 0 < slots c
slots-positive c =
    let (low, high) = effective_concurrency_bounds c.concurrency c.graph.concurrency in
    ground (arith, low)

idle_moves :
    (c : Config) (st : RunState) (t : Task) (tasks : List Task)
    → st.tasks ≡ t ∷ tasks
    → AllWaiting (t ∷ tasks)
    → (st' : RunState) × Move c st st'
unfolding AllWaiting
idle_moves c st t tasks at (e, h) =
    let first : st.tasks ≡ [] ++ task t.id waiting ∷ tasks = at ∙ ap (λ p. task t.id p ∷ tasks) e in
    elim (Bool-cases st.cancelled) [
      | inl dead ↦ (_, abandon [] tasks t.id first dead)
      | inr live ↦
          let free : taken st.tasks ≡ 0 = ap taken at ∙ idle-taken (t ∷ tasks) (e, h) in
          (_, start [] tasks t.id first live (omega (arith, free, slots-positive c)))
    ]

-- A run is never stuck: in every state with a goroutine left, some goroutine can take a step.
pub Move-progress :
    (c : Config) (st : RunState) (t : Task) (tasks : List Task)
    → st.tasks ≡ t ∷ tasks
    → (st' : RunState) × Move c st st'
Move-progress c st t tasks at = elim (busy_or_idle (t ∷ tasks)) [
  | inl waits ↦ idle_moves c st t tasks at waits
  | inr (before, after, u, split, busy) ↦
      busy_moves c st before after u.id u.phase (at ∙ split) busy
]
