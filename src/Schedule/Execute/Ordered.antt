-- ===== src/Schedule/Execute/Ordered.antt =====
-- The invariant of a run without feedback arcs, and the steps of one goroutine that keep it.
use oh_my_graph.Base.{
  String, ◌≡◌, ◌≢◌, refl, sym, ap, subst, ◌∙◌, ◌⊎◌, inl, inr, true, false, List, [], ◌∷◌, ◌++◌, map,
  All, All-map, Memᴰ, IsDistinct, IsDistinct-append,
}
use oh_my_graph.Base.Int.{pos, ◌≤ℤ◌}
use oh_my_graph.Graph.{parents_of}
use oh_my_graph.Schedule.Execute.{Config, Phase, waiting, running, releasing, Task, RunState, task}
use oh_my_graph.Schedule.Execute.Owed.{unmet}

-- Every dependency of the node is completed or has passed.
abbrev pub HasParentsDone : Config → List String → String → Type 0
HasParentsDone c passed id =
    All (λ p. (c.completed p ≡ true) ⊎ Memᴰ p passed) (parents_of c.graph id)

-- A goroutine releases, once each, nodes that depend on its own, after that has passed.
abbrev pub IsSoundPhase : Config → List String → String → Phase → Type 0
IsSoundPhase c passed id waiting = ¬ Memᴰ id passed
IsSoundPhase c passed id running = ¬ Memᴰ id passed
IsSoundPhase c passed id (releasing ds) =
    Memᴰ id passed × IsDistinct ds × All (λ d. Memᴰ id (parents_of c.graph d)) ds

abbrev pub IsSoundTask : Config → List String → Task → Type 0
IsSoundTask c passed t =
    (c.completed t.id ≡ false) × HasParentsDone c passed t.id × IsSoundPhase c passed t.id t.phase

abbrev pub task_ids : List Task → List String
task_ids tasks = map (λ (t : Task). t.id) tasks

-- The counters cover what is owed; a node with a goroutine, or that has passed, is counted down; it
-- has one goroutine, launched with its dependencies done.
pub record Ordered (c : Config) (st : RunState) : Type 0 where
  pub degrees : (d : String) → pos (unmet c st d) ≤ℤ st.in_degree d
  pub spent : All (λ t. st.in_degree t.id ≤ℤ pos 0) st.tasks
  pub spent_passed : (p : String) → Memᴰ p st.passed → st.in_degree p ≤ℤ pos 0
  pub distinct : IsDistinct (task_ids st.tasks)
  pub sound : All (IsSoundTask c st.passed) st.tasks
  pub still : (id : String) → st.rearmed id ≡ false

pub map-append : (xs ys : List Task) → task_ids (xs ++ ys) ≡ task_ids xs ++ task_ids ys
map-append [] ys = refl
map-append (t ∷ xs) ys = ap (λ l. t.id ∷ l) (map-append xs ys)

-- What takes the place of a goroutine: nothing, or the goroutine in another phase.
pub data Next : Type 0 where
  gone : Next
  goes_to : Phase → Next

abbrev pub next_tasks : String → Next → List Task
next_tasks id gone = []
next_tasks id (goes_to phase) = task id phase ∷ []

-- The goroutine's own node has no other.
pub middle_apart :
    (before after : List Task) (t : Task)
    → IsDistinct (task_ids (before ++ t ∷ after))
    → (¬ Memᴰ t.id (task_ids before)) × (¬ Memᴰ t.id (task_ids after))
middle_apart before after t h =
    let (_, ((fresh, _), apart)) =
      (IsDistinct-append (task_ids before) (t.id ∷ task_ids after)).0
        (subst IsDistinct (map-append before (t ∷ after)) h) in
    (λ m. apart t.id m (Memᴰ.head refl), fresh)

pub replace-IsDistinct :
    (before after : List Task) (t : Task) (next : Next)
    → IsDistinct (task_ids (before ++ t ∷ after))
    → IsDistinct (task_ids (before ++ (next_tasks t.id next ++ after)))
replace-IsDistinct before after t (goes_to phase) h =
    subst IsDistinct
      (map-append before (t ∷ after) ∙ sym (map-append before (task t.id phase ∷ after))) h
replace-IsDistinct before after t gone h =
    let (front, ((fresh, back), apart)) =
      (IsDistinct-append (task_ids before) (t.id ∷ task_ids after)).0
        (subst IsDistinct (map-append before (t ∷ after)) h) in
    subst IsDistinct (sym (map-append before after)) (
      (IsDistinct-append (task_ids before) (task_ids after)).1
        (front, (back, λ a m k. apart a m (Memᴰ.tail k))))

-- The rest of the goroutines stay sound when the one node may have passed.
pub sound_still :
    (c : Config) (passed passed' : List String) (id : String)
    → ((p : String) → Memᴰ p passed → Memᴰ p passed')
    → ((p : String) → Memᴰ p passed' → Memᴰ p passed ⊎ (p ≡ id))
    → (t : Task) → t.id ≢ id
    → IsSoundTask c passed t
    → IsSoundTask c passed' t
sound_still c passed passed' id keeps only t other (new, done, phase) =
    (new, All-map _ _ (λ p d. kept p d) (parents_of c.graph t.id) done, phase_still t.phase phase)
  where
    kept :
        (p : String)
        → (c.completed p ≡ true) ⊎ Memᴰ p passed
        → (c.completed p ≡ true) ⊎ Memᴰ p passed'
    kept p d = elim d [ inl e ↦ inl e | inr m ↦ inr (keeps p m) ]

    absent : (¬ Memᴰ t.id passed) → ¬ Memᴰ t.id passed'
    absent h m = elim (only t.id m) [ inl k ↦ h k | inr e ↦ other e ]

    phase_still : (p : Phase) → IsSoundPhase c passed t.id p → IsSoundPhase c passed' t.id p
    phase_still waiting h = absent h
    phase_still running h = absent h
    phase_still (releasing ds) (m, rest, all) = (keeps t.id m, rest, all)
