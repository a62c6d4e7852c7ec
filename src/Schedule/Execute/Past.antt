-- ===== src/Schedule/Execute/Past.antt =====
-- What a run without feedback arcs keeps of the nodes that it has launched and is still to launch.
use mathlib.Core.List.Memᴰ
use oh_my_graph.Base.{
  String, ◌≡◌, refl, sym, subst, ◌⊎◌, inl, inr, true, not, ◌&&◌, List, [], ◌∷◌, ◌++◌, All, All-map,
  Memᴰ, IsDistinct, IsDistinct-append, Bool-cases,
}
use oh_my_graph.Base.Int.{ℤ, pos, ◌≤ℤ◌}
use oh_my_graph.Graph.{parents_of}
use oh_my_graph.Schedule.Execute.{Config, waiting, Task, RunState, task, launch}
use oh_my_graph.Schedule.Execute.Ordered.{
  HasParentsDone, task_ids, map-append, Next, gone, goes_to, next_tasks,
}

-- Every dependency of the node was completed in an earlier leg.
abbrev pub HasParentsCompleted : Config → String → Type 0
HasParentsCompleted c id = All (λ p. c.completed p ≡ true) (parents_of c.graph id)

-- No node is launched twice, none is both launched and still to be launched, and every goroutine and
-- every passed node was launched. The counters of all these nodes are down, and their dependencies
-- done.
pub record Past (c : Config) (launched queue passed tasks : List String) (degree : String → ℤ)
    : Type 0 where
  pub once : IsDistinct launched
  pub queue_once : IsDistinct queue
  pub apart : (x : String) → Memᴰ x queue → ¬ Memᴰ x launched
  pub covers : (x : String) → Memᴰ x tasks → Memᴰ x launched
  pub covers_passed : (x : String) → Memᴰ x passed → Memᴰ x launched
  pub low : (x : String) → Memᴰ x launched → degree x ≤ℤ pos 0
  pub low_queue : (x : String) → Memᴰ x queue → degree x ≤ℤ pos 0
  pub ready : (x : String) → Memᴰ x queue → HasParentsCompleted c x
  pub done : (x : String) → Memᴰ x launched → HasParentsDone c passed x

abbrev pub PastOf : Config → RunState → Type 0
PastOf c st = Past c st.launched st.to_launch st.passed (task_ids st.tasks) st.in_degree

module _ (c : Config) (launched queue passed tasks : List String) (degree : String → ℤ) where
  pub Past-kept :
      (passed' tasks' : List String) (degree' : String → ℤ)
      → Past c launched queue passed tasks degree
      → ((x : String) → Memᴰ x tasks' → Memᴰ x tasks)
      → ((x : String) → Memᴰ x passed → Memᴰ x passed')
      → ((x : String) → Memᴰ x passed' → Memᴰ x launched)
      → ((x : String) → degree x ≤ℤ pos 0 → degree' x ≤ℤ pos 0)
      → Past c launched queue passed' tasks' degree'
  Past-kept passed' tasks' degree' h fewer keeps covered lowers = record {
    once = h.once;
    queue_once = h.queue_once;
    apart = h.apart;
    covers = λ x m. h.covers x (fewer x m);
    covers_passed = covered;
    low = λ x m. lowers x (h.low x m);
    low_queue = λ x m. lowers x (h.low_queue x m);
    ready = h.ready;
    done = λ x m.
        All-map _ _ (λ p d. elim d [ inl e ↦ inl e | inr k ↦ inr (keeps p k) ])
          (parents_of c.graph x) (h.done x m);
  }

  snoc_cases : (xs : List String) (id x : String) → Memᴰ x (xs ++ id ∷ []) → Memᴰ x xs ⊎ (x ≡ id)
  snoc_cases xs id x m = elim (Memᴰ.append_cases xs m) [
    | inl k ↦ inl k
    | inr k ↦ elim (Memᴰ.cases_cons k) [ inl e ↦ inr e | inr z ↦ absurd (Memᴰ.not-nil z) ]
  ]

  pub Past-launched :
      (id : String)
      → Past c launched queue passed tasks degree
      → (¬ Memᴰ id launched)
      → (¬ Memᴰ id queue)
      → degree id ≤ℤ pos 0
      → HasParentsDone c passed id
      → Past c (launched ++ id ∷ []) queue passed (tasks ++ id ∷ []) degree
  Past-launched id h new unqueued low done =
      let front = λ (x : String) (m : Memᴰ x launched). Memᴰ.append_left (id ∷ []) m in
      let last = Memᴰ.append_right launched (Memᴰ.head refl) in
      record {
        once = (IsDistinct-append launched (id ∷ [])).1 (
          h.once,
          (
            (λ m. Memᴰ.not-nil m, tt),
            λ a m k. elim (Memᴰ.cases_cons k) [
              | inl e ↦ new (Memᴰ.cast (sym e) m)
              | inr z ↦ Memᴰ.not-nil z
            ],
          ),
        );
        queue_once = h.queue_once;
        apart = λ x m k. elim (snoc_cases launched id x k) [
          | inl old ↦ h.apart x m old
          | inr e ↦ unqueued (Memᴰ.cast (sym e) m)
        ];
        covers = λ x m. elim (snoc_cases tasks id x m) [
          | inl old ↦ front x (h.covers x old)
          | inr e ↦ subst (λ y. Memᴰ y (launched ++ id ∷ [])) (sym e) last
        ];
        covers_passed = λ x m. front x (h.covers_passed x m);
        low = λ x m. elim (snoc_cases launched id x m) [
          | inl old ↦ h.low x old
          | inr e ↦ subst (λ y. degree y ≤ℤ pos 0) (sym e) low
        ];
        low_queue = h.low_queue;
        ready = h.ready;
        done = λ x m. elim (snoc_cases launched id x m) [
          | inl old ↦ h.done x old
          | inr e ↦ subst (HasParentsDone c passed) (sym e) done
        ];
      }

  pub Past-popped :
      (id : String)
      → Past c launched (id ∷ queue) passed tasks degree
      → Past c launched queue passed tasks degree
  Past-popped id h = record {
    once = h.once;
    queue_once = h.queue_once.1;
    apart = λ x m. h.apart x (Memᴰ.tail m);
    covers = h.covers;
    covers_passed = h.covers_passed;
    low = h.low;
    low_queue = λ x m. h.low_queue x (Memᴰ.tail m);
    ready = λ x m. h.ready x (Memᴰ.tail m);
    done = h.done;
  }

pub launch-PastOf :
    (c : Config) (id : String) (st : RunState)
    → PastOf c st
    → (¬ Memᴰ id st.launched)
    → (¬ Memᴰ id st.to_launch)
    → st.in_degree id ≤ℤ pos 0
    → HasParentsDone c st.passed id
    → PastOf c (launch c id st)
unfolding launch
launch-PastOf c id st h new unqueued low done =
    elim (Bool-cases (c.settled id && not (st.rearmed id))) [
      | inl e ↦ rw e h
      | inr e ↦ rw e (
          subst (λ ids. Past c (st.launched ++ id ∷ []) st.to_launch st.passed ids st.in_degree)
            (sym (map-append st.tasks (task id waiting ∷ [])))
            (Past-launched c st.launched st.to_launch st.passed (task_ids st.tasks) st.in_degree id
              h new unqueued low done))
    ]

-- The goroutines behind a step are those in front of it, less the one that ends.
pub replaced-ids :
    (before after : List Task) (t : Task) (next : Next) (x : String)
    → Memᴰ x (task_ids (before ++ (next_tasks t.id next ++ after)))
    → Memᴰ x (task_ids (before ++ t ∷ after))
replaced-ids before after t (goes_to phase) x m =
    subst (Memᴰ x) (sym (map-append before (t ∷ after)))
      (subst (Memᴰ x) (map-append before (task t.id phase ∷ after)) m)
replaced-ids before after t gone x m =
    subst (Memᴰ x) (sym (map-append before (t ∷ after)))
      (elim (Memᴰ.append_cases (task_ids before) (subst (Memᴰ x) (map-append before after) m)) [
        | inl k ↦ Memᴰ.append_left (t.id ∷ task_ids after) k
        | inr k ↦ Memᴰ.append_right (task_ids before) (Memᴰ.tail k)
      ])

module _ (c : Config) (st : RunState) (h : PastOf c st) (before after : List Task) (t : Task)
    (at : st.tasks ≡ before ++ t ∷ after) (next : Next) where
  fewer :
      (x : String)
      → Memᴰ x (task_ids (before ++ (next_tasks t.id next ++ after)))
      → Memᴰ x (task_ids st.tasks)
  fewer x m = subst (λ l. Memᴰ x (task_ids l)) (sym at) (replaced-ids before after t next x m)

  pub same-PastOf : PastOf c (record st { tasks = before ++ (next_tasks t.id next ++ after) })
  same-PastOf =
      Past-kept c st.launched st.to_launch st.passed (task_ids st.tasks) st.in_degree st.passed _
        st.in_degree h fewer (λ _ m. m) h.covers_passed (λ _ low. low)

  pub passed-PastOf : PastOf c (record st {
    tasks = before ++ (next_tasks t.id next ++ after);
    passed = st.passed ++ t.id ∷ [];
  })
  passed-PastOf =
      let own : Memᴰ t.id (task_ids st.tasks) =
        subst (λ l. Memᴰ t.id (task_ids l)) (sym at)
          (subst (Memᴰ t.id) (sym (map-append before (t ∷ after)))
            (Memᴰ.append_right (task_ids before) (Memᴰ.head refl))) in
      Past-kept c st.launched st.to_launch st.passed (task_ids st.tasks) st.in_degree
        (st.passed ++ t.id ∷ []) _ st.in_degree h fewer (λ _ m. Memᴰ.append_left (t.id ∷ []) m)
        (λ x m. elim (Memᴰ.append_cases st.passed m) [
          | inl k ↦ h.covers_passed x k
          | inr k ↦ elim (Memᴰ.cases_cons k) [
            | inl e ↦ subst (λ y. Memᴰ y st.launched) (sym e) (h.covers t.id own)
            | inr z ↦ absurd (Memᴰ.not-nil z)
          ]
        ])
        (λ _ low. low)
