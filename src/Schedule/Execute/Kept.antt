-- ===== src/Schedule/Execute/Kept.antt =====
-- The invariant of a run without feedback arcs is kept when one goroutine goes on or ends, when a
-- counter goes down, and by a launch.
use mathlib.Core.List.Memᴰ
use oh_my_graph.Base.{
  ℕ, ◌≤◌, ◌<◌, String, ◌==◌, eq_iff, ◌≡◌, sym, subst, ◌⊎◌, inl, inr, true, false, not, ◌&&◌, List,
  [], ◌∷◌, ◌++◌, arith, All, All-append, All-map, Memᴰ, IsDistinct, IsDistinct-append, Bool-cases,
}
use oh_my_graph.Base.Int.{ℤ, pos, ◌≤ℤ◌, ◌-ℤ◌}
use oh_my_graph.Schedule.Arcs.{assign}
use oh_my_graph.Schedule.Execute.{Config, waiting, Task, RunState, task, launch}
use oh_my_graph.Schedule.Execute.Owed.{
  unmet, pending, pending-append, OwesLess, owes-less, unmet_mono, unmet-none,
}
use oh_my_graph.Schedule.Execute.Ordered.{
  IsSoundTask, Ordered, task_ids, Next, gone, goes_to, next_tasks, middle_apart, replace-IsDistinct,
  sound_still, map-append,
}

≤ℤ-trans : (a b : ℕ) (z : ℤ) → a ≤ b → pos b ≤ℤ z → pos a ≤ℤ z
≤ℤ-trans a b z h k = ground arith

module _ (c : Config) (st : RunState) (o : Ordered c st) (before after : List Task) (t : Task)
    (at : st.tasks ≡ before ++ t ∷ after) (next : Next) where
  abbrev pub replaced : List String → RunState
  replaced passed = record st { tasks = before ++ (next_tasks t.id next ++ after); passed = passed }

  pub replace-Ordered :
      (passed : List String)
      → ((p : String) → Memᴰ p st.passed → Memᴰ p passed)
      → ((p : String) → Memᴰ p passed → Memᴰ p st.passed ⊎ (p ≡ t.id))
      → All (IsSoundTask c passed) (next_tasks t.id next)
      → OwesLess c (replaced passed) st
      → Ordered c (replaced passed)
  replace-Ordered passed keeps only own less =
      let S = λ (u : Task). st.in_degree u.id ≤ℤ pos 0 in
      let (front, (here, back)) = (All-append S before (t ∷ after)).0 (subst (All S) at o.spent) in
      let P = IsSoundTask c st.passed in
      let (sound_front, (_, sound_back)) =
        (All-append P before (t ∷ after)).0 (subst (All P) at o.sound) in
      let apart = subst (λ l. IsDistinct (task_ids l)) at o.distinct in
      let (not_front, not_back) = middle_apart before after t apart in
      let Q = IsSoundTask c passed in
      record {
        degrees = λ d.
            ≤ℤ-trans _ _ (st.in_degree d) (unmet_mono c (replaced passed) st less d) (o.degrees d);
        spent =
            (All-append S before (next_tasks t.id next ++ after)).1
              (front, (All-append S (next_tasks t.id next) after).1 (own_spent next here, back));
        spent_passed = λ p m. elim (only p m) [
          | inl k ↦ o.spent_passed p k
          | inr e ↦ subst (λ i. st.in_degree i ≤ℤ pos 0) (sym e) here
        ];
        distinct = replace-IsDistinct before after t next apart;
        sound = (All-append Q before (next_tasks t.id next ++ after)).1 (
          others before not_front sound_front,
          (All-append Q (next_tasks t.id next) after).1 (own, others after not_back sound_back),
        );
        still = o.still;
      }
    where
      own_spent :
          (n : Next)
          → st.in_degree t.id ≤ℤ pos 0
          → All (λ (u : Task). st.in_degree u.id ≤ℤ pos 0) (next_tasks t.id n)
      own_spent gone h = tt
      own_spent (goes_to phase) h = (h, tt)

      others :
          (tasks : List Task)
          → (¬ Memᴰ t.id (task_ids tasks))
          → All (IsSoundTask c st.passed) tasks
          → All (IsSoundTask c passed) tasks
      others [] absent h = tt
      others (u ∷ tasks) absent (h, rest) = (
        sound_still c st.passed passed t.id keeps only u (λ e. absent (Memᴰ.head (sym e))) h,
        others tasks (λ m. absent (Memᴰ.tail m)) rest,
      )

-- A launch of a node that is not settled keeps the invariant, if the node is counted down, has no
-- goroutine, has not passed, and owes nothing.
pub launch-Ordered :
    (c : Config) (id : String) (st : RunState)
    → ((x : String) → c.completed x ≡ true → c.settled x ≡ true)
    → Ordered c st
    → st.in_degree id ≤ℤ pos 0
    → (¬ Memᴰ id (task_ids st.tasks))
    → (¬ Memᴰ id st.passed)
    → unmet c st id ≤ 0
    → Ordered c (launch c id st)
unfolding launch
launch-Ordered c id st settles o low no_task not_passed ready =
    elim (Bool-cases (c.settled id && not (st.rearmed id))) [
      | inl e ↦ rw e o
      | inr e ↦ rw e (launched e)
    ]
  where
    launched :
        (c.settled id && not (st.rearmed id)) ≡ false
        → Ordered c (record st {
          tasks = st.tasks ++ (task id waiting ∷ []);
          launched = st.launched ++ id ∷ [];
        })
    launched e =
        let st' = record st {
          tasks = st.tasks ++ (task id waiting ∷ []);
          launched = st.launched ++ id ∷ [];
        } in
        let new : c.settled id ≡ false = ground (arith, rw (o.still id) at e) in
        let fresh : c.completed id ≡ false = elim (Bool-cases (c.completed id)) [
          | inl done ↦ absurd (cc (settles id done, new))
          | inr fresh ↦ fresh
        ] in
        let same : (p d : String)
            → pending (st.tasks ++ (task id waiting ∷ [])) p d ≡ true
            → pending st.tasks p d ≡ true =
          λ p d h. ground (arith, pending-append st.tasks (task id waiting ∷ []) p d) in
        let less = owes-less c st' st (λ p d h. inl (same p d h)) (λ p m. m) in
        let S = λ (u : Task). st.in_degree u.id ≤ℤ pos 0 in
        record {
          degrees = λ d. ≤ℤ-trans _ _ (st.in_degree d) (unmet_mono c st' st less d) (o.degrees d);
          spent = (All-append S st.tasks (task id waiting ∷ [])).1 (o.spent, (low, tt));
          spent_passed = o.spent_passed;
          distinct = subst IsDistinct (sym (map-append st.tasks (task id waiting ∷ []))) (
              (IsDistinct-append (task_ids st.tasks) (id ∷ [])).1 (
                o.distinct,
                (
                  (λ m. Memᴰ.not-nil m, tt),
                  λ a m k. elim (Memᴰ.cases_cons k) [
                    | inl same_id ↦ no_task (Memᴰ.cast (sym same_id) m)
                    | inr none_left ↦ Memᴰ.not-nil none_left
                  ],
                ),
              ));
          sound =
              (All-append (IsSoundTask c st.passed) st.tasks (task id waiting ∷ [])).1
                (o.sound, ((fresh, unmet-none c st id ready, not_passed), tt));
          still = o.still;
        }

-- A counter goes down by one.
abbrev pub lowered : String → RunState → RunState
lowered d st = record st { in_degree = assign st.in_degree d (st.in_degree d -ℤ pos 1) }

lower_le : (a b : ℕ) (z : ℤ) → a < b → pos b ≤ℤ z → pos a ≤ℤ (z -ℤ pos 1)
lower_le a b z h k = ground arith

lower_spent : (z : ℤ) → z ≤ℤ pos 0 → (z -ℤ pos 1) ≤ℤ pos 0
lower_spent z h = ground arith

pub lowered_low :
    (d : String) (st : RunState) (x : String)
    → st.in_degree x ≤ℤ pos 0
    → (lowered d st).in_degree x ≤ℤ pos 0
lowered_low d st x h = elim (Bool-cases (d == x)) [
  | inl e ↦ rw e (
      lower_spent (st.in_degree d)
        (subst (λ y. st.in_degree y ≤ℤ pos 0) (sym ((eq_iff d x).0 e)) h))
  | inr e ↦ rw e h
]

pub lowered-Ordered :
    (c : Config) (d : String) (st : RunState) (before : ℕ)
    → Ordered c st
    → unmet c st d < before
    → pos before ≤ℤ st.in_degree d
    → Ordered c (lowered d st)
lowered-Ordered c d st before o less enough = record {
  degrees = λ x. elim (Bool-cases (d == x)) [
    | inl e ↦
        let same : d ≡ x = (eq_iff d x).0 e in
        rw e (
          subst (λ y. pos (unmet c st y) ≤ℤ (st.in_degree d -ℤ pos 1)) same
            (lower_le (unmet c st d) before (st.in_degree d) less enough))
    | inr e ↦ rw e (o.degrees x)
  ];
  spent = All-map _ _ (λ t h. lowered_low d st t.id h) st.tasks o.spent;
  spent_passed = λ p m. lowered_low d st p (o.spent_passed p m);
  distinct = o.distinct;
  sound = o.sound;
  still = o.still;
}
