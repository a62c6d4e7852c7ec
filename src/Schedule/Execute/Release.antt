-- ===== src/Schedule/Execute/Release.antt =====
-- A goroutine that releases a dependent keeps the invariant of a run without feedback arcs.
use mathlib.Core.List.Memᴰ
use oh_my_graph.Base.{
  ℕ, ◌≤◌, ◌<◌, String, eq_refl, ◌≡◌, refl, sym, subst, inl, inr, true, false, List, [], ◌∷◌, ◌++◌,
  arith, All, Memᴰ, contains, contains_iff, IsDistinct, Bool-cases,
}
use oh_my_graph.Base.Int.{ℤ, pos, ◌≤ℤ◌, ◌-ℤ◌, eqb_ℤ}
use oh_my_graph.Schedule.Execute.{Config, releasing, Task, RunState, task, release}
use oh_my_graph.Schedule.Execute.Owed.{
  unmet, owes, pending, is_pending, pending-append, pending-replace, pending-absent, OwesLess,
  owes-less, unmet-strict, unmet-none,
}
use oh_my_graph.Schedule.Execute.Ordered.{Ordered, task_ids, goes_to, middle_apart}
use oh_my_graph.Schedule.Execute.Kept.{launch-Ordered}
use oh_my_graph.Schedule.Execute.Kept.{lowered, lowered_low, lowered-Ordered}
use oh_my_graph.Schedule.Execute.Past.{PastOf, Past-kept, launch-PastOf, same-PastOf}
use oh_my_graph.Schedule.Execute.Order.{own_sound, same_passed}

module _ (c : Config) (st : RunState) (o : Ordered c st) (before after : List Task) (id d : String)
    (ds : List String) (at : st.tasks ≡ before ++ task id (releasing (d ∷ ds)) ∷ after) where
  -- The state behind the release, before the counter goes down.
  abbrev told : RunState
  told = record st { tasks = before ++ task id (releasing ds) ∷ after }

  fewer :
      (p x : String)
      → pending (task id (releasing ds) ∷ []) p x ≡ true
      → is_pending p x (task id (releasing (d ∷ ds))) ≡ true
  fewer p x h = ground (arith, h)

  told-Ordered : Ordered c told
  told-Ordered =
      let (fresh, done, (mine, (_, rest), (_, all))) =
        own_sound c st o before after (task id (releasing (d ∷ ds))) at in
      same_passed c st o before after (task id (releasing (d ∷ ds))) at (goes_to (releasing ds))
        ((fresh, done, (mine, rest, all)), tt) fewer

  told-OwesLess : OwesLess c told st
  told-OwesLess =
      owes-less c told st
        (λ p x h. inl (
          subst (λ l. pending l p x ≡ true) (sym at)
            (pending-replace before after (task id (releasing ds) ∷ [])
              (task id (releasing (d ∷ ds))) p x (fewer p x) h)))
        (λ p m. m)

  owed_before : owes c st d id ≡ true
  owed_before =
      let (fresh, _, _) = own_sound c st o before after (task id (releasing (d ∷ ds))) at in
      let own : pending st.tasks id d ≡ true =
        subst (λ l. pending l id d ≡ true) (sym at)
          (ground (
            arith,
            eq_refl id,
            eq_refl d,
            pending-append before (task id (releasing (d ∷ ds)) ∷ after) id d,
          )) in
      ground (arith, fresh, own)

  owed_after : owes c told d id ≡ false
  owed_after =
      let (_, _, (mine, (once, _), _)) =
        own_sound c st o before after (task id (releasing (d ∷ ds))) at in
      let (not_front, not_back) =
        middle_apart before after (task id (releasing (d ∷ ds)))
          (subst (λ l. IsDistinct (task_ids l)) at o.distinct) in
      let passed = (contains_iff st.passed id).1 mine in
      let other : contains ds d ≡ false = ground (arith, contains_iff ds d) in
      ground (
        arith,
        passed,
        other,
        pending-append before (task id (releasing ds) ∷ after) id d,
        pending-absent before id d not_front,
        pending-absent after id d not_back,
      )

  told-unmet : unmet c told d < unmet c st d
  told-unmet =
      let (_, _, (_, _, (child, _))) =
        own_sound c st o before after (task id (releasing (d ∷ ds))) at in
      unmet-strict c told st told-OwesLess d id child owed_before owed_after

  lowered-told : Ordered c (lowered d told)
  lowered-told = lowered-Ordered c d told (unmet c st d) told-Ordered told-unmet (o.degrees d)

  -- A counter that comes down to zero was at one, so the node had no goroutine before.
  not_spent : (z : ℤ) → eqb_ℤ (z -ℤ pos 1) (pos 0) ≡ true → ¬ (z ≤ℤ pos 0)
  not_spent z h low = ground (arith, low)

  no_task :
      (tasks : List Task)
      → All (λ (t : Task). st.in_degree t.id ≤ℤ pos 0) tasks
      → (¬ (st.in_degree d ≤ℤ pos 0))
      → ¬ Memᴰ d (task_ids tasks)
  no_task [] h fresh m = Memᴰ.not-nil m
  no_task (t ∷ tasks) (here, rest) fresh m = elim (Memᴰ.cases_cons m) [
    | inl e ↦ fresh (subst (λ x. st.in_degree x ≤ℤ pos 0) (sym e) here)
    | inr later ↦ no_task tasks rest fresh later
  ]

  zero_low : (z : ℤ) → eqb_ℤ z (pos 0) ≡ true → z ≤ℤ pos 0
  zero_low z h = ground arith

  none_left : (k : ℕ) (z : ℤ) → eqb_ℤ z (pos 0) ≡ true → pos k ≤ℤ z → k ≤ 0
  none_left k z h low = ground arith

  pub release-Ordered :
      ((x : String) → c.completed x ≡ true → c.settled x ≡ true) → Ordered c (release c d told)
  unfolding release
  release-Ordered settles = elim (Bool-cases (eqb_ℤ (st.in_degree d -ℤ pos 1) (pos 0))) [
    | inr e ↦ rw e lowered-told
    | inl e ↦
        let fresh = not_spent (st.in_degree d) e in
        let at_zero : (lowered d told).in_degree d ≡ st.in_degree d -ℤ pos 1 =
          rw (eq_refl d) refl in
        rw e (
          launch-Ordered c d (lowered d told) settles lowered-told
            (subst (λ z. z ≤ℤ pos 0) (sym at_zero) (zero_low (st.in_degree d -ℤ pos 1) e))
            (no_task told.tasks told-Ordered.spent fresh) (λ m. fresh (o.spent_passed d m))
            (none_left (unmet c (lowered d told) d) (st.in_degree d -ℤ pos 1) e (
              subst (λ z. pos (unmet c (lowered d told) d) ≤ℤ z) at_zero (lowered-told.degrees d))))
  ]

  pub release-PastOf : PastOf c st → PastOf c (release c d told)
  unfolding release
  release-PastOf past =
      let same =
        same-PastOf c st past before after (task id (releasing (d ∷ ds))) at
          (goes_to (releasing ds)) in
      let down : PastOf c (lowered d told) =
        Past-kept c st.launched st.to_launch st.passed (task_ids told.tasks) st.in_degree st.passed
          (task_ids told.tasks) (lowered d told).in_degree same (λ _ m. m) (λ _ m. m)
          same.covers_passed (lowered_low d told) in
      elim (Bool-cases (eqb_ℤ (st.in_degree d -ℤ pos 1) (pos 0))) [
        | inr e ↦ rw e down
        | inl e ↦
            let fresh = not_spent (st.in_degree d) e in
            let at_zero : (lowered d told).in_degree d ≡ st.in_degree d -ℤ pos 1 =
              rw (eq_refl d) refl in
            let none_owed = none_left (unmet c (lowered d told) d) (st.in_degree d -ℤ pos 1) e (
              subst (λ z. pos (unmet c (lowered d told) d) ≤ℤ z) at_zero
                (lowered-told.degrees d)) in
            rw e (
              launch-PastOf c d (lowered d told) down (λ m. fresh (past.low d m))
                (λ m. fresh (past.low_queue d m))
                (subst (λ z. z ≤ℤ pos 0) (sym at_zero) (zero_low (st.in_degree d -ℤ pos 1) e))
                (unmet-none c (lowered d told) d none_owed))
      ]
