-- ===== src/Schedule/Execute/Order.antt =====
-- In a run without feedback arcs, a node is launched once, after all its dependencies.
use mathlib.Core.List.Memᴰ
use oh_my_graph.Base.{
  String, ◌==◌, eq_iff, ◌≡◌, refl, sym, subst, ◌⊎◌, inl, inr, Bool, true, false, List, [], ◌∷◌,
  ◌++◌, arith, All, All-append, All-map, Memᴰ, contains_iff, IsDistinct, Bool-cases,
}
use oh_my_graph.Graph.{parents_of, dependents_of}
use oh_my_graph.Schedule.Execute.{Config, running, releasing, Task, RunState, task, settled_task}
use oh_my_graph.Schedule.Execute.Owed.{pending, is_pending, pending-replace, OwesLess, owes-less}
use oh_my_graph.Schedule.Execute.Ordered.{
  HasParentsDone, IsSoundTask, Ordered, Next, gone, goes_to, next_tasks,
}
use oh_my_graph.Schedule.Execute.Kept.{replaced, replace-Ordered}

module _ (c : Config) where
  -- The goroutine that a step is about is sound.
  pub own_sound :
      (st : RunState)
      → Ordered c st
      → (before after : List Task) (t : Task) → st.tasks ≡ before ++ t ∷ after
      → IsSoundTask c st.passed t
  own_sound st o before after t at =
      let P = IsSoundTask c st.passed in
      ((All-append P before (t ∷ after)).0 (subst (All P) at o.sound)).1.0

  -- A goroutine that goes on without its node passing.
  pub same_passed :
      (st : RunState) (o : Ordered c st) (before after : List Task) (t : Task)
      (at : st.tasks ≡ before ++ t ∷ after) (next : Next)
      → All (IsSoundTask c st.passed) (next_tasks t.id next)
      → ((p d : String) → pending (next_tasks t.id next) p d ≡ true → is_pending p d t ≡ true)
      → Ordered c (record st { tasks = before ++ (next_tasks t.id next ++ after) })
  same_passed st o before after t at next own fewer =
      replace-Ordered c st o before after t at next st.passed (λ p m. m) (λ p m. inl m) own
        (owes-less c (replaced c st o before after t at next st.passed) st
          (λ p d h. inl (
            subst (λ l. pending l p d ≡ true) (sym at)
              (pending-replace before after (next_tasks t.id next) t p d (fewer p d) h)))
          (λ p m. m))

  nothing :
      (id : String) (next : Next) (p d : String)
      → (id == p) ≡ false
      → pending (next_tasks id next) p d ≡ true
      → is_pending p d (task id running) ≡ true
  nothing id gone p d e h = absurd (cc h)
  nothing id (goes_to phase) p d e h = absurd (cc (rw e at h))

  module _
      (dependents_sound : (id : String)
        → IsDistinct (dependents_of c.graph id)
          × All (λ d. Memᴰ id (parents_of c.graph d)) (dependents_of c.graph id)) where
    pub passing-Ordered :
        (st : RunState) (o : Ordered c st) (before after : List Task) (id : String) (goes_on : Bool)
        → st.tasks ≡ before ++ task id running ∷ after
        → Ordered c (record st {
          tasks = before ++ (settled_task c id goes_on ++ after);
          passed = st.passed ++ id ∷ [];
        })
    passing-Ordered st o before after id goes_on at =
        let (fresh, done, absent) = own_sound st o before after (task id running) at in
        let passed = st.passed ++ id ∷ [] in
        let keeps : (p : String) → Memᴰ p st.passed → Memᴰ p passed =
          λ p m. Memᴰ.append_left (id ∷ []) m in
        let only : (p : String) → Memᴰ p passed → Memᴰ p st.passed ⊎ (p ≡ id) = λ p m.
          elim (Memᴰ.append_cases st.passed m) [
            | inl k ↦ inl k
            | inr k ↦ elim (Memᴰ.cases_cons k) [ inl e ↦ inr e | inr z ↦ absurd (Memᴰ.not-nil z) ]
          ] in
        let mine : Memᴰ id passed = Memᴰ.append_right st.passed (Memᴰ.head refl) in
        let done' : HasParentsDone c passed id =
          All-map _ _ (λ p d. elim d [ inl e ↦ inl e | inr m ↦ inr (keeps p m) ])
            (parents_of c.graph id) done in
        let less : (next : Next)
            → OwesLess c (replaced c st o before after (task id running) at next passed) st =
          λ next.
            owes-less c (replaced c st o before after (task id running) at next passed) st
              (λ p d h. elim (Bool-cases (id == p)) [
                | inl e ↦ inr (
                    ground (
                      arith,
                      eq_iff id p,
                      contains_iff st.passed p,
                      subst (λ i. ¬ Memᴰ i st.passed) ((eq_iff id p).0 e) absent,
                    ))
                | inr e ↦ inl (
                    subst (λ l. pending l p d ≡ true) (sym at)
                      (pending-replace before after (next_tasks id next) (task id running) p d
                        (nothing id next p d e) h))
              ])
              keeps in
        elim (Bool-cases goes_on) [
          | inl e ↦ rw e (
              replace-Ordered c st o before after (task id running) at
                (goes_to (releasing (dependents_of c.graph id))) passed keeps only
                ((fresh, done', (mine, (dependents_sound id).0, (dependents_sound id).1)), tt)
                (less (goes_to (releasing (dependents_of c.graph id)))))
          | inr e ↦ rw e (
              replace-Ordered c st o before after (task id running) at gone passed keeps only tt
                (less gone))
        ]
