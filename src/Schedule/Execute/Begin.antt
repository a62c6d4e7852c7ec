-- ===== src/Schedule/Execute/Begin.antt =====
-- The first state of a run, and the launches of its ready nodes, satisfy the invariant of a run without feedback arcs.
use mathlib.Core.List.Memᴰ
use oh_my_graph.Base.{
  ℕ, ◌≤◌, String, ◌==◌, eq_false_iff, eq_refl, ◌≡◌, refl, sym, ap, subst, ◌∙◌, inl, inr, Bool, true,
  List, [], ◌∷◌, map, arith, All, All-map, mem-All, Memᴰ, IsDistinct, Bool-cases, Option-cases,
  count_if,
}
use oh_my_graph.Base.Int.{ℤ, pos, ◌≤ℤ◌}
use oh_my_graph.Graph.{Node, parents_of, node_by_id, dependents_of, ready_given}
use oh_my_graph.Graph.Index.{IsIndexed, ids, node_by_id-mem, last_with_id-distinct}
use oh_my_graph.Graph.Ready.{picked, picked-IsDistinct, ready_given-Picks, dependents_of-Picks}
use oh_my_graph.Schedule.Arcs.{assign}
use oh_my_graph.Schedule.Execute.{Config, RunState, launch, remaining, in_degrees, idle}
use oh_my_graph.Schedule.Execute.Owed.{unmet, owes}
use oh_my_graph.Schedule.Execute.Ordered.{HasParentsDone, Ordered, task_ids}
use oh_my_graph.Schedule.Execute.Kept.{launch-Ordered}
use oh_my_graph.Schedule.Execute.Past.{
  HasParentsCompleted, Past, PastOf, launch-PastOf, Past-popped,
}

in_degrees-nonneg :
    (completed : String → Bool) (nodes : List Node) (f : String → ℤ)
    → ((x : String) → pos 0 ≤ℤ f x)
    → (x : String) → pos 0 ≤ℤ in_degrees completed nodes f x
unfolding in_degrees
in_degrees-nonneg completed [] f h x = h x
in_degrees-nonneg completed (n ∷ nodes) f h x =
    in_degrees-nonneg completed nodes (assign f n.id (pos (remaining completed n.depends_on)))
      (λ y. elim (Bool-cases (n.id == y)) [ inl e ↦ rw e (omega arith) | inr e ↦ rw e (h y) ]) x

in_degrees-other :
    (completed : String → Bool) (nodes : List Node) (f : String → ℤ) (x : String)
    → (¬ Memᴰ x (map (λ (k : Node). k.id) nodes))
    → in_degrees completed nodes f x ≡ f x
unfolding in_degrees
in_degrees-other completed [] f x out = refl
in_degrees-other completed (n ∷ nodes) f x out =
    let other = (eq_false_iff n.id x).1 (λ e. out (Memᴰ.head (sym e))) in
    in_degrees-other completed nodes (assign f n.id (pos (remaining completed n.depends_on))) x
      (λ m. out (Memᴰ.tail m))
    ∙ rw other refl

in_degrees-declared :
    (completed : String → Bool) (nodes : List Node) (f : String → ℤ) (n : Node)
    → IsDistinct (map (λ (k : Node). k.id) nodes)
    → Memᴰ n nodes
    → in_degrees completed nodes f n.id ≡ pos (remaining completed n.depends_on)
unfolding in_degrees
in_degrees-declared completed [] f n h m = absurd (Memᴰ.not-nil m)
in_degrees-declared completed (k ∷ nodes) f n (fresh, h) m = elim (Memᴰ.cases_cons m) [
  | inr later ↦
      in_degrees-declared completed nodes (assign f k.id (pos (remaining completed k.depends_on))) n
        h later
  | inl same ↦
      subst
        (λ (x : Node).
          in_degrees completed nodes (assign f k.id (pos (remaining completed k.depends_on))) x.id
          ≡ pos (remaining completed x.depends_on))
        (sym same)
        (in_degrees-other completed nodes (assign f k.id (pos (remaining completed k.depends_on)))
            k.id fresh
          ∙ rw (eq_refl k.id) refl)
]

module _ (c : Config) (indexed : IsIndexed c.graph) (distinct : IsDistinct (ids c.graph)) where
  idle_unmet :
      (d : String) (ps : List String) → count_if (owes c (idle c) d) ps ≡ remaining c.completed ps
  unfolding remaining
  idle_unmet d [] = refl
  idle_unmet d (p ∷ ps) = ground (arith, idle_unmet d ps)

  parents_of-declared : (n : Node) → Memᴰ n c.graph.nodes → parents_of c.graph n.id ≡ n.depends_on
  unfolding parents_of
  parents_of-declared n m =
      let found = indexed.last n.id ∙ last_with_id-distinct c.graph.nodes n distinct m in
      rw (found, parents_of) refl

  idle-unmet-declared :
      (n : Node) → Memᴰ n c.graph.nodes → unmet c (idle c) n.id ≡ remaining c.completed n.depends_on
  idle-unmet-declared n m =
      ap (count_if (owes c (idle c) n.id)) (parents_of-declared n m) ∙ idle_unmet n.id n.depends_on

  eq_le : (a b : ℕ) (z : ℤ) → a ≡ b → z ≡ pos b → pos a ≤ℤ z
  eq_le a b z h k = rw k (omega (arith, h))

  idle_degrees : (d : String) → pos (unmet c (idle c) d) ≤ℤ (idle c).in_degree d
  idle_degrees d = elim (Option-cases (node_by_id c.graph d)) [
    | inl e ↦
        let no_parents : parents_of c.graph d ≡ [] = unfold parents_of in rw (e, parents_of) refl in
        rw no_parents
          (in_degrees-nonneg c.completed c.graph.nodes (λ _. pos 0) (λ x. omega arith) d)
    | inr (n, e) ↦
        let (mem, same) = node_by_id-mem indexed d n e in
        subst (λ x. pos (unmet c (idle c) x) ≤ℤ (idle c).in_degree x) same
          (eq_le (unmet c (idle c) n.id) (remaining c.completed n.depends_on)
            ((idle c).in_degree n.id) (idle-unmet-declared n mem)
            (in_degrees-declared c.completed c.graph.nodes (λ _. pos 0) n distinct mem))
  ]

  pub idle-Ordered : Ordered c (idle c)
  idle-Ordered = record {
    degrees = idle_degrees;
    spent = tt;
    spent_passed = λ p m. absurd (Memᴰ.not-nil m);
    distinct = tt;
    sound = tt;
    still = λ id. refl;
  }

  pub dependents_sound :
      (id : String)
      → IsDistinct (dependents_of c.graph id)
        × All (λ d. Memᴰ id (parents_of c.graph d)) (dependents_of c.graph id)
  dependents_sound id =
      let found = dependents_of-Picks c.graph id in
      (
        picked-IsDistinct found distinct,
        mem-All _ (dependents_of c.graph id) (λ d m.
            let (n, mem, child, e) = picked found d m in
            subst (λ x. Memᴰ id (parents_of c.graph x)) (sym e)
              (subst (Memᴰ id) (sym (parents_of-declared n mem)) child)),
      )

  nothing_remains :
      (ps : List String) → All (λ p. c.completed p ≡ true) ps → remaining c.completed ps ≡ 0
  unfolding remaining
  nothing_remains [] h = refl
  nothing_remains (p ∷ ps) (e, h) = rw e (nothing_remains ps h)

  zero_le : (z : ℤ) (k : ℕ) → z ≡ pos k → k ≡ 0 → z ≤ℤ pos 0
  zero_le z k h e = rw h (omega (arith, e))

  -- A node that is ready is counted down from the start.
  ready_low :
      (id : String)
      → Memᴰ id (ready_given c.graph c.completed)
      → ((idle c).in_degree id ≤ℤ pos 0) × HasParentsCompleted c id
  ready_low id m =
      let (n, mem, (_, met), e) = picked (ready_given-Picks c.graph c.completed) id m in
      let counted = in_degrees-declared c.completed c.graph.nodes (λ _. pos 0) n distinct mem in
      subst (λ x. ((idle c).in_degree x ≤ℤ pos 0) × HasParentsCompleted c x) (sym e)
        (
          zero_le ((idle c).in_degree n.id) (remaining c.completed n.depends_on) counted
              (nothing_remains n.depends_on met),
          subst (All (λ p. c.completed p ≡ true)) (sym (parents_of-declared n mem)) met,
        )

  pub idle-PastOf : PastOf c (idle c)
  idle-PastOf = record {
    once = tt;
    queue_once = picked-IsDistinct (ready_given-Picks c.graph c.completed) distinct;
    apart = λ x m k. Memᴰ.not-nil k;
    covers = λ x m. absurd (Memᴰ.not-nil m);
    covers_passed = λ x m. absurd (Memᴰ.not-nil m);
    low = λ x m. absurd (Memᴰ.not-nil m);
    low_queue = λ x m. (ready_low x m).0;
    ready = λ x m. (ready_low x m).1;
    done = λ x m. absurd (Memᴰ.not-nil m);
  }

-- Nothing is owed to a node whose dependencies an earlier leg completed.
completed-unmet :
    (c : Config) (st : RunState) (id : String) (ps : List String)
    → All (λ p. c.completed p ≡ true) ps
    → count_if (owes c st id) ps ≤ 0
completed-unmet c st id [] h = omega arith
completed-unmet c st id (p ∷ ps) (e, h) = rw e (completed-unmet c st id ps h)

done_of_completed :
    (c : Config) (passed : List String) (id : String)
    → HasParentsCompleted c id
    → HasParentsDone c passed id
done_of_completed c passed id h = All-map _ _ (λ p e. inl e) (parents_of c.graph id) h

-- The loop over the ready nodes keeps the invariant.
pub launch_next-kept :
    (c : Config) (st : RunState) (id : String) (ids : List String)
    → ((x : String) → c.completed x ≡ true → c.settled x ≡ true)
    → st.to_launch ≡ id ∷ ids
    → Ordered c (record st { to_launch = ids })
    → PastOf c st
    → Ordered c (launch c id (record st { to_launch = ids }))
      × PastOf c (launch c id (record st { to_launch = ids }))
launch_next-kept c st id ids settles at o past =
    let h : Past c st.launched (id ∷ ids) st.passed (task_ids st.tasks) st.in_degree =
      subst (λ q. Past c st.launched q st.passed (task_ids st.tasks) st.in_degree) at past in
    let new = h.apart id (Memᴰ.head refl) in
    let low = h.low_queue id (Memᴰ.head refl) in
    let ready = h.ready id (Memᴰ.head refl) in
    let popped = record st { to_launch = ids } in
    (
      launch-Ordered c id popped settles o low (λ m. new (h.covers id m))
          (λ m. new (h.covers_passed id m))
          (completed-unmet c popped id (parents_of c.graph id) ready),
      launch-PastOf c id popped
          (Past-popped c st.launched ids st.passed (task_ids st.tasks) st.in_degree id h) new
          h.queue_once.0 low (done_of_completed c st.passed id ready),
    )
