-- ===== src/Schedule/Execute/Owed.antt =====
-- Which dependencies a node still waits for, as the state of a run shows it.
use oh_my_graph.Base.{
  ℕ, ◌≤◌, ◌<◌, String, ◌==◌, ◌≡◌, refl, sym, ◌⊎◌, inl, inr, Bool, true, false, not, ◌&&◌, ◌||◌,
  List, [], ◌∷◌, ◌++◌, map, arith, All, All-map, eq_false_iff, Memᴰ, any, contains, contains_iff,
  count_if, count_if_mono, count_if_strict, Bool-cases,
}
use oh_my_graph.Graph.{parents_of}
use oh_my_graph.Schedule.Execute.{Config, Phase, waiting, running, releasing, Task, RunState}

-- A goroutine of `p` that is still to release `d`.
abbrev pub releases : String → Phase → Bool
releases d waiting = false
releases d running = false
releases d (releasing ds) = contains ds d

abbrev pub is_pending : String → String → Task → Bool
is_pending p d t = t.id == p && releases d t.phase

abbrev pub pending : List Task → String → String → Bool
pending tasks p d = any (is_pending p d) tasks

-- `d` waits for `p`: it is not completed, and has not passed or has not yet told `d`.
abbrev pub owes : Config → RunState → String → String → Bool
owes c st d p = not (c.completed p) && (not (contains st.passed p) || pending st.tasks p d)

abbrev pub unmet : Config → RunState → String → ℕ
unmet c st d = count_if (owes c st d) (parents_of c.graph d)

-- Nothing is owed in the one state that is not in the other.
abbrev pub OwesLess : Config → RunState → RunState → Type 0
OwesLess c st' st = (d p : String) → owes c st' d p ≡ true → owes c st d p ≡ true

pub unmet_mono :
    (c : Config) (st' st : RunState)
    → OwesLess c st' st
    → (d : String) → unmet c st' d ≤ unmet c st d
unmet_mono c st' st less d =
    count_if_mono (owes c st d) (owes c st' d) (less d) (parents_of c.graph d)

pub unmet-strict :
    (c : Config) (st' st : RunState)
    → OwesLess c st' st
    → (d p : String) → Memᴰ p (parents_of c.graph d)
    → owes c st d p ≡ true
    → owes c st' d p ≡ false
    → unmet c st' d < unmet c st d
unmet-strict c st' st less d p m before after =
    count_if_strict (owes c st d) (owes c st' d) (less d) (parents_of c.graph d) p m before after

none_counted :
    (test : String → Bool) (xs : List String) → count_if test xs ≤ 0 → All (λ x. test x ≡ false) xs
none_counted test [] h = tt
none_counted test (x ∷ xs) h = elim (Bool-cases (test x)) [
  | inl e ↦ absurd (omega (arith, rw e at h))
  | inr e ↦ (e, none_counted test xs (rw e at h))
]

-- Nothing unmet: every dependency is completed or has passed.
pub unmet-none :
    (c : Config) (st : RunState) (d : String)
    → unmet c st d ≤ 0
    → All (λ p. (c.completed p ≡ true) ⊎ Memᴰ p st.passed) (parents_of c.graph d)
unmet-none c st d h =
    All-map _ _ (λ p free. met p free) (parents_of c.graph d)
      (none_counted (owes c st d) (parents_of c.graph d) h)
  where
    met : (p : String) → owes c st d p ≡ false → (c.completed p ≡ true) ⊎ Memᴰ p st.passed
    met p free = elim (Bool-cases (c.completed p)) [
      | inl e ↦ inl e
      | inr e ↦ elim (Bool-cases (contains st.passed p)) [
        | inl k ↦ inr ((contains_iff st.passed p).0 k)
        | inr k ↦ absurd (cc (rw (e, k) at free))
      ]
    ]

pub pending-append :
    (xs ys : List Task) (p d : String) → pending (xs ++ ys) p d ≡ (pending xs p d || pending ys p d)
pending-append [] ys p d = refl
pending-append (t ∷ xs) ys p d = ground (arith, pending-append xs ys p d)

-- One task gives way to others that release no more than it did.
pub pending-replace :
    (before after own : List Task) (t : Task) (p d : String)
    → (pending own p d ≡ true → is_pending p d t ≡ true)
    → pending (before ++ (own ++ after)) p d ≡ true
    → pending (before ++ t ∷ after) p d ≡ true
pending-replace before after own t p d less h = ground (
  arith,
  less,
  pending-append before (own ++ after) p d,
  pending-append own after p d,
  pending-append before (t ∷ after) p d,
)

-- A goroutine of another node releases nothing for `p`.
pub pending-absent :
    (tasks : List Task) (p d : String)
    → (¬ Memᴰ p (map (λ (t : Task). t.id) tasks))
    → pending tasks p d ≡ false
pending-absent [] p d absent = refl
pending-absent (t ∷ tasks) p d absent =
    let other = (eq_false_iff t.id p).1 (λ e. absent (Memᴰ.head (sym e))) in
    rw (other, pending-absent tasks p d (λ m. absent (Memᴰ.tail m))) refl

-- What is owed shrinks with what is pending, but for a node that had not passed.
pub owes-less :
    (c : Config) (st' st : RunState)
    → ((p d : String)
        → pending st'.tasks p d ≡ true
        → (pending st.tasks p d ≡ true) ⊎ (contains st.passed p ≡ false))
    → ((p : String) → Memᴰ p st.passed → Memᴰ p st'.passed)
    → OwesLess c st' st
owes-less c st' st less keeps d p h = elim (Bool-cases (c.completed p)) [
  | inl e ↦ absurd (cc (rw e at h))
  | inr e ↦ elim (Bool-cases (contains st.passed p)) [
    | inr k ↦ rw (e, k) refl
    | inl k ↦
        let later = (contains_iff st'.passed p).1 (keeps p ((contains_iff st.passed p).0 k)) in
        elim (less p d (rw (e, later) at h)) [
          | inl now ↦ rw (e, k, now) refl
          | inr new ↦ absurd (cc (k, new))
        ]
  ]
]
