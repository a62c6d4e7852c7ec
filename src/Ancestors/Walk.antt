-- ===== src/Ancestors/Walk.antt =====
-- What one walk of `ancestorSet` adds to the set: proper ancestors, and with each its parents.
use mathlib.Core.List.Memᴰ
use oh_my_graph.Base.{
  ℕ, zero, suc, String, eq_iff, ◌≡◌, refl, sym, subst, inl, inr, true, false, List, [], ◌∷◌, Option,
  none, some, arith, Bool-cases, Option-cases, Memᴰ,
}
use oh_my_graph.Graph.{Graph, parents_of}
use oh_my_graph.Graph.Paths.{Above, parent, Above-trans}
use oh_my_graph.Ancestors.{IdSet, mark, climb, walk}

-- From `set` to `set'`, walking up from `id` over the parents `ps`.
pub record Walked (g : Graph) (id : String) (ps : List String) (set set' : IdSet) : Type 0 where
  pub grows : (x : String) → set x ≡ true → set' x ≡ true
  pub closed :
      (x p : String) → set' x ≡ true → set x ≡ false → Memᴰ p (parents_of g x) → set' p ≡ true
  pub above : (x : String) → set' x ≡ true → set x ≡ false → Above g id x
  pub all_in : (p : String) → Memᴰ p ps → set' p ≡ true

abbrev GoWalks : Graph → (String → IdSet → Option IdSet) → Type 0
GoWalks g go =
    (p : String) (set set' : IdSet) → go p set ≡ some set' → Walked g p (parents_of g p) set set'

-- How `climb` treats the first parent.
pub data ClimbStep (go : String → IdSet → Option IdSet) (p : String) (ps : List String)
    (set : IdSet) (r : Option IdSet) : Type 0 where
  seen : set p ≡ true → climb go ps set ≡ r → ClimbStep go p ps set r
  starves : set p ≡ false → go p (mark set p) ≡ none → r ≡ none → ClimbStep go p ps set r
  enters :
      (s1 : IdSet)
      → set p ≡ false
      → go p (mark set p) ≡ some s1
      → climb go ps s1 ≡ r
      → ClimbStep go p ps set r

pub climb_step :
    (go : String → IdSet → Option IdSet) (p : String) (ps : List String) (set : IdSet)
    (r : Option IdSet)
    → climb go (p ∷ ps) set ≡ r
    → ClimbStep go p ps set r
unfolding climb
climb_step go p ps set r h = elim (Bool-cases (set p)) [
  | inl e ↦ seen e (rw (e, climb) at h)
  | inr e ↦ elim (Option-cases (go p (mark set p))) [
    | inl v ↦ starves e v (sym (rw (e, v, climb) at h))
    | inr (s1, v) ↦ enters s1 e v (rw (e, v, climb) at h)
  ]
]

module _ (g : Graph) (id p : String) (ps : List String) (set : IdSet)
    (is_parent : Memᴰ p (parents_of g id)) where
  Walked-seen :
      {set' : IdSet} → set p ≡ true → Walked g id ps set set' → Walked g id (p ∷ ps) set set'
  Walked-seen {set'} e w = record {
    grows = w.grows;
    closed = w.closed;
    above = w.above;
    all_in = λ q m. elim (Memᴰ.cases_cons m) [
      | inl same ↦ rw same (w.grows p e)
      | inr later ↦ w.all_in q later
    ];
  }

  marked_eq : (x : String) → mark set p x ≡ true → set x ≡ false → x ≡ p
  marked_eq x m f = ground (arith, eq_iff p x)

  Walked-enters :
      {s1 set' : IdSet}
      → Walked g p (parents_of g p) (mark set p) s1
      → Walked g id ps s1 set'
      → Walked g id (p ∷ ps) set set'
  Walked-enters {s1} {set'} w1 w2 = record {
    grows = λ x e. w2.grows x (w1.grows x (ground (arith, eq_iff p x)));
    closed = λ x q in' out m. elim (Bool-cases (s1 x)) [
      | inr late ↦ w2.closed x q in' late m
      | inl early ↦ elim (Bool-cases (mark set p x)) [
        | inr fresh ↦ w2.grows q (w1.closed x q early fresh m)
        | inl marked ↦
            w2.grows q
              (w1.all_in q (subst (λ y. Memᴰ q (parents_of g y)) (marked_eq x marked out) m))
      ]
    ];
    above = λ x in' out. elim (Bool-cases (s1 x)) [
      | inr late ↦ w2.above x in' late
      | inl early ↦ elim (Bool-cases (mark set p x)) [
        | inr fresh ↦ Above-trans (parent is_parent) (w1.above x early fresh)
        | inl marked ↦ rw (marked_eq x marked out) (parent is_parent)
      ]
    ];
    all_in = λ q m. elim (Memᴰ.cases_cons m) [
      | inl same ↦ rw same (w2.grows p (w1.grows p (ground (arith, eq_iff p p))))
      | inr later ↦ w2.all_in q later
    ];
  }

climb-Walked :
    (g : Graph) (go : String → IdSet → Option IdSet)
    → GoWalks g go
    → (id : String) (ps : List String) (set set' : IdSet)
    → ((p : String) → Memᴰ p ps → Memᴰ p (parents_of g id))
    → climb go ps set ≡ some set'
    → Walked g id ps set set'
unfolding climb
climb-Walked g go known id [] set set' sub h =
    let same : set ≡ set' = cc in
    subst (Walked g id [] set) same (record {
      grows = λ x e. e;
      closed = λ x p e f m. absurd (cc);
      above = λ x e f. absurd (cc);
      all_in = λ p m. absurd (Memᴰ.not-nil m);
    })
climb-Walked g go known id (p ∷ ps) set set' sub h =
    let onward = climb-Walked g go known id ps in
    let later = λ (q : String) (m : Memᴰ q ps). sub q (Memᴰ.tail m) in
    let first = sub p (Memᴰ.head refl) in
    elim (climb_step go p ps set (some set') h) [
      | seen e rest ↦ Walked-seen g id p ps set first e (onward set set' later rest)
      | starves e v r ↦ absurd (cc)
      | enters s1 e v rest ↦
          Walked-enters g id p ps set first (known p (mark set p) s1 v) (onward s1 set' later rest)
    ]

pub walk-Walked : (g : Graph) (fuel : ℕ) → GoWalks g (walk g fuel)
unfolding walk
walk-Walked g zero id set set' h = absurd (cc)
walk-Walked g (suc fuel) id set set' h =
    climb-Walked g (walk g fuel) (walk-Walked g fuel) id (parents_of g id) set set' (λ p m. m) h
