-- ===== src/Base/Sorted.antt =====
-- What a stable sort by a text keeps, and that this decides its result.
use Prim.Native.String.{String}
use mathlib.Core.Path.{◌≡◌, refl, sym, ap, subst, ◌∙◌}
use mathlib.Core.Logic.{inl, inr}
use mathlib.Core.Bool.{Bool, true, false, false≢true}
use mathlib.Core.List.{List, [], ◌∷◌, Memᴰ, foldl}
use mathlib.Core.List.Memᴰ
use native.Mathlib.Omega.{arith}
use text.Mathlib.Text.{◌==◌}
use text.Mathlib.TextEquality.{eq_iff}
use text.Mathlib.TextPositions.{eq_refl}
use oh_my_graph.Base.Tests.{if◌then◌else◌, Bool-cases}
use oh_my_graph.Base.Lists.{All, All-map, All-mem, select, Memᴰ-cons}
use oh_my_graph.Base.Order.{less, less-asym, less-negative, less-antisym, insert, sort_stable}

module _ {ℓ} {A : Type ℓ} (key : A → String) where
  -- No element stands before one with a smaller key.
  abbrev pub IsSorted : List A → Type ℓ
  IsSorted [] = Unit
  IsSorted (x ∷ xs) = All (λ y. less (key y) (key x) ≡ false) xs × IsSorted xs

  -- The elements with one key, in their order.
  abbrev pub with_key : String → List A → List A
  with_key k xs = select (λ x. key x == k) xs

  insert-All : (P : A → Type 0) (x : A) (ys : List A) → P x → All P ys → All P (insert key x ys)
  insert-All P x [] p h = (p, tt)
  insert-All P x (y ∷ ys) p h = elim (Bool-cases (less (key y) (key x))) [
    | inl e ↦ rw e (h.0, insert-All P x ys p h.1)
    | inr e ↦ rw e (p, h)
  ]

  insert-IsSorted : (x : A) (ys : List A) → IsSorted ys → IsSorted (insert key x ys)
  insert-IsSorted x [] h = (tt, tt)
  insert-IsSorted x (y ∷ ys) h = elim (Bool-cases (less (key y) (key x))) [
    | inl e ↦ rw e (
      insert-All (λ z. less (key z) (key y) ≡ false) x ys (less-asym _ _ e) h.0,
      insert-IsSorted x ys h.1,
    )
    | inr e ↦
        rw e ((e, All-map _ _ (λ z below. less-negative (key x) (key y) (key z) e below) ys h.0), h)
  ]

  pub sort_stable-IsSorted : (xs : List A) → IsSorted (sort_stable key xs)
  sort_stable-IsSorted [] = tt
  sort_stable-IsSorted (x ∷ xs) = insert-IsSorted x (sort_stable key xs) (sort_stable-IsSorted xs)

  less_irrefl : (s t : String) → less s t ≡ true → s ≡ t → ⊥
  less_irrefl s t h e =
      let other_way : less t s ≡ true = cc (h, e) in false≢true (sym (less-asym s t h) ∙ other_way)

  less_irrefl_false : (s : String) → less s s ≡ false
  less_irrefl_false s = elim (Bool-cases (less s s)) [
    | inl e ↦ absurd (less_irrefl s s e refl)
    | inr e ↦ e
  ]

  -- Elements of which at most one is kept may stand in either order.
  pub cons_swap :
      (p q : Bool) (x y : A) (zs : List A)
      → (p ≡ true → q ≡ true → ⊥)
      → (if q then y ∷ (if p then x ∷ zs else zs) else if p then x ∷ zs else zs)
        ≡ (if p then x ∷ (if q then y ∷ zs else zs) else if q then y ∷ zs else zs)
  cons_swap true true x y zs apart = absurd (apart refl refl)
  cons_swap true false x y zs apart = refl
  cons_swap false true x y zs apart = refl
  cons_swap false false x y zs apart = refl

  with_key-insert :
      (k : String) (x : A) (ys : List A) → with_key k (insert key x ys) ≡ with_key k (x ∷ ys)
  with_key-insert k x [] = refl
  with_key-insert k x (y ∷ ys) = elim (Bool-cases (less (key y) (key x))) [
    | inl e ↦
        rw (e, with_key-insert k x ys)
          (cons_swap (key x == k) (key y == k) x y (with_key k ys)
            (λ a b. less_irrefl (key y) (key x) e ((eq_iff _ _).0 b ∙ sym ((eq_iff _ _).0 a))))
    | inr e ↦ rw e refl
  ]

  pub with_key-sort_stable :
      (k : String) (xs : List A) → with_key k (sort_stable key xs) ≡ with_key k xs
  with_key-sort_stable k [] = refl
  with_key-sort_stable k (x ∷ xs) =
      with_key-insert k x (sort_stable key xs)
      ∙ ap (λ r. if key x == k then x ∷ r else r) (with_key-sort_stable k xs)

  mem-with_key : (k : String) (x : A) (xs : List A) → Memᴰ x (with_key k xs) → Memᴰ x xs
  mem-with_key k x [] m = m
  mem-with_key k x (y ∷ ys) m =
      ground (arith, mem-with_key k x ys, Memᴰ-cons x y (with_key k ys), Memᴰ-cons x y ys)

  with_key-head : (x : A) (xs : List A) → with_key (key x) (x ∷ xs) ≡ x ∷ with_key (key x) xs
  with_key-head x xs = rw (eq_refl (key x)) refl

  with_key-tail :
      (k : String) (x : A) (xs ys : List A)
      → with_key k (x ∷ xs) ≡ with_key k (x ∷ ys)
      → with_key k xs ≡ with_key k ys
  with_key-tail k x xs ys same = ground (arith)

  -- Of two sorted lists with the same elements of each key, neither begins with a smaller key.
  head-le :
      (x y : A) (xs ys : List A)
      → IsSorted (y ∷ ys)
      → with_key (key x) (x ∷ xs) ≡ with_key (key x) (y ∷ ys)
      → less (key x) (key y) ≡ false
  head-le x y xs ys sorted same =
      let kept : Memᴰ x (with_key (key x) (y ∷ ys)) =
        subst (Memᴰ x) (sym (with_key-head x xs) ∙ same) (Memᴰ.head refl) in
      elim (Memᴰ.cases_cons (mem-with_key (key x) x (y ∷ ys) kept)) [
        | inl e ↦ rw e (less_irrefl_false (key y))
        | inr later ↦ All-mem _ ys sorted.0 x later
      ]

  pub sorted_unique :
      (xs ys : List A)
      → IsSorted xs
      → IsSorted ys
      → ((k : String) → with_key k xs ≡ with_key k ys)
      → xs ≡ ys
  sorted_unique [] [] h h' same = refl
  sorted_unique [] (y ∷ ys) h h' same = cc (same (key y), with_key-head y ys)
  sorted_unique (x ∷ xs) [] h h' same = cc (same (key x), with_key-head x xs)
  sorted_unique (x ∷ xs) (y ∷ ys) h h' same =
      let keys : key x ≡ key y =
        less-antisym _ _ (head-le x y xs ys h' (same (key x)))
          (head-le y x ys xs h (sym (same (key y)))) in
      let heads : x ∷ with_key (key x) xs ≡ y ∷ with_key (key y) ys =
        sym (with_key-head x xs)
        ∙ same (key x)
        ∙ ap (λ k. with_key k (y ∷ ys)) keys
        ∙ with_key-head y ys in
      let first : x ≡ y = cc in
      let tails =
        sorted_unique xs ys h.1 h'.1
          (λ k. with_key-tail k x xs ys (same k ∙ ap (λ z. with_key k (z ∷ ys)) (sym first))) in
      rw (first, tails) refl

-- A fold that may take any two elements in either order does not see a sort.
module _ {ℓ κ} {A : Type ℓ} {B : Type κ} (key : A → String) (step : B → A → B)
    (swap : (b : B) (x y : A) → step (step b x) y ≡ step (step b y) x) where
  foldl-insert :
      (b : B) (x : A) (ys : List A) → foldl step b (insert key x ys) ≡ foldl step b (x ∷ ys)
  foldl-insert b x [] = refl
  foldl-insert b x (y ∷ ys) = elim (Bool-cases (less (key y) (key x))) [
    | inl e ↦ rw (e, foldl-insert (step b y) x ys) (ap (λ c. foldl step c ys) (swap b y x))
    | inr e ↦ rw e refl
  ]

  pub foldl-sort_stable :
      (b : B) (xs : List A) → foldl step b (sort_stable key xs) ≡ foldl step b xs
  foldl-sort_stable b [] = refl
  foldl-sort_stable b (x ∷ xs) =
      foldl-insert b x (sort_stable key xs) ∙ foldl-sort_stable (step b x) xs
