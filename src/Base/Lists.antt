-- ===== src/Base/Lists.antt =====
-- Lists measured and indexed by native numbers, under the library's names, and tests on lists.
use Prim.Native.Nat.{ℕ, zero, suc, ◌+◌}
use Prim.Native.String.{String}
use mathlib.Core.Path.{◌≡◌, refl, sym, ap, subst}
use mathlib.Core.Logic.{◌≢◌, ◌↔◌, ◌⊎◌, inl, inr, ⊎_elim}
use mathlib.Core.Bool.{Bool, true, false, not, ◌&&◌, ◌||◌, false≢true}
use mathlib.Core.List.{List, [], ◌∷◌, ◌++◌, map, Memᴰ}
use mathlib.Core.List.Memᴰ
use mathlib.Core.Option.{Option, none, some}
use native.Mathlib.Omega.{arith}
use text.Mathlib.Text.{◌==◌}
use text.Mathlib.TextEquality.{eq_iff}
use oh_my_graph.Base.Tests.{if◌then◌else◌}

module _ {ℓ} {A : Type ℓ} where
  abbrev pub length : List A → ℕ
  length [] = 0
  length (_ ∷ xs) = suc (length xs)

  abbrev pub get_elem? : List A → ℕ → Option A
  get_elem? [] i = none
  get_elem? (x ∷ xs) zero = some x
  get_elem? (x ∷ xs) (suc i) = get_elem? xs i

  pub length-append : (xs ys : List A) → length (xs ++ ys) ≡ length xs + length ys
  length-append [] ys = omega arith
  length-append (x ∷ xs) ys = omega (arith, length-append xs ys)

  -- Every element satisfies the predicate.
  abbrev pub All {κ} : (A → Type κ) → List A → Type κ
  All P [] = Unit
  All P (x ∷ xs) = P x × All P xs

  -- The library's `filter` wants a decision; this one takes a test, as the program's loops do.
  abbrev pub select : (A → Bool) → List A → List A
  select p [] = []
  select p (x ∷ xs) = if p x then x ∷ select p xs else select p xs

  abbrev pub any : (A → Bool) → List A → Bool
  any p [] = false
  any p (x ∷ xs) = p x || any p xs

  abbrev pub all : (A → Bool) → List A → Bool
  all p [] = true
  all p (x ∷ xs) = p x && all p xs

  pub Memᴰ-cons : (a x : A) (xs : List A) → Memᴰ a (x ∷ xs) ↔ ((a ≡ x) ⊎ Memᴰ a xs)
  Memᴰ-cons a x xs = (Memᴰ.cases_cons, ⊎_elim Memᴰ.head Memᴰ.tail)

  pub append-eq-nil : (xs ys : List A) → (xs ++ ys ≡ []) ↔ ((xs ≡ []) × (ys ≡ []))
  append-eq-nil [] ys = (λ h. (refl, h), λ h. h.1)
  append-eq-nil (x ∷ xs) ys = (λ h. cc, λ h. cc h.0)

pub length-map {ℓ κ} :
    {A : Type ℓ} {B : Type κ} (f : A → B) (xs : List A) → length (map f xs) ≡ length xs
length-map f [] = refl
length-map f (x ∷ xs) = ap suc (length-map f xs)

pub not-false : (b : Bool) → (not b ≡ false) ↔ (b ≡ true)
not-false b = ground arith

pub eq_false_iff : (a b : String) → ((a == b) ≡ false) ↔ (a ≢ b)
eq_false_iff a b = ground (arith, eq_iff a b)

-- `slices.Contains` on texts.
abbrev pub contains : List String → String → Bool
contains [] a = false
contains (x ∷ xs) a = x == a || contains xs a

pub contains_iff : (xs : List String) (a : String) → (contains xs a ≡ true) ↔ Memᴰ a xs
contains_iff [] a = (λ h. cc, λ m. absurd (Memᴰ.not-nil m))
contains_iff (x ∷ xs) a = ground (arith, eq_iff x a, contains_iff xs a, Memᴰ-cons a x xs)

pub All-mem {ℓ κ} :
    {A : Type ℓ} (P : A → Type κ) (xs : List A) → All P xs → (a : A) → Memᴰ a xs → P a
All-mem P (x ∷ xs) h a m = elim (Memᴰ.cases_cons m) [
  | inl e ↦ rw e h.0
  | inr later ↦ All-mem P xs h.1 a later
]
All-mem P [] h a m = absurd (Memᴰ.not-nil m)

pub mem-All {ℓ κ} :
    {A : Type ℓ} (P : A → Type κ) (xs : List A) → ((a : A) → Memᴰ a xs → P a) → All P xs
mem-All P [] h = tt
mem-All P (x ∷ xs) h = (h x (Memᴰ.head refl), mem-All P xs (λ a m. h a (Memᴰ.tail m)))

-- One step of a loop that appends the elements passing a test which decides `P`.
pub mem-if_cons {ℓ κ} :
    {A : Type ℓ} (P : A → Type κ) (b : Bool) (a x : A) (rest xs : List A)
    → (b ≡ true) ↔ P x
    → Memᴰ a rest ↔ (Memᴰ a xs × P a)
    → Memᴰ a (if b then x ∷ rest else rest) ↔ (Memᴰ a (x ∷ xs) × P a)
mem-if_cons P true a x rest xs test ih = (
  λ m. elim (Memᴰ.cases_cons m) [
    | inl e ↦ (Memᴰ.head e, subst P (sym e) (test.0 refl))
    | inr later ↦ let (m', p) = ih.0 later in (Memᴰ.tail m', p)
  ],
  λ (m, p). elim (Memᴰ.cases_cons m) [
    | inl e ↦ Memᴰ.head e
    | inr later ↦ Memᴰ.tail (ih.1 (later, p))
  ],
)
mem-if_cons P false a x rest xs test ih = (
  λ m. let (m', p) = ih.0 m in (Memᴰ.tail m', p),
  λ (m, p). elim (Memᴰ.cases_cons m) [
    | inl e ↦ absurd (false≢true (test.1 (subst P e p)))
    | inr later ↦ ih.1 (later, p)
  ],
)

pub All-map {ℓ κ μ} :
    {A : Type ℓ} (P : A → Type κ) (Q : A → Type μ)
    → ((a : A) → P a → Q a)
    → (xs : List A) → All P xs
    → All Q xs
All-map P Q f [] h = tt
All-map P Q f (x ∷ xs) h = (f x h.0, All-map P Q f xs h.1)

pub All-append {ℓ κ} :
    {A : Type ℓ} (P : A → Type κ) (xs ys : List A) → All P (xs ++ ys) ↔ (All P xs × All P ys)
All-append P [] ys = (λ h. (tt, h), λ h. h.1)
All-append P (x ∷ xs) ys =
    let rest = All-append P xs ys in
    (
      λ (here, later). let (a, b) = rest.0 later in ((here, a), b),
      λ ((here, a), b). (here, rest.1 (a, b)),
    )

pub and_iff {ℓ κ} :
    {P : Type ℓ} {Q : Type κ} {a b : Bool}
    → (a ≡ true) ↔ P
    → (b ≡ true) ↔ Q
    → (a && b ≡ true) ↔ (P × Q)
and_iff {a = true} p q = (λ h. (p.0 refl, q.0 h), λ (x, y). q.1 y)
and_iff {a = false} p q = (λ h. absurd (false≢true h), λ (x, y). p.1 x)

pub all_iff {ℓ κ} :
    {A : Type ℓ} (P : A → Type κ) (test : A → Bool)
    → ((a : A) → (test a ≡ true) ↔ P a)
    → (xs : List A) → (all test xs ≡ true) ↔ All P xs
all_iff P test known [] = (λ _. tt, λ _. refl)
all_iff P test known (x ∷ xs) = and_iff (known x) (all_iff P test known xs)
