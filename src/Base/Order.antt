-- ===== src/Base/Order.antt =====
-- Go's `<` on strings, and a stable sort by a text, as `sort.SliceStable` with such a test.
-- Go compares the bytes; UTF-8 keeps the order of the code points, which are compared here.
use Prim.Native.Nat.{ℕ}
use Prim.Native.Char.{code}
use Prim.Native.String.{String}
use mathlib.Core.Path.{◌≡◌, refl}
use mathlib.Core.Bool.{Bool, true, false, ◌&&◌, ◌||◌}
use mathlib.Core.List.{List, [], ◌∷◌}
use native.Mathlib.Omega.{arith}
use text.Mathlib.TextEquality.{codes_equal}
use text.Mathlib.TextPositions.{compare_self}
use oh_my_graph.Base.Tests.{ltb, eqb, if◌then◌else◌}
use oh_my_graph.Base.Text.{codes}

abbrev pub less_codes : List ℕ → List ℕ → Bool
less_codes [] [] = false
less_codes [] (_ ∷ _) = true
less_codes (_ ∷ _) [] = false
less_codes (a ∷ s) (b ∷ t) = ltb a b || (eqb a b && less_codes s t)

unfoldable pub less : String → String → Bool
less s t = less_codes (codes s) (codes t)

less_codes-asym : (s t : List ℕ) → less_codes s t ≡ true → less_codes t s ≡ false
less_codes-asym [] [] h = refl
less_codes-asym [] (_ ∷ _) h = refl
less_codes-asym (_ ∷ _) [] h = cc
less_codes-asym (a ∷ s) (b ∷ t) h = ground (arith, less_codes-asym s t)

less_codes-negative :
    (r s t : List ℕ) → less_codes s r ≡ false → less_codes t s ≡ false → less_codes t r ≡ false
less_codes-negative [] [] [] h k = refl
less_codes-negative [] [] (_ ∷ _) h k = refl
less_codes-negative [] (_ ∷ _) [] h k = cc
less_codes-negative [] (_ ∷ _) (_ ∷ _) h k = refl
less_codes-negative (_ ∷ _) [] [] h k = h
less_codes-negative (_ ∷ _) [] (_ ∷ _) h k = cc
less_codes-negative (_ ∷ _) (_ ∷ _) [] h k = cc
less_codes-negative (a ∷ r) (b ∷ s) (c ∷ t) h k = ground (arith, less_codes-negative r s t)

less_codes-antisym : (s t : List ℕ) → less_codes s t ≡ false → less_codes t s ≡ false → s ≡ t
less_codes-antisym [] [] h k = refl
less_codes-antisym [] (_ ∷ _) h k = cc
less_codes-antisym (_ ∷ _) [] h k = cc
less_codes-antisym (a ∷ s) (b ∷ t) h k = ground (arith, less_codes-antisym s t)

pub codes-injective : (s t : String) → codes s ≡ codes t → s ≡ t
codes-injective String.[] String.[] h = refl
codes-injective String.[] (String.◌∷◌ d t) h = cc
codes-injective (String.◌∷◌ c s) String.[] h = cc
codes-injective (String.◌∷◌ c s) (String.◌∷◌ d t) h =
    let head : code c ≡ code d = cc in
    let tail : codes s ≡ codes t = cc in
    let same : c ≡ d = codes_equal c d (rw head (compare_self (code d))) in
    rw (same, codes-injective s t tail) refl

pub less-asym : (s t : String) → less s t ≡ true → less t s ≡ false
unfolding less
less-asym s t h = less_codes-asym (codes s) (codes t) h

pub less-negative : (r s t : String) → less s r ≡ false → less t s ≡ false → less t r ≡ false
unfolding less
less-negative r s t h k = less_codes-negative (codes r) (codes s) (codes t) h k

pub less-antisym : (s t : String) → less s t ≡ false → less t s ≡ false → s ≡ t
unfolding less
less-antisym s t h k = codes-injective s t (less_codes-antisym (codes s) (codes t) h k)

-- The first of equal texts stays in front.
module _ {ℓ} {A : Type ℓ} (key : A → String) where
  abbrev pub insert : A → List A → List A
  insert x [] = x ∷ []
  insert x (y ∷ ys) =
      let rest = insert x ys in if less (key y) (key x) then y ∷ rest else x ∷ y ∷ ys

  -- `sort.SliceStable(xs, func(i, j int) bool { return key(xs[i]) < key(xs[j]) })`
  abbrev pub sort_stable : List A → List A
  sort_stable [] = []
  sort_stable (x ∷ xs) = insert x (sort_stable xs)
