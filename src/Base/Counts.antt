-- ===== src/Base/Counts.antt =====
-- How many texts of a list pass a test: the measure of the graph walks.
use Prim.Native.Nat.{ℕ, suc, ◌≤◌, ◌<◌}
use Prim.Native.String.{String}
use mathlib.Core.Path.{◌≡◌}
use mathlib.Core.Logic.{inl, inr}
use mathlib.Core.Bool.{Bool, true, false}
use mathlib.Core.List.{List, [], ◌∷◌, Memᴰ}
use mathlib.Core.List.Memᴰ
use native.Mathlib.Omega.{arith}
use oh_my_graph.Base.Tests.{if◌then◌else◌}
use oh_my_graph.Base.Lists.{length}

abbrev pub count_if : (String → Bool) → List String → ℕ
count_if p [] = 0
count_if p (x ∷ xs) = if p x then suc (count_if p xs) else count_if p xs

pub count_if-le-length : (p : String → Bool) (xs : List String) → count_if p xs ≤ length xs
count_if-le-length p [] = omega arith
count_if-le-length p (x ∷ xs) = ground (arith, count_if-le-length p xs)

module _ (p q : String → Bool) (implied : (x : String) → q x ≡ true → p x ≡ true) where
  pub count_if_mono : (xs : List String) → count_if q xs ≤ count_if p xs
  count_if_mono [] = omega arith
  count_if_mono (x ∷ xs) = ground (arith, implied x, count_if_mono xs)

  pub count_if_strict :
      (xs : List String) (a : String)
      → Memᴰ a xs
      → p a ≡ true
      → q a ≡ false
      → count_if q xs < count_if p xs
  count_if_strict [] a m hp hq = absurd (Memᴰ.not-nil m)
  count_if_strict (x ∷ xs) a m hp hq = elim (Memᴰ.cases_cons m) [
    | inl e ↦
        let at_x : p x ≡ true = rw e at hp in
        let off_x : q x ≡ false = rw e at hq in ground (arith, count_if_mono xs)
    | inr later ↦ ground (arith, implied x, count_if_strict xs a later hp hq)
  ]
