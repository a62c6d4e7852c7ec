-- ===== src/Base/Decimal.antt =====
-- The decimal form of a number, as `%d` prints it, and how long it is.
use Prim.Native.Nat.{ℕ, zero, suc, ◌+◌, ◌/◌, ◌%◌, ◌^◌, ◌≤◌, ◌<◌}
use mathlib.Core.Path.{◌≡◌, refl}
use mathlib.Core.Logic.{inl, inr}
use mathlib.Core.Bool.{true, false}
use mathlib.Core.List.{[], ◌∷◌, ◌++◌}
use native.Mathlib.Omega.{arith}
use oh_my_graph.Base.Tests.{ltb, Bool-cases}
use oh_my_graph.Base.Lists.{length, length-append}
use oh_my_graph.Base.Bytes.{Bytes}

-- The number shrinks tenfold in each round, so more than `n` rounds never happen.
digits : ℕ → ℕ → Bytes
digits zero n = []
digits (suc fuel) n = elim (ltb n 10) [
  | true ↦ (b'0' + n) ∷ []
  | false ↦ digits fuel (n / 10) ++ ((b'0' + n % 10) ∷ [])
]

unfoldable pub decimal : ℕ → Bytes
unfolding digits
decimal n = digits (suc n) n

digits-small : (f n : ℕ) → n < 10 → digits (suc f) n ≡ (b'0' + n) ∷ []
unfolding digits
digits-small f n h = ground arith

digits-large : (f n : ℕ) → 10 ≤ n → digits (suc f) n ≡ digits f (n / 10) ++ ((b'0' + n % 10) ∷ [])
unfolding digits
digits-large f n h = ground arith

length-digits : (f g m n : ℕ) → m < f → n < g → m ≤ n → length (digits f m) ≤ length (digits g n)
length-digits zero g m n hm hn le = absurd (omega arith)
length-digits (suc f) zero m n hm hn le = absurd (omega arith)
length-digits (suc f) (suc g) m n hm hn le = elim (Bool-cases (ltb m 10)) [
  | inl small ↦ elim (Bool-cases (ltb n 10)) [
    | inl small' ↦
        rw (digits-small f m (ground arith), digits-small g n (ground arith)) (omega arith)
    | inr large' ↦
        rw (digits-small f m (ground arith), digits-large g n (ground arith))
          (omega (arith, length-append (digits g (n / 10)) ((b'0' + n % 10) ∷ [])))
  ]
  | inr large ↦
      let big : 10 ≤ m = ground arith in
      let ih = length-digits f g (m / 10) (n / 10) (omega arith) (omega arith) (omega arith) in
      rw (digits-large f m big, digits-large g n (omega arith))
        (omega (
          arith,
          ih,
          length-append (digits f (m / 10)) ((b'0' + m % 10) ∷ []),
          length-append (digits g (n / 10)) ((b'0' + n % 10) ∷ []),
        ))
]

pub length-decimal : (m n : ℕ) → m ≤ n → length (decimal m) ≤ length (decimal n)
unfolding decimal
length-decimal m n le = length-digits (suc m) (suc n) m n (omega arith) (omega arith) le

-- The largest number that an `int` holds has 19 digits.
pub length-decimal_int : (n : ℕ) → n < 2 ^ 63 → length (decimal n) ≤ 19
unfolding decimal digits
length-decimal_int n h =
    let largest : length (decimal 9223372036854775808) ≡ 19 = refl in
    omega (arith, length-decimal n 9223372036854775808 (omega arith), largest)

pub length-decimal_small : (n : ℕ) → n < 1000 → length (decimal n) ≤ 3
unfolding decimal digits
length-decimal_small n h =
    let largest : length (decimal 999) ≡ 3 = refl in
    omega (arith, length-decimal n 999 (omega arith), largest)
