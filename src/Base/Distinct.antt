-- ===== src/Base/Distinct.antt =====
-- Lists without repetition, as a predicate by recursion.
use mathlib.Core.List.Memᴰ
use mathlib.Core.Path.{refl, sym}
use mathlib.Core.Logic.{◌↔◌, inl, inr}
use mathlib.Core.List.{List, [], ◌∷◌, ◌++◌, Memᴰ}

module _ {ℓ} {A : Type ℓ} where
  abbrev pub IsDistinct : List A → Type ℓ
  IsDistinct [] = Unit
  IsDistinct (x ∷ xs) = (¬ Memᴰ x xs) × IsDistinct xs

  -- No element of the one list stands in the other.
  abbrev pub AreDisjoint : List A → List A → Type ℓ
  AreDisjoint xs ys = (a : A) → Memᴰ a xs → ¬ Memᴰ a ys

  pub IsDistinct-append :
      (xs ys : List A)
      → IsDistinct (xs ++ ys) ↔ (IsDistinct xs × (IsDistinct ys × AreDisjoint xs ys))
  IsDistinct-append [] ys = (λ h. (tt, (h, λ a m. absurd (Memᴰ.not-nil m))), λ h. h.1.0)
  IsDistinct-append (x ∷ xs) ys =
      let ih = IsDistinct-append xs ys in
      (
        λ (fresh, rest).
            let (dx, (dy, apart)) = ih.0 rest in
            (
              (λ m. fresh (Memᴰ.append_left ys m), dx),
              (
                dy,
                λ a m in_ys. elim (Memᴰ.cases_cons m) [
                  | inl e ↦ fresh (Memᴰ.append_right xs (Memᴰ.cast (sym e) in_ys))
                  | inr later ↦ apart a later in_ys
                ],
              ),
            ),
        λ ((fresh, dx), (dy, apart)). (
          λ m. elim (Memᴰ.append_cases xs m) [
            | inl in_xs ↦ fresh in_xs
            | inr in_ys ↦ apart x (Memᴰ.head refl) in_ys
          ],
          ih.1 (dx, (dy, λ a m. apart a (Memᴰ.tail m))),
        ),
      )
