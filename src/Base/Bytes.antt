-- ===== src/Base/Bytes.antt =====
-- Go's strings as lists of bytes: their UTF-8 encoding, and what the packages `utf8`, `unicode` and
-- `strings` do on them.
use Prim.Native.Nat.{ℕ, zero, suc, ◌+◌, ◌-◌, ◌*◌, ◌/◌, ◌%◌, ◌≤◌}
use Prim.Native.String.{String}
use mathlib.Core.Path.{◌≡◌, refl, ap}
use mathlib.Core.Logic.{◌↔◌}
use mathlib.Core.Bool.{Bool, true, false, not, ◌&&◌}
use mathlib.Core.Option.{Option, none, some}
use mathlib.Core.List.{List, [], ◌∷◌, ◌++◌}
use native.Mathlib.Omega.{arith}
use oh_my_graph.Base.Tests.{ltb, eqb, if◌then◌else◌}
use oh_my_graph.Base.Lists.{length}
use oh_my_graph.Base.Text.{codes, in_range, is_space, is_empty}

abbrev pub Bytes : Type 0
Bytes = List ℕ

-- The UTF-8 form of a code point.
abbrev utf8 : ℕ → Bytes
utf8 c =
    if ltb c 0x80
    then c ∷ []
    else if ltb c 0x800
    then (0xc0 + c / 64) ∷ (0x80 + c % 64) ∷ []
    else if ltb c 0x10000
    then (0xe0 + c / 4096) ∷ (0x80 + c / 64 % 64) ∷ (0x80 + c % 64) ∷ []
    else (0xf0 + c / 262144) ∷ (0x80 + c / 4096 % 64) ∷ (0x80 + c / 64 % 64) ∷ (0x80 + c % 64) ∷ []

abbrev pub encode : List ℕ → Bytes
encode [] = []
encode (c ∷ cs) = utf8 c ++ encode cs

abbrev pub bytes : String → Bytes
bytes text = encode (codes text)

-- `a == b` on strings.
abbrev pub same_bytes : Bytes → Bytes → Bool
same_bytes [] [] = true
same_bytes [] (_ ∷ _) = false
same_bytes (_ ∷ _) [] = false
same_bytes (a ∷ s) (b ∷ t) = eqb a b && same_bytes s t

pub same_bytes_iff : (a b : Bytes) → (same_bytes a b ≡ true) ↔ (a ≡ b)
same_bytes_iff [] [] = (λ _. refl, λ _. refl)
same_bytes_iff [] (_ ∷ _) = (λ h. cc, λ h. cc)
same_bytes_iff (_ ∷ _) [] = (λ h. cc, λ h. cc)
same_bytes_iff (a ∷ s) (b ∷ t) = ground (arith, same_bytes_iff s t)

-- `s[:n]` and `s[n:]`, for n within the string.
abbrev pub take : ℕ → Bytes → Bytes
take n [] = []
take zero (b ∷ bs) = []
take (suc n) (b ∷ bs) = b ∷ take n bs

abbrev pub drop : ℕ → Bytes → Bytes
drop n [] = []
drop zero (b ∷ bs) = b ∷ bs
drop (suc n) (b ∷ bs) = drop n bs

pub take-append-drop : (n : ℕ) (bs : Bytes) → take n bs ++ drop n bs ≡ bs
take-append-drop n [] = refl
take-append-drop zero (b ∷ bs) = refl
take-append-drop (suc n) (b ∷ bs) = ap (b ∷◌) (take-append-drop n bs)

pub length-take : (n : ℕ) (bs : Bytes) → length (take n bs) ≤ n
length-take n [] = omega arith
length-take zero (b ∷ bs) = omega arith
length-take (suc n) (b ∷ bs) = omega (arith, length-take n bs)

pub length-drop : (n : ℕ) (bs : Bytes) → length (drop n bs) ≡ length bs - n
length-drop n [] = omega arith
length-drop zero (b ∷ bs) = omega arith
length-drop (suc n) (b ∷ bs) = omega (arith, length-drop n bs)

-- `strings.HasPrefix`
abbrev pub has_prefix : Bytes → Bytes → Bool
has_prefix [] bs = true
has_prefix (p ∷ ps) [] = false
has_prefix (p ∷ ps) (b ∷ bs) = eqb p b && has_prefix ps bs

-- `utf8.RuneStart`
abbrev pub is_rune_start : ℕ → Bool
is_rune_start b = not (in_range 0x80 0xbf b)

-- `utf8.DecodeRune`: a code point and the bytes it took; `none` is its RuneError of width 1.
unfoldable pub decode_rune : Bytes → Option (ℕ × ℕ)
decode_rune [] = none
decode_rune (a ∷ []) = if ltb a 0x80 then some (a, 1) else none
decode_rune (a ∷ b ∷ []) =
    if ltb a 0x80
    then some (a, 1)
    else if in_range 0xc2 0xdf a && in_range 0x80 0xbf b
    then some ((a - 0xc0) * 64 + (b - 0x80), 2)
    else none
decode_rune (a ∷ b ∷ c ∷ more) =
    if ltb a 0x80
    then some (a, 1)
    else if in_range 0xc2 0xdf a && in_range 0x80 0xbf b
    then some ((a - 0xc0) * 64 + (b - 0x80), 2)
    else if in_range 0xe0 0xef a
        && in_range (if eqb a 0xe0 then 0xa0 else 0x80) (if eqb a 0xed then 0x9f else 0xbf) b
        && in_range 0x80 0xbf c
    then some (((a - 0xe0) * 64 + (b - 0x80)) * 64 + (c - 0x80), 3)
    else elim more [
      | [] ↦ none
      | d ∷ _ ↦
          if in_range 0xf0 0xf4 a
            && in_range (if eqb a 0xf0 then 0x90 else 0x80) (if eqb a 0xf4 then 0x8f else 0xbf) b
            && in_range 0x80 0xbf c
            && in_range 0x80 0xbf d
          then some ((((a - 0xf0) * 64 + (b - 0x80)) * 64 + (c - 0x80)) * 64 + (d - 0x80), 4)
          else none
    ]

-- The code point at the front, and how many bytes stand behind its first one.
unfoldable pub next_rune : Bytes → ℕ × ℕ
unfolding decode_rune
next_rune bs = elim (decode_rune bs) [ none ↦ (0xfffd, 0) | some (c, size) ↦ (c, size - 1) ]

-- `strings.TrimLeftFunc`. `skip` counts the bytes of the last rune that are still to be dropped.
unfoldable pub trim_left : (ℕ → Bool) → ℕ → Bytes → Bytes
unfolding next_rune
trim_left test skip [] = []
trim_left test (suc skip) (b ∷ bs) = trim_left test skip bs
trim_left test zero (b ∷ bs) =
    let (c, width) = next_rune (b ∷ bs) in
    let rest = trim_left test width bs in if test c then rest else b ∷ bs

-- `strings.TrimSpace(s) == ""`
unfoldable pub is_blank_bytes : Bytes → Bool
unfolding trim_left
is_blank_bytes bs = is_empty (trim_left is_space 0 bs)
