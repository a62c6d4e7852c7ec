-- ===== src/Fence.antt =====
-- internal/fence/fence.go: the cuts that bound a quote of model text, and the test for a marker line.
-- Strings are lists of bytes; a negative limit acts as 0 does, since each test for it is `<= 0`.
pub mod Bounds
use oh_my_graph.Base.{
  ℕ, zero, suc, ◌+◌, ◌-◌, Bool, true, false, ◌&&◌, ◌||◌, List, [], ◌∷◌, ◌++◌, Option, none, some,
  if◌then◌else◌, ltb, leb, eqb, length,
}
use oh_my_graph.Base.Text.{in_range, is_space}
use oh_my_graph.Base.Bytes.{
  Bytes, bytes, take, drop, has_prefix, is_rune_start, decode_rune, trim_left,
}
use mathlib.Core.List.{reverse}
use Prim.Native.Nat.{◌/◌}

abbrev pub marker_prefix : Bytes
marker_prefix = bytes "---"

abbrev pub max_prior_reply_in_prompt : ℕ
max_prior_reply_in_prompt = 8000

unfoldable pub excerpt_marker : Bytes
excerpt_marker = bytes "\n… (middle excerpted) …\n"

unfoldable pub truncate_marker : Bytes
truncate_marker = bytes "… (truncated)"

-- The bytes from the last rune start on, read backwards: at most four, as `utf8.DecodeLastRune`.
last_rune : ℕ → Bytes → Bytes → Bytes
last_rune zero rev acc = acc
last_rune (suc k) [] acc = acc
last_rune (suc k) (b ∷ rev) acc =
    let further = last_rune k rev (b ∷ acc) in if is_rune_start b then b ∷ acc else further

-- `utf8.DecodeLastRuneInString` does not report an error of width 1.
ends_in_rune : Bytes → Bool
unfolding last_rune decode_rune
ends_in_rune rev =
    let tail = last_rune 4 rev [] in
    elim (decode_rune tail) [ none ↦ false | some (c, size) ↦ eqb size (length tail) ]

-- The loop of `trimPartialRuneSuffix`, on the reversed string.
trim_last : ℕ → Bytes → Bytes
unfolding ends_in_rune
trim_last zero rev = rev
trim_last (suc k) [] = []
trim_last (suc k) (b ∷ rev) =
    let shorter = trim_last k rev in if ends_in_rune (b ∷ rev) then b ∷ rev else shorter

unfoldable pub trim_partial_rune_suffix : Bytes → Bytes
unfolding trim_last
trim_partial_rune_suffix s = reverse (trim_last 3 (reverse s))

trim_first : ℕ → Bytes → Bytes
trim_first zero s = s
trim_first (suc k) [] = []
trim_first (suc k) (b ∷ s) =
    let shorter = trim_first k s in if is_rune_start b then b ∷ s else shorter

unfoldable pub trim_partial_rune_prefix : Bytes → Bytes
unfolding trim_first
trim_partial_rune_prefix s = trim_first 3 s

unfoldable pub head_and_tail : Bytes → ℕ → Bytes × Bytes
unfolding trim_partial_rune_suffix trim_partial_rune_prefix
head_and_tail s keep =
    if leb (length s) keep
    then (s, [])
    else if eqb keep 0
    then ([], [])
    else let n = keep / 2 in
      (
        trim_partial_rune_suffix (take n s),
        trim_partial_rune_prefix (drop (length s - (keep - n)) s),
      )

unfoldable pub truncate : Bytes → ℕ → Bytes
unfolding trim_partial_rune_suffix truncate_marker
truncate s n =
    if leb (length s) n
    then s
    else if eqb n 0
    then []
    else if ltb n (length truncate_marker)
    then trim_partial_rune_suffix (take n s)
    else trim_partial_rune_suffix (take (n - length truncate_marker) s) ++ truncate_marker

unfoldable pub excerpt : Bytes → ℕ → Bytes
unfolding head_and_tail truncate excerpt_marker
excerpt s n =
    if leb (length s) n
    then s
    else if leb n (length excerpt_marker)
    then truncate s n
    else let (head, tail) = head_and_tail s (n - length excerpt_marker) in
      head ++ (excerpt_marker ++ tail)

-- The class Cf of the Unicode tables.
abbrev is_format : ℕ → Bool
is_format c =
    eqb c 0xad
    || in_range 0x600 0x605 c
    || eqb c 0x61c
    || eqb c 0x6dd
    || eqb c 0x70f
    || in_range 0x890 0x891 c
    || eqb c 0x8e2
    || eqb c 0x180e
    || in_range 0x200b 0x200f c
    || in_range 0x202a 0x202e c
    || in_range 0x2060 0x2064 c
    || in_range 0x2066 0x206f c
    || eqb c 0xfeff
    || in_range 0xfff9 0xfffb c
    || eqb c 0x110bd
    || eqb c 0x110cd
    || in_range 0x13430 0x1343f c
    || in_range 0x1bca0 0x1bca3 c
    || in_range 0x1d173 0x1d17a c
    || eqb c 0xe0001
    || in_range 0xe0020 0xe007f c

unfoldable pub is_format_or_line_separator : ℕ → Bool
is_format_or_line_separator c = is_format c || eqb c 0x2028 || eqb c 0x2029

-- `unicode.IsControl`
abbrev is_control : ℕ → Bool
is_control c = leb c 0x1f || in_range 0x7f 0x9f c

abbrev is_invisible : ℕ → Bool
is_invisible c = is_space c || is_control c || is_format_or_line_separator c

unfoldable pub looks_like_marker : Bytes → Bool
unfolding trim_left is_space is_format_or_line_separator
looks_like_marker line = has_prefix marker_prefix (trim_left is_invisible 0 line)
