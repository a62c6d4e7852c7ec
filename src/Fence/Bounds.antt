-- ===== src/Fence/Bounds.antt =====
-- The cuts of internal/fence keep their limits, and what they keep are the two ends of the text.
use Prim.Native.Nat.{◌/◌}
use mathlib.Core.List.{
  reverse, append_assoc, append-nil, reverse-append, reverse-reverse, tail-eq_of_cons-eq,
}
use oh_my_graph.Base.{
  ◌⊎◌, ℕ, zero, suc, ◌+◌, ◌-◌, ◌≤◌, ◌<◌, ◌≡◌, refl, sym, ap, ◌∙◌, inl, inr, true, false, [], ◌∷◌,
  ◌++◌, arith, leb, eqb, length, length-append, Bool-cases,
}
use oh_my_graph.Base.Bytes.{
  Bytes, take, drop, take-append-drop, length-take, length-drop, is_rune_start,
}
use oh_my_graph.Fence.{
  ends_in_rune, trim_last, trim_first, trim_partial_rune_suffix, trim_partial_rune_prefix,
  head_and_tail, truncate, excerpt, excerpt_marker, truncate_marker,
}

-- What the loop over the last runes drops stands in front of the reversed text.
trim_last-keeps : (k : ℕ) (s : Bytes) → (dropped : Bytes) × (dropped ++ trim_last k s ≡ s)
unfolding trim_last
trim_last-keeps zero s = ([], refl)
trim_last-keeps (suc k) [] = ([], refl)
trim_last-keeps (suc k) (b ∷ s) =
    let (dropped, e) = trim_last-keeps k s in
    elim (Bool-cases (ends_in_rune (b ∷ s))) [
      | inl h ↦ ([], rw h refl)
      | inr h ↦ (b ∷ dropped, rw h (ap (b ∷◌) e))
    ]

trim_first-keeps : (k : ℕ) (s : Bytes) → (dropped : Bytes) × (dropped ++ trim_first k s ≡ s)
unfolding trim_first
trim_first-keeps zero s = ([], refl)
trim_first-keeps (suc k) [] = ([], refl)
trim_first-keeps (suc k) (b ∷ s) =
    let (dropped, e) = trim_first-keeps k s in
    elim (Bool-cases (is_rune_start b)) [
      | inl h ↦ ([], rw h refl)
      | inr h ↦ (b ∷ dropped, rw h (ap (b ∷◌) e))
    ]

abbrev pub IsPrefixOf : Bytes → Bytes → Type 0
IsPrefixOf p s = (rest : Bytes) × (p ++ rest ≡ s)

abbrev pub IsSuffixOf : Bytes → Bytes → Type 0
IsSuffixOf p s = (front : Bytes) × (front ++ p ≡ s)

length-prefix : (p s : Bytes) → IsPrefixOf p s → length p ≤ length s
length-prefix p s (rest, e) =
    let total : length p + length rest ≡ length s = sym (length-append p rest) ∙ ap length e in
    omega (arith, total)

length-suffix : (p s : Bytes) → IsSuffixOf p s → length p ≤ length s
length-suffix p s (front, e) =
    let total : length front + length p ≡ length s = sym (length-append front p) ∙ ap length e in
    omega (arith, total)

prefix_trans : (a b c : Bytes) → IsPrefixOf a b → IsPrefixOf b c → IsPrefixOf a c
prefix_trans a b c (r, e) (r', e') = (r ++ r', sym (append_assoc a r r') ∙ ap (λ x. x ++ r') e ∙ e')

suffix_trans : (a b c : Bytes) → IsSuffixOf a b → IsSuffixOf b c → IsSuffixOf a c
suffix_trans a b c (f, e) (f', e') = (f' ++ f, append_assoc f' f a ∙ ap (λ x. f' ++ x) e ∙ e')

suffix-IsPrefixOf : (s : Bytes) → IsPrefixOf (trim_partial_rune_suffix s) s
unfolding trim_partial_rune_suffix
suffix-IsPrefixOf s =
    let (dropped, e) = trim_last-keeps 3 (reverse s) in
    (
      reverse dropped,
      sym (reverse-append dropped (trim_last 3 (reverse s))) ∙ ap reverse e ∙ reverse-reverse s,
    )

prefix-IsSuffixOf : (s : Bytes) → IsSuffixOf (trim_partial_rune_prefix s) s
unfolding trim_partial_rune_prefix
prefix-IsSuffixOf s = trim_first-keeps 3 s

cut_prefix : (n : ℕ) (s : Bytes) → IsPrefixOf (trim_partial_rune_suffix (take n s)) s
cut_prefix n s =
    prefix_trans _ (take n s) s (suffix-IsPrefixOf (take n s)) (drop n s, take-append-drop n s)

cut_suffix : (n : ℕ) (s : Bytes) → IsSuffixOf (trim_partial_rune_prefix (drop n s)) s
cut_suffix n s =
    suffix_trans _ (drop n s) s (prefix-IsSuffixOf (drop n s)) (take n s, take-append-drop n s)

length-cut_prefix : (n : ℕ) (s : Bytes) → length (trim_partial_rune_suffix (take n s)) ≤ n
length-cut_prefix n s =
    omega (arith, length-prefix _ _ (suffix-IsPrefixOf (take n s)), length-take n s)

length-cut_suffix :
    (n : ℕ) (s : Bytes) → length (trim_partial_rune_prefix (drop n s)) ≤ length s - n
length-cut_suffix n s =
    omega (arith, length-suffix _ _ (prefix-IsSuffixOf (drop n s)), length-drop n s)

-- The head is a prefix and the tail a suffix, they do not overlap, and they have `keep` bytes at most.
pub record AreEnds (s head tail : Bytes) (keep : ℕ) : Type 0 where
  pub head_of : IsPrefixOf head s
  pub tail_of : IsSuffixOf tail s
  pub within : length head + length tail ≤ keep
  pub apart : length head + length tail ≤ length s

pub head_and_tail-AreEnds :
    (s : Bytes) (keep : ℕ) → AreEnds s (head_and_tail s keep).0 (head_and_tail s keep).1 keep
unfolding head_and_tail
head_and_tail-AreEnds s keep = elim (Bool-cases (leb (length s) keep)) [
  | inl fits ↦ rw fits (record {
    head_of = ([], append-nil s);
    tail_of = (s, append-nil s);
    within = ground arith;
    apart = omega arith;
  })
  | inr long ↦ rw long (elim (Bool-cases (eqb keep 0)) [
    | inl zero_keep ↦ rw zero_keep (record {
      head_of = (s, refl);
      tail_of = (s, append-nil s);
      within = omega arith;
      apart = omega arith;
    })
    | inr some_keep ↦
        let n = keep / 2 in
        let a = length-cut_prefix n s in
        let b = length-cut_suffix (length s - (keep - n)) s in
        let c : keep < length s = ground arith in
        rw some_keep (record {
          head_of = cut_prefix n s;
          tail_of = cut_suffix (length s - (keep - n)) s;
          within = omega (arith, a, b, c);
          apart = omega (arith, a, b, c);
        })
  ])
]

pub length-truncate : (s : Bytes) (n : ℕ) → length (truncate s n) ≤ n
unfolding truncate
length-truncate s n =
    let a = length-cut_prefix n s in
    let m = length truncate_marker in
    let b = length-cut_prefix (n - m) s in
    let c = length-append (trim_partial_rune_suffix (take (n - m) s)) truncate_marker in
    ground (arith, a, b, c)

excerpt-fits : (s : Bytes) (n : ℕ) → length s ≤ n → excerpt s n ≡ s
unfolding excerpt
excerpt-fits s n h = ground arith

excerpt-cut :
    (s : Bytes) (n : ℕ)
    → n < length s
    → length excerpt_marker < n
    → excerpt s n
      ≡ (head_and_tail s (n - length excerpt_marker)).0
        ++ (excerpt_marker ++ (head_and_tail s (n - length excerpt_marker)).1)
unfolding excerpt
excerpt-cut s n long room =
    let a : leb (length s) n ≡ false = ground arith in
    let b : leb n (length excerpt_marker) ≡ false = ground arith in rw (a, b) refl

excerpt-tight :
    (s : Bytes) (n : ℕ) → n < length s → n ≤ length excerpt_marker → excerpt s n ≡ truncate s n
unfolding excerpt
excerpt-tight s n long tight =
    let a : leb (length s) n ≡ false = ground arith in
    let b : leb n (length excerpt_marker) ≡ true = ground arith in rw (a, b) refl

length-excerpt : (s : Bytes) (n : ℕ) → length (excerpt s n) ≤ n
length-excerpt s n = elim (Bool-cases (leb (length s) n)) [
  | inl fits ↦ let le : length s ≤ n = ground arith in rw (excerpt-fits s n le) le
  | inr long ↦ elim (Bool-cases (leb n (length excerpt_marker))) [
    | inl tight ↦ rw (excerpt-tight s n (ground arith) (ground arith)) (length-truncate s n)
    | inr room ↦
        let keep = n - length excerpt_marker in
        let ends = head_and_tail-AreEnds s keep in
        let total =
          length-append (head_and_tail s keep).0 (excerpt_marker ++ (head_and_tail s keep).1) in
        let inner = length-append excerpt_marker (head_and_tail s keep).1 in
        let lt : length excerpt_marker < n = ground arith in
        rw (excerpt-cut s n (ground arith) lt) (omega (arith, ends.within, total, inner, lt))
  ]
]

-- A quote never passes its limit. It is the whole text, if that fits; and of a longer one, when the
-- limit has room for the marker, a part of the beginning, the marker and a part of the end, which do
-- not overlap.
pub excerpt-keeps :
    (s : Bytes) (n : ℕ)
    → (length (excerpt s n) ≤ n)
      × (((length s ≤ n) × (excerpt s n ≡ s))
          ⊎ (((n < length s) × (n ≤ length excerpt_marker))
              ⊎ ((head : Bytes) × ((tail : Bytes) × ((excerpt s n
                        ≡ head ++ (excerpt_marker ++ tail))
                      × AreEnds s head tail (n - length excerpt_marker))))))
excerpt-keeps s n = (
  length-excerpt s n,
  elim (Bool-cases (leb (length s) n)) [
    | inl fits ↦ let le : length s ≤ n = ground arith in inl (le, excerpt-fits s n le)
    | inr long ↦
        let lt : n < length s = ground arith in
        elim (Bool-cases (leb n (length excerpt_marker))) [
          | inl tight ↦ inr (inl (lt, ground arith))
          | inr room ↦
              let ends = head_and_tail s (n - length excerpt_marker) in
              inr (
                inr (
                  ends.0,
                  (
                    ends.1,
                    (
                      excerpt-cut s n lt (ground arith),
                      head_and_tail-AreEnds s (n - length excerpt_marker),
                    ),
                  ),
                ))
        ]
  ],
)

split_shorter :
    (a b c d : Bytes) → a ++ b ≡ c ++ d → length a ≤ length c → (m : Bytes) × (m ++ d ≡ b)
split_shorter [] b c d e le = (c, sym e)
split_shorter (x ∷ a) b [] d e le = absurd (omega (arith, le))
split_shorter (x ∷ a) b (y ∷ c) d e le =
    split_shorter a b c d (tail-eq_of_cons-eq e) (omega (arith, le))

-- What stands between the two ends.
pub AreEnds-middle :
    (s head tail : Bytes) (keep : ℕ)
    → AreEnds s head tail keep
    → (middle : Bytes) × (head ++ (middle ++ tail) ≡ s)
AreEnds-middle s head tail keep ends =
    let (rest, front) = ends.head_of in
    let (before, back) = ends.tail_of in
    let total : length before + length tail ≡ length s =
      sym (length-append before tail) ∙ ap length back in
    let (m, e) =
      split_shorter head rest before tail (front ∙ sym back) (omega (arith, total, ends.apart)) in
    (m, ap (λ x. head ++ x) e ∙ front)
