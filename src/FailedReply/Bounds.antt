-- ===== src/FailedReply/Bounds.antt =====
-- The file of a failed reply stays inside its cap, and what it says it dropped is exact.
use Prim.Native.Nat.{◌^◌}
use oh_my_graph.Base.{
  ℕ, subst, ◌⊎◌, ◌+◌, ◌-◌, ◌≤◌, ◌<◌, ◌≡◌, refl, ap, inl, inr, false, List, [], ◌∷◌, ◌++◌, arith,
  leb, length, length-append, Bool-cases,
}
use oh_my_graph.Base.Text.{is_empty}
use oh_my_graph.Base.Bytes.{Bytes}
use oh_my_graph.Base.Decimal.{decimal, length-decimal, length-decimal_int}
use oh_my_graph.Fence.{head_and_tail}
use oh_my_graph.Fence.Bounds.{AreEnds-middle, head_and_tail-AreEnds}
use oh_my_graph.FailedReply.{
  max_failed_reply_bytes, max_unrunnable_front_bytes, unrunnable_front_note, split_lines,
  trim_return, add_line, add_lines, unrunnable_front_block, failed_excerpt_marker,
  excerpt_failed_reply,
}

add_line-bounded :
    (built line : Bytes)
    → length built ≤ max_unrunnable_front_bytes
    → length (add_line built line) ≤ max_unrunnable_front_bytes
unfolding add_line
add_line-bounded built line h =
    let a = length-append built (trim_return line ++ b'\n' ∷ []) in
    let b = length-append (trim_return line) (b'\n' ∷ []) in ground (arith, a, b)

add_lines-bounded :
    (lines : List Bytes) (built : Bytes)
    → length built ≤ max_unrunnable_front_bytes
    → length (add_lines lines built) ≤ max_unrunnable_front_bytes
unfolding add_lines
add_lines-bounded [] built h = h
add_lines-bounded (line ∷ lines) built h =
    add_lines-bounded lines (add_line built line) (add_line-bounded built line h)

length-note : length unrunnable_front_note ≤ 100
unfolding unrunnable_front_note
length-note = omega arith

length-front : (reply : Bytes) → length (unrunnable_front_block reply) ≤ 4196
unfolding unrunnable_front_block
length-front reply =
    let (first, others) = split_lines reply in
    let built = add_lines (first ∷ others) [] in
    let a = add_lines-bounded (first ∷ others) [] (omega arith) in
    let b = length-append built unrunnable_front_note in
    elim (Bool-cases (is_empty built)) [
      | inl e ↦ rw e (omega arith)
      | inr e ↦ rw e (omega (arith, a, b, length-note))
    ]

length-marker :
    (m n cap : ℕ)
    → m ≤ n
    → length (failed_excerpt_marker m cap) ≤ length (failed_excerpt_marker n cap)
unfolding failed_excerpt_marker
length-marker m n cap le =
    omega (arith, length-decimal m n le, length-append (decimal m) _, length-append (decimal n) _)

length-marker_int :
    (n : ℕ) → n < 2 ^ 63 → length (failed_excerpt_marker n max_failed_reply_bytes) ≤ 200
unfolding failed_excerpt_marker
length-marker_int n h = omega (arith, length-decimal_int n h, length-append (decimal n) _)

-- What a file made of a cut reply holds: the copied lines, then the beginning and the end of the
-- reply around a marker, whose figure is the number of bytes of the reply between them.
pub record IsCutFile (reply file : Bytes) : Type 0 where
  pub head : Bytes
  pub middle : Bytes
  pub tail : Bytes
  pub whole : head ++ (middle ++ tail) ≡ reply
  pub laid_out :
      file
      ≡ unrunnable_front_block reply
        ++ (head ++ (failed_excerpt_marker (length middle) max_failed_reply_bytes ++ tail))

excerpt_failed_reply-fits :
    (reply : Bytes)
    → length (unrunnable_front_block reply) + length reply ≤ max_failed_reply_bytes
    → excerpt_failed_reply reply ≡ unrunnable_front_block reply ++ reply
unfolding excerpt_failed_reply
excerpt_failed_reply-fits reply h = ground arith

-- The figure of the marker, and what remains for the two ends.
abbrev reserve : Bytes → ℕ
reserve reply = length (failed_excerpt_marker (length reply) max_failed_reply_bytes)

abbrev ends_of : Bytes → Bytes × Bytes
ends_of reply =
    head_and_tail reply
      (max_failed_reply_bytes - length (unrunnable_front_block reply) - reserve reply)

abbrev dropped : Bytes → ℕ
dropped reply = length reply - length (ends_of reply).0 - length (ends_of reply).1

excerpt_failed_reply-cut :
    (reply : Bytes)
    → max_failed_reply_bytes < length (unrunnable_front_block reply) + length reply
    → excerpt_failed_reply reply
      ≡ unrunnable_front_block reply
        ++ ((ends_of reply).0
            ++ (failed_excerpt_marker (dropped reply) max_failed_reply_bytes ++ (ends_of reply).1))
unfolding excerpt_failed_reply
excerpt_failed_reply-cut reply h =
    let a = length-front reply in
    let e : leb (length reply) (max_failed_reply_bytes - length (unrunnable_front_block reply))
        ≡ false =
      ground arith in
    rw e refl

length_parts :
    (head middle tail s : Bytes)
    → head ++ (middle ++ tail) ≡ s
    → length head + (length middle + length tail) ≡ length s
length_parts head middle tail s e =
    let total : length (head ++ (middle ++ tail)) ≡ length s = ap length e in
    omega (arith, total, length-append head (middle ++ tail), length-append middle tail)

cut_file :
    (reply : Bytes)
    → max_failed_reply_bytes < length (unrunnable_front_block reply) + length reply
    → IsCutFile reply (excerpt_failed_reply reply)
cut_file reply lt =
    let front = unrunnable_front_block reply in
    let (head, tail) = ends_of reply in
    let ends =
      head_and_tail-AreEnds reply (max_failed_reply_bytes - length front - reserve reply) in
    let (middle, whole) = AreEnds-middle reply _ _ _ ends in
    let w : length head + (length middle + length tail) ≡ length reply =
      length_parts head middle tail reply whole in
    let same : dropped reply ≡ length middle = omega (arith, w) in
    record {
      head = head;
      middle = middle;
      tail = tail;
      whole = whole;
      laid_out =
          subst
            (λ k.
              excerpt_failed_reply reply
              ≡ front ++ (head ++ (failed_excerpt_marker k max_failed_reply_bytes ++ tail)))
            same (excerpt_failed_reply-cut reply lt);
    }

cut-bounded :
    (reply : Bytes)
    → length reply < 2 ^ 63
    → max_failed_reply_bytes < length (unrunnable_front_block reply) + length reply
    → length (excerpt_failed_reply reply) ≤ max_failed_reply_bytes
cut-bounded reply int lt =
    let front = unrunnable_front_block reply in
    let (head, tail) = ends_of reply in
    let ends =
      head_and_tail-AreEnds reply (max_failed_reply_bytes - length front - reserve reply) in
    let marker = failed_excerpt_marker (dropped reply) max_failed_reply_bytes in
    let m : length marker ≤ reserve reply =
      length-marker (dropped reply) (length reply) max_failed_reply_bytes (omega arith) in
    rw (excerpt_failed_reply-cut reply lt) (
      omega (
        arith,
        ends.within,
        m,
        length-append front (head ++ (marker ++ tail)),
        length-append head (marker ++ tail),
        length-append marker tail,
        length-front reply,
        length-marker_int (length reply) int,
      ))

-- A failed reply of any length that an `int` holds makes a file of 262144 bytes at most. If the copied
-- UNRUNNABLE lines and the reply fit in that, the file is the two, whole; if they do not, the reply's
-- beginning and end stand around a marker that names exactly how many bytes between them were left
-- out.
pub excerpt_failed_reply-bounded :
    (reply : Bytes)
    → length reply < 2 ^ 63
    → let size = length (unrunnable_front_block reply) + length reply in
      (length (excerpt_failed_reply reply) ≤ max_failed_reply_bytes)
      × (((size ≤ max_failed_reply_bytes)
            × (excerpt_failed_reply reply ≡ unrunnable_front_block reply ++ reply))
          ⊎ ((max_failed_reply_bytes < size) × IsCutFile reply (excerpt_failed_reply reply)))
excerpt_failed_reply-bounded reply int =
    let front = unrunnable_front_block reply in
    elim (Bool-cases (leb (length front + length reply) max_failed_reply_bytes)) [
      | inl fits ↦
          let le : length front + length reply ≤ max_failed_reply_bytes = ground arith in
          let e = excerpt_failed_reply-fits reply le in
          (rw e (omega (arith, le, length-append front reply)), inl (le, e))
      | inr long ↦
          let lt : max_failed_reply_bytes < length front + length reply = ground arith in
          (cut-bounded reply int lt, inr (lt, cut_file reply lt))
    ]
