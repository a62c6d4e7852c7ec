-- ===== src/FailedReply.antt =====
-- internal/handoff/handoff.go: the text that failed/<node-id>.out holds of a failed node's reply.
pub mod Bounds
use oh_my_graph.Base.{
  ℕ, zero, suc, ◌+◌, ◌-◌, ◌*◌, Bool, true, false, List, [], ◌∷◌, ◌++◌, if◌then◌else◌, ltb, leb, eqb,
  length,
}
use mathlib.Core.List.{reverse}
use oh_my_graph.Base.Text.{is_space, is_empty}
use oh_my_graph.Base.Bytes.{Bytes, bytes, has_prefix, trim_left}
use oh_my_graph.Base.Decimal.{decimal}
use oh_my_graph.Fence.{head_and_tail}

abbrev pub max_failed_reply_bytes : ℕ
max_failed_reply_bytes = 256 * 1024

unfoldable pub unrunnable_done_item_marker : Bytes
unrunnable_done_item_marker = bytes "UNRUNNABLE:"

abbrev pub max_unrunnable_front_bytes : ℕ
max_unrunnable_front_bytes = 4 * 1024

unfoldable pub unrunnable_front_note : Bytes
unrunnable_front_note = bytes "… oh-my-graph copied the lines above from the reply below …\n\n"

-- `strings.Split(reply, "\n")`: the first line and the others.
abbrev pub split_lines : Bytes → Bytes × List Bytes
split_lines [] = ([], [])
split_lines (b ∷ bs) =
    let (first, others) = split_lines bs in
    if eqb b b'\n' then ([], first ∷ others) else (b ∷ first, others)

drop_return : Bytes → Bytes
drop_return [] = []
drop_return (b ∷ rev) = if eqb b b'\r' then rev else b ∷ rev

-- `strings.TrimSuffix(line, "\r")`
unfoldable pub trim_return : Bytes → Bytes
unfolding drop_return
trim_return line = reverse (drop_return (reverse line))

unfoldable pub is_unrunnable : Bytes → Bool
unfolding trim_left is_space unrunnable_done_item_marker
is_unrunnable line = has_prefix unrunnable_done_item_marker (trim_left is_space 0 line)

-- One round of the loop over the lines, on what the builder holds.
unfoldable pub add_line : Bytes → Bytes → Bytes
unfolding is_unrunnable trim_return
add_line built line =
    let plain = trim_return line in
    if is_unrunnable plain
    then (if ltb max_unrunnable_front_bytes (length built + length plain + 1)
        then built
        else built ++ (plain ++ b'\n' ∷ []))
    else built

unfoldable pub add_lines : List Bytes → Bytes → Bytes
unfolding add_line
add_lines [] built = built
add_lines (line ∷ lines) built = add_lines lines (add_line built line)

unfoldable pub unrunnable_front_block : Bytes → Bytes
unfolding add_lines unrunnable_front_note
unrunnable_front_block reply =
    let (first, others) = split_lines reply in
    let built = add_lines (first ∷ others) [] in
    if is_empty built then [] else built ++ unrunnable_front_note

-- `fmt.Sprintf(failedExcerptMarker, dropped, cap)`
unfoldable pub failed_excerpt_marker : ℕ → ℕ → Bytes
unfolding decimal
failed_excerpt_marker dropped cap =
    bytes "\n\n… oh-my-graph excerpted "
    ++ (decimal dropped
        ++ (bytes " bytes here: this reply exceeded the "
            ++ (decimal cap ++ bytes "-byte cap on failed/<node-id>.out …\n\n")))

unfoldable pub excerpt_failed_reply : Bytes → Bytes
unfolding unrunnable_front_block failed_excerpt_marker head_and_tail
excerpt_failed_reply reply =
    let front = unrunnable_front_block reply in
    let budget = max_failed_reply_bytes - length front in
    if leb (length reply) budget
    then front ++ reply
    else let reserve = length (failed_excerpt_marker (length reply) max_failed_reply_bytes) in
      let (head, tail) = head_and_tail reply (budget - reserve) in
      let dropped = length reply - length head - length tail in
      front ++ (head ++ (failed_excerpt_marker dropped max_failed_reply_bytes ++ tail))
