-- ===== src/Ledger/Aligned.antt =====
-- How wide the cells of the table of internal/ledger/ledger.go are.
use oh_my_graph.Base.{
  ℕ, zero, suc, ◌+◌, ◌-◌, ◌≤◌, String, Bool, true, false, ◌++◌, none, some, ◌≡◌, refl, ap, ◌∙◌, inl,
  inr, length, length-append, arith, Bool-cases, Option-cases, if◌then◌else◌, leb, ◌==◌,
}
use oh_my_graph.Base.Int.{ℤ}
use oh_my_graph.Base.Text.{codes}
use oh_my_graph.Base.Bytes.{take, length-take}
use oh_my_graph.Ledger.{Record}
use oh_my_graph.Ledger.Table.{
  Runes, spaces, pad_right, pad_left, session_width, short_session, session_cell, verdict_cell,
  verdict_width, print_int, Floats, cost_width, budget_used_percent, cost_cell, cost_header,
  header_front, row_front, rule_width, detail_width, node_width, budget_annotation_width,
  session_stub,
}

length-spaces : (n : ℕ) → length (spaces n) ≡ n
length-spaces zero = refl
length-spaces (suc n) = ap suc (length-spaces n)

-- A cell is padded to its width and never cut.
length-pad_right : (width : ℕ) (s : Runes) → length (pad_right width s) ≡ width + (length s - width)
length-pad_right width s =
    omega (arith, length-append s (spaces (width - length s)), length-spaces (width - length s))

length-short_session : (id : String) → length (short_session id) ≤ session_width
unfolding short_session
length-short_session id = elim (Bool-cases (id == "")) [
  | inl e ↦ rw e (omega arith)
  | inr e ↦ elim (Bool-cases (leb (length (codes id)) session_width)) [
    | inl short ↦ rw (e, short) (ground arith)
    | inr long ↦
        rw (e, long)
          (omega (
            arith,
            length-append (take session_stub (codes id)) (codes "…"),
            length-take session_stub (codes id),
          ))
  ]
]

session_cell-width : (id : String) → length (session_cell id) ≡ session_width
unfolding session_cell
session_cell-width id =
    omega (arith, length-pad_right session_width (short_session id), length-short_session id)

abbrev annotation : ℤ → Runes
annotation percent = codes " (" ++ print_int percent ++ codes "%)"

module _ (floats : Floats) (rec : Record) where
  abbrev cost : Runes
  cost =
      if rec.cost_unknown
      then pad_left cost_width (codes "unknown")
      else floats.print_cost rec.cost_usd

  -- By how much the cost and the share of the budget are wider than their columns.
  abbrev pub cost_overhang : Bool → ℕ
  cost_overhang budgeted =
      length cost
      - cost_width
      + (if budgeted
          then elim (budget_used_percent floats rec) [
            | none ↦ 0
            | some percent ↦ length (annotation percent) - budget_annotation_width
          ]
          else 0)

  -- By how much a row is wider than the columns in front of DETAIL: the session id is the one cell
  -- that is cut.
  abbrev pub overhang : Bool → ℕ
  overhang budgeted =
      length (codes rec.node_id)
      - node_width
      + (length (verdict_cell rec) - verdict_width)
      + cost_overhang budgeted

  module _ (padded : (amount : ℤ) → cost_width ≤ length (floats.print_cost amount)) where
    cost-padded : cost_width ≤ length cost
    cost-padded = elim (Bool-cases rec.cost_unknown) [
      | inl e ↦ rw e (omega arith)
      | inr e ↦ rw e (padded rec.cost_usd)
    ]

    cost_cell-width :
        (budgeted : Bool)
        → length (cost_cell floats rec budgeted)
          ≡ length (cost_header budgeted) + cost_overhang budgeted
    unfolding cost_cell cost_header
    cost_cell-width false = omega (arith, cost-padded)
    cost_cell-width true = elim (Option-cases (budget_used_percent floats rec)) [
      | inl e ↦
          rw e (omega (arith, length-append cost (spaces budget_annotation_width), cost-padded))
      | inr (percent, e) ↦
          let note = pad_right budget_annotation_width (annotation percent) in
          rw e (
            omega (
              arith,
              length-append cost note,
              length-pad_right budget_annotation_width (annotation percent),
              cost-padded,
            ))
    ]

    header_front-width :
        (budgeted : Bool) → length (header_front budgeted) ≡ 57 + length (cost_header budgeted)
    unfolding header_front cost_header
    header_front-width true = refl
    header_front-width false = refl

    rule-width :
        (budgeted : Bool) → 57 + length (cost_header budgeted) + detail_width ≡ rule_width budgeted
    unfolding cost_header rule_width
    rule-width true = refl
    rule-width false = refl

    -- Where `%10.4f` prints ten characters at least, what a row shows in front of its detail is as wide
    -- as the header in front of DETAIL, and wider only by as much as its node id is longer than 16
    -- characters, its verdict longer than 20, its cost longer than 10 and its share of the budget
    -- longer than 7; a session id of any length keeps its column. The rule ends with DETAIL.
    pub row_front-aligned :
        (budgeted : Bool)
        → (length (row_front floats rec budgeted)
            ≡ length (header_front budgeted) + overhang budgeted)
          × (length (header_front budgeted) + detail_width ≡ rule_width budgeted)
    unfolding row_front
    row_front-aligned budgeted =
        let a = pad_right node_width (codes rec.node_id) in
        let b = pad_right verdict_width (verdict_cell rec) in
        let c = session_cell rec.session_id in
        let d = cost_cell floats rec budgeted in
        let head = header_front-width budgeted in
        (
          omega (
            arith,
            head,
            length-append (a ++ codes " " ++ b ++ codes " " ++ c ++ codes " " ++ d) (codes "  "),
            length-append (a ++ codes " " ++ b ++ codes " " ++ c ++ codes " ") d,
            length-append (a ++ codes " " ++ b ++ codes " " ++ c) (codes " "),
            length-append (a ++ codes " " ++ b ++ codes " ") c,
            length-append (a ++ codes " " ++ b) (codes " "),
            length-append (a ++ codes " ") b,
            length-append a (codes " "),
            length-pad_right node_width (codes rec.node_id),
            length-pad_right verdict_width (verdict_cell rec),
            session_cell-width rec.session_id,
            cost_cell-width budgeted,
          ),
          ap (◌+ detail_width) head ∙ rule-width budgeted,
        )
