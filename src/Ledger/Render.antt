-- ===== src/Ledger/Render.antt =====
-- Render of internal/ledger/ledger.go: the table of a run, as the text that it prints.
use oh_my_graph.Base.{
  ℕ, zero, suc, ◌-◌, String, Bool, not, List, [], ◌∷◌, ◌++◌, ◌≡◌, refl, sym, ◌∙◌, if◌then◌else◌,
  ltb, length,
}
use oh_my_graph.Base.Int.{ℤ, pos, ltb_ℤ, eqb_ℤ}
use oh_my_graph.Base.Text.{codes}
use oh_my_graph.Base.Decimal.{decimal}
use oh_my_graph.Base.Sorted.{with_key}
use oh_my_graph.Ledger.{
  Record, TokenUsage, RunLedger, Entry, Entry.row, Entry.planned, records, total_cost, cost_unknown,
  total_usage, is_empty_usage, new_ledger, enter_all, enter, record_row, record_planning,
}
use oh_my_graph.Ledger.Rows.{SameSummary, rows_of, plans_of, enter_all-order}
use oh_my_graph.Ledger.Table.{
  Runes, Floats, any_budget_declared, header_front, row_front, rule_width,
}

-- `%d` of an `int64` that is given as its bits.
abbrev print_int64 : ℕ → Runes
print_int64 n =
    if ltb n 9223372036854775808 then decimal n else b'-' ∷ decimal (18446744073709551616 - n)

abbrev newline : Runes
newline = 10 ∷ []

-- `strings.Repeat("-", n)`
abbrev dashes : ℕ → Runes
dashes zero = []
dashes (suc n) = b'-' ∷ dashes n

abbrev usage_line : TokenUsage → Runes
usage_line usage =
    codes "TOKEN USAGE: input "
    ++ print_int64 usage.input_tokens
    ++ codes ", cached "
    ++ print_int64 usage.cached_input_tokens
    ++ codes ", output "
    ++ print_int64 usage.output_tokens
    ++ codes ", reasoning "
    ++ print_int64 usage.reasoning_output_tokens
    ++ newline

module _ (floats : Floats) where
  abbrev row_line : Bool → Record → Runes
  row_line budgeted rec = row_front floats rec budgeted ++ codes rec.detail ++ newline

  abbrev row_lines : Bool → List Record → Runes
  row_lines budgeted [] = []
  row_lines budgeted (rec ∷ rows) = row_line budgeted rec ++ row_lines budgeted rows

  abbrev planning_line : ℤ → Runes
  planning_line planning =
      if not (eqb_ℤ planning (pos 0))
      then codes "PLANNING COST: $" ++ floats.print_dollars planning ++ newline
      else []

  abbrev total_line : ℤ → Bool → Runes
  total_line total unknown =
      if unknown
      then if ltb_ℤ (pos 0) total
        then codes "TOTAL COST: unknown (known subtotal: $"
          ++ floats.print_dollars total
          ++ codes ")"
          ++ newline
        else codes "TOTAL COST: unknown" ++ newline
      else codes "TOTAL COST: $" ++ floats.print_dollars total ++ newline

  -- The table of these rows and totals.
  abbrev table_of : String → List Record → ℤ → ℤ → Bool → TokenUsage → Runes
  table_of run_id rows planning total unknown usage =
      let budgeted = any_budget_declared floats rows in
      let rule = dashes (rule_width budgeted) ++ newline in
      codes "Run "
      ++ codes run_id
      ++ codes " — "
      ++ decimal (length rows)
      ++ codes " node(s)"
      ++ newline
      ++ header_front budgeted
      ++ codes "DETAIL"
      ++ newline
      ++ rule
      ++ row_lines budgeted rows
      ++ rule
      ++ planning_line planning
      ++ total_line total unknown
      ++ (if not (is_empty_usage usage) then usage_line usage else [])

  -- The table of a ledger, with this figure for its total.
  abbrev pub table_with : RunLedger → ℤ → Runes
  table_with l total =
      table_of l.run_id (records l) l.planning_cost_usd total (cost_unknown l) (total_usage l)

  unfoldable pub render : RunLedger → Runes
  render l = table_with l (total_cost l)

  SameSummary-table :
      (a b : RunLedger) (total : ℤ)
      → a.run_id ≡ b.run_id
      → SameSummary a b
      → table_with a total ≡ table_with b total
  SameSummary-table a b total run_id (rows, plans, unknown, usage) =
      λ i. table_of (run_id i) (rows i) (plans i) total (unknown i) (usage i)

  enter_all-run_id :
      (l : RunLedger) (entries : List Entry) → (enter_all l entries).run_id ≡ l.run_id
  unfolding enter_all enter record_row record_planning
  enter_all-run_id l [] = refl
  enter_all-run_id l (row rec ∷ entries) = enter_all-run_id (record_row l rec) entries
  enter_all-run_id l (planned cost unknown usage ∷ entries) =
      enter_all-run_id (record_planning l cost unknown usage) entries

  -- The printed table of a run depends on the order in which its nodes end in the total alone: for an
  -- order that keeps the rows of each node and the planning calls in order, `Render` prints the table
  -- of any other such order with its own sum for the total.
  pub render-order :
      (run_id : String) (entries entries' : List Entry)
      → ((id : String)
          → with_key Record.node_id id (rows_of entries)
            ≡ with_key Record.node_id id (rows_of entries'))
      → plans_of entries ≡ plans_of entries'
      → let l = enter_all (new_ledger run_id) entries in
        let l' = enter_all (new_ledger run_id) entries' in render l ≡ table_with l' (total_cost l)
  unfolding render
  render-order run_id entries entries' same plans =
      let l = enter_all (new_ledger run_id) entries in
      let l' = enter_all (new_ledger run_id) entries' in
      SameSummary-table l l' (total_cost l)
        (enter_all-run_id (new_ledger run_id) entries
          ∙ sym (enter_all-run_id (new_ledger run_id) entries'))
        (enter_all-order run_id entries entries' same plans)
