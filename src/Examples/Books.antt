-- ===== src/Examples/Books.antt =====
-- The ledger at work: two nodes that end in either order, one of them in two rounds.
use oh_my_graph.Base.{
  String, true, false, List, [], ◌∷◌, ◌+◌, ◌≡◌, refl, sym, ◌↔◌, ◌==◌, eq_iff, eq_false_iff, ◌∙◌, ap,
  if◌then◌else◌, ◌*◌, length, arith,
}
use oh_my_graph.Base.Int.{ℤ, pos}
use oh_my_graph.Base.Float.{◌+float◌, round_sum, round_float, spare_bits}
use Prim.Native.Nat.{◌^◌}
use oh_my_graph.Base.Text.{codes}
use oh_my_graph.Ledger.{
  Record, Entry, Entry.row, no_usage, verdict_pass, new_ledger, enter_all, enter, record_row,
  records, total_cost,
}
use oh_my_graph.Base.Sorted.{with_key, cons_swap}
use oh_my_graph.Ledger.Rows.{rows_of, IsReport, records_decides}
use oh_my_graph.Ledger.Table.{Floats, row_front, header_front, detail_width, rule_width}
use oh_my_graph.Ledger.Aligned.{overhang, row_front-aligned}
use oh_my_graph.Ledger.Render.{render, table_with, render-order}

abbrev execution_of : String → ℤ → Record
execution_of id cost = record {
  node_id = id;
  session_id = "6f1c2a9e-5b1d-4c2f-9a77-0d8a2b1c3e4f";
  cost_usd = cost;
  cost_unknown = false;
  reported_cost_usd = cost;
  reported_cost_unknown = false;
  usage = no_usage;
  budget_usd = pos (2 ^ 1077);
  verdict = verdict_pass;
  duration = pos 1_000_000_000;
  detail = "";
  provenance = "verified";
}

-- The values of the literals 4.885782, 1.911142 and 3.945826.
abbrev build_cost : ℤ
build_cost = pos (5500901498653369 * 2 ^ 1024)

abbrev first_check_cost : ℤ
first_check_cost = pos (1075877299881513 * 2 ^ 1025)

abbrev second_check_cost : ℤ
second_check_cost = pos (8885210251634407 * 2 ^ 1023)

abbrev build_row : Record
build_row = execution_of "build" build_cost

abbrev first_check_row : Record
first_check_row = execution_of "check" first_check_cost

abbrev second_check_row : Record
second_check_row = execution_of "check" second_check_cost

abbrev entries : List Entry
entries = row first_check_row ∷ row second_check_row ∷ row build_row ∷ []

abbrev other_order : List Entry
other_order = row build_row ∷ row first_check_row ∷ row second_check_row ∷ []

-- `TotalCost` of the two orders: they differ in the last digit, and print as 10.7428 and 10.7427.
total_of_entries : total_cost (enter_all (new_ledger "1") entries) ≡ pos (94494228314325 * 2 ^ 1031)
unfolding total_cost enter_all enter record_row ◌+float◌ round_sum round_float spare_bits
total_of_entries = refl

total_of_other_order :
    total_cost (enter_all (new_ledger "1") other_order) ≡ pos (6047630612116799 * 2 ^ 1025)
unfolding total_cost enter_all enter record_row ◌+float◌ round_sum round_float spare_bits
total_of_other_order = refl

-- A quarter of the budget, and the cost that goes with it.
abbrev quarter : Floats
quarter = record {
  floor_percent = λ _ _. pos 25;
  print_cost = λ _. codes "    0.2500";
  print_dollars = λ _. codes "0.2500";
}

apart : (id : String) → ("build" == id) ≡ true → ("check" == id) ≡ true → ⊥
apart id a b = absurd (
    (eq_false_iff "check" "build").0 refl ((eq_iff "check" id).0 b ∙ sym ((eq_iff "build" id).0 a)))

same_per_node :
    (id : String)
    → with_key Record.node_id id (rows_of entries)
      ≡ with_key Record.node_id id (rows_of other_order)
same_per_node id =
    let front = λ (rows : List Record). if "check" == id then first_check_row ∷ rows else rows in
    ap front (
      cons_swap Record.node_id ("build" == id) ("check" == id) build_row second_check_row []
        (apart id))
    ∙ cons_swap Record.node_id ("build" == id) ("check" == id) build_row first_check_row
        (with_key Record.node_id id (second_check_row ∷ [])) (apart id)

records_decides_example :
    IsReport (enter_all (new_ledger "1") entries) (records (enter_all (new_ledger "1") other_order))
    ↔ (records (enter_all (new_ledger "1") other_order)
        ≡ records (enter_all (new_ledger "1") entries))
records_decides_example =
    records_decides (enter_all (new_ledger "1") entries)
      (records (enter_all (new_ledger "1") other_order))

render-order_example :
    let l = enter_all (new_ledger "1") entries in
    let l' = enter_all (new_ledger "1") other_order in
    render quarter l ≡ table_with quarter l' (total_cost l)
render-order_example = render-order quarter "1" entries other_order same_per_node refl

row_front-aligned_example :
    (length (row_front quarter build_row true)
      ≡ length (header_front true) + overhang quarter build_row true)
    × (length (header_front true) + detail_width ≡ rule_width true)
row_front-aligned_example = row_front-aligned quarter build_row (λ _. omega arith) true
