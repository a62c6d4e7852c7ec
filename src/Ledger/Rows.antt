-- ===== src/Ledger/Rows.antt =====
-- What RunLedger.Records of internal/ledger/ledger.go returns, and what of the book does not
-- depend on the order in which the nodes of a run end.
use oh_my_graph.Base.{
  ℕ, String, Bool, true, ◌||◌, List, [], ◌∷◌, ◌++◌, ◌≡◌, refl, sym, ap, ◌∙◌, ◌↔◌, if◌then◌else◌,
  arith, any,
}
use oh_my_graph.Base.Int.{ℤ}
use oh_my_graph.Base.Float.{◌+float◌}
use oh_my_graph.Base.Order.{sort_stable}
use oh_my_graph.Base.Sorted.{
  IsSorted, with_key, sort_stable-IsSorted, with_key-sort_stable, sorted_unique, foldl-sort_stable,
}
use oh_my_graph.Ledger.{
  Record, TokenUsage, RunLedger, Entry, Entry.row, Entry.planned, add_int64, add_usage,
  add_row_usage, records, new_ledger, cost_unknown, total_usage, enter, enter_all, record_row,
  record_planning,
}
use mathlib.Core.List.{foldl, append-nil, append_assoc}

-- The rows of a table come in the order of their node ids, and the executions of one node in the
-- order in which they were recorded.
abbrev pub IsReport : RunLedger → List Record → Type 0
IsReport l table =
    IsSorted Record.node_id table
    × ((id : String) → with_key Record.node_id id table ≡ with_key Record.node_id id l.rows)

-- Records returns the report of the book, and a list that is a report of the book is what it returns.
pub records_decides : (l : RunLedger) (table : List Record) → IsReport l table ↔ (table ≡ records l)
unfolding records
records_decides l table =
    let sorted = sort_stable-IsSorted Record.node_id l.rows in
    let kept = λ (id : String). with_key-sort_stable Record.node_id id l.rows in
    (
      λ (in_order, same).
          sorted_unique Record.node_id table (sort_stable Record.node_id l.rows) in_order sorted
            (λ id. same id ∙ sym (kept id)),
      λ e. rw e (sorted, kept),
    )

add_int64_swap : (a x y : ℕ) → add_int64 (add_int64 a x) y ≡ add_int64 (add_int64 a y) x
add_int64_swap a x y = omega arith

add_usage_swap : (u x y : TokenUsage) → add_usage (add_usage u x) y ≡ add_usage (add_usage u y) x
unfolding add_usage
add_usage_swap u x y = λ i. record {
  input_tokens = add_int64_swap u.input_tokens x.input_tokens y.input_tokens i;
  cached_input_tokens =
      add_int64_swap u.cached_input_tokens x.cached_input_tokens y.cached_input_tokens i;
  output_tokens = add_int64_swap u.output_tokens x.output_tokens y.output_tokens i;
  reasoning_output_tokens =
      add_int64_swap u.reasoning_output_tokens x.reasoning_output_tokens y.reasoning_output_tokens
        i;
}

add_row_usage_swap :
    (u : TokenUsage) (x y : Record)
    → add_row_usage (add_row_usage u x) y ≡ add_row_usage (add_row_usage u y) x
unfolding add_row_usage
add_row_usage_swap u x y = add_usage_swap u x.usage y.usage

or_swap : (b x y : Bool) → ((b || x) || y) ≡ ((b || y) || x)
or_swap b x y = ground arith

foldl-or :
    (p : Record → Bool) (b : Bool) (xs : List Record)
    → foldl (λ c x. c || p x) b xs ≡ (b || any p xs)
foldl-or p b [] = ground arith
foldl-or p b (x ∷ xs) = foldl-or p (b || p x) xs ∙ or_assoc b (p x) (any p xs)
  where
    or_assoc : (b c d : Bool) → ((b || c) || d) ≡ (b || (c || d))
    or_assoc b c d = ground arith

-- What is read from a ledger at the end of a run, but for the total of the costs.
abbrev pub SameSummary : RunLedger → RunLedger → Type 0
SameSummary a b =
    (records a ≡ records b)
    × (a.planning_cost_usd ≡ b.planning_cost_usd)
    × (cost_unknown a ≡ cost_unknown b)
    × (total_usage a ≡ total_usage b)

abbrev Plan : Type 0
Plan = ℤ × Bool × TokenUsage

abbrev plan_of : RunLedger → Plan
plan_of l = (l.planning_cost_usd, l.planning_cost_unknown, l.planning_usage)

-- The rows that a run enters, and its planning calls.
abbrev pub rows_of : List Entry → List Record
rows_of [] = []
rows_of (row rec ∷ entries) = rec ∷ rows_of entries
rows_of (planned _ _ _ ∷ entries) = rows_of entries

abbrev pub plans_of : List Entry → List (ℤ × Bool × TokenUsage)
plans_of [] = []
plans_of (row _ ∷ entries) = plans_of entries
plans_of (planned cost unknown usage ∷ entries) = (cost, unknown, usage) ∷ plans_of entries

enter_all-rows :
    (l : RunLedger) (entries : List Entry) → (enter_all l entries).rows ≡ l.rows ++ rows_of entries
unfolding enter_all enter record_row record_planning
enter_all-rows l [] = sym (append-nil l.rows)
enter_all-rows l (row rec ∷ entries) =
    enter_all-rows (record_row l rec) entries ∙ append_assoc l.rows (rec ∷ []) (rows_of entries)
enter_all-rows l (planned cost unknown usage ∷ entries) =
    enter_all-rows (record_planning l cost unknown usage) entries

add_plan : Plan → Plan → Plan
add_plan (cost, unknown, usage) (cost', unknown', usage') =
    (cost +float cost', unknown || unknown', add_usage usage usage')

enter_all-plan :
    (l : RunLedger) (entries : List Entry)
    → plan_of (enter_all l entries) ≡ foldl add_plan (plan_of l) (plans_of entries)
unfolding enter_all enter record_row record_planning add_plan
enter_all-plan l [] = refl
enter_all-plan l (row rec ∷ entries) = enter_all-plan (record_row l rec) entries
enter_all-plan l (planned cost unknown usage ∷ entries) =
    enter_all-plan (record_planning l cost unknown usage) entries

abbrev or_unknown : Bool → Record → Bool
or_unknown c rec = c || rec.cost_unknown

-- The totals of a ledger as those of the rows of its table.
cost_unknown-records :
    (l : RunLedger) → cost_unknown l ≡ foldl or_unknown l.planning_cost_unknown (records l)
unfolding cost_unknown records
cost_unknown-records l =
    early l.planning_cost_unknown (any Record.cost_unknown l.rows)
    ∙ sym (foldl-or Record.cost_unknown l.planning_cost_unknown l.rows)
    ∙ sym (
        foldl-sort_stable Record.node_id or_unknown
          (λ b x y. or_swap b x.cost_unknown y.cost_unknown) l.planning_cost_unknown l.rows)
  where
    early : (b c : Bool) → (if b then true else c) ≡ (b || c)
    early b c = ground arith

total_usage-records :
    (l : RunLedger) → total_usage l ≡ foldl add_row_usage l.planning_usage (records l)
unfolding total_usage records
total_usage-records l =
    sym (foldl-sort_stable Record.node_id add_row_usage add_row_usage_swap l.planning_usage l.rows)

-- The summary is read from the rows of the table and the planning call.
summary_of_records :
    (a b : RunLedger) → records a ≡ records b → plan_of a ≡ plan_of b → SameSummary a b
summary_of_records a b same plans = (
  same,
  ap (λ p. p.0) plans,
  rw (cost_unknown-records a, cost_unknown-records b, same)
      (ap (λ c. foldl or_unknown c (records b)) (ap (λ p. p.1) plans)),
  rw (total_usage-records a, total_usage-records b, same)
      (ap (λ c. foldl add_row_usage c (records b)) (ap (λ p. p.2) plans)),
)

records-enter_all :
    (run_id : String) (entries : List Entry)
    → records (enter_all (new_ledger run_id) entries) ≡ sort_stable Record.node_id (rows_of entries)
unfolding records
records-enter_all run_id entries =
    ap (sort_stable Record.node_id) (enter_all-rows (new_ledger run_id) entries)

-- But for the total of the costs, the summary of a run does not depend on the order in which its nodes
-- end: two runs that enter the same rows for each node, in the same order per node, and the same
-- planning calls.
pub enter_all-order :
    (run_id : String) (entries entries' : List Entry)
    → ((id : String)
        → with_key Record.node_id id (rows_of entries)
          ≡ with_key Record.node_id id (rows_of entries'))
    → plans_of entries ≡ plans_of entries'
    → SameSummary (enter_all (new_ledger run_id) entries) (enter_all (new_ledger run_id) entries')
enter_all-order run_id entries entries' same plans =
    let l = new_ledger run_id in
    let table =
      sorted_unique Record.node_id _ _ (sort_stable-IsSorted Record.node_id (rows_of entries))
        (sort_stable-IsSorted Record.node_id (rows_of entries'))
        (λ id.
          with_key-sort_stable Record.node_id id (rows_of entries)
          ∙ same id
          ∙ sym (with_key-sort_stable Record.node_id id (rows_of entries'))) in
    summary_of_records (enter_all l entries) (enter_all l entries')
      (records-enter_all run_id entries ∙ table ∙ sym (records-enter_all run_id entries'))
      (enter_all-plan l entries
        ∙ ap (foldl add_plan (plan_of l)) plans
        ∙ sym (enter_all-plan l entries'))
