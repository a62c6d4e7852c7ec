-- ===== src/Ledger.antt =====
-- internal/ledger/ledger.go: the accounting book of a run. Costs are `float64`, in units of
-- 2^-1074 of a dollar, and their sums are rounded (Base/Float); the counts of
-- tokens are 64-bit words, as the bits of an `int64`.
pub mod Rows
pub mod Table
pub mod Aligned
pub mod Render
use oh_my_graph.Base.{
  ℕ, ◌+◌, String, Bool, true, false, ◌&&◌, ◌||◌, List, [], ◌∷◌, ◌++◌, Option, none, some,
  if◌then◌else◌, eqb, any,
}
use oh_my_graph.Base.Int.{ℤ, pos, leb_ℤ}
use oh_my_graph.Base.Float.{◌+float◌, ◌-float◌}
use oh_my_graph.Base.Order.{sort_stable}
use Prim.Native.Nat.{◌%◌}
use mathlib.Core.List.{foldl}

-- `TokenUsage`
pub record TokenUsage : Type 0 where
  pub input_tokens : ℕ
  pub cached_input_tokens : ℕ
  pub output_tokens : ℕ
  pub reasoning_output_tokens : ℕ

abbrev pub verdict_pass : String
verdict_pass = "PASS"

abbrev pub verdict_fail : String
verdict_fail = "FAIL"

-- `Record`; the duration is in nanoseconds.
pub record Record : Type 0 where
  pub node_id : String
  pub session_id : String
  pub cost_usd : ℤ
  pub cost_unknown : Bool
  pub reported_cost_usd : ℤ
  pub reported_cost_unknown : Bool
  pub usage : TokenUsage
  pub budget_usd : ℤ
  pub verdict : String
  pub duration : ℤ
  pub detail : String
  pub provenance : String

-- The sum of two `int64`, which wraps around.
abbrev pub add_int64 : ℕ → ℕ → ℕ
add_int64 a b = (a + b) % 18446744073709551616

-- `TokenUsage.Add`
unfoldable pub add_usage : TokenUsage → TokenUsage → TokenUsage
add_usage u other = record {
  input_tokens = add_int64 u.input_tokens other.input_tokens;
  cached_input_tokens = add_int64 u.cached_input_tokens other.cached_input_tokens;
  output_tokens = add_int64 u.output_tokens other.output_tokens;
  reasoning_output_tokens = add_int64 u.reasoning_output_tokens other.reasoning_output_tokens;
}

-- `TokenUsage.empty`
unfoldable pub is_empty_usage : TokenUsage → Bool
is_empty_usage u =
    eqb u.input_tokens 0
    && eqb u.cached_input_tokens 0
    && eqb u.output_tokens 0
    && eqb u.reasoning_output_tokens 0

-- `BudgetDeltaUSD`
unfoldable pub budget_delta_usd : Record → Option ℤ
budget_delta_usd r =
    if leb_ℤ r.budget_usd (pos 0) || r.cost_unknown
    then none
    else some (r.cost_usd -float r.budget_usd)

-- `RunLedger`
pub record RunLedger : Type 0 where
  pub run_id : String
  pub rows : List Record
  pub planning_cost_usd : ℤ
  pub planning_cost_unknown : Bool
  pub planning_usage : TokenUsage

abbrev pub no_usage : TokenUsage
no_usage = record {
  input_tokens = 0;
  cached_input_tokens = 0;
  output_tokens = 0;
  reasoning_output_tokens = 0;
}

-- `New`
abbrev pub new_ledger : String → RunLedger
new_ledger run_id = record {
  run_id = run_id;
  rows = [];
  planning_cost_usd = pos 0;
  planning_cost_unknown = false;
  planning_usage = no_usage;
}

-- `RunLedger.Record`
unfoldable pub record_row : RunLedger → Record → RunLedger
record_row l rec = record l { rows = l.rows ++ (rec ∷ []) }

unfoldable pub record_planning : RunLedger → ℤ → Bool → TokenUsage → RunLedger
record_planning l cost_usd cost_unknown usage = record l {
  planning_cost_usd = l.planning_cost_usd +float cost_usd;
  planning_cost_unknown = l.planning_cost_unknown || cost_unknown;
  planning_usage = add_usage l.planning_usage usage;
}

unfoldable pub records : RunLedger → List Record
records l = sort_stable Record.node_id l.rows

-- The loop bodies of the totals.
abbrev pub add_cost : ℤ → Record → ℤ
add_cost total rec = total +float rec.cost_usd

unfoldable pub add_row_usage : TokenUsage → Record → TokenUsage
unfolding add_usage
add_row_usage total rec = add_usage total rec.usage

unfoldable pub total_cost : RunLedger → ℤ
total_cost l = foldl add_cost l.planning_cost_usd l.rows

unfoldable pub cost_unknown : RunLedger → Bool
cost_unknown l = if l.planning_cost_unknown then true else any Record.cost_unknown l.rows

unfoldable pub total_usage : RunLedger → TokenUsage
unfolding add_row_usage
total_usage l = foldl add_row_usage l.planning_usage l.rows

-- The calls that a run makes on its ledger, in the order in which they get the lock.
pub data Entry : Type 0 where
  row : Record → Entry
  planned : (cost_usd : ℤ) (cost_unknown : Bool) (usage : TokenUsage) → Entry

unfoldable pub enter : RunLedger → Entry → RunLedger
unfolding record_row record_planning
enter l (row rec) = record_row l rec
enter l (planned cost_usd cost_unknown usage) = record_planning l cost_usd cost_unknown usage

unfoldable pub enter_all : RunLedger → List Entry → RunLedger
unfolding enter
enter_all l entries = foldl enter l entries
