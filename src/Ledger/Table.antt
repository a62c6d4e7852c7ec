-- ===== src/Ledger/Table.antt =====
-- The cells of the table that Render of internal/ledger/ledger.go prints.
use oh_my_graph.Base.{
  ℕ, zero, suc, ◌+◌, ◌-◌, String, Bool, true, false, List, [], ◌∷◌, ◌++◌, Option, none, some, ◌==◌,
  ◌||◌, if◌then◌else◌, leb, length, any,
}
use oh_my_graph.Base.Int.{ℤ, pos, negsuc, leb_ℤ}
use oh_my_graph.Base.Text.{codes}
use oh_my_graph.Base.Decimal.{decimal}
use oh_my_graph.Base.Bytes.{take}
use oh_my_graph.Ledger.{Record}

abbrev pub node_width : ℕ
node_width = 16

abbrev pub verdict_width : ℕ
verdict_width = 20

abbrev pub session_width : ℕ
session_width = 16

abbrev pub session_stub : ℕ
session_stub = 15

abbrev pub cost_width : ℕ
cost_width = 10

abbrev pub detail_width : ℕ
detail_width = 6

abbrev pub budget_annotation_width : ℕ
budget_annotation_width = 7

abbrev pub table_width : ℕ
table_width = node_width + 1 + verdict_width + 1 + session_width + 1 + cost_width + 2 + detail_width

-- Texts are lists of code points, which `fmt` and `utf8.RuneCountInString` count.
abbrev pub Runes : Type 0
Runes = List ℕ

-- `strings.Repeat(" ", n)`
abbrev pub spaces : ℕ → Runes
spaces zero = []
spaces (suc n) = b' ' ∷ spaces n

-- `fmt.Sprintf("%-*s", width, s)`
abbrev pub pad_right : ℕ → Runes → Runes
pad_right width s = s ++ spaces (width - length s)

-- `fmt.Sprintf("%*s", width, s)`
abbrev pub pad_left : ℕ → Runes → Runes
pad_left width s = spaces (width - length s) ++ s

unfoldable pub short_session : String → Runes
short_session id =
    if id == ""
    then codes "-"
    else if leb (length (codes id)) session_width
    then codes id
    else take session_stub (codes id) ++ codes "…"

unfoldable pub session_cell : String → Runes
unfolding short_session
session_cell id = let stub = short_session id in stub ++ spaces (session_width - length stub)

unfoldable pub verdict_cell : Record → Runes
verdict_cell rec =
    if rec.provenance == ""
    then codes rec.verdict
    else codes rec.verdict ++ codes " (" ++ codes rec.provenance ++ codes ")"

-- `%d`
abbrev pub print_int : ℤ → Runes
print_int (pos n) = decimal n
print_int (negsuc n) = b'-' ∷ decimal (n + 1)

unfoldable pub cost_header : Bool → Runes
cost_header budgeted =
    let header = pad_left cost_width (codes "COST(USD)") in
    if budgeted then header ++ spaces budget_annotation_width else header

unfoldable pub rule_width : Bool → ℕ
rule_width budgeted = if budgeted then table_width + budget_annotation_width else table_width

-- What `Render` prints of the header in front of DETAIL.
unfoldable pub header_front : Bool → Runes
unfolding cost_header
header_front budgeted =
    pad_right node_width (codes "NODE")
    ++ codes " "
    ++ pad_right verdict_width (codes "VERDICT")
    ++ codes " "
    ++ pad_right session_width (codes "SESSION")
    ++ codes " "
    ++ cost_header budgeted
    ++ codes "  "

-- What is done with a `float64`, whose rounding is not modelled: what
-- `math.Floor(cost / budget * 100)` yields, and what `%10.4f` and `%.4f` print.
pub record Floats : Type 0 where
  pub floor_percent : (cost budget : ℤ) → ℤ
  pub print_cost : ℤ → Runes
  pub print_dollars : ℤ → Runes

module _ (floats : Floats) where
  unfoldable pub budget_used_percent : Record → Option ℤ
  budget_used_percent r =
      if leb_ℤ r.budget_usd (pos 0) || r.cost_unknown
      then none
      else some (floats.floor_percent r.cost_usd r.budget_usd)

  abbrev is_declared : Option ℤ → Bool
  is_declared none = false
  is_declared (some _) = true

  unfoldable pub any_budget_declared : List Record → Bool
  unfolding budget_used_percent
  any_budget_declared rows = any (λ rec. is_declared (budget_used_percent rec)) rows

  unfoldable pub cost_cell : Record → Bool → Runes
  unfolding budget_used_percent
  cost_cell rec budgeted =
      let cost =
        if rec.cost_unknown
        then pad_left cost_width (codes "unknown")
        else floats.print_cost rec.cost_usd in
      if budgeted
      then elim (budget_used_percent rec) [
        | none ↦ cost ++ spaces budget_annotation_width
        | some percent ↦
            cost
            ++ pad_right budget_annotation_width (codes " (" ++ print_int percent ++ codes "%)")
      ]
      else cost

  -- What `Render` prints of a row in front of its detail.
  unfoldable pub row_front : Record → Bool → Runes
  unfolding verdict_cell session_cell cost_cell
  row_front rec budgeted =
      pad_right node_width (codes rec.node_id)
      ++ codes " "
      ++ pad_right verdict_width (verdict_cell rec)
      ++ codes " "
      ++ session_cell rec.session_id
      ++ codes " "
      ++ cost_cell rec budgeted
      ++ codes "  "
