-- ===== src/Schedule/Costs.antt =====
-- internal/schedule/sessioncost.go: what a resumed session costs over its parent's.
-- Costs are millionths of a dollar, so the rounding of `float64` is not modelled.
pub mod Corrected
use oh_my_graph.Base.{
  String, Bool, true, false, not, ◌||◌, List, [], ◌∷◌, Option, none, some, if◌then◌else◌,
}
use oh_my_graph.Base.Int.{ℤ, pos, ◌-ℤ◌, ltb_ℤ}
use oh_my_graph.Graph.{Node}
use oh_my_graph.Schedule.Arcs.{assign}

pub record ReportedCost : Type 0 where
  pub usd : ℤ
  pub unknown : Bool

-- `CostNote`, empty or one of two messages.
pub data CostNote : Type 0 where
  no_note parent_unknown : CostNote
  below_parent : (total parent : ℤ) → CostNote

-- The costs of a `NodeOutcome`.
pub record SessionCost : Type 0 where
  pub total : ℤ
  pub unknown : Bool
  pub includes_resumed : Bool
  pub reported : ℤ
  pub reported_unknown : Bool
  pub note : CostNote

-- A baseline that is known; `sessionBaseline` returns it with a flag, here an Option.
unfoldable pub subtract_baseline : SessionCost → ReportedCost → SessionCost
subtract_baseline cost baseline =
    if baseline.unknown
    then record cost { total = pos 0; unknown = true; note = parent_unknown }
    else if ltb_ℤ cost.total baseline.usd
    then record cost { total = pos 0; unknown = true; note = below_parent cost.total baseline.usd }
    else record cost { total = cost.total -ℤ baseline.usd }

unfoldable pub correct_session_cost : SessionCost → Option ReportedCost → SessionCost
correct_session_cost cost baseline =
    let kept = record cost { reported = cost.total; reported_unknown = cost.unknown } in
    if not cost.includes_resumed || cost.unknown then kept else elim baseline [
      | none ↦ record kept { total = pos 0; unknown = true; note = parent_unknown }
      | some b ↦ subtract_baseline kept b
    ]

-- `rememberReportedCost`
abbrev pub remember_reported_cost :
    (String → Option ReportedCost) → String → SessionCost → String → Option ReportedCost
remember_reported_cost costs id cost =
    assign costs id (some (record { usd = cost.reported; unknown = cost.reported_unknown }))

-- `sessionBaseline`: only a resumed session with exactly one dependency has one.
unfoldable pub session_baseline :
    (String → Option ReportedCost) → (resumes : Bool) → List String → Option ReportedCost
session_baseline costs false parents = none
session_baseline costs true [] = none
session_baseline costs true (parent ∷ []) = costs parent
session_baseline costs true (_ ∷ _ ∷ _) = none
