-- ===== src/Schedule/Policy.antt =====
-- internal/schedule/scheduler.go: how wide a run is, whether a failure halts it, and which
-- permission mode, tools and provenance a node gets.
pub mod Bounds
use oh_my_graph.Base.{
  String, ◌==◌, Bool, true, false, not, ◌||◌, List, [], ◌∷◌, Option, none, some, if◌then◌else◌,
}
use oh_my_graph.Base.Int.{ℤ, pos, ltb_ℤ, leb_ℤ}
use oh_my_graph.Graph.{Graph, Node, continues_on_fail, is_none, type_gate}

abbrev pub default_concurrency : ℤ
default_concurrency = pos 4

abbrev pub global_concurrency_cap : ℤ
global_concurrency_cap = pos 10

unfoldable pub effective_concurrency : ℤ → ℤ → ℤ
effective_concurrency override graph_concurrency =
    let width1 = if leb_ℤ override (pos 0) then graph_concurrency else override in
    let width2 = if leb_ℤ width1 (pos 0) then default_concurrency else width1 in
    if ltb_ℤ global_concurrency_cap width2 then global_concurrency_cap else width2

unfoldable pub effective_continue_on_fail : Bool → Graph → Bool
effective_continue_on_fail flag g = flag || continues_on_fail g

unfoldable pub effective_permission_mode : Node → String → String
effective_permission_mode n default_mode =
    if not (n.permission_mode == "") then n.permission_mode else default_mode

-- `ToolPolicy`, as far as the scheduler fills it.
pub record ToolPolicy : Type 0 where
  pub allowed_tools : List String

pub data Policy : Type 0 where
  allowed : ToolPolicy → Policy
  missing_policy : (node_id : String) → Policy

-- `policyFor`: the map of imposed policies is `none` for Go's nil map.
unfoldable pub policy_for : Option (String → Option ToolPolicy) → Node → Policy
policy_for none n = allowed (record { allowed_tools = n.allowed_tools })
policy_for (some policies) n = elim (policies n.id) [
  | none ↦ missing_policy n.id
  | some p ↦ allowed p
]

pub data Provenance : Type 0 where
  approved verified self_reported exit_only : Provenance

unfoldable pub pass_provenance : Node → Provenance
pass_provenance n =
    if n.type == type_gate
    then approved
    else if not (is_none n.success_check.verify)
    then verified
    else if not (n.success_check.result_matches == "")
        || ltb_ℤ (pos 0) n.success_check.result_min_bytes
    then self_reported
    else exit_only
