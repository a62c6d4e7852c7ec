-- ===== src/Graph.antt =====
-- internal/graph/graph.go: the Node and Graph values, the by-id index, the defaults that decoding
-- fills in, and the topology questions that the scheduler asks.
-- A Go `map[string]Node` is an association list whose insertion replaces. The text of a
-- declared field is its YAML value; `budget_usd` counts millionths of a dollar.
pub mod Index
pub mod Ready
pub mod Paths
use oh_my_graph.Base.{
  ℕ, zero, suc, String, ◌==◌, Bool, true, false, not, ◌&&◌, List, [], ◌∷◌, map, Option, none, some,
  if◌then◌else◌, contains, select, all,
}
use oh_my_graph.Base.Int.{ℤ, pos, leb_ℤ}

-- The closed sets of enum values.
abbrev pub type_claude_run : String
type_claude_run = "claude-run"

abbrev pub type_gate : String
type_gate = "gate"

abbrev pub handoff_artifact : String
handoff_artifact = "artifact"

abbrev pub handoff_session : String
handoff_session = "session"

abbrev pub on_fail_halt : String
on_fail_halt = "halt"

abbrev pub on_fail_continue : String
on_fail_continue = "continue"

-- Durations are nanoseconds, as in `time.Duration`.
abbrev pub default_verify_timeout : ℤ
default_verify_timeout = pos 120_000_000_000

abbrev pub max_verify_timeout : ℤ
max_verify_timeout = pos 600_000_000_000

-- `timeout` is the declared text, `parsed_timeout` the unexported field that Validate fills.
pub record Verification : Type 0 where
  pub command : String
  pub cwd : String
  pub timeout : String
  pub expect_exit : Option ℤ
  pub output_matches : String
  pub parsed_timeout : ℤ

-- The default for a Verification that never went through validation.
unfoldable pub verification_timeout_duration : Verification → ℤ
verification_timeout_duration v =
    if leb_ℤ v.parsed_timeout (pos 0) then default_verify_timeout else v.parsed_timeout

unfoldable pub expected_exit_code : Verification → ℤ
expected_exit_code v = elim v.expect_exit [ none ↦ pos 0 | some code ↦ code ]

pub record SuccessCheck : Type 0 where
  pub exit_zero : Bool
  pub result_matches : String
  pub result_min_bytes : ℤ
  pub verify : Option Verification

abbrev is_zero_int : ℤ → Bool
is_zero_int (pos zero) = true
is_zero_int _ = false

abbrev pub is_none {ℓ} : {A : Type ℓ} → Option A → Bool
is_none none = true
is_none (some _) = false

-- `SuccessCheck.IsZero`
unfoldable pub is_zero : SuccessCheck → Bool
is_zero c =
    not c.exit_zero && c.result_matches == "" && is_zero_int c.result_min_bytes && is_none c.verify

pub record Retry : Type 0 where
  pub max : ℤ
  pub on : List String

pub record Feedback : Type 0 where
  pub rerun : String
  pub max : ℤ

-- `use_fragment` and `with_bindings` are the fields Use and With; of the values bound by With only
-- their text is kept. A map field is `none` for Go's nil map.
pub record Node : Type 0 where
  pub id : String
  pub type : String
  pub depends_on : List String
  pub prompt : String
  pub cwd : String
  pub allowed_tools : List String
  pub permission_mode : String
  pub budget_usd : ℤ
  pub handoff : String
  pub success_check : SuccessCheck
  pub retry : Option Retry
  pub description : String
  pub timeout : String
  pub agent : String
  pub worktree : String
  pub feedback : Option Feedback
  pub use_fragment : String
  pub with_bindings : Option (List (String × String))
  pub reuse : String
  pub bind : Option (List (String × String))
  pub parsed_timeout : ℤ

-- The map `byID`. `g.byID[id] = n` replaces an entry and adds a missing one.
abbrev pub Index : Type 0
Index = List (String × Node)

unfoldable pub index_lookup : Index → String → Option Node
index_lookup [] id = none
index_lookup ((k, n) ∷ rest) id = if k == id then some n else index_lookup rest id

unfoldable pub index_set : Index → String → Node → Index
index_set [] id n = (id, n) ∷ []
index_set ((k, old) ∷ rest) id n = if k == id then (k, n) ∷ rest else (k, old) ∷ index_set rest id n

pub record Graph : Type 0 where
  pub name : String
  pub version : String
  pub inputs : List String
  pub concurrency : ℤ
  pub on_fail : String
  pub nodes : List Node
  pub by_id : Index

-- What the YAML decoder yields.
pub record RawGraph : Type 0 where
  pub name : String
  pub version : String
  pub inputs : List String
  pub concurrency : ℤ
  pub on_fail : String
  pub nodes : List Node

unfoldable pub normalize_on_fail : String → String
normalize_on_fail on_fail = if on_fail == "" then on_fail_halt else on_fail

normalize_verification : Verification → Verification
normalize_verification v = if v.timeout == "" then record v { timeout = "2m0s" } else v

-- The three defaults of one node: type, handoff, verification timeout.
unfoldable pub normalize_node : Node → Node
unfolding normalize_verification
normalize_node n =
    let typed = if n.type == "" then record n { type = type_claude_run } else n in
    let handed =
      if typed.handoff == "" then record typed { handoff = handoff_artifact } else typed in
    record handed {
      success_check = record handed.success_check {
        verify = elim handed.success_check.verify [
          | none ↦ none
          | some v ↦ some (normalize_verification v)
        ];
      };
    }

unfoldable pub normalize_nodes : List Node → List Node
unfolding normalize_node
normalize_nodes nodes = map normalize_node nodes

-- The loop that builds the index: of two nodes with one id the later one stays.
unfoldable pub build_index : Index → List Node → Index
unfolding index_set
build_index index [] = index
build_index index (n ∷ nodes) = build_index (index_set index n.id n) nodes

unfoldable pub from_raw : RawGraph → Graph
unfolding normalize_on_fail normalize_nodes build_index
from_raw raw = record {
  name = raw.name;
  version = raw.version;
  inputs = raw.inputs;
  concurrency = raw.concurrency;
  on_fail = normalize_on_fail raw.on_fail;
  nodes = normalize_nodes raw.nodes;
  by_id = build_index [] (normalize_nodes raw.nodes);
}

unfoldable pub continues_on_fail : Graph → Bool
continues_on_fail g = g.on_fail == on_fail_continue

unfoldable pub node_by_id : Graph → String → Option Node
unfolding index_lookup
node_by_id g id = index_lookup g.by_id id

-- A node's `DependsOn` through the index; a missing id reads as the zero Node.
unfoldable pub parents_of : Graph → String → List String
unfolding node_by_id
parents_of g id = elim (node_by_id g id) [ none ↦ [] | some n ↦ n.depends_on ]

-- `dependenciesSatisfied`; a `map[string]bool` that is only read is a function.
unfoldable pub dependencies_satisfied : List String → (String → Bool) → Bool
dependencies_satisfied [] done = true
dependencies_satisfied (parent ∷ parents) done =
    if not (done parent) then false else dependencies_satisfied parents done

unfoldable pub ready_from : List Node → (String → Bool) → List String
unfolding dependencies_satisfied
ready_from [] done = []
ready_from (n ∷ nodes) done =
    let rest = ready_from nodes done in
    if done n.id
    then rest
    else if dependencies_satisfied n.depends_on done
    then n.id ∷ rest
    else rest

unfoldable pub ready_given : Graph → (String → Bool) → List String
unfolding ready_from
ready_given g done = ready_from g.nodes done

unfoldable pub roots : Graph → List String
unfolding ready_given
roots g = ready_given g (λ _. false)

unfoldable pub dependents_from : List Node → String → List String
dependents_from [] id = []
dependents_from (n ∷ nodes) id =
    let rest = dependents_from nodes id in if contains n.depends_on id then n.id ∷ rest else rest

unfoldable pub dependents_of : Graph → String → List String
unfolding dependents_from
dependents_of g id = dependents_from g.nodes id
