-- ===== src/Lint.antt =====
-- internal/handoff/placeholder_lint.go: the warnings about the placeholders of a graph, before a run.
-- A message is a constructor with the values that it prints, next to the token.
pub mod Words
pub mod Clean
pub mod Runs
use oh_my_graph.Base.{
  ℕ, ◌+◌, String, ◌==◌, Bool, true, false, not, ◌&&◌, ◌||◌, List, [], ◌∷◌, ◌++◌, map, Option, none,
  some, if◌then◌else◌, eqb, leb, any,
}
use oh_my_graph.Base.Text.{is_space}
use oh_my_graph.Base.Bytes.{Bytes, bytes, same_bytes, trim_left}
use oh_my_graph.Ancestors.{ancestor_set}
use oh_my_graph.Graph.{Graph, Node, Index, type_gate}
use oh_my_graph.Handoff.{Refusal, self_token_refused}
use oh_my_graph.Names.{is_alnum}
use oh_my_graph.Placeholders.{Kind, Placeholder, loose_tokens, full_match}
use oh_my_graph.Tokens.{strip_prefix, take_while}

pub data Fault : Type 0 where
  with_token uppercase_kind malformed self_filter undeclared_input own_artifact : Fault
  self_reference unknown_node not_ancestor : (ref : Bytes) → Fault

pub record Finding : Type 0 where
  pub node_id : String
  pub field : String
  pub token : Bytes
  pub fault : Fault

-- The findings that can never resolve, and those that end in the note on quoting.
unfoldable pub is_impossible : Fault → Bool
is_impossible own_artifact = true
is_impossible (unknown_node _) = true
is_impossible (not_ancestor _) = true
is_impossible _ = false

unfoldable pub has_quoting_hint : Fault → Bool
has_quoting_hint undeclared_input = true
has_quoting_hint (unknown_node _) = true
has_quoting_hint _ = false

-- [A-Za-z0-9_]
abbrev pub is_word_char : ℕ → Bool
is_word_char c = is_alnum c || eqb c b'_'

-- `strings.ToLower`, for a word of `is_word_char`.
abbrev pub to_lower : Bytes → Bytes
to_lower = map (λ c. if leb b'A' c && leb c b'Z' then c + 32 else c)

-- The word at the front of a token's inside. What `TrimSpace` and `TrimSuffix` cut off at its end is
-- no part of the word.
unfoldable pub leading_word : Bytes → Bytes
unfolding strip_prefix trim_left is_space take_while
leading_word token =
    let inside : Bytes = elim (strip_prefix (bytes "{{") token) [
      | none ↦ token
      | some rest ↦ rest
    ] in
    take_while is_word_char (trim_left is_space 0 inside)

-- `placeholderKinds`
abbrev pub placeholder_kinds : List Bytes
placeholder_kinds =
    bytes "inputs"
    ∷ bytes "artifacts"
    ∷ bytes "feedback"
    ∷ bytes "self"
    ∷ bytes "input"
    ∷ bytes "artifact"
    ∷ bytes "feedbacks"
    ∷ bytes "with"
    ∷ []

abbrev pub holds : List Bytes → Bytes → Bool
holds names name = any (λ other. same_bytes other name) names

-- `NodeByID(ref)`: the id of the index that is written like the reference.
abbrev pub id_of : Index → Bytes → Option String
id_of [] ref = none
id_of ((id, _) ∷ index) ref = if same_bytes (bytes id) ref then some id else id_of index ref

unfoldable pub judge_self : Placeholder → Option Fault
unfolding self_token_refused
judge_self p = elim (self_token_refused p.ref p.inline) [
  | none ↦ none
  | some Refusal.refused_reference ↦ some (self_reference p.ref)
  | some Refusal.refused_filter ↦ some self_filter
]

unfoldable pub judge_artifact : Graph → String → Placeholder → Option Fault
unfolding ancestor_set
judge_artifact g node_id p =
    if same_bytes p.ref (bytes node_id) then some own_artifact else elim (id_of g.by_id p.ref) [
      | none ↦ some (unknown_node p.ref)
      | some id ↦ if ancestor_set g node_id id then none else some (not_ancestor p.ref)
    ]

-- A token that the runtime resolves.
unfoldable pub judge_placeholder : Graph → String → Placeholder → Option Fault
unfolding judge_self judge_artifact
judge_placeholder g node_id p = elim p.kind [
  | Kind.inputs ↦ if holds (map bytes g.inputs) p.ref then none else some undeclared_input
  | Kind.feedback ↦ none
  | Kind.self ↦ judge_self p
  | Kind.artifacts ↦ judge_artifact g node_id p
]

unfoldable pub judge_token : Graph → String → Bytes → Option Fault
unfolding leading_word full_match judge_placeholder
judge_token g node_id token =
    let leading = leading_word token in
    if not (holds placeholder_kinds (to_lower leading))
    then none
    else if same_bytes (to_lower leading) (bytes "with")
    then some with_token
    else elim (full_match token) [
      | none ↦ some (if same_bytes (to_lower leading) leading then malformed else uppercase_kind)
      | some p ↦ judge_placeholder g node_id p
    ]

unfoldable pub templated_fields : Node → List (String × String)
templated_fields n = ("prompt", n.prompt) ∷ ("cwd", n.cwd) ∷ elim n.success_check.verify [
  | none ↦ []
  | some v ↦ ("success_check.verify.command", v.command) ∷ ("success_check.verify.cwd", v.cwd) ∷ []
]

unfoldable pub token_findings : Graph → String → String → List Bytes → List Finding
unfolding judge_token
token_findings g node_id field [] = []
token_findings g node_id field (token ∷ tokens) =
    let rest = token_findings g node_id field tokens in
    elim (judge_token g node_id token) [
      | none ↦ rest
      | some fault ↦
          record { node_id = node_id; field = field; token = token; fault = fault } ∷ rest
    ]

unfoldable pub field_findings : Graph → String → List (String × String) → List Finding
unfolding token_findings loose_tokens
field_findings g node_id [] = []
field_findings g node_id ((field, tmpl) ∷ fields) =
    token_findings g node_id field (loose_tokens (bytes tmpl)) ++ field_findings g node_id fields

unfoldable pub findings_from : Graph → List Node → List Finding
unfolding field_findings templated_fields
findings_from g [] = []
findings_from g (n ∷ nodes) = field_findings g n.id (templated_fields n) ++ findings_from g nodes

unfoldable pub placeholder_findings : Graph → List Finding
unfolding findings_from
placeholder_findings g = findings_from g g.nodes

-- `ImpossibleArtifactFindings`
unfoldable pub impossible_artifact_findings : List Finding → List Finding
unfolding is_impossible
impossible_artifact_findings [] = []
impossible_artifact_findings (f ∷ findings) =
    let rest = impossible_artifact_findings findings in
    if is_impossible f.fault then f ∷ rest else rest
