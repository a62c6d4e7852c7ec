-- ===== src/Placeholders.antt =====
-- internal/handoff/handoff.go: `placeholderPattern`, as a reader of the bytes, and the substitution
-- of `regexp.ReplaceAllStringFunc`. No two repetitions of the pattern can begin with one character, and
-- no kind is a prefix of another, so matching never backtracks.
pub mod Template
pub mod Loose
pub mod Scan
use oh_my_graph.Base.{
  ℕ, zero, suc, ◌+◌, ◌-◌, Bool, true, false, not, ◌||◌, List, [], ◌∷◌, ◌++◌, Option, none, some,
  if◌then◌else◌, eqb, length,
}
use oh_my_graph.Base.Bytes.{Bytes, bytes}
use oh_my_graph.Tokens.{
  ◌>>=◌, strip_prefix, take_while, drop_while, is_regex_space, is_ref_char, some_ref,
}

pub data Kind : Type 0 where
  inputs artifacts feedback self : Kind

abbrev pub kind_text : Kind → Bytes
kind_text Kind.inputs = bytes "inputs"
kind_text Kind.artifacts = bytes "artifacts"
kind_text Kind.feedback = bytes "feedback"
kind_text Kind.self = bytes "self"

-- The three groups of a match. The filter can only be `inline`.
pub record Placeholder : Type 0 where
  pub kind : Kind
  pub ref : Bytes
  pub inline : Bool

abbrev pub kinds : List Kind
kinds = Kind.inputs ∷ Kind.artifacts ∷ Kind.feedback ∷ Kind.self ∷ []

-- `(inputs|artifacts|feedback|self)\.`
unfoldable pub read_kind : List Kind → Bytes → Option (Kind × Bytes)
unfolding strip_prefix
read_kind [] cs = none
read_kind (kind ∷ others) cs = elim (strip_prefix (kind_text kind ++ b'.' ∷ []) cs) [
  | some rest ↦ some (kind, rest)
  | none ↦ read_kind others cs
]

-- `(?:\|\s*(inline)\s*)?`
unfoldable pub read_filter : Bytes → Option (Bool × Bytes)
unfolding strip_prefix drop_while is_regex_space
read_filter [] = some (false, [])
read_filter (c ∷ cs) =
    if eqb c b'|'
    then (do
      rest ← strip_prefix (bytes "inline") (drop_while is_regex_space cs)
      some (true, drop_while is_regex_space rest))
    else some (false, c ∷ cs)

-- A match that starts here, and the text behind it.
unfoldable pub match_placeholder : Bytes → Option (Placeholder × Bytes)
unfolding strip_prefix take_while drop_while is_regex_space is_ref_char read_kind read_filter
match_placeholder cs = do
  opened ← strip_prefix (bytes "{{") cs
  (kind, named) ← read_kind kinds (drop_while is_regex_space opened)
  ref ← some_ref (take_while is_ref_char named)
  (inline, rest) ← read_filter (drop_while is_regex_space (drop_while is_ref_char named))
  closed ← strip_prefix (bytes "}}") rest
  some (record { kind = kind; ref = ref; inline = inline }, closed)

-- The matches from left to right; `skip` counts the bytes of the last one still to be passed over.
unfoldable pub placeholders_from : ℕ → Bytes → List Placeholder
unfolding match_placeholder
placeholders_from skip [] = []
placeholders_from (suc skip) (c ∷ cs) = placeholders_from skip cs
placeholders_from zero (c ∷ cs) = elim (match_placeholder (c ∷ cs)) [
  | none ↦ placeholders_from 0 cs
  | some (token, rest) ↦ token ∷ placeholders_from (length cs - length rest) cs
]

unfoldable pub placeholders_of : Bytes → List Placeholder
unfolding placeholders_from
placeholders_of text = placeholders_from 0 text

-- `placeholderPattern.MatchString`
unfoldable pub contains_placeholder : Bytes → Bool
unfolding match_placeholder
contains_placeholder [] = false
contains_placeholder (c ∷ cs) = elim (match_placeholder (c ∷ cs)) [
  | none ↦ contains_placeholder cs
  | some _ ↦ true
]

-- `looseTokenPattern`, `\{\{[^{}]*\}\}`: a match that starts here, and the text behind it.
abbrev pub is_brace : ℕ → Bool
is_brace c = eqb c b'{' || eqb c b'}'

unfoldable pub match_loose : Bytes → Option (Bytes × Bytes)
unfolding strip_prefix take_while drop_while
match_loose cs = do
  opened ← strip_prefix (bytes "{{") cs
  rest ← strip_prefix (bytes "}}") (drop_while (λ c. not (is_brace c)) opened)
  some (bytes "{{" ++ (take_while (λ c. not (is_brace c)) opened ++ bytes "}}"), rest)

unfoldable pub loose_from : ℕ → Bytes → List Bytes
unfolding match_loose
loose_from skip [] = []
loose_from (suc skip) (c ∷ cs) = loose_from skip cs
loose_from zero (c ∷ cs) = elim (match_loose (c ∷ cs)) [
  | none ↦ loose_from 0 cs
  | some (token, rest) ↦ token ∷ loose_from (length cs - length rest) cs
]

-- `looseTokenPattern.FindAllString`
unfoldable pub loose_tokens : Bytes → List Bytes
unfolding loose_from
loose_tokens text = loose_from 0 text

-- A token that `placeholderPattern` matches as a whole: from its first byte to its last.
unfoldable pub full_match : Bytes → Option Placeholder
unfolding match_placeholder
full_match token = elim (match_placeholder token) [
  | none ↦ none
  | some (p, []) ↦ some p
  | some (p, _ ∷ _) ↦ none
]

-- What replaces one placeholder: a value or an error.
pub data Resolved {ℓ} (E : Type ℓ) : Type ℓ where
  value : Bytes → Resolved E
  failed : E → Resolved E

module _ {ℓ} {E : Type ℓ} (resolve : ℕ → Placeholder → Resolved E) where
  -- The text with each match replaced, and the first error. An erring match is replaced by nothing.
  -- The last argument is the number of matches so far, which tells the calls of `resolve` apart.
  unfoldable pub replace_from : ℕ → Bytes → ℕ → Option E × Bytes
  unfolding match_placeholder
  replace_from skip [] k = (none, [])
  replace_from (suc skip) (c ∷ cs) k = replace_from skip cs k
  replace_from zero (c ∷ cs) k = elim (match_placeholder (c ∷ cs)) [
    | none ↦ let (err, out) = replace_from 0 cs k in (err, c ∷ out)
    | some (token, rest) ↦
        let (err, out) = replace_from (length cs - length rest) cs (suc k) in
        elim (resolve k token) [
          | Resolved.value v ↦ (err, v ++ out)
          | Resolved.failed e ↦ (some e, out)
        ]
  ]

  unfoldable pub replace_all : Bytes → Resolved E
  unfolding replace_from
  replace_all tmpl =
      let (err, out) = replace_from 0 tmpl 0 in
      elim err [ some e ↦ Resolved.failed e | none ↦ Resolved.value out ]
