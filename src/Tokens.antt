-- ===== src/Tokens.antt =====
-- internal/graph/feedback.go: `feedbackTokenPattern`, as a reader of the code points.
-- No two of its repetitions can begin with one character, so matching never backtracks.
use oh_my_graph.Base.{
  ℕ, zero, suc, ◌-◌, String, Bool, true, false, not, ◌||◌, List, [], ◌∷◌, Option, none, some,
  if◌then◌else◌, eqb, length,
}
use oh_my_graph.Base.Text.{codes}
use oh_my_graph.Names.{is_name_char}

-- The two groups of a match: the reference, and whether filter text follows it.
pub record Token : Type 0 where
  pub ref : List ℕ
  pub filtered : Bool

unfoldable pub strip_prefix : List ℕ → List ℕ → Option (List ℕ)
strip_prefix [] cs = some cs
strip_prefix (p ∷ ps) [] = none
strip_prefix (p ∷ ps) (c ∷ cs) = if eqb p c then strip_prefix ps cs else none

unfoldable pub take_while : (ℕ → Bool) → List ℕ → List ℕ
take_while test [] = []
take_while test (c ∷ cs) = if test c then c ∷ take_while test cs else []

unfoldable pub drop_while : (ℕ → Bool) → List ℕ → List ℕ
drop_while test [] = []
drop_while test (c ∷ cs) = if test c then drop_while test cs else c ∷ cs

-- `\s`
unfoldable pub is_regex_space : ℕ → Bool
is_regex_space c = eqb c 9 || eqb c 10 || eqb c 12 || eqb c 13 || eqb c 32

-- `[A-Za-z0-9._/-]`
unfoldable pub is_ref_char : ℕ → Bool
is_ref_char c = is_name_char c || eqb c b'/'

-- `(\|[^}]*)?`
skip_filter : List ℕ → Bool × List ℕ
unfolding drop_while
skip_filter [] = (false, [])
skip_filter (c ∷ cs) =
    if eqb c b'|' then (true, drop_while (λ d. not (eqb d b'}')) cs) else (false, c ∷ cs)

infixl 5 ◌>>=◌
abbrev pub ◌>>=◌ {ℓ κ} : {A : Type ℓ} {B : Type κ} → Option A → (A → Option B) → Option B
none >>= f = none
some a >>= f = f a

-- `[A-Za-z0-9._/-]+` wants one character.
abbrev pub some_ref : List ℕ → Option (List ℕ)
some_ref [] = none
some_ref (c ∷ cs) = some (c ∷ cs)

-- A match that starts here, and the text behind it.
match_token : List ℕ → Option (Token × List ℕ)
unfolding strip_prefix take_while drop_while is_regex_space is_ref_char skip_filter
match_token cs = do
  opened ← strip_prefix (codes "{{") cs
  named ← strip_prefix (codes "feedback.") (drop_while is_regex_space opened)
  ref ← some_ref (take_while is_ref_char named)
  let (filtered, rest) = skip_filter (drop_while is_regex_space (drop_while is_ref_char named))
  closed ← strip_prefix (codes "}}") rest
  some (record { ref = ref; filtered = filtered }, closed)

-- `FindAllStringSubmatch(text, -1)`: matches from left to right that do not overlap. `skip` counts
-- the characters of the last match that are still to be passed over.
unfoldable pub find_tokens : ℕ → List ℕ → List Token
unfolding match_token
find_tokens skip [] = []
find_tokens (suc skip) (c ∷ cs) = find_tokens skip cs
find_tokens zero (c ∷ cs) = elim (match_token (c ∷ cs)) [
  | none ↦ find_tokens 0 cs
  | some (token, rest) ↦ token ∷ find_tokens (length cs - length rest) cs
]

unfoldable pub tokens_of : String → List Token
unfolding find_tokens
tokens_of text = find_tokens 0 (codes text)
