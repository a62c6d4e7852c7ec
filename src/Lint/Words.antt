-- ===== src/Lint/Words.antt =====
-- A placeholder that the runtime resolves begins with the name of its kind.
use mathlib.Core.Option.{some-injective}
use mathlib.Core.List.{append_assoc, head-eq_of_cons-eq}
use oh_my_graph.Base.{
  ℕ, ◌≡◌, refl, sym, ap, ◌∙◌, inl, inr, true, false, List, [], ◌∷◌, ◌++◌, some, arith,
  if◌then◌else◌, ltb, Bool-cases, Option-cases,
}
use oh_my_graph.Base.Text.{is_space}
use oh_my_graph.Base.Bytes.{Bytes, bytes, decode_rune, next_rune, trim_left}
use oh_my_graph.Placeholders.{
  Kind, Placeholder, kinds, kind_text, read_kind, read_filter, match_placeholder,
}
use oh_my_graph.Placeholders.Loose.{inner_ref, inner, closed, match-inner}
use oh_my_graph.Placeholders.Scan.{strip_prefix-eq}
use oh_my_graph.Tokens.{strip_prefix, take_while, drop_while, is_regex_space, is_ref_char, some_ref}
use oh_my_graph.Lint.{is_word_char, leading_word}

read_kind-eq :
    (ks : List Kind) (cs r : Bytes) (k : Kind)
    → read_kind ks cs ≡ some (k, r)
    → cs ≡ kind_text k ++ b'.' ∷ r
unfolding read_kind
read_kind-eq [] cs r k e = absurd (cc e)
read_kind-eq (k' ∷ ks) cs r k e =
    elim (Option-cases (strip_prefix (kind_text k' ++ b'.' ∷ []) cs)) [
      | inl f ↦ read_kind-eq ks cs r k (rw (f, read_kind) at e)
      | inr (rest, f) ↦
          let same = some-injective _ _ (rw (f, read_kind) at e) in
          strip_prefix-eq (kind_text k' ++ b'.' ∷ []) cs rest f
          ∙ append_assoc (kind_text k') (b'.' ∷ []) rest
          ∙ ap (λ x. kind_text x.0 ++ b'.' ∷ x.1) same
    ]

next_rune-ascii : (c : ℕ) (cs : Bytes) → ltb c 128 ≡ true → next_rune (c ∷ cs) ≡ (c, 0)
unfolding next_rune decode_rune
next_rune-ascii c [] h = rw (h, next_rune, decode_rune) refl
next_rune-ascii c (d ∷ []) h = rw (h, next_rune, decode_rune) refl
next_rune-ascii c (d ∷ e ∷ cs) h = rw (h, next_rune, decode_rune) refl

trim_left-next :
    (c : ℕ) (cs : Bytes)
    → ltb c 128 ≡ true
    → trim_left is_space 0 (c ∷ cs) ≡ (if is_space c then trim_left is_space 0 cs else c ∷ cs)
unfolding trim_left
trim_left-next c cs h = rw (next_rune-ascii c cs h, trim_left) refl

-- The first letter of a kind is an ASCII letter.
letter :
    (k : Kind) (c : ℕ) (cs rest : Bytes)
    → c ∷ cs ≡ kind_text k ++ b'.' ∷ rest
    → (ltb c 128 ≡ true) × (is_space c ≡ false)
unfolding is_space
letter Kind.inputs c cs rest e = rw (head-eq_of_cons-eq e) (refl, refl)
letter Kind.artifacts c cs rest e = rw (head-eq_of_cons-eq e) (refl, refl)
letter Kind.feedback c cs rest e = rw (head-eq_of_cons-eq e) (refl, refl)
letter Kind.self c cs rest e = rw (head-eq_of_cons-eq e) (refl, refl)

regex_space : (c : ℕ) → is_regex_space c ≡ true → (ltb c 128 ≡ true) × (is_space c ≡ true)
unfolding is_regex_space is_space
regex_space c h = ground (arith, h)

trim-spaces :
    (cs rest : Bytes) (k : Kind)
    → drop_while is_regex_space cs ≡ kind_text k ++ b'.' ∷ rest
    → trim_left is_space 0 cs ≡ kind_text k ++ b'.' ∷ rest
unfolding trim_left drop_while
trim-spaces [] rest k e = e
trim-spaces (c ∷ cs) rest k e = elim (Bool-cases (is_regex_space c)) [
  | inl space ↦
      let (ascii, blank) = regex_space c space in
      trim_left-next c cs ascii ∙ rw blank (trim-spaces cs rest k (rw (space, drop_while) at e))
  | inr other ↦
      let e' : c ∷ cs ≡ kind_text k ++ b'.' ∷ rest = rw (other, drop_while) at e in
      let (ascii, shown) = letter k c cs rest e' in trim_left-next c cs ascii ∙ rw shown e'
]

take_word :
    (k : Kind) (rest : Bytes) → take_while is_word_char (kind_text k ++ b'.' ∷ rest) ≡ kind_text k
unfolding take_while
take_word Kind.inputs rest = refl
take_word Kind.artifacts rest = refl
take_word Kind.feedback rest = refl
take_word Kind.self rest = refl

inner_ref-kind :
    (kind : Kind) (named rest : Bytes) (p : Placeholder)
    → closed (inner_ref kind named) ≡ some (p, rest)
    → kind ≡ p.kind
unfolding strip_prefix
inner_ref-kind kind named rest p e = elim (Option-cases (some_ref (take_while is_ref_char named))) [
  | inl n ↦ absurd (cc (rw n at e))
  | inr (ref, n) ↦
      let e1 = rw n at e in
      elim (Option-cases (read_filter (drop_while is_regex_space (drop_while is_ref_char named)))) [
        | inl f ↦ absurd (cc (rw f at e1))
        | inr ((inline, after), f) ↦
            let e2 = rw f at e1 in
            elim (Option-cases (strip_prefix (bytes "}}") after)) [
              | inl g ↦ absurd (cc (rw g at e2))
              | inr (behind, g) ↦ ap (λ x. x.0.kind) (some-injective _ _ (rw g at e2))
            ]
      ]
]

-- A match begins with the two braces.
opened_of :
    (token rest : Bytes) (p : Placeholder)
    → match_placeholder token ≡ some (p, rest)
    → (opened : Bytes) × ((strip_prefix (bytes "{{") token ≡ some opened)
        × (closed (inner opened) ≡ some (p, rest)))
unfolding match_placeholder
opened_of token rest p e = elim (Option-cases (strip_prefix (bytes "{{") token)) [
  | inl o ↦ absurd (cc (rw (o, match_placeholder) at e))
  | inr (opened, o) ↦
      let whole = strip_prefix-eq (bytes "{{") token opened o in
      (opened, (o, sym (match-inner opened) ∙ ap match_placeholder (sym whole) ∙ e))
]

-- The chain of readers keeps the kind that the first of them read.
chain-kind :
    (opened rest : Bytes) (p : Placeholder)
    → closed (inner opened) ≡ some (p, rest)
    → (named : Bytes) × (read_kind kinds (drop_while is_regex_space opened) ≡ some (p.kind, named))
chain-kind opened rest p e =
    elim (Option-cases (read_kind kinds (drop_while is_regex_space opened))) [
      | inl k ↦ absurd (cc (rw k at e))
      | inr ((kind, named), k) ↦
          let e1 : closed (inner_ref kind named) ≡ some (p, rest) = rw k at e in
          let same = inner_ref-kind kind named rest p e1 in
          (named, k ∙ ap (λ x. some (x, named)) same)
    ]

pub leading_word-kind :
    (token rest : Bytes) (p : Placeholder)
    → match_placeholder token ≡ some (p, rest)
    → leading_word token ≡ kind_text p.kind
unfolding leading_word
leading_word-kind token rest p e =
    let (opened, (o, e1)) = opened_of token rest p e in
    let (named, k) = chain-kind opened rest p e1 in
    let text = read_kind-eq kinds (drop_while is_regex_space opened) named p.kind k in
    rw (o, leading_word)
      (ap (take_while is_word_char) (trim-spaces opened named p.kind text) ∙ take_word p.kind named)
