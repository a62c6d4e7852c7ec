-- ===== src/Placeholders/Scan.antt =====
-- The run and the lint read one text alike: the placeholders are the loose tokens that match whole.
use mathlib.Core.Option.{some-injective}
use mathlib.Core.List.{append_assoc, tail-eq_of_cons-eq}
use oh_my_graph.Base.{
  ℕ, zero, suc, ◌+◌, ◌-◌, ◌≡◌, ◌⊎◌, refl, sym, ap, subst, ◌∙◌, inl, inr, Bool, true, false, not,
  ◌&&◌, List, [], ◌∷◌, ◌++◌, Option, none, some, arith, eqb, all, length, length-append, Bool-cases,
  Option-cases,
}
use oh_my_graph.Base.Bytes.{Bytes, bytes}
use oh_my_graph.Placeholders.{
  Placeholder, kinds, read_kind, read_filter, match_placeholder, placeholders_from, placeholders_of,
  is_brace, match_loose, loose_from, loose_tokens, full_match,
}
use oh_my_graph.Placeholders.Loose.{
  stops, plain, inner_ref, inner, inner-stop, closed, match-inner, plain-drop, plain-kind,
  plain-filter,
}
use oh_my_graph.Tokens.{strip_prefix, take_while, drop_while, is_regex_space, is_ref_char, some_ref}

plain-inner :
    (b r : Bytes) (p : Placeholder) → plain b ≡ true → inner b ≡ some (p, r) → plain r ≡ true
plain-inner b r p h e =
    let start = drop_while is_regex_space b in
    elim (Option-cases (read_kind kinds start)) [
      | inl k ↦ absurd (cc (rw k at e))
      | inr ((kind, named), k) ↦
          let pure = plain-kind kinds start named kind (plain-drop is_regex_space b h) k in
          let after = drop_while is_regex_space (drop_while is_ref_char named) in
          let e1 : inner_ref kind named ≡ some (p, r) = rw k at e in
          elim (Option-cases (some_ref (take_while is_ref_char named))) [
            | inl n ↦ absurd (cc (rw n at e1))
            | inr (ref, n) ↦ elim (Option-cases (read_filter after)) [
              | inl f ↦ absurd (cc (rw (n, f) at e1))
              | inr ((inline, rest), f) ↦
                  subst (λ x. plain x ≡ true) (ap (λ x. x.1) (some-injective _ _ (rw (n, f) at e1)))
                    (plain-filter after rest inline
                      (plain-drop is_regex_space (drop_while is_ref_char named)
                        (plain-drop is_ref_char named pure))
                      f)
            ]
          ]
    ]

-- A placeholder that ends where its braces close.
abbrev complete : Option (Placeholder × Bytes) → Option Placeholder
complete none = none
complete (some (p, [])) = some p
complete (some (p, _ ∷ _)) = none

abbrev with_rest : Option Placeholder → Bytes → Option (Placeholder × Bytes)
with_rest none rest = none
with_rest (some p) rest = some (p, rest)

abbrev behind : Option Bytes → Option Placeholder → Option (Placeholder × Bytes)
behind none p = none
behind (some rest) p = with_rest p rest

no_close : (c : ℕ) (r : Bytes) → is_brace c ≡ false → strip_prefix (bytes "}}") (c ∷ r) ≡ none
unfolding strip_prefix
no_close c r h = ground (arith, h)

match-plain :
    (b v : Bytes)
    → plain b ≡ true
    → stops v ≡ true
    → match_placeholder (b'{' ∷ b'{' ∷ (b ++ v))
      ≡ behind (strip_prefix (bytes "}}") v) (complete (inner b))
match-plain b v h stop =
    match-inner (b ++ v) ∙ ap closed (inner-stop b v stop) ∙ elim (Option-cases (inner b)) [
      | inl e ↦ rw e (no_match (strip_prefix (bytes "}}") v))
      | inr ((p, []), e) ↦ rw e (matched p (strip_prefix (bytes "}}") v))
      | inr ((p, c ∷ r), e) ↦
          rw e (cut p c r v (plain-inner b (c ∷ r) p h e) ∙ no_match (strip_prefix (bytes "}}") v))
    ]
  where
    no_match : (o : Option Bytes) → none ≡ behind o none
    no_match none = refl
    no_match (some rest) = refl

    matched :
        (p : Placeholder) (o : Option Bytes)
        → (elim o [ none ↦ none | some rest ↦ some (p, rest) ]) ≡ behind o (some p)
    matched p none = refl
    matched p (some rest) = refl

    cut :
        (p : Placeholder) (c : ℕ) (r v : Bytes)
        → plain (c ∷ r) ≡ true
        → closed (some (p, c ∷ (r ++ v))) ≡ none
    cut p c r v h = rw (no_close c (r ++ v) (ground (arith, h)), closed) refl

full_match-complete : (token : Bytes) → full_match token ≡ complete (match_placeholder token)
unfolding full_match
full_match-complete token = elim (Option-cases (match_placeholder token)) [
  | inl e ↦ rw (e, full_match) refl
  | inr ((p, []), e) ↦ rw (e, full_match) refl
  | inr ((p, c ∷ r), e) ↦ rw (e, full_match) refl
]

complete-with_rest : (o : Option Placeholder) → complete (with_rest o []) ≡ o
complete-with_rest none = refl
complete-with_rest (some p) = refl

abbrev braced : Bytes → Bytes
braced b = b'{' ∷ b'{' ∷ (b ++ bytes "}}")

full_match-plain : (b : Bytes) → plain b ≡ true → full_match (braced b) ≡ complete (inner b)
unfolding strip_prefix
full_match-plain b h =
    full_match-complete (braced b)
    ∙ ap complete (match-plain b (bytes "}}") h refl)
    ∙ complete-with_rest (complete (inner b))

take-drop_while : (test : ℕ → Bool) (u : Bytes) → take_while test u ++ drop_while test u ≡ u
unfolding take_while drop_while
take-drop_while test [] = refl
take-drop_while test (c ∷ u) = ground (arith, take-drop_while test u)

take-plain : (u : Bytes) → plain (take_while (λ c. not (is_brace c)) u) ≡ true
unfolding take_while
take-plain [] = refl
take-plain (c ∷ u) = ground (arith, take-plain u)

drop-stops : (u : Bytes) → stops (drop_while (λ c. not (is_brace c)) u) ≡ true
unfolding drop_while
drop-stops [] = refl
drop-stops (c ∷ u) = ground (arith, drop-stops u)

-- A loose token that starts here, or none; and then the placeholder that starts here, or none.
abbrev LooseHere : Bytes → Type 0
LooseHere cs =
    ((match_loose cs ≡ none) × (match_placeholder cs ≡ none))
    ⊎ ((b : Bytes) × ((rest : Bytes) × ((cs ≡ braced b ++ rest)
            × ((plain b ≡ true)
                × ((match_loose cs ≡ some (braced b, rest))
                    × (match_placeholder cs ≡ with_rest (full_match (braced b)) rest))))))

pub strip_prefix-eq : (ps b r : Bytes) → strip_prefix ps b ≡ some r → b ≡ ps ++ r
unfolding strip_prefix
strip_prefix-eq [] b r e = some-injective _ _ e
strip_prefix-eq (p ∷ ps) [] r e = absurd (cc e)
strip_prefix-eq (p ∷ ps) (c ∷ b) r e =
    let e' : (c ≡ p) × (strip_prefix ps b ≡ some r) = ground (arith, e) in
    cc (e'.0, strip_prefix-eq ps b r e'.1)

abbrev nonbrace : ℕ → Bool
nonbrace c = not (is_brace c)

loose_at : (u : Bytes) → LooseHere (b'{' ∷ b'{' ∷ u)
unfolding match_loose strip_prefix
loose_at u =
    let b = take_while nonbrace u in
    let v = drop_while nonbrace u in
    let whole = take-drop_while nonbrace u in
    let here : match_placeholder (b'{' ∷ b'{' ∷ u)
        ≡ behind (strip_prefix (bytes "}}") v) (complete (inner b)) =
      ap (λ x. match_placeholder (b'{' ∷ b'{' ∷ x)) (sym whole)
      ∙ match-plain b v (take-plain u) (drop-stops u) in
    elim (Option-cases (strip_prefix (bytes "}}") v)) [
      | inl e ↦ inl (rw (e, match_loose) refl, here ∙ ap (λ o. behind o (complete (inner b))) e)
      | inr (rest, e) ↦ inr (
        b,
        (
          rest,
          (
            ap (λ x. b'{' ∷ b'{' ∷ x)
                (sym whole
                  ∙ ap (λ x. b ++ x) (strip_prefix-eq (bytes "}}") v rest e)
                  ∙ sym (append_assoc b (bytes "}}") rest)),
            (
              take-plain u,
              (
                rw (e, match_loose) refl,
                here
                    ∙ ap (λ o. behind o (complete (inner b))) e
                    ∙ ap (λ p. with_rest p rest) (sym (full_match-plain b (take-plain u))),
              ),
            ),
          ),
        ),
      )
    ]

loose_here : (cs : Bytes) → LooseHere cs
unfolding match_loose match_placeholder strip_prefix
loose_here [] = inl (refl, refl)
loose_here (c ∷ []) = inl (ground arith, ground arith)
loose_here (c ∷ d ∷ u) = elim (Bool-cases (eqb b'{' c && eqb b'{' d)) [
  | inr other ↦
      let no_open : strip_prefix (bytes "{{") (c ∷ d ∷ u) ≡ none = ground (arith, other) in
      inl (rw (no_open, match_loose) refl, rw (no_open, match_placeholder) refl)
  | inl both ↦
      let same : (c ≡ 123) × (d ≡ 123) = ground (arith, both) in
      subst (λ x. LooseHere (x ∷ d ∷ u)) (sym same.0)
        (subst (λ x. LooseHere (b'{' ∷ x ∷ u)) (sym same.1) (loose_at u))
]

-- No placeholder starts at a byte that is not an opening brace, or at the last one of a run of them.
starts_none : (c : ℕ) (x : Bytes) → eqb b'{' c ≡ false → match_placeholder (c ∷ x) ≡ none
unfolding match_placeholder strip_prefix
starts_none c x h = rw (h, match_placeholder, strip_prefix) refl

second_none : (c d : ℕ) (x : Bytes) → eqb b'{' d ≡ false → match_placeholder (c ∷ d ∷ x) ≡ none
unfolding match_placeholder strip_prefix
second_none c d x h =
    let no_open : strip_prefix (bytes "{{") (c ∷ d ∷ x) ≡ none = ground (arith, h) in
    rw (no_open, match_placeholder) refl

abbrev no_open : Bytes → Bool
no_open = all (λ c. not (eqb b'{' c))

pass_over :
    (zs rest : Bytes)
    → no_open zs ≡ true
    → placeholders_from 0 (zs ++ rest) ≡ placeholders_from 0 rest
unfolding placeholders_from
pass_over [] rest h = refl
pass_over (c ∷ zs) rest h =
    let here : eqb b'{' c ≡ false = ground (arith, h) in
    let later : no_open zs ≡ true = ground (arith, h) in
    rw (starts_none c (zs ++ rest) here, placeholders_from) (pass_over zs rest later)

skip_over :
    (zs rest : Bytes) → placeholders_from (length zs) (zs ++ rest) ≡ placeholders_from 0 rest
unfolding placeholders_from
skip_over [] rest = refl
skip_over (c ∷ zs) rest = skip_over zs rest

plain-no_open : (b : Bytes) → plain b ≡ true → no_open (b ++ bytes "}}") ≡ true
plain-no_open [] h = refl
plain-no_open (c ∷ b) h =
    let later : plain b ≡ true = ground (arith, h) in ground (arith, h, plain-no_open b later)

-- Behind the first byte of a loose token that is no placeholder, no placeholder starts before its end.
within_token :
    (b rest : Bytes)
    → plain b ≡ true
    → placeholders_from 0 (b'{' ∷ (b ++ bytes "}}") ++ rest) ≡ placeholders_from 0 rest
unfolding placeholders_from
within_token [] rest h = refl
within_token (c ∷ b) rest h =
    let first : eqb b'{' c ≡ false = ground (arith, h) in
    rw (second_none b'{' c ((b ++ bytes "}}") ++ rest) first, placeholders_from)
      (pass_over (c ∷ b ++ bytes "}}") rest (plain-no_open (c ∷ b) h))

same_rest :
    (cs b rest : Bytes)
    → cs ≡ b'{' ∷ (b ++ bytes "}}") ++ rest
    → plain b ≡ true
    → placeholders_from 0 cs ≡ placeholders_from (length cs - length rest) cs
same_rest cs b rest e pure =
    let zs : Bytes = b'{' ∷ (b ++ bytes "}}") in
    let size : length cs ≡ length zs + length rest = ap length e ∙ length-append zs rest in
    let skip : length zs ≡ length cs - length rest = omega (arith, size) in
    subst (λ x. placeholders_from 0 x ≡ placeholders_from (length cs - length rest) x) (sym e)
      (within_token b rest pure
        ∙ sym (skip_over zs rest)
        ∙ ap (λ k. placeholders_from k (zs ++ rest)) skip)

-- The tokens that match as a whole.
abbrev pub matching : List Bytes → List Placeholder
matching [] = []
matching (token ∷ tokens) = elim (full_match token) [
  | none ↦ matching tokens
  | some p ↦ p ∷ matching tokens
]

placeholders_from-loose :
    (skip : ℕ) (cs : Bytes) → placeholders_from skip cs ≡ matching (loose_from skip cs)
unfolding placeholders_from loose_from
placeholders_from-loose skip [] = refl
placeholders_from-loose (suc skip) (c ∷ cs) = placeholders_from-loose skip cs
placeholders_from-loose zero (c ∷ cs) = elim (loose_here (c ∷ cs)) [
  | inl (l, m) ↦ rw (l, m, placeholders_from, loose_from) (placeholders_from-loose 0 cs)
  | inr (b, (rest, (e, (pure, (l, m))))) ↦
      let ih = placeholders_from-loose (length cs - length rest) cs in
      elim (Option-cases (full_match (braced b))) [
        | inr (p, f) ↦
            let m' : match_placeholder (c ∷ cs) ≡ some (p, rest) =
              m ∙ ap (λ o. with_rest o rest) f in
            rw (l, m', placeholders_from, loose_from, f, matching) (ap (p ∷◌) ih)
        | inl f ↦
            let m' : match_placeholder (c ∷ cs) ≡ none = m ∙ ap (λ o. with_rest o rest) f in
            rw (l, m', placeholders_from, loose_from, f, matching)
              (same_rest cs b rest (tail-eq_of_cons-eq e) pure ∙ ih)
      ]
]

-- The placeholders that interpolation replaces are the tokens that the lint reads and that the pattern
-- matches whole, in their order: the lint overlooks none, and judges nothing that is not replaced.
pub placeholders_of-loose : (text : Bytes) → placeholders_of text ≡ matching (loose_tokens text)
unfolding placeholders_of loose_tokens
placeholders_of-loose text = placeholders_from-loose 0 text
