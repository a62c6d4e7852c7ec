-- ===== src/Placeholders/Loose.antt =====
-- The lint's loose tokens include every placeholder that the run resolves.
use mathlib.Core.Option.{some-injective}
use oh_my_graph.Base.{
  subst, ℕ, ◌≡◌, refl, ap, inl, inr, Bool, true, false, not, List, [], ◌∷◌, ◌++◌, Option, none,
  some, arith, eqb, all, Bool-cases, Option-cases,
}
use oh_my_graph.Base.Bytes.{Bytes, bytes}
use oh_my_graph.Placeholders.{
  Kind, Placeholder, kinds, kind_text, read_kind, read_filter, match_placeholder, is_brace,
}
use oh_my_graph.Tokens.{
  ◌>>=◌, strip_prefix, take_while, drop_while, is_regex_space, is_ref_char, some_ref,
}

-- A text that no repetition of the pattern runs into.
abbrev pub stops : Bytes → Bool
stops [] = true
stops (c ∷ cs) = is_brace c

-- A test that no brace passes.
abbrev Avoids : (ℕ → Bool) → Type 0
Avoids test = (c : ℕ) → is_brace c ≡ true → test c ≡ false

-- The rest of a reader, with the text behind it.
abbrev pub onto {ℓ} : {A : Type ℓ} → Bytes → Option (A × Bytes) → Option (A × Bytes)
onto v none = none
onto v (some (a, rest)) = some (a, rest ++ v)

take_while-stop :
    (test : ℕ → Bool) (b v : Bytes)
    → Avoids test
    → stops v ≡ true
    → take_while test (b ++ v) ≡ take_while test b
unfolding take_while
take_while-stop test [] [] avoids stop = refl
take_while-stop test [] (c ∷ v) avoids stop = ground (arith, avoids c stop)
take_while-stop test (c ∷ b) v avoids stop = ground (arith, take_while-stop test b v avoids stop)

drop_while-stop :
    (test : ℕ → Bool) (b v : Bytes)
    → Avoids test
    → stops v ≡ true
    → drop_while test (b ++ v) ≡ drop_while test b ++ v
unfolding drop_while
drop_while-stop test [] [] avoids stop = refl
drop_while-stop test [] (c ∷ v) avoids stop = ground (arith, avoids c stop)
drop_while-stop test (c ∷ b) v avoids stop = ground (arith, drop_while-stop test b v avoids stop)

abbrev pub plain : Bytes → Bool
plain = all (λ c. not (is_brace c))

abbrev append_to : Bytes → Option Bytes → Option Bytes
append_to v none = none
append_to v (some rest) = some (rest ++ v)

strip_prefix-stop :
    (ps b v : Bytes)
    → plain ps ≡ true
    → stops v ≡ true
    → strip_prefix ps (b ++ v) ≡ append_to v (strip_prefix ps b)
unfolding strip_prefix
strip_prefix-stop [] b v pure stop = refl
strip_prefix-stop (p ∷ ps) [] [] pure stop = refl
strip_prefix-stop (p ∷ ps) [] (c ∷ v) pure stop = ground (arith, pure, stop)
strip_prefix-stop (p ∷ ps) (c ∷ b) v pure stop =
    let rest : plain ps ≡ true = ground (arith, pure) in
    ground (arith, strip_prefix-stop ps b v rest stop)

read_kind-stop :
    (ks : List Kind) (b v : Bytes)
    → stops v ≡ true
    → read_kind ks (b ++ v) ≡ onto v (read_kind ks b)
unfolding read_kind
read_kind-stop [] b v stop = refl
read_kind-stop (k ∷ ks) b v stop =
    let e = strip_prefix-stop (kind_text k ++ b'.' ∷ []) b v (kind-plain k) stop in
    ground (arith, e, read_kind-stop ks b v stop)
  where
    kind-plain : (k : Kind) → plain (kind_text k ++ b'.' ∷ []) ≡ true
    kind-plain Kind.inputs = refl
    kind-plain Kind.artifacts = refl
    kind-plain Kind.feedback = refl
    kind-plain Kind.self = refl

spaces-Avoids : Avoids is_regex_space
unfolding is_regex_space
spaces-Avoids c h = ground (arith, h)

refs-Avoids : Avoids is_ref_char
unfolding is_ref_char
refs-Avoids c h = ground (arith, h)

read_filter-stop : (b v : Bytes) → stops v ≡ true → read_filter (b ++ v) ≡ onto v (read_filter b)
unfolding read_filter
read_filter-stop [] [] stop = refl
read_filter-stop [] (c ∷ v) stop = ground (arith, stop)
read_filter-stop (c ∷ b) v stop = elim (Bool-cases (eqb c b'|')) [
  | inr other ↦ rw other refl
  | inl bar ↦
      let d = drop_while is_regex_space b in
      let e = strip_prefix-stop (bytes "inline") d v refl stop in
      rw (bar, drop_while-stop is_regex_space b v spaces-Avoids stop, e)
        (elim (Option-cases (strip_prefix (bytes "inline") d)) [
          | inl f ↦ rw f refl
          | inr (rest, f) ↦ rw (f, drop_while-stop is_regex_space rest v spaces-Avoids stop) refl
        ])
]

-- The part of a placeholder between its braces.
abbrev pub inner_ref : Kind → Bytes → Option (Placeholder × Bytes)
inner_ref kind named = do
  ref ← some_ref (take_while is_ref_char named)
  (inline, rest) ← read_filter (drop_while is_regex_space (drop_while is_ref_char named))
  some (record { kind = kind; ref = ref; inline = inline }, rest)

abbrev pub inner : Bytes → Option (Placeholder × Bytes)
inner b = do (kind, named) ← read_kind kinds (drop_while is_regex_space b); inner_ref kind named

inner_ref-stop :
    (kind : Kind) (b v : Bytes)
    → stops v ≡ true
    → inner_ref kind (b ++ v) ≡ onto v (inner_ref kind b)
inner_ref-stop kind b v stop =
    let r = take_while-stop is_ref_char b v refs-Avoids stop in
    let d1 = drop_while-stop is_ref_char b v refs-Avoids stop in
    let d2 = drop_while-stop is_regex_space (drop_while is_ref_char b) v spaces-Avoids stop in
    let f = read_filter-stop (drop_while is_regex_space (drop_while is_ref_char b)) v stop in
    rw (r, d1, d2, f)
      (elim (Option-cases (some_ref (take_while is_ref_char b))) [
        | inl e ↦ rw e refl
        | inr (ref, e) ↦
            rw e
              (elim (Option-cases
                (read_filter (drop_while is_regex_space (drop_while is_ref_char b)))) [
                  | inl e' ↦ rw e' refl
                  | inr (parts, e') ↦ rw e' refl
                ])
      ])

pub inner-stop : (b v : Bytes) → stops v ≡ true → inner (b ++ v) ≡ onto v (inner b)
inner-stop b v stop =
    let d = drop_while-stop is_regex_space b v spaces-Avoids stop in
    let k = read_kind-stop kinds (drop_while is_regex_space b) v stop in
    rw (d, k)
      (elim (Option-cases (read_kind kinds (drop_while is_regex_space b))) [
        | inl e ↦ rw e refl
        | inr ((kind, named), e) ↦ rw e (inner_ref-stop kind named v stop)
      ])

abbrev pub closed : Option (Placeholder × Bytes) → Option (Placeholder × Bytes)
closed none = none
closed (some (p, r)) = elim (strip_prefix (bytes "}}") r) [
  | none ↦ none
  | some rest ↦ some (p, rest)
]

pub match-inner : (u : Bytes) → match_placeholder (b'{' ∷ b'{' ∷ u) ≡ closed (inner u)
unfolding match_placeholder strip_prefix
match-inner u = elim (Option-cases (read_kind kinds (drop_while is_regex_space u))) [
  | inl e ↦ rw e refl
  | inr ((kind, named), e) ↦ rw e (elim (Option-cases (some_ref (take_while is_ref_char named))) [
    | inl e' ↦ rw e' refl
    | inr (ref, e') ↦
        rw e'
          (elim (Option-cases
            (read_filter (drop_while is_regex_space (drop_while is_ref_char named)))) [
              | inl f ↦ rw f refl
              | inr ((inline, rest), f) ↦
                  rw f (elim (Option-cases (strip_prefix (bytes "}}") rest)) [
                    | inl g ↦ rw g refl
                    | inr (behind, g) ↦ rw g refl
                  ])
            ])
  ])
]

pub plain-drop : (test : ℕ → Bool) (b : Bytes) → plain b ≡ true → plain (drop_while test b) ≡ true
unfolding drop_while
plain-drop test [] h = refl
plain-drop test (c ∷ b) h =
    let rest : plain b ≡ true = ground (arith, h) in ground (arith, plain-drop test b rest, h)

plain-strip : (ps b r : Bytes) → plain b ≡ true → strip_prefix ps b ≡ some r → plain r ≡ true
unfolding strip_prefix
plain-strip [] b r h e = subst (λ x. plain x ≡ true) (some-injective _ _ e) h
plain-strip (p ∷ ps) [] r h e = absurd (cc e)
plain-strip (p ∷ ps) (c ∷ b) r h e =
    let rest : plain b ≡ true = ground (arith, h) in
    let e' : strip_prefix ps b ≡ some r = ground (arith, e) in plain-strip ps b r rest e'

pub plain-kind :
    (ks : List Kind) (b r : Bytes) (k : Kind)
    → plain b ≡ true
    → read_kind ks b ≡ some (k, r)
    → plain r ≡ true
unfolding read_kind
plain-kind [] b r k h e = absurd (cc e)
plain-kind (k' ∷ ks) b r k h e = elim (Option-cases (strip_prefix (kind_text k' ++ b'.' ∷ []) b)) [
  | inl f ↦ plain-kind ks b r k h (rw (f, read_kind) at e)
  | inr (rest, f) ↦
      let same : rest ≡ r = ap (λ x. x.1) (some-injective _ _ (rw (f, read_kind) at e)) in
      subst (λ x. plain x ≡ true) same (plain-strip _ b rest h f)
]

pub plain-filter :
    (b r : Bytes) (inline : Bool)
    → plain b ≡ true
    → read_filter b ≡ some (inline, r)
    → plain r ≡ true
unfolding read_filter
plain-filter [] r inline h e =
    subst (λ x. plain x ≡ true) (ap (λ x. x.1) (some-injective _ _ e)) refl
plain-filter (c ∷ b) r inline h e = elim (Bool-cases (eqb c b'|')) [
  | inr other ↦
      subst (λ x. plain x ≡ true)
        (ap (λ x. x.1) (some-injective _ _ (rw (other, read_filter) at e))) h
  | inl bar ↦
      let rest : plain b ≡ true = ground (arith, h) in
      let d = drop_while is_regex_space b in
      elim (Option-cases (strip_prefix (bytes "inline") d)) [
        | inl f ↦ absurd (cc (rw (bar, f, read_filter) at e))
        | inr (after, f) ↦
            let pure = plain-strip (bytes "inline") d after (plain-drop is_regex_space b rest) f in
            subst (λ x. plain x ≡ true)
              (ap (λ x. x.1) (some-injective _ _ (rw (bar, f, read_filter) at e)))
              (plain-drop is_regex_space after pure)
      ]
]
