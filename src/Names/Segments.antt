-- ===== src/Names/Segments.antt =====
-- The automaton of the node id pattern accepts exactly the texts whose '/'-separated segments are
-- all safe path elements.
use mathlib.Core.Bool.{false≢true}
use mathlib.Core.List.Memᴰ
use native.Mathlib.Decide.{ℕ_discrete}
use oh_my_graph.Base.{
  ℕ, ◌≤◌, String, ◌≡◌, refl, sym, ◌↔◌, ◌⊎◌, ◌≢◌, inl, inr, Bool, true, false, ◌&&◌, List, [], ◌∷◌,
  arith, if◌then◌else◌, eqb, all, All, Memᴰ, All-mem, All-map, and_iff, all_iff,
}
use oh_my_graph.Base.Text.{codes}
use oh_my_graph.Names.{
  is_alnum, is_name_char, is_segment, matches_id, node_id_matches, worktree_name_matches,
}

-- `strings.Split(text, "/")`: the first segment and the others.
abbrev pub split_slash : List ℕ → List ℕ × List (List ℕ)
split_slash [] = ([], [])
split_slash (c ∷ cs) =
    let (first, others) = split_slash cs in
    if eqb c b'/' then ([], first ∷ others) else (c ∷ first, others)

and_assoc : (a b c : Bool) → (a && b) && c ≡ a && (b && c)
and_assoc a b c = ground arith

matches_id-split :
    (cs : List ℕ)
    → (matches_id false cs
        ≡ all is_name_char (split_slash cs).0 && all is_segment (split_slash cs).1)
      × (matches_id true cs ≡ is_segment (split_slash cs).0 && all is_segment (split_slash cs).1)
unfolding matches_id is_segment
matches_id-split [] = (refl, refl)
matches_id-split (c ∷ cs) =
    let (inside, start) = matches_id-split cs in
    elim (ℕ_discrete c b'/') [
      | yes slash ↦ rw slash (start, refl)
      | no other ↦
          let plain : eqb c b'/' ≡ false = ground arith in
          rw plain (
            rw inside (sym (and_assoc (is_name_char c) _ _)),
            rw inside (sym (and_assoc (is_alnum c) _ _)),
          )
    ]

-- An ASCII letter or digit.
abbrev pub IsAlnum : ℕ → Type 0
IsAlnum c = (65 ≤ c) × (c ≤ 90) ⊎ (97 ≤ c) × (c ≤ 122) ⊎ (48 ≤ c) × (c ≤ 57)

-- A letter, a digit, '.', '_' or '-'.
abbrev pub IsNameChar : ℕ → Type 0
IsNameChar c = IsAlnum c ⊎ (c ≡ 46) ⊎ (c ≡ 95) ⊎ (c ≡ 45)

abbrev pub IsPathElement : List ℕ → Type 0
IsPathElement [] = ⊥
IsPathElement (c ∷ cs) = IsAlnum c × All IsNameChar cs

is_alnum_iff : (c : ℕ) → (is_alnum c ≡ true) ↔ IsAlnum c
is_alnum_iff c = ground arith

is_name_char_iff : (c : ℕ) → (is_name_char c ≡ true) ↔ IsNameChar c
is_name_char_iff c = ground arith

is_segment_iff : (s : List ℕ) → (is_segment s ≡ true) ↔ IsPathElement s
unfolding is_segment
is_segment_iff [] = (λ h. false≢true h, λ h. absurd h)
is_segment_iff (c ∷ cs) =
    and_iff (is_alnum_iff c) (all_iff IsNameChar is_name_char is_name_char_iff cs)

abbrev pub segments : String → List (List ℕ)
segments id = let (first, others) = split_slash (codes id) in first ∷ others

-- The pattern of a node id accepts a text exactly when each piece between its '/'s begins with a
-- letter or digit and holds only letters, digits, '.', '_' and '-'.
pub node_id_matches_iff :
    (id : String) → (node_id_matches id ≡ true) ↔ All IsPathElement (segments id)
unfolding node_id_matches
node_id_matches_iff id =
    let (first, others) = split_slash (codes id) in
    rw ((matches_id-split (codes id)).1)
      (and_iff (is_segment_iff first) (all_iff IsPathElement is_segment is_segment_iff others))

-- The pattern of a worktree name accepts a text exactly when it is one such piece.
pub worktree_name_matches_iff :
    (name : String) → (worktree_name_matches name ≡ true) ↔ IsPathElement (codes name)
unfolding worktree_name_matches
worktree_name_matches_iff name = is_segment_iff (codes name)

-- A path element that names an entry of the directory itself.
abbrev pub IsInside : List ℕ → Type 0
IsInside s = (s ≢ []) × (s ≢ b'.' ∷ []) × (s ≢ b'.' ∷ b'.' ∷ []) × ¬ Memᴰ b'/' s

-- Each piece between the '/'s of an accepted id is non-empty, is neither "." nor "..", and holds no
-- '/' itself.
pub node_id_matches-IsInside :
    (id : String) → node_id_matches id ≡ true → All IsInside (segments id)
node_id_matches-IsInside id h = All-map _ _ element (segments id) ((node_id_matches_iff id).0 h)
  where
    no_slash : ¬ IsNameChar 47
    no_slash h = omega arith

    element : (s : List ℕ) → IsPathElement s → IsInside s
    element [] p = absurd p
    element (c ∷ cs) (first, others) = (
      λ e. cc,
      λ e. ground arith,
      λ e. ground arith,
      λ m. elim (Memᴰ.cases_cons m) [
        | inl e ↦ omega arith
        | inr later ↦ no_slash (All-mem IsNameChar cs others 47 later)
      ],
    )
