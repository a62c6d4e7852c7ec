-- ===== src/Handoff/Paths.antt =====
-- The files of a run directory: no two of them share a path.
use mathlib.Core.List.{append_assoc, append_cancel_left, append_cancel_right, tail-eq_of_cons-eq}
use mathlib.Core.List.Memᴰ
use oh_my_graph.Base.{
  ℕ, ◌<◌, String, ◌≡◌, ◌≢◌, refl, sym, ap, subst, ◌∙◌, inl, inr, Bool, true, false, ◌&&◌, List, [],
  ◌∷◌, ◌++◌, map, arith, if◌then◌else◌, eqb, ltb, All, any, Memᴰ, Bool-cases,
}
use oh_my_graph.Base.Text.{codes}
use oh_my_graph.Base.Bytes.{Bytes, bytes, encode}
use oh_my_graph.Names.{is_alnum, is_name_char, matches_id, node_id_matches}
use oh_my_graph.Handoff.{
  sanitize_node_id, artifact_path_of, feedback_path, previous_path, failed_output_path, out_file,
}

abbrev IsPlain : ℕ → Type 0
IsPlain c = (c < 128) × (c ≢ 126)

matches_id-IsPlain :
    (at_start : Bool) (cs : List ℕ) → matches_id at_start cs ≡ true → All IsPlain cs
unfolding matches_id
matches_id-IsPlain at_start [] h = tt
matches_id-IsPlain true (c ∷ cs) h =
    let here : (is_alnum c ≡ true) × (matches_id false cs ≡ true) = ground arith in
    (ground (arith, here.0), matches_id-IsPlain false cs here.1)
matches_id-IsPlain false (c ∷ cs) h = elim (Bool-cases (eqb c b'/')) [
  | inl slash ↦ (ground (arith, slash), matches_id-IsPlain true cs (rw slash at h))
  | inr other ↦
      let rest : is_name_char c && matches_id false cs ≡ true = rw other at h in
      let here : (is_name_char c ≡ true) × (matches_id false cs ≡ true) = ground (arith, rest) in
      (ground (arith, here.0), matches_id-IsPlain false cs here.1)
]

encode-plain : (cs : List ℕ) → All IsPlain cs → encode cs ≡ cs
encode-plain [] h = refl
encode-plain (c ∷ cs) h =
    let small : ltb c 128 ≡ true = ground arith in rw small (ap (c ∷◌) (encode-plain cs h.1))

-- What `sanitize_node_id` did, undone: an authored id holds no '~'.
abbrev pub restore_node_id : Bytes → Bytes
restore_node_id = map (λ c. if eqb c b'~' then b'/' else c)

restore-sanitize : (cs : Bytes) → All IsPlain cs → restore_node_id (sanitize_node_id cs) ≡ cs
unfolding sanitize_node_id
restore-sanitize [] h = refl
restore-sanitize (c ∷ cs) h = ground (arith, restore-sanitize cs h.1, h.0)

sanitize-no_slash : (cs : Bytes) → ¬ Memᴰ b'/' (sanitize_node_id cs)
unfolding sanitize_node_id
sanitize-no_slash [] m = Memᴰ.not-nil m
sanitize-no_slash (c ∷ cs) m = elim (Memᴰ.cases_cons m) [
  | inl e ↦ ground (arith, e)
  | inr later ↦ sanitize-no_slash cs later
]

-- An accepted id is written in plain characters.
id-IsPlain : (id : String) → node_id_matches id ≡ true → All IsPlain (bytes id)
unfolding node_id_matches
id-IsPlain id h =
    let plain = matches_id-IsPlain true (codes id) h in
    subst (All IsPlain) (sym (encode-plain (codes id) plain)) plain

-- Sanitizing an accepted id loses nothing of it: putting '/' back for '~' gives the id again.
pub restore-sanitize_node_id :
    (id : String)
    → node_id_matches id ≡ true
    → restore_node_id (sanitize_node_id (bytes id)) ≡ bytes id
restore-sanitize_node_id id h = restore-sanitize (bytes id) (id-IsPlain id h)

-- The four files of a node.
pub data Place : Type 0 where
  artifact feedback previous failed : Place

abbrev pub place_path : Place → Bytes → Bytes → Bytes
place_path Place.artifact run_dir id = artifact_path_of run_dir id
place_path Place.feedback run_dir id = feedback_path run_dir id
place_path Place.previous run_dir id = previous_path run_dir id
place_path Place.failed run_dir id = failed_output_path run_dir id

abbrev folder : Place → Bytes
folder Place.artifact = []
folder Place.feedback = bytes "feedback/"
folder Place.previous = bytes "previous/"
folder Place.failed = bytes "failed/"

place_path-folder :
    (p : Place) (run_dir id : Bytes)
    → place_path p run_dir id ≡ run_dir ++ (b'/' ∷ (folder p ++ out_file id))
unfolding artifact_path_of feedback_path previous_path failed_output_path
place_path-folder Place.artifact run_dir id = refl
place_path-folder Place.feedback run_dir id = append_assoc run_dir _ _
place_path-folder Place.previous run_dir id = append_assoc run_dir _ _
place_path-folder Place.failed run_dir id = append_assoc run_dir _ _

abbrev has_slash : Bytes → Bool
has_slash = any (λ c. eqb c b'/')

out_file-no_slash : (id : Bytes) → has_slash (out_file id) ≡ false
unfolding sanitize_node_id
out_file-no_slash [] = refl
out_file-no_slash (c ∷ cs) = ground (arith, out_file-no_slash cs)

-- The place is read off the path: a folder has a '/', and the first two letters tell which.
abbrev place_in : Bytes → Place
place_in (c ∷ d ∷ _) =
    if eqb c b'p' then Place.previous else if eqb d b'e' then Place.feedback else Place.failed
place_in _ = Place.failed

abbrev read_place : Bytes → Place
read_place rest = if has_slash rest then place_in rest else Place.artifact

read_place-folder : (p : Place) (id : Bytes) → read_place (folder p ++ out_file id) ≡ p
read_place-folder Place.artifact id = rw (out_file-no_slash id) refl
read_place-folder Place.feedback id = refl
read_place-folder Place.previous id = refl
read_place-folder Place.failed id = refl

-- The files of a run directory do not collide: if two paths are equal, they are the same kind of file
-- of the same node, for ids that the pattern accepts.
pub place_path_distinct :
    (p q : Place) (run_dir : Bytes) (a b : String)
    → node_id_matches a ≡ true
    → node_id_matches b ≡ true
    → place_path p run_dir (bytes a) ≡ place_path q run_dir (bytes b)
    → (p ≡ q) × (bytes a ≡ bytes b)
place_path_distinct p q run_dir a b ha hb e =
    let rest : folder p ++ out_file (bytes a) ≡ folder q ++ out_file (bytes b) =
      tail-eq_of_cons-eq (
        append_cancel_left run_dir _ _ (
          sym (place_path-folder p run_dir (bytes a))
          ∙ e
          ∙ place_path-folder q run_dir (bytes b))) in
    let same : p ≡ q =
      sym (read_place-folder p (bytes a)) ∙ ap read_place rest ∙ read_place-folder q (bytes b) in
    let files : out_file (bytes a) ≡ out_file (bytes b) =
      append_cancel_left (folder q) _ _
        (subst (λ r. folder r ++ out_file (bytes a) ≡ folder q ++ out_file (bytes b)) same rest) in
    let names = append_cancel_right _ _ (bytes ".out") files in
    (
      same,
      sym (restore-sanitize_node_id a ha)
          ∙ ap restore_node_id names
          ∙ restore-sanitize_node_id b hb,
    )
