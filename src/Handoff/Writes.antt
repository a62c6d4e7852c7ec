-- ===== src/Handoff/Writes.antt =====
-- A write under the run directory is atomic: the file holds what it held or the whole new text.
use mathlib.Core.Option.{some-injective}
use oh_my_graph.Base.{
  ℕ, ◌+◌, ◌≤◌, ◌⊎◌, ◌≡◌, ◌≢◌, refl, sym, ap, subst, ◌∙◌, inl, inr, [], ◌∷◌, ◌++◌, Option, none,
  some, arith, eqb, length, length-append, Bool-cases, Option-cases,
}
use oh_my_graph.Base.Bytes.{Bytes, bytes}
use oh_my_graph.Disk.{FileSystem, Read, IsLawful, held, join_path, split_last, dir_of, base_of}
use oh_my_graph.Handoff.{HandoffError}
use oh_my_graph.Handoff.Files.{Write, fill_temp, write_under_run_dir}

parts :
    {n : ℕ} (a b dir base : Bytes)
    → Path (Option (Bytes × Bytes)) (some (a, b)) (some (dir, base))
    → n ≡ length a + 1 + length b
    → n ≡ length dir + 1 + length base
parts a b dir base e h =
    let front : length a ≡ length dir = ap (λ r. length r.0) (some-injective _ _ e) in
    let back : length b ≡ length base = ap (λ r. length r.1) (some-injective _ _ e) in
    omega (arith, h, front, back)

length-split_last :
    (path dir base : Bytes)
    → split_last path ≡ some (dir, base)
    → length path ≡ length dir + 1 + length base
length-split_last [] dir base h = cc
length-split_last (b ∷ bs) dir base h = elim (Option-cases (split_last bs)) [
  | inl e ↦ elim (Bool-cases (eqb b b'/')) [
    | inl slash ↦ parts [] bs dir base (rw (e, slash) at h) (omega arith)
    | inr other ↦ absurd (cc (rw (e, other) at h))
  ]
  | inr ((dir', base'), e) ↦
      let ih = length-split_last bs dir' base' e in
      parts (b ∷ dir') base' dir base (rw e at h) (omega (arith, ih))
]

length-base : (path : Bytes) → length path ≤ length (dir_of path) + 1 + length (base_of path)
unfolding dir_of base_of
length-base path = elim (Option-cases (split_last path)) [
  | inl e ↦ rw (e, dir_of, base_of) (omega arith)
  | inr ((dir, base), e) ↦
      rw (e, dir_of, base_of) (omega (arith, length-split_last path dir base e))
]

-- The temporary name is longer than the path that it stands in for.
temp-ne :
    (path random : Bytes)
    → join_path (dir_of path) ((base_of path ++ bytes ".tmp-") ++ random) ≢ path
temp-ne path random e =
    let total : length (join_path (dir_of path) (base_of path ++ bytes ".tmp-" ++ random))
        ≡ length path =
      ap length e in
    let a = length-append (dir_of path) (b'/' ∷ base_of path ++ bytes ".tmp-" ++ random) in
    let b = length-append (base_of path ++ bytes ".tmp-") random in
    let c = length-append (base_of path) (bytes ".tmp-") in
    omega (arith, total, a, b, c, length-base path)

pub read_content :
    (F : FileSystem) (d : F.Disk) (path c : Bytes)
    → held F d path ≡ some c
    → F.read_file d path ≡ Read.content c
read_content F d path c h = ground arith

module _ (F : FileSystem) where
  -- A write under the run directory that reports no error has stored the text; one that reports an
  -- error has left the file with the text it had, or without one. Every other file keeps its text.
  pub record IsAtomic (d : F.Disk) (path payload : Bytes) (result : Write F) : Type 0 where
    pub stored : result.0 ≡ none → held F result.1 path ≡ some payload
    pub unchanged : result.0 ≢ none → held F result.1 path ≡ held F d path
    pub others : (p c : Bytes) → p ≢ path → held F d p ≡ some c → held F result.1 p ≡ some c

module _ (F : FileSystem) (lawful : IsLawful F) where
  -- What a write that returned an error or none has done to the disk.
  record Filled (d : F.Disk) (name path payload : Bytes) (result : Write F) : Type 0 where
    stored : result.0 ≡ none → held F result.1 path ≡ some payload
    unchanged : result.0 ≢ none → held F result.1 path ≡ held F d path
    others : (p : Bytes) → p ≢ name → p ≢ path → held F result.1 p ≡ held F d p

  module _ (d : F.Disk) (name path payload what id : Bytes) (fresh : path ≢ name) where
    abbrev d1 : F.Disk
    d1 = (F.write d name payload).1

    abbrev d2 : F.Disk
    d2 = (F.sync d1 name).1

    abbrev d3 : F.Disk
    d3 = (F.close d2 name).1

    abbrev d4 : F.Disk
    d4 = (F.rename d3 name path).1

    kept1 : (p : Bytes) → p ≢ name → held F d1 p ≡ held F d p
    kept1 p ne = lawful.write_keeps d name payload p ne

    kept2 : (p : Bytes) → p ≢ name → held F d2 p ≡ held F d p
    kept2 p ne = lawful.sync_keeps d1 name p ∙ kept1 p ne

    kept3 : (p : Bytes) → p ≢ name → held F d3 p ≡ held F d p
    kept3 p ne = lawful.close_keeps d2 name p ∙ kept2 p ne

    -- An error that left every other file alone.
    gave_up :
        (e : HandoffError) (after : F.Disk)
        → ((p : Bytes) → p ≢ name → held F after p ≡ held F d p)
        → Filled d name path payload (some e, after)
    gave_up e after kept = record {
      stored = λ h. cc;
      unchanged = λ _. kept path fresh;
      others = λ p ne _. kept p ne;
    }

    fill_temp-Filled : Filled d name path payload (fill_temp F d name path payload what id)
    unfolding fill_temp
    fill_temp-Filled = elim (Bool-cases (F.write d name payload).0) [
      | inr failed ↦ rw failed (gave_up _ _ (λ p ne. lawful.close_keeps d1 name p ∙ kept1 p ne))
      | inl written ↦ elim (Bool-cases (F.sync d1 name).0) [
        | inr failed ↦
            rw (written, failed) (gave_up _ _ (λ p ne. lawful.close_keeps d2 name p ∙ kept2 p ne))
        | inl synced ↦ elim (Bool-cases (F.close d2 name).0) [
          | inr failed ↦ rw (written, synced, failed) (gave_up _ _ kept3)
          | inl closed ↦ elim (Bool-cases (F.rename d3 name path).0) [
            | inr failed ↦
                rw (written, synced, closed, failed)
                  (gave_up _ _ (λ p ne. lawful.rename_fails d3 name path p failed ∙ kept3 p ne))
            | inl renamed ↦
                rw (written, synced, closed, renamed)
                  (record {
                    stored = λ _.
                        lawful.rename_moves d3 name path renamed
                        ∙ lawful.close_keeps d2 name name
                        ∙ lawful.sync_keeps d1 name name
                        ∙ lawful.write_stores d name payload written;
                    unchanged = λ h. absurd (h refl);
                    others = λ p ne ne'. lawful.rename_keeps d3 name path p ne ne' ∙ kept3 p ne;
                  })
          ]
        ]
      ]
    ]

  pub write_under_run_dir-IsAtomic :
      (d : F.Disk) (path payload what id : Bytes)
      → IsAtomic F d path payload (write_under_run_dir F d path payload what id)
  unfolding write_under_run_dir
  write_under_run_dir-IsAtomic d path payload what id =
      let made = F.mkdir_all d (dir_of path) in
      let temp = F.create_temp made.1 (dir_of path) (base_of path ++ bytes ".tmp-") in
      let kept : (p : Bytes) → temp.0 ≢ some p → held F temp.1 p ≡ held F d p = λ p ne.
        lawful.create_temp_keeps made.1 (dir_of path) _ p ne
        ∙ lawful.mkdir_keeps d (dir_of path) p in
      elim (Bool-cases made.0) [
        | inr failed ↦ rw failed (record {
          stored = λ h. cc;
          unchanged = λ _. lawful.mkdir_keeps d (dir_of path) path;
          others = λ p c ne h. lawful.mkdir_keeps d (dir_of path) p ∙ h;
        })
        | inl ok ↦ elim (Option-cases temp.0) [
          | inl failed ↦
              rw (ok, failed)
                (record {
                  stored = λ h. cc;
                  unchanged = λ _. kept path (λ e. cc (sym failed ∙ e));
                  others = λ p c ne h. kept p (λ e. cc (sym failed ∙ e)) ∙ h;
                })
          | inr (name, named) ↦
              rw (ok, named)
                (let (random, (e, free)) =
                    lawful.create_temp_name made.1 (dir_of path) _ name named in
                  let fresh : path ≢ name = λ same. temp-ne path random (sym e ∙ sym same) in
                  let before : (p : Bytes) → p ≢ name → held F temp.1 p ≡ held F d p =
                    λ p ne. kept p (λ same. ne (some-injective _ _ (sym same ∙ named))) in
                  let fill = fill_temp-Filled temp.1 name path payload what id fresh in
                  record {
                    stored = λ h. lawful.remove_keeps _ name path fresh ∙ fill.stored h;
                    unchanged = λ h.
                        lawful.remove_keeps _ name path fresh
                        ∙ fill.unchanged h
                        ∙ before path fresh;
                    others = λ p c ne h.
                        let used : p ≢ name = λ same. cc (
                          sym free
                          ∙ lawful.mkdir_keeps d (dir_of path) name
                          ∙ subst (λ x. held F d x ≡ some c) same h) in
                        lawful.remove_keeps _ name p used
                        ∙ fill.others p used ne
                        ∙ before p used
                        ∙ h;
                  })
        ]
      ]

  -- Whatever step fails, a write under the run directory leaves the file with the whole new text, and
  -- reports no error, or as it was, and reports one. A file elsewhere keeps its text.
  pub write_under_run_dir-atomic :
      (d : F.Disk) (path payload what id other c : Bytes)
      → other ≢ path
      → held F d other ≡ some c
      → let (err, d') = write_under_run_dir F d path payload what id in
        (((err ≡ none) × (held F d' path ≡ some payload))
          ⊎ ((err ≢ none) × (held F d' path ≡ held F d path)))
        × (held F d' other ≡ some c)
  write_under_run_dir-atomic d path payload what id other c ne there =
      let atomic = write_under_run_dir-IsAtomic d path payload what id in
      (
        elim (Option-cases (write_under_run_dir F d path payload what id).0) [
          | inl ok ↦ inl (ok, atomic.stored ok)
          | inr (e, err) ↦
              let bad : (write_under_run_dir F d path payload what id).0 ≢ none =
                λ x. cc (sym err ∙ x) in
              inr (bad, atomic.unchanged bad)
        ],
        atomic.others other c ne there,
      )
