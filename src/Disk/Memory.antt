-- ===== src/Disk/Memory.antt =====
-- A disk in memory that keeps the promises, with a list of the calls that are to fail.
use mathlib.Core.Option.{some-injective}
use oh_my_graph.Base.{
  ◌∙◌, subst, ℕ, zero, suc, ◌+◌, ◌<◌, inl, inr, Bool-cases, ◌≡◌, ◌≢◌, refl, sym, Bool, true, false,
  [], ◌∷◌, ◌++◌, none, some, arith, length, length-append, ap,
}
use oh_my_graph.Base.Bytes.{Bytes, same_bytes, same_bytes_iff}
use oh_my_graph.Base.Table.{
  Table, get, put, delete, get-put_same, get-put_other, get-delete_same, get-delete_other,
}
use oh_my_graph.Disk.{FileSystem, Read, Removal, IsLawful, held, join_path}

abbrev lookup : Table Bytes → Bytes → Read
lookup files path = elim (get files path) [ none ↦ Read.missing | some c ↦ Read.content c ]

-- A name that no file has: it is longer than all names together.
abbrev zeros : ℕ → Bytes
zeros zero = []
zeros (suc n) = b'0' ∷ zeros n

abbrev total_length : Table Bytes → ℕ
total_length [] = 0
total_length ((k, _) ∷ rest) = length k + total_length rest

abbrev fresh : Table Bytes → Bytes → Bytes → Bytes
fresh files dir pattern = join_path dir (pattern ++ zeros (suc (total_length files)))

length-zeros : (n : ℕ) → length (zeros n) ≡ n
length-zeros zero = refl
length-zeros (suc n) = omega (arith, length-zeros n)

get-long :
    (files : Table Bytes) (key : Bytes) → total_length files < length key → get files key ≡ none
get-long [] key h = refl
get-long ((k, c) ∷ rest) key h =
    let other : same_bytes k key ≡ false = elim (Bool-cases (same_bytes k key)) [
      | inl same ↦
          let e : length k ≡ length key = ap length ((same_bytes_iff k key).0 same) in
          absurd (omega (arith, e, h))
      | inr e ↦ e
    ] in
    rw other (get-long rest key (omega (arith, h)))

get-fresh : (files : Table Bytes) (dir pattern : Bytes) → get files (fresh files dir pattern) ≡ none
get-fresh files dir pattern =
    let n = suc (total_length files) in
    get-long files (fresh files dir pattern) (
      omega (
        arith,
        length-append dir (b'/' ∷ pattern ++ zeros n),
        length-append pattern (zeros n),
        length-zeros n,
      ))

-- A move of a file that is not there fails.
abbrev move : Table Bytes → Bytes → Bytes → Bool × Table Bytes
move files old new = elim (get files old) [
  | none ↦ (false, files)
  | some c ↦ (true, put (delete files old) new c)
]

abbrev pub memory : FileSystem
memory = record {
  Disk = Table Bytes;
  mkdir_all = λ files dir. (true, files);
  write_file = λ files path c. (true, put files path c);
  create_temp =
      λ files dir pattern. (some (fresh files dir pattern), put files (fresh files dir pattern) []);
  write = λ files name c. (true, put files name c);
  sync = λ files name. (true, files);
  close = λ files name. (true, files);
  rename = move;
  remove = λ files path. (Removal.removed, delete files path);
  read_file = lookup;
}

held-get : (files : Table Bytes) (p : Bytes) → held memory files p ≡ get files p
held-get files p = ground arith

move-moves :
    (files : Table Bytes) (old new : Bytes)
    → (move files old new).0 ≡ true
    → get (move files old new).1 new ≡ get files old
move-moves files old new h = ground (arith, same_bytes_iff new new)

move-fails :
    (files : Table Bytes) (old new p : Bytes)
    → (move files old new).0 ≡ false
    → get (move files old new).1 p ≡ get files p
move-fails files old new p h = ground arith

move-keeps :
    (files : Table Bytes) (old new p : Bytes)
    → p ≢ old
    → p ≢ new
    → get (move files old new).1 p ≡ get files p
move-keeps files old new p ne ne' =
    ground (arith, same_bytes_iff new p, get-delete_other files old p (λ e. ne (sym e)))

held_as : (a b : Table Bytes) (p q : Bytes) → get a p ≡ get b q → held memory a p ≡ held memory b q
held_as a b p q e = held-get a p ∙ e ∙ sym (held-get b q)

pub memory-IsLawful : IsLawful memory
memory-IsLawful = record {
  mkdir_keeps = λ d dir p. refl;
  write_file_keeps =
      λ d path c p ne. held_as (put d path c) d p p (get-put_other d path p c (λ e. ne (sym e)));
  write_file_stores = λ d path c h. held-get (put d path c) path ∙ get-put_same d path c;
  create_temp_name = λ d dir pattern name h. (
    zeros (suc (total_length d)),
    (
      sym (some-injective _ _ h),
      subst (λ x. held memory d x ≡ none) (some-injective _ _ h)
          (held-get d (fresh d dir pattern) ∙ get-fresh d dir pattern),
    ),
  );
  create_temp_keeps = λ d dir pattern p ne.
      held_as (put d (fresh d dir pattern) []) d p p
        (get-put_other d (fresh d dir pattern) p [] (λ e. ne (ap some e)));
  write_keeps =
      λ d name c p ne. held_as (put d name c) d p p (get-put_other d name p c (λ e. ne (sym e)));
  write_stores = λ d name c h. held-get (put d name c) name ∙ get-put_same d name c;
  sync_keeps = λ d name p. refl;
  close_keeps = λ d name p. refl;
  rename_moves = λ d old new h. held_as (move d old new).1 d new old (move-moves d old new h);
  rename_fails = λ d old new p h. held_as (move d old new).1 d p p (move-fails d old new p h);
  rename_keeps =
      λ d old new p ne ne'. held_as (move d old new).1 d p p (move-keeps d old new p ne ne');
  remove_keeps =
      λ d path p ne. held_as (delete d path) d p p (get-delete_other d path p (λ e. ne (sym e)));
  remove_drops = λ d path h. held-get (delete d path) path ∙ get-delete_same d path;
}
