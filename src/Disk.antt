-- ===== src/Disk.antt =====
-- What internal/handoff asks of the file system (the package `os`): its calls over an unknown state,
-- and what they are documented to do. A call returns whether it succeeded and the state it leaves.
pub mod Memory
use oh_my_graph.Base.{
  ℕ, ◌≡◌, ◌≢◌, Bool, true, false, List, [], ◌∷◌, ◌++◌, Option, none, some, if◌then◌else◌, eqb,
}
use oh_my_graph.Base.Bytes.{Bytes, bytes}

pub data Read : Type 0 where
  content : Bytes → Read
  missing unreadable : Read

pub data Removal : Type 0 where
  removed absent not_removed : Removal

pub record FileSystem : Type 1 where
  pub Disk : Type 0
  pub mkdir_all : Disk → Bytes → Bool × Disk
  pub write_file : Disk → Bytes → Bytes → Bool × Disk
  -- `os.CreateTemp(dir, pattern)`, whose pattern ends in `*`: the name of the new file.
  pub create_temp : Disk → Bytes → Bytes → Option Bytes × Disk
  -- `Write`, `Sync` and `Close` of an open file, here by its name.
  pub write : Disk → Bytes → Bytes → Bool × Disk
  pub sync : Disk → Bytes → Bool × Disk
  pub close : Disk → Bytes → Bool × Disk
  pub rename : Disk → Bytes → Bytes → Bool × Disk
  pub remove : Disk → Bytes → Removal × Disk
  pub read_file : Disk → Bytes → Read

abbrev content_of : Read → Option Bytes
content_of (Read.content c) = some c
content_of Read.missing = none
content_of Read.unreadable = none

-- The content of the file with the given name, when there is one.
abbrev pub held : (F : FileSystem) → F.Disk → Bytes → Option Bytes
held F d path = content_of (F.read_file d path)

abbrev pub join_path : Bytes → Bytes → Bytes
join_path dir name = dir ++ b'/' ∷ name

-- What the operating system promises. A failed call may leave a mark on its own file, but on no other.
pub record IsLawful (F : FileSystem) : Type 0 where
  pub mkdir_keeps : (d : F.Disk) (dir p : Bytes) → held F (F.mkdir_all d dir).1 p ≡ held F d p
  pub write_file_keeps :
      (d : F.Disk) (path c p : Bytes) → p ≢ path → held F (F.write_file d path c).1 p ≡ held F d p
  pub write_file_stores :
      (d : F.Disk) (path c : Bytes)
      → (F.write_file d path c).0 ≡ true
      → held F (F.write_file d path c).1 path ≡ some c
  pub create_temp_name :
      (d : F.Disk) (dir pattern name : Bytes)
      → (F.create_temp d dir pattern).0 ≡ some name
      → (random : Bytes) × ((name ≡ join_path dir (pattern ++ random)) × (held F d name ≡ none))
  pub create_temp_keeps :
      (d : F.Disk) (dir pattern p : Bytes)
      → (F.create_temp d dir pattern).0 ≢ some p
      → held F (F.create_temp d dir pattern).1 p ≡ held F d p
  pub write_keeps :
      (d : F.Disk) (name c p : Bytes) → p ≢ name → held F (F.write d name c).1 p ≡ held F d p
  pub write_stores :
      (d : F.Disk) (name c : Bytes)
      → (F.write d name c).0 ≡ true
      → held F (F.write d name c).1 name ≡ some c
  pub sync_keeps : (d : F.Disk) (name p : Bytes) → held F (F.sync d name).1 p ≡ held F d p
  pub close_keeps : (d : F.Disk) (name p : Bytes) → held F (F.close d name).1 p ≡ held F d p
  pub rename_moves :
      (d : F.Disk) (old new : Bytes)
      → (F.rename d old new).0 ≡ true
      → held F (F.rename d old new).1 new ≡ held F d old
  pub rename_fails :
      (d : F.Disk) (old new p : Bytes)
      → (F.rename d old new).0 ≡ false
      → held F (F.rename d old new).1 p ≡ held F d p
  pub rename_keeps :
      (d : F.Disk) (old new p : Bytes)
      → p ≢ old
      → p ≢ new
      → held F (F.rename d old new).1 p ≡ held F d p
  pub remove_keeps :
      (d : F.Disk) (path p : Bytes) → p ≢ path → held F (F.remove d path).1 p ≡ held F d p
  pub remove_drops :
      (d : F.Disk) (path : Bytes)
      → (F.remove d path).0 ≢ Removal.not_removed
      → held F (F.remove d path).1 path ≡ none

-- A name that `filepath.Dir` and `filepath.Base` take apart at its last '/'.
abbrev pub split_last : Bytes → Option (Bytes × Bytes)
split_last [] = none
split_last (b ∷ bs) = elim (split_last bs) [
  | some (dir, base) ↦ some (b ∷ dir, base)
  | none ↦ if eqb b b'/' then some ([], bs) else none
]

-- `filepath.Dir` of a path in clean form that has an element before its last.
unfoldable pub dir_of : Bytes → Bytes
dir_of path = elim (split_last path) [ some (dir, _) ↦ dir | none ↦ bytes "." ]

unfoldable pub base_of : Bytes → Bytes
base_of path = elim (split_last path) [ some (_, base) ↦ base | none ↦ path ]
