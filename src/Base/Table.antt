-- ===== src/Base/Table.antt =====
-- A Go map with string keys, as an association list in which the first entry of a key counts.
use mathlib.Core.Path.{◌≡◌, refl}
use mathlib.Core.Option.{Option, none, some}
use mathlib.Core.List.{List, [], ◌∷◌}
use native.Mathlib.Omega.{arith}
use oh_my_graph.Base.Tests.{if◌then◌else◌}
use oh_my_graph.Base.Bytes.{Bytes, same_bytes, same_bytes_iff}

abbrev pub Table {ℓ} : Type ℓ → Type ℓ
Table V = List (Bytes × V)

module _ {ℓ} {A : Type ℓ} where
  abbrev pub get : Table A → Bytes → Option A
  get [] key = none
  get ((k, value) ∷ rest) key = if same_bytes k key then some value else get rest key

  abbrev pub put : Table A → Bytes → A → Table A
  put table key value = (key, value) ∷ table

  abbrev pub delete : Table A → Bytes → Table A
  delete [] key = []
  delete ((k, value) ∷ rest) key =
      if same_bytes k key then delete rest key else (k, value) ∷ delete rest key

  pub get-put_same :
      (table : Table A) (key : Bytes) (value : A) → get (put table key value) key ≡ some value
  get-put_same table key value = ground (arith, same_bytes_iff key key)

  pub get-put_other :
      (table : Table A) (key other : Bytes) (value : A)
      → ¬ (key ≡ other)
      → get (put table key value) other ≡ get table other
  get-put_other table key other value ne = ground (arith, same_bytes_iff key other)

  pub get-delete_same : (table : Table A) (key : Bytes) → get (delete table key) key ≡ none
  get-delete_same [] key = refl
  get-delete_same ((k, value) ∷ rest) key = ground (arith, get-delete_same rest key)

  pub get-delete_other :
      (table : Table A) (key other : Bytes)
      → ¬ (key ≡ other)
      → get (delete table key) other ≡ get table other
  get-delete_other [] key other ne = refl
  get-delete_other ((k, value) ∷ rest) key other ne =
      ground
        (arith, get-delete_other rest key other ne, same_bytes_iff k key, same_bytes_iff k other)
