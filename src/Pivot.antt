-- ===== src/Pivot.antt =====
-- PivotMap and PivotMapInt of aeadutils/aeadutils.go: rows of fields become fields of rows.
pub mod Transpose
pub mod Values
use vault_plugin_aead.Prelude.{Bytes, [], ◌∷◌, Option, none, some, Outcome, ok, panic, ◌>>=◌}
use vault_plugin_aead.GoMap.{GoMap, get, set}
use vault_plugin_aead.Value.{Value, obj, as_map, to_fields}

module _ {ℓ} {V : Type ℓ} where
  -- newMap[ki][k] = vi, where the inner map is made if it is not there
  unfoldable pub put : Bytes → Bytes → V → GoMap (GoMap V) → GoMap (GoMap V)
  unfolding get set
  put ki k vi new = elim (get ki new) [
    | none ↦ set ki ((k, vi) ∷ []) new
    | some inner ↦ set ki (set k vi inner) new
  ]

  unfoldable pub pivot_row : Bytes → GoMap V → GoMap (GoMap V) → GoMap (GoMap V)
  unfolding put
  pivot_row k [] new = new
  pivot_row k ((ki, vi) ∷ row) new = pivot_row k row (put ki k vi new)

  unfoldable pub pivot_map : GoMap (GoMap V) → GoMap (GoMap V) → GoMap (GoMap V)
  unfolding pivot_row
  pivot_map [] new = new
  pivot_map ((k, row) ∷ original) new = pivot_map original (pivot_row k row new)

-- An inner value that is no map becomes a nil map, and the write to it panics.
unfoldable pub put_int : Bytes → Bytes → Value → GoMap Value → Outcome (GoMap Value)
unfolding get set
put_int ki k vi new = elim (get ki new) [
  | none ↦ ok (set ki (obj (to_fields ((k, vi) ∷ []))) new)
  | some inner ↦ elim (as_map inner) [
    | none ↦ panic
    | some m ↦ ok (set ki (obj (to_fields (set k vi m))) new)
  ]
]

unfoldable pub pivot_row_int : Bytes → GoMap Value → GoMap Value → Outcome (GoMap Value)
unfolding put_int
pivot_row_int k [] new = ok new
pivot_row_int k ((ki, vi) ∷ row) new = do new' ← put_int ki k vi new; pivot_row_int k row new'

-- A row that is no map is logged, and has no entries.
abbrev pub row_of : Option (GoMap Value) → GoMap Value
row_of none = []
row_of (some m) = m

unfoldable pub pivot_map_int : GoMap Value → GoMap Value → Outcome (GoMap Value)
unfolding pivot_row_int
pivot_map_int [] new = ok new
pivot_map_int ((k, v) ∷ original) new = do
  new' ← pivot_row_int k (row_of (as_map v)) new
  pivot_map_int original new'
