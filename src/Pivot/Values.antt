-- ===== src/Pivot/Values.antt =====
-- PivotMapInt over `interface{}` values does what PivotMap does over nested maps.
use vault_plugin_aead.Prelude.{
  Bytes, same, [], ◌∷◌, Option, none, some, ok, ◌≡◌, refl, arith, ap, Option-cases, inl, inr,
  Bool-cases,
}
use vault_plugin_aead.GoMap.{GoMap, get, set}
use vault_plugin_aead.Value.{Value, obj, as_map, to_fields, entries-to_fields}
use vault_plugin_aead.Pivot.{
  put, pivot_row, pivot_map, put_int, pivot_row_int, pivot_map_int, row_of,
}

-- A nested map as a map of values, and back: what is no map has no entries.
abbrev pub embed : GoMap (GoMap Value) → GoMap Value
embed [] = []
embed ((k, row) ∷ m) = (k, obj (to_fields row)) ∷ embed m

abbrev pub rows : GoMap Value → GoMap (GoMap Value)
rows [] = []
rows ((k, v) ∷ m) = (k, row_of (as_map v)) ∷ rows m

abbrev pub lift : Option (GoMap Value) → Option Value
lift none = none
lift (some row) = some (obj (to_fields row))

pub get-embed : (k : Bytes) (m : GoMap (GoMap Value)) → get k (embed m) ≡ lift (get k m)
unfolding get
get-embed k [] = refl
get-embed k ((j, row) ∷ m) = ground (arith, get-embed k m)

set-embed :
    (k : Bytes) (row : GoMap Value) (m : GoMap (GoMap Value))
    → set k (obj (to_fields row)) (embed m) ≡ embed (set k row m)
unfolding set
set-embed k row [] = refl
set-embed k row ((j, r) ∷ m) = elim (Bool-cases (same j k)) [
  | inl s ↦ rw (s, set)
  | inr s ↦ rw (s, set) (ap (λ (e : GoMap Value). (j, obj (to_fields r)) ∷ e) (set-embed k row m))
]

put_int-embed :
    (ki k : Bytes) (vi : Value) (new : GoMap (GoMap Value))
    → put_int ki k vi (embed new) ≡ ok (embed (put ki k vi new))
unfolding put_int put
put_int-embed ki k vi new = elim (Option-cases (get ki new)) [
  | inl e ↦ ground (arith, get-embed ki new, set-embed ki ((k, vi) ∷ []) new)
  | inr (inner, e) ↦
      ground (arith, get-embed ki new, entries-to_fields inner, set-embed ki (set k vi inner) new)
]

pivot_row_int-embed :
    (k : Bytes) (row : GoMap Value) (new : GoMap (GoMap Value))
    → pivot_row_int k row (embed new) ≡ ok (embed (pivot_row k row new))
unfolding pivot_row_int pivot_row
pivot_row_int-embed k [] new = refl
pivot_row_int-embed k ((ki, vi) ∷ row) new =
    rw (put_int-embed ki k vi new) (pivot_row_int-embed k row (put ki k vi new))

-- From nested maps PivotMapInt never panics, and gives the nested map that PivotMap gives.
pub pivot_map_int-embed :
    (mo : GoMap Value) (new : GoMap (GoMap Value))
    → pivot_map_int mo (embed new) ≡ ok (embed (pivot_map (rows mo) new))
unfolding pivot_map_int pivot_map
pivot_map_int-embed [] new = refl
pivot_map_int-embed ((k, v) ∷ mo) new =
    rw (pivot_row_int-embed k (row_of (as_map v)) new)
      (pivot_map_int-embed mo (pivot_row k (row_of (as_map v)) new))
