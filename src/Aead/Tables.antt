-- ===== src/Aead/Tables.antt =====
-- Responses as tables: the cell of a row and a field.
use vault_plugin_aead.Prelude.{
  Bytes, [], ◌∷◌, Option, none, some, ok, same, same_refl, ◌≡◌, refl, arith, ap, sym, ◌∙◌,
  Bool-cases, inl, inr, subst,
}
use vault_plugin_aead.GoMap.{GoMap, get}
use vault_plugin_aead.GoMap.Laws.{get-nil, get-cons, get-head}
use vault_plugin_aead.GoMap.Order.{IsMap, over}
use vault_plugin_aead.Value.{Value, as_map, entries-to_fields}
use vault_plugin_aead.Pivot.{pivot_map, pivot_map_int, row_of}
use vault_plugin_aead.Pivot.Transpose.{at, get2, IsTable, get2-pivot_map}
use vault_plugin_aead.Pivot.Values.{embed, rows, lift, get-embed, pivot_map_int-embed}
use vault_plugin_aead.Aead.Each.{other_name}

-- m[a][b] of nested values; what is no map has no cells.
abbrev pub cell : Bytes → Bytes → GoMap Value → Option Value
cell a b m = get2 a b (rows m)

abbrev pub row_at : Option Value → Option (GoMap Value)
row_at none = none
row_at (some v) = some (row_of (as_map v))

pub get-rows : (a : Bytes) (m : GoMap Value) → get a (rows m) ≡ row_at (get a m)
unfolding get
get-rows a [] = refl
get-rows a ((k, v) ∷ m) = ground (arith, get-rows a m)

pub rows-embed : (m : GoMap (GoMap Value)) → rows (embed m) ≡ m
rows-embed [] = refl
rows-embed ((k, row) ∷ m) = λ i. (k, row_of (some (entries-to_fields row i))) ∷ rows-embed m i

pub rows-IsTable :
    (m : GoMap Value)
    → IsMap m
    → ((k : Bytes) (v : Value) → get k m ≡ some v → IsMap (row_of (as_map v)))
    → IsTable (rows m)
rows-IsTable [] h r = tt
rows-IsTable ((k, v) ∷ m) (fresh, h) r = (
  get-rows k m ∙ ap row_at fresh,
  r k v (get-head k k v m (same_refl k)),
  rows-IsTable m h (λ k' v' q. r k' v' (other_name k k' v v' m fresh q)),
)

pub embed-IsMap : (m : GoMap (GoMap Value)) → IsTable m → IsMap (embed m)
embed-IsMap [] h = tt
embed-IsMap ((k, row) ∷ m) (fresh, h, hs) = (get-embed k m ∙ ap lift fresh, embed-IsMap m hs)

no_row : {row : GoMap Value} → ◌≡◌ {A = Option (GoMap Value)} none (some row) → ⊥
no_row h = cc

pub over_nothing : (o : Option Value) → over o none ≡ o
over_nothing none = refl
over_nothing (some v) = refl

-- The rows of a table are maps.
pub table_row :
    (m : GoMap (GoMap Value)) (a : Bytes) {row : GoMap Value}
    → IsTable m
    → get a m ≡ some row
    → IsMap row
table_row [] a h e = absurd (no_row (sym (get-nil a) ∙ e))
table_row ((k, r) ∷ m) a {row} (fresh, h, hs) e = elim (Bool-cases (same k a)) [
  | inl s ↦ let q : r ≡ row = ground (arith, get-cons k a r m) in subst IsMap q h
  | inr s ↦ table_row m a hs (ground (arith, get-cons k a r m))
]

-- PivotMapInt into an empty map.
pub pivot_rows : (m : GoMap Value) → pivot_map_int m [] ≡ ok (embed (pivot_map (rows m) []))
pivot_rows m = pivot_map_int-embed m []

pub cell-pivot :
    (m : GoMap Value) (a b : Bytes)
    → IsTable (rows m)
    → get2 a b (pivot_map (rows m) []) ≡ cell b a m
cell-pivot m a b h =
    get2-pivot_map (rows m) [] a b h
    ∙ ap (λ o. over (get2 b a (rows m)) (at b o)) (get-nil a)
    ∙ over_nothing (get2 b a (rows m))
