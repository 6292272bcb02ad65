-- ===== src/Aead/Rows.antt =====
-- The rows of a bulk request: what is encrypted row by row is decrypted row by row.
use vault_plugin_aead.Prelude.{
  none-ne-some, Bytes, true, [], ◌∷◌, Option, none, some, Outcome, ok, err, panic, >>=-eq-ok, ◌≡◌,
  refl, arith, sym, ◌∙◌, All, same_refl,
}
use vault_plugin_aead.Exec.{panic_on}
use vault_plugin_aead.GoMap.{GoMap, get}
use vault_plugin_aead.GoMap.Laws.{get-nil, get-head}
use vault_plugin_aead.GoMap.Order.{IsMap}
use vault_plugin_aead.Value.{Value, obj, to_fields, entries-to_fields}
use vault_plugin_aead.Tink.{Tink}
use vault_plugin_aead.Lookup.{Config}
use vault_plugin_aead.Aead.{Env, IsFair, collect, do_decryption}
use vault_plugin_aead.Aead.Field.{IsAead}
use vault_plugin_aead.Aead.Each.{
  Answers, each-get, each-IsMap, get-collect, collect-IsMap, All-IsMap,
}
use vault_plugin_aead.Aead.Inverse.{Both, each-Undone}
use vault_plugin_aead.Value.Each.{each}
use vault_plugin_aead.Aead.Handlers.{is_bulk_data}
use vault_plugin_aead.Aead.Row.{row_result, map_result, as_value, encrypt_field}
use vault_plugin_aead.Aead.Decryption.{IsFlat}
use vault_plugin_aead.Aead.Undone.{IsRow, IsTexts, row_not_bulk, row_undone}

-- The data of a bulk request: a map of rows that is not empty.
abbrev pub IsRows : GoMap Value → Type 0
IsRows raw =
    IsMap raw
    × (is_bulk_data raw ≡ true)
    × ((k : Bytes) (v : Value)
        → get k raw ≡ some v
        → (m : GoMap Value) × (v ≡ obj (to_fields m)) × IsRow m)

-- Two texts that are the same, or two rows with the same text in each field.
pub data SameCells : Value → Value → Type 0 where
  same_value : {v : Value} → SameCells v v
  same_fields :
      (m m' : GoMap Value)
      → ((k : Bytes) → Both (λ v v'. v ≡ v') (get k m) (get k m'))
      → SameCells (obj (to_fields m)) (obj (to_fields m'))

pub panic_on-eq-ok : {A : Type 0} (o : Outcome A) {a : A} → panic_on o ≡ ok a → o ≡ ok a
panic_on-eq-ok (ok a) h = h
panic_on-eq-ok (err e) h = cc
panic_on-eq-ok panic h = h

module _ (h : Bytes → GoMap Value → Outcome (GoMap Value)) where
  pub map_result-eq-ok :
      (name : Bytes) (m : GoMap Value) {c : Value}
      → map_result h name (obj (to_fields m)) ≡ ok c
      → (resp : GoMap Value) × (h name m ≡ ok resp) × (c ≡ obj (to_fields resp))
  map_result-eq-ok name m {c} e =
      let e0 = rw (entries-to_fields m) at e in
      let (resp, r, q) = >>=-eq-ok (panic_on (h name m)) as_value e0 in
      (resp, panic_on-eq-ok (h name m) r, ground arith)

  map_result_ok :
      (name : Bytes) (m out : GoMap Value)
      → h name m ≡ ok out
      → map_result h name (obj (to_fields m)) ≡ ok (obj (to_fields out))
  map_result_ok name m out e = rw (entries-to_fields m, e) refl

map_is_bulk :
    (m : GoMap Value) (k : Bytes) (v : Value)
    → get k m ≡ some v
    → ((j : Bytes) (c : Value) → get j m ≡ some c → (r : GoMap Value) × (c ≡ obj (to_fields r)))
    → is_bulk_data m ≡ true
unfolding is_bulk_data
map_is_bulk [] k v g h = absurd (none-ne-some (sym (get-nil k) ∙ g))
map_is_bulk ((j, c) ∷ m) k v g h = let (r, e) = h j c (get-head j j c m (same_refl j)) in rw e refl

bulk_entry :
    (m : GoMap Value) → is_bulk_data m ≡ true → (k : Bytes) × (v : Value) × (get k m ≡ some v)
unfolding is_bulk_data
bulk_entry [] h = cc
bulk_entry ((k, v) ∷ m) h = (k, v, get-head k k v m (same_refl k))

module _ (t : Tink) (laws : IsAead t) (env env' : Env) (fair : IsFair env) (fair' : IsFair env')
    (config : Config) where
  abbrev encrypted : Bytes → GoMap Value → Outcome (GoMap Value)
  encrypted name m = row_result (encrypt_field t env config (name ∷ [])) env (name ∷ []) m

  abbrev decrypted : Bytes → GoMap Value → Outcome (GoMap Value)
  decrypted name m = row_result (do_decryption t config) env' (name ∷ []) m

  pub rows_undone :
      (raw resp : GoMap Value)
      → IsRows raw
      → row_result (map_result encrypted) env [] raw ≡ ok resp
      → (is_bulk_data resp ≡ true)
        × All IsFlat resp
        × (out : GoMap Value) × (row_result (map_result decrypted) env' [] resp ≡ ok out)
        × ((k : Bytes) → Both SameCells (get k raw) (get k out))
  rows_undone raw resp (raw_map, bulk, rows) h =
      let (sent, e, q) = >>=-eq-ok (each (map_result encrypted) raw) _ h in
      let sent_map = each-IsMap (map_result encrypted) raw sent e raw_map in
      let q' : resp ≡ collect env [] sent = ground arith in
      let resp_map : IsMap resp = rw q' (collect-IsMap env [] sent) in
      let received : (k : Bytes) → get k resp ≡ get k sent =
        rw q' (λ k. get-collect env [] sent k fair sent_map) in
      let (back, e', back_map, same_rows) =
        each-Undone SameCells (map_result encrypted) (map_result decrypted) raw sent resp raw_map
          resp_map received undo e in
      let not_flat : (k : Bytes) (c : Value)
          → get k resp ≡ some c
          → (r : GoMap Value) × (c ≡ obj (to_fields r)) × IsTexts r =
        λ k c g.
          sent_row k (get k raw) refl (rw (received k) at g)
            (each-get (map_result encrypted) raw sent k e) in
      let (k, v, g) = bulk_entry raw bulk in
      let answer : Answers (map_result encrypted) k (some v) (get k sent) =
        rw g at (each-get (map_result encrypted) raw sent k e) in
      let (c, _, s) = answer in
      (
        map_is_bulk resp k c (received k ∙ s)
            (λ j d q. let (r, is_obj, _) = not_flat j d q in (r, is_obj)),
        All-IsMap IsFlat resp resp_map
            (λ k c g. let (r, is_obj, row) = not_flat k c g in (r, is_obj, row_not_bulk t r row)),
        collect env' [] back,
        rw e' refl,
        λ k. rw (get-collect env' [] back k fair' back_map) (same_rows k),
      )
    where
      undo :
          (k : Bytes) (v c : Value)
          → get k raw ≡ some v
          → map_result encrypted k v ≡ ok c
          → (v' : Value) × (map_result decrypted k c ≡ ok v') × SameCells v v'
      undo k v c g r =
          let (m, is_obj, row) = rows k v g in
          let (sealed, r', is_obj') = map_result-eq-ok encrypted k m (rw is_obj at r) in
          let (_, out, d, _, same) =
            row_undone t laws env env' fair fair' config (k ∷ []) (k ∷ []) m sealed row r' in
          (
            obj (to_fields out),
            rw is_obj' (map_result_ok decrypted k sealed out d),
            rw is_obj (same_fields m out same),
          )

      sent_row :
          (k : Bytes) (o : Option Value) {o' : Option Value} {c : Value}
          → get k raw ≡ o
          → o' ≡ some c
          → Answers (map_result encrypted) k o o'
          → (r : GoMap Value) × (c ≡ obj (to_fields r)) × IsTexts r
      sent_row k none i g a = absurd (none-ne-some (sym a ∙ g))
      sent_row k (some v) {o'} {c} i g (c', r, s) =
          let (m, is_obj, row) = rows k v i in
          let (sealed, r', is_obj') = map_result-eq-ok encrypted k m (rw is_obj at r) in
          let (sealed_row, _, _, _, _) =
            row_undone t laws env env' fair fair' config (k ∷ []) (k ∷ []) m sealed row r' in
          (sealed, ground arith, sealed_row)
