-- ===== src/Aead/Agreement.antt =====
-- The two encryption handlers on tables.
use vault_plugin_aead.Prelude.{
  ℕ, List, ◌∷◌, subst, none-ne-some, ok_inj, Bytes, true, [], Option, none, some, ok, >>=-eq-ok,
  ◌≡◌, refl, arith, ap, sym, ◌∙◌,
}
use vault_plugin_aead.Base64.RoundTrip.{IsBytes}
use vault_plugin_aead.GoMap.{GoMap, get}
use vault_plugin_aead.GoMap.Order.{IsMap}
use vault_plugin_aead.Value.{Value, str, obj, as_map, to_fields, entries-to_fields}
use vault_plugin_aead.Value.Each.{each}
use vault_plugin_aead.Tink.{Tink}
use vault_plugin_aead.Lookup.{Config}
use vault_plugin_aead.Pivot.{pivot_map, pivot_map_int, row_of}
use vault_plugin_aead.Pivot.Transpose.{at, get2, IsTable, pivot_map-IsTable}
use vault_plugin_aead.Pivot.Values.{embed, rows, lift, get-embed}
use vault_plugin_aead.Config.{Storage, IsStorage, KvSink, World, refresh, stored}
use vault_plugin_aead.Aead.{Env, IsFair, collect, do_encryption}
use vault_plugin_aead.Aead.Field.{IsAead}
use vault_plugin_aead.Aead.Each.{Answers, each-get, each-IsMap, get-collect, collect-IsMap}
use vault_plugin_aead.Aead.Row.{row_result, map_result}
use vault_plugin_aead.Aead.Rows.{IsRows, map_result-eq-ok}
use vault_plugin_aead.Aead.Requests.{path_aead_encrypt_read, path_aead_encrypt_bulk_col_read}
use vault_plugin_aead.Aead.Handlers.{is_bulk_data, path_aead_encrypt, path_aead_encrypt_bulk_col}
use vault_plugin_aead.Aead.Tables.{
  cell, get-rows, row_at, rows-embed, rows-IsTable, embed-IsMap, table_row, pivot_rows, cell-pivot,
}
use vault_plugin_aead.Aead.Columns.{encrypt_at, encrypted, column, in_row, in_column, same_answer}

cell-eq :
    (a b : Bytes) (m : GoMap Value) (row : GoMap Value)
    → get a m ≡ some (obj (to_fields row))
    → cell a b m ≡ get b row
cell-eq a b m row e = ap (at b) (get-rows a m ∙ ap row_at e) ∙ ap (get b) (entries-to_fields row)

cell_absent : (a b : Bytes) (m : GoMap Value) → get a m ≡ none → cell a b m ≡ none
cell_absent a b m e = ap (at b) (get-rows a m ∙ ap row_at e)

abbrev pivoted : GoMap Value → GoMap (GoMap Value)
pivoted raw = pivot_map (rows raw) []

module _ (t : Tink) (laws : IsAead t) (env : Env) (fair : IsFair env) (config : Config) where
  row_cells :
      (raw resp : GoMap Value) (row field : Bytes)
      → IsRows raw
      → row_result (map_result (encrypted t env config)) env [] raw ≡ ok resp
      → Answers (encrypt_at t env config row) field (cell row field raw) (cell row field resp)
  row_cells raw resp row field (raw_map, bulk, is_row) h =
      let f = map_result (encrypted t env config) in
      let (sent, e, q) = >>=-eq-ok (each f raw) _ h in
      let q' : resp ≡ collect env [] sent = ground arith in
      let received : get row resp ≡ get row sent =
        rw q' (get-collect env [] sent row fair (each-IsMap f raw sent e raw_map)) in
      at_row (get row raw) refl received (each-get f raw sent row e)
    where
      at_row :
          (o : Option Value) {a : Option Value}
          → get row raw ≡ o
          → get row resp ≡ a
          → Answers (map_result (encrypted t env config)) row o a
          → Answers (encrypt_at t env config row) field (cell row field raw) (cell row field resp)
      at_row none i j a = rw (cell_absent row field raw i) (cell_absent row field resp (j ∙ a))
      at_row (some v) i j (c, r, s) =
          let (m, is_obj, (m_map, _)) = is_row row v i in
          let (out, r', is_out) =
            map_result-eq-ok (encrypted t env config) row m (rw is_obj at r) in
          rw
            (
              cell-eq row field raw m (i ∙ ap some is_obj),
              cell-eq row field resp out (j ∙ s ∙ ap some is_out),
            )
            (in_row t laws env fair config row field m out m_map r')

  IsRows-IsTable : (raw : GoMap Value) → IsRows raw → IsTable (rows raw)
  IsRows-IsTable raw (raw_map, bulk, is_row) = rows-IsTable raw raw_map row_map
    where
      row_map : (k : Bytes) (v : Value) → get k raw ≡ some v → IsMap (row_of (as_map v))
      row_map k v g =
          let (m, is_obj, (m_map, _)) = is_row k v g in rw (is_obj, entries-to_fields m) m_map

  pub cell_text :
      (raw : GoMap Value) (row field : Bytes) (v : Value)
      → IsRows raw
      → cell row field raw ≡ some v
      → (p : Bytes) × (v ≡ str p) × IsBytes p
  cell_text raw row field v (raw_map, bulk, is_row) h = in_raw (get row raw) refl
    where
      in_raw : (o : Option Value) → get row raw ≡ o → (p : Bytes) × (v ≡ str p) × IsBytes p
      in_raw none i = absurd (none-ne-some (sym (cell_absent row field raw i) ∙ h))
      in_raw (some w) i =
          let (m, is_obj, (_, texts)) = is_row row w i in
          texts field v (sym (cell-eq row field raw m (i ∙ ap some is_obj)) ∙ h)

  module _ (raw sent : GoMap Value) (is_rows : IsRows raw)
      (e : each (map_result (column t env config)) (embed (pivoted raw)) ≡ ok sent) where
    pivoted-IsTable : IsTable (pivoted raw)
    pivoted-IsTable = pivot_map-IsTable (rows raw) [] tt

    one_column :
        (row field : Bytes) (o : Option (GoMap Value)) (a : Option Value)
        → get field (pivoted raw) ≡ o
        → Answers (map_result (column t env config)) field (lift o) a
        → Answers (encrypt_at t env config row) field (cell row field raw) (at row (row_at a))
          × ((c : Value) → a ≡ some c → IsMap (row_of (as_map c)))
    one_column row field none a i x =
        let no_cell : cell row field raw ≡ none =
          sym (cell-pivot raw field row (IsRows-IsTable raw is_rows)) ∙ ap (at row) i in
        (rw (no_cell, x) refl, λ c g. absurd (none-ne-some (sym x ∙ g)))
    one_column row field (some col) a i (c, r, s) =
        let (out, r', is_out) = map_result-eq-ok (column t env config) field col r in
        let at_cell : cell row field raw ≡ get row col =
          sym (cell-pivot raw field row (IsRows-IsTable raw is_rows)) ∙ ap (at row) i in
        let (answers, out_map) =
          in_column t laws env fair config row field col out
            (table_row (pivoted raw) field pivoted-IsTable i)
            (λ v g. cell_text raw row field v is_rows (at_cell ∙ g)) r' in
        (
          rw (at_cell, s, is_out, entries-to_fields out) answers,
          λ c' g.
              let q : c' ≡ obj (to_fields out) = ground arith in
              rw (q, entries-to_fields out) out_map,
        )

    sent_column :
        (field : Bytes)
        → Answers
            (map_result (column t env config))
            field
            (lift (get field (pivoted raw)))
            (get field sent)
    sent_column field =
        rw (sym (get-embed field (pivoted raw)))
          (each-get (map_result (column t env config)) (embed (pivoted raw)) sent field e)

    received : (field : Bytes) → get field (collect env [] sent) ≡ get field sent
    received field = get-collect env [] sent field fair (
        each-IsMap (map_result (column t env config)) (embed (pivoted raw)) sent e
          (embed-IsMap (pivoted raw) pivoted-IsTable))

    collected-IsTable : IsTable (rows (collect env [] sent))
    collected-IsTable = rows-IsTable (collect env [] sent) (collect-IsMap env [] sent) (λ field c g.
        (one_column [] field (get field (pivoted raw)) (get field sent) refl (sent_column field)).1
          c (sym (received field) ∙ g))

    column_cells :
        (resp : GoMap Value) (row field : Bytes)
        → pivot_map_int (collect env [] sent) [] ≡ ok resp
        → Answers (encrypt_at t env config row) field (cell row field raw) (cell row field resp)
    column_cells resp row field h =
        let q : resp ≡ embed (pivoted (collect env [] sent)) =
          ok_inj (sym h ∙ pivot_rows (collect env [] sent)) in
        let at_resp : cell row field resp ≡ at row (row_at (get field sent)) =
          ap (cell row field) q
          ∙ ap (get2 row field) (rows-embed (pivoted (collect env [] sent)))
          ∙ cell-pivot (collect env [] sent) row field collected-IsTable
          ∙ ap (at row) (get-rows field (collect env [] sent) ∙ ap row_at (received field)) in
        rw at_resp
          (one_column row field (get field (pivoted raw)) (get field sent) refl
            (sent_column field)).0

-- For a Tink that keeps its promises and a stored config that can be read: if pathAeadEncrypt answers a
-- non-empty map of rows of texts, then each cell of the response is what doEncryptionChan sends for
-- the cell of the request under the stored config, and there is no other cell, in whatever order the
-- results of the goroutines arrive.
pub path_aead_encrypt_cells :
    {s : Storage} {k : KvSink} (t : Tink) (laws : IsAead t) (l : IsStorage s) (env : Env)
    (fair : IsFair env) (w w1 : World s k) (entry : Option Config)
    (read : s.read_entry w.storage ≡ ok entry) (raw resp : GoMap Value) (row field : Bytes)
    → IsRows raw
    → path_aead_encrypt t env raw w ≡ (ok resp, w1)
    → Answers
        (encrypt_at t env (refresh (stored entry) w.cache) row)
        field
        (cell row field raw)
        (cell row field resp)
path_aead_encrypt_cells t laws l env fair w w1 entry read raw resp row field is_rows h =
    let bulk : is_bulk_data raw ≡ true = is_rows.1 in
    let e = sym (path_aead_encrypt_read l w entry read t env raw) ∙ h in
    row_cells t laws env fair (refresh (stored entry) w.cache) raw resp row field is_rows
      (rw bulk at (ap (λ r. r.0) e))

-- The cells of pathAeadEncryptBulkCol are those that doEncryptionChan would send.
pub bulk_col_cells :
    {s : Storage} {k : KvSink} (t : Tink) (laws : IsAead t) (l : IsStorage s) (env : Env)
    (fair : IsFair env) (w w1 : World s k) (entry : Option Config)
    (read : s.read_entry w.storage ≡ ok entry) (raw resp : GoMap Value) (row field : Bytes)
    → IsRows raw
    → path_aead_encrypt_bulk_col t env raw w ≡ (ok resp, w1)
    → Answers
        (encrypt_at t env (refresh (stored entry) w.cache) row)
        field
        (cell row field raw)
        (cell row field resp)
bulk_col_cells t laws l env fair w w1 entry read raw resp row field is_rows h =
    let config = refresh (stored entry) w.cache in
    let bulk : is_bulk_data raw ≡ true = is_rows.1 in
    let e = sym (path_aead_encrypt_bulk_col_read l w entry read t env raw) ∙ h in
    let by_columns = rw (bulk, pivot_rows raw) at (ap (λ r. r.0) e) in
    let (sent, c, q) =
      >>=-eq-ok (each (map_result (column t env config)) (embed (pivoted raw))) _ by_columns in
    column_cells t laws env fair config raw sent is_rows c resp row field q

-- For a Tink that keeps its promises and a stored config that can be read: if pathAeadEncrypt and
-- pathAeadEncryptBulkCol both answer a non-empty map of rows of texts, and Tink draws the same random
-- bytes for a cell in both calls, they answer with the same cell for each row and field, in whatever
-- orders the results of their goroutines arrive, and leave the same state.
pub path_aead_encrypt_bulk_col-path_aead_encrypt :
    {s : Storage} {k : KvSink} (t : Tink) (laws : IsAead t) (l : IsStorage s) (env env' : Env)
    (fair : IsFair env) (fair' : IsFair env') (same_bytes : env'.random ≡ env.random)
    (w w1 w2 : World s k) (entry : Option Config) (read : s.read_entry w.storage ≡ ok entry)
    (raw resp resp' : GoMap Value)
    → IsRows raw
    → path_aead_encrypt t env raw w ≡ (ok resp, w1)
    → path_aead_encrypt_bulk_col t env' raw w ≡ (ok resp', w2)
    → ((row field : Bytes) → cell row field resp' ≡ cell row field resp) × (w2 ≡ w1)
path_aead_encrypt_bulk_col-path_aead_encrypt t laws l env env' fair fair' same_bytes w w1 w2 entry
      read raw resp resp' is_rows h h' =
    let config = refresh (stored entry) w.cache in
    let e = sym (path_aead_encrypt_read l w entry read t env raw) ∙ h in
    let e' = sym (path_aead_encrypt_bulk_col_read l w entry read t env' raw) ∙ h' in
    (
      λ row field.
          same_answer t laws env fair config (encrypt_at t env config row) field
            (cell row field raw) (cell row field resp') (cell row field resp)
            (subst
              (λ (r : List Bytes → Bytes → ℕ).
                Answers (λ f v. do_encryption t config (r (row ∷ []) f) f v) field
                  (cell row field raw) (cell row field resp'))
              same_bytes
              (bulk_col_cells t laws l env' fair' w w2 entry read raw resp' row field is_rows h'))
            (path_aead_encrypt_cells t laws l env fair w w1 entry read raw resp row field is_rows
              h),
      sym (ap (λ r. r.1) e') ∙ ap (λ r. r.1) e,
    )
