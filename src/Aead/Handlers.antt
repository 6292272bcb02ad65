-- ===== src/Aead/Handlers.antt =====
-- The rows, the columns and the four handlers of path_aead.go.
use vault_plugin_aead.Prelude.{
  Bytes, codes, Bool, true, false, List, [], ◌∷◌, Option, none, some, Outcome, ok, panic,
  if◌then◌else◌,
}
use vault_plugin_aead.Exec.{Exec, pure, crash, lift, gets, or_panic, ◌>>=◌, ◌>>◌}
use vault_plugin_aead.GoMap.{GoMap, set_all}
use vault_plugin_aead.Value.{
  Value, Fields, null, bool, number, str, arr, obj, end, field, as_map, entries, to_fields,
}
use vault_plugin_aead.Tink.{Tink}
use vault_plugin_aead.Lookup.{get_encryption_key}
use vault_plugin_aead.Pivot.{pivot_map_int}
use vault_plugin_aead.Config.{Storage, KvSink, World, get_aead_config, get_additional_data}
use vault_plugin_aead.Aead.{Env, collect, do_encryption, do_decryption}
use vault_plugin_aead.Value.Each.{each}
use vault_plugin_aead.Aead.Telemetry.{publish_telemetry}
use vault_plugin_aead.Aead.Cells.{encrypt_cell, decrypt_cell}

abbrev is_some_map : Option (GoMap Value) → Bool
is_some_map none = false
is_some_map (some m) = true

-- isBulkData looks at the first entry that the range loop meets.
unfoldable pub is_bulk_data : GoMap Value → Bool
is_bulk_data [] = false
is_bulk_data ((k, v) ∷ raw) = is_some_map (as_map v)

-- a type assertion with its panic
abbrev pub map_or_panic : Option (GoMap Value) → Outcome (GoMap Value)
map_or_panic none = panic
map_or_panic (some m) = ok m

module _ {s : Storage} {k : KvSink} where
  -- The goroutines for the rows or columns of a bulk request, one after the other: they share only
  -- the cache, which each of them sets to the stored config.
  unfoldable pub each_map :
      (Bytes → GoMap Value → Exec (World s k) (GoMap Value))
      → GoMap Value
      → Exec (World s k) (GoMap Value)
  each_map f [] = pure []
  each_map f ((name, v) ∷ raw) = do
    m ← lift (map_or_panic (as_map v))
    resp ← or_panic (f name m)
    rest ← each_map f raw
    pure ((name, obj (to_fields resp)) ∷ rest)

  -- The same where a value that is no map ends the handler with an empty response.
  unfoldable pub each_map_or_stop :
      (Bytes → GoMap Value → Exec (World s k) (GoMap Value))
      → GoMap Value
      → Exec (World s k) (Option (GoMap Value))
  each_map_or_stop f [] = pure (some [])
  each_map_or_stop f ((name, v) ∷ raw) = elim (as_map v) [
    | none ↦ pure none
    | some m ↦ do
      resp ← or_panic (f name m)
      rest ← each_map_or_stop f raw
      pure (elim rest [ none ↦ none | some r ↦ some ((name, obj (to_fields resp)) ∷ r) ])
  ]

module _ (t : Tink) {s : Storage} {k : KvSink} (env : Env) where
  unfoldable pub encrypt_row : List Bytes → GoMap Value → Exec (World s k) (GoMap Value)
  unfolding get_aead_config each do_encryption collect
  encrypt_row path raw = do
    get_aead_config
    config ← gets (λ w. w.cache)
    sent ← lift (each (λ name v. do_encryption t config (env.random path name) name v) raw)
    pure (collect env path sent)

  unfoldable pub decrypt_row : List Bytes → GoMap Value → Exec (World s k) (GoMap Value)
  unfolding get_aead_config each do_decryption collect
  decrypt_row path raw = do
    get_aead_config
    config ← gets (λ w. w.cache)
    sent ← lift (each (λ name v. do_decryption t config name v) raw)
    pure (collect env path sent)

  -- pathAeadEncrypt
  unfoldable pub path_aead_encrypt : GoMap Value → Exec (World s k) (GoMap Value)
  unfolding publish_telemetry is_bulk_data each_map encrypt_row collect
  path_aead_encrypt raw = do
    publish_telemetry (codes "encrypt") raw
    if is_bulk_data raw
        then (do
          sent ← each_map (λ name m. encrypt_row (name ∷ []) m) raw
          pure (collect env [] sent))
        else or_panic (encrypt_row [] raw)

  -- pathAeadDecrypt calls itself on each row, so rows of rows are decrypted too: the recursion is on
  -- the value. What is no map, where a row is expected, panics.
  unfoldable mutual
    unfolding publish_telemetry is_bulk_data decrypt_row collect

    pub decrypt_value : List Bytes → Value → Exec (World s k) (GoMap Value)
    decrypt_value path null = crash
    decrypt_value path (bool b) = crash
    decrypt_value path (number n) = crash
    decrypt_value path (str x) = crash
    decrypt_value path (arr xs) = crash
    decrypt_value path (obj fs) = do
      publish_telemetry (codes "decrypt") (entries fs)
      if is_bulk_data (entries fs)
          then (do sent ← decrypt_rows path fs; pure (collect env path sent))
          else or_panic (decrypt_row path (entries fs))

    pub decrypt_rows : List Bytes → Fields → Exec (World s k) (GoMap Value)
    decrypt_rows path end = pure []
    decrypt_rows path (field name v fs) = do
      resp ← or_panic (decrypt_value (name ∷ path) v)
      rest ← decrypt_rows path fs
      pure ((name, obj (to_fields resp)) ∷ rest)

  unfoldable pub path_aead_decrypt : GoMap Value → Exec (World s k) (GoMap Value)
  unfolding decrypt_value
  path_aead_decrypt raw = decrypt_value [] (obj (to_fields raw))

  -- encryptCol: one key for the column, and one loop over its rows.
  unfoldable pub encrypt_col : Bytes → GoMap Value → Exec (World s k) (GoMap Value)
  unfolding get_aead_config get_encryption_key get_additional_data each encrypt_cell set_all
  encrypt_col name raw = do
    get_aead_config
    config ← gets (λ w. w.cache)
    found ← lift (get_encryption_key t config name)
    cells ← lift (
        each
          (λ row v.
            encrypt_cell t found (get_additional_data config name) (env.random (row ∷ []) name) v)
          raw)
    pure (set_all cells [])

  unfoldable pub decrypt_col : Bytes → GoMap Value → Exec (World s k) (GoMap Value)
  unfolding get_aead_config get_encryption_key get_additional_data each decrypt_cell set_all
  decrypt_col name raw = do
    get_aead_config
    config ← gets (λ w. w.cache)
    found ← lift (get_encryption_key t config name)
    cells ← lift (each (λ row v. decrypt_cell t found (get_additional_data config name) v) raw)
    pure (set_all cells [])

  -- pathAeadEncryptBulkCol; what is not bulk data gets an empty response.
  unfoldable pub path_aead_encrypt_bulk_col : GoMap Value → Exec (World s k) (GoMap Value)
  unfolding publish_telemetry is_bulk_data pivot_map_int each_map encrypt_col collect
  path_aead_encrypt_bulk_col raw = do
    publish_telemetry (codes "encrypt") raw
    if is_bulk_data raw
        then (do
          pivoted ← lift (pivot_map_int raw [])
          sent ← each_map encrypt_col pivoted
          lift (pivot_map_int (collect env [] sent) []))
        else pure []

  unfoldable pub unpivot : Option (GoMap Value) → Exec (World s k) (GoMap Value)
  unfolding pivot_map_int collect
  unpivot none = pure []
  unpivot (some sent) = lift (pivot_map_int (collect env [] sent) [])

  -- pathAeadDecryptBulkCol
  unfoldable pub path_aead_decrypt_bulk_col : GoMap Value → Exec (World s k) (GoMap Value)
  unfolding publish_telemetry is_bulk_data pivot_map_int each_map_or_stop decrypt_col unpivot
  path_aead_decrypt_bulk_col raw = do
    publish_telemetry (codes "decrypt") raw
    if is_bulk_data raw
        then (do
          pivoted ← lift (pivot_map_int raw [])
          sent ← each_map_or_stop decrypt_col pivoted
          unpivot sent)
        else pure []
