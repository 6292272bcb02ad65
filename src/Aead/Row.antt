-- ===== src/Aead/Row.antt =====
-- The handlers over a settled config, as functions that leave the config alone.
use vault_plugin_aead.Prelude.{
  Bytes, [], ◌∷◌, ◌++◌, List, Option, Outcome, ok, ◌≡◌, refl, Option-cases, arith, inl, inr,
}
use vault_plugin_aead.Prelude.{◌>>=◌ as bind}
use vault_plugin_aead.Exec.{Exec, panic_on, continue_still}
use vault_plugin_aead.GoMap.{GoMap, set_all}
use vault_plugin_aead.Value.{Value, obj, as_map, to_fields}
use vault_plugin_aead.Tink.{Tink}
use vault_plugin_aead.Lookup.{Config, get_encryption_key}
use vault_plugin_aead.Config.{Storage, KvSink, World, get_additional_data}
use vault_plugin_aead.Config.Settled.{
  IsSettled, settle, publish, get_aead_config_read, get_aead_config_settled,
}
use vault_plugin_aead.Aead.{Env, collect, do_encryption, do_decryption}
use vault_plugin_aead.Value.Each.{each}
use vault_plugin_aead.Aead.Handlers.{
  each_map, map_or_panic, encrypt_row, decrypt_row, encrypt_col, decrypt_col,
}
use vault_plugin_aead.Aead.Telemetry.{telemetry_message, publish_telemetry}
use vault_plugin_aead.Aead.Cells.{encrypt_cell, decrypt_cell}

-- A row, over what is done to a field.
abbrev pub row_result :
    (Bytes → Value → Outcome Value) → Env → List Bytes → GoMap Value → Outcome (GoMap Value)
row_result f env path raw = bind (each f raw) (λ sent. ok (collect env path sent))

abbrev pub as_value : GoMap Value → Outcome Value
as_value m = ok (obj (to_fields m))

-- An entry of a bulk request, over what is done to its map.
abbrev pub map_result :
    (Bytes → GoMap Value → Outcome (GoMap Value)) → Bytes → Value → Outcome Value
map_result h name v = bind (map_or_panic (as_map v)) (λ m. bind (panic_on (h name m)) as_value)

abbrev pub encrypt_field : Tink → Env → Config → List Bytes → Bytes → Value → Outcome Value
encrypt_field t env config path name v = do_encryption t config (env.random path name) name v

module _ {s : Storage} {k : KvSink} (w : World s k) (settled : IsSettled w) (t : Tink)
    (env : Env) where
  pub encrypt_row_settled :
      (path : List Bytes) (raw : GoMap Value)
      → encrypt_row t env path raw w
        ≡ (row_result (encrypt_field t env w.cache path) env path raw, w)
  unfolding encrypt_row
  encrypt_row_settled path raw =
      rw (get_aead_config_settled w settled)
        (continue_still (each (encrypt_field t env w.cache path) raw) _ _ w (λ sent. refl))

  pub decrypt_row_settled :
      (path : List Bytes) (raw : GoMap Value)
      → decrypt_row t env path raw w ≡ (row_result (do_decryption t w.cache) env path raw, w)
  unfolding decrypt_row
  decrypt_row_settled path raw =
      rw (get_aead_config_settled w settled)
        (continue_still (each (do_decryption t w.cache) raw) _ _ w (λ sent. refl))

module _ {s : Storage} {k : KvSink} (w : World s k) where
  -- The loop over rows or columns that leave the world alone.
  pub each_map_settled :
      (g : Bytes → GoMap Value → Exec (World s k) (GoMap Value))
      (h : Bytes → GoMap Value → Outcome (GoMap Value)) (raw : GoMap Value)
      → ((name : Bytes) (m : GoMap Value) → g name m w ≡ (h name m, w))
      → each_map g raw w ≡ (each (map_result h) raw, w)
  unfolding each_map each
  each_map_settled g h [] same = refl
  each_map_settled g h ((name, v) ∷ raw) same = elim (Option-cases (as_map v)) [
    | inl e ↦ ground arith
    | inr (m, e) ↦ ground (arith, same name m, each_map_settled g h raw same)
  ]

-- A column, over its key.
abbrev pub col_result :
    (Option Value → Bytes → Bytes → Value → Outcome Value)
    → Tink
    → Config
    → Bytes
    → GoMap Value
    → Outcome (GoMap Value)
col_result cell t config name raw = bind (get_encryption_key t config name) (λ found.
    bind (each (cell found (get_additional_data config name)) raw) (λ cells. ok (set_all cells [])))

abbrev pub encrypt_cell_of :
    Tink → Env → Bytes → Option Value → Bytes → Bytes → Value → Outcome Value
encrypt_cell_of t env name found aad row v = encrypt_cell t found aad (env.random (row ∷ []) name) v

abbrev pub decrypt_cell_of : Tink → Option Value → Bytes → Bytes → Value → Outcome Value
decrypt_cell_of t found aad row v = decrypt_cell t found aad v

module _ {s : Storage} {k : KvSink} (w : World s k) (settled : IsSettled w) (t : Tink)
    (env : Env) where
  pub encrypt_col_settled :
      (name : Bytes) (raw : GoMap Value)
      → encrypt_col t env name raw w
        ≡ (col_result (encrypt_cell_of t env name) t w.cache name raw, w)
  unfolding encrypt_col
  encrypt_col_settled name raw = rw (get_aead_config_settled w settled) (
      continue_still (get_encryption_key t w.cache name) _ _ w (λ found.
        continue_still
          (each (encrypt_cell_of t env name found (get_additional_data w.cache name)) raw) _ _ w
          (λ cells. refl)))

  pub decrypt_col_settled :
      (name : Bytes) (raw : GoMap Value)
      → decrypt_col t env name raw w ≡ (col_result (decrypt_cell_of t) t w.cache name raw, w)
  unfolding decrypt_col
  decrypt_col_settled name raw = rw (get_aead_config_settled w settled) (
      continue_still (get_encryption_key t w.cache name) _ _ w (λ found.
        continue_still (each (decrypt_cell_of t found (get_additional_data w.cache name)) raw) _ _ w
          (λ cells. refl)))

module _ {s : Storage} {k : KvSink} (w : World s k) (entry : Option Config)
    (read : s.read_entry w.storage ≡ ok entry) where
  -- The telemetry settles the config and may record a message.
  pub publish_telemetry_read :
      (operation : Bytes) (raw : GoMap Value)
      → publish_telemetry operation raw w ≡ (
        ok tt,
        publish
            (w.published ++ telemetry_message (settle entry w).cache operation raw)
            (settle entry w),
      )
  unfolding publish_telemetry
  publish_telemetry_read operation raw = rw (get_aead_config_read w entry read)
