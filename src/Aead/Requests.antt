-- ===== src/Aead/Requests.antt =====
-- The four handlers, from a world whose config can be read, as functions of the request.
use vault_plugin_aead.Prelude.{
  Bytes, codes, [], ◌∷◌, ◌++◌, Option, Outcome, ok, ◌≡◌, refl, ap, if◌then◌else◌, Bool-cases, inl,
  inr,
}
use vault_plugin_aead.Prelude.{◌>>=◌ as bind}
use vault_plugin_aead.Exec.{pure, lift, panic_on, continue_still, bind_still}
use vault_plugin_aead.GoMap.{GoMap}
use vault_plugin_aead.Value.{Value}
use vault_plugin_aead.Tink.{Tink}
use vault_plugin_aead.Lookup.{Config}
use vault_plugin_aead.Pivot.{pivot_map_int}
use vault_plugin_aead.Config.{Storage, IsStorage, KvSink, World}
use vault_plugin_aead.Config.Settled.{
  IsSettled, settle, settle-IsSettled, publish, publish-IsSettled,
}
use vault_plugin_aead.Aead.{Env, collect}
use vault_plugin_aead.Value.Each.{each}
use vault_plugin_aead.Aead.Handlers.{
  each_map, is_bulk_data, encrypt_row, encrypt_col, path_aead_encrypt, path_aead_encrypt_bulk_col,
}
use vault_plugin_aead.Aead.Telemetry.{telemetry_message}
use vault_plugin_aead.Aead.Row.{
  row_result, map_result, col_result, encrypt_field, encrypt_cell_of, encrypt_row_settled,
  encrypt_col_settled, each_map_settled, publish_telemetry_read,
}

abbrev pub encrypt_result : Tink → Env → Config → GoMap Value → Outcome (GoMap Value)
encrypt_result t env config raw =
    if is_bulk_data raw
    then row_result
        (map_result
          (λ name m. row_result (encrypt_field t env config (name ∷ [])) env (name ∷ []) m))
        env [] raw
    else panic_on (row_result (encrypt_field t env config []) env [] raw)

abbrev pub encrypt_bulk_col_result : Tink → Env → Config → GoMap Value → Outcome (GoMap Value)
encrypt_bulk_col_result t env config raw =
    if is_bulk_data raw
    then bind (pivot_map_int raw []) (λ pivoted.
      bind
        (each (map_result (λ name m. col_result (encrypt_cell_of t env name) t config name m))
          pivoted)
        (λ sent. pivot_map_int (collect env [] sent) []))
    else ok []

abbrev or_panic_of : {S A : Type 0} → Outcome A × S → Outcome A × S
or_panic_of r = (panic_on r.0, r.1)

module _ {s : Storage} {k : KvSink} (l : IsStorage s) (w : World s k) (entry : Option Config)
    (read : s.read_entry w.storage ≡ ok entry) (t : Tink) (env : Env) where
  -- The world after the telemetry of a request.
  abbrev pub after : Bytes → GoMap Value → World s k
  after operation raw =
      publish (w.published ++ telemetry_message (settle entry w).cache operation raw)
        (settle entry w)

  after-IsSettled : (operation : Bytes) (raw : GoMap Value) → IsSettled (after operation raw)
  after-IsSettled operation raw = publish-IsSettled _ (settle-IsSettled l w entry read)

  pub path_aead_encrypt_read :
      (raw : GoMap Value)
      → path_aead_encrypt t env raw w
        ≡ (encrypt_result t env (settle entry w).cache raw, after (codes "encrypt") raw)
  unfolding path_aead_encrypt
  path_aead_encrypt_read raw =
      rw (publish_telemetry_read w entry read (codes "encrypt") raw)
        (elim (Bool-cases (is_bulk_data raw)) [
          | inl e ↦ rw e (
              bind_still (each_map (λ name m. encrypt_row t env (name ∷ []) m) raw)
                (each
                  (map_result (λ name m.
                    row_result (encrypt_field t env w1.cache (name ∷ [])) env (name ∷ []) m))
                  raw)
                (λ sent. pure (collect env [] sent)) (λ sent. ok (collect env [] sent)) w1
                (each_map_settled w1 _ _ raw
                  (λ name m. encrypt_row_settled w1 settled t env (name ∷ []) m))
                (λ sent. refl))
          | inr e ↦ rw e (ap or_panic_of (encrypt_row_settled w1 settled t env [] raw))
        ])
    where
      w1 : World s k
      w1 = after (codes "encrypt") raw

      settled : IsSettled w1
      settled = after-IsSettled (codes "encrypt") raw

  pub path_aead_encrypt_bulk_col_read :
      (raw : GoMap Value)
      → path_aead_encrypt_bulk_col t env raw w
        ≡ (encrypt_bulk_col_result t env (settle entry w).cache raw, after (codes "encrypt") raw)
  unfolding path_aead_encrypt_bulk_col
  path_aead_encrypt_bulk_col_read raw =
      rw (publish_telemetry_read w entry read (codes "encrypt") raw)
        (elim (Bool-cases (is_bulk_data raw)) [
          | inl e ↦ rw e (
              continue_still (pivot_map_int raw []) _ _ w1 (λ pivoted.
                bind_still (each_map (encrypt_col t env) pivoted)
                  (each
                    (map_result
                      (λ name m. col_result (encrypt_cell_of t env name) t w1.cache name m))
                    pivoted)
                  (λ sent. lift (pivot_map_int (collect env [] sent) []))
                  (λ sent. pivot_map_int (collect env [] sent) []) w1
                  (each_map_settled w1 _ _ pivoted
                    (λ name m. encrypt_col_settled w1 settled t env name m))
                  (λ sent. refl)))
          | inr e ↦ rw e
        ])
    where
      w1 : World s k
      w1 = after (codes "encrypt") raw

      settled : IsSettled w1
      settled = after-IsSettled (codes "encrypt") raw
