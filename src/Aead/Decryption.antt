-- ===== src/Aead/Decryption.antt =====
-- The decryption of requests whose rows, if there are any, hold no maps.
use vault_plugin_aead.Prelude.{
  Bytes, codes, [], ◌∷◌, ◌++◌, List, Option, Outcome, ok, err, panic, ◌⊎◌, ◌≡◌, refl, ap, ◌∙◌,
  if◌then◌else◌, true, false, Outcome-cases, inl, inr, All,
}
use vault_plugin_aead.Exec.{pure, panic_on, continue, continue_still}
use vault_plugin_aead.GoMap.{GoMap}
use vault_plugin_aead.Value.{Value, Fields, obj, entries, to_fields, entries-to_fields}
use vault_plugin_aead.Tink.{Tink}
use vault_plugin_aead.Lookup.{Config}
use vault_plugin_aead.Config.{Storage, IsStorage, KvSink, World, Message}
use vault_plugin_aead.Config.Settled.{
  settle, settle-IsSettled, IsSettled, publish, publish-IsSettled, get_aead_config_settled,
}
use vault_plugin_aead.Aead.{Env, collect, do_decryption}
use vault_plugin_aead.Value.Each.{each}
use vault_plugin_aead.Aead.Handlers.{is_bulk_data, decrypt_value, decrypt_rows, path_aead_decrypt}
use vault_plugin_aead.Aead.Telemetry.{telemetry_message, publish_telemetry}
use vault_plugin_aead.Aead.Row.{row_result, map_result, decrypt_row_settled, publish_telemetry_read}

-- A row that is a map and holds no map at its head.
abbrev pub IsFlat : Bytes × Value → Type 0
IsFlat (name, v) = (m : GoMap Value) × (v ≡ obj (to_fields m)) × (is_bulk_data m ≡ false)

abbrev shown : {S : Type 0} → Outcome (GoMap Value) × S → Outcome (GoMap Value) × S
shown r = (panic_on r.0, r.1)

panic_on_twice : (o : Outcome (GoMap Value)) → panic_on (panic_on o) ≡ panic_on o
panic_on_twice (ok m) = refl
panic_on_twice (err e) = refl
panic_on_twice panic = refl

module _ {s : Storage} {k : KvSink} (t : Tink) (env : Env) where
  abbrev pub decrypt_row_result : World s k → List Bytes → GoMap Value → Outcome (GoMap Value)
  decrypt_row_result w path m = row_result (do_decryption t w.cache) env path m

  publish_telemetry_settled :
      (w : World s k) (operation : Bytes) (raw : GoMap Value)
      → IsSettled w
      → publish_telemetry operation raw w
        ≡ (ok tt, publish (w.published ++ telemetry_message w.cache operation raw) w)
  unfolding publish_telemetry
  publish_telemetry_settled w operation raw h = rw (get_aead_config_settled w h)

  decrypt_value_flat :
      (w : World s k) (path : List Bytes) (fs : Fields)
      → IsSettled w
      → is_bulk_data (entries fs) ≡ false
      → (p : List Message) × (decrypt_value t env path (obj fs) w
          ≡ (panic_on (decrypt_row_result w path (entries fs)), publish p w))
  unfolding decrypt_value
  decrypt_value_flat w path fs h flat =
      let p = w.published ++ telemetry_message w.cache (codes "decrypt") (entries fs) in
      (
        p,
        rw (publish_telemetry_settled w (codes "decrypt") (entries fs) h) (
            rw flat (
              ap shown (
                decrypt_row_settled (publish p w) (publish-IsSettled p h) t env path
                  (entries fs)))),
      )

  decrypt_rows_flat :
      (w : World s k) (path : List Bytes) (raw : GoMap Value)
      → IsSettled w
      → All IsFlat raw
      → (p : List Message) × (decrypt_rows t env path (to_fields raw) w
          ≡ (each (map_result (λ name m. decrypt_row_result w (name ∷ path) m)) raw, publish p w))
  unfolding decrypt_value
  decrypt_rows_flat w path [] h flat = (w.published, unfold each in refl)
  decrypt_rows_flat w path ((name, v) ∷ raw) h flat =
      let (m, is_obj, not_bulk) = flat.0 in
      let (p, step) =
        decrypt_value_flat w (name ∷ path) (to_fields m) h (rw (entries-to_fields m) not_bulk) in
      let (q, rest) = decrypt_rows_flat (publish p w) path raw (publish-IsSettled p h) flat.1 in
      rw is_obj (
        rw (step, entries-to_fields m)
          (elim (Outcome-cases (decrypt_row_result w (name ∷ path) m)) [
            | inl (r, e) ↦ (
              q,
              rw (e, rest)
                  (continue_still
                    (each (map_result (λ name m. decrypt_row_result w (name ∷ path) m)) raw) _ _
                    (publish q w) (λ sent. refl)),
            )
            | inr (inl (e, e')) ↦ (p, rw e' refl)
            | inr (inr e) ↦ (p, rw e refl)
          ]))

-- What the decryption of flat rows, or of one row, gives over a config.
abbrev pub decrypt_result : Tink → Env → Config → GoMap Value → Outcome (GoMap Value)
decrypt_result t env config raw =
    if is_bulk_data raw
    then row_result (map_result (λ name m. row_result (do_decryption t config) env (name ∷ []) m))
        env [] raw
    else panic_on (row_result (do_decryption t config) env [] raw)

abbrev pub IsFlatRequest : GoMap Value → Type 0
IsFlatRequest raw = (is_bulk_data raw ≡ false) ⊎ ((is_bulk_data raw ≡ true) × All IsFlat raw)

abbrev pub Decrypts :
    {s : Storage} {k : KvSink} → Tink → Env → World s k → GoMap Value → World s k → Type 0
Decrypts t env w raw w1 =
    (p : List Message) × (path_aead_decrypt t env raw w
      ≡ (decrypt_result t env w1.cache raw, publish p w1))

module _ {s : Storage} {k : KvSink} (l : IsStorage s) (w : World s k) (entry : Option Config)
    (read : s.read_entry w.storage ≡ ok entry) (t : Tink) (env : Env) where
  pub path_aead_decrypt_read :
      (raw : GoMap Value) → IsFlatRequest raw → Decrypts t env w raw (settle entry w)
  unfolding path_aead_decrypt decrypt_value
  path_aead_decrypt_read raw (inl e) =
      let p0 = w.published ++ telemetry_message (settle entry w).cache (codes "decrypt") raw in
      let settled = publish-IsSettled p0 (settle-IsSettled l w entry read) in
      (
        p0,
        rw
            (
              publish_telemetry_read w entry read (codes "decrypt") (entries (to_fields raw)),
              entries-to_fields raw,
              e,
            )
            (ap shown (decrypt_row_settled (publish p0 (settle entry w)) settled t env [] raw)),
      )
  path_aead_decrypt_read raw (inr (e, flat)) =
      let p0 = w.published ++ telemetry_message (settle entry w).cache (codes "decrypt") raw in
      let settled = publish-IsSettled p0 (settle-IsSettled l w entry read) in
      let (p, rows) = decrypt_rows_flat t env (publish p0 (settle entry w)) [] raw settled flat in
      (
        p,
        rw
            (
              publish_telemetry_read w entry read (codes "decrypt") (entries (to_fields raw)),
              entries-to_fields raw,
              e,
            )
            (ap
                (λ (r : Outcome (GoMap Value) × World s k).
                  continue r.0 (λ sent. pure (collect env [] sent)) r.1)
                rows
              ∙ continue_still
                  (each
                    (map_result (λ name m. decrypt_row_result t env (settle entry w) (name ∷ []) m))
                    raw)
                  _ _ (publish p (settle entry w)) (λ sent. refl)),
      )
