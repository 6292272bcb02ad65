-- ===== src/Config/Update.antt =====
-- path_config.go: pathUpdateKeyStatus, pathUpdateKeyMaterial, pathUpdateKeyID and pathUpdatePrimaryKeyID.
use vault_plugin_aead.Prelude.{
  Bytes, codes, true, [], ◌∷◌, Option, none, some, Outcome, ok, err, panic,
}
use vault_plugin_aead.Prelude.{◌>>=◌ as bind}
use vault_plugin_aead.Exec.{Exec, pure, crash, lift, gets, ◌>>=◌, ◌>>◌}
use vault_plugin_aead.GoMap.{GoMap, set, set_all}
use vault_plugin_aead.Value.{Value, null, str, as_map}
use vault_plugin_aead.Value.Each.{each}
use vault_plugin_aead.Value.Printing.{sprintf_s}
use vault_plugin_aead.Tink.{Tink}
use vault_plugin_aead.Keys.Edit.{
  written, update_key_status, update_key_material, update_key_id, update_primary_key_id,
}
use vault_plugin_aead.Lookup.{Config, get_encryption_key}
use vault_plugin_aead.Config.{Storage, KvSink, World, get_aead_config}
use vault_plugin_aead.Config.Write.{muted_value}
use vault_plugin_aead.Config.Manage.{save_key_to_config}

module _ (t : Tink) where
  open t use {Handle, read}

  -- With no key, a nil interface is printed and read as a keyset.
  abbrev found_text : Option Value → Bytes
  unfolding sprintf_s
  found_text none = sprintf_s null
  found_text (some v) = sprintf_s v

  unfoldable pub existing_handle : Config → Bytes → Outcome (Option Handle)
  unfolding get_encryption_key found_text
  existing_handle config name =
      bind (get_encryption_key t config name) (λ found. ok (read (found_text found)))

  -- The second loop of each handler: the keysets of the response are muted.
  unfoldable pub mute_response : GoMap Value → Outcome (GoMap Value)
  unfolding each muted_value set_all
  mute_response resp =
      bind (each (λ name v. muted_value t v) resp) (λ result. ok (set_all result []))

  -- a type assertion with its panic
  abbrev ids_of : Value → Outcome (GoMap Value)
  ids_of v = elim (as_map v) [ none ↦ panic | some m ↦ ok m ]

module _ (t : Tink) {s : Storage} {k : KvSink} (failed : Bytes) where
  open t use {Handle}

  -- What is done with a new handle, or without one.
  unfoldable pub save_updated :
      Bytes → Outcome Handle → GoMap Value → Exec (World s k) (GoMap Value)
  unfolding set written save_key_to_config
  save_updated name (ok new_kh) resp = do
    save_key_to_config t (some new_kh) name true
    pure (set name (str (written t (some new_kh))) resp)
  save_updated name (err e) resp = pure (set name (str failed) resp)
  save_updated name panic resp = crash

  -- The loop over the ids of one field: each update starts from the handle that was read before it.
  unfoldable pub update_ids :
      (Option Handle → Bytes → Bytes → Outcome Handle)
      → Option Handle
      → Bytes
      → GoMap Value
      → GoMap Value
      → Exec (World s k) (GoMap Value)
  unfolding sprintf_s save_updated
  update_ids change kh name [] resp = pure resp
  update_ids change kh name ((key_id, v) ∷ ids) resp = do
    resp1 ← save_updated name (change kh key_id (sprintf_s v)) resp
    update_ids change kh name ids resp1

  unfoldable pub update_fields :
      (Option Handle → Bytes → Bytes → Outcome Handle)
      → GoMap Value
      → GoMap Value
      → Exec (World s k) (GoMap Value)
  unfolding existing_handle update_ids
  update_fields change [] resp = pure resp
  update_fields change ((name, v) ∷ raw) resp = do
    config ← gets (λ w. w.cache)
    kh ← lift (existing_handle t config name)
    ids ← lift (ids_of t v)
    resp1 ← update_ids change kh name ids resp
    update_fields change raw resp1

  unfoldable pub update_primaries : GoMap Value → GoMap Value → Exec (World s k) (GoMap Value)
  unfolding existing_handle sprintf_s update_primary_key_id save_updated
  update_primaries [] resp = pure resp
  update_primaries ((name, v) ∷ raw) resp = do
    config ← gets (λ w. w.cache)
    kh ← lift (existing_handle t config name)
    resp1 ← save_updated name (update_primary_key_id t kh (sprintf_s v)) resp
    update_primaries raw resp1

module _ (t : Tink) {s : Storage} {k : KvSink} where
  -- Refresh, the loop over the fields, and the muting of the response.
  abbrev update_handler :
      (GoMap Value → Exec (World s k) (GoMap Value)) → Exec (World s k) (GoMap Value)
  unfolding get_aead_config mute_response
  update_handler fields = do get_aead_config; resp ← fields []; lift (mute_response t resp)

  unfoldable pub path_update_key_status : GoMap Value → Exec (World s k) (GoMap Value)
  unfolding update_handler update_fields update_key_status
  path_update_key_status raw =
      update_handler
        (update_fields t (codes "failed to update the status") (update_key_status t) raw)

  unfoldable pub path_update_key_material : GoMap Value → Exec (World s k) (GoMap Value)
  unfolding update_handler update_fields update_key_material
  path_update_key_material raw =
      update_handler
        (update_fields t (codes "failed to update the material") (update_key_material t) raw)

  unfoldable pub path_update_key_id : GoMap Value → Exec (World s k) (GoMap Value)
  unfolding update_handler update_fields update_key_id
  path_update_key_id raw =
      update_handler (update_fields t (codes "failed to update the keyid") (update_key_id t) raw)

  unfoldable pub path_update_primary_key_id : GoMap Value → Exec (World s k) (GoMap Value)
  unfolding update_handler update_primaries
  path_update_primary_key_id raw =
      update_handler (update_primaries t (codes "failed to update the keyID") raw)
