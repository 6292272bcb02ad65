-- ===== src/Kv/Sink.antt =====
-- path_kv.go: saveToTransitKV, and saveToKV behind its guards: how a keyset gets into the KV engine.
-- `vault_sink` is what the config takes as `KvSink`.
pub mod Saved
pub mod Crash
pub mod Synclist
use vault_plugin_aead.Prelude.{
  Bytes, codes, [], ◌∷◌, ◌++◌, Option, none, some, Outcome, ok, err, panic, same, if◌then◌else◌,
  not,
}
use vault_plugin_aead.Exec.{Exec, pure, raise, crash, lift, ◌>>=◌, ◌>>◌}
use vault_plugin_aead.GoMap.{GoMap, get}
use vault_plugin_aead.Value.{Value, str}
use vault_plugin_aead.Value.Printing.{sprintf_v, sprintf_s}
use vault_plugin_aead.KeySet.{KeySetStruct}
use vault_plugin_aead.Tink.{Tink}
use vault_plugin_aead.Keys.{remove_key_prefix, validate_b64_key}
use vault_plugin_aead.Vault.{Vault, Library, KvSecret, attempt}
use vault_plugin_aead.Vault.Client.{kv_get_client_with_approle}
use vault_plugin_aead.Vault.Secrets.{kv_put_secret}
use vault_plugin_aead.Vault.Transit.{wrap_keyset, unwrap_keyset}
use vault_plugin_aead.Vault.KeyNames.{derive_key_name}
use vault_plugin_aead.Kv.{KvOptions}
use vault_plugin_aead.Kv.Secret.{
  is_secret_an_aead_keyset, kv_client, put_and_check_kv_secret, read_keys_tobe_synced,
}
use vault_plugin_aead.Config.{KvSink}

-- An error that is only logged; a panic goes on.
abbrev pub logged {ℓ} : {S : Type ℓ} {A : Type 0} → A → Exec S A → Exec S A
logged a m = attempt m pure (λ e. pure a)

-- A key is synchronised if the list says "true" for it.
abbrev pub to_sync : Option Value → Bytes
unfolding sprintf_v
to_sync none = []
to_sync (some toSync) = sprintf_v toSync

-- The two entries of a secret: the keyset and the associated data, each under the bare name.
unfoldable pub secret_of : Library → KeySetStruct → Bytes → GoMap Value
unfolding remove_key_prefix
secret_of lib keyset name =
    (codes "data", str (lib.marshal_keysets ((remove_key_prefix name, keyset) ∷ [])))
    ∷ (
      codes "aad",
      str (lib.marshal_map ((remove_key_prefix name, str (remove_key_prefix name)) ∷ [])),
    )
    ∷ []

module _ (t : Tink) (lib : Library) (v : Vault) where
  -- The part of saveToTransitKV that runs for a key to be synchronised. The key is wrapped, unwrapped
  -- and validated; what fails there is logged, and the wrapped key is written all the same.
  unfoldable pub write_to_transit : KvOptions → Bytes → Bytes → Exec (v.Server) (Unit {0})
  unfolding kv_get_client_with_approle derive_key_name wrap_keyset unwrap_keyset validate_b64_key
      kv_put_secret remove_key_prefix
  write_to_transit o name keyjson = do
    client ←
        kv_get_client_with_approle v lib o.vault_transit_url o.vault_transit_namespace
          o.vault_transit_approle_id o.vault_transit_secret_id o.vault_kv_writer_role
          o.vault_secretgenerator_iam_role
    new_name ←
        lift (derive_key_name t lib o.vault_transit_namespace (remove_key_prefix name) keyjson)
    let wrapper = v.with_namespace o.vault_transit_namespace client
    wrapped ← logged [] (wrap_keyset v wrapper keyjson o.vault_transit_kek o.vault_transit_engine)
    base64_keyset ←
        logged [] (unwrap_keyset v wrapper wrapped o.vault_transit_kek o.vault_transit_engine)
    logged [] (lift (validate_b64_key t base64_keyset))
    logged none (
        kv_put_secret v wrapper o.vault_transit_kv_engine o.vault_transit_kv_version new_name
          ((codes "key", str wrapped) ∷ []))
    pure tt

  unfoldable pub save_to_transit_kv : KvOptions → Bytes → Bytes → Exec (v.Server) (Unit {0})
  unfolding read_keys_tobe_synced write_to_transit to_sync get same
  save_to_transit_kv o name keyjson =
      if same o.vault_transit_active (codes "false")
      then pure tt
      else attempt (read_keys_tobe_synced v lib o)
          (λ sync_map.
            if same (to_sync (get name sync_map)) (codes "true")
            then write_to_transit o name keyjson
            else pure tt)
          (λ e. pure tt)

  -- saveToKV once it has the options and has seen a keyset.
  unfoldable pub save_keyset : KvOptions → Bytes → Value → Exec (v.Server) (Unit {0})
  unfolding kv_client secret_of put_and_check_kv_secret is_secret_an_aead_keyset save_to_transit_kv
      sprintf_s remove_key_prefix
  save_keyset o name keyjson = do
    client ← kv_client v lib o
    let keyset = lib.unmarshal_into_zero (sprintf_s keyjson)
    secret ← put_and_check_kv_secret v client o name (secret_of lib keyset name)
    lift (is_secret_an_aead_keyset t lib secret (remove_key_prefix name))
    save_to_transit_kv o name (sprintf_s keyjson)

  abbrev pub vault_sink : KvSink
  vault_sink = record { Kv = v.Server; save = λ kv o name keyjson. save_keyset o name keyjson kv }
