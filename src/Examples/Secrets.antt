-- ===== src/Examples/Secrets.antt =====
-- What saveToKV, saveToTransitKV and the list of keys do at concrete inputs.
use vault_plugin_aead.Prelude.{Bytes, codes, true, [], ◌∷◌, none, some, ok, panic, same, ◌≡◌, refl}
use vault_plugin_aead.GoMap.{GoMap, get, set}
use vault_plugin_aead.GoMap.Order.{IsMap, over}
use vault_plugin_aead.Value.{Value, str}
use vault_plugin_aead.Keys.{remove_key_prefix}
use vault_plugin_aead.Vault.Secrets.{kv_get_secret}
use vault_plugin_aead.Vault.Client.{or_null, kv_get_client_with_approle}
use vault_plugin_aead.Vault.Folders.{v2}
use vault_plugin_aead.Vault.KeyNames.{derive_key_name}
use vault_plugin_aead.Kv.{KvOptions, resolve_kv_options}
use vault_plugin_aead.Kv.Secret.{
  is_secret_an_aead_keyset, extract_ad_from_secret, kv_client, read_data, store_keys_tobe_synced,
  read_keys_tobe_synced,
}
use vault_plugin_aead.Kv.Sink.{save_keyset, write_to_transit}
use vault_plugin_aead.Kv.Sink.Saved.{texts, read_data-save_keyset}
use vault_plugin_aead.Kv.Sink.Crash.{write_to_transit_crash}
use vault_plugin_aead.Kv.Sink.Synclist.{read_keys-store_keys}
use vault_plugin_aead.Examples.Samples.{toy, gcm_keyset}
use vault_plugin_aead.Examples.Servers.{
  Store, server_toy, refusing, json_toy, one_keyset, server_toy-IsKv, kv_config,
}
use vault_plugin_aead.Examples.Engines.{no_keys}

abbrev kv_options : KvOptions
kv_options = resolve_kv_options kv_config

pub logged_in : kv_client server_toy json_toy kv_options no_keys ≡ (ok tt, no_keys)
unfolding kv_client resolve_kv_options same
logged_in = refl

pub version_v2 : kv_options.vault_kv_version ≡ codes "v2"
unfolding resolve_kv_options get same
version_v2 = refl

pub transit_off : same kv_options.vault_transit_active (codes "false") ≡ true
unfolding resolve_kv_options get same
transit_off = refl

abbrev saved : Store
saved =
    (
      codes "gcm/x",
      (codes "data", str (codes "{keysets}")) ∷ (codes "aad", str (codes "{map}")) ∷ [],
    )
    ∷ []

pub save_run :
    save_keyset toy json_toy server_toy kv_options (codes "gcm/x") (str gcm_keyset) no_keys
    ≡ (ok tt, saved)
unfolding save_keyset resolve_kv_options get set same toy
save_run = refl

pub one_prefix :
    remove_key_prefix (remove_key_prefix (codes "gcm/x")) ≡ remove_key_prefix (codes "gcm/x")
unfolding remove_key_prefix
one_prefix = refl

pub keysets_read :
    json_toy.unmarshal_keysets (codes "{keysets}")
    ≡ some ((remove_key_prefix (codes "gcm/x"), one_keyset) ∷ [])
unfolding remove_key_prefix
keysets_read = refl

pub map_read :
    json_toy.unmarshal_map (codes "{map}")
    ≡ some ((remove_key_prefix (codes "gcm/x"), str (remove_key_prefix (codes "gcm/x"))) ∷ [])
unfolding remove_key_prefix
map_read = refl

read_data-save_keyset_example :
    (secret : GoMap Value) × (kh : toy.Handle) × (read_data server_toy tt kv_options
        (codes "gcm/x")
        saved
      ≡ (ok secret, saved))
    × (is_secret_an_aead_keyset toy json_toy (or_null (get (codes "data") secret)) (codes "gcm/x")
        ≡ ok (toy.marshal one_keyset, kh))
    × (extract_ad_from_secret json_toy (or_null (get (codes "aad") secret)) (codes "gcm/x")
        ≡ ok (remove_key_prefix (codes "gcm/x")))
unfolding resolve_kv_options same
read_data-save_keyset_example =
    read_data-save_keyset server_toy tt kv_options server_toy-IsKv v2 version_v2 toy json_toy
      (codes "gcm/x") (str gcm_keyset) no_keys no_keys saved logged_in transit_off one_prefix
      keysets_read map_read save_run

abbrev transit_options : KvOptions
transit_options = resolve_kv_options (
    (codes "VAULT_TRANSIT_SECRET_ID", str (codes "secret-id"))
    ∷ (codes "VAULT_TRANSIT_NAMESPACE", str (codes "kms/lm"))
    ∷ [])

transit_login :
    kv_get_client_with_approle refusing json_toy transit_options.vault_transit_url
      transit_options.vault_transit_namespace transit_options.vault_transit_approle_id
      transit_options.vault_transit_secret_id transit_options.vault_kv_writer_role
      transit_options.vault_secretgenerator_iam_role no_keys
    ≡ (ok tt, no_keys)
unfolding kv_get_client_with_approle resolve_kv_options get same
transit_login = refl

new_name :
    derive_key_name toy json_toy transit_options.vault_transit_namespace
      (remove_key_prefix (codes "gcm/x"))
      gcm_keyset
    ≡ ok (codes "LM_DEK_X_AES256_GCM")
unfolding derive_key_name remove_key_prefix resolve_kv_options get same toy
new_name = refl

nil_handle : toy.keyset_info none ≡ panic
unfolding toy
nil_handle = refl

write_to_transit_crash_example :
    write_to_transit toy json_toy refusing transit_options (codes "gcm/x") gcm_keyset no_keys
    ≡ (panic, no_keys)
write_to_transit_crash_example =
    write_to_transit_crash toy json_toy refusing transit_options (codes "gcm/x") gcm_keyset
      (codes "LM_DEK_X_AES256_GCM") tt no_keys no_keys no_keys no_keys transit_login new_name refl
      refl nil_handle

abbrev old_list : GoMap Bytes
old_list = (codes "gcm/a", codes "true") ∷ []

abbrev new_list : GoMap Bytes
new_list = (codes "gcm/x", codes "true") ∷ []

abbrev with_list : Store
with_list = (codes "synclist", texts old_list) ∷ []

abbrev with_both : Store
with_both =
    (
      codes "synclist",
      (codes "gcm/a", str (codes "true")) ∷ (codes "gcm/x", str (codes "true")) ∷ [],
    )
    ∷ []

new_list-IsMap : IsMap new_list
unfolding get
new_list-IsMap = (refl, tt)

list_login : kv_client server_toy json_toy kv_options with_list ≡ (ok tt, with_list)
unfolding kv_client resolve_kv_options same
list_login = refl

list_reads :
    kv_get_secret server_toy tt kv_options.vault_kv_engine kv_options.vault_kv_version
      (codes "synclist")
      with_list
    ≡ (ok (some (some (texts old_list))), with_list)
unfolding kv_get_secret resolve_kv_options get same
list_reads = refl

store_run :
    store_keys_tobe_synced server_toy json_toy kv_options (texts new_list) with_list
    ≡ (ok tt, with_both)
unfolding store_keys_tobe_synced resolve_kv_options get set same
store_run = refl

list_again : kv_client server_toy json_toy kv_options with_both ≡ (ok tt, with_both)
unfolding kv_client resolve_kv_options same
list_again = refl

read_keys-store_keys_example :
    (m : GoMap Value) × (read_keys_tobe_synced server_toy json_toy kv_options with_both
      ≡ (ok m, with_both))
    × ((name : Bytes) → get name m ≡ over (get name (texts new_list)) (get name (texts old_list)))
unfolding resolve_kv_options same
read_keys-store_keys_example =
    read_keys-store_keys server_toy json_toy kv_options tt v2 server_toy-IsKv new_list old_list
      with_list with_list with_both version_v2 new_list-IsMap list_login list_reads store_run
      list_again
