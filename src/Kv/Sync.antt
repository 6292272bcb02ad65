-- ===== src/Kv/Sync.antt =====
-- path_kv.go: readKV, and the handlers pathReadKV, pathSyncKV and pathSyncTransitKV.

pub mod Reads
pub mod Masked
pub mod Stored
use vault_plugin_aead.Prelude.{
  ℕ, ◌+◌, Bytes, codes, Bool, true, false, List, [], ◌∷◌, ◌++◌, ◌||◌, Option, none, some, Outcome,
  ok, err, panic, same, if◌then◌else◌,
}
use vault_plugin_aead.Prelude.{◌>>=◌ as bind}
use vault_plugin_aead.Exec.{Exec, pure, crash, lift, gets, ◌>>=◌, ◌>>◌}
use vault_plugin_aead.Text.{has_prefix}
use vault_plugin_aead.GoMap.{GoMap, get, set}
use vault_plugin_aead.Value.{Value, str}
use vault_plugin_aead.Value.Printing.{sprintf_v, sprintf_s}
use vault_plugin_aead.Tink.{Tink}
use vault_plugin_aead.Keys.{siv, gcm, mute_key_material}
use vault_plugin_aead.Vault.{Vault, Library, attempt}
use vault_plugin_aead.Vault.Client.{or_null, or_empty}
use vault_plugin_aead.Vault.Walk.{kv_get_secret_paths}
use vault_plugin_aead.Kv.{KvOptions, resolve_kv_options}
use vault_plugin_aead.Kv.Secret.{
  is_secret_an_aead_keyset, extract_ad_from_secret, kv_client, read_data, store_keys_tobe_synced,
}
use vault_plugin_aead.Kv.Sink.{logged, save_to_transit_kv, vault_sink}
use vault_plugin_aead.Config.{Storage, KvSink, World}
use vault_plugin_aead.Config.Write.{config_write_overwrite_check}

-- With no mask among the arguments of readKV key material is masked.
abbrev pub masks : Option Bool → Bool
masks none = true
masks (some mask) = mask

-- The key material is masked where the mask is on.
unfoldable pub shown : Tink → Bool → Bytes → Outcome Bytes
unfolding mute_key_material
shown t mask keyset = if mask then mute_key_material t keyset else ok keyset

-- consulKV["ADDITIONAL_DATA-" + path] = the associated data, if it can be extracted
unfoldable pub add_ad : Library → Bytes → GoMap Value → GoMap Value → GoMap Value
unfolding get set extract_ad_from_secret
add_ad lib path secret consul_kv =
    elim (extract_ad_from_secret lib (or_null (get (codes "aad") secret)) path) [
      | ok ad ↦ set (codes "ADDITIONAL_DATA-" ++ path) (str ad) consul_kv
      | err e ↦ consul_kv
      | panic ↦ consul_kv
    ]

module _ (t : Tink) (lib : Library) where
  -- consulKV[path] = the keyset, if the secret holds one
  unfoldable pub add_keyset : Bool → Bytes → GoMap Value → GoMap Value → Outcome (GoMap Value)
  unfolding get set is_secret_an_aead_keyset shown
  add_keyset mask path secret consul_kv =
      elim (is_secret_an_aead_keyset t lib (or_null (get (codes "data") secret)) path) [
        | ok found ↦ bind (shown t mask found.0) (λ text. ok (set path (str text) consul_kv))
        | err e ↦ ok consul_kv
        | panic ↦ panic
      ]

  -- One round of the loop of readKV, with the data that were read under the path.
  unfoldable pub add_secret : Bool → Bytes → GoMap Value → GoMap Value → Outcome (GoMap Value)
  unfolding has_prefix add_keyset add_ad
  add_secret mask path secret consul_kv =
      if has_prefix gcm path || has_prefix siv path
      then bind (add_keyset mask path secret consul_kv) (λ m. ok (add_ad lib path secret m))
      else ok consul_kv

  module _ (v : Vault) where
    unfoldable pub read_secrets :
        v.Client → KvOptions → Bool → List Bytes → GoMap Value → Exec (v.Server) (GoMap Value)
    unfolding read_data add_secret
    read_secrets client o mask [] consul_kv = pure consul_kv
    read_secrets client o mask (path ∷ paths) consul_kv = do
      secret ← read_data v client o path
      m ← lift (add_secret mask path secret consul_kv)
      read_secrets client o mask paths m

    -- An inactive engine answers with a nil map. A walk that fails has no paths.
    unfoldable pub read_kv : KvOptions → Option Bool → Exec (v.Server) (Option (GoMap Value))
    unfolding kv_client kv_get_secret_paths read_secrets same
    read_kv o mask = if same o.vault_kv_active (codes "false") then pure none else (do
      client ← kv_client v lib o
      paths ← logged [] (kv_get_secret_paths v client o.vault_kv_engine o.vault_kv_version [])
      m ← read_secrets client o (masks mask) paths []
      pure (some m))

    -- A round of pathSyncTransitKV.
    unfoldable pub sync_transit_key :
        KvOptions → GoMap Value → Bytes → Value → GoMap Value → Exec (v.Server) (GoMap Value)
    unfolding save_to_transit_kv get set sprintf_v sprintf_s same
    sync_transit_key o kv_map name value rtn =
        if same (codes "true") (sprintf_s value)
        then (elim (get name kv_map) [
          | none ↦ pure (set name (str (codes "Error: key not found in KV: " ++ name)) rtn)
          | some json ↦
              attempt (save_to_transit_kv t lib v o name (sprintf_v json)) (λ saved. pure rtn)
                (λ e. pure (set name (str (codes "Error saving to transit: " ++ e)) rtn))
        ])
        else pure rtn

    unfoldable pub sync_transit_keys :
        KvOptions → GoMap Value → GoMap Value → GoMap Value → Exec (v.Server) (GoMap Value)
    unfolding sync_transit_key
    sync_transit_keys o kv_map [] rtn = pure rtn
    sync_transit_keys o kv_map ((name, value) ∷ raw) rtn = do
      rtn' ← sync_transit_key o kv_map name value rtn
      sync_transit_keys o kv_map raw rtn'

    -- A nil map with a nil error asks the nil error for its text.
    abbrev pub sync_read :
        KvOptions → GoMap Value → Option (GoMap Value) → Exec (v.Server) (GoMap Value)
    unfolding sync_transit_keys
    sync_read o raw none = crash
    sync_read o raw (some kv_map) = sync_transit_keys o kv_map raw []

    -- pathSyncTransitKV while the engine is active. That the list could not be stored is not looked at.
    unfoldable pub sync_transit : KvOptions → GoMap Value → Exec (v.Server) (GoMap Value)
    unfolding store_keys_tobe_synced read_kv sync_read
    sync_transit o raw = do
      logged tt (store_keys_tobe_synced v lib o raw)
      attempt (read_kv o (some false)) (sync_read o raw) (λ e. pure ((codes "Error", str e) ∷ []))

-- The keys that pathSyncKV counts, by the start of their names.
pub record Counts : Type 0 where
  pub aad : ℕ
  pub gcm_keys : ℕ
  pub siv_keys : ℕ

abbrev pub none_counted : Counts
none_counted = record { aad = 0; gcm_keys = 0; siv_keys = 0 }

unfoldable pub count_keys : GoMap Value → Counts → Counts
unfolding has_prefix
count_keys [] n = n
count_keys ((k, v) ∷ kv_map) n = count_keys kv_map (
    if has_prefix (codes "ADDITIONAL") k
    then record n { aad = n.aad + 1 }
    else if has_prefix gcm k
    then record n { gcm_keys = n.gcm_keys + 1 }
    else if has_prefix siv k
    then record n { siv_keys = n.siv_keys + 1 }
    else n)

-- The response of pathSyncKV: the counts are Go integers.
pub data Synced : Type 0 where
  inactive : Synced
  failed : Bytes → Synced
  synced : Counts → Synced

module _ {s : Storage} {k : KvSink} where
  abbrev pub options : Exec (World s k) KvOptions
  unfolding resolve_kv_options
  options = gets (λ w. resolve_kv_options w.cache)

  abbrev pub on_kv : {A : Type 0} → Exec (k.Kv) A → Exec (World s k) A
  on_kv m w = ((m w.kv).0, record w { kv = (m w.kv).1 })

  -- The handlers read the options from the cache as it stands: it is not refreshed first.
  abbrev pub if_active : {A : Type 0} → A → (KvOptions → Exec (World s k) A) → Exec (World s k) A
  unfolding options same
  if_active idle run = do
    o ← options
    if same o.vault_kv_active (codes "true") then run o else pure idle

module _ (t : Tink) (lib : Library) (v : Vault) {s : Storage} where
  unfoldable pub path_read_kv : Exec (World s (vault_sink t lib v)) (GoMap Value)
  unfolding if_active read_kv
  path_read_kv = if_active [] (λ o.
      attempt (on_kv (read_kv t lib v o none)) (λ m. pure (or_empty m))
        (λ e. pure ((codes "error", str e) ∷ [])))

  unfoldable pub path_sync_transit_kv :
      GoMap Value → Exec (World s (vault_sink t lib v)) (GoMap Value)
  unfolding if_active sync_transit
  path_sync_transit_kv raw = if_active [] (λ o. on_kv (sync_transit t lib v o raw))

  -- What is read overwrites the config, and is not saved to the KV engine again.
  unfoldable pub path_sync_kv : Exec (World s (vault_sink t lib v)) Synced
  unfolding if_active read_kv count_keys config_write_overwrite_check
  path_sync_kv = if_active inactive (λ o.
      attempt (on_kv (read_kv t lib v o (some false)))
        (λ m. do
          config_write_overwrite_check t true false (or_empty m)
          pure (synced (count_keys (or_empty m) none_counted)))
        (λ e. pure (failed e)))
