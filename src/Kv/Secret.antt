-- ===== src/Kv/Secret.antt =====
-- path_kv.go: the secrets of the KV engine: putAndCheckKvSecret, isSecretAnAEADKeyset,
-- extractADFromSecret, storeKeysTobeSynced and readKeysTobeSynced.
use vault_plugin_aead.Prelude.{Bytes, codes, [], ◌++◌, Option, none, some, Outcome, ok, err}
use vault_plugin_aead.Prelude.{◌>>=◌ as bind}
use vault_plugin_aead.Exec.{Exec, pure, raise, crash, ◌>>=◌, ◌>>◌}
use vault_plugin_aead.GoMap.{GoMap, get, set_all}
use vault_plugin_aead.Value.{Value}
use vault_plugin_aead.Value.Printing.{sprintf_v}
use vault_plugin_aead.Integers.{pos}
use vault_plugin_aead.KeySet.{KeySetStruct}
use vault_plugin_aead.Tink.{Tink}
use vault_plugin_aead.Keys.{remove_key_prefix, validate_key_set_json}
use vault_plugin_aead.Vault.{Vault, Library, KvSecret, attempt, or_error}
use vault_plugin_aead.Vault.Client.{or_null, kv_get_client_with_approle}
use vault_plugin_aead.Vault.Secrets.{kv_put_secret, kv_get_secret}
use vault_plugin_aead.Kv.{KvOptions}

abbrev pub no_secret : Bytes → Bytes → Bytes
no_secret path why = codes "failed to read the secrets in folder " ++ (path ++ (codes ": " ++ why))

abbrev pub zero_keyset : KeySetStruct
zero_keyset = record { primary_key_id = pos 0; key = [] }

-- jMap[fieldName]
abbrev pub or_zero : Option KeySetStruct → KeySetStruct
or_zero none = zero_keyset
or_zero (some k) = k

module _ (t : Tink) (lib : Library) where
  -- isSecretAnAEADKeyset, of this file and of aeadutils: the keyset as JSON, and its handle.
  unfoldable pub is_secret_an_aead_keyset : Value → Bytes → Outcome (Bytes × t.Handle)
  unfolding sprintf_v get remove_key_prefix validate_key_set_json
  is_secret_an_aead_keyset secret name = elim (lib.unmarshal_keysets (sprintf_v secret)) [
    | none ↦ err (codes "invalid character in a secret")
    | some keysets ↦
        let json = t.marshal (or_zero (get (remove_key_prefix name) keysets)) in
        bind (validate_key_set_json t json) (λ kh. ok (json, kh))
  ]

unfoldable pub extract_ad_from_secret : Library → Value → Bytes → Outcome Bytes
unfolding sprintf_v get remove_key_prefix
extract_ad_from_secret lib secret name = elim (lib.unmarshal_map (sprintf_v secret)) [
  | none ↦ err (codes "invalid character in associated data")
  | some m ↦ ok (sprintf_v (or_null (get (remove_key_prefix name) m)))
]

abbrev pub synclist : Bytes
synclist = codes "synclist"

module _ (v : Vault) where
  -- The client of the KV engine, by the options.
  unfoldable pub kv_client : Library → KvOptions → Exec (v.Server) (v.Client)
  unfolding kv_get_client_with_approle
  kv_client lib o =
      kv_get_client_with_approle v lib o.vault_kv_url [] o.vault_kv_approle_id o.vault_kv_secret_id
        o.vault_kv_writer_role o.vault_secretgenerator_iam_role

  -- kvsecret == nil and kvsecret.Data == nil
  abbrev pub data_of : Bytes → Option KvSecret → Exec (v.Server) (GoMap Value)
  data_of path none = raise (no_secret path (codes "secret not found"))
  data_of path (some none) = raise (no_secret path (codes "data not found"))
  data_of path (some (some m)) = pure m

  -- What is read under a path, with the errors that putAndCheckKvSecret, readKeysTobeSynced and readKV
  -- make of a failed read.
  unfoldable pub read_data : v.Client → KvOptions → Bytes → Exec (v.Server) (GoMap Value)
  unfolding kv_get_secret
  read_data client o path = do
    kvsecret ←
        or_error (kv_get_secret v client o.vault_kv_engine o.vault_kv_version path) (no_secret path)
    data_of path kvsecret

  -- With no "data" it returns a nil secret and a nil error.
  unfoldable pub put_and_check_kv_secret :
      v.Client → KvOptions → Bytes → GoMap Value → Exec (v.Server) Value
  unfolding kv_put_secret read_data get
  put_and_check_kv_secret client o name m = do
    kv_put_secret v client o.vault_kv_engine o.vault_kv_version name m
    secret ← read_data client o name
    pure (or_null (get (codes "data") secret))

  -- The log line for a failed read asks the nil error of a secret without data for its text, and a nil
  -- secret for its data.
  abbrev pub with_synclist : Option KvSecret → Exec (v.Server) (GoMap Value)
  with_synclist none = crash
  with_synclist (some none) = crash
  with_synclist (some (some m)) = pure m

  unfoldable pub store_keys_tobe_synced :
      Library → KvOptions → GoMap Value → Exec (v.Server) (Unit {0})
  unfolding kv_client kv_get_secret kv_put_secret set_all
  store_keys_tobe_synced lib o key_map = do
    client ← kv_client lib o
    let put = λ (m : GoMap Value).
        kv_put_secret v client o.vault_kv_engine o.vault_kv_version synclist m >> pure tt
    attempt (kv_get_secret v client o.vault_kv_engine o.vault_kv_version synclist)
        (λ kvsecret. do old ← with_synclist kvsecret; put (set_all key_map old)) (λ e. put key_map)

  unfoldable pub read_keys_tobe_synced : Library → KvOptions → Exec (v.Server) (GoMap Value)
  unfolding kv_client read_data
  read_keys_tobe_synced lib o = do client ← kv_client lib o; read_data client o synclist
