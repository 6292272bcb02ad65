-- ===== src/Config/Write.antt =====
-- path_config.go: configWriteOverwriteCheck, pathConfigWrite, pathConfigOverwrite, pathConfigDelete,
-- pathConfigRead, pathReadKeyTypes and pathImportKey.
use vault_plugin_aead.Prelude.{
  same, Bytes, codes, Bool, true, false, ◌&&◌, not, [], ◌∷◌, ◌++◌, none, some, Outcome, ok, err,
  panic, if◌then◌else◌,
}
use vault_plugin_aead.Prelude.{◌>>=◌ as bind}
use vault_plugin_aead.Exec.{Exec, pure, lift, gets, modify, ◌>>=◌, ◌>>◌}
use vault_plugin_aead.GoMap.{GoMap, set, remove, has, set_all}
use vault_plugin_aead.Value.{Value, str, as_str}
use vault_plugin_aead.Value.Each.{each}
use vault_plugin_aead.Value.Printing.{sprintf_v, sprintf_s}
use vault_plugin_aead.Tink.{Tink}
use vault_plugin_aead.Keys.{
  get_key_prefix, validate_key_set_json, mute_key_material, is_key_json_deterministic,
}
use vault_plugin_aead.Lookup.{Config}
use vault_plugin_aead.Kv.{resolve_kv_options}
use vault_plugin_aead.Config.{Storage, KvSink, World, get_aead_config}

-- for k := range data.Raw { AEAD_CONFIG.Remove(k) }; deleteFromKV does nothing.
unfoldable pub remove_all : GoMap Value → Config → Config
unfolding remove
remove_all [] config = config
remove_all ((name, v) ∷ raw) config = remove_all raw (remove name config)

abbrev key_type : Value → Value
unfolding is_key_json_deterministic
key_type v =
    str
      (if (is_key_json_deterministic v).1 then codes "DETERMINISTIC" else codes "NON DETERMINISTIC")

module _ (t : Tink) where
  -- A value that does not validate as a keyset is kept; one that does is muted.
  unfoldable pub muted : Bytes → Outcome Value
  unfolding validate_key_set_json mute_key_material
  muted text = elim (validate_key_set_json t text) [
    | ok kh ↦ bind (mute_key_material t text) (λ m. ok (str m))
    | err e ↦ ok (str text)
    | panic ↦ panic
  ]

  -- v.(string) of a value that is no string is a panic.
  unfoldable pub muted_value : Value → Outcome Value
  unfolding muted
  muted_value v = elim (as_str v) [ none ↦ panic | some text ↦ muted text ]

  -- The first value that is no keyset ends the import.
  unfoldable pub check_keys : GoMap Value → Outcome (Unit {0})
  unfolding validate_key_set_json sprintf_s
  check_keys [] = ok tt
  check_keys ((name, v) ∷ raw) = bind (validate_key_set_json t (sprintf_s v)) (λ kh. check_keys raw)

module _ {s : Storage} {k : KvSink} where
  abbrev pub change_cache : (Config → Config) → Exec (World s k) (Unit {0})
  change_cache f = modify (λ w. record w { cache = f w.cache })

  abbrev pub after_save : World s k → Outcome (Unit {0}) × k.Kv → Outcome (Unit {0}) × World s k
  after_save w (ok _, kv) = (ok tt, record w { kv = kv })
  after_save w (err e, kv) = (ok tt, record w { kv = kv })
  after_save w (panic, kv) = (panic, record w { kv = kv })

  abbrev pub after_put : World s k → Outcome (s.State) → Outcome (Unit {0}) × World s k
  after_put w (ok st) = (ok tt, record w { storage = st })
  after_put w (err e) = (err e, w)
  after_put w panic = (panic, w)

  -- StorageEntryJSON of the cache, and Put
  unfoldable pub put_config : Exec (World s k) (Unit {0})
  put_config w = after_put w (s.put_entry w.storage w.cache)

-- saveToKV: nothing is done unless the engine is active and the value is a keyset.
unfoldable pub save_to_kv :
    (t : Tink) (k : KvSink) → k.Kv → Config → Bytes → Value → Outcome (Unit {0}) × k.Kv
unfolding resolve_kv_options same sprintf_v validate_key_set_json
save_to_kv t k kv config name v =
    if same (resolve_kv_options config).vault_kv_active (codes "false")
    then (ok tt, kv)
    else if same (sprintf_v v) []
    then (ok tt, kv)
    else elim (validate_key_set_json t (sprintf_v v)) [
      | ok kh ↦ k.save kv (resolve_kv_options config) name v
      | err e ↦ (ok tt, kv)
      | panic ↦ (panic, kv)
    ]

module _ (t : Tink) {s : Storage} {k : KvSink} where
  -- The call of saveToKV, whose error is logged.
  unfoldable pub save_entry : Bytes → Value → Exec (World s k) (Unit {0})
  unfolding save_to_kv
  save_entry name v w = after_save w (save_to_kv t k w.kv w.cache name v)

  -- One round of the loop of configWriteOverwriteCheck, with the prefixed name.
  unfoldable pub write_entry : Bool → Bool → Bytes → Value → Exec (World s k) (Unit {0})
  unfolding has set save_entry
  write_entry overwrite_config overwrite_kv name v = do
    exists ← gets (λ w. has name w.cache)
    if not overwrite_config && exists
        then pure tt
        else (do change_cache (set name v); if overwrite_kv then save_entry name v else pure tt)

  unfoldable pub write_entries : Bool → Bool → GoMap Value → Exec (World s k) (Unit {0})
  unfolding get_key_prefix sprintf_v write_entry
  write_entries overwrite_config overwrite_kv [] = pure tt
  write_entries overwrite_config overwrite_kv ((name, v) ∷ raw) = do
    prefix ← lift (get_key_prefix t name (sprintf_v v) none)
    write_entry overwrite_config overwrite_kv (prefix ++ name) v
    write_entries overwrite_config overwrite_kv raw

  unfoldable pub config_write_overwrite_check :
      Bool → Bool → GoMap Value → Exec (World s k) (Unit {0})
  unfolding get_aead_config write_entries put_config
  config_write_overwrite_check overwrite_config overwrite_kv raw = do
    get_aead_config
    write_entries overwrite_config overwrite_kv raw
    put_config

  unfoldable pub path_config_write : GoMap Value → Exec (World s k) (Unit {0})
  unfolding config_write_overwrite_check
  path_config_write raw = config_write_overwrite_check false true raw

  unfoldable pub path_config_overwrite : GoMap Value → Exec (World s k) (Unit {0})
  unfolding config_write_overwrite_check
  path_config_overwrite raw = config_write_overwrite_check true true raw

  -- pathConfigRead, for a mount point
  unfoldable pub path_config_read : Bytes → Exec (World s k) (GoMap Value)
  unfolding get_aead_config each muted_value set set_all
  path_config_read mount_point = do
    get_aead_config
    config ← gets (λ w. w.cache)
    result ← lift (each (λ name v. muted_value t v) config)
    pure (set (codes "MountPoint") (str mount_point) (set_all result []))

  unfoldable pub path_read_key_types : Exec (World s k) (GoMap Value)
  unfolding get_aead_config each key_type set_all
  path_read_key_types = do
    get_aead_config
    config ← gets (λ w. w.cache)
    types ← lift (each (λ name v. ok (key_type v)) config)
    pure (set_all types [])

  unfoldable pub path_import_key : GoMap Value → Exec (World s k) (GoMap Value)
  unfolding check_keys config_write_overwrite_check
  path_import_key raw = do
    lift (check_keys t raw)
    config_write_overwrite_check true true raw
    pure raw

module _ {s : Storage} {k : KvSink} where
  unfoldable pub path_config_delete : GoMap Value → Exec (World s k) (Unit {0})
  unfolding get_aead_config remove_all put_config
  path_config_delete raw = do get_aead_config; change_cache (remove_all raw); put_config
