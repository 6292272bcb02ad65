-- ===== src/KvToBq.antt =====
-- cmd/kv2bq/kv2bq.go: the command that synchronises the keysets of a KV engine to BigQuery.
use vault_plugin_aead.Prelude.{
  Bytes, codes, ◌||◌, List, [], ◌∷◌, ◌++◌, Option, none, some, Outcome, ok, err, panic,
  if◌then◌else◌,
}
use vault_plugin_aead.Prelude.{◌>>=◌ as bind}
use vault_plugin_aead.Exec.{Exec, pure, crash, lift, ◌>>=◌}
use vault_plugin_aead.Text.{has_prefix}
use vault_plugin_aead.GoMap.{GoMap, get}
use vault_plugin_aead.Value.{Value, str}
use vault_plugin_aead.Lookup.{Config}
use vault_plugin_aead.Tink.{Tink}
use vault_plugin_aead.Keys.{siv, gcm, remove_key_prefix, is_key_handle_deterministic}
use vault_plugin_aead.Vault.{Vault, Library, KvSecret, attempt}
use vault_plugin_aead.Vault.Client.{or_null, kv_get_client}
use vault_plugin_aead.Vault.Secrets.{kv_get_secret}
use vault_plugin_aead.Vault.Walk.{kv_get_secret_paths}
use vault_plugin_aead.Kv.Secret.{is_secret_an_aead_keyset}
use vault_plugin_aead.Kv.Sink.{logged}
use vault_plugin_aead.Bq.Cloud.{Cloud}
use vault_plugin_aead.Bq.Sync.{Runtime, get_bq_datasets}
use vault_plugin_aead.Bq.Handler.{Call, run_calls}

pub record Conf : Type 0 where
  pub vault_url : Bytes
  pub approle_id : Bytes
  pub secret_id : Bytes
  pub engine : Bytes
  pub engine_version : Bytes
  pub project_id : Bytes
  pub encrypt_dataset_id : Bytes
  pub decrypt_dataset_id : Bytes
  pub det_routine_prefix : Bytes
  pub nondet_routine_prefix : Bytes
  pub kms_key_name : Bytes
  pub kv_keys : List Bytes

-- The map that main makes of the configuration.
unfoldable pub env_map : Conf → Config
env_map conf =
    (codes "BQ_KMSKEY", str conf.kms_key_name)
    ∷ (codes "BQ_PROJECT", str conf.project_id)
    ∷ (codes "BQ_DEFAULT_ENCRYPT_DATASET", str conf.encrypt_dataset_id)
    ∷ (codes "BQ_DEFAULT_DECRYPT_DATASET", str conf.decrypt_dataset_id)
    ∷ (codes "BQ_ROUTINE_DET_PREFIX", str conf.det_routine_prefix)
    ∷ (codes "BQ_ROUTINE_NONDET_PREFIX", str conf.nondet_routine_prefix)
    ∷ []

module _ (t : Tink) (lib : Library) where
  -- The goroutine for a keyset, under its bare name. Handle and name are declared in the loop's body.
  unfoldable pub keyset_call : Bytes → GoMap Value → Outcome (List Call)
  unfolding get is_secret_an_aead_keyset remove_key_prefix is_key_handle_deterministic
  keyset_call path secret =
      elim (is_secret_an_aead_keyset t lib (or_null (get (codes "data") secret)) path) [
        | ok found ↦ bind (is_key_handle_deterministic t (some found.1)) (λ deterministic. ok (
            record {
              field_name = remove_key_prefix path;
              binary_keyset = t.write_binary (some found.1);
              deterministic = deterministic;
            }
            ∷ []))
        | err e ↦ ok []
        | panic ↦ panic
      ]

  unfoldable pub path_call : Bytes → GoMap Value → Outcome (List Call)
  unfolding has_prefix keyset_call
  path_call path secret =
      if has_prefix gcm path || has_prefix siv path then keyset_call path secret else ok []

  module _ (v : Vault) where
    -- A secret that cannot be read, or has no data, is passed over; a nil secret is a nil pointer.
    abbrev pub secret_call : Bytes → Option KvSecret → Exec (v.Server) (List Call)
    unfolding path_call
    secret_call path none = crash
    secret_call path (some none) = pure []
    secret_call path (some (some secret)) = lift (path_call path secret)

    unfoldable pub path_calls : v.Client → Conf → List Bytes → Exec (v.Server) (List Call)
    unfolding kv_get_secret secret_call
    path_calls client conf [] = pure []
    path_calls client conf (path ∷ paths) = do
      a ←
          attempt (kv_get_secret v client conf.engine conf.engine_version path) (secret_call path)
            (λ e. pure [])
      more ← path_calls client conf paths
      pure (a ++ more)

    -- The configured paths, or all of the engine; a walk that fails has none.
    abbrev pub paths_of : v.Client → Conf → List Bytes → Exec (v.Server) (List Bytes)
    unfolding kv_get_secret_paths
    paths_of client conf [] =
        logged [] (kv_get_secret_paths v client conf.engine conf.engine_version [])
    paths_of client conf (key ∷ keys) = pure (key ∷ keys)

    module _ (c : Cloud) where
      abbrev pub on_server : {A : Type 0} → Exec (v.Server) A → Exec (v.Server × c.State) A
      on_server m (server, st) = ((m server).0, ((m server).1, st))

      abbrev pub on_cloud : {A : Type 0} → Exec (c.State) A → Exec (v.Server × c.State) A
      on_cloud m (server, st) = ((m st).0, (server, (m st).1))

      -- With no client, or no list of datasets, the command ends.
      unfoldable pub read_kv_to_bq : Runtime c → Conf → Exec (v.Server × c.State) (Unit {0})
      unfolding kv_get_client paths_of get_bq_datasets path_calls run_calls env_map
      read_kv_to_bq run conf =
          attempt (on_server (kv_get_client v conf.vault_url [] conf.approle_id conf.secret_id))
            (λ client. do
              paths ← on_server (paths_of client conf conf.kv_keys)
              attempt (on_cloud (get_bq_datasets c conf.project_id))
                  (λ datasets. do
                    calls ← on_server (path_calls client conf paths)
                    on_cloud (run_calls c lib run (env_map conf) datasets calls))
                  (λ e. pure tt))
            (λ e. pure tt)
