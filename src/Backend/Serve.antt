-- ===== src/Backend/Serve.antt =====
-- How a request reaches its handler: the framework takes the first path whose pattern is the path of
-- the request, and the callback of its operation.
use vault_plugin_aead.Prelude.{
  ℕ, Bytes, codes, true, false, List, [], ◌∷◌, Option, none, some, same, if◌then◌else◌,
}
use vault_plugin_aead.Exec.{Exec, pure, raise, ◌>>=◌, ◌>>◌}
use vault_plugin_aead.GoMap.{GoMap}
use vault_plugin_aead.Value.{Value}
use vault_plugin_aead.Tink.{Tink}
use vault_plugin_aead.Vault.{Vault, Library}
use vault_plugin_aead.Kv.Sink.{vault_sink}
use vault_plugin_aead.Kv.Sync.{Synced, path_read_kv, path_sync_kv, path_sync_transit_kv}
use vault_plugin_aead.Config.{Storage, World}
use vault_plugin_aead.Config.Write.{
  path_config_read, path_config_write, path_config_overwrite, path_config_delete,
  path_read_key_types, path_import_key,
}
use vault_plugin_aead.Config.Manage.{
  path_key_rotate, create_deterministic_keys_overwrite_check,
  create_non_deterministic_keys_overwrite_check,
}
use vault_plugin_aead.Config.Update.{
  path_update_key_status, path_update_key_material, path_update_key_id, path_update_primary_key_id,
}
use vault_plugin_aead.Aead.{Env}
use vault_plugin_aead.Aead.Handlers.{
  path_aead_encrypt, path_aead_decrypt, path_aead_encrypt_bulk_col, path_aead_decrypt_bulk_col,
}
use vault_plugin_aead.Bq.Cloud.{Cloud}
use vault_plugin_aead.Bq.Sync.{Runtime}
use vault_plugin_aead.Bq.Handler.{on_world, path_bq_key_sync}
use vault_plugin_aead.Backend.{
  Operation, Callback, PathOperation, EnginePath, paths, path_info_response,
}

unfoldable pub find_path : Bytes → List EnginePath → Option EnginePath
unfolding same
find_path path [] = none
find_path path (p ∷ ps) = if same p.pattern path then some p else find_path path ps

abbrev pub operation_of : Operation → EnginePath → Option PathOperation
operation_of Operation.read p = p.read_operation
operation_of Operation.update p = p.update_operation

-- A response without data, one with data, and one with the counts of pathSyncKV.
pub data Response : Type 0 where
  no_data : Response
  values : GoMap Value → Response
  counts : Synced → Response

-- What a request brings and the run of it draws: the data, the mount point, random seeds and bytes, and
-- the order of the goroutines.
pub record Call (c : Cloud) : Type 0 where
  pub raw : GoMap Value
  pub mount_point : Bytes
  pub version : Bytes
  pub env : Env
  pub seed : Bytes → ℕ
  pub random : Bytes → ℕ
  pub run : Runtime c
  pub reads : ℕ → ℕ

module _ (t : Tink) (lib : Library) (v : Vault) (c : Cloud) {s : Storage} where
  abbrev pub answer :
      Exec (World s (vault_sink t lib v)) (GoMap Value)
      → Exec (World s (vault_sink t lib v) × c.State) Response
  answer m = on_world c (m >>= λ r. pure (values r))

  abbrev pub no_answer :
      Exec (World s (vault_sink t lib v)) (Unit {0})
      → Exec (World s (vault_sink t lib v) × c.State) Response
  no_answer m = on_world c (m >> pure no_data)

  unfoldable pub serve : Callback → Call c → Exec (World s (vault_sink t lib v) × c.State) Response
  serve Callback.path_info q = pure (values (path_info_response q.version))
  serve Callback.path_config_read q = answer (path_config_read t q.mount_point)
  serve Callback.path_config_write q = no_answer (path_config_write t q.raw)
  serve Callback.path_config_overwrite q = no_answer (path_config_overwrite t q.raw)
  serve Callback.path_config_delete q = no_answer (path_config_delete q.raw)
  serve Callback.path_aead_encrypt q = answer (path_aead_encrypt t q.env q.raw)
  serve Callback.path_aead_decrypt q = answer (path_aead_decrypt t q.env q.raw)
  serve Callback.path_key_rotate q = no_answer (path_key_rotate t q.seed)
  serve Callback.path_aead_create_non_deterministic_keys q =
      answer (create_non_deterministic_keys_overwrite_check t q.seed q.random false q.raw)
  serve Callback.path_aead_create_non_deterministic_keys_overwrite q =
      answer (create_non_deterministic_keys_overwrite_check t q.seed q.random true q.raw)
  serve Callback.path_aead_create_deterministic_keys q =
      answer (create_deterministic_keys_overwrite_check t q.seed false q.raw)
  serve Callback.path_aead_create_deterministic_keys_overwrite q =
      answer (create_deterministic_keys_overwrite_check t q.seed true q.raw)
  serve Callback.path_read_key_types q = answer (path_read_key_types t)
  serve Callback.path_bq_key_sync q = path_bq_key_sync c t lib q.run q.reads q.raw >> pure no_data
  serve Callback.path_aead_encrypt_bulk_col q = answer (path_aead_encrypt_bulk_col t q.env q.raw)
  serve Callback.path_aead_decrypt_bulk_col q = answer (path_aead_decrypt_bulk_col t q.env q.raw)
  serve Callback.path_update_key_status q = answer (path_update_key_status t q.raw)
  serve Callback.path_update_key_material q = answer (path_update_key_material t q.raw)
  serve Callback.path_update_key_id q = answer (path_update_key_id t q.raw)
  serve Callback.path_update_primary_key_id q = answer (path_update_primary_key_id t q.raw)
  serve Callback.path_import_key q = answer (path_import_key t q.raw)
  serve Callback.path_read_kv q = answer (path_read_kv t lib v)
  serve Callback.path_sync_kv q = on_world c (path_sync_kv t lib v >>= λ r. pure (counts r))
  serve Callback.path_sync_transit_kv q = answer (path_sync_transit_kv t lib v q.raw)

  abbrev pub serve_operation :
      Option PathOperation → Call c → Exec (World s (vault_sink t lib v) × c.State) Response
  unfolding serve
  serve_operation none q = raise (codes "unsupported operation")
  serve_operation (some o) q = serve o.callback q

  abbrev pub serve_path :
      Operation
      → Option EnginePath
      → Call c
      → Exec (World s (vault_sink t lib v) × c.State) Response
  serve_path operation none q = raise (codes "unsupported path")
  serve_path operation (some p) q = serve_operation (operation_of operation p) q

  unfoldable pub handle_request :
      Operation → Bytes → Call c → Exec (World s (vault_sink t lib v) × c.State) Response
  unfolding find_path serve
  handle_request operation path q = serve_path operation (find_path path paths) q
