-- ===== src/Backend/Unreadable.antt =====
-- Requests while the stored config cannot be read.
use vault_plugin_aead.Prelude.{
  Bytes, codes, Bool, true, false, none, some, Option-cases, Outcome-cases, Bool-cases, inl, inr,
  same, ◌≡◌, refl,
}
use vault_plugin_aead.Exec.{Exec, pure, lift}
use vault_plugin_aead.GoMap.{GoMap}
use vault_plugin_aead.Value.{Value}
use vault_plugin_aead.Tink.{Tink}
use vault_plugin_aead.Vault.{Vault, Library}
use vault_plugin_aead.Kv.{resolve_kv_options}
use vault_plugin_aead.Vault.Client.{or_empty}
use vault_plugin_aead.Kv.Sink.{vault_sink}
use vault_plugin_aead.Kv.Sync.{read_kv, path_read_kv, path_sync_kv, path_sync_transit_kv}
use vault_plugin_aead.Config.{Storage, KvSink, World, get_aead_config}
use vault_plugin_aead.Config.Write.{
  check_keys, config_write_overwrite_check, path_config_read, path_config_write,
  path_config_overwrite, path_config_delete, path_read_key_types, path_import_key,
}
use vault_plugin_aead.Config.Manage.{
  path_key_rotate, create_deterministic_keys_overwrite_check,
  create_non_deterministic_keys_overwrite_check,
}
use vault_plugin_aead.Config.Update.{
  path_update_key_status, path_update_key_material, path_update_key_id, path_update_primary_key_id,
}
use vault_plugin_aead.Aead.Handlers.{
  path_aead_encrypt, path_aead_decrypt, path_aead_encrypt_bulk_col, path_aead_decrypt_bulk_col,
}
use vault_plugin_aead.Bq.Cloud.{Cloud}
use vault_plugin_aead.Bq.Handler.{path_bq_key_sync}
use vault_plugin_aead.Backend.{Operation, Callback, paths}
use vault_plugin_aead.Backend.Serve.{
  find_path, no_data, no_answer, values, counts, Call, operation_of, answer, serve, handle_request,
}
use vault_plugin_aead.Backend.Quiet.{
  IsUnread, Quiet, bind-Quiet, lift-Quiet, refresh-Quiet, path_aead_encrypt-Quiet,
  path_aead_decrypt-Quiet, path_aead_encrypt_bulk_col-Quiet, path_aead_decrypt_bulk_col-Quiet,
}

module _ (t : Tink) {s : Storage} {k : KvSink} where
  check-Quiet :
      (overwrite kv : Bool) (raw : GoMap Value)
      → Quiet (config_write_overwrite_check t {s = s} {k = k} overwrite kv raw)
  unfolding config_write_overwrite_check
  check-Quiet overwrite kv raw = refresh-Quiet _

  path_import_key-Quiet : (raw : GoMap Value) → Quiet (path_import_key t {s = s} {k = k} raw)
  unfolding path_import_key
  path_import_key-Quiet raw =
      bind-Quiet (lift (check_keys t raw)) _ (lift-Quiet (check_keys t raw)) (λ _.
        bind-Quiet (config_write_overwrite_check t true true raw) _ (check-Quiet true true raw)
          (λ _ w u. refl))

module _ (t : Tink) (lib : Library) (v : Vault) {s : Storage} where
  -- The handlers of path_kv.go write nothing, but for the config write of pathSyncKV.
  path_read_kv-Quiet : Quiet (path_read_kv t lib v {s = s})
  unfolding path_read_kv
  path_read_kv-Quiet w u =
      let o = resolve_kv_options w.cache in
      elim (Bool-cases (same o.vault_kv_active (codes "true"))) [
        | inr off ↦ rw off refl
        | inl active ↦ elim (Outcome-cases (read_kv t lib v o none w.kv).0) [
          | inl (m, e) ↦ rw active (rw e refl)
          | inr (inl (x, e)) ↦ rw active (rw e refl)
          | inr (inr e) ↦ rw active (rw e refl)
        ]
      ]

  path_sync_transit_kv-Quiet :
      (raw : GoMap Value) → Quiet (path_sync_transit_kv t lib v {s = s} raw)
  unfolding path_sync_transit_kv
  path_sync_transit_kv-Quiet raw w u =
      elim (Bool-cases (same (resolve_kv_options w.cache).vault_kv_active (codes "true"))) [
        | inr off ↦ rw off refl
        | inl active ↦ rw active refl
      ]

  path_sync_kv-Quiet : Quiet (path_sync_kv t lib v {s = s})
  unfolding path_sync_kv
  path_sync_kv-Quiet w u =
      let o = resolve_kv_options w.cache in
      elim (Bool-cases (same o.vault_kv_active (codes "true"))) [
        | inr off ↦ rw off refl
        | inl active ↦ elim (Outcome-cases (read_kv t lib v o (some false) w.kv).0) [
          | inl (m, e) ↦ rw active (
              rw e (
                bind-Quiet (config_write_overwrite_check t true false (or_empty m)) _
                  (check-Quiet t true false (or_empty m)) (λ _ w1 u1. refl)
                  (record w { kv = (read_kv t lib v o (some false) w.kv).1 }) u))
          | inr (inl (x, e)) ↦ rw active (rw e refl)
          | inr (inr e) ↦ rw active (rw e refl)
        ]
      ]

module _ (t : Tink) (lib : Library) (v : Vault) (c : Cloud) {s : Storage} where
  answer-Quiet :
      (m : Exec (World s (vault_sink t lib v)) (GoMap Value))
      → Quiet m
      → (w : World s (vault_sink t lib v)) (st : c.State) → IsUnread w
      → (answer t lib v c m (w, st)).1.0.storage ≡ w.storage
  answer-Quiet m quiet w st u = bind-Quiet m (λ r. pure (values r)) quiet (λ r w1 u1. refl) w u

  no_answer-Quiet :
      (m : Exec (World s (vault_sink t lib v)) (Unit {0}))
      → Quiet m
      → (w : World s (vault_sink t lib v)) (st : c.State) → IsUnread w
      → (no_answer t lib v c m (w, st)).1.0.storage ≡ w.storage
  no_answer-Quiet m quiet w st u = bind-Quiet m (λ r. pure no_data) quiet (λ r w1 u1. refl) w u

  serve-Quiet :
      (callback : Callback) (q : Call c) (w : World s (vault_sink t lib v)) (st : c.State)
      → IsUnread w
      → (serve t lib v c callback q (w, st)).1.0.storage ≡ w.storage
  unfolding serve path_config_read path_config_write path_config_overwrite path_config_delete
      path_key_rotate create_deterministic_keys_overwrite_check
      create_non_deterministic_keys_overwrite_check path_read_key_types path_bq_key_sync
      path_update_key_status path_update_key_material path_update_key_id path_update_primary_key_id
      get_aead_config
  serve-Quiet Callback.path_info q w st u = refl
  serve-Quiet Callback.path_config_read q w st u =
      answer-Quiet (path_config_read t q.mount_point) (refresh-Quiet _) w st u
  serve-Quiet Callback.path_config_write q w st u =
      no_answer-Quiet (path_config_write t q.raw) (check-Quiet t false true q.raw) w st u
  serve-Quiet Callback.path_config_overwrite q w st u =
      no_answer-Quiet (path_config_overwrite t q.raw) (check-Quiet t true true q.raw) w st u
  serve-Quiet Callback.path_config_delete q w st u =
      no_answer-Quiet (path_config_delete q.raw) (refresh-Quiet _) w st u
  serve-Quiet Callback.path_aead_encrypt q w st u =
      answer-Quiet (path_aead_encrypt t q.env q.raw) (path_aead_encrypt-Quiet t q.env q.raw) w st u
  serve-Quiet Callback.path_aead_decrypt q w st u =
      answer-Quiet (path_aead_decrypt t q.env q.raw) (path_aead_decrypt-Quiet t q.env q.raw) w st u
  serve-Quiet Callback.path_key_rotate q w st u =
      no_answer-Quiet (path_key_rotate t q.seed) (refresh-Quiet _) w st u
  serve-Quiet Callback.path_aead_create_non_deterministic_keys q w st u =
      answer-Quiet (create_non_deterministic_keys_overwrite_check t q.seed q.random false q.raw)
        (refresh-Quiet _) w st u
  serve-Quiet Callback.path_aead_create_non_deterministic_keys_overwrite q w st u =
      answer-Quiet (create_non_deterministic_keys_overwrite_check t q.seed q.random true q.raw)
        (refresh-Quiet _) w st u
  serve-Quiet Callback.path_aead_create_deterministic_keys q w st u =
      answer-Quiet (create_deterministic_keys_overwrite_check t q.seed false q.raw)
        (refresh-Quiet _) w st u
  serve-Quiet Callback.path_aead_create_deterministic_keys_overwrite q w st u =
      answer-Quiet (create_deterministic_keys_overwrite_check t q.seed true q.raw) (refresh-Quiet _)
        w st u
  serve-Quiet Callback.path_read_key_types q w st u =
      answer-Quiet (path_read_key_types t) (refresh-Quiet _) w st u
  serve-Quiet Callback.path_bq_key_sync q w st (e, h) = rw h refl
  serve-Quiet Callback.path_aead_encrypt_bulk_col q w st u =
      answer-Quiet (path_aead_encrypt_bulk_col t q.env q.raw)
        (path_aead_encrypt_bulk_col-Quiet t q.env q.raw) w st u
  serve-Quiet Callback.path_aead_decrypt_bulk_col q w st u =
      answer-Quiet (path_aead_decrypt_bulk_col t q.env q.raw)
        (path_aead_decrypt_bulk_col-Quiet t q.env q.raw) w st u
  serve-Quiet Callback.path_update_key_status q w st u =
      answer-Quiet (path_update_key_status t q.raw) (refresh-Quiet _) w st u
  serve-Quiet Callback.path_update_key_material q w st u =
      answer-Quiet (path_update_key_material t q.raw) (refresh-Quiet _) w st u
  serve-Quiet Callback.path_update_key_id q w st u =
      answer-Quiet (path_update_key_id t q.raw) (refresh-Quiet _) w st u
  serve-Quiet Callback.path_update_primary_key_id q w st u =
      answer-Quiet (path_update_primary_key_id t q.raw) (refresh-Quiet _) w st u
  serve-Quiet Callback.path_import_key q w st u =
      answer-Quiet (path_import_key t q.raw) (path_import_key-Quiet t q.raw) w st u
  serve-Quiet Callback.path_read_kv q w st u =
      answer-Quiet (path_read_kv t lib v) (path_read_kv-Quiet t lib v) w st u
  serve-Quiet Callback.path_sync_kv q w st u =
      bind-Quiet (path_sync_kv t lib v) (λ r. pure (counts r)) (path_sync_kv-Quiet t lib v)
        (λ r w1 u1. refl) w u
  serve-Quiet Callback.path_sync_transit_kv q w st u =
      answer-Quiet (path_sync_transit_kv t lib v q.raw) (path_sync_transit_kv-Quiet t lib v q.raw) w
        st u

-- While the stored config cannot be read, no request changes it, whatever its path, its operation and
-- its data are, and whatever it ends in.
pub handle_request_unreadable :
    (t : Tink) (lib : Library) (v : Vault) (c : Cloud) {s : Storage} (operation : Operation)
    (path : Bytes) (q : Call c) (w : World s (vault_sink t lib v)) (st : c.State)
    → IsUnread w
    → (handle_request t lib v c operation path q (w, st)).1.0.storage ≡ w.storage
unfolding handle_request
handle_request_unreadable t lib v c operation path q w st u =
    elim (Option-cases (find_path path paths)) [
      | inl e ↦ rw e refl
      | inr (p, e) ↦ elim (Option-cases (operation_of operation p)) [
        | inl none_there ↦ rw e (rw none_there refl)
        | inr (o, f) ↦ rw e (rw f (serve-Quiet t lib v c o.callback q w st u))
      ]
    ]
