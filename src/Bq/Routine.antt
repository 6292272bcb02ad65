-- ===== src/Bq/Routine.antt =====
-- bqutils/bqutils.go: doBQRoutineCreateOrUpdate.
use vault_plugin_aead.Prelude.{Bytes, codes, Bool, [], ◌∷◌, Option, none, some}
use vault_plugin_aead.Exec.{Exec, pure, ◌>>=◌}
use vault_plugin_aead.Vault.{attempt}
use vault_plugin_aead.Kv.Sink.{logged}
use vault_plugin_aead.Bq.{Options, Kind, encrypt, decrypt, routine_body}
use vault_plugin_aead.Bq.Cloud.{Cloud, RoutineMetadata, string_argument, bytes_argument}

-- A ciphertext is bytes, a plaintext a string.
unfoldable pub routine_metadata : Kind → Bytes → RoutineMetadata
routine_metadata encrypt body = record {
  body = body;
  arguments = string_argument (codes "plaintext") ∷ string_argument (codes "aad") ∷ [];
}
routine_metadata decrypt body = record {
  body = body;
  arguments = bytes_argument (codes "ciphertext") ∷ string_argument (codes "aad") ∷ [];
}

abbrev pub routine_of : Kind → Options → Bytes
routine_of encrypt o = o.encrypt_routine_id
routine_of decrypt o = o.decrypt_routine_id

module _ (c : Cloud) where
  -- The ETag of a routine that is there.
  abbrev pub exists : c.Dataset → Bytes → Exec (c.State) (Option Bytes)
  exists dataset id = attempt (c.metadata dataset id) (λ etag. pure (some etag)) (λ e. pure none)

  -- The metadata of an encrypt routine are asked for twice.
  abbrev pub find_routine : Kind → c.Dataset → Bytes → Exec (c.State) (Option Bytes)
  find_routine encrypt dataset id =
      attempt (c.metadata dataset id) (λ etag. pure (some etag)) (λ e. exists dataset id)
  find_routine decrypt dataset id = exists dataset id

  abbrev pub put_routine :
      c.Dataset → Bytes → RoutineMetadata → Option Bytes → Exec (c.State) (Unit {0})
  put_routine dataset id m none = logged tt (c.create dataset id m)
  put_routine dataset id m (some etag) = logged tt (c.update dataset id m etag)

  unfoldable pub do_bq_routine_create_or_update :
      Options → Bytes → Bool → Kind → c.Dataset → Exec (c.State) (Unit {0})
  unfolding routine_body routine_metadata
  do_bq_routine_create_or_update o escaped deterministic kind dataset = do
    found ← find_routine kind dataset (routine_of kind o)
    put_routine dataset (routine_of kind o)
        (routine_metadata kind (routine_body kind deterministic o.kms_key_name escaped)) found
