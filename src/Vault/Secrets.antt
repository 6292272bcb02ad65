-- ===== src/Vault/Secrets.antt =====
-- kvutils/kvutils.go: KvPutSecret, KvGetSecret, KvDeleteSecret and KvPatchSecret, which choose between
-- the two versions of the KV engine.
use vault_plugin_aead.Prelude.{Bytes, codes, [], ◌∷◌, ◌++◌, Option, none, same, if◌then◌else◌}
use vault_plugin_aead.Exec.{Exec, pure, raise, ◌>>◌}
use vault_plugin_aead.GoMap.{GoMap}
use vault_plugin_aead.Value.{Value, str}
use vault_plugin_aead.Vault.{Vault, KvSecret, or_error}

abbrev pub bad_version : Bytes
bad_version = codes "kv_version must be v1 or v2"

abbrev pub not_obtained : Bytes → Bytes
not_obtained e = codes "failed to obtain Vault secret: " ++ e

module _ (v : Vault) where
  unfoldable pub kv_put_secret :
      v.Client → Bytes → Bytes → Bytes → GoMap Value → Exec (v.Server) (Option KvSecret)
  unfolding same
  kv_put_secret client engine version path m =
      if same version (codes "v1")
      then v.v1_put client engine path m >> pure none
      else if same version (codes "v2")
      then v.v2_put client engine path m
      else raise bad_version

  unfoldable pub kv_get_secret :
      v.Client → Bytes → Bytes → Bytes → Exec (v.Server) (Option KvSecret)
  unfolding same
  kv_get_secret client engine version path =
      if same version (codes "v1")
      then or_error (v.v1_get client engine path) not_obtained
      else if same version (codes "v2")
      then or_error (v.v2_get client engine path) not_obtained
      else raise bad_version

  unfoldable pub kv_delete_secret : v.Client → Bytes → Bytes → Bytes → Exec (v.Server) (Unit {0})
  unfolding same
  kv_delete_secret client engine version path =
      if same version (codes "v1")
      then v.v1_delete client engine path
      else if same version (codes "v2")
      then v.v2_delete client engine path
      else raise bad_version

  unfoldable pub kv_patch_secret : v.Client → Bytes → Bytes → Exec (v.Server) (Option KvSecret)
  unfolding same
  kv_patch_secret client engine version =
      let dmp = (codes "foo", str (codes "bar")) ∷ [] in
      if same version (codes "v1")
      then v.v1_put client engine (codes "tmp") dmp >> pure none
      else if same version (codes "v2")
      then v.v2_patch client engine (codes "tmp") dmp
      else raise bad_version
