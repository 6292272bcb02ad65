-- ===== src/Kv.antt =====
-- The options of the KV engine, as resolveKvOptions of path_kv.go reads them from the config, and
-- KVOptions of kvutils/kvutils.go.
pub mod Secret
pub mod Sink
pub mod Sync
pub mod Restore
use vault_plugin_aead.Prelude.{Bytes, codes, [], none, some}
use vault_plugin_aead.GoMap.{get}
use vault_plugin_aead.Value.Printing.{sprintf_v}
use vault_plugin_aead.Lookup.{Config}

pub record KvOptions : Type 0 where
  pub vault_kv_url : Bytes
  pub vault_kv_active : Bytes
  pub vault_kv_approle_id : Bytes
  pub vault_kv_secret_id : Bytes
  pub vault_kv_engine : Bytes
  pub vault_kv_version : Bytes
  pub vault_transit_active : Bytes
  pub vault_transit_url : Bytes
  pub vault_transit_approle_id : Bytes
  pub vault_transit_secret_id : Bytes
  pub vault_transit_kv_engine : Bytes
  pub vault_transit_kv_version : Bytes
  pub vault_transit_namespace : Bytes
  pub vault_transit_engine : Bytes
  pub vault_transit_kek : Bytes
  pub vault_kv_writer_role : Bytes
  pub vault_secretgenerator_iam_role : Bytes

-- A config value as %v prints it, or a default.
unfoldable pub kv_setting : Config → Bytes → Bytes → Bytes
unfolding get sprintf_v
kv_setting config key default = elim (get key config) [ none ↦ default | some v ↦ sprintf_v v ]

unfoldable pub resolve_kv_options : Config → KvOptions
unfolding kv_setting
resolve_kv_options config = record {
  vault_kv_url = kv_setting config (codes "VAULT_KV_URL") [];
  vault_kv_active = kv_setting config (codes "VAULT_KV_ACTIVE") (codes "false");
  vault_kv_approle_id = kv_setting config (codes "VAULT_KV_APPROLE_ID") [];
  vault_kv_secret_id = kv_setting config (codes "VAULT_KV_SECRET_ID") [];
  vault_kv_engine = kv_setting config (codes "VAULT_KV_ENGINE") (codes "secret");
  vault_kv_version = kv_setting config (codes "VAULT_KV_VERSION") (codes "v2");
  vault_transit_active = kv_setting config (codes "VAULT_TRANSIT_ACTIVE") (codes "false");
  vault_transit_url = kv_setting config (codes "VAULT_TRANSIT_URL") [];
  vault_transit_approle_id = kv_setting config (codes "VAULT_TRANSIT_APPROLE_ID") [];
  vault_transit_secret_id = kv_setting config (codes "VAULT_TRANSIT_SECRET_ID") [];
  vault_transit_kv_engine = kv_setting config (codes "VAULT_TRANSIT_KV_ENGINE") [];
  vault_transit_kv_version = kv_setting config (codes "VAULT_TRANSIT_KV_VERSION") [];
  vault_transit_namespace = kv_setting config (codes "VAULT_TRANSIT_NAMESPACE") [];
  vault_transit_engine = kv_setting config (codes "VAULT_TRANSIT_ENGINE") [];
  vault_transit_kek = kv_setting config (codes "VAULT_TRANSIT_KEK") [];
  vault_kv_writer_role = kv_setting config (codes "VAULT_KV_WRITER_ROLE") [];
  vault_secretgenerator_iam_role = kv_setting config (codes "VAULT_KV_SECRETGENERATOR_IAM_ROLE") [];
}
