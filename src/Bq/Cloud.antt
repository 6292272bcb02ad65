-- ===== src/Bq/Cloud.antt =====
-- The clients of BigQuery and Cloud KMS that bqutils/bqutils.go uses, and the binary form of a keyset,
-- as a record of functions. A call takes the state of the cloud and may change it.
use vault_plugin_aead.Prelude.{Bytes, List, Outcome}
use vault_plugin_aead.Exec.{Exec}

pub data Argument : Type 0 where
  string_argument bytes_argument : Bytes → Argument

-- bigquery.RoutineMetadata, of a scalar function in SQL.
pub record RoutineMetadata : Type 0 where
  pub body : Bytes
  pub arguments : List Argument

pub record Cloud : Type 1 where
  pub State : Type 0
  pub Dataset : Type 0
  -- bigquery.NewClient of a project, and what the calls of Next on its datasets return until
  -- iterator.Done: an id and the dataset, or an error
  pub datasets : Bytes → Exec State (List (Outcome (Bytes × Dataset)))
  -- kms.NewKeyManagementClient
  pub new_kms_client : Exec State (Unit {0})
  -- GetCryptoKey and Encrypt of the key with a name
  pub get_crypto_key : Bytes → Exec State (Unit {0})
  pub encrypt : Bytes → Bytes → Exec State Bytes
  -- dataset.Metadata: the location
  pub location : Dataset → Exec State Bytes
  -- Routine(id).Metadata, whose result is the ETag, Create and Update
  pub metadata : Dataset → Bytes → Exec State Bytes
  pub create : Dataset → Bytes → RoutineMetadata → Exec State (Unit {0})
  pub update : Dataset → Bytes → RoutineMetadata → Bytes → Exec State (Unit {0})
