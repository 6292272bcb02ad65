-- ===== src/Bq/SameKey.antt =====
-- The KMS key of the two routines of a region.
use vault_plugin_aead.Prelude.{Bytes, ok, ◌≡◌}
use vault_plugin_aead.GoMap.{GoMap}
use vault_plugin_aead.Vault.{Library}
use vault_plugin_aead.Bq.{Kind, encrypt}
use vault_plugin_aead.Bq.Cloud.{Cloud}
use vault_plugin_aead.Bq.Sync.{Job}

module _ (c : Cloud) (lib : Library) (binary_keyset : Bytes) where
  -- Cloud KMS has a key with the name, and encrypts the keyset with it, whenever it is asked.
  pub record HasKey (kms : Bytes) : Type 0 where
    pub finds : (st : c.State) → (c.get_crypto_key kms st).0 ≡ ok tt
    pub wraps :
        (st : c.State) → (ciphertext : Bytes) × ((c.encrypt kms binary_keyset st).0 ≡ ok ciphertext)

  -- BigQuery tells the location of a dataset whenever it is asked.
  abbrev pub IsAt : c.Dataset → Bytes → Type 0
  IsAt d location = (st : c.State) → (c.location d st).0 ≡ ok location

  -- What a routine is made of, of the three that differ between the routines of a region.
  abbrev pub made_with : Job c → Kind × c.Dataset × Bytes
  made_with j = (j.kind, j.dataset, j.options.kms_key_name)
