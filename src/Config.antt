-- ===== src/Config.antt =====
-- The state of the plugin and the config cache of path_config.go: AEAD_CONFIG, the storage of the
-- secrets engine behind it, and the KV engine beside it.
pub mod Refresh
pub mod Settled
pub mod Write
pub mod Overlay
pub mod Writes
pub mod Manage
pub mod Update
pub mod Updating
pub mod Reading
pub mod Saving
pub mod Creating
pub mod Rotating
use vault_plugin_aead.Prelude.{
  ℕ, Bytes, codes, Bool, true, false, List, [], ◌∷◌, ◌++◌, Option, none, some, Outcome, ok, err,
  panic, ◌≡◌, if◌then◌else◌,
}
use vault_plugin_aead.Exec.{Exec}
use vault_plugin_aead.GoMap.{GoMap, get, has, set_all}
use vault_plugin_aead.GoMap.Order.{IsMap}
use vault_plugin_aead.Value.{Value}
use vault_plugin_aead.Value.Printing.{sprintf_s}
use vault_plugin_aead.Lookup.{Config}
use vault_plugin_aead.Kv.{KvOptions}

-- logical.Storage at its entry "config", which holds the config as JSON. An error covers a failed
-- read and an entry that does not decode; an absent entry is `none`.
pub record Storage : Type 1 where
  pub State : Type 0
  pub read_entry : State → Outcome (Option Config)
  pub put_entry : State → Config → Outcome State

-- The documented behaviour of the storage: a stored config has each key once, and what was put is
-- what is read, key by key.
pub record IsStorage (s : Storage) : Type 0 where
  pub unique : (st : s.State) (c : Config) → s.read_entry st ≡ ok (some c) → IsMap c
  pub read_put :
      (st st' : s.State) (c : Config)
      → s.put_entry st c ≡ ok st'
      → (c' : Config) × (s.read_entry st' ≡ ok (some c'))
        × ((name : Bytes) → get name c' ≡ get name c)

-- What saveToKV does for a keyset once it has the options: the client of the KV engine, the secret
-- that it puts and checks, and the transit copy, from the state of the engines, a name and a value.
pub record KvSink : Type 1 where
  pub Kv : Type 0
  pub save : Kv → KvOptions → Bytes → Value → Outcome (Unit {0}) × Kv

-- The telemetry message of publishTelemetry, less its id, its date and its size.
pub record Message : Type 0 where
  pub project : Bytes
  pub topic : Bytes
  pub market : Bytes
  pub operation : Bytes
  pub req_rows : ℕ
  pub req_fields : ℕ

pub record World (s : Storage) (k : KvSink) : Type 0 where
  pub cache : Config
  pub storage : s.State
  pub kv : k.Kv
  pub published : List Message

-- for k := range AEAD_CONFIG.Items() { if it is not in consulConfig { AEAD_CONFIG.Remove(k) } }
unfoldable pub prune : Config → Config → Config
unfolding has
prune consul [] = []
prune consul ((k, v) ∷ m) =
    let rest = prune consul m in if has k consul then (k, v) ∷ rest else rest

-- The cache after the stored config is copied into it and what is not stored is removed.
unfoldable pub refresh : Config → Config → Config
unfolding prune set_all
refresh consul cache = prune consul (set_all consul cache)

-- A missing entry reads as a nil map, which has no keys.
abbrev pub stored : Option Config → Config
stored none = []
stored (some config) = config

module _ {s : Storage} {k : KvSink} where
  abbrev pub after_read : World s k → Outcome (Option Config) → Outcome (Unit {0}) × World s k
  after_read w (ok entry) = (ok tt, record w { cache = refresh (stored entry) w.cache })
  after_read w (err e) = (err e, w)
  after_read w panic = (panic, w)

  unfoldable pub get_aead_config : Exec (World s k) (Unit {0})
  unfolding refresh
  get_aead_config w = after_read w (s.read_entry w.storage)

-- getAdditionalData: the configured text, or the name of the field.
unfoldable pub get_additional_data : Config → Bytes → Bytes
unfolding get sprintf_s
get_additional_data config name = elim (get (codes "ADDITIONAL_DATA_" ++ name) config) [
  | none ↦ name
  | some aad ↦ sprintf_s aad
]
