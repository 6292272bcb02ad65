-- ===== src/Lookup.antt =====
-- GetEncryptionKey of aeadutils/aeadutils.go: a field's config value is a keyset, or the name of
-- another field (a key family).
pub mod Chain
pub mod Cycles
pub mod Multiple
use vault_plugin_aead.Prelude.{
  ℕ, zero, suc, Bytes, Bool, true, false, List, [], ◌∷◌, ◌++◌, Option, none, some, Outcome, ok, err,
  panic, ◌>>=◌, if◌then◌else◌,
}
use vault_plugin_aead.GoMap.{GoMap, get}
use vault_plugin_aead.Value.{Value, str, as_str}
use vault_plugin_aead.Tink.{Tink}
use vault_plugin_aead.Keys.{validate_key_set_json}

-- AEAD_CONFIG, the process-wide cache of the config.
abbrev pub Config : Type 0
Config = GoMap Value

-- The default of `setDepth`.
abbrev pub max_depth : ℕ
max_depth = 5

module _ (t : Tink) (config : Config) where
  -- The argument counts the levels that are left, maxDepth - currDepth. A config value that is no
  -- string fails the type assertion.
  unfoldable pub keywalk : ℕ → Bytes → Outcome (Option Value)
  unfolding get validate_key_set_json
  keywalk zero name = ok none
  keywalk (suc depth) name = elim (get name config) [
    | none ↦ ok none
    | some value ↦ elim (as_str value) [
      | none ↦ panic
      | some s ↦ elim (validate_key_set_json t s) [
        | ok kh ↦ ok (some value)
        | err e ↦ keywalk depth s
        | panic ↦ panic
      ]
    ]
  ]

  unfoldable pub get_encryption_key : Bytes → Outcome (Option Value)
  unfolding keywalk
  get_encryption_key name = keywalk max_depth name

  -- The walk of getEncryptionKeyMultiple, with its test as it is written there: the value is taken
  -- where it is NOT a keyset.
  unfoldable pub keywalk_multiple : ℕ → Bytes → Outcome (List Value)
  unfolding get validate_key_set_json
  keywalk_multiple zero name = ok []
  keywalk_multiple (suc depth) name = elim (get name config) [
    | none ↦ ok []
    | some value ↦ elim (as_str value) [
      | none ↦ panic
      | some s ↦ elim (validate_key_set_json t s) [
        | ok kh ↦ keywalk_multiple depth s
        | err e ↦ ok (value ∷ [])
        | panic ↦ panic
      ]
    ]
  ]

  abbrev first : List Value → Option Value
  first [] = none
  first (v ∷ vs) = some v

  unfoldable pub get_encryption_key_multiple : Bytes → Outcome (Option Value)
  unfolding keywalk_multiple
  get_encryption_key_multiple name = do found ← keywalk_multiple max_depth name; ok (first found)
