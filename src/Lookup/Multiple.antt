-- ===== src/Lookup/Multiple.antt =====
-- getEncryptionKeyMultiple has the test of GetEncryptionKey the wrong way round.
use vault_plugin_aead.Prelude.{Bytes, none, some, ok, ◌≡◌, arith}
use vault_plugin_aead.GoMap.{get}
use vault_plugin_aead.Value.{str}
use vault_plugin_aead.Tink.{Tink}
use vault_plugin_aead.Lookup.{Config, get_encryption_key, get_encryption_key_multiple}
use vault_plugin_aead.Lookup.Chain.{IsKeyset, IsName}

-- For a field that holds a keyset which names no other field, GetEncryptionKey returns the keyset
-- and getEncryptionKeyMultiple returns nothing; for a field that holds the name of a missing field,
-- getEncryptionKeyMultiple returns that name as the key and GetEncryptionKey returns nothing.
pub multiple_inverted :
    (t : Tink) (config : Config) (name s : Bytes)
    → get name config ≡ some (str s)
    → get s config ≡ none
    → (IsKeyset t s
        → (get_encryption_key t config name ≡ ok (some (str s)))
          × (get_encryption_key_multiple t config name ≡ ok none))
      × (IsName t s
          → (get_encryption_key t config name ≡ ok none)
            × (get_encryption_key_multiple t config name ≡ ok (some (str s))))
unfolding get_encryption_key get_encryption_key_multiple
multiple_inverted t config name s e f =
    (λ (kh, k). (ground arith, ground arith), λ (m, k). (ground arith, ground arith))
