-- ===== src/Tink.antt =====
-- What the plugin takes from outside: Google Tink (keyset handles and the two primitives) and the
-- reading and writing of keysets as JSON. A `nil` pointer is `none`, and so is a returned error.
-- What Tink draws from its random source is the number among the arguments.
use vault_plugin_aead.Prelude.{ℕ, Bytes, codes, Option, Outcome, List}
use vault_plugin_aead.KeySet.{KeySetStruct}

-- AES256GCMKeyTemplate and AESSIVKeyTemplate.
pub data Template : Type 0 where
  aes256_gcm aes_siv : Template

-- KeyInfo[i].TypeUrl of a key that a template makes.
abbrev pub template_type_url : Template → Bytes
template_type_url aes256_gcm = codes "type.googleapis.com/google.crypto.tink.AesGcmKey"
template_type_url aes_siv = codes "type.googleapis.com/google.crypto.tink.AesSivKey"

pub record Tink : Type 1 where
  pub Handle : Type 0
  pub Aead : Type 0
  pub Daead : Type 0
  -- insecurecleartextkeyset.Read of a JSON reader, and Write to a JSON writer
  pub read : Bytes → Option Handle
  pub write : Option Handle → Option Bytes
  -- Write to a binary writer, whose error is dropped: what the buffer then holds
  pub write_binary : Option Handle → Bytes
  -- the type URLs of kh.KeysetInfo().KeyInfo
  pub keyset_info : Option Handle → Outcome (List Bytes)
  -- keyset.NewHandle and Manager.Rotate
  pub new_handle : Template → ℕ → Option Handle
  pub rotate : Template → ℕ → Option Handle → Option Handle
  -- aead.New, daead.New
  pub aead_new : Option Handle → Option Aead
  pub daead_new : Option Handle → Option Daead
  pub encrypt : Aead → ℕ → Bytes → Bytes → Option Bytes
  pub decrypt : Aead → Bytes → Bytes → Option Bytes
  pub encrypt_deterministically : Daead → Bytes → Bytes → Option Bytes
  pub decrypt_deterministically : Daead → Bytes → Bytes → Option Bytes
  -- json.Unmarshal into a KeySetStruct, json.Marshal of one, and json.Unmarshal of the key values
  -- alone, as MuteKeyMaterial reads them
  pub unmarshal : Bytes → Option KeySetStruct
  pub marshal : KeySetStruct → Bytes
  pub unmarshal_values : Bytes → Option (List Bytes)
