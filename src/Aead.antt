-- ===== src/Aead.antt =====
-- path_aead.go: one field, one column cell, rows, columns, and the four handlers.
pub mod Field
pub mod Each
pub mod Row
pub mod Requests
pub mod Decryption
pub mod Inverse
pub mod Undone
pub mod Rows
pub mod RoundTrip
pub mod Tables
pub mod Columns
pub mod Agreement
pub mod Readable
pub mod Cells
pub mod Telemetry
pub mod Handlers
use mathlib.Core.List.{Permᴰ}
use vault_plugin_aead.Prelude.{
  ℕ, Bytes, codes, Bool, true, false, List, [], ◌∷◌, Option, none, some, Outcome, ok, err, panic,
  ◌>>=◌, if◌then◌else◌,
}
use vault_plugin_aead.Base64
use vault_plugin_aead.GoMap.{GoMap, set_all}
use vault_plugin_aead.Value.{Value, null, str, as_map}
use vault_plugin_aead.Value.Printing.{sprintf_v, sprintf_s}
use vault_plugin_aead.Tink.{Tink}
use vault_plugin_aead.Keys.{
  is_key_json_deterministic, create_insecure_handle_and_aead,
  create_insecure_handle_and_deterministic_aead,
}
use vault_plugin_aead.Lookup.{Config, get_encryption_key}
use vault_plugin_aead.Config.{get_additional_data}

-- What the run decides: the random bytes of each cell, and the order in which the goroutines of a
-- loop put their results on the channel. The path names the rows and columns that enclose a loop.
pub record Env : Type 0 where
  pub random : List Bytes → Bytes → ℕ
  pub deliver : List Bytes → GoMap Value → GoMap Value

-- The channel loses nothing and makes nothing up.
pub record IsFair (env : Env) : Type 0 where
  pub delivered : (path : List Bytes) (sent : GoMap Value) → Permᴰ sent (env.deliver path sent)

-- The loop that receives the results and writes them into the response.
unfoldable pub collect : Env → List Bytes → GoMap Value → GoMap Value
unfolding set_all
collect env path sent = set_all (env.deliver path sent) []

-- b64.StdEncoding.EncodeToString of a result; a failed call returns nil bytes.
abbrev pub encoded : Option Bytes → Value
encoded none = str (Base64.encode [])
encoded (some c) = str (Base64.encode c)

-- string(plainText), with nil bytes after a failed call
abbrev pub as_text : Option Bytes → Value
as_text none = str []
as_text (some p) = str p

-- The bytes that the decoder wrote; its error is dropped.
unfoldable pub decoded : Value → Bytes
unfolding Base64.decode sprintf_v
decoded v = (Base64.decode (sprintf_v v)).0

module _ (t : Tink) where
  -- The two branches of the encryption with a key: a nil primitive panics when it is used, the
  -- errors of Tink are logged.
  abbrev pub seal_deterministically : Option (t.Daead) → Bytes → Bytes → Outcome Value
  seal_deterministically none p aad = panic
  seal_deterministically (some d) p aad = ok (encoded (t.encrypt_deterministically d p aad))

  abbrev pub seal_randomly : Option (t.Aead) → ℕ → Bytes → Bytes → Outcome Value
  seal_randomly none random p aad = panic
  seal_randomly (some a) random p aad = ok (encoded (t.encrypt a random p aad))

  -- The key, as it is printed, and whether it is deterministic.
  unfoldable pub seal : Bytes × Bool → ℕ → Bytes → Bytes → Outcome Value
  unfolding create_insecure_handle_and_aead create_insecure_handle_and_deterministic_aead
  seal (json, true) random p aad =
      seal_deterministically (create_insecure_handle_and_deterministic_aead t json).1 p aad
  seal (json, false) random p aad =
      seal_randomly (create_insecure_handle_and_aead t json).1 random p aad

  abbrev pub unseal_deterministically : Option (t.Daead) → Bytes → Bytes → Outcome Value
  unseal_deterministically none c aad = panic
  unseal_deterministically (some d) c aad = ok (as_text (t.decrypt_deterministically d c aad))

  abbrev pub unseal_randomly : Option (t.Aead) → Bytes → Bytes → Outcome Value
  unseal_randomly none c aad = panic
  unseal_randomly (some a) c aad = ok (as_text (t.decrypt a c aad))

  unfoldable pub unseal : Bytes × Bool → Bytes → Bytes → Outcome Value
  unfolding create_insecure_handle_and_aead create_insecure_handle_and_deterministic_aead
  unseal (json, true) c aad =
      unseal_deterministically (create_insecure_handle_and_deterministic_aead t json).1 c aad
  unseal (json, false) c aad = unseal_randomly (create_insecure_handle_and_aead t json).1 c aad

  -- With no key the value is returned as it is printed.
  unfoldable pub encrypt_found : Option Value → Bytes → ℕ → Value → Outcome Value
  unfolding seal is_key_json_deterministic sprintf_v sprintf_s
  encrypt_found none aad random v = ok (str (sprintf_s v))
  encrypt_found (some key) aad random v =
      seal (is_key_json_deterministic key) random (sprintf_v v) aad

  unfoldable pub decrypt_found : Option Value → Bytes → Value → Outcome Value
  unfolding unseal is_key_json_deterministic decoded sprintf_s
  decrypt_found none aad v = ok (str (sprintf_s v))
  decrypt_found (some key) aad v = unseal (is_key_json_deterministic key) (decoded v) aad

  -- doEncryptionChan: what it sends for the field.
  unfoldable pub do_encryption : Config → ℕ → Bytes → Value → Outcome Value
  unfolding get_encryption_key get_additional_data encrypt_found
  do_encryption config random name v = do
    found ← get_encryption_key t config name
    encrypt_found found (get_additional_data config name) random v

  -- doDecryptionChan
  unfoldable pub do_decryption : Config → Bytes → Value → Outcome Value
  unfolding get_encryption_key get_additional_data decrypt_found
  do_decryption config name v = do
    found ← get_encryption_key t config name
    decrypt_found found (get_additional_data config name) v
