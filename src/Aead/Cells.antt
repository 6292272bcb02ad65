-- ===== src/Aead/Cells.antt =====
-- The cells of a column in path_aead.go: the loop bodies of encryptCol and decryptCol.
use vault_plugin_aead.Prelude.{
  ℕ, Bytes, codes, Bool, true, false, Option, none, some, Outcome, ok, err, panic,
}
use vault_plugin_aead.Base64
use vault_plugin_aead.Value.{Value, str}
use vault_plugin_aead.Value.Printing.{sprintf_v, sprintf_s}
use vault_plugin_aead.Tink.{Tink}
use vault_plugin_aead.Keys.{
  is_key_json_deterministic, create_insecure_handle_and_aead,
  create_insecure_handle_and_deterministic_aead,
}
use vault_plugin_aead.Aead.{decoded}

-- The cell of a column: here the errors of Tink are returned.
abbrev pub sealed : Option Bytes → Outcome Value
sealed none = err (codes "Failed to encrypt")
sealed (some c) = ok (str (Base64.encode c))

abbrev pub opened : Option Bytes → Outcome Value
opened none = err (codes "Failed to decrypt")
opened (some p) = ok (str p)

module _ (t : Tink) where
  unfoldable pub seal_cell : Bytes × Bool → ℕ → Bytes → Bytes → Outcome Value
  unfolding create_insecure_handle_and_aead create_insecure_handle_and_deterministic_aead
  seal_cell (json, true) random p aad =
      elim (create_insecure_handle_and_deterministic_aead t json).1 [
        | none ↦ panic
        | some d ↦ sealed (t.encrypt_deterministically d p aad)
      ]
  seal_cell (json, false) random p aad = elim (create_insecure_handle_and_aead t json).1 [
    | none ↦ panic
    | some a ↦ sealed (t.encrypt a random p aad)
  ]

  unfoldable pub open_cell : Bytes × Bool → Bytes → Bytes → Outcome Value
  unfolding create_insecure_handle_and_aead create_insecure_handle_and_deterministic_aead
  open_cell (json, true) c aad = elim (create_insecure_handle_and_deterministic_aead t json).1 [
    | none ↦ panic
    | some d ↦ opened (t.decrypt_deterministically d c aad)
  ]
  open_cell (json, false) c aad = elim (create_insecure_handle_and_aead t json).1 [
    | none ↦ panic
    | some a ↦ opened (t.decrypt a c aad)
  ]

  unfoldable pub encrypt_cell : Option Value → Bytes → ℕ → Value → Outcome Value
  unfolding is_key_json_deterministic sprintf_v sprintf_s seal_cell
  encrypt_cell none aad random v = ok (str (sprintf_s v))
  encrypt_cell (some key) aad random v =
      seal_cell (is_key_json_deterministic key) random (sprintf_v v) aad

  unfoldable pub decrypt_cell : Option Value → Bytes → Value → Outcome Value
  unfolding is_key_json_deterministic decoded sprintf_s open_cell
  decrypt_cell none aad v = ok (str (sprintf_s v))
  decrypt_cell (some key) aad v = open_cell (is_key_json_deterministic key) (decoded v) aad
