-- ===== src/Vault/Transit.antt =====
-- kvutils/kvutils.go: wrapping and unwrapping a keyset with the transit engine.
use vault_plugin_aead.Prelude.{
  Bytes, codes, [], ◌∷◌, ◌++◌, Option, none, some, ok, same, if◌then◌else◌, ◌≡◌, refl,
}
use vault_plugin_aead.Exec.{Exec, pure, crash, ◌>>=◌}
use vault_plugin_aead.GoMap.{GoMap, get}
use vault_plugin_aead.Value.{Value, str, as_str}
use vault_plugin_aead.Base64
use vault_plugin_aead.Vault.{Vault, attempt, or_error}
use vault_plugin_aead.Vault.Client.{or_null}
use vault_plugin_aead.Vault.Secrets.{not_obtained}

unfoldable pub transit_engine : Bytes → Bytes
unfolding same
transit_engine engine = if same engine [] then codes "transit" else engine

-- encrypted.Data["ciphertext"].(string): the field is empty where there is none.
unfoldable pub ciphertext_of : GoMap Value → Bytes
unfolding get
ciphertext_of m = elim (as_str (or_null (get (codes "ciphertext") m))) [ none ↦ [] | some c ↦ c ]

pub ciphertext_of_lem :
    (m : GoMap Value) (c : Bytes) → get (codes "ciphertext") m ≡ some (str c) → ciphertext_of m ≡ c
unfolding ciphertext_of
ciphertext_of_lem m c h = rw (h, ciphertext_of) refl

module _ (v : Vault) where
  unfoldable pub encrypted : Option (GoMap Value) → Exec (v.Server) Bytes
  unfolding ciphertext_of
  encrypted none = crash
  encrypted (some m) = pure (ciphertext_of m)

  -- The ciphertext of the EncryptedKVKey. An error of Write is not returned.
  unfoldable pub kv_transit_encrypt : v.Client → Bytes → Bytes → Bytes → Exec (v.Server) Bytes
  unfolding transit_engine encrypted Base64.encode
  kv_transit_encrypt client raw_keyset key engine =
      attempt
        (v.write client (transit_engine engine ++ (codes "/encrypt/" ++ key))
          ((codes "plaintext", str (Base64.encode raw_keyset)) ∷ []))
        encrypted (λ e. pure [])

  -- decrypted.Data["plaintext"].(string) of what is no string is a panic, as is a nil secret.
  abbrev pub plaintext_of : Option Bytes → Exec (v.Server) Bytes
  plaintext_of none = crash
  plaintext_of (some p) = pure p

  unfoldable pub decrypted : Option (GoMap Value) → Exec (v.Server) Bytes
  unfolding get
  decrypted none = crash
  decrypted (some m) = plaintext_of (as_str (or_null (get (codes "plaintext") m)))

  pub decrypted_lem :
      (m : GoMap Value) (p : Bytes) (server : v.Server)
      → get (codes "plaintext") m ≡ some (str p)
      → decrypted (some m) server ≡ (ok p, server)
  unfolding decrypted
  decrypted_lem m p server h = rw (h, as_str, or_null) refl

  unfoldable pub kv_transit_decrypt : v.Client → Bytes → Bytes → Bytes → Exec (v.Server) Bytes
  unfolding transit_engine decrypted
  kv_transit_decrypt client ciphertext key engine = do
    m ←
        or_error
          (v.write client (transit_engine engine ++ (codes "/decrypt/" ++ key))
            ((codes "ciphertext", str ciphertext) ∷ []))
          not_obtained
    decrypted m

  unfoldable pub wrap_keyset : v.Client → Bytes → Bytes → Bytes → Exec (v.Server) Bytes
  unfolding kv_transit_encrypt
  wrap_keyset client raw_keyset key engine = kv_transit_encrypt client raw_keyset key engine

  unfoldable pub unwrap_keyset : v.Client → Bytes → Bytes → Bytes → Exec (v.Server) Bytes
  unfolding kv_transit_decrypt
  unwrap_keyset client ciphertext key engine = kv_transit_decrypt client ciphertext key engine
