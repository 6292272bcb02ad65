-- ===== src/Vault/Wrapping.antt =====
-- What WrapKeyset wraps, UnwrapKeyset unwraps.
use vault_plugin_aead.Prelude.{Bytes, codes, true, [], ◌∷◌, ◌++◌, some, ok, ◌≡◌, refl}
use vault_plugin_aead.GoMap.{GoMap, get}
use vault_plugin_aead.Value.{Value, str}
use vault_plugin_aead.Base64
use vault_plugin_aead.Base64.RoundTrip.{IsBytes, decode-encode}
use vault_plugin_aead.Vault.{Vault}
use vault_plugin_aead.Vault.Transit.{
  transit_engine, ciphertext_of_lem, encrypted, decrypted_lem, kv_transit_encrypt,
  kv_transit_decrypt, wrap_keyset, unwrap_keyset,
}

abbrev pub encrypt_path : Bytes → Bytes → Bytes
encrypt_path engine key = transit_engine engine ++ (codes "/encrypt/" ++ key)

abbrev pub decrypt_path : Bytes → Bytes → Bytes
decrypt_path engine key = transit_engine engine ++ (codes "/decrypt/" ++ key)

abbrev pub one : Bytes → Bytes → GoMap Value
one k x = (k, str x) ∷ []

-- Documented behaviour of the transit engine with a key while it is up: a text is encrypted to a
-- text, and whatever was encrypted before is decrypted to the text that it was made from.
pub record IsTransit (v : Vault) (client : v.Client) (engine key : Bytes) : Type 0 where
  pub encrypts :
      (server : v.Server) (p : Bytes)
      → (m : GoMap Value) × (c : Bytes) × (server' : v.Server) × (v.write client
            (encrypt_path engine key)
            (one (codes "plaintext") p)
            server
          ≡ (ok (some m), server'))
        × (get (codes "ciphertext") m ≡ some (str c))
  pub decrypts :
      (server server' later : v.Server) (p c : Bytes) (m : GoMap Value)
      → v.write client (encrypt_path engine key) (one (codes "plaintext") p) server
        ≡ (ok (some m), server')
      → get (codes "ciphertext") m ≡ some (str c)
      → (m' : GoMap Value) × (later' : v.Server) × (v.write client
            (decrypt_path engine key)
            (one (codes "ciphertext") c)
            later
          ≡ (ok (some m'), later'))
        × (get (codes "plaintext") m' ≡ some (str p))

-- While the transit engine is up, WrapKeyset of a keyset of bytes succeeds, and UnwrapKeyset of the
-- result, whenever it is called, returns a text whose base64 decoding is the keyset.
pub unwrap_keyset-wrap_keyset :
    (v : Vault) (client : v.Client) (engine key raw : Bytes) (server later : v.Server)
    → IsTransit v client engine key
    → IsBytes raw
    → (c : Bytes) × (server' : v.Server) × (wrap_keyset v client raw key engine server
        ≡ (ok c, server'))
      × (plain : Bytes) × (later' : v.Server) × (unwrap_keyset v client c key engine later
          ≡ (ok plain, later'))
      × (Base64.decode plain ≡ (raw, true))
unfolding wrap_keyset unwrap_keyset kv_transit_encrypt kv_transit_decrypt encrypted
unwrap_keyset-wrap_keyset v client engine key raw server later up b =
    let (m, c, server', e, g) = up.encrypts server (Base64.encode raw) in
    let (m', later', d, g') = up.decrypts server server' later (Base64.encode raw) c m e g in
    (
      c,
      server',
      rw e (rw (ciphertext_of_lem m c g) refl),
      Base64.encode raw,
      later',
      rw d (decrypted_lem v m' (Base64.encode raw) later' g'),
      decode-encode raw b,
    )
