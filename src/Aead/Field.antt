-- ===== src/Aead/Field.antt =====
-- One field, encrypted and decrypted.
use vault_plugin_aead.Prelude.{
  ℕ, Bytes, Bool, true, false, Option, none, some, ok, ◌≡◌, arith, ap, Option-cases, inl, inr,
  >>=-eq-ok,
}
use vault_plugin_aead.Base64
use vault_plugin_aead.Base64.RoundTrip.{IsBytes, decode-encode}
use vault_plugin_aead.Value.{Value, str}
use vault_plugin_aead.Tink.{Tink}
use vault_plugin_aead.Keys.{
  is_key_json_deterministic, create_insecure_handle_and_aead,
  create_insecure_handle_and_deterministic_aead,
}
use vault_plugin_aead.Lookup.{Config, get_encryption_key}
use vault_plugin_aead.Config.{get_additional_data}
use vault_plugin_aead.Aead.{
  decoded, seal, unseal, encrypt_found, decrypt_found, do_encryption, do_decryption,
}

-- Tink's documented behaviour: a primitive encrypts every text of bytes into bytes, and decrypts what it
-- encrypted under the same associated data.
pub record IsAead (t : Tink) : Type 0 where
  pub decrypt_encrypt :
      (a : t.Aead) (random : ℕ) (p aad : Bytes)
      → IsBytes p
      → (c : Bytes) × (t.encrypt a random p aad ≡ some c) × IsBytes c × (t.decrypt a c aad ≡ some p)
  pub decrypt_encrypt_deterministically :
      (d : t.Daead) (p aad : Bytes)
      → IsBytes p
      → (c : Bytes) × (t.encrypt_deterministically d p aad ≡ some c)
        × IsBytes c
        × (t.decrypt_deterministically d c aad ≡ some p)

decoded-encode : (c : Bytes) → IsBytes c → decoded (str (Base64.encode c)) ≡ c
unfolding decoded
decoded-encode c h = ap (λ r. r.0) (decode-encode c h)

module _ (t : Tink) (laws : IsAead t) where
  unseal-seal :
      (key : Bytes × Bool) (random : ℕ) (p aad : Bytes) {v : Value}
      → IsBytes p
      → seal t key random p aad ≡ ok v
      → unseal t key (decoded v) aad ≡ ok (str p)
  unfolding seal unseal
  unseal-seal (json, true) random p aad {v} b h =
      elim (Option-cases (create_insecure_handle_and_deterministic_aead t json).1) [
        | inl e ↦ ground arith
        | inr (d, e) ↦
            let (c, enc, bytes, dec) = laws.decrypt_encrypt_deterministically d p aad b in
            let q : v ≡ str (Base64.encode c) = ground arith in
            ground (arith, ap decoded q, decoded-encode c bytes)
      ]
  unseal-seal (json, false) random p aad {v} b h =
      elim (Option-cases (create_insecure_handle_and_aead t json).1) [
        | inl e ↦ ground arith
        | inr (a, e) ↦
            let (c, enc, bytes, dec) = laws.decrypt_encrypt a random p aad b in
            let q : v ≡ str (Base64.encode c) = ground arith in
            ground (arith, ap decoded q, decoded-encode c bytes)
      ]

  decrypt-encrypt_found :
      (found : Option Value) (aad : Bytes) (random : ℕ) (p : Bytes) {v : Value}
      → IsBytes p
      → encrypt_found t found aad random (str p) ≡ ok v
      → decrypt_found t found aad v ≡ ok (str p)
  unfolding encrypt_found decrypt_found
  decrypt-encrypt_found none aad random p {v} b h = let q : v ≡ str p = ground arith in rw q
  decrypt-encrypt_found (some key) aad random p b h =
      unseal-seal (is_key_json_deterministic key) random p aad b h

  -- For a Tink that keeps its promises: what doEncryptionChan sends for a field whose value is a text
  -- of bytes, doDecryptionChan turns back into the text, with a key or without one.
  pub do_decryption-do_encryption :
      (config : Config) (random : ℕ) (name p : Bytes) {v : Value}
      → IsBytes p
      → do_encryption t config random name (str p) ≡ ok v
      → do_decryption t config name v ≡ ok (str p)
  unfolding do_encryption do_decryption
  do_decryption-do_encryption config random name p b h =
      let (found, e, q) = >>=-eq-ok (get_encryption_key t config name) _ h in
      rw e (decrypt-encrypt_found found (get_additional_data config name) random p b q)
