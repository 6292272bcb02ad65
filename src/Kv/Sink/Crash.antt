-- ===== src/Kv/Sink/Crash.antt =====
-- saveToTransitKV while the transit engine refuses to encrypt.
use vault_plugin_aead.Prelude.{Bytes, codes, [], none, ok, err, panic, Error, ◌≡◌, refl}
use vault_plugin_aead.Tink.{Tink}
use vault_plugin_aead.Base64
use vault_plugin_aead.Keys.{remove_key_prefix, validate_b64_key}
use vault_plugin_aead.Vault.{Vault, Library}
use vault_plugin_aead.Vault.Client.{kv_get_client_with_approle}
use vault_plugin_aead.Vault.Transit.{
  kv_transit_encrypt, kv_transit_decrypt, wrap_keyset, unwrap_keyset,
}
use vault_plugin_aead.Vault.Wrapping.{encrypt_path, decrypt_path, one}
use vault_plugin_aead.Vault.KeyNames.{derive_key_name}
use vault_plugin_aead.Kv.{KvOptions}
use vault_plugin_aead.Kv.Sink.{write_to_transit}

-- An empty text is no keyset, and its nil handle is asked for its type.
validate_b64_key_empty : (t : Tink) → t.keyset_info none ≡ panic → validate_b64_key t [] ≡ panic
unfolding validate_b64_key
validate_b64_key_empty t nil_handle = rw nil_handle refl

-- If the transit engine returns an error for the encryption of a key that is to be synchronised, and
-- one for the decryption of the empty ciphertext that is left, saveToTransitKV panics: the error of
-- the encryption is dropped, and the empty keyset that is validated instead has a nil handle, whose
-- KeysetInfo panics. The client was made and the new name derived.
pub write_to_transit_crash :
    (t : Tink) (lib : Library) (v : Vault) (o : KvOptions) (name json new_name : Bytes)
    (client : v.Client) (server logged_in refused refused_again : v.Server) {e e' : Error}
    → kv_get_client_with_approle v lib o.vault_transit_url o.vault_transit_namespace
        o.vault_transit_approle_id o.vault_transit_secret_id o.vault_kv_writer_role
        o.vault_secretgenerator_iam_role server
      ≡ (ok client, logged_in)
    → derive_key_name t lib o.vault_transit_namespace (remove_key_prefix name) json ≡ ok new_name
    → v.write
        (v.with_namespace o.vault_transit_namespace client)
        (encrypt_path o.vault_transit_engine o.vault_transit_kek)
        (one (codes "plaintext") (Base64.encode json))
        logged_in
      ≡ (err e, refused)
    → v.write
        (v.with_namespace o.vault_transit_namespace client)
        (decrypt_path o.vault_transit_engine o.vault_transit_kek)
        (one (codes "ciphertext") [])
        refused
      ≡ (err e', refused_again)
    → t.keyset_info none ≡ panic
    → write_to_transit t lib v o name json server ≡ (panic, refused_again)
unfolding write_to_transit wrap_keyset unwrap_keyset kv_transit_encrypt kv_transit_decrypt
write_to_transit_crash t lib v o name json new_name client server logged_in refused refused_again
      login named encrypt decrypt nil_handle =
    rw login (rw named (rw encrypt (rw decrypt (rw (validate_b64_key_empty t nil_handle) refl))))
