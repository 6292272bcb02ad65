-- ===== src/Aead/RoundTrip.antt =====
-- The decryption handler on the response of the encryption handler.
use vault_plugin_aead.Prelude.{
  Bytes, codes, true, [], Option, ok, ◌≡◌, ◌⊎◌, inl, inr, refl, ap, sym, ◌∙◌,
}
use vault_plugin_aead.GoMap.{GoMap, get}
use vault_plugin_aead.Value.{Value}
use vault_plugin_aead.Tink.{Tink}
use vault_plugin_aead.Lookup.{Config}
use vault_plugin_aead.Config.{Storage, IsStorage, KvSink, World, refresh, stored}
use vault_plugin_aead.Config.Settled.{settle, publish, settle_fixed}
use vault_plugin_aead.Aead.{Env, IsFair}
use vault_plugin_aead.Aead.Field.{IsAead}
use vault_plugin_aead.Aead.Inverse.{Both, neither, each_has}
use vault_plugin_aead.Aead.Handlers.{is_bulk_data, path_aead_encrypt, path_aead_decrypt}
use vault_plugin_aead.Aead.Row.{row_result, encrypt_field}
use vault_plugin_aead.Aead.Requests.{encrypt_result, after, path_aead_encrypt_read}
use vault_plugin_aead.Aead.Decryption.{IsFlatRequest, decrypt_result, path_aead_decrypt_read}
use vault_plugin_aead.Aead.Undone.{IsRow, row-IsTexts, row_not_bulk, row_undone}
use vault_plugin_aead.Aead.Rows.{IsRows, SameCells, same_value, rows_undone, panic_on-eq-ok}

-- One row of texts, or a map of such rows.
abbrev pub IsRequest : GoMap Value → Type 0
IsRequest raw = IsRow raw ⊎ IsRows raw

Both-same : {o o' : Option Value} → Both (λ v v'. v ≡ v') o o' → Both SameCells o o'
Both-same neither = neither
Both-same (each_has {v} e) = rw (sym e) (each_has same_value)

module _ (t : Tink) (laws : IsAead t) (env env' : Env) (fair : IsFair env) (fair' : IsFair env')
    (config : Config) where
  result_undone :
      (raw resp : GoMap Value)
      → IsRequest raw
      → encrypt_result t env config raw ≡ ok resp
      → IsFlatRequest resp
        × (out : GoMap Value) × (decrypt_result t env' config resp ≡ ok out)
        × ((k : Bytes) → Both SameCells (get k raw) (get k out))
  result_undone raw resp (inl row) h =
      let h' =
        panic_on-eq-ok (row_result (encrypt_field t env config []) env [] raw)
          (rw (row_not_bulk t raw (row-IsTexts raw row)) at h) in
      let (resp_row, out, e, _, same) =
        row_undone t laws env env' fair fair' config [] [] raw resp row h' in
      let not_bulk = row_not_bulk t resp resp_row in
      (inl not_bulk, out, rw (not_bulk, e) refl, λ k. Both-same (same k))
  result_undone raw resp (inr rows) h =
      let bulk_raw : is_bulk_data raw ≡ true = rows.1 in
      let (bulk, flat, out, e, same) =
        rows_undone t laws env env' fair fair' config raw resp rows (rw bulk_raw at h) in
      (inr (bulk, flat), out, rw bulk e, same)

-- For a Tink that keeps its promises and a stored config that can be read: if pathAeadEncrypt
-- answers a row of texts of bytes, or a non-empty map of such rows, then pathAeadDecrypt on the
-- response succeeds and returns the same text in each field of each row and no other fields, in
-- whatever order the goroutines of the two calls deliver their results.
pub path_aead_decrypt-path_aead_encrypt :
    {s : Storage} {k : KvSink} (t : Tink) (laws : IsAead t) (l : IsStorage s) (env env' : Env)
    (fair : IsFair env) (fair' : IsFair env') (w w' : World s k) (entry : Option Config)
    (read : s.read_entry w.storage ≡ ok entry) (raw resp : GoMap Value)
    → IsRequest raw
    → path_aead_encrypt t env raw w ≡ (ok resp, w')
    → (out : GoMap Value) × (w'' : World s k) × (path_aead_decrypt t env' resp w' ≡ (ok out, w''))
      × ((name : Bytes) → Both SameCells (get name raw) (get name out))
path_aead_decrypt-path_aead_encrypt {s} {k} t laws l env env' fair fair' w w' entry read raw resp
      request h =
    let e = sym (path_aead_encrypt_read l w entry read t env raw) ∙ h in
    let config = refresh (stored entry) w.cache in
    let (flat, out, d, same) =
      result_undone t laws env env' fair fair' config raw resp request (ap (λ r. r.0) e) in
    let w1 = after l w entry read t env (codes "encrypt") raw in
    let (p, q) = path_aead_decrypt_read l w1 entry read t env' resp flat in
    let idem : refresh (stored entry) config ≡ config = settle_fixed l w entry read in
    (
      out,
      publish p (settle entry w1),
      rw (sym (ap (λ r. r.1) e)) (
          q
          ∙ ap (λ o. (o, publish p (settle entry w1)))
              (ap (λ c. decrypt_result t env' c resp) idem ∙ d)),
      same,
    )
