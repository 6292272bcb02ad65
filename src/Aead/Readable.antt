-- ===== src/Aead/Readable.antt =====
-- The cells of the two encryption handlers, decrypted one by one.
use vault_plugin_aead.Prelude.{Bytes, [], ◌∷◌, Option, none, some, ok, ◌≡◌, refl}
use vault_plugin_aead.Base64.RoundTrip.{IsBytes}
use vault_plugin_aead.GoMap.{GoMap}
use vault_plugin_aead.Value.{Value, str}
use vault_plugin_aead.Tink.{Tink}
use vault_plugin_aead.Lookup.{Config}
use vault_plugin_aead.Config.{Storage, IsStorage, KvSink, World, refresh, stored}
use vault_plugin_aead.Aead.{Env, IsFair, do_decryption}
use vault_plugin_aead.Aead.Field.{IsAead, do_decryption-do_encryption}
use vault_plugin_aead.Aead.Each.{Answers}
use vault_plugin_aead.Aead.Rows.{IsRows}
use vault_plugin_aead.Aead.Handlers.{path_aead_encrypt, path_aead_encrypt_bulk_col}
use vault_plugin_aead.Aead.Tables.{cell}
use vault_plugin_aead.Aead.Columns.{encrypt_at}
use vault_plugin_aead.Aead.Agreement.{cell_text, path_aead_encrypt_cells, bulk_col_cells}

-- A cell of a response decrypts to the cell of the request, and there is none where that has none.
abbrev pub Decrypts : Tink → Config → Bytes → Option Value → Option Value → Type 0
Decrypts t config field none a = a ≡ none
Decrypts t config field (some v) a =
    (c : Value) × (a ≡ some c) × (do_decryption t config field c ≡ ok v)

answer-Decrypts :
    (t : Tink) (laws : IsAead t) (env : Env) (config : Config) (row field : Bytes)
    (o a : Option Value)
    → ((v : Value) → o ≡ some v → (p : Bytes) × (v ≡ str p) × IsBytes p)
    → Answers (encrypt_at t env config row) field o a
    → Decrypts t config field o a
answer-Decrypts t laws env config row field none a texts x = x
answer-Decrypts t laws env config row field (some v) a texts (c, e, q) =
    let (p, is_text, b) = texts v refl in
    let e' = rw is_text at e in
    (
      c,
      q,
      rw is_text
          (do_decryption-do_encryption t laws config (env.random (row ∷ []) field) field p b e'),
    )

-- For a Tink that keeps its promises and a stored config that can be read: if pathAeadEncrypt and
-- pathAeadEncryptBulkCol both answer a non-empty map of rows of texts, whatever random bytes the two
-- calls draw and in whatever orders their results arrive, then both responses have a cell exactly
-- where the request has one, and doDecryptionChan turns both cells back into the text of the request.
pub both-Decrypts :
    {s : Storage} {k : KvSink} (t : Tink) (laws : IsAead t) (l : IsStorage s) (env env' : Env)
    (fair : IsFair env) (fair' : IsFair env') (w w1 w2 : World s k) (entry : Option Config)
    (read : s.read_entry w.storage ≡ ok entry) (raw resp resp' : GoMap Value) (row field : Bytes)
    → IsRows raw
    → path_aead_encrypt t env raw w ≡ (ok resp, w1)
    → path_aead_encrypt_bulk_col t env' raw w ≡ (ok resp', w2)
    → Decrypts t (refresh (stored entry) w.cache) field (cell row field raw) (cell row field resp)
      × Decrypts t
          (refresh (stored entry) w.cache)
          field
          (cell row field raw)
          (cell row field resp')
both-Decrypts t laws l env env' fair fair' w w1 w2 entry read raw resp resp' row field is_rows h
      h' =
    let config = refresh (stored entry) w.cache in
    let texts = λ (v : Value) (g : cell row field raw ≡ some v).
      cell_text t laws env fair config raw row field v is_rows g in
    (
      answer-Decrypts t laws env config row field (cell row field raw) (cell row field resp) texts
          (path_aead_encrypt_cells t laws l env fair w w1 entry read raw resp row field is_rows h),
      answer-Decrypts t laws env' config row field (cell row field raw) (cell row field resp') texts
          (bulk_col_cells t laws l env' fair' w w2 entry read raw resp' row field is_rows h'),
    )
