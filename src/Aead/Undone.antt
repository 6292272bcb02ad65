-- ===== src/Aead/Undone.antt =====
-- One row: what its encryption sent is decrypted to what the row held.
use vault_plugin_aead.Prelude.{
  none-ne-some, ℕ, Bytes, Bool, true, false, List, [], ◌∷◌, Option, none, some, ok, >>=-eq-ok, ◌≡◌,
  inl, inr, refl, arith, sym, ◌∙◌, same_refl, Option-cases,
}
use vault_plugin_aead.GoMap.{GoMap, get}
use vault_plugin_aead.GoMap.Laws.{get-head}
use vault_plugin_aead.GoMap.Order.{IsMap}
use vault_plugin_aead.Base64
use vault_plugin_aead.Base64.RoundTrip.{IsBytes}
use vault_plugin_aead.Value.Printing.{sprintf_s}
use vault_plugin_aead.Value.{Value, str}
use vault_plugin_aead.Tink.{Tink}
use vault_plugin_aead.Keys.{
  is_key_json_deterministic, create_insecure_handle_and_aead,
  create_insecure_handle_and_deterministic_aead,
}
use vault_plugin_aead.Lookup.{Config, get_encryption_key}
use vault_plugin_aead.Config.{get_additional_data}
use vault_plugin_aead.Aead.{Env, IsFair, collect, seal, encrypt_found, do_encryption, do_decryption}
use vault_plugin_aead.Aead.Field.{IsAead, do_decryption-do_encryption}
use vault_plugin_aead.Aead.Each.{Answers, each-get, each-IsMap, get-collect, collect-IsMap}
use vault_plugin_aead.Aead.Inverse.{Both, each-Undone}
use vault_plugin_aead.Value.Each.{each}
use vault_plugin_aead.Aead.Handlers.{is_bulk_data}
use vault_plugin_aead.Aead.Row.{row_result, encrypt_field}

-- A map whose values are texts, and a row of a request: its texts are bytes.
abbrev pub IsTexts : GoMap Value → Type 0
IsTexts m = IsMap m × ((k : Bytes) (v : Value) → get k m ≡ some v → (p : Bytes) × (v ≡ str p))

abbrev pub IsRow : GoMap Value → Type 0
IsRow m =
    IsMap m × ((k : Bytes) (v : Value) → get k m ≡ some v → (p : Bytes) × (v ≡ str p) × IsBytes p)

pub row-IsTexts : (m : GoMap Value) → IsRow m → IsTexts m
row-IsTexts m (h, row) = (h, λ k v e. let (p, q, _) = row k v e in (p, q))

module _ (t : Tink) where
  seal_text :
      (key : Bytes × Bool) (random : ℕ) (p aad : Bytes) {v : Value}
      → seal t key random p aad ≡ ok v
      → (c : Bytes) × (v ≡ str c)
  unfolding seal
  seal_text (json, true) random p aad {v} h =
      elim (Option-cases (create_insecure_handle_and_deterministic_aead t json).1) [
        | inl e ↦ ground arith
        | inr (d, e) ↦ elim (Option-cases (t.encrypt_deterministically d p aad)) [
          | inl e' ↦ (Base64.encode [], ground arith)
          | inr (c, e') ↦ (Base64.encode c, ground arith)
        ]
      ]
  seal_text (json, false) random p aad {v} h =
      elim (Option-cases (create_insecure_handle_and_aead t json).1) [
        | inl e ↦ ground arith
        | inr (a, e) ↦ elim (Option-cases (t.encrypt a random p aad)) [
          | inl e' ↦ (Base64.encode [], ground arith)
          | inr (c, e') ↦ (Base64.encode c, ground arith)
        ]
      ]

  encrypt_found_text :
      (found : Option Value) (aad : Bytes) (random : ℕ) (v : Value) {c : Value}
      → encrypt_found t found aad random v ≡ ok c
      → (x : Bytes) × (c ≡ str x)
  unfolding encrypt_found
  encrypt_found_text none aad random v {c} h = (sprintf_s v, ground arith)
  encrypt_found_text (some key) aad random v h =
      seal_text (is_key_json_deterministic key) random _ aad h

  do_encryption_text :
      (config : Config) (random : ℕ) (name : Bytes) (v : Value) {c : Value}
      → do_encryption t config random name v ≡ ok c
      → (x : Bytes) × (c ≡ str x)
  unfolding do_encryption
  do_encryption_text config random name v h =
      let (found, e, q) = >>=-eq-ok (get_encryption_key t config name) _ h in
      encrypt_found_text found (get_additional_data config name) random v q

  pub row_not_bulk : (m : GoMap Value) → IsTexts m → is_bulk_data m ≡ false
  unfolding is_bulk_data
  row_not_bulk [] h = refl
  row_not_bulk ((k, v) ∷ m) (h, texts) =
      let (p, e) = texts k v (get-head k k v m (same_refl k)) in rw e

  module _ (laws : IsAead t) (env env' : Env) (fair : IsFair env) (fair' : IsFair env')
      (config : Config) where
    pub row_undone :
        (path path' : List Bytes) (m resp : GoMap Value)
        → IsRow m
        → row_result (encrypt_field t env config path) env path m ≡ ok resp
        → (IsTexts resp)
          × (out : GoMap Value) × (row_result (do_decryption t config) env' path' resp ≡ ok out)
          × IsMap out
          × ((k : Bytes) → Both (λ v v'. v ≡ v') (get k m) (get k out))
    row_undone path path' m resp (m_map, texts) h =
        let (sent, e, q) = >>=-eq-ok (each (encrypt_field t env config path) m) _ h in
        let sent_map = each-IsMap (encrypt_field t env config path) m sent e m_map in
        let q' : resp ≡ collect env path sent = ground arith in
        let resp_map : IsMap resp = rw q' (collect-IsMap env path sent) in
        let received : (k : Bytes) → get k resp ≡ get k sent =
          rw q' (λ k. get-collect env path sent k fair sent_map) in
        let (back, e', back_map, same_row) =
          each-Undone (λ v v'. v ≡ v') (encrypt_field t env config path) (do_decryption t config) m
            sent resp m_map resp_map received
            (λ k v c g r.
              let (p, is_text, b) = texts k v g in
              (
                str p,
                do_decryption-do_encryption t laws config (env.random path k) k p b
                    (rw is_text at r),
                is_text,
              ))
            e in
        (
          (
            resp_map,
            λ k c g.
                sent_text k (get k m) (rw (received k) at g)
                  (each-get (encrypt_field t env config path) m sent k e),
          ),
          collect env' path' back,
          rw e' refl,
          collect-IsMap env' path' back,
          λ k. rw (get-collect env' path' back k fair' back_map) (same_row k),
        )
      where
        sent_text :
            (k : Bytes) (o : Option Value) {o' : Option Value} {c : Value}
            → o' ≡ some c
            → Answers (encrypt_field t env config path) k o o'
            → (x : Bytes) × (c ≡ str x)
        sent_text k none g a = absurd (none-ne-some (sym a ∙ g))
        sent_text k (some v) {o'} {c} g (c', r, s) =
            let u : c' ≡ c = ground arith in
            do_encryption_text config (env.random path k) k v (rw u at r)
