-- ===== src/Aead/Columns.antt =====
-- Encrypting by columns against encrypting by rows.
use vault_plugin_aead.Prelude.{
  ℕ, Bytes, Bool, true, false, [], ◌∷◌, Option, none, some, Option-cases, Outcome, ok, >>=-eq-ok,
  ◌≡◌, refl, arith, ap, sym, ◌∙◌, inl, inr,
}
use vault_plugin_aead.Base64.RoundTrip.{IsBytes}
use vault_plugin_aead.GoMap.{GoMap, get, set_all}
use vault_plugin_aead.GoMap.Laws.{get-nil}
use vault_plugin_aead.GoMap.Order.{IsMap, over, get-set_all}
use vault_plugin_aead.Value.{Value, str}
use vault_plugin_aead.Value.Each.{each}
use vault_plugin_aead.Tink.{Tink}
use vault_plugin_aead.Keys.{
  is_key_json_deterministic, create_insecure_handle_and_aead,
  create_insecure_handle_and_deterministic_aead,
}
use vault_plugin_aead.Lookup.{Config, get_encryption_key}
use vault_plugin_aead.Config.{get_additional_data}
use vault_plugin_aead.Aead.{Env, IsFair, collect, seal, encrypt_found, do_encryption}
use vault_plugin_aead.Aead.Field.{IsAead}
use vault_plugin_aead.Aead.Cells.{encrypt_cell, seal_cell}
use vault_plugin_aead.Aead.Each.{Answers, each-get, each-IsMap, get-collect, set_all-IsMap}
use vault_plugin_aead.Aead.Row.{row_result, col_result, encrypt_field, encrypt_cell_of}
use vault_plugin_aead.Aead.Tables.{over_nothing}

-- What is done to the cell of a row and a field, to a row, and to a column.
abbrev pub encrypt_at : Tink → Env → Config → Bytes → Bytes → Value → Outcome Value
encrypt_at t env config row field v = do_encryption t config (env.random (row ∷ []) field) field v

abbrev pub encrypted : Tink → Env → Config → Bytes → GoMap Value → Outcome (GoMap Value)
encrypted t env config name m =
    row_result (encrypt_field t env config (name ∷ [])) env (name ∷ []) m

abbrev pub column : Tink → Env → Config → Bytes → GoMap Value → Outcome (GoMap Value)
column t env config name m = col_result (encrypt_cell_of t env name) t config name m

module _ (t : Tink) (laws : IsAead t) where
  seal_cell-eq-seal :
      (key : Bytes × Bool) (random : ℕ) (p aad : Bytes)
      → IsBytes p
      → seal_cell t key random p aad ≡ seal t key random p aad
  unfolding seal_cell seal
  seal_cell-eq-seal (json, true) random p aad b =
      elim (Option-cases (create_insecure_handle_and_deterministic_aead t json).1) [
        | inl e ↦ ground arith
        | inr (d, e) ↦
            let (c, q, _, _) = laws.decrypt_encrypt_deterministically d p aad b in ground arith
      ]
  seal_cell-eq-seal (json, false) random p aad b =
      elim (Option-cases (create_insecure_handle_and_aead t json).1) [
        | inl e ↦ ground arith
        | inr (a, e) ↦ let (c, q, _, _) = laws.decrypt_encrypt a random p aad b in ground arith
      ]

  -- With a Tink whose encryption does not fail, a cell is encrypted as a field is.
  pub encrypt_cell-eq-encrypt_found :
      (found : Option Value) (aad : Bytes) (random : ℕ) (p : Bytes)
      → IsBytes p
      → encrypt_cell t found aad random (str p) ≡ encrypt_found t found aad random (str p)
  unfolding encrypt_cell encrypt_found
  encrypt_cell-eq-encrypt_found none aad random p b = refl
  encrypt_cell-eq-encrypt_found (some key) aad random p b =
      seal_cell-eq-seal (is_key_json_deterministic key) random p aad b

  module _ (env : Env) (fair : IsFair env) (config : Config) where
    pub in_row :
        (row field : Bytes) (m resp : GoMap Value)
        → IsMap m
        → encrypted t env config row m ≡ ok resp
        → Answers (encrypt_at t env config row) field (get field m) (get field resp)
    in_row row field m resp m_map h =
        let f = encrypt_field t env config (row ∷ []) in
        let (sent, e, q) = >>=-eq-ok (each f m) _ h in
        let q' : resp ≡ collect env (row ∷ []) sent = ground arith in
        rw (q', get-collect env (row ∷ []) sent field fair (each-IsMap f m sent e m_map))
          (each-get f m sent field e)

    -- The answers of one function for a lookup are the same.
    pub same_answer :
        (f : Bytes → Value → Outcome Value) (k : Bytes) (o a b : Option Value)
        → Answers f k o a
        → Answers f k o b
        → a ≡ b
    same_answer f k none a b x y = x ∙ sym y
    same_answer f k (some v) a b (c, e, q) (c', e', q') = ground arith

    answer_cell :
        (row field : Bytes) (found : Option Value) (o a : Option Value)
        → get_encryption_key t config field ≡ ok found
        → ((v : Value) → o ≡ some v → (p : Bytes) × (v ≡ str p) × IsBytes p)
        → Answers (encrypt_cell_of t env field found (get_additional_data config field)) row o a
        → Answers (encrypt_at t env config row) field o a
    unfolding do_encryption
    answer_cell row field found none a k texts x = x
    answer_cell row field found (some v) a k texts (c, e, q) =
        let (p, is_text, b) = texts v refl in
        let e' = rw is_text at e in
        (
          c,
          rw (is_text, k)
              (sym (
                  encrypt_cell-eq-encrypt_found found (get_additional_data config field)
                    (env.random (row ∷ []) field) p b)
                ∙ e'),
          q,
        )

    pub in_column :
        (row field : Bytes) (m out : GoMap Value)
        → IsMap m
        → ((v : Value) → get row m ≡ some v → (p : Bytes) × (v ≡ str p) × IsBytes p)
        → column t env config field m ≡ ok out
        → Answers (encrypt_at t env config row) field (get row m) (get row out) × IsMap out
    in_column row field m out m_map texts h =
        let (found, k, h1) = >>=-eq-ok (get_encryption_key t config field) _ h in
        let f = encrypt_cell_of t env field found (get_additional_data config field) in
        let (cells, e, q) = >>=-eq-ok (each f m) _ h1 in
        let q' : out ≡ set_all cells [] = ground arith in
        let received : get row out ≡ get row cells =
          ap (get row) q'
          ∙ get-set_all cells [] row (each-IsMap f m cells e m_map)
          ∙ ap (over (get row cells)) (get-nil row)
          ∙ over_nothing (get row cells) in
        (
          rw received (
              answer_cell row field found (get row m) (get row cells) k texts
                (each-get f m cells row e)),
          rw q' (set_all-IsMap cells [] tt),
        )
