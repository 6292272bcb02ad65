-- ===== src/Lookup/Chain.antt =====
-- GetEncryptionKey against the chains of aliases in the config.
use vault_plugin_aead.Prelude.{
  some_inj, ok_inj, ℕ, zero, suc, ◌<◌, Bytes, none, some, ok, err, panic, ◌≡◌, ◌≢◌, refl, arith, ap,
  subst, sym, ◌∙◌, Option-cases, Outcome-cases, inl, inr, ◌⊎◌, ◌↔◌,
}
use vault_plugin_aead.GoMap.{get}
use vault_plugin_aead.Value.{Value, null, str, as_str}
use vault_plugin_aead.Tink.{Tink}
use vault_plugin_aead.Keys.{validate_key_set_json}
use vault_plugin_aead.Lookup.{Config, max_depth, keywalk, get_encryption_key}

pub validate-ne-panic : (t : Tink) (s : Bytes) → validate_key_set_json t s ≢ panic
unfolding validate_key_set_json
validate-ne-panic t s = ground arith

-- A config of strings only.
abbrev pub AllStrings : Config → Type 0
AllStrings config =
    (name : Bytes) (v : Value) → get name config ≡ some v → (s : Bytes) × (v ≡ str s)

module _ (t : Tink) where
  abbrev pub IsKeyset : Bytes → Type 0
  IsKeyset s = (kh : t.Handle) × (validate_key_set_json t s ≡ ok kh)

  abbrev pub IsName : Bytes → Type 0
  IsName s = (e : Bytes) × (validate_key_set_json t s ≡ err e)

  str-cases : (v : Value) → (as_str v ≡ none) ⊎ ((s : Bytes) × (v ≡ str s))
  str-cases (str s) = inr (s, refl)
  str-cases null = inl refl
  str-cases _ = inl refl

  -- A value validates, or is refused.
  pub IsKeyset-or_IsName : (s : Bytes) → IsKeyset s ⊎ IsName s
  IsKeyset-or_IsName s = elim (Outcome-cases (validate_key_set_json t s)) [
    | inl k ↦ inl k
    | inr (inl e) ↦ inr e
    | inr (inr p) ↦ absurd (validate-ne-panic t s p)
  ]

  -- `Chain n name key`: `n` aliases lead from the field to the keyset.
  pub data Chain (config : Config) : ℕ → Bytes → Bytes → Type 0 where
    keyset :
        {name s : Bytes} → get name config ≡ some (str s) → IsKeyset s → Chain config zero name s
    alias :
        {n : ℕ} {name s key : Bytes}
        → get name config ≡ some (str s)
        → IsName s
        → Chain config n s key
        → Chain config (suc n) name key

  module _ (config : Config) where
    pub step_keyset :
        (d : ℕ) (name s : Bytes)
        → get name config ≡ some (str s)
        → IsKeyset s
        → keywalk t config (suc d) name ≡ ok (some (str s))
    unfolding keywalk
    step_keyset d name s e (kh, k) = rw (e, keywalk) (rw (k, keywalk))

    pub step_alias :
        (d : ℕ) (name s : Bytes)
        → get name config ≡ some (str s)
        → IsName s
        → keywalk t config (suc d) name ≡ keywalk t config d s
    unfolding keywalk
    step_alias d name s e (f, k) = ground arith

    pub step_missing :
        (d : ℕ) (name : Bytes) → get name config ≡ none → keywalk t config (suc d) name ≡ ok none
    unfolding keywalk
    step_missing d name e = ground arith

    pub step_no_string :
        (d : ℕ) (name : Bytes) (v : Value)
        → get name config ≡ some v
        → as_str v ≡ none
        → keywalk t config (suc d) name ≡ panic
    unfolding keywalk
    step_no_string d name v e n = ground arith

    pub keywalk_complete :
        {n : ℕ} {name key : Bytes} (d : ℕ)
        → Chain config n name key
        → n < d
        → keywalk t config d name ≡ ok (some (str key))
    keywalk_complete zero c h = elim h [ ]
    keywalk_complete (suc d) (keyset {name = name} {s = s} e k) h = step_keyset d name s e k
    keywalk_complete (suc d) (alias {name = name} {s = s} e k c) h =
        step_alias d name s e k ∙ keywalk_complete d c (omega arith)

    abbrev pub Found : ℕ → Bytes → Value → Type 0
    Found d name v = (n : ℕ) × (key : Bytes) × (v ≡ str key) × (n < d) × Chain config n name key

    pub keywalk_sound :
        (d : ℕ) (name : Bytes) (v : Value) → keywalk t config d name ≡ ok (some v) → Found d name v
    keywalk_sound zero name v h = unfold keywalk in cc h
    keywalk_sound (suc d) name v h = elim (Option-cases (get name config)) [
      | inl e ↦ cc (step_missing d name e)
      | inr (w, e) ↦ elim (str-cases w) [
        | inl n ↦ cc (step_no_string d name w e n)
        | inr (s, q) ↦ elim (IsKeyset-or_IsName s) [
          | inl k ↦ (
            zero,
            s,
            some_inj (ok_inj (sym h ∙ step_keyset d name s (e ∙ ap some q) k)),
            omega arith,
            keyset (e ∙ ap some q) k,
          )
          | inr k ↦
              let (n, key, p, lt, c) =
                keywalk_sound d s v (sym (step_alias d name s (e ∙ ap some q) k) ∙ h) in
              (suc n, key, p, omega arith, alias (e ∙ ap some q) k c)
        ]
      ]
    ]

  -- GetEncryptionKey returns a keyset exactly if fewer than five aliases lead from the field to it.
  pub get_encryption_key_iff :
      (config : Config) (name key : Bytes)
      → (get_encryption_key t config name ≡ ok (some (str key)))
        ↔ ((n : ℕ) × (n < 5) × Chain config n name key)
  unfolding get_encryption_key
  get_encryption_key_iff config name key = (
    λ h.
        let (n, key', p, lt, c) = keywalk_sound config max_depth name (str key) h in
        (n, lt, subst (λ k. Chain config n name k) (cc p) c),
    λ (n, lt, c). keywalk_complete config max_depth c lt,
  )
