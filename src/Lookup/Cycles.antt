-- ===== src/Lookup/Cycles.antt =====
-- Circular aliases: the walk ends, and finds nothing.
use vault_plugin_aead.Prelude.{
  ℕ, zero, suc, ◌+◌, Bytes, Option, none, some, ok, ◌≡◌, refl, arith, ◌∙◌, subst, ap, Option-cases,
  inl, inr,
}
use vault_plugin_aead.GoMap.{get}
use vault_plugin_aead.Value.{Value, str}
use vault_plugin_aead.Tink.{Tink}
use vault_plugin_aead.Lookup.{Config, max_depth, keywalk, get_encryption_key}
use vault_plugin_aead.Lookup.Chain.{
  AllStrings, IsKeyset, IsName, Chain, keyset, alias, IsKeyset-or_IsName, keywalk_sound,
  step_missing, step_keyset, step_alias,
}

module _ (t : Tink) (config : Config) where
  -- `Aliases k a b`: following `k` aliases from field `a` leads to field `b`.
  pub data Aliases : ℕ → Bytes → Bytes → Type 0 where
    here : {a : Bytes} → Aliases zero a a
    there :
        {k : ℕ} {a s b : Bytes}
        → get a config ≡ some (str s)
        → IsName t s
        → Aliases k s b
        → Aliases (suc k) a b

  same_target :
      (a : Bytes) {s s' : Bytes}
      → get a config ≡ some (str s)
      → get a config ≡ some (str s')
      → s ≡ s'
  same_target a e e' = cc

  keyset-ne-name : (s : Bytes) → IsKeyset t s → IsName t s → ⊥
  keyset-ne-name s (kh, k) (e, n) = cc

  -- A chain goes on behind the aliases that it starts with.
  Chain-Aliases :
      {k n : ℕ} {a b key : Bytes}
      → Aliases k a b
      → Chain t config n a key
      → (m : ℕ) × (n ≡ k + m) × Chain t config m b key
  Chain-Aliases {n = n} here c = (n, omega arith, c)
  Chain-Aliases (there {s = s} e i r) (keyset e' i') =
      absurd (keyset-ne-name s (subst (IsKeyset t) (same_target _ e' e) i') i)
  Chain-Aliases (there e i r) (alias {n = n} {key = key} e' i' c) =
      let (m, q, c') =
        Chain-Aliases r (subst (λ s. Chain t config n s key) (same_target _ e' e) c) in
      (m, omega arith, c')

  Chain-length :
      {n m : ℕ} {a key key' : Bytes} → Chain t config n a key → Chain t config m a key' → n ≡ m
  Chain-length (keyset e i) (keyset e' i') = refl
  Chain-length (keyset e i) (alias {s = s} e' i' c) =
      absurd (keyset-ne-name s (subst (IsKeyset t) (same_target _ e e') i) i')
  Chain-length (alias {s = s} e i c) (keyset e' i') =
      absurd (keyset-ne-name s (subst (IsKeyset t) (same_target _ e' e) i') i)
  Chain-length (alias {n = n} e i c) (alias {n = m} {key = key} e' i' c') =
      ap suc (Chain-length c (subst (λ s. Chain t config m s key) (same_target _ e' e) c'))

  -- With values that are strings the walk never panics.
  keywalk_total :
      (d : ℕ) (name : Bytes)
      → AllStrings config
      → (o : Option Value) × (keywalk t config d name ≡ ok o)
  keywalk_total zero name h = (none, unfold keywalk in refl)
  keywalk_total (suc d) name h = elim (Option-cases (get name config)) [
    | inl e ↦ (none, step_missing t config d name e)
    | inr (v, e) ↦
        let (s, q) = h name v e in
        let e' : get name config ≡ some (str s) = e ∙ ap some q in
        elim (IsKeyset-or_IsName t s) [
          | inl k ↦ (some (str s), step_keyset t config d name s e' k)
          | inr k ↦ let (o, r) = keywalk_total d s h in (o, step_alias t config d name s e' k ∙ r)
        ]
  ]

  not_found :
      {k : ℕ} (d : ℕ) (a : Bytes) (o : Option Value)
      → Aliases (suc k) a a
      → keywalk t config d a ≡ ok o
      → keywalk t config d a ≡ ok none
  not_found d a none r h = h
  not_found d a (some v) r h =
      let (n, key, p, lt, c) = keywalk_sound t config d a v h in
      let (m, q, c') = Chain-Aliases r c in absurd (omega (arith, q, Chain-length c c'))

-- A field whose aliases lead back to it has no encryption key: with string values the lookup ends,
-- without a panic, and reports that no key was found.
pub get_encryption_key_cycle :
    (t : Tink) (config : Config) (k : ℕ) (a : Bytes)
    → AllStrings config
    → Aliases t config (suc k) a a
    → get_encryption_key t config a ≡ ok none
unfolding get_encryption_key
get_encryption_key_cycle t config k a h r =
    let (o, e) = keywalk_total t config max_depth a h in not_found t config max_depth a o r e
