-- ===== src/Keys/Prefix.antt =====
-- Name prefixes: what GetKeyPrefix puts in front, RemoveKeyPrefix takes off.
use vault_plugin_aead.Prelude.{
  Bytes, true, false, ◌||◌, [], ◌++◌, Option, none, some, ok, ◌⊎◌, inl, inr, ◌≡◌, ◌≢◌, refl, arith,
  Outcome-cases,
}
use vault_plugin_aead.Text.{has_prefix}
use vault_plugin_aead.Text.Prefixes.{has_prefix-append, trim_prefix-append}
use vault_plugin_aead.Tink.{Tink}
use vault_plugin_aead.Keys.{
  siv, gcm, remove_key_prefix, get_key_prefix, prefix_of_handle, validate_key_set_json,
}

abbrev pub HasNoPrefix : Bytes → Type 0
HasNoPrefix name = (has_prefix siv name ≡ false) × (has_prefix gcm name ≡ false)

has_prefix-siv-gcm : (name : Bytes) → has_prefix siv (gcm ++ name) ≡ false
unfolding has_prefix
has_prefix-siv-gcm name = refl

pub remove_key_prefix-siv : (name : Bytes) → remove_key_prefix (siv ++ name) ≡ name
unfolding remove_key_prefix
remove_key_prefix-siv name = ground (arith, has_prefix-append siv name, trim_prefix-append siv name)

pub remove_key_prefix-gcm : (name : Bytes) → remove_key_prefix (gcm ++ name) ≡ name
unfolding remove_key_prefix
remove_key_prefix-gcm name =
    ground (arith, has_prefix-siv-gcm name, has_prefix-append gcm name, trim_prefix-append gcm name)

pub remove_key_prefix_none : (name : Bytes) → HasNoPrefix name → remove_key_prefix name ≡ name
unfolding remove_key_prefix
remove_key_prefix_none name h = rw (h.0, h.1)

module _ (t : Tink) where
  pub prefix_of_handle_value :
      (kh : Option (t.Handle)) {p : Bytes} → prefix_of_handle t kh ≡ ok p → (p ≡ siv) ⊎ (p ≡ gcm)
  unfolding prefix_of_handle
  prefix_of_handle_value kh h = ground arith

  -- The three results of GetKeyPrefix; a name that has a prefix gets the empty one.
  pub get_key_prefix_value :
      (name potential : Bytes) (kh : Option (t.Handle)) {p : Bytes}
      → get_key_prefix t name potential kh ≡ ok p
      → (p ≡ []) ⊎ (HasNoPrefix name × ((p ≡ siv) ⊎ (p ≡ gcm)))
  unfolding get_key_prefix
  get_key_prefix_value name potential none h =
      elim (Outcome-cases (validate_key_set_json t potential)) [
        | inl (k, e) ↦ ground (arith, prefix_of_handle_value (some k))
        | inr e ↦ ground arith
      ]
  get_key_prefix_value name potential (some k) h = ground (arith, prefix_of_handle_value (some k))

  remove_prefixed :
      (name p : Bytes)
      → (p ≡ []) ⊎ (HasNoPrefix name × ((p ≡ siv) ⊎ (p ≡ gcm)))
      → remove_key_prefix (p ++ name) ≡ remove_key_prefix name
  remove_prefixed name p (inl e) = rw e
  remove_prefixed name p (inr (h, inl e)) =
      rw (e, remove_key_prefix_none name h) (remove_key_prefix-siv name)
  remove_prefixed name p (inr (h, inr e)) =
      rw (e, remove_key_prefix_none name h) (remove_key_prefix-gcm name)

  -- RemoveKeyPrefix gives the same field for a name and for the name with the prefix that
  -- GetKeyPrefix chose, whatever the keyset and the handle.
  pub remove_key_prefix-get_key_prefix :
      (name potential : Bytes) (kh : Option (t.Handle)) {p : Bytes}
      → get_key_prefix t name potential kh ≡ ok p
      → remove_key_prefix (p ++ name) ≡ remove_key_prefix name
  remove_key_prefix-get_key_prefix name potential kh {p} h =
      remove_prefixed name p (get_key_prefix_value name potential kh h)

  pub has_prefix_prefixed :
      (name p : Bytes)
      → (p ≡ siv) ⊎ (p ≡ gcm)
      → (has_prefix siv (p ++ name) || has_prefix gcm (p ++ name)) ≡ true
  has_prefix_prefixed name p (inl e) = rw e (ground (arith, has_prefix-append siv name))
  has_prefix_prefixed name p (inr e) =
      rw e (ground (arith, has_prefix-siv-gcm name, has_prefix-append gcm name))

  -- A name that got a prefix gets no second one, whatever keyset it is tried with.
  get_key_prefix_again :
      (name potential potential' : Bytes) (kh kh' : Option (t.Handle)) {p : Bytes}
      → get_key_prefix t name potential kh ≡ ok p
      → p ≢ []
      → get_key_prefix t (p ++ name) potential' kh' ≡ ok []
  get_key_prefix_again name potential potential' kh kh' {p} h n =
      elim (get_key_prefix_value name potential kh h) [
        | inl e ↦ absurd (n e)
        | inr (u, e) ↦ unfold get_key_prefix in rw (has_prefix_prefixed name p e)
      ]
