-- ===== src/Config/Creating.antt =====
-- The creation of a key for one field.
use vault_plugin_aead.Prelude.{
  ℕ, Bytes, Bool, false, Bool-cases, [], ◌∷◌, ◌++◌, Option, none, some, Outcome, ok, inl, inr, ◌≡◌,
  refl, ◌∙◌,
}
use vault_plugin_aead.Base64
use vault_plugin_aead.GoMap.{get, has}
use vault_plugin_aead.GoMap.Order.{over}
use vault_plugin_aead.Value.{Value, str}
use vault_plugin_aead.Value.Printing.{sprintf_v}
use vault_plugin_aead.Tink.{Tink}
use vault_plugin_aead.Keys.{get_key_prefix, extract_insecure_keyset_from_keyhandle}
use vault_plugin_aead.Lookup.{Config}
use vault_plugin_aead.Config.{Storage, IsStorage, KvSink, World, refresh, stored}
use vault_plugin_aead.Config.Refresh.{get-refresh}
use vault_plugin_aead.Config.Settled.{settle, stored-IsMap, get_aead_config_read}
use vault_plugin_aead.Config.Writes.{Holds}
use vault_plugin_aead.Config.Manage.{
  make_deterministic_key, create_keys, create_deterministic_keys_overwrite_check,
}
use vault_plugin_aead.Config.Saving.{AreUp, save_key_to_config_overlay}

has_absent : (name : Bytes) (config : Config) → get name config ≡ none → has name config ≡ false
unfolding has
has_absent name config h = rw (h, has) refl

-- The storage after a keyset was saved under a name.
abbrev pub Saved :
    (t : Tink) {s : Storage} {k : KvSink} → World s k → Bytes → t.Handle → Option Config → Type 0
Saved t w name kh entry = Holds w (λ n.
    over (get n ((name, str (extract_insecure_keyset_from_keyhandle t (some kh))) ∷ []))
      (get n (stored entry)))

module _ (t : Tink) {s : Storage} {k : KvSink} (l : IsStorage s) (up : AreUp s k) (w : World s k)
    (entry : Option Config) (read : s.read_entry w.storage ≡ ok entry) where
  create_one :
      (make : Bytes → Bytes → Outcome (Option (t.Handle) × Bytes)) (overwrite : Bool) (name : Bytes)
      (v : Value) (kh : t.Handle) (c : Bytes) {prefix : Bytes}
      → get name (stored entry) ≡ none
      → make name (sprintf_v v) ≡ ok (some kh, c)
      → get_key_prefix t name [] (some kh) ≡ ok prefix
      → (w' : World s k) × (create_keys t make overwrite ((name, v) ∷ []) [] (settle entry w)
          ≡ (ok ((name, str (Base64.encode c)) ∷ []), w'))
        × Saved t w' (prefix ++ name) kh entry
  unfolding create_keys
  create_one make overwrite name v kh c absent made p =
      let no_entry : has name (refresh (stored entry) w.cache) ≡ false =
        has_absent name (refresh (stored entry) w.cache) (
          get-refresh (stored entry) w.cache name (stored-IsMap s l w.storage entry read)
          ∙ absent) in
      let (w', run, holds) =
        save_key_to_config_overlay t l up (settle entry w) entry kh name read p in
      (
        w',
        elim (Bool-cases overwrite) [
          | inl e ↦ rw e (rw made (rw run refl))
          | inr e ↦ rw (e, no_entry) (rw made (rw run refl))
        ],
        holds,
      )

  -- While the engines behind the plugin are up and the stored config can be read: where the bare name
  -- of a field has no entry, createDeterministicKeys answers, with the overwrite flag and without it,
  -- with the encryption under a new key, and then the storage answers with that key for the prefixed
  -- name of the field, also if it held another key there, and for all other names as before.
  pub create_deterministic_key_replaces :
      (seed : Bytes → ℕ) (overwrite : Bool) (name : Bytes) (v : Value) (kh : t.Handle) (c : Bytes)
      {prefix : Bytes}
      → get name (stored entry) ≡ none
      → make_deterministic_key t seed name (sprintf_v v) ≡ ok (some kh, c)
      → get_key_prefix t name [] (some kh) ≡ ok prefix
      → (w' : World s k) × (create_deterministic_keys_overwrite_check t seed overwrite
            ((name, v) ∷ [])
            w
          ≡ (ok ((name, str (Base64.encode c)) ∷ []), w'))
        × Saved t w' (prefix ++ name) kh entry
  unfolding create_deterministic_keys_overwrite_check
  create_deterministic_key_replaces seed overwrite name v kh c absent made p =
      let (w', run, holds) =
        create_one (make_deterministic_key t seed) overwrite name v kh c absent made p in
      (w', rw (get_aead_config_read w entry read) run, holds)
