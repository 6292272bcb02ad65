-- ===== src/Config/Saving.antt =====
-- saveKeyToConfig: where a new keyset is found afterwards.
use vault_plugin_aead.Prelude.{
  arith, Bytes, true, ◌||◌, Bool-cases, [], ◌∷◌, ◌++◌, Option, none, some, Outcome, ok, err, panic,
  inl, inr, ◌≡◌, ◌≢◌, refl, ap,
}
use vault_plugin_aead.Text.{has_prefix}
use vault_plugin_aead.GoMap.{get, set}
use vault_plugin_aead.GoMap.Laws.{get-nil}
use vault_plugin_aead.GoMap.Order.{over}
use vault_plugin_aead.Value.{Value, str}
use vault_plugin_aead.Value.Printing.{sprintf_v}
use vault_plugin_aead.Tink.{Tink}
use vault_plugin_aead.Keys.{siv, gcm, get_key_prefix, extract_insecure_keyset_from_keyhandle}
use vault_plugin_aead.Keys.Prefix.{prefix_of_handle_value, has_prefix_prefixed}
use vault_plugin_aead.Lookup.{Config}
use vault_plugin_aead.Lookup.Chain.{validate-ne-panic}
use vault_plugin_aead.Kv.{KvOptions, resolve_kv_options}
use vault_plugin_aead.Config.{Storage, IsStorage, KvSink, World, stored}
use vault_plugin_aead.Config.Settled.{settle, get_aead_config_read}
use vault_plugin_aead.Config.Write.{
  after_save, save_to_kv, save_entry, write_entry, path_config_overwrite,
}
use vault_plugin_aead.Config.Overlay.{prefixed}
use vault_plugin_aead.Config.Writes.{Holds, path_config_overwrite_overlay}
use vault_plugin_aead.Config.Manage.{ignored, save_key, save_key_to_config}

-- Documented behaviour of the engines behind the plugin while they are up: a put does not fail, and a
-- call of the KV engine returns.
pub record AreUp (s : Storage) (k : KvSink) : Type 0 where
  pub puts : (st : s.State) (config : Config) → (st' : s.State) × (s.put_entry st config ≡ ok st')
  pub returns :
      (kv : k.Kv) (options : KvOptions) (name : Bytes) (v : Value)
      → (k.save kv options name v).0 ≢ panic

module _ (t : Tink) where
  -- The name under which a handle's keyset is saved gets no further prefix.
  saved_name :
      (name potential json : Bytes) (kh : t.Handle) {p : Bytes}
      → get_key_prefix t name potential (some kh) ≡ ok p
      → get_key_prefix t (p ++ name) json none ≡ ok []
  unfolding get_key_prefix
  saved_name name potential json kh {p} h =
      elim (Bool-cases (has_prefix siv name || has_prefix gcm name)) [
        | inl e ↦ let h' = rw e at h in let q : p ≡ [] = cc in rw q (rw e refl)
        | inr e ↦
            let h' = rw e at h in
            rw (has_prefix_prefixed t name p (prefix_of_handle_value t (some kh) h')) refl
      ]

module _ (t : Tink) {s : Storage} {k : KvSink} (up : AreUp s k) where
  after_save_up :
      (w : World s k) (r : Outcome (Unit {0}) × k.Kv)
      → r.0 ≢ panic
      → after_save w r ≡ (ok tt, record w { kv = r.1 })
  after_save_up w (ok _, kv) h = refl
  after_save_up w (err e, kv) h = refl
  after_save_up w (panic, kv) h = absurd (h refl)

  save_to_kv-ne-panic :
      (kv : k.Kv) (config : Config) (name : Bytes) (v : Value)
      → (save_to_kv t k kv config name v).0 ≢ panic
  unfolding save_to_kv
  save_to_kv-ne-panic kv config name v h =
      ground
        (arith, up.returns kv (resolve_kv_options config) name v, validate-ne-panic t (sprintf_v v))

  overwrite_one :
      (name : Bytes) (v : Value) (w : World s k) (entry : Option Config)
      → s.read_entry w.storage ≡ ok entry
      → get_key_prefix t name (sprintf_v v) none ≡ ok []
      → (w' : World s k) × (path_config_overwrite t ((name, v) ∷ []) w ≡ (ok tt, w'))
  unfolding path_config_overwrite write_entry save_entry
  overwrite_one name v w entry read p =
      let w1 = record (settle entry w) { cache = set name v (settle entry w).cache } in
      let r = save_to_kv t k w.kv w1.cache name v in
      let w2 = record w1 { kv = r.1 } in
      let saved = after_save_up w1 r (save_to_kv-ne-panic w.kv w1.cache name v) in
      let (st, put) = up.puts w2.storage w2.cache in
      (
        record w2 { storage = st },
        rw (get_aead_config_read w entry read, p) (rw saved (rw put refl)),
      )

-- While the engines behind the plugin are up and the stored config can be read: saveKeyToConfig
-- succeeds, and then the storage answers with the handle's keyset, as JSON, for the name with the
-- prefix of the handle's type, and for all other names as before.
pub save_key_to_config_overlay :
    (t : Tink) {s : Storage} {k : KvSink} (l : IsStorage s) (up : AreUp s k) (w : World s k)
    (entry : Option Config) (kh : t.Handle) (name : Bytes) {prefix : Bytes}
    → s.read_entry w.storage ≡ ok entry
    → get_key_prefix t name [] (some kh) ≡ ok prefix
    → (w' : World s k) × (save_key_to_config t (some kh) name true w ≡ (ok tt, w'))
      × Holds w' (λ n.
        over
          (get n ((prefix ++ name, str (extract_insecure_keyset_from_keyhandle t (some kh))) ∷ []))
          (get n (stored entry)))
unfolding save_key_to_config save_key prefixed
save_key_to_config_overlay t {s} {k} l up w entry kh name {prefix} read p =
    let json = extract_insecure_keyset_from_keyhandle t (some kh) in
    let full = prefix ++ name in
    let w1 = record (settle entry w) { cache = set full (str json) (settle entry w).cache } in
    let unprefixed = saved_name t name [] (sprintf_v (str json)) kh p in
    let (w', run) = overwrite_one t up full (str json) w1 entry read unprefixed in
    (
      w',
      rw (p, get_aead_config_read w entry read) (ap (λ r. ignored (ignored r)) run),
      path_config_overwrite_overlay t l w1 w' entry read ((full, str json) ∷ [])
          ((full, str json) ∷ []) (rw unprefixed refl) (get-nil full, tt) run,
    )
