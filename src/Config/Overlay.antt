-- ===== src/Config/Overlay.antt =====
-- What a config write leaves, against an overlay of the request and the stored config.
use vault_plugin_aead.Prelude.{
  Bytes, Bool, true, false, ◌&&◌, not, [], ◌∷◌, ◌++◌, Option, none, some, Outcome, ok, err, panic,
  Outcome-cases, inl, inr, if◌then◌else◌, ◌≡◌, refl, ap, sym, ◌∙◌, arith, same_iff,
}
use vault_plugin_aead.Prelude.{◌>>=◌ as bind}
use vault_plugin_aead.Exec.{lift, bind-eq-ok, err-ne-ok, panic-ne-ok}
use vault_plugin_aead.GoMap.{GoMap, get, set, has, set_all}
use vault_plugin_aead.GoMap.Laws.{get-nil, get-cons, get-set}
use vault_plugin_aead.GoMap.Order.{over}
use vault_plugin_aead.Value.{Value}
use vault_plugin_aead.Value.Printing.{sprintf_v}
use vault_plugin_aead.Tink.{Tink}
use vault_plugin_aead.Keys.{get_key_prefix}
use vault_plugin_aead.Lookup.{Config}
use vault_plugin_aead.Config.{Storage, IsStorage, KvSink, World, refresh, stored}
use vault_plugin_aead.Config.Settled.{settle, get_aead_config_read}
use vault_plugin_aead.Config.Write.{
  write_entry, write_entries, put_config, after_save, save_to_kv, save_entry,
  config_write_overwrite_check,
}

-- The request with the prefix of each name.
unfoldable pub prefixed : Tink → GoMap Value → Outcome (GoMap Value)
unfolding get_key_prefix sprintf_v
prefixed t [] = ok []
prefixed t ((name, v) ∷ raw) =
    bind (get_key_prefix t name (sprintf_v v) none)
      (λ prefix. bind (prefixed t raw) (λ rest. ok ((prefix ++ name, v) ∷ rest)))

-- The cache after the entries, the first of two under one name kept unless it is overwritten.
unfoldable pub write_all : Bool → GoMap Value → Config → Config
unfolding has set
write_all overwrite [] config = config
write_all overwrite ((name, v) ∷ raw) config =
    write_all overwrite raw (if not overwrite && has name config then config else set name v config)

over-none : (o : Option Value) → over o none ≡ o
over-none none = refl
over-none (some v) = refl

-- Without overwriting, the stored value goes first.
pub get-write_all_kept :
    (raw : GoMap Value) (config : Config) (k : Bytes)
    → get k (write_all false raw config) ≡ over (get k config) (get k raw)
unfolding write_all has
get-write_all_kept [] config k = rw (get-nil {V = Value} k) (sym (over-none (get k config)))
get-write_all_kept ((name, v) ∷ raw) config k = ground (
  arith,
  get-write_all_kept raw config k,
  get-write_all_kept raw (set name v config) k,
  get-set name k v config,
  get-cons name k v raw,
  same_iff name k,
)

pub write_all_over :
    (raw : GoMap Value) (config : Config) → write_all true raw config ≡ set_all raw config
unfolding write_all set_all
write_all_over [] config = refl
write_all_over ((name, v) ∷ raw) config = write_all_over raw (set name v config)

module _ {s : Storage} {k : KvSink} where
  after_save-cache :
      (w : World s k) (r : Outcome (Unit {0}) × k.Kv) → (after_save w r).1.cache ≡ w.cache
  after_save-cache w (ok _, kv) = refl
  after_save-cache w (err e, kv) = refl
  after_save-cache w (panic, kv) = refl

  write_entry-cache :
      (t : Tink) (overwrite kv : Bool) (name : Bytes) (v : Value) (w : World s k)
      → (write_entry t overwrite kv name v w).1.cache
        ≡ (if not overwrite && has name w.cache then w.cache else set name v w.cache)
  unfolding write_entry save_entry
  write_entry-cache t overwrite true name v w = ground (
    arith,
    after_save-cache (record w { cache = set name v w.cache })
        (save_to_kv t k w.kv (set name v w.cache) name v),
  )
  write_entry-cache t overwrite false name v w = ground arith

  write_entries-cache :
      (t : Tink) (overwrite kv : Bool) (raw : GoMap Value) (w w' : World s k)
      → write_entries t overwrite kv raw w ≡ (ok tt, w')
      → (named : GoMap Value) × (prefixed t raw ≡ ok named)
        × (w'.cache ≡ write_all overwrite named w.cache)
  unfolding write_entries prefixed write_all
  write_entries-cache t overwrite kv [] w w' h = ([], refl, ap (λ r. r.1.cache) (sym h))
  write_entries-cache t overwrite kv ((name, v) ∷ raw) w w' h =
      let (prefix, p, h1) = bind-eq-ok (lift (get_key_prefix t name (sprintf_v v) none)) _ w h in
      let (_, q, h2) = bind-eq-ok (write_entry t overwrite kv (prefix ++ name) v) _ w h1 in
      let (named, e, c) =
        write_entries-cache t overwrite kv raw (write_entry t overwrite kv (prefix ++ name) v w).1
          w' h2 in
      (
        (prefix ++ name, v) ∷ named,
        rw (p, e) refl,
        c ∙ ap (write_all overwrite named) (write_entry-cache t overwrite kv (prefix ++ name) v w),
      )

  pub put_config-eq-ok :
      (w w' : World s k)
      → put_config w ≡ (ok tt, w')
      → (s.put_entry w.storage w.cache ≡ ok w'.storage) × (w'.cache ≡ w.cache)
  unfolding put_config
  put_config-eq-ok w w' h = elim (Outcome-cases (s.put_entry w.storage w.cache)) [
    | inl (st, e) ↦
        let h' = rw e at h in (e ∙ ap (λ r. ok r.1.storage) h', sym (ap (λ r. r.1.cache) h'))
    | inr (inl (e, q)) ↦ let h' = rw q at h in absurd (err-ne-ok (ap (λ r. r.0) h'))
    | inr (inr q) ↦ let h' = rw q at h in absurd (panic-ne-ok (ap (λ r. r.0) h'))
  ]

  -- A handler whose last step puts the cache: the storage then answers as the cache does.
  abbrev pub Stores : World s k → Type 0
  Stores w =
      (c : Config) × (s.read_entry w.storage ≡ ok (some c))
      × ((name : Bytes) → get name c ≡ get name w.cache)

  pub put_config-Stores :
      (l : IsStorage s) (w w' : World s k) → put_config w ≡ (ok tt, w') → Stores w'
  put_config-Stores l w w' h =
      let (e, q) = put_config-eq-ok w w' h in
      let (c, r, g) = l.read_put w.storage w'.storage w.cache e in
      (c, r, λ name. g name ∙ ap (get name) (sym q))

  pub check-cache :
      (l : IsStorage s) (t : Tink) (overwrite kv : Bool) (raw : GoMap Value) (w w' : World s k)
      (entry : Option Config)
      → s.read_entry w.storage ≡ ok entry
      → config_write_overwrite_check t overwrite kv raw w ≡ (ok tt, w')
      → (named : GoMap Value) × (prefixed t raw ≡ ok named)
        × (w'.cache ≡ write_all overwrite named (refresh (stored entry) w.cache))
        × Stores w'
  unfolding config_write_overwrite_check
  check-cache l t overwrite kv raw w w' entry read h =
      let h0 = rw (get_aead_config_read w entry read) at h in
      let (_, q, h1) =
        bind-eq-ok (write_entries t overwrite kv raw) (λ _. put_config) (settle entry w) h0 in
      let w1 = (write_entries t overwrite kv raw (settle entry w)).1 in
      let (named, e, c) =
        write_entries-cache t overwrite kv raw (settle entry w) w1 (λ i. (q i, w1)) in
      let (_, same_cache) = put_config-eq-ok w1 w' h1 in
      (named, e, same_cache ∙ c, put_config-Stores l w1 w' h1)
