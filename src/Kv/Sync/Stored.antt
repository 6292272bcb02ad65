-- ===== src/Kv/Sync/Stored.antt =====
-- After pathSyncKV the config holds the keysets of the KV engine, and the response counts them.
use vault_plugin_aead.Prelude.{
  ok_inj, none-ne-some, Bytes, codes, true, false, [], ◌∷◌, ◌++◌, Option, none, some, ok, >>=-eq-ok,
  Outcome-cases, Bool-cases, inl, inr, same, same_iff, ◌≡◌, refl, sym, ap, ◌∙◌, arith, subst,
}
use vault_plugin_aead.Exec.{bind-eq-ok}
use vault_plugin_aead.GoMap.{GoMap, get, set}
use vault_plugin_aead.GoMap.Laws.{get-head, get-tail}
use vault_plugin_aead.GoMap.Order.{IsMap, over}
use vault_plugin_aead.Value.{Value, str}
use vault_plugin_aead.Value.Printing.{sprintf_v}
use vault_plugin_aead.Tink.{Tink}
use vault_plugin_aead.Keys.{get_key_prefix}
use vault_plugin_aead.Lookup.{Config}
use vault_plugin_aead.Vault.{Vault, Library}
use vault_plugin_aead.Vault.Client.{or_null}
use vault_plugin_aead.Kv.{resolve_kv_options}
use vault_plugin_aead.Kv.Secret.{is_secret_an_aead_keyset}
use vault_plugin_aead.Kv.Sink.{vault_sink}
use vault_plugin_aead.Config.{Storage, IsStorage, KvSink, World, stored}
use vault_plugin_aead.Config.Settled.{settle, get_aead_config_read}
use vault_plugin_aead.Config.Write.{
  put_config, write_entry, write_entries, config_write_overwrite_check,
}
use vault_plugin_aead.Config.Overlay.{prefixed}
use vault_plugin_aead.Config.Writes.{Holds, check_overlay}
use vault_plugin_aead.Kv.Sync.{shown, path_sync_kv, Synced, synced, count_keys, none_counted}
use vault_plugin_aead.Kv.Sync.Reads.{IsIn, IsKeyName, add_secrets, add_secrets-Shows}
use vault_plugin_aead.Kv.Sync.Masked.{Readable, read_kv_lem, active_not_false}

-- A key name gets no further prefix.
no_prefix :
    (t : Tink) (name potential : Bytes)
    → IsKeyName name
    → get_key_prefix t name potential none ≡ ok []
unfolding get_key_prefix
no_prefix t name potential h = ground arith

-- An entry under a key name is written under this name.
get-prefixed :
    (t : Tink) (name : Bytes) (v : Value) (m named : GoMap Value)
    → IsKeyName name
    → prefixed t m ≡ ok named
    → IsMap named
    → get name m ≡ some v
    → get name named ≡ some v
unfolding prefixed get
get-prefixed t name v [] named key_name p is_map h = cc
get-prefixed t name v ((j, x) ∷ m) named key_name p is_map h =
    let (prefix, e, p1) = >>=-eq-ok (get_key_prefix t j (sprintf_v x) none) _ p in
    let (rest, f, p2) = >>=-eq-ok (prefixed t m) (λ rest. ok ((prefix ++ j, x) ∷ rest)) p1 in
    let q : (prefix ++ j, x) ∷ rest ≡ named = cc in
    let is_map' : IsMap ((prefix ++ j, x) ∷ rest) = subst IsMap (sym q) is_map in
    rw (← q) (elim (Bool-cases (same j name)) [
      | inl s ↦
          let i : j ≡ name = (same_iff j name).0 s in
          let empty : prefix ≡ [] =
            ok_inj (sym e ∙ no_prefix t j (sprintf_v x) (subst IsKeyName (sym i) key_name)) in
          let found : some x ≡ some v = sym (get-head j name x m s) ∙ h in
          rw empty (get-head j name x rest s ∙ found)
      | inr s ↦
          let below =
            get-prefixed t name v m rest key_name f is_map'.1 (sym (get-tail j name x m s) ∙ h) in
          elim (Bool-cases (same (prefix ++ j) name)) [
            | inl u ↦
                let i : prefix ++ j ≡ name = (same_iff (prefix ++ j) name).0 u in
                let missing : get name rest ≡ none = subst (λ n. get n rest ≡ none) i is_map'.0 in
                absurd (none-ne-some (sym missing ∙ below))
            | inr u ↦ get-tail (prefix ++ j) name x rest u ∙ below
          ]
    ])

-- A config write that does not save to the KV engine leaves it alone.
module _ (t : Tink) {s : Storage} {k : KvSink} where
  write_entries-kv :
      (raw : GoMap Value) (w : World s k) → (write_entries t true false raw w).1.kv ≡ w.kv
  unfolding write_entries write_entry
  write_entries-kv [] w = refl
  write_entries-kv ((name, v) ∷ raw) w =
      elim (Outcome-cases (get_key_prefix t name (sprintf_v v) none)) [
        | inl (prefix, e) ↦
            rw e (write_entries-kv raw (record w { cache = set (prefix ++ name) v w.cache }))
        | inr (inl (x, e)) ↦ rw e refl
        | inr (inr e) ↦ rw e refl
      ]

  put_config-kv : (w : World s k) → (put_config w).1.kv ≡ w.kv
  unfolding put_config
  put_config-kv w = elim (Outcome-cases (s.put_entry w.storage w.cache)) [
    | inl (st, e) ↦ rw e refl
    | inr (inl (x, e)) ↦ rw e refl
    | inr (inr e) ↦ rw e refl
  ]

  check-kv :
      (raw : GoMap Value) (w w' : World s k) (entry : Option Config)
      → s.read_entry w.storage ≡ ok entry
      → config_write_overwrite_check t true false raw w ≡ (ok tt, w')
      → w'.kv ≡ w.kv
  unfolding config_write_overwrite_check
  check-kv raw w w' entry read h =
      let h0 = rw (get_aead_config_read w entry read) at h in
      let (_, q, h1) =
        bind-eq-ok (write_entries t true false raw) (λ _. put_config) (settle entry w) h0 in
      let w1 = (write_entries t true false raw (settle entry w)).1 in
      sym (ap (λ r. r.1.kv) h1) ∙ put_config-kv w1 ∙ write_entries-kv raw (settle entry w)

module _ (t : Tink) (lib : Library) (v : Vault) {s : Storage} (l : IsStorage s)
    (w w' : World s (vault_sink t lib v)) (entry : Option Config)
    (r : Readable v lib (resolve_kv_options w.cache) w.kv) (m named : GoMap Value) where
  -- While the engine is set active and can be read, and so can the stored config: if pathSyncKV
  -- returns, it has read the map that readKV makes of the secrets, its response counts the keys of
  -- this map, the storage answers for each name with the value of this map under its prefixed name,
  -- and for all other names as before, and the KV engine is only read; no two names of the map are
  -- the same behind their prefixes.
  pub path_sync_kv_overlay :
      {answer : Synced}
      → same (resolve_kv_options w.cache).vault_kv_active (codes "true") ≡ true
      → s.read_entry w.storage ≡ ok entry
      → add_secrets t lib false r.secret r.paths [] ≡ ok m
      → prefixed t m ≡ ok named
      → IsMap named
      → path_sync_kv t lib v w ≡ (ok answer, w')
      → (answer ≡ synced (count_keys m none_counted))
        × Holds w' (λ name. over (get name named) (get name (stored entry)))
        × (w'.kv ≡ r.after)
  unfolding path_sync_kv
  path_sync_kv_overlay {answer} active read added p is_map run =
      let o = resolve_kv_options w.cache in
      let e =
        read_kv_lem t lib v o w.kv r (some false) (active_not_false o.vault_kv_active active) in
      let h1 = rw active at run in
      let h2 = rw e at h1 in
      let h3 = rw added at h2 in
      let w1 : World s (vault_sink t lib v) = record w { kv = r.after } in
      let (_, q, h4) = bind-eq-ok (config_write_overwrite_check t true false m) _ w1 h3 in
      let w2 = (config_write_overwrite_check t true false m w1).1 in
      let wrote : config_write_overwrite_check t true false m w1 ≡ (ok tt, w2) = λ i. (q i, w2) in
      let is_end : w2 ≡ w' = ap (λ x. x.1) h4 in
      (
        sym (ok_inj (ap (λ x. x.0) h4)),
        subst (λ x. Holds x (λ name. over (get name named) (get name (stored entry)))) is_end
            (check_overlay t l w1 w2 entry read false m named p is_map wrote),
        ap (λ x. x.kv) (sym is_end) ∙ check-kv t m w1 w2 entry read wrote,
      )

  -- While the engine is set active and can be read, and so can the stored config: if pathSyncKV
  -- returns, then each keyset that is read under a path of the KV engine with a key prefix is
  -- what the storage holds under this path; no two names of the map that was read are the same
  -- behind their prefixes.
  pub path_sync_kv_keysets :
      {answer : Synced} (name json : Bytes) (kh : t.Handle)
      → same (resolve_kv_options w.cache).vault_kv_active (codes "true") ≡ true
      → s.read_entry w.storage ≡ ok entry
      → add_secrets t lib false r.secret r.paths [] ≡ ok m
      → prefixed t m ≡ ok named
      → IsMap named
      → path_sync_kv t lib v w ≡ (ok answer, w')
      → IsIn name r.paths
      → IsKeyName name
      → is_secret_an_aead_keyset t lib (or_null (get (codes "data") (r.secret name))) name
        ≡ ok (json, kh)
      → (c : Config) × (s.read_entry w'.storage ≡ ok (some c)) × (get name c ≡ some (str json))
  path_sync_kv_keysets name json kh active read added p is_map run is_path key_name keyset =
      let (_, (c, stored_c, g), _) = path_sync_kv_overlay active read added p is_map run in
      let (text, shows, found) =
        add_secrets-Shows t lib false r.secret name json kh key_name keyset r.paths [] m is_path
          added in
      let is_json : json ≡ text = ok_inj (unfold shown in shows) in
      let in_named = get-prefixed t name (str text) m named key_name p is_map found in
      (
        c,
        stored_c,
        g name
            ∙ ap (λ o. over o (get name (stored entry))) in_named
            ∙ ap (λ x. some (str x)) (sym is_json),
      )
