-- ===== src/Config/Writes.antt =====
-- The config after a write, an overwrite and a delete that succeed, as the storage then answers.
use vault_plugin_aead.Prelude.{
  Bytes, Bool, true, false, [], ◌∷◌, Option, none, some, ok, if◌then◌else◌, ◌≡◌, refl, ap, ◌∙◌,
  arith,
}
use vault_plugin_aead.GoMap.{GoMap, get, has, remove}
use vault_plugin_aead.GoMap.Laws.{get-cons, get-remove}
use vault_plugin_aead.GoMap.Order.{IsMap, over, get-set_all}
use vault_plugin_aead.Value.{Value}
use vault_plugin_aead.Tink.{Tink}
use vault_plugin_aead.Lookup.{Config}
use vault_plugin_aead.Config.{Storage, IsStorage, KvSink, World, refresh, stored}
use vault_plugin_aead.Config.Refresh.{get-refresh}
use vault_plugin_aead.Config.Settled.{settle, stored-IsMap, get_aead_config_read}
use vault_plugin_aead.Config.Write.{
  remove_all, config_write_overwrite_check, path_config_write, path_config_overwrite,
  path_config_delete,
}
use vault_plugin_aead.Config.Overlay.{
  prefixed, get-write_all_kept, write_all_over, put_config-eq-ok, put_config-Stores, check-cache,
}

get-remove_all :
    (raw : GoMap Value) (config : Config) (name : Bytes)
    → get name (remove_all raw config) ≡ (if has name raw then none else get name config)
unfolding remove_all has get
get-remove_all [] config name = refl
get-remove_all ((k, v) ∷ raw) config name = ground (
  arith,
  get-remove_all raw (remove k config) name,
  get-remove k name config,
  get-cons k name v raw,
)

-- The storage after a handler holds a config that answers for each name as `answer` does.
abbrev pub Holds : {s : Storage} {k : KvSink} → World s k → (Bytes → Option Value) → Type 0
Holds {s} w answer =
    (c : Config) × (s.read_entry w.storage ≡ ok (some c))
    × ((name : Bytes) → get name c ≡ answer name)

module _ {s : Storage} {k : KvSink} (t : Tink) (l : IsStorage s) (w w' : World s k)
    (entry : Option Config) (read : s.read_entry w.storage ≡ ok entry) where
  -- After pathConfigWrite succeeds, from a stored config that could be read, the storage answers
  -- for each name with what it held before, and only where it held nothing with the request's
  -- value under its prefixed name.
  pub path_config_write_overlay :
      (raw : GoMap Value)
      → path_config_write t raw w ≡ (ok tt, w')
      → (named : GoMap Value) × (prefixed t raw ≡ ok named)
        × Holds w' (λ name. over (get name (stored entry)) (get name named))
  unfolding path_config_write
  path_config_write_overlay raw h =
      let (named, e, q, (c, r, g)) = check-cache l t false true raw w w' entry read h in
      (
        named,
        e,
        (
          c,
          r,
          λ name.
              g name
              ∙ ap (get name) q
              ∙ get-write_all_kept named (refresh (stored entry) w.cache) name
              ∙ ap (λ o. over o (get name named))
                  (get-refresh (stored entry) w.cache name (stored-IsMap s l w.storage entry read)),
        ),
      )

  -- A write that overwrites, whether or not it saves to the KV engine.
  pub check_overlay :
      (kv : Bool) (raw named : GoMap Value)
      → prefixed t raw ≡ ok named
      → IsMap named
      → config_write_overwrite_check t true kv raw w ≡ (ok tt, w')
      → Holds w' (λ name. over (get name named) (get name (stored entry)))
  check_overlay kv raw named e m h =
      let (named', e', q, (c, r, g)) = check-cache l t true kv raw w w' entry read h in
      let same_names : named' ≡ named = ground arith in
      (
        c,
        r,
        λ name.
            g name
            ∙ ap (get name) (q ∙ write_all_over named' (refresh (stored entry) w.cache))
            ∙ rw same_names (get-set_all named (refresh (stored entry) w.cache) name m)
            ∙ ap (over (get name named))
                (get-refresh (stored entry) w.cache name (stored-IsMap s l w.storage entry read)),
      )

  -- After pathConfigOverwrite succeeds, from a stored config that could be read, the storage answers
  -- for each name with the request's value under its prefixed name, and for all other names as
  -- before, if no two names of the request are the same behind their prefixes.
  pub path_config_overwrite_overlay :
      (raw named : GoMap Value)
      → prefixed t raw ≡ ok named
      → IsMap named
      → path_config_overwrite t raw w ≡ (ok tt, w')
      → Holds w' (λ name. over (get name named) (get name (stored entry)))
  unfolding path_config_overwrite
  path_config_overwrite_overlay raw named e m h = check_overlay true raw named e m h

  -- After pathConfigDelete succeeds, from a stored config that could be read, the storage answers with
  -- nothing for the names of the request, and for all other names as before.
  pub path_config_delete_rest :
      (raw : GoMap Value)
      → path_config_delete raw w ≡ (ok tt, w')
      → Holds w' (λ name. if has name raw then none else get name (stored entry))
  unfolding path_config_delete
  path_config_delete_rest raw h =
      let h0 = rw (get_aead_config_read w entry read) at h in
      let w1 = record (settle entry w) {
        cache = remove_all raw (refresh (stored entry) w.cache);
      } in
      let (_, same_cache) = put_config-eq-ok w1 w' h0 in
      let (c, r, g) = put_config-Stores l w1 w' h0 in
      (
        c,
        r,
        λ name.
            g name
            ∙ ap (get name) same_cache
            ∙ get-remove_all raw (refresh (stored entry) w.cache) name
            ∙ ap (λ o. if has name raw then none else o)
                (get-refresh (stored entry) w.cache name (stored-IsMap s l w.storage entry read)),
      )
