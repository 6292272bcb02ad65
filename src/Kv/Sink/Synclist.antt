-- ===== src/Kv/Sink/Synclist.antt =====
-- What storeKeysTobeSynced stores is what readKeysTobeSynced reads, over what was there.
use vault_plugin_aead.Prelude.{
  Bytes, [], ◌∷◌, none, some, ok, Outcome-cases, inl, inr, ◌≡◌, refl, sym, ap, ◌∙◌, arith, subst,
}
use vault_plugin_aead.Exec.{err-ne-ok, panic-ne-ok}
use vault_plugin_aead.GoMap.{GoMap, get, set, set_all}
use vault_plugin_aead.GoMap.Order.{IsMap, over, get-set_all}
use vault_plugin_aead.Value.{Value, str}
use vault_plugin_aead.Vault.{Vault, Library}
use vault_plugin_aead.Vault.Secrets.{kv_put_secret, kv_get_secret}
use vault_plugin_aead.Vault.Folders.{Version, version_text}
use vault_plugin_aead.Kv.{KvOptions}
use vault_plugin_aead.Kv.Secret.{
  kv_client, synclist, read_data, store_keys_tobe_synced, read_keys_tobe_synced,
}
use vault_plugin_aead.Kv.Sink.Saved.{texts, IsKv, put-get_at}

set-texts : (k x : Bytes) (m : GoMap Bytes) → set k (str x) (texts m) ≡ texts (set k x m)
unfolding set
set-texts k x [] = refl
set-texts k x ((j, y) ∷ m) = ground (arith, set-texts k x m)

set_all-texts : (from m : GoMap Bytes) → set_all (texts from) (texts m) ≡ texts (set_all from m)
unfolding set_all
set_all-texts [] m = refl
set_all-texts ((k, x) ∷ from) m =
    ap (set_all (texts from)) (set-texts k x m) ∙ set_all-texts from (set k x m)

get-texts-none : (k : Bytes) (m : GoMap Bytes) → get k m ≡ none → get k (texts m) ≡ none
unfolding get
get-texts-none k [] h = refl
get-texts-none k ((j, y) ∷ m) h = ground (arith, get-texts-none k m)

texts-IsMap : (m : GoMap Bytes) → IsMap m → IsMap (texts m)
unfolding get
texts-IsMap [] h = tt
texts-IsMap ((k, x) ∷ m) (fresh, h) = (get-texts-none k m fresh, texts-IsMap m h)

-- A list of keys that storeKeysTobeSynced stores, over a list that can be read, is what
-- readKeysTobeSynced then returns, with the entries of the old list for all other names. The KV engine
-- keeps its promises, both lists hold texts, and a second login leaves the server as it is.
pub read_keys-store_keys :
    (v : Vault) (lib : Library) (o : KvOptions) (client : v.Client) (version : Version)
    (law : IsKv v client o.vault_kv_engine) (keys old : GoMap Bytes)
    (server logged_in stored : v.Server)
    → o.vault_kv_version ≡ version_text version
    → IsMap keys
    → kv_client v lib o server ≡ (ok client, logged_in)
    → kv_get_secret v client o.vault_kv_engine o.vault_kv_version synclist logged_in
      ≡ (ok (some (some (texts old))), logged_in)
    → store_keys_tobe_synced v lib o (texts keys) server ≡ (ok tt, stored)
    → kv_client v lib o stored ≡ (ok client, stored)
    → (m : GoMap Value) × (read_keys_tobe_synced v lib o stored ≡ (ok m, stored))
      × ((name : Bytes) → get name m ≡ over (get name (texts keys)) (get name (texts old)))
unfolding store_keys_tobe_synced read_keys_tobe_synced read_data
read_keys-store_keys v lib o client version law keys old server logged_in stored is_version is_map
      login reads run again =
    let all = set_all keys old in
    let h1 = rw (login, reads, set_all-texts keys old) at run in
    let put =
      kv_put_secret v client o.vault_kv_engine o.vault_kv_version synclist (texts all) logged_in in
    elim (Outcome-cases put.0) [
      | inl (x, p) ↦
          let (m, e, g) =
            put-get_at v client o.vault_kv_engine law version o.vault_kv_version synclist all
              logged_in is_version p in
          let h2 = rw p at h1 in
          let is_end : put.1 ≡ stored = ap (λ z. z.1) h2 in
          let e' =
            subst
              (λ z.
                kv_get_secret v client o.vault_kv_engine o.vault_kv_version synclist z
                ≡ (ok (some (some m)), z))
              is_end e in
          (
            m,
            rw (again, e') refl,
            λ name.
                g name
                ∙ ap (get name) (sym (set_all-texts keys old))
                ∙ get-set_all (texts keys) (texts old) name (texts-IsMap keys is_map),
          )
      | inr (inl (y, p)) ↦ let h2 = rw p at h1 in absurd (err-ne-ok (ap (λ z. z.0) h2))
      | inr (inr p) ↦ let h2 = rw p at h1 in absurd (panic-ne-ok (ap (λ z. z.0) h2))
    ]
