-- ===== src/Kv/Sync/Masked.antt =====
-- pathReadKV and the key material of what it answers.
use vault_plugin_aead.Prelude.{
  Bytes, codes, Bool, true, false, List, [], ◌∷◌, Option, none, some, ok, err, Error, Outcome-cases,
  Option-cases, inl, inr, All, same, same_iff, ◌≡◌, ◌≢◌, refl, sym, ap, ◌∙◌, arith,
}
use vault_plugin_aead.Prelude.{◌>>=◌ as bind}
use vault_plugin_aead.Exec.{panic-ne-ok}
use vault_plugin_aead.Text.{contains}
use vault_plugin_aead.Text.Muting.{IsMaterial}
use vault_plugin_aead.GoMap.{GoMap, get}
use vault_plugin_aead.Value.{Value, str}
use vault_plugin_aead.Tink.{Tink}
use vault_plugin_aead.Keys.{mute_key_material}
use vault_plugin_aead.Keys.Mute.{mute_key_material_hides}
use vault_plugin_aead.Vault.{Vault, Library}
use vault_plugin_aead.Vault.Client.{or_null}
use vault_plugin_aead.Vault.Walk.{kv_get_secret_paths}
use vault_plugin_aead.Kv.{KvOptions, resolve_kv_options}
use vault_plugin_aead.Kv.Secret.{is_secret_an_aead_keyset, kv_client}
use vault_plugin_aead.Kv.Sink.{vault_sink}
use vault_plugin_aead.Config.{Storage, World}
use vault_plugin_aead.Kv.Sync.{shown, add_keyset, add_secret, masks, read_kv, path_read_kv}
use vault_plugin_aead.Kv.Sync.Reads.{
  IsIn, IsKeyName, Reads, add_secrets, read_secrets-eq-add_secrets, add_secrets-Shows,
}

-- The KV engine can be read: the login succeeds, and then the walk over its paths and the read of
-- each path do, which leave the server as it is.
pub record Readable (v : Vault) (lib : Library) (o : KvOptions) (server : v.Server) : Type 0 where
  pub client : v.Client
  pub after : v.Server
  pub paths : List Bytes
  pub secret : Bytes → GoMap Value
  pub login : kv_client v lib o server ≡ (ok client, after)
  pub walk :
      kv_get_secret_paths v client o.vault_kv_engine o.vault_kv_version [] after ≡ (ok paths, after)
  pub reads : Reads v client o after secret paths

module _ (t : Tink) (lib : Library) (v : Vault) (o : KvOptions) (server : v.Server)
    (r : Readable v lib o server) where
  -- What readKV returns of an engine that can be read.
  pub read_kv_lem :
      (mask : Option Bool)
      → same o.vault_kv_active (codes "false") ≡ false
      → read_kv t lib v o mask server
        ≡ (bind (add_secrets t lib (masks mask) r.secret r.paths []) (λ m. ok (some m)), r.after)
  unfolding read_kv
  read_kv_lem mask active =
      let e =
        read_secrets-eq-add_secrets t lib v r.client o r.after r.secret (masks mask) r.paths []
          r.reads in
      elim (Outcome-cases (add_secrets t lib (masks mask) r.secret r.paths [])) [
        | inl (m, f) ↦ rw active (rw r.login (rw r.walk (rw e (rw f refl))))
        | inr (inl (x, f)) ↦ rw active (rw r.login (rw r.walk (rw e (rw f refl))))
        | inr (inr f) ↦ rw active (rw r.login (rw r.walk (rw e (rw f refl))))
      ]

module _ (t : Tink) (lib : Library) (mask : Bool) where
  shown-ne-err : (json : Bytes) (e : Error) → shown t mask json ≢ err e
  unfolding shown mute_key_material
  shown-ne-err json e h = ground (arith, Option-cases (t.unmarshal_values json))

  add_secret-ne-err :
      (path : Bytes) (secret m : GoMap Value) (e : Error)
      → add_secret t lib mask path secret m ≢ err e
  unfolding add_secret add_keyset
  add_secret-ne-err path secret m e h = ground (
    arith,
    Outcome-cases (is_secret_an_aead_keyset t lib (or_null (get (codes "data") secret)) path),
  )

  -- No secret makes readKV fail; what is no keyset is left out.
  pub add_secrets-ne-err :
      (secret : Bytes → GoMap Value) (paths : List Bytes) (m : GoMap Value) (e : Error)
      → add_secrets t lib mask secret paths m ≢ err e
  unfolding add_secrets
  add_secrets-ne-err secret [] m e h = cc
  add_secrets-ne-err secret (path ∷ paths) m e h =
      elim (Outcome-cases (add_secret t lib mask path (secret path) m)) [
        | inl (m1, f) ↦ let h' = rw f at h in add_secrets-ne-err secret paths m1 e h'
        | inr (inl (x, f)) ↦ add_secret-ne-err path (secret path) m x f
        | inr (inr f) ↦ let h' = rw f at h in cc
      ]

pub active_not_false : (a : Bytes) → same a (codes "true") ≡ true → same a (codes "false") ≡ false
unfolding same
active_not_false a h = let q = (same_iff a (codes "true")).0 h in rw q refl

-- While the engine is set active and can be read: if pathReadKV returns, then its answer holds
-- each keyset that is read under a path of the KV engine with a key prefix, under that path and
-- without its key values, wherever they stand in the text, if they are non-empty and hold no star.
pub path_read_kv_hides :
    (t : Tink) (lib : Library) (v : Vault) {s : Storage} (w w' : World s (vault_sink t lib v))
    (r : Readable v lib (resolve_kv_options w.cache) w.kv) (resp : GoMap Value) (name json : Bytes)
    (kh : t.Handle) (vs : List Bytes)
    → same (resolve_kv_options w.cache).vault_kv_active (codes "true") ≡ true
    → path_read_kv t lib v w ≡ (ok resp, w')
    → IsIn name r.paths
    → IsKeyName name
    → is_secret_an_aead_keyset t lib (or_null (get (codes "data") (r.secret name))) name
      ≡ ok (json, kh)
    → t.unmarshal_values json ≡ some vs
    → All IsMaterial vs
    → (text : Bytes) × (get name resp ≡ some (str text)) × All (λ x. contains x text ≡ false) vs
unfolding path_read_kv
path_read_kv_hides t lib v w w' r resp name json kh vs active run is_path key_name keyset values
      material =
    let o = resolve_kv_options w.cache in
    let e = read_kv_lem t lib v o w.kv r none (active_not_false o.vault_kv_active active) in
    let h1 = rw active at run in
    let h2 = rw e at h1 in
    elim (Outcome-cases (add_secrets t lib true r.secret r.paths [])) [
      | inl (m, f) ↦
          let h3 = rw f at h2 in
          let q : m ≡ resp = ground arith in
          let (text, shows, found) =
            add_secrets-Shows t lib true r.secret name json kh key_name keyset r.paths [] m is_path
              f in
          (
            text,
            ap (get name) (sym q) ∙ found,
            mute_key_material_hides t json vs values material (unfold shown in shows),
          )
      | inr (inl (x, f)) ↦ absurd (add_secrets-ne-err t lib true r.secret r.paths [] x f)
      | inr (inr f) ↦ let h3 = rw f at h2 in absurd (panic-ne-ok (ap (λ z. z.0) h3))
    ]
