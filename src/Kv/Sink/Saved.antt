-- ===== src/Kv/Sink/Saved.antt =====
-- What saveToKV saves, as it is read.
use vault_plugin_aead.Prelude.{
  ok_inj, Bytes, codes, true, [], ◌∷◌, Option, some, Outcome, ok, >>=-eq-ok, Outcome-cases, inl,
  inr, same, same_refl, ◌≡◌, refl, sym, ap, ◌∙◌, subst,
}
use vault_plugin_aead.Prelude.{◌>>=◌ as bind}
use vault_plugin_aead.Exec.{lift, bind-eq-ok, err-ne-ok, panic-ne-ok}
use vault_plugin_aead.GoMap.{GoMap, get}
use vault_plugin_aead.GoMap.Laws.{get-head}
use vault_plugin_aead.Value.{Value, str}
use vault_plugin_aead.Value.Printing.{sprintf_s}
use vault_plugin_aead.KeySet.{KeySetStruct}
use vault_plugin_aead.Tink.{Tink}
use vault_plugin_aead.Keys.{remove_key_prefix, validate_key_set_json}
use vault_plugin_aead.Vault.{Vault, Library, KvSecret}
use vault_plugin_aead.Vault.Client.{or_null}
use vault_plugin_aead.Vault.Secrets.{kv_put_secret, kv_get_secret}
use vault_plugin_aead.Vault.Folders.{Version, v1, v2, version_text}
use vault_plugin_aead.Kv.{KvOptions}
use vault_plugin_aead.Kv.Secret.{
  is_secret_an_aead_keyset, extract_ad_from_secret, kv_client, read_data, put_and_check_kv_secret,
}
use vault_plugin_aead.Kv.Sink.{secret_of, save_to_transit_kv, save_keyset}

abbrev pub texts : GoMap Bytes → GoMap Value
texts [] = []
texts ((k, x) ∷ m) = (k, str x) ∷ texts m

-- A map that was put, as it is read: key by key.
abbrev pub Answers : GoMap Bytes → Outcome (Option KvSecret) → Type 0
Answers m r =
    (m' : GoMap Value) × (r ≡ ok (some (some m'))) × ((k : Bytes) → get k m' ≡ get k (texts m))

-- Documented behaviour of a KV engine: a map of texts that was put is what is read at once, which
-- leaves the server as it is.
pub record IsKv (v : Vault) (client : v.Client) (engine : Bytes) : Type 0 where
  pub v1_put_get :
      (path : Bytes) (m : GoMap Bytes) (server server' : v.Server)
      → v.v1_put client engine path (texts m) server ≡ (ok tt, server')
      → Answers m (v.v1_get client engine path server').0
        × ((v.v1_get client engine path server').1 ≡ server')
  pub v2_put_get :
      (path : Bytes) (m : GoMap Bytes) (server server' : v.Server) (x : Option KvSecret)
      → v.v2_put client engine path (texts m) server ≡ (ok x, server')
      → Answers m (v.v2_get client engine path server').0
        × ((v.v2_get client engine path server').1 ≡ server')

module _ (v : Vault) (client : v.Client) (engine : Bytes) (law : IsKv v client engine) where
  put-get :
      (version : Version) (path : Bytes) (m : GoMap Bytes) (server : v.Server) {x : Option KvSecret}
      → (kv_put_secret v client engine (version_text version) path (texts m) server).0 ≡ ok x
      → (m' : GoMap Value) × (kv_get_secret v client engine
            (version_text version)
            path
            (kv_put_secret v client engine (version_text version) path (texts m) server).1
          ≡ (
            ok (some (some m')),
            (kv_put_secret v client engine (version_text version) path (texts m) server).1,
          ))
        × ((k : Bytes) → get k m' ≡ get k (texts m))
  unfolding kv_put_secret kv_get_secret same
  put-get v1 path m server h =
      let server' = (v.v1_put client engine path (texts m) server).1 in
      elim (Outcome-cases (v.v1_put client engine path (texts m) server).0) [
        | inl (_, p) ↦
            let ((m', e, g), same_server) =
              law.v1_put_get path m server server' (λ i. (p i, server')) in
            (m', rw (p, e) (ap (λ s. (ok (some (some m')), s)) same_server), g)
        | inr (inl (y, p)) ↦ let h' = rw p at h in absurd (err-ne-ok h')
        | inr (inr p) ↦ let h' = rw p at h in absurd (panic-ne-ok h')
      ]
  put-get v2 path m server {x} h =
      let server' = (v.v2_put client engine path (texts m) server).1 in
      let ((m', e, g), same_server) =
        law.v2_put_get path m server server' x (λ i. (h i, server')) in
      (m', rw e (ap (λ s. (ok (some (some m')), s)) same_server), g)

  -- The same at a text that is known to be a version.
  pub put-get_at :
      (version : Version) (text path : Bytes) (m : GoMap Bytes) (server : v.Server)
      {x : Option KvSecret}
      → text ≡ version_text version
      → (kv_put_secret v client engine text path (texts m) server).0 ≡ ok x
      → (m' : GoMap Value) × (kv_get_secret v client engine text path
            (kv_put_secret v client engine text path (texts m) server).1
          ≡ (ok (some (some m')), (kv_put_secret v client engine text path (texts m) server).1))
        × ((k : Bytes) → get k m' ≡ get k (texts m))
  put-get_at version text path m server e h =
      let h' = rw e at h in rw e (put-get version path m server h')

-- A secret whose text reads as one keyset, under the bare name.
is_secret_of_one :
    (t : Tink) (lib : Library) (f : Bytes) (keyset : KeySetStruct) (text name : Bytes)
    → remove_key_prefix name ≡ f
    → lib.unmarshal_keysets text ≡ some ((f, keyset) ∷ [])
    → is_secret_an_aead_keyset t lib (str text) name
      ≡ bind (validate_key_set_json t (t.marshal keyset)) (λ kh. ok (t.marshal keyset, kh))
unfolding is_secret_an_aead_keyset
is_secret_of_one t lib f keyset text name e h =
    rw (h, is_secret_an_aead_keyset) (rw e (rw (get-head f f keyset [] (same_refl f)) refl))

extract_of_one :
    (lib : Library) (f text name : Bytes)
    → remove_key_prefix name ≡ f
    → lib.unmarshal_map text ≡ some ((f, str f) ∷ [])
    → extract_ad_from_secret lib (str text) name ≡ ok f
unfolding extract_ad_from_secret
extract_of_one lib f text name e h =
    rw (h, extract_ad_from_secret) (rw e (rw (get-head f f (str f) [] (same_refl f)) refl))

module _ (v : Vault) (client : v.Client) (o : KvOptions) (law : IsKv v client o.vault_kv_engine)
    (version : Version) (is_version : o.vault_kv_version ≡ version_text version) where
  put_and_check-read :
      (name : Bytes) (m : GoMap Bytes) (server : v.Server) {x : Value}
      → (put_and_check_kv_secret v client o name (texts m) server).0 ≡ ok x
      → (m' : GoMap Value) × (x ≡ or_null (get (codes "data") m'))
        × (read_data v client o name (put_and_check_kv_secret v client o name (texts m) server).1
            ≡ (ok m', (put_and_check_kv_secret v client o name (texts m) server).1))
        × ((k : Bytes) → get k m' ≡ get k (texts m))
  unfolding put_and_check_kv_secret read_data
  put_and_check-read name m server {x} h =
      elim (Outcome-cases
        (kv_put_secret v client o.vault_kv_engine o.vault_kv_version name (texts m) server).0) [
          | inl (y, p) ↦
              let (m', e, g) =
                put-get_at v client o.vault_kv_engine law version o.vault_kv_version name m server
                  is_version p in
              let h' = rw (p, e) at h in (m', sym (ok_inj h'), rw (p, e) (rw e refl), g)
          | inr (inl (y, p)) ↦ let h' = rw p at h in absurd (err-ne-ok h')
          | inr (inr p) ↦ let h' = rw p at h in absurd (panic-ne-ok h')
        ]

  module _ (t : Tink) (lib : Library) where
    -- What is under the two names of a secret that was put.
    secret_texts : KeySetStruct → Bytes → GoMap Bytes
    secret_texts keyset name =
        (codes "data", lib.marshal_keysets ((remove_key_prefix name, keyset) ∷ []))
        ∷ (
          codes "aad",
          lib.marshal_map ((remove_key_prefix name, str (remove_key_prefix name)) ∷ []),
        )
        ∷ []

    data_text :
        (keyset : KeySetStruct) (name : Bytes)
        → or_null (get (codes "data") (texts (secret_texts keyset name)))
          ≡ str (lib.marshal_keysets ((remove_key_prefix name, keyset) ∷ []))
    unfolding secret_texts get same
    data_text keyset name = refl

    aad_text :
        (keyset : KeySetStruct) (name : Bytes)
        → or_null (get (codes "aad") (texts (secret_texts keyset name)))
          ≡ str (lib.marshal_map ((remove_key_prefix name, str (remove_key_prefix name)) ∷ []))
    unfolding secret_texts get same
    aad_text keyset name = refl

    -- While transit is not active, after saveToKV has succeeded: what is read under the key's name
    -- is a secret in which isSecretAnAEADKeyset finds the keyset that was saved, as a valid one, and
    -- extractADFromSecret the bare name. The KV engine keeps its promises, JSON reads back what it
    -- wrote of the two maps, and the name has at most one prefix.
    pub read_data-save_keyset :
        (name : Bytes) (value : Value) (server logged_in server' : v.Server)
        → kv_client v lib o server ≡ (ok client, logged_in)
        → same o.vault_transit_active (codes "false") ≡ true
        → remove_key_prefix (remove_key_prefix name) ≡ remove_key_prefix name
        → lib.unmarshal_keysets (
            lib.marshal_keysets
              ((remove_key_prefix name, lib.unmarshal_into_zero (sprintf_s value)) ∷ []))
          ≡ some ((remove_key_prefix name, lib.unmarshal_into_zero (sprintf_s value)) ∷ [])
        → lib.unmarshal_map
            (lib.marshal_map ((remove_key_prefix name, str (remove_key_prefix name)) ∷ []))
          ≡ some ((remove_key_prefix name, str (remove_key_prefix name)) ∷ [])
        → save_keyset t lib v o name value server ≡ (ok tt, server')
        → (secret : GoMap Value) × (kh : t.Handle) × (read_data v client o name server'
            ≡ (ok secret, server'))
          × (is_secret_an_aead_keyset t lib (or_null (get (codes "data") secret)) name
              ≡ ok (t.marshal (lib.unmarshal_into_zero (sprintf_s value)), kh))
          × (extract_ad_from_secret lib (or_null (get (codes "aad") secret)) name
              ≡ ok (remove_key_prefix name))
    unfolding save_keyset save_to_transit_kv secret_of secret_texts
    read_data-save_keyset name value server logged_in server' login off bare keysets ad run =
        let keyset = lib.unmarshal_into_zero (sprintf_s value) in
        let h1 = rw login at run in
        let (x, p, h2) =
          bind-eq-ok (put_and_check_kv_secret v client o name (secret_of lib keyset name)) _
            logged_in h1 in
        let (secret, is_x, reads, g) =
          put_and_check-read name (secret_texts keyset name) logged_in p in
        let (found, valid, h3) =
          bind-eq-ok (lift (is_secret_an_aead_keyset t lib x (remove_key_prefix name))) _ _ h2 in
        let h4 = rw off at h3 in
        let is_end = ap (λ z. z.1) h4 in
        let f = remove_key_prefix name in
        let data_part = ap or_null (g (codes "data")) ∙ data_text keyset name in
        let aad_part = ap or_null (g (codes "aad")) ∙ aad_text keyset name in
        let checked =
          sym (
            is_secret_of_one t lib f keyset (lib.marshal_keysets ((f, keyset) ∷ [])) f bare keysets)
          ∙ ap (λ z. is_secret_an_aead_keyset t lib z f) (sym data_part ∙ sym is_x)
          ∙ valid in
        let (kh, v_ok, _) = >>=-eq-ok (validate_key_set_json t (t.marshal keyset)) _ checked in
        (
          secret,
          kh,
          subst (λ z. read_data v client o name z ≡ (ok secret, z)) is_end reads,
          ap (λ z. is_secret_an_aead_keyset t lib z name) data_part
              ∙ is_secret_of_one t lib f keyset (lib.marshal_keysets ((f, keyset) ∷ [])) name refl
                  keysets
              ∙ rw v_ok refl,
          ap (λ z. extract_ad_from_secret lib z name) aad_part
              ∙ extract_of_one lib f (lib.marshal_map ((f, str f) ∷ [])) name refl ad,
        )
