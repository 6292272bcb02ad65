-- ===== src/Kv/Sync/Reads.antt =====
-- What readKV makes of the secrets that it reads: each keyset stands under its path.
use vault_plugin_aead.Prelude.{
  Bytes, codes, Bool, true, ◌||◌, List, [], ◌∷◌, ◌++◌, some, Outcome, ok, >>=-eq-ok, Outcome-cases,
  Bool-cases, same, same_iff, ◌≡◌, ◌≢◌, refl, ◌∙◌, ◌⊎◌, inl, inr, All, arith, subst,
}
use vault_plugin_aead.Prelude.{◌>>=◌ as bind}
use vault_plugin_aead.Text.{has_prefix}
use vault_plugin_aead.GoMap.{GoMap, get, set}
use vault_plugin_aead.GoMap.Laws.{get-set_self, get-set_ne}
use vault_plugin_aead.Value.{Value, str}
use vault_plugin_aead.Tink.{Tink}
use vault_plugin_aead.Keys.{siv, gcm}
use vault_plugin_aead.Vault.{Vault, Library}
use vault_plugin_aead.Vault.Client.{or_null}
use vault_plugin_aead.Kv.{KvOptions}
use vault_plugin_aead.Kv.Secret.{is_secret_an_aead_keyset, extract_ad_from_secret, read_data}
use vault_plugin_aead.Kv.Sync.{shown, add_keyset, add_ad, add_secret, read_secrets}

abbrev pub IsIn : Bytes → List Bytes → Type 0
IsIn a [] = ⊥
IsIn a (b ∷ l) = (b ≡ a) ⊎ IsIn a l

-- The name of a keyset in the KV engine.
abbrev pub IsKeyName : Bytes → Type 0
IsKeyName name = (has_prefix gcm name || has_prefix siv name) ≡ true

-- Reading a path answers with its secret, and leaves the server as it is.
abbrev pub Reads :
    (v : Vault) → v.Client → KvOptions → v.Server → (Bytes → GoMap Value) → List Bytes → Type 0
Reads v client o server secret =
    All (λ path. read_data v client o path server ≡ (ok (secret path), server))

module _ (t : Tink) (lib : Library) where
  unfoldable pub add_secrets :
      Bool → (Bytes → GoMap Value) → List Bytes → GoMap Value → Outcome (GoMap Value)
  unfolding add_secret
  add_secrets mask secret [] m = ok m
  add_secrets mask secret (path ∷ paths) m =
      bind (add_secret t lib mask path (secret path) m) (λ m'. add_secrets mask secret paths m')

  pub read_secrets-eq-add_secrets :
      (v : Vault) (client : v.Client) (o : KvOptions) (server : v.Server)
      (secret : Bytes → GoMap Value) (mask : Bool) (paths : List Bytes) (m : GoMap Value)
      → Reads v client o server secret paths
      → read_secrets t lib v client o mask paths m server
        ≡ (add_secrets mask secret paths m, server)
  unfolding read_secrets add_secrets
  read_secrets-eq-add_secrets v client o server secret mask [] m h = refl
  read_secrets-eq-add_secrets v client o server secret mask (path ∷ paths) m (e, h) =
      elim (Outcome-cases (add_secret t lib mask path (secret path) m)) [
        | inl (m', f) ↦
            rw e (rw f (read_secrets-eq-add_secrets v client o server secret mask paths m' h))
        | inr (inl (x, f)) ↦ rw e (rw f refl)
        | inr (inr f) ↦ rw e (rw f refl)
      ]

additional_ne : (name path : Bytes) → IsKeyName name → codes "ADDITIONAL_DATA-" ++ path ≢ name
unfolding has_prefix
additional_ne [] path h e = ground arith
additional_ne (c ∷ name) path h e = ground arith

get-add_ad :
    (lib : Library) (name path : Bytes) (secret m : GoMap Value)
    → IsKeyName name
    → get name (add_ad lib path secret m) ≡ get name m
unfolding add_ad
get-add_ad lib name path secret m h =
    elim (Outcome-cases (extract_ad_from_secret lib (or_null (get (codes "aad") secret)) path)) [
      | inl (ad, e) ↦
          rw (e, add_ad)
            (get-set_ne (codes "ADDITIONAL_DATA-" ++ path) name (str ad) m
              (additional_ne name path h))
      | inr (inl (x, e)) ↦ rw (e, add_ad) refl
      | inr (inr e) ↦ rw (e, add_ad) refl
    ]

module _ (t : Tink) (lib : Library) (mask : Bool) where
  -- A map shows a keyset under a name.
  abbrev pub Shows : Bytes → Bytes → GoMap Value → Type 0
  Shows name json m =
      (text : Bytes) × (shown t mask json ≡ ok text) × (get name m ≡ some (str text))

  add_keyset_self :
      (secret : GoMap Value) (name json : Bytes) (kh : t.Handle) (m : GoMap Value)
      {m' : GoMap Value}
      → is_secret_an_aead_keyset t lib (or_null (get (codes "data") secret)) name ≡ ok (json, kh)
      → add_keyset t lib mask name secret m ≡ ok m'
      → Shows name json m'
  unfolding add_keyset
  add_keyset_self secret name json kh m {m'} keyset h =
      let h' = rw (keyset, add_keyset) at h in
      let (text, e, f) = >>=-eq-ok (shown t mask json) (λ text. ok (set name (str text) m)) h' in
      let q : set name (str text) m ≡ m' = cc in
      (text, e, rw (← q) (get-set_self name (str text) m))

  add_keyset_keeps :
      (secret : GoMap Value) (name path : Bytes) (m : GoMap Value) {m' : GoMap Value}
      → path ≢ name
      → add_keyset t lib mask path secret m ≡ ok m'
      → get name m' ≡ get name m
  unfolding add_keyset
  add_keyset_keeps secret name path m {m'} ne h =
      elim (Outcome-cases
        (is_secret_an_aead_keyset t lib (or_null (get (codes "data") secret)) path)) [
          | inl ((json, kh), e) ↦
              let h' = rw (e, add_keyset) at h in
              let (text, f, g) =
                >>=-eq-ok (shown t mask json) (λ text. ok (set path (str text) m)) h' in
              let q : set path (str text) m ≡ m' = cc in
              rw (← q) (get-set_ne path name (str text) m ne)
          | inr (inl (x, e)) ↦ let h' = rw (e, add_keyset) at h in let q : m ≡ m' = cc in rw q refl
          | inr (inr e) ↦ let h' = rw (e, add_keyset) at h in cc
        ]

  add_secret_keeps :
      (secret : GoMap Value) (name path : Bytes) (m m' : GoMap Value)
      → IsKeyName name
      → path ≢ name
      → add_secret t lib mask path secret m ≡ ok m'
      → get name m' ≡ get name m
  unfolding add_secret
  add_secret_keeps secret name path m m' key_name ne h =
      elim (Bool-cases (has_prefix gcm path || has_prefix siv path)) [
        | inl e ↦
            let h' = rw (e, add_secret) at h in
            let (m1, f, g) =
              >>=-eq-ok (add_keyset t lib mask path secret m) (λ m1. ok (add_ad lib path secret m1))
                h' in
            let q : add_ad lib path secret m1 ≡ m' = cc in
            rw (← q) (
              get-add_ad lib name path secret m1 key_name
              ∙ add_keyset_keeps secret name path m ne f)
        | inr e ↦ let h' = rw (e, add_secret) at h in let q : m ≡ m' = cc in rw q refl
      ]

  module _ (secret : Bytes → GoMap Value) (name json : Bytes) (kh : t.Handle)
      (key_name : IsKeyName name)
      (keyset : is_secret_an_aead_keyset t lib (or_null (get (codes "data") (secret name))) name
        ≡ ok (json, kh)) where
    add_secret_self :
        (m m' : GoMap Value)
        → add_secret t lib mask name (secret name) m ≡ ok m'
        → Shows name json m'
    unfolding add_secret
    add_secret_self m m' h =
        let h' = rw (key_name, add_secret) at h in
        let (m1, f, g) =
          >>=-eq-ok (add_keyset t lib mask name (secret name) m)
            (λ m1. ok (add_ad lib name (secret name) m1)) h' in
        let q : add_ad lib name (secret name) m1 ≡ m' = cc in
        let (text, e, found) = add_keyset_self (secret name) name json kh m keyset f in
        (text, e, rw (← q) (get-add_ad lib name name (secret name) m1 key_name ∙ found))

    add_secrets_keeps :
        (paths : List Bytes) (m m' : GoMap Value)
        → add_secrets t lib mask secret paths m ≡ ok m'
        → Shows name json m
        → Shows name json m'
    unfolding add_secrets
    add_secrets_keeps [] m m' h (text, e, found) = let q : m ≡ m' = cc in (text, e, rw (← q) found)
    add_secrets_keeps (path ∷ paths) m m' h (text, e, found) =
        let (m1, f, g) =
          >>=-eq-ok (add_secret t lib mask path (secret path) m)
            (λ m1. add_secrets t lib mask secret paths m1) h in
        elim (Bool-cases (same path name)) [
          | inl s ↦
              let q : path ≡ name = ground (arith, same_iff path name) in
              add_secrets_keeps paths m1 m' g (
                add_secret_self m m1
                  (subst (λ p. add_secret t lib mask p (secret p) m ≡ ok m1) q f))
          | inr s ↦ add_secrets_keeps paths m1 m' g (
            text,
            e,
            add_secret_keeps (secret path) name path m m1 key_name
                  (λ q. ground (arith, same_iff path name)) f
                ∙ found,
          )
        ]

    -- The keyset of each path that is read is shown under the path.
    pub add_secrets-Shows :
        (paths : List Bytes) (m m' : GoMap Value)
        → IsIn name paths
        → add_secrets t lib mask secret paths m ≡ ok m'
        → Shows name json m'
    unfolding add_secrets
    add_secrets-Shows [] m m' i h = elim i [ ]
    add_secrets-Shows (path ∷ paths) m m' i h =
        let (m1, f, g) =
          >>=-eq-ok (add_secret t lib mask path (secret path) m)
            (λ m1. add_secrets t lib mask secret paths m1) h in
        elim i [
          | inl q ↦
              add_secrets_keeps paths m1 m' g (
                add_secret_self m m1
                  (subst (λ p. add_secret t lib mask p (secret p) m ≡ ok m1) q f))
          | inr i' ↦ add_secrets-Shows paths m1 m' i' g
        ]
