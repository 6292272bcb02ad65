-- ===== src/Config/Manage.antt =====
-- path_config.go: saveKeyToConfig, the creation of keys, pathKeyRotate and the four updates of keysets.
use vault_plugin_aead.Prelude.{
  ℕ, Bytes, codes, Bool, true, false, ◌&&◌, not, [], ◌∷◌, ◌++◌, Option, none, some, Outcome, ok,
  err, panic, if◌then◌else◌,
}
use vault_plugin_aead.Prelude.{◌>>=◌ as bind}
use vault_plugin_aead.Exec.{Exec, pure, crash, lift, gets, ◌>>=◌, ◌>>◌}
use vault_plugin_aead.Base64
use vault_plugin_aead.GoMap.{GoMap, set, has}
use vault_plugin_aead.Value.{Value, str}
use vault_plugin_aead.Value.Printing.{sprintf_v}
use vault_plugin_aead.Tink.{Tink}
use vault_plugin_aead.Keys.{
  get_key_prefix, validate_key_set_json, is_key_json_deterministic,
  extract_insecure_keyset_from_keyhandle, create_insecure_handle_and_aead,
  create_insecure_handle_and_deterministic_aead, create_new_aead, create_new_deterministic_aead,
  rotate_keys,
}
use vault_plugin_aead.Lookup.{Config}
use vault_plugin_aead.Config.{Storage, KvSink, World, get_aead_config}
use vault_plugin_aead.Config.Write.{change_cache, path_config_write, path_config_overwrite}

-- A call whose error is dropped; a panic is not.
abbrev pub ignored {ℓ} : {S : Type ℓ} {A : Type 0} → Outcome A × S → Outcome (Unit {0}) × S
ignored (ok a, s) = (ok tt, s)
ignored (err e, s) = (ok tt, s)
ignored (panic, s) = (panic, s)

abbrev pub ignore_error {ℓ} : {S : Type ℓ} {A : Type 0} → Exec S A → Exec S (Unit {0})
ignore_error m s = ignored (m s)

module _ (t : Tink) where
  open t use {Handle, encrypt, encrypt_deterministically}

  -- The seed of each key, and the random bytes of each encryption, are what the run draws. A nil
  -- primitive panics; the error of an encryption is returned.
  unfoldable pub make_deterministic_key :
      (Bytes → ℕ) → Bytes → Bytes → Outcome (Option Handle × Bytes)
  unfolding create_new_deterministic_aead
  make_deterministic_key seed name p =
      let made = create_new_deterministic_aead t (seed name) in
      elim made.1 [
        | none ↦ panic
        | some d ↦ elim (encrypt_deterministically d p name) [
          | none ↦ err (codes "Failed to encrypt with a new key")
          | some c ↦ ok (made.0, c)
        ]
      ]

  unfoldable pub make_key :
      (Bytes → ℕ) → (Bytes → ℕ) → Bytes → Bytes → Outcome (Option Handle × Bytes)
  unfolding create_new_aead
  make_key seed random name p = bind (create_new_aead t (seed name)) (λ made.
      elim (encrypt made.1 (random name) p name) [
        | none ↦ err (codes "Failed to encrypt with a new key")
        | some c ↦ ok (some made.0, c)
      ])

  -- The handle of a stored keyset after a rotation.
  unfoldable pub rotated : (Bytes → ℕ) → Bytes → Value → Option Handle
  unfolding is_key_json_deterministic create_insecure_handle_and_aead
      create_insecure_handle_and_deterministic_aead rotate_keys
  rotated seed name v =
      let key = is_key_json_deterministic v in
      if key.1
      then rotate_keys t (create_insecure_handle_and_deterministic_aead t key.0).0 true (seed name)
      else rotate_keys t (create_insecure_handle_and_aead t key.0).0 false (seed name)

module _ (t : Tink) {s : Storage} {k : KvSink} where
  open t use {Handle}

  -- The part of saveKeyToConfig behind the refresh of the cache.
  unfoldable pub save_key : Option Handle → Bytes → Bool → Exec (World s k) (Unit {0})
  unfolding has set extract_insecure_keyset_from_keyhandle path_config_overwrite path_config_write
  save_key kh name overwrite = do
    exists ← gets (λ w. has name w.cache)
    let json = str (extract_insecure_keyset_from_keyhandle t kh)
    if not overwrite && exists then pure tt else (do
      change_cache (set name json)
      ignore_error (
          if overwrite
          then path_config_overwrite t ((name, json) ∷ [])
          else path_config_write t ((name, json) ∷ [])))

  -- saveKeyToConfig: a config that cannot be read ends it silently.
  unfoldable pub save_key_to_config : Option Handle → Bytes → Bool → Exec (World s k) (Unit {0})
  unfolding get_key_prefix get_aead_config save_key
  save_key_to_config kh name overwrite = do
    prefix ← lift (get_key_prefix t name [] kh)
    ignore_error (get_aead_config >> save_key kh (prefix ++ name) overwrite)

  -- The loops that make keys: the name is looked up as it came, the key is saved under its prefix.
  -- `make` gives the handle and the encryption of a text.
  abbrev create_key :
      (Bytes → Bytes → Outcome (Option Handle × Bytes))
      → Bool
      → Bytes
      → Value
      → GoMap Value
      → Exec (World s k) (GoMap Value)
  unfolding has set sprintf_v save_key_to_config
  create_key make overwrite name v resp = do
    exists ← gets (λ w. has name w.cache)
    if not overwrite && exists
        then pure (set name (str (name ++ codes " key exists")) resp)
        else (do
          made ← lift (make name (sprintf_v v))
          save_key_to_config made.0 name true
          pure (set name (str (Base64.encode made.1)) resp))

  unfoldable pub create_keys :
      (Bytes → Bytes → Outcome (Option Handle × Bytes))
      → Bool
      → GoMap Value
      → GoMap Value
      → Exec (World s k) (GoMap Value)
  unfolding create_key
  create_keys make overwrite [] resp = pure resp
  create_keys make overwrite ((name, v) ∷ raw) resp = do
    resp1 ← create_key make overwrite name v resp
    create_keys make overwrite raw resp1

  unfoldable pub create_deterministic_keys_overwrite_check :
      (Bytes → ℕ) → Bool → GoMap Value → Exec (World s k) (GoMap Value)
  unfolding get_aead_config create_keys make_deterministic_key
  create_deterministic_keys_overwrite_check seed overwrite raw = do
    get_aead_config
    create_keys (make_deterministic_key t seed) overwrite raw []

  unfoldable pub create_non_deterministic_keys_overwrite_check :
      (Bytes → ℕ) → (Bytes → ℕ) → Bool → GoMap Value → Exec (World s k) (GoMap Value)
  unfolding get_aead_config create_keys make_key
  create_non_deterministic_keys_overwrite_check seed random overwrite raw = do
    get_aead_config
    create_keys (make_key t seed random) overwrite raw []

  unfoldable pub rotate_one : (Bytes → ℕ) → Bytes → Value → Exec (World s k) (Unit {0})
  unfolding validate_key_set_json sprintf_v rotated save_key_to_config
  rotate_one seed name v = elim (validate_key_set_json t (sprintf_v v)) [
    | ok kh ↦ save_key_to_config (rotated t seed name v) name true
    | err e ↦ pure tt
    | panic ↦ crash
  ]

  unfoldable pub rotate_all : (Bytes → ℕ) → Config → Exec (World s k) (Unit {0})
  unfolding rotate_one
  rotate_all seed [] = pure tt
  rotate_all seed ((name, v) ∷ items) = rotate_one seed name v >> rotate_all seed items

  -- pathKeyRotate: the loop runs over the items that the cache has before the first rotation.
  unfoldable pub path_key_rotate : (Bytes → ℕ) → Exec (World s k) (Unit {0})
  unfolding get_aead_config rotate_all
  path_key_rotate seed = do get_aead_config; items ← gets (λ w. w.cache); rotate_all seed items
