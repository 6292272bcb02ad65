-- ===== src/Keys.antt =====
-- aeadutils/aeadutils.go: keyset handles, recognising a keyset, name prefixes and key material.
pub mod Prefix
pub mod Mute
pub mod Edit
use vault_plugin_aead.Prelude.{
  ℕ, Bytes, codes, Bool, true, false, ◌||◌, List, [], ◌∷◌, ◌++◌, Option, none, some, Outcome, ok,
  err, panic, ◌>>=◌, if◌then◌else◌, same,
}
use vault_plugin_aead.Text.{has_prefix, contains, trim_prefix, replace_all}
use vault_plugin_aead.Base64
use vault_plugin_aead.Value.{Value}
use vault_plugin_aead.Value.Printing.{sprintf_v}
use vault_plugin_aead.Tink.{Tink, Template, aes256_gcm, aes_siv, template_type_url}

abbrev pub last : List Bytes → Option Bytes
last [] = none
last (x ∷ []) = some x
last (x ∷ xs) = last xs

-- isEncryptionJsonKey
unfoldable pub is_encryption_json_key : Bytes → Bool
unfolding contains
is_encryption_json_key key = contains (codes "primaryKeyId") key

-- IsKeyJsonDeterministic: the printed key, and the test.
unfoldable pub is_key_json_deterministic : Value → Bytes × Bool
unfolding contains sprintf_v
is_key_json_deterministic key = (sprintf_v key, contains (codes "AesSivKey") (sprintf_v key))

abbrev pub siv : Bytes
siv = codes "siv/"

abbrev pub gcm : Bytes
gcm = codes "gcm/"

unfoldable pub remove_key_prefix : Bytes → Bytes
unfolding has_prefix trim_prefix
remove_key_prefix name =
    if has_prefix siv name
    then trim_prefix siv name
    else if has_prefix gcm name
    then trim_prefix gcm name
    else name

-- ReverseKeyPrefix has the same text.
unfoldable pub reverse_key_prefix : Bytes → Bytes
unfolding has_prefix trim_prefix
reverse_key_prefix name =
    if has_prefix siv name
    then trim_prefix siv name
    else if has_prefix gcm name
    then trim_prefix gcm name
    else name

-- What is left of a key when its values are replaced one after the other.
unfoldable pub mute_values : List Bytes → Bytes → Bytes
unfolding replace_all
mute_values [] key = key
mute_values (v ∷ vs) key = mute_values vs (replace_all v (codes "***") key)

module _ (t : Tink) where
  open t use {
    Handle, Aead, Daead, read, write, keyset_info, new_handle, rotate, aead_new, daead_new,
    unmarshal_values,
  }

  -- The errors are logged and not returned: both pointers may be nil.
  unfoldable pub create_insecure_handle_and_aead : Bytes → Option Handle × Option Aead
  create_insecure_handle_and_aead raw = (read raw, aead_new (read raw))

  unfoldable pub create_insecure_handle_and_deterministic_aead :
      Bytes → Option Handle × Option Daead
  create_insecure_handle_and_deterministic_aead raw = (read raw, daead_new (read raw))

  unfoldable pub extract_insecure_keyset_from_keyhandle : Option Handle → Bytes
  extract_insecure_keyset_from_keyhandle kh = elim (write kh) [ none ↦ [] | some json ↦ json ]

  unfoldable pub create_new_deterministic_aead : ℕ → Option Handle × Option Daead
  create_new_deterministic_aead seed =
      (new_handle aes_siv seed, daead_new (new_handle aes_siv seed))

  unfoldable pub create_new_aead : ℕ → Outcome (Handle × Aead)
  create_new_aead seed = elim (new_handle aes256_gcm seed) [
    | none ↦ err (codes "cannot create new aead keyhandle")
    | some kh ↦ elim (aead_new (some kh)) [
      | none ↦ err (codes "cannot create new aead key")
      | some a ↦ ok (kh, a)
    ]
  ]

  -- The keyset behind the handle is changed in place: the result is what the handle then holds.
  unfoldable pub rotate_keys : Option Handle → Bool → ℕ → Option Handle
  rotate_keys kh deterministic seed =
      if deterministic then rotate aes_siv seed kh else rotate aes256_gcm seed kh

  -- The type of the last key decides; a keyset with no key is an index out of range.
  abbrev is_siv_type : Option Bytes → Outcome Bool
  is_siv_type none = panic
  is_siv_type (some url) = ok (same url (template_type_url aes_siv))

  unfoldable pub is_key_handle_deterministic : Option Handle → Outcome Bool
  unfolding same
  is_key_handle_deterministic kh = do urls ← keyset_info kh; is_siv_type (last urls)

  unfoldable pub validate_key_set_json : Bytes → Outcome Handle
  unfolding is_encryption_json_key
  validate_key_set_json json =
      if is_encryption_json_key json
      then (elim (read json) [ none ↦ err (codes "invalid keyset") | some kh ↦ ok kh ])
      else err (codes "Not a key " ++ json)

  -- A keyset that does not validate leaves a nil handle, and its KeysetInfo is asked for all the same.
  unfoldable pub validate_b64_key : Bytes → Outcome Bytes
  unfolding validate_key_set_json Base64.decode
  validate_b64_key base64_keyset = elim (Base64.decode base64_keyset).1 [
    | false ↦ err (codes "illegal base64 data")
    | true ↦
        let json = (Base64.decode base64_keyset).0 in
        elim (validate_key_set_json json) [
          | ok kh ↦ do
            urls ← keyset_info (some kh)
            elim (last urls) [ none ↦ panic | some url ↦ ok json ]
          | err e ↦ do urls ← keyset_info none; elim (last urls) [ none ↦ panic | some url ↦ err e ]
          | panic ↦ panic
        ]
  ]

  -- Key material that does not unmarshal is a panic.
  unfoldable pub mute_key_material : Bytes → Outcome Bytes
  unfolding mute_values
  mute_key_material key = elim (unmarshal_values key) [
    | none ↦ panic
    | some vs ↦ ok (mute_values vs key)
  ]

  -- The prefix for a handle that is there.
  unfoldable pub prefix_of_handle : Option Handle → Outcome Bytes
  unfolding is_key_handle_deterministic
  prefix_of_handle kh = do
    deterministic ← is_key_handle_deterministic kh
    ok (if deterministic then siv else gcm)

  -- A name that has a prefix gets no second one. With no handle the text is tried as a keyset.
  unfoldable pub get_key_prefix : Bytes → Bytes → Option Handle → Outcome Bytes
  unfolding has_prefix validate_key_set_json prefix_of_handle
  get_key_prefix name potential kh =
      if has_prefix siv name || has_prefix gcm name then ok [] else elim kh [
        | some h ↦ prefix_of_handle (some h)
        | none ↦ elim (validate_key_set_json potential) [
          | ok h ↦ prefix_of_handle (some h)
          | err e ↦ ok []
          | panic ↦ panic
        ]
      ]
