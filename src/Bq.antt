-- ===== src/Bq.antt =====
-- bqutils/bqutils.go: the names and texts of the BigQuery routines: resolveOptions, the substitutions
-- of DoBQSync and the bodies of doBQRoutineCreateOrUpdate.
pub mod Cloud
pub mod Routine
pub mod Sync
pub mod Handler
pub mod Escape
pub mod Upsert
pub mod SameKey
pub mod Late
use vault_plugin_aead.Prelude.{
  ℕ, ◌+◌, ◌/◌, ◌%◌, Bytes, codes, Bool, true, false, ◌&&◌, List, [], ◌∷◌, ◌++◌, none, some, map,
  ltb, leb, same, if◌then◌else◌,
}
use vault_plugin_aead.Text.{contains, replace_all}
use vault_plugin_aead.GoMap.{get}
use vault_plugin_aead.Value.Printing.{sprintf_s}
use vault_plugin_aead.Lookup.{Config}
use vault_plugin_aead.Vault.{Library}
use vault_plugin_aead.Vault.KeyNames.{is_ascii}

pub record Options : Type 0 where
  pub project_id : Bytes
  pub encrypt_dataset_id : Bytes
  pub decrypt_dataset_id : Bytes
  pub encrypt_routine_id : Bytes
  pub decrypt_routine_id : Bytes
  pub det_routine_prefix : Bytes
  pub nondet_routine_prefix : Bytes
  pub kms_key_name : Bytes
  pub field_name : Bytes

-- An entry as %s prints it, or a default.
unfoldable pub bq_setting : Config → Bytes → Bytes → Bytes
unfolding get sprintf_s
bq_setting env key default = elim (get key env) [ none ↦ default | some v ↦ sprintf_s v ]

-- "-" is not allowed in BigQuery.
unfoldable pub underscored : Bytes → Bytes
unfolding replace_all
underscored name = replace_all (codes "-") (codes "_") name

unfoldable pub routine_id : Bytes → Bytes → Bytes → Bytes
routine_id field prefix kind = field ++ (codes "_" ++ (prefix ++ (codes "_" ++ kind)))

-- An entry under the name of a routine is its dataset.
unfoldable pub resolve_options : Bytes → Bool → Config → Options
unfolding bq_setting underscored routine_id
resolve_options name deterministic env =
    let det = bq_setting env (codes "BQ_ROUTINE_DET_PREFIX") (codes "siv") in
    let nondet = bq_setting env (codes "BQ_ROUTINE_NONDET_PREFIX") (codes "gcm") in
    let prefix = if deterministic then det else nondet in
    let encrypt_id = routine_id (underscored name) prefix (codes "encrypt") in
    let decrypt_id = routine_id (underscored name) prefix (codes "decrypt") in
    record {
      project_id = bq_setting env (codes "BQ_PROJECT") (codes "your-bq-project");
      encrypt_dataset_id = bq_setting env encrypt_id (
          bq_setting env (codes "BQ_DEFAULT_ENCRYPT_DATASET")
            (codes "vf<lm>_dh_lake_aead_encrypt_<region>_lv_s"));
      decrypt_dataset_id = bq_setting env decrypt_id (
          bq_setting env (codes "BQ_DEFAULT_DECRYPT_DATASET")
            (codes "vf<lm>_dh_lake_<category>_aead_decrypt_<region>_lv_s"));
      encrypt_routine_id = encrypt_id;
      decrypt_routine_id = decrypt_id;
      det_routine_prefix = det;
      nondet_routine_prefix = nondet;
      kms_key_name = bq_setting env (codes "BQ_KMSKEY") (
          codes
            "projects/your-kms-project/locations/<region>/keyRings/hsm-key-tink-<lm>-<region>/cryptoKeys/bq-key");
      field_name = underscored name;
    }

abbrev pub region_mark : Bytes
region_mark = codes "<region>"

-- The regions that are tried for each key.
abbrev pub regions : List Bytes
regions =
    codes "unspecified"
    ∷ codes "eu"
    ∷ codes "europe_west1"
    ∷ codes "europe_west2"
    ∷ codes "europe_west3"
    ∷ []

unfoldable pub with_category : Bytes → Bytes → Bytes
unfolding contains replace_all
with_category field dataset =
    if contains (codes "_<category>") dataset
    then replace_all (codes "<category>") field dataset
    else dataset

unfoldable pub with_region : Bytes → Bytes → Bytes
unfolding replace_all same
with_region region dataset =
    if same region (codes "unspecified")
    then replace_all (codes "_<region>") [] dataset
    else replace_all region_mark region dataset

unfoldable pub region_options : Bytes → Bytes → Options → Options
unfolding with_category with_region
region_options field region o = record o {
  encrypt_dataset_id = with_region region (with_category field o.encrypt_dataset_id);
  decrypt_dataset_id = with_region region (with_category field o.decrypt_dataset_id);
}

abbrev lower_byte : ℕ → ℕ
lower_byte c = if leb b'A' c && leb c b'Z' then c + 32 else c

-- strings.ToLower
unfoldable pub to_lower : Library → Bytes → Bytes
to_lower lib s = if is_ascii s then map lower_byte s else lib.to_lower_unicode s

-- The key for the location of a dataset.
unfoldable pub with_location : Library → Bytes → Options → Options
unfolding to_lower replace_all same
with_location lib location o =
    let actual = to_lower lib location in
    let expected = if same actual (codes "eu") then codes "europe" else actual in
    record o { kms_key_name = replace_all region_mark expected o.kms_key_name }

abbrev pub hex_digit : ℕ → ℕ
hex_digit n = if ltb n 10 then n + 48 else n + 87

-- "\\x%02x" of a byte
abbrev pub escape_byte : ℕ → Bytes
escape_byte c = b'\\' ∷ b'x' ∷ hex_digit (c / 16) ∷ hex_digit (c % 16) ∷ []

unfoldable pub escape : Bytes → Bytes
escape [] = []
escape (c ∷ s) = escape_byte c ++ escape s

pub data Kind : Type 0 where
  encrypt decrypt : Kind

abbrev function_name : Kind → Bool → Bytes
function_name encrypt true = codes "DETERMINISTIC_ENCRYPT"
function_name encrypt false = codes "AEAD.ENCRYPT"
function_name decrypt true = codes "DETERMINISTIC_DECRYPT_STRING"
function_name decrypt false = codes "AEAD.DECRYPT_STRING"

abbrev pub first_argument : Kind → Bytes
first_argument encrypt = codes "plaintext"
first_argument decrypt = codes "ciphertext"

unfoldable pub routine_body : Kind → Bool → Bytes → Bytes → Bytes
routine_body kind deterministic kms escaped =
    function_name kind deterministic
    ++ (codes "(KEYS.KEYSET_CHAIN(\"gcp-kms://"
        ++ (kms
            ++ (codes "\", b\""
                ++ (escaped ++ (codes "\"), " ++ (first_argument kind ++ codes ", aad)"))))))
