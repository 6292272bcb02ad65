-- ===== src/KeySet.antt =====
-- `KeySetStruct` of aeadutils/aeadutils.go: a keyset as the plugin edits it.
pub mod Updates
pub mod Primary
use vault_plugin_aead.Prelude.{
  ℕ, zero, suc, Bytes, List, [], ◌∷◌, Option, none, some, if◌then◌else◌,
}
use vault_plugin_aead.Integers.{ℤ, same_int}

pub record KeyData : Type 0 where
  pub type_url : Bytes
  pub value : Bytes
  pub key_material_type : Bytes

pub record Key : Type 0 where
  pub key_data : KeyData
  pub status : Bytes
  pub key_id : ℤ
  pub output_prefix_type : Bytes

pub record KeySetStruct : Type 0 where
  pub primary_key_id : ℤ
  pub key : List Key

abbrev pub next : Option ℕ → Option ℕ
next none = none
next (some i) = some (suc i)

-- for i, key := range k.Key { if key.KeyID == keyId { return i, nil } }
unfoldable pub find_key : ℤ → List Key → Option ℕ
find_key id [] = none
find_key id (k ∷ ks) = if same_int k.key_id id then some 0 else next (find_key id ks)

-- The error of `GetKeyID` is `none`.
unfoldable pub get_key_id : KeySetStruct → ℤ → Option ℕ
unfolding find_key
get_key_id k id = find_key id k.key

-- An assignment to a part of k.Key[index].
unfoldable pub modify : (Key → Key) → ℕ → List Key → List Key
modify f i [] = []
modify f zero (k ∷ ks) = f k ∷ ks
modify f (suc i) (k ∷ ks) = k ∷ modify f i ks

unfoldable pub update_existing_key_status : KeySetStruct → ℤ → Bytes → KeySetStruct
unfolding get_key_id modify
update_existing_key_status k id enabled = elim (get_key_id k id) [
  | none ↦ k
  | some index ↦ record k { key = modify (λ e. record e { status = enabled }) index k.key }
]

unfoldable pub update_existing_key_material : KeySetStruct → ℤ → Bytes → KeySetStruct
unfolding get_key_id modify
update_existing_key_material k id material = elim (get_key_id k id) [
  | none ↦ k
  | some index ↦ record k {
    key =
        modify (λ e. record e { key_data = record (e.key_data) { value = material } }) index k.key;
  }
]

unfoldable pub update_existing_key_id : KeySetStruct → ℤ → ℤ → KeySetStruct
unfolding get_key_id modify
update_existing_key_id k id new_id = elim (get_key_id k id) [
  | none ↦ k
  | some index ↦ record {
    primary_key_id = if same_int k.primary_key_id id then new_id else k.primary_key_id;
    key = modify (λ e. record e { key_id = new_id }) index k.key;
  }
]

unfoldable pub update_existing_primary_key_id : KeySetStruct → ℤ → KeySetStruct
unfolding get_key_id
update_existing_primary_key_id k id = elim (get_key_id k id) [
  | none ↦ k
  | some index ↦ record k { primary_key_id = id }
]
