-- ===== src/Value.antt =====
-- The values of Go's `interface{}` in requests, config and responses, and how `fmt` prints them.
-- Vault decodes the numbers of a request as `json.Number`, whose kind is a string.
pub mod Printing
pub mod Each
use vault_plugin_aead.Prelude.{
  ℕ, Bytes, codes, Bool, true, false, List, [], ◌∷◌, ◌++◌, Option, none, some, ltb, if◌then◌else◌,
  ◌≡◌, refl, ap,
}
use vault_plugin_aead.GoMap.{GoMap}

mutual
  pub data Value : Type 0 where
    null : Value
    bool : Bool → Value
    number : Bytes → Value
    str : Bytes → Value
    arr : Items → Value
    obj : Fields → Value

  pub data Items : Type 0 where
    nil : Items
    cons : Value → Items → Items

  pub data Fields : Type 0 where
    end : Fields
    field : Bytes → Value → Fields → Fields

-- A `map[string]interface{}` as a map, and as a value.
abbrev pub entries : Fields → GoMap Value
entries end = []
entries (field k v fs) = (k, v) ∷ entries fs

abbrev pub to_fields : GoMap Value → Fields
to_fields [] = end
to_fields ((k, v) ∷ m) = field k v (to_fields m)

pub entries-to_fields : (m : GoMap Value) → entries (to_fields m) ≡ m
entries-to_fields [] = refl
entries-to_fields ((k, v) ∷ m) = ap (λ (r : GoMap Value). (k, v) ∷ r) (entries-to_fields m)

-- v.(map[string]interface{})
abbrev pub as_map : Value → Option (GoMap Value)
as_map (obj fs) = some (entries fs)
as_map _ = none

-- v.(string)
abbrev pub as_str : Value → Option Bytes
as_str (str s) = some s
as_str _ = none
