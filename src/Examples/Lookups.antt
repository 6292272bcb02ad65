-- ===== src/Examples/Lookups.antt =====
-- Key lookups, name prefixes, pivots and keyset edits at concrete inputs.
use vault_plugin_aead.Prelude.{
  ℕ, codes, false, List, [], ◌∷◌, ◌++◌, none, some, ok, ◌≡◌, ◌<◌, ◌↔◌, refl, arith, same, All,
  Bool-cases, inl, inr,
}
use vault_plugin_aead.Text.{contains}
use vault_plugin_aead.Text.Muting.{IsMaterial}
use vault_plugin_aead.GoMap.{GoMap, get}
use vault_plugin_aead.GoMap.Order.{over}
use vault_plugin_aead.Value.{Value, str}
use vault_plugin_aead.Integers.{ℤ, pos}
use vault_plugin_aead.KeySet.{KeySetStruct, Key, update_existing_key_status}
use vault_plugin_aead.KeySet.Updates.{on_first, update_existing_key_status-eq-on_first}
use vault_plugin_aead.KeySet.Primary.{
  HasPrimary, Update, status, rename, primary, apply_all, apply_all-HasPrimary,
}
use vault_plugin_aead.Keys.{
  validate_key_set_json, get_key_prefix, remove_key_prefix, mute_key_material, siv,
}
use vault_plugin_aead.Keys.Prefix.{remove_key_prefix-get_key_prefix}
use vault_plugin_aead.Keys.Mute.{mute_key_material_hides}
use vault_plugin_aead.Lookup.{Config, get_encryption_key, get_encryption_key_multiple}
use vault_plugin_aead.Lookup.Chain.{AllStrings, Chain, IsKeyset, IsName, get_encryption_key_iff}
use vault_plugin_aead.Lookup.Cycles.{here, there, get_encryption_key_cycle}
use vault_plugin_aead.Lookup.Multiple.{multiple_inverted}
use vault_plugin_aead.Pivot.{pivot_map, pivot_map_int}
use vault_plugin_aead.Pivot.Transpose.{IsTable, get2, get2-pivot_map}
use vault_plugin_aead.Pivot.Values.{embed, rows, pivot_map_int-embed}
use vault_plugin_aead.Examples.Samples.{toy, siv_keyset}

-- Five aliases in a circle, and an alias of a keyset.
abbrev circle : Config
circle = (codes "a", str (codes "b")) ∷ (codes "b", str (codes "a")) ∷ []

abbrev family : Config
family = (codes "k", str siv_keyset) ∷ (codes "f", str (codes "k")) ∷ []

a-IsName : IsName toy (codes "a")
unfolding toy validate_key_set_json
a-IsName = (codes "Not a key a", refl)

b-IsName : IsName toy (codes "b")
unfolding toy validate_key_set_json
b-IsName = (codes "Not a key b", refl)

k-IsName : IsName toy (codes "k")
unfolding toy validate_key_set_json
k-IsName = (codes "Not a key k", refl)

a_entry : get (codes "a") circle ≡ some (str (codes "b"))
unfolding get same
a_entry = refl

b_entry : get (codes "b") circle ≡ some (str (codes "a"))
unfolding get same
b_entry = refl

circle-AllStrings : AllStrings circle
unfolding get
circle-AllStrings name v h = elim (Bool-cases (same (codes "a") name)) [
  | inl e ↦ (codes "b", ground arith)
  | inr e ↦ elim (Bool-cases (same (codes "b") name)) [
    | inl e' ↦ (codes "a", ground arith)
    | inr e' ↦ ground arith
  ]
]

get_encryption_key_cycle_example : get_encryption_key toy circle (codes "a") ≡ ok none
get_encryption_key_cycle_example =
    get_encryption_key_cycle toy circle 1 (codes "a") circle-AllStrings
      (there a_entry b-IsName (there b_entry a-IsName here))

get_encryption_key_iff_example :
    (get_encryption_key toy family (codes "f") ≡ ok (some (str siv_keyset)))
    ↔ ((n : ℕ) × (n < 5) × Chain toy family n (codes "f") siv_keyset)
get_encryption_key_iff_example = get_encryption_key_iff toy family (codes "f") siv_keyset

k_entry : get (codes "k") family ≡ some (str siv_keyset)
unfolding get same
k_entry = refl

no_entry : get siv_keyset family ≡ none
unfolding get same
no_entry = refl

multiple_inverted_example :
    (IsKeyset toy siv_keyset
      → (get_encryption_key toy family (codes "k") ≡ ok (some (str siv_keyset)))
        × (get_encryption_key_multiple toy family (codes "k") ≡ ok none))
    × (IsName toy siv_keyset
        → (get_encryption_key toy family (codes "k") ≡ ok none)
          × (get_encryption_key_multiple toy family (codes "k") ≡ ok (some (str siv_keyset))))
multiple_inverted_example = multiple_inverted toy family (codes "k") siv_keyset k_entry no_entry

n_prefix : get_key_prefix toy (codes "n") siv_keyset none ≡ ok siv
unfolding get_key_prefix toy same
n_prefix = refl

remove_key_prefix-get_key_prefix_example :
    remove_key_prefix (siv ++ codes "n") ≡ remove_key_prefix (codes "n")
remove_key_prefix-get_key_prefix_example =
    remove_key_prefix-get_key_prefix toy (codes "n") siv_keyset none n_prefix

secret-IsMaterial : All IsMaterial (codes "secret" ∷ [])
secret-IsMaterial = (
  (
    (λ h. cc),
    (
      ground arith,
      (ground arith, (ground arith, (ground arith, (ground arith, (ground arith, tt))))),
    ),
  ),
  tt,
)

mute_run : mute_key_material toy siv_keyset ≡ ok (codes "primaryKeyId:1,AesSivKey,value:***")
unfolding mute_key_material toy
mute_run = refl

toy_values : toy.unmarshal_values siv_keyset ≡ some (codes "secret" ∷ [])
unfolding toy
toy_values = refl

mute_key_material_hides_example :
    All (λ v. contains v (codes "primaryKeyId:1,AesSivKey,value:***") ≡ false) (codes "secret" ∷ [])
mute_key_material_hides_example =
    mute_key_material_hides toy siv_keyset (codes "secret" ∷ []) toy_values secret-IsMaterial
      mute_run

abbrev table : GoMap (GoMap Value)
table =
    (codes "0", (codes "f", str (codes "x")) ∷ (codes "g", str (codes "y")) ∷ [])
    ∷ (codes "1", (codes "f", str (codes "z")) ∷ [])
    ∷ []

table-IsTable : IsTable table
unfolding get same
table-IsTable = (refl, (refl, (refl, tt)), (refl, (refl, tt), tt))

get2-pivot_map_example :
    get2 (codes "f") (codes "1") (pivot_map table [])
    ≡ over (get2 (codes "1") (codes "f") table) (get2 {V = Value} (codes "f") (codes "1") [])
get2-pivot_map_example = get2-pivot_map table [] (codes "f") (codes "1") table-IsTable

pivot_map_int-embed_example :
    pivot_map_int (embed table) (embed []) ≡ ok (embed (pivot_map (rows (embed table)) []))
pivot_map_int-embed_example = pivot_map_int-embed (embed table) []

abbrev some_key : ℤ → Key
some_key id = record {
  key_data = record {
    type_url = codes "t";
    value = codes "v";
    key_material_type = codes "SYMMETRIC";
  };
  status = codes "ENABLED";
  key_id = id;
  output_prefix_type = codes "TINK";
}

abbrev keyset_struct : KeySetStruct
keyset_struct = record { primary_key_id = pos 7; key = some_key (pos 3) ∷ some_key (pos 7) ∷ [] }

update_existing_key_status-eq-on_first_example :
    update_existing_key_status keyset_struct (pos 3) (codes "DISABLED") ≡ record keyset_struct {
      key = on_first (pos 3) (λ e. record e { status = codes "DISABLED" }) keyset_struct.key;
    }
update_existing_key_status-eq-on_first_example =
    update_existing_key_status-eq-on_first keyset_struct (pos 3) (codes "DISABLED")

struct-HasPrimary : HasPrimary keyset_struct
struct-HasPrimary = refl

abbrev updates : List Update
updates = rename (pos 7) (pos 9) ∷ primary (pos 3) ∷ status (pos 3) (codes "DISABLED") ∷ []

apply_all-HasPrimary_example : HasPrimary (apply_all updates keyset_struct)
apply_all-HasPrimary_example = apply_all-HasPrimary updates keyset_struct struct-HasPrimary
