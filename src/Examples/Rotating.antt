-- ===== src/Examples/Rotating.antt =====
-- The rotation of a config with one keyset and one setting.
use vault_plugin_aead.Prelude.{
  ℕ, Bytes, codes, Bool-cases, [], ◌∷◌, ◌++◌, Option, none, some, ok, inl, inr, ◌≡◌, refl, arith,
  same, same_iff, subst,
}
use vault_plugin_aead.GoMap.{get}
use vault_plugin_aead.GoMap.Order.{IsMap}
use vault_plugin_aead.Value.{Value, str}
use vault_plugin_aead.Keys.{get_key_prefix, validate_key_set_json}
use vault_plugin_aead.Value.Printing.{sprintf_v}
use vault_plugin_aead.Lookup.{Config}
use vault_plugin_aead.Config.{World, stored}
use vault_plugin_aead.Config.Manage.{rotated, path_key_rotate}
use vault_plugin_aead.Config.Rotating.{IsRotatable, Answering, rotated_at, path_key_rotate_all}
use vault_plugin_aead.Examples.Samples.{toy, memory, memory-IsStorage, counter, siv_keyset}
use vault_plugin_aead.Examples.Saving.{engines-AreUp}

abbrev before : Config
before = (codes "siv/n", str siv_keyset) ∷ (codes "TELEMETRY_LM", str (codes "VF")) ∷ []

abbrev before_world : World memory counter
unfolding memory counter
before_world = record { cache = []; storage = some before; kv = 0; published = [] }

before_read : memory.read_entry before_world.storage ≡ ok (some before)
unfolding memory before_world same
before_read = refl

cache-IsMap : IsMap before_world.cache
unfolding before_world
cache-IsMap = tt

abbrev seed : Bytes → ℕ
seed name = 0

key-IsRotatable : IsRotatable toy seed (codes "siv/n", str siv_keyset)
unfolding toy validate_key_set_json get_key_prefix rotated same
key-IsRotatable = inr ((siv_keyset, refl), siv_keyset ++ codes ",rotated", refl, refl)

setting-IsRotatable : IsRotatable toy seed (codes "TELEMETRY_LM", str (codes "VF"))
unfolding toy validate_key_set_json sprintf_v
setting-IsRotatable = inl (codes "Not a key VF", refl)

no_entry : {v : Value} → ◌≡◌ {A = Option Value} none (some v) → ⊥
no_entry h = cc

before-IsRotatable :
    (n : Bytes) (v : Value) → get n (stored (some before)) ≡ some v → IsRotatable toy seed (n, v)
unfolding get
before-IsRotatable n v h = elim (Bool-cases (same (codes "siv/n") n)) [
  | inl e ↦
      let q : str siv_keyset ≡ v = ground arith in
      subst (λ m. IsRotatable toy seed (m, v)) ((same_iff (codes "siv/n") n).0 e)
        (subst (λ u. IsRotatable toy seed (codes "siv/n", u)) q key-IsRotatable)
  | inr e ↦ elim (Bool-cases (same (codes "TELEMETRY_LM") n)) [
    | inl e' ↦
        let q : str (codes "VF") ≡ v = ground arith in
        subst (λ m. IsRotatable toy seed (m, v)) ((same_iff (codes "TELEMETRY_LM") n).0 e')
          (subst (λ u. IsRotatable toy seed (codes "TELEMETRY_LM", u)) q setting-IsRotatable)
    | inr e' ↦ let q : ◌≡◌ {A = Option Value} none (some v) = ground arith in absurd (no_entry q)
  ]
]

path_key_rotate_all_example :
    (w' : World memory counter) × (path_key_rotate toy seed before_world ≡ (ok tt, w'))
    × Answering toy seed w' (λ n. rotated_at toy seed n (get n (stored (some before))))
path_key_rotate_all_example =
    path_key_rotate_all toy seed memory-IsStorage engines-AreUp before_world (some before)
      before_read cache-IsMap before-IsRotatable
