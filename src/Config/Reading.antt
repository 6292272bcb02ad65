-- ===== src/Config/Reading.antt =====
-- What pathConfigRead answers.
use vault_plugin_aead.Prelude.{Bytes, [], ◌∷◌, none, ◌≡◌, refl, arith, Bool-cases, inl, inr}
use vault_plugin_aead.Prelude.{◌>>=◌ as bind}
use vault_plugin_aead.GoMap.{GoMap, get, has, set_all}
use vault_plugin_aead.GoMap.Order.{IsMap}
use vault_plugin_aead.Value.{Value}
use vault_plugin_aead.Tink.{Tink}
use vault_plugin_aead.Lookup.{Config}
use vault_plugin_aead.Config.{prune, refresh}
use vault_plugin_aead.Aead.Each.{set_all-IsMap}

get-prune_absent : (consul m : Config) (k : Bytes) → get k m ≡ none → get k (prune consul m) ≡ none
unfolding prune get
get-prune_absent consul [] k h = refl
get-prune_absent consul ((j, v) ∷ m) k h = ground (arith, get-prune_absent consul m k)

prune-IsMap : (consul m : Config) → IsMap m → IsMap (prune consul m)
unfolding prune
prune-IsMap consul [] h = tt
prune-IsMap consul ((j, v) ∷ m) (fresh, h) = elim (Bool-cases (has j consul)) [
  | inl e ↦ rw e (get-prune_absent consul m j fresh, prune-IsMap consul m h)
  | inr e ↦ rw e (prune-IsMap consul m h)
]

pub refresh-IsMap : (consul cache : Config) → IsMap cache → IsMap (refresh consul cache)
unfolding refresh
refresh-IsMap consul cache h =
    prune-IsMap consul (set_all consul cache) (set_all-IsMap consul cache h)
