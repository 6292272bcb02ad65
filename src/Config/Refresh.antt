-- ===== src/Config/Refresh.antt =====
-- What the cache holds after getAeadConfig.
use vault_plugin_aead.Prelude.{
  Bytes, same, same_iff, true, [], ◌∷◌, none, some, ◌≡◌, refl, arith, ap, ◌∙◌, if◌then◌else◌,
  Bool-cases, inl, inr, All,
}
use vault_plugin_aead.GoMap.{get, set, has, set_all}
use vault_plugin_aead.GoMap.Laws.{get-cons, get-nil}
use vault_plugin_aead.GoMap.Order.{IsMap, get-set_all}
use vault_plugin_aead.Value.{Value}
use vault_plugin_aead.Lookup.{Config}
use vault_plugin_aead.Config.{prune, refresh}

has_get : (k j : Bytes) (c : Config) → same k j ≡ true → has k c ≡ has j c
has_get k j c e = ap (λ x. has x c) ((same_iff k j).0 e)

get-prune :
    (consul m : Config) (k : Bytes)
    → get k (prune consul m) ≡ (if has k consul then get k m else none)
unfolding prune
get-prune consul [] k = ground (arith, get-nil {V = Value} k)
get-prune consul ((j, v) ∷ m) k = ground (
  arith,
  get-prune consul m k,
  get-cons j k v (prune consul m),
  get-cons j k v m,
  has_get j k consul,
)

-- After a refresh the cache answers for every key as the stored config does, if the stored config has
-- each key once.
pub get-refresh :
    (consul cache : Config) (k : Bytes) → IsMap consul → get k (refresh consul cache) ≡ get k consul
unfolding refresh has
get-refresh consul cache k h =
    ground (arith, get-prune consul (set_all consul cache) k, get-set_all consul cache k h)

set-cons :
    (k : Bytes) (v : Value) (j : Bytes) (w : Value) (m : Config)
    → set k v ((j, w) ∷ m) ≡ (if same j k then (k, v) ∷ m else (j, w) ∷ set k v m)
unfolding set
set-cons k v j w m = refl

-- Writing what is there changes nothing.
set_noop : (k : Bytes) (v : Value) (m : Config) → get k m ≡ some v → set k v m ≡ m
set_noop k v [] h = cc (get-nil {V = Value} k)
set_noop k v ((j, w) ∷ m) h = elim (Bool-cases (same j k)) [
  | inl e ↦ ground (arith, set-cons k v j w m, get-cons j k w m, same_iff j k)
  | inr e ↦ ground (arith, set-cons k v j w m, get-cons j k w m, set_noop k v m)
]

-- Every entry of the first map is in the second.
abbrev Within : Config → Config → Type 0
Within c m = All (λ e. get e.0 m ≡ some e.1) c

set_all_noop : (c m : Config) → Within c m → set_all c m ≡ m
unfolding set_all
set_all_noop [] m h = refl
set_all_noop ((k, v) ∷ c) m h = rw (set_noop k v m h.0) (set_all_noop c m h.1)

Within-cons :
    (c m : Config) (k : Bytes) (v : Value) → get k c ≡ none → Within c m → Within c ((k, v) ∷ m)
Within-cons [] m k v f h = tt
Within-cons ((j, w) ∷ c) m k v f h = (
  ground (arith, get-cons k j v m, get-cons j k w c, same_iff j k, same_iff k j),
  Within-cons c m k v (ground (arith, get-cons j k w c)) h.1,
)

Within-self : (c : Config) → IsMap c → Within c c
Within-self [] h = tt
Within-self ((k, v) ∷ c) (fresh, h) =
    (ground (arith, get-cons k k v c, same_iff k k), Within-cons c c k v fresh (Within-self c h))

Within-of_get : (c m n : Config) → ((k : Bytes) → get k n ≡ get k m) → Within c m → Within c n
Within-of_get [] m n same h = tt
Within-of_get ((k, v) ∷ c) m n same h = (same k ∙ h.0, Within-of_get c m n same h.1)

prune_idem : (consul m : Config) → prune consul (prune consul m) ≡ prune consul m
unfolding prune
prune_idem consul [] = refl
prune_idem consul ((k, v) ∷ m) = ground (arith, prune_idem consul m)

refresh_unfold : (consul m : Config) → refresh consul m ≡ prune consul (set_all consul m)
unfolding refresh
refresh_unfold consul m = refl

prune-refresh : (consul m : Config) → prune consul (refresh consul m) ≡ refresh consul m
prune-refresh consul m = rw (refresh_unfold consul m) (prune_idem consul (set_all consul m))

-- A second refresh from the same stored config changes nothing.
pub refresh_idem :
    (consul cache : Config)
    → IsMap consul
    → refresh consul (refresh consul cache) ≡ refresh consul cache
refresh_idem consul cache h =
    let within =
      Within-of_get consul consul (refresh consul cache) (λ k. get-refresh consul cache k h)
        (Within-self consul h) in
    refresh_unfold consul (refresh consul cache)
    ∙ ap (prune consul) (set_all_noop consul (refresh consul cache) within)
    ∙ prune-refresh consul cache
