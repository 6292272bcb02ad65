-- ===== src/GoMap/Laws.antt =====
-- What `get` returns after each operation of a map.
use vault_plugin_aead.Prelude.{
  Bytes, same, same_iff, same_refl, [], ◌∷◌, none, some, true, false, ◌≡◌, ◌≢◌, refl, arith,
  if◌then◌else◌,
}
use vault_plugin_aead.GoMap.{GoMap, get, set, remove}

module _ {ℓ} {V : Type ℓ} where
  pub get-nil : (k : Bytes) → get {V = V} k [] ≡ none
  unfolding get
  get-nil k = refl

  pub get-cons :
      (j k : Bytes) (v : V) (m : GoMap V)
      → get k ((j, v) ∷ m) ≡ (if same j k then some v else get k m)
  unfolding get
  get-cons j k v m = refl

  pub get-head : (j k : Bytes) (v : V) (m : GoMap V) → same j k ≡ true → get k ((j, v) ∷ m) ≡ some v
  get-head j k v m s = ground (arith, get-cons j k v m)

  pub get-tail :
      (j k : Bytes) (v : V) (m : GoMap V) → same j k ≡ false → get k ((j, v) ∷ m) ≡ get k m
  get-tail j k v m s = ground (arith, get-cons j k v m)

  pub get-set :
      (k j : Bytes) (v : V) (m : GoMap V)
      → get j (set k v m) ≡ (if same k j then some v else get j m)
  unfolding get set
  get-set k j v [] = refl
  get-set k j v ((i, w) ∷ m) =
      ground (arith, get-set k j v m, same_iff i k, same_iff i j, same_iff k j)

  pub get-remove :
      (k j : Bytes) (m : GoMap V) → get j (remove k m) ≡ (if same k j then none else get j m)
  unfolding get remove
  get-remove k j [] = ground arith
  get-remove k j ((i, w) ∷ m) =
      ground (arith, get-remove k j m, same_iff i k, same_iff i j, same_iff k j)

  pub get-set_self : (k : Bytes) (v : V) (m : GoMap V) → get k (set k v m) ≡ some v
  get-set_self k v m = ground (arith, get-set k k v m, same_refl k)

  pub get-set_ne : (k j : Bytes) (v : V) (m : GoMap V) → k ≢ j → get j (set k v m) ≡ get j m
  get-set_ne k j v m h = ground (arith, get-set k j v m, same_iff k j)
