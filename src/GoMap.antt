-- ===== src/GoMap.antt =====
-- Go's maps with string keys, and `cmap.ConcurrentMap`: an association list in the order in which
-- a `range` loop meets the entries. What a statement says of a map goes through `get`.
pub mod Laws
pub mod Order
use vault_plugin_aead.Prelude.{
  Bytes, same, Bool, true, false, List, [], ◌∷◌, Option, none, some, if◌then◌else◌,
}

abbrev pub GoMap {ℓ} : Type ℓ → Type ℓ
GoMap V = List (Bytes × V)

module _ {ℓ} {V : Type ℓ} where
  -- v, ok := m[k]
  unfoldable pub get : Bytes → GoMap V → Option V
  get k [] = none
  get k ((j, v) ∷ m) = if same j k then some v else get k m

  -- m[k] = v
  unfoldable pub set : Bytes → V → GoMap V → GoMap V
  set k v [] = (k, v) ∷ []
  set k v ((j, w) ∷ m) = if same j k then (k, v) ∷ m else (j, w) ∷ set k v m

  -- delete(m, k)
  unfoldable pub remove : Bytes → GoMap V → GoMap V
  remove k [] = []
  remove k ((j, v) ∷ m) = let rest = remove k m in if same j k then rest else (j, v) ∷ rest

  unfoldable pub has : Bytes → GoMap V → Bool
  has k m = elim (get k m) [ none ↦ false | some v ↦ true ]

  -- for k, v := range from { m[k] = v }
  unfoldable pub set_all : GoMap V → GoMap V → GoMap V
  set_all [] m = m
  set_all ((k, v) ∷ from) m = set_all from (set k v m)
