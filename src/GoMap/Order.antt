-- ===== src/GoMap/Order.antt =====
-- Maps without two entries of one key, writes of a whole map, and independence of the order.
use mathlib.Core.List.{Permᴰ}
use vault_plugin_aead.Prelude.{
  Bytes, same_iff, [], ◌∷◌, Option, none, some, ◌≡◌, refl, arith, ◌∙◌, ap,
}
use vault_plugin_aead.GoMap.{GoMap, get, set, set_all}
use vault_plugin_aead.GoMap.Laws.{get-set}

module _ {ℓ} {V : Type ℓ} where
  -- No two entries have one key, as in every Go map.
  abbrev pub IsMap : GoMap V → Type ℓ
  IsMap [] = Unit
  IsMap ((k, v) ∷ m) = (get k m ≡ none) × IsMap m

  abbrev pub over : Option V → Option V → Option V
  over (some v) o = some v
  over none o = o

  pub get-set_all :
      (from m : GoMap V) (k : Bytes)
      → IsMap from
      → get k (set_all from m) ≡ over (get k from) (get k m)
  unfolding get set_all
  get-set_all [] m k h = refl
  get-set_all ((j, v) ∷ from) m k (fresh, h) =
      ground (arith, get-set_all from (set j v m) k h, get-set j k v m, same_iff j k, fresh)

  -- Two lists of the same entries.
  pub record SameMap (l m : GoMap V) : Type ℓ where
    pub is_map : IsMap m
    pub same_get : (k : Bytes) → get k l ≡ get k m

  get-cons_congr :
      {i j : Bytes} {v w : V} (l m : GoMap V) (k : Bytes)
      → i ≡ j
      → v ≡ w
      → get k l ≡ get k m
      → get k ((i, v) ∷ l) ≡ get k ((j, w) ∷ m)
  unfolding get
  get-cons_congr l m k ei ev h = cc

  swap_congr :
      {i j i' j' : Bytes} {v w v' w' : V} (l : GoMap V)
      → i ≡ j'
      → v ≡ w'
      → j ≡ i'
      → w ≡ v'
      → IsMap ((i, v) ∷ (j, w) ∷ l)
      → SameMap ((i, v) ∷ (j, w) ∷ l) ((i', v') ∷ (j', w') ∷ l)
  unfolding get
  swap_congr {i} {j} {i'} {j'} l ei ev ej ew h = record {
    is_map = (ground (arith, same_iff i j, same_iff j' i'), (ground arith, h.1.1));
    same_get = λ k. ground (
      arith,
      same_iff i j,
      same_iff j' i',
      same_iff i k,
      same_iff j k,
      same_iff i' k,
      same_iff j' k,
    );
  }

  -- Entries with different keys may be met in any order.
  pub perm-SameMap : {l m : GoMap V} → Permᴰ l m → IsMap l → SameMap l m
  perm-SameMap Permᴰ.nil h = record { is_map = h; same_get = λ k. refl }
  perm-SameMap (Permᴰ.cons {a = (i, v)} {b = (j, w)} {l₁ = l} {l₂ = m} e p) h =
      let ih = perm-SameMap p h.1 in
      let ei = ap (λ x. x.0) e in
      let ev = ap (λ x. x.1) e in
      record {
        is_map = (cc (ih.same_get j, ei, h.0), ih.is_map);
        same_get = λ k. get-cons_congr l m k ei ev (ih.same_get k);
      }
  perm-SameMap (Permᴰ.swap {a = (i, v)} {b = (j, w)} {a' = (i', v')} {b' = (j', w')} {l = l} e f)
        h =
      swap_congr l (ap (λ x. x.0) e) (ap (λ x. x.1) e) (ap (λ x. x.0) f) (ap (λ x. x.1) f) h
  perm-SameMap (Permᴰ.trans p q) h =
      let ih = perm-SameMap p h in
      let ih' = perm-SameMap q ih.is_map in
      record { is_map = ih'.is_map; same_get = λ k. ih.same_get k ∙ ih'.same_get k }

  -- Writing the entries of a map in any order gives one result.
  pub get-set_all_perm :
      {from from' : GoMap V} (m : GoMap V) (k : Bytes)
      → Permᴰ from from'
      → IsMap from
      → get k (set_all from m) ≡ get k (set_all from' m)
  get-set_all_perm {from} {from'} m k p h =
      let s = perm-SameMap p h in
      cc (get-set_all from m k h, get-set_all from' m k s.is_map, s.same_get k)

  -- Writing a key keeps the keys different.
  pub set-IsMap : (k : Bytes) (v : V) (m : GoMap V) → IsMap m → IsMap (set k v m)
  unfolding get set
  set-IsMap k v [] h = (refl, tt)
  set-IsMap k v ((j, w) ∷ m) (fresh, h) =
      ground (arith, set-IsMap k v m h, get-set k j v m, same_iff j k, same_iff k j, fresh)
