-- ===== src/Pivot/Transpose.antt =====
-- The pivoted map holds at field, row what the map holds at row, field.
use vault_plugin_aead.Prelude.{
  Bytes, same, same_iff, [], ◌∷◌, Option, none, some, ◌≡◌, arith, if◌then◌else◌, Option-cases, inl,
  inr, ◌∙◌, sym, subst, Bool-cases,
}
use mathlib.Core.Option.{some-injective}
use vault_plugin_aead.GoMap.{GoMap, get, set}
use vault_plugin_aead.GoMap.Laws.{get-set, get-nil, get-cons, get-head, get-tail}
use vault_plugin_aead.GoMap.Order.{IsMap, over, set-IsMap}
use vault_plugin_aead.Pivot.{put, pivot_row, pivot_map}

module _ {ℓ} {V : Type ℓ} where
  abbrev pub at : Bytes → Option (GoMap V) → Option V
  at b none = none
  at b (some m) = get b m

  -- m[a][b]
  abbrev pub get2 : Bytes → Bytes → GoMap (GoMap V) → Option V
  get2 a b m = at b (get a m)

  -- Each row is a map, and so is the whole.
  abbrev pub IsTable : GoMap (GoMap V) → Type ℓ
  IsTable [] = Unit
  IsTable ((k, row) ∷ m) = (get k m ≡ none) × IsMap row × IsTable m

  get2-put :
      (ki k : Bytes) (vi : V) (new : GoMap (GoMap V)) (a b : Bytes)
      → get2 a b (put ki k vi new)
        ≡ (if same ki a then (if same k b then some vi else get2 a b new) else get2 a b new)
  unfolding put
  get2-put ki k vi new a b = elim (Option-cases (get ki new)) [
    | inl e ↦ ground (
      arith,
      get-set ki a ((k, vi) ∷ []) new,
      get-cons k b vi [],
      get-nil {V = V} b,
      same_iff ki a,
    )
    | inr (inner, e) ↦
        ground (arith, get-set ki a (set k vi inner) new, get-set k b vi inner, same_iff ki a)
  ]

  get2-pivot_row :
      (k : Bytes) (row : GoMap V) (new : GoMap (GoMap V)) (a b : Bytes)
      → IsMap row
      → get2 a b (pivot_row k row new)
        ≡ (if same k b then over (get a row) (get2 a b new) else get2 a b new)
  unfolding pivot_row
  get2-pivot_row k [] new a b h = ground (arith, get-nil {V = V} a)
  get2-pivot_row k ((ki, vi) ∷ row) new a b (fresh, h) = ground (
    arith,
    get2-pivot_row k row (put ki k vi new) a b h,
    get2-put ki k vi new a b,
    get-cons ki a vi row,
    same_iff ki a,
    fresh,
  )

  get2-cons :
      (k : Bytes) (row : GoMap V) (m : GoMap (GoMap V)) (a b : Bytes)
      → get2 a b ((k, row) ∷ m) ≡ (if same k a then get b row else get2 a b m)
  get2-cons k row m a b = ground (arith, get-cons k a row m)

  -- PivotMap of a table puts each cell of row b and field a at row a and field b of the new map, over
  -- what the new map holds, and leaves its other cells alone.
  pub get2-pivot_map :
      (original new : GoMap (GoMap V)) (a b : Bytes)
      → IsTable original
      → get2 a b (pivot_map original new) ≡ over (get2 b a original) (get2 a b new)
  unfolding pivot_map
  get2-pivot_map [] new a b h = ground (arith, get-nil {V = GoMap V} b)
  get2-pivot_map ((k, row) ∷ original) new a b (fresh, h, hs) = ground (
    arith,
    get2-pivot_map original (pivot_row k row new) a b hs,
    get2-pivot_row k row new a b h,
    get2-cons k row original b a,
    same_iff k b,
    fresh,
  )

  row-IsMap :
      (m : GoMap (GoMap V)) (k : Bytes) (row : GoMap V) → IsTable m → get k m ≡ some row → IsMap row
  row-IsMap [] k row h e = cc (get-nil {V = GoMap V} k)
  row-IsMap ((j, r) ∷ m) k row (fresh, hr, h) e = elim (Bool-cases (same j k)) [
    | inl s ↦ subst IsMap (some-injective r row (sym (get-head j k r m s) ∙ e)) hr
    | inr s ↦ row-IsMap m k row h (sym (get-tail j k r m s) ∙ e)
  ]

  set-IsTable :
      (k : Bytes) (row : GoMap V) (m : GoMap (GoMap V))
      → IsMap row
      → IsTable m
      → IsTable (set k row m)
  unfolding set
  set-IsTable k row [] hr h = (get-nil {V = GoMap V} k, hr, tt)
  set-IsTable k row ((j, r) ∷ m) hr (fresh, hj, h) = elim (Bool-cases (same j k)) [
    | inl s ↦ rw (s, set) (rw ((same_iff j k).0 s) at fresh, hr, h)
    | inr s ↦
        rw (s, set)
          (
            ground (arith, get-set k j row m, same_iff k j, same_iff j k),
            hj,
            set-IsTable k row m hr h,
          )
  ]

  put-IsTable :
      (ki k : Bytes) (vi : V) (new : GoMap (GoMap V)) → IsTable new → IsTable (put ki k vi new)
  unfolding put
  put-IsTable ki k vi new h = elim (Option-cases (get ki new)) [
    | inl e ↦ rw (e, put) (set-IsTable ki ((k, vi) ∷ []) new (get-nil {V = V} k, tt) h)
    | inr (inner, e) ↦
        rw (e, put)
          (set-IsTable ki (set k vi inner) new (set-IsMap k vi inner (row-IsMap new ki inner h e))
            h)
  ]

  pivot_row-IsTable :
      (k : Bytes) (row : GoMap V) (new : GoMap (GoMap V))
      → IsTable new
      → IsTable (pivot_row k row new)
  unfolding pivot_row
  pivot_row-IsTable k [] new h = h
  pivot_row-IsTable k ((ki, vi) ∷ row) new h =
      pivot_row-IsTable k row (put ki k vi new) (put-IsTable ki k vi new h)

  pub pivot_map-IsTable :
      (original new : GoMap (GoMap V)) → IsTable new → IsTable (pivot_map original new)
  unfolding pivot_map
  pivot_map-IsTable [] new h = h
  pivot_map-IsTable ((k, row) ∷ original) new h =
      pivot_map-IsTable original (pivot_row k row new) (pivot_row-IsTable k row new h)
