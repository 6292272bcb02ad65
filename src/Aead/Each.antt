-- ===== src/Aead/Each.antt =====
-- The results of the goroutines of a loop, one for each entry, and their collection.
use vault_plugin_aead.Prelude.{
  All, Bytes, [], ◌∷◌, List, Option, none, some, Outcome, ok, >>=-eq-ok, ◌≡◌, refl, arith, same,
  same_iff, same_refl, Bool-cases, inl, inr,
}
use vault_plugin_aead.GoMap.{GoMap, get, set, set_all}
use vault_plugin_aead.GoMap.Laws.{get-nil, get-cons, get-head}
use vault_plugin_aead.GoMap.Order.{IsMap, get-set_all, perm-SameMap, set-IsMap}
use vault_plugin_aead.Value.{Value}
use vault_plugin_aead.Aead.{Env, IsFair, collect}
use vault_plugin_aead.Value.Each.{each}

-- What the response holds at a key, against what the request holds there.
abbrev pub Answers : (Bytes → Value → Outcome Value) → Bytes → Option Value → Option Value → Type 0
Answers f name none o = o ≡ none
Answers f name (some v) o = (c : Value) × (f name v ≡ ok c) × (o ≡ some c)

pub other_name :
    (name name' : Bytes) (v v' : Value) (raw : GoMap Value)
    → get name raw ≡ none
    → get name' raw ≡ some v'
    → get name' ((name, v) ∷ raw) ≡ some v'
other_name name name' v v' raw fresh e =
    ground (arith, get-cons name name' v raw, same_iff name name')

module _ (f : Bytes → Value → Outcome Value) where
  pub each-cons :
      (name : Bytes) (v : Value) (raw : GoMap Value) {sent : GoMap Value}
      → each f ((name, v) ∷ raw) ≡ ok sent
      → (c : Value) × (rest : GoMap Value) × (f name v ≡ ok c)
        × (each f raw ≡ ok rest)
        × (sent ≡ (name, c) ∷ rest)
  unfolding each
  each-cons name v raw h =
      let (c, e, h') = >>=-eq-ok (f name v) _ h in
      let (rest, e', h'') = >>=-eq-ok (each f raw) _ h' in (c, rest, e, e', cc h'')

  each-nil : {sent : GoMap Value} → each f [] ≡ ok sent → sent ≡ []
  unfolding each
  each-nil h = cc

  pub each-get :
      (raw sent : GoMap Value) (k : Bytes)
      → each f raw ≡ ok sent
      → Answers f k (get k raw) (get k sent)
  each-get [] sent k h = rw (each-nil h, get-nil)
  each-get ((name, v) ∷ raw) sent k h =
      let (c, rest, e, e', q) = each-cons name v raw h in
      rw q (elim (Bool-cases (same name k)) [
        | inl s ↦ rw (get-cons, get-cons, s) (c, rw ((same_iff name k).0 s) at e, refl)
        | inr s ↦ rw (get-cons, get-cons, s) (each-get raw rest k e')
      ])

  each_absent :
      (raw sent : GoMap Value) (k : Bytes)
      → each f raw ≡ ok sent
      → get k raw ≡ none
      → get k sent ≡ none
  each_absent raw sent k h n = rw n at (each-get raw sent k h)

  pub each-IsMap : (raw sent : GoMap Value) → each f raw ≡ ok sent → IsMap raw → IsMap sent
  each-IsMap [] sent h m = rw (each-nil h) tt
  each-IsMap ((name, v) ∷ raw) sent h (fresh, m) =
      let (c, rest, e, e', q) = each-cons name v raw h in
      rw q (each_absent raw rest name e' fresh, each-IsMap raw rest e' m)

  each_step :
      (name : Bytes) (v c : Value) (raw rest : GoMap Value)
      → f name v ≡ ok c
      → each f raw ≡ ok rest
      → each f ((name, v) ∷ raw) ≡ ok ((name, c) ∷ rest)
  unfolding each
  each_step name v c raw rest e e' = rw (e, e')

  -- If every entry of a map succeeds, the loop does.
  pub each_total :
      (raw : GoMap Value)
      → IsMap raw
      → ((name : Bytes) (v : Value) → get name raw ≡ some v → (c : Value) × (f name v ≡ ok c))
      → (sent : GoMap Value) × (each f raw ≡ ok sent)
  each_total [] m h = ([], unfold each in refl)
  each_total ((name, v) ∷ raw) (fresh, m) h =
      let (c, e) = h name v (get-head name name v raw (same_refl name)) in
      let (rest, e') =
        each_total raw m (λ name' v' q. h name' v' (other_name name name' v v' raw fresh q)) in
      ((name, c) ∷ rest, each_step name v c raw rest e e')

-- What holds of each lookup of a map holds of each entry.
pub All-IsMap :
    (P : Bytes × Value → Type 0) (m : GoMap Value)
    → IsMap m
    → ((k : Bytes) (v : Value) → get k m ≡ some v → P (k, v))
    → All P m
All-IsMap P [] h p = tt
All-IsMap P ((k, v) ∷ m) (fresh, h) p = (
  p k v (get-head k k v m (same_refl k)),
  All-IsMap P m h (λ k' v' q. p k' v' (other_name k k' v v' m fresh q)),
)

-- The order of delivery does not show in the response.
pub get-collect :
    (env : Env) (path : List Bytes) (sent : GoMap Value) (k : Bytes)
    → IsFair env
    → IsMap sent
    → get k (collect env path sent) ≡ get k sent
unfolding collect
get-collect env path sent k fair m =
    let s = perm-SameMap (fair.delivered path sent) m in
    ground (
      arith,
      get-set_all (env.deliver path sent) [] k s.is_map,
      s.same_get k,
      get-nil {V = Value} k,
    )

pub set_all-IsMap : (from m : GoMap Value) → IsMap m → IsMap (set_all from m)
unfolding set_all
set_all-IsMap [] m h = h
set_all-IsMap ((k, v) ∷ from) m h = set_all-IsMap from (set k v m) (set-IsMap k v m h)

pub collect-IsMap :
    (env : Env) (path : List Bytes) (sent : GoMap Value) → IsMap (collect env path sent)
unfolding collect
collect-IsMap env path sent = set_all-IsMap (env.deliver path sent) [] tt
