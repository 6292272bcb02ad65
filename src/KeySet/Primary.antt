-- ===== src/KeySet/Primary.antt =====
-- The primary key of a keyset stays one of its keys, whatever is updated.
use vault_plugin_aead.Prelude.{
  ℕ, Bytes, List, [], ◌∷◌, Option, some, ◌≡◌, ◌≢◌, ◌∙◌, sym, refl, ap, arith, if◌then◌else◌, Bool,
  ◌||◌, Bool-cases, Option-cases, inl, inr, true, false,
}
use vault_plugin_aead.Integers.{ℤ, same_int, same_int_iff}
use vault_plugin_aead.KeySet.{
  Key, KeySetStruct, find_key, get_key_id, modify, update_existing_key_status,
  update_existing_key_material, update_existing_key_id, update_existing_primary_key_id,
}
use vault_plugin_aead.KeySet.Updates.{
  on_first, modify_found, modify-find_key, update_existing_key_status-eq-on_first,
  update_existing_key_material-eq-on_first,
}

abbrev pub has_key : ℤ → List Key → Bool
has_key id [] = false
has_key id (k ∷ ks) = same_int k.key_id id || has_key id ks

-- Tink refuses a keyset whose primary key is missing.
abbrev pub HasPrimary : KeySetStruct → Type 0
HasPrimary k = has_key k.primary_key_id k.key ≡ true

find_key-has_key : (id : ℤ) (ks : List Key) (i : ℕ) → find_key id ks ≡ some i → has_key id ks ≡ true
unfolding find_key
find_key-has_key id [] i h = cc
find_key-has_key id (k ∷ ks) i h = elim (Option-cases (find_key id ks)) [
  | inl e ↦ ground arith
  | inr (j, e) ↦ ground (arith, find_key-has_key id ks j e)
]

-- A change that keeps the ids keeps the keys.
has_key-on_first_same :
    (p id : ℤ) (f : Key → Key)
    → ((e : Key) → (f e).key_id ≡ e.key_id)
    → (ks : List Key) → has_key p (on_first id f ks) ≡ has_key p ks
has_key-on_first_same p id f same [] = refl
has_key-on_first_same p id f same (k ∷ ks) =
    ground (arith, same k, has_key-on_first_same p id f same ks)

-- A renamed key leaves the keys with other ids.
has_key-rename_ne :
    (p id new_id : ℤ) (ks : List Key)
    → id ≢ p
    → has_key p ks ≡ true
    → has_key p (on_first id (λ e. record e { key_id = new_id }) ks) ≡ true
has_key-rename_ne p id new_id [] n h = h
has_key-rename_ne p id new_id (k ∷ ks) n h =
    ground
      (arith, same_int_iff k.key_id p, same_int_iff k.key_id id, has_key-rename_ne p id new_id ks n)

-- A renamed key is there under its new id.
has_key-rename_self :
    (id new_id : ℤ) (ks : List Key)
    → has_key id ks ≡ true
    → has_key new_id (on_first id (λ e. record e { key_id = new_id }) ks) ≡ true
has_key-rename_self id new_id [] h = cc
has_key-rename_self id new_id (k ∷ ks) h =
    ground (arith, same_int_iff new_id new_id, has_key-rename_self id new_id ks)

pub update_existing_key_status-HasPrimary :
    (k : KeySetStruct) (id : ℤ) (status : Bytes)
    → HasPrimary k
    → HasPrimary (update_existing_key_status k id status)
update_existing_key_status-HasPrimary k id status h =
    rw (update_existing_key_status-eq-on_first k id status)
      (has_key-on_first_same k.primary_key_id id _ (λ e. refl) k.key ∙ h)

pub update_existing_key_material-HasPrimary :
    (k : KeySetStruct) (id : ℤ) (material : Bytes)
    → HasPrimary k
    → HasPrimary (update_existing_key_material k id material)
update_existing_key_material-HasPrimary k id material h =
    rw (update_existing_key_material-eq-on_first k id material)
      (has_key-on_first_same k.primary_key_id id _ (λ e. refl) k.key ∙ h)

pub update_existing_primary_key_id-HasPrimary :
    (k : KeySetStruct) (id : ℤ) → HasPrimary k → HasPrimary (update_existing_primary_key_id k id)
unfolding update_existing_primary_key_id get_key_id
update_existing_primary_key_id-HasPrimary k id h = elim (Option-cases (find_key id k.key)) [
  | inl e ↦ rw (e, update_existing_primary_key_id) h
  | inr (i, e) ↦ rw (e, update_existing_primary_key_id) (find_key-has_key id k.key i e)
]

-- The key list after a renaming, by key.
renamed :
    (id new_id : ℤ) (ks : List Key) (i : ℕ)
    → find_key id ks ≡ some i
    → modify (λ e. record e { key_id = new_id }) i ks
      ≡ on_first id (λ e. record e { key_id = new_id }) ks
renamed id new_id ks i e =
    ap (λ (o : Option ℕ). modify_found (λ e. record e { key_id = new_id }) o ks) (sym e)
    ∙ modify-find_key _ id ks

primary_renamed :
    (p id new_id : ℤ) (ks : List Key)
    → has_key p ks ≡ true
    → has_key
        (if same_int p id then new_id else p)
        (on_first id (λ e. record e { key_id = new_id }) ks)
      ≡ true
primary_renamed p id new_id ks h = elim (Bool-cases (same_int p id)) [
  | inl e ↦ rw e (has_key-rename_self id new_id ks (rw ((same_int_iff p id).0 e) at h))
  | inr e ↦ rw e (has_key-rename_ne p id new_id ks (λ q. cc (e, (same_int_iff p id).1 (sym q))) h)
]

pub update_existing_key_id-HasPrimary :
    (k : KeySetStruct) (id new_id : ℤ)
    → HasPrimary k
    → HasPrimary (update_existing_key_id k id new_id)
unfolding update_existing_key_id get_key_id
update_existing_key_id-HasPrimary k id new_id h = elim (Option-cases (find_key id k.key)) [
  | inl e ↦ rw (e, update_existing_key_id) h
  | inr (i, e) ↦
      rw (e, update_existing_key_id, renamed id new_id k.key i e)
        (primary_renamed k.primary_key_id id new_id k.key h)
]

-- One of the four updates that the plugin makes to a keyset.
pub data Update : Type 0 where
  status : ℤ → Bytes → Update
  material : ℤ → Bytes → Update
  rename : ℤ → ℤ → Update
  primary : ℤ → Update

abbrev pub apply : Update → KeySetStruct → KeySetStruct
apply (status id s) k = update_existing_key_status k id s
apply (material id m) k = update_existing_key_material k id m
apply (rename id new_id) k = update_existing_key_id k id new_id
apply (primary id) k = update_existing_primary_key_id k id

abbrev pub apply_all : List Update → KeySetStruct → KeySetStruct
apply_all [] k = k
apply_all (u ∷ us) k = apply_all us (apply u k)

apply-HasPrimary : (u : Update) (k : KeySetStruct) → HasPrimary k → HasPrimary (apply u k)
apply-HasPrimary (status id s) k h = update_existing_key_status-HasPrimary k id s h
apply-HasPrimary (material id m) k h = update_existing_key_material-HasPrimary k id m h
apply-HasPrimary (rename id new_id) k h = update_existing_key_id-HasPrimary k id new_id h
apply-HasPrimary (primary id) k h = update_existing_primary_key_id-HasPrimary k id h

-- If the primary key of a keyset is one of its keys, it is so after any sequence of status,
-- material, id and primary-id updates, whether or not they name keys that exist.
pub apply_all-HasPrimary :
    (us : List Update) (k : KeySetStruct) → HasPrimary k → HasPrimary (apply_all us k)
apply_all-HasPrimary [] k h = h
apply_all-HasPrimary (u ∷ us) k h = apply_all-HasPrimary us (apply u k) (apply-HasPrimary u k h)
