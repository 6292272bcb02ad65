-- ===== src/KeySet/Updates.antt =====
-- The updates by index against a description by key: the first key with the id, and no other.
use vault_plugin_aead.Prelude.{
  Bytes, List, [], ◌∷◌, Option, ℕ, none, some, ◌≡◌, ◌∙◌, refl, ap, if◌then◌else◌, Bool-cases, inl,
  inr,
}
use vault_plugin_aead.Integers.{ℤ, same_int}
use vault_plugin_aead.KeySet.{
  Key, KeySetStruct, next, find_key, get_key_id, modify, update_existing_key_status,
  update_existing_key_material,
}

-- The first key with the id is changed by `f`.
abbrev pub on_first : ℤ → (Key → Key) → List Key → List Key
on_first id f [] = []
on_first id f (k ∷ ks) = if same_int k.key_id id then f k ∷ ks else k ∷ on_first id f ks

abbrev pub modify_found : (Key → Key) → Option ℕ → List Key → List Key
modify_found f none ks = ks
modify_found f (some i) ks = modify f i ks

modify_found-next :
    (f : Key → Key) (o : Option ℕ) (k : Key) (ks : List Key)
    → modify_found f (next o) (k ∷ ks) ≡ k ∷ modify_found f o ks
unfolding modify
modify_found-next f none k ks = refl
modify_found-next f (some i) k ks = refl

pub modify-find_key :
    (f : Key → Key) (id : ℤ) (ks : List Key) → modify_found f (find_key id ks) ks ≡ on_first id f ks
unfolding find_key
modify-find_key f id [] = refl
modify-find_key f id (k ∷ ks) = elim (Bool-cases (same_int k.key_id id)) [
  | inl e ↦ unfold modify in rw e
  | inr e ↦ rw e (
      modify_found-next f (find_key id ks) k ks
      ∙ ap (λ (r : List Key). k ∷ r) (modify-find_key f id ks))
]

-- A struct update by index changes the key list as `on_first` says.
at_found :
    (f : Key → Key) (k : KeySetStruct) (id : ℤ)
    → ◌≡◌ {A = KeySetStruct}
        (elim (get_key_id k id) [ none ↦ k | some index ↦ record k { key = modify f index k.key } ])
        (record k { key = on_first id f k.key })
unfolding get_key_id
at_found f k id = at (find_key id k.key) (modify-find_key f id k.key)
  where
    at :
        (o : Option ℕ)
        → modify_found f o k.key ≡ on_first id f k.key
        → ◌≡◌ {A = KeySetStruct}
            (elim o [ none ↦ k | some index ↦ record k { key = modify f index k.key } ])
            (record k { key = on_first id f k.key })
    at none e = λ i. record k { key = e i }
    at (some index) e = λ i. record k { key = e i }

-- The new status is given to the first key with the id, and nothing else of the keyset changes;
-- with no such key the keyset stays as it is.
pub update_existing_key_status-eq-on_first :
    (k : KeySetStruct) (id : ℤ) (status : Bytes)
    → update_existing_key_status k id status
      ≡ record k { key = on_first id (λ e. record e { status = status }) k.key }
unfolding update_existing_key_status
update_existing_key_status-eq-on_first k id status = at_found _ k id

-- The same of the key material.
pub update_existing_key_material-eq-on_first :
    (k : KeySetStruct) (id : ℤ) (material : Bytes)
    → update_existing_key_material k id material ≡ record k {
      key =
          on_first id (λ e. record e { key_data = record (e.key_data) { value = material } }) k.key;
    }
unfolding update_existing_key_material
update_existing_key_material-eq-on_first k id material = at_found _ k id
