-- ===== src/Value/Printing.antt =====
-- fmt.Sprintf("%v", x) and fmt.Sprintf("%s", x). A map is printed in the order of its keys.
use vault_plugin_aead.Prelude.{
  Bytes, codes, Bool, true, false, List, [], ◌∷◌, ◌++◌, ltb, if◌then◌else◌, ◌≡◌, refl, map,
}
use vault_plugin_aead.Value.{
  Value, Items, Fields, null, bool, number, str, arr, obj, nil, cons, end, field,
}

-- `<` on Go strings.
unfoldable pub less : Bytes → Bytes → Bool
less [] [] = false
less [] (b ∷ s) = true
less (a ∷ r) [] = false
less (a ∷ r) (b ∷ s) = if ltb a b then true else if ltb b a then false else less r s

unfoldable pub insert_sorted : Bytes × Bytes → List (Bytes × Bytes) → List (Bytes × Bytes)
unfolding less
insert_sorted (k, v) [] = (k, v) ∷ []
insert_sorted (k, v) ((j, w) ∷ l) =
    if less k j then (k, v) ∷ (j, w) ∷ l else (j, w) ∷ insert_sorted (k, v) l

unfoldable pub sort_keys : List (Bytes × Bytes) → List (Bytes × Bytes)
unfolding insert_sorted
sort_keys [] = []
sort_keys (e ∷ l) = insert_sorted e (sort_keys l)

unfoldable pub spaced : List Bytes → Bytes
spaced [] = []
spaced (s ∷ []) = s
spaced (s ∷ r) = s ++ (b' ' ∷ spaced r)

abbrev print_entry : Bytes × Bytes → Bytes
print_entry (k, v) = k ++ (b':' ∷ v)

unfoldable pub print_map : List (Bytes × Bytes) → Bytes
unfolding sort_keys spaced
print_map l = codes "map[" ++ (spaced (map print_entry (sort_keys l)) ++ codes "]")

abbrev pub print_bool : Bool → Bytes
print_bool true = codes "true"
print_bool false = codes "false"

unfoldable mutual
  unfolding print_map spaced

  pub sprintf_v : Value → Bytes
  sprintf_v null = codes "<nil>"
  sprintf_v (bool b) = print_bool b
  sprintf_v (number n) = n
  sprintf_v (str s) = s
  sprintf_v (arr xs) = codes "[" ++ (spaced (items_v xs) ++ codes "]")
  sprintf_v (obj fs) = print_map (fields_v fs)

  pub items_v : Items → List Bytes
  items_v nil = []
  items_v (cons x xs) = sprintf_v x ∷ items_v xs

  pub fields_v : Fields → List (Bytes × Bytes)
  fields_v end = []
  fields_v (field k v fs) = (k, sprintf_v v) ∷ fields_v fs

-- "%s" of what is no string is marked as a bad verb.
unfoldable mutual
  unfolding print_map spaced

  pub sprintf_s : Value → Bytes
  sprintf_s null = codes "%!s(<nil>)"
  sprintf_s (bool b) = codes "%!s(bool=" ++ (print_bool b ++ codes ")")
  sprintf_s (number n) = n
  sprintf_s (str s) = s
  sprintf_s (arr xs) = codes "[" ++ (spaced (items_s xs) ++ codes "]")
  sprintf_s (obj fs) = print_map (fields_s fs)

  pub items_s : Items → List Bytes
  items_s nil = []
  items_s (cons x xs) = sprintf_s x ∷ items_s xs

  pub fields_s : Fields → List (Bytes × Bytes)
  fields_s end = []
  fields_s (field k v fs) = (k, sprintf_s v) ∷ fields_s fs

print_nested :
    sprintf_v (
      obj (
        field
          (codes "b")
          null
          (field (codes "a") (arr (cons (str (codes "x")) (cons (bool true) nil))) end)))
    ≡ codes "map[a:[x true] b:<nil>]"
unfolding sprintf_v
print_nested = refl
