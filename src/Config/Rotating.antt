-- ===== src/Config/Rotating.antt =====
-- The rotation of all keys.
use vault_plugin_aead.Prelude.{
  none-ne-some, ℕ, Bytes, true, Bool-cases, same, same_iff, same_refl, All, [], ◌∷◌, Option, none,
  some, ok, err, panic, inl, inr, ◌⊎◌, ◌≡◌, refl, ap, sym, ◌∙◌, subst, if◌then◌else◌,
}
use vault_plugin_aead.GoMap.{get}
use vault_plugin_aead.GoMap.Laws.{get-nil, get-cons, get-head, get-tail}
use vault_plugin_aead.GoMap.Order.{IsMap, over}
use vault_plugin_aead.Value.{Value, str}
use vault_plugin_aead.Value.Printing.{sprintf_v}
use vault_plugin_aead.Tink.{Tink}
use vault_plugin_aead.Keys.{
  get_key_prefix, extract_insecure_keyset_from_keyhandle, validate_key_set_json,
}
use vault_plugin_aead.Lookup.{Config}
use vault_plugin_aead.Lookup.Chain.{IsKeyset, IsName}
use vault_plugin_aead.Config.{Storage, IsStorage, KvSink, World, refresh, stored}
use vault_plugin_aead.Config.Refresh.{get-refresh}
use vault_plugin_aead.Config.Settled.{settle, stored-IsMap, get_aead_config_read}
use vault_plugin_aead.Config.Reading.{refresh-IsMap}
use vault_plugin_aead.Config.Manage.{rotated, rotate_one, rotate_all, path_key_rotate}
use vault_plugin_aead.Config.Saving.{AreUp, save_key_to_config_overlay}
use vault_plugin_aead.Aead.Each.{All-IsMap}

absent_at :
    (name n : Bytes) (items : Config)
    → same name n ≡ true
    → get name items ≡ none
    → get n items ≡ none
absent_at name n items s fresh = subst (λ m. get m items ≡ none) ((same_iff name n).0 s) fresh

module _ (t : Tink) (seed : Bytes → ℕ) where
  -- An entry that is no keyset, or a keyset under its prefixed name whose rotation gives a handle.
  abbrev pub IsRotatable : Bytes × Value → Type 0
  IsRotatable (name, v) =
      IsName t (sprintf_v v)
      ⊎ (IsKeyset t (sprintf_v v)
          × (kh : t.Handle) × (rotated t seed name v ≡ some kh)
          × (get_key_prefix t name [] (some kh) ≡ ok []))

  -- The value of an entry after the rotation: a keyset is replaced, what is no keyset is kept.
  unfoldable pub rotated_value : Bytes → Value → Value
  unfolding validate_key_set_json extract_insecure_keyset_from_keyhandle
  rotated_value name v = elim (validate_key_set_json t (sprintf_v v)) [
    | ok kh ↦ str (extract_insecure_keyset_from_keyhandle t (rotated t seed name v))
    | err e ↦ v
    | panic ↦ v
  ]

  abbrev pub rotated_at : Bytes → Option Value → Option Value
  rotated_at name none = none
  rotated_at name (some v) = some (rotated_value name v)

  -- What the storage answers, whatever its entry.
  abbrev pub Answering : {s : Storage} {k : KvSink} → World s k → (Bytes → Option Value) → Type 0
  Answering {s} w answer =
      (entry : Option Config) × (s.read_entry w.storage ≡ ok entry)
      × ((name : Bytes) → get name (stored entry) ≡ answer name)

  -- The answers after the items of a list are rotated.
  unfoldable after : Config → (Bytes → Option Value) → Bytes → Option Value
  unfolding same rotated_value
  after [] answer n = answer n
  after ((name, v) ∷ items) answer n =
      after items (λ m. if same name m then some (rotated_value name v) else answer m) n

  value_kept :
      (name : Bytes) (v : Value) (e : Bytes)
      → validate_key_set_json t (sprintf_v v) ≡ err e
      → rotated_value name v ≡ v
  unfolding rotated_value
  value_kept name v e no_key = rw (no_key, rotated_value) refl

  value_new :
      (name : Bytes) (v : Value) (kh0 kh : t.Handle)
      → validate_key_set_json t (sprintf_v v) ≡ ok kh0
      → rotated t seed name v ≡ some kh
      → rotated_value name v ≡ str (extract_insecure_keyset_from_keyhandle t (some kh))
  unfolding rotated_value
  value_new name v kh0 kh key is_rotated =
      rw (key, rotated_value)
        (ap (λ h. str (extract_insecure_keyset_from_keyhandle t h)) is_rotated)

  -- The answer of one name after the rotation of the items of a map.
  abbrev one_after : Bytes → Option Value → Option Value → Option Value
  one_after n none o = o
  one_after n (some v) o = some (rotated_value n v)

  after-eq-one_after :
      (items : Config) (answer : Bytes → Option Value) (n : Bytes)
      → IsMap items
      → after items answer n ≡ one_after n (get n items) (answer n)
  unfolding after
  after-eq-one_after [] answer n h = rw (get-nil n) refl
  after-eq-one_after ((name, v) ∷ items) answer n (fresh, h) =
      after-eq-one_after items (λ m. if same name m then some (rotated_value name v) else answer m)
        n h
      ∙ elim (Bool-cases (same name n)) [
        | inl s ↦ rw s (
            ap (λ o. one_after n o (some (rotated_value name v))) (absent_at name n items s fresh)
            ∙ ap (λ m. some (rotated_value m v)) ((same_iff name n).0 s)
            ∙ ap (λ o. one_after n o (answer n)) (sym (get-head name n v items s)))
        | inr s ↦ rw s (ap (λ o. one_after n o (answer n)) (sym (get-tail name n v items s)))
      ]

  same_after : (n : Bytes) (o : Option Value) → one_after n o o ≡ rotated_at n o
  same_after n none = refl
  same_after n (some v) = refl

  module _ {s : Storage} {k : KvSink} (l : IsStorage s) (up : AreUp s k) where
    rotate_step :
        (name : Bytes) (v : Value) (w : World s k) (answer : Bytes → Option Value)
        → IsRotatable (name, v)
        → answer name ≡ some v
        → Answering w answer
        → (w' : World s k) × (rotate_one t seed name v w ≡ (ok tt, w'))
          × Answering w' (λ m. if same name m then some (rotated_value name v) else answer m)
    unfolding rotate_one
    rotate_step name v w answer (inl (e, no_key)) here (entry, read, q) = (
      w,
      rw (no_key, rotate_one) refl,
      (
        entry,
        read,
        λ m. elim (Bool-cases (same name m)) [
          | inl s ↦ rw s (
              q m
              ∙ ap answer (sym ((same_iff name m).0 s))
              ∙ here
              ∙ ap some (sym (value_kept name v e no_key)))
          | inr s ↦ rw s (q m)
        ],
      ),
    )
    rotate_step name v w answer (inr ((kh0, key), kh, is_rotated, p)) here (entry, read, q) =
        let (w', run, (c, r, g)) = save_key_to_config_overlay t l up w entry kh name read p in
        (
          w',
          rw (key, rotate_one) (rw is_rotated run),
          (
            some c,
            r,
            λ m. elim (Bool-cases (same name m)) [
              | inl s ↦ rw s (
                  g m
                  ∙ ap (λ o. over o (get m (stored entry))) (get-cons name m _ [])
                  ∙ rw s (ap some (sym (value_new name v kh0 kh key is_rotated))))
              | inr s ↦ rw s (
                  g m
                  ∙ ap (λ o. over o (get m (stored entry))) (get-cons name m _ [])
                  ∙ rw s (ap (λ o. over o (get m (stored entry))) (get-nil m) ∙ q m))
            ],
          ),
        )

    rotate_rest :
        (items : Config) (w : World s k) (answer : Bytes → Option Value)
        → IsMap items
        → All IsRotatable items
        → ((n : Bytes) (v : Value) → get n items ≡ some v → answer n ≡ some v)
        → Answering w answer
        → (w' : World s k) × (rotate_all t seed items w ≡ (ok tt, w'))
          × Answering w' (after items answer)
    unfolding rotate_all after
    rotate_rest [] w answer h good agree answering = (w, refl, answering)
    rotate_rest ((name, v) ∷ items) w answer (fresh, h) (good, goods) agree answering =
        let (w1, run1, answering1) =
          rotate_step name v w answer good
            (agree name v (get-head name name v items (same_refl name))) answering in
        let (w2, run2, answering2) =
          rotate_rest items w1 (λ m. if same name m then some (rotated_value name v) else answer m)
            h goods
            (λ n u g. elim (Bool-cases (same name n)) [
              | inl s ↦ absurd (none-ne-some (sym (absent_at name n items s fresh) ∙ g))
              | inr s ↦ rw s (agree n u (get-tail name n v items s ∙ g))
            ])
            answering1 in
        (w2, rw run1 run2, answering2)

    -- While the engines behind the plugin are up and the stored config can be read, and each of its
    -- keysets stands under its prefixed name and can be rotated: pathKeyRotate succeeds, and then the
    -- storage answers for each name as before, but with the rotated keyset where it held a keyset.
    pub path_key_rotate_all :
        (w : World s k) (entry : Option Config)
        → s.read_entry w.storage ≡ ok entry
        → IsMap w.cache
        → ((n : Bytes) (v : Value) → get n (stored entry) ≡ some v → IsRotatable (n, v))
        → (w' : World s k) × (path_key_rotate t seed w ≡ (ok tt, w'))
          × Answering w' (λ n. rotated_at n (get n (stored entry)))
    unfolding path_key_rotate
    path_key_rotate_all w entry read cache_map good =
        let items = refresh (stored entry) w.cache in
        let items_map = refresh-IsMap (stored entry) w.cache cache_map in
        let as_stored : (n : Bytes) → get n items ≡ get n (stored entry) =
          λ n. get-refresh (stored entry) w.cache n (stored-IsMap s l w.storage entry read) in
        let (w', run, (entry', read', answers)) =
          rotate_rest items (settle entry w) (λ n. get n (stored entry)) items_map
            (All-IsMap IsRotatable items items_map (λ n v g. good n v (sym (as_stored n) ∙ g)))
            (λ n v g. sym (as_stored n) ∙ g) (entry, read, λ n. refl) in
        (
          w',
          rw (get_aead_config_read w entry read) run,
          (
            entry',
            read',
            λ n.
                answers n
                ∙ after-eq-one_after items (λ m. get m (stored entry)) n items_map
                ∙ ap (λ o. one_after n o (get n (stored entry))) (as_stored n)
                ∙ same_after n (get n (stored entry)),
          ),
        )
