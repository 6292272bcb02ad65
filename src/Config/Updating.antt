-- ===== src/Config/Updating.antt =====
-- pathUpdateKeyStatus, pathUpdateKeyMaterial and pathUpdateKeyID with several ids for one field.
use vault_plugin_aead.Prelude.{
  codes, arith, Bytes, [], ◌∷◌, ◌++◌, Option, some, Outcome, ok, panic, All, Outcome-cases, inl,
  inr, ◌≡◌, ◌≢◌, refl, ap, ◌∙◌,
}
use vault_plugin_aead.Exec.{Exec}
use vault_plugin_aead.GoMap.{GoMap, get, set}
use vault_plugin_aead.GoMap.Laws.{get-nil, get-cons}
use vault_plugin_aead.GoMap.Order.{over}
use vault_plugin_aead.Value.{Value, str, obj, to_fields, entries-to_fields}
use vault_plugin_aead.Value.Printing.{sprintf_s}
use vault_plugin_aead.Tink.{Tink}
use vault_plugin_aead.Keys.{get_key_prefix, extract_insecure_keyset_from_keyhandle}
use vault_plugin_aead.Keys.Edit.{
  written, edit, update_key_status, update_key_material, update_key_id,
}
use vault_plugin_aead.KeySet.{KeySetStruct}
use vault_plugin_aead.Lookup.{Config}
use vault_plugin_aead.Config.{Storage, IsStorage, KvSink, World, refresh, stored}
use vault_plugin_aead.Config.Settled.{settle, get_aead_config_read}
use vault_plugin_aead.Config.Writes.{Holds}
use vault_plugin_aead.Config.Saving.{AreUp, save_key_to_config_overlay}
use vault_plugin_aead.Config.Update.{
  existing_handle, save_updated, update_ids, update_fields, path_update_key_status,
  path_update_key_material, path_update_key_id,
}

-- A second overlay of the same name hides the first.
over_twice :
    (name n : Bytes) (v v' : Value) (o : Option Value)
    → over (get n ((name, v) ∷ [])) (over (get n ((name, v') ∷ [])) o)
      ≡ over (get n ((name, v) ∷ [])) o
over_twice name n v v' o =
    ground (arith, get-cons name n v [], get-cons name n v' [], get-nil {V = Value} n)

-- The entry under which a new keyset is saved, and the stored config with it.
abbrev pub saved_under : (t : Tink) → Bytes → t.Handle → GoMap Value
saved_under t full kh = (full, str (extract_insecure_keyset_from_keyhandle t (some kh))) ∷ []

abbrev pub updated : (t : Tink) → Bytes → t.Handle → Option Config → Bytes → Option Value
updated t full kh entry n = over (get n (saved_under t full kh)) (get n (stored entry))

-- An edit of a keyset ends in a handle or an error.
edit-ne-panic :
    (t : Tink) (change : KeySetStruct → KeySetStruct) (kh : Option (t.Handle))
    → edit t change kh ≢ panic
unfolding edit
edit-ne-panic t change kh h = ground arith

-- A new keyset that an update makes is of the type with the prefix.
abbrev pub Keeps :
    (t : Tink)
    → (Option (t.Handle) → Bytes → Bytes → Outcome (t.Handle))
    → Option (t.Handle)
    → Bytes
    → Bytes
    → Bytes × Value
    → Type 0
Keeps t change kh name prefix (id, v) =
    (new_kh : t.Handle)
    → change kh id (sprintf_s v) ≡ ok new_kh
    → get_key_prefix t name [] (some new_kh) ≡ ok prefix

module _ (t : Tink) {s : Storage} {k : KvSink} (l : IsStorage s) (up : AreUp s k) (failed : Bytes)
    (change : Option (t.Handle) → Bytes → Bytes → Outcome (t.Handle)) (kh : Option (t.Handle))
    (name prefix : Bytes) (safe : (id text : Bytes) → change kh id text ≢ panic) where
  pub update_ids_last :
      (ids : GoMap Value) (id : Bytes) (v : Value) (last : t.Handle) (w : World s k)
      (entry : Option Config) (resp : GoMap Value)
      → s.read_entry w.storage ≡ ok entry
      → All (Keeps t change kh name prefix) ids
      → change kh id (sprintf_s v) ≡ ok last
      → get_key_prefix t name [] (some last) ≡ ok prefix
      → (resp' : GoMap Value) × (w' : World s k) × (update_ids t failed change kh name
            (ids ++ ((id, v) ∷ []))
            resp
            w
          ≡ (ok resp', w'))
        × Holds w' (updated t (prefix ++ name) last entry)
  unfolding update_ids save_updated
  update_ids_last [] id v last w entry resp read _ e p =
      let (w', run, holds) = save_key_to_config_overlay t l up w entry last name read p in
      (set name (str (written t (some last))) resp, w', rw e (rw run refl), holds)
  update_ids_last ((id1, v1) ∷ ids) id v last w entry resp read (q, hs) e p =
      elim (Outcome-cases (change kh id1 (sprintf_s v1))) [
        | inl (new_kh, e1) ↦
            let (w1, run, (c, r, g)) =
              save_key_to_config_overlay t l up w entry new_kh name read (q new_kh e1) in
            let resp1 = set name (str (written t (some new_kh))) resp in
            let (resp', w', rest, (c', r', g')) =
              update_ids_last ids id v last w1 (some c) resp1 r hs e p in
            (
              resp',
              w',
              rw e1 (rw run rest),
              (
                c',
                r',
                λ n.
                    g' n
                    ∙ ap (over (get n (saved_under t (prefix ++ name) last))) (g n)
                    ∙ over_twice (prefix ++ name) n _ _ (get n (stored entry)),
              ),
            )
        | inr (inl (_, e1)) ↦
            rw e1 (update_ids_last ids id v last w entry (set name (str failed) resp) read hs e p)
        | inr (inr e1) ↦ absurd (safe id1 (sprintf_s v1) e1)
      ]

-- The handlers that update a keyset key by key, each with its update of a handle.
pub data IsUpdate (t : Tink) {s : Storage} {k : KvSink}
    : (GoMap Value → Exec (World s k) (GoMap Value))
      → (Option (t.Handle) → Bytes → Bytes → Outcome (t.Handle))
      → Type 0 where
  of_status : IsUpdate t (path_update_key_status t) (update_key_status t)
  of_material : IsUpdate t (path_update_key_material t) (update_key_material t)
  of_key_id : IsUpdate t (path_update_key_id t) (update_key_id t)

module _ (t : Tink) {s : Storage} {k : KvSink} (l : IsStorage s) (up : AreUp s k) (w : World s k)
    (entry : Option Config) (read : s.read_entry w.storage ≡ ok entry) where
  update_fields_last :
      (failed : Bytes) (change : Option (t.Handle) → Bytes → Bytes → Outcome (t.Handle))
      (kh : Option (t.Handle)) (name prefix : Bytes) (ids : GoMap Value) (id : Bytes) (v : Value)
      (last : t.Handle)
      → ((i text : Bytes) → change kh i text ≢ panic)
      → existing_handle t (refresh (stored entry) w.cache) name ≡ ok kh
      → All (Keeps t change kh name prefix) ids
      → change kh id (sprintf_s v) ≡ ok last
      → get_key_prefix t name [] (some last) ≡ ok prefix
      → (resp : GoMap Value) × (w' : World s k) × (update_fields t failed change
            ((name, obj (to_fields (ids ++ ((id, v) ∷ [])))) ∷ [])
            []
            (settle entry w)
          ≡ (ok resp, w'))
        × Holds w' (updated t (prefix ++ name) last entry)
  unfolding update_fields
  update_fields_last failed change kh name prefix ids id v last safe found hs e p =
      let (resp, w', run, holds) =
        update_ids_last t l up failed change kh name prefix safe ids id v last (settle entry w)
          entry [] read hs e p in
      (resp, w', rw (found, entries-to_fields (ids ++ ((id, v) ∷ [])), run) refl, holds)

  -- Where pathUpdateKeyStatus, pathUpdateKeyMaterial or pathUpdateKeyID is called with several ids for
  -- one field, only the update for the last of them, in the order of the range loop, is found
  -- afterwards: the storage answers for the prefixed name with the keyset that the update makes of the
  -- old one for the last id, and for all other names as before. The engines behind the plugin are up,
  -- the stored config can be read, the updates keep the type of the keyset, and the last one succeeds.
  pub last_id_wins :
      {handler : GoMap Value → Exec (World s k) (GoMap Value)}
      {change : Option (t.Handle) → Bytes → Bytes → Outcome (t.Handle)}
      → IsUpdate t handler change
      → (kh : Option (t.Handle)) (name prefix : Bytes) (ids : GoMap Value) (id : Bytes) (v : Value)
        (last : t.Handle)
      → existing_handle t (refresh (stored entry) w.cache) name ≡ ok kh
      → All (Keeps t change kh name prefix) ids
      → change kh id (sprintf_s v) ≡ ok last
      → get_key_prefix t name [] (some last) ≡ ok prefix
      → Holds
          (handler ((name, obj (to_fields (ids ++ ((id, v) ∷ [])))) ∷ []) w).1
          (updated t (prefix ++ name) last entry)
  unfolding path_update_key_status path_update_key_material path_update_key_id update_key_status
      update_key_material update_key_id
  last_id_wins of_status kh name prefix ids id v last found hs e p =
      let (resp, w', run, holds) =
        update_fields_last (codes "failed to update the status") (update_key_status t) kh name
          prefix ids id v last (λ i text. edit-ne-panic t _ kh) found hs e p in
      rw (get_aead_config_read w entry read, run) holds
  last_id_wins of_material kh name prefix ids id v last found hs e p =
      let (resp, w', run, holds) =
        update_fields_last (codes "failed to update the material") (update_key_material t) kh name
          prefix ids id v last (λ i text. edit-ne-panic t _ kh) found hs e p in
      rw (get_aead_config_read w entry read, run) holds
  last_id_wins of_key_id kh name prefix ids id v last found hs e p =
      let (resp, w', run, holds) =
        update_fields_last (codes "failed to update the keyid") (update_key_id t) kh name prefix ids
          id v last (λ i text. edit-ne-panic t _ kh) found hs e p in
      rw (get_aead_config_read w entry read, run) holds
