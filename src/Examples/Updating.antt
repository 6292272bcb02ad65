-- ===== src/Examples/Updating.antt =====
-- A keyset of two keys, both of which a request disables: only the second one is.
use vault_plugin_aead.Prelude.{
  Bytes, codes, List, [], ◌∷◌, ◌++◌, Option, none, some, ok, ◌≡◌, refl, same, All, length,
}
use vault_plugin_aead.Text.{drop}
use vault_plugin_aead.GoMap.{GoMap, get, set}
use vault_plugin_aead.Value.{Value, str, obj, to_fields}
use vault_plugin_aead.Value.Printing.{sprintf_s}
use vault_plugin_aead.Integers.{ℤ, pos, atoi}
use vault_plugin_aead.KeySet.{Key, KeySetStruct, update_existing_key_status}
use vault_plugin_aead.Tink.{Tink}
use vault_plugin_aead.Keys.{get_key_prefix, validate_key_set_json}
use vault_plugin_aead.Keys.Edit.{update_key_status}
use vault_plugin_aead.Lookup.{Config, get_encryption_key}
use vault_plugin_aead.Config.{World, refresh, stored}
use vault_plugin_aead.Config.Update.{existing_handle, path_update_key_status}
use vault_plugin_aead.Config.Updating.{Keeps, updated, of_status, last_id_wins}
use vault_plugin_aead.Config.Writes.{Holds}
use vault_plugin_aead.Examples.Samples.{toy, memory, memory-IsStorage, counter, gcm_keyset}
use vault_plugin_aead.Examples.Saving.{engines-AreUp}

abbrev key_of : ℤ → Bytes → Key
key_of id status = record {
  key_data = record { type_url = []; value = []; key_material_type = [] };
  status = status;
  key_id = id;
  output_prefix_type = [];
}

-- The text of a keyset of the keys 1 and 2 ends in the statuses, E or D.
abbrev struct_of : Bytes → Option KeySetStruct
struct_of (a ∷ b ∷ []) = some (record {
  primary_key_id = pos 1;
  key = key_of (pos 1) (a ∷ []) ∷ key_of (pos 2) (b ∷ []) ∷ [];
})
struct_of _ = none

abbrev statuses : List Key → Bytes
statuses [] = []
statuses (k ∷ ks) = k.status ++ statuses ks

unfoldable editing : Tink
unfolding toy drop
editing = record toy {
  unmarshal = λ json. struct_of (drop (length gcm_keyset) json);
  marshal = λ k. gcm_keyset ++ statuses k.key;
}

abbrev enabled : Bytes
enabled = gcm_keyset ++ codes "EE"

abbrev before : Config
before = (codes "gcm/n", str enabled) ∷ []

abbrev before_world : World memory counter
unfolding memory counter
before_world = record { cache = []; storage = some before; kv = 0; published = [] }

before_read : memory.read_entry before_world.storage ≡ ok (some before)
unfolding memory before_world
before_read = refl

abbrev old : Option (editing.Handle)
unfolding editing toy
old = some enabled

abbrev last : editing.Handle
unfolding editing toy
last = gcm_keyset ++ codes "ED"

abbrev first_id : GoMap Value
first_id = (codes "1", str (codes "D")) ∷ []

field_found :
    existing_handle editing (refresh (stored (some before)) before_world.cache) (codes "gcm/n")
    ≡ ok old
unfolding existing_handle editing toy before_world old get_encryption_key validate_key_set_json
    refresh get set same sprintf_s
field_found = refl

first_Keeps : All (Keeps editing (update_key_status editing) old (codes "gcm/n") []) first_id
unfolding editing toy get_key_prefix same
first_Keeps = ((λ new_kh h. refl), tt)

second_run : update_key_status editing old (codes "2") (sprintf_s (str (codes "D"))) ≡ ok last
unfolding update_key_status update_existing_key_status atoi editing toy old last drop sprintf_s
second_run = refl

last_prefix : get_key_prefix editing (codes "gcm/n") [] (some last) ≡ ok []
unfolding get_key_prefix same
last_prefix = refl

last_id_wins_example :
    Holds
      (path_update_key_status editing
        ((codes "gcm/n", obj (to_fields (first_id ++ ((codes "2", str (codes "D")) ∷ [])))) ∷ [])
        before_world).1
      (updated editing ([] ++ codes "gcm/n") last (some before))
last_id_wins_example =
    last_id_wins editing memory-IsStorage engines-AreUp before_world (some before) before_read
      of_status old (codes "gcm/n") [] first_id (codes "2") (str (codes "D")) last field_found
      first_Keeps second_run last_prefix
