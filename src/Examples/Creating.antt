-- ===== src/Examples/Creating.antt =====
-- A key is created for a field that has one under its prefixed name.
use vault_plugin_aead.Prelude.{codes, false, [], ◌∷◌, ◌++◌, none, some, ok, ◌≡◌, refl, same}
use vault_plugin_aead.Base64
use vault_plugin_aead.GoMap.{get}
use vault_plugin_aead.Value.{str}
use vault_plugin_aead.Value.Printing.{sprintf_v}
use vault_plugin_aead.Keys.{get_key_prefix, siv}
use vault_plugin_aead.Lookup.{Config}
use vault_plugin_aead.Config.{World, stored}
use vault_plugin_aead.Config.Manage.{
  make_deterministic_key, create_deterministic_keys_overwrite_check,
}
use vault_plugin_aead.Config.Creating.{Saved, create_deterministic_key_replaces}
use vault_plugin_aead.Examples.Samples.{toy, memory, memory-IsStorage, counter, siv_keyset}
use vault_plugin_aead.Examples.Saving.{engines-AreUp}

abbrev before : Config
before = (codes "siv/n", str (codes "primaryKeyId:0,old")) ∷ []

abbrev before_world : World memory counter
unfolding memory counter
before_world = record { cache = []; storage = some before; kv = 0; published = [] }

before_read : memory.read_entry before_world.storage ≡ ok (some before)
unfolding memory before_world
before_read = refl

abbrev siv_handle : toy.Handle
unfolding toy
siv_handle = siv_keyset

bare_name : get (codes "n") (stored (some before)) ≡ none
unfolding get same
bare_name = refl

made :
    make_deterministic_key toy (λ name. 0) (codes "n") (sprintf_v (str (codes "A")))
    ≡ ok (some siv_handle, 255 ∷ codes "A")
unfolding make_deterministic_key toy siv_handle sprintf_v
made = refl

siv_prefix : get_key_prefix toy (codes "n") [] (some siv_handle) ≡ ok siv
unfolding get_key_prefix toy siv_handle same
siv_prefix = refl

create_deterministic_key_replaces_example :
    (w' : World memory counter) × (create_deterministic_keys_overwrite_check toy
        (λ name. 0)
        false
        ((codes "n", str (codes "A")) ∷ [])
        before_world
      ≡ (ok ((codes "n", str (Base64.encode (255 ∷ codes "A"))) ∷ []), w'))
    × Saved toy w' (siv ++ codes "n") siv_handle (some before)
create_deterministic_key_replaces_example =
    create_deterministic_key_replaces toy memory-IsStorage engines-AreUp before_world (some before)
      before_read (λ name. 0) false (codes "n") (str (codes "A")) siv_handle (255 ∷ codes "A")
      bare_name made siv_prefix
