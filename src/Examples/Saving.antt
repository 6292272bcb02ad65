-- ===== src/Examples/Saving.antt =====
-- Reading a config and saving a key at concrete inputs.
use vault_plugin_aead.Prelude.{
  codes, true, [], ◌∷◌, ◌++◌, some, Outcome, ok, panic, ◌≡◌, ◌≢◌, refl, same,
}
use vault_plugin_aead.GoMap.{GoMap, get}
use vault_plugin_aead.GoMap.Order.{over}
use vault_plugin_aead.Value.{Value, str}
use vault_plugin_aead.Keys.{get_key_prefix, gcm, extract_insecure_keyset_from_keyhandle}
use vault_plugin_aead.Lookup.{Config}
use vault_plugin_aead.Config.{World, stored}
use vault_plugin_aead.Config.Writes.{Holds}
use vault_plugin_aead.Config.Manage.{save_key_to_config}
use vault_plugin_aead.Config.Saving.{AreUp, save_key_to_config_overlay}
use vault_plugin_aead.Examples.Samples.{
  toy, memory, memory-IsStorage, counter, siv_keyset, gcm_keyset,
}

abbrev before : Config
before = (codes "siv/n", str siv_keyset) ∷ []

abbrev before_world : World memory counter
unfolding memory counter
before_world = record { cache = []; storage = some before; kv = 0; published = [] }

before_read : memory.read_entry before_world.storage ≡ ok (some before)
unfolding memory before_world
before_read = refl

abbrev read_world : World memory counter
unfolding memory counter
read_world = record { cache = before; storage = some before; kv = 0; published = [] }

abbrev answer : GoMap Value
answer =
    (codes "siv/n", str (codes "primaryKeyId:1,AesSivKey,value:***"))
    ∷ (codes "MountPoint", str (codes "aead/"))
    ∷ []

ok-ne-panic : ◌≢◌ {A = Outcome (Unit {0})} (ok tt) panic
ok-ne-panic h = cc

pub engines-AreUp : AreUp memory counter
unfolding memory counter
engines-AreUp = record {
  puts = λ st config. (some config, refl);
  returns = λ kv config name v. ok-ne-panic;
}

abbrev gcm_handle : toy.Handle
unfolding toy
gcm_handle = gcm_keyset

gcm_prefix : get_key_prefix toy (codes "x") [] (some gcm_handle) ≡ ok gcm
unfolding get_key_prefix toy gcm_handle same
gcm_prefix = refl

save_key_to_config_overlay_example :
    (w' : World memory counter) × (save_key_to_config toy
        (some gcm_handle)
        (codes "x")
        true
        before_world
      ≡ (ok tt, w'))
    × Holds w' (λ n.
      over
        (get n (
          (gcm ++ codes "x", str (extract_insecure_keyset_from_keyhandle toy (some gcm_handle)))
          ∷ []))
        (get n (stored (some before))))
save_key_to_config_overlay_example =
    save_key_to_config_overlay toy memory-IsStorage engines-AreUp before_world (some before)
      gcm_handle (codes "x") before_read gcm_prefix
