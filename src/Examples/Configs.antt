-- ===== src/Examples/Configs.antt =====
-- Writes, overwrites and deletes of a config, key lookups and keyset edits at concrete inputs.
use vault_plugin_aead.Prelude.{codes, [], ◌∷◌, none, some, ok, ◌≡◌, refl, same, if◌then◌else◌}
use vault_plugin_aead.GoMap.{GoMap, get, set, has}
use vault_plugin_aead.GoMap.Order.{IsMap, over}
use vault_plugin_aead.Value.{Value, str}
use vault_plugin_aead.Lookup.{Config}
use vault_plugin_aead.Config.{World}
use vault_plugin_aead.Config.Write.{path_config_write, path_config_overwrite, path_config_delete}
use vault_plugin_aead.Config.Overlay.{prefixed}
use vault_plugin_aead.Config.Writes.{
  Holds, path_config_write_overlay, path_config_overwrite_overlay, path_config_delete_rest,
}
use vault_plugin_aead.Examples.Samples.{
  toy, memory, memory-IsStorage, counter, siv_keyset, gcm_keyset,
}

abbrev before : Config
before = (codes "siv/n", str siv_keyset) ∷ (codes "VAULT_KV_ACTIVE", str (codes "true")) ∷ []

abbrev before_world : World memory counter
unfolding memory counter
before_world = record { cache = []; storage = some before; kv = 0; published = [] }

before_read : memory.read_entry before_world.storage ≡ ok (some before)
unfolding memory before_world same
before_read = refl

-- A keyset without its prefix, and one that is there already.
abbrev request : GoMap Value
request = (codes "n", str siv_keyset) ∷ (codes "k", str gcm_keyset) ∷ []

abbrev named_request : GoMap Value
named_request = (codes "siv/n", str siv_keyset) ∷ (codes "gcm/k", str gcm_keyset) ∷ []

abbrev after_request : Config
after_request =
    (codes "siv/n", str siv_keyset)
    ∷ (codes "VAULT_KV_ACTIVE", str (codes "true"))
    ∷ (codes "gcm/k", str gcm_keyset)
    ∷ []

abbrev after_delete : Config
after_delete = (codes "VAULT_KV_ACTIVE", str (codes "true")) ∷ []

abbrev written_world : World memory counter
unfolding memory counter
written_world = record {
  cache = after_request;
  storage = some after_request;
  kv = 1;
  published = [];
}

abbrev overwritten_world : World memory counter
unfolding memory counter
overwritten_world = record {
  cache = after_request;
  storage = some after_request;
  kv = 2;
  published = [];
}

abbrev deleted_world : World memory counter
unfolding memory counter
deleted_world = record { cache = after_delete; storage = some after_delete; kv = 0; published = [] }

write_run : path_config_write toy request before_world ≡ (ok tt, written_world)
unfolding path_config_write toy memory counter before_world written_world same get
write_run = refl

overwrite_run : path_config_overwrite toy request before_world ≡ (ok tt, overwritten_world)
unfolding path_config_overwrite toy memory counter before_world overwritten_world same get
overwrite_run = refl

delete_run : path_config_delete ((codes "siv/n", str []) ∷ []) before_world ≡ (ok tt, deleted_world)
unfolding path_config_delete memory counter before_world deleted_world same set get
delete_run = refl

request_named : prefixed toy request ≡ ok named_request
unfolding prefixed toy same
request_named = refl

named-IsMap : IsMap named_request
unfolding get same
named-IsMap = (refl, (refl, tt))

path_config_write_overlay_example :
    (named : GoMap Value) × (prefixed toy request ≡ ok named)
    × Holds written_world (λ name. over (get name before) (get name named))
path_config_write_overlay_example =
    path_config_write_overlay toy memory-IsStorage before_world written_world (some before)
      before_read request write_run

path_config_overwrite_overlay_example :
    Holds overwritten_world (λ name. over (get name named_request) (get name before))
path_config_overwrite_overlay_example =
    path_config_overwrite_overlay toy memory-IsStorage before_world overwritten_world (some before)
      before_read request named_request request_named named-IsMap overwrite_run

path_config_delete_rest_example :
    Holds deleted_world
      (λ name. if has name ((codes "siv/n", str []) ∷ []) then none else get name before)
path_config_delete_rest_example =
    path_config_delete_rest toy memory-IsStorage before_world deleted_world (some before)
      before_read ((codes "siv/n", str []) ∷ []) delete_run
