-- ===== src/Examples/Broken.antt =====
-- A write request while the storage is down.
use vault_plugin_aead.Prelude.{codes, [], ◌∷◌, err, ◌≡◌, refl}
use vault_plugin_aead.Value.{str}
use vault_plugin_aead.Kv.Sink.{vault_sink}
use vault_plugin_aead.Config.{Storage, World}
use vault_plugin_aead.Backend.{Operation}
use vault_plugin_aead.Backend.Serve.{Call, handle_request}
use vault_plugin_aead.Backend.Quiet.{IsUnread}
use vault_plugin_aead.Backend.Unreadable.{handle_request_unreadable}
use vault_plugin_aead.Examples.Samples.{toy, gcm_keyset}
use vault_plugin_aead.Examples.Servers.{server_toy, json_toy, kv_config}
use vault_plugin_aead.Examples.Clouds.{cloud_toy, request}

-- A storage that is down.
unfoldable broken : Storage
broken = record {
  State = Unit {0};
  read_entry = λ st. err (codes "down");
  put_entry = λ st config. err (codes "down");
}

abbrev broken_world : World broken (vault_sink toy json_toy server_toy)
unfolding broken
broken_world = record { cache = kv_config; storage = tt; kv = []; published = [] }

broken-IsUnread : IsUnread broken_world
unfolding broken
broken-IsUnread = (codes "down", refl)

abbrev write_request : Call cloud_toy
write_request = record request { raw = (codes "gcm/x", str gcm_keyset) ∷ [] }

handle_request_unreadable_example :
    (handle_request toy json_toy server_toy cloud_toy Operation.update
      (codes "config")
      write_request
      (broken_world, [])).1.0.storage
    ≡ broken_world.storage
handle_request_unreadable_example =
    handle_request_unreadable toy json_toy server_toy cloud_toy Operation.update (codes "config")
      write_request broken_world [] broken-IsUnread
