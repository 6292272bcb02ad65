-- ===== src/Examples/Syncing.antt =====
-- Reading the KV engine and synchronising the config from it, at concrete inputs.
use vault_plugin_aead.Prelude.{
  Bytes, codes, true, false, inl, [], ◌∷◌, ◌++◌, some, ok, All, same, ◌≡◌, refl, arith,
}
use vault_plugin_aead.Text.{contains, has_prefix}
use vault_plugin_aead.Text.Muting.{IsMaterial}
use vault_plugin_aead.GoMap.{GoMap, get, set}
use vault_plugin_aead.GoMap.Order.{IsMap, over}
use vault_plugin_aead.Value.{Value, str}
use vault_plugin_aead.Lookup.{Config}
use vault_plugin_aead.Vault.Client.{or_null}
use vault_plugin_aead.Vault.Walk.{kv_get_secret_paths}
use vault_plugin_aead.Kv.{resolve_kv_options}
use vault_plugin_aead.Kv.Secret.{is_secret_an_aead_keyset, kv_client, read_data}
use vault_plugin_aead.Kv.Sink.{vault_sink}
use vault_plugin_aead.Config.{World, stored}
use vault_plugin_aead.Config.Overlay.{prefixed}
use vault_plugin_aead.Config.Writes.{Holds}
use vault_plugin_aead.Kv.Sync.{path_read_kv, path_sync_kv, synced, count_keys, none_counted}
use vault_plugin_aead.Kv.Sync.Reads.{IsKeyName, add_secrets}
use vault_plugin_aead.Kv.Sync.Masked.{Readable, path_read_kv_hides}
use vault_plugin_aead.Kv.Sync.Stored.{path_sync_kv_overlay, path_sync_kv_keysets}
use vault_plugin_aead.Vault.Folders.{v2}
use vault_plugin_aead.Kv.Restore.{path_sync_kv-save_keyset}
use vault_plugin_aead.Examples.Samples.{toy, memory, memory-IsStorage, gcm_keyset}
use vault_plugin_aead.Examples.Engines.{no_keys}
use vault_plugin_aead.Examples.Secrets.{
  logged_in, version_v2, transit_off, save_run, one_prefix, keysets_read, map_read,
}
use vault_plugin_aead.Examples.Servers.{
  server_toy-IsKv, one_keyset, Store, server_toy, json_toy, list_toy, kv_config,
}

abbrev x_secret : GoMap Value
x_secret = (codes "data", str (codes "{keysets}")) ∷ (codes "aad", str (codes "{map}")) ∷ []

abbrev kv_store : Store
kv_store = (codes "gcm/x", x_secret) ∷ []

abbrev pub kv_world : World memory (vault_sink toy json_toy server_toy)
unfolding memory
kv_world = record { cache = kv_config; storage = some kv_config; kv = kv_store; published = [] }

kv_login :
    kv_client server_toy json_toy (resolve_kv_options kv_world.cache) kv_world.kv
    ≡ (ok tt, kv_store)
unfolding kv_client resolve_kv_options same kv_world
kv_login = refl

kv_walk :
    kv_get_secret_paths server_toy tt
      (resolve_kv_options kv_world.cache).vault_kv_engine
      (resolve_kv_options kv_world.cache).vault_kv_version
      []
      kv_store
    ≡ (ok (codes "gcm/x" ∷ []), kv_store)
unfolding kv_get_secret_paths list_toy resolve_kv_options get same kv_world
kv_walk = refl

kv_read :
    read_data server_toy tt (resolve_kv_options kv_world.cache) (codes "gcm/x") kv_store
    ≡ (ok x_secret, kv_store)
unfolding read_data resolve_kv_options get same kv_world
kv_read = refl

abbrev readable : Readable server_toy json_toy (resolve_kv_options kv_world.cache) kv_world.kv
readable = record {
  client = tt;
  after = kv_store;
  paths = codes "gcm/x" ∷ [];
  secret = λ path. x_secret;
  login = kv_login;
  walk = kv_walk;
  reads = (kv_read, tt);
}

is_active : same (resolve_kv_options kv_world.cache).vault_kv_active (codes "true") ≡ true
unfolding resolve_kv_options get same kv_world
is_active = refl

abbrev shown_map : GoMap Value
shown_map =
    (codes "gcm/x", str (codes "primaryKeyId:1,AesGcmKey,value:***"))
    ∷ (codes "ADDITIONAL_DATA-gcm/x", str (codes "x"))
    ∷ []

read_kv_run : path_read_kv toy json_toy server_toy kv_world ≡ (ok shown_map, kv_world)
unfolding path_read_kv list_toy resolve_kv_options get set same toy kv_world memory
read_kv_run = refl

abbrev x_handle : toy.Handle
unfolding toy
x_handle = gcm_keyset

x_keyset :
    is_secret_an_aead_keyset toy json_toy (or_null (get (codes "data") x_secret)) (codes "gcm/x")
    ≡ ok (gcm_keyset, x_handle)
unfolding is_secret_an_aead_keyset x_handle get same toy
x_keyset = refl

x_values : toy.unmarshal_values gcm_keyset ≡ some (codes "secret" ∷ [])
unfolding toy
x_values = refl

x_values-IsMaterial : All IsMaterial (codes "secret" ∷ [])
x_values-IsMaterial = (
  (
    (λ h. cc),
    (
      ground arith,
      (ground arith, (ground arith, (ground arith, (ground arith, (ground arith, tt))))),
    ),
  ),
  tt,
)

x-IsKeyName : IsKeyName (codes "gcm/x")
unfolding has_prefix
x-IsKeyName = refl

path_read_kv_hides_example :
    (text : Bytes) × (get (codes "gcm/x") shown_map ≡ some (str text))
    × All (λ x. contains x text ≡ false) (codes "secret" ∷ [])
path_read_kv_hides_example =
    path_read_kv_hides toy json_toy server_toy kv_world kv_world readable shown_map (codes "gcm/x")
      gcm_keyset x_handle (codes "secret" ∷ []) is_active read_kv_run (inl refl) x-IsKeyName
      x_keyset x_values x_values-IsMaterial

abbrev synced_map : GoMap Value
synced_map = (codes "gcm/x", str gcm_keyset) ∷ (codes "ADDITIONAL_DATA-gcm/x", str (codes "x")) ∷ []

abbrev synced_config : Config
synced_config = kv_config ++ synced_map

abbrev synced_world : World memory (vault_sink toy json_toy server_toy)
unfolding memory
synced_world = record {
  cache = synced_config;
  storage = some synced_config;
  kv = kv_store;
  published = [];
}

x_added : add_secrets toy json_toy false readable.secret readable.paths [] ≡ ok synced_map
unfolding add_secrets get set same toy
x_added = refl

x_named : prefixed toy synced_map ≡ ok synced_map
unfolding prefixed toy
x_named = refl

synced_map-IsMap : IsMap synced_map
unfolding get same
synced_map-IsMap = (refl, (refl, tt))

sync_run :
    path_sync_kv toy json_toy server_toy kv_world
    ≡ (ok (synced (count_keys synced_map none_counted)), synced_world)
unfolding path_sync_kv list_toy resolve_kv_options get set same toy kv_world synced_world memory
sync_run = refl

x_stored : memory.read_entry kv_world.storage ≡ ok (some kv_config)
unfolding memory kv_world get same
x_stored = refl

path_sync_kv_overlay_example :
    (synced (count_keys synced_map none_counted) ≡ synced (count_keys synced_map none_counted))
    × Holds synced_world (λ name. over (get name synced_map) (get name (stored (some kv_config))))
    × (synced_world.kv ≡ kv_store)
path_sync_kv_overlay_example =
    path_sync_kv_overlay toy json_toy server_toy memory-IsStorage kv_world synced_world
      (some kv_config) readable synced_map synced_map is_active x_stored x_added x_named
      synced_map-IsMap sync_run

path_sync_kv_keysets_example :
    (c : Config) × (memory.read_entry synced_world.storage ≡ ok (some c))
    × (get (codes "gcm/x") c ≡ some (str gcm_keyset))
path_sync_kv_keysets_example =
    path_sync_kv_keysets toy json_toy server_toy memory-IsStorage kv_world synced_world
      (some kv_config) readable synced_map synced_map (codes "gcm/x") gcm_keyset x_handle is_active
      x_stored x_added x_named synced_map-IsMap sync_run (inl refl) x-IsKeyName x_keyset

path_sync_kv-save_keyset_example :
    (c : Config) × (memory.read_entry synced_world.storage ≡ ok (some c))
    × (get (codes "gcm/x") c ≡ some (str (toy.marshal one_keyset)))
unfolding kv_world resolve_kv_options same
path_sync_kv-save_keyset_example =
    path_sync_kv-save_keyset toy json_toy server_toy memory-IsStorage kv_world synced_world
      (some kv_config) readable server_toy-IsKv v2 version_v2 refl (codes "gcm/x") (str gcm_keyset)
      no_keys no_keys synced_map synced_map logged_in transit_off one_prefix keysets_read map_read
      save_run is_active x_stored x_added x_named synced_map-IsMap sync_run (inl refl) x-IsKeyName
