-- ===== src/Examples/Engines.antt =====
-- The KV and transit engines at concrete inputs.
use vault_plugin_aead.Prelude.{Bytes, codes, true, [], ok, ◌≡◌, ◌<◌, refl, arith}
use vault_plugin_aead.Base64
use vault_plugin_aead.Base64.RoundTrip.{IsBytes}
use vault_plugin_aead.Vault.Walk.{is_folder, kv_get_secret_paths}
use vault_plugin_aead.Vault.Folders.{
  v2, Folder, empty, file, sub, paths, depth, Lists, Holds, kv_get_secret_paths_lem,
}
use vault_plugin_aead.Vault.Transit.{wrap_keyset, unwrap_keyset}
use vault_plugin_aead.Vault.Wrapping.{unwrap_keyset-wrap_keyset}
use vault_plugin_aead.Examples.Servers.{Store, list_toy, server_toy, server_toy-IsTransit}

abbrev folders : Folder
folders = sub (codes "gcm") (file (codes "x") empty) empty

abbrev pub no_keys : Store
no_keys = []

folders-Lists : Lists server_toy tt v2 (codes "secret") no_keys [] folders
unfolding list_toy
folders-Lists = refl

folders-Holds : Holds server_toy tt v2 (codes "secret") no_keys [] folders
unfolding list_toy is_folder
folders-Holds = (refl, (refl, tt), tt)

folders-depth : depth folders < server_toy.stack
unfolding depth
folders-depth = omega arith

kv_get_secret_paths_lem_example :
    kv_get_secret_paths server_toy tt (codes "secret") (codes "v2") [] no_keys
    ≡ (ok (paths [] folders), no_keys)
kv_get_secret_paths_lem_example =
    kv_get_secret_paths_lem server_toy tt v2 (codes "secret") [] folders no_keys folders-Lists
      folders-Holds folders-depth

keyset-IsBytes : IsBytes (codes "abc")
keyset-IsBytes = (omega arith, (omega arith, (omega arith, tt)))

unwrap_keyset-wrap_keyset_example :
    (c : Bytes) × (server' : Store) × (wrap_keyset server_toy tt
        (codes "abc")
        (codes "kek")
        (codes "transit")
        no_keys
      ≡ (ok c, server'))
    × (plain : Bytes) × (later' : Store) × (unwrap_keyset server_toy tt c
          (codes "kek")
          (codes "transit")
          no_keys
        ≡ (ok plain, later'))
    × (Base64.decode plain ≡ (codes "abc", true))
unwrap_keyset-wrap_keyset_example =
    unwrap_keyset-wrap_keyset server_toy tt (codes "transit") (codes "kek") (codes "abc") no_keys
      no_keys server_toy-IsTransit keyset-IsBytes
