-- ===== src/Kv/Restore.antt =====
-- saveToKV and pathSyncKV, one after the other.
use vault_plugin_aead.Prelude.{
  ok_inj, Bytes, codes, true, false, List, [], ◌∷◌, Option, some, ok, inl, inr, same, ◌≡◌, sym, ap,
  ◌∙◌, subst,
}
use vault_plugin_aead.GoMap.{GoMap, get}
use vault_plugin_aead.GoMap.Order.{IsMap}
use vault_plugin_aead.Value.{Value, str}
use vault_plugin_aead.Value.Printing.{sprintf_s}
use vault_plugin_aead.Tink.{Tink}
use vault_plugin_aead.Keys.{remove_key_prefix}
use vault_plugin_aead.Vault.{Vault, Library}
use vault_plugin_aead.Vault.Client.{or_null}
use vault_plugin_aead.Vault.Folders.{Version, version_text}
use vault_plugin_aead.Kv.{KvOptions, resolve_kv_options}
use vault_plugin_aead.Kv.Secret.{is_secret_an_aead_keyset, kv_client, read_data}
use vault_plugin_aead.Kv.Sink.{save_keyset, vault_sink}
use vault_plugin_aead.Kv.Sink.Saved.{IsKv, read_data-save_keyset}
use vault_plugin_aead.Lookup.{Config}
use vault_plugin_aead.Config.{Storage, IsStorage, World}
use vault_plugin_aead.Config.Overlay.{prefixed}
use vault_plugin_aead.Kv.Sync.{path_sync_kv, Synced}
use vault_plugin_aead.Kv.Sync.Reads.{IsIn, IsKeyName, Reads, add_secrets}
use vault_plugin_aead.Kv.Sync.Masked.{Readable}
use vault_plugin_aead.Kv.Sync.Stored.{path_sync_kv_keysets}

Reads_in :
    (v : Vault) (client : v.Client) (o : KvOptions) (server : v.Server)
    (secret : Bytes → GoMap Value) (name : Bytes) (paths : List Bytes)
    → IsIn name paths
    → Reads v client o server secret paths
    → read_data v client o name server ≡ (ok (secret name), server)
Reads_in v client o server secret name [] i h = elim i [ ]
Reads_in v client o server secret name (path ∷ paths) i (e, h) = elim i [
  | inl q ↦ subst (λ p. read_data v client o p server ≡ (ok (secret p), server)) q e
  | inr i' ↦ Reads_in v client o server secret name paths i' h
]

module _ (t : Tink) (lib : Library) (v : Vault) {s : Storage} (l : IsStorage s)
    (w w' : World s (vault_sink t lib v)) (entry : Option Config)
    (r : Readable v lib (resolve_kv_options w.cache) w.kv)
    (law : IsKv v r.client (resolve_kv_options w.cache).vault_kv_engine) (version : Version)
    (is_version : (resolve_kv_options w.cache).vault_kv_version ≡ version_text version)
    (still : r.after ≡ w.kv) where
  -- A keyset that saveToKV has saved under a name with a key prefix, while transit was not active, is
  -- what the storage holds under this name once pathSyncKV has returned, whatever the config held
  -- before. The walk over the KV engine lists the name, the login leaves the engine as it is, and the
  -- conditions of both handlers hold: the KV engine keeps its promises, JSON reads back what it wrote
  -- of the two maps, the name has one prefix, the engine is set active and can be read, and so can the
  -- stored config, and no two names of the map that was read are the same behind their prefixes.
  pub path_sync_kv-save_keyset :
      (name : Bytes) (value : Value) (server logged_in : v.Server) (m named : GoMap Value)
      {answer : Synced}
      → kv_client v lib (resolve_kv_options w.cache) server ≡ (ok (r.client), logged_in)
      → same (resolve_kv_options w.cache).vault_transit_active (codes "false") ≡ true
      → remove_key_prefix (remove_key_prefix name) ≡ remove_key_prefix name
      → lib.unmarshal_keysets (
          lib.marshal_keysets
            ((remove_key_prefix name, lib.unmarshal_into_zero (sprintf_s value)) ∷ []))
        ≡ some ((remove_key_prefix name, lib.unmarshal_into_zero (sprintf_s value)) ∷ [])
      → lib.unmarshal_map
          (lib.marshal_map ((remove_key_prefix name, str (remove_key_prefix name)) ∷ []))
        ≡ some ((remove_key_prefix name, str (remove_key_prefix name)) ∷ [])
      → save_keyset t lib v (resolve_kv_options w.cache) name value server ≡ (ok tt, w.kv)
      → same (resolve_kv_options w.cache).vault_kv_active (codes "true") ≡ true
      → s.read_entry w.storage ≡ ok entry
      → add_secrets t lib false r.secret r.paths [] ≡ ok m
      → prefixed t m ≡ ok named
      → IsMap named
      → path_sync_kv t lib v w ≡ (ok answer, w')
      → IsIn name r.paths
      → IsKeyName name
      → (c : Config) × (s.read_entry w'.storage ≡ ok (some c))
        × (get name c ≡ some (str (t.marshal (lib.unmarshal_into_zero (sprintf_s value)))))
  path_sync_kv-save_keyset name value server logged_in m named login off bare keysets ad saved
        active read added p is_map run is_path key_name =
      let o = resolve_kv_options w.cache in
      let (secret, kh, reads, keyset, _) =
        read_data-save_keyset v r.client o law version is_version t lib name value server logged_in
          w.kv login off bare keysets ad saved in
      let listed =
        subst (λ z. read_data v r.client o name z ≡ (ok (r.secret name), z)) still
          (Reads_in v r.client o r.after r.secret name r.paths is_path r.reads) in
      let q : secret ≡ r.secret name = ok_inj (ap (λ z. z.0) (sym reads ∙ listed)) in
      path_sync_kv_keysets t lib v l w w' entry r m named name
        (t.marshal (lib.unmarshal_into_zero (sprintf_s value))) kh active read added p is_map run
        is_path key_name
        (ap (λ z. is_secret_an_aead_keyset t lib (or_null (get (codes "data") z)) name) (sym q)
          ∙ keyset)
