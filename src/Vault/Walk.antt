-- ===== src/Vault/Walk.antt =====
-- kvutils/kvutils.go: KvGetSecretPaths, the recursive walk over the folders of a KV engine.
use vault_plugin_aead.Prelude.{
  same, ℕ, zero, suc, Bytes, codes, Bool, false, List, [], ◌∷◌, ◌++◌, Option, none, some,
  if◌then◌else◌, ◌==◌,
}
use vault_plugin_aead.Exec.{Exec, pure, raise, crash, ◌>>=◌}
use vault_plugin_aead.GoMap.{GoMap}
use vault_plugin_aead.Value.{Value, Items, arr, nil, cons}
use vault_plugin_aead.Value.Printing.{sprintf_v}
use vault_plugin_aead.Vault.{Vault, attempt}
use vault_plugin_aead.Vault.Secrets.{bad_version}

-- strings.HasSuffix(path, "/")
unfoldable pub is_folder : Bytes → Bool
is_folder [] = false
is_folder (c ∷ []) = c == b'/'
is_folder (c ∷ s) = is_folder s

module _ {S : Type 0} (walk : Bytes → Exec S (List Bytes)) (subpath : Bytes) where
  -- An error of a walk below is dropped: the folder counts as empty.
  abbrev pub below : Bytes → Exec S (List Bytes)
  below name = attempt (walk (subpath ++ name)) (λ paths. pure paths) (λ e. pure [])

  -- for _, path := range pathSlice
  unfoldable pub walk_items : Items → Exec S (List Bytes)
  unfolding is_folder sprintf_v
  walk_items nil = pure []
  walk_items (cons path items) = do
    let name = sprintf_v path
    paths ← if is_folder name then below name else pure ((subpath ++ name) ∷ [])
    rest ← walk_items items
    pure (paths ++ rest)

  -- pathIface.([]interface{})
  abbrev pub walk_slice : Value → Exec S (List Bytes)
  unfolding walk_items
  walk_slice (arr items) = walk_items items
  walk_slice _ = crash

  -- for _, pathIface := range ss.Data
  unfoldable pub walk_data : GoMap Value → Exec S (List Bytes)
  unfolding walk_slice
  walk_data [] = pure []
  walk_data ((key, paths) ∷ ss) = do
    found ← walk_slice paths
    rest ← walk_data ss
    pure (found ++ rest)

  abbrev pub walk_secret : Option (GoMap Value) → Exec S (List Bytes)
  unfolding walk_data
  walk_secret none = raise (codes "failed to read List: %!w(<nil>)")
  walk_secret (some ss) = walk_data ss

module _ (v : Vault) (client : v.Client) (engine : Bytes) where
  unfoldable pub listed :
      Bytes → (Bytes → Exec (v.Server) (List Bytes)) → Bytes → Exec (v.Server) (List Bytes)
  unfolding walk_secret
  listed path walk subpath =
      attempt (v.list client path) (walk_secret walk subpath)
        (λ e. raise (codes "failed to read List: " ++ e))

  -- The number is how many calls the stack still holds; a Go program whose stack overflows ends.
  unfoldable pub list_walk : ℕ → Bytes → Bytes → Exec (v.Server) (List Bytes)
  unfolding same listed
  list_walk zero version subpath = crash
  list_walk (suc stack) version subpath =
      let walk = list_walk stack version in
      if same version (codes "v1")
      then listed (engine ++ (codes "/" ++ subpath)) walk subpath
      else if same version (codes "v2")
      then listed (engine ++ (codes "/metadata/" ++ subpath)) walk subpath
      else raise bad_version

  unfoldable pub kv_get_secret_paths : Bytes → Bytes → Exec (v.Server) (List Bytes)
  unfolding list_walk
  kv_get_secret_paths version rootpath = list_walk (v.stack) version rootpath
