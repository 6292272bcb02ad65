-- ===== src/Vault/Folders.antt =====
-- The walk of KvGetSecretPaths ends on every tree of folders that the stack can hold, with the paths
-- of the tree.
use vault_plugin_aead.Prelude.{
  ℕ, zero, suc, ◌<◌, Bytes, codes, true, false, List, [], ◌∷◌, ◌++◌, some, ok, append-nil, ltb,
  if◌then◌else◌, ◌≡◌, refl, ap, arith, same,
}
use vault_plugin_aead.Exec.{Exec}
use vault_plugin_aead.Value.{Items, arr, nil, cons, str}
use vault_plugin_aead.Vault.{Vault}
use vault_plugin_aead.Vault.Walk.{
  is_folder, walk_items, walk_data, listed, list_walk, kv_get_secret_paths,
}

-- The two versions of the KV engine.
pub data Version : Type 0 where
  v1 v2 : Version

abbrev pub version_text : Version → Bytes
version_text v1 = codes "v1"
version_text v2 = codes "v2"

-- What a folder holds: files, and folders with their contents.
pub data Folder : Type 0 where
  empty : Folder
  file : Bytes → Folder → Folder
  sub : Bytes → Folder → Folder → Folder

abbrev pub slash : Bytes
slash = codes "/"

-- The folder as a server lists it.
abbrev pub items : Folder → Items
items empty = nil
items (file name f) = cons (str name) (items f)
items (sub name content f) = cons (str (name ++ slash)) (items f)

-- The paths of all files below a path, in the order of the walk.
unfoldable pub paths : Bytes → Folder → List Bytes
paths p empty = []
paths p (file name f) = (p ++ name) ∷ paths p f
paths p (sub name content f) = paths (p ++ (name ++ slash)) content ++ paths p f

abbrev larger : ℕ → ℕ → ℕ
larger a b = if ltb a b then b else a

-- How many folders stand inside one another.
unfoldable pub depth : Folder → ℕ
depth empty = 0
depth (file name f) = depth f
depth (sub name content f) = larger (suc (depth content)) (depth f)

abbrev pub listing : Version → Bytes → Bytes → Bytes
listing v1 engine p = engine ++ (codes "/" ++ p)
listing v2 engine p = engine ++ (codes "/metadata/" ++ p)

-- The server lists a folder at a path, and stays as it is.
abbrev pub Lists : (v : Vault) → v.Client → Version → Bytes → v.Server → Bytes → Folder → Type 0
Lists v client version engine server p f =
    v.list client (listing version engine p) server
    ≡ (ok (some ((codes "keys", arr (items f)) ∷ [])), server)

-- The names of the files have no slash at their end, and every folder inside is listed.
abbrev pub Holds : (v : Vault) → v.Client → Version → Bytes → v.Server → Bytes → Folder → Type 0
Holds v client version engine server p empty = Unit
Holds v client version engine server p (file name f) =
    (is_folder name ≡ false) × Holds v client version engine server p f
Holds v client version engine server p (sub name content f) =
    Lists v client version engine server (p ++ (name ++ slash)) content
    × Holds v client version engine server (p ++ (name ++ slash)) content
    × Holds v client version engine server p f

is_folder-slash : (name : Bytes) → is_folder (name ++ slash) ≡ true
unfolding is_folder
is_folder-slash [] = refl
is_folder-slash (c ∷ []) = refl
is_folder-slash (c ∷ d ∷ name) = is_folder-slash (d ∷ name)

list_walk_lists :
    (v : Vault) (client : v.Client) (engine : Bytes) (version : Version) (stack : ℕ) (p : Bytes)
    → list_walk v client engine (suc stack) (version_text version) p
      ≡ listed v client engine
          (listing version engine p)
          (list_walk v client engine stack (version_text version))
          p
unfolding list_walk same
list_walk_lists v client engine v1 stack p = refl
list_walk_lists v client engine v2 stack p = refl

module _ (v : Vault) (client : v.Client) (version : Version) (engine : Bytes)
    (server : v.Server) where
  Walks : (Bytes → Exec (v.Server) (List Bytes)) → ℕ → Type 0
  Walks walk n =
      (p : Bytes) (f : Folder)
      → Lists v client version engine server p f
      → Holds v client version engine server p f
      → depth f < n
      → walk p server ≡ (ok (paths p f), server)

  walk_items_paths :
      (walk : Bytes → Exec (v.Server) (List Bytes)) (n : ℕ)
      → Walks walk n
      → (p : Bytes) (f : Folder) → Holds v client version engine server p f
      → depth f < suc n
      → walk_items walk p (items f) server ≡ (ok (paths p f), server)
  unfolding walk_items paths depth Walks
  walk_items_paths walk n w p empty h d = refl
  walk_items_paths walk n w p (file name f) (plain, h) d =
      rw plain (rw (walk_items_paths walk n w p f h d) refl)
  walk_items_paths walk n w p (sub name content f) (lists, inside, h) d =
      rw (is_folder-slash name) (
        rw (w (p ++ (name ++ slash)) content lists inside (ground arith))
          (rw (walk_items_paths walk n w p f h (ground arith)) refl))

  -- With room on the stack for the folders inside one another, the walk returns their files.
  list_walk_paths : (n : ℕ) → Walks (λ p. list_walk v client engine n (version_text version) p) n
  unfolding Walks listed walk_data
  list_walk_paths zero p f lists h d = absurd (omega arith)
  list_walk_paths (suc n) p f lists h d = rw (list_walk_lists v client engine version n p) (
      rw lists (
        rw
          (walk_items_paths (λ q. list_walk v client engine n (version_text version) q) n
            (list_walk_paths n) p f h d)
          (ap (λ l. (ok l, server)) (append-nil (paths p f)))))

-- KvGetSecretPaths of a path at which the server lists a tree of folders, of either version of the
-- engine, ends if the stack holds one call more than folders stand inside one another, and returns
-- the path of each file, in the order of the listings; the server stays as it is.
pub kv_get_secret_paths_lem :
    (v : Vault) (client : v.Client) (version : Version) (engine root : Bytes) (f : Folder)
    (server : v.Server)
    → Lists v client version engine server root f
    → Holds v client version engine server root f
    → depth f < v.stack
    → kv_get_secret_paths v client engine (version_text version) root server
      ≡ (ok (paths root f), server)
unfolding kv_get_secret_paths Walks
kv_get_secret_paths_lem v client version engine root f server lists h d =
    list_walk_paths v client version engine server (v.stack) root f lists h d
