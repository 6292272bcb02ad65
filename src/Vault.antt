-- ===== src/Vault.antt =====
-- The client of Vault that kvutils/kvutils.go uses (github.com/hashicorp/vault/api and its auth
-- packages), and the two HTTP calls of that file, as a record of functions. A call takes the state of
-- the servers and may change it. A nil pointer is `none`.
pub mod Client
pub mod Secrets
pub mod Walk
pub mod Folders
pub mod Transit
pub mod KeyNames
pub mod Wrapping
use vault_plugin_aead.Prelude.{ℕ, Bytes, Option, Outcome, ok, err, panic, Error, ◌≡◌}
use vault_plugin_aead.Exec.{Exec}
use vault_plugin_aead.GoMap.{GoMap}
use vault_plugin_aead.Value.{Value}
use vault_plugin_aead.KeySet.{KeySetStruct}

-- vault.KVSecret, of which the code reads Data, a map that may be nil.
abbrev pub KvSecret : Type 0
KvSecret = Option (GoMap Value)

pub record Vault : Type 1 where
  pub Server : Type 0
  pub Client : Type 0
  pub Auth : Type 0
  -- vault.NewClient of the default config, at the address of the environment or of the config
  pub new_client : Bytes → Outcome Client
  pub with_namespace : Bytes → Client → Client
  pub set_token : Bytes → Client → Client
  -- auth.NewAppRoleAuth of a role id and the secret id of the environment
  pub new_app_role_auth : Bytes → Bytes → Outcome Auth
  -- authgcp.NewGCPAuth of an IAM role, as a service account
  pub new_gcp_auth : Bytes → Bytes → Outcome Auth
  -- Auth().Login: the token of what it returns
  pub login : Client → Auth → Exec Server (Option Bytes)
  -- KVv1 and KVv2 of an engine, at a path
  pub v1_put : Client → Bytes → Bytes → GoMap Value → Exec Server (Unit {0})
  pub v1_get : Client → Bytes → Bytes → Exec Server (Option KvSecret)
  pub v1_delete : Client → Bytes → Bytes → Exec Server (Unit {0})
  pub v2_put : Client → Bytes → Bytes → GoMap Value → Exec Server (Option KvSecret)
  pub v2_patch : Client → Bytes → Bytes → GoMap Value → Exec Server (Option KvSecret)
  pub v2_get : Client → Bytes → Bytes → Exec Server (Option KvSecret)
  pub v2_delete : Client → Bytes → Bytes → Exec Server (Unit {0})
  -- Logical().List and Logical().Write: the data of the secret that they return
  pub list : Client → Bytes → Exec Server (Option (GoMap Value))
  pub write : Client → Bytes → GoMap Value → Exec Server (Option (GoMap Value))
  -- the body of the answer to a GET of the metadata server, and to a POST with a Vault token
  pub get_body : Bytes → Exec Server Bytes
  pub post_body : Bytes → Bytes → Exec Server Bytes
  -- how many nested calls of one function the stack of a goroutine holds
  pub stack : ℕ

-- What the same code takes of Go's own library: encoding/json and the case tables of Unicode.
pub record Library : Type 0 where
  -- json.Unmarshal into a map of interfaces, whose numbers are held as `fmt` prints them
  pub unmarshal_map : Bytes → Option (GoMap Value)
  pub unmarshal_keysets : Bytes → Option (GoMap KeySetStruct)
  -- what json.Unmarshal leaves in a zero KeySetStruct, with an error or without one
  pub unmarshal_into_zero : Bytes → KeySetStruct
  pub marshal_map : GoMap Value → Bytes
  pub marshal_keysets : GoMap KeySetStruct → Bytes
  -- strings.ToUpper and strings.ToLower of a text that is not ASCII
  pub to_upper_unicode : Bytes → Bytes
  pub to_lower_unicode : Bytes → Bytes

-- A call whose error the caller looks at.
module _ {ℓ} {S : Type ℓ} {A B : Type 0} where
  abbrev pub on_outcome : (A → Exec S B) → (Error → Exec S B) → Outcome A → Exec S B
  on_outcome f g (ok a) s = f a s
  on_outcome f g (err e) s = g e s
  on_outcome f g panic s = (panic, s)

  abbrev pub attempt : Exec S A → (A → Exec S B) → (Error → Exec S B) → Exec S B
  attempt m f g s = on_outcome f g (m s).0 (m s).1

-- if err != nil { return fmt.Errorf(...) }
abbrev pub or_error {ℓ} : {S : Type ℓ} {A : Type 0} → Exec S A → (Error → Error) → Exec S A
or_error m f = attempt m (λ a s. (ok a, s)) (λ e s. (err (f e), s))
