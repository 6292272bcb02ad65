-- ===== src/Vault/Client.antt =====
-- kvutils/kvutils.go: how a client of Vault is made (KvGetClientWithApprole and what it calls).
use vault_plugin_aead.Prelude.{
  Bytes, codes, [], ◌++◌, Option, none, some, Outcome, ok, err, panic, same, if◌then◌else◌,
}
use vault_plugin_aead.Exec.{Exec, pure, raise, lift, ◌>>=◌}
use vault_plugin_aead.GoMap.{GoMap, get}
use vault_plugin_aead.Value.{Value, as_map, null}
use vault_plugin_aead.Value.Printing.{sprintf_v, sprintf_s}
use vault_plugin_aead.Lookup.{Config}
use vault_plugin_aead.Vault.{Vault, Library, attempt, or_error}

abbrev pub or_null : Option Value → Value
or_null none = null
or_null (some x) = x

-- A body that does not unmarshal leaves the map empty.
abbrev pub or_empty : Option (GoMap Value) → GoMap Value
or_empty none = []
or_empty (some m) = m

-- bodyMap["data"].(map[string]interface{}), and the text of its "secret_id"
unfoldable pub secret_id_of : GoMap Value → Outcome Bytes
unfolding get sprintf_s
secret_id_of body = elim (as_map (or_null (get (codes "data") body))) [
  | none ↦ panic
  | some deets ↦ ok (sprintf_s (or_null (get (codes "secret_id") deets)))
]

module _ (v : Vault) where
  open v use {
    Server, Client, new_client, with_namespace, set_token, new_app_role_auth, new_gcp_auth, login,
    get_body, post_body,
  }

  abbrev metadata_url : Bytes
  metadata_url = codes "http://metadata.google.internal/computeMetadata/v1/"

  -- The e-mail of the service account and the project.
  unfoldable pub get_metadata_info : Exec Server (Bytes × Bytes)
  get_metadata_info = do
    let no_contact =
        λ (e : Bytes). codes "Error: unable to contact http://metadata.google.internal: " ++ e
    project ← or_error (get_body (metadata_url ++ codes "project/project-id")) no_contact
    email ←
        or_error (get_body (metadata_url ++ codes "instance/service-accounts/default/email"))
          no_contact
    pure (email, project)

  abbrev token_of : Bytes → Option Bytes → Exec Server Bytes
  token_of missing none = raise missing
  token_of missing (some token) = pure token

  unfoldable pub get_vault_token_gcp_auth_iam : Bytes → Bytes → Bytes → Exec Server Bytes
  get_vault_token_gcp_auth_iam service_account address iam = do
    client ←
        or_error (lift (new_client address)) (λ e. codes "unable to initialize Vault client: " ++ e)
    auth ←
        or_error (lift (new_gcp_auth iam service_account))
          (λ e. codes "unable to initialize GCP auth method: " ++ e)
    info ← or_error (login client auth) (λ e. codes "unable to login to GCP auth method: " ++ e)
    token_of (codes "login response did not return client token") info

  unfoldable pub create_secret_id_for_role : Library → Bytes → Bytes → Bytes → Exec Server Bytes
  unfolding secret_id_of
  create_secret_id_for_role lib url token approle = do
    body ←
        post_body (url ++ (codes "/v1/auth/approle/role/" ++ (approle ++ codes "/secret-id"))) token
    lift (secret_id_of (or_empty (lib.unmarshal_map body)))

  -- A metadata server that does not answer leaves a fixed service account.
  unfoldable pub get_generated_vault_secret_id :
      Library → Bytes → Bytes → Bytes → Bytes → Exec Server Bytes
  unfolding get_metadata_info get_vault_token_gcp_auth_iam create_secret_id_for_role same
  get_generated_vault_secret_id lib address secret_id writer_role iam_role =
      if same secret_id []
      then (do
        email ←
            attempt get_metadata_info (λ info. pure info.0)
              (λ e. pure (
                codes
                  "restricted-zone-restricted@vf-grp-neuronenabler-nonlive.iam.gserviceaccount.com"))
        token ← get_vault_token_gcp_auth_iam email address iam_role
        create_secret_id_for_role lib address token writer_role)
      else pure secret_id

  -- The token is set on the client without the namespace, which is what is returned.
  unfoldable pub kv_get_client : Bytes → Bytes → Bytes → Bytes → Exec Server Client
  unfolding same
  kv_get_client address namespace approle_id secret_id = do
    client ←
        or_error (lift (new_client address)) (λ e. codes "failed to initialize Vault client: " ++ e)
    auth ←
        or_error (lift (new_app_role_auth approle_id secret_id))
          (λ e. codes "\nfailed to initialize AppRole auth method: " ++ e)
    info ←
        or_error
          (login (if same namespace [] then client else with_namespace namespace client) auth)
          (λ e. codes "failed to login to AppRole auth method: " ++ e)
    token ← token_of (codes "no auth info was returned after login") info
    pure (set_token token client)

  unfoldable pub kv_get_client_with_approle :
      Library → Bytes → Bytes → Bytes → Bytes → Bytes → Bytes → Exec Server Client
  unfolding get_generated_vault_secret_id kv_get_client
  kv_get_client_with_approle lib address namespace approle_id secret_id approle_name iam_role = do
    generated ←
        or_error (get_generated_vault_secret_id lib address secret_id approle_name iam_role)
          (λ e. codes "Failed to generate a secret id")
    kv_get_client address namespace approle_id generated

  -- A setting of the config, or of the environment.
  abbrev pub configured : (Bytes → Option Bytes) → Config → Bytes → Bytes → Outcome Bytes
  unfolding get sprintf_v
  configured env config key variable = elim (get key config) [
    | some x ↦ ok (sprintf_v x)
    | none ↦ elim (env variable) [
      | some x ↦ ok x
      | none ↦ err (key ++ (codes " not set in config and " ++ (variable ++ codes " env not set")))
    ]
  ]

  unfoldable pub kv_get_client_pwd :
      (Bytes → Option Bytes) → Config → Bytes → Bytes → Exec Server Client
  unfolding configured
  kv_get_client_pwd env config url_key pwd_key = do
    address ← lift (configured env config url_key (codes "VAULT_ADDR"))
    token ← lift (configured env config pwd_key (codes "VAULT_TOKEN"))
    client ←
        or_error (lift (new_client address)) (λ e. codes "failed to initialize Vault client: " ++ e)
    pure (set_token token client)
