-- ===== src/Backend.antt =====
-- backend.go: the paths of the secrets engine and the handlers behind them, and validateFields;
-- path_info.go: pathInfo.
pub mod Serve
pub mod Reads
pub mod Quiet
pub mod Unreadable
use vault_plugin_aead.Prelude.{
  Bytes, codes, Bool, true, false, List, [], ◌∷◌, ◌++◌, Option, none, some, Outcome, ok, err, map,
  same, if◌then◌else◌,
}
use vault_plugin_aead.GoMap.{GoMap, has}
use vault_plugin_aead.Value.{Value, str}
use vault_plugin_aead.Value.Printing.{sort_keys}

pub data Operation : Type 0 where
  read update : Operation

-- The methods of `backend` that the paths name.
pub data Callback : Type 0 where
  path_info : Callback
  path_config_read : Callback
  path_config_write : Callback
  path_config_overwrite : Callback
  path_config_delete : Callback
  path_aead_encrypt : Callback
  path_aead_decrypt : Callback
  path_key_rotate : Callback
  path_aead_create_non_deterministic_keys : Callback
  path_aead_create_non_deterministic_keys_overwrite : Callback
  path_aead_create_deterministic_keys : Callback
  path_aead_create_deterministic_keys_overwrite : Callback
  path_read_key_types : Callback
  path_bq_key_sync : Callback
  path_aead_encrypt_bulk_col : Callback
  path_aead_decrypt_bulk_col : Callback
  path_update_key_status : Callback
  path_update_key_material : Callback
  path_update_key_id : Callback
  path_update_primary_key_id : Callback
  path_import_key : Callback
  path_read_kv : Callback
  path_sync_kv : Callback
  path_sync_transit_kv : Callback

-- framework.PathOperation; forward is the value of ForwardPerformanceStandby and of
-- ForwardPerformanceSecondary, which are set together.
pub record PathOperation : Type 0 where
  pub callback : Callback
  pub forward : Bool

-- framework.Path: the pattern, the names of the fields, and an operation for a read and an update.
pub record EnginePath : Type 0 where
  pub pattern : Bytes
  pub fields : List Bytes
  pub read_operation : Option PathOperation
  pub update_operation : Option PathOperation

abbrev operation : Callback → Bool → Option PathOperation
operation callback forward = some (record { callback = callback; forward = forward })

abbrev engine_path : Bytes → List Bytes → Option PathOperation → Option PathOperation → EnginePath
engine_path pattern fields read_operation update_operation = record {
  pattern = pattern;
  fields = fields;
  read_operation = read_operation;
  update_operation = update_operation;
}

abbrev pub config_paths : List EnginePath
config_paths =
    engine_path (codes "info") [] (operation path_info true) none
    ∷ engine_path (codes "config") [] (operation path_config_read false)
        (operation path_config_write true)
    ∷ engine_path (codes "configOverwrite") [] (operation path_config_read false)
        (operation path_config_overwrite true)
    ∷ engine_path (codes "configDelete") [] (operation path_config_read false)
        (operation path_config_delete true)
    ∷ []

abbrev pub row_paths : List EnginePath
row_paths =
    engine_path (codes "encrypt") (codes "aeadData" ∷ []) none (operation path_aead_encrypt false)
    ∷ engine_path (codes "decrypt") (codes "aeadData" ∷ []) none (operation path_aead_decrypt false)
    ∷ engine_path (codes "rotate") [] none (operation path_key_rotate true)
    ∷ []

abbrev pub key_paths : List EnginePath
key_paths =
    engine_path (codes "createAEADkey") (codes "aeadData" ∷ []) none
      (operation path_aead_create_non_deterministic_keys true)
    ∷ engine_path (codes "createAEADkeyOverwrite") (codes "aeadData" ∷ []) none
        (operation path_aead_create_non_deterministic_keys_overwrite true)
    ∷ engine_path (codes "createDAEADkey") (codes "aeadData" ∷ []) none
        (operation path_aead_create_deterministic_keys true)
    ∷ engine_path (codes "createDAEADkeyOverwrite") (codes "aeadData" ∷ []) none
        (operation path_aead_create_deterministic_keys_overwrite true)
    ∷ engine_path (codes "keytypes") [] (operation path_read_key_types false) none
    ∷ engine_path (codes "bqsync") [] none (operation path_bq_key_sync true)
    ∷ []

abbrev pub column_paths : List EnginePath
column_paths =
    engine_path (codes "encryptcol") (codes "aeadData" ∷ []) none
      (operation path_aead_encrypt_bulk_col false)
    ∷ engine_path (codes "decryptcol") (codes "aeadData" ∷ []) none
        (operation path_aead_decrypt_bulk_col false)
    ∷ []

abbrev pub update_paths : List EnginePath
update_paths =
    engine_path (codes "updateKeyStatus") [] (operation path_config_read false)
      (operation path_update_key_status true)
    ∷ engine_path (codes "updateKeyMaterial") [] (operation path_config_read false)
        (operation path_update_key_material true)
    ∷ engine_path (codes "updateKeyID") [] (operation path_config_read false)
        (operation path_update_key_id true)
    ∷ engine_path (codes "updatePrimaryKeyID") [] (operation path_config_read false)
        (operation path_update_primary_key_id true)
    ∷ engine_path (codes "importKey") [] (operation path_config_read false)
        (operation path_import_key true)
    ∷ []

abbrev pub kv_paths : List EnginePath
kv_paths =
    engine_path (codes "readkv") [] (operation path_read_kv false) none
    ∷ engine_path (codes "synckv") [] (operation path_sync_kv false) none
    ∷ engine_path (codes "synctransitkv") [] none (operation path_sync_transit_kv false)
    ∷ []

abbrev pub paths : List EnginePath
paths = config_paths ++ (row_paths ++ (key_paths ++ (column_paths ++ (update_paths ++ kv_paths))))

abbrev key_entry : Bytes → Bytes × Bytes
key_entry k = (k, [])

abbrev key_of : Bytes × Bytes → Bytes
key_of (k, _) = k

-- for k := range req.Data { if it is not in data.Schema { append } }
unfoldable pub unknown_fields : GoMap Value → GoMap Value → List Bytes
unfolding has
unknown_fields schema [] = []
unknown_fields schema ((k, v) ∷ request) =
    let rest = unknown_fields schema request in if has k schema then rest else k ∷ rest

-- validateFields: the unknown names, sorted; with none of them there is no error.
unfoldable pub validate_fields : GoMap Value → GoMap Value → List Bytes
unfolding unknown_fields sort_keys
validate_fields schema request =
    map key_of (sort_keys (map key_entry (unknown_fields schema request)))

-- pathInfo, with the version that the build sets.
unfoldable pub path_info_response : Bytes → GoMap Value
path_info_response version = (codes "version", str version) ∷ []
