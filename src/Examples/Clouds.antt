-- ===== src/Examples/Clouds.antt =====
-- BigQuery and the paths of the engine at concrete inputs.
use vault_plugin_aead.Prelude.{
  ℕ, ◌*◌, ◌≤◌, Bytes, codes, true, false, [], ◌∷◌, Option, none, some, Outcome, ok, err, length,
  map, All, ◌≡◌, ◌≢◌, refl, sym, ap, arith,
}
use vault_plugin_aead.GoMap.{GoMap, get, set}
use vault_plugin_aead.GoMap.Laws.{get-set_self, get-set_ne}
use vault_plugin_aead.Value.{Value, str}
use vault_plugin_aead.Base64.RoundTrip.{IsBytes}
use vault_plugin_aead.Bq.{Options, encrypt, escape, region_options, with_location, routine_body}
use vault_plugin_aead.Bq.Cloud.{Cloud, RoutineMetadata}
use vault_plugin_aead.Bq.Routine.{routine_metadata, routine_of, do_bq_routine_create_or_update}
use vault_plugin_aead.Bq.Sync.{Runtime}
use vault_plugin_aead.Bq.Handler.{calls}
use vault_plugin_aead.Bq.Escape.{IsPlain, unescape, escape_lem}
use vault_plugin_aead.Bq.Upsert.{Updated, IsUp, do_bq_routine_refines}
use vault_plugin_aead.Bq.Late.{last_name, renamed, own_calls, calls_late}
use vault_plugin_aead.Backend.{Operation}
use vault_plugin_aead.Backend.Serve.{Call, handle_request}
use vault_plugin_aead.Backend.Reads.{handle_request_read}
use vault_plugin_aead.Examples.Samples.{toy, exchanged, siv_keyset, gcm_keyset}
use vault_plugin_aead.Examples.Servers.{server_toy, json_toy}
use vault_plugin_aead.Examples.Syncing.{kv_world}

abbrev Routines : Type 0
Routines = GoMap RoutineMetadata

abbrev metadata_toy : Routines → Option RoutineMetadata → Outcome Bytes × Routines
metadata_toy st none = (err (codes "not found"), st)
metadata_toy st (some m) = (ok (codes "etag"), st)

abbrev pub cloud_toy : Cloud
cloud_toy = record {
  State = Routines;
  Dataset = Unit {0};
  datasets = λ project st. (ok (ok (codes "d_eu", tt) ∷ []), st);
  new_kms_client = λ st. (ok tt, st);
  get_crypto_key = λ kms st. (ok tt, st);
  encrypt = λ kms text st. (ok text, st);
  location = λ d st. (ok (codes "EU"), st);
  metadata = λ d id st. metadata_toy st (get id st);
  create = λ d id m st. (ok tt, set id m st);
  update = λ d id m etag st. (ok tt, set id m st);
}

updated_toy :
    (st : Routines) (d : Unit {0}) (id : Bytes) (m : RoutineMetadata)
    → Updated cloud_toy (λ d i. get i st) (λ d i. get i (set id m st)) d id m
updated_toy st d id m =
    (get-set_self id m st, λ d' i other. get-set_ne id i m st (λ e. other (refl, sym e)))

cloud_toy-IsUp : IsUp cloud_toy
cloud_toy-IsUp = record {
  view = λ st d id. get id st;
  missing = λ st d id h. (codes "not found", ap (metadata_toy st) h);
  present = λ st d id m h. (codes "etag", ap (metadata_toy st) h);
  creates = λ st d id m h. (set id m st, refl, updated_toy st d id m);
  updates = λ st d id etag m h. (set id m st, refl, updated_toy st d id m);
}

toy_octets : IsBytes (0 ∷ 255 ∷ [])
toy_octets = (omega arith, (omega arith, tt))

escape_lem_example :
    (length (escape (0 ∷ 255 ∷ [])) ≡ 4 * length {A = ℕ} (0 ∷ 255 ∷ []))
    × All IsPlain (escape (0 ∷ 255 ∷ []))
    × (unescape (escape (0 ∷ 255 ∷ [])) ≡ some (0 ∷ 255 ∷ []))
escape_lem_example = escape_lem (0 ∷ 255 ∷ []) toy_octets

abbrev bq_options : Options
bq_options = record {
  project_id = codes "p";
  encrypt_dataset_id = codes "d_<region>";
  decrypt_dataset_id = codes "d_<region>";
  encrypt_routine_id = codes "x_gcm_encrypt";
  decrypt_routine_id = codes "x_gcm_decrypt";
  det_routine_prefix = codes "siv";
  nondet_routine_prefix = codes "gcm";
  kms_key_name = codes "locations/<region>";
  field_name = codes "x";
}

do_bq_routine_refines_example :
    (st' : Routines) × (do_bq_routine_create_or_update cloud_toy bq_options
        (codes "a")
        false
        encrypt
        tt
        []
      ≡ (ok tt, st'))
    × Updated cloud_toy
        (cloud_toy-IsUp.view [])
        (cloud_toy-IsUp.view st')
        tt
        (routine_of encrypt bq_options)
        (routine_metadata encrypt (routine_body encrypt false bq_options.kms_key_name (codes "a")))
do_bq_routine_refines_example =
    do_bq_routine_refines cloud_toy cloud_toy-IsUp bq_options (codes "a") false encrypt tt []

abbrev all_late : Runtime cloud_toy
all_late = record { late = λ region. true; order = λ jobs. jobs }

abbrev eu_datasets : GoMap (Unit {0})
eu_datasets = (codes "d_eu", tt) ∷ []

abbrev no_routines : Routines
no_routines = []

abbrev eu_options : Options
eu_options =
    with_location json_toy (codes "EU") (region_options (codes "x") (codes "eu") bq_options)

abbrev keys : GoMap Value
keys = (codes "gcm/x", str gcm_keyset) ∷ (codes "siv/y", str siv_keyset) ∷ []

two_late : (i : ℕ) → length keys ≤ 2
two_late i = omega arith

calls_late_example :
    calls toy (λ i. 2) keys 0 keys ≡ map (renamed (last_name keys)) (own_calls toy keys)
calls_late_example =
    calls_late toy (λ i. 2) (codes "gcm/x") (str gcm_keyset) ((codes "siv/y", str siv_keyset) ∷ [])
      two_late

abbrev pub request : Call cloud_toy
request = record {
  raw = [];
  mount_point = codes "aead/";
  version = codes "1.0";
  env = exchanged;
  seed = λ name. 0;
  random = λ name. 0;
  run = all_late;
  reads = λ i. i;
}

no_sync : codes "config" ≢ codes "synckv"
no_sync h = ground arith

handle_request_read_example :
    (handle_request toy json_toy server_toy cloud_toy Operation.read
      (codes "config")
      request
      (kv_world, [])).1.0.storage
    ≡ kv_world.storage
handle_request_read_example =
    handle_request_read toy json_toy server_toy cloud_toy (codes "config") request kv_world []
      no_sync
