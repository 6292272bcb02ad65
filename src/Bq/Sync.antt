-- ===== src/Bq/Sync.antt =====
-- bqutils/bqutils.go: GetBQDatasets and DoBQSync.
use vault_plugin_aead.Prelude.{
  Bytes, Bool, List, [], ◌∷◌, ◌++◌, Option, none, some, Outcome, ok, err, panic, if◌then◌else◌,
}
use vault_plugin_aead.Exec.{Exec, pure, crash, ◌>>=◌, ◌>>◌}
use vault_plugin_aead.GoMap.{GoMap, get, set}
use vault_plugin_aead.Lookup.{Config}
use vault_plugin_aead.Keys.{remove_key_prefix}
use vault_plugin_aead.Vault.{Library, attempt}
use vault_plugin_aead.Bq.{
  Options, resolve_options, underscored, regions, region_options, with_location, escape, Kind,
  encrypt, decrypt,
}
use vault_plugin_aead.Bq.Cloud.{Cloud}
use vault_plugin_aead.Bq.Routine.{do_bq_routine_create_or_update}

-- A goroutine that DoBQSync starts, with what it reads.
pub record Job (c : Cloud) : Type 0 where
  pub options : Options
  pub escaped : Bytes
  pub deterministic : Bool
  pub kind : Kind
  pub dataset : c.Dataset

-- The runtime: for each region, whether the goroutine for the encrypt routine reads the options after
-- the loop body has changed them for the decrypt routine; and the order in which the goroutines run.
pub record Runtime (c : Cloud) : Type 0 where
  pub late : Bytes → Bool
  pub order : List (Job c) → List (Job c)

module _ (c : Cloud) where
  -- After an error of Next the nil dataset is asked for its id.
  abbrev pub collect_datasets :
      List (Outcome (Bytes × c.Dataset)) → GoMap (c.Dataset) → Exec (c.State) (GoMap (c.Dataset))
  unfolding set
  collect_datasets [] found = pure found
  collect_datasets (ok (id, dataset) ∷ more) found = collect_datasets more (set id dataset found)
  collect_datasets (err e ∷ more) found = crash
  collect_datasets (panic ∷ more) found = crash

  unfoldable pub get_bq_datasets : Bytes → Exec (c.State) (GoMap (c.Dataset))
  unfolding collect_datasets
  get_bq_datasets project = do answers ← c.datasets project; collect_datasets answers []

  module _ (lib : Library) (binary_keyset : Bytes) where
    -- A keyset that KMS does not encrypt leaves a nil response, whose ciphertext is asked for.
    unfoldable pub wrapped : Bytes → Exec (c.State) Bytes
    unfolding escape
    wrapped kms =
        attempt (c.encrypt kms binary_keyset) (λ ciphertext. pure (escape ciphertext)) (λ e. crash)

    -- With the key of the options: the wrapped keyset where a goroutine is started.
    unfoldable pub wrap_for : Options → Exec (c.State) (Options × Option Bytes)
    unfolding wrapped
    wrap_for o =
        attempt (c.get_crypto_key o.kms_key_name)
          (λ found. do escaped ← wrapped o.kms_key_name; pure (o, some escaped))
          (λ e. pure (o, none))

    -- The options after the body of one `if ...DatasetExists`. The key name is changed also where the
    -- key is not found.
    unfoldable pub prepare : Options → c.Dataset → Exec (c.State) (Options × Option Bytes)
    unfolding with_location wrap_for
    prepare o dataset =
        attempt (c.location dataset) (λ location. wrap_for (with_location lib location o))
          (λ e. pure (o, none))

    unfoldable pub prepare_if :
        Options → Option (c.Dataset) → Exec (c.State) (Options × Option Bytes)
    unfolding prepare
    prepare_if o none = pure (o, none)
    prepare_if o (some dataset) = prepare o dataset

    abbrev pub start : Options → Option Bytes → Bool → Kind → Option (c.Dataset) → List (Job c)
    start o (some escaped) deterministic kind (some dataset) =
        record {
          options = o;
          escaped = escaped;
          deterministic = deterministic;
          kind = kind;
          dataset = dataset;
        }
        ∷ []
    start o _ deterministic kind _ = []

    -- One region: the goroutines that its round of the loop starts.
    unfoldable pub sync_region :
        Runtime c
        → Bytes
        → Bool
        → Options
        → GoMap (c.Dataset)
        → Bytes
        → Exec (c.State) (List (Job c))
    unfolding region_options get prepare_if
    sync_region run field deterministic options datasets region = do
      let o = region_options field region options
      let encrypt_dataset = get o.encrypt_dataset_id datasets
      let decrypt_dataset = get o.decrypt_dataset_id datasets
      first ← prepare_if o encrypt_dataset
      second ← prepare_if first.0 decrypt_dataset
      pure (
          start (if run.late region then second.0 else first.0) first.1 deterministic encrypt
            encrypt_dataset
          ++ start second.0 second.1 deterministic decrypt decrypt_dataset)

    unfoldable pub sync_regions :
        Runtime c
        → Bytes
        → Bool
        → Options
        → GoMap (c.Dataset)
        → List Bytes
        → Exec (c.State) (List (Job c))
    unfolding sync_region
    sync_regions run field deterministic options datasets [] = pure []
    sync_regions run field deterministic options datasets (region ∷ rest) = do
      jobs ← sync_region run field deterministic options datasets region
      more ← sync_regions run field deterministic options datasets rest
      pure (jobs ++ more)

  unfoldable pub run_jobs : List (Job c) → Exec (c.State) (Unit {0})
  unfolding do_bq_routine_create_or_update
  run_jobs [] = pure tt
  run_jobs (j ∷ jobs) =
      do_bq_routine_create_or_update c j.options j.escaped j.deterministic j.kind j.dataset
      >> run_jobs jobs

  -- With no KMS client the first call of it is one of a nil pointer, and so is the deferred Close.
  unfoldable pub do_bq_sync :
      Library
      → Runtime c
      → Bytes
      → Bytes
      → Bool
      → Config
      → GoMap (c.Dataset)
      → Exec (c.State) (Unit {0})
  unfolding underscored remove_key_prefix resolve_options sync_regions run_jobs
  do_bq_sync lib run binary_keyset name deterministic env datasets =
      let field = remove_key_prefix (underscored name) in
      attempt (c.new_kms_client)
        (λ client. do
          jobs ←
              sync_regions lib binary_keyset run field deterministic
                (resolve_options field deterministic env) datasets regions
          run_jobs (run.order jobs))
        (λ e. crash)
