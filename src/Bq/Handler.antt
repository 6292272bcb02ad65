-- ===== src/Bq/Handler.antt =====
-- path_bqsync.go: pathBQKeySync.
use vault_plugin_aead.Prelude.{
  ℕ, zero, suc, ◌+◌, Bytes, codes, Bool, ◌&&◌, List, [], ◌∷◌, Option, none, some, ok, if◌then◌else◌,
}
use vault_plugin_aead.Exec.{Exec, pure, raise, ◌>>=◌, ◌>>◌}
use vault_plugin_aead.Text.{contains}
use vault_plugin_aead.GoMap.{GoMap, get, has}
use vault_plugin_aead.Value.{Value}
use vault_plugin_aead.Value.Printing.{sprintf_v, sprintf_s}
use vault_plugin_aead.Lookup.{Config}
use vault_plugin_aead.Tink.{Tink}
use vault_plugin_aead.Keys.{
  is_key_json_deterministic, create_insecure_handle_and_aead,
  create_insecure_handle_and_deterministic_aead,
}
use vault_plugin_aead.Vault.{Library}
use vault_plugin_aead.Config.{Storage, KvSink, World, get_aead_config}
use vault_plugin_aead.Bq.Cloud.{Cloud}
use vault_plugin_aead.Bq.Sync.{Runtime, get_bq_datasets, do_bq_sync}

-- The keysets of the config, or those of them that the request names.
unfoldable pub keys_to_sync : GoMap Value → Config → GoMap Value
unfolding contains sprintf_v has
keys_to_sync raw [] = []
keys_to_sync [] ((name, v) ∷ config) =
    let rest = keys_to_sync [] config in
    if contains (codes "primaryKeyId") (sprintf_v v) then (name, v) ∷ rest else rest
keys_to_sync (r ∷ raw) ((name, v) ∷ config) =
    let rest = keys_to_sync (r ∷ raw) config in
    if contains (codes "primaryKeyId") (sprintf_v v) && has name (r ∷ raw)
    then (name, v) ∷ rest
    else rest

-- What the loop variable holds in a round, and in its last round after the loop.
unfoldable pub loop_variable : GoMap Value → ℕ → Bytes → Bytes
loop_variable [] i last = last
loop_variable ((name, v) ∷ keys) zero last = name
loop_variable ((name, v) ∷ keys) (suc i) last = loop_variable keys i name

-- The call of DoBQSync that the goroutine of a round makes.
pub record Call : Type 0 where
  pub field_name : Bytes
  pub binary_keyset : Bytes
  pub deterministic : Bool

module _ (t : Tink) where
  -- The handle of a round is declared in the body of the loop.
  unfoldable pub call_of : Bytes → Value → Call
  unfolding is_key_json_deterministic create_insecure_handle_and_aead
      create_insecure_handle_and_deterministic_aead
  call_of name v =
      let (json, deterministic) = is_key_json_deterministic v in
      record {
        field_name = name;
        binary_keyset = t.write_binary (
            if deterministic
            then (create_insecure_handle_and_deterministic_aead t json).0
            else (create_insecure_handle_and_aead t json).0);
        deterministic = deterministic;
      }

  -- The name is the variable of the loop, which the goroutines share: the number of a round is
  -- turned into the round in which its goroutine reads the variable.
  unfoldable pub calls : (ℕ → ℕ) → GoMap Value → ℕ → GoMap Value → List Call
  unfolding call_of loop_variable
  calls reads keys i [] = []
  calls reads keys i ((name, v) ∷ rest) =
      call_of (loop_variable keys (reads i) name) v ∷ calls reads keys (i + 1) rest

unfoldable pub run_calls :
    (c : Cloud)
    → Library
    → Runtime c
    → Config
    → GoMap (c.Dataset)
    → List Call
    → Exec (c.State) (Unit {0})
unfolding do_bq_sync
run_calls c lib run env datasets [] = pure tt
run_calls c lib run env datasets (a ∷ more) =
    do_bq_sync c lib run a.binary_keyset a.field_name a.deterministic env datasets
    >> run_calls c lib run env datasets more

module _ {s : Storage} {k : KvSink} (c : Cloud) where
  abbrev pub on_world : {A : Type 0} → Exec (World s k) A → Exec (World s k × c.State) A
  on_world m (w, st) = ((m w).0, ((m w).1, st))

  abbrev pub on_cloud : {A : Type 0} → Exec (c.State) A → Exec (World s k × c.State) A
  on_cloud m (w, st) = ((m st).0, (w, (m st).1))

  abbrev pub bq_project : Option Value → Exec (World s k × c.State) Bytes
  unfolding sprintf_s
  bq_project none = raise (codes "No BQ_PROJECT")
  bq_project (some project) = pure (sprintf_s project)

  unfoldable pub path_bq_key_sync :
      Tink → Library → Runtime c → (ℕ → ℕ) → GoMap Value → Exec (World s k × c.State) (Unit {0})
  unfolding get_aead_config keys_to_sync get bq_project get_bq_datasets calls run_calls
  path_bq_key_sync t lib run reads raw = do
    on_world get_aead_config
    config ← on_world (λ w. (ok w.cache, w))
    let keys = keys_to_sync raw config
    project ← bq_project (get (codes "BQ_PROJECT") config)
    datasets ← on_cloud (get_bq_datasets c project)
    on_cloud (run_calls c lib run config datasets (calls t reads keys 0 keys))
