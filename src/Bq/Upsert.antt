-- ===== src/Bq/Upsert.antt =====
-- doBQRoutineCreateOrUpdate refines one update of a map from routines to their metadata.
use vault_plugin_aead.Prelude.{
  Bytes, Bool, Option, none, some, Option-cases, ok, err, Error, inl, inr, ◌≡◌, refl,
}
use vault_plugin_aead.Bq.{Options, Kind, encrypt, decrypt, routine_body}
use vault_plugin_aead.Bq.Cloud.{Cloud, RoutineMetadata}
use vault_plugin_aead.Bq.Routine.{
  routine_metadata, routine_of, find_routine, do_bq_routine_create_or_update,
}

-- The routines of a project, by dataset and id.
abbrev pub Routines : Cloud → Type 0
Routines c = c.Dataset → Bytes → Option RoutineMetadata

-- After an update of one routine: it holds the new metadata, and every other one what it held.
abbrev pub Updated :
    (c : Cloud) → Routines c → Routines c → c.Dataset → Bytes → RoutineMetadata → Type 0
Updated c before after dataset id m =
    (after dataset id ≡ some m)
    × ((d : c.Dataset) (i : Bytes) → ¬ ((d ≡ dataset) × (i ≡ id)) → after d i ≡ before d i)

-- Documented behaviour of BigQuery while it is up: the metadata of a routine that is there are
-- returned and those of a missing one are an error; a missing routine can be created, and one that is
-- there can be updated under the ETag of its metadata.
pub record IsUp (c : Cloud) : Type 0 where
  pub view : c.State → Routines c
  pub missing :
      (st : c.State) (d : c.Dataset) (id : Bytes)
      → view st d id ≡ none
      → (e : Error) × (c.metadata d id st ≡ (err e, st))
  pub present :
      (st : c.State) (d : c.Dataset) (id : Bytes) (m : RoutineMetadata)
      → view st d id ≡ some m
      → (etag : Bytes) × (c.metadata d id st ≡ (ok etag, st))
  pub creates :
      (st : c.State) (d : c.Dataset) (id : Bytes) (m : RoutineMetadata)
      → view st d id ≡ none
      → (st' : c.State) × (c.create d id m st ≡ (ok tt, st'))
        × Updated c (view st) (view st') d id m
  pub updates :
      (st : c.State) (d : c.Dataset) (id etag : Bytes) (m : RoutineMetadata)
      → c.metadata d id st ≡ (ok etag, st)
      → (st' : c.State) × (c.update d id m etag st ≡ (ok tt, st'))
        × Updated c (view st) (view st') d id m

module _ (c : Cloud) (up : IsUp c) where
  find_present :
      (kind : Kind) (d : c.Dataset) (id etag : Bytes) (st : c.State)
      → c.metadata d id st ≡ (ok etag, st)
      → find_routine c kind d id st ≡ (ok (some etag), st)
  find_present encrypt d id etag st h = rw h refl
  find_present decrypt d id etag st h = rw h refl

  find_missing :
      (kind : Kind) (d : c.Dataset) (id : Bytes) (st : c.State) {e : Error}
      → c.metadata d id st ≡ (err e, st)
      → find_routine c kind d id st ≡ (ok none, st)
  find_missing encrypt d id st h = rw h (rw h refl)
  find_missing decrypt d id st h = rw h refl

  -- While BigQuery is up, doBQRoutineCreateOrUpdate succeeds, and then the routine of its kind holds
  -- the body for the key, the keyset and the determinism that it was called with, whether or not there
  -- was such a routine before; every other routine of every dataset is as before.
  pub do_bq_routine_refines :
      (o : Options) (escaped : Bytes) (deterministic : Bool) (kind : Kind) (d : c.Dataset)
      (st : c.State)
      → (st' : c.State) × (do_bq_routine_create_or_update c o escaped deterministic kind d st
          ≡ (ok tt, st'))
        × Updated c
            (up.view st)
            (up.view st')
            d
            (routine_of kind o)
            (routine_metadata kind (routine_body kind deterministic o.kms_key_name escaped))
  unfolding do_bq_routine_create_or_update
  do_bq_routine_refines o escaped deterministic kind d st =
      let id = routine_of kind o in
      let m = routine_metadata kind (routine_body kind deterministic o.kms_key_name escaped) in
      elim (Option-cases (up.view st d id)) [
        | inl absent ↦
            let (e, q) = up.missing st d id absent in
            let (st', made, updated) = up.creates st d id m absent in
            (st', rw (find_missing kind d id st q) (rw made refl), updated)
        | inr (old, there) ↦
            let (etag, q) = up.present st d id old there in
            let (st', made, updated) = up.updates st d id etag m q in
            (st', rw (find_present kind d id etag st q) (rw made refl), updated)
      ]
