-- ===== src/Backend/Quiet.antt =====
-- Steps and handlers of path_aead.go while the stored config cannot be read.
use vault_plugin_aead.Prelude.{
  Bytes, codes, Bool, true, false, List, [], ◌∷◌, Option, none, some, Option-cases, Outcome, err,
  Error, Outcome-cases, inl, inr, ◌≡◌, refl, ap, ◌∙◌, if◌then◌else◌,
}
use vault_plugin_aead.Exec.{Exec, lift, or_panic, ◌>>=◌}
use vault_plugin_aead.GoMap.{GoMap}
use vault_plugin_aead.Value.{
  Value, Fields, null, bool, number, str, arr, obj, end, field, as_map, entries, to_fields,
}
use vault_plugin_aead.Tink.{Tink}
use vault_plugin_aead.Config.{Storage, KvSink, World, get_aead_config}
use vault_plugin_aead.Aead.{Env}
use vault_plugin_aead.Aead.Telemetry.{publish_telemetry}
use vault_plugin_aead.Aead.Handlers.{
  is_bulk_data, map_or_panic, each_map, each_map_or_stop, encrypt_row, decrypt_row, encrypt_col,
  decrypt_col, decrypt_value, decrypt_rows, path_aead_encrypt, path_aead_decrypt,
  path_aead_encrypt_bulk_col, unpivot, path_aead_decrypt_bulk_col,
}
use vault_plugin_aead.Pivot.{pivot_map_int}

module _ {s : Storage} {k : KvSink} where
  -- The stored config cannot be read.
  abbrev pub IsUnread : World s k → Type 0
  IsUnread w = (e : Error) × (s.read_entry w.storage ≡ err e)

  -- A step that leaves the storage alone while it cannot be read.
  abbrev pub Quiet : {A : Type 0} → Exec (World s k) A → Type 0
  Quiet m = (w : World s k) → IsUnread w → (m w).1.storage ≡ w.storage

  still-IsUnread :
      {A : Type 0} (m : Exec (World s k) A) (w : World s k)
      → Quiet m
      → IsUnread w
      → IsUnread (m w).1
  still-IsUnread m w quiet (e, h) = (e, ap s.read_entry (quiet w (e, h)) ∙ h)

  pub bind-Quiet :
      {A B : Type 0} (m : Exec (World s k) A) (f : A → Exec (World s k) B)
      → Quiet m
      → ((a : A) → Quiet (f a))
      → Quiet (m >>= f)
  bind-Quiet m f quiet rest w u = elim (Outcome-cases (m w).0) [
    | inl (a, e) ↦ rw e (rest a (m w).1 (still-IsUnread m w quiet u) ∙ quiet w u)
    | inr (inl (x, e)) ↦ rw e (quiet w u)
    | inr (inr e) ↦ rw e (quiet w u)
  ]

  pub lift-Quiet : {A : Type 0} (o : Outcome A) → Quiet (lift o)
  lift-Quiet o w u = refl

  or_panic-Quiet : {A : Type 0} (m : Exec (World s k) A) → Quiet m → Quiet (or_panic m)
  or_panic-Quiet m quiet w u = quiet w u

  -- A handler that starts with getAeadConfig stops there.
  pub refresh-Quiet :
      {A : Type 0} (f : Unit {0} → Exec (World s k) A) → Quiet (get_aead_config >>= f)
  unfolding get_aead_config
  refresh-Quiet f w (e, h) = rw h refl

  publish-Quiet : (operation : Bytes) (raw : GoMap Value) → Quiet (publish_telemetry operation raw)
  unfolding publish_telemetry get_aead_config
  publish-Quiet operation raw w (e, h) = rw h refl

  if-Quiet :
      {A : Type 0} (b : Bool) (m n : Exec (World s k) A)
      → Quiet m
      → Quiet n
      → Quiet (if b then m else n)
  if-Quiet true m n hm hn = hm
  if-Quiet false m n hm hn = hn

  each_map-Quiet :
      (f : Bytes → GoMap Value → Exec (World s k) (GoMap Value)) (raw : GoMap Value)
      → ((name : Bytes) (m : GoMap Value) → Quiet (f name m))
      → Quiet (each_map f raw)
  unfolding each_map
  each_map-Quiet f [] quiet = λ w u. refl
  each_map-Quiet f ((name, v) ∷ raw) quiet =
      bind-Quiet (lift (map_or_panic (as_map v))) _ (lift-Quiet (map_or_panic (as_map v))) (λ m.
        bind-Quiet (or_panic (f name m)) _ (or_panic-Quiet (f name m) (quiet name m))
          (λ resp. bind-Quiet (each_map f raw) _ (each_map-Quiet f raw quiet) (λ rest w u. refl)))

  each_map_or_stop-Quiet :
      (f : Bytes → GoMap Value → Exec (World s k) (GoMap Value)) (raw : GoMap Value)
      → ((name : Bytes) (m : GoMap Value) → Quiet (f name m))
      → Quiet (each_map_or_stop f raw)
  unfolding each_map_or_stop
  each_map_or_stop-Quiet f [] quiet w u = refl
  each_map_or_stop-Quiet f ((name, v) ∷ raw) quiet w u = elim (Option-cases (as_map v)) [
    | inl e ↦ rw (e, each_map_or_stop) refl
    | inr (m, e) ↦
        rw (e, each_map_or_stop)
          (bind-Quiet (or_panic (f name m)) _ (or_panic-Quiet (f name m) (quiet name m))
            (λ resp.
              bind-Quiet (each_map_or_stop f raw) _ (each_map_or_stop-Quiet f raw quiet)
                (λ rest w1 u1. refl))
            w u)
  ]

module _ (t : Tink) {s : Storage} {k : KvSink} (env : Env) where
  encrypt_row-Quiet :
      (path : List Bytes) (raw : GoMap Value) → Quiet (encrypt_row t {s = s} {k = k} env path raw)
  unfolding encrypt_row
  encrypt_row-Quiet path raw = refresh-Quiet _

  decrypt_row-Quiet :
      (path : List Bytes) (raw : GoMap Value) → Quiet (decrypt_row t {s = s} {k = k} env path raw)
  unfolding decrypt_row
  decrypt_row-Quiet path raw = refresh-Quiet _

  pub path_aead_encrypt-Quiet :
      (raw : GoMap Value) → Quiet (path_aead_encrypt t {s = s} {k = k} env raw)
  unfolding path_aead_encrypt
  path_aead_encrypt-Quiet raw =
      bind-Quiet (publish_telemetry (codes "encrypt") raw) _ (publish-Quiet _ raw) (λ _.
        if-Quiet (is_bulk_data raw) _ _
          (bind-Quiet (each_map (λ name m. encrypt_row t env (name ∷ []) m) raw) _
            (each_map-Quiet _ raw (λ name m. encrypt_row-Quiet (name ∷ []) m)) (λ sent w u. refl))
          (or_panic-Quiet (encrypt_row t env [] raw) (encrypt_row-Quiet [] raw)))

  mutual
    unfolding decrypt_value decrypt_rows

    decrypt_value-Quiet :
        (path : List Bytes) (v : Value) → Quiet (decrypt_value t {s = s} {k = k} env path v)
    decrypt_value-Quiet path null = λ w u. refl
    decrypt_value-Quiet path (bool b) = λ w u. refl
    decrypt_value-Quiet path (number n) = λ w u. refl
    decrypt_value-Quiet path (str x) = λ w u. refl
    decrypt_value-Quiet path (arr xs) = λ w u. refl
    decrypt_value-Quiet path (obj fs) =
        bind-Quiet (publish_telemetry (codes "decrypt") (entries fs)) _
          (publish-Quiet _ (entries fs))
          (λ _.
            if-Quiet (is_bulk_data (entries fs)) _ _
              (bind-Quiet (decrypt_rows t env path fs) _ (decrypt_rows-Quiet path fs)
                (λ sent w u. refl))
              (or_panic-Quiet (decrypt_row t env path (entries fs))
                (decrypt_row-Quiet path (entries fs))))

    decrypt_rows-Quiet :
        (path : List Bytes) (fs : Fields) → Quiet (decrypt_rows t {s = s} {k = k} env path fs)
    decrypt_rows-Quiet path end = λ w u. refl
    decrypt_rows-Quiet path (field name v fs) =
        bind-Quiet (or_panic (decrypt_value t env (name ∷ path) v)) _
          (or_panic-Quiet (decrypt_value t env (name ∷ path) v)
            (decrypt_value-Quiet (name ∷ path) v))
          (λ resp.
            bind-Quiet (decrypt_rows t env path fs) _ (decrypt_rows-Quiet path fs)
              (λ rest w u. refl))

  pub path_aead_decrypt-Quiet :
      (raw : GoMap Value) → Quiet (path_aead_decrypt t {s = s} {k = k} env raw)
  unfolding path_aead_decrypt
  path_aead_decrypt-Quiet raw = decrypt_value-Quiet [] (obj (to_fields raw))

  encrypt_col-Quiet :
      (name : Bytes) (raw : GoMap Value) → Quiet (encrypt_col t {s = s} {k = k} env name raw)
  unfolding encrypt_col
  encrypt_col-Quiet name raw = refresh-Quiet _

  decrypt_col-Quiet :
      (name : Bytes) (raw : GoMap Value) → Quiet (decrypt_col t {s = s} {k = k} env name raw)
  unfolding decrypt_col
  decrypt_col-Quiet name raw = refresh-Quiet _

  pub path_aead_encrypt_bulk_col-Quiet :
      (raw : GoMap Value) → Quiet (path_aead_encrypt_bulk_col t {s = s} {k = k} env raw)
  unfolding path_aead_encrypt_bulk_col
  path_aead_encrypt_bulk_col-Quiet raw =
      bind-Quiet (publish_telemetry (codes "encrypt") raw) _ (publish-Quiet _ raw) (λ _.
        if-Quiet (is_bulk_data raw) _ _
          (bind-Quiet (lift (pivot_map_int raw [])) _ (lift-Quiet (pivot_map_int raw []))
            (λ pivoted.
              bind-Quiet (each_map (encrypt_col t env) pivoted) _
                (each_map-Quiet (encrypt_col t env) pivoted encrypt_col-Quiet) (λ sent w u. refl)))
          (λ w u. refl))

  unpivot-Quiet : (sent : Option (GoMap Value)) → Quiet (unpivot t {s = s} {k = k} env sent)
  unfolding unpivot
  unpivot-Quiet none = λ w u. refl
  unpivot-Quiet (some m) = λ w u. refl

  pub path_aead_decrypt_bulk_col-Quiet :
      (raw : GoMap Value) → Quiet (path_aead_decrypt_bulk_col t {s = s} {k = k} env raw)
  unfolding path_aead_decrypt_bulk_col
  path_aead_decrypt_bulk_col-Quiet raw =
      bind-Quiet (publish_telemetry (codes "decrypt") raw) _ (publish-Quiet _ raw) (λ _.
        if-Quiet (is_bulk_data raw) _ _
          (bind-Quiet (lift (pivot_map_int raw [])) _ (lift-Quiet (pivot_map_int raw []))
            (λ pivoted.
              bind-Quiet (each_map_or_stop (decrypt_col t env) pivoted) _
                (each_map_or_stop-Quiet (decrypt_col t env) pivoted decrypt_col-Quiet)
                (λ sent. unpivot-Quiet sent)))
          (λ w u. refl))
