-- ===== src/Backend/Reads.antt =====
-- Read requests and the stored config.
use vault_plugin_aead.Prelude.{
  some_inj, Bytes, codes, Bool, true, false, List, [], ◌∷◌, ◌++◌, Option, none, some, Outcome-cases,
  Option-cases, Bool-cases, inl, inr, ◌⊎◌, All, All-append, same, same_iff, ◌≡◌, ◌≢◌, refl, sym, ap,
  ◌∙◌, subst,
}
use vault_plugin_aead.Exec.{Exec, lift, pure, ◌>>=◌}
use vault_plugin_aead.GoMap.{GoMap}
use vault_plugin_aead.Value.{Value}
use vault_plugin_aead.Tink.{Tink}
use vault_plugin_aead.Vault.{Vault, Library}
use vault_plugin_aead.Kv.Sink.{vault_sink}
use vault_plugin_aead.Kv.{resolve_kv_options}
use vault_plugin_aead.Kv.Sync.{read_kv, path_read_kv}
use vault_plugin_aead.Config.{Storage, KvSink, World, get_aead_config}
use vault_plugin_aead.Config.Write.{path_config_read, path_read_key_types}
use vault_plugin_aead.Bq.Cloud.{Cloud}
use vault_plugin_aead.Backend.{
  Operation, Callback, PathOperation, EnginePath, config_paths, row_paths, key_paths, column_paths,
  update_paths, kv_paths, paths,
}
use vault_plugin_aead.Backend.Serve.{find_path, values, Call, answer, serve, handle_request}

module _ {s : Storage} {k : KvSink} where
  -- A step of a handler leaves the storage alone.
  abbrev Keeps : {A : Type 0} → Exec (World s k) A → Type 0
  Keeps m = (w : World s k) → (m w).1.storage ≡ w.storage

  bind-Keeps :
      {A B : Type 0} (m : Exec (World s k) A) (f : A → Exec (World s k) B)
      → Keeps m
      → ((a : A) → Keeps (f a))
      → Keeps (m >>= f)
  bind-Keeps m f keeps rest w = elim (Outcome-cases (m w).0) [
    | inl (a, e) ↦ rw e (rest a (m w).1 ∙ keeps w)
    | inr (inl (x, e)) ↦ rw e (keeps w)
    | inr (inr e) ↦ rw e (keeps w)
  ]

  get_aead_config-Keeps : Keeps (get_aead_config {s = s} {k = k})
  unfolding get_aead_config
  get_aead_config-Keeps w = elim (Outcome-cases (s.read_entry w.storage)) [
    | inl (entry, e) ↦ rw e refl
    | inr (inl (x, e)) ↦ rw e refl
    | inr (inr e) ↦ rw e refl
  ]

  path_config_read-Keeps :
      (t : Tink) (mount_point : Bytes) → Keeps (path_config_read t {s = s} {k = k} mount_point)
  unfolding path_config_read
  path_config_read-Keeps t mount_point =
      bind-Keeps get_aead_config _ get_aead_config-Keeps
        (λ _ w. bind-Keeps (lift _) _ (λ w'. refl) (λ a w'. refl) w)

  path_read_key_types-Keeps : (t : Tink) → Keeps (path_read_key_types t {s = s} {k = k})
  unfolding path_read_key_types
  path_read_key_types-Keeps t =
      bind-Keeps get_aead_config _ get_aead_config-Keeps
        (λ _ w. bind-Keeps (lift _) _ (λ w'. refl) (λ a w'. refl) w)

-- The callbacks that read.
abbrev is_reader : Callback → Bool
is_reader Callback.path_info = true
is_reader Callback.path_config_read = true
is_reader Callback.path_read_key_types = true
is_reader Callback.path_read_kv = true
is_reader _ = false

-- The callback for a read of a path is one of these, but for synckv.
abbrev ReadsOnly : EnginePath → Type 0
ReadsOnly p =
    (p.pattern ≡ codes "synckv")
    ⊎ ((o : PathOperation) → p.read_operation ≡ some o → is_reader o.callback ≡ true)

find_path-All :
    (P : EnginePath → Type 0) (path : Bytes) (ps : List EnginePath) {p : EnginePath}
    → All P ps
    → find_path path ps ≡ some p
    → P p × (p.pattern ≡ path)
unfolding find_path
find_path-All P path [] h e = cc
find_path-All P path (q ∷ ps) {p} (h, hs) e = elim (Bool-cases (same q.pattern path)) [
  | inl y ↦
      let e' = rw y at e in
      let i : q ≡ p = cc in
      (subst P i h, ap (λ r. r.pattern) (sym i) ∙ (same_iff q.pattern path).0 y)
  | inr n ↦ let e' = rw n at e in find_path-All P path ps hs e'
]

callback_inj : {a b : PathOperation} → some a ≡ some b → a.callback ≡ b.callback
callback_inj {a} {b} e = ap (λ o. o.callback) (some_inj e)

reads :
    {callback : Callback} {forward : Bool}
    → is_reader callback ≡ true
    → (o : PathOperation) → some (record { callback = callback; forward = forward }) ≡ some o
    → is_reader o.callback ≡ true
reads {callback} h o e = ap (λ c. is_reader c) (sym (callback_inj e)) ∙ h

no_read :
    (o : PathOperation) → ◌≡◌ {A = Option PathOperation} none (some o) → is_reader o.callback ≡ true
no_read o e = cc

config_paths-ReadsOnly : All ReadsOnly config_paths
config_paths-ReadsOnly =
    (inr (reads refl), (inr (reads refl), (inr (reads refl), (inr (reads refl), tt))))

row_paths-ReadsOnly : All ReadsOnly row_paths
row_paths-ReadsOnly = (inr no_read, (inr no_read, (inr no_read, tt)))

key_paths-ReadsOnly : All ReadsOnly key_paths
key_paths-ReadsOnly = (
  inr no_read,
  (inr no_read, (inr no_read, (inr no_read, (inr (reads refl), (inr no_read, tt))))),
)

column_paths-ReadsOnly : All ReadsOnly column_paths
column_paths-ReadsOnly = (inr no_read, (inr no_read, tt))

update_paths-ReadsOnly : All ReadsOnly update_paths
update_paths-ReadsOnly = (
  inr (reads refl),
  (inr (reads refl), (inr (reads refl), (inr (reads refl), (inr (reads refl), tt)))),
)

kv_paths-ReadsOnly : All ReadsOnly kv_paths
kv_paths-ReadsOnly = (inr (reads refl), (inl refl, (inr no_read, tt)))

paths-ReadsOnly : All ReadsOnly paths
paths-ReadsOnly =
    All-append ReadsOnly config_paths
      (row_paths ++ (key_paths ++ (column_paths ++ (update_paths ++ kv_paths))))
      config_paths-ReadsOnly
      (All-append ReadsOnly row_paths (key_paths ++ (column_paths ++ (update_paths ++ kv_paths)))
        row_paths-ReadsOnly
        (All-append ReadsOnly key_paths (column_paths ++ (update_paths ++ kv_paths))
          key_paths-ReadsOnly
          (All-append ReadsOnly column_paths (update_paths ++ kv_paths) column_paths-ReadsOnly (
            All-append ReadsOnly update_paths kv_paths update_paths-ReadsOnly kv_paths-ReadsOnly))))

module _ (t : Tink) (lib : Library) (v : Vault) {s : Storage} where
  path_read_kv-Keeps :
      (w : World s (vault_sink t lib v)) → (path_read_kv t lib v w).1.storage ≡ w.storage
  unfolding path_read_kv
  path_read_kv-Keeps w =
      let o = resolve_kv_options w.cache in
      elim (Bool-cases (same o.vault_kv_active (codes "true"))) [
        | inr off ↦ rw off refl
        | inl active ↦ elim (Outcome-cases (read_kv t lib v o none w.kv).0) [
          | inl (m, e) ↦ rw active (rw e refl)
          | inr (inl (x, e)) ↦ rw active (rw e refl)
          | inr (inr e) ↦ rw active (rw e refl)
        ]
      ]

  answer-Keeps :
      (c : Cloud) (m : Exec (World s (vault_sink t lib v)) (GoMap Value))
      → Keeps m
      → (w : World s (vault_sink t lib v)) (st : c.State)
      → (answer t lib v c m (w, st)).1.0.storage ≡ w.storage
  answer-Keeps c m keeps w st = bind-Keeps m (λ r. pure (values r)) keeps (λ r w'. refl) w

  serve-Keeps :
      (c : Cloud) (callback : Callback) (q : Call c) (w : World s (vault_sink t lib v))
      (st : c.State)
      → is_reader callback ≡ true
      → (serve t lib v c callback q (w, st)).1.0.storage ≡ w.storage
  unfolding serve
  serve-Keeps c Callback.path_info q w st h = refl
  serve-Keeps c Callback.path_config_read q w st h =
      answer-Keeps c (path_config_read t q.mount_point) (path_config_read-Keeps t q.mount_point) w
        st
  serve-Keeps c Callback.path_read_key_types q w st h =
      answer-Keeps c (path_read_key_types t) (path_read_key_types-Keeps t) w st
  serve-Keeps c Callback.path_read_kv q w st h =
      answer-Keeps c (path_read_kv t lib v) path_read_kv-Keeps w st
  serve-Keeps c _ q w st h = cc

-- A read request to any path but synckv leaves the stored config as it is, whatever it ends in.
pub handle_request_read :
    (t : Tink) (lib : Library) (v : Vault) (c : Cloud) {s : Storage} (path : Bytes) (q : Call c)
    (w : World s (vault_sink t lib v)) (st : c.State)
    → path ≢ codes "synckv"
    → (handle_request t lib v c Operation.read path q (w, st)).1.0.storage ≡ w.storage
unfolding handle_request
handle_request_read t lib v c path q w st other = elim (Option-cases (find_path path paths)) [
  | inl e ↦ rw e refl
  | inr (p, e) ↦
      let (only, is_pattern) = find_path-All ReadsOnly path paths paths-ReadsOnly e in
      elim only [
        | inl sync ↦ absurd (other (sym is_pattern ∙ sync))
        | inr reader ↦ elim (Option-cases p.read_operation) [
          | inl none_there ↦ rw e (rw none_there refl)
          | inr (o, f) ↦ rw e (rw f (serve-Keeps t lib v c o.callback q w st (reader o f)))
        ]
      ]
]
