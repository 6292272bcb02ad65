-- ===== src/Examples/Servers.antt =====
-- A Vault in memory, with one keyset in its KV engine, and a toy JSON.
use vault_plugin_aead.Prelude.{
  Bytes, codes, [], ◌∷◌, Option, none, some, Outcome, ok, err, same, if◌then◌else◌, ◌≡◌, refl, sym,
  ap, ◌∙◌, arith,
}
use vault_plugin_aead.GoMap.{GoMap, get, set}
use vault_plugin_aead.GoMap.Laws.{get-set_self}
use vault_plugin_aead.Value.{Value, Items, str, arr, nil, cons}
use vault_plugin_aead.Integers.{pos}
use vault_plugin_aead.KeySet.{KeySetStruct}
use vault_plugin_aead.Vault.{Vault, Library}
use vault_plugin_aead.Vault.Wrapping.{IsTransit, one}
use vault_plugin_aead.Kv.Sink.Saved.{IsKv, Answers, texts}
use vault_plugin_aead.Lookup.{Config}

abbrev pub keys_answer : Items → Outcome (Option (GoMap Value))
keys_answer items = ok (some ((codes "keys", arr items) ∷ []))

-- The folders of the engine: gcm/x and nothing else.
unfoldable pub list_toy : Bytes → Outcome (Option (GoMap Value))
unfolding same
list_toy path =
    if same path (codes "secret/metadata/")
    then keys_answer (cons (str (codes "gcm/")) nil)
    else if same path (codes "secret/metadata/gcm/")
    then keys_answer (cons (str (codes "x")) nil)
    else ok none

-- A transit engine whose ciphertext is the text.
unfoldable pub transit_toy : GoMap Value → Outcome (Option (GoMap Value))
unfolding same
transit_toy [] = ok none
transit_toy ((k, x) ∷ m) = ok (
    some (((if same k (codes "plaintext") then codes "ciphertext" else codes "plaintext"), x) ∷ []))

abbrev pub Store : Type 0
Store = GoMap (GoMap Value)

abbrev pub server_toy : Vault
server_toy = record {
  Server = Store;
  Client = Unit {0};
  Auth = Unit {0};
  new_client = λ address. ok tt;
  with_namespace = λ namespace c. c;
  set_token = λ token c. c;
  new_app_role_auth = λ role secret. ok tt;
  new_gcp_auth = λ iam account. ok tt;
  login = λ c a s. (ok (some (codes "token")), s);
  v1_put = λ c engine path m s. (ok tt, set path m s);
  v1_get = λ c engine path s. (ok (some (get path s)), s);
  v1_delete = λ c engine path s. (ok tt, s);
  v2_put = λ c engine path m s. (ok none, set path m s);
  v2_patch = λ c engine path m s. (ok none, s);
  v2_get = λ c engine path s. (ok (some (get path s)), s);
  v2_delete = λ c engine path s. (ok tt, s);
  list = λ c path s. (list_toy path, s);
  write = λ c path m s. (transit_toy m, s);
  get_body = λ url s. (err (codes "no metadata server"), s);
  post_body = λ url token s. (ok (codes "{}"), s);
  stack = 10;
}

-- The same while its transit engine refuses every call.
abbrev pub refusing : Vault
refusing = record server_toy { write = λ c path m s. (err (codes "permission denied"), s) }

abbrev pub one_keyset : KeySetStruct
one_keyset = record { primary_key_id = pos 1; key = [] }

-- Every text of JSON is the one keyset, or the one name, of the field x.
abbrev pub json_toy : Library
json_toy = record {
  unmarshal_map = λ text. some ((codes "x", str (codes "x")) ∷ []);
  unmarshal_keysets = λ text. some ((codes "x", one_keyset) ∷ []);
  unmarshal_into_zero = λ text. one_keyset;
  marshal_map = λ m. codes "{map}";
  marshal_keysets = λ m. codes "{keysets}";
  to_upper_unicode = λ s. s;
  to_lower_unicode = λ s. s;
}

put_get_toy :
    (path : Bytes) (m : GoMap Bytes) (s s' : Store) {A : Type 0} {a b : A}
    → ◌≡◌ {A = Outcome A × Store} (ok a, set path (texts m) s) (ok b, s')
    → Answers m (ok (some (get path s')))
put_get_toy path m s s' h =
    let e : set path (texts m) s ≡ s' = ap (λ r. r.1) h in
    (
      texts m,
      ap (λ o. ok (some o)) (ap (get path) (sym e) ∙ get-set_self path (texts m) s),
      λ k. refl,
    )

pub server_toy-IsKv : IsKv server_toy tt (codes "secret")
server_toy-IsKv = record {
  v1_put_get = λ path m s s' h. (put_get_toy path m s s' h, refl);
  v2_put_get = λ path m s s' x h. (put_get_toy path m s s' h, refl);
}

str_inj : (p c : Bytes) → ◌≡◌ {A = Option Value} (some (str p)) (some (str c)) → p ≡ c
str_inj p c h = ground arith

some_ok_inj :
    (m m' : GoMap Value)
    → ◌≡◌ {A = Outcome (Option (GoMap Value))} (ok (some m)) (ok (some m'))
    → m ≡ m'
some_ok_inj m m' h = ground arith

decrypts_toy :
    (p c : Bytes) (m : GoMap Value)
    → transit_toy (one (codes "plaintext") p) ≡ ok (some m)
    → get (codes "ciphertext") m ≡ some (str c)
    → (m' : GoMap Value) × (transit_toy (one (codes "ciphertext") c) ≡ ok (some m'))
      × (get (codes "plaintext") m' ≡ some (str p))
unfolding transit_toy get same
decrypts_toy p c m h g =
    let e = some_ok_inj ((codes "ciphertext", str p) ∷ []) m h in
    let q : p ≡ c = str_inj p c (ap (get (codes "ciphertext")) e ∙ g) in
    (one (codes "plaintext") c, refl, ap (λ x. some (str x)) (sym q))

encrypts_toy :
    (p : Bytes)
    → (m : GoMap Value) × (c : Bytes) × (transit_toy (one (codes "plaintext") p) ≡ ok (some m))
      × (get (codes "ciphertext") m ≡ some (str c))
unfolding transit_toy get same
encrypts_toy p = (one (codes "ciphertext") p, p, refl, refl)

pub server_toy-IsTransit : IsTransit server_toy tt (codes "transit") (codes "kek")
server_toy-IsTransit = record {
  encrypts = λ s p. let (m, c, e, g) = encrypts_toy p in (m, c, s, (λ i. (e i, s)), g);
  decrypts = λ s s' later p c m h g.
      let (m', e, g') = decrypts_toy p c m (ap (λ r. r.0) h) g in
      (m', later, (λ i. (e i, later)), g');
}

abbrev pub kv_config : Config
kv_config =
    (codes "VAULT_KV_ACTIVE", str (codes "true"))
    ∷ (codes "VAULT_KV_SECRET_ID", str (codes "secret-id"))
    ∷ []
