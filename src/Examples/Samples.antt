-- ===== src/Examples/Samples.antt =====
-- A toy Tink, a storage in memory, and a KV engine that counts the calls.
use mathlib.Core.List.{Permᴰ}
use mathlib.Core.List.Permᴰ
use vault_plugin_aead.Prelude.{
  ℕ, suc, Bytes, codes, [], ◌∷◌, ◌++◌, Option, none, some, Outcome, ok, panic, if◌then◌else◌, ◌≡◌,
  ◌≢◌, refl, sym, arith, same, same_refl, Bool-cases, inl, inr,
}
use vault_plugin_aead.Text.{contains}
use vault_plugin_aead.GoMap.{GoMap, get, remove}
use vault_plugin_aead.GoMap.Laws.{get-cons, get-remove}
use vault_plugin_aead.GoMap.Order.{IsMap}
use vault_plugin_aead.Value.{Value}
use vault_plugin_aead.Tink.{Tink, Template, aes256_gcm, aes_siv, template_type_url}
use vault_plugin_aead.Lookup.{Config}
use vault_plugin_aead.Config.{Storage, IsStorage, KvSink}
use vault_plugin_aead.Aead.{Env, IsFair}
use vault_plugin_aead.Aead.Field.{IsAead}

-- The text of a toy keyset names its type; a ciphertext is the text behind one byte.
abbrev pub siv_keyset : Bytes
siv_keyset = codes "primaryKeyId:1,AesSivKey,value:secret"

abbrev pub gcm_keyset : Bytes
gcm_keyset = codes "primaryKeyId:1,AesGcmKey,value:secret"

unfoldable keyset_type : Bytes → Template
unfolding contains
keyset_type json = if contains (codes "AesSivKey") json then aes_siv else aes256_gcm

abbrev keyset_of : Template → Bytes
keyset_of aes_siv = siv_keyset
keyset_of aes256_gcm = gcm_keyset

abbrev toy_decrypt : Bytes → Option Bytes
toy_decrypt [] = none
toy_decrypt (c ∷ cs) = some cs

unfoldable pub toy : Tink
unfolding keyset_type
toy = record {
  Handle = Bytes;
  Aead = Bytes;
  Daead = Bytes;
  read = λ json. some json;
  write = λ kh. kh;
  write_binary = λ kh. elim kh [ none ↦ [] | some json ↦ json ];
  keyset_info =
      λ kh. elim kh [ none ↦ panic | some json ↦ ok (template_type_url (keyset_type json) ∷ []) ];
  new_handle = λ template seed. some (keyset_of template);
  rotate =
      λ template seed kh. elim kh [ none ↦ none | some json ↦ some (json ++ codes ",rotated") ];
  aead_new = λ kh. kh;
  daead_new = λ kh. kh;
  encrypt = λ a random p aad. some (255 ∷ p);
  decrypt = λ a c aad. toy_decrypt c;
  encrypt_deterministically = λ d p aad. some (255 ∷ p);
  decrypt_deterministically = λ d c aad. toy_decrypt c;
  unmarshal = λ json. none;
  marshal = λ k. gcm_keyset;
  unmarshal_values = λ json. some (codes "secret" ∷ []);
}

pub toy-IsAead : IsAead toy
unfolding toy
toy-IsAead = record {
  decrypt_encrypt = λ a random p aad b. (255 ∷ p, refl, (omega arith, b), refl);
  decrypt_encrypt_deterministically = λ d p aad b. (255 ∷ p, refl, (omega arith, b), refl);
}

-- The entries of a config, the first of two with the same key.
unfoldable first_entries : Config → Config
unfolding remove
first_entries [] = []
first_entries ((k, v) ∷ m) = (k, v) ∷ remove k (first_entries m)

get-first_entries : (m : Config) (name : Bytes) → get name (first_entries m) ≡ get name m
unfolding first_entries
get-first_entries [] name = refl
get-first_entries ((k, v) ∷ m) name = ground (
  arith,
  get-first_entries m name,
  get-remove k name (first_entries m),
  get-cons k name v (remove k (first_entries m)),
  get-cons k name v m,
)

remove-IsMap : (k : Bytes) (m : Config) → IsMap m → IsMap (remove k m)
unfolding remove
remove-IsMap k [] h = tt
remove-IsMap k ((j, v) ∷ m) (fresh, h) = elim (Bool-cases (same j k)) [
  | inl e ↦ rw e (remove-IsMap k m h)
  | inr e ↦ rw e (ground (arith, get-remove k j m), remove-IsMap k m h)
]

first_entries-IsMap : (m : Config) → IsMap (first_entries m)
unfolding first_entries
first_entries-IsMap [] = tt
first_entries-IsMap ((k, v) ∷ m) = (
  ground (arith, get-remove k k (first_entries m), same_refl k),
  remove-IsMap k (first_entries m) (first_entries-IsMap m),
)

abbrev read_state : Option Config → Outcome (Option Config)
unfolding first_entries
read_state none = ok none
read_state (some m) = ok (some (first_entries m))

unfoldable pub memory : Storage
unfolding read_state
memory = record {
  State = Option Config;
  read_entry = read_state;
  put_entry = λ st config. ok (some config);
}

no_entry : (c : Config) → ◌≢◌ {A = Outcome (Option Config)} (ok none) (ok (some c))
no_entry c h = cc

read_unique : (st : Option Config) (c : Config) → read_state st ≡ ok (some c) → IsMap c
unfolding read_state
read_unique none c h = absurd (no_entry c h)
read_unique (some m) c h = let e : first_entries m ≡ c = cc in rw (sym e) (first_entries-IsMap m)

pub memory-IsStorage : IsStorage memory
unfolding memory
memory-IsStorage = record {
  unique = read_unique;
  read_put = λ st st' c h.
      let e : some c ≡ st' = cc in
      (first_entries c, rw (sym e) refl, λ name. get-first_entries c name);
}

unfoldable pub counter : KvSink
counter = record { Kv = ℕ; save = λ kv config name v. (ok tt, suc kv) }

-- A run in which the first two results of each loop arrive in the other order.
abbrev exchange : GoMap Value → GoMap Value
exchange (a ∷ b ∷ sent) = b ∷ a ∷ sent
exchange sent = sent

unfoldable pub exchanged : Env
exchanged = record { random = λ path name. 0; deliver = λ path sent. exchange sent }

exchange-perm : (sent : GoMap Value) → Permᴰ sent (exchange sent)
exchange-perm [] = Permᴰ.refl []
exchange-perm (a ∷ []) = Permᴰ.refl (a ∷ [])
exchange-perm (a ∷ b ∷ sent) = Permᴰ.swap refl refl

pub exchanged-IsFair : IsFair exchanged
unfolding exchanged
exchanged-IsFair = record { delivered = λ path sent. exchange-perm sent }
