-- ===== src/Vault/KeyNames.antt =====
-- kvutils/kvutils.go: DeriveKeyName, the name of a keyset in the transit KV.
use vault_plugin_aead.Prelude.{
  ℕ, ◌-◌, Bytes, codes, Bool, true, ◌&&◌, [], ◌∷◌, ◌++◌, Option, none, some, Outcome, ok, err,
  panic, ◌>>=◌, map, ltb, leb, ◌==◌, same, if◌then◌else◌,
}
use vault_plugin_aead.Tink.{Tink, aes256_gcm, aes_siv, template_type_url}
use vault_plugin_aead.Keys.{last, validate_key_set_json}
use vault_plugin_aead.Vault.{Library}

-- strings.Cut at "/": what is after the first slash.
unfoldable pub after_slash : Bytes → Option Bytes
after_slash [] = none
after_slash (c ∷ s) = if c == b'/' then some s else after_slash s

abbrev pub is_ascii : Bytes → Bool
is_ascii [] = true
is_ascii (c ∷ s) = ltb c 128 && is_ascii s

abbrev upper_byte : ℕ → ℕ
upper_byte c = if leb b'a' c && leb c b'z' then c - 32 else c

-- strings.ToUpper
unfoldable pub to_upper : Library → Bytes → Bytes
to_upper lib s = if is_ascii s then map upper_byte s else lib.to_upper_unicode s

unfoldable pub key_type_of : Bytes → Bytes
unfolding same
key_type_of url =
    if same url (template_type_url aes_siv)
    then codes "SIV"
    else if same url (template_type_url aes256_gcm)
    then codes "GCM"
    else []

abbrev or_default : Option Bytes → Bytes
or_default none = codes "XXX"
or_default (some lm) = lm

abbrev type_of_last : Option Bytes → Outcome Bytes
unfolding key_type_of
type_of_last none = panic
type_of_last (some url) = ok (key_type_of url)

-- log.Fatal ends the process.
abbrev or_fatal : {A : Type 0} → Outcome A → Outcome A
or_fatal (ok a) = ok a
or_fatal (err e) = panic
or_fatal panic = panic

unfoldable pub derive_key_name : Tink → Library → Bytes → Bytes → Bytes → Outcome Bytes
unfolding after_slash to_upper type_of_last validate_key_set_json
derive_key_name t lib namespace keyname keyjson = do
  kh ← or_fatal (validate_key_set_json t keyjson)
  urls ← t.keyset_info (some kh)
  key_type ← type_of_last (last urls)
  ok (
      to_upper lib (or_default (after_slash namespace))
      ++ (codes "_DEK_" ++ (to_upper lib keyname ++ (codes "_AES256_" ++ key_type))))
