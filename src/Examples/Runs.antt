-- ===== src/Examples/Runs.antt =====
-- The theorems of the development at concrete inputs.
use vault_plugin_aead.Prelude.{codes, [], ◌∷◌, ok, ◌≡◌, refl, arith, same}
use vault_plugin_aead.Base64.RoundTrip.{IsBytes}
use vault_plugin_aead.Base64
use vault_plugin_aead.GoMap.{get}
use vault_plugin_aead.GoMap.Order.{IsMap}
use vault_plugin_aead.Value.{str}
use vault_plugin_aead.Lookup.{Config}
use vault_plugin_aead.Config.{refresh}
use vault_plugin_aead.Config.Refresh.{get-refresh}
use vault_plugin_aead.Aead.{do_encryption, do_decryption}
use vault_plugin_aead.Aead.Field.{do_decryption-do_encryption}
use vault_plugin_aead.Examples.Samples.{toy, toy-IsAead, siv_keyset, gcm_keyset}

-- Two fields with keys, one of them through an alias.
abbrev keys : Config
keys =
    (codes "name", str siv_keyset)
    ∷ (codes "gcm/family", str gcm_keyset)
    ∷ (codes "city", str (codes "gcm/family"))
    ∷ []

keys-IsMap : IsMap keys
unfolding get same
keys-IsMap = (refl, (refl, (refl, tt)))

get-refresh_example :
    get (codes "city") (refresh keys ((codes "old", str []) ∷ [])) ≡ get (codes "city") keys
get-refresh_example = get-refresh keys ((codes "old", str []) ∷ []) (codes "city") keys-IsMap

Bonn-IsBytes : IsBytes (codes "Bonn")
Bonn-IsBytes = (omega arith, (omega arith, (omega arith, (omega arith, tt))))

do_decryption-do_encryption_example :
    do_decryption toy keys (codes "city") (str (Base64.encode (255 ∷ codes "Bonn")))
    ≡ ok (str (codes "Bonn"))
unfolding do_encryption toy Base64.encode same
do_decryption-do_encryption_example =
    do_decryption-do_encryption toy toy-IsAead keys 0 (codes "city") (codes "Bonn") Bonn-IsBytes
      refl
