-- ===== src/Keys/Mute.antt =====
-- MuteKeyMaterial hides every key value of the keyset.
use vault_plugin_aead.Prelude.{Bytes, false, List, [], ◌∷◌, some, ok, ◌≡◌, arith, All}
use vault_plugin_aead.Text.{contains, replace_all}
use vault_plugin_aead.Text.Muting.{
  stars, IsMaterial, contains-replace_all, contains-replace_all_self,
}
use vault_plugin_aead.Tink.{Tink}
use vault_plugin_aead.Keys.{mute_values, mute_key_material}

-- What is hidden stays hidden.
contains-mute_values :
    (v : Bytes) (vs : List Bytes) (key : Bytes)
    → IsMaterial v
    → All IsMaterial vs
    → contains v key ≡ false
    → contains v (mute_values vs key) ≡ false
unfolding mute_values
contains-mute_values v [] key m ms h = h
contains-mute_values v (w ∷ vs) key m ms h =
    contains-mute_values v vs (replace_all w stars key) m ms.1
      (contains-replace_all w v key ms.0.0 m h)

mute_values-All :
    (vs : List Bytes) (key : Bytes)
    → All IsMaterial vs
    → All (λ v. contains v (mute_values vs key) ≡ false) vs
unfolding mute_values
mute_values-All [] key ms = tt
mute_values-All (v ∷ vs) key ms = (
  contains-mute_values v vs (replace_all v stars key) ms.0 ms.1
      (contains-replace_all_self v key ms.0),
  mute_values-All vs (replace_all v stars key) ms.1,
)

-- If the key values of a keyset are non-empty and hold no star, the text that MuteKeyMaterial
-- returns holds none of them anywhere.
pub mute_key_material_hides :
    (t : Tink) (key : Bytes) (vs : List Bytes) {muted : Bytes}
    → t.unmarshal_values key ≡ some vs
    → All IsMaterial vs
    → mute_key_material t key ≡ ok muted
    → All (λ v. contains v muted ≡ false) vs
unfolding mute_key_material
mute_key_material_hides t key vs {muted} u ms h =
    let e : mute_values vs key ≡ muted = ground arith in rw (← e) (mute_values-All vs key ms)
