-- ===== src/Keys/Edit.antt =====
-- UpdateKeyStatus, UpdateKeyMaterial, UpdateKeyID and UpdatePrimaryKeyID: a keyset handle is written
-- as JSON, edited as a struct, and read again. An id that is no number stands for 0.
use vault_plugin_aead.Prelude.{Bytes, codes, Option, none, some, Outcome, ok, err}
use vault_plugin_aead.Integers.{atoi}
use vault_plugin_aead.KeySet.{
  KeySetStruct, update_existing_key_status, update_existing_key_material, update_existing_key_id,
  update_existing_primary_key_id,
}
use vault_plugin_aead.Tink.{Tink}
use vault_plugin_aead.Keys.{extract_insecure_keyset_from_keyhandle}

module _ (t : Tink) where
  open t use {Handle, read, unmarshal, marshal}

  -- A failed write leaves the buffer empty; its error is dropped.
  unfoldable pub written : Option Handle → Bytes
  unfolding extract_insecure_keyset_from_keyhandle
  written kh = extract_insecure_keyset_from_keyhandle t kh

  -- The part that the four functions share, round the edit of the struct.
  unfoldable pub edit : (KeySetStruct → KeySetStruct) → Option Handle → Outcome Handle
  unfolding written
  edit change kh = elim (unmarshal (written kh)) [
    | none ↦ err (codes "failed to unmarshall the keyset")
    | some k ↦ elim (read (marshal (change k))) [
      | none ↦ err (codes "Failed to make a key handle from the json")
      | some new_kh ↦ ok new_kh
    ]
  ]

  unfoldable pub update_key_status : Option Handle → Bytes → Bytes → Outcome Handle
  unfolding edit atoi update_existing_key_status
  update_key_status kh key_id status =
      edit (λ k. update_existing_key_status k (atoi key_id) status) kh

  unfoldable pub update_key_material : Option Handle → Bytes → Bytes → Outcome Handle
  unfolding edit atoi update_existing_key_material
  update_key_material kh key_id material =
      edit (λ k. update_existing_key_material k (atoi key_id) material) kh

  unfoldable pub update_key_id : Option Handle → Bytes → Bytes → Outcome Handle
  unfolding edit atoi update_existing_key_id
  update_key_id kh key_id new_key_id =
      edit (λ k. update_existing_key_id k (atoi key_id) (atoi new_key_id)) kh

  unfoldable pub update_primary_key_id : Option Handle → Bytes → Outcome Handle
  unfolding edit atoi update_existing_primary_key_id
  update_primary_key_id kh key_id = edit (λ k. update_existing_primary_key_id k (atoi key_id)) kh
