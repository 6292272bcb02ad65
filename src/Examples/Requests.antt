-- ===== src/Examples/Requests.antt =====
-- The handlers at concrete requests: a row and a table are encrypted and decrypted.
use vault_plugin_aead.Prelude.{
  Bytes, codes, [], ◌∷◌, some, ok, ◌≡◌, refl, arith, same, inl, inr, Bool-cases,
}
use vault_plugin_aead.Base64
use vault_plugin_aead.Base64.RoundTrip.{IsBytes}
use vault_plugin_aead.GoMap.{GoMap, get, set}
use vault_plugin_aead.Value.{Value, str}
use vault_plugin_aead.Lookup.{Config}
use vault_plugin_aead.Config.{World}
use vault_plugin_aead.Aead.Handlers.{path_aead_encrypt, path_aead_decrypt}
use vault_plugin_aead.Aead.Inverse.{Both}
use vault_plugin_aead.Aead.Undone.{IsRow}
use vault_plugin_aead.Aead.Rows.{SameCells}
use vault_plugin_aead.Aead.RoundTrip.{path_aead_decrypt-path_aead_encrypt}
use vault_plugin_aead.Examples.Samples.{
  toy, toy-IsAead, memory, memory-IsStorage, counter, exchanged, exchanged-IsFair, siv_keyset,
  gcm_keyset,
}

abbrev pub keys : Config
keys =
    (codes "n", str siv_keyset)
    ∷ (codes "gcm/k", str gcm_keyset)
    ∷ (codes "c", str (codes "gcm/k"))
    ∷ []

abbrev pub start : World memory counter
unfolding memory counter
start = record { cache = []; storage = some keys; kv = 0; published = [] }

keys_read : memory.read_entry start.storage ≡ ok (some keys)
unfolding memory same start
keys_read = refl

abbrev row : GoMap Value
row = (codes "n", str (codes "A")) ∷ (codes "c", str (codes "B")) ∷ []

abbrev sealed_row : GoMap Value
sealed_row = (codes "c", str (codes "/0I=")) ∷ (codes "n", str (codes "/0E=")) ∷ []

row_entry : (k : Bytes) (v : Value) → get k row ≡ some v → (p : Bytes) × (v ≡ str p) × IsBytes p
unfolding get
row_entry k v h = elim (Bool-cases (same (codes "n") k)) [
  | inl e ↦ (codes "A", ground arith, (omega arith, tt))
  | inr e ↦ elim (Bool-cases (same (codes "c") k)) [
    | inl e' ↦ (codes "B", ground arith, (omega arith, tt))
    | inr e' ↦ ground arith
  ]
]

row-IsRow : IsRow row
unfolding get same
row-IsRow = ((refl, (refl, tt)), row_entry)

row_run : path_aead_encrypt toy exchanged row start ≡ (ok sealed_row, record start { cache = keys })
unfolding path_aead_encrypt toy exchanged same memory counter start set Base64.encode
row_run = refl

path_aead_decrypt-path_aead_encrypt_example :
    (out : GoMap Value) × (w'' : World memory counter) × (path_aead_decrypt toy exchanged sealed_row
        (record start { cache = keys })
      ≡ (ok out, w''))
    × ((name : Bytes) → Both SameCells (get name row) (get name out))
path_aead_decrypt-path_aead_encrypt_example =
    path_aead_decrypt-path_aead_encrypt toy toy-IsAead memory-IsStorage exchanged exchanged
      exchanged-IsFair exchanged-IsFair start (record start { cache = keys }) (some keys) keys_read
      row sealed_row (inl row-IsRow) row_run
