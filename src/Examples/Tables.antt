-- ===== src/Examples/Tables.antt =====
-- The two encryption handlers at a table of two rows.
use vault_plugin_aead.Prelude.{
  Bytes, codes, [], ◌∷◌, some, ok, ◌≡◌, refl, arith, same, inl, inr, Bool-cases,
}
use vault_plugin_aead.Base64
use vault_plugin_aead.Base64.RoundTrip.{IsBytes}
use vault_plugin_aead.GoMap.{GoMap, get, set}
use vault_plugin_aead.Value.{Value, str, obj, to_fields}
use vault_plugin_aead.Lookup.{Config}
use vault_plugin_aead.Config.{World, refresh, stored}
use vault_plugin_aead.Aead.Handlers.{path_aead_encrypt, path_aead_encrypt_bulk_col, is_bulk_data}
use vault_plugin_aead.Aead.Undone.{IsRow}
use vault_plugin_aead.Aead.Rows.{IsRows}
use vault_plugin_aead.Aead.Tables.{cell}
use vault_plugin_aead.Aead.Columns.{encrypt_at}
use vault_plugin_aead.Aead.Each.{Answers}
use vault_plugin_aead.Aead.Readable.{Decrypts, both-Decrypts}
use vault_plugin_aead.Aead.Agreement.{
  path_aead_encrypt_cells, path_aead_encrypt_bulk_col-path_aead_encrypt,
}
use vault_plugin_aead.Examples.Samples.{
  toy, toy-IsAead, memory, memory-IsStorage, counter, exchanged, exchanged-IsFair, siv_keyset,
}

abbrev keys : Config
keys = (codes "n", str siv_keyset) ∷ []

abbrev start : World memory counter
unfolding memory counter
start = record { cache = []; storage = some keys; kv = 0; published = [] }

keys_read : memory.read_entry start.storage ≡ ok (some keys)
unfolding memory start
keys_read = refl

abbrev first_row : GoMap Value
first_row = (codes "n", str (codes "A")) ∷ (codes "c", str (codes "B")) ∷ []

abbrev second_row : GoMap Value
second_row = (codes "n", str (codes "C")) ∷ []

abbrev table : GoMap Value
table = (codes "0", obj (to_fields first_row)) ∷ (codes "1", obj (to_fields second_row)) ∷ []

abbrev by_rows : GoMap Value
by_rows =
    (codes "1", obj (to_fields ((codes "n", str (codes "/0M=")) ∷ [])))
    ∷ (
      codes "0",
      obj (to_fields ((codes "c", str (codes "B")) ∷ (codes "n", str (codes "/0E=")) ∷ [])),
    )
    ∷ []

abbrev by_columns : GoMap Value
by_columns =
    (
      codes "0",
      obj (to_fields ((codes "c", str (codes "B")) ∷ (codes "n", str (codes "/0E=")) ∷ [])),
    )
    ∷ (codes "1", obj (to_fields ((codes "n", str (codes "/0M=")) ∷ [])))
    ∷ []

rows_run : path_aead_encrypt toy exchanged table start ≡ (ok by_rows, record start { cache = keys })
unfolding path_aead_encrypt toy exchanged same memory counter start set Base64.encode
rows_run = refl

columns_run :
    path_aead_encrypt_bulk_col toy exchanged table start
    ≡ (ok by_columns, record start { cache = keys })
unfolding path_aead_encrypt_bulk_col toy exchanged same memory counter start set Base64.encode
columns_run = refl

first_entry :
    (k : Bytes) (v : Value) → get k first_row ≡ some v → (p : Bytes) × (v ≡ str p) × IsBytes p
unfolding get
first_entry k v h = elim (Bool-cases (same (codes "n") k)) [
  | inl e ↦ (codes "A", ground arith, (omega arith, tt))
  | inr e ↦ elim (Bool-cases (same (codes "c") k)) [
    | inl e' ↦ (codes "B", ground arith, (omega arith, tt))
    | inr e' ↦ ground arith
  ]
]

second_entry :
    (k : Bytes) (v : Value) → get k second_row ≡ some v → (p : Bytes) × (v ≡ str p) × IsBytes p
unfolding get
second_entry k v h = elim (Bool-cases (same (codes "n") k)) [
  | inl e ↦ (codes "C", ground arith, (omega arith, tt))
  | inr e ↦ ground arith
]

first-IsRow : IsRow first_row
unfolding get same
first-IsRow = ((refl, (refl, tt)), first_entry)

second-IsRow : IsRow second_row
unfolding get same
second-IsRow = ((refl, tt), second_entry)

table_entry :
    (k : Bytes) (v : Value)
    → get k table ≡ some v
    → (m : GoMap Value) × (v ≡ obj (to_fields m)) × IsRow m
unfolding get
table_entry k v h = elim (Bool-cases (same (codes "0") k)) [
  | inl e ↦ (first_row, ground arith, first-IsRow)
  | inr e ↦ elim (Bool-cases (same (codes "1") k)) [
    | inl e' ↦ (second_row, ground arith, second-IsRow)
    | inr e' ↦ ground arith
  ]
]

table-IsRows : IsRows table
unfolding get same is_bulk_data
table-IsRows = ((refl, (refl, tt)), refl, table_entry)

path_aead_encrypt_bulk_col-path_aead_encrypt_example :
    ((row field : Bytes) → cell row field by_columns ≡ cell row field by_rows)
    × (record start { cache = keys } ≡ record start { cache = keys })
path_aead_encrypt_bulk_col-path_aead_encrypt_example =
    path_aead_encrypt_bulk_col-path_aead_encrypt toy toy-IsAead memory-IsStorage exchanged exchanged
      exchanged-IsFair exchanged-IsFair refl start (record start { cache = keys })
      (record start { cache = keys }) (some keys) keys_read table by_rows by_columns table-IsRows
      rows_run columns_run

path_aead_encrypt_cells_example :
    Answers
      (encrypt_at toy exchanged (refresh (stored (some keys)) start.cache) (codes "1"))
      (codes "n")
      (cell (codes "1") (codes "n") table)
      (cell (codes "1") (codes "n") by_rows)
path_aead_encrypt_cells_example =
    path_aead_encrypt_cells toy toy-IsAead memory-IsStorage exchanged exchanged-IsFair start
      (record start { cache = keys }) (some keys) keys_read table by_rows (codes "1") (codes "n")
      table-IsRows rows_run

both-Decrypts_example :
    Decrypts toy
      (refresh (stored (some keys)) start.cache)
      (codes "n")
      (cell (codes "1") (codes "n") table)
      (cell (codes "1") (codes "n") by_rows)
    × Decrypts toy
        (refresh (stored (some keys)) start.cache)
        (codes "n")
        (cell (codes "1") (codes "n") table)
        (cell (codes "1") (codes "n") by_columns)
both-Decrypts_example =
    both-Decrypts toy toy-IsAead memory-IsStorage exchanged exchanged exchanged-IsFair
      exchanged-IsFair start (record start { cache = keys }) (record start { cache = keys })
      (some keys) keys_read table by_rows by_columns (codes "1") (codes "n") table-IsRows rows_run
      columns_run
