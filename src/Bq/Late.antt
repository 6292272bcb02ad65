-- ===== src/Bq/Late.antt =====
-- The loop variable that the goroutines of pathBQKeySync share.
use vault_plugin_aead.Prelude.{
  ℕ, zero, suc, ◌+◌, ◌≤◌, Bytes, List, [], ◌∷◌, map, length, ◌≡◌, refl, ap, arith,
}
use vault_plugin_aead.GoMap.{GoMap}
use vault_plugin_aead.Value.{Value}
use vault_plugin_aead.Tink.{Tink}
use vault_plugin_aead.Bq.Handler.{loop_variable, Call, call_of, calls}

-- The name of the last round.
abbrev pub last_name : GoMap Value → Bytes
last_name [] = []
last_name ((name, v) ∷ []) = name
last_name ((name, v) ∷ keys) = last_name keys

-- Each keyset under its own name.
abbrev pub own_calls : Tink → GoMap Value → List Call
own_calls t [] = []
own_calls t ((name, v) ∷ keys) = call_of t name v ∷ own_calls t keys

loop_variable_late :
    (name last : Bytes) (v : Value) (keys : GoMap Value) (i : ℕ)
    → length ((name, v) ∷ keys) ≤ i
    → loop_variable ((name, v) ∷ keys) i last ≡ last_name ((name, v) ∷ keys)
unfolding loop_variable
loop_variable_late name last v keys zero h = absurd (omega arith)
loop_variable_late name last v [] (suc i) h = refl
loop_variable_late name last v ((n, x) ∷ keys) (suc i) h =
    loop_variable_late n name x keys i (omega arith)

-- The call of a round, for another name.
abbrev pub renamed : Bytes → Call → Call
renamed name a = record a { field_name = name }

all_late :
    (t : Tink) (reads : ℕ → ℕ) (name : Bytes) (v : Value) (keys rest : GoMap Value) (i : ℕ)
    → ((j : ℕ) → length ((name, v) ∷ keys) ≤ reads j)
    → calls t reads ((name, v) ∷ keys) i rest
      ≡ map (renamed (last_name ((name, v) ∷ keys))) (own_calls t rest)
unfolding calls call_of
all_late t reads name v keys [] i late = refl
all_late t reads name v keys ((n, x) ∷ rest) i late =
    rw (loop_variable_late name n v keys (reads i) (late i)) (
      ap (λ (l : List Call). renamed (last_name ((name, v) ∷ keys)) (call_of t n x) ∷ l)
        (all_late t reads name v keys rest (i + 1) late))

-- If the goroutines of pathBQKeySync read the variable of the loop only after its last round, the calls
-- of DoBQSync that they make are those of the rounds in turn, each with its own keyset and determinism,
-- but all of them for the name of the last round.
pub calls_late :
    (t : Tink) (reads : ℕ → ℕ) (name : Bytes) (v : Value) (keys : GoMap Value)
    → ((i : ℕ) → length ((name, v) ∷ keys) ≤ reads i)
    → calls t reads ((name, v) ∷ keys) 0 ((name, v) ∷ keys)
      ≡ map (renamed (last_name ((name, v) ∷ keys))) (own_calls t ((name, v) ∷ keys))
calls_late t reads name v keys late = all_late t reads name v keys ((name, v) ∷ keys) 0 late
