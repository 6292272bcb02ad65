-- ===== src/Base64/RoundTrip.antt =====
-- Decoding the encoding of bytes gives the bytes back.
use vault_plugin_aead.Prelude.{
  ℕ, ◌+◌, ◌*◌, ◌/◌, ◌%◌, ◌<◌, Bytes, Bool, true, [], ◌∷◌, some, none, ◌≡◌, ◌≢◌, refl, arith, All,
}
use vault_plugin_aead.Base64.{digit, undigit, encode, strip, quantum, quanta, decode}

abbrev pub IsBytes : Bytes → Type 0
IsBytes = All (λ c. c < 256)

undigit-digit : (n : ℕ) → n < 64 → undigit (digit n) ≡ some n
unfolding undigit digit
undigit-digit n h = ground arith

digit_no_line_end : (n : ℕ) → (digit n ≢ 10) × (digit n ≢ 13)
unfolding digit
digit_no_line_end n = (ground arith, ground arith)

strip-digit : (n : ℕ) (s : Bytes) → strip (digit n ∷ s) ≡ digit n ∷ strip s
unfolding strip
strip-digit n s = ground (arith, digit_no_line_end n)

strip_pad : (s : Bytes) → strip (b'=' ∷ s) ≡ b'=' ∷ strip s
unfolding strip
strip_pad s = refl

strip-encode : (s : Bytes) → strip (encode s) ≡ encode s
unfolding encode
strip-encode [] = unfold strip in refl
strip-encode (a ∷ []) = simp (strip-digit, strip_pad) (unfold strip in refl)
strip-encode (a ∷ b ∷ []) = simp (strip-digit, strip_pad) (unfold strip in refl)
strip-encode (a ∷ b ∷ c ∷ s) = simp (strip-digit, strip-encode s)

undigit_pad : undigit b'=' ≡ none
unfolding undigit
undigit_pad = refl

-- A group with one, two or three bytes, its digits shut.
quantum_one :
    (a : ℕ)
    → a < 256
    → quantum (some (a / 4)) (some (a % 4 * 16)) b'=' b'=' [] ([], true) ≡ (a ∷ [], true)
unfolding quantum
quantum_one a h = ground (arith, undigit_pad)

quantum_two :
    (a b : ℕ)
    → a < 256
    → b < 256
    → quantum (some (a / 4)) (some (a % 4 * 16 + b / 16)) (digit (b % 16 * 4)) b'=' [] ([], true)
      ≡ (a ∷ b ∷ [], true)
unfolding quantum
quantum_two a b h k = ground (arith, undigit_pad, undigit-digit (b % 16 * 4) (omega arith))

quantum_three :
    (a b c : ℕ) (rest : Bytes) (more : Bytes × Bool)
    → a < 256
    → b < 256
    → c < 256
    → quantum
        (some (a / 4))
        (some (a % 4 * 16 + b / 16))
        (digit (b % 16 * 4 + c / 64))
        (digit (c % 64))
        rest
        more
      ≡ (a ∷ b ∷ c ∷ more.0, more.1)
unfolding quantum
quantum_three a b c rest more h k l =
    ground (
      arith,
      undigit-digit (b % 16 * 4 + c / 64) (omega arith),
      undigit-digit (c % 64) (omega arith),
    )

quanta-cons :
    (a b c d : ℕ) (s : Bytes)
    → quanta (a ∷ b ∷ c ∷ d ∷ s) ≡ quantum (undigit a) (undigit b) c d s (quanta s)
unfolding quanta
quanta-cons a b c d s = refl

quanta-nil : quanta [] ≡ ([], true)
unfolding quanta
quanta-nil = refl

quanta-encode : (s : Bytes) → IsBytes s → quanta (encode s) ≡ (s, true)
unfolding encode
quanta-encode [] h = quanta-nil
quanta-encode (a ∷ []) h =
    rw
      (
        quanta-cons,
        undigit-digit (a / 4) (omega arith),
        undigit-digit (a % 4 * 16) (omega arith),
        quanta-nil,
      )
      (quantum_one a h.0)
quanta-encode (a ∷ b ∷ []) h =
    rw
      (
        quanta-cons,
        undigit-digit (a / 4) (omega arith),
        undigit-digit (a % 4 * 16 + b / 16) (omega arith),
        quanta-nil,
      )
      (quantum_two a b h.0 h.1.0)
quanta-encode (a ∷ b ∷ c ∷ s) h =
    rw
      (
        quanta-cons,
        undigit-digit (a / 4) (omega arith),
        undigit-digit (a % 4 * 16 + b / 16) (omega arith),
        quanta-encode s h.1.1.1,
      )
      (quantum_three a b c (encode s) (s, true) h.0 h.1.0 h.1.1.0)

-- Decoding the base64 encoding of a byte string gives the byte string back, with no error.
pub decode-encode : (s : Bytes) → IsBytes s → decode (encode s) ≡ (s, true)
unfolding decode
decode-encode s h = rw (strip-encode s) (quanta-encode s h)
