-- ===== src/Bq/Escape.antt =====
-- The escaped keyset: its length, its characters, and that it can be read back.
use vault_plugin_aead.Prelude.{
  Option, none, some, leb, ◌==◌, ◌&&◌, ap, ℕ, ◌+◌, ◌-◌, ◌*◌, ◌/◌, ◌%◌, ◌<◌, Bytes, [], ◌∷◌, length,
  All, if◌then◌else◌, ◌≡◌, ◌≢◌, refl, arith,
}
use vault_plugin_aead.Base64.RoundTrip.{IsBytes}
use vault_plugin_aead.Bq.{hex_digit, escape}

-- The value of a hexadecimal digit, and of a pair of them.
abbrev unhex : ℕ → Option ℕ
unhex c =
    if leb b'0' c && leb c b'9'
    then some (c - b'0')
    else if leb b'a' c && leb c b'f'
    then some (c - 87)
    else if leb b'A' c && leb c b'F'
    then some (c - 55)
    else none

unhex_pair : Option ℕ → Option ℕ → Option ℕ
unhex_pair (some h) (some l) = some (16 * h + l)
unhex_pair _ _ = none

abbrev prepend : Option ℕ → Option Bytes → Option Bytes
prepend (some c) (some s) = some (c ∷ s)
prepend _ _ = none

-- What an SQL byte literal of escapes \xhh stands for: each of them is a backslash, the letter x and
-- two hexadecimal digits, and all else is refused.
unfoldable pub unescape : Bytes → Option Bytes
unfolding unhex_pair
unescape [] = some []
unescape (b ∷ x ∷ h ∷ l ∷ s) =
    let rest = unescape s in
    if b == b'\\' && x == b'x' then prepend (unhex_pair (unhex h) (unhex l)) rest else none
unescape _ = none

-- A printable character that ends no literal: neither a quote nor anything below the space.
abbrev pub IsPlain : ℕ → Type 0
IsPlain c = (31 < c) × (c < 127) × (c ≢ b'"')

unhex-hex_digit : (n : ℕ) → n < 16 → unhex (hex_digit n) ≡ some n
unhex-hex_digit n h = ground arith

hex_digit-IsPlain : (n : ℕ) → n < 16 → IsPlain (hex_digit n)
hex_digit-IsPlain n h = (ground arith, ground arith, λ e. ground arith)

backslash : IsPlain b'\\'
backslash = (omega arith, omega arith, λ e. omega arith)

letter_x : IsPlain b'x'
letter_x = (omega arith, omega arith, λ e. omega arith)

escaped_byte :
    (c : ℕ)
    → c < 256
    → unhex_pair (unhex (hex_digit (c / 16))) (unhex (hex_digit (c % 16))) ≡ some c
unfolding unhex_pair
escaped_byte c b =
    rw (unhex-hex_digit (c / 16) (omega arith), unhex-hex_digit (c % 16) (omega arith))
      (ap some (omega arith))

-- The escaped form of a byte string is four times as long, holds only printable characters and no
-- quote, and stands for the byte string in an SQL byte literal, where each byte is a backslash, the
-- letter x and two hexadecimal digits.
pub escape_lem :
    (s : Bytes)
    → IsBytes s
    → (length (escape s) ≡ 4 * length s) × All IsPlain (escape s) × (unescape (escape s) ≡ some s)
unfolding escape unescape
escape_lem [] h = (refl, tt, refl)
escape_lem (c ∷ s) (b, h) =
    let (n, p, u) = escape_lem s h in
    (
      omega (arith, n),
      (
        backslash,
        (
          letter_x,
          (hex_digit-IsPlain (c / 16) (omega arith), (hex_digit-IsPlain (c % 16) (omega arith), p)),
        ),
      ),
      rw (escaped_byte c b, u) refl,
    )
