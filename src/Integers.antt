-- ===== src/Integers.antt =====
-- Go's `int` and strconv.Atoi. Every number here is in the range of 64 bits by construction.
use vault_plugin_aead.Prelude.{
  ℕ, zero, suc, ◌+◌, ◌-◌, ◌*◌, ◌^◌, Bytes, codes, Bool, true, false, ◌&&◌, [], ◌∷◌, ◌==◌, ltb, leb,
  if◌then◌else◌, ◌≡◌, ◌↔◌, refl, arith,
}

-- `negsuc n` is -(n + 1).
pub data ℤ : Type 0 where
  pos : ℕ → ℤ
  negsuc : ℕ → ℤ

abbrev pub same_int : ℤ → ℤ → Bool
same_int (pos m) (pos n) = m == n
same_int (negsuc m) (negsuc n) = m == n
same_int _ _ = false

pub same_int_iff : (a b : ℤ) → (same_int a b ≡ true) ↔ (a ≡ b)
same_int_iff (pos m) (pos n) = ground arith
same_int_iff (pos m) (negsuc n) = ground arith
same_int_iff (negsuc m) (pos n) = ground arith
same_int_iff (negsuc m) (negsuc n) = ground arith

-- What the loop of strconv.ParseUint ends in.
pub data Parsed : Type 0 where
  value : ℕ → Parsed
  bad_syntax : Parsed
  out_of_range : Parsed

abbrev pub is_digit : ℕ → Bool
is_digit c = leb b'0' c && leb c b'9'

-- It stops at the first byte that is no digit or takes the number past 64 bits.
unfoldable pub parse_uint : Bytes → ℕ → Parsed
parse_uint [] n = value n
parse_uint (c ∷ s) n =
    let m = n * 10 + (c - b'0') in
    let rest = parse_uint s m in
    if is_digit c then (if ltb m (2 ^ 64) then rest else out_of_range) else bad_syntax

-- The number is clamped where it does not fit, and is 0 where the syntax is bad.
abbrev pub positive : Parsed → ℤ
positive (value n) = if ltb n (2 ^ 63) then pos n else pos (2 ^ 63 - 1)
positive bad_syntax = pos 0
positive out_of_range = pos (2 ^ 63 - 1)

abbrev pub negate : ℕ → ℤ
negate zero = pos 0
negate (suc n) = negsuc n

abbrev pub negative : Parsed → ℤ
negative (value n) = if leb n (2 ^ 63) then negate n else negsuc (2 ^ 63 - 1)
negative bad_syntax = pos 0
negative out_of_range = negsuc (2 ^ 63 - 1)

-- The number that strconv.Atoi returns; the plugin drops the error beside it.
unfoldable pub atoi : Bytes → ℤ
unfolding parse_uint
atoi [] = pos 0
atoi (c ∷ []) = positive (parse_uint (c ∷ []) 0)
atoi (c ∷ d ∷ s) =
    if c == b'-'
    then negative (parse_uint (d ∷ s) 0)
    else if c == b'+'
    then positive (parse_uint (d ∷ s) 0)
    else positive (parse_uint (c ∷ d ∷ s) 0)

atoi_tests :
    (atoi (codes "-17") ≡ negsuc 16)
    × (atoi (codes "x") ≡ pos 0)
    × (atoi (codes "99999999999999999999x") ≡ pos 9223372036854775807)
unfolding atoi
atoi_tests = (refl, refl, refl)
