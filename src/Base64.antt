-- ===== src/Base64.antt =====
-- Go's base64.StdEncoding: EncodeToString and DecodeString, over byte strings.
pub mod RoundTrip
use vault_plugin_aead.Prelude.{
  ℕ, ◌+◌, ◌-◌, ◌*◌, ◌/◌, ◌%◌, Bytes, codes, Bool, true, false, ◌||◌, ◌&&◌, [], ◌∷◌, ◌++◌, ◌==◌, ltb,
  leb, Option, none, some, if◌then◌else◌, ◌≡◌, refl,
}

-- The character of six bits.
unfoldable pub digit : ℕ → ℕ
digit n =
    if ltb n 26
    then b'A' + n
    else if ltb n 52
    then b'a' + (n - 26)
    else if ltb n 62
    then b'0' + (n - 52)
    else if n == 62
    then b'+'
    else b'/'

-- decodeMap
unfoldable pub undigit : ℕ → Option ℕ
undigit c =
    if leb b'A' c && leb c b'Z'
    then some (c - b'A')
    else if leb b'a' c && leb c b'z'
    then some (c - b'a' + 26)
    else if leb b'0' c && leb c b'9'
    then some (c - b'0' + 52)
    else if c == b'+'
    then some 62
    else if c == b'/'
    then some 63
    else none

-- Three bytes as four characters; the last one or two bytes are padded.
unfoldable pub encode : Bytes → Bytes
unfolding digit
encode [] = []
encode (a ∷ []) = digit (a / 4) ∷ digit (a % 4 * 16) ∷ b'=' ∷ b'=' ∷ []
encode (a ∷ b ∷ []) = digit (a / 4) ∷ digit (a % 4 * 16 + b / 16) ∷ digit (b % 16 * 4) ∷ b'=' ∷ []
encode (a ∷ b ∷ c ∷ s) =
    digit (a / 4)
    ∷ digit (a % 4 * 16 + b / 16)
    ∷ digit (b % 16 * 4 + c / 64)
    ∷ digit (c % 64)
    ∷ encode s

-- Line ends are passed over wherever they stand.
unfoldable pub strip : Bytes → Bytes
strip [] = []
strip (c ∷ s) = let rest = strip s in if (c == 10) || (c == 13) then rest else c ∷ rest

-- A padded group is the last one: what follows it is an error, after its bytes are written.
abbrev ended : Bytes → Bytes → Bytes × Bool
ended out [] = (out, true)
ended out (c ∷ s) = (out, false)

abbrev after : Bytes → Bytes × Bool → Bytes × Bool
after out (s, good) = (out ++ s, good)

-- One group of four characters; the last argument is what the groups behind it decode to.
unfoldable pub quantum : Option ℕ → Option ℕ → ℕ → ℕ → Bytes → Bytes × Bool → Bytes × Bool
unfolding undigit
quantum (some a) (some b) c d rest more = elim (undigit c) [
  | none ↦ if (c == b'=') && (d == b'=') then ended ((a * 4 + b / 16) ∷ []) rest else ([], false)
  | some c' ↦ elim (undigit d) [
    | none ↦
        if d == b'='
        then ended ((a * 4 + b / 16) ∷ (b % 16 * 16 + c' / 4) ∷ []) rest
        else ([], false)
    | some d' ↦ after ((a * 4 + b / 16) ∷ (b % 16 * 16 + c' / 4) ∷ (c' % 4 * 64 + d') ∷ []) more
  ]
]
quantum _ _ c d rest more = ([], false)

unfoldable pub quanta : Bytes → Bytes × Bool
unfolding quantum
quanta [] = ([], true)
quanta (a ∷ b ∷ c ∷ d ∷ s) = quantum (undigit a) (undigit b) c d s (quanta s)
quanta _ = ([], false)

-- The bytes decoded before the first error, and whether there was none.
unfoldable pub decode : Bytes → Bytes × Bool
unfolding quanta strip
decode s = quanta (strip s)

encode_test : encode (codes "any carnal pleas") ≡ codes "YW55IGNhcm5hbCBwbGVhcw=="
unfolding encode
encode_test = refl

decode_test : decode (codes "YW55IGNh\ncm5hbCBwbGVhcw==") ≡ (codes "any carnal pleas", true)
unfolding decode
decode_test = refl

decode_garbage : decode (codes "YQ==YQ==") ≡ (codes "a", false)
unfolding decode
decode_garbage = refl
