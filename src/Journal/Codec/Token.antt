-- ===== src/Journal/Codec/Token.antt =====
-- src/journal/codec.rs: one value as a token, verbatim or in hexadecimal.
pub mod RoundTrip
use skillmount.Prelude.{
  ℕ, ◌+◌, ◌-◌, ◌*◌, ◌/◌, ◌%◌, ◌<◌, Bool, true, false, not, ◌&&◌, ◌||◌, List, [], ◌∷◌, ◌++◌, ◌≡◌,
  refl, sym, ◌∙◌, arith, ltb, leb, ◌==◌, if◌then◌else◌, all, any, length, Option, none, some,
  bit_or, Bool-cases, inl, inr,
}
use skillmount.Text.{Str, utf8_valid}
use skillmount.Native.{
  Platform, OsString, os_bytes, os_string, IsOsString, os_string-os_bytes, os_bytes-bytes,
}

-- The punctuation that may stand in a token as it is: . _ - / \ : @ + and the comma.
abbrev verbatim_marks : List ℕ
verbatim_marks = 46 ∷ 95 ∷ 45 ∷ 47 ∷ 92 ∷ 58 ∷ 64 ∷ 43 ∷ 44 ∷ []

pub is_verbatim : ℕ → Bool
is_verbatim byte =
    (leb b'A' byte && leb byte b'Z')
    || (leb b'a' byte && leb byte b'z')
    || (leb b'0' byte && leb byte b'9')
    || any (λ c. byte == c) verbatim_marks

unfoldable pub nibble : ℕ → ℕ
nibble value = if ltb value 10 then b'0' + value else b'a' + (value - 10)

value : ℕ → Option ℕ
value byte =
    if leb b'0' byte && leb byte b'9'
    then some (byte - b'0')
    else if leb b'a' byte && leb byte b'f'
    then some (byte - b'a' + 10)
    else none

-- Two digits for each byte: `byte >> 4` and `byte & 0x0f`.
unfoldable pub hex : List ℕ → Str
unfolding nibble
hex [] = []
hex (byte ∷ bytes) = nibble (byte / 16) ∷ nibble (byte % 16) ∷ hex bytes

is_empty : List ℕ → Bool
is_empty [] = true
is_empty (b ∷ bs) = false

unfoldable pub encode_bytes : List ℕ → Str
unfolding hex is_empty is_verbatim
encode_bytes bytes = if not (is_empty bytes) && all is_verbatim bytes then bytes else 37 ∷ hex bytes

-- `(high << 4) | low` on `u8`.
join_nibbles : Option ℕ → Option ℕ → Option ℕ
join_nibbles none low = none
join_nibbles (some h) none = none
join_nibbles (some h) (some l) = some (bit_or (h * 16 % 256) l)

push_byte : Option ℕ → Option (List ℕ) → Option (List ℕ)
push_byte none rest = none
push_byte (some b) none = none
push_byte (some b) (some bs) = some (b ∷ bs)

decode_pair : ℕ → ℕ → Option ℕ
unfolding value join_nibbles
decode_pair high low = join_nibbles (value high) (value low)

decode_pairs : List ℕ → Option (List ℕ)
unfolding decode_pair push_byte
decode_pairs [] = some []
decode_pairs (a ∷ []) = some []
decode_pairs (a ∷ b ∷ r) = push_byte (decode_pair a b) (decode_pairs r)

-- 37 is the percent sign.
decode_hex : List ℕ → Option (List ℕ)
unfolding decode_pairs
decode_hex raw = if length raw % 2 == 0 then decode_pairs raw else none

unfoldable pub decode_bytes : Str → Option (List ℕ)
unfolding decode_hex is_verbatim
decode_bytes [] = some []
decode_bytes (c ∷ rest) =
    if c == 37
    then decode_hex rest
    else if all is_verbatim (c ∷ rest)
    then some (c ∷ rest)
    else none

unfoldable pub encode_os : Platform → OsString → Str
encode_os p s = encode_bytes (os_bytes p s)

unfoldable pub decode_os : Platform → Str → Option OsString
decode_os p token = elim (decode_bytes token) [ none ↦ none | some bytes ↦ os_string p bytes ]

unfoldable pub encode_text : Str → Str
encode_text text = encode_bytes text

unfoldable pub decode_text : Str → Option Str
decode_text token = elim (decode_bytes token) [
  | none ↦ none
  | some bytes ↦ if utf8_valid bytes then some bytes else none
]

unfoldable pub encode_path : Platform → OsString → Str
encode_path p path = encode_os p path

unfoldable pub decode_path : Platform → Str → Option OsString
decode_path p token = decode_os p token
