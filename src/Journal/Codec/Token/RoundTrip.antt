-- ===== src/Journal/Codec/Token/RoundTrip.antt =====
-- src/journal/codec.rs: decoding after encoding, and which bytes a token has.
use skillmount.Prelude.{
  ℕ, ◌/◌, ◌%◌, ◌<◌, ◌≤◌, Bool, true, false, not, ◌&&◌, ◌||◌, List, [], ◌∷◌, ◌≡◌, refl, arith, ◌==◌,
  all, All, length, Option, none, some, passes_below, passes_below_sound, Bool-cases, inl, inr,
  all-imp,
}
use skillmount.Text.{Str, utf8_valid}
use skillmount.Native.{Platform, OsString, os_bytes, IsOsString, os_string-os_bytes, os_bytes-bytes}
use skillmount.Journal.Codec.Token.{
  is_verbatim, nibble, hex, is_empty, encode_bytes, decode_pair, decode_pairs, decode_hex,
  decode_bytes, encode_os, decode_os, encode_text, decode_text,
}

abbrev pub IsBytes : List ℕ → Type 0
IsBytes = All (λ b. b < 256)

is_pair_of : ℕ → Option ℕ → Bool
is_pair_of b none = false
is_pair_of b (some x) = x == b

is_pair_of-some : (b : ℕ) (o : Option ℕ) → is_pair_of b o ≡ true → o ≡ some b
unfolding is_pair_of
is_pair_of-some b o h = ground arith

pair_table :
    passes_below (λ b. is_pair_of b (decode_pair (nibble (b / 16)) (nibble (b % 16)))) 256 ≡ true
unfolding passes_below is_pair_of decode_pair nibble
pair_table = refl

decode_pair-nibble : (b : ℕ) → b < 256 → decode_pair (nibble (b / 16)) (nibble (b % 16)) ≡ some b
decode_pair-nibble b h = is_pair_of-some b _ (passes_below_sound _ b 256 h pair_table)

length-hex : (bs : List ℕ) → length (hex bs) % 2 ≡ 0
unfolding hex
length-hex [] = refl
length-hex (b ∷ bs) = omega (arith, length-hex bs)

decode_pairs-hex : (bs : List ℕ) → IsBytes bs → decode_pairs (hex bs) ≡ some bs
unfolding decode_pairs hex
decode_pairs-hex [] h = refl
decode_pairs-hex (b ∷ bs) h = rw (decode_pair-nibble b h.0) (rw (decode_pairs-hex bs h.1) refl)

decode_hex-hex : (bs : List ℕ) → IsBytes bs → decode_hex (hex bs) ≡ some bs
unfolding decode_hex
decode_hex-hex bs h = ground (arith, length-hex bs, decode_pairs-hex bs h)

decode_bytes-verbatim : (bs : List ℕ) → all is_verbatim bs ≡ true → decode_bytes bs ≡ some bs
unfolding decode_bytes is_verbatim
decode_bytes-verbatim [] h = refl
decode_bytes-verbatim (b ∷ bs) h = ground arith

-- Every byte sequence is read back from its token.
pub decode_bytes-encode_bytes :
    (bytes : List ℕ) → IsBytes bytes → decode_bytes (encode_bytes bytes) ≡ some bytes
decode_bytes-encode_bytes bytes h =
    elim (Bool-cases (not (is_empty bytes) && all is_verbatim bytes)) [
      | inl plain ↦ unfold encode_bytes in rw plain (decode_bytes-verbatim bytes (ground arith))
      | inr coded ↦ unfold encode_bytes decode_bytes in rw coded (decode_hex-hex bytes h)
    ]

-- Every native string or path of the platform is read back from its token.
pub decode_os-encode_os :
    (p : Platform) (s : OsString) → IsOsString p s → decode_os p (encode_os p s) ≡ some s
unfolding decode_os encode_os
decode_os-encode_os p s h =
    ground (
      arith,
      decode_bytes-encode_bytes (os_bytes p s) (os_bytes-bytes p s h),
      os_string-os_bytes p s,
    )

-- Every UTF-8 text is read back from its token.
pub decode_text-encode_text :
    (s : Str) → IsBytes s → utf8_valid s ≡ true → decode_text (encode_text s) ≡ some s
unfolding decode_text encode_text
decode_text-encode_text s h v = ground (arith, decode_bytes-encode_bytes s h)

-- A byte of a token.
abbrev pub is_token : ℕ → Bool
is_token c = is_verbatim c || c == 37

nibble-is_verbatim : (v : ℕ) → v < 16 → is_verbatim (nibble v) ≡ true
unfolding is_verbatim nibble
nibble-is_verbatim v h = ground arith

is_token-of_is_verbatim : (c : ℕ) → is_verbatim c ≡ true → is_token c ≡ true
is_token-of_is_verbatim c h = ground arith

pub hex-is_token : (bs : List ℕ) → IsBytes bs → all is_token (hex bs) ≡ true
unfolding hex
hex-is_token [] h = refl
hex-is_token (b ∷ bs) h = ground (
  arith,
  nibble-is_verbatim (b / 16) (ground arith),
  nibble-is_verbatim (b % 16) (ground arith),
  hex-is_token bs h.1,
)

pub encode_bytes-is_token :
    (bytes : List ℕ) → IsBytes bytes → all is_token (encode_bytes bytes) ≡ true
encode_bytes-is_token bytes h = elim (Bool-cases (not (is_empty bytes) && all is_verbatim bytes)) [
  | inl plain ↦
      unfold encode_bytes in
      rw plain (all-imp is_verbatim is_token is_token-of_is_verbatim bytes (ground arith))
  | inr coded ↦ unfold encode_bytes in rw coded (ground (arith, hex-is_token bytes h))
]

-- A token is printable ASCII without the space.
pub is_token-graphic : (c : ℕ) → is_token c ≡ true → (33 ≤ c) × (c ≤ 126)
unfolding is_verbatim
is_token-graphic c h = ground arith
