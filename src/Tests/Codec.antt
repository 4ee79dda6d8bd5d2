-- ===== src/Tests/Codec.antt =====
-- Tokens, lines, names and numbers.
use skillmount.Prelude.{ℕ, true, List, [], ◌∷◌, some, ok, ◌≡◌, refl, arith}
use skillmount.Text.{Str, lit, utf8_valid}
use skillmount.Native.{windows, OsString, IsOsString}
use skillmount.FilePath.{components, normal}
use skillmount.Domain.SkillName
use skillmount.Domain.SkillName.{comparison_key, parse-component}
use skillmount.Journal.Codec.Token.{encode_os, decode_os, encode_text, decode_text}
use skillmount.Journal.Codec.Token.RoundTrip.{IsBytes, decode_os-encode_os, decode_text-encode_text}
use skillmount.Journal.Codec.Line.{Line, render, parse, is_empty}
use skillmount.Journal.Codec.Line.RoundTrip.{IsLine, parse-render}

-- "a b", the byte 0xFF and the percent sign.
abbrev raw_bytes : List ℕ
raw_bytes = 97 ∷ 32 ∷ 98 ∷ 255 ∷ 37 ∷ []

raw-IsBytes : IsBytes raw_bytes
raw-IsBytes = (omega arith, (omega arith, (omega arith, (omega arith, (omega arith, tt)))))

-- An unpaired surrogate.
abbrev raw_units : OsString
raw_units = 97 ∷ 55296 ∷ []

raw-IsOsString : IsOsString windows raw_units
raw-IsOsString = (omega arith, (omega arith, tt))

-- "é" and the line feed.
abbrev raw_text : Str
raw_text = 195 ∷ 169 ∷ 10 ∷ []

text-IsBytes : IsBytes raw_text
text-IsBytes = (omega arith, (omega arith, (omega arith, tt)))

text-valid : utf8_valid raw_text ≡ true
unfolding utf8_valid
text-valid = refl

abbrev header : Line
header = record { record_name = lit "transaction"; fields = (lit "pid", lit "42") ∷ [] }

header-IsLine : IsLine header
unfolding is_empty
header-IsLine = record {
  name_some = refl;
  name_word = refl;
  each_field = (record { key_some = refl; key_word = refl; token_graphic = refl }, tt);
}

accepted : SkillName.parse (lit "demo-1") ≡ ok (lit "demo-1")
unfolding SkillName.parse utf8_valid
accepted = refl

decode_os-encode_os_example : decode_os windows (encode_os windows raw_units) ≡ some raw_units
decode_os-encode_os_example = decode_os-encode_os windows raw_units raw-IsOsString

decode_text-encode_text_example : decode_text (encode_text raw_text) ≡ some raw_text
decode_text-encode_text_example = decode_text-encode_text raw_text text-IsBytes text-valid

parse-render_example : parse (render header) ≡ some header
parse-render_example = parse-render header header-IsLine

parse-component_example :
    (lit "demo-1" ≡ lit "demo-1")
    × (comparison_key (lit "demo-1") ≡ lit "demo-1")
    × (components (lit "demo-1") ≡ normal (lit "demo-1") ∷ [])
parse-component_example = parse-component (lit "demo-1") accepted
