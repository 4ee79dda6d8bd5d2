-- ===== src/Tests/Document.antt =====
-- A journal of one line, whose hash is the length of the body.
use skillmount.Prelude.{
  ◌≤◌, ◌%◌, [], ◌∷◌, ◌++◌, true, ok, err, ◌≡◌, ◌≢◌, ◌⊎◌, inl, inr, refl, length, All, arith,
}
use skillmount.Text.{Str, lit, utf8_valid, to_string}
use skillmount.Native.{unix, windows}
use skillmount.Journal.Codec.Token.{hex}
use skillmount.Journal.Codec.Line.{Line, is_empty}
use skillmount.Journal.Codec.Line.RoundTrip.{IsLine}
use skillmount.Journal.Codec.Document.{
  Sha256, checksum_mismatch, foreign_platform, schema_version, legacy_schema_version,
  max_journal_lines, platform_tag, checksum, render_header, render_document_with_schema,
  parse_document,
}
use skillmount.Journal.Codec.Document.RoundTrip.{parse_document-render}
use skillmount.Journal.Codec.Document.Reject.{
  parse_document-mismatch, parse_document-foreign, parse_document-bound,
}

sha : Sha256
sha = record { digest = λ s. length s % 256 ∷ []; digest-IsBytes = λ s. (omega arith, tt) }

abbrev line : Line
line = record { record_name = lit "error"; fields = (lit "text", lit "busy") ∷ [] }

lines-IsLine : All IsLine (line ∷ [])
unfolding is_empty
lines-IsLine = (
  record {
    name_some = refl;
    name_word = refl;
    each_field = (record { key_some = refl; key_word = refl; token_graphic = refl }, tt);
  },
  tt,
)

-- The body of the line, and what a write that was cut short left of it.
abbrev body : Str
body = lit "error text=busy\n"

abbrev found : Str
found = lit "error te"

written : Str
written = render_header sha unix 2 body ++ 10 ∷ found

written-valid : utf8_valid (render_header sha unix 2 body ++ 10 ∷ found) ≡ true
unfolding utf8_valid render_header checksum hex sha to_string
written-valid = refl

other_checksum : checksum sha found ≢ checksum sha body
unfolding checksum sha hex
other_checksum h = ground arith

parse_document-render_example :
    parse_document sha unix (render_document_with_schema sha unix (line ∷ []) 1)
    ≡ ok (record { schema = 1; body = line ∷ [] })
parse_document-render_example =
    parse_document-render sha unix (line ∷ []) 1 lines-IsLine (omega arith) (inr refl)

parse_document-mismatch_example :
    parse_document sha unix (render_header sha unix 2 body ++ 10 ∷ found) ≡ err checksum_mismatch
parse_document-mismatch_example =
    parse_document-mismatch sha unix 2 body found (inl refl) written-valid other_checksum

parse_document-foreign_example :
    parse_document sha windows (render_header sha unix 2 body ++ 10 ∷ found)
    ≡ err (foreign_platform (platform_tag unix))
parse_document-foreign_example =
    parse_document-foreign sha unix 2 body found (inl refl) written-valid windows (λ e. cc)

parse_document-bound_example :
    (length (line ∷ []) ≤ max_journal_lines) × ((1 ≡ schema_version) ⊎ (1 ≡ legacy_schema_version))
parse_document-bound_example =
    parse_document-bound sha unix (render_document_with_schema sha unix (line ∷ []) 1)
      parse_document-render_example
