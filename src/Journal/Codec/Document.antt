-- ===== src/Journal/Codec/Document.antt =====
-- src/journal/codec.rs: the header, the checksum and the body of a journal file.
pub mod RoundTrip
pub mod Reject
use skillmount.Prelude.{
  ℕ, ◌+◌, ◌/◌, ◌%◌, ◌^◌, String, Bool, true, false, List, [], ◌∷◌, ◌++◌, ◌==◌, Option, none, some,
  Result, ok, err, ◌>>=◌, ◌>>◌, ok_or, guard, length, if◌then◌else◌, All, not,
}
use skillmount.Text.{Str, lit, ◌===◌, utf8_valid, split, split_once, lines, to_string}
use skillmount.Native.{Platform, unix, windows}
use skillmount.Journal.Codec.Token.{hex}
use skillmount.Journal.Codec.Token.RoundTrip.{IsBytes}
use skillmount.Journal.Codec.Line
use skillmount.Journal.Codec.Line.{Line}

-- The hash of the `sha2` crate: whatever it is, its digest is made of bytes.
pub record Sha256 : Type 0 where
  pub digest : Str → List ℕ
  pub digest-IsBytes : (s : Str) → IsBytes (digest s)

abbrev pub schema_version : ℕ
schema_version = 2

abbrev pub legacy_schema_version : ℕ
legacy_schema_version = 1

abbrev pub max_journal_lines : ℕ
max_journal_lines = 65536

abbrev pub platform_tag : Platform → Str
platform_tag unix = lit "unix"
platform_tag windows = lit "windows"

abbrev pub magic : Str
magic = lit "skillmount-journal"

pub data DecodeError : Type 0 where
  malformed : String → DecodeError
  checksum_mismatch : DecodeError
  unsupported_version : Str → DecodeError
  foreign_platform : Str → DecodeError

pub record ParsedDocument : Type 0 where
  pub schema : ℕ
  pub body : List Line

abbrev pub Parsed : Type 0 → Type 0
Parsed A = Result DecodeError A

unfoldable pub checksum : Sha256 → Str → Str
checksum sha bytes = hex (sha.digest bytes)

-- Each line with its line feed.
unfoldable pub render_body : List Line → Str
render_body [] = []
render_body (line ∷ rest) = Line.render line ++ 10 ∷ render_body rest

unfoldable pub render_header : Sha256 → Platform → ℕ → Str → Str
render_header sha p version body =
    magic ++ 32 ∷ (to_string version ++ 32 ∷ (platform_tag p ++ 32 ∷ checksum sha body))

unfoldable pub render_document_with_schema : Sha256 → Platform → List Line → ℕ → Str
render_document_with_schema sha p body_lines version =
    let body = render_body body_lines in render_header sha p version body ++ 10 ∷ body

unfoldable pub render_document : Sha256 → Platform → List Line → Str
render_document sha p body_lines = render_document_with_schema sha p body_lines schema_version

-- The header's version, platform and checksum, after the magic value.
header_fields : List Str → Parsed (Str × Str × Str)
header_fields [] = err (malformed "the header has no schema version")
header_fields (version ∷ []) = err (malformed "the header has no platform tag")
header_fields (version ∷ platform ∷ []) = err (malformed "the header has no checksum")
header_fields (version ∷ platform ∷ recorded ∷ []) = ok (version, platform, recorded)
header_fields (version ∷ platform ∷ recorded ∷ extra ∷ more) =
    err (malformed "the header has unexpected trailing fields")

unfoldable pub split_header : List Str → Parsed (Str × Str × Str)
unfolding header_fields
split_header [] = err (malformed "the file does not start with a SkillMount journal header")
split_header (first ∷ rest) =
    if first === magic
    then header_fields rest
    else err (malformed "the file does not start with a SkillMount journal header")

unfoldable pub select_version : Str → Parsed ℕ
select_version version =
    if version === to_string schema_version
    then ok schema_version
    else if version === to_string legacy_schema_version
    then ok legacy_schema_version
    else err (unsupported_version version)

-- Empty lines are passed over; `found` are the lines read so far.
unfoldable pub read_lines : List Line → List Str → Parsed (List Line)
read_lines found [] = ok found
read_lines found (raw ∷ rest) = elim (Line.is_empty raw) [
  | true ↦ read_lines found rest
  | false ↦ elim (length found == max_journal_lines) [
    | true ↦ err (malformed "the journal has more than 65536 records")
    | false ↦ elim (Line.parse raw) [
      | none ↦ err (malformed "a record line is not `name key=value ...`")
      | some line ↦ read_lines (found ++ line ∷ []) rest
    ]
  ]
]

unfoldable pub parse_document : Sha256 → Platform → Str → Parsed ParsedDocument
parse_document sha p document = do
  guard (utf8_valid document) (malformed "the file is not valid UTF-8")
  (header, body) ← ok_or (malformed "the header line is unterminated") (split_once 10 document)
  (version, platform, recorded) ← split_header (split 32 header)
  schema ← select_version version
  guard (platform === platform_tag p) (foreign_platform platform)
  guard (recorded === checksum sha body) checksum_mismatch
  found ← read_lines [] (lines body)
  ok (record { schema = schema; body = found })
