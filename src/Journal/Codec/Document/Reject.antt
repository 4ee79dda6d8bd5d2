-- ===== src/Journal/Codec/Document/Reject.antt =====
-- src/journal/codec.rs: the refusals of `parse_document`, and its bound.
use mathlib.Core.Logic.{◌≢◌}
use skillmount.Prelude.{
  ℕ, ◌≤◌, true, false, List, [], ◌∷◌, ◌++◌, ◌≡◌, ◌⊎◌, inl, inr, refl, sym, arith, ok, err, length,
  length-append, Bool-cases, Option-cases, Result-cases,
}
use skillmount.Text.{
  Str, ◌===◌, ===_refl, ===→≡, split_once, split, split_once-append, lines, utf8_valid,
}
use skillmount.Native.{Platform, unix, windows}
use skillmount.Journal.Codec.Line
use skillmount.Journal.Codec.Line.{Line}
use skillmount.Journal.Codec.Document.{
  Sha256, schema_version, legacy_schema_version, max_journal_lines, platform_tag, checksum,
  render_header, split_header, select_version, read_lines, parse_document, ParsedDocument,
  checksum_mismatch, foreign_platform,
}
use skillmount.Journal.Codec.Document.RoundTrip.{
  free-text, split-render_header, text-render_header, select_version-current,
}

===-ne : (s t : Str) → s ≢ t → (s === t) ≡ false
===-ne s t h = elim (Bool-cases (s === t)) [
  | inl same ↦ absurd (h (===→≡ s t same))
  | inr other ↦ other
]

platform_tag-ne : (p q : Platform) → p ≢ q → (platform_tag p === platform_tag q) ≡ false
platform_tag-ne unix unix h = absurd (h refl)
platform_tag-ne unix windows h = refl
platform_tag-ne windows unix h = refl
platform_tag-ne windows windows h = absurd (h refl)

module _ (sha : Sha256) (p : Platform) (v : ℕ) (body found : Str)
    (known : (v ≡ schema_version) ⊎ (v ≡ legacy_schema_version))
    (text : utf8_valid (render_header sha p v body ++ 10 ∷ found) ≡ true) where
  -- A file that is valid UTF-8, and that has the header of one body, under a known schema version, and another
  -- body after it, is refused over its checksum unless the two bodies have one checksum.
  pub parse_document-mismatch :
      checksum sha found ≢ checksum sha body
      → parse_document sha p (render_header sha p v body ++ 10 ∷ found) ≡ err checksum_mismatch
  unfolding parse_document split_header
  parse_document-mismatch other =
      let header = render_header sha p v body in
      rw
        (
          text,
          split_once-append 10 header found
              (free-text 10 (omega arith) header (text-render_header sha p v body)),
        )
        (rw (split-render_header sha p v body) (
          rw (
            select_version-current v known,
            ===_refl (platform_tag p),
            ===-ne (checksum sha body) (checksum sha found) (λ e. other (sym e)),
          )))

  -- A file that is valid UTF-8, and whose header names a known schema version and one platform, is refused on
  -- the other platform, whatever stands after the header.
  pub parse_document-foreign :
      (q : Platform)
      → p ≢ q
      → parse_document sha q (render_header sha p v body ++ 10 ∷ found)
        ≡ err (foreign_platform (platform_tag p))
  unfolding parse_document split_header
  parse_document-foreign q other =
      let header = render_header sha p v body in
      rw
        (
          text,
          split_once-append 10 header found
              (free-text 10 (omega arith) header (text-render_header sha p v body)),
        )
        (rw (split-render_header sha p v body)
          (rw (select_version-current v known, platform_tag-ne p q other)))

read_lines-bound :
    (found : List Line) (raws : List Str) {ls : List Line}
    → length found ≤ max_journal_lines
    → read_lines found raws ≡ ok ls
    → length ls ≤ max_journal_lines
unfolding read_lines
read_lines-bound found [] {ls} h e = ground arith
read_lines-bound found (raw ∷ raws) {ls} h e = elim (Option-cases (Line.parse raw)) [
  | inl bad ↦ ground (arith, read_lines-bound found raws {ls = ls})
  | inr (line, good) ↦ ground (
    arith,
    read_lines-bound found raws {ls = ls},
    read_lines-bound (found ++ line ∷ []) raws {ls = ls},
    length-append found (line ∷ []),
  )
]

select_version-known :
    (version : Str) {v : ℕ}
    → select_version version ≡ ok v
    → (v ≡ schema_version) ⊎ (v ≡ legacy_schema_version)
unfolding select_version
select_version-known version {v} e = ground arith

-- An accepted journal has at most 65,536 lines and one of the two known schemas.
pub parse_document-bound :
    (sha : Sha256) (p : Platform) (document : Str) {d : ParsedDocument}
    → parse_document sha p document ≡ ok d
    → (length d.body ≤ max_journal_lines)
      × ((d.schema ≡ schema_version) ⊎ (d.schema ≡ legacy_schema_version))
unfolding parse_document
parse_document-bound sha p document {d} e = elim (Option-cases (split_once 10 document)) [
  | inl unterminated ↦ ground arith
  | inr ((header, body), terminated) ↦ elim (Result-cases (split_header (split 32 header))) [
    | inr (x, refused) ↦ ground arith
    | inl ((version, platform, recorded), accepted) ↦ ground (
      arith,
      read_lines-bound [] (lines body) {ls = d.body},
      select_version-known version {v = d.schema},
    )
  ]
]
