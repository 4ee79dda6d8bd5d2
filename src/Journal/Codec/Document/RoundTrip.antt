-- ===== src/Journal/Codec/Document/RoundTrip.antt =====
-- src/journal/codec.rs: `parse_document` after `render_document_with_schema`.
use mathlib.Core.List.{append-nil, append_assoc}
use skillmount.Prelude.{
  ℕ, ◌+◌, ◌≤◌, ◌<◌, Bool, true, false, not, List, [], ◌∷◌, ◌++◌, map, ◌≡◌, ◌⊎◌, inl, inr, refl, ap,
  ◌∙◌, arith, ltb, ◌==◌, all, all-append, all-imp, All, ok, length, length-append,
}
use skillmount.Text.{
  Str, free, ===_refl, lines, lines-append, split, split-free, split-append, split_once-append,
  utf8_valid-of_ascii, to_string, to_string-is_digit, is_digit, is_digit-bounds,
}
use skillmount.Native.{Platform, unix, windows}
use skillmount.Journal.Codec.Token.RoundTrip.{is_token, hex-is_token, is_token-graphic}
use skillmount.Journal.Codec.Line
use skillmount.Journal.Codec.Line.{Line}
use skillmount.Journal.Codec.Line.RoundTrip.{
  is_graphic, IsLine, parse-render, free-graphic, render-is_text, is_text, is_empty-render,
}
use skillmount.Journal.Codec.Document.{
  Sha256, schema_version, legacy_schema_version, max_journal_lines, platform_tag, magic, checksum,
  render_body, render_header, render_document_with_schema, split_header, select_version, read_lines,
  parse_document,
}

pub free-text : (c : ℕ) → c < 32 → (s : Str) → all is_text s ≡ true → free c s ≡ true
free-text c h s = all-imp is_text (λ x. not (x == c)) (λ x k. ground arith) s

text-graphic : (s : Str) → all is_graphic s ≡ true → all is_text s ≡ true
text-graphic s = all-imp is_graphic is_text (λ x k. ground arith) s

text-word :
    (s t : Str) → all is_text s ≡ true → all is_text t ≡ true → all is_text (s ++ 32 ∷ t) ≡ true
text-word s t h k = rw (all-append is_text s (32 ∷ t), h) k

graphic-to_string : (n : ℕ) → all is_graphic (to_string n) ≡ true
graphic-to_string n =
    all-imp is_digit is_graphic (λ x k. ground (arith, is_digit-bounds x k)) (to_string n)
      (to_string-is_digit n)

graphic-platform_tag : (p : Platform) → all is_graphic (platform_tag p) ≡ true
graphic-platform_tag unix = refl
graphic-platform_tag windows = refl

module _ (sha : Sha256) where
  graphic-checksum : (s : Str) → all is_graphic (checksum sha s) ≡ true
  unfolding checksum
  graphic-checksum s =
      all-imp is_token is_graphic (λ x k. ground (arith, is_token-graphic x k)) _
        (hex-is_token (sha.digest s) (sha.digest-IsBytes s))

  pub split-render_header :
      (p : Platform) (v : ℕ) (body : Str)
      → split 32 (render_header sha p v body)
        ≡ magic ∷ to_string v ∷ platform_tag p ∷ checksum sha body ∷ []
  unfolding render_header
  split-render_header p v body =
      rw
        (split-append 32 magic (to_string v ++ 32 ∷ (platform_tag p ++ 32 ∷ checksum sha body))
          refl)
        (rw
          (split-append 32 (to_string v) (platform_tag p ++ 32 ∷ checksum sha body)
            (free-graphic 32 (omega arith) (to_string v) (graphic-to_string v)))
          (rw
            (split-append 32 (platform_tag p) (checksum sha body)
              (free-graphic 32 (omega arith) (platform_tag p) (graphic-platform_tag p)))
            (rw (
              split-free 32 (checksum sha body)
                (free-graphic 32 (omega arith) (checksum sha body) (graphic-checksum body))))))

  pub text-render_header :
      (p : Platform) (v : ℕ) (body : Str) → all is_text (render_header sha p v body) ≡ true
  unfolding render_header
  text-render_header p v body =
      text-word magic (to_string v ++ 32 ∷ (platform_tag p ++ 32 ∷ checksum sha body)) refl (
        text-word (to_string v) (platform_tag p ++ 32 ∷ checksum sha body)
          (text-graphic (to_string v) (graphic-to_string v))
          (text-word (platform_tag p) (checksum sha body)
            (text-graphic (platform_tag p) (graphic-platform_tag p))
            (text-graphic (checksum sha body) (graphic-checksum body))))

-- The bytes of a body: text and line feeds.
abbrev is_body : ℕ → Bool
is_body c = ltb c 128

ascii-text : (s : Str) → all is_text s ≡ true → all is_body s ≡ true
ascii-text s = all-imp is_text is_body (λ x k. ground arith) s

lines-render_body : (ls : List Line) → All IsLine ls → lines (render_body ls) ≡ map Line.render ls
unfolding render_body
lines-render_body [] h = unfold lines in refl
lines-render_body (l ∷ ls) h =
    lines-append (Line.render l) (render_body ls)
      (free-text 10 (omega arith) (Line.render l) (render-is_text l h.0))
      (free-text 13 (omega arith) (Line.render l) (render-is_text l h.0))
    ∙ ap (λ (ps : List Str). Line.render l ∷ ps) (lines-render_body ls h.1)

ascii-render_body : (ls : List Line) → All IsLine ls → all is_body (render_body ls) ≡ true
unfolding render_body
ascii-render_body [] h = refl
ascii-render_body (l ∷ ls) h =
    rw
      (
        all-append is_body (Line.render l) (10 ∷ render_body ls),
        ascii-text (Line.render l) (render-is_text l h.0),
      )
      (ascii-render_body ls h.1)

below_limit : (n : ℕ) → n < max_journal_lines → (n == max_journal_lines) ≡ false
below_limit n h = ground arith

read_lines-render :
    (found ls : List Line)
    → All IsLine ls
    → length found + length ls ≤ max_journal_lines
    → read_lines found (map Line.render ls) ≡ ok (found ++ ls)
unfolding read_lines
read_lines-render found [] h k = rw append-nil
read_lines-render found (l ∷ ls) h k =
    rw (is_empty-render l h.0, read_lines)
      (rw (below_limit (length found) (omega arith), read_lines)
        (rw (parse-render l h.0, read_lines)
          (rw
            (read_lines-render (found ++ l ∷ []) ls h.1
              (omega (arith, length-append found (l ∷ []))))
            (rw (append_assoc found (l ∷ []) ls)))))

pub select_version-current :
    (v : ℕ)
    → (v ≡ schema_version) ⊎ (v ≡ legacy_schema_version)
    → select_version (to_string v) ≡ ok v
unfolding select_version to_string
select_version-current v (inl e) = rw e (ground (arith, ===_refl (to_string schema_version)))
select_version-current v (inr e) = rw e refl

ascii-document :
    (sha : Sha256) (p : Platform) (ls : List Line) (v : ℕ)
    → All IsLine ls
    → all is_body (render_document_with_schema sha p ls v) ≡ true
unfolding render_document_with_schema
ascii-document sha p ls v h =
    let header = render_header sha p v (render_body ls) in
    rw
      (
        all-append is_body header (10 ∷ render_body ls),
        ascii-text header (text-render_header sha p v (render_body ls)),
      )
      (ascii-render_body ls h)

-- A document of at most 65,536 well-formed lines, written under either schema on either platform, is
-- read back with its schema and its lines.
pub parse_document-render :
    (sha : Sha256) (p : Platform) (ls : List Line) (v : ℕ)
    → All IsLine ls
    → length ls ≤ max_journal_lines
    → (v ≡ schema_version) ⊎ (v ≡ legacy_schema_version)
    → parse_document sha p (render_document_with_schema sha p ls v)
      ≡ ok (record { schema = v; body = ls })
parse_document-render sha p ls v h k known =
    let body = render_body ls in
    let header = render_header sha p v body in
    unfold parse_document split_header in
    rw (utf8_valid-of_ascii (render_document_with_schema sha p ls v) (ascii-document sha p ls v h))
      (unfold render_document_with_schema in
        rw
          (split_once-append 10 header body
            (free-text 10 (omega arith) header (text-render_header sha p v body)))
          (rw (split-render_header sha p v body) (
            rw
              (
                select_version-current v known,
                ===_refl (platform_tag p),
                ===_refl (checksum sha body),
              )
              (rw (lines-render_body ls h) (rw (read_lines-render [] ls h (omega arith)))))))
