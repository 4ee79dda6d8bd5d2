-- ===== src/Journal/Record/File.antt =====
-- A journal as a file: src/journal/mod.rs writes its lines and src/journal/codec.rs the document around them.
use skillmount.Prelude.{
  ℕ, ◌≤◌, true, false, List, [], ◌∷◌, map, all, all-imp, Option, none, some, ok, length, All,
  All-append, ◌≡◌, refl, arith, inl,
}
use skillmount.Text.{Str}
use skillmount.Native.{unix, IsOsString, os_bytes-bytes}
use skillmount.FilePath.{FilePath}
use skillmount.Journal.Codec.Token.{encode_text, encode_path, encode_os, encode_bytes}
use skillmount.Journal.Codec.Token.RoundTrip.{
  IsBytes, encode_bytes-is_token, is_token, is_token-graphic,
}
use skillmount.Journal.Codec.Line.{Line, new, push, push_optional, is_empty}
use skillmount.Journal.Codec.Line.RoundTrip.{IsField, IsLine, is_graphic, is_word}
use skillmount.Journal.Codec.Document.{
  Sha256, schema_version, max_journal_lines, render_document, parse_document, ParsedDocument,
}
use skillmount.Journal.Codec.Document.RoundTrip.{parse_document-render}
use skillmount.Journal.Record.{
  SourceResolution, JournalAction, JournalLock, TransactionJournal, text_token, path_token,
  header_line, paths_line, source_line, lock_line, action_line, error_line, to_lines,
}
use skillmount.Journal.Record.Fields.{
  IsText, OptionIsText, OptionIsPath, number-IsText, transaction_label-IsText, action_label-IsText,
  operation_label-IsText, kind_label-IsText, agent_label-IsText, resource_label-IsText,
  access_label-IsText, precondition_label-IsText, bool_label-IsText,
}
use skillmount.Journal.Record.Header.{IsHeader}
use skillmount.Journal.Record.Each.{IsSource, IsLock, IsAction}
use skillmount.Journal.Record.Read.{decode, read_journal, read_bounded, load, max_journal_bytes}
use skillmount.Journal.Record.Validate.{validate}
use skillmount.Lock.{Observed}
use skillmount.Journal.Record.RoundTrip.{IsJournal, read_journal-to_lines}

abbrev IsToken : Str → Type 0
IsToken s = all is_graphic s ≡ true

abbrev OptionIsToken : Option Str → Type 0
OptionIsToken none = Unit
OptionIsToken (some s) = IsToken s

abbrev IsKey : Str → Type 0
IsKey s = (is_empty s ≡ false) × (all is_word s ≡ true)

IsLine-new : (name : Str) → IsKey name → IsLine (new name)
unfolding new
IsLine-new name h = record { name_some = h.0; name_word = h.1; each_field = tt }

IsLine-push :
    (key token : Str) (l : Line) → IsKey key → IsToken token → IsLine l → IsLine (push key token l)
unfolding push
IsLine-push key token l k t h = record {
  name_some = h.name_some;
  name_word = h.name_word;
  each_field =
      All-append IsField l.fields _ h.each_field
        (record { key_some = k.0; key_word = k.1; token_graphic = t }, tt);
}

IsLine-push_optional :
    (key : Str) (token : Option Str) (l : Line)
    → IsKey key
    → OptionIsToken token
    → IsLine l
    → IsLine (push_optional key token l)
unfolding push_optional
IsLine-push_optional key none l k t h = h
IsLine-push_optional key (some token) l k t h = IsLine-push key token l k t h

bytes-IsToken : (s : List ℕ) → IsBytes s → IsToken (encode_bytes s)
bytes-IsToken s h =
    all-imp is_token is_graphic (λ c k. let b = is_token-graphic c k in ground arith) _
      (encode_bytes-is_token s h)

text-IsToken : (s : Str) → IsText s → IsToken (encode_text s)
unfolding encode_text
text-IsToken s h = bytes-IsToken s h.bytes

path-IsToken : (p : FilePath) → IsOsString unix p → IsToken (encode_path unix p)
unfolding encode_path encode_os
path-IsToken p h = bytes-IsToken _ (os_bytes-bytes unix p h)

optional_text-IsToken : (s : Option Str) → OptionIsText s → OptionIsToken (text_token s)
optional_text-IsToken none h = tt
optional_text-IsToken (some s) h = text-IsToken s h

optional_path-IsToken : (p : Option FilePath) → OptionIsPath p → OptionIsToken (path_token p)
optional_path-IsToken none h = tt
optional_path-IsToken (some p) h = path-IsToken p h

source_line-IsLine : (s : SourceResolution) → IsSource s → IsLine (source_line s)
unfolding source_line is_empty
source_line-IsLine s h =
    IsLine-push _ _ _ (refl, refl) (path-IsToken _ h.3)
      (IsLine-push _ _ _ (refl, refl) (path-IsToken _ h.2)
        (IsLine-push _ _ _ (refl, refl) (text-IsToken _ (number-IsText s.source_ordinal))
          (IsLine-push _ _ _ (refl, refl) (text-IsToken _ h.0) (IsLine-new _ (refl, refl)))))

lock_line-IsLine : (l : JournalLock) → IsLock l → IsLine (lock_line l)
unfolding lock_line is_empty
lock_line-IsLine l h =
    IsLine-push_optional _ _ _ (refl, refl) (optional_text-IsToken l.physical h.3)
      (IsLine-push _ _ _ (refl, refl) (path-IsToken _ h.2)
        (IsLine-push _ _ _ (refl, refl) (path-IsToken _ h.1)
          (IsLine-push _ _ _ (refl, refl) (path-IsToken _ h.0)
            (IsLine-push _ _ _ (refl, refl) (text-IsToken _ (access_label-IsText l.access))
              (IsLine-push _ _ _ (refl, refl) (text-IsToken _ (resource_label-IsText l.kind))
                (IsLine-new _ (refl, refl)))))))

action_line-IsLine : (a : JournalAction) → IsAction a → IsLine (action_line a)
unfolding action_line is_empty
action_line-IsLine a h =
    IsLine-push_optional _ _ _ (refl, refl) (optional_text-IsToken a.identity h.6)
      (IsLine-push_optional _ _ _ (refl, refl) (optional_path-IsToken a.link_target h.5)
        (IsLine-push_optional _ _ _ (refl, refl) (optional_path-IsToken a.source_canonical h.4)
          (IsLine-push_optional _ _ _ (refl, refl) (optional_path-IsToken a.temporary_path h.3)
            (IsLine-push_optional _ _ _ (refl, refl) (optional_text-IsToken a.config_contents h.0)
              (IsLine-push _ _ _ (refl, refl) (path-IsToken _ h.2)
                (IsLine-push _ _ _ (refl, refl) (text-IsToken _ (action_label-IsText a.status))
                  (IsLine-push _ _ _ (refl, refl) (text-IsToken _ (kind_label-IsText a.kind))
                    (IsLine-push _ _ _ (refl, refl)
                      (text-IsToken _ (precondition_label-IsText a.expected_precondition))
                      (IsLine-push _ _ _ (refl, refl)
                        (text-IsToken _ (operation_label-IsText a.operation))
                        (IsLine-push _ _ _ (refl, refl) (text-IsToken _ (number-IsText a.id))
                          (IsLine-new _ (refl, refl))))))))))))

error_line-IsLine : (e : Str) → IsText e → IsLine (error_line e)
unfolding error_line is_empty
error_line-IsLine e h =
    IsLine-push _ _ _ (refl, refl) (text-IsToken _ (h)) (IsLine-new _ (refl, refl))

header_line-IsLine : (j : TransactionJournal) → IsHeader j → IsLine (header_line j)
unfolding header_line is_empty
header_line-IsLine j h =
    IsLine-push _ _ _ (refl, refl) (text-IsToken _ (bool_label-IsText j.keep_mounts))
      (IsLine-push _ _ _ (refl, refl) (text-IsToken _ (number-IsText j.owner_pid))
        (IsLine-push _ _ _ (refl, refl) (text-IsToken _ (transaction_label-IsText j.status))
          (IsLine-push _ _ _ (refl, refl) (text-IsToken _ (agent_label-IsText j.agent))
            (IsLine-push _ _ _ (refl, refl) (text-IsToken _ (h.0)) (IsLine-new _ (refl, refl))))))

paths_line-IsLine : (j : TransactionJournal) → IsHeader j → IsLine (paths_line j)
unfolding paths_line is_empty
paths_line-IsLine j h =
    IsLine-push _ _ _ (refl, refl) (path-IsToken _ h.6)
      (IsLine-push _ _ _ (refl, refl) (path-IsToken _ h.5)
        (IsLine-push _ _ _ (refl, refl) (path-IsToken _ h.4)
          (IsLine-push _ _ _ (refl, refl) (path-IsToken _ h.3) (IsLine-new _ (refl, refl)))))

All-map_of :
    {A : Type 0} {P : A → Type 0} (f : A → Line) (lift : (a : A) → P a → IsLine (f a)) (xs : List A)
    → All P xs
    → All IsLine (map f xs)
All-map_of f lift [] h = tt
All-map_of f lift (x ∷ xs) h = (lift x h.0, All-map_of f lift xs h.1)

to_lines-IsLine :
    (version : ℕ) (j : TransactionJournal) → IsJournal version j → All IsLine (to_lines j)
unfolding to_lines
to_lines-IsLine version j h = (
  header_line-IsLine j h.header,
  (
    paths_line-IsLine j h.header,
    All-append IsLine (map source_line j.sources) _
        (All-map_of source_line source_line-IsLine j.sources h.each_source)
        (All-append IsLine (map lock_line j.locks) _
          (All-map_of lock_line (λ l k. lock_line-IsLine l k.0) j.locks h.each_lock)
          (All-append IsLine (map action_line j.actions) _
            (All-map_of action_line action_line-IsLine j.actions h.each_action)
            (All-map_of error_line error_line-IsLine j.errors h.each_error))),
  ),
)

decode-of :
    (sha : Sha256) (seen : Observed) (document : Str) (found : ParsedDocument)
    (j : TransactionJournal)
    → parse_document sha unix document ≡ ok found
    → read_journal sha seen found.body found.schema ≡ ok j
    → decode sha seen document ≡ ok j
unfolding decode
decode-of sha seen document found j e k = ground arith

load-of :
    (sha : Sha256) (seen : Observed) (document : Str) (j : TransactionJournal)
    → length document ≤ max_journal_bytes
    → decode sha seen document ≡ ok j
    → load sha seen document ≡ ok j
unfolding load read_bounded
load-of sha seen document j small e = ground arith

-- A journal that `validate` accepts, and whose texts are UTF-8, whose paths are native, whose numbers fit their
-- types and whose id is a legal one, is what `load` returns from the file that holds its document in the
-- current schema, whatever the hash and the paths that the file system resolves, while it has at most 65,536
-- lines and the document at most 4 MiB.
pub load-render :
    (sha : Sha256) (seen : Observed) (j : TransactionJournal)
    → IsJournal schema_version j
    → validate sha seen schema_version j ≡ ok tt
    → length (to_lines j) ≤ max_journal_lines
    → length (render_document sha unix (to_lines j)) ≤ max_journal_bytes
    → load sha seen (render_document sha unix (to_lines j)) ≡ ok j
load-render sha seen j h valid few small = load-of sha seen _ j small (
    decode-of sha seen _ (record { schema = schema_version; body = to_lines j }) j
      (unfold render_document in
        parse_document-render sha unix (to_lines j) schema_version
          (to_lines-IsLine schema_version j h) few (inl refl))
      (read_journal-to_lines sha seen schema_version j (inl refl) h valid))
