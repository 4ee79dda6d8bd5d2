-- ===== src/Journal/Record/RoundTrip.antt =====
-- src/journal/mod.rs: `from_lines` after `to_lines`.
use skillmount.Prelude.{
  ℕ, true, false, ◌||◌, List, [], ◌∷◌, ◌++◌, map, ok, All, filter, ◌≡◌, refl, sym, ◌∙◌, ap, arith,
  ◌⊎◌, inl, inr, ◌==◌,
}
use skillmount.Text.{Str, lit, ◌===◌}
use skillmount.Journal.Codec.Line.{Line}
use skillmount.Journal.Codec.Line.Fields.{name_laws}
use skillmount.Journal.Codec.Document.{Sha256, schema_version, legacy_schema_version}
use skillmount.Journal.Record.{
  SourceResolution, JournalAction, JournalLock, TransactionJournal, header_line, paths_line,
  source_line, lock_line, action_line, error_line, to_lines,
}
use skillmount.Journal.Record.Read.{require_one, read_line, read_body, read_records, read_journal}
use skillmount.Lock.{Observed}
use skillmount.Journal.Record.Validate.{validate}
use mathlib.Core.List.{append-nil, append_assoc}
use skillmount.Journal.Record.Fields.{IsText}
use skillmount.Journal.Record.Header.{IsHeader, read_header-lines}
use skillmount.Journal.Record.Each.{
  IsSource, IsLock, IsAccess, IsAction, read_source-source_line, read_lock-lock_line,
  read_action-action_line, text-error_line,
}

-- The record names of the lines.
line_names :
    (j : TransactionJournal)
    → ((header_line j).record_name ≡ lit "transaction") × ((paths_line j).record_name ≡ lit "paths")
line_names j = (unfold header_line in simp name_laws, unfold paths_line in simp name_laws)

source_name : (s : SourceResolution) → (source_line s).record_name ≡ lit "source"
source_name s = unfold source_line in simp name_laws

lock_name : (l : JournalLock) → (lock_line l).record_name ≡ lit "lock"
lock_name l = unfold lock_line in simp name_laws

action_name : (a : JournalAction) → (action_line a).record_name ≡ lit "action"
action_name a = unfold action_line in simp name_laws

error_name : (e : Str) → (error_line e).record_name ≡ lit "error"
error_name e = unfold error_line in simp name_laws

-- One step of the loop for each kind of line.
module _ (version : ℕ) (j : TransactionJournal) where
  read_line-header :
      (l : Line)
      → (l.record_name ≡ lit "transaction") ⊎ (l.record_name ≡ lit "paths")
      → read_line version j l ≡ ok j
  unfolding read_line
  read_line-header l (inl h) = rw h refl
  read_line-header l (inr h) = rw h refl

  read_line-source :
      (s : SourceResolution)
      → IsSource s
      → read_line version j (source_line s) ≡ ok (record j { sources = j.sources ++ s ∷ [] })
  unfolding read_line
  read_line-source s h = rw (read_source-source_line s h, source_name s) refl

  read_line-lock :
      (l : JournalLock)
      → IsLock l × IsAccess version l
      → read_line version j (lock_line l) ≡ ok (record j { locks = j.locks ++ l ∷ [] })
  unfolding read_line
  read_line-lock l h = rw (read_lock-lock_line version l h.0 h.1, lock_name l) refl

  read_line-action :
      (a : JournalAction)
      → IsAction a
      → read_line version j (action_line a) ≡ ok (record j { actions = j.actions ++ a ∷ [] })
  unfolding read_line
  read_line-action a h = rw (read_action-action_line a h, action_name a) refl

  read_line-error :
      (e : Str)
      → IsText e
      → read_line version j (error_line e) ≡ ok (record j { errors = j.errors ++ e ∷ [] })
  unfolding read_line
  read_line-error e h = rw (text-error_line e h, error_name e) refl

-- Reading a section of lines fills one list of the journal.
module _ (version : ℕ) {A : Type 0} (P : A → Type 0) (line_of : A → Line)
    (fill : TransactionJournal → List A → TransactionJournal)
    (fill-nil : (j : TransactionJournal) → fill j [] ≡ j)
    (fill-cons : (j : TransactionJournal) (a : A) (as_ : List A)
      → fill (fill j (a ∷ [])) as_ ≡ fill j (a ∷ as_))
    (reads : (j : TransactionJournal) (a : A)
      → P a
      → read_line version j (line_of a) ≡ ok (fill j (a ∷ []))) where
  read_body-section :
      (j : TransactionJournal) (as_ : List A) (rest : List Line)
      → All P as_
      → read_body version j (map line_of as_ ++ rest) ≡ read_body version (fill j as_) rest
  unfolding read_body
  read_body-section j [] rest h = rw (fill-nil j) refl
  read_body-section j (a ∷ as_) rest h = rw (reads j a h.0) (
      read_body-section (fill j (a ∷ [])) as_ rest h.1
      ∙ ap (λ k. read_body version k rest) (fill-cons j a as_))

-- A journal whose records can be written: its texts are UTF-8, its paths are native, its numbers fit their types, its
-- id is a legal one, and its locks are ones that the schema can record.
pub record IsJournal (version : ℕ) (j : TransactionJournal) : Type 0 where
  pub header : IsHeader j
  pub each_source : All IsSource j.sources
  pub each_lock : All (λ (l : JournalLock). IsLock l × IsAccess version l) j.locks
  pub each_action : All IsAction j.actions
  pub each_error : All IsText j.errors

module _ (name : Str) {A : Type 0} (line_of : A → Line)
    (other : (a : A) → ((line_of a).record_name === name) ≡ false) where
  named-section :
      (as_ : List A) (rest : List Line)
      → filter (λ (l : Line). l.record_name === name) (map line_of as_ ++ rest)
        ≡ filter (λ (l : Line). l.record_name === name) rest
  named-section [] rest = refl
  named-section (a ∷ as_) rest = rw (other a) (named-section as_ rest)

-- The lines after the first two.
abbrev sections : TransactionJournal → List Line
sections j =
    map source_line j.sources
    ++ (map lock_line j.locks ++ (map action_line j.actions ++ map error_line j.errors))

sections-unnamed :
    (j : TransactionJournal) (name : Str)
    → (lit "source" === name) ≡ false
    → (lit "lock" === name) ≡ false
    → (lit "action" === name) ≡ false
    → (lit "error" === name) ≡ false
    → filter (λ (l : Line). l.record_name === name) (sections j) ≡ []
sections-unnamed j name s l a e =
    named-section name source_line (λ x. rw (source_name x) s) j.sources _
    ∙ named-section name lock_line (λ x. rw (lock_name x) l) j.locks _
    ∙ named-section name action_line (λ x. rw (action_name x) a) j.actions _
    ∙ ap (filter (λ (l : Line). l.record_name === name)) (sym (append-nil _))
    ∙ named-section name error_line (λ x. rw (error_name x) e) j.errors []

require_one-to_lines :
    (j : TransactionJournal)
    → (require_one (to_lines j) (lit "transaction") ≡ ok (header_line j))
      × (require_one (to_lines j) (lit "paths") ≡ ok (paths_line j))
unfolding require_one to_lines
require_one-to_lines j =
    let (header, paths) = line_names j in
    let quiet = sections-unnamed j in
    (
      rw (header, paths, quiet (lit "transaction") refl refl refl refl) refl,
      rw (header, paths, quiet (lit "paths") refl refl refl refl) refl,
    )

read_body-sections :
    (version : ℕ) (j : TransactionJournal)
    → IsJournal version j
    → read_body version
        (record j { sources = []; locks = []; actions = []; errors = [] })
        (sections j)
      ≡ ok j
read_body-sections version j h =
    let empty : TransactionJournal = record j {
      sources = [];
      locks = [];
      actions = [];
      errors = [];
    } in
    read_body-section version IsSource source_line (λ k xs. record k { sources = k.sources ++ xs })
      (λ k. rw append-nil refl) (λ k x xs. rw append_assoc refl) (λ k. read_line-source version k)
      empty j.sources _ h.each_source
    ∙ read_body-section version (λ (l : JournalLock). IsLock l × IsAccess version l) lock_line
        (λ k xs. record k { locks = k.locks ++ xs }) (λ k. rw append-nil refl)
        (λ k x xs. rw append_assoc refl) (λ k. read_line-lock version k)
        (record empty { sources = j.sources }) j.locks _ h.each_lock
    ∙ read_body-section version IsAction action_line
        (λ k xs. record k { actions = k.actions ++ xs }) (λ k. rw append-nil refl)
        (λ k x xs. rw append_assoc refl) (λ k. read_line-action version k)
        (record empty { sources = j.sources; locks = j.locks }) j.actions _ h.each_action
    ∙ ap (read_body version (record j { errors = [] })) (sym (append-nil _))
    ∙ read_body-section version IsText error_line (λ k xs. record k { errors = k.errors ++ xs })
        (λ k. rw append-nil refl) (λ k x xs. rw append_assoc refl) (λ k. read_line-error version k)
        (record j { errors = [] }) j.errors [] h.each_error
    ∙ unfold read_body in refl

read_records-to_lines :
    (version : ℕ) (j : TransactionJournal)
    → (version ≡ schema_version) ⊎ (version ≡ legacy_schema_version)
    → IsJournal version j
    → read_records (to_lines j) version ≡ ok j
unfolding read_records to_lines read_body
read_records-to_lines version j known h =
    let (header, paths) = require_one-to_lines j in
    let (header_name, paths_name) = line_names j in
    let accepted : (version == legacy_schema_version || version == schema_version) ≡ true =
      ground arith in
    let first : TransactionJournal = record j {
      sources = [];
      locks = [];
      actions = [];
      errors = [];
    } in
    rw
      (
        accepted,
        header,
        paths,
        read_header-lines j h.header,
        read_line-header version first (header_line j) (inl header_name),
        read_line-header version first (paths_line j) (inr paths_name),
      )
      (read_body-sections version j h)

-- Under either schema, a journal that `validate` accepts, and whose texts are UTF-8, whose paths are native, whose
-- numbers fit their types, whose id is a legal one and whose locks are ones that the schema can record, is
-- read back from its lines.
pub read_journal-to_lines :
    (sha : Sha256) (seen : Observed) (version : ℕ) (j : TransactionJournal)
    → (version ≡ schema_version) ⊎ (version ≡ legacy_schema_version)
    → IsJournal version j
    → validate sha seen version j ≡ ok tt
    → read_journal sha seen (to_lines j) version ≡ ok j
unfolding read_journal
read_journal-to_lines sha seen version j known h valid =
    rw (read_records-to_lines version j known h, valid) refl
