-- ===== src/Journal/Record/Each.antt =====
-- src/journal/mod.rs: the source, lock, action and error records, written by `to_lines` and read by `from_lines`.
use skillmount.Prelude.{ℕ, ◌≤◌, ok, ◌≡◌, refl, ◌⊎◌, inl, inr}
use skillmount.Text.{Str, lit, to_string, parse_uint, parse_uint-to_string}
use skillmount.Native.{unix, IsOsString}
use skillmount.Mount.Action.{parse_precondition, u32_max}
use skillmount.Journal.Codec.Line.Fields.{field_laws}
use skillmount.Journal.Codec.Document.{schema_version, legacy_schema_version}
use skillmount.Journal.Status.{
  parse_action, parse_operation, parse_kind, parse_resource, parse_access, mutate,
}
use skillmount.Journal.Status.Labels.{
  parse_action-label, parse_operation-label, parse_kind-label, parse_resource-label,
  parse_access-label, parse_precondition-label,
}
use skillmount.Journal.Record.{
  SourceResolution, JournalAction, JournalLock, source_line, lock_line, action_line, error_line,
}
use skillmount.Journal.Record.Read.{
  optional_text, text, optional_path, path, parsed, read_source, read_access, read_lock,
  read_action, usize_max,
}
use skillmount.Journal.Record.Fields.{
  IsText, OptionIsText, OptionIsPath, number-IsText, optional_text-field, text-field,
  optional_path-field, path-field, parsed-field, action_label-IsText, operation_label-IsText,
  kind_label-IsText, resource_label-IsText, access_label-IsText, precondition_label-IsText,
}

abbrev pub IsSource : SourceResolution → Type 0
IsSource s =
    IsText s.mount_name
    × (s.source_ordinal ≤ usize_max)
    × IsOsString unix s.source_entry
    × IsOsString unix s.source_canonical

pub read_source-source_line :
    (s : SourceResolution) → IsSource s → read_source (source_line s) ≡ ok s
unfolding read_source
read_source-source_line s h =
    let l = source_line s in
    let n : text l (lit "name") ≡ ok s.mount_name =
      text-field l (lit "name") s.mount_name h.0 (unfold source_line in simp field_laws) in
    let o : parsed (parse_uint usize_max) "a source ordinal is not a number" l (lit "ordinal")
        ≡ ok s.source_ordinal =
      parsed-field l (lit "ordinal") _ _ (to_string s.source_ordinal) s.source_ordinal
        (number-IsText s.source_ordinal) (parse_uint-to_string usize_max s.source_ordinal h.1)
        (unfold source_line in simp field_laws) in
    let e : path l (lit "entry") ≡ ok s.source_entry =
      path-field l (lit "entry") s.source_entry h.2 (unfold source_line in simp field_laws) in
    let c : path l (lit "canonical") ≡ ok s.source_canonical =
      path-field l (lit "canonical") s.source_canonical h.3
        (unfold source_line in simp field_laws) in
    rw (n, o, e, c) refl

abbrev pub IsLock : JournalLock → Type 0
IsLock l =
    IsOsString unix l.path
    × IsOsString unix l.anchor
    × IsOsString unix l.suffix
    × OptionIsText l.physical

-- Schema 1 knows only locks that mutate.
abbrev pub IsAccess : ℕ → JournalLock → Type 0
IsAccess version l =
    (version ≡ schema_version) ⊎ ((version ≡ legacy_schema_version) × (l.access ≡ mutate))

read_access-lock_line :
    (version : ℕ) (l : JournalLock)
    → IsAccess version l
    → read_access version (lock_line l) ≡ ok l.access
unfolding read_access
read_access-lock_line version l (inl now) =
    rw
      (
        now,
        parsed-field (lock_line l) (lit "access") parse_access "unknown lock access" _ l.access
            (access_label-IsText l.access) (parse_access-label l.access)
            (unfold lock_line in simp field_laws),
      )
      refl
read_access-lock_line version l (inr (legacy, held)) = rw (legacy, held) refl

pub read_lock-lock_line :
    (version : ℕ) (l : JournalLock)
    → IsLock l
    → IsAccess version l
    → read_lock version (lock_line l) ≡ ok l
unfolding read_lock
read_lock-lock_line version l h k =
    let line = lock_line l in
    let kind : parsed parse_resource "unknown lock resource kind" line (lit "kind") ≡ ok l.kind =
      parsed-field line (lit "kind") _ _ _ l.kind (resource_label-IsText l.kind)
        (parse_resource-label l.kind) (unfold lock_line in simp field_laws) in
    let at : path line (lit "path") ≡ ok l.path =
      path-field line (lit "path") l.path h.0 (unfold lock_line in simp field_laws) in
    let anchor : path line (lit "anchor") ≡ ok l.anchor =
      path-field line (lit "anchor") l.anchor h.1 (unfold lock_line in simp field_laws) in
    let suffix : path line (lit "suffix") ≡ ok l.suffix =
      path-field line (lit "suffix") l.suffix h.2 (unfold lock_line in simp field_laws) in
    let physical : optional_text line (lit "physical") ≡ ok l.physical =
      optional_text-field line (lit "physical") l.physical h.3
        (unfold lock_line in simp field_laws) in
    rw (kind, read_access-lock_line version l k, at, anchor, suffix, physical) refl

abbrev pub IsAction : JournalAction → Type 0
IsAction a =
    OptionIsText a.config_contents
    × (a.id ≤ u32_max)
    × IsOsString unix a.final_path
    × OptionIsPath a.temporary_path
    × OptionIsPath a.source_canonical
    × OptionIsPath a.link_target
    × OptionIsText a.identity

module _ (a : JournalAction) where
  action_number :
      a.id ≤ u32_max
      → parsed (parse_uint u32_max) "an action id is not a number" (action_line a) (lit "id")
        ≡ ok a.id
  action_number h =
      parsed-field (action_line a) (lit "id") _ _ (to_string a.id) a.id (number-IsText a.id)
        (parse_uint-to_string u32_max a.id h) (unfold action_line in simp field_laws)

  action_operation :
      parsed parse_operation "unknown action operation" (action_line a) (lit "op") ≡ ok a.operation
  action_operation =
      parsed-field (action_line a) (lit "op") _ _ _ a.operation (operation_label-IsText a.operation)
        (parse_operation-label a.operation) (unfold action_line in simp field_laws)

  action_expected_precondition :
      parsed parse_precondition "unknown action precondition" (action_line a) (lit "precondition")
      ≡ ok a.expected_precondition
  action_expected_precondition =
      parsed-field (action_line a) (lit "precondition") _ _ _ a.expected_precondition
        (precondition_label-IsText a.expected_precondition)
        (parse_precondition-label a.expected_precondition) (unfold action_line in simp field_laws)

  action_kind :
      parsed parse_kind "unknown action entry kind" (action_line a) (lit "kind") ≡ ok a.kind
  action_kind =
      parsed-field (action_line a) (lit "kind") _ _ _ a.kind (kind_label-IsText a.kind)
        (parse_kind-label a.kind) (unfold action_line in simp field_laws)

  action_status :
      parsed parse_action "unknown action status" (action_line a) (lit "status") ≡ ok a.status
  action_status =
      parsed-field (action_line a) (lit "status") _ _ _ a.status (action_label-IsText a.status)
        (parse_action-label a.status) (unfold action_line in simp field_laws)

  action_final_path :
      IsOsString unix a.final_path → path (action_line a) (lit "final") ≡ ok a.final_path
  action_final_path h =
      path-field (action_line a) (lit "final") a.final_path h
        (unfold action_line in simp field_laws)

  action_temporary_path :
      OptionIsPath a.temporary_path
      → optional_path (action_line a) (lit "temp") ≡ ok a.temporary_path
  action_temporary_path h =
      optional_path-field (action_line a) (lit "temp") a.temporary_path h
        (unfold action_line in simp field_laws)

  action_source_canonical :
      OptionIsPath a.source_canonical
      → optional_path (action_line a) (lit "source") ≡ ok a.source_canonical
  action_source_canonical h =
      optional_path-field (action_line a) (lit "source") a.source_canonical h
        (unfold action_line in simp field_laws)

  action_link_target :
      OptionIsPath a.link_target → optional_path (action_line a) (lit "target") ≡ ok a.link_target
  action_link_target h =
      optional_path-field (action_line a) (lit "target") a.link_target h
        (unfold action_line in simp field_laws)

  action_config_contents :
      OptionIsText a.config_contents
      → optional_text (action_line a) (lit "contents") ≡ ok a.config_contents
  action_config_contents h =
      optional_text-field (action_line a) (lit "contents") a.config_contents h
        (unfold action_line in simp field_laws)

  action_identity :
      OptionIsText a.identity → optional_text (action_line a) (lit "identity") ≡ ok a.identity
  action_identity h =
      optional_text-field (action_line a) (lit "identity") a.identity h
        (unfold action_line in simp field_laws)

  pub read_action-action_line : IsAction a → read_action (action_line a) ≡ ok a
  unfolding read_action
  read_action-action_line h =
      rw
        (
          action_config_contents h.0,
          action_number h.1,
          action_operation,
          action_expected_precondition,
          action_kind,
          action_status,
          action_final_path h.2,
          action_temporary_path h.3,
          action_source_canonical h.4,
          action_link_target h.5,
          action_identity h.6,
        )
        refl

pub text-error_line : (e : Str) → IsText e → text (error_line e) (lit "text") ≡ ok e
text-error_line e h =
    text-field (error_line e) (lit "text") e h (unfold error_line in simp field_laws)
