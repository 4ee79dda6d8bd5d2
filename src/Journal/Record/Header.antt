-- ===== src/Journal/Record/Header.antt =====
-- src/journal/mod.rs: the `transaction` and `paths` records, written by `to_lines` and read by `from_lines`.
use skillmount.Prelude.{◌≤◌, Bool, true, false, [], some, ok, ◌≡◌, refl}
use skillmount.Text.{lit, to_string, parse_uint, parse_uint-to_string}
use skillmount.Native.{unix, IsOsString}
use skillmount.Mount.Action.{u32_max}
use skillmount.Journal.Codec.Line.Fields.{field_laws}
use skillmount.Journal.Status.{parse_transaction, parse_agent}
use skillmount.Journal.Status.Labels.{parse_transaction-label, parse_agent-label}
use skillmount.Journal.Record.{TransactionJournal, parse_id, bool_label, header_line, paths_line}
use skillmount.Journal.Record.Read.{text, path, boolean, parsed, read_header}
use skillmount.Journal.Record.Fields.{
  IsText, number-IsText, text-field, path-field, parsed-field, transaction_label-IsText,
  agent_label-IsText, bool_label-IsText,
}

-- What the two first records hold of a journal.
abbrev pub IsHeader : TransactionJournal → Type 0
IsHeader j =
    IsText j.transaction_id
    × (parse_id j.transaction_id ≡ some j.transaction_id)
    × (j.owner_pid ≤ u32_max)
    × IsOsString unix j.project_root
    × IsOsString unix j.launch_cwd
    × IsOsString unix j.discovery_entry
    × IsOsString unix j.backing_store

boolean-bool_label : (b : Bool) → boolean (bool_label b) ≡ ok b
unfolding boolean
boolean-bool_label true = refl
boolean-bool_label false = refl

module _ (j : TransactionJournal) where
  header_id :
      IsHeader j
      → parsed parse_id "the transaction id is not a legal identifier" (header_line j) (lit "id")
        ≡ ok j.transaction_id
  header_id h =
      parsed-field (header_line j) (lit "id") _ _ j.transaction_id j.transaction_id h.0 h.1
        (unfold header_line in simp field_laws)

  header_agent : parsed parse_agent "unknown agent" (header_line j) (lit "agent") ≡ ok j.agent
  header_agent =
      parsed-field (header_line j) (lit "agent") _ _ _ j.agent (agent_label-IsText j.agent)
        (parse_agent-label j.agent) (unfold header_line in simp field_laws)

  header_pid :
      IsHeader j
      → parsed (parse_uint u32_max) "the owner pid is not a number" (header_line j) (lit "pid")
        ≡ ok j.owner_pid
  header_pid h =
      parsed-field (header_line j) (lit "pid") _ _ (to_string j.owner_pid) j.owner_pid
        (number-IsText j.owner_pid) (parse_uint-to_string u32_max j.owner_pid h.2)
        (unfold header_line in simp field_laws)

  header_status :
      parsed parse_transaction "unknown transaction status" (header_line j) (lit "status")
      ≡ ok j.status
  header_status =
      parsed-field (header_line j) (lit "status") _ _ _ j.status (transaction_label-IsText j.status)
        (parse_transaction-label j.status) (unfold header_line in simp field_laws)

  header_keep : text (header_line j) (lit "keep_mounts") ≡ ok (bool_label j.keep_mounts)
  header_keep =
      text-field (header_line j) (lit "keep_mounts") _ (bool_label-IsText j.keep_mounts)
        (unfold header_line in simp field_laws)

  paths_project_root :
      IsOsString unix j.project_root → path (paths_line j) (lit "project_root") ≡ ok j.project_root
  paths_project_root h =
      path-field (paths_line j) (lit "project_root") j.project_root h
        (unfold paths_line in simp field_laws)

  paths_launch_cwd :
      IsOsString unix j.launch_cwd → path (paths_line j) (lit "launch_cwd") ≡ ok j.launch_cwd
  paths_launch_cwd h =
      path-field (paths_line j) (lit "launch_cwd") j.launch_cwd h
        (unfold paths_line in simp field_laws)

  paths_discovery_entry :
      IsOsString unix j.discovery_entry
      → path (paths_line j) (lit "discovery_entry") ≡ ok j.discovery_entry
  paths_discovery_entry h =
      path-field (paths_line j) (lit "discovery_entry") j.discovery_entry h
        (unfold paths_line in simp field_laws)

  paths_backing_store :
      IsOsString unix j.backing_store
      → path (paths_line j) (lit "backing_store") ≡ ok j.backing_store
  paths_backing_store h =
      path-field (paths_line j) (lit "backing_store") j.backing_store h
        (unfold paths_line in simp field_laws)

  pub read_header-lines :
      IsHeader j
      → read_header (header_line j) (paths_line j)
        ≡ ok (record j { sources = []; locks = []; actions = []; errors = [] })
  unfolding read_header
  read_header-lines h =
      rw
        (
          header_id h,
          header_agent,
          header_pid h,
          header_status,
          header_keep,
          boolean-bool_label j.keep_mounts,
          paths_project_root h.3,
          paths_launch_cwd h.4,
          paths_discovery_entry h.5,
          paths_backing_store h.6,
        )
        refl
