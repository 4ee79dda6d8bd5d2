-- ===== src/Tests/Journal.antt =====
-- A journal of src/journal/mod.rs with a lock, a link and an error.
use skillmount.Prelude.{
  ◌≤◌, ◌%◌, false, [], ◌∷◌, none, some, ok, err, ◌≡◌, refl, length, inl, arith,
}
use skillmount.Text.{lit, to_string, split}
use skillmount.Native.{unix, IsOsString, os_bytes}
use skillmount.FilePath.{
  FilePath, join, parent, strip_root, path_eq, components, is_prefix, components_eq,
}
use skillmount.Mount.Action.{missing}
use skillmount.Journal.Codec.Document.{
  Sha256, schema_version, max_journal_lines, render_document, render_document_with_schema,
  render_body, render_header, checksum,
}
use skillmount.Journal.Status.{
  TransactionStatus, ActionStatus, ActionOperation, RecordedKind, AgentId, LockResourceKind,
  LockAccess, satisfies, creates_entry,
}
use skillmount.Journal.Record.{
  JournalAction, JournalLock, TransactionJournal, parse_id, to_lines, header_line, paths_line,
  source_line, lock_line, action_line, error_line,
}
use skillmount.Journal.Record.Fields.{ascii-IsText}
use skillmount.Journal.Record.Read.{read_journal, load, max_journal_bytes}
use skillmount.Journal.Record.Each.{IsLock}
use skillmount.Journal.Record.Validate.{
  illegal, not_staged_sibling, validate, check_actions, check_action, check_kind_and_contents,
  staged_sibling, to_resource, lock_resources, check_authority, require_mutation_authority,
  require_exact_mutation_authority,
}
use skillmount.Lock.{
  Observed, authorizes_mutation_of, authorizes_exact_mutation_of, describe_shared, logical_key,
  key_digest, logical_path,
}
use skillmount.Paths.{key_starts_with, lexical_normalize, normalize_from, push_component}
use skillmount.Journal.Codec.Token.{hex, nibble, encode_text, encode_path, encode_os, encode_bytes}
use skillmount.Journal.Codec.Line.{render, push, push_optional, new}
use skillmount.Link.Host.{be_bytes}
use skillmount.Lock.Order.{
  dedup, dedup_after, sort_resources, insert_resource, sorts_before, same_lock, less_components,
  less_text,
}
use skillmount.Journal.Record.RoundTrip.{IsJournal, read_journal-to_lines}
use skillmount.Journal.Record.File.{load-render}

-- A stand-in for the hash: the length, modulo 256.
abbrev sha : Sha256
sha = record { digest = λ s. length s % 256 ∷ []; digest-IsBytes = λ s. (omega arith, tt) }

-- The path `/p`.
abbrev project : FilePath
project = lit "/p"

project-IsOsString : IsOsString unix project
project-IsOsString = (omega arith, (omega arith, tt))

abbrev root : FilePath
root = lit "/"

abbrev staging : FilePath
staging = lit "/.skillmount-a-1-1.tmp"

staging-IsOsString : IsOsString unix staging
staging-IsOsString = (ascii-IsText staging refl).bytes

abbrev lock : LockResourceKind → FilePath → FilePath → JournalLock
lock kind path suffix = record {
  kind = kind;
  access = LockAccess.mutate;
  path = path;
  anchor = root;
  suffix = suffix;
  physical = none;
}

lock-IsLock :
    (kind : LockResourceKind)
    → IsLock (lock kind project (lit "p"))
      × IsLock (lock kind staging (lit ".skillmount-a-1-1.tmp"))
lock-IsLock kind = (
  (project-IsOsString, (omega arith, tt), (omega arith, tt), tt),
  (
    staging-IsOsString,
    (omega arith, tt),
    (ascii-IsText (lit ".skillmount-a-1-1.tmp") refl).bytes,
    tt,
  ),
)

abbrev link : JournalAction
link = record {
  config_contents = none;
  id = 1;
  operation = ActionOperation.create_directory_link;
  expected_precondition = missing;
  temporary_path = some staging;
  final_path = project;
  source_canonical = some project;
  link_target = none;
  kind = RecordedKind.symlink;
  status = ActionStatus.staged;
  identity = some (lit "unix:1:ff");
}

abbrev journal : TransactionJournal
journal = record {
  transaction_id = lit "a-1";
  agent = AgentId.codex;
  owner_pid = 42;
  status = TransactionStatus.applying;
  project_root = project;
  launch_cwd = project;
  discovery_entry = project;
  backing_store = project;
  keep_mounts = false;
  sources =
      record {
        mount_name = lit "demo";
        source_ordinal = 0;
        source_entry = project;
        source_canonical = project;
      }
      ∷ [];
  locks =
      lock LockResourceKind.discovery_entry project (lit "p")
      ∷ lock LockResourceKind.backing_store project (lit "p")
      ∷ lock LockResourceKind.discovery_entry staging (lit ".skillmount-a-1-1.tmp")
      ∷ [];
  actions = link ∷ [];
  errors = lit "the store is busy" ∷ [];
}

legal_id : parse_id (lit "a-1") ≡ some (lit "a-1")
unfolding parse_id
legal_id = refl

few_lines : length (to_lines journal) ≤ max_journal_lines
unfolding to_lines
few_lines = omega arith

journal-IsJournal : IsJournal schema_version journal
journal-IsJournal = record {
  header = (
    ascii-IsText _ refl,
    legal_id,
    omega arith,
    project-IsOsString,
    project-IsOsString,
    project-IsOsString,
    project-IsOsString,
  );
  each_source = ((ascii-IsText _ refl, omega arith, project-IsOsString, project-IsOsString), tt);
  each_lock = (
    ((lock-IsLock LockResourceKind.discovery_entry).0, inl refl),
    (
      ((lock-IsLock LockResourceKind.backing_store).0, inl refl),
      (((lock-IsLock LockResourceKind.discovery_entry).1, inl refl), tt),
    ),
  );
  each_action = (
    (
      tt,
      omega arith,
      project-IsOsString,
      staging-IsOsString,
      project-IsOsString,
      tt,
      ascii-IsText _ refl,
    ),
    tt,
  );
  each_error = (ascii-IsText _ refl, tt);
}

-- A file system in which nothing exists.
abbrev seen : Observed
seen = record { canonical_spelling = λ p. none; physical_identity = λ p. none }

journal-valid : validate sha seen schema_version journal ≡ ok tt
unfolding validate check_actions check_action check_kind_and_contents staged_sibling to_resource
    check_authority require_mutation_authority require_exact_mutation_authority
    authorizes_mutation_of authorizes_exact_mutation_of describe_shared logical_key key_digest
    logical_path join parent strip_root path_eq components key_starts_with lexical_normalize
    satisfies creates_entry to_string split os_bytes hex is_prefix components_eq normalize_from
    push_component be_bytes nibble lock_resources dedup dedup_after sort_resources insert_resource
    sorts_before same_lock less_components less_text
journal-valid = refl

-- A lock is needed.
abbrev unlocked : TransactionJournal
unlocked = record journal { locks = [] }

unlocked-refused :
    validate sha seen schema_version unlocked
    ≡ err (illegal "a mutating transaction must record at least one resource lock")
unfolding validate
unlocked-refused = refl

-- The temporary path of an action is its staged sibling and no other path.
abbrev misplaced : TransactionJournal
misplaced = record journal { actions = record link { temporary_path = some project } ∷ [] }

misplaced-refused : validate sha seen schema_version misplaced ≡ err (not_staged_sibling 1 staging)
unfolding validate check_actions check_action check_kind_and_contents staged_sibling to_resource
    check_authority require_mutation_authority require_exact_mutation_authority
    authorizes_mutation_of authorizes_exact_mutation_of describe_shared logical_key key_digest
    logical_path join parent strip_root path_eq components key_starts_with lexical_normalize
    satisfies creates_entry to_string split os_bytes hex is_prefix components_eq normalize_from
    push_component be_bytes nibble lock_resources dedup dedup_after sort_resources insert_resource
    sorts_before same_lock less_components less_text
misplaced-refused = refl

small_document : length (render_document sha unix (to_lines journal)) ≤ max_journal_bytes
unfolding render_document render_document_with_schema render_body render_header checksum to_lines
    header_line paths_line source_line lock_line action_line error_line render encode_text
    encode_path encode_os encode_bytes hex nibble to_string os_bytes push push_optional new
small_document = omega arith

read_journal-to_lines_example : read_journal sha seen (to_lines journal) schema_version ≡ ok journal
read_journal-to_lines_example =
    read_journal-to_lines sha seen schema_version journal (inl refl) journal-IsJournal journal-valid

load-render_example : load sha seen (render_document sha unix (to_lines journal)) ≡ ok journal
load-render_example =
    load-render sha seen journal journal-IsJournal journal-valid few_lines small_document
