-- ===== src/Journal/Record/Read.antt =====
-- src/journal/mod.rs, `from_lines`, and `load` of src/journal/store.rs: a journal is rebuilt from its lines, on
-- Unix.
use skillmount.Prelude.{
  ℕ, ◌-◌, ◌^◌, Bool, true, false, ◌||◌, List, [], ◌∷◌, ◌++◌, ◌==◌, Option, none, some, Result, ok,
  err, ◌>>=◌, ◌>>◌, ok_or, guard, if◌then◌else◌, filter, String, ◌*◌, ltb, length,
}
use skillmount.Text.{Str, lit, parse_uint, ◌===◌}
use skillmount.Native.{unix}
use skillmount.FilePath.{FilePath}
use skillmount.Mount.Action.{parse_precondition, u32_max}
use skillmount.Journal.Codec.Token.{decode_text, decode_path}
use skillmount.Journal.Codec.Line.{Line, field}
use skillmount.Journal.Codec.Document.{
  Sha256, DecodeError, unsupported_version, parse_document, schema_version, legacy_schema_version,
}
use skillmount.Journal.Status.{
  LockAccess, mutate, parse_transaction, parse_action, parse_operation, parse_kind, parse_agent,
  parse_resource, parse_access,
}
use skillmount.Journal.Record.Validate.{
  Reading, ReadError, unsupported_schema, no_record, repeated_record, unknown_record, no_field,
  undecodable, not_a_boolean, illegal, validate,
}
use skillmount.Lock.{Observed}
use skillmount.Journal.Record.{
  SourceResolution, JournalAction, JournalLock, TransactionJournal, parse_id,
}

abbrev pub usize_max : ℕ
usize_max = 2 ^ 64 - 1

abbrev decoded : {A : Type 0} → (Str → Option A) → ReadError → Option Str → Reading (Option A)
decoded decode e none = ok none
decoded decode e (some token) = ok_or e (decode token) >>= λ a. ok (some a)

unfoldable pub optional_text : Line → Str → Reading (Option Str)
optional_text line key = decoded decode_text (undecodable line.record_name key) (field key line)

unfoldable pub text : Line → Str → Reading Str
unfolding optional_text
text line key = optional_text line key >>= ok_or (no_field line.record_name key)

unfoldable pub optional_path : Line → Str → Reading (Option FilePath)
optional_path line key =
    decoded (decode_path unix) (undecodable line.record_name key) (field key line)

unfoldable pub path : Line → Str → Reading FilePath
unfolding optional_path
path line key = optional_path line key >>= ok_or (no_field line.record_name key)

unfoldable pub boolean : Str → Reading Bool
boolean value =
    if value === lit "true"
    then ok true
    else if value === lit "false"
    then ok false
    else err (not_a_boolean value)

the_only : Str → List Line → Reading Line
the_only name [] = err (no_record name)
the_only name (line ∷ []) = ok line
the_only name (line ∷ other ∷ more) = err (repeated_record name)

unfoldable pub require_one : List Line → Str → Reading Line
unfolding the_only
require_one ls name = the_only name (filter (λ (l : Line). l.record_name === name) ls)

-- `parse(&text(line, key)?).ok_or_else(message)?`
unfoldable pub parsed : {A : Type 0} → (Str → Option A) → String → Line → Str → Reading A
parsed parse message line key = text line key >>= λ s. ok_or (illegal message) (parse s)

-- The journal of the `transaction` and the `paths` record, with nothing in its lists.
unfoldable pub read_header : Line → Line → Reading TransactionJournal
read_header header paths = do
  id ← parsed parse_id "the transaction id is not a legal identifier" header (lit "id")
  agent ← parsed parse_agent "unknown agent" header (lit "agent")
  pid ← parsed (parse_uint u32_max) "the owner pid is not a number" header (lit "pid")
  status ← parsed parse_transaction "unknown transaction status" header (lit "status")
  keep ← text header (lit "keep_mounts") >>= boolean
  root ← path paths (lit "project_root")
  cwd ← path paths (lit "launch_cwd")
  entry ← path paths (lit "discovery_entry")
  store ← path paths (lit "backing_store")
  ok (record {
    transaction_id = id;
    agent = agent;
    owner_pid = pid;
    status = status;
    project_root = root;
    launch_cwd = cwd;
    discovery_entry = entry;
    backing_store = store;
    keep_mounts = keep;
    sources = [];
    locks = [];
    actions = [];
    errors = [];
  })

unfoldable pub read_source : Line → Reading SourceResolution
read_source line = do
  name ← text line (lit "name")
  ordinal ← parsed (parse_uint usize_max) "a source ordinal is not a number" line (lit "ordinal")
  entry ← path line (lit "entry")
  canonical ← path line (lit "canonical")
  ok (record {
    mount_name = name;
    source_ordinal = ordinal;
    source_entry = entry;
    source_canonical = canonical;
  })

-- A lock of the legacy schema was always held to mutate.
unfoldable pub read_access : ℕ → Line → Reading LockAccess
read_access version line =
    if version == legacy_schema_version
    then ok mutate
    else parsed parse_access "unknown lock access" line (lit "access")

unfoldable pub read_lock : ℕ → Line → Reading JournalLock
read_lock version line = do
  kind ← parsed parse_resource "unknown lock resource kind" line (lit "kind")
  access ← read_access version line
  resource ← path line (lit "path")
  anchor ← path line (lit "anchor")
  suffix ← path line (lit "suffix")
  physical ← optional_text line (lit "physical")
  ok (record {
    kind = kind;
    access = access;
    path = resource;
    anchor = anchor;
    suffix = suffix;
    physical = physical;
  })

unfoldable pub read_action : Line → Reading JournalAction
read_action line = do
  contents ← optional_text line (lit "contents")
  id ← parsed (parse_uint u32_max) "an action id is not a number" line (lit "id")
  operation ← parsed parse_operation "unknown action operation" line (lit "op")
  precondition ← parsed parse_precondition "unknown action precondition" line (lit "precondition")
  kind ← parsed parse_kind "unknown action entry kind" line (lit "kind")
  status ← parsed parse_action "unknown action status" line (lit "status")
  final ← path line (lit "final")
  temporary ← optional_path line (lit "temp")
  source ← optional_path line (lit "source")
  target ← optional_path line (lit "target")
  identity ← optional_text line (lit "identity")
  ok (record {
    config_contents = contents;
    id = id;
    operation = operation;
    expected_precondition = precondition;
    temporary_path = temporary;
    final_path = final;
    source_canonical = source;
    link_target = target;
    kind = kind;
    status = status;
    identity = identity;
  })

-- The body of the loop: the line's record is added to the list of its name.
unfoldable pub read_line : ℕ → TransactionJournal → Line → Reading TransactionJournal
read_line version j line =
    if line.record_name === lit "transaction" || line.record_name === lit "paths"
    then ok j
    else if line.record_name === lit "source"
    then (read_source line >>= λ s. ok (record j { sources = j.sources ++ s ∷ [] }))
    else if line.record_name === lit "lock"
    then (read_lock version line >>= λ l. ok (record j { locks = j.locks ++ l ∷ [] }))
    else if line.record_name === lit "action"
    then (read_action line >>= λ a. ok (record j { actions = j.actions ++ a ∷ [] }))
    else if line.record_name === lit "error"
    then (text line (lit "text") >>= λ e. ok (record j { errors = j.errors ++ e ∷ [] }))
    else err (unknown_record line.record_name)

unfoldable pub read_body : ℕ → TransactionJournal → List Line → Reading TransactionJournal
read_body version j [] = ok j
read_body version j (line ∷ rest) = read_line version j line >>= λ j'. read_body version j' rest

-- The part of `from_lines` before its call of `validate`.
unfoldable pub read_records : List Line → ℕ → Reading TransactionJournal
read_records ls version = do
  guard (version == legacy_schema_version || version == schema_version) (unsupported_schema version)
  header ← require_one ls (lit "transaction")
  paths ← require_one ls (lit "paths")
  journal ← read_header header paths
  read_body version journal ls

-- `from_lines`.
unfoldable pub read_journal : Sha256 → Observed → List Line → ℕ → Reading TransactionJournal
read_journal sha seen ls version = do
  journal ← read_records ls version
  validate sha seen version journal
  ok journal

-- The causes of the source's errors.
pub data JournalError : Type 0 where
  too_large : JournalError
  bad_version : Str → JournalError
  bad_document : DecodeError → JournalError
  bad_journal : ReadError → JournalError

abbrev document_error : DecodeError → JournalError
document_error (unsupported_version found) = bad_version found
document_error other = bad_document other

-- `decode` of src/journal/store.rs.
unfoldable pub decode : Sha256 → Observed → Str → Result JournalError TransactionJournal
decode sha seen document = elim (parse_document sha unix document) [
  | err e ↦ err (document_error e)
  | ok found ↦ elim (read_journal sha seen found.body found.schema) [
    | err e ↦ err (bad_journal e)
    | ok journal ↦ ok journal
  ]
]

abbrev pub max_journal_bytes : ℕ
max_journal_bytes = 4 * 1024 * 1024

-- `read_opened_bounded`, of a file with these contents that can be read.
unfoldable pub read_bounded : Str → Result JournalError Str
read_bounded contents =
    if ltb max_journal_bytes (length contents) then err too_large else ok contents

-- `load`, of a file with these contents that can be read.
unfoldable pub load : Sha256 → Observed → Str → Result JournalError TransactionJournal
load sha seen contents = read_bounded contents >>= decode sha seen
