-- ===== src/Journal/Record.antt =====
-- src/journal/mod.rs: the records of a journal, and the lines that they are written as, on Unix.
pub mod Validate
pub mod Authority
pub mod Read
pub mod RoundTrip
pub mod Fields
pub mod Each
pub mod Header
pub mod File
use skillmount.Prelude.{
  ℕ, ◌≤◌, ◌&&◌, ◌||◌, Bool, true, false, not, all, length, leb, ◌==◌, List, [], ◌∷◌, ◌++◌, map,
  Option, none, some, if◌then◌else◌, filter,
}
use mathlib.Core.List.{reverse}
use skillmount.Text.{Str, lit, to_string, ◌===◌}
use skillmount.Native.{unix}
use skillmount.FilePath.{FilePath, path_eq}
use skillmount.Mount.Action.{PathPrecondition, precondition_label}
use skillmount.Journal.Codec.Token.{encode_text, encode_path}
use skillmount.Journal.Codec.Line.{Line, new, push, push_optional}
use skillmount.Journal.Status.{
  TransactionStatus, ActionStatus, intent, staged, ActionOperation, RecordedKind, AgentId,
  LockResourceKind, LockAccess, transaction_label, action_label, operation_label, kind_label,
  agent_label, resource_label, access_label, creates_entry, may_have_created_something,
}

pub record SourceResolution : Type 0 where
  pub mount_name : Str
  pub source_ordinal : ℕ
  pub source_entry : FilePath
  pub source_canonical : FilePath

pub record JournalAction : Type 0 where
  pub config_contents : Option Str
  pub id : ℕ
  pub operation : ActionOperation
  pub expected_precondition : PathPrecondition
  pub temporary_path : Option FilePath
  pub final_path : FilePath
  pub source_canonical : Option FilePath
  pub link_target : Option FilePath
  pub kind : RecordedKind
  pub status : ActionStatus
  pub identity : Option Str

pub record JournalLock : Type 0 where
  pub kind : LockResourceKind
  pub access : LockAccess
  pub path : FilePath
  pub anchor : FilePath
  pub suffix : FilePath
  pub physical : Option Str

pub record TransactionJournal : Type 0 where
  pub transaction_id : Str
  pub agent : AgentId
  pub owner_pid : ℕ
  pub status : TransactionStatus
  pub project_root : FilePath
  pub launch_cwd : FilePath
  pub discovery_entry : FilePath
  pub backing_store : FilePath
  pub keep_mounts : Bool
  pub sources : List SourceResolution
  pub locks : List JournalLock
  pub actions : List JournalAction
  pub errors : List Str

is_hex_or_hyphen : ℕ → Bool
is_hex_or_hyphen byte =
    (leb b'0' byte && leb byte b'9')
    || (leb b'a' byte && leb byte b'f')
    || (leb b'A' byte && leb byte b'F')
    || byte == 45

is_blank : Str → Bool
is_blank [] = true
is_blank (c ∷ s) = false

-- `TransactionId::parse`.
unfoldable pub parse_id : Str → Option Str
unfolding is_hex_or_hyphen is_blank
parse_id value =
    if not (is_blank value) && (leb (length value) 128 && all is_hex_or_hyphen value)
    then some value
    else none

path_by_status : ActionStatus → Option FilePath → FilePath → FilePath
path_by_status intent (some temporary) final = temporary
path_by_status staged (some temporary) final = temporary
path_by_status _ temporary final = final

unfoldable pub current_path : JournalAction → FilePath
unfolding path_by_status
current_path a = path_by_status a.status a.temporary_path a.final_path

unfoldable pub candidate_paths : JournalAction → List FilePath
candidate_paths a = elim a.temporary_path [
  | none ↦ a.final_path ∷ []
  | some temporary ↦
      if path_eq temporary a.final_path then temporary ∷ [] else temporary ∷ a.final_path ∷ []
]

-- `cleanup_candidates`: newest first.
unfoldable pub cleanup_candidates : TransactionJournal → List JournalAction
cleanup_candidates j =
    filter (λ a. creates_entry a.operation && may_have_created_something a.status)
      (reverse j.actions)

abbrev pub bool_label : Bool → Str
bool_label true = lit "true"
bool_label false = lit "false"

abbrev encode_option : (Str → Str) → Option Str → Option Str
encode_option f none = none
encode_option f (some s) = some (f s)

abbrev pub text_token : Option Str → Option Str
text_token = encode_option encode_text

abbrev pub path_token : Option FilePath → Option Str
path_token = encode_option (encode_path unix)

unfoldable pub header_line : TransactionJournal → Line
header_line j = push (lit "keep_mounts") (encode_text (bool_label j.keep_mounts)) (
    push (lit "pid") (encode_text (to_string j.owner_pid)) (
      push (lit "status") (encode_text (transaction_label j.status)) (
        push (lit "agent") (encode_text (agent_label j.agent))
          (push (lit "id") (encode_text j.transaction_id) (new (lit "transaction"))))))

unfoldable pub paths_line : TransactionJournal → Line
paths_line j = push (lit "backing_store") (encode_path unix j.backing_store) (
    push (lit "discovery_entry") (encode_path unix j.discovery_entry) (
      push (lit "launch_cwd") (encode_path unix j.launch_cwd)
        (push (lit "project_root") (encode_path unix j.project_root) (new (lit "paths")))))

unfoldable pub source_line : SourceResolution → Line
source_line s = push (lit "canonical") (encode_path unix s.source_canonical) (
    push (lit "entry") (encode_path unix s.source_entry) (
      push (lit "ordinal") (encode_text (to_string s.source_ordinal))
        (push (lit "name") (encode_text s.mount_name) (new (lit "source")))))

unfoldable pub lock_line : JournalLock → Line
lock_line l = push_optional (lit "physical") (text_token l.physical) (
    push (lit "suffix") (encode_path unix l.suffix) (
      push (lit "anchor") (encode_path unix l.anchor) (
        push (lit "path") (encode_path unix l.path) (
          push (lit "access") (encode_text (access_label l.access))
            (push (lit "kind") (encode_text (resource_label l.kind)) (new (lit "lock")))))))

unfoldable pub action_line : JournalAction → Line
action_line a = push_optional (lit "identity") (text_token a.identity) (
    push_optional (lit "target") (path_token a.link_target) (
      push_optional (lit "source") (path_token a.source_canonical) (
        push_optional (lit "temp") (path_token a.temporary_path) (
          push_optional (lit "contents") (text_token a.config_contents) (
            push (lit "final") (encode_path unix a.final_path) (
              push (lit "status") (encode_text (action_label a.status)) (
                push (lit "kind") (encode_text (kind_label a.kind)) (
                  push (lit "precondition")
                    (encode_text (precondition_label a.expected_precondition))
                    (push (lit "op") (encode_text (operation_label a.operation))
                      (push (lit "id") (encode_text (to_string a.id)) (new (lit "action"))))))))))))

unfoldable pub error_line : Str → Line
error_line error = push (lit "text") (encode_text error) (new (lit "error"))

unfoldable pub to_lines : TransactionJournal → List Line
to_lines j =
    header_line j
    ∷ paths_line j
    ∷ (map source_line j.sources
        ++ (map lock_line j.locks ++ (map action_line j.actions ++ map error_line j.errors)))
