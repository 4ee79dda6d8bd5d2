-- ===== src/Journal/Status.antt =====
-- src/journal/mod.rs, src/lock/mod.rs and src/domain.rs: the enumerations of a journal, and their labels.
pub mod Labels
use skillmount.Prelude.{
  ℕ, Bool, true, false, not, ◌&&◌, Option, none, some, if◌then◌else◌, ◌≡◌, refl, ◌⊎◌, inl, inr,
}
use skillmount.Text.{Str, lit, ◌===◌}
use skillmount.Mount.Action.{CleanupDisposition, required, best_effort, not_owned}

pub data TransactionStatus : Type 0 where
  planned applying active supervising cleaning completed kept failed : TransactionStatus

pub data ActionStatus : Type 0 where
  planned intent staged applied reused rolled_back : ActionStatus

pub data ActionOperation : Type 0 where
  create_directory create_config_file create_directory_link reuse_existing_link : ActionOperation

pub data RecordedKind : Type 0 where
  file directory symlink junction undecided : RecordedKind

pub data AgentId : Type 0 where
  codex claude omp : AgentId

pub data LockResourceKind : Type 0 where
  discovery_entry backing_store : LockResourceKind

pub data LockAccess : Type 0 where
  observe mutate : LockAccess

abbrev pub transaction_label : TransactionStatus → Str
transaction_label TransactionStatus.planned = lit "planned"
transaction_label applying = lit "applying"
transaction_label active = lit "active"
transaction_label supervising = lit "supervising"
transaction_label cleaning = lit "cleaning"
transaction_label completed = lit "completed"
transaction_label kept = lit "kept"
transaction_label failed = lit "failed"

unfoldable pub parse_transaction : Str → Option TransactionStatus
parse_transaction label =
    if label === lit "planned"
    then some TransactionStatus.planned
    else if label === lit "applying"
    then some applying
    else if label === lit "active"
    then some active
    else if label === lit "supervising"
    then some supervising
    else if label === lit "cleaning"
    then some cleaning
    else if label === lit "completed"
    then some completed
    else if label === lit "kept"
    then some kept
    else if label === lit "failed"
    then some failed
    else none

unfoldable pub is_terminal : TransactionStatus → Bool
is_terminal completed = true
is_terminal kept = true
is_terminal _ = false

unfoldable pub is_incomplete : TransactionStatus → Bool
unfolding is_terminal
is_incomplete s = not (is_terminal s)

abbrev is_supervising : TransactionStatus → Bool
is_supervising supervising = true
is_supervising _ = false

unfoldable pub is_automatically_recoverable : TransactionStatus → Bool
unfolding is_incomplete
is_automatically_recoverable s = is_incomplete s && not (is_supervising s)

abbrev pub action_label : ActionStatus → Str
action_label ActionStatus.planned = lit "planned"
action_label intent = lit "intent"
action_label staged = lit "staged"
action_label applied = lit "applied"
action_label reused = lit "reused"
action_label rolled_back = lit "rolled_back"

unfoldable pub parse_action : Str → Option ActionStatus
parse_action label =
    if label === lit "planned"
    then some ActionStatus.planned
    else if label === lit "intent"
    then some intent
    else if label === lit "staged"
    then some staged
    else if label === lit "applied"
    then some applied
    else if label === lit "reused"
    then some reused
    else if label === lit "rolled_back"
    then some rolled_back
    else none

unfoldable pub may_have_created_something : ActionStatus → Bool
may_have_created_something intent = true
may_have_created_something staged = true
may_have_created_something applied = true
may_have_created_something _ = false

abbrev pub operation_label : ActionOperation → Str
operation_label create_directory = lit "mkdir"
operation_label create_config_file = lit "config"
operation_label create_directory_link = lit "link"
operation_label reuse_existing_link = lit "reuse"

unfoldable pub parse_operation : Str → Option ActionOperation
parse_operation label =
    if label === lit "mkdir"
    then some create_directory
    else if label === lit "config"
    then some create_config_file
    else if label === lit "link"
    then some create_directory_link
    else if label === lit "reuse"
    then some reuse_existing_link
    else none

unfoldable pub creates_entry : ActionOperation → Bool
creates_entry create_directory = true
creates_entry create_directory_link = true
creates_entry create_config_file = true
creates_entry reuse_existing_link = false

unfoldable pub cleanup_disposition : ActionOperation → CleanupDisposition
cleanup_disposition create_directory_link = required
cleanup_disposition create_config_file = required
cleanup_disposition create_directory = best_effort
cleanup_disposition reuse_existing_link = not_owned

abbrev pub kind_label : RecordedKind → Str
kind_label directory = lit "directory"
kind_label file = lit "file"
kind_label symlink = lit "symlink"
kind_label junction = lit "junction"
kind_label undecided = lit "undecided"

unfoldable pub parse_kind : Str → Option RecordedKind
parse_kind label =
    if label === lit "directory"
    then some directory
    else if label === lit "file"
    then some file
    else if label === lit "symlink"
    then some symlink
    else if label === lit "junction"
    then some junction
    else if label === lit "undecided"
    then some undecided
    else none

abbrev pub agent_label : AgentId → Str
agent_label codex = lit "codex"
agent_label claude = lit "claude"
agent_label omp = lit "omp"

-- The first of `AgentId::ALL` with that label.
unfoldable pub parse_agent : Str → Option AgentId
parse_agent label =
    if agent_label codex === label
    then some codex
    else if agent_label claude === label
    then some claude
    else if agent_label omp === label
    then some omp
    else none

abbrev pub resource_label : LockResourceKind → Str
resource_label discovery_entry = lit "discovery-entry"
resource_label backing_store = lit "backing-store"

unfoldable pub parse_resource : Str → Option LockResourceKind
parse_resource label =
    if label === lit "discovery-entry"
    then some discovery_entry
    else if label === lit "backing-store"
    then some backing_store
    else none

abbrev pub access_label : LockAccess → Str
access_label observe = lit "observe"
access_label mutate = lit "mutate"

unfoldable pub parse_access : Str → Option LockAccess
parse_access label =
    if label === lit "observe"
    then some observe
    else if label === lit "mutate"
    then some mutate
    else none

abbrev pub same_resource : LockResourceKind → LockResourceKind → Bool
same_resource discovery_entry discovery_entry = true
same_resource backing_store backing_store = true
same_resource _ _ = false

unfoldable pub satisfies : LockAccess → LockAccess → Bool
satisfies observe observe = true
satisfies observe mutate = false
satisfies mutate needed = true
