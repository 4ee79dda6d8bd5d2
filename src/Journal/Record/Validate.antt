-- ===== src/Journal/Record/Validate.antt =====
-- src/journal/mod.rs, `validate` with its helpers, `lock_resources` and `staged_sibling`: the journals that cannot
-- be acted on safely are refused.
use skillmount.Prelude.{
  ℕ, ◌==◌, Bool, true, false, not, ◌&&◌, leb, any, length, List, [], ◌∷◌, ◌++◌, map, filter, Option,
  none, some, Result, ok, ◌>>◌, guard, if◌then◌else◌, String,
}
use skillmount.Text.{Str, lit, to_string}
use skillmount.FilePath.{FilePath, parent, join, path_eq}
use skillmount.Link.Outcome.{max_config_bytes}
use skillmount.Journal.Codec.Document.{Sha256, schema_version, legacy_schema_version}
use skillmount.Journal.Status.{
  ActionStatus, reused, ActionOperation, create_directory, create_config_file,
  create_directory_link, reuse_existing_link, RecordedKind, LockResourceKind, mutate, satisfies,
  creates_entry, same_resource,
}
use skillmount.Lock.{Observed, LockResource, authorizes_mutation_of, authorizes_exact_mutation_of}
use skillmount.Lock.Order.{dedup, sort_resources}
use skillmount.Journal.Record.{JournalAction, JournalLock, TransactionJournal}

-- The messages of the source, as far as they differ.
pub data ReadError : Type 0 where
  unsupported_schema : ℕ → ReadError
  no_record repeated_record unknown_record : Str → ReadError
  no_field undecodable : (record_name key : Str) → ReadError
  not_a_boolean : Str → ReadError
  wrong_kind : ActionOperation → RecordedKind → ReadError
  not_staged_sibling : (id : ℕ) (expected : FilePath) → ReadError
  no_authority no_exact_authority : (description : Str) (path : FilePath) → ReadError
  illegal : String → ReadError

abbrev pub Reading : Type 0 → Type 0
Reading A = Result ReadError A

abbrev parent_or_empty : Option FilePath → FilePath
parent_or_empty none = []
parent_or_empty (some directory) = directory

unfoldable pub staged_sibling : Str → ℕ → FilePath → FilePath
staged_sibling transaction_id action_id final_path =
    join (parent_or_empty (parent final_path))
      (lit ".skillmount-" ++ (transaction_id ++ (lit "-" ++ (to_string action_id ++ lit ".tmp"))))

unfoldable pub to_resource : JournalLock → LockResource
to_resource l = record {
  kind = l.kind;
  access = l.access;
  path = l.path;
  identity = record { anchor = l.anchor; suffix = l.suffix; physical = l.physical };
}

unfoldable pub lock_resources : TransactionJournal → List LockResource
lock_resources j = dedup (sort_resources (map to_resource j.locks))

abbrev is_config : ActionOperation → Bool
is_config create_config_file = true
is_config _ = false

abbrev is_link : ActionOperation → Bool
is_link create_directory_link = true
is_link _ = false

abbrev is_reuse : ActionOperation → Bool
is_reuse reuse_existing_link = true
is_reuse _ = false

abbrev is_reused : ActionStatus → Bool
is_reused reused = true
is_reused _ = false

abbrev is_none : {A : Type 0} → Option A → Bool
is_none none = true
is_none (some a) = false

abbrev valid_kind : ActionOperation → RecordedKind → Bool
valid_kind create_directory RecordedKind.directory = true
valid_kind create_config_file RecordedKind.file = true
valid_kind create_directory_link RecordedKind.undecided = true
valid_kind create_directory_link RecordedKind.symlink = true
valid_kind create_directory_link RecordedKind.junction = true
valid_kind reuse_existing_link RecordedKind.undecided = true
valid_kind _ _ = false

abbrev valid_contents : JournalAction → Option Str → Bool
valid_contents a (some contents) =
    is_config a.operation
    && (leb (length contents) max_config_bytes
        && (is_none a.source_canonical && is_none a.link_target))
valid_contents a none = not (is_config a.operation)

-- `validate_action_kind_and_config_evidence`.
unfoldable pub check_kind_and_contents : JournalAction → Reading (Unit {0})
check_kind_and_contents a = do
  guard (valid_kind a.operation a.kind) (wrong_kind a.operation a.kind)
  guard (valid_contents a a.config_contents)
      (illegal "configuration action has invalid content evidence")

abbrev is_path : FilePath → Option FilePath → Bool
is_path expected none = false
is_path expected (some found) = path_eq found expected

abbrev pub check_temporary : Str → JournalAction → Reading (Unit {0})
check_temporary transaction_id a =
    let expected = staged_sibling transaction_id a.id a.final_path in
    if creates_entry a.operation
    then guard (is_path expected a.temporary_path) (not_staged_sibling a.id expected)
    else guard (is_none a.temporary_path) (illegal "a reuse action cannot record a temporary path")

-- The body of the loop over the actions; `previous` is the id before this one.
unfoldable pub check_action : ℕ → Str → ℕ → JournalAction → Reading (Unit {0})
check_action version transaction_id previous a = do
  guard (not (leb a.id previous)) (illegal "action ids must be unique and ascending")
  guard (not (version == legacy_schema_version && is_config a.operation))
      (illegal "configuration files require schema two mutation authority")
  check_kind_and_contents a
  guard (not (is_reuse a.operation && not (is_reused a.status)))
      (illegal "a reuse action may only carry the reused status")
  guard (not (not (is_reuse a.operation) && is_reused a.status))
      (illegal "only a reuse action may carry the reused status")
  guard (not (is_link a.operation && is_none a.source_canonical))
      (illegal "a link action must record its canonical source")
  check_temporary transaction_id a

unfoldable pub check_actions : ℕ → Str → ℕ → List JournalAction → Reading (Unit {0})
check_actions version transaction_id previous [] = ok tt
check_actions version transaction_id previous (a ∷ rest) =
    check_action version transaction_id previous a >> check_actions version transaction_id a.id rest

abbrev of_kind : Option LockResourceKind → LockResource → Bool
of_kind none resource = true
of_kind (some required) resource = same_resource resource.kind required

module _ (sha : Sha256) (seen : Observed) where
  unfoldable pub require_mutation_authority :
      List LockResource → FilePath → Option LockResourceKind → Str → Reading (Unit {0})
  require_mutation_authority resources path kind description =
      guard
        (any (λ resource. of_kind kind resource && authorizes_mutation_of seen resource path)
          resources)
        (no_authority description path)

  unfoldable pub require_exact_mutation_authority :
      List LockResource → FilePath → LockResourceKind → Str → Reading (Unit {0})
  require_exact_mutation_authority resources path kind description =
      guard
        (any
          (λ resource.
            same_resource resource.kind kind && authorizes_exact_mutation_of sha seen resource path)
          resources)
        (no_exact_authority description path)

  -- The actions were checked to have a temporary path, for which the source has an `expect`.
  abbrev pub check_temporary_authority :
      ℕ → List LockResource → JournalAction → Option FilePath → Reading (Unit {0})
  check_temporary_authority version resources a none = ok tt
  check_temporary_authority version resources a (some temporary) =
      if version == schema_version
      then require_exact_mutation_authority resources temporary LockResourceKind.discovery_entry
          (lit "action " ++ (to_string a.id ++ lit " temporary path"))
      else ok tt

  unfoldable pub check_authority : ℕ → List LockResource → List JournalAction → Reading (Unit {0})
  check_authority version resources [] = ok tt
  check_authority version resources (a ∷ rest) =
      check_temporary_authority version resources a a.temporary_path
      >> (require_mutation_authority resources a.final_path none
            (lit "action " ++ (to_string a.id ++ lit " final path"))
          >> check_authority version resources rest)

  unfoldable pub validate : ℕ → TransactionJournal → Reading (Unit {0})
  validate version j = do
    guard (not (length j.locks == 0))
        (illegal "a mutating transaction must record at least one resource lock")
    guard (any (λ (resource : LockResource). satisfies resource.access mutate) (lock_resources j))
        (illegal "a mutating transaction must record at least one resource lock with mutate access")
    check_actions version j.transaction_id 0 j.actions
    require_mutation_authority (lock_resources j) j.discovery_entry
        (some LockResourceKind.discovery_entry) (lit "discovery entry")
    require_mutation_authority (lock_resources j) j.backing_store
        (some LockResourceKind.backing_store) (lit "backing store")
    check_authority version (lock_resources j)
        (filter (λ (a : JournalAction). creates_entry a.operation) j.actions)
