-- ===== src/Transaction/Staging.antt =====
-- src/transaction/apply.rs: one entry, from its intent to the final path.
pub mod Spares
use skillmount.Prelude.{
  ℕ, zero, suc, ◌+◌, Bool, true, false, not, ◌&&◌, List, [], ◌∷◌, ◌++◌, length, Option, none, some,
  Result, ok, err, ok_or, carry, if◌then◌else◌,
}
use skillmount.Text.{Str, lit}
use skillmount.FilePath.{FilePath, path_eq}
use skillmount.Mount.Action.{PathPrecondition, missing, existing_link_to_source, LinkMode}
use skillmount.Journal.Status.{
  TransactionStatus, ActionStatus, ActionOperation, create_directory, create_config_file,
  create_directory_link, reuse_existing_link, RecordedKind,
}
use skillmount.Journal.Record.{TransactionJournal, JournalAction}
use skillmount.Link.{
  EntryKind, CreatedLinkKind, PathEntry, LinkError, CreatedLink, OwnedDirectory, OwnedConfigFile,
  PlacementResidue, PlacementOutcome, placed, destination_exists, misplaced,
}
use skillmount.Link.Label.{entry_label, placement_label}
use skillmount.Link.Outcome.{map_error}
use skillmount.Transaction.{
  AppError, link_failed, internal, drift, RetainedEntry, Environment, Transaction, save, advance,
}

pub data Staged : Type 0 where
  link : CreatedLink → Staged
  directory : OwnedDirectory → Staged
  config_file : OwnedConfigFile → Staged

abbrev pub staged_identity : Staged → Option Str
staged_identity (link l) = l.identity
staged_identity (directory d) = d.identity
staged_identity (config_file f) = f.identity

abbrev pub requested_mode : RecordedKind → LinkMode
requested_mode RecordedKind.symlink = LinkMode.symlink
requested_mode RecordedKind.junction = LinkMode.junction
requested_mode RecordedKind.directory = LinkMode.auto
requested_mode RecordedKind.file = LinkMode.auto
requested_mode RecordedKind.undecided = LinkMode.auto

-- `From<CreatedLinkKind> for RecordedKind` of src/journal/mod.rs.
abbrev pub recorded_kind : CreatedLinkKind → RecordedKind
recorded_kind CreatedLinkKind.symlink = RecordedKind.symlink
recorded_kind CreatedLinkKind.junction = RecordedKind.junction

-- `actions[index]`.
unfoldable pub action_at : ℕ → List JournalAction → Option JournalAction
action_at index [] = none
action_at zero (a ∷ actions) = some a
action_at (suc index) (a ∷ actions) = action_at index actions

unfoldable pub change_at :
    ℕ → (JournalAction → JournalAction) → List JournalAction → List JournalAction
change_at index f [] = []
change_at zero f (a ∷ actions) = f a ∷ actions
change_at (suc index) f (a ∷ actions) = a ∷ change_at index f actions

abbrev pub with_status : ActionStatus → JournalAction → JournalAction
with_status status a = record a { status = status }

-- What a created entry is recorded with.
abbrev pub record_staged : Staged → JournalAction → JournalAction
record_staged (link l) a = record a {
  identity = l.identity;
  kind = recorded_kind l.kind;
  link_target = some l.target;
}
record_staged (directory d) a = record a { identity = d.identity; kind = RecordedKind.directory }
record_staged (config_file f) a = record a { identity = f.identity; kind = RecordedKind.file }

-- What a placed entry is recorded with.
abbrev pub record_placed : Staged → JournalAction → JournalAction
record_placed (link l) a = record a {
  identity = l.identity;
  kind = recorded_kind l.kind;
  link_target = some l.target;
  status = ActionStatus.applied;
}
record_placed (directory d) a = record a { identity = d.identity; status = ActionStatus.applied }
record_placed (config_file f) a = record a { identity = f.identity; status = ActionStatus.applied }

abbrev is_missing : EntryKind → Bool
is_missing EntryKind.missing = true
is_missing _ = false

module _ (env : Environment) where
  abbrev pub Applied : Type 0 → Type 0
  Applied A = Result AppError A × Transaction env

  -- A call of the backend, with the world it leaves.
  unfoldable pub call :
      {A B : Type 0}
      → (env.backend.World → Result LinkError A × env.backend.World)
      → Transaction env
      → (A → Transaction env → Applied B)
      → Applied B
  call f t next =
      let (result, w) = f t.world in
      carry (map_error link_failed result) (record t { world = w }) next

  unfoldable pub change : ℕ → (JournalAction → JournalAction) → Transaction env → Transaction env
  change index f t = record t {
    journal = record t.journal { actions = change_at index f t.journal.actions };
  }

  -- The status of an action is changed and persisted before anything else is done.
  unfoldable pub enter : ℕ → ActionStatus → Transaction env → Applied (Unit {0})
  unfolding change
  enter index status t = save env (change index (with_status status) t)

  abbrev pub check_missing : FilePath → Transaction env → Applied (Unit {0})
  check_missing path t =
      carry (map_error link_failed (env.backend.inspect_no_follow t.world path)) t (λ live t. (
        if is_missing live.kind
            then ok tt
            else err (
                drift path (
                  lit "a "
                  ++ (entry_label live.kind
                      ++ lit " now occupies a destination the plan expected to be missing"))),
        t,
      ))

  unfoldable pub check_precondition :
      PathPrecondition → FilePath → Transaction env → Applied (Unit {0})
  check_precondition existing_link_to_source path t = (ok tt, t)
  check_precondition missing path t = check_missing path t

  -- What is created is recorded in the journal in memory, and persisted with the next status.
  unfoldable pub staged_as : ℕ → Staged → Transaction env → Applied Staged
  unfolding change
  staged_as index staged t = (ok staged, change index (record_staged staged) t)

  unfoldable pub stage_file : ℕ → Option Str → FilePath → Transaction env → Applied Staged
  unfolding call staged_as
  stage_file index none temporary t =
      (err (internal (lit "configuration action lacks contents")), t)
  stage_file index (some contents) temporary t =
      call (env.backend.create_config_file temporary contents) t
        (λ created t. staged_as index (config_file created) t)

  unfoldable pub stage_link :
      ℕ → Option FilePath → RecordedKind → FilePath → Transaction env → Applied Staged
  unfolding call staged_as
  stage_link index none kind temporary t =
      (err (internal (lit "a link action must record its source")), t)
  stage_link index (some source) kind temporary t =
      call
        (env.backend.create_directory_link
          (record { source = source; staged_path = temporary; mode = requested_mode kind }))
        t (λ created t. staged_as index (link created) t)

  -- `create_staged`, by the operation of the action.
  unfoldable pub stage :
      ActionOperation → ℕ → JournalAction → FilePath → Transaction env → Applied Staged
  unfolding call staged_as stage_file stage_link
  stage create_config_file index a temporary t = stage_file index a.config_contents temporary t
  stage create_directory index a temporary t =
      call (env.backend.create_directory temporary) t
        (λ created t. staged_as index (directory created) t)
  stage create_directory_link index a temporary t =
      stage_link index a.source_canonical a.kind temporary t
  stage reuse_existing_link index a temporary t =
      (err (internal (lit "a reuse action never creates anything")), t)

  unfoldable pub create_staged : ℕ → JournalAction → FilePath → Transaction env → Applied Staged
  unfolding stage
  create_staged index a temporary t = stage a.operation index a temporary t

  -- `placement_failure`: the residue is kept for the cleanup of the action.
  unfoldable pub placement_failure :
      ℕ → PlacementResidue → Transaction env → AppError × Transaction env
  placement_failure id residue t =
      let reason =
        lit "placement could not prove ownership: "
        ++ (placement_label residue.mismatch ++ lit "; the entry was retained") in
      (
        drift residue.path reason,
        record t { residue = (id, record { path = residue.path; reason = reason }) ∷ t.residue },
      )

  unfoldable pub after_placement :
      {A : Type 0}
      → (A → Staged)
      → ℕ
      → AppError
      → PlacementOutcome A
      → Transaction env
      → Applied Staged
  unfolding placement_failure
  after_placement wrap id taken (placed a) t = (ok (wrap a), t)
  after_placement wrap id taken destination_exists t = (err taken, t)
  after_placement wrap id taken (misplaced residue) t =
      let (failure, t) = placement_failure id residue t in (err failure, t)

  abbrev occupied : FilePath → AppError
  occupied final_path =
      drift final_path (lit "another process created the destination after this plan was built")

  unfoldable pub place : ℕ → FilePath → Staged → Transaction env → Applied Staged
  unfolding call after_placement
  place id final_path (link l) t =
      call (env.backend.place_no_replace l final_path) t
        (after_placement link id (occupied final_path))
  place id final_path (directory d) t =
      call (env.backend.place_directory_no_replace d final_path) t
        (after_placement directory id (occupied final_path))
  place id final_path (config_file f) t =
      call (env.backend.place_config_file_no_replace f final_path) t (
        after_placement config_file id
          (drift final_path (lit "another process created the configuration destination")))
