-- ===== src/Transaction/Apply.antt =====
-- src/transaction/apply.rs: the write-ahead application of the actions of a journal.
pub mod Spares
pub mod Watched
pub mod Ahead
use skillmount.Prelude.{
  ℕ, zero, suc, ◌+◌, Bool, true, false, not, ◌&&◌, List, [], ◌∷◌, ◌++◌, length, Option, none, some,
  Result, ok, err, ok_or, carry, if◌then◌else◌,
}
use skillmount.Text.{Str, lit}
use skillmount.FilePath.{FilePath, path_eq}
use skillmount.Mount.Action.{PathPrecondition, missing, existing_link_to_source, LinkMode}
use skillmount.Journal.Status.{
  TransactionStatus, ActionStatus, ActionOperation, create_directory, create_config_file,
  create_directory_link, reuse_existing_link, RecordedKind,
}
use skillmount.Journal.Record.{TransactionJournal, JournalAction}
use skillmount.Link.{
  EntryKind, CreatedLinkKind, PathEntry, LinkError, CreatedLink, OwnedDirectory, OwnedConfigFile,
  PlacementResidue, PlacementOutcome, placed, destination_exists, misplaced,
}
use skillmount.Link.Label.{entry_label, placement_label}
use skillmount.Link.Outcome.{map_error}
use skillmount.Transaction.{
  AppError, link_failed, internal, drift, RetainedEntry, Environment, Transaction, save, advance,
}
use skillmount.Transaction.Cleanup.{ApplyFailure, roll_back}
use skillmount.Transaction.Staging.{
  Applied, Staged, action_at, after_placement, call, change, change_at, check_missing,
  check_precondition, config_file, create_staged, directory, enter, link, place, placement_failure,
  record_placed, record_staged, recorded_kind, requested_mode, stage, stage_file, stage_link,
  staged_as, staged_identity, with_status,
}

abbrev can_be_source : EntryKind → Bool
can_be_source EntryKind.directory = true
can_be_source EntryKind.symlink = true
can_be_source EntryKind.junction = true
can_be_source _ = false

abbrev resolves_to : FilePath → Result LinkError FilePath → Bool
resolves_to expected (ok canonical) = path_eq canonical expected
resolves_to expected (err e) = false

module _ (env : Environment) where
  unfoldable pub commit : ℕ → Staged → Transaction env → Applied env (Unit {0})
  unfolding change
  commit index moved t = save env (change env index (record_placed moved) t)

  -- The steps from the staged entry to the placed one.
  unfoldable pub place_staged :
      ℕ → JournalAction → Staged → Transaction env → Applied env (Unit {0})
  unfolding enter place commit
  place_staged index a staged t =
      let (saved, t) = enter env index ActionStatus.staged t in
      carry saved t (λ u t.
        let (moved, t) = place env a.id a.final_path staged t in carry moved t (commit index))

  unfoldable pub stage_intended :
      ℕ → JournalAction → FilePath → Transaction env → Applied env (Unit {0})
  unfolding create_staged place_staged
  stage_intended index a temporary t =
      let (staged, t) = create_staged env index a temporary t in
      carry staged t (place_staged index a)

  -- The steps from the intent to the placed entry.
  unfoldable pub stage_and_place :
      ℕ → JournalAction → FilePath → Transaction env → Applied env (Unit {0})
  unfolding enter stage_intended
  stage_and_place index a temporary t =
      let (intended, t) = enter env index ActionStatus.intent t in
      carry intended t (λ u t. stage_intended index a temporary t)

  abbrev pub create_with :
      ℕ → JournalAction → Option FilePath → Transaction env → Applied env (Unit {0})
  unfolding check_precondition stage_and_place
  create_with index a none t =
      (err (internal (lit "a created action must record its staged sibling")), t)
  create_with index a (some temporary) t =
      let (checked, t) = check_precondition env a.expected_precondition a.final_path t in
      carry checked t (λ u t. stage_and_place index a temporary t)

  unfoldable pub create_and_place : ℕ → JournalAction → Transaction env → Applied env (Unit {0})
  unfolding create_with
  create_and_place index a t = create_with index a a.temporary_path t

  abbrev pub reuse_with : JournalAction → Option FilePath → Transaction env → Applied env (Unit {0})
  reuse_with a none t = (err (internal (lit "a reuse action must record its source")), t)
  reuse_with a (some expected) t =
      carry (map_error link_failed (env.backend.inspect_no_follow t.world a.final_path)) t
        (λ live t. (
          if can_be_source live.kind
                && resolves_to expected (env.backend.canonical_directory t.world a.final_path)
              then ok tt
              else err (
                  drift a.final_path (
                    lit "the entry planned for reuse is now a "
                    ++ (entry_label live.kind
                        ++ (lit " rather than a directory resolving to " ++ expected)))),
          t,
        ))

  unfoldable pub confirm_reuse : JournalAction → Transaction env → Applied env (Unit {0})
  confirm_reuse a t = reuse_with a a.source_canonical t

  -- `apply_one` on the action at the index; an index out of range would be a panic of the source.
  abbrev pub apply_action :
      ActionOperation → ℕ → JournalAction → Transaction env → Applied env (Unit {0})
  unfolding create_and_place confirm_reuse
  apply_action reuse_existing_link index a t = confirm_reuse a t
  apply_action create_directory index a t = create_and_place index a t
  apply_action create_config_file index a t = create_and_place index a t
  apply_action create_directory_link index a t = create_and_place index a t

  unfoldable pub apply_one : ℕ → Option JournalAction → Transaction env → Applied env (Unit {0})
  unfolding apply_action
  apply_one index none t = (err (internal (lit "index out of bounds")), t)
  apply_one index (some a) t = apply_action a.operation index a t

  abbrev pub Outcome : Type 0
  Outcome = Result (ApplyFailure env) (Unit {0}) × Transaction env

  abbrev pub or_roll_back : Applied env (Unit {0}) → (Transaction env → Outcome) → Outcome
  or_roll_back (ok u, t) next = next t
  or_roll_back (err e, t) next = let (failure, t) = roll_back env e t in (err failure, t)

  -- The loop over the indices, and the transition that ends it.
  unfoldable pub apply_each : ℕ → ℕ → Transaction env → Outcome
  unfolding apply_one
  apply_each zero index t = or_roll_back (advance env TransactionStatus.active t) (λ t. (ok tt, t))
  apply_each (suc remaining) index t =
      or_roll_back (apply_one index (action_at index t.journal.actions) t)
        (apply_each remaining (index + 1))

  abbrev begun : Applied env (Unit {0}) → Outcome
  unfolding apply_each
  begun (ok u, t) = apply_each (length t.journal.actions) 0 t
  begun (err e, t) = (err (record { cause = e; retained_entries = []; rollback_errors = [] }), t)

  unfoldable pub apply : Transaction env → Outcome
  unfolding begun
  apply t = begun (advance env TransactionStatus.applying t)
