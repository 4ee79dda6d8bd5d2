-- ===== src/Transaction/Apply/Spares.antt =====
-- src/transaction/apply.rs: what an application, with its rollback, leaves in existence.
use skillmount.Prelude.{ℕ, zero, suc, ◌+◌, Option, none, some, ok, err, ◌≢◌, length, carry-keeps}
use skillmount.Text.{Str}
use skillmount.FilePath.{FilePath}
use skillmount.Journal.Status.{
  TransactionStatus, ActionStatus, ActionOperation, create_directory, create_config_file,
  create_directory_link, reuse_existing_link,
}
use skillmount.Journal.Record.{JournalAction}
use skillmount.Transaction.{Environment, Transaction}
use skillmount.Transaction.Cleanup.Spares.{
  Unrecorded, Foreign, save-Foreign, advance-Foreign, roll_back-Foreign,
}
use skillmount.Transaction.Apply.{
  commit, place_staged, stage_intended, stage_and_place, create_with, create_and_place, reuse_with,
  confirm_reuse, apply_action, apply_one, Outcome, or_roll_back, begun, apply_each, apply,
}
use skillmount.Transaction.Staging.{
  Staged, staged_identity, action_at, record_placed, Applied, change, enter, create_staged, place,
}
use skillmount.Transaction.Staging.Spares.{
  record_placed-identity, change-Kept, enter-Kept, check_precondition-Kept, stage-KeptNew,
  place-KeptNew,
}

module _ (env : Environment) (i : Str) where
  abbrev Survives : Transaction env → Type 0
  Survives = Foreign env i

  place_staged-Kept :
      (index : ℕ) (a : JournalAction) (s : Staged) (t : Transaction env)
      → staged_identity s ≢ some i
      → Survives t
      → Survives (place_staged env index a s t).1
  unfolding place_staged commit
  place_staged-Kept index a s t new kept =
      carry-keeps Survives _ _ _ (enter-Kept env i index ActionStatus.staged t kept) (λ u e kept.
        let entered = (enter env index ActionStatus.staged t).1 in
        let moved = place-KeptNew env i a.id a.final_path s entered new kept in
        let placed_at = (place env a.id a.final_path s entered).1 in
        carry-keeps Survives _ _ _ moved.0 (λ m e kept.
          save-Foreign env i (change env index (record_placed m) placed_at) (
            change-Kept env i index (record_placed m) placed_at
              (record_placed-identity i m (moved.1 m e)) kept)))

  stage_and_place-Kept :
      (index : ℕ) (a : JournalAction) (temporary : FilePath) (t : Transaction env)
      → Survives t
      → Survives (stage_and_place env index a temporary t).1
  unfolding stage_and_place stage_intended create_staged
  stage_and_place-Kept index a temporary t kept =
      carry-keeps Survives _ _ _ (enter-Kept env i index ActionStatus.intent t kept) (λ u e kept.
        let intended = (enter env index ActionStatus.intent t).1 in
        let staged = stage-KeptNew env i a.operation index a temporary intended kept in
        carry-keeps Survives _ _ _ staged.0
          (λ s e kept. place_staged-Kept index a s _ (staged.1 s e) kept))

  create_with-Kept :
      (index : ℕ) (a : JournalAction) (temporary : Option FilePath) (t : Transaction env)
      → Survives t
      → Survives (create_with env index a temporary t).1
  unfolding create_with
  create_with-Kept index a none t kept = kept
  create_with-Kept index a (some temporary) t kept =
      carry-keeps Survives _ _ _
        (check_precondition-Kept env i a.expected_precondition a.final_path t kept)
        (λ u e kept. stage_and_place-Kept index a temporary _ kept)

  reuse_with-Kept :
      (a : JournalAction) (source : Option FilePath) (t : Transaction env)
      → Survives t
      → Survives (reuse_with env a source t).1
  reuse_with-Kept a none t kept = kept
  reuse_with-Kept a (some expected) t kept = carry-keeps Survives _ t _ kept (λ live e kept. kept)

  apply_action-Kept :
      (operation : ActionOperation) (index : ℕ) (a : JournalAction) (t : Transaction env)
      → Survives t
      → Survives (apply_action env operation index a t).1
  unfolding apply_action create_and_place confirm_reuse
  apply_action-Kept reuse_existing_link index a t kept = reuse_with-Kept a a.source_canonical t kept
  apply_action-Kept create_directory index a t kept =
      create_with-Kept index a a.temporary_path t kept
  apply_action-Kept create_config_file index a t kept =
      create_with-Kept index a a.temporary_path t kept
  apply_action-Kept create_directory_link index a t kept =
      create_with-Kept index a a.temporary_path t kept

  apply_one-Kept :
      (index : ℕ) (found : Option JournalAction) (t : Transaction env)
      → Survives t
      → Survives (apply_one env index found t).1
  unfolding apply_one
  apply_one-Kept index none t kept = kept
  apply_one-Kept index (some a) t kept = apply_action-Kept a.operation index a t kept

  or_roll_back-Kept :
      (result : Applied env (Unit {0})) (next : Transaction env → Outcome env)
      → Survives result.1
      → ((u : Transaction env) → Survives u → Survives (next u).1)
      → Survives (or_roll_back env result next).1
  or_roll_back-Kept (ok u, t) next kept go = go t kept
  or_roll_back-Kept (err e, t) next kept go = roll_back-Foreign env i e t kept

  apply_each-Kept :
      (remaining index : ℕ) (t : Transaction env)
      → Survives t
      → Survives (apply_each env remaining index t).1
  unfolding apply_each
  apply_each-Kept zero index t kept =
      or_roll_back-Kept _ _ (advance-Foreign env i TransactionStatus.active t kept) (λ u kept. kept)
  apply_each-Kept (suc remaining) index t kept =
      or_roll_back-Kept _ _ (apply_one-Kept index (action_at index t.journal.actions) t kept)
        (apply_each-Kept remaining (index + 1))

  begun-Kept : (result : Applied env (Unit {0})) → Survives result.1 → Survives (begun env result).1
  unfolding begun
  begun-Kept (ok u, t) kept = apply_each-Kept (length t.journal.actions) 0 t kept
  begun-Kept (err e, t) kept = kept

  -- An application, whether it succeeds or fails and is rolled back, leaves an entry in existence that was there
  -- before and that no action of the journal records.
  pub apply-spares :
      (t : Transaction env)
      → env.backend.Alive t.world i
      → Unrecorded i t.journal.actions
      → env.backend.Alive (apply env t).1.world i × Unrecorded i (apply env t).1.journal.actions
  unfolding apply
  apply-spares t alive unrecorded =
      begun-Kept _ (advance-Foreign env i TransactionStatus.applying t (alive, unrecorded))
