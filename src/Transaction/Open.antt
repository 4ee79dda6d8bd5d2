-- ===== src/Transaction/Open.antt =====
-- src/transaction/mod.rs, `journal_action`: the journal of a plan.
use skillmount.Prelude.{List, [], ◌∷◌, map, Option, none, some, ◌≡◌, refl, sym, ◌∙◌}
use skillmount.Text.{Str}
use skillmount.FilePath.{FilePath}
use skillmount.Mount.Action.{
  MountAction, create_directory, create_config_file, create_directory_link, reuse_existing_link,
  LinkMode, PlannedMountAction,
}
use skillmount.Journal.Status.{ActionStatus, ActionOperation, RecordedKind}
use skillmount.Journal.Record.{JournalAction}
use skillmount.Journal.Record.Validate.{staged_sibling}
use skillmount.Transaction.{Environment, Transaction}
use skillmount.Transaction.Clear.{MissingLinkPolicy}
use skillmount.Transaction.Cleanup.{cleanup_with_missing_link_policy}
use skillmount.Transaction.Cleanup.Spares.{Unrecorded, cleanup-spares}
use skillmount.Transaction.Apply.{apply}
use skillmount.Transaction.Apply.Spares.{apply-spares}

abbrev pub recorded_mode : LinkMode → RecordedKind
recorded_mode LinkMode.symlink = RecordedKind.symlink
recorded_mode LinkMode.junction = RecordedKind.junction
recorded_mode LinkMode.auto = RecordedKind.undecided

-- An action that creates an entry, before anything is known of the entry.
abbrev planned_action :
    Str
    → PlannedMountAction
    → ActionOperation
    → FilePath
    → Option FilePath
    → Option Str
    → RecordedKind
    → JournalAction
planned_action transaction_id planned operation final_path source contents kind = record {
  config_contents = contents;
  id = planned.id;
  operation = operation;
  expected_precondition = planned.expected_precondition;
  temporary_path = some (staged_sibling transaction_id planned.id final_path);
  final_path = final_path;
  source_canonical = source;
  link_target = none;
  kind = kind;
  status = ActionStatus.planned;
  identity = none;
}

abbrev action_of : Str → PlannedMountAction → MountAction → JournalAction
action_of transaction_id planned (create_directory path) =
    planned_action transaction_id planned ActionOperation.create_directory path none none
      RecordedKind.directory
action_of transaction_id planned (create_config_file path contents) =
    planned_action transaction_id planned ActionOperation.create_config_file path none
      (some contents) RecordedKind.file
action_of transaction_id planned (create_directory_link source destination mode) =
    planned_action transaction_id planned ActionOperation.create_directory_link destination
      (some source) none (recorded_mode mode)
action_of transaction_id planned (reuse_existing_link source destination) = record {
  config_contents = none;
  id = planned.id;
  operation = ActionOperation.reuse_existing_link;
  expected_precondition = planned.expected_precondition;
  temporary_path = none;
  final_path = destination;
  source_canonical = some source;
  link_target = none;
  kind = RecordedKind.undecided;
  status = ActionStatus.reused;
  identity = none;
}

unfoldable pub journal_action : Str → PlannedMountAction → JournalAction
journal_action transaction_id planned = action_of transaction_id planned planned.operation

action_of-identity :
    (id : Str) (planned : PlannedMountAction) (operation : MountAction)
    → (action_of id planned operation).identity ≡ none
action_of-identity id planned (create_directory path) = refl
action_of-identity id planned (create_config_file path contents) = refl
action_of-identity id planned (create_directory_link source destination mode) = refl
action_of-identity id planned (reuse_existing_link source destination) = refl

none_is_not : {i : Str} → none ≡ some i → ⊥
none_is_not e = cc

journal_action-Unrecorded :
    (i id : Str) (actions : List PlannedMountAction)
    → Unrecorded i (map (journal_action id) actions)
unfolding journal_action
journal_action-Unrecorded i id [] = tt
journal_action-Unrecorded i id (planned ∷ actions) = (
  λ e. absurd (none_is_not (sym (action_of-identity id planned planned.operation) ∙ e)),
  journal_action-Unrecorded i id actions,
)

-- An entry that exists when a transaction opens exists after its plan has been applied, or has failed and has
-- been rolled back, and after a cleanup, whatever its policy, has followed.
pub session-spares :
    (env : Environment) (t : Transaction env) (id : Str) (actions : List PlannedMountAction)
    (policy : MissingLinkPolicy) (i : Str)
    → t.journal.actions ≡ map (journal_action id) actions
    → env.backend.Alive t.world i
    → env.backend.Alive (apply env t).1.world i
      × env.backend.Alive (cleanup_with_missing_link_policy env policy (apply env t).1).1.world i
session-spares env t id actions policy i planned alive =
    let unrecorded : Unrecorded i t.journal.actions =
      rw planned (journal_action-Unrecorded i id actions) in
    let (applied, still) = apply-spares env i t alive unrecorded in
    (applied, cleanup-spares env i policy (apply env t).1 applied still)
