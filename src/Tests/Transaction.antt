-- ===== src/Tests/Transaction.antt =====
-- The transaction engine on a disk with one directory and a plan of one helper directory.
use skillmount.Prelude.{
  Option, ℕ, false, true, List, [], ◌∷◌, All, map, none, some, ◌≡◌, ◌⊎◌, inl, inr, refl, ap, carry,
  some_injective, arith,
}
use skillmount.Text.{Str, lit, split}
use skillmount.FilePath.{FilePath, path_eq}
use skillmount.Mount.Action.{MountAction, PlannedMountAction, missing}
use skillmount.Journal.Status.{
  TransactionStatus, ActionStatus, ActionOperation, RecordedKind, AgentId, cleanup_disposition,
  creates_entry, may_have_created_something,
}
use skillmount.Journal.Record.{
  TransactionJournal, JournalAction, cleanup_candidates, candidate_paths,
}
use skillmount.Transaction.{Transaction, find_action, residue_of, save}
use skillmount.Transaction.Report.{CleanupReport, empty_report, needs_attention}
use skillmount.Transaction.Clear.{retain, accept, Pass, clear_action, remove_candidate, outcome_for}
use skillmount.Transaction.Clear.Verified.{VerifiedRemoval, clear_action-verified}
use skillmount.Transaction.Cleanup.{
  cleanup_with_missing_link_policy, reconcile_pending_actions, clear_or_keep, action_encloses_any,
}
use skillmount.Transaction.Cleanup.Pending.{is_pending}
use skillmount.Transaction.Cleanup.Spares.{cleanup-spares}
use skillmount.Transaction.Cleanup.Complete.{reconcile_pending_actions_complete}
use skillmount.Transaction.Apply.{apply, apply_one}
use skillmount.Transaction.Staging.{action_at}
use skillmount.Transaction.Apply.Watched.{Watched}
use skillmount.Transaction.Apply.Ahead.{apply_one-ahead}
use skillmount.Link.{OwnedDirectory}
use skillmount.Transaction.Open.{journal_action, session-spares}
use skillmount.Tests.Directories.{Disk, environment, has, find, make, put}

abbrev plan : List PlannedMountAction
plan =
    record {
      id = 1;
      operation = MountAction.create_directory (lit "/p/.agents");
      expected_precondition = missing;
      temporary_path = none;
    }
    ∷ []

abbrev journal : List JournalAction → TransactionJournal
journal actions = record {
  transaction_id = lit "a1";
  agent = AgentId.codex;
  owner_pid = 7;
  status = TransactionStatus.planned;
  project_root = lit "/p";
  launch_cwd = lit "/p";
  discovery_entry = lit "/p/.agents";
  backing_store = lit "/p/.agents";
  keep_mounts = false;
  sources = [];
  locks = [];
  actions = actions;
  errors = [];
}

abbrev disk : Disk
disk = record { entries = (lit "/p", lit "p") ∷ []; saved = none }

abbrev opened : Transaction environment
opened = record {
  journal = journal (map (journal_action (lit "a1")) plan);
  path = lit "/state/a1";
  residue = [];
  world = disk;
}

session-spares_example :
    (has (lit "p") (apply environment opened).1.world.entries ≡ true)
    × (has
          (lit "p")
          (cleanup_with_missing_link_policy environment retain
            (apply environment opened).1).1.world.entries
        ≡ true)
session-spares_example =
    session-spares environment opened (lit "a1") plan retain (lit "p") refl refl

-- A helper directory that was made before, and one that is not in the journal.
abbrev made : JournalAction
made = record {
  config_contents = none;
  id = 1;
  operation = ActionOperation.create_directory;
  expected_precondition = missing;
  temporary_path = some (lit "/p/.t");
  final_path = lit "/p/.agents";
  source_canonical = none;
  link_target = none;
  kind = RecordedKind.directory;
  status = ActionStatus.applied;
  identity = some (lit "q");
}

abbrev active : Transaction environment
active = record {
  journal = journal (made ∷ []);
  path = lit "/state/a1";
  residue = [];
  world = record { entries = (lit "/p", lit "p") ∷ (lit "/p/.agents", lit "q") ∷ []; saved = none };
}

abbrev first : Str → ℕ
first [] = 0
first (c ∷ s) = c

cleanup-spares_example :
    has (lit "p") (cleanup_with_missing_link_policy environment accept active).1.world.entries
    ≡ true
cleanup-spares_example =
    cleanup-spares environment (lit "p") accept active refl
      ((λ e. omega (arith, ap first (some_injective e))), tt)

abbrev cleaned : CleanupReport
cleaned = record empty_report { removed = lit "/p/.agents" ∷ [] }

reconcile_pending_actions_complete_example :
    (needs_attention cleaned ≡ true)
    ⊎ All
        (λ a. is_pending a ≡ false)
        (reconcile_pending_actions environment retain active).1.journal.actions
unfolding reconcile_pending_actions cleanup_candidates creates_entry may_have_created_something
    find_action clear_or_keep cleanup_disposition action_encloses_any candidate_paths path_eq split
    clear_action residue_of remove_candidate outcome_for carry save
reconcile_pending_actions_complete_example =
    reconcile_pending_actions_complete environment retain active cleaned (tt, tt) refl

-- A configuration file that was made before.
abbrev file : JournalAction
file = record {
  config_contents = some (lit "{}");
  id = 2;
  operation = ActionOperation.create_config_file;
  expected_precondition = missing;
  temporary_path = none;
  final_path = lit "/p/.agents";
  source_canonical = none;
  link_target = none;
  kind = RecordedKind.file;
  status = ActionStatus.applied;
  identity = some (lit "q");
}

abbrev pass : Pass environment
pass = record { report = empty_report; world = active.world }

clear_action-verified_example :
    VerifiedRemoval environment file [] (clear_action environment retain file none pass).1.report
unfolding clear_action candidate_paths remove_candidate outcome_for path_eq split
    cleanup_disposition
clear_action-verified_example = clear_action-verified environment file none pass refl refl

-- Nothing was made, or a journal is on the disk.
abbrev Journalled : Disk → Type 0
Journalled w = (w.entries ≡ disk.entries) ⊎ ((j : TransactionJournal) × (w.saved ≡ some j))

make-Journalled :
    (p : FilePath) (w : Disk) (found : Option Str) (j : TransactionJournal)
    → w.saved ≡ some j
    → Journalled (make p w found).1
make-Journalled p w none j e = inr (j, e)
make-Journalled p w (some i) j e = inr (j, e)

put-Journalled :
    (r : OwnedDirectory) (p : FilePath) (w : Disk) (found : Option Str) (j : TransactionJournal)
    → w.saved ≡ some j
    → Journalled (put r p w found).1
put-Journalled r p w none j e = inr (j, e)
put-Journalled r p w (some i) j e = inr (j, e)

journalled : Watched environment Journalled
journalled = record {
  persist-keeps = λ j w safe. inr (j, refl);
  create_directory-keeps = λ p w (j, index, a, e, found, pending, names) safe.
      make-Journalled p w (find p w.entries) j e;
  create_config_file-keeps = λ p s w announced safe. safe;
  create_directory_link-keeps = λ r w announced safe. safe;
  place_no_replace-keeps = λ r p w announced safe. safe;
  place_directory_no_replace-keeps = λ r p w (j, index, a, e, found, pending, names) safe.
      put-Journalled r p w (find p w.entries) j e;
  place_config_file_no_replace-keeps = λ r p w announced safe. safe;
}

apply_one-ahead_example :
    Journalled (apply_one environment 0 (action_at 0 opened.journal.actions) opened).1.world
apply_one-ahead_example = apply_one-ahead environment Journalled 0 opened journalled (inl refl)
