-- ===== src/Transaction/Cleanup.antt =====
-- src/transaction/cleanup.rs: the pass over all pending actions, and the cleanups and the rollback that run it.
pub mod Spares
pub mod Pending
pub mod Complete
use skillmount.Prelude.{
  ℕ, Bool, true, false, not, ◌&&◌, ◌||◌, List, [], ◌∷◌, ◌++◌, map, any, Option, none, some, Result,
  ok, err, carry, if◌then◌else◌,
}
use skillmount.Text.{Str, lit}
use skillmount.FilePath.{FilePath}
use skillmount.Paths.{same_key, key_starts_with}
use skillmount.Mount.Action.{CleanupDisposition, required, best_effort, not_owned}
use skillmount.Journal.Status.{
  TransactionStatus, ActionStatus, ActionOperation, create_directory, cleanup_disposition,
}
use skillmount.Journal.Record.{
  TransactionJournal, JournalAction, candidate_paths, current_path, cleanup_candidates,
}
use skillmount.Transaction.{
  AppError, RetainedEntry, Environment, Transaction, save, advance, record_error, find_action,
  modify, residue_of,
}
use skillmount.Transaction.Report.{
  CleanupReport, empty_report, requested_keep, incomplete_cleanup, needs_attention,
  record_left_alone, describe,
}
use skillmount.Transaction.Clear.{
  MissingLinkPolicy, retain, accept, Outcome, reconciled, preserved, unresolved, is_required, Pass,
  clear_action,
}

encloses : FilePath → FilePath → Bool
encloses container descendant =
    not (same_key descendant container) && key_starts_with descendant container

unfoldable pub action_encloses_any : JournalAction → List FilePath → Bool
unfolding encloses
action_encloses_any action descendants =
    any (λ container. any (encloses container) descendants) (candidate_paths action)

abbrev is_best_effort : CleanupDisposition → Bool
is_best_effort best_effort = true
is_best_effort _ = false

abbrev is_create_directory : ActionOperation → Bool
is_create_directory create_directory = true
is_create_directory _ = false

abbrev pub is_unresolved : Outcome → Bool
is_unresolved unresolved = true
is_unresolved _ = false

abbrev pub residue_path : Option RetainedEntry → Option FilePath
residue_path none = none
residue_path (some entry) = some entry.path

-- A placement residue is reported before anything else of its action.
abbrev pub report_residue :
    CleanupDisposition → Option RetainedEntry → CleanupReport → CleanupReport
report_residue disposition none report = report
report_residue disposition (some entry) report = record_left_alone disposition entry report

-- The paths that still stand in the way of a helper directory.
abbrev pub blocked : Outcome → JournalAction → List FilePath → List FilePath
blocked outcome action paths =
    if is_unresolved outcome && is_required (cleanup_disposition action.operation)
    then paths ++ candidate_paths action
    else paths

abbrev pub rolled_back : JournalAction → JournalAction
rolled_back action = record action { status = ActionStatus.rolled_back }

module _ (env : Environment) where
  abbrev pub keep_helper : JournalAction → CleanupReport → CleanupReport
  keep_helper action report = record report {
    preserved_scaffolding =
        report.preserved_scaffolding
        ++ record {
          path = current_path action;
          reason =
              lit "the helper directory remains recorded while a cleanup-critical "
              ++ lit "descendant cannot be proved gone";
        }
          ∷ [];
  }

  -- What is done about one action, before its status is changed.
  unfoldable pub clear_or_keep :
      MissingLinkPolicy
      → JournalAction
      → List FilePath
      → Option RetainedEntry
      → Pass env
      → Outcome × Pass env
  clear_or_keep policy action unresolved_required residue pass =
      if is_best_effort (cleanup_disposition action.operation)
        && (is_create_directory action.operation && action_encloses_any action unresolved_required)
      then (unresolved, record pass { report = keep_helper action pass.report })
      else clear_action env policy action (residue_path residue) pass

  abbrev pub Reconciled : Type 0
  Reconciled = Result AppError CleanupReport × Transaction env

  -- An action that is settled is journalled before the next one is touched.
  unfoldable pub after_outcome :
      ℕ → Outcome → CleanupReport → Transaction env → (Transaction env → Reconciled) → Reconciled
  after_outcome id outcome report t next =
      if is_unresolved outcome
      then next t
      else let (saved, t) = save env (modify env id rolled_back t) in carry saved t (λ u t. next t)

  unfoldable pub reconcile_one :
      MissingLinkPolicy
      → ℕ
      → Option JournalAction
      → List FilePath
      → CleanupReport
      → Transaction env
      → (List FilePath → CleanupReport → Transaction env → Reconciled)
      → Reconciled
  unfolding after_outcome
  reconcile_one policy id none unresolved_required report t next = next unresolved_required report t
  reconcile_one policy id (some action) unresolved_required report t next =
      let residue = residue_of id t.residue in
      let report = report_residue (cleanup_disposition action.operation) residue report in
      let (outcome, pass) =
        clear_or_keep policy action unresolved_required residue
          (record { report = report; world = t.world }) in
      after_outcome id outcome pass.report (record t { world = pass.world })
        (next (blocked outcome action unresolved_required) pass.report)

  unfoldable pub reconcile_each :
      MissingLinkPolicy → List ℕ → List FilePath → CleanupReport → Transaction env → Reconciled
  unfolding reconcile_one
  reconcile_each policy [] unresolved_required report t = (ok report, t)
  reconcile_each policy (id ∷ ids) unresolved_required report t =
      reconcile_one policy id (find_action id t.journal.actions) unresolved_required report t
        (reconcile_each policy ids)

  unfoldable pub reconcile_pending_actions : MissingLinkPolicy → Transaction env → Reconciled
  unfolding reconcile_each
  reconcile_pending_actions policy t =
      reconcile_each policy (map (λ action. action.id) (cleanup_candidates t.journal)) []
        empty_report t

  record_errors : List Str → Transaction env → Transaction env
  record_errors [] t = t
  record_errors (line ∷ lines) t = record_errors lines (record_error env line t)

  -- The lines are recorded, and the transaction fails durably.
  fail_with : List Str → Transaction env → Result AppError (Unit {0}) × Transaction env
  unfolding record_errors
  fail_with lines t = advance env TransactionStatus.failed (record_errors lines t)

  abbrev pub finish_failed : CleanupReport → Transaction env → Reconciled
  unfolding fail_with
  finish_failed report t =
      let (saved, t) = fail_with (describe env report) t in
      carry saved t
        (λ u t. (ok (record report { journal_retained = some (incomplete_cleanup t.path) }), t))

  abbrev pub finish_completed : CleanupReport → Transaction env → Reconciled
  finish_completed report t =
      let (saved, t) = advance env TransactionStatus.completed t in
      carry saved t (λ u t.
        let (gone, w) = env.remove_journal t.world in
        carry gone (record t { world = w }) (λ u t. (ok report, t)))

  -- The end of a cleanup, by what its pass reported.
  unfoldable pub finish : CleanupReport → Transaction env → Reconciled
  unfolding finish_failed
  finish report t =
      if needs_attention report then finish_failed report t else finish_completed report t

  abbrev pub keep_mounts : Transaction env → Reconciled
  keep_mounts t =
      let (saved, t) = advance env TransactionStatus.kept t in
      carry saved t
        (λ u t. (ok (record empty_report { journal_retained = some (requested_keep t.path) }), t))

  abbrev pub clean_up : MissingLinkPolicy → Transaction env → Reconciled
  unfolding finish reconcile_pending_actions
  clean_up policy t = let (report, t) = reconcile_pending_actions policy t in carry report t finish

  unfoldable pub cleanup_with_missing_link_policy : MissingLinkPolicy → Transaction env → Reconciled
  unfolding clean_up
  cleanup_with_missing_link_policy policy t =
      let (saved, t) = advance env TransactionStatus.cleaning t in
      carry saved t (λ u t. if t.journal.keep_mounts then keep_mounts t else clean_up policy t)

  unfoldable pub cleanup : Transaction env → Reconciled
  unfolding cleanup_with_missing_link_policy
  cleanup = cleanup_with_missing_link_policy retain

  abbrev do_not_keep : Transaction env → Transaction env
  do_not_keep t = record t { journal = record t.journal { keep_mounts = false } }

  unfoldable pub cleanup_required : Transaction env → Reconciled
  unfolding cleanup_with_missing_link_policy
  cleanup_required t = cleanup_with_missing_link_policy retain (do_not_keep t)

  unfoldable pub cleanup_explicit : Transaction env → Reconciled
  unfolding cleanup_with_missing_link_policy
  cleanup_explicit t = cleanup_with_missing_link_policy accept (do_not_keep t)

  -- `ApplyFailure` of src/transaction/apply.rs.
  pub record ApplyFailure : Type 0 where
    pub cause : AppError
    pub retained_entries : List RetainedEntry
    pub rollback_errors : List Str

  rollback_lines : Result AppError CleanupReport → ApplyFailure → List RetainedEntry × ApplyFailure
  rollback_lines (ok report) failure = (
    report.preserved_scaffolding,
    record failure {
      retained_entries = report.retained;
      rollback_errors = map env.show_entry report.failed;
    },
  )
  rollback_lines (err e) failure = ([], record failure { rollback_errors = env.show_error e ∷ [] })

  -- A failure to record the end is the last of the rollback's errors.
  add_error : Result AppError (Unit {0}) → ApplyFailure → ApplyFailure
  add_error (ok u) failure = failure
  add_error (err e) failure = record failure {
    rollback_errors = failure.rollback_errors ++ env.show_error e ∷ [];
  }

  rollback_log : AppError → List RetainedEntry → ApplyFailure → List Str
  rollback_log cause scaffolding failure =
      env.show_error cause
      ∷ (map (λ e. lit "retained " ++ env.show_entry e) failure.retained_entries
          ++ (map (λ e. lit "preserved scaffolding " ++ env.show_entry e) scaffolding
              ++ map (λ e. lit "rollback error: " ++ e) failure.rollback_errors))

  -- What the rollback reports, and what its journal records.
  rollback_report : AppError → Result AppError CleanupReport → ApplyFailure × List Str
  unfolding rollback_lines rollback_log
  rollback_report cause report =
      let (scaffolding, failure) =
        rollback_lines report
          (record { cause = cause; retained_entries = []; rollback_errors = [] }) in
      (failure, rollback_log cause scaffolding failure)

  unfoldable pub roll_back : AppError → Transaction env → ApplyFailure × Transaction env
  unfolding reconcile_pending_actions rollback_report fail_with add_error
  roll_back cause t =
      let (report, t) = reconcile_pending_actions retain t in
      let (failure, lines) = rollback_report cause report in
      let (saved, t) = fail_with lines t in (add_error saved failure, t)
