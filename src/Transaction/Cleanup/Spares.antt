-- ===== src/Transaction/Cleanup/Spares.antt =====
-- src/transaction/cleanup.rs: what a cleanup and a rollback leave in existence.
use skillmount.Prelude.{
  ℕ, ◌==◌, List, [], ◌∷◌, All, Option, none, some, ◌≡◌, ◌≢◌, if-holds, if-some, some_injective,
  subst, carry-keeps, refl, Bool-cases, inl, inr,
}
use skillmount.Text.{Str}
use skillmount.FilePath.{FilePath}
use skillmount.Journal.Status.{TransactionStatus, cleanup_disposition}
use skillmount.Journal.Record.{JournalAction}
use skillmount.Transaction.{
  AppError, RetainedEntry, Environment, Transaction, save, advance, record_error, find_action,
  update_action, modify, residue_of,
}
use skillmount.Transaction.Report.{CleanupReport, empty_report, needs_attention, describe}
use skillmount.Transaction.Clear.{MissingLinkPolicy, retain, Outcome, Pass}
use skillmount.Transaction.Clear.Spares.{clear_action-spares}
use skillmount.Transaction.Cleanup.{
  is_unresolved, rolled_back, residue_path, report_residue, blocked, clear_or_keep, Reconciled,
  after_outcome, reconcile_one, reconcile_each, reconcile_pending_actions, finish_failed, finish,
  keep_mounts, clean_up, cleanup_with_missing_link_policy, record_errors, fail_with,
  rollback_report, roll_back,
}

-- No action records the identity.
abbrev pub Unrecorded : Str → List JournalAction → Type 0
Unrecorded i = All (λ a. a.identity ≢ some i)

find_action-Unrecorded :
    (i : Str) (id : ℕ) (actions : List JournalAction)
    → Unrecorded i actions
    → {a : JournalAction} → find_action id actions ≡ some a
    → a.identity ≢ some i
unfolding find_action
find_action-Unrecorded i id [] h {a = a} found = cc
find_action-Unrecorded i id (b ∷ actions) h {a = a} found =
    elim (if-some (b.id == id) (some b) (find_action id actions) found) [
      | inl here ↦ subst (λ c. c.identity ≢ some i) (some_injective here) h.0
      | inr there ↦ find_action-Unrecorded i id actions h.1 there
    ]

pub update_action-Unrecorded :
    (i : Str) (id : ℕ) (f : JournalAction → JournalAction) (actions : List JournalAction)
    → ((a : JournalAction) → a.identity ≢ some i → (f a).identity ≢ some i)
    → Unrecorded i actions
    → Unrecorded i (update_action id f actions)
unfolding update_action
update_action-Unrecorded i id f [] keeps h = tt
update_action-Unrecorded i id f (a ∷ actions) keeps h = elim (Bool-cases (a.id == id)) [
  | inl here ↦ rw here (keeps a h.0, h.1)
  | inr there ↦ rw there (h.0, update_action-Unrecorded i id f actions keeps h.1)
]

module _ (env : Environment) (i : Str) where
  -- The entry exists, and the journal does not record it.
  abbrev pub Foreign : Transaction env → Type 0
  Foreign t = env.backend.Alive t.world i × Unrecorded i t.journal.actions

  pub save-Foreign : (t : Transaction env) → Foreign t → Foreign (save env t).1
  unfolding save
  save-Foreign t (alive, unrecorded) = (env.persist-spares t.journal t.world i alive, unrecorded)

  pub advance-Foreign :
      (status : TransactionStatus) (t : Transaction env)
      → Foreign t
      → Foreign (advance env status t).1
  unfolding advance
  advance-Foreign status t foreign =
      save-Foreign (record t { journal = record t.journal { status = status } }) foreign

  record_errors-Foreign :
      (lines : List Str) (t : Transaction env) → Foreign t → Foreign (record_errors env lines t)
  unfolding record_errors record_error
  record_errors-Foreign [] t foreign = foreign
  record_errors-Foreign (line ∷ lines) t foreign =
      record_errors-Foreign lines (record_error env line t) foreign

  fail_with-Foreign :
      (lines : List Str) (t : Transaction env) → Foreign t → Foreign (fail_with env lines t).1
  unfolding fail_with
  fail_with-Foreign lines t foreign =
      advance-Foreign TransactionStatus.failed (record_errors env lines t)
        (record_errors-Foreign lines t foreign)

  pub modify-Foreign :
      (id : ℕ) (f : JournalAction → JournalAction) (t : Transaction env)
      → ((a : JournalAction) → a.identity ≢ some i → (f a).identity ≢ some i)
      → Foreign t
      → Foreign (modify env id f t)
  unfolding modify
  modify-Foreign id f t keeps (alive, unrecorded) =
      (alive, update_action-Unrecorded i id f t.journal.actions keeps unrecorded)

  clear_or_keep-spares :
      (policy : MissingLinkPolicy) (a : JournalAction) (paths : List FilePath)
      (residue : Option RetainedEntry) (pass : Pass env)
      → a.identity ≢ some i
      → env.backend.Alive pass.world i
      → env.backend.Alive (clear_or_keep env policy a paths residue pass).1.world i
  unfolding clear_or_keep
  clear_or_keep-spares policy a paths residue pass other alive =
      if-holds (λ (result : Outcome × Pass env). env.backend.Alive result.1.world i) _ _ _ alive
        (clear_action-spares env i policy a (residue_path residue) pass other alive)

  after_outcome-Foreign :
      (id : ℕ) (outcome : Outcome) (report : CleanupReport) (t : Transaction env)
      (next : Transaction env → Reconciled env)
      → ((u : Transaction env) → Foreign u → Foreign (next u).1)
      → Foreign t
      → Foreign (after_outcome env id outcome report t next).1
  unfolding after_outcome
  after_outcome-Foreign id outcome report t next go foreign =
      if-holds (λ (result : Reconciled env). Foreign result.1) (is_unresolved outcome) _ _
        (go t foreign)
        (carry-keeps Foreign _ _ _
          (save-Foreign (modify env id rolled_back t)
            (modify-Foreign id rolled_back t (λ a other. other) foreign))
          (λ u e. go _))

  reconcile_one-Foreign :
      (policy : MissingLinkPolicy) (id : ℕ) (found : Option JournalAction) (paths : List FilePath)
      (report : CleanupReport) (t : Transaction env)
      (next : List FilePath → CleanupReport → Transaction env → Reconciled env)
      → ((a : JournalAction) → found ≡ some a → a.identity ≢ some i)
      → ((ps : List FilePath) (r : CleanupReport) (u : Transaction env)
          → Foreign u
          → Foreign (next ps r u).1)
      → Foreign t
      → Foreign (reconcile_one env policy id found paths report t next).1
  unfolding reconcile_one
  reconcile_one-Foreign policy id none paths report t next other go foreign = go _ _ t foreign
  reconcile_one-Foreign policy id (some a) paths report t next other go (alive, unrecorded) =
      let residue = residue_of id t.residue in
      let start : Pass env = record {
        report = report_residue (cleanup_disposition a.operation) residue report;
        world = t.world;
      } in
      let cleared = clear_or_keep env policy a paths residue start in
      let left = blocked cleared.0 a paths in
      after_outcome-Foreign id cleared.0 cleared.1.report (record t { world = cleared.1.world })
        (next left cleared.1.report) (go left cleared.1.report)
        (clear_or_keep-spares policy a paths residue start (other a refl) alive, unrecorded)

  reconcile_each-Foreign :
      (policy : MissingLinkPolicy) (ids : List ℕ) (paths : List FilePath) (report : CleanupReport)
      (t : Transaction env)
      → Foreign t
      → Foreign (reconcile_each env policy ids paths report t).1
  unfolding reconcile_each
  reconcile_each-Foreign policy [] paths report t foreign = foreign
  reconcile_each-Foreign policy (id ∷ ids) paths report t foreign =
      reconcile_one-Foreign policy id (find_action id t.journal.actions) paths report t _
        (λ a found. find_action-Unrecorded i id t.journal.actions foreign.1 found)
        (reconcile_each-Foreign policy ids) foreign

  -- A pass over the pending actions removes no entry that the journal does not record.
  pub reconcile_pending_actions-Foreign :
      (policy : MissingLinkPolicy) (t : Transaction env)
      → Foreign t
      → Foreign (reconcile_pending_actions env policy t).1
  unfolding reconcile_pending_actions
  reconcile_pending_actions-Foreign policy t = reconcile_each-Foreign policy _ [] empty_report t

  finish-Foreign :
      (report : CleanupReport) (t : Transaction env) → Foreign t → Foreign (finish env report t).1
  unfolding finish finish_failed
  finish-Foreign report t foreign =
      if-holds (λ (result : Reconciled env). Foreign result.1) (needs_attention report) _ _
        (carry-keeps Foreign _ _ _ (fail_with-Foreign (describe env report) t foreign)
          (λ u e after. after))
        (carry-keeps Foreign _ _ _ (advance-Foreign TransactionStatus.completed t foreign)
          (λ u e (alive, unrecorded).
            carry-keeps Foreign _ _ _ (env.remove_journal-spares _ i alive, unrecorded)
              (λ u e after. after)))

  keep_mounts-Foreign : (t : Transaction env) → Foreign t → Foreign (keep_mounts env t).1
  keep_mounts-Foreign t foreign =
      carry-keeps Foreign _ _ _ (advance-Foreign TransactionStatus.kept t foreign)
        (λ u e after. after)

  clean_up-Foreign :
      (policy : MissingLinkPolicy) (t : Transaction env)
      → Foreign t
      → Foreign (clean_up env policy t).1
  unfolding clean_up
  clean_up-Foreign policy t foreign =
      carry-keeps Foreign _ _ _ (reconcile_pending_actions-Foreign policy t foreign)
        (λ report e after. finish-Foreign report _ after)

  -- A cleanup, automatic or explicit, leaves an entry in existence that no action of its journal records.
  pub cleanup-spares :
      (policy : MissingLinkPolicy) (t : Transaction env)
      → env.backend.Alive t.world i
      → Unrecorded i t.journal.actions
      → env.backend.Alive (cleanup_with_missing_link_policy env policy t).1.world i
  unfolding cleanup_with_missing_link_policy
  cleanup-spares policy t alive unrecorded =
      (carry-keeps Foreign _ _ _ (advance-Foreign TransactionStatus.cleaning t (alive, unrecorded))
        (λ u e after.
          if-holds (λ (result : Reconciled env). Foreign result.1) _ _ _
            (keep_mounts-Foreign _ after) (clean_up-Foreign policy _ after))).0

  pub roll_back-Foreign :
      (cause : AppError) (t : Transaction env) → Foreign t → Foreign (roll_back env cause t).1
  unfolding roll_back
  roll_back-Foreign cause t foreign =
      let (report, after) = reconcile_pending_actions env retain t in
      fail_with-Foreign (rollback_report env cause report).1 after
        (reconcile_pending_actions-Foreign retain t foreign)
