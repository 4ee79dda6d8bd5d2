-- ===== src/Transaction/Cleanup/Complete.antt =====
-- src/transaction/cleanup.rs: whether a pass that reports nothing leaves anything pending.
use skillmount.Prelude.{
  ℕ, Bool, true, false, not, ◌&&◌, List, [], ◌∷◌, All, any, Option, none, some, ok, err, ◌≡◌, ◌⊎◌,
  inl, inr, refl, subst, if-holds, carry, carry-holds, ok_injective, arith,
}
use mathlib.Core.List.{reverse}
use skillmount.FilePath.{FilePath}
use skillmount.Journal.Status.{cleanup_disposition}
use skillmount.Journal.Record.{JournalAction, cleanup_candidates, candidate_paths}
use skillmount.Transaction.{
  AppError, Environment, RetainedEntry, Transaction, save, find_action, modify, residue_of,
}
use skillmount.Transaction.Report.{CleanupReport, empty_report, needs_attention}
use skillmount.Transaction.Clear.{
  MissingLinkPolicy, Outcome, reconciled, preserved, unresolved, outcome_for, Pass, is_none,
}
use skillmount.Transaction.Clear.Attention.{Noted, Named, Noted-left_alone, clear_action-Named}
use skillmount.Transaction.Cleanup.{
  encloses, action_encloses_any, rolled_back, residue_path, report_residue, blocked, is_best_effort,
  is_create_directory, clear_or_keep, Reconciled, after_outcome, reconcile_one, reconcile_each,
  reconcile_pending_actions,
}
use skillmount.Transaction.Cleanup.Pending.{
  is_pending, UniqueIds, PendingIn, update_action-UniqueIds, update_action-PendingIn, drop_others,
  find_action-none, candidate_ids, reverse_aux-PendingIn, PendingIn-none,
}

-- Nothing is enclosed by anything when nothing stands in the way.
any-nothing : (paths : List FilePath) → any (λ container. any (encloses container) []) paths ≡ false
any-nothing [] = refl
any-nothing (p ∷ paths) = any-nothing paths

report_residue-Noted :
    (a : JournalAction) (residue : Option RetainedEntry) (r : CleanupReport)
    → Noted
        (cleanup_disposition a.operation)
        (needs_attention r)
        (not (is_none (residue_path residue)))
        (report_residue (cleanup_disposition a.operation) residue r)
unfolding outcome_for
report_residue-Noted a none r = record { named = λ u. ground arith; kept = λ b. b }
report_residue-Noted a (some entry) r =
    let d = cleanup_disposition a.operation in
    Noted-left_alone d (needs_attention r) false entry r
      (unfold outcome_for in record { named = λ u. ground arith; kept = λ b. b })

and-nothing : (b c : Bool) → (b && (c && false)) ≡ false
and-nothing b c = ground arith

module _ (env : Environment) where
  -- Either something is reported, or what is pending has one of the ids that are left.
  abbrev Open : List ℕ → List FilePath → CleanupReport → Transaction env → Type 0
  Open ids paths report t =
      (needs_attention report ≡ true) ⊎ ((paths ≡ []) × PendingIn ids t.journal.actions)

  abbrev Settled : Reconciled env → Type 0
  Settled result =
      (report : CleanupReport)
      → result.0 ≡ ok report
      → (needs_attention report ≡ true) ⊎ All (λ a. is_pending a ≡ false) result.1.journal.actions

  err-Settled : (e : AppError) (t : Transaction env) → Settled (err e, t)
  err-Settled e t r succeeds = absurd (cc)

  -- The status of the action is saved, and the pass goes on.
  saved-Settled :
      (id : ℕ) (ids : List ℕ) (paths : List FilePath) (report : CleanupReport) (t : Transaction env)
      (next : Transaction env → Reconciled env)
      → ((u : Transaction env)
          → UniqueIds u.journal.actions
          → Open ids paths report u
          → Settled (next u))
      → UniqueIds t.journal.actions
      → Open (id ∷ ids) paths report t
      → Settled (
          carry
            (save env (modify env id rolled_back t)).0
            (save env (modify env id rolled_back t)).1
            (λ u t. next t))
  unfolding save modify
  saved-Settled id ids paths report t next go unique still =
      let saved = save env (modify env id rolled_back t) in
      carry-holds Settled saved.0 saved.1 _ (λ e. err-Settled e saved.1)
        (λ u e. go saved.1 (update_action-UniqueIds id t.journal.actions unique) (elim still [
          | inl reported ↦ inl reported
          | inr (none_left, pending) ↦
              inr (none_left, update_action-PendingIn id ids t.journal.actions unique pending)
        ]))

  after_outcome-Settled :
      (id : ℕ) (ids : List ℕ) (outcome : Outcome) (a : JournalAction) (paths : List FilePath)
      (report : CleanupReport) (t : Transaction env) (next : Transaction env → Reconciled env)
      → (outcome ≡ unresolved → needs_attention report ≡ true)
      → ((u : Transaction env)
          → UniqueIds u.journal.actions
          → Open ids (blocked outcome a paths) report u
          → Settled (next u))
      → UniqueIds t.journal.actions
      → Open (id ∷ ids) paths report t
      → Settled (after_outcome env id outcome report t next)
  unfolding after_outcome
  after_outcome-Settled id ids unresolved a paths report t next named go unique still =
      go t unique (inl (named refl))
  after_outcome-Settled id ids reconciled a paths report t next named go unique still =
      saved-Settled id ids paths report t next go unique still
  after_outcome-Settled id ids preserved a paths report t next named go unique still =
      saved-Settled id ids paths report t next go unique still

  clear_or_keep-Named :
      (policy : MissingLinkPolicy) (a : JournalAction) (residue : Option RetainedEntry)
      (report : CleanupReport) (w : env.backend.World)
      → Named env a (needs_attention report) (
          clear_or_keep env policy a [] residue (record {
            report = report_residue (cleanup_disposition a.operation) residue report;
            world = w;
          }))
  unfolding clear_or_keep action_encloses_any
  clear_or_keep-Named policy a residue report w =
      rw
        (
          any-nothing (candidate_paths a),
          and-nothing (is_best_effort (cleanup_disposition a.operation))
              (is_create_directory a.operation),
        )
        (clear_action-Named env a (needs_attention report) policy (residue_path residue) _
          (report_residue-Noted a residue report))

  -- What was reported before an action is cleared is reported after it.
  clear_or_keep-kept :
      (policy : MissingLinkPolicy) (a : JournalAction) (paths : List FilePath)
      (residue : Option RetainedEntry) (report : CleanupReport) (w : env.backend.World)
      → needs_attention report ≡ true
      → needs_attention
          (clear_or_keep env policy a paths residue (record {
            report = report_residue (cleanup_disposition a.operation) residue report;
            world = w;
          })).1.report
        ≡ true
  unfolding clear_or_keep needs_attention
  clear_or_keep-kept policy a paths residue report w reported =
      if-holds (λ (x : Outcome × Pass env). needs_attention x.1.report ≡ true) _ _ _
        ((report_residue-Noted a residue report).kept reported)
        ((clear_action-Named env a (needs_attention report) policy (residue_path residue) _
            (report_residue-Noted a residue report)).1
          reported)

  abbrev cleared_of :
      MissingLinkPolicy
      → ℕ
      → JournalAction
      → List FilePath
      → CleanupReport
      → Transaction env
      → Outcome × Pass env
  cleared_of policy id a paths report t =
      clear_or_keep env policy a paths (residue_of id t.residue) (record {
        report = report_residue (cleanup_disposition a.operation) (residue_of id t.residue) report;
        world = t.world;
      })

  reconcile_one-Settled :
      (policy : MissingLinkPolicy) (id : ℕ) (ids : List ℕ) (found : Option JournalAction)
      (paths : List FilePath) (report : CleanupReport) (t : Transaction env)
      (next : List FilePath → CleanupReport → Transaction env → Reconciled env)
      → find_action id t.journal.actions ≡ found
      → ((ps : List FilePath) (r : CleanupReport) (u : Transaction env)
          → UniqueIds u.journal.actions
          → Open ids ps r u
          → Settled (next ps r u))
      → UniqueIds t.journal.actions
      → Open (id ∷ ids) paths report t
      → Settled (reconcile_one env policy id found paths report t next)
  unfolding reconcile_one
  reconcile_one-Settled policy id ids none paths report t next e go unique still =
      go paths report t unique (elim still [
        | inl reported ↦ inl reported
        | inr (none_left, pending) ↦ inr (
          none_left,
          drop_others id ids t.journal.actions (find_action-none id t.journal.actions e) pending,
        )
      ])
  reconcile_one-Settled policy id ids (some a) paths report t next e go unique (inl reported) =
      let kept =
        clear_or_keep-kept policy a paths (residue_of id t.residue) report t.world reported in
      let cleared = cleared_of policy id a paths report t in
      after_outcome-Settled id ids cleared.0 a paths cleared.1.report
        (record t { world = cleared.1.world }) (next (blocked cleared.0 a paths) cleared.1.report)
        (λ u. kept) (go _ cleared.1.report) unique (inl kept)
  reconcile_one-Settled policy id ids (some a) [] report t next e go unique
        (inr (none_left, pending)) =
      let named = (clear_or_keep-Named policy a (residue_of id t.residue) report t.world).0 in
      let cleared = cleared_of policy id a [] report t in
      after_outcome-Settled id ids cleared.0 a [] cleared.1.report
        (record t { world = cleared.1.world }) (next (blocked cleared.0 a []) cleared.1.report)
        named (go _ cleared.1.report) unique (inr (refl, pending))
  reconcile_one-Settled policy id ids (some a) (p ∷ ps) report t next e go unique
        (inr (none_left, pending)) =
      absurd (cc)

  reconcile_each-Settled :
      (policy : MissingLinkPolicy) (ids : List ℕ) (paths : List FilePath) (report : CleanupReport)
      (t : Transaction env)
      → UniqueIds t.journal.actions
      → Open ids paths report t
      → Settled (reconcile_each env policy ids paths report t)
  unfolding reconcile_each
  reconcile_each-Settled policy [] paths report t unique still = λ r succeeds. elim still [
    | inl reported ↦ inl (subst (λ x. needs_attention x ≡ true) (ok_injective succeeds) reported)
    | inr (none_left, pending) ↦ inr (PendingIn-none t.journal.actions pending)
  ]
  reconcile_each-Settled policy (id ∷ ids) paths report t unique still =
      reconcile_one-Settled policy id ids (find_action id t.journal.actions) paths report t
        (reconcile_each env policy ids) refl (reconcile_each-Settled policy ids) unique still

  -- When the actions have different ids, a pass that succeeds and reports nothing that needs attention leaves
  -- no action pending.
  pub reconcile_pending_actions_complete :
      (policy : MissingLinkPolicy) (t : Transaction env) (report : CleanupReport)
      → UniqueIds t.journal.actions
      → (reconcile_pending_actions env policy t).0 ≡ ok report
      → (needs_attention report ≡ true)
        ⊎ All (λ a. is_pending a ≡ false) (reconcile_pending_actions env policy t).1.journal.actions
  unfolding reconcile_pending_actions cleanup_candidates candidate_ids
  reconcile_pending_actions_complete policy t report unique succeeds =
      reconcile_each-Settled policy (candidate_ids (reverse t.journal.actions)) [] empty_report t
        unique (inr (refl, reverse_aux-PendingIn t.journal.actions [])) report succeeds
