-- ===== src/Transaction/Clear/Verified.antt =====
-- src/transaction/cleanup.rs: what it takes for a required action to be reconciled.
use skillmount.Prelude.{
  Bool, true, false, List, [], ◌∷◌, ◌++◌, Option, Result, ok, err, ◌≡◌, refl, ap, ◌∙◌,
  if◌then◌else◌, if-holds, arith,
}
use skillmount.FilePath.{FilePath}
use skillmount.Mount.Action.{CleanupDisposition, required, best_effort, not_owned}
use skillmount.Journal.Status.{RecordedKind, cleanup_disposition}
use skillmount.Journal.Record.{JournalAction, candidate_paths}
use skillmount.Link.{PathEntry, LinkError, removed, already_absent, not_empty, mismatched}
use skillmount.Transaction.{Environment, RetainedEntry}
use skillmount.Transaction.Report.{CleanupReport, record_left_alone, record_failure}
use skillmount.Transaction.Clear.{
  MissingLinkPolicy, retain, is_residue, Outcome, reconciled, unresolved, outcome_for, Pass, Walk,
  Removal, remove_candidate, after_removal, after_look, visit, inspect_each,
  inspect_undecided_candidates, retain_if_no_verified_removal, conclude, concluded, clear_recorded,
  clear_action,
}

record_left_alone-removed :
    (d : CleanupDisposition) (e : RetainedEntry) (r : CleanupReport)
    → (record_left_alone d e r).removed ≡ r.removed
unfolding record_left_alone
record_left_alone-removed required e r = refl
record_left_alone-removed best_effort e r = refl
record_left_alone-removed not_owned e r = refl

record_failure-removed :
    (d : CleanupDisposition) (e : RetainedEntry) (r : CleanupReport)
    → (record_failure d e r).removed ≡ r.removed
unfolding record_failure
record_failure-removed required e r = refl
record_failure-removed best_effort e r = refl
record_failure-removed not_owned e r = refl

module _ (env : Environment) (a : JournalAction) (before : List FilePath) where
  -- The backend removed a recorded entry at a path, and the report has the path after those it had before.
  abbrev pub VerifiedRemoval : CleanupReport → Type 0
  VerifiedRemoval r =
      (path : FilePath) × (w : env.backend.World) × ((remove_candidate env a path w).0 ≡ ok removed)
      × (r.removed ≡ before ++ path ∷ [])

  abbrev Traced : Walk env → Type 0
  Traced walk = walk.removed_one ≡ true → VerifiedRemoval walk.pass.report

  abbrev Continues : (Bool → Pass env → Walk env) → Type 0
  Continues next =
      (left_alone : Bool) (pass : Pass env)
      → pass.report.removed ≡ before
      → Traced (next left_alone pass)

  after_removal-Traced :
      (d : CleanupDisposition) (path : FilePath) (left_alone : Bool) (r : CleanupReport)
      (next : Bool → Pass env → Walk env) (w : env.backend.World) (result : Removal env)
      → remove_candidate env a path w ≡ result
      → Continues next
      → r.removed ≡ before
      → Traced (after_removal env d path left_alone r next result)
  unfolding after_removal
  after_removal-Traced d path left_alone r next w (ok already_absent, v) e go same = go _ _ same
  after_removal-Traced d path left_alone r next w (ok removed, v) e go same =
      λ is_removed. (path, w, ap (λ x. x.0) e, ap (λ ps. ps ++ path ∷ []) same)
  after_removal-Traced d path left_alone r next w (ok not_empty, v) e go same =
      go _ _ (record_left_alone-removed d _ r ∙ same)
  after_removal-Traced d path left_alone r next w (ok (mismatched m), v) e go same =
      go _ _ (record_left_alone-removed d _ r ∙ same)
  after_removal-Traced d path left_alone r next w (err f, v) e go same =
      go _ _ (record_failure-removed d _ r ∙ same)

  after_look-Traced :
      (path : FilePath) (left_alone : Bool) (pass : Pass env) (next : Bool → Pass env → Walk env)
      (attempt : Walk env) (r : Result LinkError PathEntry)
      → Continues next
      → Traced attempt
      → pass.report.removed ≡ before
      → Traced (after_look env path left_alone pass next attempt r)
  unfolding after_look
  after_look-Traced path left_alone pass next attempt (ok entry) go attempted same =
      if-holds Traced _ (next left_alone pass) attempt (go _ _ same) attempted
  after_look-Traced path left_alone pass next attempt (err e) go attempted same = go _ _ same

  visit-Traced :
      (policy : MissingLinkPolicy) (residue : Option FilePath) (paths : List FilePath)
      → Continues (visit env policy a residue paths)
  unfolding visit
  visit-Traced policy residue [] left_alone pass same = λ is_removed. absurd (cc)
  visit-Traced policy residue (path ∷ paths) left_alone pass same =
      let go = visit-Traced policy residue paths in
      let d = cleanup_disposition a.operation in
      let attempted =
        after_removal-Traced d path left_alone pass.report (visit env policy a residue paths)
          pass.world (remove_candidate env a path pass.world) refl go same in
      if-holds Traced (is_residue residue path) _ _ (go _ _ same) (
        if-holds Traced _ _ _
          (after_look-Traced path left_alone pass (visit env policy a residue paths) _
            (env.backend.inspect_no_follow pass.world path) go attempted same)
          attempted)

  -- Without a removal a required action is unresolved when missing links are retained.
  conclude-unresolved :
      (left_alone : Bool) (pass : Pass env)
      → cleanup_disposition a.operation ≡ required
      → (conclude env retain a left_alone pass).0 ≡ unresolved
  unfolding retain_if_no_verified_removal outcome_for
  conclude-unresolved left_alone pass is_link = ground (arith, is_link)

  if-Verified :
      (b : Bool) (x y : Outcome × Pass env)
      → (b ≡ true → VerifiedRemoval x.1.report)
      → y.0 ≡ unresolved
      → (if b then x else y).0 ≡ reconciled
      → VerifiedRemoval (if b then x else y).1.report
  if-Verified true x y verified stuck done = verified refl
  if-Verified false x y verified stuck done = absurd (cc)

  concluded-Verified :
      (walk : Walk env)
      → Traced walk
      → cleanup_disposition a.operation ≡ required
      → (concluded env retain a walk).0 ≡ reconciled
      → VerifiedRemoval (concluded env retain a walk).1.report
  concluded-Verified walk traced is_link done =
      if-Verified walk.removed_one _ _ traced
        (conclude-unresolved walk.left_alone walk.pass is_link) done

  clear_recorded-Verified :
      (kind : RecordedKind) (residue : Option FilePath) (pass : Pass env)
      → pass.report.removed ≡ before
      → cleanup_disposition a.operation ≡ required
      → (clear_recorded env kind retain a residue pass).0 ≡ reconciled
      → VerifiedRemoval (clear_recorded env kind retain a residue pass).1.report
  unfolding inspect_undecided_candidates
  clear_recorded-Verified RecordedKind.undecided residue pass same is_link done =
      let inspected =
        inspect_each env pass.world (cleanup_disposition a.operation) (candidate_paths a)
          (false, pass.report) in
      let stuck = conclude-unresolved inspected.0 (record pass { report = inspected.1 }) is_link in
      absurd (cc)
  clear_recorded-Verified RecordedKind.file residue pass same is_link done =
      concluded-Verified _ (visit-Traced retain residue (candidate_paths a) _ pass same) is_link
        done
  clear_recorded-Verified RecordedKind.directory residue pass same is_link done =
      concluded-Verified _ (visit-Traced retain residue (candidate_paths a) _ pass same) is_link
        done
  clear_recorded-Verified RecordedKind.symlink residue pass same is_link done =
      concluded-Verified _ (visit-Traced retain residue (candidate_paths a) _ pass same) is_link
        done
  clear_recorded-Verified RecordedKind.junction residue pass same is_link done =
      concluded-Verified _ (visit-Traced retain residue (candidate_paths a) _ pass same) is_link
        done

-- While missing links are retained, a required action is reconciled only when the backend verified and
-- removed its entry at some path, which the report then has.
pub clear_action-verified :
    (env : Environment) (a : JournalAction) (residue : Option FilePath) (pass : Pass env)
    → cleanup_disposition a.operation ≡ required
    → (clear_action env retain a residue pass).0 ≡ reconciled
    → VerifiedRemoval env a pass.report.removed (clear_action env retain a residue pass).1.report
unfolding clear_action
clear_action-verified env a residue pass is_link done =
    clear_recorded-Verified env a pass.report.removed a.kind residue pass refl is_link done
