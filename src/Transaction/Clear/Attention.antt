-- ===== src/Transaction/Clear/Attention.antt =====
-- src/transaction/cleanup.rs: the actions that `clear_action` leaves unresolved, and its report.
use skillmount.Prelude.{
  Bool, true, false, not, List, [], ◌∷◌, ◌++◌, Option, Result, ok, err, ◌≡◌, refl, if-holds, arith,
}
use skillmount.FilePath.{FilePath}
use skillmount.Mount.Action.{CleanupDisposition, required, best_effort, not_owned}
use skillmount.Journal.Status.{RecordedKind, cleanup_disposition}
use skillmount.Journal.Record.{JournalAction, candidate_paths}
use skillmount.Link.{PathEntry, LinkError, removed, already_absent, not_empty, mismatched}
use skillmount.Transaction.{Environment, RetainedEntry}
use skillmount.Transaction.Report.{
  CleanupReport, is_empty, needs_attention, record_left_alone, record_failure,
}
use skillmount.Transaction.Clear.{
  MissingLinkPolicy, is_accept, is_residue, Outcome, unresolved, outcome_for, Pass, Walk, Removal,
  remove_candidate, after_removal, after_look, visit, after_inspection, inspect_each,
  inspect_undecided_candidates, retain_if_no_verified_removal, conclude, concluded, clear_recorded,
  clear_action, is_none,
}

is_empty-append : (es : List RetainedEntry) (e : RetainedEntry) → is_empty (es ++ e ∷ []) ≡ false
is_empty-append [] e = refl
is_empty-append (d ∷ es) e = refl

pub needs_attention-retained :
    (r : CleanupReport) (e : RetainedEntry)
    → needs_attention (record r { retained = r.retained ++ e ∷ [] }) ≡ true
unfolding needs_attention
needs_attention-retained r e = rw (is_empty-append r.retained e) refl

pub needs_attention-failed :
    (r : CleanupReport) (e : RetainedEntry)
    → needs_attention (record r { failed = r.failed ++ e ∷ [] }) ≡ true
unfolding needs_attention
needs_attention-failed r e = ground (arith, is_empty-append r.failed e)

-- What was left alone of an action that is not best effort is in the report, and what a report held before
-- the pass it holds still.
pub record Noted (d : CleanupDisposition) (before : Bool) (left_alone : Bool) (r : CleanupReport)
    : Type 0 where
  pub named : outcome_for d left_alone ≡ unresolved → needs_attention r ≡ true
  pub kept : before ≡ true → needs_attention r ≡ true

pub Noted-left_alone :
    (d : CleanupDisposition) (before left_alone : Bool) (e : RetainedEntry) (r : CleanupReport)
    → Noted d before left_alone r
    → Noted d before true (record_left_alone d e r)
unfolding record_left_alone outcome_for needs_attention
Noted-left_alone best_effort before left_alone e r noted = record {
  named = λ u. ground arith;
  kept = λ b. noted.kept b;
}
Noted-left_alone required before left_alone e r noted = record {
  named = λ u. needs_attention-retained r e;
  kept = λ b. needs_attention-retained r e;
}
Noted-left_alone not_owned before left_alone e r noted = record {
  named = λ u. needs_attention-retained r e;
  kept = λ b. needs_attention-retained r e;
}

Noted-failure :
    (d : CleanupDisposition) (before left_alone : Bool) (e : RetainedEntry) (r : CleanupReport)
    → Noted d before left_alone r
    → Noted d before true (record_failure d e r)
unfolding record_failure outcome_for needs_attention
Noted-failure best_effort before left_alone e r noted = record {
  named = λ u. ground arith;
  kept = λ b. noted.kept b;
}
Noted-failure required before left_alone e r noted = record {
  named = λ u. needs_attention-failed r e;
  kept = λ b. needs_attention-failed r e;
}
Noted-failure not_owned before left_alone e r noted = record {
  named = λ u. needs_attention-failed r e;
  kept = λ b. needs_attention-failed r e;
}

-- A failed inspection is a failure whatever the action is.
Noted-failed :
    (d : CleanupDisposition) (before : Bool) (e : RetainedEntry) (r : CleanupReport)
    → Noted d before true (record r { failed = r.failed ++ e ∷ [] })
Noted-failed d before e r = record {
  named = λ u. needs_attention-failed r e;
  kept = λ b. needs_attention-failed r e;
}

Noted-retain :
    (policy : MissingLinkPolicy) (a : JournalAction) (before left_alone : Bool) (r : CleanupReport)
    → Noted (cleanup_disposition a.operation) before left_alone r
    → Noted
        (cleanup_disposition a.operation)
        before
        (retain_if_no_verified_removal policy a left_alone r).0
        (retain_if_no_verified_removal policy a left_alone r).1
unfolding retain_if_no_verified_removal needs_attention outcome_for
Noted-retain policy a before left_alone r noted =
    let d = cleanup_disposition a.operation in
    if-holds (λ (x : Bool × CleanupReport). Noted d before x.0 x.1) _ _ _ noted
      (if-holds (λ (x : Bool × CleanupReport). Noted d before x.0 x.1) (is_accept policy) _ _
        (record { named = λ u. ground arith; kept = noted.kept })
        (Noted-left_alone d before left_alone _ r noted))

module _ (env : Environment) (a : JournalAction) (before : Bool) where
  abbrev D : CleanupDisposition
  D = cleanup_disposition a.operation

  abbrev NotedWalk : Walk env → Type 0
  NotedWalk walk = Noted D before walk.left_alone walk.pass.report

  abbrev Continues : (Bool → Pass env → Walk env) → Type 0
  Continues next =
      (left_alone : Bool) (pass : Pass env)
      → Noted D before left_alone pass.report
      → NotedWalk (next left_alone pass)

  after_removal-Noted :
      (path : FilePath) (left_alone : Bool) (r : CleanupReport) (next : Bool → Pass env → Walk env)
      (result : Removal env)
      → Continues next
      → Noted D before left_alone r
      → NotedWalk (after_removal env D path left_alone r next result)
  unfolding after_removal
  after_removal-Noted path left_alone r next (ok already_absent, w) go noted = go _ _ noted
  after_removal-Noted path left_alone r next (ok removed, w) go noted =
      unfold needs_attention in record { named = noted.named; kept = noted.kept }
  after_removal-Noted path left_alone r next (ok not_empty, w) go noted =
      go _ _ (Noted-left_alone D before left_alone _ r noted)
  after_removal-Noted path left_alone r next (ok (mismatched m), w) go noted =
      go _ _ (Noted-left_alone D before left_alone _ r noted)
  after_removal-Noted path left_alone r next (err e, w) go noted =
      go _ _ (Noted-failure D before left_alone _ r noted)

  after_look-Noted :
      (path : FilePath) (left_alone : Bool) (pass : Pass env) (next : Bool → Pass env → Walk env)
      (attempt : Walk env) (r : Result LinkError PathEntry)
      → Continues next
      → NotedWalk attempt
      → Noted D before left_alone pass.report
      → NotedWalk (after_look env path left_alone pass next attempt r)
  unfolding after_look
  after_look-Noted path left_alone pass next attempt (ok entry) go attempted noted =
      if-holds NotedWalk _ (next left_alone pass) attempt (go _ _ noted) attempted
  after_look-Noted path left_alone pass next attempt (err e) go attempted noted =
      go _ _ (Noted-failed D before _ pass.report)

  visit-Noted :
      (policy : MissingLinkPolicy) (residue : Option FilePath) (paths : List FilePath)
      → Continues (visit env policy a residue paths)
  unfolding visit
  visit-Noted policy residue [] left_alone pass noted = noted
  visit-Noted policy residue (path ∷ paths) left_alone pass noted =
      let go = visit-Noted policy residue paths in
      let attempted =
        after_removal-Noted path left_alone pass.report (visit env policy a residue paths)
          (remove_candidate env a path pass.world) go noted in
      if-holds NotedWalk (is_residue residue path) _ _ (go _ _ noted) (
        if-holds NotedWalk _ _ _
          (after_look-Noted path left_alone pass (visit env policy a residue paths) _
            (env.backend.inspect_no_follow pass.world path) go attempted noted)
          attempted)

  after_inspection-Noted :
      (path : FilePath) (left_alone : Bool) (r : CleanupReport) (seen : Result LinkError PathEntry)
      → Noted D before left_alone r
      → Noted D before
          (after_inspection env D path left_alone r seen).0
          (after_inspection env D path left_alone r seen).1
  unfolding after_inspection
  after_inspection-Noted path left_alone r (ok entry) noted =
      if-holds (λ (x : Bool × CleanupReport). Noted D before x.0 x.1) _ _ _ noted
        (Noted-left_alone D before left_alone _ r noted)
  after_inspection-Noted path left_alone r (err e) noted = Noted-failed D before _ r

  inspect_each-Noted :
      (w : env.backend.World) (paths : List FilePath) (x : Bool × CleanupReport)
      → Noted D before x.0 x.1
      → Noted D before (inspect_each env w D paths x).0 (inspect_each env w D paths x).1
  unfolding inspect_each
  inspect_each-Noted w [] (left_alone, r) noted = noted
  inspect_each-Noted w (path ∷ paths) (left_alone, r) noted =
      inspect_each-Noted w paths _
        (after_inspection-Noted path left_alone r (env.backend.inspect_no_follow w path) noted)

  -- The outcome is unresolved only with a report that needs attention.
  abbrev pub Named : Outcome × Pass env → Type 0
  Named result =
      (result.0 ≡ unresolved → needs_attention result.1.report ≡ true)
      × (before ≡ true → needs_attention result.1.report ≡ true)

  conclude-Named :
      (policy : MissingLinkPolicy) (left_alone : Bool) (pass : Pass env)
      → Noted D before left_alone pass.report
      → Named (conclude env policy a left_alone pass)
  conclude-Named policy left_alone pass noted =
      let settled = Noted-retain policy a before left_alone pass.report noted in
      (settled.named, settled.kept)

  concluded-Named :
      (policy : MissingLinkPolicy) (walk : Walk env)
      → NotedWalk walk
      → Named (concluded env policy a walk)
  concluded-Named policy walk noted =
      if-holds Named walk.removed_one _ _ (noted.named, noted.kept)
        (conclude-Named policy walk.left_alone walk.pass noted)

  clear_recorded-Named :
      (kind : RecordedKind) (policy : MissingLinkPolicy) (residue : Option FilePath)
      (pass : Pass env)
      → Noted D before (not (is_none residue)) pass.report
      → Named (clear_recorded env kind policy a residue pass)
  unfolding inspect_undecided_candidates
  clear_recorded-Named RecordedKind.undecided policy residue pass noted =
      let inspected = inspect_each env pass.world D (candidate_paths a) (false, pass.report) in
      conclude-Named policy inspected.0 (record pass { report = inspected.1 })
        (inspect_each-Noted pass.world (candidate_paths a) (false, pass.report)
          (unfold outcome_for in record { named = λ u. ground arith; kept = noted.kept }))
  clear_recorded-Named RecordedKind.file policy residue pass noted =
      concluded-Named policy _ (visit-Noted policy residue (candidate_paths a) _ pass noted)
  clear_recorded-Named RecordedKind.directory policy residue pass noted =
      concluded-Named policy _ (visit-Noted policy residue (candidate_paths a) _ pass noted)
  clear_recorded-Named RecordedKind.symlink policy residue pass noted =
      concluded-Named policy _ (visit-Noted policy residue (candidate_paths a) _ pass noted)
  clear_recorded-Named RecordedKind.junction policy residue pass noted =
      concluded-Named policy _ (visit-Noted policy residue (candidate_paths a) _ pass noted)

  pub clear_action-Named :
      (policy : MissingLinkPolicy) (residue : Option FilePath) (pass : Pass env)
      → Noted D before (not (is_none residue)) pass.report
      → Named (clear_action env policy a residue pass)
  unfolding clear_action
  clear_action-Named policy residue pass noted =
      clear_recorded-Named a.kind policy residue pass noted
