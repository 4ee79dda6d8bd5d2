-- ===== src/Transaction/Clear/Spares.antt =====
-- src/transaction/cleanup.rs: what `clear_action` leaves in existence.
use skillmount.Prelude.{
  Bool, not, List, [], ◌∷◌, Option, none, some, Result, ok, err, ◌≢◌, if-holds,
}
use skillmount.Text.{Str}
use skillmount.FilePath.{FilePath}
use skillmount.Mount.Action.{CleanupDisposition}
use skillmount.Journal.Status.{RecordedKind, cleanup_disposition}
use skillmount.Journal.Record.{JournalAction, candidate_paths}
use skillmount.Link.{
  CreatedLinkKind, PathEntry, LinkError, removed, already_absent, not_empty, mismatched,
}
use skillmount.Transaction.{Environment}
use skillmount.Transaction.Report.{CleanupReport}
use skillmount.Transaction.Clear.{
  MissingLinkPolicy, is_residue, Outcome, Pass, Walk, Removal, remove_link, remove_file,
  remove_recorded, remove_candidate, after_removal, after_look, visit, inspect_undecided_candidates,
  concluded, clear_action, clear_recorded, is_none,
}

module _ (env : Environment) (i : Str) where
  abbrev Alive : env.backend.World → Type 0
  Alive w = env.backend.Alive w i

  remove_link-spares :
      (kind : CreatedLinkKind) (a : JournalAction) (source target : Option FilePath)
      (path : FilePath) (w : env.backend.World)
      → a.identity ≢ some i
      → Alive w
      → Alive (remove_link env kind a source target path w).1
  remove_link-spares kind a none target path w other alive = alive
  remove_link-spares kind a (some source) none path w other alive = alive
  remove_link-spares kind a (some source) (some target) path w other alive =
      env.backend.remove_link_entry-spares _ w i other alive

  remove_file-spares :
      (a : JournalAction) (contents : Option Str) (path : FilePath) (w : env.backend.World)
      → a.identity ≢ some i
      → Alive w
      → Alive (remove_file env a contents path w).1
  remove_file-spares a none path w other alive = alive
  remove_file-spares a (some contents) path w other alive =
      env.backend.remove_config_file-spares _ w i other alive

  remove_recorded-spares :
      (kind : RecordedKind) (a : JournalAction) (path : FilePath) (w : env.backend.World)
      → a.identity ≢ some i
      → Alive w
      → Alive (remove_recorded env kind a path w).1
  remove_recorded-spares RecordedKind.file a path w other alive =
      remove_file-spares a a.config_contents path w other alive
  remove_recorded-spares RecordedKind.directory a path w other alive =
      env.backend.remove_empty_directory-spares _ w i other alive
  remove_recorded-spares RecordedKind.symlink a path w other alive =
      remove_link-spares CreatedLinkKind.symlink a a.source_canonical a.link_target path w other
        alive
  remove_recorded-spares RecordedKind.junction a path w other alive =
      remove_link-spares CreatedLinkKind.junction a a.source_canonical a.link_target path w other
        alive
  remove_recorded-spares RecordedKind.undecided a path w other alive = alive

  -- A walk goes on from any pass in which the entry exists.
  abbrev Continues : (Bool → Pass env → Walk env) → Type 0
  Continues next =
      (left_alone : Bool) (pass : Pass env)
      → Alive pass.world
      → Alive (next left_alone pass).pass.world

  after_removal-spares :
      (disposition : CleanupDisposition) (path : FilePath) (left_alone : Bool)
      (report : CleanupReport) (next : Bool → Pass env → Walk env) (r : Removal env)
      → Continues next
      → Alive r.1
      → Alive (after_removal env disposition path left_alone report next r).pass.world
  unfolding after_removal
  after_removal-spares disposition path left_alone report next (ok already_absent, w) go alive =
      go _ _ alive
  after_removal-spares disposition path left_alone report next (ok removed, w) go alive = alive
  after_removal-spares disposition path left_alone report next (ok not_empty, w) go alive =
      go _ _ alive
  after_removal-spares disposition path left_alone report next (ok (mismatched m), w) go alive =
      go _ _ alive
  after_removal-spares disposition path left_alone report next (err e, w) go alive = go _ _ alive

  after_look-spares :
      (path : FilePath) (left_alone : Bool) (pass : Pass env) (next : Bool → Pass env → Walk env)
      (attempt : Walk env) (r : Result LinkError PathEntry)
      → Continues next
      → Alive attempt.pass.world
      → Alive pass.world
      → Alive (after_look env path left_alone pass next attempt r).pass.world
  unfolding after_look
  after_look-spares path left_alone pass next attempt (ok entry) go attempted alive =
      if-holds (λ walk. Alive walk.pass.world) _ (next left_alone pass) attempt (go _ _ alive)
        attempted
  after_look-spares path left_alone pass next attempt (err e) go attempted alive = go _ _ alive

  visit-spares :
      (policy : MissingLinkPolicy) (a : JournalAction) (residue : Option FilePath)
      (paths : List FilePath)
      → a.identity ≢ some i
      → Continues (visit env policy a residue paths)
  unfolding visit remove_candidate
  visit-spares policy a residue [] other left_alone pass alive = alive
  visit-spares policy a residue (path ∷ paths) other left_alone pass alive =
      let go = visit-spares policy a residue paths other in
      let attempted =
        after_removal-spares (cleanup_disposition a.operation) path left_alone pass.report
          (visit env policy a residue paths) (remove_candidate env a path pass.world) go
          (remove_recorded-spares a.kind a path pass.world other alive) in
      if-holds (λ (walk : Walk env). Alive walk.pass.world) (is_residue residue path) _ _
        (go _ _ alive)
        (if-holds (λ (walk : Walk env). Alive walk.pass.world) _ _ _
          (after_look-spares path left_alone pass (visit env policy a residue paths) _
            (env.backend.inspect_no_follow pass.world path) go attempted alive)
          attempted)

  concluded-world :
      (policy : MissingLinkPolicy) (a : JournalAction) (walk : Walk env)
      → Alive walk.pass.world
      → Alive (concluded env policy a walk).1.world
  concluded-world policy a walk alive =
      if-holds (λ (result : Outcome × Pass env). Alive result.1.world) walk.removed_one _ _ alive
        alive

  clear_recorded-spares :
      (kind : RecordedKind) (policy : MissingLinkPolicy) (a : JournalAction)
      (residue : Option FilePath) (pass : Pass env)
      → a.identity ≢ some i
      → Alive pass.world
      → Alive (clear_recorded env kind policy a residue pass).1.world
  unfolding inspect_undecided_candidates
  clear_recorded-spares RecordedKind.undecided policy a residue pass other alive = alive
  clear_recorded-spares RecordedKind.file policy a residue pass other alive =
      concluded-world policy a _
        (visit-spares policy a residue (candidate_paths a) other (not (is_none residue)) pass alive)
  clear_recorded-spares RecordedKind.directory policy a residue pass other alive =
      concluded-world policy a _
        (visit-spares policy a residue (candidate_paths a) other (not (is_none residue)) pass alive)
  clear_recorded-spares RecordedKind.symlink policy a residue pass other alive =
      concluded-world policy a _
        (visit-spares policy a residue (candidate_paths a) other (not (is_none residue)) pass alive)
  clear_recorded-spares RecordedKind.junction policy a residue pass other alive =
      concluded-world policy a _
        (visit-spares policy a residue (candidate_paths a) other (not (is_none residue)) pass alive)

  -- Clearing an action leaves every entry in existence whose identity the action does not record.
  pub clear_action-spares :
      (policy : MissingLinkPolicy) (a : JournalAction) (residue : Option FilePath) (pass : Pass env)
      → a.identity ≢ some i
      → env.backend.Alive pass.world i
      → env.backend.Alive (clear_action env policy a residue pass).1.world i
  unfolding clear_action
  clear_action-spares policy a residue pass other alive =
      clear_recorded-spares a.kind policy a residue pass other alive
