-- ===== src/Transaction/Clear.antt =====
-- src/transaction/cleanup.rs: `clear_action`, which reconciles one action at the paths its entry may occupy.
pub mod Spares
pub mod Attention
pub mod Verified
use skillmount.Prelude.{
  Bool, true, false, not, ◌&&◌, ◌||◌, List, [], ◌∷◌, ◌++◌, Option, none, some, Result, ok, err,
  if◌then◌else◌,
}
use skillmount.Text.{Str, lit}
use skillmount.FilePath.{FilePath, path_eq}
use skillmount.Paths.{same_key, key_starts_with}
use skillmount.Mount.Action.{CleanupDisposition, required, best_effort, not_owned}
use skillmount.Journal.Status.{RecordedKind, cleanup_disposition}
use skillmount.Journal.Record.{JournalAction, candidate_paths, current_path}
use skillmount.Link.{
  EntryKind, CreatedLinkKind, PathEntry, identity_unavailable, LinkError, RemoveOutcome, removed,
  already_absent, not_empty, mismatched,
}
use skillmount.Link.Label.{entry_label}
use skillmount.Transaction.{Environment, RetainedEntry}
use skillmount.Transaction.Report.{
  CleanupReport, record_left_alone, cleanup_failure, record_failure, mismatch_reason,
}

pub data MissingLinkPolicy : Type 0 where
  retain accept : MissingLinkPolicy

pub data Outcome : Type 0 where
  reconciled preserved unresolved : Outcome

unfoldable pub outcome_for : CleanupDisposition → Bool → Outcome
outcome_for disposition false = reconciled
outcome_for best_effort true = preserved
outcome_for required true = unresolved
outcome_for not_owned true = unresolved

abbrev pub is_required : CleanupDisposition → Bool
is_required required = true
is_required _ = false

abbrev pub is_accept : MissingLinkPolicy → Bool
is_accept accept = true
is_accept retain = false

abbrev pub is_none : {A : Type 0} → Option A → Bool
is_none none = true
is_none (some a) = false

abbrev is_missing : EntryKind → Bool
is_missing EntryKind.missing = true
is_missing _ = false

-- The evidence that the removal of a required link or file needs is not all there.
unfoldable pub lacks_evidence : RecordedKind → JournalAction → Bool
lacks_evidence RecordedKind.symlink a =
    is_none a.source_canonical || (is_none a.link_target || is_none a.identity)
lacks_evidence RecordedKind.junction a =
    is_none a.source_canonical || (is_none a.link_target || is_none a.identity)
lacks_evidence RecordedKind.file a = is_none a.config_contents || is_none a.identity
lacks_evidence RecordedKind.directory a = false
lacks_evidence RecordedKind.undecided a = false

-- `residue_path == Some(path)`.
abbrev pub is_residue : Option FilePath → FilePath → Bool
is_residue none path = false
is_residue (some residue) path = path_eq residue path

not_empty_reason : Str
not_empty_reason =
    lit "the directory holds entries this transaction did not create, so removing it would "
    ++ lit "take them with it"

-- A required link action that no recorded path settled.
unfoldable pub retain_if_no_verified_removal :
    MissingLinkPolicy → JournalAction → Bool → CleanupReport → Bool × CleanupReport
retain_if_no_verified_removal policy action left_alone report =
    let disposition = cleanup_disposition action.operation in
    if left_alone || not (is_required disposition)
    then (left_alone, report)
    else if is_accept policy
    then (
      false,
      record report {
        accepted_missing_links = report.accepted_missing_links ++ current_path action ∷ [];
      },
    )
    else (
      true,
      record_left_alone disposition
          record {
            path = current_path action;
            reason =
                lit "no recorded path contained the created entry, and pathname absence "
                ++ lit "cannot prove that the entry identity was not moved elsewhere";
          }
          report,
    )

module _ (env : Environment) where
  -- The report of a pass and the world it acts on.
  pub record Pass : Type 0 where
    pub report : CleanupReport
    pub world : env.backend.World

  -- How a walk over the candidates ended: whether it removed one, and whether it left one alone.
  pub record Walk : Type 0 where
    pub removed_one : Bool
    pub left_alone : Bool
    pub pass : Pass

  abbrev pub Removal : Type 0
  Removal = Result LinkError RemoveOutcome × env.backend.World

  abbrev unavailable : env.backend.World → Removal
  unavailable w = (ok (mismatched identity_unavailable), w)

  abbrev pub remove_link :
      CreatedLinkKind
      → JournalAction
      → Option FilePath
      → Option FilePath
      → FilePath
      → env.backend.World
      → Removal
  remove_link kind action none target path w = unavailable w
  remove_link kind action (some source) none path w = unavailable w
  remove_link kind action (some source) (some target) path w =
      env.backend.remove_link_entry
        record {
          path = path;
          kind = kind;
          target = target;
          source_canonical = source;
          identity = action.identity;
        }
        w

  abbrev pub remove_file : JournalAction → Option Str → FilePath → env.backend.World → Removal
  remove_file action none path w = unavailable w
  remove_file action (some contents) path w =
      env.backend.remove_config_file
        record { path = path; identity = action.identity; contents = contents } w

  abbrev pub remove_recorded : RecordedKind → JournalAction → FilePath → env.backend.World → Removal
  remove_recorded RecordedKind.file action path w = remove_file action action.config_contents path w
  remove_recorded RecordedKind.directory action path w =
      env.backend.remove_empty_directory (record { path = path; identity = action.identity }) w
  remove_recorded RecordedKind.symlink action path w =
      remove_link CreatedLinkKind.symlink action action.source_canonical action.link_target path w
  remove_recorded RecordedKind.junction action path w =
      remove_link CreatedLinkKind.junction action action.source_canonical action.link_target path w
  remove_recorded RecordedKind.undecided action path w = (ok already_absent, w)

  unfoldable pub remove_candidate : JournalAction → FilePath → env.backend.World → Removal
  remove_candidate action path w = remove_recorded action.kind action path w

  -- What follows an attempted removal; `next` is the rest of the walk.
  unfoldable pub after_removal :
      CleanupDisposition → FilePath → Bool → CleanupReport → (Bool → Pass → Walk) → Removal → Walk
  unfolding not_empty_reason
  after_removal disposition path left_alone report next (ok already_absent, w) =
      next left_alone (record { report = report; world = w })
  after_removal disposition path left_alone report next (ok removed, w) = record {
    removed_one = true;
    left_alone = left_alone;
    pass = record { report = record report { removed = report.removed ++ path ∷ [] }; world = w };
  }
  after_removal disposition path left_alone report next (ok not_empty, w) = next true record {
    report = record_left_alone disposition record { path = path; reason = not_empty_reason } report;
    world = w;
  }
  after_removal disposition path left_alone report next (ok (mismatched m), w) = next true record {
    report =
        record_left_alone disposition record { path = path; reason = mismatch_reason m } report;
    world = w;
  }
  after_removal disposition path left_alone report next (err e, w) =
      next true
        record { report = record_failure disposition (cleanup_failure path e) report; world = w }

  -- Without all evidence an explicit cleanup only looks: an absent candidate is passed over.
  unfoldable pub after_look :
      FilePath → Bool → Pass → (Bool → Pass → Walk) → Walk → Result LinkError PathEntry → Walk
  after_look path left_alone pass next attempt (ok entry) =
      if is_missing entry.kind then next left_alone pass else attempt
  after_look path left_alone pass next attempt (err e) =
      let report = pass.report in
      next true (record pass {
        report = record report { failed = report.failed ++ cleanup_failure path e ∷ [] };
      })

  unfoldable pub visit :
      MissingLinkPolicy → JournalAction → Option FilePath → List FilePath → Bool → Pass → Walk
  unfolding after_look after_removal
  visit policy action residue [] left_alone pass = record {
    removed_one = false;
    left_alone = left_alone;
    pass = pass;
  }
  visit policy action residue (path ∷ paths) left_alone pass =
      let disposition = cleanup_disposition action.operation in
      let next = visit policy action residue paths in
      let attempt =
        after_removal disposition path left_alone pass.report next
          (remove_candidate action path pass.world) in
      if is_residue residue path
      then next left_alone pass
      else if is_accept policy && (is_required disposition && lacks_evidence action.kind action)
      then after_look path left_alone pass next attempt
          (env.backend.inspect_no_follow pass.world path)
      else attempt

  -- The two candidates of an intent whose implementation was not durable.
  unfoldable pub after_inspection :
      CleanupDisposition
      → FilePath
      → Bool
      → CleanupReport
      → Result LinkError PathEntry
      → Bool × CleanupReport
  after_inspection disposition path left_alone report (ok entry) =
      if is_missing entry.kind then (left_alone, report) else (
        true,
        record_left_alone disposition
            record {
              path = path;
              reason =
                  lit "the entry exists as "
                  ++ (entry_label entry.kind
                      ++ (lit " but its concrete kind and identity were not durably recorded, "
                          ++ lit "so ownership cannot be proved"));
            }
            report,
      )
  after_inspection disposition path left_alone report (err e) =
      (true, record report { failed = report.failed ++ cleanup_failure path e ∷ [] })

  unfoldable pub inspect_each :
      env.backend.World
      → CleanupDisposition
      → List FilePath
      → Bool × CleanupReport
      → Bool × CleanupReport
  inspect_each w disposition [] (left_alone, report) = (left_alone, report)
  inspect_each w disposition (path ∷ paths) (left_alone, report) =
      inspect_each w disposition paths
        (after_inspection disposition path left_alone report (env.backend.inspect_no_follow w path))

  -- How a walk or an inspection is concluded.
  abbrev pub conclude : MissingLinkPolicy → JournalAction → Bool → Pass → Outcome × Pass
  conclude policy action left_alone pass =
      let (left_alone, report) =
        retain_if_no_verified_removal policy action left_alone pass.report in
      (
        outcome_for (cleanup_disposition action.operation) left_alone,
        record pass { report = report },
      )

  unfoldable pub inspect_undecided_candidates :
      MissingLinkPolicy → JournalAction → Pass → Outcome × Pass
  inspect_undecided_candidates policy action pass =
      let (left_alone, report) =
        inspect_each pass.world (cleanup_disposition action.operation) (candidate_paths action)
          (false, pass.report) in
      conclude policy action left_alone (record pass { report = report })

  abbrev pub concluded : MissingLinkPolicy → JournalAction → Walk → Outcome × Pass
  concluded policy action walk =
      if walk.removed_one
      then (outcome_for (cleanup_disposition action.operation) walk.left_alone, walk.pass)
      else conclude policy action walk.left_alone walk.pass

  abbrev clear_recorded :
      RecordedKind → MissingLinkPolicy → JournalAction → Option FilePath → Pass → Outcome × Pass
  clear_recorded RecordedKind.undecided policy action residue pass =
      inspect_undecided_candidates policy action pass
  clear_recorded kind policy action residue pass =
      concluded policy action
        (visit policy action residue (candidate_paths action) (not (is_none residue)) pass)

  unfoldable pub clear_action :
      MissingLinkPolicy → JournalAction → Option FilePath → Pass → Outcome × Pass
  unfolding visit inspect_undecided_candidates
  clear_action policy action residue pass = clear_recorded action.kind policy action residue pass
