-- ===== src/Transaction/Report.antt =====
-- src/transaction/cleanup.rs: what one pass did, and what it declined to do.
use skillmount.Prelude.{Bool, true, false, not, ◌||◌, List, [], ◌∷◌, ◌++◌, map, Option, none, some}
use skillmount.Text.{Str, lit}
use skillmount.FilePath.{FilePath}
use skillmount.Mount.Action.{CleanupDisposition, required, best_effort, not_owned}
use skillmount.Link.{
  LinkError, inspect_failed, create_failed, place_failed, remove_failed, unsupported,
  OwnershipMismatch,
}
use skillmount.Link.Label.{show_error, ownership_label}
use skillmount.Transaction.{Environment, RetainedEntry}

pub data JournalRetention : Type 0 where
  requested_keep incomplete_cleanup : (path : FilePath) → JournalRetention

pub record CleanupReport : Type 0 where
  pub removed : List FilePath
  pub accepted_missing_links : List FilePath
  pub retained : List RetainedEntry
  pub preserved_scaffolding : List RetainedEntry
  pub failed : List RetainedEntry
  pub journal_retained : Option JournalRetention

abbrev pub empty_report : CleanupReport
empty_report = record {
  removed = [];
  accepted_missing_links = [];
  retained = [];
  preserved_scaffolding = [];
  failed = [];
  journal_retained = none;
}

abbrev pub is_empty : List RetainedEntry → Bool
is_empty [] = true
is_empty (e ∷ es) = false

unfoldable pub needs_attention : CleanupReport → Bool
needs_attention report = not (is_empty report.retained) || not (is_empty report.failed)

unfoldable pub record_left_alone :
    CleanupDisposition → RetainedEntry → CleanupReport → CleanupReport
record_left_alone best_effort entry report = record report {
  preserved_scaffolding = report.preserved_scaffolding ++ entry ∷ [];
}
record_left_alone required entry report = record report { retained = report.retained ++ entry ∷ [] }
record_left_alone not_owned entry report = record report {
  retained = report.retained ++ entry ∷ [];
}

unfoldable pub cleanup_failure : FilePath → LinkError → RetainedEntry
cleanup_failure path (inspect_failed at reason) = record { path = path; reason = reason }
cleanup_failure path (remove_failed at reason) = record { path = path; reason = reason }
cleanup_failure path (unsupported at reason) = record { path = path; reason = reason }
cleanup_failure path (create_failed destination source reason) = record {
  path = path;
  reason = show_error (create_failed destination source reason);
}
cleanup_failure path (place_failed staged destination reason) = record {
  path = path;
  reason = show_error (place_failed staged destination reason);
}

-- A removal that failed is an observation for scaffolding, and a failure otherwise.
unfoldable pub record_failure : CleanupDisposition → RetainedEntry → CleanupReport → CleanupReport
record_failure best_effort failure report = record report {
  preserved_scaffolding =
      report.preserved_scaffolding
      ++ record {
        path = failure.path;
        reason =
            lit "pruning this scaffolding directory failed ("
            ++ (failure.reason ++ lit "), so it was left exactly as it is");
      }
        ∷ [];
}
record_failure required failure report = record report { failed = report.failed ++ failure ∷ [] }
record_failure not_owned failure report = record report { failed = report.failed ++ failure ∷ [] }

unfoldable pub mismatch_reason : OwnershipMismatch → Str
mismatch_reason mismatch =
    ownership_label mismatch
    ++ lit ", so it cannot be proved to belong to this session and was left untouched"

describe_retention : Environment → Option JournalRetention → List Str
describe_retention env none = []
describe_retention env (some (requested_keep path)) =
    (lit "transaction journal "
      ++ (env.show_path path
          ++ (lit " and its mounts were retained because --keep-mounts was requested; "
              ++ lit "they require an explicit cleanup policy")))
    ∷ []
describe_retention env (some (incomplete_cleanup path)) =
    (lit "transaction journal "
      ++ (env.show_path path ++ lit " is retained because cleanup could not finish"))
    ∷ []

unfoldable pub describe : Environment → CleanupReport → List Str
unfolding describe_retention
describe env report =
    map (λ entry. lit "retained " ++ env.show_entry entry) report.retained
    ++ (map (λ failure. lit "cleanup error: " ++ env.show_entry failure) report.failed
        ++ describe_retention env report.journal_retained)
