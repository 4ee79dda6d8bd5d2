-- ===== src/Link/Outcome.antt =====
-- src/link/unix.rs, with the directory helpers of src/link/mod.rs: what the results of the system calls are
-- turned into.
use skillmount.Prelude.{
  ℕ, String, ◌*◌, Bool, true, false, not, ◌||◌, [], ◌++◌, Option, none, some, Result, ok, err,
  if◌then◌else◌,
}
use skillmount.Text.{Str, lit, ◌===◌}
use skillmount.FilePath.{FilePath, parent, is_absolute, join}
use skillmount.Paths.{same_key}
use skillmount.Mount.Action.{LinkMode}
use skillmount.Link.{
  EntryKind, CreatedLinkKind, LinkTarget, PathEntry, LinkRequest, CreatedLink, OwnedDirectory,
  OwnedConfigFile, LinkError, inspect_failed, create_failed, place_failed, remove_failed,
  unsupported, PlacementMismatch, inspection_failed, PlacementOutcome, placed, misplaced,
  RemoveOutcome, removed, already_absent, not_empty, mismatched,
}
use skillmount.Link.Label.{show_error}
use skillmount.Link.Ownership.{Ownership, owned, absent, mismatch, is_owned, placement_mismatch}
use skillmount.Link.Host.{
  IoErrorKind, not_found, already_exists, unsupported_call, directory_not_empty, IoError, FileType,
  symlink_type, directory_type, file_type, other_type,
}

abbrev pub max_config_bytes : ℕ
max_config_bytes = 1024 * 1024

abbrev pub file_kind : FileType → EntryKind
file_kind symlink_type = EntryKind.symlink
file_kind directory_type = EntryKind.directory
file_kind file_type = EntryKind.file
file_kind other_type = EntryKind.other

abbrev pub is_not_found : IoErrorKind → Bool
is_not_found not_found = true
is_not_found _ = false

abbrev pub is_directory : FileType → Bool
is_directory directory_type = true
is_directory _ = false

abbrev pub is_file : FileType → Bool
is_file file_type = true
is_file _ = false

abbrev pub is_junction : LinkMode → Bool
is_junction LinkMode.junction = true
is_junction _ = false

abbrev pub is_some : Option Str → Bool
is_some none = false
is_some (some s) = true

-- `Some(identity) == recorded`.
abbrev pub is_recorded : Str → Option Str → Bool
is_recorded live none = false
is_recorded live (some recorded) = live === recorded

-- `Result::map_err`.
abbrev pub map_error : {E F A : Type 0} → (E → F) → Result E A → Result F A
map_error f (ok a) = ok a
map_error f (err e) = err (f e)

abbrev pub inspect_error : FilePath → IoError → LinkError
inspect_error path error = inspect_failed path error.text

abbrev pub create_error : LinkRequest → Str → LinkError
create_error request reason = create_failed request.staged_path request.source reason

-- `retained_create_error` and `retained_directory_create_error`, which differ in one word.
abbrev pub retained : FilePath → FilePath → String → Str → LinkError
retained path source across reason = create_failed path source (
    reason
    ++ (lit "; no pathname rollback was attempted because ownership could not be proved across "
        ++ (lit across ++ (lit "; inspect the retained staged path " ++ path))))

abbrev pub resolve_raw : FilePath → FilePath → FilePath
resolve_raw path raw =
    if is_absolute raw
    then raw
    else elim (parent path) [ none ↦ join [] raw | some directory ↦ join directory raw ]

-- What the two checks before a removal lead to.
abbrev pub when_owned :
    {W : Type 0}
    → Ownership
    → W
    → (W → Result LinkError RemoveOutcome × W)
    → Result LinkError RemoveOutcome × W
when_owned owned w next = next w
when_owned absent w next = (ok already_absent, w)
when_owned (mismatch m) w next = (ok (mismatched m), w)

-- A placement goes on when nothing is wrong with the entry at `path`.
abbrev pub when_sound :
    {A W : Type 0}
    → Option PlacementMismatch
    → FilePath
    → W
    → (W → Result LinkError (PlacementOutcome A) × W)
    → Result LinkError (PlacementOutcome A) × W
when_sound none path w next = next w
when_sound (some m) path w next = (ok (misplaced (record { path = path; mismatch = m })), w)

-- The verdict on the placed entry: an inspection that fails is reported as its mismatch.
abbrev pub verdict : Result LinkError Ownership → Option PlacementMismatch
verdict (ok o) = placement_mismatch o
verdict (err e) = some (inspection_failed (show_error e))

abbrev pub settle :
    {A W : Type 0}
    → Option PlacementMismatch
    → FilePath
    → A
    → W
    → Result LinkError (PlacementOutcome A) × W
settle none destination a w = (ok (placed a), w)
settle (some m) destination a w = (ok (misplaced (record { path = destination; mismatch = m })), w)

abbrev pub target_test : CreatedLink → LinkTarget → Bool
target_test recorded target = same_key recorded.target target.raw

-- `place_path_no_replace`, from what the rename returned.
abbrev pub rename_result : FilePath → FilePath → Result IoError (Unit {0}) → Result LinkError Bool
rename_result staged destination (ok u) = ok true
rename_result staged destination (err e) = elim e.kind [
  | already_exists ↦ ok false
  | unsupported_call ↦
      err (unsupported destination (lit "no-replace renaming is unavailable here: " ++ e.text))
  | _ ↦ err (place_failed staged destination e.text)
]

abbrev pub rmdir_result : FilePath → Result IoError (Unit {0}) → Result LinkError RemoveOutcome
rmdir_result path (ok u) = ok removed
rmdir_result path (err e) = elim e.kind [
  | directory_not_empty ↦ ok not_empty
  | _ ↦ err (remove_failed path e.text)
]

abbrev pub unlink_result : FilePath → Result IoError (Unit {0}) → Result LinkError RemoveOutcome
unlink_result path (ok u) = ok removed
unlink_result path (err e) = err (remove_failed path e.text)

-- What is recorded of a link that was just made, when its first observation is the right one.
abbrev pub created_link :
    LinkRequest → FilePath → Option LinkTarget → PathEntry → Result LinkError CreatedLink
created_link request canonical none live = err (
    retained request.staged_path request.source "unlink"
      (lit "the initial staged entry observation was not a symbolic link"))
created_link request canonical (some target) live =
    let matches : Bool = elim live.kind [ EntryKind.symlink ↦ true | _ ↦ false ] in
    if not matches || (not (same_key canonical target.raw) || not (is_some live.identity))
    then err (
        retained request.staged_path request.source "unlink"
          (lit "the initial staged entry observation did not match the required symbolic link"))
    else ok record {
      path = request.staged_path;
      kind = CreatedLinkKind.symlink;
      target = target.raw;
      source_canonical = canonical;
      identity = live.identity;
    }

abbrev pub created_directory : FilePath → PathEntry → Result LinkError OwnedDirectory
created_directory path live =
    let matches : Bool = elim live.kind [ EntryKind.directory ↦ true | _ ↦ false ] in
    if not matches || not (is_some live.identity)
    then err (
        retained path path "removal"
          (lit "the initial staged entry observation was not a directory with stable identity"))
    else ok record { path = path; identity = live.identity }

abbrev pub kept_if_owned : OwnedConfigFile → Ownership → Result LinkError OwnedConfigFile
kept_if_owned file o =
    if is_owned o
    then ok file
    else err (inspect_failed file.path (lit "created configuration changed; retained for recovery"))
