-- ===== src/Link/Unix.antt =====
-- src/link/unix.rs, with the directory helpers of src/link/mod.rs: the operations of the backend over the
-- system calls. The hooks that only tests build are left out.
pub mod Spares
pub mod Fresh
pub mod Instance
use skillmount.Prelude.{
  ◌+◌, Bool, true, false, not, ◌||◌, ltb, length, Option, none, some, Result, ok, err, ◌>>=◌, carry,
  if◌then◌else◌, ◌==◌,
}
use skillmount.Text.{Str, lit, ◌===◌}
use skillmount.FilePath.{FilePath}
use skillmount.Link.{
  EntryKind, LinkTarget, PathEntry, plain, LinkRequest, CreatedLink, OwnedDirectory,
  OwnedConfigFile, not_a_file, contents_changed, identity_changed, LinkError, inspect_failed,
  create_failed, unsupported, PlacementOutcome, destination_exists, RemoveOutcome, relocate_link,
  relocate_directory, relocate_file,
}
use skillmount.Link.Label.{show_error}
use skillmount.Link.Ownership.{
  Ownership, owned, absent, mismatch, is_owned, verify_ownership, verify_directory_ownership,
  verify_config_ownership, placement_mismatch,
}
use skillmount.Link.Host.{Host, IoError, FileType, Metadata, identity_of}
use skillmount.Link.Outcome.{
  max_config_bytes, file_kind, is_not_found, is_directory, is_file, is_junction, map_error,
  is_recorded, inspect_error, create_error, retained, resolve_raw, when_owned, when_sound, verdict,
  settle, target_test, rename_result, rmdir_result, unlink_result, created_link, created_directory,
  kept_if_owned,
}

module _ (h : Host) where
  unfoldable pub read_target : h.World → FilePath → Result LinkError LinkTarget
  read_target w path = map_error (inspect_error path) (h.read_link w path) >>= λ raw.
      ok record { raw = raw; resolved = resolve_raw path raw }

  -- The target is read of a symbolic link only.
  abbrev pub target_of : h.World → FilePath → FileType → Result LinkError (Option LinkTarget)
  unfolding read_target
  target_of w path FileType.symlink_type = read_target w path >>= λ target. ok (some target)
  target_of w path FileType.directory_type = ok none
  target_of w path FileType.file_type = ok none
  target_of w path FileType.other_type = ok none

  abbrev pub entry_from : h.World → FilePath → Result IoError Metadata → Result LinkError PathEntry
  entry_from w path (err e) =
      if is_not_found e.kind then ok (plain path EntryKind.missing) else err (inspect_error path e)
  entry_from w path (ok m) = target_of w path m.file_type >>= λ target. ok record {
    path = path;
    kind = file_kind m.file_type;
    target = target;
    identity = some (identity_of m);
  }

  unfoldable pub inspect_no_follow : h.World → FilePath → Result LinkError PathEntry
  inspect_no_follow w path = entry_from w path (h.symlink_metadata w path)

  unfoldable pub canonical_directory : h.World → FilePath → Result LinkError FilePath
  canonical_directory w path =
      map_error (inspect_error path) (h.canonicalize w path) >>= λ canonical.
      map_error (inspect_error path) (h.metadata w canonical) >>= λ m.
      if is_directory m.file_type
      then ok canonical
      else err (inspect_failed path (lit "expected a directory"))

  -- `config_file_matches` of src/link/config_file.rs, on the opened file.
  unfoldable pub config_file_matches : h.World → h.Handle → Str → Result IoError Bool
  config_file_matches w file contents =
      if ltb max_config_bytes (length contents)
      then ok false
      else h.file_metadata w file >>= λ m.
          if not (is_file m.file_type) || not (m.len == length contents)
          then ok false
          else h.rewind w file >>= λ u.
              h.read_at_most w file (length contents + 1) >>= λ actual. ok (actual === contents)

  -- The opened file is the recorded one, its contents are, and the path still leads to it.
  abbrev pub opened_ownership :
      h.World → OwnedConfigFile → h.Handle → Metadata → Result LinkError Ownership
  unfolding config_file_matches inspect_no_follow
  opened_ownership w recorded file m =
      if not (is_file m.file_type)
      then ok (mismatch not_a_file)
      else if not (is_recorded (identity_of m) recorded.identity)
      then ok (mismatch identity_changed)
      else map_error (inspect_error recorded.path) (config_file_matches w file recorded.contents)
        >>= λ same.
            if not same
            then ok (mismatch contents_changed)
            else inspect_no_follow w recorded.path >>= λ live.
                ok (verify_config_ownership live recorded)

  abbrev pub observed_ownership : h.World → OwnedConfigFile → Ownership → Result LinkError Ownership
  observed_ownership w recorded absent = ok absent
  observed_ownership w recorded (mismatch m) = ok (mismatch m)
  observed_ownership w recorded owned =
      map_error (inspect_error recorded.path) (h.open_no_follow w recorded.path) >>= λ file.
      map_error (inspect_error recorded.path) (h.file_metadata w file) >>= λ m.
      opened_ownership w recorded file m

  unfoldable pub config_ownership : h.World → OwnedConfigFile → Result LinkError Ownership
  config_ownership w recorded = inspect_no_follow w recorded.path >>= λ live.
      observed_ownership w recorded (verify_config_ownership live recorded)

  unfoldable pub verify_config_file : h.World → OwnedConfigFile → Result LinkError Bool
  verify_config_file w recorded = config_ownership w recorded >>= λ o. ok (is_owned o)

  unfoldable pub create_directory_link :
      LinkRequest → h.World → Result LinkError CreatedLink × h.World
  create_directory_link request w =
      if is_junction request.mode
      then (err (unsupported request.staged_path (lit "junctions exist only on Windows")), w)
      else carry
          (map_error (λ e. create_error request (show_error e))
            (canonical_directory w request.source))
          w
          (λ canonical w.
            let (made, w) = h.symlink canonical request.staged_path w in
            carry (map_error (λ e. create_error request e.text) made) w (λ u w. (
              map_error (λ e. retained request.staged_path request.source "unlink" (show_error e))
                    (inspect_no_follow w request.staged_path)
                  >>= λ live. created_link request canonical live.target live,
              w,
            )))

  -- `create_directory_entry`.
  unfoldable pub create_directory : FilePath → h.World → Result LinkError OwnedDirectory × h.World
  create_directory path w =
      let (made, w) = h.create_dir path w in
      carry (map_error (λ e. create_failed path path e.text) made) w (λ u w. (
        map_error (λ e. retained path path "removal" (show_error e)) (inspect_no_follow w path)
            >>= λ live. created_directory path live,
        w,
      ))

  -- Every step of the creation of the file reports in the same way.
  unfoldable pub create_config_file :
      FilePath → Str → h.World → Result LinkError OwnedConfigFile × h.World
  create_config_file path contents w =
      if ltb max_config_bytes (length contents)
      then (err (inspect_failed path (lit "configuration exceeds size bound")), w)
      else let (made, w) = h.create_new_file path contents w in
        carry (map_error (inspect_error path) made) w (λ m w.
          let recorded : OwnedConfigFile = record {
            path = path;
            identity = some (identity_of m);
            contents = contents;
          } in
          (config_ownership w recorded >>= kept_if_owned recorded, w))

  unfoldable pub place_path_no_replace :
      FilePath → FilePath → h.World → Result LinkError Bool × h.World
  place_path_no_replace staged destination w =
      let (moved, w) = h.rename_no_replace staged destination w in
      (rename_result staged destination moved, w)

  -- What the three placements share: the staged entry is checked, moved and checked again.
  abbrev pub place_checked :
      {A : Type 0}
      → (h.World → A → Result LinkError Ownership)
      → (A → FilePath)
      → (A → FilePath → A)
      → A
      → FilePath
      → h.World
      → Result LinkError (PlacementOutcome A) × h.World
  place_checked ownership path_of relocated staged destination w =
      carry (ownership w staged) w (λ o w.
        when_sound (placement_mismatch o) (path_of staged) w (λ w.
          let (moved, w) = place_path_no_replace (path_of staged) destination w in
          carry moved w (λ free w.
            if not free
            then (ok destination_exists, w)
            else settle (verdict (ownership w (relocated staged destination))) destination
                (relocated staged destination) w)))

  abbrev pub link_ownership : h.World → CreatedLink → Result LinkError Ownership
  link_ownership w recorded = inspect_no_follow w recorded.path >>= λ live.
      ok (verify_ownership live recorded (target_test recorded))

  abbrev pub directory_ownership : h.World → OwnedDirectory → Result LinkError Ownership
  directory_ownership w recorded =
      inspect_no_follow w recorded.path >>= λ live. ok (verify_directory_ownership live recorded)

  unfoldable pub place_no_replace :
      CreatedLink → FilePath → h.World → Result LinkError (PlacementOutcome CreatedLink) × h.World
  place_no_replace = place_checked link_ownership (λ r. r.path) relocate_link

  unfoldable pub place_directory_no_replace :
      OwnedDirectory
      → FilePath
      → h.World
      → Result LinkError (PlacementOutcome OwnedDirectory) × h.World
  place_directory_no_replace = place_checked directory_ownership (λ r. r.path) relocate_directory

  unfoldable pub place_config_file_no_replace :
      OwnedConfigFile
      → FilePath
      → h.World
      → Result LinkError (PlacementOutcome OwnedConfigFile) × h.World
  place_config_file_no_replace = place_checked config_ownership (λ r. r.path) relocate_file

  -- The entry is checked twice before it is unlinked.
  unfoldable pub remove_link_entry :
      CreatedLink → h.World → Result LinkError RemoveOutcome × h.World
  remove_link_entry recorded w = carry (link_ownership w recorded) w (λ first w.
      when_owned first w (λ w. carry (link_ownership w recorded) w (λ second w.
        when_owned second w (λ w.
          let (gone, w) = h.remove_file recorded.path w in (unlink_result recorded.path gone, w)))))

  -- `remove_owned_directory`.
  unfoldable pub remove_empty_directory :
      OwnedDirectory → h.World → Result LinkError RemoveOutcome × h.World
  remove_empty_directory recorded w = carry (directory_ownership w recorded) w (λ first w.
      when_owned first w (λ w. carry (directory_ownership w recorded) w (λ second w.
        when_owned second w (λ w.
          let (gone, w) = h.remove_dir recorded.path w in (rmdir_result recorded.path gone, w)))))

  unfoldable pub remove_config_file :
      OwnedConfigFile → h.World → Result LinkError RemoveOutcome × h.World
  remove_config_file recorded w = carry (config_ownership w recorded) w (λ o w.
      when_owned o w (λ w.
        let (gone, w) = h.remove_file recorded.path w in (unlink_result recorded.path gone, w)))
