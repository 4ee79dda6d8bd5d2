-- ===== src/Link/Label.antt =====
-- src/link/mod.rs and src/error.rs: the texts of entries, mismatches and errors. A path is shown as its bytes,
-- as `Path::display` does where they are UTF-8.
use skillmount.Prelude.{◌++◌}
use skillmount.Text.{Str, lit}
use skillmount.Link.{
  EntryKind, OwnershipMismatch, regular_directory, not_a_link, not_a_directory, not_a_file,
  contents_changed, kind_changed, target_changed, identity_changed, identity_unavailable, LinkError,
  inspect_failed, create_failed, place_failed, remove_failed, unsupported, PlacementMismatch, gone,
  not_owned, inspection_failed,
}

abbrev pub entry_label : EntryKind → Str
entry_label EntryKind.missing = lit "missing"
entry_label EntryKind.directory = lit "regular directory"
entry_label EntryKind.file = lit "regular file"
entry_label EntryKind.symlink = lit "symbolic link"
entry_label EntryKind.junction = lit "junction"
entry_label EntryKind.other = lit "unsupported entry"

abbrev pub ownership_label : OwnershipMismatch → Str
ownership_label regular_directory = lit "a regular directory replaced the entry"
ownership_label not_a_link = lit "the entry is no longer a directory link"
ownership_label not_a_directory = lit "the entry is no longer a regular directory"
ownership_label not_a_file = lit "the entry is no longer a regular file"
ownership_label contents_changed = lit "the configuration file contents changed"
ownership_label kind_changed = lit "the link implementation changed"
ownership_label target_changed = lit "the link points somewhere else"
ownership_label identity_changed = lit "the entry was replaced by a different one"
ownership_label identity_unavailable = lit "the entry cannot be proved to be the recorded one"

abbrev pub placement_label : PlacementMismatch → Str
placement_label gone = lit "the recorded staged entry is missing"
placement_label (not_owned mismatch) = ownership_label mismatch
placement_label (inspection_failed reason) = reason

-- `fmt::Display for LinkError`.
abbrev pub show_error : LinkError → Str
show_error (inspect_failed path reason) = lit "cannot inspect " ++ (path ++ (lit ": " ++ reason))
show_error (create_failed destination source reason) =
    lit "cannot create a directory link at "
    ++ (destination ++ (lit " for " ++ (source ++ (lit ": " ++ reason))))
show_error (place_failed staged destination reason) =
    lit "cannot place " ++ (staged ++ (lit " at " ++ (destination ++ (lit ": " ++ reason))))
show_error (remove_failed path reason) = lit "cannot remove " ++ (path ++ (lit ": " ++ reason))
show_error (unsupported path reason) =
    lit "the host cannot perform this operation on " ++ (path ++ (lit " safely: " ++ reason))
