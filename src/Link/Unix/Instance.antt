-- ===== src/Link/Unix/Instance.antt =====
-- src/link/unix.rs, `UnixBackend`: the operations of Unix as the interface of src/link/mod.rs.
use skillmount.Link.Backend.{LinkBackend}
use skillmount.Link.Host.{Host}
use skillmount.Link.Unix.{
  inspect_no_follow, canonical_directory, verify_config_file, create_directory_link,
  create_directory, create_config_file, place_no_replace, place_directory_no_replace,
  place_config_file_no_replace, remove_link_entry, remove_empty_directory, remove_config_file,
}
use skillmount.Link.Unix.Spares.{
  create_directory_link-spares, create_directory-spares, create_config_file-spares,
  place_no_replace-spares, place_directory_no_replace-spares, place_config_file_no_replace-spares,
  remove_link_entry-spares, remove_empty_directory-spares, remove_config_file-spares,
}
use skillmount.Link.Unix.Fresh.{
  create_directory_link-fresh, create_directory-fresh, create_config_file-fresh,
  place_no_replace-identity, place_directory_no_replace-identity,
  place_config_file_no_replace-identity,
}

-- The backend of Unix as the interface that the transaction engine is given.
abbrev pub unix_backend : Host → LinkBackend
unix_backend h = record {
  World = h.World;
  Alive = h.Alive;
  inspect_no_follow = inspect_no_follow h;
  canonical_directory = canonical_directory h;
  verify_config_file = verify_config_file h;
  create_directory_link = create_directory_link h;
  create_directory = create_directory h;
  create_config_file = create_config_file h;
  place_no_replace = place_no_replace h;
  place_directory_no_replace = place_directory_no_replace h;
  place_config_file_no_replace = place_config_file_no_replace h;
  remove_link_entry = remove_link_entry h;
  remove_empty_directory = remove_empty_directory h;
  remove_config_file = remove_config_file h;
  create_directory_link-spares = create_directory_link-spares h;
  create_directory-spares = create_directory-spares h;
  create_config_file-spares = create_config_file-spares h;
  place_no_replace-spares = place_no_replace-spares h;
  place_directory_no_replace-spares = place_directory_no_replace-spares h;
  place_config_file_no_replace-spares = place_config_file_no_replace-spares h;
  create_directory_link-fresh = create_directory_link-fresh h;
  create_directory-fresh = create_directory-fresh h;
  create_config_file-fresh = create_config_file-fresh h;
  place_no_replace-identity = place_no_replace-identity h;
  place_directory_no_replace-identity = place_directory_no_replace-identity h;
  place_config_file_no_replace-identity = place_config_file_no_replace-identity h;
  remove_link_entry-spares = remove_link_entry-spares h;
  remove_empty_directory-spares = remove_empty_directory-spares h;
  remove_config_file-spares = remove_config_file-spares h;
}
