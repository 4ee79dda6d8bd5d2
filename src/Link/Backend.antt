-- ===== src/Link/Backend.antt =====
-- src/link/mod.rs, `LinkBackend`: the operations on entries that the transaction engine is given, with what
-- it relies on. `Alive w i` says that an entry of the identity `i` exists in the world `w`.
use skillmount.Prelude.{Bool, some, Result, ok, ◌≡◌, ◌≢◌}
use skillmount.Text.{Str}
use skillmount.FilePath.{FilePath}
use skillmount.Link.{
  LinkError, PathEntry, PlatformIdentity, LinkRequest, CreatedLink, OwnedDirectory, OwnedConfigFile,
  PlacementOutcome, placed, RemoveOutcome,
}

pub record LinkBackend : Type 1 where
  pub World : Type 0
  pub Alive : World → PlatformIdentity → Type 0
  pub inspect_no_follow : World → FilePath → Result LinkError PathEntry
  pub canonical_directory : World → FilePath → Result LinkError FilePath
  pub verify_config_file : World → OwnedConfigFile → Result LinkError Bool
  pub create_directory_link : LinkRequest → World → Result LinkError CreatedLink × World
  pub create_directory : FilePath → World → Result LinkError OwnedDirectory × World
  pub create_config_file : FilePath → Str → World → Result LinkError OwnedConfigFile × World
  pub place_no_replace :
      CreatedLink → FilePath → World → Result LinkError (PlacementOutcome CreatedLink) × World
  pub place_directory_no_replace :
      OwnedDirectory → FilePath → World → Result LinkError (PlacementOutcome OwnedDirectory) × World
  pub place_config_file_no_replace :
      OwnedConfigFile
      → FilePath
      → World
      → Result LinkError (PlacementOutcome OwnedConfigFile) × World
  pub remove_link_entry : CreatedLink → World → Result LinkError RemoveOutcome × World
  pub remove_empty_directory : OwnedDirectory → World → Result LinkError RemoveOutcome × World
  pub remove_config_file : OwnedConfigFile → World → Result LinkError RemoveOutcome × World
  -- Creation and placement remove nothing.
  pub create_directory_link-spares :
      (r : LinkRequest) (w : World) (i : Str) → Alive w i → Alive (create_directory_link r w).1 i
  pub create_directory-spares :
      (p : FilePath) (w : World) (i : Str) → Alive w i → Alive (create_directory p w).1 i
  pub create_config_file-spares :
      (p : FilePath) (s : Str) (w : World) (i : Str)
      → Alive w i
      → Alive (create_config_file p s w).1 i
  pub place_no_replace-spares :
      (r : CreatedLink) (p : FilePath) (w : World) (i : Str)
      → Alive w i
      → Alive (place_no_replace r p w).1 i
  pub place_directory_no_replace-spares :
      (r : OwnedDirectory) (p : FilePath) (w : World) (i : Str)
      → Alive w i
      → Alive (place_directory_no_replace r p w).1 i
  pub place_config_file_no_replace-spares :
      (r : OwnedConfigFile) (p : FilePath) (w : World) (i : Str)
      → Alive w i
      → Alive (place_config_file_no_replace r p w).1 i
  -- What is recorded of a created entry is of no entry that was there, and a placed entry keeps it.
  pub create_directory_link-fresh :
      (r : LinkRequest) (w : World) (made : CreatedLink) (i : Str)
      → (create_directory_link r w).0 ≡ ok made
      → made.identity ≡ some i
      → ¬ Alive w i
  pub create_directory-fresh :
      (p : FilePath) (w : World) (made : OwnedDirectory) (i : Str)
      → (create_directory p w).0 ≡ ok made
      → made.identity ≡ some i
      → ¬ Alive w i
  pub create_config_file-fresh :
      (p : FilePath) (s : Str) (w : World) (made : OwnedConfigFile) (i : Str)
      → (create_config_file p s w).0 ≡ ok made
      → made.identity ≡ some i
      → ¬ Alive w i
  pub place_no_replace-identity :
      (r : CreatedLink) (p : FilePath) (w : World) (moved : CreatedLink)
      → (place_no_replace r p w).0 ≡ ok (placed moved)
      → moved.identity ≡ r.identity
  pub place_directory_no_replace-identity :
      (r : OwnedDirectory) (p : FilePath) (w : World) (moved : OwnedDirectory)
      → (place_directory_no_replace r p w).0 ≡ ok (placed moved)
      → moved.identity ≡ r.identity
  pub place_config_file_no_replace-identity :
      (r : OwnedConfigFile) (p : FilePath) (w : World) (moved : OwnedConfigFile)
      → (place_config_file_no_replace r p w).0 ≡ ok (placed moved)
      → moved.identity ≡ r.identity
  -- Removal removes no entry but one of the recorded identity.
  pub remove_link_entry-spares :
      (r : CreatedLink) (w : World) (i : Str)
      → r.identity ≢ some i
      → Alive w i
      → Alive (remove_link_entry r w).1 i
  pub remove_empty_directory-spares :
      (r : OwnedDirectory) (w : World) (i : Str)
      → r.identity ≢ some i
      → Alive w i
      → Alive (remove_empty_directory r w).1 i
  pub remove_config_file-spares :
      (r : OwnedConfigFile) (w : World) (i : Str)
      → r.identity ≢ some i
      → Alive w i
      → Alive (remove_config_file r w).1 i
