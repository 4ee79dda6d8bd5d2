-- ===== src/Transaction/Apply/Watched.antt =====
-- src/transaction/apply.rs: the paths that a durable journal announces.
use skillmount.Prelude.{ℕ, true, Option, some, ◌≡◌, ◌⊎◌}
use skillmount.Text.{Str}
use skillmount.FilePath.{FilePath}
use skillmount.Journal.Status.{may_have_created_something}
use skillmount.Journal.Record.{TransactionJournal, JournalAction}
use skillmount.Link.{LinkRequest, CreatedLink, OwnedDirectory, OwnedConfigFile}
use skillmount.Transaction.{Environment}
use skillmount.Transaction.Staging.{action_at}

-- The durable journal has a pending action with the path as its staged or its final one.
abbrev pub Announced : Option TransactionJournal → FilePath → Type 0
Announced durable path =
    (j : TransactionJournal) × (index : ℕ) × (a : JournalAction) × (durable ≡ some j)
    × (action_at index j.actions ≡ some a)
    × (may_have_created_something a.status ≡ true)
    × ((a.temporary_path ≡ some path) ⊎ (a.final_path ≡ path))

-- A property of the world that making an entry at a path, or placing one there, is only known to keep where the
-- path is announced.
pub record Watched (env : Environment) (Safe : env.backend.World → Type 0) : Type 0 where
  pub persist-keeps :
      (j : TransactionJournal) (w : env.backend.World) → Safe w → Safe (env.persist j w).1
  pub create_directory-keeps :
      (p : FilePath) (w : env.backend.World)
      → Announced (env.durable w) p
      → Safe w
      → Safe (env.backend.create_directory p w).1
  pub create_config_file-keeps :
      (p : FilePath) (s : Str) (w : env.backend.World)
      → Announced (env.durable w) p
      → Safe w
      → Safe (env.backend.create_config_file p s w).1
  pub create_directory_link-keeps :
      (r : LinkRequest) (w : env.backend.World)
      → Announced (env.durable w) r.staged_path
      → Safe w
      → Safe (env.backend.create_directory_link r w).1
  pub place_no_replace-keeps :
      (r : CreatedLink) (p : FilePath) (w : env.backend.World)
      → Announced (env.durable w) p
      → Safe w
      → Safe (env.backend.place_no_replace r p w).1
  pub place_directory_no_replace-keeps :
      (r : OwnedDirectory) (p : FilePath) (w : env.backend.World)
      → Announced (env.durable w) p
      → Safe w
      → Safe (env.backend.place_directory_no_replace r p w).1
  pub place_config_file_no_replace-keeps :
      (r : OwnedConfigFile) (p : FilePath) (w : env.backend.World)
      → Announced (env.durable w) p
      → Safe w
      → Safe (env.backend.place_config_file_no_replace r p w).1
