-- ===== src/Transaction.antt =====
-- src/transaction/mod.rs: an open transaction, the journal that describes it, and its environment.
pub mod Report
pub mod Clear
pub mod Cleanup
pub mod Staging
pub mod Apply
pub mod Open
use skillmount.Prelude.{
  ℕ, ◌==◌, ◌&&◌, Bool, true, false, List, [], ◌∷◌, ◌++◌, Option, none, some, Result, ok, err, ◌≡◌,
  ◌⊎◌, if◌then◌else◌,
}
use skillmount.Text.{Str}
use skillmount.FilePath.{FilePath}
use skillmount.Journal.Status.{TransactionStatus}
use skillmount.Journal.Record.{TransactionJournal, JournalAction}
use skillmount.Link.{LinkError}
use skillmount.Link.Backend.{LinkBackend}

-- `AppError` of src/error.rs, as far as the engine raises it.
pub data AppError : Type 0 where
  link_failed : LinkError → AppError
  journal_failed internal temporary : (reason : Str) → AppError
  drift : (path : FilePath) (reason : Str) → AppError

-- `RetainedEntry` of src/transaction/cleanup.rs.
pub record RetainedEntry : Type 0 where
  pub path : FilePath
  pub reason : Str

-- What the engine is given: the backend, the durable files of src/journal/store.rs, and the texts of
-- src/render.rs. `Alive` is about the entries outside the state directory, where the journals are.
pub record Environment : Type 1 where
  pub backend : LinkBackend
  pub show_error : AppError → Str
  pub show_path : FilePath → Str
  pub show_entry : RetainedEntry → Str
  pub durable : backend.World → Option TransactionJournal
  pub persist : TransactionJournal → backend.World → Result AppError (Unit {0}) × backend.World
  pub remove_journal : backend.World → Result AppError (Unit {0}) × backend.World
  pub persist-durable :
      (j : TransactionJournal) (w : backend.World)
      → (persist j w).0 ≡ ok tt
      → durable (persist j w).1 ≡ some j
  pub persist-spares :
      (j : TransactionJournal) (w : backend.World) (i : Str)
      → backend.Alive w i
      → backend.Alive (persist j w).1 i
  pub remove_journal-spares :
      (w : backend.World) (i : Str) → backend.Alive w i → backend.Alive (remove_journal w).1 i

-- `Transaction`, with the world that it acts on. `residue` is the map `placement_residue`, the entry added
-- last first.
pub record Transaction (env : Environment) : Type 0 where
  pub journal : TransactionJournal
  pub path : FilePath
  pub residue : List (ℕ × RetainedEntry)
  pub world : env.backend.World

unfoldable pub residue_of : ℕ → List (ℕ × RetainedEntry) → Option RetainedEntry
residue_of id [] = none
residue_of id ((key, entry) ∷ rest) = if key == id then some entry else residue_of id rest

-- `persist` of the engine.
unfoldable pub save :
    (env : Environment) → Transaction env → Result AppError (Unit {0}) × Transaction env
save env t = let (saved, w) = env.persist t.journal t.world in (saved, record t { world = w })

-- `advance`.
unfoldable pub advance :
    (env : Environment)
    → TransactionStatus
    → Transaction env
    → Result AppError (Unit {0}) × Transaction env
advance env status t = save env (record t { journal = record t.journal { status = status } })

-- `record_error`.
unfoldable pub record_error : (env : Environment) → Str → Transaction env → Transaction env
record_error env message t = record t {
  journal = record t.journal { errors = t.journal.errors ++ message ∷ [] };
}

-- The first action of the id, and the journal with that action changed.
unfoldable pub find_action : ℕ → List JournalAction → Option JournalAction
find_action id [] = none
find_action id (a ∷ actions) = if a.id == id then some a else find_action id actions

unfoldable pub update_action :
    ℕ → (JournalAction → JournalAction) → List JournalAction → List JournalAction
update_action id f [] = []
update_action id f (a ∷ actions) =
    let rest = update_action id f actions in if a.id == id then f a ∷ actions else a ∷ rest

unfoldable pub modify :
    (env : Environment) → ℕ → (JournalAction → JournalAction) → Transaction env → Transaction env
modify env id f t = record t {
  journal = record t.journal { actions = update_action id f t.journal.actions };
}
