-- ===== src/Process/Ledger/Steps.antt =====
-- src/process/event.rs: the ledger as signal handlers and the supervising thread change it, in any order. A
-- step is one exchange or store that succeeds, on any `observed` that its thread may hold.
mod Holds
pub mod Invariant
pub mod Stale
use skillmount.Prelude.{ℕ, Bool, true, false, List, [], ◌∷◌, ◌++◌, Option, Result, ok, ◌≡◌}
use skillmount.Process.Ledger.{
  InterruptKind, EventToken, Round, wrote, acquire_round, record_round, activate_round, take_round,
  finalize_round, release, new,
}
use skillmount.Process.Ledger.Word.{generation}

-- The shared word, with what no thread can see: the kinds that were recorded since they were last taken,
-- and whether some session holds the ledger.
pub record World : Type 0 where
  pub word : ℕ
  pub accepted : List InterruptKind
  pub leased : Bool

pub data Step (w w' : World) : Type 0 where
  acquired :
      (observed : ℕ) (spurious : Bool) (word' : ℕ)
      → acquire_round w.word observed spurious ≡ wrote word' (ok tt)
      → w' ≡ record w { word = word'; leased = true }
      → Step w w'
  recorded :
      (t : EventToken) (kind : InterruptKind) (spurious : Bool) (word' : ℕ)
      → record_round w.word t kind spurious ≡ wrote word' true
      → w' ≡ record w { word = word'; accepted = w.accepted ++ kind ∷ [] }
      → Step w w'
  activated :
      (observed : ℕ) (spurious : Bool) (word' : ℕ)
      → w.leased ≡ true
      → activate_round w.word observed spurious ≡ wrote word' (ok tt)
      → w' ≡ record w { word = word' }
      → Step w w'
  taken :
      (observed : ℕ) (spurious : Bool) (word' : ℕ) (events : Option (List InterruptKind))
      → w.leased ≡ true
      → take_round w.word observed spurious ≡ wrote word' events
      → w' ≡ record w { word = word'; accepted = [] }
      → Step w w'
  finalized :
      (observed : ℕ) (events : List InterruptKind) (word' : ℕ)
      → w.leased ≡ true
      → finalize_round w.word observed events ≡ wrote word' (ok tt)
      → w' ≡ record w { word = word' }
      → Step w w'
  -- `release` reads and then stores; only the session changes the generation in between.
  released :
      (observed : ℕ)
      → w.leased ≡ true
      → generation observed ≡ generation w.word
      → w' ≡ record { word = release observed; accepted = []; leased = false }
      → Step w w'

pub data Reach (w : World) : World → Type 0 where
  here : Reach w w
  next : {u v : World} → Reach w u → Step u v → Reach w v

abbrev pub initial : World
initial = record { word = new; accepted = []; leased = false }
