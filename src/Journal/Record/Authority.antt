-- ===== src/Journal/Record/Authority.antt =====
-- src/journal/mod.rs: what recovery can rely on in a journal that `from_lines` accepts.
use skillmount.Prelude.{ℕ, ◌<◌, List, [], ◌∷◌}
use skillmount.FilePath.{FilePath}
use skillmount.Journal.Codec.Line.{Line}
use skillmount.Journal.Record.{JournalAction}

-- The ids of the actions grow, from one after `previous`.
abbrev pub Ascending : ℕ → List JournalAction → Type 0
Ascending previous [] = Unit
Ascending previous (a ∷ rest) = (previous < a.id) × Ascending a.id rest
