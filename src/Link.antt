-- ===== src/Link.antt =====
-- src/link/mod.rs: what is observed of an entry, and the evidence that is recorded of one that was created.
pub mod Label
pub mod Ownership
pub mod Backend
pub mod Host
pub mod Outcome
pub mod Unix
pub mod Chain
use skillmount.Prelude.{ℕ, Option, none}
use skillmount.Text.{Str}
use skillmount.FilePath.{FilePath}
use skillmount.Mount.Action.{LinkMode}

pub data EntryKind : Type 0 where
  missing directory file symlink junction other : EntryKind

pub data CreatedLinkKind : Type 0 where
  symlink junction : CreatedLinkKind

abbrev pub entry_kind : CreatedLinkKind → EntryKind
entry_kind CreatedLinkKind.symlink = EntryKind.symlink
entry_kind CreatedLinkKind.junction = EntryKind.junction

pub record LinkTarget : Type 0 where
  pub raw : FilePath
  pub resolved : FilePath

-- A `PlatformIdentity` is its text.
abbrev pub PlatformIdentity : Type 0
PlatformIdentity = Str

pub record PathEntry : Type 0 where
  pub path : FilePath
  pub kind : EntryKind
  pub target : Option LinkTarget
  pub identity : Option PlatformIdentity

abbrev pub plain : FilePath → EntryKind → PathEntry
plain path kind = record { path = path; kind = kind; target = none; identity = none }

pub record LinkRequest : Type 0 where
  pub source : FilePath
  pub staged_path : FilePath
  pub mode : LinkMode

pub record CreatedLink : Type 0 where
  pub path : FilePath
  pub kind : CreatedLinkKind
  pub target : FilePath
  pub source_canonical : FilePath
  pub identity : Option PlatformIdentity

pub record OwnedDirectory : Type 0 where
  pub path : FilePath
  pub identity : Option PlatformIdentity

pub record OwnedConfigFile : Type 0 where
  pub path : FilePath
  pub identity : Option PlatformIdentity
  pub contents : Str

-- `relocated_to`, of the three.
abbrev pub relocate_link : CreatedLink → FilePath → CreatedLink
relocate_link r destination = record {
  path = destination;
  kind = r.kind;
  target = r.target;
  source_canonical = r.source_canonical;
  identity = r.identity;
}

abbrev pub relocate_directory : OwnedDirectory → FilePath → OwnedDirectory
relocate_directory r destination = record { path = destination; identity = r.identity }

abbrev pub relocate_file : OwnedConfigFile → FilePath → OwnedConfigFile
relocate_file r destination = record {
  path = destination;
  identity = r.identity;
  contents = r.contents;
}

pub data OwnershipMismatch : Type 0 where
  regular_directory not_a_link not_a_directory not_a_file contents_changed : OwnershipMismatch
  kind_changed target_changed identity_changed identity_unavailable : OwnershipMismatch

pub data LinkError : Type 0 where
  inspect_failed remove_failed unsupported : (path : FilePath) (reason : Str) → LinkError
  create_failed : (destination source : FilePath) (reason : Str) → LinkError
  place_failed : (staged destination : FilePath) (reason : Str) → LinkError

-- `inspection_failed` has the text of the error.
pub data PlacementMismatch : Type 0 where
  gone : PlacementMismatch
  not_owned : OwnershipMismatch → PlacementMismatch
  inspection_failed : (reason : Str) → PlacementMismatch

pub record PlacementResidue : Type 0 where
  pub path : FilePath
  pub mismatch : PlacementMismatch

pub data PlacementOutcome (A : Type 0) : Type 0 where
  placed : A → PlacementOutcome A
  destination_exists : PlacementOutcome A
  misplaced : PlacementResidue → PlacementOutcome A

pub data RemoveOutcome : Type 0 where
  removed already_absent not_empty : RemoveOutcome
  mismatched : OwnershipMismatch → RemoveOutcome
