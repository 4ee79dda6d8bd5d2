-- ===== src/Lock.antt =====
-- src/lock/mod.rs and src/lock/key.rs: the resources that locks protect, and what a lock of them permits, on
-- Unix. What these functions ask of the file system is a parameter.
pub mod Order
use skillmount.Prelude.{
  Bool, false, ◌&&◌, ◌||◌, List, [], ◌∷◌, ◌++◌, Option, none, some, length, if◌then◌else◌,
}
use skillmount.Text.{Str, lit, ◌===◌}
use skillmount.Native.{unix, os_bytes}
use skillmount.FilePath.{FilePath, join, is_absolute, strip_root}
use skillmount.Paths.{key_starts_with}
use skillmount.Link.{PlatformIdentity}
use skillmount.Link.Host.{be_bytes}
use skillmount.Journal.Codec.Token.{hex}
use skillmount.Journal.Codec.Document.{Sha256}
use skillmount.Journal.Status.{LockResourceKind, LockAccess, mutate, satisfies, resource_label}

-- What `no_follow_canonical_spelling` and `physical_identity` find in the file system.
pub record Observed : Type 0 where
  pub canonical_spelling : FilePath → Option FilePath
  pub physical_identity : FilePath → Option PlatformIdentity

pub record LockResourceIdentity : Type 0 where
  pub anchor : FilePath
  pub suffix : FilePath
  pub physical : Option PlatformIdentity

pub record LockResource : Type 0 where
  pub kind : LockResourceKind
  pub access : LockAccess
  pub path : FilePath
  pub identity : LockResourceIdentity

unfoldable pub logical_path : LockResourceIdentity → FilePath
logical_path i = join i.anchor i.suffix

prefixed : List Str → Str
prefixed [] = []
prefixed (part ∷ parts) = be_bytes 8 (length part) ++ (part ++ prefixed parts)

-- A key is the digest of its parts, each one after its length.
unfoldable pub key_digest : Sha256 → List Str → Str
unfolding prefixed
key_digest sha parts = hex (sha.digest (lit "skillmount-lock-v1" ++ prefixed parts))

-- `key::logical`.
unfoldable pub logical_key : Sha256 → LockResourceKind → LockResourceIdentity → Str
logical_key sha kind i =
    key_digest sha
      (lit "logical" ∷ resource_label kind ∷ os_bytes unix i.anchor ∷ os_bytes unix i.suffix ∷ [])

-- `none` is the error: the path is not absolute. The last ancestor of an absolute path is the root.
unfoldable pub describe_shared :
    Observed → LockResourceKind → LockAccess → FilePath → Option LockResource
describe_shared seen kind access path =
    if is_absolute path
    then some (record {
      kind = kind;
      access = access;
      path = path;
      identity = record {
        anchor = lit "/";
        suffix = strip_root path;
        physical = seen.physical_identity path;
      };
    })
    else none

abbrev covers : FilePath → Option FilePath → Bool
covers logical none = false
covers logical (some spelling) = key_starts_with spelling logical

unfoldable pub authorizes_mutation_of : Observed → LockResource → FilePath → Bool
authorizes_mutation_of seen resource path =
    let logical = logical_path resource.identity in
    satisfies resource.access mutate
    && (key_starts_with path logical || covers logical (seen.canonical_spelling path))

abbrev shares_key : Sha256 → LockResource → Option LockResource → Bool
shares_key sha resource none = false
shares_key sha resource (some shared) =
    logical_key sha resource.kind resource.identity === logical_key sha shared.kind shared.identity

unfoldable pub authorizes_exact_mutation_of : Sha256 → Observed → LockResource → FilePath → Bool
authorizes_exact_mutation_of sha seen resource path =
    authorizes_mutation_of seen resource path
    && shares_key sha resource (describe_shared seen resource.kind mutate path)
