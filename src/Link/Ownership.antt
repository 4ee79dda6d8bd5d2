-- ===== src/Link/Ownership.antt =====
-- src/link/mod.rs and src/link/config_file.rs: whether a live entry is the one that was recorded.
use skillmount.Prelude.{
  Bool, true, false, Option, none, some, if◌then◌else◌, ◌≡◌, refl, ap, arith, Bool-cases, inl, inr,
}
use skillmount.Text.{Str, ◌===◌, ===→≡}
use skillmount.Link.{
  EntryKind, CreatedLinkKind, entry_kind, LinkTarget, PathEntry, CreatedLink, OwnedDirectory,
  OwnedConfigFile, OwnershipMismatch, regular_directory, not_a_link, not_a_directory, not_a_file,
  kind_changed, target_changed, identity_changed, identity_unavailable, PlacementMismatch, gone,
  not_owned,
}

pub data Ownership : Type 0 where
  owned absent : Ownership
  mismatch : OwnershipMismatch → Ownership

-- `o == Ownership::Owned`.
abbrev pub is_owned : Ownership → Bool
is_owned owned = true
is_owned _ = false

-- The comparison of the two identities, which the three checks share.
pub check_identity : Option Str → Option Str → Ownership → Ownership
check_identity (some live) (some recorded) next =
    if live === recorded then next else mismatch identity_changed
check_identity none recorded next = mismatch identity_unavailable
check_identity (some live) none next = mismatch identity_unavailable

abbrev is_kind : EntryKind → CreatedLinkKind → Bool
is_kind EntryKind.symlink CreatedLinkKind.symlink = true
is_kind EntryKind.junction CreatedLinkKind.junction = true
is_kind _ _ = false

abbrev check_target : (LinkTarget → Bool) → Option LinkTarget → Ownership
check_target target_matches none = mismatch target_changed
check_target target_matches (some target) =
    if target_matches target then owned else mismatch target_changed

abbrev check_link : EntryKind → PathEntry → CreatedLink → (LinkTarget → Bool) → Ownership
check_link EntryKind.missing live recorded target_matches = absent
check_link EntryKind.directory live recorded target_matches = mismatch regular_directory
check_link EntryKind.file live recorded target_matches = mismatch not_a_link
check_link EntryKind.other live recorded target_matches = mismatch not_a_link
check_link kind live recorded target_matches =
    if is_kind kind recorded.kind
    then check_identity live.identity recorded.identity (check_target target_matches live.target)
    else mismatch kind_changed

unfoldable pub verify_ownership : PathEntry → CreatedLink → (LinkTarget → Bool) → Ownership
unfolding check_identity
verify_ownership live recorded target_matches = check_link live.kind live recorded target_matches

abbrev check_directory : EntryKind → PathEntry → OwnedDirectory → Ownership
check_directory EntryKind.missing live recorded = absent
check_directory EntryKind.symlink live recorded = mismatch kind_changed
check_directory EntryKind.junction live recorded = mismatch kind_changed
check_directory EntryKind.file live recorded = mismatch not_a_directory
check_directory EntryKind.other live recorded = mismatch not_a_directory
check_directory EntryKind.directory live recorded =
    check_identity live.identity recorded.identity owned

unfoldable pub verify_directory_ownership : PathEntry → OwnedDirectory → Ownership
unfolding check_identity
verify_directory_ownership live recorded = check_directory live.kind live recorded

abbrev check_file : EntryKind → PathEntry → OwnedConfigFile → Ownership
check_file EntryKind.missing live recorded = absent
check_file EntryKind.file live recorded = check_identity live.identity recorded.identity owned
check_file _ live recorded = mismatch not_a_file

unfoldable pub verify_config_ownership : PathEntry → OwnedConfigFile → Ownership
unfolding check_identity
verify_config_ownership live recorded = check_file live.kind live recorded

unfoldable pub placement_mismatch : Ownership → Option PlacementMismatch
placement_mismatch owned = none
placement_mismatch absent = some gone
placement_mismatch (mismatch m) = some (not_owned m)

-- The two identities are there and are one.
abbrev pub SameIdentity : Option Str → Option Str → Type 0
SameIdentity live recorded = (i : Str) × (live ≡ some i) × (recorded ≡ some i)

check_identity-owned :
    (live recorded : Option Str) (next : Ownership)
    → check_identity live recorded next ≡ owned
    → SameIdentity live recorded × (next ≡ owned)
unfolding check_identity
check_identity-owned (some l) (some r) next h =
    ((r, ap some (===→≡ l r (ground arith)), refl), ground arith)
check_identity-owned none r next h = ground arith
check_identity-owned (some l) none next h = ground arith

is_kind-eq : (k : EntryKind) (c : CreatedLinkKind) → is_kind k c ≡ true → k ≡ entry_kind c
is_kind-eq k c h = ground arith

check_target-owned :
    (target_matches : LinkTarget → Bool) (target : Option LinkTarget)
    → check_target target_matches target ≡ owned
    → (t : LinkTarget) × (target ≡ some t) × (target_matches t ≡ true)
check_target-owned target_matches none h = ground arith
check_target-owned target_matches (some t) h = (t, refl, ground arith)

IsRecordedLink : EntryKind → PathEntry → CreatedLink → (LinkTarget → Bool) → Type 0
IsRecordedLink kind live recorded target_matches =
    SameIdentity live.identity recorded.identity
    × (kind ≡ entry_kind recorded.kind)
    × ((t : LinkTarget) × (live.target ≡ some t) × (target_matches t ≡ true))

-- The shared branch of the two kinds of link.
check_kind-owned :
    (kind : EntryKind) (live : PathEntry) (recorded : CreatedLink)
    (target_matches : LinkTarget → Bool)
    → (if is_kind kind recorded.kind
        then check_identity live.identity recorded.identity
            (check_target target_matches live.target)
        else mismatch kind_changed)
      ≡ owned
    → IsRecordedLink kind live recorded target_matches
unfolding IsRecordedLink
check_kind-owned kind live recorded target_matches h =
    elim (Bool-cases (is_kind kind recorded.kind)) [
      | inr other ↦ ground arith
      | inl same ↦
          let (identity, target) =
            check_identity-owned live.identity recorded.identity
              (check_target target_matches live.target) (ground arith) in
          (
            identity,
            is_kind-eq kind recorded.kind same,
            check_target-owned target_matches live.target target,
          )
    ]

check_link-owned :
    (kind : EntryKind) (live : PathEntry) (recorded : CreatedLink)
    (target_matches : LinkTarget → Bool)
    → check_link kind live recorded target_matches ≡ owned
    → IsRecordedLink kind live recorded target_matches
check_link-owned EntryKind.missing live recorded target_matches h = ground arith
check_link-owned EntryKind.directory live recorded target_matches h = ground arith
check_link-owned EntryKind.file live recorded target_matches h = ground arith
check_link-owned EntryKind.other live recorded target_matches h = ground arith
check_link-owned EntryKind.symlink live recorded target_matches h =
    check_kind-owned EntryKind.symlink live recorded target_matches h
check_link-owned EntryKind.junction live recorded target_matches h =
    check_kind-owned EntryKind.junction live recorded target_matches h

check_directory-owned :
    (kind : EntryKind) (live : PathEntry) (recorded : OwnedDirectory)
    → check_directory kind live recorded ≡ owned
    → SameIdentity live.identity recorded.identity × (kind ≡ EntryKind.directory)
check_directory-owned EntryKind.directory live recorded h =
    ((check_identity-owned live.identity recorded.identity owned h).0, refl)
check_directory-owned EntryKind.missing live recorded h = ground arith
check_directory-owned EntryKind.symlink live recorded h = ground arith
check_directory-owned EntryKind.junction live recorded h = ground arith
check_directory-owned EntryKind.file live recorded h = ground arith
check_directory-owned EntryKind.other live recorded h = ground arith

check_file-owned :
    (kind : EntryKind) (live : PathEntry) (recorded : OwnedConfigFile)
    → check_file kind live recorded ≡ owned
    → SameIdentity live.identity recorded.identity × (kind ≡ EntryKind.file)
check_file-owned EntryKind.file live recorded h =
    ((check_identity-owned live.identity recorded.identity owned h).0, refl)
check_file-owned EntryKind.missing live recorded h = ground arith
check_file-owned EntryKind.directory live recorded h = ground arith
check_file-owned EntryKind.symlink live recorded h = ground arith
check_file-owned EntryKind.junction live recorded h = ground arith
check_file-owned EntryKind.other live recorded h = ground arith

-- An entry is found to be a recorded link only if it is a link of the recorded kind, with the recorded
-- identity and a target that matches.
pub verify_ownership-owned :
    (live : PathEntry) (recorded : CreatedLink) (target_matches : LinkTarget → Bool)
    → verify_ownership live recorded target_matches ≡ owned
    → SameIdentity live.identity recorded.identity
      × (live.kind ≡ entry_kind recorded.kind)
      × ((t : LinkTarget) × (live.target ≡ some t) × (target_matches t ≡ true))
unfolding verify_ownership IsRecordedLink
verify_ownership-owned live recorded target_matches h =
    check_link-owned live.kind live recorded target_matches h

pub verify_directory_ownership-owned :
    (live : PathEntry) (recorded : OwnedDirectory)
    → verify_directory_ownership live recorded ≡ owned
    → SameIdentity live.identity recorded.identity × (live.kind ≡ EntryKind.directory)
unfolding verify_directory_ownership
verify_directory_ownership-owned live recorded h = check_directory-owned live.kind live recorded h

pub verify_config_ownership-owned :
    (live : PathEntry) (recorded : OwnedConfigFile)
    → verify_config_ownership live recorded ≡ owned
    → SameIdentity live.identity recorded.identity × (live.kind ≡ EntryKind.file)
unfolding verify_config_ownership
verify_config_ownership-owned live recorded h = check_file-owned live.kind live recorded h
