-- ===== src/Tests/Link.antt =====
-- The backend of Unix over a host with a list of entries, from which entries can only be removed.
use skillmount.Prelude.{
  true, false, not, List, [], ◌∷◌, any, filter, some, Result, ok, err, ◌≡◌, ◌≢◌, refl, sym, ap, ◌∙◌,
  if◌then◌else◌, arith, some_injective, ok_injective,
}
use skillmount.Text.{Str, lit, ◌===◌, ===_refl}
use skillmount.FilePath.{FilePath}
use skillmount.Link.{
  EntryKind, CreatedLinkKind, LinkTarget, PathEntry, CreatedLink, OwnedDirectory, OwnedConfigFile,
}
use skillmount.Journal.Codec.Token.{hex, nibble}
use skillmount.Link.Host.{
  Host, not_found, already_exists, IoError, FileType, symlink_type, directory_type, file_type,
  Metadata, identity_of, from_pair,
}
use skillmount.Link.Ownership.{verify_ownership, verify_ownership-owned, SameIdentity}
use skillmount.Link.Chain.{ResolvedChain, link_to_directory, resolve_chain, visit_key}
use skillmount.Link.Chain.Sound.{Describes, resolve_chain_sound}
use skillmount.Link.Unix.Instance.{unix_backend}
use skillmount.Link.Unix.{
  inspect_no_follow, canonical_directory, read_target, remove_link_entry, remove_empty_directory,
  remove_config_file,
}
use skillmount.Link.Unix.Spares.{
  remove_link_entry-spares, remove_empty_directory-spares, remove_config_file-spares,
}
use skillmount.Tests.Directories.{filter-any}

abbrev Entries : Type 0
Entries = List (FilePath × Metadata)

abbrev missing_error : IoError
missing_error = record { kind = not_found; text = [] }

abbrev exists_error : IoError
exists_error = record { kind = already_exists; text = [] }

abbrev at : FilePath → Entries → Result IoError Metadata
at p [] = err missing_error
at p (e ∷ entries) = if e.0 === p then ok e.1 else at p entries

abbrev without : Result IoError Metadata → Entries → Result IoError (Unit {0}) × Entries
without (err e) w = (err e, w)
without (ok m) w = (ok tt, filter (λ e. not (identity_of e.1 === identity_of m)) w)

without-spares :
    (found : Result IoError Metadata) (w : Entries) (m : Metadata) (i : Str)
    → found ≡ ok m
    → identity_of m ≢ i
    → any (λ e. identity_of e.1 === i) w ≡ true
    → any (λ e. identity_of e.1 === i) (without found w).1 ≡ true
without-spares (err e) w m i found other h = absurd (cc)
without-spares (ok n) w m i found other h =
    filter-any (λ e. identity_of e.1) (identity_of n) i w
      (λ e. other (ap identity_of (sym (ok_injective found)) ∙ e)) h

-- Every link points to `/s`, and every file holds `{}`.
abbrev host : Host
host = record {
  World = Entries;
  Handle = Metadata;
  Alive = λ w i. any (λ e. identity_of e.1 === i) w ≡ true;
  symlink_metadata = λ w p. at p w;
  read_link = λ w p. ok (lit "/s");
  canonicalize = λ w p. ok p;
  metadata = λ w p. at p w;
  open_no_follow = λ w p. at p w;
  file_metadata = λ w m. ok m;
  rewind = λ w m. ok tt;
  read_at_most = λ w m n. ok (lit "{}");
  symlink = λ t p w. (err exists_error, w);
  create_dir = λ p w. (err exists_error, w);
  create_new_file = λ p s w. (err exists_error, w);
  rename_no_replace = λ p q w. (err exists_error, w);
  remove_file = λ p w. without (at p w) w;
  remove_dir = λ p w. without (at p w) w;
  symlink-spares = λ t p w i h. h;
  create_dir-spares = λ p w i h. h;
  create_new_file-spares = λ p s w i h. h;
  rename_no_replace-spares = λ p q w i h. h;
  symlink-fresh = λ t p w m e. absurd (cc);
  create_dir-fresh = λ p w m e. absurd (cc);
  create_new_file-fresh = λ p s w m e. absurd (cc);
  remove_file-spares = λ p w. without-spares (at p w) w;
  remove_dir-spares = λ p w. without-spares (at p w) w;
}

abbrev entry : FileType → Metadata
entry t = record { file_type = t; device = 1; inode = 5; len = 2 }

abbrev other : Metadata
other = record { file_type = directory_type; device = 1; inode = 6; len = 2 }

-- The entry of the given type at `/l`, and a directory at `/d`.
abbrev world : FileType → Entries
world t = (lit "/l", entry t) ∷ (lit "/d", other) ∷ []

abbrev recorded_link : CreatedLink
recorded_link = record {
  path = lit "/l";
  kind = CreatedLinkKind.symlink;
  target = lit "/s";
  source_canonical = lit "/s";
  identity = some (identity_of (entry symlink_type));
}

differs : (t : FileType) → (identity_of (entry t) === identity_of other) ≡ false
unfolding identity_of from_pair hex nibble
differs t = refl

distinct : (t : FileType) → some (identity_of (entry t)) ≢ some (identity_of other)
distinct t e =
    let same : (identity_of (entry t) === identity_of other) ≡ true =
      rw (some_injective e) (===_refl (identity_of other)) in
    let no = differs t in cc

present : (t : FileType) → any (λ e. identity_of e.1 === identity_of other) (world t) ≡ true
present t = ground (arith, ===_refl (identity_of other))

remove_link_entry-spares_example :
    any
      (λ e. identity_of e.1 === identity_of other)
      (remove_link_entry host recorded_link (world symlink_type)).1
    ≡ true
remove_link_entry-spares_example =
    remove_link_entry-spares host recorded_link (world symlink_type) (identity_of other)
      (distinct symlink_type) (present symlink_type)

abbrev recorded_directory : OwnedDirectory
recorded_directory = record {
  path = lit "/l";
  identity = some (identity_of (entry directory_type));
}

remove_empty_directory-spares_example :
    any
      (λ e. identity_of e.1 === identity_of other)
      (remove_empty_directory host recorded_directory (world directory_type)).1
    ≡ true
remove_empty_directory-spares_example =
    remove_empty_directory-spares host recorded_directory (world directory_type) (identity_of other)
      (distinct directory_type) (present directory_type)

abbrev recorded_file : OwnedConfigFile
recorded_file = record {
  path = lit "/l";
  identity = some (identity_of (entry file_type));
  contents = lit "{}";
}

remove_config_file-spares_example :
    any
      (λ e. identity_of e.1 === identity_of other)
      (remove_config_file host recorded_file (world file_type)).1
    ≡ true
remove_config_file-spares_example =
    remove_config_file-spares host recorded_file (world file_type) (identity_of other)
      (distinct file_type) (present file_type)

abbrev live_link : PathEntry
live_link = record {
  path = lit "/l";
  kind = EntryKind.symlink;
  target = some (record { raw = lit "/s"; resolved = lit "/s" });
  identity = some (lit "i");
}

abbrev link_i : CreatedLink
link_i = record recorded_link { identity = some (lit "i") }

verify_ownership-owned_example :
    SameIdentity live_link.identity link_i.identity
    × (live_link.kind ≡ EntryKind.symlink)
    × ((t : LinkTarget) × (live_link.target ≡ some t) × (true ≡ true))
verify_ownership-owned_example =
    verify_ownership-owned live_link link_i (λ t. true) (unfold verify_ownership in refl)

-- A link to the directory `/s`.
abbrev linked : Entries
linked = (lit "/l", entry symlink_type) ∷ (lit "/s", other) ∷ []

abbrev target_s : LinkTarget
target_s = record { raw = lit "/s"; resolved = lit "/s" }

abbrev chain : ResolvedChain
chain = record {
  entry = record {
    path = lit "/l";
    kind = EntryKind.symlink;
    target = some target_s;
    identity = some (identity_of (entry symlink_type));
  };
  state = link_to_directory;
  hops = target_s ∷ [];
  terminal = some (lit "/s");
  terminal_identity = some (identity_of other);
}

resolve_chain_sound_example :
    ((unix_backend host).inspect_no_follow linked (lit "/l") ≡ ok chain.entry)
    × Describes (unix_backend host) linked (lit "/l") chain.entry chain
unfolding resolve_chain inspect_no_follow canonical_directory read_target visit_key identity_of
    from_pair hex nibble
resolve_chain_sound_example = resolve_chain_sound (unix_backend host) linked (lit "/l") chain refl
