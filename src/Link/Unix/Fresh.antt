-- ===== src/Link/Unix/Fresh.antt =====
-- src/link/unix.rs: what is recorded of an entry that an operation of the backend has made or placed.
use skillmount.Prelude.{
  Bool, true, false, not, Option, none, some, Result, ok, err, carry-eq-ok, >>=-eq-ok,
  if◌then◌else◌, some_injective, ◌≡◌, refl, sym, ap, ◌∙◌, ltb, length, subst,
}
use skillmount.Text.{Str}
use skillmount.FilePath.{FilePath}
use skillmount.Link.{
  PathEntry, LinkRequest, CreatedLink, LinkTarget, OwnedDirectory, OwnedConfigFile, LinkError,
  PlacementMismatch, PlacementOutcome, placed, destination_exists, relocate_link,
  relocate_directory, relocate_file,
}
use skillmount.Link.Ownership.{Ownership, placement_mismatch, is_owned}
use skillmount.Link.Host.{Host, Metadata, identity_of}
use skillmount.Link.Outcome.{
  max_config_bytes, is_junction, map_error, when_sound, settle, created_link, kept_if_owned,
  created_directory,
}
use skillmount.Link.Unix.{
  inspect_no_follow, config_ownership, create_directory_link, create_directory, create_config_file,
  place_checked, place_no_replace, place_directory_no_replace, place_config_file_no_replace,
  link_ownership, directory_ownership,
}
use skillmount.Link.Unix.Spares.{inspect_no_follow-At}

map_error-eq-ok :
    {E F A : Type 0} (f : E → F) (r : Result E A) {a : A} → map_error f r ≡ ok a → r ≡ ok a
map_error-eq-ok f (ok b) e = cc
map_error-eq-ok f (err b) e = cc

link_identity : Result LinkError CreatedLink → Option Str
link_identity (ok made) = made.identity
link_identity (err e) = none

directory_identity : Result LinkError OwnedDirectory → Option Str
directory_identity (ok made) = made.identity
directory_identity (err e) = none

file_identity : Result LinkError OwnedConfigFile → Option Str
file_identity (ok made) = made.identity
file_identity (err e) = none

accepted-eq-ok :
    {E A : Type 0} (b : Bool) (a : A) (e : E) {z : A}
    → (if b then ok a else err e) ≡ ok z
    → ◌≡◌ {A = Result E A} (ok a) (ok z)
accepted-eq-ok true a e h = h
accepted-eq-ok false a e h = cc

refused-first :
    {E A W : Type 0} (b : Bool) (e : E) (w : W) (next : Result E A × W) {z : A}
    → (if b then (err e, w) else next).0 ≡ ok z
    → next.0 ≡ ok z
refused-first true e w next h = cc
refused-first false e w next h = h

refused-eq-ok :
    {E A : Type 0} (b : Bool) (e : E) (a : A) {z : A}
    → (if b then err e else ok a) ≡ ok z
    → ◌≡◌ {A = Result E A} (ok a) (ok z)
refused-eq-ok true e a h = cc
refused-eq-ok false e a h = h

created_link-identity :
    (request : LinkRequest) (canonical : FilePath) (target : Option LinkTarget) (live : PathEntry)
    (made : CreatedLink)
    → created_link request canonical target live ≡ ok made
    → live.identity ≡ made.identity
unfolding link_identity
created_link-identity request canonical none live made e = cc
created_link-identity request canonical (some target) live made e =
    ap link_identity (refused-eq-ok _ _ _ e)

created_directory-identity :
    (path : FilePath) (live : PathEntry) (made : OwnedDirectory)
    → created_directory path live ≡ ok made
    → live.identity ≡ made.identity
unfolding directory_identity
created_directory-identity path live made e = ap directory_identity (refused-eq-ok _ _ _ e)

when_sound-placed :
    {A W : Type 0} (o : Option PlacementMismatch) (path : FilePath) (w : W)
    (next : W → Result LinkError (PlacementOutcome A) × W) {moved : A}
    → (when_sound o path w next).0 ≡ ok (placed moved)
    → (next w).0 ≡ ok (placed moved)
when_sound-placed none path w next e = e
when_sound-placed (some m) path w next e = cc

free-placed :
    {A W : Type 0} (free : Bool) (w : W) (next : Result LinkError (PlacementOutcome A) × W)
    {moved : A}
    → (if not free then (ok destination_exists, w) else next).0 ≡ ok (placed moved)
    → next.0 ≡ ok (placed moved)
free-placed true w next e = e
free-placed false w next e = cc

settle-placed :
    {A W : Type 0} (o : Option PlacementMismatch) (path : FilePath) (a : A) (w : W) {moved : A}
    → (settle o path a w).0 ≡ ok (placed moved)
    → a ≡ moved
settle-placed none path a w e = cc
settle-placed (some m) path a w e = cc

module _ (h : Host) where
  observed-fresh :
      (before after : h.World) (path : FilePath) (live : PathEntry) (i : Str)
      → ((m : Metadata) → h.symlink_metadata after path ≡ ok m → ¬ h.Alive before (identity_of m))
      → inspect_no_follow h after path ≡ ok live
      → live.identity ≡ some i
      → ¬ h.Alive before i
  observed-fresh before after path live i new seen known alive =
      let (m, found, same) =
        inspect_no_follow-At h after path live (some i) seen (i, known, refl) in
      new m found (subst (λ j. h.Alive before j) (some_injective same) alive)

  pub create_directory-fresh :
      (p : FilePath) (w : h.World) (made : OwnedDirectory) (i : Str)
      → (create_directory h p w).0 ≡ ok made
      → made.identity ≡ some i
      → ¬ h.Alive w i
  unfolding create_directory
  create_directory-fresh p w made i succeeds known =
      let (u, called, after) = carry-eq-ok _ _ _ succeeds in
      let (live, seen, recorded) = >>=-eq-ok _ _ after in
      observed-fresh w (h.create_dir p w).1 p live i
        (λ m. h.create_dir-fresh p w m (map_error-eq-ok _ _ called)) (map_error-eq-ok _ _ seen)
        (created_directory-identity p live made recorded ∙ known)

  pub create_directory_link-fresh :
      (r : LinkRequest) (w : h.World) (made : CreatedLink) (i : Str)
      → (create_directory_link h r w).0 ≡ ok made
      → made.identity ≡ some i
      → ¬ h.Alive w i
  unfolding create_directory_link
  create_directory_link-fresh r w made i succeeds known =
      let (canonical, resolved, then_made) =
        carry-eq-ok _ _ _ (refused-first (is_junction r.mode) _ _ _ succeeds) in
      let (u, called, after) = carry-eq-ok _ _ _ then_made in
      let (live, seen, recorded) = >>=-eq-ok _ _ after in
      observed-fresh w (h.symlink canonical r.staged_path w).1 r.staged_path live i
        (λ m. h.symlink-fresh canonical r.staged_path w m (map_error-eq-ok _ _ called))
        (map_error-eq-ok _ _ seen)
        (created_link-identity r canonical live.target live made recorded ∙ known)

  pub create_config_file-fresh :
      (p : FilePath) (s : Str) (w : h.World) (made : OwnedConfigFile) (i : Str)
      → (create_config_file h p s w).0 ≡ ok made
      → made.identity ≡ some i
      → ¬ h.Alive w i
  unfolding create_config_file file_identity
  create_config_file-fresh p s w made i succeeds known alive =
      let (m, called, after) =
        carry-eq-ok _ _ _ (refused-first (ltb max_config_bytes (length s)) _ _ _ succeeds) in
      let file : OwnedConfigFile = record {
        path = p;
        identity = some (identity_of m);
        contents = s;
      } in
      let (o, seen, recorded) =
        >>=-eq-ok (config_ownership h (h.create_new_file p s w).1 file) (kept_if_owned file)
          after in
      let same : some (identity_of m) ≡ made.identity =
        ap file_identity (accepted-eq-ok (is_owned o) file _ recorded) in
      h.create_new_file-fresh p s w m (map_error-eq-ok _ _ called)
        (subst (λ j. h.Alive w j) (some_injective (sym (same ∙ known))) alive)

  place_checked-identity :
      {A : Type 0} (ownership : h.World → A → Result LinkError Ownership) (path_of : A → FilePath)
      (relocated : A → FilePath → A) (r : A) (p : FilePath) (w : h.World) (moved : A)
      → (place_checked h ownership path_of relocated r p w).0 ≡ ok (placed moved)
      → relocated r p ≡ moved
  place_checked-identity ownership path_of relocated r p w moved succeeds =
      let (o, seen, checked) = carry-eq-ok (ownership w r) w _ succeeds in
      let (free, called, after) =
        carry-eq-ok _ _ _ (when_sound-placed (placement_mismatch o) (path_of r) w _ checked) in
      settle-placed _ p _ _ (free-placed free _ _ after)

  pub place_no_replace-identity :
      (r : CreatedLink) (p : FilePath) (w : h.World) (moved : CreatedLink)
      → (place_no_replace h r p w).0 ≡ ok (placed moved)
      → moved.identity ≡ r.identity
  unfolding place_no_replace
  place_no_replace-identity r p w moved e =
      ap (λ a. a.identity)
        (sym (place_checked-identity (link_ownership h) (λ a. a.path) relocate_link r p w moved e))

  pub place_directory_no_replace-identity :
      (r : OwnedDirectory) (p : FilePath) (w : h.World) (moved : OwnedDirectory)
      → (place_directory_no_replace h r p w).0 ≡ ok (placed moved)
      → moved.identity ≡ r.identity
  unfolding place_directory_no_replace
  place_directory_no_replace-identity r p w moved e =
      ap (λ a. a.identity)
        (sym (
          place_checked-identity (directory_ownership h) (λ a. a.path) relocate_directory r p w
            moved e))

  pub place_config_file_no_replace-identity :
      (r : OwnedConfigFile) (p : FilePath) (w : h.World) (moved : OwnedConfigFile)
      → (place_config_file_no_replace h r p w).0 ≡ ok (placed moved)
      → moved.identity ≡ r.identity
  unfolding place_config_file_no_replace
  place_config_file_no_replace-identity r p w moved e =
      ap (λ a. a.identity)
        (sym
          (place_checked-identity (config_ownership h) (λ a. a.path) relocate_file r p w moved e))
