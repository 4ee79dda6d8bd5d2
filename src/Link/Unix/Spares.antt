-- ===== src/Link/Unix/Spares.antt =====
-- src/link/unix.rs: which entries an operation of the backend leaves in existence.
use skillmount.Prelude.{
  not, Option, none, some, Result, ok, err, carry-keeps, if-keeps, >>=-eq-ok, ◌≡◌, ◌≢◌, refl, ap,
  ◌∙◌, arith, Bool-cases, inl, inr, ltb, length,
}
use skillmount.Text.{Str}
use skillmount.FilePath.{FilePath}
use skillmount.Link.{
  EntryKind, plain, PathEntry, LinkRequest, CreatedLink, OwnedDirectory, OwnedConfigFile, LinkError,
  PlacementMismatch, PlacementOutcome, RemoveOutcome,
}
use skillmount.Link.Ownership.{
  Ownership, owned, absent, mismatch, SameIdentity, verify_ownership-owned,
  verify_directory_ownership-owned, verify_config_ownership-owned, placement_mismatch,
}
use skillmount.Link.Host.{Host, IoError, Metadata, identity_of}
use skillmount.Link.Outcome.{
  max_config_bytes, is_not_found, is_junction, when_owned, when_sound, settle, target_test,
}
use skillmount.Link.Unix.{
  entry_from, target_of, inspect_no_follow, observed_ownership, config_ownership,
  create_directory_link, create_directory, create_config_file, place_path_no_replace, place_checked,
  link_ownership, directory_ownership, place_no_replace, place_directory_no_replace,
  place_config_file_no_replace, remove_link_entry, remove_empty_directory, remove_config_file,
}

module _ (h : Host) where
  -- The identity of an observed entry is that of the entry at the path.
  abbrev pub At : h.World → FilePath → Option Str → Type 0
  At w path recorded =
      (m : Metadata) × (h.symlink_metadata w path ≡ ok m) × (recorded ≡ some (identity_of m))

  identity_in : Result LinkError PathEntry → Option Str
  identity_in (ok entry) = entry.identity
  identity_in (err e) = none

  entry_from-identity :
      (w : h.World) (path : FilePath) (r : Result IoError Metadata) (live : PathEntry) (i : Str)
      → entry_from h w path r ≡ ok live
      → live.identity ≡ some i
      → (m : Metadata) × (r ≡ ok m) × (i ≡ identity_of m)
  unfolding identity_in
  entry_from-identity w path (err e) live i seen known = elim (Bool-cases (is_not_found e.kind)) [
    | inl missing ↦
        let same : plain path EntryKind.missing ≡ live = ground arith in
        let none_is : none ≡ live.identity = ap (λ l. l.identity) same in cc
    | inr other ↦ ground arith
  ]
  entry_from-identity w path (ok m) live i seen known =
      let (target, found, made) = >>=-eq-ok (target_of h w path m.file_type) _ seen in
      let some_is : some (identity_of m) ≡ live.identity = ap identity_in made in (m, refl, cc)

  pub inspect_no_follow-At :
      (w : h.World) (path : FilePath) (live : PathEntry) (recorded : Option Str)
      → inspect_no_follow h w path ≡ ok live
      → SameIdentity live.identity recorded
      → At w path recorded
  unfolding inspect_no_follow
  inspect_no_follow-At w path live recorded seen (i, is_live, is_recorded) =
      let (m, found, same) =
        entry_from-identity w path (h.symlink_metadata w path) live i seen is_live in
      (m, found, is_recorded ∙ ap some same)

  link_ownership-At :
      (w : h.World) (recorded : CreatedLink)
      → link_ownership h w recorded ≡ ok owned
      → At w recorded.path recorded.identity
  link_ownership-At w recorded is_owned =
      let (live, seen, verified) = >>=-eq-ok (inspect_no_follow h w recorded.path) _ is_owned in
      inspect_no_follow-At w recorded.path live recorded.identity seen
        (verify_ownership-owned live recorded (target_test recorded) (cc)).0

  directory_ownership-At :
      (w : h.World) (recorded : OwnedDirectory)
      → directory_ownership h w recorded ≡ ok owned
      → At w recorded.path recorded.identity
  directory_ownership-At w recorded is_owned =
      let (live, seen, verified) = >>=-eq-ok (inspect_no_follow h w recorded.path) _ is_owned in
      inspect_no_follow-At w recorded.path live recorded.identity seen
        (verify_directory_ownership-owned live recorded (cc)).0

  observed_ownership-owned :
      (w : h.World) (recorded : OwnedConfigFile) (o : Ownership)
      → observed_ownership h w recorded o ≡ ok owned
      → o ≡ owned
  observed_ownership-owned w recorded owned is_owned = refl
  observed_ownership-owned w recorded absent is_owned = cc
  observed_ownership-owned w recorded (mismatch m) is_owned = cc

  config_ownership-At :
      (w : h.World) (recorded : OwnedConfigFile)
      → config_ownership h w recorded ≡ ok owned
      → At w recorded.path recorded.identity
  unfolding config_ownership
  config_ownership-At w recorded is_owned =
      let (live, seen, verified) = >>=-eq-ok (inspect_no_follow h w recorded.path) _ is_owned in
      inspect_no_follow-At w recorded.path live recorded.identity seen
        (verify_config_ownership-owned live recorded
          (observed_ownership-owned w recorded _ verified)).0

  -- One of the two removing calls, at an entry of another identity.
  abbrev Removes : (FilePath → h.World → Result IoError (Unit {0}) × h.World) → Type 0
  Removes call =
      (p : FilePath) (w : h.World) (m : Metadata) (i : Str)
      → h.symlink_metadata w p ≡ ok m
      → identity_of m ≢ i
      → h.Alive w i
      → h.Alive (call p w).1 i

  At-spares :
      (call : FilePath → h.World → Result IoError (Unit {0}) × h.World) (removes : Removes call)
      (w : h.World) (path : FilePath) (recorded : Option Str) (i : Str)
      → At w path recorded
      → recorded ≢ some i
      → h.Alive w i
      → h.Alive (call path w).1 i
  At-spares call removes w path recorded i (m, found, same) other alive =
      removes path w m i found (λ e. other (same ∙ ap some e)) alive

  when_owned-keeps :
      (P : h.World → Type 0) (o : Ownership) (w : h.World)
      (next : h.World → Result LinkError RemoveOutcome × h.World)
      → P w
      → (o ≡ owned → P (next w).1)
      → P (when_owned o w next).1
  when_owned-keeps P owned w next before after = after refl
  when_owned-keeps P absent w next before after = before
  when_owned-keeps P (mismatch m) w next before after = before

  when_sound-keeps :
      {A : Type 0} (P : h.World → Type 0) (o : Option PlacementMismatch) (path : FilePath)
      (w : h.World) (next : h.World → Result LinkError (PlacementOutcome A) × h.World)
      → P w
      → P (next w).1
      → P (when_sound o path w next).1
  when_sound-keeps P none path w next before after = after
  when_sound-keeps P (some m) path w next before after = before

  settle-keeps :
      {A : Type 0} (P : h.World → Type 0) (o : Option PlacementMismatch) (path : FilePath) (a : A)
      (w : h.World)
      → P w
      → P (settle o path a w).1
  settle-keeps P none path a w before = before
  settle-keeps P (some m) path a w before = before

  -- The unlinking of a recorded link leaves every entry of another identity in existence.
  pub remove_link_entry-spares :
      (r : CreatedLink) (w : h.World) (i : Str)
      → r.identity ≢ some i
      → h.Alive w i
      → h.Alive (remove_link_entry h r w).1 i
  unfolding remove_link_entry
  remove_link_entry-spares r w i other alive =
      carry-keeps (λ w. h.Alive w i) (link_ownership h w r) w _ alive
        (λ first seen alive.
          when_owned-keeps (λ w. h.Alive w i) first w _ alive
            (λ first_owned.
              carry-keeps (λ w. h.Alive w i) (link_ownership h w r) w _ alive
                (λ second seen alive.
                  when_owned-keeps (λ w. h.Alive w i) second w _ alive
                    (λ second_owned.
                      At-spares h.remove_file h.remove_file-spares w r.path r.identity i
                        (link_ownership-At w r (cc)) other alive))))

  -- The removal of a recorded directory leaves every entry of another identity in existence.
  pub remove_empty_directory-spares :
      (r : OwnedDirectory) (w : h.World) (i : Str)
      → r.identity ≢ some i
      → h.Alive w i
      → h.Alive (remove_empty_directory h r w).1 i
  unfolding remove_empty_directory
  remove_empty_directory-spares r w i other alive =
      carry-keeps (λ w. h.Alive w i) (directory_ownership h w r) w _ alive
        (λ first seen alive.
          when_owned-keeps (λ w. h.Alive w i) first w _ alive
            (λ first_owned.
              carry-keeps (λ w. h.Alive w i) (directory_ownership h w r) w _ alive
                (λ second seen alive.
                  when_owned-keeps (λ w. h.Alive w i) second w _ alive
                    (λ second_owned.
                      At-spares h.remove_dir h.remove_dir-spares w r.path r.identity i
                        (directory_ownership-At w r (cc)) other alive))))

  -- The removal of a recorded configuration file leaves every entry of another identity in existence.
  pub remove_config_file-spares :
      (r : OwnedConfigFile) (w : h.World) (i : Str)
      → r.identity ≢ some i
      → h.Alive w i
      → h.Alive (remove_config_file h r w).1 i
  unfolding remove_config_file
  remove_config_file-spares r w i other alive =
      carry-keeps (λ w. h.Alive w i) (config_ownership h w r) w _ alive
        (λ o seen alive.
          when_owned-keeps (λ w. h.Alive w i) o w _ alive
            (λ is_owned.
              At-spares h.remove_file h.remove_file-spares w r.path r.identity i
                (config_ownership-At w r (cc)) other alive))

  pub create_directory_link-spares :
      (r : LinkRequest) (w : h.World) (i : Str)
      → h.Alive w i
      → h.Alive (create_directory_link h r w).1 i
  unfolding create_directory_link
  create_directory_link-spares r w i alive =
      if-keeps (λ w. h.Alive w i) (is_junction r.mode) _ _ alive
        (carry-keeps (λ w. h.Alive w i) _ w _ alive
          (λ canonical e alive.
            carry-keeps (λ w. h.Alive w i) _ _ _
              (h.symlink-spares canonical r.staged_path w i alive) (λ u e alive. alive)))

  pub create_directory-spares :
      (p : FilePath) (w : h.World) (i : Str) → h.Alive w i → h.Alive (create_directory h p w).1 i
  unfolding create_directory
  create_directory-spares p w i alive =
      carry-keeps (λ w. h.Alive w i) _ _ _ (h.create_dir-spares p w i alive) (λ u e alive. alive)

  pub create_config_file-spares :
      (p : FilePath) (s : Str) (w : h.World) (i : Str)
      → h.Alive w i
      → h.Alive (create_config_file h p s w).1 i
  unfolding create_config_file
  create_config_file-spares p s w i alive =
      if-keeps (λ w. h.Alive w i) (ltb max_config_bytes (length s)) _ _ alive
        (carry-keeps (λ w. h.Alive w i) _ _ _ (h.create_new_file-spares p s w i alive)
          (λ m e alive. alive))

  place_checked-spares :
      {A : Type 0} (ownership : h.World → A → Result LinkError Ownership) (path_of : A → FilePath)
      (relocated : A → FilePath → A) (r : A) (p : FilePath) (w : h.World) (i : Str)
      → h.Alive w i
      → h.Alive (place_checked h ownership path_of relocated r p w).1 i
  unfolding place_path_no_replace
  place_checked-spares ownership path_of relocated r p w i alive =
      carry-keeps (λ w. h.Alive w i) (ownership w r) w _ alive
        (λ o seen alive.
          when_sound-keeps (λ w. h.Alive w i) (placement_mismatch o) (path_of r) w _ alive
            (carry-keeps (λ w. h.Alive w i) _ _ _
              (h.rename_no_replace-spares (path_of r) p w i alive)
              (λ free e alive.
                if-keeps (λ w. h.Alive w i) (not free) _ _ alive
                  (settle-keeps (λ w. h.Alive w i) _ p _ _ alive))))

  pub place_no_replace-spares :
      (r : CreatedLink) (p : FilePath) (w : h.World) (i : Str)
      → h.Alive w i
      → h.Alive (place_no_replace h r p w).1 i
  unfolding place_no_replace
  place_no_replace-spares = place_checked-spares _ _ _

  pub place_directory_no_replace-spares :
      (r : OwnedDirectory) (p : FilePath) (w : h.World) (i : Str)
      → h.Alive w i
      → h.Alive (place_directory_no_replace h r p w).1 i
  unfolding place_directory_no_replace
  place_directory_no_replace-spares = place_checked-spares _ _ _

  pub place_config_file_no_replace-spares :
      (r : OwnedConfigFile) (p : FilePath) (w : h.World) (i : Str)
      → h.Alive w i
      → h.Alive (place_config_file_no_replace h r p w).1 i
  unfolding place_config_file_no_replace
  place_config_file_no_replace-spares = place_checked-spares _ _ _
