-- ===== src/Transaction/Staging/Spares.antt =====
-- src/transaction/apply.rs: what the steps for one entry leave in existence, and of which identity it is.
use skillmount.Prelude.{
  ℕ, zero, suc, List, [], ◌∷◌, Option, none, some, Result, ok, err, ◌≡◌, ◌≢◌, refl, sym, ◌∙◌, subst,
  carry-keeps, carry-holds, ok_injective,
}
use skillmount.Text.{Str}
use skillmount.FilePath.{FilePath}
use skillmount.Mount.Action.{PathPrecondition, missing, existing_link_to_source}
use skillmount.Journal.Status.{
  ActionStatus, ActionOperation, create_directory, create_config_file, create_directory_link,
  reuse_existing_link, RecordedKind,
}
use skillmount.Journal.Record.{JournalAction}
use skillmount.Link.{
  LinkError, LinkRequest, PlacementOutcome, placed, destination_exists, misplaced,
}
use skillmount.Link.Outcome.{map_error}
use skillmount.Transaction.{AppError, link_failed, Environment, Transaction}
use skillmount.Transaction.Cleanup.Spares.{Unrecorded, Foreign, save-Foreign}
use skillmount.Transaction.Staging.{
  Staged, link, directory, config_file, staged_identity, requested_mode, change_at, with_status,
  record_staged, record_placed, Applied, call, change, enter, check_precondition, staged_as,
  stage_file, stage_link, stage, after_placement, placement_failure, place,
}

change_at-Unrecorded :
    (i : Str) (index : ℕ) (f : JournalAction → JournalAction) (actions : List JournalAction)
    → ((a : JournalAction) → a.identity ≢ some i → (f a).identity ≢ some i)
    → Unrecorded i actions
    → Unrecorded i (change_at index f actions)
unfolding change_at
change_at-Unrecorded i zero f [] keeps h = tt
change_at-Unrecorded i (suc index) f [] keeps h = tt
change_at-Unrecorded i zero f (a ∷ actions) keeps h = (keeps a h.0, h.1)
change_at-Unrecorded i (suc index) f (a ∷ actions) keeps h =
    (h.0, change_at-Unrecorded i index f actions keeps h.1)

record_staged-identity :
    (i : Str) (s : Staged)
    → staged_identity s ≢ some i
    → (a : JournalAction) → a.identity ≢ some i
    → (record_staged s a).identity ≢ some i
record_staged-identity i (link l) new a other = new
record_staged-identity i (directory d) new a other = new
record_staged-identity i (config_file f) new a other = new

pub record_placed-identity :
    (i : Str) (s : Staged)
    → staged_identity s ≢ some i
    → (a : JournalAction) → a.identity ≢ some i
    → (record_placed s a).identity ≢ some i
record_placed-identity i (link l) new a other = new
record_placed-identity i (directory d) new a other = new
record_placed-identity i (config_file f) new a other = new

map_error-eq-ok :
    {E F A : Type 0} (f : E → F) (r : Result E A) {a : A} → map_error f r ≡ ok a → r ≡ ok a
map_error-eq-ok f (ok b) e = cc
map_error-eq-ok f (err b) e = cc

module _ (env : Environment) (i : Str) where
  abbrev pub Kept : Transaction env → Type 0
  Kept = Foreign env i

  -- A step keeps the entry, and what it gives is of another identity.
  abbrev pub KeptNew : Applied env Staged → Type 0
  KeptNew result = Kept result.1 × ((s : Staged) → result.0 ≡ ok s → staged_identity s ≢ some i)

  pub change-Kept :
      (index : ℕ) (f : JournalAction → JournalAction) (t : Transaction env)
      → ((a : JournalAction) → a.identity ≢ some i → (f a).identity ≢ some i)
      → Kept t
      → Kept (change env index f t)
  unfolding change
  change-Kept index f t keeps (alive, unrecorded) =
      (alive, change_at-Unrecorded i index f t.journal.actions keeps unrecorded)

  pub enter-Kept :
      (index : ℕ) (status : ActionStatus) (t : Transaction env)
      → Kept t
      → Kept (enter env index status t).1
  unfolding enter
  enter-Kept index status t kept =
      save-Foreign env i _ (change-Kept index (with_status status) t (λ a other. other) kept)

  pub check_precondition-Kept :
      (precondition : PathPrecondition) (path : FilePath) (t : Transaction env)
      → Kept t
      → Kept (check_precondition env precondition path t).1
  unfolding check_precondition
  check_precondition-Kept existing_link_to_source path t kept = kept
  check_precondition-Kept missing path t kept = carry-keeps Kept _ t _ kept (λ live e kept. kept)

  -- A call of the backend that makes an entry, and the step that records it.
  call-KeptNew :
      {A : Type 0} (f : env.backend.World → Result LinkError A × env.backend.World)
      (t : Transaction env) (next : A → Transaction env → Applied env Staged)
      → env.backend.Alive (f t.world).1 i
      → ((made : A) (u : Transaction env)
          → (f t.world).0 ≡ ok made
          → Kept u
          → KeptNew (next made u))
      → Kept t
      → KeptNew (call env f t next)
  unfolding call
  call-KeptNew f t next alive goes_on (before, unrecorded) =
      carry-holds KeptNew _ _ _ (λ e. ((alive, unrecorded), λ s succeeds. absurd (cc)))
        (λ made e. goes_on made _ (map_error-eq-ok link_failed _ e) (alive, unrecorded))

  staged_as-KeptNew :
      (index : ℕ) (s : Staged) (t : Transaction env)
      → staged_identity s ≢ some i
      → Kept t
      → KeptNew (staged_as env index s t)
  unfolding staged_as
  staged_as-KeptNew index s t new kept = (
    change-Kept index (record_staged s) t (record_staged-identity i s new) kept,
    λ r succeeds. subst (λ x. staged_identity x ≢ some i) (ok_injective succeeds) new,
  )

  fail-KeptNew : (e : AppError) (t : Transaction env) → Kept t → KeptNew (err e, t)
  fail-KeptNew e t kept = (kept, λ s succeeds. absurd (cc))

  stage_file-KeptNew :
      (index : ℕ) (contents : Option Str) (temporary : FilePath) (t : Transaction env)
      → Kept t
      → KeptNew (stage_file env index contents temporary t)
  unfolding stage_file
  stage_file-KeptNew index none temporary t kept = fail-KeptNew _ t kept
  stage_file-KeptNew index (some contents) temporary t kept =
      call-KeptNew (env.backend.create_config_file temporary contents) t _
        (env.backend.create_config_file-spares temporary contents t.world i kept.0)
        (λ made u e after.
          staged_as-KeptNew index (config_file made) u
            (λ same.
              env.backend.create_config_file-fresh temporary contents t.world made i e same kept.0)
            after)
        kept

  stage_link-KeptNew :
      (index : ℕ) (source : Option FilePath) (kind : RecordedKind) (temporary : FilePath)
      (t : Transaction env)
      → Kept t
      → KeptNew (stage_link env index source kind temporary t)
  unfolding stage_link
  stage_link-KeptNew index none kind temporary t kept = fail-KeptNew _ t kept
  stage_link-KeptNew index (some source) kind temporary t kept =
      let request : LinkRequest = record {
        source = source;
        staged_path = temporary;
        mode = requested_mode kind;
      } in
      call-KeptNew (env.backend.create_directory_link request) t _
        (env.backend.create_directory_link-spares request t.world i kept.0)
        (λ made u e after.
          staged_as-KeptNew index (link made) u
            (λ same. env.backend.create_directory_link-fresh request t.world made i e same kept.0)
            after)
        kept

  pub stage-KeptNew :
      (operation : ActionOperation) (index : ℕ) (a : JournalAction) (temporary : FilePath)
      (t : Transaction env)
      → Kept t
      → KeptNew (stage env operation index a temporary t)
  unfolding stage stage_file stage_link
  stage-KeptNew create_directory index a temporary t kept =
      call-KeptNew (env.backend.create_directory temporary) t _
        (env.backend.create_directory-spares temporary t.world i kept.0)
        (λ made u e after.
          staged_as-KeptNew index (directory made) u
            (λ same. env.backend.create_directory-fresh temporary t.world made i e same kept.0)
            after)
        kept
  stage-KeptNew reuse_existing_link index a temporary t kept = fail-KeptNew _ t kept
  stage-KeptNew create_config_file index a temporary t kept =
      stage_file-KeptNew index a.config_contents temporary t kept
  stage-KeptNew create_directory_link index a temporary t kept =
      stage_link-KeptNew index a.source_canonical a.kind temporary t kept

  after_placement-KeptNew :
      {A : Type 0} (wrap : A → Staged) (id : ℕ) (taken : AppError) (outcome : PlacementOutcome A)
      (t : Transaction env)
      → ((a : A) → outcome ≡ placed a → staged_identity (wrap a) ≢ some i)
      → Kept t
      → KeptNew (after_placement env wrap id taken outcome t)
  unfolding after_placement placement_failure
  after_placement-KeptNew wrap id taken (placed a) t new kept = (
    kept,
    λ s succeeds. subst (λ x. staged_identity x ≢ some i) (ok_injective succeeds) (new a refl),
  )
  after_placement-KeptNew wrap id taken destination_exists t new kept = fail-KeptNew taken t kept
  after_placement-KeptNew wrap id taken (misplaced residue) t new kept =
      (kept, λ s succeeds. absurd (cc))

  pub place-KeptNew :
      (id : ℕ) (final_path : FilePath) (s : Staged) (t : Transaction env)
      → staged_identity s ≢ some i
      → Kept t
      → KeptNew (place env id final_path s t)
  unfolding place
  place-KeptNew id final_path (link l) t new kept =
      call-KeptNew (env.backend.place_no_replace l final_path) t _
        (env.backend.place_no_replace-spares l final_path t.world i kept.0)
        (λ outcome u e after.
          after_placement-KeptNew link id _ outcome u
            (λ moved is_moved same.
              new (
                sym (env.backend.place_no_replace-identity l final_path t.world moved (cc)) ∙ same))
            after)
        kept
  place-KeptNew id final_path (directory d) t new kept =
      call-KeptNew (env.backend.place_directory_no_replace d final_path) t _
        (env.backend.place_directory_no_replace-spares d final_path t.world i kept.0)
        (λ outcome u e after.
          after_placement-KeptNew directory id _ outcome u
            (λ moved is_moved same. new (
              sym (env.backend.place_directory_no_replace-identity d final_path t.world moved (cc))
              ∙ same))
            after)
        kept
  place-KeptNew id final_path (config_file f) t new kept =
      call-KeptNew (env.backend.place_config_file_no_replace f final_path) t _
        (env.backend.place_config_file_no_replace-spares f final_path t.world i kept.0)
        (λ outcome u e after.
          after_placement-KeptNew config_file id _ outcome u
            (λ moved is_moved same. new (
              sym
                (env.backend.place_config_file_no_replace-identity f final_path t.world moved (cc))
              ∙ same))
            after)
        kept
