-- ===== src/Transaction/Apply/Ahead.antt =====
-- src/transaction/apply.rs: what is durable when the backend is asked to make or to place an entry.
use skillmount.Prelude.{
  ℕ, zero, suc, true, List, [], ◌∷◌, Option, none, some, Result, ok, ◌≡◌, ◌⊎◌, inl, inr, refl, ◌∙◌,
  carry-keeps, some_injective, ap,
}
use skillmount.Text.{Str}
use skillmount.FilePath.{FilePath}
use skillmount.Mount.Action.{PathPrecondition, missing, existing_link_to_source}
use skillmount.Journal.Status.{
  ActionStatus, ActionOperation, create_directory, create_config_file, create_directory_link,
  reuse_existing_link, RecordedKind, may_have_created_something,
}
use skillmount.Journal.Record.{JournalAction}
use skillmount.Link.{
  LinkError, LinkRequest, PlacementOutcome, placed, destination_exists, misplaced,
}
use skillmount.Transaction.{AppError, Environment, Transaction, save}
use skillmount.Transaction.Apply.{
  commit, place_staged, stage_intended, stage_and_place, create_with, create_and_place, reuse_with,
  confirm_reuse, apply_action, apply_one,
}
use skillmount.Transaction.Staging.{
  Staged, link, directory, config_file, action_at, change_at, with_status, requested_mode,
  record_staged, record_placed, Applied, call, change, enter, check_precondition, staged_as,
  stage_file, stage_link, stage, create_staged, after_placement, placement_failure, place,
}
use skillmount.Transaction.Apply.Watched.{Announced, Watched}

action_at-change_at :
    (index : ℕ) (f : JournalAction → JournalAction) (actions : List JournalAction)
    {b : JournalAction}
    → action_at index actions ≡ some b
    → action_at index (change_at index f actions) ≡ some (f b)
unfolding action_at change_at
action_at-change_at index f [] e = absurd (cc)
action_at-change_at zero f (a ∷ actions) e = ap some (ap f (some_injective e))
action_at-change_at (suc index) f (a ∷ actions) e = action_at-change_at index f actions e

abbrev SamePaths : JournalAction → JournalAction → Type 0
SamePaths a b = (b.temporary_path ≡ a.temporary_path) × (b.final_path ≡ a.final_path)

staged-SamePaths :
    (s : Staged) (a b : JournalAction) → SamePaths a b → SamePaths a (record_staged s b)
staged-SamePaths (link l) a b same = same
staged-SamePaths (directory d) a b same = same
staged-SamePaths (config_file f) a b same = same

placed-SamePaths :
    (s : Staged) (a b : JournalAction) → SamePaths a b → SamePaths a (record_placed s b)
placed-SamePaths (link l) a b same = same
placed-SamePaths (directory d) a b same = same
placed-SamePaths (config_file f) a b same = same

module _ (env : Environment) (Safe : env.backend.World → Type 0) (watched : Watched env Safe)
    (index : ℕ) (a : JournalAction) where
  -- The action at the index has the paths of the one that is applied.
  abbrev Inv : Transaction env → Type 0
  Inv t =
      Safe t.world
      × ((b : JournalAction) × (action_at index t.journal.actions ≡ some b) × SamePaths a b)

  change-Inv :
      (f : JournalAction → JournalAction) (t : Transaction env)
      → ((b : JournalAction) → SamePaths a b → SamePaths a (f b))
      → Inv t
      → Inv (change env index f t)
  unfolding change
  change-Inv f t keeps (safe, (b, found, same)) =
      (safe, (f b, action_at-change_at index f t.journal.actions found, keeps b same))

  save-Inv : (t : Transaction env) → Inv t → Inv (save env t).1
  unfolding save
  save-Inv t (safe, at) = (watched.persist-keeps t.journal t.world safe, at)

  enter-Inv :
      (status : ActionStatus) (t : Transaction env) → Inv t → Inv (enter env index status t).1
  unfolding enter
  enter-Inv status t inv = save-Inv _ (change-Inv (with_status status) t (λ b same. same) inv)

  enter-Announced :
      (status : ActionStatus) (t : Transaction env) (u : Unit {0}) (path : FilePath)
      → may_have_created_something status ≡ true
      → Inv t
      → (enter env index status t).0 ≡ ok u
      → (a.temporary_path ≡ some path) ⊎ (a.final_path ≡ path)
      → Announced (env.durable (enter env index status t).1.world) path
  unfolding enter save change
  enter-Announced status t u path pending (safe, (b, found, same)) entered names =
      let written = (change env index (with_status status) t).journal in
      (
        written,
        index,
        with_status status b,
        env.persist-durable written t.world entered,
        action_at-change_at index (with_status status) t.journal.actions found,
        pending,
        elim names [ inl staged ↦ inl (same.0 ∙ staged) | inr final ↦ inr (same.1 ∙ final) ],
      )

  call-Inv :
      {A B : Type 0} (f : env.backend.World → Result LinkError A × env.backend.World)
      (t : Transaction env) (next : A → Transaction env → Applied env B)
      → Safe (f t.world).1
      → ((made : A) (u : Transaction env) → Inv u → Inv (next made u).1)
      → Inv t
      → Inv (call env f t next).1
  unfolding call
  call-Inv f t next safe goes_on (before, at) =
      carry-keeps Inv _ _ _ (safe, at) (λ made e. goes_on made _)

  staged_as-Inv : (s : Staged) (t : Transaction env) → Inv t → Inv (staged_as env index s t).1
  unfolding staged_as
  staged_as-Inv s t inv = change-Inv (record_staged s) t (staged-SamePaths s a) inv

  stage_file-Inv :
      (contents : Option Str) (temporary : FilePath) (t : Transaction env)
      → Announced (env.durable t.world) temporary
      → Inv t
      → Inv (stage_file env index contents temporary t).1
  unfolding stage_file
  stage_file-Inv none temporary t announced inv = inv
  stage_file-Inv (some contents) temporary t announced inv =
      call-Inv (env.backend.create_config_file temporary contents) t _
        (watched.create_config_file-keeps temporary contents t.world announced inv.0)
        (λ made. staged_as-Inv (config_file made)) inv

  stage_link-Inv :
      (source : Option FilePath) (kind : RecordedKind) (temporary : FilePath) (t : Transaction env)
      → Announced (env.durable t.world) temporary
      → Inv t
      → Inv (stage_link env index source kind temporary t).1
  unfolding stage_link
  stage_link-Inv none kind temporary t announced inv = inv
  stage_link-Inv (some source) kind temporary t announced inv =
      let request : LinkRequest = record {
        source = source;
        staged_path = temporary;
        mode = requested_mode kind;
      } in
      call-Inv (env.backend.create_directory_link request) t _
        (watched.create_directory_link-keeps request t.world announced inv.0)
        (λ made. staged_as-Inv (link made)) inv

  stage-Inv :
      (operation : ActionOperation) (temporary : FilePath) (t : Transaction env)
      → Announced (env.durable t.world) temporary
      → Inv t
      → Inv (stage env operation index a temporary t).1
  unfolding stage
  stage-Inv create_config_file temporary t announced inv =
      stage_file-Inv a.config_contents temporary t announced inv
  stage-Inv create_directory temporary t announced inv =
      call-Inv (env.backend.create_directory temporary) t _
        (watched.create_directory-keeps temporary t.world announced inv.0)
        (λ made. staged_as-Inv (directory made)) inv
  stage-Inv create_directory_link temporary t announced inv =
      stage_link-Inv a.source_canonical a.kind temporary t announced inv
  stage-Inv reuse_existing_link temporary t announced inv = inv

  after_placement-Inv :
      {A : Type 0} (wrap : A → Staged) (id : ℕ) (taken : AppError) (outcome : PlacementOutcome A)
      (t : Transaction env)
      → Inv t
      → Inv (after_placement env wrap id taken outcome t).1
  unfolding after_placement placement_failure
  after_placement-Inv wrap id taken (placed m) t inv = inv
  after_placement-Inv wrap id taken destination_exists t inv = inv
  after_placement-Inv wrap id taken (misplaced residue) t inv = inv

  place-Inv :
      (id : ℕ) (final_path : FilePath) (s : Staged) (t : Transaction env)
      → Announced (env.durable t.world) final_path
      → Inv t
      → Inv (place env id final_path s t).1
  unfolding place
  place-Inv id final_path (link l) t announced inv =
      call-Inv (env.backend.place_no_replace l final_path) t _
        (watched.place_no_replace-keeps l final_path t.world announced inv.0)
        (after_placement-Inv link id _) inv
  place-Inv id final_path (directory d) t announced inv =
      call-Inv (env.backend.place_directory_no_replace d final_path) t _
        (watched.place_directory_no_replace-keeps d final_path t.world announced inv.0)
        (after_placement-Inv directory id _) inv
  place-Inv id final_path (config_file f) t announced inv =
      call-Inv (env.backend.place_config_file_no_replace f final_path) t _
        (watched.place_config_file_no_replace-keeps f final_path t.world announced inv.0)
        (after_placement-Inv config_file id _) inv

  commit-Inv : (s : Staged) (t : Transaction env) → Inv t → Inv (commit env index s t).1
  unfolding commit
  commit-Inv s t inv =
      save-Inv (change env index (record_placed s) t)
        (change-Inv (record_placed s) t (placed-SamePaths s a) inv)

  place_staged-Inv :
      (s : Staged) (t : Transaction env) → Inv t → Inv (place_staged env index a s t).1
  unfolding place_staged
  place_staged-Inv s t inv =
      carry-keeps Inv _ _ _ (enter-Inv ActionStatus.staged t inv) (λ u entered at.
        let announced =
          enter-Announced ActionStatus.staged t u a.final_path
            (unfold may_have_created_something in refl) inv entered (inr refl) in
        carry-keeps Inv _ _ _
          (place-Inv a.id a.final_path s (enter env index ActionStatus.staged t).1 announced at)
          (λ moved e. commit-Inv moved _))

  stage_and_place-Inv :
      (temporary : FilePath) (t : Transaction env)
      → a.temporary_path ≡ some temporary
      → Inv t
      → Inv (stage_and_place env index a temporary t).1
  unfolding stage_and_place stage_intended create_staged
  stage_and_place-Inv temporary t staged_at inv =
      carry-keeps Inv _ _ _ (enter-Inv ActionStatus.intent t inv) (λ u entered at.
        let announced =
          enter-Announced ActionStatus.intent t u temporary
            (unfold may_have_created_something in refl) inv entered (inl staged_at) in
        carry-keeps Inv _ _ _
          (stage-Inv a.operation temporary (enter env index ActionStatus.intent t).1 announced at)
          (λ s e. place_staged-Inv s _))

  check_precondition-Inv :
      (precondition : PathPrecondition) (path : FilePath) (t : Transaction env)
      → Inv t
      → Inv (check_precondition env precondition path t).1
  unfolding check_precondition
  check_precondition-Inv existing_link_to_source path t inv = inv
  check_precondition-Inv missing path t inv = carry-keeps Inv _ t _ inv (λ live e inv. inv)

  create_with-Inv :
      (temporary : Option FilePath) (t : Transaction env)
      → a.temporary_path ≡ temporary
      → Inv t
      → Inv (create_with env index a temporary t).1
  unfolding create_with
  create_with-Inv none t e inv = inv
  create_with-Inv (some temporary) t e inv =
      carry-keeps Inv _ _ _ (check_precondition-Inv a.expected_precondition a.final_path t inv)
        (λ u checked. stage_and_place-Inv temporary _ e)

  reuse_with-Inv :
      (source : Option FilePath) (t : Transaction env) → Inv t → Inv (reuse_with env a source t).1
  reuse_with-Inv none t inv = inv
  reuse_with-Inv (some expected) t inv = carry-keeps Inv _ t _ inv (λ live e inv. inv)

  apply_action-Inv :
      (operation : ActionOperation) (t : Transaction env)
      → Inv t
      → Inv (apply_action env operation index a t).1
  unfolding apply_action create_and_place confirm_reuse
  apply_action-Inv reuse_existing_link t inv = reuse_with-Inv a.source_canonical t inv
  apply_action-Inv create_directory t inv = create_with-Inv a.temporary_path t refl inv
  apply_action-Inv create_config_file t inv = create_with-Inv a.temporary_path t refl inv
  apply_action-Inv create_directory_link t inv = create_with-Inv a.temporary_path t refl inv

apply_found-ahead :
    (env : Environment) (Safe : env.backend.World → Type 0) (index : ℕ) (t : Transaction env)
    (found : Option JournalAction)
    → Watched env Safe
    → action_at index t.journal.actions ≡ found
    → Safe t.world
    → Safe (apply_one env index found t).1.world
unfolding apply_one
apply_found-ahead env Safe index t none watched e safe = safe
apply_found-ahead env Safe index t (some a) watched e safe =
    (apply_action-Inv env Safe watched index a a.operation t (safe, (a, e, (refl, refl)))).0

-- The journal is written ahead: a property of the world that making or placing an entry is only known to keep
-- where the durable journal has a pending action with that path as its staged or final one is kept by the
-- application of every action, whether it succeeds or fails.
pub apply_one-ahead :
    (env : Environment) (Safe : env.backend.World → Type 0) (index : ℕ) (t : Transaction env)
    → Watched env Safe
    → Safe t.world
    → Safe (apply_one env index (action_at index t.journal.actions) t).1.world
apply_one-ahead env Safe index t watched safe =
    apply_found-ahead env Safe index t (action_at index t.journal.actions) watched refl safe
