-- ===== src/Mount/Action.antt =====
-- src/mount/mod.rs: the actions of a plan, and the sequence that numbers them.
use skillmount.Prelude.{
  ℕ, ◌+◌, ◌-◌, ◌^◌, ◌<◌, Bool, true, false, List, [], ◌∷◌, ◌++◌, Option, none, some, length, ltb,
  filter, if◌then◌else◌, ◌≡◌, arith,
}
use skillmount.Text.{Str, lit, ◌===◌}
use skillmount.FilePath.{FilePath}

pub data PathPrecondition : Type 0 where
  missing existing_link_to_source : PathPrecondition

abbrev pub precondition_label : PathPrecondition → Str
precondition_label missing = lit "missing"
precondition_label existing_link_to_source = lit "existing_link_to_source"

unfoldable pub parse_precondition : Str → Option PathPrecondition
parse_precondition label =
    if label === lit "missing"
    then some missing
    else if label === lit "existing_link_to_source"
    then some existing_link_to_source
    else none

pub data CleanupDisposition : Type 0 where
  required best_effort not_owned : CleanupDisposition

pub data LinkMode : Type 0 where
  auto symlink junction : LinkMode

pub data MountAction : Type 0 where
  create_directory : (path : FilePath) → MountAction
  create_config_file : (path : FilePath) (contents : Str) → MountAction
  create_directory_link : (source destination : FilePath) (mode : LinkMode) → MountAction
  reuse_existing_link : (source destination : FilePath) → MountAction

unfoldable pub creates_entry : MountAction → Bool
creates_entry (create_directory path) = true
creates_entry (create_config_file path contents) = true
creates_entry (create_directory_link source destination mode) = true
creates_entry (reuse_existing_link source destination) = false

unfoldable pub cleanup_disposition : MountAction → CleanupDisposition
cleanup_disposition (create_directory path) = best_effort
cleanup_disposition (create_config_file path contents) = required
cleanup_disposition (create_directory_link source destination mode) = required
cleanup_disposition (reuse_existing_link source destination) = not_owned

pub record PlannedMountAction : Type 0 where
  pub id : ℕ
  pub operation : MountAction
  pub expected_precondition : PathPrecondition
  pub temporary_path : Option FilePath

abbrev pub u32_max : ℕ
u32_max = 2 ^ 32 - 1

-- `ActionSequence::push`: the id is the position from 1, at most `u32::MAX`.
unfoldable pub push :
    List PlannedMountAction → MountAction → PathPrecondition → List PlannedMountAction
push actions operation precondition =
    let n = length actions + 1 in
    actions
    ++ record {
      id = if ltb u32_max n then u32_max else n;
      operation = operation;
      expected_precondition = precondition;
      temporary_path = none;
    }
      ∷ []

-- `MountPlan::created_actions`.
unfoldable pub created_actions : List PlannedMountAction → List PlannedMountAction
unfolding creates_entry
created_actions actions = filter (λ action. creates_entry action.operation) actions

-- `LaunchPlan::effective_argv`.
unfoldable pub effective_argv : Str → List Str → List Str → List Str
effective_argv executable injected passthrough = executable ∷ (injected ++ passthrough)

-- The ids are n, n + 1, … in order.
abbrev pub NumberedFrom : ℕ → List PlannedMountAction → Type 0
NumberedFrom n [] = Unit
NumberedFrom n (a ∷ rest) = (a.id ≡ n) × NumberedFrom (n + 1) rest

NumberedFrom-append :
    (n : ℕ) (actions : List PlannedMountAction) (a : PlannedMountAction)
    → NumberedFrom n actions
    → a.id ≡ n + length actions
    → NumberedFrom n (actions ++ a ∷ [])
NumberedFrom-append n [] a h e = (omega (arith, e), tt)
NumberedFrom-append n (b ∷ bs) a h e = (h.0, NumberedFrom-append (n + 1) bs a h.1 (omega arith))

-- While there are fewer than `u32::MAX` actions, a push keeps the numbering.
pub push-NumberedFrom :
    (actions : List PlannedMountAction) (operation : MountAction) (precondition : PathPrecondition)
    → length actions < u32_max
    → NumberedFrom 1 actions
    → NumberedFrom 1 (push actions operation precondition)
unfolding push
push-NumberedFrom actions operation precondition h numbered =
    NumberedFrom-append 1 actions _ numbered (ground arith)
