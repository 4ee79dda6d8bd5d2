-- ===== src/Mount/Conflict.antt =====
-- src/mount/plan.rs: the destination-conflict table, applied to the selected Skills.
pub mod Scan
pub mod Decide
pub mod Safety
pub mod Run
pub mod Requests
use skillmount.Prelude.{
  ℕ, Bool, true, false, not, ◌&&◌, List, [], ◌∷◌, ◌++◌, Option, none, some, Result, ok, err, ◌>>=◌,
  if◌then◌else◌,
}
use skillmount.Text.{Str}
use skillmount.FilePath.{FilePath, path_eq, join}
use skillmount.Agent.{
  PathKind, directory, directory_link, ScopeKind, codex_system, claude_managed, ExistingSkill,
  VisibleSkill, DiscoverySnapshot, entries_of, mount_scope,
}
use skillmount.Mount.Action.{
  PathPrecondition, LinkMode, MountAction, create_directory_link, reuse_existing_link, missing,
  existing_link_to_source, PlannedMountAction, push,
}

pub data ConflictPolicy : Type 0 where
  error skip : ConflictPolicy

pub data Occupancy : Type 0 where
  same_source different_source project_directory unsupported : Occupancy

pub is_skippable : Occupancy → Bool
is_skippable different_source = true
is_skippable project_directory = true
is_skippable _ = false

abbrev pub is_same_source : Occupancy → Bool
is_same_source same_source = true
is_same_source _ = false

-- What planning reads of a selected Skill: its mount name, its comparison key and its canonical source.
pub record SelectedSkill : Type 0 where
  pub mount_name : Str
  pub comparison_key : Str
  pub source_canonical : FilePath

pub record PreservedSkill : Type 0 where
  pub comparison_key : Str
  pub existing : FilePath
  pub existing_kind : PathKind
  pub scope : ScopeKind
  pub omitted_source : FilePath

-- `PlanError::DestinationConflict`.
pub record DestinationConflict : Type 0 where
  pub name : Str
  pub scope : ScopeKind
  pub existing : FilePath
  pub existing_state : PathKind
  pub selected : FilePath

leads_to : Option FilePath → FilePath → Bool
leads_to none source = false
leads_to (some path) source = path_eq path source

kind_occupancy : PathKind → Bool → Occupancy
kind_occupancy directory same = if same then same_source else project_directory
kind_occupancy directory_link same = if same then same_source else different_source
kind_occupancy _ same = unsupported

unfoldable pub occupancy : ExistingSkill → FilePath → Occupancy
unfolding leads_to kind_occupancy
occupancy existing source = kind_occupancy existing.kind (leads_to existing.source_canonical source)

-- The bundled Codex cache is no evidence, and a managed Claude entry none but for its own source.
scope_occupancy : ScopeKind → Occupancy → Occupancy
scope_occupancy codex_system o = unsupported
scope_occupancy claude_managed o = if is_same_source o then same_source else unsupported
scope_occupancy _ o = o

unfoldable pub visible_occupancy : FilePath → VisibleSkill → Occupancy
unfolding scope_occupancy
visible_occupancy source visible = scope_occupancy visible.scope (occupancy visible.skill source)

-- `a.or(b)`, and `slot.get_or_insert(v)` as the slot that it leaves.
abbrev pub or_else {ℓ} : {A : Type ℓ} → Option A → Option A → Option A
or_else none b = b
or_else (some a) b = some a

-- The loop of `visible_occupant` and of `most_restrictive`: an unsupported entry is returned at once, else
-- the first that differs, else the first that matches.
module _ {ℓ} {A : Type ℓ} (classify : A → Occupancy) where
  pub scan : Option (A × Occupancy) → Option (A × Occupancy) → List A → Option (A × Occupancy)
  scan matching skippable [] = or_else skippable matching
  scan matching skippable (x ∷ xs) = elim (classify x) [
    | same_source ↦ scan (or_else matching (some (x, same_source))) skippable xs
    | unsupported ↦ some (x, unsupported)
    | different_source ↦ scan matching (or_else skippable (some (x, different_source))) xs
    | project_directory ↦ scan matching (or_else skippable (some (x, project_directory))) xs
  ]

  unfoldable pub most_restrictive_of : List A → Option (A × Occupancy)
  unfolding scan
  most_restrictive_of xs = scan none none xs

-- An occupant: the scope that shows it, the entry and its occupancy.
pub record Occupant : Type 0 where
  pub scope : ScopeKind
  pub skill : ExistingSkill
  pub state : Occupancy

unfoldable pub visible_occupant : DiscoverySnapshot → Str → FilePath → Option Occupant
visible_occupant d key source =
    elim (most_restrictive_of (visible_occupancy source) (entries_of key d.visible_skills)) [
      | none ↦ none
      | some (v, o) ↦ some (record { scope = v.scope; skill = v.skill; state = o })
    ]

-- `mount_scope.and_then(|scope| most_restrictive(mount_entries[key], source))`.
unfoldable pub direct_occupant : DiscoverySnapshot → Str → FilePath → Option Occupant
direct_occupant d key source = elim (mount_scope d) [
  | none ↦ none
  | some s ↦ elim (most_restrictive_of (λ e. occupancy e source) (entries_of key d.mount_entries)) [
    | none ↦ none
    | some (e, o) ↦ some (record { scope = s.kind; skill = e; state = o })
  ]
]

-- What the body of the loop does with one resolution.
pub data Decision : Type 0 where
  preserve : PreservedSkill → Decision
  refuse : DestinationConflict → Decision
  act : MountAction → PathPrecondition → Decision

preserved_of : Occupant → FilePath → PreservedSkill
preserved_of o source = record {
  comparison_key = (o.skill).comparison_key;
  existing = (o.skill).entry;
  existing_kind = (o.skill).kind;
  scope = o.scope;
  omitted_source = source;
}

conflict_of : Occupant → SelectedSkill → DestinationConflict
conflict_of o skill = record {
  name = skill.mount_name;
  scope = o.scope;
  existing = (o.skill).entry;
  existing_state = (o.skill).kind;
  selected = skill.source_canonical;
}

abbrev is_skip : ConflictPolicy → Bool
is_skip skip = true
is_skip error = false

-- An occupant of another source ends the resolution; `none` goes on.
objection : ConflictPolicy → SelectedSkill → Option Occupant → Option Decision
unfolding is_skippable preserved_of conflict_of
objection policy skill none = none
objection policy skill (some o) =
    if is_same_source o.state
    then none
    else if is_skippable o.state && is_skip policy
    then some (preserve (preserved_of o skill.source_canonical))
    else some (refuse (conflict_of o skill))

mount_or_reuse : LinkMode → FilePath → SelectedSkill → Option Occupant → Decision
mount_or_reuse mode store skill none =
    act (create_directory_link skill.source_canonical (join store skill.mount_name) mode) missing
mount_or_reuse mode store skill (some o) =
    act (reuse_existing_link skill.source_canonical (o.skill).entry) existing_link_to_source

keep_same : Option Occupant → Option Occupant
keep_same none = none
keep_same (some o) = if is_same_source o.state then some o else none

-- The body of the loop, given the two occupants.
unfoldable pub decide_from :
    ConflictPolicy
    → LinkMode
    → FilePath
    → SelectedSkill
    → Option Occupant
    → Option Occupant
    → Decision
unfolding objection mount_or_reuse keep_same
decide_from policy mode store skill visible direct = elim (objection policy skill visible) [
  | some decision ↦ decision
  | none ↦ elim (objection policy skill direct) [
    | some decision ↦ decision
    | none ↦ mount_or_reuse mode store skill (keep_same (or_else direct visible))
  ]
]

unfoldable pub decide : ConflictPolicy → LinkMode → DiscoverySnapshot → SelectedSkill → Decision
decide policy mode d skill =
    decide_from policy mode d.backing_store skill
      (visible_occupant d skill.comparison_key skill.source_canonical)
      (direct_occupant d skill.comparison_key skill.source_canonical)

pub record Planned : Type 0 where
  pub actions : List PlannedMountAction
  pub preserved : List PreservedSkill

unfoldable pub apply_decision : Planned → Decision → Result DestinationConflict Planned
apply_decision p (preserve s) = ok (record p { preserved = p.preserved ++ s ∷ [] })
apply_decision p (refuse c) = err c
apply_decision p (act operation precondition) =
    ok (record p { actions = push p.actions operation precondition })

unfoldable pub apply_conflict_policy :
    ConflictPolicy
    → LinkMode
    → DiscoverySnapshot
    → List SelectedSkill
    → Planned
    → Result DestinationConflict Planned
apply_conflict_policy policy mode d [] p = ok p
apply_conflict_policy policy mode d (skill ∷ rest) p =
    apply_decision p (decide policy mode d skill) >>= apply_conflict_policy policy mode d rest
