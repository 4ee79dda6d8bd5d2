-- ===== src/Agent.antt =====
-- src/agent/mod.rs and src/mount/resolve.rs: what an adapter observes of the Skills that exist already.
use skillmount.Prelude.{Bool, true, false, List, [], ◌∷◌, Option, none, some, if◌then◌else◌}
use skillmount.Text.{Str, ◌===◌}
use skillmount.FilePath.{FilePath, path_eq}

pub data PathKind : Type 0 where
  missing directory directory_link broken_link cyclic_link depth_exceeded not_directory : PathKind

unfoldable pub is_usable_namespace : PathKind → Bool
is_usable_namespace missing = true
is_usable_namespace directory = true
is_usable_namespace directory_link = true
is_usable_namespace _ = false

unfoldable pub is_ambiguous : PathKind → Bool
is_ambiguous broken_link = true
is_ambiguous cyclic_link = true
is_ambiguous depth_exceeded = true
is_ambiguous not_directory = true
is_ambiguous _ = false

pub data ScopeKind : Type 0 where
  codex_project_agents codex_project_legacy codex_ancestor_agents codex_ancestor_legacy : ScopeKind
  codex_user_agents codex_user_legacy codex_system codex_admin : ScopeKind
  claude_project claude_ancestor claude_managed claude_user claude_staging claude_add_dir :
      ScopeKind
  omp_project omp_ancestor omp_user omp_plugin omp_custom omp_compatibility omp_managed : ScopeKind

pub record ExistingSkill : Type 0 where
  pub comparison_key : Str
  pub raw_name : Str
  pub entry : FilePath
  pub kind : PathKind
  pub source_canonical : Option FilePath

pub record VisibleSkill : Type 0 where
  pub scope : ScopeKind
  pub skill : ExistingSkill

-- Of a scope, its kind and the entry of its observed state.
pub record DiscoveryScope : Type 0 where
  pub kind : ScopeKind
  pub entry : FilePath

-- The fields that planning reads; a `BTreeMap` is its list of keys and values.
pub record DiscoverySnapshot : Type 0 where
  pub scopes : List DiscoveryScope
  pub visible_skills : List (Str × List VisibleSkill)
  pub mount_entries : List (Str × List ExistingSkill)
  pub backing_store : FilePath

-- `map.get(key).map_or(&[], Vec::as_slice)`.
unfoldable pub entries_of {ℓ} : {A : Type ℓ} → Str → List (Str × List A) → List A
entries_of key [] = []
entries_of key ((k, v) ∷ rest) = if k === key then v else entries_of key rest

find_scope : FilePath → List DiscoveryScope → Option DiscoveryScope
find_scope store [] = none
find_scope store (s ∷ rest) = if path_eq s.entry store then some s else find_scope store rest

-- The scope that planned mounts would be written into.
unfoldable pub mount_scope : DiscoverySnapshot → Option DiscoveryScope
unfolding find_scope
mount_scope d = find_scope d.backing_store d.scopes
