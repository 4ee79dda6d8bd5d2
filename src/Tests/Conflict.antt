-- ===== src/Tests/Conflict.antt =====
-- Plans of src/mount/plan.rs over a namespace with three Skills.
use mathlib.Core.List.{Memᴰ, Permᴰ}
use skillmount.Prelude.{
  ◌+◌, ◌<◌, [], ◌∷◌, none, some, ok, err, ◌≡◌, ◌≢◌, ◌⊎◌, refl, arith, ◌++◌, map, length,
}
use skillmount.Text.{Str, lit, split}
use skillmount.FilePath.{FilePath, path_eq, join}
use skillmount.Agent.{
  directory_link, codex_project_agents, ExistingSkill, DiscoverySnapshot, entries_of, mount_scope,
}
use skillmount.Mount.Action.{
  symlink, MountAction, missing as vacant, existing_link_to_source, create_directory_link,
  reuse_existing_link, push, NumberedFrom, u32_max,
}
use skillmount.Mount.Conflict.{
  error, skip, SelectedSkill, PreservedSkill, DestinationConflict, preserve, refuse, act, occupancy,
  visible_occupancy, most_restrictive_of, visible_occupant, direct_occupant, decide_from, decide,
  Planned, apply_decision, apply_conflict_policy,
}
use skillmount.Mount.Conflict.Scan.{standing_of, most_restrictive_of-perm}
use skillmount.Mount.Conflict.Decide.{fate, table, visible_verdict, direct_verdict, decide-table}
use skillmount.Mount.Conflict.Safety.{create-vacant, reuse-leads_to_source, Evidence, IsLinkTo}
use skillmount.Mount.Conflict.Requests.{
  request, requested, kept, gather, apply_conflict_policy-decisions,
}
use skillmount.Mount.Conflict.Run.{
  total, apply_conflict_policy-NumberedFrom, apply_conflict_policy-err, refuse-no_plan,
  error-preserves_nothing,
}

abbrev link_entry : Str → FilePath → FilePath → ExistingSkill
link_entry name entry source = record {
  comparison_key = name;
  raw_name = name;
  entry = entry;
  kind = directory_link;
  source_canonical = some source;
}

abbrev selected : Str → FilePath → SelectedSkill
selected name source = record {
  mount_name = name;
  comparison_key = name;
  source_canonical = source;
}

-- `a` is new, `b` is linked already, and `c` is linked to another source.
abbrev skill_a : SelectedSkill
skill_a = selected (lit "a") (lit "/src/a")

abbrev skill_b : SelectedSkill
skill_b = selected (lit "b") (lit "/src/b")

abbrev skill_c : SelectedSkill
skill_c = selected (lit "c") (lit "/src/c")

abbrev entry_b : ExistingSkill
entry_b = link_entry (lit "b") (lit "/p/b") (lit "/src/b")

abbrev entry_c : ExistingSkill
entry_c = link_entry (lit "c") (lit "/p/c") (lit "/other/c")

abbrev namespace : DiscoverySnapshot
namespace = record {
  scopes = record { kind = codex_project_agents; entry = lit "/p" } ∷ [];
  visible_skills =
      (lit "b", record { scope = codex_project_agents; skill = entry_b } ∷ [])
      ∷ (lit "c", record { scope = codex_project_agents; skill = entry_c } ∷ [])
      ∷ [];
  mount_entries = (lit "b", entry_b ∷ []) ∷ (lit "c", entry_c ∷ []) ∷ [];
  backing_store = lit "/p";
}

abbrev conflict_c : DestinationConflict
conflict_c = record {
  name = lit "c";
  scope = codex_project_agents;
  existing = lit "/p/c";
  existing_state = directory_link;
  selected = lit "/src/c";
}

abbrev nothing_planned : Planned
nothing_planned = record { actions = []; preserved = [] }

abbrev preserved_c : PreservedSkill
preserved_c = record {
  comparison_key = lit "c";
  existing = lit "/p/c";
  existing_kind = directory_link;
  scope = codex_project_agents;
  omitted_source = lit "/src/c";
}

abbrev create_a : MountAction
create_a = create_directory_link (lit "/src/a") (lit "/p/a") symlink

abbrev reuse_b : MountAction
reuse_b = reuse_existing_link (lit "/src/b") (lit "/p/b")

abbrev planned_all : Planned
planned_all = record {
  actions =
      record { id = 1; operation = create_a; expected_precondition = vacant; temporary_path = none }
      ∷ record {
        id = 2;
        operation = reuse_b;
        expected_precondition = existing_link_to_source;
        temporary_path = none;
      }
      ∷ [];
  preserved = preserved_c ∷ [];
}

abbrev planned_two : Planned
planned_two = record planned_all { preserved = [] }

decide_a : decide error symlink namespace skill_a ≡ act create_a vacant
unfolding decide decide_from visible_occupant direct_occupant entries_of mount_scope
    most_restrictive_of path_eq join visible_occupancy occupancy split
decide_a = refl

decide_b : decide error symlink namespace skill_b ≡ act reuse_b existing_link_to_source
unfolding decide decide_from visible_occupant direct_occupant entries_of mount_scope
    most_restrictive_of path_eq join visible_occupancy occupancy split
decide_b = refl

decide_c : decide error symlink namespace skill_c ≡ refuse conflict_c
unfolding decide decide_from visible_occupant direct_occupant entries_of mount_scope
    most_restrictive_of path_eq join visible_occupancy occupancy split
decide_c = refl

decide_c_skip : decide skip symlink namespace skill_c ≡ preserve preserved_c
unfolding decide decide_from visible_occupant direct_occupant entries_of mount_scope
    most_restrictive_of path_eq join visible_occupancy occupancy split
decide_c_skip = refl

plan_all :
    apply_conflict_policy skip symlink namespace (skill_a ∷ skill_b ∷ skill_c ∷ []) nothing_planned
    ≡ ok planned_all
unfolding apply_conflict_policy apply_decision push decide decide_from visible_occupant
    direct_occupant entries_of mount_scope most_restrictive_of path_eq join visible_occupancy
    occupancy split
plan_all = refl

plan_two :
    apply_conflict_policy error symlink namespace (skill_a ∷ skill_b ∷ []) nothing_planned
    ≡ ok planned_two
unfolding apply_conflict_policy apply_decision push decide decide_from visible_occupant
    direct_occupant entries_of mount_scope most_restrictive_of path_eq join visible_occupancy
    occupancy split
plan_two = refl

plan_refused :
    apply_conflict_policy error symlink namespace (skill_a ∷ skill_c ∷ []) nothing_planned
    ≡ err conflict_c
unfolding apply_conflict_policy apply_decision push decide decide_from visible_occupant
    direct_occupant entries_of mount_scope most_restrictive_of path_eq join visible_occupancy
    occupancy split
plan_refused = refl

few : total nothing_planned + 3 < u32_max
few = omega arith

decide-table_example :
    fate (decide error symlink namespace skill_c)
    ≡ table error (visible_verdict namespace skill_c) (direct_verdict namespace skill_c)
decide-table_example = decide-table error symlink namespace skill_c

create-vacant_example :
    (entries_of (lit "a") namespace.visible_skills ≡ [])
    × ((mount_scope namespace ≡ none) ⊎ (entries_of (lit "a") namespace.mount_entries ≡ []))
    × (lit "/src/a" ≡ lit "/src/a")
    × (lit "/p/a" ≡ join (lit "/p") (lit "a"))
    × (vacant ≡ vacant)
create-vacant_example = create-vacant error symlink namespace skill_a decide_a

reuse-leads_to_source_example :
    (lit "/src/b" ≡ lit "/src/b")
    × ((e : ExistingSkill) × (e.entry ≡ lit "/p/b")
        × Evidence namespace skill_b e
        × IsLinkTo e (lit "/src/b"))
reuse-leads_to_source_example = reuse-leads_to_source error symlink namespace skill_b decide_b

most_restrictive_of-perm_example :
    standing_of (most_restrictive_of (λ e. occupancy e (lit "/src/b")) (entry_b ∷ entry_c ∷ []))
    ≡ standing_of (most_restrictive_of (λ e. occupancy e (lit "/src/b")) (entry_c ∷ entry_b ∷ []))
most_restrictive_of-perm_example =
    most_restrictive_of-perm (λ e. occupancy e (lit "/src/b")) (Permᴰ.swap refl refl)

apply_conflict_policy-decisions_example :
    (map request planned_all.actions
      ≡ map request nothing_planned.actions
        ++ gather
            (λ s. requested (decide skip symlink namespace s))
            (skill_a ∷ skill_b ∷ skill_c ∷ []))
    × (planned_all.preserved
        ≡ nothing_planned.preserved
          ++ gather
              (λ s. kept (decide skip symlink namespace s))
              (skill_a ∷ skill_b ∷ skill_c ∷ []))
apply_conflict_policy-decisions_example =
    apply_conflict_policy-decisions skip symlink namespace (skill_a ∷ skill_b ∷ skill_c ∷ [])
      nothing_planned plan_all

apply_conflict_policy-NumberedFrom_example : NumberedFrom 1 planned_all.actions
apply_conflict_policy-NumberedFrom_example =
    apply_conflict_policy-NumberedFrom skip symlink namespace (skill_a ∷ skill_b ∷ skill_c ∷ [])
      nothing_planned few tt plan_all

apply_conflict_policy-err_example :
    (skill : SelectedSkill) × Memᴰ skill (skill_a ∷ skill_c ∷ [])
    × (decide error symlink namespace skill ≡ refuse conflict_c)
apply_conflict_policy-err_example =
    apply_conflict_policy-err error symlink namespace (skill_a ∷ skill_c ∷ []) nothing_planned
      plan_refused

refuse-no_plan_example :
    apply_conflict_policy error symlink namespace (skill_a ∷ skill_c ∷ []) nothing_planned
    ≢ ok planned_two
refuse-no_plan_example =
    refuse-no_plan error symlink namespace nothing_planned planned_two (Memᴰ.tail (Memᴰ.head refl))
      decide_c

error-preserves_nothing_example :
    (planned_two.preserved ≡ nothing_planned.preserved)
    × (length planned_two.actions ≡ length nothing_planned.actions + 2)
error-preserves_nothing_example =
    error-preserves_nothing symlink namespace (skill_a ∷ skill_b ∷ []) nothing_planned plan_two
