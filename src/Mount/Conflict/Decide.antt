-- ===== src/Mount/Conflict/Decide.antt =====
-- src/mount/plan.rs: the decision on one selected Skill, and the destination-conflict table.
use skillmount.Prelude.{Option, none, some, ◌≡◌, ◌∙◌, arith}
use skillmount.FilePath.{FilePath}
use skillmount.Agent.{DiscoverySnapshot, entries_of, mount_scope}
use skillmount.Mount.Action.{LinkMode, reuse_existing_link}
use skillmount.Mount.Conflict.{
  ConflictPolicy, error, skip, SelectedSkill, Occupant, occupancy, visible_occupancy,
  visible_occupant, direct_occupant, Decision, preserve, refuse, act, decide_from, decide,
}
use skillmount.Mount.Conflict.Scan.{
  Standing, foreign, blocked, standing, verdict, most_restrictive_of-verdict,
}

pub data Fate : Type 0 where
  preserved refused reused created : Fate

-- A create or a reuse is told by its action.
abbrev pub fate : Decision → Fate
fate (preserve s) = preserved
fate (refuse c) = refused
fate (act (reuse_existing_link source destination) precondition) = reused
fate (act _ precondition) = created

-- The standings of a name: among the visible entries, and among those of the namespace that is written.
abbrev pub visible_verdict : DiscoverySnapshot → SelectedSkill → Option Standing
visible_verdict d skill =
    verdict (visible_occupancy skill.source_canonical)
      (entries_of skill.comparison_key d.visible_skills)

abbrev pub direct_verdict : DiscoverySnapshot → SelectedSkill → Option Standing
direct_verdict d skill = elim (mount_scope d) [
  | none ↦ none
  | some s ↦
      verdict (λ e. occupancy e skill.source_canonical)
        (entries_of skill.comparison_key d.mount_entries)
]

-- The destination-conflict table: what another source's entry means under each policy.
abbrev pub differing : ConflictPolicy → Fate
differing error = refused
differing skip = preserved

abbrev pub table : ConflictPolicy → Option Standing → Option Standing → Fate
table policy (some blocked) direct = refused
table policy (some foreign) direct = differing policy
table policy _ (some blocked) = refused
table policy _ (some foreign) = differing policy
table policy none none = created
table policy _ _ = reused

occupant_standing : Option Occupant → Option Standing
occupant_standing none = none
occupant_standing (some o) = some (standing o.state)

visible_occupant-verdict :
    (d : DiscoverySnapshot) (skill : SelectedSkill)
    → occupant_standing (visible_occupant d skill.comparison_key skill.source_canonical)
      ≡ visible_verdict d skill
unfolding occupant_standing visible_occupant
visible_occupant-verdict d skill = ground (
  arith,
  most_restrictive_of-verdict (visible_occupancy skill.source_canonical)
      (entries_of skill.comparison_key d.visible_skills),
)

direct_occupant-verdict :
    (d : DiscoverySnapshot) (skill : SelectedSkill)
    → occupant_standing (direct_occupant d skill.comparison_key skill.source_canonical)
      ≡ direct_verdict d skill
unfolding occupant_standing direct_occupant
direct_occupant-verdict d skill = ground (
  arith,
  most_restrictive_of-verdict (λ e. occupancy e skill.source_canonical)
      (entries_of skill.comparison_key d.mount_entries),
)

decide_from-table :
    (policy : ConflictPolicy) (mode : LinkMode) (store : FilePath) (skill : SelectedSkill)
    (v w : Option Occupant)
    → fate (decide_from policy mode store skill v w)
      ≡ table policy (occupant_standing v) (occupant_standing w)
unfolding decide_from occupant_standing
decide_from-table policy mode store skill v w = ground arith

-- Whatever exists, a selected Skill is preserved, refused, reused or created as the table says.
pub decide-table :
    (policy : ConflictPolicy) (mode : LinkMode) (d : DiscoverySnapshot) (skill : SelectedSkill)
    → fate (decide policy mode d skill)
      ≡ table policy (visible_verdict d skill) (direct_verdict d skill)
unfolding decide
decide-table policy mode d skill =
    decide_from-table policy mode d.backing_store skill
      (visible_occupant d skill.comparison_key skill.source_canonical)
      (direct_occupant d skill.comparison_key skill.source_canonical)
    ∙ rw (visible_occupant-verdict d skill, direct_occupant-verdict d skill)
