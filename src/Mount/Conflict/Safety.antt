-- ===== src/Mount/Conflict/Safety.antt =====
-- src/mount/plan.rs: what stands under a name for which a link is created or reused.
use mathlib.Core.List.{Memᴰ}
use skillmount.Prelude.{
  true, List, [], ◌∷◌, Option, none, some, ◌≡◌, ◌⊎◌, inl, inr, refl, sym, subst, ◌∙◌, ap, arith,
  Option-cases,
}
use skillmount.FilePath.{FilePath, path_eq, join}
use skillmount.Agent.{
  directory, directory_link, ExistingSkill, VisibleSkill, DiscoverySnapshot, entries_of,
  mount_scope,
}
use skillmount.Mount.Action.{
  PathPrecondition, LinkMode, create_directory_link, reuse_existing_link, missing,
}
use skillmount.Mount.Conflict.{
  ConflictPolicy, Occupancy, same_source, most_restrictive_of, SelectedSkill, Occupant, occupancy,
  visible_occupancy, visible_occupant, direct_occupant, act, objection, mount_or_reuse, keep_same,
  decide, decide_from,
}
use skillmount.Mount.Conflict.Scan.{Standing, verdict, most_restrictive_of-some}
use skillmount.Mount.Conflict.Decide.{
  fate, created, table, visible_verdict, direct_verdict, decide-table,
}

verdict-none {ℓ} :
    {A : Type ℓ} (classify : A → Occupancy) (xs : List A) → verdict classify xs ≡ none → xs ≡ []
unfolding verdict
verdict-none classify [] h = refl
verdict-none classify (x ∷ xs) h = ground arith

table-created :
    (policy : ConflictPolicy) (v w : Option Standing)
    → table policy v w ≡ created
    → (v ≡ none) × (w ≡ none)
table-created policy v w h = ground arith

decide-created :
    (policy : ConflictPolicy) (mode : LinkMode) (d : DiscoverySnapshot) (skill : SelectedSkill)
    {source destination : FilePath} {m : LinkMode} {precondition : PathPrecondition}
    → decide policy mode d skill ≡ act (create_directory_link source destination m) precondition
    → (source ≡ skill.source_canonical)
      × (destination ≡ join d.backing_store skill.mount_name)
      × (m ≡ mode)
      × (precondition ≡ missing)
unfolding decide decide_from objection mount_or_reuse
decide-created policy mode d skill h = ground arith

direct-none :
    (d : DiscoverySnapshot) (skill : SelectedSkill)
    → direct_verdict d skill ≡ none
    → (mount_scope d ≡ none) ⊎ (entries_of skill.comparison_key d.mount_entries ≡ [])
direct-none d skill w = elim (Option-cases (mount_scope d)) [
  | inl absent ↦ inl absent
  | inr (s, present) ↦ inr (verdict-none _ _ (rw (present, direct_verdict) at w))
]

-- A link is created only where nothing exists under the Skill's name, in any visible scope or in the
-- namespace that is written (where that is a scope that was observed), and it leads from that name in the backing store to the selected source.
pub create-vacant :
    (policy : ConflictPolicy) (mode : LinkMode) (d : DiscoverySnapshot) (skill : SelectedSkill)
    {source destination : FilePath} {m : LinkMode} {precondition : PathPrecondition}
    → decide policy mode d skill ≡ act (create_directory_link source destination m) precondition
    → (entries_of skill.comparison_key d.visible_skills ≡ [])
      × ((mount_scope d ≡ none) ⊎ (entries_of skill.comparison_key d.mount_entries ≡ []))
      × (source ≡ skill.source_canonical)
      × (destination ≡ join d.backing_store skill.mount_name)
      × (precondition ≡ missing)
create-vacant policy mode d skill h =
    let (v, w) =
      table-created policy (visible_verdict d skill) (direct_verdict d skill)
        (sym (decide-table policy mode d skill) ∙ ap fate h) in
    let (from, at, _, vacant) = decide-created policy mode d skill h in
    (verdict-none _ _ v, direct-none d skill w, from, at, vacant)

abbrev pub IsLinkTo : ExistingSkill → FilePath → Type 0
IsLinkTo e source =
    ((e.kind ≡ directory) ⊎ (e.kind ≡ directory_link))
    × ((path : FilePath) × (e.source_canonical ≡ some path) × (path_eq path source ≡ true))

occupancy-same :
    (e : ExistingSkill) (source : FilePath) → occupancy e source ≡ same_source → IsLinkTo e source
unfolding occupancy
occupancy-same e source h = elim (Option-cases e.source_canonical) [
  | inl absent ↦ ground arith
  | inr (path, present) ↦ (ground arith, (path, present, ground arith))
]

visible_occupancy-same :
    (v : VisibleSkill) (source : FilePath)
    → visible_occupancy source v ≡ same_source
    → occupancy v.skill source ≡ same_source
unfolding visible_occupancy
visible_occupancy-same v source h = ground arith

-- The entry of an occupant of the same source stands in the snapshot and leads to the source.
abbrev pub Evidence : DiscoverySnapshot → SelectedSkill → ExistingSkill → Type 0
Evidence d skill e =
    ((v : VisibleSkill) × Memᴰ v (entries_of skill.comparison_key d.visible_skills) × (v.skill ≡ e))
    ⊎ Memᴰ e (entries_of skill.comparison_key d.mount_entries)

visible-Evidence :
    (d : DiscoverySnapshot) (skill : SelectedSkill) (o : Occupant)
    → visible_occupant d skill.comparison_key skill.source_canonical ≡ some o
    → o.state ≡ same_source
    → Evidence d skill o.skill × IsLinkTo o.skill skill.source_canonical
unfolding visible_occupant
visible-Evidence d skill o h same =
    let xs = entries_of skill.comparison_key d.visible_skills in
    let classify = visible_occupancy skill.source_canonical in
    elim (Option-cases (most_restrictive_of classify xs)) [
      | inl absent ↦ ground arith
      | inr ((v, state), present) ↦
          let (member, own) = most_restrictive_of-some classify xs present in
          let e : v.skill ≡ o.skill = ground arith in
          let k : state ≡ same_source = ground arith in
          (
            inl (v, member, e),
            subst (λ x. IsLinkTo x skill.source_canonical) e
                (occupancy-same v.skill skill.source_canonical
                  (visible_occupancy-same v skill.source_canonical (own ∙ k))),
          )
    ]

direct-Evidence :
    (d : DiscoverySnapshot) (skill : SelectedSkill) (o : Occupant)
    → direct_occupant d skill.comparison_key skill.source_canonical ≡ some o
    → o.state ≡ same_source
    → Evidence d skill o.skill × IsLinkTo o.skill skill.source_canonical
unfolding direct_occupant
direct-Evidence d skill o h same =
    let xs = entries_of skill.comparison_key d.mount_entries in
    let classify = λ (e : ExistingSkill). occupancy e skill.source_canonical in
    elim (Option-cases (most_restrictive_of classify xs)) [
      | inl absent ↦ ground arith
      | inr ((x, state), present) ↦
          let (member, own) = most_restrictive_of-some classify xs present in
          let e : x ≡ o.skill = ground arith in
          let k : state ≡ same_source = ground arith in
          (
            inr (subst (λ y. Memᴰ y xs) e member),
            subst (λ y. IsLinkTo y skill.source_canonical) e
                (occupancy-same x skill.source_canonical (own ∙ k)),
          )
    ]

reused-from :
    (policy : ConflictPolicy) (mode : LinkMode) (store : FilePath) (skill : SelectedSkill)
    (v w : Option Occupant) {source destination : FilePath} {precondition : PathPrecondition}
    → decide_from policy mode store skill v w
      ≡ act (reuse_existing_link source destination) precondition
    → (source ≡ skill.source_canonical)
      × ((o : Occupant) × (o.state ≡ same_source)
          × ((o.skill).entry ≡ destination)
          × ((v ≡ some o) ⊎ (w ≡ some o)))
unfolding decide_from objection mount_or_reuse keep_same
reused-from policy mode store skill none none h = ground arith
reused-from policy mode store skill none (some w) h =
    (ground arith, (w, ground arith, ground arith, inr refl))
reused-from policy mode store skill (some v) none h =
    (ground arith, (v, ground arith, ground arith, inl refl))
reused-from policy mode store skill (some v) (some w) h =
    (ground arith, (w, ground arith, ground arith, inr refl))

-- An entry is reused only if it was observed under the Skill's name, is a directory or a directory link,
-- and leads to the selected source.
pub reuse-leads_to_source :
    (policy : ConflictPolicy) (mode : LinkMode) (d : DiscoverySnapshot) (skill : SelectedSkill)
    {source destination : FilePath} {precondition : PathPrecondition}
    → decide policy mode d skill ≡ act (reuse_existing_link source destination) precondition
    → (source ≡ skill.source_canonical)
      × ((e : ExistingSkill) × (e.entry ≡ destination) × Evidence d skill e × IsLinkTo e source)
unfolding decide
reuse-leads_to_source policy mode d skill h =
    let v = visible_occupant d skill.comparison_key skill.source_canonical in
    let w = direct_occupant d skill.comparison_key skill.source_canonical in
    let (from, (o, same, at, shown)) = reused-from policy mode d.backing_store skill v w h in
    elim shown [
      | inl visible ↦
          let (e, k) = visible-Evidence d skill o visible same in
          (from, (o.skill, at, e, subst (IsLinkTo o.skill) (sym from) k))
      | inr direct ↦
          let (e, k) = direct-Evidence d skill o direct same in
          (from, (o.skill, at, e, subst (IsLinkTo o.skill) (sym from) k))
    ]
