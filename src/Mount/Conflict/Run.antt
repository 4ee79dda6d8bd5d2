-- ===== src/Mount/Conflict/Run.antt =====
-- src/mount/plan.rs: the whole loop over the selected Skills.
use mathlib.Core.List.{Memᴰ}
use skillmount.Prelude.{
  ℕ, ◌+◌, ◌<◌, List, [], ◌∷◌, length, length-append, Option, ok, err, ◌>>=◌, Result-cases, ◌≡◌, ◌≢◌,
  inl, inr, refl, sym, subst, >>=-eq-ok, ◌∙◌, ap, arith,
}
use skillmount.Agent.{DiscoverySnapshot}
use skillmount.Mount.Action.{
  LinkMode, MountAction, PathPrecondition, PlannedMountAction, push, NumberedFrom,
  push-NumberedFrom, u32_max,
}
use skillmount.Mount.Conflict.{
  ConflictPolicy, error, SelectedSkill, DestinationConflict, Decision, preserve, refuse, act,
  decide, Planned, apply_decision, apply_conflict_policy,
}
use skillmount.Mount.Conflict.Scan.{Standing}
use skillmount.Mount.Conflict.Decide.{fate, preserved as fate_preserved, table, decide-table}

abbrev pub total : Planned → ℕ
total p = length p.actions + length p.preserved

length-push :
    (actions : List PlannedMountAction) (operation : MountAction) (precondition : PathPrecondition)
    → length (push actions operation precondition) ≡ length actions + 1
unfolding push
length-push actions operation precondition = length-append actions _

apply_decision-err :
    (p : Planned) (x : Decision) {c : DestinationConflict}
    → apply_decision p x ≡ err c
    → x ≡ refuse c
unfolding apply_decision
apply_decision-err p (preserve s) h = cc
apply_decision-err p (refuse c') h = ground arith
apply_decision-err p (act operation precondition) h = cc

apply_decision-refuse :
    (p q : Planned) (c : DestinationConflict) → apply_decision p (refuse c) ≢ ok q
unfolding apply_decision
apply_decision-refuse p q c h = cc

apply_decision-keeps :
    (p : Planned) (x : Decision) {q : Planned}
    → fate x ≢ fate_preserved
    → apply_decision p x ≡ ok q
    → q.preserved ≡ p.preserved
unfolding apply_decision
apply_decision-keeps p (preserve s) {q} other h = absurd (other refl)
apply_decision-keeps p (refuse c) {q} other h = cc
apply_decision-keeps p (act operation precondition) {q} other h = ground arith

module _ (policy : ConflictPolicy) (mode : LinkMode) (d : DiscoverySnapshot) where
  apply_decision-total :
      (p : Planned) (x : Decision) {q : Planned} → apply_decision p x ≡ ok q → total q ≡ total p + 1
  unfolding apply_decision
  apply_decision-total p (preserve s) {q} h = ground (arith, length-append p.preserved (s ∷ []))
  apply_decision-total p (refuse c) {q} h = cc
  apply_decision-total p (act operation precondition) {q} h =
      ground (arith, length-push p.actions operation precondition)

  apply_conflict_policy-total :
      (skills : List SelectedSkill) (p : Planned) {q : Planned}
      → apply_conflict_policy policy mode d skills p ≡ ok q
      → total q ≡ total p + length skills
  unfolding apply_conflict_policy
  apply_conflict_policy-total [] p {q} h = ground arith
  apply_conflict_policy-total (skill ∷ rest) p {q} h =
      let (p', done, more) =
        >>=-eq-ok (apply_decision p (decide policy mode d skill))
          (apply_conflict_policy policy mode d rest) h in
      omega (
        arith,
        apply_decision-total p (decide policy mode d skill) done,
        apply_conflict_policy-total rest p' {q = q} more,
      )

  apply_decision-NumberedFrom :
      (p : Planned) (x : Decision) {q : Planned}
      → length p.actions < u32_max
      → NumberedFrom 1 p.actions
      → apply_decision p x ≡ ok q
      → NumberedFrom 1 q.actions
  unfolding apply_decision
  apply_decision-NumberedFrom p (preserve s) {q} small n h =
      let e : p.actions ≡ q.actions = ground arith in subst (NumberedFrom 1) e n
  apply_decision-NumberedFrom p (refuse c) {q} small n h = cc
  apply_decision-NumberedFrom p (act operation precondition) {q} small n h =
      let e : push p.actions operation precondition ≡ q.actions = ground arith in
      subst (NumberedFrom 1) e (push-NumberedFrom p.actions operation precondition small n)

  -- The ids of a plan's actions are 1, 2, 3, … in the order in which they are applied, while they fit a `u32`.
  pub apply_conflict_policy-NumberedFrom :
      (skills : List SelectedSkill) (p : Planned) {q : Planned}
      → total p + length skills < u32_max
      → NumberedFrom 1 p.actions
      → apply_conflict_policy policy mode d skills p ≡ ok q
      → NumberedFrom 1 q.actions
  unfolding apply_conflict_policy
  apply_conflict_policy-NumberedFrom [] p {q} small n h =
      let e : p.actions ≡ q.actions = ground arith in subst (NumberedFrom 1) e n
  apply_conflict_policy-NumberedFrom (skill ∷ rest) p {q} small n h =
      let (p', done, more) =
        >>=-eq-ok (apply_decision p (decide policy mode d skill))
          (apply_conflict_policy policy mode d rest) h in
      apply_conflict_policy-NumberedFrom rest p' {q = q}
        (omega (arith, apply_decision-total p (decide policy mode d skill) done))
        (apply_decision-NumberedFrom p (decide policy mode d skill) (omega arith) n done) more

  -- Planning fails only over a selected Skill that is refused, and with that Skill's conflict.
  pub apply_conflict_policy-err :
      (skills : List SelectedSkill) (p : Planned) {c : DestinationConflict}
      → apply_conflict_policy policy mode d skills p ≡ err c
      → (skill : SelectedSkill) × Memᴰ skill skills × (decide policy mode d skill ≡ refuse c)
  unfolding apply_conflict_policy
  apply_conflict_policy-err [] p {c} h = cc
  apply_conflict_policy-err (skill ∷ rest) p {c} h =
      elim (Result-cases (apply_decision p (decide policy mode d skill))) [
        | inl (p', done) ↦
            let (other, member, why) =
              apply_conflict_policy-err rest p' {c = c} (rw (done, ◌>>=◌) at h) in
            (other, Memᴰ.tail member, why)
        | inr (c', failed) ↦
            let e : c' ≡ c = ground arith in
            (
              skill,
              Memᴰ.head refl,
              apply_decision-err p (decide policy mode d skill) (failed ∙ ap err e),
            )
      ]

  -- One refused Skill among the selected is enough for there to be no plan.
  pub refuse-no_plan :
      {skill : SelectedSkill} {skills : List SelectedSkill} (p q : Planned)
      {c : DestinationConflict}
      → Memᴰ skill skills
      → decide policy mode d skill ≡ refuse c
      → apply_conflict_policy policy mode d skills p ≢ ok q
  unfolding apply_conflict_policy
  refuse-no_plan p q {c} (Memᴰ.head {x = first} {xs = rest} e) r h =
      let (p', done, more) =
        >>=-eq-ok (apply_decision p (decide policy mode d first))
          (apply_conflict_policy policy mode d rest) h in
      apply_decision-refuse p p' c
        (sym (ap (apply_decision p) (ap (decide policy mode d) (sym e) ∙ r)) ∙ done)
  refuse-no_plan p q {c} (Memᴰ.tail {x = first} {xs = rest} m) r h =
      let (p', done, more) =
        >>=-eq-ok (apply_decision p (decide policy mode d first))
          (apply_conflict_policy policy mode d rest) h in
      refuse-no_plan p' q m r more

error-not-preserved : (v w : Option Standing) → table error v w ≢ fate_preserved
error-not-preserved v w h = ground arith

preserved-unchanged :
    (mode : LinkMode) (d : DiscoverySnapshot) (skills : List SelectedSkill) (p : Planned)
    {q : Planned}
    → apply_conflict_policy error mode d skills p ≡ ok q
    → q.preserved ≡ p.preserved
unfolding apply_conflict_policy
preserved-unchanged mode d [] p {q} h = ground arith
preserved-unchanged mode d (skill ∷ rest) p {q} h =
    let (p', done, more) =
      >>=-eq-ok (apply_decision p (decide error mode d skill))
        (apply_conflict_policy error mode d rest) h in
    preserved-unchanged mode d rest p' {q = q} more
    ∙ apply_decision-keeps p (decide error mode d skill)
        (λ e. error-not-preserved _ _ (sym (decide-table error mode d skill) ∙ e)) done

-- A plan that is made under the `error` policy preserves no entry more, and has one action more for every
-- selected Skill.
pub error-preserves_nothing :
    (mode : LinkMode) (d : DiscoverySnapshot) (skills : List SelectedSkill) (p : Planned)
    {q : Planned}
    → apply_conflict_policy error mode d skills p ≡ ok q
    → (q.preserved ≡ p.preserved) × (length q.actions ≡ length p.actions + length skills)
error-preserves_nothing mode d skills p {q} h =
    let same = preserved-unchanged mode d skills p {q = q} h in
    let counted = apply_conflict_policy-total error mode d skills p {q = q} h in
    (same, omega (arith, counted, ap length same))
