-- ===== src/Mount/Conflict/Requests.antt =====
-- src/mount/plan.rs: the loop over the selected Skills, and the decision on each of them.
use mathlib.Core.List.{append-nil, append_assoc, map-append}
use skillmount.Prelude.{
  List, [], ◌∷◌, ◌++◌, map, ok, >>=-eq-ok, ◌≡◌, refl, sym, ◌∙◌, ap, ok_injective,
}
use skillmount.Agent.{DiscoverySnapshot}
use skillmount.Mount.Action.{LinkMode, MountAction, PathPrecondition, PlannedMountAction, push}
use skillmount.Mount.Conflict.{
  ConflictPolicy, SelectedSkill, PreservedSkill, Decision, preserve, refuse, act, decide, Planned,
  apply_decision, apply_conflict_policy,
}

-- What an action asks for, without its number.
abbrev pub Request : Type 0
Request = MountAction × PathPrecondition

abbrev pub request : PlannedMountAction → Request
request a = (a.operation, a.expected_precondition)

-- A decision asks for at most one action, and preserves at most one entry.
abbrev pub requested : Decision → List Request
requested (preserve s) = []
requested (refuse c) = []
requested (act operation precondition) = (operation, precondition) ∷ []

abbrev pub kept : Decision → List PreservedSkill
kept (preserve s) = s ∷ []
kept (refuse c) = []
kept (act operation precondition) = []

abbrev pub gather : {A : Type 0} → (SelectedSkill → List A) → List SelectedSkill → List A
gather f [] = []
gather f (skill ∷ rest) = f skill ++ gather f rest

map-push :
    (actions : List PlannedMountAction) (operation : MountAction) (precondition : PathPrecondition)
    → map request (push actions operation precondition)
      ≡ map request actions ++ (operation, precondition) ∷ []
unfolding push
map-push actions operation precondition = map-append request actions _

apply_decision-requests :
    (p : Planned) (x : Decision) {q : Planned}
    → apply_decision p x ≡ ok q
    → (map request q.actions ≡ map request p.actions ++ requested x)
      × (q.preserved ≡ p.preserved ++ kept x)
unfolding apply_decision
apply_decision-requests p (preserve s) {q} h = rw (sym (ok_injective h)) (sym (append-nil _), refl)
apply_decision-requests p (refuse c) {q} h = absurd (cc)
apply_decision-requests p (act operation precondition) {q} h =
    rw (sym (ok_injective h)) (map-push p.actions operation precondition, sym (append-nil _))

module _ (policy : ConflictPolicy) (mode : LinkMode) (d : DiscoverySnapshot) where
  -- A plan that is made adds, in the order of the selected Skills, the action that each one's decision asks for,
  -- if it asks for one, and the entry that each one's decision preserves, if it preserves one, and nothing else.
  pub apply_conflict_policy-decisions :
      (skills : List SelectedSkill) (p : Planned) {q : Planned}
      → apply_conflict_policy policy mode d skills p ≡ ok q
      → (map request q.actions
          ≡ map request p.actions ++ gather (λ s. requested (decide policy mode d s)) skills)
        × (q.preserved ≡ p.preserved ++ gather (λ s. kept (decide policy mode d s)) skills)
  unfolding apply_conflict_policy
  apply_conflict_policy-decisions [] p {q} h =
      rw (sym (ok_injective h)) (sym (append-nil _), sym (append-nil _))
  apply_conflict_policy-decisions (skill ∷ rest) p {q} h =
      let (p', done, more) =
        >>=-eq-ok (apply_decision p (decide policy mode d skill))
          (apply_conflict_policy policy mode d rest) h in
      let (actions, entries) = apply_decision-requests p (decide policy mode d skill) done in
      let (all_actions, all_entries) = apply_conflict_policy-decisions rest p' {q = q} more in
      (
        all_actions
            ∙ ap (λ l. l ++ gather (λ s. requested (decide policy mode d s)) rest) actions
            ∙ append_assoc (map request p.actions) (requested (decide policy mode d skill))
                (gather (λ s. requested (decide policy mode d s)) rest),
        all_entries
            ∙ ap (λ l. l ++ gather (λ s. kept (decide policy mode d s)) rest) entries
            ∙ append_assoc p.preserved (kept (decide policy mode d skill))
                (gather (λ s. kept (decide policy mode d s)) rest),
      )
