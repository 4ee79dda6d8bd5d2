-- ===== src/Process/Ledger/Steps/Invariant.antt =====
-- src/process/event.rs: the invariant of the ledger, and what is taken, finalized and acquired.
use skillmount.Prelude.{
  ℕ, ◌+◌, ◌*◌, ◌%◌, ◌≤◌, ◌<◌, Bool, true, false, List, [], ◌∷◌, Option, some, ok, ◌≡◌, ◌≢◌, refl,
  sym, ap, ◌∙◌, ◌⊎◌, inl, inr, Bool-cases, arith,
}
use skillmount.Process.Ledger.{
  InterruptKind, EventToken, wrote, returned, recorded, decode_events, acquire_round, record_round,
  activate_round, take_round, finalize_round, release, new,
}
use skillmount.Process.Ledger.Word.{
  phase, count, generation, set_phase, phase_inactive, phase_armed, phase_active, phase_finalizing,
  max_generation, u32_mod, Fields, Fields-self, fresh-Fields, set_phase-Fields,
}
use skillmount.Process.Ledger.Steps.{
  World, Step, acquired, recorded as recorded_step, activated, taken, finalized, released, Reach,
  here, next, initial,
}
use skillmount.Process.Ledger.Steps.Holds.{saturate, Holds, recorded-Holds, decode_events-Holds}

pub record Inv (w : World) : Type 0 where
  pub in_range : generation w.word ≤ max_generation
  pub idle : w.leased ≡ false → phase w.word ≡ phase_inactive
  pub busy :
      w.leased ≡ true → (phase w.word ≢ phase_inactive) × (generation w.word < max_generation)
  pub quiet : phase w.word ≢ phase_active → w.accepted ≡ []
  pub holds : Holds w.word w.accepted

-- What a successful exchange of each loop needed and wrote.
pub record_round-wrote :
    (actual : ℕ) (t : EventToken) (kind : InterruptKind) (s : Bool) {word' : ℕ}
    → record_round actual t kind s ≡ wrote word' true
    → (generation actual ≡ t.lease) × (phase actual ≡ phase_active) × (word' ≡ recorded actual kind)
unfolding record_round
record_round-wrote actual t kind s {word'} h = ground arith

pub acquire_round-wrote :
    (actual observed : ℕ) (s : Bool) {word' : ℕ}
    → acquire_round actual observed s ≡ wrote word' (ok tt)
    → (phase actual ≡ phase_inactive)
      × (generation actual ≢ max_generation)
      × (word' ≡ generation actual * 256 + phase_armed)
unfolding acquire_round
acquire_round-wrote actual observed s {word'} h = ground arith

pub activate_round-wrote :
    (actual observed : ℕ) (s : Bool) {word' : ℕ}
    → activate_round actual observed s ≡ wrote word' (ok tt)
    → (phase actual ≡ phase_armed) × (word' ≡ set_phase actual phase_active)
unfolding activate_round
activate_round-wrote actual observed s h = ground arith

pub take_round-wrote :
    (actual observed : ℕ) (s : Bool) {word' : ℕ} {events : Option (List InterruptKind)}
    → take_round actual observed s ≡ wrote word' events
    → (phase actual ≡ phase_active)
      × (word' ≡ generation actual * 256 + phase_active)
      × (events ≡ decode_events actual)
unfolding take_round
take_round-wrote actual observed s {word'} h = ground arith

pub finalize_round-wrote :
    (actual observed : ℕ) (events : List InterruptKind) {word' : ℕ}
    → finalize_round actual observed events ≡ wrote word' (ok tt)
    → ((phase actual ≡ phase_armed) ⊎ ((phase actual ≡ phase_active) × (count actual ≡ 0)))
      × (word' ≡ set_phase actual phase_finalizing)
unfolding finalize_round
finalize_round-wrote actual observed [] {word'} h = ground arith
finalize_round-wrote actual observed (kind ∷ kinds) {word'} h = ground arith

-- A pass that returns success without a write did not find the ledger active.
finalize_round-returned :
    (actual observed : ℕ) (events : List InterruptKind)
    → finalize_round actual observed events ≡ returned (ok tt)
    → phase observed ≢ phase_active
unfolding finalize_round
finalize_round-returned actual observed [] h = ground arith
finalize_round-returned actual observed (kind ∷ kinds) h = ground arith

Holds-nil : (word : ℕ) (ks : List InterruptKind) → ks ≡ [] → count word ≡ 0 → Holds word ks
Holds-nil word ks e h = rw e h

count-Holds : (word : ℕ) (ks : List InterruptKind) → ks ≡ [] → Holds word ks → count word ≡ 0
count-Holds word ks e h = rw e at h

-- A phase other than the active one has no recorded event.
no_events : (w : World) → Inv w → (p : ℕ) → p ≢ phase_active → phase w.word ≡ p → w.accepted ≡ []
no_events w v p other e = v.quiet (λ q. other (sym e ∙ q))

not_idle : (w : World) → Inv w → phase w.word ≢ phase_inactive → w.leased ≡ true
not_idle w v h = elim (Bool-cases w.leased) [
  | inl held ↦ held
  | inr free ↦ absurd (h (v.idle free))
]

unleased : (w : World) → Inv w → phase w.word ≡ phase_inactive → w.leased ≡ false
unleased w v h = elim (Bool-cases w.leased) [
  | inl held ↦ absurd ((v.busy held).0 h)
  | inr free ↦ free
]

pub release-Fields :
    (g observed : ℕ)
    → generation observed ≡ g
    → g < max_generation
    → Fields (release observed) 0 0 0 0 (g + 1)
unfolding release
release-Fields g observed e h =
    let e' : (generation observed + 1) * 256 % u32_mod ≡ (g + 1) * 256 + 0 = omega arith in
    rw e' (fresh-Fields (g + 1) 0 (omega arith))

Holds-zero : (word : ℕ) (ks : List InterruptKind) → Holds word ks → count word ≡ 0 → ks ≡ []
Holds-zero word [] h e = refl
Holds-zero word (a ∷ []) h e = absurd (omega (arith, h.0))
Holds-zero word (a ∷ b ∷ []) h e = absurd (omega (arith, h.0))
Holds-zero word (a ∷ b ∷ c ∷ rest) h e = absurd (omega (arith, h.0))

-- In a world that satisfies the invariant, finalization writes only when no event is pending.
finalize_round-quiet :
    (w : World) (observed : ℕ) (events : List InterruptKind) {word' : ℕ}
    → Inv w
    → finalize_round w.word observed events ≡ wrote word' (ok tt)
    → w.accepted ≡ []
finalize_round-quiet w observed events v r =
    elim (finalize_round-wrote w.word observed events r).0 [
      | inl armed ↦ no_events w v phase_armed (λ q. omega arith) armed
      | inr (active, none_left) ↦ Holds-zero w.word w.accepted v.holds none_left
    ]

-- Every step of any thread keeps the invariant.
pub Step-Inv : (w w' : World) → Inv w → Step w w' → Inv w'
Step-Inv w w' v (acquired observed s word' r e) =
    let (idle, below, written) = acquire_round-wrote w.word observed s r in
    let f = fresh-Fields (generation w.word) phase_armed (omega arith) in
    let quiet = no_events w v phase_inactive (λ q. omega arith) idle in
    rw (e, written)
      (record {
        in_range = omega (arith, f.at_generation, v.in_range);
        idle = λ h. cc;
        busy = λ _. (λ q. omega (arith, f.at_phase), omega (arith, f.at_generation, v.in_range));
        quiet = λ _. quiet;
        holds = Holds-nil _ w.accepted quiet f.at_count;
      })
Step-Inv w w' v (recorded_step t kind s word' r e) =
    let (same, active, written) = record_round-wrote w.word t kind s r in
    let f = recorded-Holds w.word kind w.accepted v.holds in
    rw (e, written)
      (record {
        in_range = omega (arith, f.same_generation, v.in_range);
        idle = λ h. f.same_phase ∙ v.idle h;
        busy = λ h. (
          λ q. (v.busy h).0 (sym f.same_phase ∙ q),
          omega (arith, f.same_generation, (v.busy h).1),
        );
        quiet = λ h. absurd (h (f.same_phase ∙ active));
        holds = f.holds;
      })
Step-Inv w w' v (activated observed s word' held r e) =
    let (armed, written) = activate_round-wrote w.word observed s r in
    let f = set_phase-Fields phase_active (omega arith) (Fields-self w.word) in
    let quiet = no_events w v phase_armed (λ q. omega arith) armed in
    rw (e, written)
      (record {
        in_range = omega (arith, f.at_generation, v.in_range);
        idle = λ h. cc;
        busy =
            λ _. (λ q. omega (arith, f.at_phase), omega (arith, f.at_generation, (v.busy held).1));
        quiet = λ _. quiet;
        holds =
            Holds-nil _ w.accepted quiet (f.at_count ∙ count-Holds w.word w.accepted quiet v.holds);
      })
Step-Inv w w' v (taken observed s word' events held r e) =
    let (active, written, _) = take_round-wrote w.word observed s r in
    let f = fresh-Fields (generation w.word) phase_active (omega arith) in
    rw (e, written)
      (record {
        in_range = omega (arith, f.at_generation, v.in_range);
        idle = λ h. cc;
        busy =
            λ _. (λ q. omega (arith, f.at_phase), omega (arith, f.at_generation, (v.busy held).1));
        quiet = λ _. refl;
        holds = f.at_count;
      })
Step-Inv w w' v (finalized observed events word' held r e) =
    let (_, written) = finalize_round-wrote w.word observed events r in
    let f = set_phase-Fields phase_finalizing (omega arith) (Fields-self w.word) in
    let quiet = finalize_round-quiet w observed events v r in
    rw (e, written)
      (record {
        in_range = omega (arith, f.at_generation, v.in_range);
        idle = λ h. cc;
        busy =
            λ _. (λ q. omega (arith, f.at_phase), omega (arith, f.at_generation, (v.busy held).1));
        quiet = λ _. quiet;
        holds =
            Holds-nil _ w.accepted quiet (f.at_count ∙ count-Holds w.word w.accepted quiet v.holds);
      })
Step-Inv w w' v (released observed held same e) =
    let f = release-Fields (generation w.word) observed same (v.busy held).1 in
    rw e (record {
      in_range = omega (arith, f.at_generation, (v.busy held).1);
      idle = λ _. f.at_phase;
      busy = λ h. cc;
      quiet = λ _. refl;
      holds = f.at_count;
    })

initial-Inv : Inv initial
unfolding new
initial-Inv =
    let f = fresh-Fields 0 phase_inactive (omega arith) in
    record {
      in_range = omega (arith, f.at_generation);
      idle = λ _. f.at_phase;
      busy = λ h. cc;
      quiet = λ _. refl;
      holds = f.at_count;
    }

-- Every world that the threads reach from the new ledger satisfies the invariant.
pub Reach-Inv : {w : World} → Reach initial w → Inv w
Reach-Inv here = initial-Inv
Reach-Inv (next {u = u} {v = v} r st) = Step-Inv u v (Reach-Inv r) st

-- In every reachable world, an exchange that drains the ledger reports, of the kinds recorded since the last
-- drain, the first and the second, and the second once more if there were three or more, however many;
-- it never meets an invalid kind.
pub take-reports :
    {w : World} (observed : ℕ) (spurious : Bool) {word' : ℕ} {events : Option (List InterruptKind)}
    → Reach initial w
    → take_round w.word observed spurious ≡ wrote word' events
    → events ≡ some (saturate w.accepted)
take-reports {w} observed spurious r h =
    (take_round-wrote w.word observed spurious h).2
    ∙ decode_events-Holds w.word w.accepted (Reach-Inv r).holds

-- When a pass of `begin_finalization` succeeds in a reachable world, by writing the word or, on the word that it
-- loads there, by returning without a write, every interrupt that was recorded has been taken.
pub finalize-drained :
    {w : World} (observed : ℕ) (events : List InterruptKind) {word' : ℕ}
    → Reach initial w
    → (finalize_round w.word observed events ≡ wrote word' (ok tt))
      ⊎ ((observed ≡ w.word) × (finalize_round w.word observed events ≡ returned (ok tt)))
    → w.accepted ≡ []
finalize-drained {w} observed events r (inl h) =
    finalize_round-quiet w observed events (Reach-Inv r) h
finalize-drained {w} observed events r (inr (loaded, h)) =
    (Reach-Inv r).quiet
      (λ q. finalize_round-returned w.word observed events h (ap phase loaded ∙ q))

-- A session is acquired only while no other session holds the ledger.
pub acquire-exclusive :
    {w : World} (observed : ℕ) (spurious : Bool) {word' : ℕ}
    → Reach initial w
    → acquire_round w.word observed spurious ≡ wrote word' (ok tt)
    → w.leased ≡ false
acquire-exclusive {w} observed spurious r h =
    unleased w (Reach-Inv r) (acquire_round-wrote w.word observed spurious h).0
