-- ===== src/Process/Ledger/Steps/Stale.antt =====
-- src/process/event.rs: a handler that was delayed past the end of its session.
use skillmount.Prelude.{ℕ, ◌≤◌, Bool, true, false, List, ◌≡◌, ◌≢◌, refl, arith}
use skillmount.Process.Ledger.{InterruptKind, EventToken, wrote, record_round, release}
use skillmount.Process.Ledger.Word.{
  generation, phase_armed, phase_active, phase_finalizing, Fields-self, fresh-Fields,
  set_phase-Fields,
}
use skillmount.Process.Ledger.Steps.{
  World, Step, acquired, recorded as recorded_step, activated, taken, finalized, released, Reach,
  here, next, initial,
}
use skillmount.Process.Ledger.Steps.Holds.{recorded-Holds}
use skillmount.Process.Ledger.Steps.Invariant.{
  Inv, Step-Inv, Reach-Inv, release-Fields, acquire_round-wrote, activate_round-wrote,
  take_round-wrote, record_round-wrote, finalize_round-wrote,
}

le_of : (a b c : ℕ) → c ≡ b → a ≡ b → a ≤ c
le_of a b c h k = omega arith

generation-step : (w w' : World) → Inv w → Step w w' → generation w.word ≤ generation w'.word
generation-step w w' v (acquired observed s word' r e) =
    let f = fresh-Fields (generation w.word) phase_armed (omega arith) in
    rw (e, (acquire_round-wrote w.word observed s r).2) (omega (arith, f.at_generation))
generation-step w w' v (recorded_step t kind s word' r e) =
    rw (e, (record_round-wrote w.word t kind s r).2)
      (omega (arith, (recorded-Holds w.word kind w.accepted v.holds).same_generation))
generation-step w w' v (activated observed s word' held r e) =
    let f = set_phase-Fields phase_active (omega arith) (Fields-self w.word) in
    rw (e, (activate_round-wrote w.word observed s r).1) (omega (arith, f.at_generation))
generation-step w w' v (taken observed s word' events held r e) =
    let f = fresh-Fields (generation w.word) phase_active (omega arith) in
    rw (e, (take_round-wrote w.word observed s r).1) (omega (arith, f.at_generation))
generation-step w w' v (finalized observed events word' held r e) =
    let f = set_phase-Fields phase_finalizing (omega arith) (Fields-self w.word) in
    rw (e, (finalize_round-wrote w.word observed events r).1) (omega (arith, f.at_generation))
generation-step w w' v (released observed held same e) = rw e (
    omega (arith, (release-Fields (generation w.word) observed same (v.busy held).1).at_generation))

generation-Reach :
    {v w : World} → Inv v → Reach v w → Inv w × (generation v.word ≤ generation w.word)
generation-Reach i here = (i, omega arith)
generation-Reach i (next {u = u} {v = v'} r st) =
    let (j, below) = generation-Reach i r in
    (Step-Inv u v' j st, omega (arith, generation-step u v' j st, below))

-- Once a session has released the ledger, a handler whose token was read before that, in this session or an
-- earlier one, records nothing, whatever the threads do after it.
pub stale-records_nothing :
    {u w : World} (observed : ℕ) (t : EventToken) (kind : InterruptKind) (spurious : Bool)
    (word' : ℕ)
    → Reach initial u
    → u.leased ≡ true
    → generation observed ≡ generation u.word
    → t.lease ≤ generation u.word
    → Reach (record { word = release observed; accepted = List.[]; leased = false }) w
    → record_round w.word t kind spurious ≢ wrote word' true
stale-records_nothing {u} {w} observed t kind spurious word' r held same old after h =
    let v = Reach-Inv r in
    let f = release-Fields (generation u.word) observed same (v.busy held).1 in
    let step = Step-Inv u _ v (released observed held same refl) in
    let (_, later) = generation-Reach step after in
    let (lease, _, _) = record_round-wrote w.word t kind spurious h in
    absurd (omega (arith, f.at_generation, later, lease))
