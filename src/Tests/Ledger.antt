-- ===== src/Tests/Ledger.antt =====
-- A session of the ledger of src/process/event.rs: acquired, activated, two interrupts, drained, finalized.
use skillmount.Prelude.{ℕ, true, false, List, [], ◌∷◌, some, ok, err, ◌≡◌, ◌≢◌, refl, inl, arith}
use skillmount.Process.Ledger.{
  InterruptKind, interrupt, terminate, EventToken, wrote, returned, acquire_round, record_round,
  activate_round, take_round, finalize_round, release, new, decode_events,
}
use skillmount.Process.Ledger.Word.{
  phase, count, first, second, generation, set_phase, set_count, set_first, set_second,
}
use skillmount.Process.Ledger.Steps.{
  World, Step, acquired, recorded, activated, taken, finalized, Reach, here, next, initial,
}
use skillmount.Process.Ledger.Steps.Invariant.{
  Inv, Reach-Inv, take-reports, finalize-drained, acquire-exclusive,
}
use skillmount.Process.Ledger.Steps.Stale.{stale-records_nothing}

abbrev world : ℕ → List InterruptKind → World
world word accepted = record { word = word; accepted = accepted; leased = true }

abbrev first_token : EventToken
first_token = record { observed = 2; lease = 0 }

abbrev second_token : EventToken
second_token = record { observed = 38; lease = 0 }

acquiring : acquire_round 0 0 false ≡ wrote 1 (ok tt)
unfolding acquire_round phase generation
acquiring = refl

activating : activate_round 1 1 false ≡ wrote 2 (ok tt)
unfolding activate_round phase set_phase
activating = refl

recording : record_round 2 first_token terminate false ≡ wrote 38 true
unfolding record_round phase generation count set_count set_first
recording = refl

-- 106 is phase 2, count 2, the first kind 2 and the second 1.
recording_more : record_round 38 second_token interrupt false ≡ wrote 106 true
unfolding record_round phase generation count set_count set_second
recording_more = refl

taking : take_round 106 106 false ≡ wrote 2 (some (terminate ∷ interrupt ∷ []))
unfolding take_round phase generation count first second decode_events
taking = refl

finalizing : finalize_round 2 2 [] ≡ wrote 3 (ok tt)
unfolding finalize_round phase count set_phase
finalizing = refl

-- Finalization hands out what is pending.
draining :
    finalize_round 106 106 (terminate ∷ interrupt ∷ [])
    ≡ returned (err (terminate ∷ interrupt ∷ []))
unfolding finalize_round phase count
draining = refl

generation_zero : generation 3 ≡ 0
unfolding generation
generation_zero = refl

empty_word : new ≡ 0
unfolding new
empty_word = refl

acquire_step : Step initial (world 1 [])
unfolding new
acquire_step = acquired 0 false 1 acquiring refl

active : Reach initial (world 2 [])
active = next (next here acquire_step) (activated 1 false 2 refl activating refl)

two_recorded : Reach initial (world 106 (terminate ∷ interrupt ∷ []))
two_recorded =
    next (next active (recorded first_token terminate false 38 recording refl))
      (recorded second_token interrupt false 106 recording_more refl)

drained : Reach initial (world 2 [])
drained = next two_recorded (taken 106 false 2 (some (terminate ∷ interrupt ∷ [])) refl taking refl)

finished : Reach initial (world 3 [])
finished = next drained (finalized 2 [] 3 refl finalizing refl)

Reach-Inv_example : Inv (world 106 (terminate ∷ interrupt ∷ []))
Reach-Inv_example = Reach-Inv two_recorded

take-reports_example : some (terminate ∷ interrupt ∷ []) ≡ some (terminate ∷ interrupt ∷ [])
take-reports_example = take-reports 106 false two_recorded taking

finalize-drained_example : (world 2 []).accepted ≡ []
finalize-drained_example = finalize-drained 2 [] drained (inl finalizing)

acquire-exclusive_example : initial.leased ≡ false
unfolding new
acquire-exclusive_example = acquire-exclusive {w = initial} 0 false here acquiring

stale-records_nothing_example :
    record_round (release 3) first_token interrupt false ≢ wrote 294 true
stale-records_nothing_example =
    stale-records_nothing 3 first_token interrupt false 294 finished refl refl
      (unfold generation in omega arith) here
