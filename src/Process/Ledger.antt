-- ===== src/Process/Ledger.antt =====
-- src/process/event.rs: the ledger of interrupts, one `AtomicU32` that signal handlers write while the
-- supervising thread reads it. Each loop of compare-and-exchange is given by its round: what one
-- pass does with the word `observed` that it works from and the word `actual` that is there when it
-- exchanges.
pub mod Word
pub mod Steps
use skillmount.Prelude.{
  ℕ, ◌+◌, ◌-◌, ◌*◌, ◌%◌, ◌/◌, ◌^◌, Bool, true, false, not, ◌&&◌, ◌||◌, List, [], ◌∷◌, Option, none,
  some, Result, ok, err, ltb, ◌==◌, if◌then◌else◌,
}
use skillmount.Process.Ledger.Word.{
  phase, count, first, second, generation, set_phase, set_count, set_first, set_second,
  phase_inactive, phase_armed, phase_active, phase_finalizing, max_generation, u32_mod,
}

pub data InterruptKind : Type 0 where
  interrupt terminate break : InterruptKind

pub data EventError : Type 0 where
  already_active exhausted wrong_phase : EventError

-- The value of `EventToken`: the word that was read, and its generation.
pub record EventToken : Type 0 where
  pub observed : ℕ
  pub lease : ℕ

-- How one pass of a loop ends: it returns without a write, it writes a word and returns, or it goes
-- round again from the word that it found.
pub data Round (A : Type 0) : Type 0 where
  returned : A → Round A
  wrote : ℕ → A → Round A
  again : ℕ → Round A

-- `compare_exchange_weak` may fail with the expected word in place (`spurious`).
abbrev pub exchange : {A : Type 0} → ℕ → ℕ → Bool → ℕ → A → Round A → Round A
exchange actual expected spurious new a failed =
    if actual == expected && not spurious then wrote new a else failed

abbrev pub encode : InterruptKind → ℕ
encode interrupt = 1
encode terminate = 2
encode break = 3

-- `none` is the `unreachable!` of the source.
abbrev pub decode : ℕ → Option InterruptKind
decode encoded =
    if encoded == 1
    then some interrupt
    else if encoded == 2
    then some terminate
    else if encoded == 3
    then some break
    else none

unfoldable pub new : ℕ
new = phase_inactive

unfoldable pub token : ℕ → EventToken
token word = record { observed = word; lease = generation word }

unfoldable pub acquire_round : (actual observed : ℕ) → Bool → Round (Result EventError (Unit {0}))
acquire_round actual observed spurious =
    if not (phase observed == phase_inactive)
    then returned (err already_active)
    else if generation observed == max_generation
    then returned (err exhausted)
    else exchange actual observed spurious (generation observed * 256 + phase_armed) (ok tt)
        (again actual)

-- The word that `record` writes: one event more, the first two kinds kept.
abbrev pub recorded : ℕ → InterruptKind → ℕ
recorded observed kind =
    let next = set_count observed (if ltb (count observed + 1) 3 then count observed + 1 else 3) in
    if count observed == 0
    then set_first next (encode kind)
    else if count observed == 1
    then set_second next (encode kind)
    else next

unfoldable pub record_round : (actual : ℕ) → EventToken → InterruptKind → Bool → Round Bool
record_round actual t kind spurious =
    if not (generation t.observed == t.lease) || not (phase t.observed == phase_active)
    then returned false
    else exchange actual t.observed spurious (recorded t.observed kind) true
        (if not (generation actual == t.lease) then returned false else again actual)

unfoldable pub activate_round : (actual observed : ℕ) → Bool → Round (Result EventError (Unit {0}))
activate_round actual observed spurious =
    if phase observed == phase_active
    then returned (ok tt)
    else if phase observed == phase_armed
    then exchange actual observed spurious (set_phase observed phase_active) (ok tt) (again actual)
    else returned (err wrong_phase)

append_kind : Option InterruptKind → Option (List InterruptKind) → Option (List InterruptKind)
append_kind none rest = none
append_kind (some k) none = none
append_kind (some k) (some ks) = some (k ∷ ks)

unfoldable pub decode_events : ℕ → Option (List InterruptKind)
unfolding append_kind
decode_events word =
    let one = append_kind (decode (first word)) in
    let two = append_kind (decode (second word)) in
    if count word == 0
    then some []
    else if count word == 1
    then one (some [])
    else if count word == 2
    then one (two (some []))
    else one (two (two (some [])))

unfoldable pub take_round : (actual observed : ℕ) → Bool → Round (Option (List InterruptKind))
take_round actual observed spurious =
    if not (phase observed == phase_active)
    then returned (some [])
    else exchange actual observed spurious (generation observed * 256 + phase observed)
        (decode_events observed) (again actual)

abbrev drained_or_again : ℕ → List InterruptKind → Round (Result (List InterruptKind) (Unit {0}))
drained_or_again actual [] = again actual
drained_or_again actual (kind ∷ kinds) = returned (err (kind ∷ kinds))

-- A pass of `begin_finalization`; `events` is what its call of `take` returns, in a pass that makes one. Each
-- pass loads the word anew, and its strong exchange does not fail spuriously.
unfoldable pub finalize_round :
    (actual observed : ℕ) → List InterruptKind → Round (Result (List InterruptKind) (Unit {0}))
finalize_round actual observed events =
    if phase observed == phase_armed
    then exchange actual observed false (set_phase observed phase_finalizing) (ok tt) (again actual)
    else if phase observed == phase_active
    then (if not (count observed == 0)
        then drained_or_again actual events
        else exchange actual observed false (set_phase observed phase_finalizing) (ok tt)
            (again actual))
    else returned (ok tt)

-- The word that `release` stores, from the one that it read.
unfoldable pub release : ℕ → ℕ
release observed = (generation observed + 1) * 256 % u32_mod
