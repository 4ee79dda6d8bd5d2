-- ===== src/Transaction/Cleanup/Pending.antt =====
-- src/journal/mod.rs, `cleanup_candidates`: the actions that are pending, by their ids.
use skillmount.Prelude.{
  ℕ, ◌==◌, Bool, true, false, ◌&&◌, ◌||◌, List, [], ◌∷◌, All, All-map, filter, map, none, ◌≡◌, ◌⊎◌,
  inl, inr, if-holds, Bool-cases, arith,
}
use mathlib.Core.List.{reverse_aux}
use skillmount.Journal.Status.{creates_entry, may_have_created_something}
use skillmount.Journal.Record.{JournalAction}
use skillmount.Transaction.{find_action, update_action}
use skillmount.Transaction.Cleanup.{rolled_back}

-- The test of `cleanup_candidates`.
abbrev pub is_pending : JournalAction → Bool
is_pending a = creates_entry a.operation && may_have_created_something a.status

-- No two actions have one id.
abbrev pub UniqueIds : List JournalAction → Type 0
UniqueIds [] = Unit
UniqueIds (a ∷ rest) = All (λ b. (b.id == a.id) ≡ false) rest × UniqueIds rest

unfoldable pub contains : ℕ → List ℕ → Bool
contains n [] = false
contains n (m ∷ ms) = m == n || contains n ms

-- The actions that are pending have one of the ids.
unfoldable pub PendingIn : List ℕ → List JournalAction → Type 0
PendingIn ids = All (λ a. (is_pending a ≡ false) ⊎ (contains a.id ids ≡ true))

others-update :
    (n id : ℕ) (rest : List JournalAction)
    → All (λ b. (b.id == n) ≡ false) rest
    → All (λ b. (b.id == n) ≡ false) (update_action id rolled_back rest)
unfolding update_action
others-update n id [] h = tt
others-update n id (b ∷ rest) h =
    if-holds (All (λ b. (b.id == n) ≡ false)) (b.id == id) _ _ h (h.0, others-update n id rest h.1)

pub update_action-UniqueIds :
    (id : ℕ) (actions : List JournalAction)
    → UniqueIds actions
    → UniqueIds (update_action id rolled_back actions)
unfolding update_action
update_action-UniqueIds id [] h = tt
update_action-UniqueIds id (a ∷ actions) h =
    if-holds UniqueIds (a.id == id) _ _ h
      (others-update a.id id actions h.0, update_action-UniqueIds id actions h.1)

drop_first :
    (id : ℕ) (ids : List ℕ) (a : JournalAction)
    → (a.id == id) ≡ false
    → (is_pending a ≡ false) ⊎ (contains a.id (id ∷ ids) ≡ true)
    → (is_pending a ≡ false) ⊎ (contains a.id ids ≡ true)
unfolding contains
drop_first id ids a other (inl done) = inl done
drop_first id ids a other (inr among) = inr (ground arith)

pub drop_others :
    (id : ℕ) (ids : List ℕ) (rest : List JournalAction)
    → All (λ b. (b.id == id) ≡ false) rest
    → PendingIn (id ∷ ids) rest
    → PendingIn ids rest
unfolding PendingIn
drop_others id ids [] others pending = tt
drop_others id ids (a ∷ rest) others pending =
    (drop_first id ids a others.0 pending.0, drop_others id ids rest others.1 pending.1)

same_others :
    (a : JournalAction) (id : ℕ) (rest : List JournalAction)
    → (a.id == id) ≡ true
    → All (λ b. (b.id == a.id) ≡ false) rest
    → All (λ b. (b.id == id) ≡ false) rest
same_others a id rest here others =
    All-map (λ b other. let same : a.id ≡ id = ground arith in ground arith) rest others

-- The action of the first id is rolled back, so that one of the other ids is left.
pub update_action-PendingIn :
    (id : ℕ) (ids : List ℕ) (actions : List JournalAction)
    → UniqueIds actions
    → PendingIn (id ∷ ids) actions
    → PendingIn ids (update_action id rolled_back actions)
unfolding update_action PendingIn may_have_created_something
update_action-PendingIn id ids [] unique pending = tt
update_action-PendingIn id ids (a ∷ actions) unique pending = elim (Bool-cases (a.id == id)) [
  | inl here ↦ rw here (
    inl (ground arith),
    drop_others id ids actions (same_others a id actions here unique.0) pending.1,
  )
  | inr there ↦ rw there (
    drop_first id ids a there pending.0,
    update_action-PendingIn id ids actions unique.1 pending.1,
  )
]

pub find_action-none :
    (id : ℕ) (actions : List JournalAction)
    → find_action id actions ≡ none
    → All (λ b. (b.id == id) ≡ false) actions
unfolding find_action
find_action-none id [] e = tt
find_action-none id (a ∷ actions) e = elim (Bool-cases (a.id == id)) [
  | inl here ↦ ground arith
  | inr there ↦ (there, find_action-none id actions (ground arith))
]

unfoldable pub candidate_ids : List JournalAction → List ℕ
candidate_ids actions = map (λ a. a.id) (filter is_pending actions)

contains-reverse_aux :
    (n : ℕ) (actions rest : List JournalAction)
    → contains n (candidate_ids rest) ≡ true
    → contains n (candidate_ids (reverse_aux actions rest)) ≡ true
unfolding contains candidate_ids
contains-reverse_aux n [] rest h = h
contains-reverse_aux n (a ∷ actions) rest h =
    contains-reverse_aux n actions (a ∷ rest) (elim (Bool-cases (is_pending a)) [
      | inl is ↦ rw is (ground arith)
      | inr is_not ↦ rw is_not h
    ])

pub reverse_aux-PendingIn :
    (actions rest : List JournalAction)
    → PendingIn (candidate_ids (reverse_aux actions rest)) actions
unfolding PendingIn contains candidate_ids
reverse_aux-PendingIn [] rest = tt
reverse_aux-PendingIn (a ∷ actions) rest = (
  elim (Bool-cases (is_pending a)) [
    | inl is ↦ inr (contains-reverse_aux a.id actions (a ∷ rest) (rw is (ground arith)))
    | inr is_not ↦ inl is_not
  ],
  reverse_aux-PendingIn actions (a ∷ rest),
)

pub PendingIn-none :
    (actions : List JournalAction) → PendingIn [] actions → All (λ a. is_pending a ≡ false) actions
unfolding PendingIn contains
PendingIn-none [] h = tt
PendingIn-none (a ∷ actions) (inl done, h) = (done, PendingIn-none actions h)
PendingIn-none (a ∷ actions) (inr among, h) = ground arith
