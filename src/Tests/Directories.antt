-- ===== src/Tests/Directories.antt =====
-- A backend that makes directories and removes directories and files, and an environment with it, for concrete
-- runs of the transaction engine.
use skillmount.Prelude.{
  Bool, true, not, List, [], ◌∷◌, ◌++◌, any, filter, length, length-append, Option, none, some,
  Result, ok, err, ◌≡◌, ◌≢◌, refl, sym, ap, ◌∙◌, ◌≤◌, ◌+◌, if◌then◌else◌, if-holds, Bool-cases, inl,
  inr, arith, some_injective, ok_injective,
}
use skillmount.Text.{Str, ◌===◌, ===→≡}
use skillmount.FilePath.{FilePath, path_eq}
use skillmount.Journal.Record.{TransactionJournal}
use skillmount.Link.{
  EntryKind, PathEntry, plain, OwnedDirectory, LinkError, create_failed, PlacementOutcome, placed,
  destination_exists, RemoveOutcome, removed, already_absent, mismatched, identity_changed,
}
use skillmount.Link.Backend.{LinkBackend}
use skillmount.Transaction.{Environment}

-- The directories, each a path and an identity, and the journal.
pub record Disk : Type 0 where
  pub entries : List (FilePath × Str)
  pub saved : Option TransactionJournal

abbrev pub has : Str → List (FilePath × Str) → Bool
has i entries = any (λ e. e.1 === i) entries

abbrev pub find : FilePath → List (FilePath × Str) → Option Str
find p [] = none
find p (e ∷ entries) = if path_eq e.0 p then some e.1 else find p entries

-- An identity that is longer than any other.
abbrev pub unused : List (FilePath × Str) → Str
unused [] = 97 ∷ []
unused (e ∷ entries) = e.1 ++ unused entries

abbrev pub seen : FilePath → Option Str → PathEntry
seen p none = plain p EntryKind.missing
seen p (some i) = record { path = p; kind = EntryKind.directory; target = none; identity = some i }

abbrev pub refused : LinkError
refused = create_failed [] [] []

abbrev pub make : FilePath → Disk → Option Str → Result LinkError OwnedDirectory × Disk
make p w (some i) = (err refused, w)
make p w none = (
  ok record { path = p; identity = some (unused w.entries) },
  record w { entries = (p, unused w.entries) ∷ w.entries },
)

abbrev pub moved : FilePath → FilePath → List (FilePath × Str) → List (FilePath × Str)
moved p q [] = []
moved p q (e ∷ entries) = (if path_eq e.0 p then q else e.0, e.1) ∷ moved p q entries

abbrev pub put :
    OwnedDirectory
    → FilePath
    → Disk
    → Option Str
    → Result LinkError (PlacementOutcome OwnedDirectory) × Disk
put r q w (some i) = (ok destination_exists, w)
put r q w none = (
  ok (placed (record { path = q; identity = r.identity })),
  record w { entries = moved r.path q w.entries },
)

abbrev pub take_away : Option Str → Disk → Option Str → Result LinkError RemoveOutcome × Disk
take_away recorded w none = (ok already_absent, w)
take_away none w (some i) = (ok (mismatched identity_changed), w)
take_away (some j) w (some i) =
    if i === j
    then (ok removed, record w { entries = filter (λ e. not (e.1 === j)) w.entries })
    else (ok (mismatched identity_changed), w)

pub make-spares :
    (p : FilePath) (w : Disk) (found : Option Str) (i : Str)
    → has i w.entries ≡ true
    → has i (make p w found).1.entries ≡ true
make-spares p w (some j) i h = h
make-spares p w none i h = ground (arith, h)

moved-has :
    (p q : FilePath) (i : Str) (entries : List (FilePath × Str))
    → has i (moved p q entries) ≡ has i entries
moved-has p q i [] = refl
moved-has p q i (e ∷ entries) = ground (arith, moved-has p q i entries)

pub put-spares :
    (r : OwnedDirectory) (q : FilePath) (w : Disk) (found : Option Str) (i : Str)
    → has i w.entries ≡ true
    → has i (put r q w found).1.entries ≡ true
put-spares r q w (some j) i h = h
put-spares r q w none i h = moved-has r.path q i w.entries ∙ h

-- Taking away what has one key leaves what has another.
pub filter-any :
    {A : Type 0} (key : A → Str) (j i : Str) (entries : List A)
    → j ≢ i
    → any (λ e. key e === i) entries ≡ true
    → any (λ e. key e === i) (filter (λ e. not (key e === j)) entries) ≡ true
filter-any key j i [] other h = h
filter-any key j i (e ∷ entries) other h = elim (Bool-cases (key e === j)) [
  | inl gone ↦ rw gone (
      filter-any key j i entries other (elim (Bool-cases (key e === i)) [
        | inl same ↦ absurd (other (sym (===→≡ (key e) j gone) ∙ ===→≡ (key e) i same))
        | inr differs ↦ ground arith
      ]))
  | inr stays ↦ rw stays (elim (Bool-cases (key e === i)) [
    | inl same ↦ ground arith
    | inr differs ↦
        let rest = filter-any key j i entries other (ground arith) in ground (arith, rest)
  ])
]

pub take_away-spares :
    (recorded : Option Str) (w : Disk) (found : Option Str) (i : Str)
    → recorded ≢ some i
    → has i w.entries ≡ true
    → has i (take_away recorded w found).1.entries ≡ true
take_away-spares recorded w none i other h = h
take_away-spares none w (some k) i other h = h
take_away-spares (some j) w (some k) i other h =
    if-holds (λ (x : Result LinkError RemoveOutcome × Disk). has i x.1.entries ≡ true) (k === j) _ _
      (filter-any (λ e. e.1) j i w.entries (λ e. other (ap some e)) h) h

unused-long : (entries : List (FilePath × Str)) → 1 ≤ length (unused entries)
unused-long [] = omega arith
unused-long (e ∷ entries) = omega (arith, length-append e.1 (unused entries), unused-long entries)

has-length :
    (i : Str) (entries : List (FilePath × Str))
    → has i entries ≡ true
    → length i + 1 ≤ length (unused entries)
has-length i [] h = ground arith
has-length i (e ∷ entries) h = elim (Bool-cases (e.1 === i)) [
  | inl same ↦
      let is : e.1 ≡ i = ===→≡ e.1 i same in
      let sizes : length e.1 ≡ length i = ap length is in
      omega (arith, length-append e.1 (unused entries), unused-long entries, sizes)
  | inr differs ↦
      let rest = has-length i entries (ground arith) in
      omega (arith, length-append e.1 (unused entries), rest)
]

pub make-fresh :
    (p : FilePath) (w : Disk) (found : Option Str) (made : OwnedDirectory) (i : Str)
    → (make p w found).0 ≡ ok made
    → made.identity ≡ some i
    → ¬ has i w.entries ≡ true
make-fresh p w (some j) made i e known there = absurd (cc)
make-fresh p w none made i e known there =
    let same : unused w.entries ≡ i =
      some_injective (ap (λ r. r.identity) (ok_injective e) ∙ known) in
    let sizes : length (unused w.entries) ≡ length i = ap length same in
    omega (arith, has-length i w.entries there, sizes)

placed_identity : Result LinkError (PlacementOutcome OwnedDirectory) → Option Str
placed_identity (ok (placed r)) = r.identity
placed_identity _ = none

pub put-identity :
    (r : OwnedDirectory) (q : FilePath) (w : Disk) (found : Option Str) (after : OwnedDirectory)
    → (put r q w found).0 ≡ ok (placed after)
    → after.identity ≡ r.identity
unfolding placed_identity
put-identity r q w (some j) after e = absurd (cc)
put-identity r q w none after e = sym (ap placed_identity e)

-- The backend: links, and the making of files, are refused.
abbrev pub directories : LinkBackend
directories = record {
  World = Disk;
  Alive = λ w i. has i w.entries ≡ true;
  inspect_no_follow = λ w p. ok (seen p (find p w.entries));
  canonical_directory = λ w p. err refused;
  verify_config_file = λ w r. err refused;
  create_directory_link = λ r w. (err refused, w);
  create_directory = λ p w. make p w (find p w.entries);
  create_config_file = λ p s w. (err refused, w);
  place_no_replace = λ r p w. (err refused, w);
  place_directory_no_replace = λ r p w. put r p w (find p w.entries);
  place_config_file_no_replace = λ r p w. (err refused, w);
  remove_link_entry = λ r w. (err refused, w);
  remove_empty_directory = λ r w. take_away r.identity w (find r.path w.entries);
  remove_config_file = λ r w. take_away r.identity w (find r.path w.entries);
  create_directory_link-spares = λ r w i h. h;
  create_directory-spares = λ p w. make-spares p w (find p w.entries);
  create_config_file-spares = λ p s w i h. h;
  place_no_replace-spares = λ r p w i h. h;
  place_directory_no_replace-spares = λ r p w. put-spares r p w (find p w.entries);
  place_config_file_no_replace-spares = λ r p w i h. h;
  create_directory_link-fresh = λ r w made i e. absurd (cc);
  create_directory-fresh = λ p w. make-fresh p w (find p w.entries);
  create_config_file-fresh = λ p s w made i e. absurd (cc);
  place_no_replace-identity = λ r p w moved e. absurd (cc);
  place_directory_no_replace-identity = λ r p w. put-identity r p w (find p w.entries);
  place_config_file_no_replace-identity = λ r p w moved e. absurd (cc);
  remove_link_entry-spares = λ r w i other h. h;
  remove_empty_directory-spares = λ r w. take_away-spares r.identity w (find r.path w.entries);
  remove_config_file-spares = λ r w. take_away-spares r.identity w (find r.path w.entries);
}

-- The journal is on the disk beside the directories, and nothing is shown.
abbrev pub environment : Environment
environment = record {
  backend = directories;
  show_error = λ e. [];
  show_path = λ p. p;
  show_entry = λ e. e.path;
  durable = λ w. w.saved;
  persist = λ j w. (ok tt, record w { saved = some j });
  remove_journal = λ w. (ok tt, record w { saved = none });
  persist-durable = λ j w e. refl;
  persist-spares = λ j w i h. h;
  remove_journal-spares = λ w i h. h;
}
