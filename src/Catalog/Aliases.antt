-- ===== src/Catalog/Aliases.antt =====
-- src/catalog/resolve.rs, `reject_canonical_aliases`: the check for one directory under two names.
use mathlib.Core.List.{Memᴰ}
use skillmount.Prelude.{
  true, false, List, [], ◌∷◌, Option, none, some, Option-cases, Bool-cases, Result, ok, err,
  if◌then◌else◌, ◌≡◌, inl, inr, refl, sym, ap, ◌∙◌, arith,
}
use skillmount.Text.{Str, ◌===◌, ===→≡}
use skillmount.FilePath.{
  FilePath, components, path_eq, path_eq_sound, path_eq_complete, path_eq-same,
}
use skillmount.Catalog.Overlay.{PendingResolution}

-- `CatalogError::CanonicalAlias`.
pub record CanonicalAlias : Type 0 where
  pub canonical : FilePath
  pub first_name : Str
  pub second_name : Str

-- The `BTreeMap` of paths as a list, the newest entry first; an entry hides the older ones of its path.
unfoldable pub find_name : FilePath → List (FilePath × Str) → Option Str
find_name path [] = none
find_name path ((p, name) ∷ names) = if path_eq p path then some name else find_name path names

abbrev pub canonical_of : PendingResolution → FilePath
canonical_of r = ((r.selected).origin).source_canonical

unfoldable pub reject_from :
    List (FilePath × Str) → List PendingResolution → Result CanonicalAlias (Unit {0})
reject_from names [] = ok tt
reject_from names (r ∷ rest) = elim (r.selected).canonical_valid [
  | false ↦ reject_from names rest
  | true ↦ elim (find_name (canonical_of r) names) [
    | none ↦ reject_from ((canonical_of r, (r.selected).raw_name) ∷ names) rest
    | some first ↦ elim (first === (r.selected).raw_name) [
      | true ↦ reject_from ((canonical_of r, (r.selected).raw_name) ∷ names) rest
      | false ↦ err (record {
        canonical = canonical_of r;
        first_name = first;
        second_name = (r.selected).raw_name;
      })
    ]
  ]
]

unfoldable pub reject_canonical_aliases : List PendingResolution → Result CanonicalAlias (Unit {0})
reject_canonical_aliases pending = reject_from [] pending

find_name-same :
    (p q : FilePath) (names : List (FilePath × Str))
    → components p ≡ components q
    → find_name p names ≡ find_name q names
unfolding find_name
find_name-same p q [] h = refl
find_name-same p q ((r, name) ∷ names) h =
    rw (path_eq-same p q h r, find_name-same p q names h) refl

-- One step of an accepted run: the name agrees with a name that was recorded for the directory, and is recorded.
reject_from-step :
    (names : List (FilePath × Str)) (r : PendingResolution) (rest : List PendingResolution)
    → reject_from names (r ∷ rest) ≡ ok tt
    → (r.selected).canonical_valid ≡ true
    → (reject_from ((canonical_of r, (r.selected).raw_name) ∷ names) rest ≡ ok tt)
      × ((first : Str)
          → find_name (canonical_of r) names ≡ some first
          → first ≡ (r.selected).raw_name)
unfolding reject_from
reject_from-step names r rest h valid = elim (Option-cases (find_name (canonical_of r) names)) [
  | inl absent ↦ (ground arith, λ first e. cc)
  | inr (first, present) ↦ elim (Bool-cases (first === (r.selected).raw_name)) [
    | inl same ↦
        (ground arith, λ other e. let k = ===→≡ first (r.selected).raw_name same in ground arith)
    | inr differs ↦ ground arith
  ]
]

reject_from-skip :
    (names : List (FilePath × Str)) (r : PendingResolution) (rest : List PendingResolution)
    → reject_from names (r ∷ rest) ≡ ok tt
    → (r.selected).canonical_valid ≡ false
    → reject_from names rest ≡ ok tt
unfolding reject_from
reject_from-skip names r rest h invalid = ground arith

find_name-newest :
    (p q : FilePath) (name : Str) (names : List (FilePath × Str))
    → components p ≡ components q
    → find_name q ((p, name) ∷ names) ≡ some name
unfolding find_name
find_name-newest p q name names e = rw (path_eq_complete p q e) refl

find_name-older :
    (p q : FilePath) (name : Str) (names : List (FilePath × Str))
    → path_eq p q ≡ false
    → find_name q ((p, name) ∷ names) ≡ find_name q names
unfolding find_name
find_name-older p q name names e = rw e refl

reject_from-known :
    {q : PendingResolution} (names : List (FilePath × Str)) {rest : List PendingResolution}
    → reject_from names rest ≡ ok tt
    → Memᴰ q rest
    → (q.selected).canonical_valid ≡ true
    → (first : Str) → find_name (canonical_of q) names ≡ some first
    → first ≡ (q.selected).raw_name
reject_from-known {q} names h (Memᴰ.head {x = r} {xs = rest} e) valid first found =
    (reject_from-step names q rest (ap (λ x. reject_from names (x ∷ rest)) e ∙ h) valid).1 first
      found
reject_from-known {q} names h (Memᴰ.tail {x = r} {xs = rest} m) valid first found =
    elim (Bool-cases (r.selected).canonical_valid) [
      | inr invalid ↦
          reject_from-known names (reject_from-skip names r rest h invalid) m valid first found
      | inl ok_r ↦
          let (more, agrees) = reject_from-step names r rest h ok_r in
          elim (Bool-cases (path_eq (canonical_of r) (canonical_of q))) [
            | inl same ↦
                let e = path_eq_sound (canonical_of r) (canonical_of q) same in
                agrees first (find_name-same (canonical_of r) (canonical_of q) names e ∙ found)
                ∙ reject_from-known _ more m valid (r.selected).raw_name (
                    find_name-newest (canonical_of r) (canonical_of q) (r.selected).raw_name names
                      e)
            | inr other ↦ reject_from-known _ more m valid first (
                find_name-older (canonical_of r) (canonical_of q) (r.selected).raw_name names other
                ∙ found)
          ]
    ]

head-known :
    (names : List (FilePath × Str)) (p : PendingResolution) {q : PendingResolution}
    {rest : List PendingResolution}
    → reject_from names (p ∷ rest) ≡ ok tt
    → Memᴰ q rest
    → (p.selected).canonical_valid ≡ true
    → (q.selected).canonical_valid ≡ true
    → components (canonical_of p) ≡ components (canonical_of q)
    → (p.selected).raw_name ≡ (q.selected).raw_name
head-known names p {q} {rest} h m valid_p valid_q e =
    reject_from-known _ (reject_from-step names p rest h valid_p).0 m valid_q (p.selected).raw_name
      (find_name-newest (canonical_of p) (canonical_of q) (p.selected).raw_name names e)

reject_from_unique :
    {p q : PendingResolution} (names : List (FilePath × Str)) {pending : List PendingResolution}
    → reject_from names pending ≡ ok tt
    → Memᴰ p pending
    → Memᴰ q pending
    → (p.selected).canonical_valid ≡ true
    → (q.selected).canonical_valid ≡ true
    → components (canonical_of p) ≡ components (canonical_of q)
    → (p.selected).raw_name ≡ (q.selected).raw_name
reject_from_unique names h (Memᴰ.head e) (Memᴰ.head k) valid_p valid_q same =
    ap (λ (x : PendingResolution). (x.selected).raw_name) (e ∙ sym k)
reject_from_unique {p} names h (Memᴰ.head {xs = rest} e) (Memᴰ.tail m) valid_p valid_q same =
    head-known names p (ap (λ x. reject_from names (x ∷ rest)) e ∙ h) m valid_p valid_q same
reject_from_unique {p} {q} names h (Memᴰ.tail m) (Memᴰ.head {xs = rest} k) valid_p valid_q same =
    sym (
      head-known names q (ap (λ x. reject_from names (x ∷ rest)) k ∙ h) m valid_q valid_p
        (sym same))
reject_from_unique {p} {q} names h (Memᴰ.tail {x = r} {xs = rest} m) (Memᴰ.tail n) valid_p valid_q
      same =
    elim (Bool-cases (r.selected).canonical_valid) [
      | inl ok_r ↦
          reject_from_unique _ (reject_from-step names r rest h ok_r).0 m n valid_p valid_q same
      | inr invalid ↦
          reject_from_unique names (reject_from-skip names r rest h invalid) m n valid_p valid_q
            same
    ]

-- After the check, two selected Skills whose canonical directories are valid and equal have the same name, so
-- no directory is mounted under two names.
pub reject_canonical_aliases_unique :
    {p q : PendingResolution} {pending : List PendingResolution}
    → reject_canonical_aliases pending ≡ ok tt
    → Memᴰ p pending
    → Memᴰ q pending
    → (p.selected).canonical_valid ≡ true
    → (q.selected).canonical_valid ≡ true
    → components (canonical_of p) ≡ components (canonical_of q)
    → (p.selected).raw_name ≡ (q.selected).raw_name
unfolding reject_canonical_aliases
reject_canonical_aliases_unique h = reject_from_unique [] h
