-- ===== src/SortedMap.antt =====
-- `BTreeMap` with native strings as keys: the entries in the order of their keys, by bytes.
use Prim.Native.Nat.{compare, Ordering, lt, eq, gt}
use skillmount.Prelude.{
  List, [], ◌∷◌, Option, none, some, if◌then◌else◌, ◌≡◌, refl, ◌∙◌, ◌⊎◌, inl, inr, arith,
}
use skillmount.Text.{Str, ◌===◌, ===_iff}

unfoldable pub compare_keys : Str → Str → Ordering
compare_keys [] [] = eq
compare_keys [] (y ∷ ys) = lt
compare_keys (x ∷ xs) [] = gt
compare_keys (x ∷ xs) (y ∷ ys) = elim (compare x y) [ lt ↦ lt | gt ↦ gt | eq ↦ compare_keys xs ys ]

compare_keys-eq : (s t : Str) → compare_keys s t ≡ eq → s ≡ t
unfolding compare_keys
compare_keys-eq [] [] h = refl
compare_keys-eq [] (y ∷ ys) h = ground arith
compare_keys-eq (x ∷ xs) [] h = ground arith
compare_keys-eq (x ∷ xs) (y ∷ ys) h = ground (arith, compare_keys-eq xs ys)

compare_keys_refl : (s : Str) → compare_keys s s ≡ eq
unfolding compare_keys
compare_keys_refl [] = refl
compare_keys_refl (x ∷ xs) = ground (arith, compare_keys_refl xs)

compare_keys-of_eq : (s t : Str) → s ≡ t → compare_keys s t ≡ eq
compare_keys-of_eq s t h = rw h (compare_keys_refl t)

Ordering-cases : (o : Ordering) → (o ≡ lt) ⊎ ((o ≡ eq) ⊎ (o ≡ gt))
Ordering-cases lt = inl refl
Ordering-cases eq = inr (inl refl)
Ordering-cases gt = inr (inr refl)

abbrev pub Map {ℓ} : Type ℓ → Type ℓ
Map V = List (Str × V)

module _ {ℓ} {V : Type ℓ} where
  unfoldable pub get : Str → Map V → Option V
  get k [] = none
  get k ((j, v) ∷ m) = if k === j then some v else get k m

  unfoldable pub insert : Str → V → Map V → Map V
  unfolding compare_keys
  insert k v [] = (k, v) ∷ []
  insert k v ((j, w) ∷ m) = elim (compare_keys k j) [
    | lt ↦ (k, v) ∷ (j, w) ∷ m
    | eq ↦ (k, v) ∷ m
    | gt ↦ (j, w) ∷ insert k v m
  ]

  -- A map has a key once at most, so that all its entries go.
  unfoldable pub remove : Str → Map V → Map V
  remove k [] = []
  remove k ((j, w) ∷ m) = let rest = remove k m in if k === j then rest else (j, w) ∷ rest

  pub get-insert :
      (k j : Str) (v : V) (m : Map V) → get j (insert k v m) ≡ (if j === k then some v else get j m)
  unfolding get insert
  get-insert k j v [] = refl
  get-insert k j v ((i, w) ∷ m) = ground (
    arith,
    compare_keys-eq k i,
    compare_keys-of_eq k i,
    get-insert k j v m,
    ===_iff j k,
    ===_iff j i,
  )

  pub get-remove :
      (k j : Str) (m : Map V) → get j (remove k m) ≡ (if j === k then none else get j m)
  unfolding get remove
  get-remove k j [] = ground arith
  get-remove k j ((i, w) ∷ m) =
      ground (arith, get-remove k j m, ===_iff j k, ===_iff j i, ===_iff k i)

  -- No key stands twice.
  abbrev pub Distinct : Map V → Type ℓ
  Distinct [] = Unit
  Distinct ((j, w) ∷ m) = (get j m ≡ none) × Distinct m

  pub insert-Distinct :
      (k : Str) (v : V) (m : Map V) → get k m ≡ none → Distinct m → Distinct (insert k v m)
  unfolding get insert
  insert-Distinct k v [] h d = (refl, tt)
  insert-Distinct k v ((i, w) ∷ m) h d = elim (Ordering-cases (compare_keys k i)) [
    | inl below ↦ rw (below, insert) (h, d)
    | inr (inl same) ↦ rw (same, insert) (ground (arith, compare_keys-eq k i), d.1)
    | inr (inr above) ↦
        rw (above, insert)
          (
            get-insert k i v m ∙ ground (arith, ===_iff i k, ===_iff k i, d.0),
            insert-Distinct k v m (ground arith) d.1,
          )
  ]
