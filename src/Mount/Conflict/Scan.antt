-- ===== src/Mount/Conflict/Scan.antt =====
-- src/mount/plan.rs: the scan over the entries of one name, and a description of it without an order.
use mathlib.Core.List.{Memᴰ, Permᴰ}
use skillmount.Prelude.{
  Bool, true, false, List, [], ◌∷◌, Option, none, some, any, if◌then◌else◌, ◌≡◌, ◌⊎◌, inl, inr,
  refl, sym, subst, subst, ◌∙◌, arith,
}
use skillmount.Mount.Conflict.{
  Occupancy, same_source, different_source, project_directory, unsupported, or_else, scan,
  most_restrictive_of,
}

pub data Standing : Type 0 where
  same foreign blocked : Standing

abbrev pub standing : Occupancy → Standing
standing same_source = same
standing different_source = foreign
standing project_directory = foreign
standing unsupported = blocked

abbrev pub is_blocked : Standing → Bool
is_blocked blocked = true
is_blocked _ = false

abbrev pub is_foreign : Standing → Bool
is_foreign foreign = true
is_foreign _ = false

abbrev pub is_nonempty {ℓ} : {A : Type ℓ} → List A → Bool
is_nonempty [] = false
is_nonempty (x ∷ xs) = true

abbrev pub standing_of {ℓ} : {A : Type ℓ} → Option (A × Occupancy) → Option Standing
standing_of none = none
standing_of (some (x, o)) = some (standing o)

Occupancy-cases :
    (o : Occupancy)
    → (o ≡ same_source) ⊎ ((o ≡ unsupported) ⊎ ((o ≡ different_source) ⊎ (o ≡ project_directory)))
Occupancy-cases same_source = inl refl
Occupancy-cases unsupported = inr (inl refl)
Occupancy-cases different_source = inr (inr (inl refl))
Occupancy-cases project_directory = inr (inr (inr refl))

any-perm {ℓ} : {A : Type ℓ} (p : A → Bool) {xs ys : List A} → Permᴰ xs ys → any p xs ≡ any p ys
any-perm p Permᴰ.nil = refl
any-perm p (Permᴰ.cons e h) = rw (e, any-perm p h)
any-perm p (Permᴰ.swap e f) = rw (e, f) (ground arith)
any-perm p (Permᴰ.trans h k) = any-perm p h ∙ any-perm p k

is_nonempty-perm {ℓ} : {A : Type ℓ} {xs ys : List A} → Permᴰ xs ys → is_nonempty xs ≡ is_nonempty ys
is_nonempty-perm Permᴰ.nil = refl
is_nonempty-perm (Permᴰ.cons e h) = refl
is_nonempty-perm (Permᴰ.swap e f) = refl
is_nonempty-perm (Permᴰ.trans h k) = is_nonempty-perm h ∙ is_nonempty-perm k

module _ {ℓ} {A : Type ℓ} (classify : A → Occupancy) where
  -- Blocked by any unsupported entry, else foreign by any other entry of another source, else same if there
  -- is an entry at all.
  unfoldable pub verdict : List A → Option Standing
  verdict xs =
      if any (λ x. is_blocked (standing (classify x))) xs
      then some blocked
      else if any (λ x. is_foreign (standing (classify x))) xs
      then some foreign
      else if is_nonempty xs
      then some same
      else none

  pending : Option (A × Occupancy) → Option (A × Occupancy) → List A → Option Standing
  pending matching skippable xs =
      if any (λ x. is_blocked (standing (classify x))) xs
      then some blocked
      else if any (λ x. is_foreign (standing (classify x))) xs
      then some foreign
      else elim skippable [
        | some s ↦ some foreign
        | none ↦ elim matching [
          | some m ↦ some same
          | none ↦ if is_nonempty xs then some same else none
        ]
      ]

  abbrev Fits : Standing → Option (A × Occupancy) → Type 0
  Fits s none = Unit
  Fits s (some (x, o)) = standing o ≡ s

  scan-pending :
      (m s : Option (A × Occupancy)) (xs : List A)
      → Fits same m
      → Fits foreign s
      → standing_of (scan classify m s xs) ≡ pending m s xs
  unfolding scan pending
  scan-pending m s [] hm hs = ground arith
  scan-pending m s (x ∷ xs) hm hs = ground (
    arith,
    scan-pending (or_else m (some (x, same_source))) s xs,
    scan-pending m (or_else s (some (x, different_source))) xs,
    scan-pending m (or_else s (some (x, project_directory))) xs,
  )

  -- The scan finds an entry of the standing that the description gives.
  pub most_restrictive_of-verdict :
      (xs : List A) → standing_of (most_restrictive_of classify xs) ≡ verdict xs
  most_restrictive_of-verdict xs =
      unfold most_restrictive_of pending verdict in scan-pending none none xs tt tt

  abbrev pub Found : List A → Option (A × Occupancy) → Type ℓ
  Found xs none = Unit
  Found xs (some (x, o)) = Memᴰ x xs × (classify x ≡ o)

  or_else-Found :
      (whole : List A) (a b : Option (A × Occupancy))
      → Found whole a
      → Found whole b
      → Found whole (or_else a b)
  or_else-Found whole none b ha hb = hb
  or_else-Found whole (some x) b ha hb = ha

  scan-Found :
      (whole : List A) (m s : Option (A × Occupancy)) (xs : List A)
      → ((x : A) → Memᴰ x xs → Memᴰ x whole)
      → Found whole m
      → Found whole s
      → Found whole (scan classify m s xs)
  unfolding scan
  scan-Found whole m s [] inside hm hs = or_else-Found whole s m hs hm
  scan-Found whole m s (x ∷ xs) inside hm hs =
      let here = inside x (Memᴰ.head refl) in
      let rest = λ (y : A) (h : Memᴰ y xs). inside y (Memᴰ.tail h) in
      elim (Occupancy-cases (classify x)) [
        | inl e ↦
            rw (e, scan)
              (scan-Found whole (or_else m (some (x, same_source))) s xs rest
                (or_else-Found whole m (some (x, same_source)) hm (here, e)) hs)
        | inr (inl e) ↦ rw (e, scan) (here, e)
        | inr (inr (inl e)) ↦
            rw (e, scan)
              (scan-Found whole m (or_else s (some (x, different_source))) xs rest hm
                (or_else-Found whole s (some (x, different_source)) hs (here, e)))
        | inr (inr (inr e)) ↦
            rw (e, scan)
              (scan-Found whole m (or_else s (some (x, project_directory))) xs rest hm
                (or_else-Found whole s (some (x, project_directory)) hs (here, e)))
      ]

  -- What the scan returns is an entry of the list, with its own occupancy.
  pub most_restrictive_of-Found : (xs : List A) → Found xs (most_restrictive_of classify xs)
  most_restrictive_of-Found xs =
      unfold most_restrictive_of in scan-Found xs none none xs (λ x h. h) tt tt

  pub most_restrictive_of-some :
      (xs : List A) {x : A} {o : Occupancy}
      → most_restrictive_of classify xs ≡ some (x, o)
      → Memᴰ x xs × (classify x ≡ o)
  most_restrictive_of-some xs h = subst (Found xs) h (most_restrictive_of-Found xs)

  -- The standing of a name does not depend on the order in which its entries were observed.
  pub most_restrictive_of-perm :
      {xs ys : List A}
      → Permᴰ xs ys
      → standing_of (most_restrictive_of classify xs)
        ≡ standing_of (most_restrictive_of classify ys)
  unfolding verdict
  most_restrictive_of-perm {xs} {ys} h =
      let a = any-perm (λ x. is_blocked (standing (classify x))) h in
      let b = any-perm (λ x. is_foreign (standing (classify x))) h in
      let c = is_nonempty-perm h in
      most_restrictive_of-verdict xs ∙ rw (a, b, c) (sym (most_restrictive_of-verdict ys))
