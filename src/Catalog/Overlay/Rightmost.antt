-- ===== src/Catalog/Overlay/Rightmost.antt =====
-- src/catalog/resolve.rs: the resolution that `fold_sources` leaves for a key, and a description of it.
use mathlib.Core.List.{Memᴰ, append-nil, append_assoc}
use skillmount.Prelude.{
  ℕ, List, [], ◌∷◌, ◌++◌, Option, none, some, ok, >>=-eq-ok, Option-cases, if◌then◌else◌, ◌≡◌, inl,
  inr, refl, subst, ap, ◌∙◌, arith,
}
use skillmount.Text.{Str, ◌===◌, ===_iff}
use skillmount.SortedMap.{
  Map, get, insert, remove, get-insert, get-remove, Distinct, insert-Distinct,
}
use skillmount.Catalog.Overlay.{
  RawCandidate, DiscoveredSource, PendingResolution, ShadowedSkill, shadow_reason, within_source,
  replace, merge, fold_from,
}

-- The first candidate of a source under a key.
unfoldable pub find_key : Str → List RawCandidate → Option RawCandidate
find_key k [] = none
find_key k (c ∷ cs) = if k === c.comparison_key then some c else find_key k cs

over : Option PendingResolution → Option RawCandidate → Option PendingResolution
over p none = p
over p (some c) = some (replace p c)

-- The fold, one name at a time.
overlay_of : Str → Option PendingResolution → List DiscoveredSource → Option PendingResolution
unfolding find_key over
overlay_of k p [] = p
overlay_of k p (s ∷ ss) = overlay_of k (over p (find_key k s.candidates)) ss

replace-selected : (p : Option PendingResolution) (c : RawCandidate) → (replace p c).selected ≡ c
unfolding replace
replace-selected none c = refl
replace-selected (some p) c = refl

within_source-get :
    (k : Str) (n : ℕ) (m : Map RawCandidate) (cs : List RawCandidate) {w : Map RawCandidate}
    → within_source n m cs ≡ ok w
    → get k w ≡ (elim (get k m) [ none ↦ find_key k cs | some c ↦ some c ])
unfolding within_source find_key
within_source-get k n m [] {w} h = ground arith
within_source-get k n m (c ∷ cs) {w} h = elim (Option-cases (get c.comparison_key m)) [
  | inr (first, twice) ↦ ground arith
  | inl once ↦ ground (
    arith,
    within_source-get k n (insert c.comparison_key c m) cs {w = w},
    get-insert c.comparison_key k c m,
    ===_iff k c.comparison_key,
  )
]

within_source-Distinct :
    (n : ℕ) (m : Map RawCandidate) (cs : List RawCandidate) {w : Map RawCandidate}
    → Distinct m
    → within_source n m cs ≡ ok w
    → Distinct w
unfolding within_source
within_source-Distinct n m [] {w} d h = let e : m ≡ w = ground arith in subst Distinct e d
within_source-Distinct n m (c ∷ cs) {w} d h = elim (Option-cases (get c.comparison_key m)) [
  | inr (first, twice) ↦ ground arith
  | inl once ↦
      within_source-Distinct n (insert c.comparison_key c m) cs {w = w}
        (insert-Distinct c.comparison_key c m once d) (ground arith)
]

merge-get :
    (k : Str) (w : Map RawCandidate) (selected : Map PendingResolution)
    → Distinct w
    → get k (merge w selected) ≡ over (get k selected) (get k w)
unfolding merge over get
merge-get k [] selected d = refl
merge-get k ((j, c) ∷ w) selected d =
    let pending = replace (get j selected) c in
    ground (
      arith,
      merge-get k w (insert j pending (remove j selected)) d.1,
      get-insert j k pending (remove j selected),
      get-remove j k selected,
      ===_iff k j,
      d.0,
    )

fold_from-get :
    (k : Str) (selected : Map PendingResolution) (sources : List DiscoveredSource)
    {m : Map PendingResolution}
    → fold_from selected sources ≡ ok m
    → get k m ≡ overlay_of k (get k selected) sources
unfolding fold_from overlay_of get
fold_from-get k selected [] {m} h = ground arith
fold_from-get k selected (s ∷ ss) {m} h =
    let (within, done, more) =
      >>=-eq-ok (within_source s.ordinal [] s.candidates) (λ w. fold_from (merge w selected) ss)
        h in
    let unique = within_source-Distinct s.ordinal [] s.candidates {w = within} tt done in
    fold_from-get k (merge within selected) ss {m = m} more
    ∙ ap (λ (p : Option PendingResolution). overlay_of k p ss)
        (merge-get k within selected unique
          ∙ ap (over (get k selected))
              (within_source-get k s.ordinal [] s.candidates {w = within} done))

abbrev prepend : Option RawCandidate → List RawCandidate → List RawCandidate
prepend none cs = cs
prepend (some c) cs = c ∷ cs

-- The candidates under a key, from the leftmost source to the rightmost.
unfoldable pub holders : Str → List DiscoveredSource → List RawCandidate
unfolding find_key
holders k [] = []
holders k (s ∷ ss) = prepend (find_key k s.candidates) (holders k ss)

abbrev last_of : RawCandidate → List RawCandidate → RawCandidate
last_of c [] = c
last_of c (d ∷ ds) = last_of d ds

-- Each candidate but the last, with the reason for which the next one shadows it.
abbrev shadows : RawCandidate → List RawCandidate → List ShadowedSkill
shadows c [] = []
shadows c (d ∷ ds) = record { origin = c.origin; reason = shadow_reason c d } ∷ shadows d ds

-- The description of a resolution: the last candidate is selected and the others are shadowed, in order.
abbrev pub described : List RawCandidate → Option PendingResolution
described [] = none
described (c ∷ cs) = some (record { selected = last_of c cs; shadowed = shadows c cs })

overlay_of-pending :
    (k : Str) (c : RawCandidate) (before : List ShadowedSkill) (ss : List DiscoveredSource)
    → overlay_of k (some (record { selected = c; shadowed = before })) ss
      ≡ some (record {
        selected = last_of c (holders k ss);
        shadowed = before ++ shadows c (holders k ss);
      })
unfolding overlay_of holders over replace
overlay_of-pending k c before [] = rw append-nil refl
overlay_of-pending k c before (s ∷ ss) = elim (Option-cases (find_key k s.candidates)) [
  | inl absent ↦ rw (absent, holders) (overlay_of-pending k c before ss)
  | inr (d, present) ↦
      rw (present, holders)
        (overlay_of-pending k d
            (before ++ record { origin = c.origin; reason = shadow_reason c d } ∷ []) ss
          ∙ rw append_assoc refl)
]

overlay_of-described :
    (k : Str) (ss : List DiscoveredSource) → overlay_of k none ss ≡ described (holders k ss)
unfolding overlay_of holders over replace
overlay_of-described k [] = refl
overlay_of-described k (s ∷ ss) = elim (Option-cases (find_key k s.candidates)) [
  | inl absent ↦ rw (absent, holders) (overlay_of-described k ss)
  | inr (d, present) ↦ rw (present, holders) (overlay_of-pending k d [] ss)
]

-- Under every name the fold leaves the candidate of the rightmost source that has the name, with the
-- candidates of the sources before it as shadowed, in order, each with the reason that the next one gives.
pub fold_from-overlay :
    (k : Str) (sources : List DiscoveredSource) {m : Map PendingResolution}
    → fold_from [] sources ≡ ok m
    → get k m ≡ described (holders k sources)
unfolding get
fold_from-overlay k sources {m} h =
    fold_from-get k [] sources {m = m} h ∙ overlay_of-described k sources

overlay_of-absent :
    (k : Str) (p : Option PendingResolution) (ss : List DiscoveredSource)
    → ((s : DiscoveredSource) → Memᴰ s ss → find_key k s.candidates ≡ none)
    → overlay_of k p ss ≡ p
unfolding overlay_of
overlay_of-absent k p [] h = refl
overlay_of-absent k p (s ∷ ss) h =
    rw (h s (Memᴰ.head refl)) (overlay_of-absent k p ss (λ t m. h t (Memᴰ.tail m)))

overlay_of-append :
    (k : Str) (p : Option PendingResolution) (ss ts : List DiscoveredSource)
    → overlay_of k p (ss ++ ts) ≡ overlay_of k (overlay_of k p ss) ts
unfolding overlay_of
overlay_of-append k p [] ts = refl
overlay_of-append k p (s ∷ ss) ts = overlay_of-append k (over p (find_key k s.candidates)) ss ts

-- If no source to the right of `s` has the name, the candidate of `s` is selected.
pub rightmost-selected :
    (k : Str) (left right : List DiscoveredSource) (s : DiscoveredSource) {c : RawCandidate}
    {m : Map PendingResolution}
    → fold_from [] (left ++ s ∷ right) ≡ ok m
    → find_key k s.candidates ≡ some c
    → ((t : DiscoveredSource) → Memᴰ t right → find_key k t.candidates ≡ none)
    → (p : PendingResolution) × (get k m ≡ some p) × (p.selected ≡ c)
unfolding get
rightmost-selected k left right s {c} {m} h found absent = (
  replace (overlay_of k none left) c,
  fold_from-get k [] (left ++ s ∷ right) {m = m} h
      ∙ overlay_of-append k none left (s ∷ right)
      ∙ unfold overlay_of in rw found (overlay_of-absent k _ right absent),
  replace-selected (overlay_of k none left) c,
)
