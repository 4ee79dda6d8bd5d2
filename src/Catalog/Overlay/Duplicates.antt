-- ===== src/Catalog/Overlay/Duplicates.antt =====
-- src/catalog/resolve.rs: the error of `fold_sources`, a key that stands twice in a source.
use mathlib.Core.List.{Memᴰ}
use skillmount.Prelude.{
  ℕ, List, [], ◌∷◌, none, All, ok, err, Result-cases, Option-cases, ◌≡◌, ◌⊎◌, inl, inr, refl, ap,
  ◌∙◌, arith,
}
use skillmount.Text.{Str, ===_refl, ===_iff}
use skillmount.SortedMap.{Map, get, insert, get-insert}
use skillmount.Catalog.Overlay.{
  RawCandidate, DiscoveredSource, PendingResolution, DuplicateLogicalName, within_source, merge,
  fold_from,
}
use skillmount.Catalog.Overlay.Rightmost.{find_key}

-- No key stands twice among the candidates.
abbrev pub Unique : List RawCandidate → Type 0
Unique [] = Unit
Unique (c ∷ cs) = (find_key c.comparison_key cs ≡ none) × Unique cs

-- No key of the candidates is in the map.
abbrev Apart : Map RawCandidate → List RawCandidate → Type 0
Apart m cs = (k : Str) → (find_key k cs ≡ none) ⊎ (get k m ≡ none)

within_source-total :
    (n : ℕ) (m : Map RawCandidate) (cs : List RawCandidate)
    → Unique cs
    → Apart m cs
    → (w : Map RawCandidate) × (within_source n m cs ≡ ok w)
unfolding within_source find_key
within_source-total n m [] u a = (m, refl)
within_source-total n m (c ∷ cs) u a =
    let once : get c.comparison_key m ≡ none =
      ground (arith, a c.comparison_key, ===_refl c.comparison_key) in
    let (w, done) = within_source-total n (insert c.comparison_key c m) cs u.1 (λ k.
      ground (arith, a k, get-insert c.comparison_key k c m, ===_iff k c.comparison_key, u.0)) in
    (w, rw (once, within_source) done)

within_source-fresh :
    (n : ℕ) (cs : List RawCandidate)
    → Unique cs
    → (w : Map RawCandidate) × (within_source n [] cs ≡ ok w)
within_source-fresh n cs u = within_source-total n [] cs u (λ k. inr (unfold get in refl))

-- Sources without repeated keys have an overlay.
pub fold_from-total :
    (selected : Map PendingResolution) (sources : List DiscoveredSource)
    → All (λ (s : DiscoveredSource). Unique s.candidates) sources
    → (m : Map PendingResolution) × (fold_from selected sources ≡ ok m)
unfolding fold_from
fold_from-total selected [] u = (selected, refl)
fold_from-total selected (s ∷ ss) u =
    let (w, done) = within_source-fresh s.ordinal s.candidates u.0 in
    let (m, more) = fold_from-total (merge w selected) ss u.1 in (m, rw done more)

within_source-ordinal :
    (n : ℕ) (m : Map RawCandidate) (cs : List RawCandidate) {e : DuplicateLogicalName}
    → within_source n m cs ≡ err e
    → e.source_ordinal ≡ n
unfolding within_source
within_source-ordinal n m [] {e} h = cc
within_source-ordinal n m (c ∷ cs) {e} h = elim (Option-cases (get c.comparison_key m)) [
  | inr (first, twice) ↦ ground arith
  | inl once ↦ ground (arith, within_source-ordinal n (insert c.comparison_key c m) cs {e = e})
]

-- A failed overlay names the ordinal of a source in which a key stands twice.
pub fold_from-err :
    (selected : Map PendingResolution) (sources : List DiscoveredSource) {e : DuplicateLogicalName}
    → fold_from selected sources ≡ err e
    → (s : DiscoveredSource) × Memᴰ s sources
      × (e.source_ordinal ≡ s.ordinal)
      × (¬ Unique s.candidates)
unfolding fold_from
fold_from-err selected [] {e} h = cc
fold_from-err selected (s ∷ ss) {e} h =
    elim (Result-cases (within_source s.ordinal [] s.candidates)) [
      | inl (w, done) ↦
          let (t, member, at, twice) = fold_from-err (merge w selected) ss {e = e} (rw done at h) in
          (t, Memᴰ.tail member, at, twice)
      | inr (e', failed) ↦
          let same : e' ≡ e = ground arith in
          (
            s,
            Memᴰ.head refl,
            within_source-ordinal s.ordinal [] s.candidates {e = e} (failed ∙ ap err same),
            λ u. let (w, done) = within_source-fresh s.ordinal s.candidates u in cc,
          )
    ]
