-- ===== src/Tests/Overlay.antt =====
-- Two sources of src/catalog/resolve.rs that share a Skill.
use mathlib.Core.List.{Memᴰ}
use skillmount.Prelude.{ℕ, true, [], ◌∷◌, none, some, ok, err, ◌≡◌, refl}
use skillmount.Text.{Str, lit, split}
use skillmount.FilePath.{FilePath, path_eq, components}
use skillmount.SortedMap.{Map, get, insert, remove, compare_keys}
use skillmount.Catalog.Overlay.{
  RawCandidate, different_source_override, DiscoveredSource, PendingResolution,
  DuplicateLogicalName, within_source, replace, merge, fold_from,
}
use skillmount.Catalog.Overlay.Rightmost.{
  find_key, holders, described, fold_from-overlay, rightmost-selected,
}
use skillmount.Catalog.Aliases.{
  find_name, reject_from, reject_canonical_aliases, reject_canonical_aliases_unique,
}
use skillmount.Catalog.Overlay.Duplicates.{Unique, fold_from-total, fold_from-err}

abbrev candidate : Str → ℕ → FilePath → RawCandidate
candidate name n path = record {
  raw_name = name;
  comparison_key = name;
  origin = record { source_ordinal = n; source_entry = path; source_canonical = path };
  canonical_valid = true;
  input_canonical = path;
  skill_md = path;
}

abbrev left_a : RawCandidate
left_a = candidate (lit "a") 1 (lit "/one/a")

abbrev right_a : RawCandidate
right_a = candidate (lit "a") 2 (lit "/two/a")

abbrev left_source : DiscoveredSource
left_source = record { ordinal = 1; candidates = left_a ∷ [] }

abbrev right_source : DiscoveredSource
right_source = record { ordinal = 2; candidates = right_a ∷ [] }

abbrev twice_source : DiscoveredSource
twice_source = record { ordinal = 2; candidates = right_a ∷ right_a ∷ [] }

abbrev overlaid : PendingResolution
overlaid = record {
  selected = right_a;
  shadowed = record { origin = left_a.origin; reason = different_source_override } ∷ [];
}

abbrev duplicate : DuplicateLogicalName
duplicate = record { source_ordinal = 2; first = lit "/two/a"; second = lit "/two/a" }

folding : fold_from [] (left_source ∷ right_source ∷ []) ≡ ok ((lit "a", overlaid) ∷ [])
unfolding fold_from within_source merge replace get insert remove compare_keys path_eq split
folding = refl

folding_twice : fold_from [] (left_source ∷ twice_source ∷ []) ≡ err duplicate
unfolding fold_from within_source merge replace get insert remove compare_keys path_eq split
folding_twice = refl

found_right : find_key (lit "a") right_source.candidates ≡ some right_a
unfolding find_key
found_right = refl

nothing_right : (t : DiscoveredSource) → Memᴰ t [] → find_key (lit "a") t.candidates ≡ none
nothing_right t m = elim m [ ]

left_Unique : Unique left_source.candidates
unfolding find_key
left_Unique = (refl, tt)

right_Unique : Unique right_source.candidates
unfolding find_key
right_Unique = (refl, tt)

fold_from-overlay_example :
    get (lit "a") ((lit "a", overlaid) ∷ [])
    ≡ described (holders (lit "a") (left_source ∷ right_source ∷ []))
fold_from-overlay_example = fold_from-overlay (lit "a") (left_source ∷ right_source ∷ []) folding

rightmost-selected_example :
    (p : PendingResolution) × (get (lit "a") ((lit "a", overlaid) ∷ []) ≡ some p)
    × (p.selected ≡ right_a)
rightmost-selected_example =
    rightmost-selected (lit "a") (left_source ∷ []) [] right_source folding found_right
      nothing_right

fold_from-total_example :
    (m : Map PendingResolution) × (fold_from [] (left_source ∷ right_source ∷ []) ≡ ok m)
fold_from-total_example =
    fold_from-total [] (left_source ∷ right_source ∷ []) (left_Unique, (right_Unique, tt))

fold_from-err_example :
    (s : DiscoveredSource) × Memᴰ s (left_source ∷ twice_source ∷ [])
    × (2 ≡ s.ordinal)
    × (¬ Unique s.candidates)
fold_from-err_example = fold_from-err [] (left_source ∷ twice_source ∷ []) folding_twice

-- The same directory, spelled with a separator at its end.
abbrev again_a : RawCandidate
again_a = candidate (lit "a") 3 (lit "/two/a/")

abbrev again : PendingResolution
again = record { selected = again_a; shadowed = [] }

no_aliases : reject_canonical_aliases (overlaid ∷ again ∷ []) ≡ ok tt
unfolding reject_canonical_aliases reject_from find_name path_eq split
no_aliases = refl

one_directory : components (lit "/two/a") ≡ components (lit "/two/a/")
unfolding components split
one_directory = refl

reject_canonical_aliases_unique_example : right_a.raw_name ≡ again_a.raw_name
reject_canonical_aliases_unique_example =
    reject_canonical_aliases_unique {p = overlaid} {q = again} no_aliases (Memᴰ.head refl)
      (Memᴰ.tail (Memᴰ.head refl)) refl refl one_directory
