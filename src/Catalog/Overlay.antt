-- ===== src/Catalog/Overlay.antt =====
-- src/catalog/resolve.rs, `fold_sources`: the sources are folded from left to right, one candidate for each
-- logical name.
pub mod Rightmost
pub mod Duplicates
use skillmount.Prelude.{
  ℕ, Bool, true, false, ◌&&◌, List, [], ◌∷◌, ◌++◌, map, Option, none, some, Result, ok, err, ◌>>=◌,
  if◌then◌else◌,
}
use skillmount.Text.{Str}
use skillmount.FilePath.{FilePath, path_eq}
use skillmount.SortedMap
use skillmount.SortedMap.{Map}

pub record SkillOrigin : Type 0 where
  pub source_ordinal : ℕ
  pub source_entry : FilePath
  pub source_canonical : FilePath

pub record RawCandidate : Type 0 where
  pub raw_name : Str
  pub comparison_key : Str
  pub origin : SkillOrigin
  pub canonical_valid : Bool
  pub input_canonical : FilePath
  pub skill_md : FilePath

pub data ShadowReason : Type 0 where
  different_source_override repeated_canonical_source : ShadowReason

pub record ShadowedSkill : Type 0 where
  pub origin : SkillOrigin
  pub reason : ShadowReason

-- Of the source, its ordinal.
pub record DiscoveredSource : Type 0 where
  pub ordinal : ℕ
  pub candidates : List RawCandidate

pub record PendingResolution : Type 0 where
  pub selected : RawCandidate
  pub shadowed : List ShadowedSkill

-- `CatalogError::DuplicateLogicalName`.
pub record DuplicateLogicalName : Type 0 where
  pub source_ordinal : ℕ
  pub first : FilePath
  pub second : FilePath

unfoldable pub shadow_reason : RawCandidate → RawCandidate → ShadowReason
shadow_reason previous replacement =
    if previous.canonical_valid
      && (replacement.canonical_valid
          && path_eq (previous.origin).source_canonical (replacement.origin).source_canonical)
    then repeated_canonical_source
    else different_source_override

-- The candidates of one source by their keys; a key that stands twice is an error.
unfoldable pub within_source :
    ℕ → Map RawCandidate → List RawCandidate → Result DuplicateLogicalName (Map RawCandidate)
within_source ordinal m [] = ok m
within_source ordinal m (c ∷ cs) = elim (SortedMap.get c.comparison_key m) [
  | some first ↦ err (record {
    source_ordinal = ordinal;
    first = (first.origin).source_entry;
    second = (c.origin).source_entry;
  })
  | none ↦ within_source ordinal (SortedMap.insert c.comparison_key c m) cs
]

-- What the candidate becomes over the resolution that was pending under its key.
unfoldable pub replace : Option PendingResolution → RawCandidate → PendingResolution
unfolding shadow_reason
replace none c = record { selected = c; shadowed = [] }
replace (some previous) c = record {
  selected = c;
  shadowed =
      previous.shadowed
      ++ record { origin = (previous.selected).origin; reason = shadow_reason previous.selected c }
        ∷ [];
}

unfoldable pub merge : Map RawCandidate → Map PendingResolution → Map PendingResolution
merge [] selected = selected
merge ((key, c) ∷ rest) selected =
    merge rest (
      SortedMap.insert key (replace (SortedMap.get key selected) c) (SortedMap.remove key selected))

unfoldable pub fold_from :
    Map PendingResolution
    → List DiscoveredSource
    → Result DuplicateLogicalName (Map PendingResolution)
fold_from selected [] = ok selected
fold_from selected (source ∷ rest) = within_source source.ordinal [] source.candidates >>= λ within.
    fold_from (merge within selected) rest

values : Map PendingResolution → List PendingResolution
values [] = []
values ((key, p) ∷ m) = p ∷ values m

unfoldable pub fold_sources :
    List DiscoveredSource → Result DuplicateLogicalName (List PendingResolution)
unfolding fold_from values
fold_sources sources = fold_from [] sources >>= λ selected. ok (values selected)
