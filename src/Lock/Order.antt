-- ===== src/Lock/Order.antt =====
-- src/lock/mod.rs, `ordering_key`, and the sorting and deduplication of `lock_resources` of src/journal/mod.rs.
use skillmount.Prelude.{
  ℕ, ◌==◌, ltb, Bool, true, false, not, ◌&&◌, ◌||◌, any, List, [], ◌∷◌, Option, none, some,
  if◌then◌else◌, ◌≡◌, arith,
}
use skillmount.Text.{Str, ◌===◌}
use skillmount.FilePath.{Component, root_dir, cur_dir, parent_dir, normal, components, path_eq}
use skillmount.Journal.Status.{
  LockResourceKind, discovery_entry, backing_store, LockAccess, observe, mutate, same_resource,
}
use skillmount.Lock.{LockResource, logical_path}

-- The order of `PathBuf`: by components, and these by their kind and then their bytes.
unfoldable pub less_text : Str → Str → Bool
less_text s [] = false
less_text [] (d ∷ t) = true
less_text (c ∷ s) (d ∷ t) = let rest = less_text s t in if c == d then rest else ltb c d

abbrev rank : Component → ℕ
rank root_dir = 0
rank cur_dir = 1
rank parent_dir = 2
rank (normal s) = 3

abbrev less_component : Component → Component → Bool
less_component (normal s) (normal t) = less_text s t
less_component c d = ltb (rank c) (rank d)

unfoldable pub less_components : List Component → List Component → Bool
less_components cs [] = false
less_components [] (d ∷ ds) = true
less_components (c ∷ cs) (d ∷ ds) =
    let rest = less_components cs ds in less_component c d || (not (less_component d c) && rest)

abbrev less_kind : LockResourceKind → LockResourceKind → Bool
less_kind discovery_entry backing_store = true
less_kind _ _ = false

-- The comparison of the keys of `ordering_key`.
unfoldable pub sorts_before : LockResource → LockResource → Bool
sorts_before r s =
    let p = logical_path r.identity in
    let q = logical_path s.identity in
    less_components (components p) (components q) || (path_eq p q && less_kind r.kind s.kind)

abbrev same_access : LockAccess → LockAccess → Bool
same_access observe observe = true
same_access mutate mutate = true
same_access _ _ = false

abbrev same_physical : Option Str → Option Str → Bool
same_physical none none = true
same_physical (some i) (some k) = i === k
same_physical _ _ = false

unfoldable pub same_lock : LockResource → LockResource → Bool
same_lock r s =
    same_resource r.kind s.kind
    && (same_access r.access s.access
        && (path_eq r.path s.path
            && (path_eq r.identity.anchor s.identity.anchor
                && (path_eq r.identity.suffix s.identity.suffix
                    && same_physical r.identity.physical s.identity.physical))))

-- A resource goes before those that do not sort before it, so that the sorting is stable.
unfoldable pub insert_resource : LockResource → List LockResource → List LockResource
insert_resource r [] = r ∷ []
insert_resource r (s ∷ rest) =
    let later = insert_resource r rest in if sorts_before s r then s ∷ later else r ∷ s ∷ rest

unfoldable pub sort_resources : List LockResource → List LockResource
sort_resources [] = []
sort_resources (r ∷ rest) = insert_resource r (sort_resources rest)

-- `dedup`: `last` is the resource that was kept last.
unfoldable pub dedup_after : LockResource → List LockResource → List LockResource
dedup_after last [] = []
dedup_after last (r ∷ rest) =
    let skipped = dedup_after last rest in
    let kept = dedup_after r rest in if same_lock r last then skipped else r ∷ kept

unfoldable pub dedup : List LockResource → List LockResource
dedup [] = []
dedup (r ∷ rest) = r ∷ dedup_after r rest

-- A test that some resource of the sorted list without repetitions passes is passed by one of the list.
module _ (p : LockResource → Bool) where
  any-insert_resource :
      (r : LockResource) (rs : List LockResource)
      → any p (insert_resource r rs) ≡ true
      → (p r || any p rs) ≡ true
  unfolding insert_resource
  any-insert_resource r [] h = ground arith
  any-insert_resource r (s ∷ rest) h = ground (arith, any-insert_resource r rest)

  any-sort_resources : (rs : List LockResource) → any p (sort_resources rs) ≡ true → any p rs ≡ true
  unfolding sort_resources
  any-sort_resources [] h = h
  any-sort_resources (r ∷ rest) h =
      ground (arith, any-insert_resource r (sort_resources rest) h, any-sort_resources rest)

  any-dedup_after :
      (last : LockResource) (rs : List LockResource)
      → any p (dedup_after last rs) ≡ true
      → any p rs ≡ true
  unfolding dedup_after
  any-dedup_after last [] h = h
  any-dedup_after last (r ∷ rest) h =
      ground (arith, any-dedup_after last rest, any-dedup_after r rest)

  any-dedup : (rs : List LockResource) → any p (dedup rs) ≡ true → any p rs ≡ true
  unfolding dedup
  any-dedup [] h = h
  any-dedup (r ∷ rest) h = ground (arith, any-dedup_after r rest)

  pub any-dedup_sort :
      (rs : List LockResource) → any p (dedup (sort_resources rs)) ≡ true → any p rs ≡ true
  any-dedup_sort rs h = any-sort_resources rs (any-dedup (sort_resources rs) h)
