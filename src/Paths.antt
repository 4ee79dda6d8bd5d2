-- ===== src/Paths.antt =====
-- src/paths.rs: a path without `.` and `..`, as far as its text decides, on Unix.
use skillmount.Prelude.{Bool, List, [], ◌∷◌}
use mathlib.Core.List.{reverse}
use skillmount.FilePath.{
  FilePath, Component, root_dir, cur_dir, parent_dir, normal, components, components_eq, is_prefix,
}

-- `PathBuf::pop` under the test for the root: the last component is taken off unless it is the root.
-- The components stand in reverse.
abbrev pop_parent : List Component → List Component
pop_parent [] = []
pop_parent (root_dir ∷ before) = root_dir ∷ before
pop_parent (cur_dir ∷ before) = before
pop_parent (parent_dir ∷ before) = before
pop_parent (normal s ∷ before) = before

-- `PathBuf::push`: the root replaces what stands before it.
unfoldable pub push_component : List Component → Component → List Component
push_component before cur_dir = before
push_component before parent_dir = pop_parent before
push_component before root_dir = root_dir ∷ []
push_component before (normal s) = normal s ∷ before

unfoldable pub normalize_from : List Component → List Component → List Component
unfolding push_component
normalize_from before [] = before
normalize_from before (c ∷ cs) = normalize_from (push_component before c) cs

-- The components of `lexical_normalize(path)`.
unfoldable pub lexical_normalize : FilePath → List Component
unfolding normalize_from
lexical_normalize path = reverse (normalize_from [] (components path))

-- `ComparablePath::names_same_path` and `targets_match` of src/link/resolve.rs, whose keys these are.
unfoldable pub same_key : FilePath → FilePath → Bool
same_key p q = components_eq (lexical_normalize p) (lexical_normalize q)

-- `p.key().starts_with(q.key())`.
unfoldable pub key_starts_with : FilePath → FilePath → Bool
key_starts_with p q = is_prefix (lexical_normalize q) (lexical_normalize p)
