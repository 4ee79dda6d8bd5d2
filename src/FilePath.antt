-- ===== src/FilePath.antt =====
-- The operations of `std::path` that the program uses, as they are on Unix: a path is its bytes, and two
-- paths are equal when their components are. 47 is the separator and 46 the dot.
use skillmount.Prelude.{
  Bool, true, false, not, ◌&&◌, ◌||◌, List, [], ◌∷◌, ◌++◌, ◌≡◌, refl, ap, arith, ◌==◌,
  if◌then◌else◌, Option, none, some,
}
use mathlib.Core.List.{reverse}
use skillmount.Text.{Str, ◌===◌, ===_refl, ===→≡, split}

abbrev pub FilePath : Type 0
FilePath = Str

pub data Component : Type 0 where
  root_dir cur_dir parent_dir : Component
  normal : Str → Component

abbrev dot : Str
dot = 46 ∷ []

abbrev dot_dot : Str
dot_dot = 46 ∷ 46 ∷ []

abbrev is_blank : Str → Bool
is_blank [] = true
is_blank (c ∷ s) = false

-- A part between separators; an empty part or a dot is no component.
segment : Str → List Component → List Component
segment s rest =
    if is_blank s || s === dot
    then rest
    else if s === dot_dot
    then parent_dir ∷ rest
    else normal s ∷ rest

body : List Str → List Component
unfolding segment
body [] = []
body (s ∷ ss) = segment s (body ss)

-- A leading dot is kept.
from_parts : List Str → List Component
unfolding body
from_parts [] = []
from_parts (first ∷ rest) = if first === dot then cur_dir ∷ body rest else body (first ∷ rest)

-- `path.components()`.
unfoldable pub components : FilePath → List Component
unfolding body from_parts
components [] = []
components (c ∷ s) = if c == 47 then root_dir ∷ body (split 47 s) else from_parts (split 47 (c ∷ s))

abbrev pub component_eq : Component → Component → Bool
component_eq root_dir root_dir = true
component_eq cur_dir cur_dir = true
component_eq parent_dir parent_dir = true
component_eq (normal s) (normal t) = s === t
component_eq _ _ = false

-- `ps` is a beginning of `qs`.
unfoldable pub is_prefix : List Component → List Component → Bool
is_prefix [] qs = true
is_prefix (p ∷ ps) [] = false
is_prefix (p ∷ ps) (q ∷ qs) = component_eq p q && is_prefix ps qs

unfoldable pub components_eq : List Component → List Component → Bool
components_eq [] [] = true
components_eq [] (q ∷ qs) = false
components_eq (p ∷ ps) [] = false
components_eq (p ∷ ps) (q ∷ qs) = component_eq p q && components_eq ps qs

-- `p == q`.
unfoldable pub path_eq : FilePath → FilePath → Bool
unfolding components_eq components
path_eq p q = components_eq (components p) (components q)

-- `p.starts_with(q)`.
unfoldable pub starts_with : FilePath → FilePath → Bool
unfolding is_prefix components
starts_with p q = is_prefix (components q) (components p)

needs_separator : FilePath → Bool
needs_separator [] = false
needs_separator (c ∷ []) = not (c == 47)
needs_separator (c ∷ d ∷ s) = needs_separator (d ∷ s)

-- `p.join(q)`: an absolute `q` replaces `p`.
unfoldable pub join : FilePath → FilePath → FilePath
unfolding needs_separator
join p [] = if needs_separator p then p ++ 47 ∷ [] else p
join p (c ∷ q) =
    if c == 47 then c ∷ q else if needs_separator p then p ++ 47 ∷ c ∷ q else p ++ c ∷ q

-- An empty part or a dot is no component, but for the first part.
is_skipped : Str → List Str → Bool
is_skipped s [] = false
is_skipped s (before ∷ rest) = is_blank s || s === dot

-- The parts stand in reverse.
drop_skipped : List Str → List Str
unfolding is_skipped
drop_skipped [] = []
drop_skipped (s ∷ before) =
    let rest = drop_skipped before in if is_skipped s before then rest else s ∷ before

rejoin : List Str → Str
rejoin [] = []
rejoin (s ∷ []) = s
rejoin (s ∷ t ∷ before) = rejoin (t ∷ before) ++ 47 ∷ s

-- The root alone keeps its separator.
prefix_text : List Str → FilePath
unfolding rejoin
prefix_text ([] ∷ []) = 47 ∷ []
prefix_text parts = rejoin parts

parent_of : List Str → Option FilePath
unfolding drop_skipped prefix_text
parent_of [] = none
parent_of (s ∷ []) = if is_blank s then none else some []
parent_of (s ∷ t ∷ before) = some (prefix_text (drop_skipped (t ∷ before)))

-- `p.parent()`.
unfoldable pub parent : FilePath → Option FilePath
unfolding drop_skipped parent_of
parent p = parent_of (drop_skipped (reverse (split 47 p)))

drop_leading : List Str → List Str
drop_leading [] = []
drop_leading (s ∷ parts) =
    let rest = drop_leading parts in if is_blank s || s === dot then rest else s ∷ parts

-- `p.strip_prefix("/")` of an absolute path.
unfoldable pub strip_root : FilePath → FilePath
unfolding drop_leading drop_skipped rejoin
strip_root p = rejoin (drop_skipped (reverse (drop_leading (split 47 p))))

-- `p.is_absolute()`.
abbrev pub is_absolute : FilePath → Bool
is_absolute [] = false
is_absolute (c ∷ s) = c == 47

component_eq_refl : (c : Component) → component_eq c c ≡ true
component_eq_refl root_dir = refl
component_eq_refl cur_dir = refl
component_eq_refl parent_dir = refl
component_eq_refl (normal s) = ===_refl s

components_eq_refl : (cs : List Component) → components_eq cs cs ≡ true
unfolding components_eq
components_eq_refl [] = refl
components_eq_refl (c ∷ cs) = ground (arith, component_eq_refl c, components_eq_refl cs)

pub path_eq_refl : (p : FilePath) → path_eq p p ≡ true
path_eq_refl p = unfold path_eq in components_eq_refl (components p)

component_eq_sound : (c d : Component) → component_eq c d ≡ true → c ≡ d
component_eq_sound root_dir root_dir h = refl
component_eq_sound root_dir cur_dir h = ground arith
component_eq_sound root_dir parent_dir h = ground arith
component_eq_sound root_dir (normal t) h = ground arith
component_eq_sound cur_dir root_dir h = ground arith
component_eq_sound cur_dir cur_dir h = refl
component_eq_sound cur_dir parent_dir h = ground arith
component_eq_sound cur_dir (normal t) h = ground arith
component_eq_sound parent_dir root_dir h = ground arith
component_eq_sound parent_dir cur_dir h = ground arith
component_eq_sound parent_dir parent_dir h = refl
component_eq_sound parent_dir (normal t) h = ground arith
component_eq_sound (normal s) root_dir h = ground arith
component_eq_sound (normal s) cur_dir h = ground arith
component_eq_sound (normal s) parent_dir h = ground arith
component_eq_sound (normal s) (normal t) h = ap normal (===→≡ s t h)

components_eq_sound : (cs ds : List Component) → components_eq cs ds ≡ true → cs ≡ ds
unfolding components_eq
components_eq_sound [] [] h = refl
components_eq_sound [] (d ∷ ds) h = ground arith
components_eq_sound (c ∷ cs) [] h = ground arith
components_eq_sound (c ∷ cs) (d ∷ ds) h =
    let a : c ≡ d = component_eq_sound c d (ground arith) in
    let b : cs ≡ ds = components_eq_sound cs ds (ground arith) in ground arith

pub path_eq_sound : (p q : FilePath) → path_eq p q ≡ true → components p ≡ components q
unfolding path_eq
path_eq_sound p q h = components_eq_sound (components p) (components q) h

pub path_eq_complete : (p q : FilePath) → components p ≡ components q → path_eq p q ≡ true
unfolding path_eq
path_eq_complete p q e = rw e (components_eq_refl (components q))

-- Equal paths are alike in every comparison.
pub path_eq-same :
    (p q : FilePath) → components p ≡ components q → (r : FilePath) → path_eq r p ≡ path_eq r q
unfolding path_eq
path_eq-same p q e r = rw e refl
