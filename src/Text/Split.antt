-- ===== src/Text/Split.antt =====
-- Splitting a text: `split`, `split_once`, `split_inclusive`, `strip_suffix` and `lines` of `str`.
use skillmount.Prelude.{
  ℕ, Bool, true, not, List, [], ◌∷◌, ◌++◌, map, ◌≡◌, refl, ap, arith, ◌==◌, if◌then◌else◌, all,
  Option, none, some,
}

-- No byte of the text is `c`.
abbrev pub free : ℕ → List ℕ → Bool
free c = all (λ x. not (x == c))

-- `c` goes before the first part.
cons_first : ℕ → List (List ℕ) → List (List ℕ)
cons_first c [] = (c ∷ []) ∷ []
cons_first c (p ∷ ps) = (c ∷ p) ∷ ps

-- `s.split(c)`: always at least one part.
unfoldable pub split : ℕ → List ℕ → List (List ℕ)
unfolding cons_first
split c [] = [] ∷ []
split c (x ∷ r) = let rest = split c r in if x == c then [] ∷ rest else cons_first x rest

pub split-free : (c : ℕ) (s : List ℕ) → free c s ≡ true → split c s ≡ s ∷ []
unfolding split
split-free c [] h = refl
split-free c (x ∷ s) h = ground (arith, split-free c s)

pub split-append : (c : ℕ) (s t : List ℕ) → free c s ≡ true → split c (s ++ c ∷ t) ≡ s ∷ split c t
unfolding split
split-append c [] t h = ground arith
split-append c (x ∷ s) t h = ground (arith, split-append c s t)

put_first : ℕ → Option (List ℕ × List ℕ) → Option (List ℕ × List ℕ)
put_first x none = none
put_first x (some (a, b)) = some (x ∷ a, b)

-- `s.split_once(c)`.
unfoldable pub split_once : ℕ → List ℕ → Option (List ℕ × List ℕ)
unfolding put_first
split_once c [] = none
split_once c (x ∷ r) =
    let rest = split_once c r in if x == c then some ([], r) else put_first x rest

pub split_once-append :
    (c : ℕ) (s t : List ℕ) → free c s ≡ true → split_once c (s ++ c ∷ t) ≡ some (s, t)
unfolding split_once
split_once-append c [] t h = ground arith
split_once-append c (x ∷ s) t h = ground (arith, split_once-append c s t)

-- `s.split_inclusive(c)`: each part but the last ends with `c`, and there is no empty part.
unfoldable pub split_inclusive : ℕ → List ℕ → List (List ℕ)
unfolding cons_first
split_inclusive c [] = []
split_inclusive c (x ∷ r) =
    let rest = split_inclusive c r in if x == c then (c ∷ []) ∷ rest else cons_first x rest

pub split_inclusive-append :
    (c : ℕ) (s t : List ℕ)
    → free c s ≡ true
    → split_inclusive c (s ++ c ∷ t) ≡ (s ++ c ∷ []) ∷ split_inclusive c t
unfolding split_inclusive
split_inclusive-append c [] t h = ground arith
split_inclusive-append c (x ∷ s) t h = ground (arith, split_inclusive-append c s t)

-- `s.strip_suffix(c)`, for one byte.
unfoldable pub strip_suffix : ℕ → List ℕ → Option (List ℕ)
strip_suffix c [] = none
strip_suffix c (x ∷ []) = if x == c then some [] else none
strip_suffix c (x ∷ y ∷ r) = elim (strip_suffix c (y ∷ r)) [ none ↦ none | some s ↦ some (x ∷ s) ]

pub strip_suffix-append : (c : ℕ) (s : List ℕ) → strip_suffix c (s ++ c ∷ []) ≡ some s
unfolding strip_suffix
strip_suffix-append c [] = ground arith
strip_suffix-append c (x ∷ []) = ground arith
strip_suffix-append c (x ∷ y ∷ s) = ground (arith, strip_suffix-append c (y ∷ s))

pub strip_suffix-free : (c : ℕ) (s : List ℕ) → free c s ≡ true → strip_suffix c s ≡ none
unfolding strip_suffix
strip_suffix-free c [] h = refl
strip_suffix-free c (x ∷ []) h = ground arith
strip_suffix-free c (x ∷ y ∷ s) h = ground (arith, strip_suffix-free c (y ∷ s))

-- What `lines` does with a part: a line feed goes, and a carriage return before it.
line_of : List ℕ → List ℕ
line_of part = elim (strip_suffix 10 part) [
  | none ↦ part
  | some s ↦ elim (strip_suffix 13 s) [ none ↦ s | some t ↦ t ]
]

-- `s.lines()`.
unfoldable pub lines : List ℕ → List (List ℕ)
unfolding line_of strip_suffix split_inclusive
lines s = map line_of (split_inclusive 10 s)

line_of-append : (s : List ℕ) → free 13 s ≡ true → line_of (s ++ 10 ∷ []) ≡ s
unfolding line_of
line_of-append s h = ground (arith, strip_suffix-append 10 s, strip_suffix-free 13 s)

pub lines-append :
    (s t : List ℕ) → free 10 s ≡ true → free 13 s ≡ true → lines (s ++ 10 ∷ t) ≡ s ∷ lines t
unfolding lines
lines-append s t h k =
    let e : map line_of (split_inclusive 10 (s ++ 10 ∷ t))
        ≡ map line_of ((s ++ 10 ∷ []) ∷ split_inclusive 10 t) =
      ap (map line_of) (split_inclusive-append 10 s t h) in
    ground (arith, e, line_of-append s k)
