-- ===== src/Domain/SkillName.antt =====
-- src/domain.rs: the portable name of a Skill and the key under which names are compared, on Unix.
use skillmount.Prelude.{
  ℕ, ◌+◌, Bool, true, false, not, ◌&&◌, ◌||◌, [], ◌∷◌, map, Result, ok, ◌>>◌, guard, length, all,
  all-imp, ltb, leb, ◌==◌, if◌then◌else◌, ◌≡◌, refl, arith,
}
use skillmount.Text.{Str, utf8_valid, free, split-free}
use skillmount.FilePath.{components, normal}

pub data SkillNameError : Type 0 where
  non_utf8 empty too_long invalid_character boundary_hyphen consecutive_hyphens : SkillNameError

abbrev is_empty : Str → Bool
is_empty [] = true
is_empty (c ∷ s) = false

-- 45 is the hyphen.
is_allowed : ℕ → Bool
is_allowed byte =
    (leb b'a' byte && leb byte b'z') || ((leb b'0' byte && leb byte b'9') || byte == 45)

starts_with_hyphen : Str → Bool
starts_with_hyphen [] = false
starts_with_hyphen (c ∷ s) = c == 45

ends_with_hyphen : Str → Bool
ends_with_hyphen [] = false
ends_with_hyphen (c ∷ []) = c == 45
ends_with_hyphen (c ∷ d ∷ s) = ends_with_hyphen (d ∷ s)

has_double_hyphen : Str → Bool
has_double_hyphen [] = false
has_double_hyphen (c ∷ []) = false
has_double_hyphen (c ∷ d ∷ s) = (c == 45 && d == 45) || has_double_hyphen (d ∷ s)

unfoldable pub parse : Str → Result SkillNameError Str
unfolding is_allowed starts_with_hyphen ends_with_hyphen has_double_hyphen
parse value = do
  guard (utf8_valid value) non_utf8
  guard (not (is_empty value)) empty
  guard (not (ltb 64 (length value))) too_long
  guard (all is_allowed value) invalid_character
  guard (not (starts_with_hyphen value || ends_with_hyphen value)) boundary_hyphen
  guard (not (has_double_hyphen value)) consecutive_hyphens
  ok value

abbrev to_ascii_lowercase : ℕ → ℕ
to_ascii_lowercase byte = if leb b'A' byte && leb byte b'Z' then byte + 32 else byte

-- `SkillNameKey::new`.
unfoldable pub comparison_key : Str → Str
comparison_key name = map to_ascii_lowercase name

allowed-lowercase : (s : Str) → all is_allowed s ≡ true → comparison_key s ≡ s
unfolding comparison_key is_allowed
allowed-lowercase [] h = refl
allowed-lowercase (c ∷ s) h = ground (arith, allowed-lowercase s)

parse-allowed :
    (value : Str) {name : Str}
    → parse value ≡ ok name
    → (all is_allowed value ≡ true) × (is_empty value ≡ false) × (value ≡ name)
unfolding parse
parse-allowed value {name} h = ground arith

allowed-free : (s : Str) → all is_allowed s ≡ true → free 47 s ≡ true
unfolding is_allowed
allowed-free s = all-imp is_allowed (λ x. not (x == 47)) (λ x h. ground arith) s

components-allowed :
    (s : Str) → all is_allowed s ≡ true → is_empty s ≡ false → components s ≡ normal s ∷ []
unfolding components is_allowed
components-allowed [] h k = cc
components-allowed (c ∷ s) h k = rw (split-free 47 (c ∷ s) (allowed-free (c ∷ s) h)) (ground arith)

-- An accepted name is the given value, its own comparison key, and a single ordinary component of a path,
-- so that a mount under it is a direct child of its store.
pub parse-component :
    (value : Str) {name : Str}
    → parse value ≡ ok name
    → (name ≡ value) × (comparison_key name ≡ name) × (components name ≡ normal name ∷ [])
parse-component value {name} h =
    let (allowed, some_byte, same) = parse-allowed value h in
    rw (← same) (refl, allowed-lowercase value allowed, components-allowed value allowed some_byte)
