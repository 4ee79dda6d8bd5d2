-- ===== src/Text.antt =====
-- The operations of Rust's `str` that the program uses, over the bytes of its UTF-8 encoding.
mod Utf8
mod Split
mod Decimal
unfoldable pub use Utf8.{utf8_valid}
pub use Utf8.{utf8_valid-of_ascii}
unfoldable pub use Split.{split, split_once, split_inclusive, strip_suffix, lines}
pub use Split.{
  free, split-free, split-append, split_once-append, split_inclusive-append, strip_suffix-append,
  strip_suffix-free, lines-append,
}
unfoldable pub use Decimal.{to_string, parse_uint}
pub use Decimal.{
  is_digit, is_digit-bounds, to_string-is_digit, to_string-ne-nil, parse_uint-to_string,
}
use Prim.Native.Char.{code}
use skillmount.Prelude.{
  ℕ, String, Bool, true, false, List, [], ◌∷◌, ◌≡◌, refl, arith, ◌==◌, ◌&&◌, ◌↔◌,
}

-- A `String`, a `&str` or a `Vec<u8>`: the bytes.
abbrev pub Str : Type 0
Str = List ℕ

-- The bytes of an ASCII literal of the source.
abbrev pub lit : String → Str
lit String.[] = []
lit (String.◌∷◌ c s) = code c ∷ lit s

infix 50 ◌===◌
abbrev pub ◌===◌ : Str → Str → Bool
[] === [] = true
[] === (y ∷ ys) = false
(x ∷ xs) === [] = false
(x ∷ xs) === (y ∷ ys) = x == y && xs === ys

pub ===_refl : (s : Str) → (s === s) ≡ true
===_refl [] = refl
===_refl (x ∷ xs) = ground (arith, ===_refl xs)

pub ===→≡ : (s t : Str) → (s === t) ≡ true → s ≡ t
===→≡ [] [] h = refl
===→≡ [] (y ∷ ys) h = ground arith
===→≡ (x ∷ xs) [] h = ground arith
===→≡ (x ∷ xs) (y ∷ ys) h = ground (arith, ===→≡ xs ys)

pub ===_iff : (s t : Str) → ((s === t) ≡ true) ↔ (s ≡ t)
===_iff s t = (===→≡ s t, λ e. ground (arith, ===_refl s))
