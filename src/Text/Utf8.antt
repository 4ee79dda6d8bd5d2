-- ===== src/Text/Utf8.antt =====
-- `str::from_utf8`: which byte sequences are well-formed UTF-8 (the table of the Unicode standard).
use skillmount.Prelude.{
  ℕ, zero, suc, Bool, true, false, ◌&&◌, ◌||◌, List, [], ◌∷◌, ◌≡◌, refl, arith, leb, ltb, ◌==◌,
  if◌then◌else◌, all,
}

-- A continuation byte, 0x80 to 0xBF.
abbrev is_continuation : ℕ → Bool
is_continuation b = leb 128 b && leb b 191

-- The second byte that may follow the first byte of a three-byte sequence.
abbrev second_of_three : ℕ → ℕ → Bool
second_of_three a b =
    if a == 224
    then leb 160 b && leb b 191
    else if a == 237
    then leb 128 b && leb b 159
    else is_continuation b

-- The second byte that may follow the first byte of a four-byte sequence.
abbrev second_of_four : ℕ → ℕ → Bool
second_of_four a b =
    if a == 240
    then leb 144 b && leb b 191
    else if a == 244
    then leb 128 b && leb b 143
    else is_continuation b

-- What is still expected of the sequence that is being read.
pub data Pending : Type 0 where
  start : Pending
  tail : ℕ → Pending
  third : ℕ → Pending
  fourth : ℕ → Pending

-- Reads one byte; `tail n` waits for n continuation bytes more.
accept : Pending → ℕ → Bool
accept start b = ltb b 128 || (leb 194 b && leb b 244)
accept (tail n) b = is_continuation b
accept (third a) b = second_of_three a b
accept (fourth a) b = second_of_four a b

after_tail : ℕ → Pending
after_tail zero = start
after_tail (suc n) = tail n

advance : Pending → ℕ → Pending
unfolding after_tail
advance start b =
    if ltb b 128
    then start
    else if ltb b 224
    then tail 0
    else if ltb b 240
    then third b
    else fourth b
advance (tail n) b = after_tail n
advance (third a) b = tail 0
advance (fourth a) b = tail 1

is_start : Pending → Bool
is_start start = true
is_start _ = false

valid_from : Pending → List ℕ → Bool
unfolding accept advance is_start
valid_from p [] = is_start p
valid_from p (b ∷ bs) = accept p b && valid_from (advance p b) bs

unfoldable pub utf8_valid : List ℕ → Bool
unfolding valid_from
utf8_valid bs = valid_from start bs

valid_from-ascii : (bs : List ℕ) → all (λ b. ltb b 128) bs ≡ true → valid_from start bs ≡ true
unfolding valid_from
valid_from-ascii [] h = refl
valid_from-ascii (b ∷ bs) h = ground (arith, valid_from-ascii bs)

-- ASCII is UTF-8.
pub utf8_valid-of_ascii : (bs : List ℕ) → all (λ b. ltb b 128) bs ≡ true → utf8_valid bs ≡ true
unfolding utf8_valid
utf8_valid-of_ascii bs h = valid_from-ascii bs h
