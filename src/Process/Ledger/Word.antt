-- ===== src/Process/Ledger/Word.antt =====
-- src/process/event.rs: the fields of the word. `(state & MASK) >> SHIFT` of a two-bit field is a quotient
-- and a remainder, and `(state & !MASK) | (v << SHIFT)` takes the field's value out and puts `v` in.
use skillmount.Prelude.{ℕ, ◌+◌, ◌-◌, ◌*◌, ◌%◌, ◌/◌, ◌^◌, ◌<◌, ◌≡◌, arith}

abbrev pub u32_mod : ℕ
u32_mod = 2 ^ 32

abbrev pub phase_inactive : ℕ
phase_inactive = 0

abbrev pub phase_armed : ℕ
phase_armed = 1

abbrev pub phase_active : ℕ
phase_active = 2

abbrev pub phase_finalizing : ℕ
phase_finalizing = 3

abbrev pub max_generation : ℕ
max_generation = 2 ^ 24 - 1

unfoldable pub phase : ℕ → ℕ
phase word = word % 4

unfoldable pub count : ℕ → ℕ
count word = word / 4 % 4

unfoldable pub first : ℕ → ℕ
first word = word / 16 % 4

unfoldable pub second : ℕ → ℕ
second word = word / 64 % 4

unfoldable pub generation : ℕ → ℕ
generation word = word / 256

unfoldable pub set_phase : ℕ → ℕ → ℕ
set_phase word v = word - word % 4 + v

unfoldable pub set_count : ℕ → ℕ → ℕ
set_count word v = word - word / 4 % 4 * 4 + v * 4

unfoldable pub set_first : ℕ → ℕ → ℕ
set_first word v = word - word / 16 % 4 * 16 + v * 16

unfoldable pub set_second : ℕ → ℕ → ℕ
set_second word v = word - word / 64 % 4 * 64 + v * 64

-- The fields of a word, and that it is a `u32`.
pub record Fields (word p c a b g : ℕ) : Type 0 where
  pub at_phase : phase word ≡ p
  pub at_count : count word ≡ c
  pub at_first : first word ≡ a
  pub at_second : second word ≡ b
  pub at_generation : generation word ≡ g

module _ {word p c a b g : ℕ} (v : ℕ) (small : v < 4) (f : Fields word p c a b g) where
  pub set_phase-Fields : Fields (set_phase word v) v c a b g
  unfolding set_phase phase count first second generation
  set_phase-Fields = omega arith

  pub set_count-Fields : Fields (set_count word v) p v a b g
  unfolding set_count phase count first second generation
  set_count-Fields = omega arith

  pub set_first-Fields : Fields (set_first word v) p c v b g
  unfolding set_first phase count first second generation
  set_first-Fields = omega arith

  pub set_second-Fields : Fields (set_second word v) p c a v g
  unfolding set_second phase count first second generation
  set_second-Fields = omega arith

-- A word of a generation and a phase, with no event.
pub fresh-Fields : (g p : ℕ) → p < 4 → Fields (g * 256 + p) p 0 0 0 g
unfolding phase count first second generation
fresh-Fields g p h = omega arith

pub Fields-self :
    (word : ℕ) → Fields word (phase word) (count word) (first word) (second word) (generation word)
Fields-self word = omega arith
