-- ===== src/Native.antt =====
-- src/native.rs: platform-native strings and their bytes. On Unix a string's units are its bytes, on
-- Windows they are 16-bit numbers, written with the low byte first.
use skillmount.Prelude.{
  ℕ, ◌+◌, ◌*◌, ◌/◌, ◌%◌, ◌<◌, List, [], ◌∷◌, ◌≡◌, refl, arith, Option, none, some, All, ◌==◌,
  length, if◌then◌else◌,
}

pub data Platform : Type 0 where
  unix windows : Platform

-- An `OsString`, `OsStr` or path: the units of its platform.
abbrev pub OsString : Type 0
OsString = List ℕ

-- The number of values of a unit.
abbrev pub unit_size : Platform → ℕ
unit_size unix = 256
unit_size windows = 65536

abbrev pub IsOsString : Platform → OsString → Type 0
IsOsString p s = All (λ u. u < unit_size p) s

le_bytes : OsString → List ℕ
le_bytes [] = []
le_bytes (u ∷ s) = u % 256 ∷ u / 256 ∷ le_bytes s

from_le_bytes : List ℕ → OsString
from_le_bytes [] = []
from_le_bytes (a ∷ []) = []
from_le_bytes (a ∷ b ∷ r) = (a + 256 * b) ∷ from_le_bytes r

unfoldable pub os_bytes : Platform → OsString → List ℕ
unfolding le_bytes
os_bytes unix s = s
os_bytes windows s = le_bytes s

unfoldable pub os_string : Platform → List ℕ → Option OsString
unfolding from_le_bytes
os_string unix bytes = some bytes
os_string windows bytes = if length bytes % 2 == 0 then some (from_le_bytes bytes) else none

le_bytes-even : (s : OsString) → length (le_bytes s) % 2 ≡ 0
unfolding le_bytes
le_bytes-even [] = refl
le_bytes-even (u ∷ s) = omega (arith, le_bytes-even s)

from_le_bytes-le_bytes : (s : OsString) → from_le_bytes (le_bytes s) ≡ s
unfolding le_bytes from_le_bytes
from_le_bytes-le_bytes [] = refl
from_le_bytes-le_bytes (u ∷ s) = ground (arith, from_le_bytes-le_bytes s)

-- The bytes of a native string give the same string back, on both platforms.
pub os_string-os_bytes : (p : Platform) (s : OsString) → os_string p (os_bytes p s) ≡ some s
unfolding os_string os_bytes
os_string-os_bytes unix s = refl
os_string-os_bytes windows s = ground (arith, le_bytes-even s, from_le_bytes-le_bytes s)

-- What `os_bytes` gives are bytes.
pub os_bytes-bytes :
    (p : Platform) (s : OsString) → IsOsString p s → All (λ b. b < 256) (os_bytes p s)
unfolding os_bytes
os_bytes-bytes unix s h = h
os_bytes-bytes windows [] h = tt
os_bytes-bytes windows (u ∷ s) h =
    (omega arith, (ground (arith, h.0), unfold os_bytes in os_bytes-bytes windows s h.1))
