-- ===== src/Prelude/Results.antt =====
-- Rust's `Result`, with `do` blocks for `?`.
use mathlib.Core.Path.{◌≡◌, refl}
use mathlib.Core.Logic.{◌⊎◌, inl, inr}
use mathlib.Core.Bool.{Bool, true, false}
use skillmount.Prelude.Tests.{if◌then◌else◌}
use mathlib.Core.Option.{Option, none, some}

pub data Result {ℓ κ} (E : Type ℓ) (A : Type κ) : Type (ℓ ⊔ κ) where
  ok : A → Result E A
  err : E → Result E A

-- `option.ok_or(e)`.
abbrev pub ok_or {ℓ κ} : {E : Type ℓ} {A : Type κ} → E → Option A → Result E A
ok_or e none = err e
ok_or e (some a) = ok a

-- The operator `?`, with what comes after it.
infixl 5 ◌>>=◌ ◌>>◌
abbrev pub ◌>>=◌ {ℓ κ ν} :
    {E : Type ℓ} {A : Type κ} {B : Type ν} → Result E A → (A → Result E B) → Result E B
err e >>= after = err e
ok a >>= after = after a

-- An early `return Err(e)` unless the test holds.
abbrev pub guard {ℓ} : {E : Type ℓ} → Bool → E → Result E (Unit {0})
guard false refusal = err refusal
guard true refusal = ok tt

pub Result-cases {ℓ κ} :
    {E : Type ℓ} {A : Type κ} (r : Result E A) → ((a : A) × (r ≡ ok a)) ⊎ ((e : E) × (r ≡ err e))
Result-cases (ok a) = inl (a, refl)
Result-cases (err e) = inr (e, refl)

abbrev pub ◌>>◌ {ℓ κ} : {E : Type ℓ} {B : Type κ} → Result E (Unit {0}) → Result E B → Result E B
checked >> after = checked >>= λ _. after

-- A chain that succeeds has a first step that does.
pub >>=-eq-ok {ℓ κ ν} :
    {E : Type ℓ} {A : Type κ} {B : Type ν} (first : Result E A) (after : A → Result E B) {z : B}
    → (first >>= after) ≡ ok z
    → (x : A) × (first ≡ ok x) × (after x ≡ ok z)
>>=-eq-ok (err e) after succeeds = cc
>>=-eq-ok (ok x) after succeeds = (x, refl, succeeds)

-- The operator `?` in code that changes a state: an error ends the function in the state it left.
unfoldable pub carry {ℓ κ ν μ} :
    {E : Type ℓ} {A : Type κ} {B : Type ν} {W : Type μ}
    → Result E A
    → W
    → (A → W → Result E B × W)
    → Result E B × W
carry (ok a) w next = next a w
carry (err e) w next = (err e, w)

-- What holds of the state before a step and is kept by what follows holds of the state after.
pub carry-keeps {ℓ κ ν μ υ} :
    {E : Type ℓ} {A : Type κ} {B : Type ν} {W : Type μ} (P : W → Type υ) (r : Result E A) (w : W)
    (next : A → W → Result E B × W)
    → P w
    → ((a : A) → r ≡ ok a → P w → P (next a w).1)
    → P (carry r w next).1
unfolding carry
carry-keeps P (ok a) w next h k = k a refl h
carry-keeps P (err e) w next h k = h

pub if-keeps {ℓ κ ν μ} :
    {E : Type ℓ} {A : Type κ} {W : Type ν} (P : W → Type μ) (b : Bool) (x y : Result E A × W)
    → P x.1
    → P y.1
    → P (if b then x else y).1
if-keeps P true x y h k = h
if-keeps P false x y h k = k

-- A chain that succeeds has a first step that does, and what follows it succeeds.
pub carry-eq-ok {ℓ κ ν μ} :
    {E : Type ℓ} {A : Type κ} {B : Type ν} {W : Type μ} (r : Result E A) (w : W)
    (next : A → W → Result E B × W) {z : B}
    → (carry r w next).0 ≡ ok z
    → (a : A) × (r ≡ ok a) × ((next a w).0 ≡ ok z)
unfolding carry
carry-eq-ok (ok a) w next succeeds = (a, refl, succeeds)
carry-eq-ok (err e) w next succeeds = cc

-- To show something of all that a step and what follows it may return.
pub carry-holds {ℓ κ ν μ υ} :
    {E : Type ℓ} {A : Type κ} {B : Type ν} {W : Type μ} (Q : Result E B × W → Type υ)
    (r : Result E A) (w : W) (next : A → W → Result E B × W)
    → ((e : E) → Q (err e, w))
    → ((a : A) → r ≡ ok a → Q (next a w))
    → Q (carry r w next)
unfolding carry
carry-holds Q (ok a) w next failed goes_on = goes_on a refl
carry-holds Q (err e) w next failed goes_on = failed e

pub ok_injective {ℓ κ} :
    {E : Type ℓ} {A : Type κ} {a b : A} → ◌≡◌ {A = Result E A} (ok a) (ok b) → a ≡ b
ok_injective e = cc

-- Two checks in a row succeed only if both do.
module _ {ℓ κ} {E : Type ℓ} {B : Type κ} where
  pub first-ok : (x : Result E (Unit {0})) (y : Result E B) {b : B} → x >> y ≡ ok b → x ≡ ok tt
  first-ok (ok tt) y h = refl
  first-ok (err e) y h = absurd (cc)

  pub then-ok : (x : Result E (Unit {0})) (y : Result E B) {b : B} → x >> y ≡ ok b → y ≡ ok b
  then-ok (ok tt) y h = h
  then-ok (err e) y h = absurd (cc)

pub guard-ok {ℓ} : {E : Type ℓ} (b : Bool) (e : E) → guard b e ≡ ok tt → b ≡ true
guard-ok true e h = refl
guard-ok false e h = absurd (cc)
