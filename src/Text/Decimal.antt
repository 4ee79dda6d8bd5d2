-- ===== src/Text/Decimal.antt =====
-- `to_string` and `parse` of the unsigned integers: decimal text.
use skillmount.Prelude.{
  ℕ, zero, suc, ◌+◌, ◌-◌, ◌*◌, ◌/◌, ◌%◌, ◌≤◌, ◌<◌, Bool, true, ◌&&◌, List, [], ◌∷◌, ◌++◌, ◌≡◌, ◌≢◌,
  refl, arith, leb, ltb, ◌==◌, if◌then◌else◌, all, Option, none, some, all-append, Bool-cases, inl,
  inr, ◌∙◌,
}

-- The digits of `n`; the fuel is more than `n`, and each round divides by ten.
digits : ℕ → ℕ → List ℕ
digits zero n = []
digits (suc f) n =
    let rest = digits f (n / 10) in if ltb n 10 then (48 + n) ∷ [] else rest ++ (48 + n % 10) ∷ []

-- `n.to_string()`.
unfoldable pub to_string : ℕ → List ℕ
unfolding digits
to_string n = digits (suc n) n

pub is_digit : ℕ → Bool
is_digit c = leb 48 c && leb c 57

-- One more digit; `none` is an invalid digit or an overflow of the type, whose largest value is `max`.
push_digit : ℕ → ℕ → Option ℕ → Option ℕ
unfolding is_digit
push_digit max c none = none
push_digit max c (some n) =
    if is_digit c
    then (if ltb max (n * 10 + (c - 48)) then none else some (n * 10 + (c - 48)))
    else none

parse_digits : ℕ → Option ℕ → List ℕ → Option ℕ
unfolding push_digit
parse_digits max acc [] = acc
parse_digits max acc (c ∷ r) = parse_digits max (push_digit max c acc) r

-- `s.parse()`: one leading `+` is allowed before at least one digit.
unfoldable pub parse_uint : ℕ → List ℕ → Option ℕ
unfolding parse_digits
parse_uint max [] = none
parse_uint max (c ∷ []) = parse_digits max (some 0) (c ∷ [])
parse_uint max (c ∷ d ∷ r) =
    if c == 43 then parse_digits max (some 0) (d ∷ r) else parse_digits max (some 0) (c ∷ d ∷ r)

parse_digits-append :
    (max : ℕ) (acc : Option ℕ) (s t : List ℕ)
    → parse_digits max acc (s ++ t) ≡ parse_digits max (parse_digits max acc s) t
unfolding parse_digits
parse_digits-append max acc [] t = refl
parse_digits-append max acc (c ∷ s) t = parse_digits-append max (push_digit max c acc) s t

parse_digits-digits :
    (f n max : ℕ) → n < f → n ≤ max → parse_digits max (some 0) (digits f n) ≡ some n
unfolding digits
parse_digits-digits zero n max h k = absurd (omega arith)
parse_digits-digits (suc f) n max h k = elim (Bool-cases (ltb n 10)) [
  | inl small ↦ rw small (unfold parse_digits in ground arith)
  | inr big ↦
      rw (big, parse_digits-append max (some 0) (digits f (n / 10)) ((48 + n % 10) ∷ []))
        (rw (parse_digits-digits f (n / 10) max (ground arith) (ground arith))
          (unfold parse_digits in ground arith))
]

digits-is_digit : (f n : ℕ) → all is_digit (digits f n) ≡ true
unfolding digits is_digit
digits-is_digit zero n = refl
digits-is_digit (suc f) n = elim (Bool-cases (ltb n 10)) [
  | inl small ↦ rw small (ground arith)
  | inr big ↦
      rw
        (
          big,
          all-append is_digit (digits f (n / 10)) ((48 + n % 10) ∷ []),
          digits-is_digit f (n / 10),
        )
        (ground arith)
]

pub to_string-is_digit : (n : ℕ) → all is_digit (to_string n) ≡ true
to_string-is_digit n = unfold to_string in digits-is_digit (suc n) n

pub is_digit-bounds : (c : ℕ) → is_digit c ≡ true → (48 ≤ c) × (c ≤ 57)
unfolding is_digit
is_digit-bounds c h = ground arith

parse_uint-digits :
    (max : ℕ) (s : List ℕ)
    → all is_digit s ≡ true
    → s ≢ []
    → parse_uint max s ≡ parse_digits max (some 0) s
unfolding parse_uint is_digit
parse_uint-digits max [] h k = absurd (k refl)
parse_uint-digits max (c ∷ []) h k = refl
parse_uint-digits max (c ∷ d ∷ r) h k = ground arith

append-ne-nil : (s : List ℕ) (c : ℕ) → s ++ c ∷ [] ≢ []
append-ne-nil [] c e = cc
append-ne-nil (x ∷ s) c e = cc

pub to_string-ne-nil : (n : ℕ) → to_string n ≢ []
unfolding to_string
to_string-ne-nil n e = elim (Bool-cases (ltb n 10)) [
  | inl small ↦ ground arith
  | inr big ↦ append-ne-nil (digits n (n / 10)) (48 + n % 10) (rw big at e)
]

-- A number within the type's range is read back from its decimal text.
pub parse_uint-to_string : (max n : ℕ) → n ≤ max → parse_uint max (to_string n) ≡ some n
parse_uint-to_string max n h =
    parse_uint-digits max (to_string n) (to_string-is_digit n) (to_string-ne-nil n)
    ∙ unfold to_string in parse_digits-digits (suc n) n max (omega arith) h
