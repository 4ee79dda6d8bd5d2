-- ===== src/Journal/Codec/Line/Fields.antt =====
-- src/journal/codec.rs: `Line::field` on a line that was built by pushes.
use skillmount.Prelude.{List, [], ◌∷◌, ◌++◌, Option, none, some, if◌then◌else◌, ◌≡◌, refl, arith}
use skillmount.Text.{Str, ◌===◌}
use skillmount.Journal.Codec.Line.{Line, new, push, push_optional, field, find_field}

-- `a`, or `b` where there is no `a`.
abbrev pub first_of_two : Option Str → Option Str → Option Str
first_of_two none b = b
first_of_two (some a) b = some a

pub first_of_two-none : (x : Option Str) → first_of_two x none ≡ x
first_of_two-none none = refl
first_of_two-none (some a) = refl

find_field-append :
    (k key token : Str) (fs : List (Str × Str))
    → find_field k (fs ++ (key, token) ∷ [])
      ≡ first_of_two (find_field k fs) (if key === k then some token else none)
unfolding find_field
find_field-append k key token [] = ground arith
find_field-append k key token ((j, v) ∷ fs) = ground (arith, find_field-append k key token fs)

pub field-new : (k name : Str) → field k (new name) ≡ none
unfolding field new
field-new k name = refl

pub field-push :
    (k key token : Str) (line : Line)
    → field k (push key token line)
      ≡ first_of_two (field k line) (if key === k then some token else none)
unfolding field push
field-push k key token line = find_field-append k key token line.fields

pub field-push_optional :
    (k key : Str) (token : Option Str) (line : Line)
    → field k (push_optional key token line)
      ≡ first_of_two (field k line) (if key === k then token else none)
unfolding push_optional
field-push_optional k key none line = ground arith
field-push_optional k key (some token) line = field-push k key token line

pub record_name-push :
    (key token : Str) (line : Line) → (push key token line).record_name ≡ line.record_name
unfolding push
record_name-push key token line = refl

pub record_name-push_optional :
    (key : Str) (token : Option Str) (line : Line)
    → (push_optional key token line).record_name ≡ line.record_name
unfolding push_optional push
record_name-push_optional key none line = refl
record_name-push_optional key (some token) line = refl

pub record_name-new : (name : Str) → (new name).record_name ≡ name
unfolding new
record_name-new name = refl

pub ruleset field_laws = (field-new, field-push, field-push_optional, first_of_two-none)

pub ruleset name_laws = (record_name-new, record_name-push, record_name-push_optional)
