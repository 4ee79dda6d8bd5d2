-- ===== src/Journal/Codec/Line.antt =====
-- src/journal/codec.rs, `Line`: one body line, a record name and its fields in written order.
pub mod RoundTrip
pub mod Fields
use skillmount.Prelude.{
  ℕ, Bool, true, false, List, [], ◌∷◌, ◌++◌, Option, none, some, if◌then◌else◌,
}
use skillmount.Text.{Str, split, split_once, ◌===◌}

pub record Line : Type 0 where
  pub record_name : Str
  pub fields : List (Str × Str)

unfoldable pub new : Str → Line
new name = record { record_name = name; fields = [] }

unfoldable pub push : Str → Str → Line → Line
push key token line = record line { fields = line.fields ++ (key, token) ∷ [] }

-- An absent value writes no field.
unfoldable pub push_optional : Str → Option Str → Line → Line
unfolding push
push_optional key none line = line
push_optional key (some token) line = push key token line

unfoldable pub find_field : Str → List (Str × Str) → Option Str
find_field key [] = none
find_field key ((name, token) ∷ rest) = if name === key then some token else find_field key rest

-- The first field of that name.
unfoldable pub field : Str → Line → Option Str
unfolding find_field
field key line = find_field key line.fields

-- 32 is the space and 61 the equals sign.
render_fields : List (Str × Str) → Str
render_fields [] = []
render_fields ((key, token) ∷ rest) = 32 ∷ (key ++ 61 ∷ (token ++ render_fields rest))

unfoldable pub render : Line → Str
unfolding render_fields
render line = line.record_name ++ render_fields line.fields

unfoldable pub is_empty : Str → Bool
is_empty [] = true
is_empty (c ∷ s) = false

parse_fields : Line → List Str → Option Line
unfolding is_empty push
parse_fields line [] = some line
parse_fields line (part ∷ parts) = elim (split_once 61 part) [
  | none ↦ none
  | some (key, token) ↦ if is_empty key then none else parse_fields (push key token line) parts
]

parse_parts : List Str → Option Line
unfolding is_empty parse_fields new
parse_parts [] = none
parse_parts (name ∷ parts) = if is_empty name then none else parse_fields (new name) parts

unfoldable pub parse : Str → Option Line
unfolding parse_parts
parse raw = parse_parts (split 32 raw)
