-- ===== src/Journal/Codec/Line/RoundTrip.antt =====
-- src/journal/codec.rs: `Line::parse` after `Line::render`, and which lines are well formed.
use mathlib.Core.List.{append-nil, append_assoc}
use skillmount.Prelude.{
  ℕ, ◌<◌, Bool, true, false, not, ◌&&◌, List, [], ◌∷◌, ◌++◌, map, ◌≡◌, refl, sym, ap, ◌∙◌, arith,
  leb, ◌==◌, all, all-append, all-imp, All, some,
}
use skillmount.Text.{Str, free, split, split_once, split-free, split-append, split_once-append}
use skillmount.Journal.Codec.Line.{
  Line, new, push, render_fields, render, is_empty, parse_fields, parse_parts, parse,
}

-- Printable ASCII without the space: what a value may hold.
abbrev pub is_graphic : ℕ → Bool
is_graphic c = leb 33 c && leb c 126

-- What a record name or a key may hold.
abbrev pub is_word : ℕ → Bool
is_word c = is_graphic c && not (c == 61)

pub record IsField (f : Str × Str) : Type 0 where
  pub key_some : is_empty f.0 ≡ false
  pub key_word : all is_word f.0 ≡ true
  pub token_graphic : all is_graphic f.1 ≡ true

pub record IsLine (l : Line) : Type 0 where
  pub name_some : is_empty l.record_name ≡ false
  pub name_word : all is_word l.record_name ≡ true
  pub each_field : All IsField l.fields

abbrev part : Str × Str → Str
part f = f.0 ++ 61 ∷ f.1

pub free-graphic : (c : ℕ) → c < 33 → (s : Str) → all is_graphic s ≡ true → free c s ≡ true
free-graphic c h s = all-imp is_graphic (λ x. not (x == c)) (λ x k. ground arith) s

pub graphic-word : (s : Str) → all is_word s ≡ true → all is_graphic s ≡ true
graphic-word s = all-imp is_word is_graphic (λ x k. ground arith) s

free-word : (s : Str) → all is_word s ≡ true → free 61 s ≡ true
free-word s = all-imp is_word (λ x. not (x == 61)) (λ x k. ground arith) s

part-graphic : (f : Str × Str) → IsField f → all is_graphic (part f) ≡ true
part-graphic f h =
    rw (all-append is_graphic f.0 (61 ∷ f.1), graphic-word f.0 h.key_word) h.token_graphic

split-render_fields :
    (s : Str) (fs : List (Str × Str))
    → all is_graphic s ≡ true
    → All IsField fs
    → split 32 (s ++ render_fields fs) ≡ s ∷ map part fs
unfolding render_fields
split-render_fields s [] h k = rw append-nil (split-free 32 s (free-graphic 32 (omega arith) s h))
split-render_fields s ((key, token) ∷ fs) h k =
    split-append 32 s _ (free-graphic 32 (omega arith) s h)
    ∙ ap (λ (ps : List Str). s ∷ ps)
        (ap (split 32) (sym (append_assoc key (61 ∷ token) (render_fields fs)))
          ∙ split-render_fields (part (key, token)) fs (part-graphic (key, token) k.0) k.1)

split_once-part : (f : Str × Str) → IsField f → split_once 61 (part f) ≡ some f
split_once-part f h = split_once-append 61 f.0 f.1 (free-word f.0 h.key_word)

parse_fields-parts :
    (line : Line) (fs : List (Str × Str))
    → All IsField fs
    → parse_fields line (map part fs) ≡ some (record line { fields = line.fields ++ fs })
unfolding parse_fields
parse_fields-parts line [] h = rw append-nil
parse_fields-parts line (f ∷ fs) h =
    rw (split_once-part f h.0, parse_fields)
      (rw (h.0).key_some (
        unfold push in
        rw (parse_fields-parts (record line { fields = line.fields ++ f ∷ [] }) fs h.1)
          (rw (append_assoc line.fields (f ∷ []) fs))))

-- A well-formed line is read back from its text.
pub parse-render : (l : Line) → IsLine l → parse (render l) ≡ some l
unfolding parse render parse_parts
parse-render l h =
    rw
      (split-render_fields l.record_name l.fields (graphic-word l.record_name h.name_word)
        h.each_field)
      (rw h.name_some (unfold new in parse_fields-parts (new l.record_name) l.fields h.each_field))

-- Printable ASCII: what a rendered line holds.
abbrev pub is_text : ℕ → Bool
is_text c = leb 32 c && leb c 126

text-graphic : (s : Str) → all is_graphic s ≡ true → all is_text s ≡ true
text-graphic s = all-imp is_graphic is_text (λ x k. ground arith) s

render_fields-is_text :
    (fs : List (Str × Str)) → All IsField fs → all is_text (render_fields fs) ≡ true
unfolding render_fields
render_fields-is_text [] h = refl
render_fields-is_text ((key, token) ∷ fs) h =
    rw
      (
        all-append is_text key (61 ∷ (token ++ render_fields fs)),
        text-graphic key (graphic-word key (h.0).key_word),
        all-append is_text token (render_fields fs),
        text-graphic token (h.0).token_graphic,
      )
      (render_fields-is_text fs h.1)

pub render-is_text : (l : Line) → IsLine l → all is_text (render l) ≡ true
unfolding render
render-is_text l h =
    rw
      (
        all-append is_text l.record_name (render_fields l.fields),
        text-graphic l.record_name (graphic-word l.record_name h.name_word),
      )
      (render_fields-is_text l.fields h.each_field)

is_empty-append : (s t : Str) → is_empty s ≡ false → is_empty (s ++ t) ≡ false
unfolding is_empty
is_empty-append [] t h = cc
is_empty-append (c ∷ s) t h = refl

pub is_empty-render : (l : Line) → IsLine l → is_empty (render l) ≡ false
unfolding render
is_empty-render l h = is_empty-append l.record_name (render_fields l.fields) h.name_some
