-- ===== src/Process/Ledger/Steps/Holds.antt =====
-- src/process/event.rs: the two stored kinds and the count, and the kinds that were recorded.
use skillmount.Prelude.{ℕ, ◌<◌, List, [], ◌∷◌, ◌++◌, some, ◌≡◌, refl, ◌∙◌, arith}
use skillmount.Process.Ledger.{
  InterruptKind, interrupt, terminate, break, encode, decode, recorded, decode_events,
}
use skillmount.Process.Ledger.Word.{
  phase, count, first, second, generation, Fields-self, set_count-Fields, set_first-Fields,
  set_second-Fields,
}

-- The first two kinds are kept; if there are more, the second is reported once more.
abbrev pub saturate : List InterruptKind → List InterruptKind
saturate [] = []
saturate (a ∷ []) = a ∷ []
saturate (a ∷ b ∷ []) = a ∷ b ∷ []
saturate (a ∷ b ∷ c ∷ rest) = a ∷ b ∷ b ∷ []

abbrev pub Holds : ℕ → List InterruptKind → Type 0
Holds word [] = count word ≡ 0
Holds word (a ∷ []) = (count word ≡ 1) × (first word ≡ encode a)
Holds word (a ∷ b ∷ []) = (count word ≡ 2) × (first word ≡ encode a) × (second word ≡ encode b)
Holds word (a ∷ b ∷ c ∷ rest) =
    (count word ≡ 3) × (first word ≡ encode a) × (second word ≡ encode b)

pub encode-small : (k : InterruptKind) → encode k < 4
encode-small interrupt = omega arith
encode-small terminate = omega arith
encode-small break = omega arith

decode-encode : (k : InterruptKind) → decode (encode k) ≡ some k
decode-encode interrupt = refl
decode-encode terminate = refl
decode-encode break = refl

pub decode_events-Holds :
    (word : ℕ) (ks : List InterruptKind) → Holds word ks → decode_events word ≡ some (saturate ks)
unfolding decode_events
decode_events-Holds word [] h = rw h
decode_events-Holds word (a ∷ []) h = rw (h.0, h.1, decode-encode a)
decode_events-Holds word (a ∷ b ∷ []) h = rw (h.0, h.1, h.2, decode-encode a, decode-encode b)
decode_events-Holds word (a ∷ b ∷ c ∷ rest) h = rw (h.0, h.1, h.2, decode-encode a, decode-encode b)

-- A record keeps the phase and the generation, and holds one kind more.
pub record RecordedAt (word : ℕ) (kind : InterruptKind) (ks : List InterruptKind) : Type 0 where
  pub same_phase : phase (recorded word kind) ≡ phase word
  pub same_generation : generation (recorded word kind) ≡ generation word
  pub holds : Holds (recorded word kind) (ks ++ kind ∷ [])

pub recorded-Holds :
    (word : ℕ) (kind : InterruptKind) (ks : List InterruptKind)
    → Holds word ks
    → RecordedAt word kind ks
recorded-Holds word kind [] h =
    let f =
      set_first-Fields (encode kind) (encode-small kind)
        (set_count-Fields 1 (omega arith) (Fields-self word)) in
    record {
      same_phase = rw h f.at_phase;
      same_generation = rw h f.at_generation;
      holds = rw h (f.at_count, f.at_first);
    }
recorded-Holds word kind (a ∷ []) h =
    let f =
      set_second-Fields (encode kind) (encode-small kind)
        (set_count-Fields 2 (omega arith) (Fields-self word)) in
    record {
      same_phase = rw h.0 f.at_phase;
      same_generation = rw h.0 f.at_generation;
      holds = rw h.0 (f.at_count, (f.at_first ∙ h.1), f.at_second);
    }
recorded-Holds word kind (a ∷ b ∷ []) h =
    let f = set_count-Fields 3 (omega arith) (Fields-self word) in
    record {
      same_phase = rw h.0 f.at_phase;
      same_generation = rw h.0 f.at_generation;
      holds = rw h.0 (f.at_count, (f.at_first ∙ h.1), (f.at_second ∙ h.2));
    }
recorded-Holds word kind (a ∷ b ∷ c ∷ rest) h =
    let f = set_count-Fields 3 (omega arith) (Fields-self word) in
    record {
      same_phase = rw h.0 f.at_phase;
      same_generation = rw h.0 f.at_generation;
      holds = rw h.0 (f.at_count, (f.at_first ∙ h.1), (f.at_second ∙ h.2));
    }
