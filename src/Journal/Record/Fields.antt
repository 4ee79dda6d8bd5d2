-- ===== src/Journal/Record/Fields.antt =====
-- src/journal/mod.rs: the readers of one field, and the texts and paths that they are used on.
use skillmount.Prelude.{
  ℕ, Bool, true, [], ◌∷◌, all, all-imp, Option, none, some, ok, ltb, ◌≡◌, refl, arith, String,
}
use skillmount.Text.{
  Str, utf8_valid, utf8_valid-of_ascii, to_string, is_digit, is_digit-bounds, to_string-is_digit,
}
use skillmount.Native.{unix, IsOsString}
use skillmount.FilePath.{FilePath}
use skillmount.Mount.Action.{PathPrecondition, precondition_label}
use skillmount.Journal.Codec.Token.{encode_text, encode_path, decode_path}
use skillmount.Journal.Codec.Token.RoundTrip.{IsBytes, decode_text-encode_text, decode_os-encode_os}
use skillmount.Journal.Codec.Line.{Line, field}
use skillmount.Journal.Status.{
  TransactionStatus, ActionStatus, ActionOperation, RecordedKind, AgentId, LockResourceKind,
  LockAccess, transaction_label, action_label, operation_label, kind_label, agent_label,
  resource_label, access_label,
}
use skillmount.Journal.Record.{bool_label, text_token, path_token}
use skillmount.Journal.Record.Read.{optional_text, text, optional_path, path, parsed}

-- A `String`: bytes that are valid UTF-8.
pub record IsText (s : Str) : Type 0 where
  pub bytes : IsBytes s
  pub valid : utf8_valid s ≡ true

ascii-IsBytes : (s : Str) → all (λ b. ltb b 128) s ≡ true → IsBytes s
ascii-IsBytes [] h = tt
ascii-IsBytes (b ∷ s) h = (ground arith, ascii-IsBytes s (ground arith))

pub ascii-IsText : (s : Str) → all (λ b. ltb b 128) s ≡ true → IsText s
ascii-IsText s h = record { bytes = ascii-IsBytes s h; valid = utf8_valid-of_ascii s h }

pub number-IsText : (n : ℕ) → IsText (to_string n)
number-IsText n = ascii-IsText (to_string n) (
    all-imp is_digit (λ b. ltb b 128) (λ c h. let k = is_digit-bounds c h in ground arith) _
      (to_string-is_digit n))

abbrev pub OptionIsText : Option Str → Type 0
OptionIsText none = Unit
OptionIsText (some s) = IsText s

abbrev pub OptionIsPath : Option FilePath → Type 0
OptionIsPath none = Unit
OptionIsPath (some p) = IsOsString unix p

module _ (line : Line) (key : Str) where
  pub optional_text-field :
      (s : Option Str)
      → OptionIsText s
      → field key line ≡ text_token s
      → optional_text line key ≡ ok s
  unfolding optional_text
  optional_text-field none h e = rw e refl
  optional_text-field (some s) h e = rw (e, decode_text-encode_text s h.bytes h.valid) refl

  pub text-field :
      (s : Str) → IsText s → field key line ≡ some (encode_text s) → text line key ≡ ok s
  unfolding text
  text-field s h e = rw (e, decode_text-encode_text s h.bytes h.valid) refl

  pub optional_path-field :
      (p : Option FilePath)
      → OptionIsPath p
      → field key line ≡ path_token p
      → optional_path line key ≡ ok p
  unfolding optional_path decode_path encode_path
  optional_path-field none h e = rw e refl
  optional_path-field (some p) h e = rw (e, decode_os-encode_os unix p h) refl

  pub path-field :
      (p : FilePath)
      → IsOsString unix p
      → field key line ≡ some (encode_path unix p)
      → path line key ≡ ok p
  unfolding path decode_path encode_path
  path-field p h e = rw (e, decode_os-encode_os unix p h) refl

  pub parsed-field :
      {A : Type 0} (parse : Str → Option A) (message : String) (s : Str) (a : A)
      → IsText s
      → parse s ≡ some a
      → field key line ≡ some (encode_text s)
      → parsed parse message line key ≡ ok a
  unfolding parsed
  parsed-field parse message s a h k e = rw (text-field s h e, k) refl

pub transaction_label-IsText : (x : TransactionStatus) → IsText (transaction_label x)
transaction_label-IsText x = ascii-IsText _ (ground arith)

pub action_label-IsText : (x : ActionStatus) → IsText (action_label x)
action_label-IsText x = ascii-IsText _ (ground arith)

pub operation_label-IsText : (x : ActionOperation) → IsText (operation_label x)
operation_label-IsText x = ascii-IsText _ (ground arith)

pub kind_label-IsText : (x : RecordedKind) → IsText (kind_label x)
kind_label-IsText x = ascii-IsText _ (ground arith)

pub agent_label-IsText : (x : AgentId) → IsText (agent_label x)
agent_label-IsText x = ascii-IsText _ (ground arith)

pub resource_label-IsText : (x : LockResourceKind) → IsText (resource_label x)
resource_label-IsText x = ascii-IsText _ (ground arith)

pub access_label-IsText : (x : LockAccess) → IsText (access_label x)
access_label-IsText x = ascii-IsText _ (ground arith)

pub precondition_label-IsText : (x : PathPrecondition) → IsText (precondition_label x)
precondition_label-IsText x = ascii-IsText _ (ground arith)

pub bool_label-IsText : (x : Bool) → IsText (bool_label x)
bool_label-IsText x = ascii-IsText _ (ground arith)
