-- ===== src/Link/Host.antt =====
-- The system calls that src/link/unix.rs makes, as a parameter: what they return, and what is relied on.
use skillmount.Prelude.{
  ℕ, zero, suc, ◌/◌, ◌%◌, List, [], ◌∷◌, ◌++◌, Result, ok, ◌≡◌, ◌≢◌, if◌then◌else◌, ltb,
}
use skillmount.Text.{Str, lit}
use skillmount.FilePath.{FilePath}
use skillmount.Link.{PlatformIdentity}
use skillmount.Journal.Codec.Token.{hex, nibble}

pub data IoErrorKind : Type 0 where
  not_found already_exists unsupported_call directory_not_empty other_failure : IoErrorKind

pub record IoError : Type 0 where
  pub kind : IoErrorKind
  pub text : Str

pub data FileType : Type 0 where
  symlink_type directory_type file_type other_type : FileType

-- `fs::Metadata`, as far as it is read.
pub record Metadata : Type 0 where
  pub file_type : FileType
  pub device : ℕ
  pub inode : ℕ
  pub len : ℕ

-- `u64::to_be_bytes`, the last `n` of them.
unfoldable pub be_bytes : ℕ → ℕ → List ℕ
be_bytes zero value = []
be_bytes (suc n) value = be_bytes n (value / 256) ++ value % 256 ∷ []

-- `{volume:x}`: at most `fuel` digits, and a `u64` has 16.
pub lower_hex : ℕ → ℕ → Str
lower_hex zero value = []
lower_hex (suc fuel) value =
    let more = lower_hex fuel (value / 16) in
    (if ltb value 16 then [] else more) ++ nibble (value % 16) ∷ []

-- `PlatformIdentity::from_pair` of src/link/mod.rs.
unfoldable pub from_pair : Str → ℕ → ℕ → PlatformIdentity
unfolding be_bytes lower_hex
from_pair derivation volume index =
    derivation ++ 58 ∷ (lower_hex 16 volume ++ 58 ∷ hex (be_bytes 8 index))

-- `identity(&metadata)`.
unfoldable pub identity_of : Metadata → PlatformIdentity
identity_of m = from_pair (lit "unix") m.device m.inode

pub record Host : Type 1 where
  pub World : Type 0
  pub Handle : Type 0
  pub Alive : World → PlatformIdentity → Type 0
  pub symlink_metadata : World → FilePath → Result IoError Metadata
  pub read_link : World → FilePath → Result IoError FilePath
  pub canonicalize : World → FilePath → Result IoError FilePath
  pub metadata : World → FilePath → Result IoError Metadata
  pub open_no_follow : World → FilePath → Result IoError Handle
  pub file_metadata : World → Handle → Result IoError Metadata
  pub rewind : World → Handle → Result IoError (Unit {0})
  -- `file.take(n).read_to_end(…)`, from where the handle stands.
  pub read_at_most : World → Handle → ℕ → Result IoError Str
  pub symlink : FilePath → FilePath → World → Result IoError (Unit {0}) × World
  pub create_dir : FilePath → World → Result IoError (Unit {0}) × World
  -- `create_new`, `write_all`, `sync_all` and `metadata` of the open file.
  pub create_new_file : FilePath → Str → World → Result IoError Metadata × World
  pub rename_no_replace : FilePath → FilePath → World → Result IoError (Unit {0}) × World
  pub remove_file : FilePath → World → Result IoError (Unit {0}) × World
  pub remove_dir : FilePath → World → Result IoError (Unit {0}) × World
  pub symlink-spares :
      (t p : FilePath) (w : World) (i : Str) → Alive w i → Alive (symlink t p w).1 i
  pub create_dir-spares :
      (p : FilePath) (w : World) (i : Str) → Alive w i → Alive (create_dir p w).1 i
  pub create_new_file-spares :
      (p : FilePath) (s : Str) (w : World) (i : Str) → Alive w i → Alive (create_new_file p s w).1 i
  pub rename_no_replace-spares :
      (p q : FilePath) (w : World) (i : Str) → Alive w i → Alive (rename_no_replace p q w).1 i
  -- A call that creates an entry creates a new one.
  pub symlink-fresh :
      (t p : FilePath) (w : World) (m : Metadata)
      → (symlink t p w).0 ≡ ok tt
      → symlink_metadata (symlink t p w).1 p ≡ ok m
      → ¬ Alive w (identity_of m)
  pub create_dir-fresh :
      (p : FilePath) (w : World) (m : Metadata)
      → (create_dir p w).0 ≡ ok tt
      → symlink_metadata (create_dir p w).1 p ≡ ok m
      → ¬ Alive w (identity_of m)
  pub create_new_file-fresh :
      (p : FilePath) (s : Str) (w : World) (m : Metadata)
      → (create_new_file p s w).0 ≡ ok m
      → ¬ Alive w (identity_of m)
  -- `unlink` and `rmdir` of a path remove at most the entry that the path names without following it.
  pub remove_file-spares :
      (p : FilePath) (w : World) (m : Metadata) (i : Str)
      → symlink_metadata w p ≡ ok m
      → identity_of m ≢ i
      → Alive w i
      → Alive (remove_file p w).1 i
  pub remove_dir-spares :
      (p : FilePath) (w : World) (m : Metadata) (i : Str)
      → symlink_metadata w p ≡ ok m
      → identity_of m ≢ i
      → Alive w i
      → Alive (remove_dir p w).1 i
