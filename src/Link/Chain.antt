-- ===== src/Link/Chain.antt =====
-- src/link/resolve.rs: the walk along a chain of directory links, over the backend.
pub mod Sound
use skillmount.Prelude.{
  ℕ, zero, suc, ◌+◌, ◌≤◌, Bool, true, false, not, ◌&&◌, ◌||◌, any, length, length-append, List, [],
  ◌∷◌, ◌++◌, Option, none, some, Result, ok, err, ◌>>=◌, ◌≡◌, refl, if◌then◌else◌, arith,
}
use skillmount.Text.{Str, lit, ◌===◌}
use skillmount.FilePath.{FilePath}
use skillmount.Paths.{same_key}
use skillmount.Link.{EntryKind, LinkTarget, PathEntry, LinkError}
use skillmount.Link.Backend.{LinkBackend}

abbrev pub max_link_depth : ℕ
max_link_depth = 40

pub data ChainState : Type 0 where
  missing directory link_to_directory broken cyclic depth_exceeded unsupported : ChainState

abbrev pub reaches_directory : ChainState → Bool
reaches_directory directory = true
reaches_directory link_to_directory = true
reaches_directory _ = false

abbrev pub chain_label : ChainState → Str
chain_label missing = lit "missing entry"
chain_label directory = lit "regular directory"
chain_label link_to_directory = lit "directory link"
chain_label broken = lit "broken link"
chain_label cyclic = lit "link cycle"
chain_label depth_exceeded = lit "link chain deeper than the supported maximum"
chain_label unsupported = lit "non-directory entry"

pub record ResolvedChain : Type 0 where
  pub entry : PathEntry
  pub state : ChainState
  pub hops : List LinkTarget
  pub terminal : Option FilePath
  pub terminal_identity : Option Str

-- `VisitKey`: an identity, or the path that stands for its key.
pub data VisitKey : Type 0 where
  by_identity : Str → VisitKey
  by_path : FilePath → VisitKey

unfoldable pub visit_key : FilePath → Option Str → VisitKey
visit_key path none = by_path path
visit_key path (some identity) = by_identity identity

abbrev pub same_visit : VisitKey → VisitKey → Bool
same_visit (by_identity i) (by_identity j) = i === j
same_visit (by_path p) (by_path q) = same_key p q
same_visit _ _ = false

abbrev pub is_empty : List LinkTarget → Bool
is_empty [] = true
is_empty (t ∷ ts) = false

-- `require_directory`: the label of the state is the error.
unfoldable pub require_directory : ResolvedChain → Result Str FilePath
require_directory chain = elim chain.terminal [
  | none ↦ err (chain_label chain.state)
  | some terminal ↦
      if reaches_directory chain.state then ok terminal else err (chain_label chain.state)
]

abbrev same_terminal : Option FilePath → Option FilePath → Bool
same_terminal (some p) (some q) = same_key p q
same_terminal _ _ = false

abbrev same_directory : Option Str → Option Str → Option FilePath → Option FilePath → Bool
same_directory (some i) (some j) p q = i === j
same_directory _ _ p q = same_terminal p q

unfoldable pub shares_terminal_with : ResolvedChain → ResolvedChain → Bool
shares_terminal_with a b =
    same_directory a.terminal_identity b.terminal_identity a.terminal b.terminal

module _ (b : LinkBackend) (w : b.World) where
  abbrev pub ended : PathEntry → List LinkTarget → ChainState → ResolvedChain
  ended entry hops state = record {
    entry = entry;
    state = state;
    hops = hops;
    terminal = none;
    terminal_identity = none;
  }

  -- The chain ends in a directory at the path.
  abbrev pub arrived :
      PathEntry → List LinkTarget → FilePath → PathEntry → Result LinkError ResolvedChain
  arrived entry hops path current = b.canonical_directory w path >>= λ canonical. ok record {
    entry = entry;
    state = if is_empty hops then directory else link_to_directory;
    hops = hops;
    terminal = some canonical;
    terminal_identity = current.identity;
  }

  -- One iteration, on an entry that was not visited; `next` goes on from a hop.
  abbrev pub step :
      PathEntry
      → List LinkTarget
      → FilePath
      → PathEntry
      → (LinkTarget → PathEntry → Result LinkError ResolvedChain)
      → EntryKind
      → Option LinkTarget
      → Result LinkError ResolvedChain
  step entry hops path current next EntryKind.missing target =
      ok (ended entry hops (if is_empty hops then missing else broken))
  step entry hops path current next EntryKind.directory target = arrived entry hops path current
  step entry hops path current next EntryKind.file target = ok (ended entry hops unsupported)
  step entry hops path current next EntryKind.other target = ok (ended entry hops unsupported)
  step entry hops path current next EntryKind.symlink none = ok (ended entry hops unsupported)
  step entry hops path current next EntryKind.junction none = ok (ended entry hops unsupported)
  step entry hops path current next EntryKind.symlink (some target) =
      b.inspect_no_follow w target.resolved >>= next target
  step entry hops path current next EntryKind.junction (some target) =
      b.inspect_no_follow w target.resolved >>= next target

  -- The loop: at most `remaining` more entries are looked at.
  unfoldable pub walk :
      ℕ
      → PathEntry
      → List VisitKey
      → List LinkTarget
      → FilePath
      → PathEntry
      → Result LinkError ResolvedChain
  walk zero entry visited hops path current = ok (ended entry hops depth_exceeded)
  walk (suc remaining) entry visited hops path current =
      let key = visit_key path current.identity in
      let next = λ (target : LinkTarget) (found : PathEntry).
        walk remaining entry (key ∷ visited) (hops ++ target ∷ []) target.resolved found in
      if any (same_visit key) visited
      then ok (ended entry hops cyclic)
      else step entry hops path current next current.kind current.target

  unfoldable pub resolve_chain : FilePath → Result LinkError ResolvedChain
  unfolding walk
  resolve_chain path = b.inspect_no_follow w path >>= λ observed.
      walk (max_link_depth + 1) observed [] [] path observed
