-- ===== src/Link/Chain/Sound.antt =====
-- src/link/resolve.rs: what a resolved chain says of the entries.
use skillmount.Prelude.{
  ℕ, zero, suc, ◌+◌, ◌≤◌, Bool, true, false, length, length-append, List, [], ◌∷◌, ◌++◌, Option,
  none, some, Result, ok, >>=-eq-ok, ok_injective, ◌≡◌, ◌⊎◌, inl, inr, refl, sym, subst,
  if◌then◌else◌, if-holds, arith,
}
use skillmount.FilePath.{FilePath}
use skillmount.Link.{EntryKind, LinkTarget, PathEntry, LinkError}
use skillmount.Link.Backend.{LinkBackend}
use skillmount.Link.Chain.{
  max_link_depth, ChainState, directory, link_to_directory, broken, cyclic, depth_exceeded,
  unsupported, reaches_directory, ResolvedChain, VisitKey, visit_key, is_empty, ended, arrived,
  step, walk, resolve_chain,
}

abbrev is_link : EntryKind → Bool
is_link EntryKind.symlink = true
is_link EntryKind.junction = true
is_link _ = false

reaches-arrived :
    (hops : List LinkTarget)
    → reaches_directory (if is_empty hops then directory else link_to_directory) ≡ true
reaches-arrived [] = refl
reaches-arrived (t ∷ hops) = refl

stops-missing :
    (hops : List LinkTarget)
    → reaches_directory (if is_empty hops then ChainState.missing else broken) ≡ false
stops-missing [] = refl
stops-missing (t ∷ hops) = refl

module _ (b : LinkBackend) (w : b.World) where
  -- Every hop is the target of the link before it, and is inspected where it resolves to.
  abbrev pub Leads : FilePath → PathEntry → List LinkTarget → FilePath → PathEntry → Type 0
  Leads path entry [] last found = (path ≡ last) × (entry ≡ found)
  Leads path entry (t ∷ hops) last found =
      (is_link entry.kind ≡ true)
      × (entry.target ≡ some t)
      × ((next : PathEntry) × (b.inspect_no_follow w t.resolved ≡ ok next)
          × Leads t.resolved next hops last found)

  -- A chain that does not reach a directory has no terminal; one that does ends in an entry that is one, after
  -- at most forty hops.
  abbrev pub Ends : ResolvedChain → FilePath → PathEntry → Type 0
  Ends chain last found =
      ((reaches_directory chain.state ≡ false)
        × (chain.terminal ≡ none)
        × (length chain.hops ≤ max_link_depth + 1))
      ⊎ ((reaches_directory chain.state ≡ true)
          × (found.kind ≡ EntryKind.directory)
          × (length chain.hops ≤ max_link_depth)
          × ((canonical : FilePath) × (b.canonical_directory w last ≡ ok canonical)
              × (chain.terminal ≡ some canonical)))

  abbrev pub Describes : FilePath → PathEntry → ResolvedChain → Type 0
  Describes path entry chain =
      (chain.entry ≡ entry)
      × ((last : FilePath) × (found : PathEntry) × Leads path entry chain.hops last found
          × Ends chain last found)

  Leads-append :
      (path : FilePath) (entry : PathEntry) (hops : List LinkTarget) (last : FilePath)
      (found : PathEntry) (t : LinkTarget) (next : PathEntry)
      → Leads path entry hops last found
      → is_link found.kind ≡ true
      → found.target ≡ some t
      → b.inspect_no_follow w t.resolved ≡ ok next
      → Leads path entry (hops ++ t ∷ []) t.resolved next
  Leads-append path entry [] last found t next (at, same) link target seen = (
    subst (λ e. is_link e.kind ≡ true) (sym same) link,
    subst (λ e. e.target ≡ some t) (sym same) target,
    (next, seen, (refl, refl)),
  )
  Leads-append path entry (u ∷ hops) last found t next (is, points, (g, seen_g, rest)) link target
        seen =
      (
        is,
        points,
        (g, seen_g, Leads-append u.resolved g hops last found t next rest link target seen),
      )

  module _ (path : FilePath) (entry : PathEntry) where
    abbrev Right : Result LinkError ResolvedChain → Type 0
    Right r = (chain : ResolvedChain) → r ≡ ok chain → Describes path entry chain

    ended-Right :
        (hops : List LinkTarget) (last : FilePath) (found : PathEntry) (state : ChainState)
        → reaches_directory state ≡ false
        → Leads path entry hops last found
        → length hops ≤ max_link_depth + 1
        → Right (ok (ended b w entry hops state))
    ended-Right hops last found state stops leads short chain e =
        subst (Describes path entry) (ok_injective e)
          (refl, (last, found, leads, inl (stops, refl, short)))

    arrived-Right :
        (hops : List LinkTarget) (last : FilePath) (found : PathEntry)
        → found.kind ≡ EntryKind.directory
        → Leads path entry hops last found
        → length hops ≤ max_link_depth
        → Right (arrived b w entry hops last found)
    arrived-Right hops last found is leads short chain e =
        let (canonical, seen, made) = >>=-eq-ok (b.canonical_directory w last) _ e in
        subst (Describes path entry) (ok_injective made) (
          refl,
          (last, found, leads, inr (reaches-arrived hops, is, short, (canonical, seen, refl))),
        )

    step-Right :
        (kind : EntryKind) (target : Option LinkTarget) (hops : List LinkTarget) (last : FilePath)
        (found : PathEntry) (next : LinkTarget → PathEntry → Result LinkError ResolvedChain)
        → found.kind ≡ kind
        → found.target ≡ target
        → Leads path entry hops last found
        → length hops ≤ max_link_depth
        → ((t : LinkTarget) (g : PathEntry)
            → Leads path entry (hops ++ t ∷ []) t.resolved g
            → Right (next t g))
        → Right (step b w entry hops last found next kind target)
    step-Right EntryKind.missing target hops last found next is points leads short go =
        ended-Right hops last found _ (stops-missing hops) leads (omega (arith, short))
    step-Right EntryKind.directory target hops last found next is points leads short go =
        arrived-Right hops last found is leads short
    step-Right EntryKind.file target hops last found next is points leads short go =
        ended-Right hops last found unsupported refl leads (omega (arith, short))
    step-Right EntryKind.other target hops last found next is points leads short go =
        ended-Right hops last found unsupported refl leads (omega (arith, short))
    step-Right EntryKind.symlink none hops last found next is points leads short go =
        ended-Right hops last found unsupported refl leads (omega (arith, short))
    step-Right EntryKind.junction none hops last found next is points leads short go =
        ended-Right hops last found unsupported refl leads (omega (arith, short))
    step-Right EntryKind.symlink (some t) hops last found next is points leads short go = λ chain e.
        let (g, seen, walked) = >>=-eq-ok (b.inspect_no_follow w t.resolved) (next t) e in
        go t g (Leads-append path entry hops last found t g leads (rw is refl) points seen) chain
          walked
    step-Right EntryKind.junction (some t) hops last found next is points leads short go =
        λ chain e.
          let (g, seen, walked) = >>=-eq-ok (b.inspect_no_follow w t.resolved) (next t) e in
          go t g (Leads-append path entry hops last found t g leads (rw is refl) points seen) chain
            walked

    walk-Right :
        (remaining : ℕ) (visited : List VisitKey) (hops : List LinkTarget) (last : FilePath)
        (found : PathEntry)
        → length hops + remaining ≡ max_link_depth + 1
        → Leads path entry hops last found
        → Right (walk b w remaining entry visited hops last found)
    unfolding walk
    walk-Right zero visited hops last found depth leads =
        ended-Right hops last found depth_exceeded refl leads (omega (arith, depth))
    walk-Right (suc remaining) visited hops last found depth leads =
        if-holds Right _ _ _ (ended-Right hops last found cyclic refl leads (omega (arith, depth)))
          (step-Right found.kind found.target hops last found _ refl refl leads
            (omega (arith, depth))
            (λ t g led.
              walk-Right remaining (visit_key last found.identity ∷ visited) (hops ++ t ∷ [])
                t.resolved g (omega (arith, depth, length-append hops (t ∷ []))) led))

  -- A chain that resolve_chain returns describes the entries: its hops lead, each from a link to its target, from
  -- the entry at the path to a last entry, and it reaches a directory, whose canonical path it has, only when the
  -- last entry is one and there are at most 40 hops; otherwise it has no terminal, and at most 41 hops.
  pub resolve_chain_sound :
      (path : FilePath) (chain : ResolvedChain)
      → resolve_chain b w path ≡ ok chain
      → (b.inspect_no_follow w path ≡ ok chain.entry) × Describes path chain.entry chain
  unfolding resolve_chain
  resolve_chain_sound path chain e =
      let (observed, seen, walked) = >>=-eq-ok (b.inspect_no_follow w path) _ e in
      let (same, described) =
        walk-Right path observed (max_link_depth + 1) [] [] path observed refl (refl, refl) chain
          walked in
      (
        subst (λ x. b.inspect_no_follow w path ≡ ok x) (sym same) seen,
        subst (λ x. Describes path x chain) (sym same) (same, described),
      )
