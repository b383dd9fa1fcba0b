-- ===== src/Sfs/Bmap/Direct.antt =====
-- sfs_bmap on the direct blocks: every outcome, and that a mapping once made stays.
use prog.Sfs.Io.{Device, Fs, Vnode, ndirect}
use prog.Sfs.Io.Retry.{Accepts}
use prog.Sfs.Balloc.{balloc}
use prog.Sfs.Balloc.Laws.{IsValid, in_use, Kept, Claimed, Balloced, balloc_fresh, bused-in_use}
use prog.Sfs.Bmap.{hand_back, fresh_direct, bmap_direct, bmap}
use prog.Prelude.{
  ℕ, ◌<◌, ◌≡◌, ◌≢◌, ◌==◌, ◌&&◌, ltb, Bool, true, false, some, Run, ret, Reply, ok, err, ◌⊎◌, inl,
  inr, arith, ◌∙◌, sym, Bool-cases, subst, get_elem?, set, length, get_elem?-some,
  get_elem?-set_self, get_elem?-set_ne, length-set, ret-injective,
}

-- A block number in an inode: none, or a block of the volume that is in use.
abbrev pub Owned : {S : Type 0} → Fs S → ℕ → Type 0
Owned fs b = (b ≡ 0) ⊎ ((b < fs.nblocks) × (in_use fs b ≡ true))

-- The fifteen direct blocks of an inode are owned.
pub record IsSound {S : Type 0} (fs : Fs S) (sv : Vnode) : Type 0 where
  pub size : length sv.direct ≡ ndirect
  pub owned : (i b : ℕ) → get_elem? sv.direct i ≡ some b → Owned fs b

-- The inode with one more direct block.
abbrev pub linked : Vnode → ℕ → ℕ → Vnode
linked sv n block = record sv { direct = set sv.direct n block; dirty = true }

-- What mapping direct block `n` comes to: a lookup, a failed allocation, or a new block.
abbrev pub DirectMapped :
    {S : Type 0} → Fs S → Vnode → ℕ → Bool → Run (Reply ℕ × Fs S × Vnode) → Type 0
DirectMapped {S} fs sv n doalloc r =
    ((block : ℕ) × (get_elem? sv.direct n ≡ some block)
      × (((block == 0) && doalloc) ≡ false)
      × (r ≡ ret (ok block, fs, sv)))
    ⊎ ((get_elem? sv.direct n ≡ some 0)
        × (doalloc ≡ true)
        × (((e : ℕ) × (fs' : Fs S) × (r ≡ ret (err e, fs', sv)) × Kept fs fs')
            ⊎ ((block : ℕ) × (fs' : Fs S) × (r ≡ ret (ok block, fs', linked sv n block))
                × Claimed fs block fs')))

module _ {S : Type 0} (dev : Device S) where
  pub hand_back-Owned :
      {fs : Fs S}
      → IsValid fs
      → (sv : Vnode) (block : ℕ) → Owned fs block
      → hand_back dev fs sv block ≡ ret (ok block, fs, sv)
  unfolding hand_back
  hand_back-Owned valid sv block (inl hole) = ground arith
  hand_back-Owned valid sv block (inr (inside, used)) =
      ground (arith, bused-in_use valid block inside)

  pub hand_back-Claimed :
      {fs fs' : Fs S} (sv : Vnode) (block : ℕ)
      → Claimed fs block fs'
      → hand_back dev fs' sv block ≡ ret (ok block, fs', sv)
  hand_back-Claimed sv block claimed =
      hand_back-Owned claimed.valid sv block
        (inr (omega (arith, claimed.inside, claimed.volume), ground (arith, claimed.more block)))

  module _ (accepts : Accepts dev) {fs : Fs S} (valid : IsValid fs) (sv : Vnode)
      (sound : IsSound fs sv) (n : ℕ) (doalloc : Bool) (direct : n < ndirect) where
    -- On a valid free map, a sound inode and a device that never answers EINVAL, sfs_bmap hands back the direct block that is recorded, a hole as 0, and
    -- changes nothing, unless it is asked to allocate and there is a hole. Then it either fails
    -- with the free map and the inode as they were, or records a block that was not in use.
    pub bmap_direct_lem : DirectMapped fs sv n doalloc (bmap dev fs sv n doalloc)
    unfolding bmap bmap_direct fresh_direct
    bmap_direct_lem =
        let below : ltb n ndirect ≡ true = ground arith in
        let (block, e) = get_elem?-some sv.direct n (omega (arith, sound.size)) in
        rw (below, bmap_direct)
          (elim (Bool-cases ((block == 0) && doalloc)) [
            | inr plain ↦ inl (
              block,
              e,
              plain,
              rw (e, plain) (hand_back-Owned valid sv block (sound.owned n block e)),
            )
            | inl grow ↦
                let hole : block ≡ 0 = ground arith in
                inr
                  (rw (← hole) e, ground arith, rw (e, grow) (go (balloc_fresh dev accepts valid)))
          ])
      where
        go :
            Balloced fs (balloc dev fs)
            → let r : Run (Reply ℕ × Fs S × Vnode) = fresh_direct dev fs sv n in
              ((e : ℕ) × (fs' : Fs S) × (r ≡ ret (err e, fs', sv)) × Kept fs fs')
              ⊎ ((block : ℕ) × (fs' : Fs S) × (r ≡ ret (ok block, fs', linked sv n block))
                  × Claimed fs block fs')
        go (inl (c, fs', e, kept)) = inl (c, fs', rw (e, fresh_direct), kept)
        go (inr (block, fs', e, claimed)) =
            inr (block, fs', rw (e, fresh_direct) (hand_back-Claimed _ block claimed), claimed)

-- Blocks that were in use still are, on the same volume.
pub record Grown {S : Type 0} (fs fs' : Fs S) : Type 0 where
  pub valid : IsValid fs'
  pub volume : fs'.nblocks ≡ fs.nblocks
  pub grows : (j : ℕ) → in_use fs j ≡ true → in_use fs' j ≡ true

module _ {S : Type 0} {fs fs' : Fs S} where
  pub Kept-Grown : Kept fs fs' → Grown fs fs'
  Kept-Grown k = record { valid = k.valid; volume = k.volume; grows = λ j h. k.same j ∙ h }

  pub Claimed-Grown : {block : ℕ} → Claimed fs block fs' → Grown fs fs'
  Claimed-Grown c = record {
    valid = c.valid;
    volume = c.volume;
    grows = λ j h. ground (arith, c.more j);
  }

  pub Owned-Grown : (b : ℕ) → Grown fs fs' → Owned fs b → Owned fs' b
  Owned-Grown b g (inl hole) = inl hole
  Owned-Grown b g (inr (inside, used)) = inr (omega (arith, g.volume), g.grows b used)

  pub IsSound-Grown : (sv : Vnode) → Grown fs fs' → IsSound fs sv → IsSound fs' sv
  IsSound-Grown sv g s = record { size = s.size; owned = λ i b e. Owned-Grown b g (s.owned i b e) }

  pub linked-IsSound :
      (sv : Vnode) (n block : ℕ)
      → n < ndirect
      → Claimed fs block fs'
      → IsSound fs sv
      → IsSound fs' (linked sv n block)
  linked-IsSound sv n block h c s = record {
    size = length-set sv.direct n block ∙ s.size;
    owned = λ i b e. elim (Bool-cases (n == i)) [
      | inr other ↦ Owned-Grown b (Claimed-Grown c) (
          s.owned i b
            (ground (arith, get_elem?-set_ne sv.direct {i = n} {j = i} block (ground arith))))
      | inl same ↦
          let at : n ≡ i = ground arith in
          let e' = subst (λ t. get_elem? (set sv.direct n block) t ≡ some b) (sym at) e in
          let there = get_elem?-set_self sv.direct n block (omega (arith, s.size)) in
          let new : block ≡ b = ground (arith, e', there) in
          inr (omega (arith, c.inside, c.volume), ground (arith, c.more b))
    ];
  }

module _ {S : Type 0} (dev : Device S) where
  bmap_found :
      {fs : Fs S} (sv : Vnode) (n block : ℕ) (again : Bool)
      → IsValid fs
      → n < ndirect
      → get_elem? sv.direct n ≡ some block
      → block ≢ 0
      → Owned fs block
      → bmap dev fs sv n again ≡ ret (ok block, fs, sv)
  unfolding bmap bmap_direct
  bmap_found sv n block again valid h e nonzero owned =
      let below : ltb n ndirect ≡ true = ground arith in
      let other : (block == 0) ≡ false = ground (arith, nonzero) in
      rw (below, bmap_direct, e, other) (hand_back-Owned dev valid sv block owned)

  -- A mapping that is sound, names a block, and is found again.
  abbrev Settled : ℕ → Reply ℕ × Fs S × Vnode → Type 0
  Settled n (err e, fs, sv) = Unit
  Settled n (ok block, fs, sv) =
      IsValid fs
      × IsSound fs sv
      × (block ≢ 0)
      × ((again : Bool) → bmap dev fs sv n again ≡ ret (ok block, fs, sv))

module _ {S : Type 0} (dev : Device S) (accepts : Accepts dev) {fs : Fs S} (valid : IsValid fs)
    (sv : Vnode) (sound : IsSound fs sv) (n : ℕ) (direct : n < ndirect) where
  -- On a valid free map, a sound inode and a device that never answers EINVAL: once sfs_bmap was asked
  -- to allocate direct block `n` and handed back a block, that is not 0, the inode and the free map are sound again, and
  -- every later call for that block hands back the same block and changes nothing.
  pub bmap_stable :
      {fs' : Fs S} {sv' : Vnode} {block : ℕ}
      → bmap dev fs sv n true ≡ ret (ok block, fs', sv')
      → IsValid fs'
        × IsSound fs' sv'
        × (block ≢ 0)
        × ((again : Bool) → bmap dev fs' sv' n again ≡ ret (ok block, fs', sv'))
  bmap_stable {fs'} {sv'} {block} done =
      go (bmap_direct_lem dev accepts valid sv sound n true direct)
    where
      settle :
          (t : Reply ℕ × Fs S × Vnode)
          → bmap dev fs sv n true ≡ ret t
          → Settled dev n t
          → Settled dev n (ok block, fs', sv')
      settle t e p = subst (Settled dev n) (ret-injective t _ (sym e ∙ done)) p

      go : DirectMapped fs sv n true (bmap dev fs sv n true) → Settled dev n (ok block, fs', sv')
      go (inl (b, e, plain, r)) =
          let nonzero : b ≢ 0 = λ z. ground (arith, plain, z) in
          settle (ok b, fs, sv) r
            (
              valid,
              sound,
              nonzero,
              λ again. bmap_found dev sv n b again valid direct e nonzero (sound.owned n b e),
            )
      go (inr (e, _, inl (c, f, r, kept))) = settle (err c, f, sv) r tt
      go (inr (e, _, inr (b, f, r, claimed))) =
          let nonzero : b ≢ 0 = λ z.
            ground (arith, subst (λ t. in_use fs t ≡ false) z claimed.fresh, valid.superblock) in
          let there = get_elem?-set_self sv.direct n b (omega (arith, sound.size)) in
          let safe = linked-IsSound sv n b direct claimed sound in
          settle (ok b, f, linked sv n b) r
            (
              claimed.valid,
              safe,
              nonzero,
              λ again.
                  bmap_found dev (linked sv n b) n b again claimed.valid direct there nonzero
                    (safe.owned n b there),
            )
