-- ===== src/Sfs/Bmap/Safe.antt =====
-- sfs_bmap on every block number: it never panics, and only ever adds blocks to those in use.
use prog.Sfs.Io.{Device, Fs, Vnode, ndirect, dbperidb, zeros, readblock, writeblock}
use prog.Sfs.Io.Retry.{Accepts, writeblock_returns, readblock_returns}
use prog.Sfs.Balloc.{balloc}
use prog.Sfs.Balloc.Laws.{IsValid, in_use, Claimed, Balloced, balloc_fresh, Kept-disk}
use prog.Sfs.Bmap.{
  hand_back, fresh_entry, bmap_entry, new_indirect, old_indirect, bmap_indirect, bmap,
}
use prog.Sfs.Bmap.Direct.{
  Owned, IsSound, Grown, Kept-Grown, Claimed-Grown, Owned-Grown, hand_back-Owned, DirectMapped,
  bmap_direct_lem,
}
use prog.Prelude.Errno.{efbig}
use prog.Prelude.{
  ℕ, ◌-◌, ◌/◌, ◌%◌, ◌<◌, ◌≡◌, refl, ◌==◌, ◌&&◌, ltb, leb, List, Bool, true, false, some, Run, ret,
  Reply, ok, err, ◌⊎◌, inl, inr, arith, ◌∙◌, Bool-cases, get_elem?, set, length, get_elem?-some,
  get_elem?-replicate, length-replicate,
}

-- The words of an indirect block: as many as fit, each a hole or a block in use.
pub record Entries {S : Type 0} (fs : Fs S) (words : List ℕ) : Type 0 where
  pub size : length words ≡ dbperidb
  pub owned : (i b : ℕ) → get_elem? words i ≡ some b → Owned fs b

-- What sfs_bmap hands back: a block in use, or 0 for a hole if it was not to allocate.
abbrev pub Handed : {S : Type 0} → Fs S → Bool → Reply ℕ → Type 0
Handed fs doalloc (err e) = Unit {0}
Handed fs doalloc (ok b) = ((b ≡ 0) × (doalloc ≡ false)) ⊎ ((b < fs.nblocks) × (in_use fs b ≡ true))

abbrev pub Answers : {S : Type 0} → Fs S → Bool → Run (Reply ℕ × Fs S × Vnode) → Type 0
Answers {S} fs doalloc r =
    (reply : Reply ℕ) × (fs' : Fs S) × (sv' : Vnode) × (r ≡ ret (reply, fs', sv'))
    × Grown fs fs'
    × Handed fs' doalloc reply

module _ {S : Type 0} where
  Grown-refl : (fs : Fs S) → IsValid fs → Grown fs fs
  Grown-refl fs v = record { valid = v; volume = refl; grows = λ j h. h }

  Grown-trans : {a b c : Fs S} → Grown a b → Grown b c → Grown a c
  Grown-trans g h = record {
    valid = h.valid;
    volume = h.volume ∙ g.volume;
    grows = λ j e. h.grows j (g.grows j e);
  }

  Answers-Grown :
      {a b : Fs S} (doalloc : Bool) (r : Run (Reply ℕ × Fs S × Vnode))
      → Grown a b
      → Answers b doalloc r
      → Answers a doalloc r
  Answers-Grown doalloc r g (reply, fs', sv', e, h, good) =
      (reply, fs', sv', e, Grown-trans g h, good)

  Entries-Grown : {a b : Fs S} (words : List ℕ) → Grown a b → Entries a words → Entries b words
  Entries-Grown words g s = record {
    size = s.size;
    owned = λ i b e. Owned-Grown b g (s.owned i b e);
  }

  zeros-Entries : (fs : Fs S) → Entries fs zeros
  unfolding zeros
  zeros-Entries fs = record {
    size = length-replicate {A = ℕ} 128 0;
    owned = λ i b e. let z : 0 ≡ b = get_elem?-replicate {A = ℕ} 128 i 0 b e in inl (omega arith);
  }

  Claimed-in_use :
      {fs fs' : Fs S} {block : ℕ}
      → Claimed fs block fs'
      → (block < fs'.nblocks) × (in_use fs' block ≡ true)
  Claimed-in_use {block} c = (omega (arith, c.inside, c.volume), ground (arith, c.more block))

module _ {S : Type 0} (dev : Device S) (accepts : Accepts dev) where
  lookup-Answers :
      {fs : Fs S}
      → IsValid fs
      → (sv : Vnode) (block : ℕ) (doalloc : Bool) → Owned fs block
      → ((block == 0) && doalloc) ≡ false
      → Answers fs doalloc (hand_back dev fs sv block)
  lookup-Answers {fs} valid sv block doalloc owned plain = (
    ok block,
    fs,
    sv,
    hand_back-Owned dev valid sv block owned,
    Grown-refl fs valid,
    handed owned,
  )
    where
      handed : Owned fs block → Handed fs doalloc (ok block)
      handed (inr here) = inr here
      handed (inl hole) = inl (hole, ground arith)

  fresh_entry-Answers :
      {fs : Fs S}
      → IsValid fs
      → (sv : Vnode) (idblock : ℕ) (words : List ℕ) (idoff : ℕ)
      → Answers fs true (fresh_entry dev fs sv idblock words idoff)
  unfolding fresh_entry
  fresh_entry-Answers {fs} valid sv idblock words idoff = go (balloc_fresh dev accepts valid)
    where
      wrote :
          (block : ℕ) (fs1 : Fs S)
          → Claimed fs block fs1
          → (r : Reply (Unit {0})) (s : S)
          → writeblock dev fs1 idblock (set words idoff block) ≡ ret (r, record fs1 { disk = s })
          → balloc dev fs ≡ ret (ok block, fs1)
          → Answers fs true (fresh_entry dev fs sv idblock words idoff)
      wrote block fs1 c (err e) s w b = (
        err e,
        record fs1 { disk = s },
        sv,
        rw (b, fresh_entry, w),
        Grown-trans (Claimed-Grown c) (Kept-Grown (Kept-disk c.valid s)),
        tt,
      )
      wrote block fs1 c (ok u) s w b =
          let kept = Kept-Grown (Kept-disk c.valid s) in
          let owned = Owned-Grown block kept (inr (Claimed-in_use c)) in
          (
            ok block,
            record fs1 { disk = s },
            sv,
            rw (b, fresh_entry, w) (hand_back-Owned dev kept.valid sv block owned),
            Grown-trans (Claimed-Grown c) kept,
            inr (Claimed-in_use c),
          )

      go : Balloced fs (balloc dev fs) → Answers fs true (fresh_entry dev fs sv idblock words idoff)
      go (inl (e, fs1, b, kept)) = (err e, fs1, sv, rw (b, fresh_entry), Kept-Grown kept, tt)
      go (inr (block, fs1, b, c)) =
          let (r, s, w) = writeblock_returns dev accepts fs1 idblock (set words idoff block) in
          wrote block fs1 c r s w b

  bmap_entry-Answers :
      {fs : Fs S}
      → IsValid fs
      → (sv : Vnode) (idblock : ℕ) (words : List ℕ) (idoff : ℕ) (doalloc : Bool) → Entries fs words
      → idoff < dbperidb
      → Answers fs doalloc (bmap_entry dev fs sv idblock words idoff doalloc)
  unfolding bmap_entry
  bmap_entry-Answers {fs} valid sv idblock words idoff doalloc entries h =
      let (block, e) = get_elem?-some words idoff (omega (arith, entries.size)) in
      elim (Bool-cases ((block == 0) && doalloc)) [
        | inr plain ↦
            rw (e, bmap_entry, plain)
              (lookup-Answers valid sv block doalloc (entries.owned idoff block e) plain)
        | inl grow ↦
            let yes' : doalloc ≡ true = ground arith in
            rw (e, bmap_entry, grow, yes') (fresh_entry-Answers valid sv idblock words idoff)
      ]

  module _ {fs : Fs S} (valid : IsValid fs) (sv : Vnode) (doalloc : Bool) where
    new_indirect-Answers :
        (idoff : ℕ) → idoff < dbperidb → Answers fs doalloc (new_indirect dev fs sv idoff doalloc)
    unfolding new_indirect
    new_indirect-Answers idoff h = go (balloc_fresh dev accepts valid)
      where
        go : Balloced fs (balloc dev fs) → Answers fs doalloc (new_indirect dev fs sv idoff doalloc)
        go (inl (e, fs1, b, kept)) = (err e, fs1, sv, rw (b, new_indirect), Kept-Grown kept, tt)
        go (inr (block, fs1, b, c)) =
            rw (b, new_indirect)
              (Answers-Grown doalloc _ (Claimed-Grown c) (
                bmap_entry-Answers c.valid (record sv { indirect = block; dirty = true }) block
                  zeros idoff doalloc (zeros-Entries fs1) h))

    module _
        (stored : (words : List ℕ) (fs' : Fs S)
          → readblock dev fs sv.indirect ≡ ret (ok words, fs')
          → Entries fs words) where
      old_indirect-Answers :
          (idoff : ℕ) → idoff < dbperidb → Answers fs doalloc (old_indirect dev fs sv idoff doalloc)
      unfolding old_indirect
      old_indirect-Answers idoff h = go (readblock_returns dev accepts fs sv.indirect)
        where
          go :
              ((r : Reply (List ℕ)) × (s : S) × (readblock dev fs sv.indirect
                  ≡ ret (r, record fs { disk = s })))
              → Answers fs doalloc (old_indirect dev fs sv idoff doalloc)
          go (err e, s, b) = (
            err e,
            record fs { disk = s },
            sv,
            rw (b, old_indirect),
            Kept-Grown (Kept-disk valid s),
            tt,
          )
          go (ok words, s, b) =
              let kept = Kept-Grown (Kept-disk valid s) in
              rw (b, old_indirect)
                (Answers-Grown doalloc _ kept (
                  bmap_entry-Answers kept.valid sv sv.indirect words idoff doalloc
                    (Entries-Grown words kept (stored words (record fs { disk = s }) b)) h))

    -- There is no indirect block, or it can only be read as a list of holes and blocks in use.
    module _
        (indirect : (sv.indirect ≡ 0)
          ⊎ ((words : List ℕ) (fs' : Fs S)
              → readblock dev fs sv.indirect ≡ ret (ok words, fs')
              → Entries fs words)) where
      bmap_indirect-Answers :
          (idoff : ℕ)
          → idoff < dbperidb
          → Answers fs doalloc (bmap_indirect dev fs sv idoff doalloc)
      unfolding bmap_indirect
      bmap_indirect-Answers idoff h = elim (Bool-cases (sv.indirect == 0)) [
        | inr old ↦
            rw (old, bmap_indirect)
              (elim indirect [
                | inl absent ↦ absurd (ground arith)
                | inr stored ↦ old_indirect-Answers stored idoff h
              ])
        | inl none' ↦ elim (Bool-cases doalloc) [
          | inl grow ↦ rw (none', bmap_indirect, grow) (rw (← grow) (new_indirect-Answers idoff h))
          | inr look ↦ (ok 0, fs, sv, ground arith, Grown-refl fs valid, inl (refl, look))
        ]
      ]

      -- On a valid free map, a sound inode and a device that never answers EINVAL, and where every
      -- entry of the indirect block, if there is one, is 0 or names a block in use, sfs_bmap returns
      -- for every block number, without a panic. No block goes out of use. What it
      -- hands back is a block of the volume that is in use, so never 0 when it is to allocate, or 0
      -- for a hole when it is not.
      pub bmap_safe : (n : ℕ) → IsSound fs sv → Answers fs doalloc (bmap dev fs sv n doalloc)
      unfolding bmap
      bmap_safe n sound = elim (Bool-cases (ltb n ndirect)) [
        | inl direct ↦
            direct-Answers (bmap_direct_lem dev accepts valid sv sound n doalloc (ground arith))
        | inr past ↦ elim (Bool-cases (leb 1 ((n - ndirect) / dbperidb))) [
          | inl large ↦ rw (past, large) (err efbig, fs, sv, refl, Grown-refl fs valid, tt)
          | inr fits ↦
              rw (past, fits) (bmap_indirect-Answers ((n - ndirect) % dbperidb) (omega arith))
        ]
      ]
        where
          direct-Answers :
              DirectMapped fs sv n doalloc (bmap dev fs sv n doalloc)
              → Answers fs doalloc (bmap dev fs sv n doalloc)
          direct-Answers (inl (block, e, plain, r)) = Answers_at r (elim (sound.owned n block e) [
            | inl hole ↦ inl (hole, ground arith)
            | inr here ↦ inr here
          ])
            where
              Answers_at :
                  bmap dev fs sv n doalloc ≡ ret (ok block, fs, sv)
                  → Handed fs doalloc (ok block)
                  → Answers fs doalloc (bmap dev fs sv n doalloc)
              Answers_at r h = (ok block, fs, sv, r, Grown-refl fs valid, h)
          direct-Answers (inr (e, grow, inl (c, f, r, kept))) =
              (err c, f, sv, r, Kept-Grown kept, tt)
          direct-Answers (inr (e, grow, inr (b, f, r, claimed))) =
              (ok b, f, _, r, Claimed-Grown claimed, inr (Claimed-in_use claimed))
