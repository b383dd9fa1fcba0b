-- ===== src/Sfs/Trunc.antt =====
-- sfs_bmap.c: sfs_itrunc. The lock that it takes and releases is left out: it is held throughout.
pub mod Loops
pub mod Laws
use prog.Sfs.Io.{Device, Fs, Vnode, ndirect, dbperidb, readblock, writeblock}
use prog.Sfs.Balloc.{bfree}
use prog.Prelude.{
  ℕ, suc, ◌+◌, ◌-◌, ◌/◌, ◌%◌, ◌^◌, ltb, leb, ◌==◌, not, ◌&&◌, ◌||◌, if◌then◌else◌, List, [], ◌∷◌,
  Bool, true, false, Run, ret, ◌>>=◌, Reply, ok, err,
}

-- DIVROUNDUP(len, SFS_BLOCKSIZE), as a uint32_t.
abbrev pub blocks_of : ℕ → ℕ
blocks_of len = (len + 511) / 512 % 2 ^ 32

module _ {S : Type 0} where
  -- The loop over the direct blocks, from index `i` on; the flag is `sv_dirty` or hasnonzero.
  pub trunc_direct : ℕ → ℕ → List ℕ → Bool → Fs S → Run (List ℕ × Bool × Fs S)
  trunc_direct blocklen i [] dirty fs = ret ([], dirty, fs)
  trunc_direct blocklen i (block ∷ rest) dirty fs =
      let gone = leb blocklen i && not (block == 0) in
      do
        fs ← if gone then bfree fs block else ret fs
        (rest, dirty, fs) ← trunc_direct blocklen (suc i) rest (gone || dirty) fs
        ret ((if gone then 0 else block) ∷ rest, dirty, fs)

  -- The loop over the indirect block's entries, from `baseblock + j` on: the entries left, then
  -- hasnonzero and iddirty.
  pub trunc_entries : ℕ → ℕ → List ℕ → Bool → Bool → Fs S → Run (List ℕ × Bool × Bool × Fs S)
  trunc_entries blocklen at [] hasnonzero iddirty fs = ret ([], hasnonzero, iddirty, fs)
  trunc_entries blocklen at (block ∷ rest) hasnonzero iddirty fs =
      let gone = ltb blocklen at && not (block == 0) in
      let block' = if gone then 0 else block in
      do
        fs ← if gone then bfree fs block else ret fs
        (rest, hasnonzero, iddirty, fs) ←
            trunc_entries blocklen (suc at) rest (not (block' == 0) || hasnonzero) (gone || iddirty)
              fs
        ret (block' ∷ rest, hasnonzero, iddirty, fs)

module _ {S : Type 0} (dev : Device S) where
  abbrev pub Truncated : Type 0
  Truncated = Run (Reply (Unit {0}) × Fs S × Vnode)

  abbrev finish : ℕ → Fs S → Vnode → Truncated
  finish len fs sv = ret (ok tt, fs, record sv { size = len % 2 ^ 32; dirty = true })

  pub trunc_indirect : ℕ → ℕ → Fs S → Vnode → Truncated
  trunc_indirect len blocklen fs sv = do
    (r, fs) ← readblock dev fs sv.indirect
    elim r [
      | err e ↦ ret (err e, fs, sv)
      | ok idbuf ↦ do
        (idbuf, hasnonzero, iddirty, fs) ← trunc_entries blocklen ndirect idbuf false false fs
        let emptied : Truncated = do
          fs ← bfree fs sv.indirect
          finish len fs (record sv { indirect = 0; dirty = true })
        let changed : Truncated = do
          (w, fs) ← writeblock dev fs sv.indirect idbuf
          elim w [ err e ↦ ret (err e, fs, sv) | ok _ ↦ finish len fs sv ]
        if not hasnonzero then emptied else if iddirty then changed else finish len fs sv
    ]

  pub itrunc : Fs S → Vnode → ℕ → Truncated
  itrunc fs sv len =
      let blocklen = blocks_of len in
      let highblock = ndirect + dbperidb - 1 in
      do
        (direct, dirty, fs) ← trunc_direct blocklen 0 sv.direct sv.dirty fs
        let sv' = record sv { direct = direct; dirty = dirty }
        if ltb blocklen highblock && not (sv'.indirect == 0)
            then trunc_indirect len blocklen fs sv'
            else finish len fs sv'
