-- ===== src/Sfs/Balloc.antt =====
-- sfs_balloc.c
pub mod Laws
use prog.Bitmap
use prog.Sfs.Io.{Device, Fs, zeros, writeblock}
use prog.Prelude.{
  ℕ, leb, ◌==◌, not, if◌then◌else◌, Bool, true, Run, ret, panic, ◌>>=◌, Reply, ok, err,
}

module _ {S : Type 0} (dev : Device S) where
  unfoldable pub clearblock : Fs S → ℕ → Run (Reply (Unit {0}) × Fs S)
  clearblock fs block = writeblock dev fs block zeros

  -- The end of sfs_balloc: clear the block, and give it back if that fails.
  unfoldable pub claim : Fs S → ℕ → Run (Reply ℕ × Fs S)
  claim fs block = do
    (r, fs) ← clearblock fs block
    elim r [
      | ok _ ↦ ret (ok block, fs)
      | err e ↦ do
        freemap ← Bitmap.unmark fs.freemap block
        ret (err e, record fs { freemap = freemap })
    ]

  unfoldable pub balloc : Fs S → Run (Reply ℕ × Fs S)
  balloc fs = do
    (r, freemap) ← Bitmap.alloc fs.freemap
    elim r [
      | err e ↦ ret (err e, fs)
      | ok block ↦
          if leb fs.nblocks block
          then panic
          else claim (record fs { freemap = freemap; freemapdirty = true }) block
    ]

module _ {S : Type 0} where
  pub bfree : Fs S → ℕ → Run (Fs S)
  bfree fs block = do
    freemap ← Bitmap.unmark fs.freemap block
    ret (record fs { freemap = freemap; freemapdirty = true })

  unfoldable pub bused : Fs S → ℕ → Run Bool
  bused fs block =
      let test : Run Bool = do n ← Bitmap.isset fs.freemap block; ret (not (n == 0))
      in if leb fs.nblocks block then panic else test
