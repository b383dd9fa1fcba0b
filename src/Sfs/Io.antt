-- ===== src/Sfs/Io.antt =====
-- sfs_io.c: sfs_rwblock, sfs_readblock and sfs_writeblock over a device. A block is its 128 words.
pub mod Retry
use prog.Bitmap.{Bitmap}
use prog.Prelude.Errno.{einval, eio}
use prog.Prelude.{
  ℕ, zero, suc, ◌==◌, if◌then◌else◌, List, Bool, Run, ret, panic, ◌>>=◌, Reply, ok, err, replicate,
}

-- The block device below the file system: DEVOP_IO for one block, as a read or a write. The first
-- number is the block, the second how many attempts have been made with the same uio before: what they
-- have left of it is up to the device.
pub record Device (S : Type 0) : Type 0 where
  pub read : ℕ → ℕ → S → Reply (List ℕ) × S
  pub write : ℕ → List ℕ → ℕ → S → Reply (Unit {0}) × S

-- struct sfs_fs, with the device's state.
pub record Fs (S : Type 0) : Type 0 where
  pub nblocks : ℕ
  pub freemap : Bitmap
  pub freemapdirty : Bool
  pub disk : S

-- The part of struct sfs_vnode that holds the inode.
pub record Vnode : Type 0 where
  pub direct : List ℕ
  pub indirect : ℕ
  pub size : ℕ
  pub dirty : Bool
  pub kind : ℕ

abbrev pub ndirect : ℕ
ndirect = 15

abbrev pub dbperidb : ℕ
dbperidb = 128

unfoldable pub zeros : List ℕ
zeros = replicate 128 0

-- The retry loop, after `tries` attempts and with `left` more retries.
unfoldable pub rwblock_from : {S A : Type 0} → (ℕ → S → Reply A × S) → ℕ → ℕ → S → Run (Reply A × S)
rwblock_from io tries zero s =
    let (r, s') = io tries s in
    elim r [ ok a ↦ ret (ok a, s') | err e ↦ if e == einval then panic else ret (err e, s') ]
rwblock_from io tries (suc left) s =
    let (r, s') = io tries s in
    let again = rwblock_from io (suc tries) left s' in
    elim r [
      | ok a ↦ ret (ok a, s')
      | err e ↦ if e == einval then panic else if e == eio then again else ret (err e, s')
    ]

-- Ten retries.
unfoldable pub rwblock : {S A : Type 0} → (ℕ → S → Reply A × S) → S → Run (Reply A × S)
rwblock io s = rwblock_from io 0 10 s

module _ {S : Type 0} (dev : Device S) where
  unfoldable pub readblock : Fs S → ℕ → Run (Reply (List ℕ) × Fs S)
  readblock fs block = do (r, s) ← rwblock (dev.read block) fs.disk; ret (r, record fs { disk = s })

  unfoldable pub writeblock : Fs S → ℕ → List ℕ → Run (Reply (Unit {0}) × Fs S)
  writeblock fs block words = do
    (r, s) ← rwblock (dev.write block words) fs.disk
    ret (r, record fs { disk = s })
