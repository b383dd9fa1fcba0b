-- ===== src/Sfs/Metaio.antt =====
-- sfs_io.c: sfs_metaio, as a read or a write of some words of a file, at a position in bytes that is
-- a multiple of four. That the big lock is held is not modelled.
pub mod Splice
pub mod Laws
use prog.Sfs.Io.{Device, Fs, Vnode, readblock, writeblock}
use prog.Sfs.Bmap.{bmap}
use prog.Prelude.{
  ℕ, zero, suc, ◌+◌, ◌*◌, ◌/◌, ◌%◌, ltb, ◌==◌, not, if◌then◌else◌, List, [], ◌∷◌, ◌++◌, true, false,
  Run, ret, wild, kassert, ◌>>=◌, ◌>>◌, Reply, ok, err, length, take, drop, splice, replicate,
}

-- memcpy of `n` words from word `at` of the buffer, and of `words` to it.
abbrev pub copy_out : ℕ → ℕ → List ℕ → Run (List ℕ)
copy_out at n buf = if ltb (length buf) (at + n) then wild else ret (take n (drop at buf))

abbrev pub copy_in : ℕ → List ℕ → List ℕ → Run (List ℕ)
copy_in at words buf =
    if ltb (length buf) (at + length words) then wild else ret (splice at words buf)

module _ {S : Type 0} (dev : Device S) where
  unfoldable pub metaio_read : Fs S → Vnode → ℕ → ℕ → Run (Reply (List ℕ) × Fs S × Vnode)
  metaio_read fs sv pos n = do
    (r, fs, sv) ← bmap dev fs sv (pos / 512) false
    elim r [
      | err e ↦ ret (err e, fs, sv)
      | ok diskblock ↦ do
        let mapped : Run (Reply (List ℕ) × Fs S × Vnode) = do
          (r, fs) ← readblock dev fs diskblock
          elim r [
            | err e ↦ ret (err e, fs, sv)
            | ok buf ↦ do words ← copy_out (pos % 512 / 4) n buf; ret (ok words, fs, sv)
          ]
        if diskblock == 0 then ret (ok (replicate n 0), fs, sv) else mapped
    ]

  -- The end of a write: the block goes back, and the file may have grown.
  unfoldable pub write_back : Fs S → Vnode → ℕ → ℕ → List ℕ → Run (Reply (Unit {0}) × Fs S × Vnode)
  write_back fs sv diskblock endpos buf = do
    (r, fs) ← writeblock dev fs diskblock buf
    elim r [
      | err e ↦ ret (err e, fs, sv)
      | ok _ ↦
          ret (
            ok tt,
            fs,
            if ltb sv.size endpos then record sv { size = endpos; dirty = true } else sv,
          )
    ]

  unfoldable pub metaio_write : Fs S → Vnode → ℕ → List ℕ → Run (Reply (Unit {0}) × Fs S × Vnode)
  metaio_write fs sv pos words = do
    (r, fs, sv) ← bmap dev fs sv (pos / 512) true
    elim r [
      | err e ↦ ret (err e, fs, sv)
      | ok diskblock ↦ do
        kassert (not (diskblock == 0))
        (r, fs) ← readblock dev fs diskblock
        elim r [
          | err e ↦ ret (err e, fs, sv)
          | ok buf ↦ do
            buf ← copy_in (pos % 512 / 4) words buf
            write_back fs sv diskblock (pos + 4 * length words) buf
        ]
    ]
