-- ===== src/Sfs/Bmap.antt =====
-- sfs_bmap.c: sfs_bmap, in the parts that its early returns cut it into.
pub mod Direct
pub mod Safe
use prog.Sfs.Io.{Device, Fs, Vnode, ndirect, dbperidb, zeros, readblock, writeblock}
use prog.Sfs.Balloc.{balloc, bused}
use prog.Prelude.Errno.{efbig}
use prog.Prelude.{
  ℕ, ◌-◌, ◌/◌, ◌%◌, ltb, leb, ◌==◌, not, ◌&&◌, if◌then◌else◌, List, Bool, true, Run, ret, kassert,
  deref, ◌>>=◌, ◌>>◌, Reply, ok, err, get_elem?, set,
}

module _ {S : Type 0} (dev : Device S) where
  abbrev pub Mapped : Type 0
  Mapped = Run (Reply ℕ × Fs S × Vnode)

  -- Hand the block back, after the check that it is marked.
  unfoldable pub hand_back : Fs S → Vnode → ℕ → Mapped
  hand_back fs sv block =
      let checked : Mapped = do marked ← bused fs block; kassert marked; ret (ok block, fs, sv)
      in if block == 0 then ret (ok 0, fs, sv) else checked

  -- A hole among the direct blocks is filled.
  unfoldable pub fresh_direct : Fs S → Vnode → ℕ → Mapped
  fresh_direct fs sv fileblock = do
    (r, fs) ← balloc dev fs
    elim r [
      | err e ↦ ret (err e, fs, sv)
      | ok block ↦
          hand_back fs (record sv { direct = set sv.direct fileblock block; dirty = true }) block
    ]

  unfoldable pub bmap_direct : Fs S → Vnode → ℕ → Bool → Mapped
  bmap_direct fs sv fileblock doalloc = do
    block ← deref (get_elem? sv.direct fileblock)
    if (block == 0) && doalloc then fresh_direct fs sv fileblock else hand_back fs sv block

  -- A hole in the indirect block is filled, and that block written back.
  pub fresh_entry : Fs S → Vnode → ℕ → List ℕ → ℕ → Mapped
  fresh_entry fs sv idblock idbuf idoff = do
    (r, fs) ← balloc dev fs
    elim r [
      | err e ↦ ret (err e, fs, sv)
      | ok block ↦ do
        (w, fs) ← writeblock dev fs idblock (set idbuf idoff block)
        elim w [ err e ↦ ret (err e, fs, sv) | ok _ ↦ hand_back fs sv block ]
    ]

  -- From the filled buffer `idbuf` of the indirect block on.
  pub bmap_entry : Fs S → Vnode → ℕ → List ℕ → ℕ → Bool → Mapped
  bmap_entry fs sv idblock idbuf idoff doalloc = do
    block ← deref (get_elem? idbuf idoff)
    if (block == 0) && doalloc then fresh_entry fs sv idblock idbuf idoff else hand_back fs sv block

  -- There is no indirect block yet: allocate it, and start from a zeroed buffer.
  pub new_indirect : Fs S → Vnode → ℕ → Bool → Mapped
  new_indirect fs sv idoff doalloc = do
    (r, fs) ← balloc dev fs
    elim r [
      | err e ↦ ret (err e, fs, sv)
      | ok idblock ↦
          bmap_entry fs (record sv { indirect = idblock; dirty = true }) idblock zeros idoff doalloc
    ]

  pub old_indirect : Fs S → Vnode → ℕ → Bool → Mapped
  old_indirect fs sv idoff doalloc = do
    (r, fs) ← readblock dev fs sv.indirect
    elim r [
      | err e ↦ ret (err e, fs, sv)
      | ok idbuf ↦ bmap_entry fs sv sv.indirect idbuf idoff doalloc
    ]

  pub bmap_indirect : Fs S → Vnode → ℕ → Bool → Mapped
  bmap_indirect fs sv idoff doalloc =
      if (sv.indirect == 0) && not doalloc
      then ret (ok 0, fs, sv)
      else if sv.indirect == 0
      then new_indirect fs sv idoff doalloc
      else old_indirect fs sv idoff doalloc

  unfoldable pub bmap : Fs S → Vnode → ℕ → Bool → Mapped
  bmap fs sv fileblock doalloc =
      let fileblock' = fileblock - ndirect in
      let idnum = fileblock' / dbperidb in
      let idoff = fileblock' % dbperidb in
      if ltb fileblock ndirect
      then bmap_direct fs sv fileblock doalloc
      else if leb 1 idnum
      then ret (err efbig, fs, sv)
      else bmap_indirect fs sv idoff doalloc
