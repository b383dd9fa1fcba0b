-- ===== src/Sfs/File.antt =====
-- sfs_io.c: sfs_partialio, sfs_blockio and sfs_io. The static buffer stands at `iobuf` in memory, and
-- the zeros of uiomovezeros at `zeros_at`. DEVOP_IO on a uio, for the whole blocks, is a parameter. That
-- the big lock is held is not modelled.
pub mod Fill
pub mod Blocks
pub mod Whole
pub mod Aligned
pub mod Read
use prog.Sfs.Io.{Device, Fs, Vnode, readblock, writeblock}
use prog.Sfs.Bmap.{bmap}
use prog.Sfs.Dir.{bytes_of, words_of}
use prog.Libc.Memory.{Memory, bzero}
use prog.Copyinout.{Mmu}
use prog.Uio.{Rw, Uio, is_read, uiomove, uiomovezeros}
use prog.Prelude.Errno.{einval, eio}
use prog.Prelude.{
  ℕ, zero, suc, ◌+◌, ◌-◌, ◌*◌, ◌/◌, ◌%◌, ◌^◌, ltb, leb, ◌==◌, not, ◌&&◌, ◌||◌, if◌then◌else◌, List,
  [], ◌∷◌, Bool, true, false, Option, Run, ret, panic, kassert, ◌>>=◌, ◌>>◌, Reply, ok, err, get_or,
}

-- The bytes of a block in memory.
abbrev pub store_block : ℕ → List ℕ → Memory → Memory
store_block at words mem x =
    if leb at x && ltb x (at + 512) then get_or (bytes_of words) (x - at) 0 else mem x

abbrev pub bytes_at : ℕ → ℕ → Memory → List ℕ
bytes_at at zero mem = []
bytes_at at (suc n) mem = mem at ∷ bytes_at (at + 1) n mem

abbrev pub load_block : ℕ → Memory → List ℕ
load_block at mem = words_of (bytes_at at 512 mem)

-- What a read asks for past the end of the file.
abbrev pub extraresid : Vnode → Uio → ℕ
extraresid sv u =
    if is_read u.rw && ltb sv.size (u.offset + u.resid) then u.offset + u.resid - sv.size else 0

module _ {S : Type 0} (dev : Device S) (devop_io : Uio → Memory → S → Run (ℕ × Uio × Memory × S))
    (mmu : Mmu) (curas : Option ℕ) (iobuf zeros_at : ℕ) where
  abbrev pub Outcome : Type 0
  Outcome = Run (ℕ × Fs S × Vnode × Uio × Memory)

  -- From the filled buffer on.
  unfoldable pub partial_move : Fs S → Vnode → Uio → Memory → ℕ → ℕ → ℕ → Outcome
  partial_move fs sv u mem diskblock skipstart len = do
    (result, u, mem) ← uiomove mmu curas (iobuf + skipstart) len u mem
    let write_back : Outcome = do
      (r, fs) ← writeblock dev fs diskblock (load_block iobuf mem)
      elim r [ err e ↦ ret (e, fs, sv, u, mem) | ok _ ↦ ret (0, fs, sv, u, mem) ]
    if not (result == 0) || is_read u.rw then ret (result, fs, sv, u, mem) else write_back

  unfoldable pub partialio : Fs S → Vnode → Uio → Memory → ℕ → ℕ → Outcome
  partialio fs sv u mem skipstart len = do
    kassert (leb (skipstart + len) 512)
    (r, fs, sv) ← bmap dev fs sv (u.offset / 512 % 2 ^ 32) (not (is_read u.rw))
    elim r [
      | err e ↦ ret (e, fs, sv, u, mem)
      | ok diskblock ↦ do
        let hole : Outcome = do
          kassert (is_read u.rw)
          partial_move fs sv u (bzero iobuf 512 mem) diskblock skipstart len
        let there : Outcome = do
          (r, fs) ← readblock dev fs diskblock
          elim r [
            | err e ↦ ret (e, fs, sv, u, mem)
            | ok words ↦ partial_move fs sv u (store_block iobuf words mem) diskblock skipstart len
          ]
        if diskblock == 0 then hole else there
    ]

  -- sfs_rwblock on a uio, over the tries left.
  unfoldable pub rwblock_uio : ℕ → Uio → Memory → S → Run (ℕ × Uio × Memory × S)
  rwblock_uio zero u mem s = do
    (result, u, mem, s) ← devop_io u mem s
    if result == einval then panic else ret (result, u, mem, s)
  rwblock_uio (suc left) u mem s = do
    (result, u, mem, s) ← devop_io u mem s
    let again = rwblock_uio left u mem s
    if result == einval then panic else if result == eio then again else ret (result, u, mem, s)

  unfoldable pub blockio : Fs S → Vnode → Uio → Memory → Outcome
  blockio fs sv u mem = do
    (r, fs, sv) ← bmap dev fs sv (u.offset / 512 % 2 ^ 32) (not (is_read u.rw))
    elim r [
      | err e ↦ ret (e, fs, sv, u, mem)
      | ok diskblock ↦ do
        let hole : Outcome = do
          kassert (is_read u.rw)
          (result, u, mem) ← uiomovezeros mmu curas zeros_at 512 u mem
          ret (result, fs, sv, u, mem)
        let there : Outcome = do
          let diskoff = diskblock * 512 % 2 ^ 32
          kassert (leb 512 u.resid)
          (result, v, mem, s) ←
              rwblock_uio 10 (record u { offset = diskoff; resid = 512 }) mem fs.disk
          ret (
            result,
            record fs { disk = s },
            sv,
            record v {
              offset = v.offset - diskoff + u.offset;
              resid = (v.resid + u.resid - 512) % 2 ^ 32;
            },
            mem,
          )
        if diskblock == 0 then hole else there
    ]

  -- The loop over the whole blocks.
  unfoldable pub blocks_loop : ℕ → Fs S → Vnode → Uio → Memory → Outcome
  blocks_loop zero fs sv u mem = ret (0, fs, sv, u, mem)
  blocks_loop (suc left) fs sv u mem = do
    (result, fs, sv, u, mem) ← blockio fs sv u mem
    let on = blocks_loop left fs sv u mem
    if result == 0 then on else ret (result, fs, sv, u, mem)

  -- The leading partial block.
  unfoldable pub lead : Fs S → Vnode → Uio → Memory → Outcome
  lead fs sv u mem =
      let blkoff = u.offset % 512 in
      let len = if ltb u.resid (512 - blkoff) then u.resid else 512 - blkoff in
      if blkoff == 0 then ret (0, fs, sv, u, mem) else partialio fs sv u mem blkoff len

  -- The whole blocks and the partial block at the end.
  unfoldable pub aligned_part : Fs S → Vnode → Uio → Memory → Outcome
  aligned_part fs sv u mem = do
    kassert (u.offset % 512 == 0)
    (result, fs, sv, u, mem) ← blocks_loop (u.resid / 512) fs sv u mem
    let last : Outcome = do
      kassert (ltb u.resid 512)
      if u.resid == 0 then ret (0, fs, sv, u, mem) else partialio fs sv u mem 0 u.resid
    if result == 0 then last else ret (result, fs, sv, u, mem)

  -- sfs_io up to its label out.
  unfoldable pub transfer_all : Fs S → Vnode → Uio → Memory → Outcome
  transfer_all fs sv u mem = do
    (result, fs, sv, u, mem) ← lead fs sv u mem
    let on = aligned_part fs sv u mem
    if not (result == 0) || (u.resid == 0) then ret (result, fs, sv, u, mem) else on

  unfoldable pub io : Fs S → Vnode → Uio → Memory → Outcome
  io fs sv u mem =
      let extra = extraresid sv u in
      let go : Outcome = do
        kassert ((extra == 0) || ltb extra u.resid)
        (result, fs, sv', v, mem) ← transfer_all fs sv (record u { resid = u.resid - extra }) mem
        let grows = not (v.resid == u.resid) && not (is_read v.rw) && ltb sv'.size v.offset
        ret (
          result,
          fs,
          if grows then record sv' { size = v.offset % 2 ^ 32; dirty = true } else sv',
          record v { resid = (v.resid + extra) % 2 ^ 32 },
          mem,
        )
      in if is_read u.rw && leb sv.size u.offset then ret (0, fs, sv, u, mem) else go
