-- ===== src/Sfs/File/Aligned.antt =====
-- Reading from the start of a block.
use prog.Sfs.Io.{Device, Fs, Vnode}
use prog.Sfs.File.{partialio, blocks_loop, aligned_part}
use prog.Sfs.File.Fill.{IsReader, Left, Filled, IsReader-later}
use prog.Sfs.File.Blocks.{IsFile, Direct, Reads, partialio_lem}
use prog.Sfs.File.Whole.{reads_then, blocks_loop_lem}
use prog.Uio.{Uio}
use prog.Libc.Memory.{Memory}
use prog.Copyinout.{Mmu}
use prog.Prelude.{
  ℕ, ◌+◌, ◌-◌, ◌*◌, ◌/◌, ◌%◌, ◌<◌, ◌≤◌, ◌≡◌, ◌≢◌, inl, inr, refl, subst, ◌∙◌, ltb, ◌==◌, true,
  false, Option, Run, ret, arith, Bool-cases,
}

module _ {S : Type 0} (dev : Device S) (devop_io : Uio → Memory → S → Run (ℕ × Uio × Memory × S))
    (mmu : Mmu) (curas : Option ℕ) (iobuf zeros_at lh_buf : ℕ)
    (direct : Direct dev devop_io mmu curas iobuf zeros_at lh_buf) (fs : Fs S) (sv : Vnode)
    (content : ℕ → ℕ) (file : IsFile dev fs sv content)
    (apart : (i j : ℕ)
      → i < 512
      → j < 16
      → (iobuf + i ≢ zeros_at + j) × (lh_buf + i ≢ zeros_at + j)) where
  abbrev Rd : Uio → (ℕ → ℕ) → ℕ → Type 0
  Rd = IsReader mmu curas iobuf zeros_at lh_buf

  abbrev Rs : ℕ → Uio → Memory → (ℕ → ℕ) → ℕ → Run (ℕ × Fs S × Vnode × Uio × Memory) → Type 0
  Rs = Reads dev devop_io mmu curas iobuf zeros_at lh_buf fs sv content file

  abbrev Zeros : Memory → Type 0
  Zeros mem = (j : ℕ) → j < 16 → mem (zeros_at + j) ≡ 0

  aligned_ends :
      (u u1 : Uio) (mem mem1 : Memory)
      → (u.offset % 512 == 0) ≡ true
      → blocks_loop dev devop_io mmu curas iobuf zeros_at (u.resid / 512) fs sv u mem
        ≡ ret (0, fs, sv, u1, mem1)
      → ltb u1.resid 512 ≡ true
      → (u1.resid == 0) ≡ true
      → aligned_part dev devop_io mmu curas iobuf zeros_at fs sv u mem ≡ ret (0, fs, sv, u1, mem1)
  unfolding aligned_part
  aligned_ends u u1 mem mem1 start run low none_left = rw (start, run, low, none_left) refl

  aligned_more :
      (u u1 : Uio) (mem mem1 : Memory)
      → (u.offset % 512 == 0) ≡ true
      → blocks_loop dev devop_io mmu curas iobuf zeros_at (u.resid / 512) fs sv u mem
        ≡ ret (0, fs, sv, u1, mem1)
      → ltb u1.resid 512 ≡ true
      → (u1.resid == 0) ≡ false
      → aligned_part dev devop_io mmu curas iobuf zeros_at fs sv u mem
        ≡ partialio dev devop_io mmu curas iobuf zeros_at fs sv u1 mem1 0 u1.resid
  unfolding aligned_part
  aligned_more u u1 mem mem1 start run low some_left = rw (start, run, low, some_left) refl

  pub aligned_part_lem :
      (u : Uio) (mem : Memory) (at : ℕ → ℕ) (all : ℕ)
      → Rd u at all
      → Zeros mem
      → u.offset % 512 ≡ 0
      → u.offset + u.resid ≤ sv.size
      → Rs u.resid u mem at all (aligned_part dev devop_io mmu curas iobuf zeros_at fs sv u mem)
  aligned_part_lem u mem at all r clear start inside =
      let n = u.resid / 512 in
      let (u1, mem1, run, l1, f1) =
        blocks_loop_lem dev devop_io mmu curas iobuf zeros_at lh_buf direct fs sv content file apart
          n u mem at all r clear (omega arith) start (omega (arith, inside)) in
      let test : (u.offset % 512 == 0) ≡ true = ground (arith, start) in
      let rest : u1.resid ≡ u.resid % 512 = omega (arith, l1.resid) in
      let low : ltb u1.resid 512 ≡ true = ground (arith, rest) in
      elim (Bool-cases (u1.resid == 0)) [
        | inl none_left ↦
            let all_read : n * 512 ≡ u.resid = ground (arith, none_left, l1.resid) in
            (
              u1,
              mem1,
              aligned_ends u u1 mem mem1 test run low none_left,
              subst (λ m. Left mmu curas iobuf zeros_at lh_buf m u at all u1) all_read l1,
              subst (λ m. Filled mmu curas iobuf zeros_at lh_buf content m u.offset at mem mem1)
                  all_read f1,
            )
        | inr some_left ↦
            let r1 = IsReader-later mmu curas iobuf zeros_at lh_buf (n * 512) u u1 at all r l1 in
            let (u2, mem2, on, l2, f2) =
              partialio_lem dev devop_io mmu curas iobuf zeros_at lh_buf fs sv content file u1 mem1
                (λ i. at (n * 512 + i)) (all - n * 512) 0 u1.resid r1
                (omega (arith, l1.offset, start)) (omega (arith, rest))
                (ground (arith, l1.offset, l1.resid, inside, some_left)) (omega arith)
                (omega (arith, l1.offset, l1.resid, inside)) in
            let (l, f) =
              reads_then dev devop_io mmu curas iobuf zeros_at lh_buf direct fs sv content file
                apart (n * 512) u1.resid u u1 u2 mem mem1 mem2 at all r
                (omega (arith, l1.resid, r.fits)) l1 f1 l2 f2 in
            let sum : n * 512 + u1.resid ≡ u.resid = omega (arith, l1.resid) in
            (
              u2,
              mem2,
              aligned_more u u1 mem mem1 test run low some_left ∙ on,
              subst (λ m. Left mmu curas iobuf zeros_at lh_buf m u at all u2) sum l,
              subst (λ m. Filled mmu curas iobuf zeros_at lh_buf content m u.offset at mem mem2) sum
                  f,
            )
      ]
