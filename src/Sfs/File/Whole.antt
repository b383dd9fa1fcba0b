-- ===== src/Sfs/File/Whole.antt =====
-- Reading a whole block, and the loop over them.
use prog.Sfs.Io.{Device, Fs, Vnode}
use prog.Sfs.Bmap.{bmap}
use prog.Sfs.Dir.{bytes_of}
use prog.Sfs.File.{store_block, blockio, blocks_loop}
use prog.Sfs.File.Fill.{IsReader, Left, Filled, IsReader-later, move_from, Left-then, Filled-then}
use prog.Sfs.File.Blocks.{stored, IsFile, Direct, Reads, block_hole, block_there}
use prog.Uio.{Uio, is_read, zeros_loop, uiomovezeros}
use prog.Uio.Laws.{Ready0, zeros_loop_lem}
use prog.Libc.Memory.{Memory}
use prog.Copyinout.{Mmu}
use prog.Prelude.{
  ℕ, zero, suc, ◌+◌, ◌-◌, ◌*◌, ◌/◌, ◌%◌, ◌^◌, ◌<◌, ◌≤◌, ◌≡◌, ◌≢◌, inl, inr, refl, sym, ap, subst,
  ◌∙◌, leb, ◌==◌, List, true, false, Option, Run, ret, ok, arith, get_or, test_ne,
}

module _ {S : Type 0} (dev : Device S) (devop_io : Uio → Memory → S → Run (ℕ × Uio × Memory × S))
    (mmu : Mmu) (curas : Option ℕ) (iobuf zeros_at lh_buf : ℕ)
    (direct : Direct dev devop_io mmu curas iobuf zeros_at lh_buf) (fs : Fs S) (sv : Vnode)
    (content : ℕ → ℕ) (file : IsFile dev fs sv content)
    (apart : (i j : ℕ)
      → i < 512
      → j < 16
      → (iobuf + i ≢ zeros_at + j) × (lh_buf + i ≢ zeros_at + j)) where
  abbrev pub Clear : Memory → Type 0
  Clear mem = (j : ℕ) → j < 16 → mem (zeros_at + j) ≡ 0

  zeros_eq :
      (u : Uio) (mem : Memory)
      → is_read u.rw ≡ true
      → uiomovezeros mmu curas zeros_at 512 u mem ≡ zeros_loop mmu curas zeros_at 513 512 u mem
  unfolding uiomovezeros
  zeros_eq u mem reading = rw reading refl

  hole_lem :
      (u : Uio) (mem : Memory) (at : ℕ → ℕ) (all k b : ℕ)
      → IsReader mmu curas iobuf zeros_at lh_buf u at all
      → Clear mem
      → 512 ≤ u.resid
      → bmap dev fs sv (u.offset / 512 % 2 ^ 32) false ≡ ret (ok b, fs, sv)
      → b ≡ 0
      → u.offset ≡ k * 512
      → ((i : ℕ) → i < 512 → 0 ≡ content (k * 512 + i))
      → Reads dev devop_io mmu curas iobuf zeros_at lh_buf fs sv content file 512 u mem at all
          (blockio dev devop_io mmu curas iobuf zeros_at fs sv u mem)
  hole_lem u mem at all k b r clear low mapped hole pos zero_bytes =
      let reading : is_read u.rw ≡ true = ap is_read r.reads in
      let test : (b == 0) ≡ true = ground (arith, hole) in
      let ready : Ready0 mmu curas zeros_at 512 u mem at all = record {
        sum = r.sum;
        agree = r.agree;
        fits = r.fits;
        small = r.small;
        enough = low;
        space = r.space;
        reads = r.reads;
        ready = r.via_zeros;
        clear = clear;
      } in
      let (u', mem', run, z) =
        zeros_loop_lem mmu curas zeros_at 513 512 u mem at all (omega arith) ready in
      (
        u',
        mem',
        block_hole dev devop_io mmu curas iobuf zeros_at lh_buf fs sv content file u mem b reading
            mapped u' mem' test (zeros_eq u mem reading ∙ run),
        record {
          left = z.left;
          places = z.places;
          same = z.same;
          resid = z.resid;
          offset = z.offset;
        },
        record {
          filled = λ i h. z.zeroed i h ∙ zero_bytes i h ∙ ap content (omega (arith, pos));
          kept = λ a out io lh. z.kept a out;
        },
      )

  there_lem :
      (u : Uio) (mem : Memory) (at : ℕ → ℕ) (all k b : ℕ) (words : List ℕ)
      → IsReader mmu curas iobuf zeros_at lh_buf u at all
      → 512 ≤ u.resid
      → bmap dev fs sv (u.offset / 512 % 2 ^ 32) false ≡ ret (ok b, fs, sv)
      → b ≢ 0
      → b < 2 ^ 23
      → u.offset ≡ k * 512
      → dev.read b 0 fs.disk ≡ (ok words, fs.disk)
      → ((i : ℕ) → i < 512 → get_or (bytes_of words) i 0 ≡ content (k * 512 + i))
      → Reads dev devop_io mmu curas iobuf zeros_at lh_buf fs sv content file 512 u mem at all
          (blockio dev devop_io mmu curas iobuf zeros_at fs sv u mem)
  there_lem u mem at all k b words r low mapped ne small pos read bytes =
      let reading : is_read u.rw ≡ true = ap is_read r.reads in
      let test : (b == 0) ≡ false = test_ne b 0 ne in
      let enough : leb 512 u.resid ≡ true = ground (arith, low) in
      let off = b * 512 % 2 ^ 32 in
      let whole : off ≡ b * 512 = omega (arith, small) in
      let v : Uio = record u { offset = off; resid = 512 } in
      let r' : IsReader mmu curas iobuf zeros_at lh_buf v at all = record {
        sum = r.sum;
        agree = r.agree;
        fits = omega (arith, low, r.fits);
        small = omega arith;
        space = r.space;
        reads = r.reads;
        via_iobuf = r.via_iobuf;
        via_lh = r.via_lh;
        via_zeros = r.via_zeros;
      } in
      let (v', mem', run, left, moved) =
        move_from mmu curas iobuf zeros_at lh_buf lh_buf 512 v (store_block lh_buf words mem) at all
          r' (omega arith) r.via_lh in
      let device = direct v v' mem mem' fs.disk b words r.reads whole refl read run in
      (
        record v' {
          offset = v'.offset - off + u.offset;
          resid = (v'.resid + u.resid - 512) % 2 ^ 32;
        },
        mem',
        block_there dev devop_io mmu curas iobuf zeros_at lh_buf fs sv content file u mem b reading
            mapped v' mem' test enough device,
        record {
          left = left.left;
          places = left.places;
          same = left.same;
          resid = omega (arith, left.resid, low, r.small);
          offset = omega (arith, left.offset);
        },
        record {
          filled = λ i h.
              moved.0 i h
              ∙ (stored lh_buf words mem).0 i h
              ∙ bytes i h
              ∙ ap content (omega (arith, pos));
          kept = λ a out io lh. moved.1 a out ∙ (stored lh_buf words mem).1 a lh;
        },
      )

  abbrev pub Reader : Uio → (ℕ → ℕ) → ℕ → Type 0
  Reader = IsReader mmu curas iobuf zeros_at lh_buf

  abbrev pub ReadsOf :
      ℕ → Uio → Memory → (ℕ → ℕ) → ℕ → Run (ℕ × Fs S × Vnode × Uio × Memory) → Type 0
  ReadsOf = Reads dev devop_io mmu curas iobuf zeros_at lh_buf fs sv content file

  blockio_lem :
      (u : Uio) (mem : Memory) (at : ℕ → ℕ) (all : ℕ)
      → Reader u at all
      → Clear mem
      → 512 ≤ u.resid
      → u.offset % 512 ≡ 0
      → u.offset + 512 ≤ sv.size
      → ReadsOf 512 u mem at all (blockio dev devop_io mmu curas iobuf zeros_at fs sv u mem)
  blockio_lem u mem at all r clear low start inside =
      let k = u.offset / 512 in
      let number : k % 2 ^ 32 ≡ k = omega (arith, inside, file.size) in
      let pos : u.offset ≡ k * 512 = omega (arith, start) in
      let (b, mapped, what) = file.block k (omega (arith, inside)) in
      let mapped' = subst (λ t. bmap dev fs sv t false ≡ ret (ok b, fs, sv)) (sym number) mapped in
      elim what [
        | inl (hole, zero_bytes) ↦ hole_lem u mem at all k b r clear low mapped' hole pos zero_bytes
        | inr (ne, small, words, read, bytes) ↦
            there_lem u mem at all k b words r low mapped' ne small pos read bytes
      ]

  -- The zeros stay.
  pub Clear-Filled :
      (n : ℕ) (u : Uio) (mem mem' : Memory) (at : ℕ → ℕ) (all : ℕ)
      → Reader u at all
      → n ≤ all
      → Filled mmu curas iobuf zeros_at lh_buf content n u.offset at mem mem'
      → Clear mem
      → Clear mem'
  Clear-Filled n u mem mem' at all r low f clear j h =
      f.kept (zeros_at + j) (λ i k. r.via_zeros.apart i j (omega (arith, k, low)) h)
        (λ i k. (apart i j k h).0) (λ i k. (apart i j k h).1)
      ∙ clear j h

  -- One read after the other.
  pub reads_then :
      (n m : ℕ) (u u1 u2 : Uio) (mem mem1 mem2 : Memory) (at : ℕ → ℕ) (all : ℕ)
      → Reader u at all
      → n + m ≤ all
      → Left mmu curas iobuf zeros_at lh_buf n u at all u1
      → Filled mmu curas iobuf zeros_at lh_buf content n u.offset at mem mem1
      → Left mmu curas iobuf zeros_at lh_buf m u1 (λ i. at (n + i)) (all - n) u2
      → Filled mmu curas iobuf zeros_at lh_buf content m u1.offset (λ i. at (n + i)) mem1 mem2
      → Left mmu curas iobuf zeros_at lh_buf (n + m) u at all u2
        × Filled mmu curas iobuf zeros_at lh_buf content (n + m) u.offset at mem mem2
  reads_then n m u u1 u2 mem mem1 mem2 at all r low l1 f1 l2 f2 = (
    Left-then mmu curas iobuf zeros_at lh_buf n m u u1 u2 at all (omega (arith, low)) l1 l2,
    Filled-then mmu curas iobuf zeros_at lh_buf content n m u.offset u at all mem mem1 mem2 r low f1
        (subst (λ o. Filled mmu curas iobuf zeros_at lh_buf content m o (λ i. at (n + i)) mem1 mem2)
          l1.offset f2),
  )

  pub nothing_read :
      (u : Uio) (mem : Memory) (at : ℕ → ℕ) (all : ℕ)
      → Reader u at all
      → ReadsOf 0 u mem at all (ret (0, fs, sv, u, mem))
  nothing_read u mem at all r = (
    u,
    mem,
    refl,
    record {
      left = omega (arith, r.sum);
      places = λ i h. r.agree i (omega (arith, h, r.sum)) ∙ ap at (omega arith);
      same = (refl, refl, refl);
      resid = omega arith;
      offset = omega arith;
    },
    record { filled = λ i h. omega (arith, h); kept = λ a out io lh. refl },
  )

  loop_step :
      (left : ℕ) (u u1 : Uio) (mem mem1 : Memory)
      → blockio dev devop_io mmu curas iobuf zeros_at fs sv u mem ≡ ret (0, fs, sv, u1, mem1)
      → blocks_loop dev devop_io mmu curas iobuf zeros_at (suc left) fs sv u mem
        ≡ blocks_loop dev devop_io mmu curas iobuf zeros_at left fs sv u1 mem1
  unfolding blocks_loop
  loop_step left u u1 mem mem1 run = rw run refl

  pub blocks_loop_lem :
      (left : ℕ) (u : Uio) (mem : Memory) (at : ℕ → ℕ) (all : ℕ)
      → Reader u at all
      → Clear mem
      → left * 512 ≤ u.resid
      → u.offset % 512 ≡ 0
      → u.offset + left * 512 ≤ sv.size
      → ReadsOf
          (left * 512)
          u
          mem
          at
          all
          (blocks_loop dev devop_io mmu curas iobuf zeros_at left fs sv u mem)
  unfolding blocks_loop
  blocks_loop_lem zero u mem at all r clear low start inside =
      let none_left : 0 * 512 ≡ 0 = omega arith in
      subst (λ n. ReadsOf n u mem at all (ret (0, fs, sv, u, mem))) (sym none_left)
        (nothing_read u mem at all r)
  blocks_loop_lem (suc left) u mem at all r clear low start inside =
      let (u1, mem1, run, l1, f1) =
        blockio_lem u mem at all r clear (omega (arith, low)) start (omega (arith, inside)) in
      let r1 = IsReader-later mmu curas iobuf zeros_at lh_buf 512 u u1 at all r l1 in
      let clear1 = Clear-Filled 512 u mem mem1 at all r (omega (arith, low, r.fits)) f1 clear in
      let (u2, mem2, on, l2, f2) =
        blocks_loop_lem left u1 mem1 (λ i. at (512 + i)) (all - 512) r1 clear1
          (omega (arith, l1.resid, low)) (omega (arith, l1.offset, start))
          (omega (arith, l1.offset, inside)) in
      let sum : 512 + left * 512 ≡ suc left * 512 = omega arith in
      let (l, f) =
        reads_then 512 (left * 512) u u1 u2 mem mem1 mem2 at all r (omega (arith, low, r.fits)) l1
          f1 l2 f2 in
      (
        u2,
        mem2,
        loop_step left u u1 mem mem1 run ∙ on,
        subst (λ n. Left mmu curas iobuf zeros_at lh_buf n u at all u2) sum l,
        subst (λ n. Filled mmu curas iobuf zeros_at lh_buf content n u.offset at mem mem2) sum f,
      )
