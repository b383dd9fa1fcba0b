-- ===== src/Sfs/File/Read.antt =====
-- Reading a file with sfs_io.
use prog.Sfs.Io.{Device, Fs, Vnode}
use prog.Sfs.File.{partialio, lead, aligned_part, transfer_all, extraresid, io}
use prog.Sfs.File.Fill.{IsReader, Left, Filled, IsReader-later}
use prog.Sfs.File.Blocks.{IsFile, Direct, Reads, partialio_lem}
use prog.Sfs.File.Whole.{Clear-Filled, reads_then, nothing_read}
use prog.Sfs.File.Aligned.{aligned_part_lem}
use prog.Uio.{Uio, is_read}
use prog.Uio.Move.{spot, total}
use prog.Libc.Memory.{Memory}
use prog.Copyinout.{Mmu}
use prog.Prelude.{
  ℕ, ◌+◌, ◌-◌, ◌%◌, ◌^◌, ◌<◌, ◌≤◌, ◌≡◌, ◌≢◌, ◌⊎◌, inl, inr, refl, ap, subst, ◌∙◌, ltb, leb, ◌==◌,
  not, ◌&&◌, ◌||◌, if◌then◌else◌, true, false, Option, Run, ret, arith, Bool-cases,
}

-- How much there is to read.
abbrev pub readable_part : Vnode → Uio → ℕ
readable_part sv u = if ltb sv.size (u.offset + u.resid) then sv.size - u.offset else u.resid

module _ {S : Type 0} (dev : Device S) (devop_io : Uio → Memory → S → Run (ℕ × Uio × Memory × S))
    (mmu : Mmu) (curas : Option ℕ) (iobuf zeros_at lh_buf : ℕ)
    (direct : Direct dev devop_io mmu curas iobuf zeros_at lh_buf) (fs : Fs S) (sv : Vnode)
    (content : ℕ → ℕ) (file : IsFile dev fs sv content)
    (apart : (i j : ℕ)
      → i < 512
      → j < 16
      → (iobuf + i ≢ zeros_at + j) × (lh_buf + i ≢ zeros_at + j)) where
  abbrev Rd : Uio → (ℕ → ℕ) → ℕ → Type 0
  Rd = IsReader mmu curas iobuf zeros_at lh_buf

  abbrev Rs : ℕ → Uio → Memory → (ℕ → ℕ) → ℕ → Run (ℕ × Fs S × Vnode × Uio × Memory) → Type 0
  Rs = Reads dev devop_io mmu curas iobuf zeros_at lh_buf fs sv content file

  abbrev Zeros : Memory → Type 0
  Zeros mem = (j : ℕ) → j < 16 → mem (zeros_at + j) ≡ 0

  abbrev lead_len : Uio → ℕ
  lead_len u = if ltb u.resid (512 - u.offset % 512) then u.resid else 512 - u.offset % 512

  lead_whole :
      (u : Uio) (mem : Memory)
      → (u.offset % 512 == 0) ≡ true
      → lead dev devop_io mmu curas iobuf zeros_at fs sv u mem ≡ ret (0, fs, sv, u, mem)
  unfolding lead
  lead_whole u mem start = rw start refl

  lead_part :
      (u : Uio) (mem : Memory)
      → (u.offset % 512 == 0) ≡ false
      → lead dev devop_io mmu curas iobuf zeros_at fs sv u mem
        ≡ partialio dev devop_io mmu curas iobuf zeros_at fs sv u mem (u.offset % 512) (lead_len u)
  unfolding lead
  lead_part u mem start = rw start refl

  -- After the leading part, nothing is left or the rest is aligned.
  abbrev Led : Uio → Memory → (ℕ → ℕ) → ℕ → Type 0
  Led u mem at all =
      (n : ℕ) × (n ≤ u.resid)
      × ((n ≡ u.resid) ⊎ ((u.offset + n) % 512 ≡ 0))
      × Rs n u mem at all (lead dev devop_io mmu curas iobuf zeros_at fs sv u mem)

  lead_lem :
      (u : Uio) (mem : Memory) (at : ℕ → ℕ) (all : ℕ)
      → Rd u at all
      → u.offset < sv.size
      → u.offset + u.resid ≤ sv.size
      → Led u mem at all
  lead_lem u mem at all r before_end inside = elim (Bool-cases (u.offset % 512 == 0)) [
    | inl start ↦
        let (u1, mem1, run, l, f) =
          nothing_read dev devop_io mmu curas iobuf zeros_at lh_buf direct fs sv content file apart
            u mem at all r in
        (
          0,
          omega arith,
          inr (ground (arith, start)),
          (u1, mem1, lead_whole u mem start ∙ run, l, f),
        )
    | inr part ↦
        let bounds : (lead_len u ≤ u.resid)
            × (u.offset % 512 + lead_len u ≤ 512)
            × ((lead_len u ≡ u.resid) ⊎ ((u.offset + lead_len u) % 512 ≡ 0)) =
          len_lem in
        let (low, room, way) = bounds in
        let (u1, mem1, run, l, f) =
          partialio_lem dev devop_io mmu curas iobuf zeros_at lh_buf fs sv content file u mem at all
            (u.offset % 512) (lead_len u) r refl room before_end low (omega (arith, low, inside)) in
        (lead_len u, low, way, (u1, mem1, lead_part u mem part ∙ run, l, f))
  ]
    where
      len_lem :
          (lead_len u ≤ u.resid)
          × (u.offset % 512 + lead_len u ≤ 512)
          × ((lead_len u ≡ u.resid) ⊎ ((u.offset + lead_len u) % 512 ≡ 0))
      len_lem = elim (Bool-cases (ltb u.resid (512 - u.offset % 512))) [
        | inl short ↦ rw short (omega arith, ground (arith, short), inl refl)
        | inr long ↦ rw long (ground (arith, long), omega arith, inr (omega arith))
      ]

  all_ends :
      (u u1 : Uio) (mem mem1 : Memory)
      → lead dev devop_io mmu curas iobuf zeros_at fs sv u mem ≡ ret (0, fs, sv, u1, mem1)
      → (u1.resid == 0) ≡ true
      → transfer_all dev devop_io mmu curas iobuf zeros_at fs sv u mem ≡ ret (0, fs, sv, u1, mem1)
  unfolding transfer_all
  all_ends u u1 mem mem1 run none_left = rw (run, none_left) refl

  all_more :
      (u u1 : Uio) (mem mem1 : Memory)
      → lead dev devop_io mmu curas iobuf zeros_at fs sv u mem ≡ ret (0, fs, sv, u1, mem1)
      → (u1.resid == 0) ≡ false
      → transfer_all dev devop_io mmu curas iobuf zeros_at fs sv u mem
        ≡ aligned_part dev devop_io mmu curas iobuf zeros_at fs sv u1 mem1
  unfolding transfer_all
  all_more u u1 mem mem1 run some_left = rw (run, some_left) refl

  transfer_all_lem :
      (u : Uio) (mem : Memory) (at : ℕ → ℕ) (all : ℕ)
      → Rd u at all
      → Zeros mem
      → u.offset < sv.size
      → u.offset + u.resid ≤ sv.size
      → Rs u.resid u mem at all (transfer_all dev devop_io mmu curas iobuf zeros_at fs sv u mem)
  transfer_all_lem u mem at all r clear before_end inside =
      let (n, low, way, (u1, mem1, run, l1, f1)) = lead_lem u mem at all r before_end inside in
      elim (Bool-cases (u1.resid == 0)) [
        | inl none_left ↦
            let all_read : n ≡ u.resid = ground (arith, none_left, l1.resid) in
            (
              u1,
              mem1,
              all_ends u u1 mem mem1 run none_left,
              subst (λ m. Left mmu curas iobuf zeros_at lh_buf m u at all u1) all_read l1,
              subst (λ m. Filled mmu curas iobuf zeros_at lh_buf content m u.offset at mem mem1)
                  all_read f1,
            )
        | inr some_left ↦
            let start : u1.offset % 512 ≡ 0 = ground (arith, way, l1.offset, l1.resid, some_left) in
            let r1 = IsReader-later mmu curas iobuf zeros_at lh_buf n u u1 at all r l1 in
            let fits : n ≤ all = omega (arith, low, r.fits) in
            let clear1 =
              Clear-Filled dev devop_io mmu curas iobuf zeros_at lh_buf direct fs sv content file
                apart n u mem mem1 at all r fits f1 clear in
            let (u2, mem2, on, l2, f2) =
              aligned_part_lem dev devop_io mmu curas iobuf zeros_at lh_buf direct fs sv content
                file apart u1 mem1 (λ i. at (n + i)) (all - n) r1 clear1 start
                (omega (arith, l1.offset, l1.resid, inside)) in
            let (l, f) =
              reads_then dev devop_io mmu curas iobuf zeros_at lh_buf direct fs sv content file
                apart n u1.resid u u1 u2 mem mem1 mem2 at all r (omega (arith, l1.resid, r.fits)) l1
                f1 l2 f2 in
            let sum : n + u1.resid ≡ u.resid = omega (arith, l1.resid) in
            (
              u2,
              mem2,
              all_more u u1 mem mem1 run some_left ∙ on,
              subst (λ m. Left mmu curas iobuf zeros_at lh_buf m u at all u2) sum l,
              subst (λ m. Filled mmu curas iobuf zeros_at lh_buf content m u.offset at mem mem2) sum
                  f,
            )
      ]

  io_at_end :
      (u : Uio) (mem : Memory)
      → is_read u.rw ≡ true
      → leb sv.size u.offset ≡ true
      → io dev devop_io mmu curas iobuf zeros_at fs sv u mem ≡ ret (0, fs, sv, u, mem)
  unfolding io
  io_at_end u mem reading past = rw (reading, past) refl

  io_runs :
      (u u1 : Uio) (mem mem1 : Memory) (extra : ℕ)
      → is_read u.rw ≡ true
      → leb sv.size u.offset ≡ false
      → extraresid sv u ≡ extra
      → ((extra == 0) || ltb extra u.resid) ≡ true
      → is_read u1.rw ≡ true
      → transfer_all dev devop_io mmu curas iobuf zeros_at fs sv
          (record u { resid = u.resid - extra })
          mem
        ≡ ret (0, fs, sv, u1, mem1)
      → io dev devop_io mmu curas iobuf zeros_at fs sv u mem
        ≡ ret (0, fs, sv, record u1 { resid = (u1.resid + extra) % 2 ^ 32 }, mem1)
  unfolding io
  io_runs u u1 mem mem1 extra reading before more fits still run =
      let no_growth : (not (u1.resid == u.resid) && not (is_read u1.rw) && ltb sv.size u1.offset)
          ≡ false =
        elim (Bool-cases (u1.resid == u.resid)) [
          | inl e ↦ rw e refl
          | inr e ↦ rw (e, still) refl
        ] in
      rw (more, reading, before, fits, run, no_growth) refl

  -- sfs_io on a uio for reading, that holds as many bytes as uio_resid says and whose buffers are apart
  -- from each other and from the kernel's, of a file whose blocks can all be read: it returns 0 and
  -- reads from uio_offset up to the end of the file, or what uio_resid asks for if that is less; the
  -- bytes stand in the buffers in their order, holes as zeros, and no memory changes but these places
  -- and the two block buffers. uio_offset goes up and uio_resid down by as much; past the end of the
  -- file nothing is read. The volume and the inode are as they were.
  pub io_lem :
      (u : Uio) (mem : Memory)
      → IsReader mmu curas iobuf zeros_at lh_buf u (spot u.iov) (total u.iov)
      → Zeros mem
      → Rs
          (readable_part sv u)
          u
          mem
          (spot u.iov)
          (total u.iov)
          (io dev devop_io mmu curas iobuf zeros_at fs sv u mem)
  io_lem u mem r clear =
      let at = spot u.iov in
      let all = total u.iov in
      let reading : is_read u.rw ≡ true = ap is_read r.reads in
      elim (Bool-cases (leb sv.size u.offset)) [
        | inl past ↦
            let none_left : 0 ≡ readable_part sv u = ground (arith, past) in
            let (u1, mem1, same, l, f) =
              nothing_read dev devop_io mmu curas iobuf zeros_at lh_buf direct fs sv content file
                apart u mem at all r in
            subst (λ n. Rs n u mem at all (io dev devop_io mmu curas iobuf zeros_at fs sv u mem))
              none_left (u1, mem1, io_at_end u mem reading past ∙ same, l, f)
        | inr before ↦
            let extra =
              if ltb sv.size (u.offset + u.resid) then u.offset + u.resid - sv.size else 0 in
            let sum : (readable_part sv u + extra ≡ u.resid)
                × (u.offset + readable_part sv u ≤ sv.size)
                × (((extra == 0) || ltb extra u.resid) ≡ true) =
              parts before in
            let (parts, inside, fits) = sum in
            let v : Uio = record u { resid = u.resid - extra } in
            let asked : v.resid ≡ readable_part sv u = omega (arith, parts) in
            let r' : Rd v at all = record {
              sum = r.sum;
              agree = r.agree;
              fits = omega (arith, r.fits);
              small = omega (arith, r.small);
              space = r.space;
              reads = r.reads;
              via_iobuf = r.via_iobuf;
              via_lh = r.via_lh;
              via_zeros = r.via_zeros;
            } in
            let (u1, mem1, run, l, f) =
              transfer_all_lem v mem at all r' clear (ground (arith, before))
                (omega (arith, inside, asked)) in
            let still : is_read u1.rw ≡ true = ap is_read (l.same.1 ∙ r.reads) in
            let more : extraresid sv u ≡ extra = rw reading refl in
            subst (λ n. Rs n u mem at all (io dev devop_io mmu curas iobuf zeros_at fs sv u mem))
              asked
              (
                record u1 { resid = (u1.resid + extra) % 2 ^ 32 },
                mem1,
                io_runs u u1 mem mem1 extra reading before more fits still run,
                record {
                  left = l.left;
                  places = l.places;
                  same = l.same;
                  resid = omega (arith, l.resid, parts, asked, r.small);
                  offset = l.offset;
                },
                record { filled = f.filled; kept = f.kept },
              )
      ]
    where
      parts :
          leb sv.size u.offset ≡ false
          → let extra =
              if ltb sv.size (u.offset + u.resid) then u.offset + u.resid - sv.size else 0 in
            (readable_part sv u + extra ≡ u.resid)
            × (u.offset + readable_part sv u ≤ sv.size)
            × (((extra == 0) || ltb extra u.resid) ≡ true)
      parts before = elim (Bool-cases (ltb sv.size (u.offset + u.resid))) [
        | inl over ↦
            rw over
              (ground (arith, over, before), ground (arith, before), ground (arith, over, before))
        | inr within ↦ rw within (omega arith, ground (arith, within), refl)
      ]
