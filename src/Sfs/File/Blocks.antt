-- ===== src/Sfs/File/Blocks.antt =====
-- Reading a part of a block, and a whole block.
use prog.Sfs.Io.{Device, Fs, Vnode, readblock, rwblock}
use prog.Sfs.Io.Retry.{rwblock_done}
use prog.Sfs.Bmap.{bmap}
use prog.Sfs.Dir.{bytes_of}
use prog.Sfs.File.{store_block, partial_move, partialio, rwblock_uio, blockio}
use prog.Sfs.File.Fill.{IsReady-within, IsReader, Left, Filled, move_from}
use prog.Uio.{uio_read, Uio, is_read, uiomove, uiomovezeros}
use prog.Libc.Memory.{Memory, bzero}
use prog.Libc.Memory.Copies.{bzero_lem}
use prog.Copyinout.{Mmu}
use prog.Prelude.{
  ℕ, ◌+◌, ◌-◌, ◌*◌, ◌/◌, ◌%◌, ◌^◌, ◌<◌, ◌≤◌, ◌≡◌, ◌≢◌, ◌⊎◌, inl, inr, refl, sym, ap, subst, ◌∙◌,
  ltb, leb, ◌==◌, ◌&&◌, List, true, false, Option, Run, ret, ok, arith, get_or, Bool-cases, test_ne,
}

pub stored :
    (at : ℕ) (words : List ℕ) (mem : Memory)
    → ((i : ℕ) → i < 512 → store_block at words mem (at + i) ≡ get_or (bytes_of words) i 0)
      × ((a : ℕ) → ((i : ℕ) → i < 512 → at + i ≢ a) → store_block at words mem a ≡ mem a)
stored at words mem = (
  λ i h.
      let inside : (leb at (at + i) && ltb (at + i) (at + 512)) ≡ true = ground (arith, h) in
      let back : at + i - at ≡ i = omega arith in rw (inside, back) refl,
  λ a out. elim (Bool-cases (leb at a && ltb a (at + 512))) [
    | inl inside ↦ absurd (out (a - at) (ground (arith, inside)) (ground (arith, inside)))
    | inr outside ↦ rw outside refl
  ],
)

cleared :
    (at : ℕ) (mem : Memory)
    → ((i : ℕ) → i < 512 → bzero at 512 mem (at + i) ≡ 0)
      × ((a : ℕ) → ((i : ℕ) → i < 512 → at + i ≢ a) → bzero at 512 mem a ≡ mem a)
cleared at mem = (
  λ i h.
      bzero_lem at 512 mem (at + i)
      ∙ (let inside : (leb at (at + i) && ltb (at + i) (at + 512)) ≡ true = ground (arith, h) in
          rw inside refl),
  λ a out. elim (Bool-cases (leb at a && ltb a (at + 512))) [
    | inl inside ↦ absurd (out (a - at) (ground (arith, inside)) (ground (arith, inside)))
    | inr outside ↦ bzero_lem at 512 mem a ∙ rw outside refl
  ],
)

-- A file whose blocks can be read: a hole, that reads as zeros, or a block that the device reads at the
-- first attempt without changing its state. `content` are the bytes of the file.
pub record IsFile {S : Type 0} (dev : Device S) (fs : Fs S) (sv : Vnode) (content : ℕ → ℕ)
    : Type 0 where
  pub size : sv.size < 2 ^ 32
  pub block :
      (k : ℕ)
      → k * 512 < sv.size
      → (b : ℕ) × (bmap dev fs sv k false ≡ ret (ok b, fs, sv))
        × (((b ≡ 0) × ((i : ℕ) → i < 512 → 0 ≡ content (k * 512 + i)))
            ⊎ ((b ≢ 0)
                × (b < 2 ^ 23)
                × (words : List ℕ) × (dev.read b 0 fs.disk ≡ (ok words, fs.disk))
                × ((i : ℕ) → i < 512 → get_or (bytes_of words) i 0 ≡ content (k * 512 + i))))

module _ {S : Type 0} (dev : Device S) (devop_io : Uio → Memory → S → Run (ℕ × Uio × Memory × S))
    (mmu : Mmu) (curas : Option ℕ) (iobuf zeros_at lh_buf : ℕ) where
  -- DEVOP_IO of one block that the device can read moves it from the device's buffer to the uio.
  abbrev pub Direct : Type 0
  Direct =
      (u u' : Uio) (mem mem' : Memory) (s : S) (b : ℕ) (words : List ℕ)
      → u.rw ≡ uio_read
      → u.offset ≡ b * 512
      → u.resid ≡ 512
      → dev.read b 0 s ≡ (ok words, s)
      → uiomove mmu curas lh_buf 512 u (store_block lh_buf words mem) ≡ ret (0, u', mem')
      → devop_io u mem s ≡ ret (0, u', mem', s)

  module _ (fs : Fs S) (sv : Vnode) (content : ℕ → ℕ) (file : IsFile dev fs sv content) where
    -- A call reads `n` bytes of the file and changes neither the volume nor the inode.
    abbrev pub Reads :
        ℕ → Uio → Memory → (ℕ → ℕ) → ℕ → Run (ℕ × Fs S × Vnode × Uio × Memory) → Type 0
    Reads n u mem at all r =
        (u' : Uio) × (mem' : Memory) × (r ≡ ret (0, fs, sv, u', mem'))
        × Left mmu curas iobuf zeros_at lh_buf n u at all u'
        × Filled mmu curas iobuf zeros_at lh_buf content n u.offset at mem mem'

    partial_move_lem :
        (u : Uio) (mem mem0 : Memory) (at : ℕ → ℕ) (all skip len k b : ℕ)
        → IsReader mmu curas iobuf zeros_at lh_buf u at all
        → skip + len ≤ 512
        → len ≤ u.resid
        → u.offset ≡ k * 512 + skip
        → ((i : ℕ) → i < 512 → mem0 (iobuf + i) ≡ content (k * 512 + i))
        → ((a : ℕ) → ((i : ℕ) → i < 512 → iobuf + i ≢ a) → mem0 a ≡ mem a)
        → Reads len u mem at all
            (partial_move dev devop_io mmu curas iobuf zeros_at fs sv u mem0 b skip len)
    unfolding partial_move
    partial_move_lem u mem mem0 at all skip len k b r room low pos full same =
        let (u', mem', run, left, moved) =
          move_from mmu curas iobuf zeros_at lh_buf (iobuf + skip) len u mem0 at all r low
            (IsReady-within mmu u.segflg u.rw at all iobuf 512 skip len room r.via_iobuf) in
        let reading : is_read u'.rw ≡ true = ap is_read (left.same.1 ∙ r.reads) in
        (
          u',
          mem',
          rw (run, reading) refl,
          left,
          record {
            filled = λ i h.
                moved.0 i h
                ∙ ap mem0 (add_assoc iobuf skip i)
                ∙ full (skip + i) (omega (arith, h, room))
                ∙ ap content (omega (arith, pos));
            kept = λ a out io lh. moved.1 a out ∙ same a io;
          },
        )
      where
        add_assoc : (a b c : ℕ) → a + b + c ≡ a + (b + c)
        add_assoc a b c = omega arith

    -- The two ways through the body of partialio and blockio.
    module _ (u : Uio) (mem : Memory) (b : ℕ) (reading : is_read u.rw ≡ true)
        (mapped : bmap dev fs sv (u.offset / 512 % 2 ^ 32) false ≡ ret (ok b, fs, sv)) where
      partial_hole :
          (skip len : ℕ)
          → leb (skip + len) 512 ≡ true
          → (b == 0) ≡ true
          → partialio dev devop_io mmu curas iobuf zeros_at fs sv u mem skip len
            ≡ partial_move dev devop_io mmu curas iobuf zeros_at fs sv u
                (bzero iobuf 512 mem)
                b
                skip
                len
      unfolding partialio
      partial_hole skip len fits hole = rw (fits, reading, mapped, hole, reading) refl

      partial_there :
          (skip len : ℕ) (words : List ℕ)
          → leb (skip + len) 512 ≡ true
          → (b == 0) ≡ false
          → rwblock (dev.read b) fs.disk ≡ ret (ok words, fs.disk)
          → partialio dev devop_io mmu curas iobuf zeros_at fs sv u mem skip len
            ≡ partial_move dev devop_io mmu curas iobuf zeros_at fs sv u
                (store_block iobuf words mem)
                b
                skip
                len
      unfolding partialio readblock
      partial_there skip len words fits there once = rw (fits, reading, mapped, there, once) refl

      pub block_hole :
          (u' : Uio) (mem' : Memory)
          → (b == 0) ≡ true
          → uiomovezeros mmu curas zeros_at 512 u mem ≡ ret (0, u', mem')
          → blockio dev devop_io mmu curas iobuf zeros_at fs sv u mem ≡ ret (0, fs, sv, u', mem')
      unfolding blockio
      block_hole u' mem' hole run = rw (reading, mapped, hole, reading, run) refl

      pub block_there :
          (u' : Uio) (mem' : Memory)
          → (b == 0) ≡ false
          → leb 512 u.resid ≡ true
          → devop_io (record u { offset = b * 512 % 2 ^ 32; resid = 512 }) mem fs.disk
            ≡ ret (0, u', mem', fs.disk)
          → blockio dev devop_io mmu curas iobuf zeros_at fs sv u mem
            ≡ ret (
              0,
              fs,
              sv,
              record u' {
                offset = u'.offset - b * 512 % 2 ^ 32 + u.offset;
                resid = (u'.resid + u.resid - 512) % 2 ^ 32;
              },
              mem',
            )
      unfolding blockio rwblock_uio
      block_there u' mem' there enough run = rw (reading, mapped, there, enough, run) refl

    pub partialio_lem :
        (u : Uio) (mem : Memory) (at : ℕ → ℕ) (all skip len : ℕ)
        → IsReader mmu curas iobuf zeros_at lh_buf u at all
        → skip ≡ u.offset % 512
        → skip + len ≤ 512
        → u.offset < sv.size
        → len ≤ u.resid
        → u.offset + len ≤ sv.size
        → Reads len u mem at all
            (partialio dev devop_io mmu curas iobuf zeros_at fs sv u mem skip len)
    partialio_lem u mem at all skip len r at_skip room before_end low inside =
        let k = u.offset / 512 in
        let number : u.offset / 512 % 2 ^ 32 ≡ k = omega (arith, before_end, file.size) in
        let pos : u.offset ≡ k * 512 + skip = omega (arith, at_skip) in
        let fits : leb (skip + len) 512 ≡ true = ground (arith, room) in
        let reading : is_read u.rw ≡ true = ap is_read r.reads in
        let (b, mapped, what) = file.block k (omega (arith, before_end)) in
        let mapped' =
          subst (λ t. bmap dev fs sv t false ≡ ret (ok b, fs, sv)) (sym number) mapped in
        elim what [
          | inl (hole, zero_bytes) ↦
              let test : (b == 0) ≡ true = ground (arith, hole) in
              let (u', mem', run, left, filled) =
                partial_move_lem u mem (bzero iobuf 512 mem) at all skip len k b r room low pos
                  (λ i h. (cleared iobuf mem).0 i h ∙ zero_bytes i h) (cleared iobuf mem).1 in
              (
                u',
                mem',
                partial_hole u mem b reading mapped' skip len fits test ∙ run,
                left,
                filled,
              )
          | inr (ne, _, words, read, bytes) ↦
              let test : (b == 0) ≡ false = test_ne b 0 ne in
              let once = rwblock_done (dev.read b) fs.disk fs.disk words read in
              let (u', mem', run, left, filled) =
                partial_move_lem u mem (store_block iobuf words mem) at all skip len k b r room low
                  pos (λ i h. (stored iobuf words mem).0 i h ∙ bytes i h)
                  (stored iobuf words mem).1 in
              (
                u',
                mem',
                partial_there u mem b reading mapped' skip len words fits test once ∙ run,
                left,
                filled,
              )
        ]
