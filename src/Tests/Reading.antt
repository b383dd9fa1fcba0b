-- ===== src/Tests/Reading.antt =====
-- Reading a file of 1600 bytes, of which only the second block is there.
use prog.Bitmap.{isset}
use prog.Sfs.Io.{Device, Fs, Vnode}
use prog.Sfs.Balloc.{bused}
use prog.Sfs.Bmap.{hand_back, bmap_direct, bmap}
use prog.Sfs.Dir.{bytes_of}
use prog.Sfs.File.{store_block, io}
use prog.Sfs.File.Blocks.{IsFile, Direct, Reads}
use prog.Sfs.File.Read.{readable_part, io_lem}
use prog.Copyinout.{Mmu}
use prog.Libc.Memory.{Memory}
use prog.Uio.{uio_read, sysspace, Uio, uiomove}
use prog.Uio.Move.{spot, total}
use prog.Uio.Ready.{IsReady}
use prog.Prelude.{
  ℕ, zero, suc, ◌+◌, ◌-◌, ◌*◌, ◌^◌, ◌<◌, ◌≤◌, ◌≡◌, ◌≢◌, ◌⊎◌, inl, inr, refl, sym, ap, subst, ltb,
  leb, ◌&&◌, if◌then◌else◌, List, [], ◌∷◌, true, false, none, Run, ret, ◌>>=◌, Reply, ok, arith,
  get_or, replicate,
}

abbrev words : List ℕ
words = 0x41424344 ∷ []

abbrev disk : Device (Unit {0})
disk = record { read = λ block tries s. (ok words, s); write = λ block words tries s. (ok tt, s) }

abbrev volume : Fs (Unit {0})
volume = record {
  nblocks = 10;
  freemap = record { nbits = 10; v = 3 ∷ 252 ∷ [] };
  freemapdirty = false;
  disk = tt;
}

abbrev sparse : Vnode
sparse = record {
  direct = 0 ∷ 1 ∷ replicate 13 0;
  indirect = 0;
  size = 1600;
  dirty = false;
  kind = 1;
}

abbrev bytes : ℕ → ℕ
bytes i = if leb 512 i && ltb i 1024 then get_or (bytes_of words) (i - 512) 0 else 0

abbrev kernel_only : Mmu
kernel_only = record { readable = λ a. false; writable = λ a. false }

abbrev through_buffer : Uio → Memory → Unit {0} → Run (ℕ × Uio × Memory × Unit {0})
through_buffer u mem s = do
  (result, u, mem) ← uiomove kernel_only none 0x80003000 512 u (store_block 0x80003000 words mem)
  ret (result, u, mem, s)

abbrev Mapped : ℕ → ℕ → Type 0
Mapped k b = bmap disk volume sparse k false ≡ ret (ok b, volume, sparse)

hole_0 : Mapped 0 0
unfolding bmap bmap_direct hand_back bused isset
hole_0 = refl

block_1 : Mapped 1 1
unfolding bmap bmap_direct hand_back bused isset
block_1 = refl

hole_2 : Mapped 2 0
unfolding bmap bmap_direct hand_back bused isset
hole_2 = refl

hole_3 : Mapped 3 0
unfolding bmap bmap_direct hand_back bused isset
hole_3 = refl

no_bytes : (i : ℕ) → (i < 512) ⊎ (1024 ≤ i) → 0 ≡ bytes i
no_bytes i h = let out : (leb 512 i && ltb i 1024) ≡ false = ground (arith, h) in rw out refl

its_bytes : (i : ℕ) → i < 512 → get_or (bytes_of words) i 0 ≡ bytes (1 * 512 + i)
its_bytes i h =
    let inside : (leb 512 (1 * 512 + i) && ltb (1 * 512 + i) 1024) ≡ true = ground (arith, h) in
    let back : 1 * 512 + i - 512 ≡ i = omega arith in rw (inside, back) refl

sparse-IsFile : IsFile disk volume sparse bytes
sparse-IsFile = record { size = omega arith; block = blocks }
  where
    blocks :
        (k : ℕ)
        → k * 512 < 1600
        → (b : ℕ) × Mapped k b
          × (((b ≡ 0) × ((i : ℕ) → i < 512 → 0 ≡ bytes (k * 512 + i)))
              ⊎ ((b ≢ 0)
                  × (b < 2 ^ 23)
                  × (ws : List ℕ) × (disk.read b 0 tt ≡ (ok ws, tt))
                  × ((i : ℕ) → i < 512 → get_or (bytes_of ws) i 0 ≡ bytes (k * 512 + i))))
    blocks zero h = (0, hole_0, inl (refl, λ i l. no_bytes (0 * 512 + i) (omega (arith, l))))
    blocks (suc zero) h = (1, block_1, inr (omega arith, omega arith, words, refl, its_bytes))
    blocks (suc (suc zero)) h =
        (0, hole_2, inl (refl, λ i l. no_bytes (2 * 512 + i) (omega (arith, l))))
    blocks (suc (suc (suc zero))) h =
        (0, hole_3, inl (refl, λ i l. no_bytes (3 * 512 + i) (omega (arith, l))))
    blocks (suc (suc (suc (suc k)))) h = absurd (omega (arith, h))

same_words :
    (ws : List ℕ) (s : Unit {0})
    → ◌≡◌ {A = Reply (List ℕ) × Unit {0}} (ok words, s) (ok ws, s)
    → words ≡ ws
same_words ws s e = cc

moves_direct : Direct disk through_buffer kernel_only none 0x80001000 0x80002000 0x80003000
moves_direct u u' mem mem' s b ws reads pos enough read run =
    let run' =
      subst
        (λ w.
          uiomove kernel_only none 0x80003000 512 u (store_block 0x80003000 w mem)
          ≡ ret (0, u', mem'))
        (sym (same_words ws s read)) run in
    ap (λ r. r >>= λ t. ret (t.0, t.1, t.2, s)) run'

abbrev whole_buffer : Uio
whole_buffer = record {
  iov = record { base = 0x80010000; len = 2000 } ∷ [];
  offset = 100;
  resid = 2000;
  segflg = sysspace;
  rw = uio_read;
  space = none;
}

apart_from :
    (ptr n : ℕ)
    → ptr + n ≤ 0x80010000
    → IsReady kernel_only sysspace uio_read (spot whole_buffer.iov) (total whole_buffer.iov) ptr n
apart_from ptr n low = record {
  apart = λ i j h k e. ground (arith, e, h, k, low);
  single = λ i j h k e. ground (arith, e, h, k);
  reach = tt;
}

io_lem_example :
    Reads disk through_buffer kernel_only none 0x80001000 0x80002000 0x80003000 volume sparse bytes
      sparse-IsFile
      (readable_part sparse whole_buffer)
      whole_buffer
      (λ _. 0)
      (spot whole_buffer.iov)
      (total whole_buffer.iov)
      (io disk through_buffer kernel_only none 0x80001000 0x80002000 volume sparse whole_buffer
        (λ _. 0))
io_lem_example =
    io_lem disk through_buffer kernel_only none 0x80001000 0x80002000 0x80003000 moves_direct volume
      sparse bytes sparse-IsFile (λ i j h k. (omega (arith, h, k), omega (arith, h, k)))
      whole_buffer (λ _. 0)
      (record {
        sum = refl;
        agree = λ i h. refl;
        fits = omega arith;
        small = omega arith;
        space = refl;
        reads = refl;
        via_iobuf = apart_from 0x80001000 512 (omega arith);
        via_lh = apart_from 0x80003000 512 (omega arith);
        via_zeros = apart_from 0x80002000 16 (omega arith);
      })
      (λ j h. refl)
