-- ===== src/Sfs/Balloc/Laws.antt =====
-- What sfs_balloc and sfs_bfree do to the free map, on each outcome.
use prog.Bitmap
use prog.Bitmap.{Bitmap}
use prog.Bitmap.View
use prog.Bitmap.View.{used}
use prog.Bitmap.Mark.{unmark-used, isset-used, Marked, Unmarked}
use prog.Bitmap.Alloc.{Allocated, alloc_least}
use prog.Sfs.Io.{Device, Fs, zeros, writeblock}
use prog.Sfs.Io.Retry.{Accepts, writeblock_returns}
use prog.Sfs.Balloc.{clearblock, claim, balloc, bfree, bused}
use prog.Prelude.Errno.{enospc}
use prog.Prelude.{
  ℕ, ◌≤◌, ◌<◌, ◌≡◌, ◌≢◌, refl, ◌==◌, ◌&&◌, ◌||◌, not, leb, Bool, true, false, Run, ret, Reply, ok,
  err, ◌⊎◌, inl, inr, arith, ◌∙◌, Bool-cases, subst,
}

-- The block is marked in the free map.
abbrev pub in_use : {S : Type 0} → Fs S → ℕ → Bool
in_use fs j = used fs.freemap j

-- The free map is well formed, and marks the superblock and whatever lies past the volume's end.
pub record IsValid {S : Type 0} (fs : Fs S) : Type 0 where
  pub map : View.IsValid fs.freemap
  pub fits : fs.nblocks ≤ fs.freemap.nbits
  pub superblock : in_use fs 0 ≡ true
  pub beyond : (j : ℕ) → fs.nblocks ≤ j → in_use fs j ≡ true

-- The same volume with the same blocks in use.
pub record Kept {S : Type 0} (fs fs' : Fs S) : Type 0 where
  pub valid : IsValid fs'
  pub volume : fs'.nblocks ≡ fs.nblocks
  pub same : (j : ℕ) → in_use fs' j ≡ in_use fs j

-- The same volume, in which `block` has come into use.
pub record Claimed {S : Type 0} (fs : Fs S) (block : ℕ) (fs' : Fs S) : Type 0 where
  pub valid : IsValid fs'
  pub volume : fs'.nblocks ≡ fs.nblocks
  pub inside : block < fs.nblocks
  pub fresh : in_use fs block ≡ false
  pub more : (j : ℕ) → in_use fs' j ≡ ((block == j) || in_use fs j)

abbrev pub Balloced : {S : Type 0} → Fs S → Run (Reply ℕ × Fs S) → Type 0
Balloced {S} fs r =
    ((e : ℕ) × (fs' : Fs S) × (r ≡ ret (err e, fs')) × Kept fs fs')
    ⊎ ((block : ℕ) × (fs' : Fs S) × (r ≡ ret (ok block, fs')) × Claimed fs block fs')

module _ {S : Type 0} {fs : Fs S} (valid : IsValid fs) where
  -- Only the device's state has changed.
  pub Kept-disk : (s : S) → Kept fs (record fs { disk = s })
  Kept-disk s = record {
    valid = record {
      map = valid.map;
      fits = valid.fits;
      superblock = valid.superblock;
      beyond = valid.beyond;
    };
    volume = refl;
    same = λ j. refl;
  }

  pub bused-in_use : (block : ℕ) → block < fs.nblocks → bused fs block ≡ ret (in_use fs block)
  unfolding bused
  bused-in_use block h =
      let (n, e, nonzero) = isset-used valid.map block (omega (arith, valid.fits)) in
      ground (arith, e, nonzero)

module _ {S : Type 0} (dev : Device S) (accepts : Accepts dev) where
  module _ {fs : Fs S} (valid : IsValid fs) where
    claim-Balloced :
        (block : ℕ) (freemap : Bitmap)
        → block < fs.nblocks
        → in_use fs block ≡ false
        → Marked fs.freemap block freemap
        → Balloced fs (claim dev (record fs { freemap = freemap; freemapdirty = true }) block)
    unfolding claim clearblock
    claim-Balloced block freemap inside fresh marked = go (
        writeblock_returns dev accepts (record fs { freemap = freemap; freemapdirty = true }) block
          zeros)
      where
        fs1 : Fs S
        fs1 = record fs { freemap = freemap; freemapdirty = true }

        restored :
            (freemap' : Bitmap)
            → Unmarked freemap block freemap'
            → (j : ℕ) → used freemap' j ≡ in_use fs j
        restored freemap' back j = elim (Bool-cases (block == j)) [
          | inr other ↦ ground (arith, back.bits j, marked.bits j)
          | inl same ↦
              let e : block ≡ j = ground arith in
              subst (λ t. used freemap' t ≡ in_use fs t) e (ground (arith, back.bits block))
        ]

        go :
            ((r : Reply (Unit {0})) × (s : S) × (writeblock dev fs1 block zeros
                ≡ ret (r, record fs1 { disk = s })))
            → Balloced fs (claim dev fs1 block)
        go (ok _, s, e) = inr (
          block,
          record fs1 { disk = s },
          rw e,
          record {
            valid = record {
              map = marked.valid;
              fits = omega (arith, valid.fits, marked.same_size);
              superblock = ground (arith, marked.bits 0, valid.superblock);
              beyond = λ j h. ground (arith, marked.bits j, valid.beyond j);
            };
            volume = refl;
            inside = inside;
            fresh = fresh;
            more = marked.bits;
          },
        )
        go (err c, s, e) =
            let again = marked.bits block in
            let (freemap', e', back) =
              unmark-used marked.valid block (omega (arith, valid.fits, marked.same_size))
                (ground (arith, again)) in
            inl (
              c,
              record fs1 { freemap = freemap'; disk = s },
              rw (e, e'),
              record {
                valid = record {
                  map = back.valid;
                  fits = omega (arith, valid.fits, marked.same_size, back.same_size);
                  superblock = restored freemap' back 0 ∙ valid.superblock;
                  beyond = λ j h. restored freemap' back j ∙ valid.beyond j h;
                };
                volume = refl;
                same = restored freemap' back;
              },
            )

    -- On a volume with a valid free map, whose device never answers EINVAL, sfs_balloc does not
    -- panic: it fails and leaves the free map as it was, or hands back a block of the volume that was
    -- not in use, and marks just that one.
    pub balloc_fresh : Balloced fs (balloc dev fs)
    unfolding balloc
    balloc_fresh = go (alloc_least valid.map)
      where
        go : Allocated fs.freemap (Bitmap.alloc fs.freemap) → Balloced fs (balloc dev fs)
        go (inl (e, full)) =
            inl (
              enospc,
              fs,
              rw (e, balloc),
              record { valid = valid; volume = refl; same = λ j. refl },
            )
        go (inr (block, freemap, e, inside, fresh, least, marked)) =
            let low : leb fs.nblocks block ≡ false = ground (arith, valid.beyond block) in
            rw (e, low) (claim-Balloced block freemap (ground arith) fresh marked)

-- The same volume, with `block` no longer in use.
pub record Freed {S : Type 0} (fs : Fs S) (block : ℕ) (fs' : Fs S) : Type 0 where
  pub valid : IsValid fs'
  pub volume : fs'.nblocks ≡ fs.nblocks
  pub left : (j : ℕ) → in_use fs' j ≡ (not (block == j) && in_use fs j)

module _ {S : Type 0} {fs : Fs S} (valid : IsValid fs) where
  pub bfree-in_use :
      (b : ℕ)
      → b ≢ 0
      → b < fs.nblocks
      → in_use fs b ≡ true
      → (fs' : Fs S) × (bfree fs b ≡ ret fs') × Freed fs b fs'
  unfolding bfree
  bfree-in_use b nonzero inside marked =
      let (m, e, u) = unmark-used valid.map b (omega (arith, valid.fits)) marked in
      (
        record fs { freemap = m; freemapdirty = true },
        rw e,
        record {
          valid = record {
            map = u.valid;
            fits = omega (arith, valid.fits, u.same_size);
            superblock = ground (arith, u.bits 0, valid.superblock, nonzero);
            beyond = λ j h. ground (arith, u.bits j, valid.beyond j);
          };
          volume = refl;
          left = u.bits;
        },
      )
