-- ===== src/Tests/Sfs.antt =====
-- Tests of kern/fs/sfs: a volume of ten blocks, of which only the superblock is in use.
use prog.Bitmap.{Bitmap, alloc, alloc_loop, alloc_in, scan_offset, mark_leftover, isset}
use prog.Bitmap.View
use prog.Bitmap.View.{used, set_bit-IsValid, used-set_bit}
use prog.Bitmap.Create.{padded, padded-IsValid}
use prog.Sfs.Io.{Device, Fs, Vnode, zeros, rwblock_from, rwblock, writeblock}
use prog.Sfs.Io.Retry.{Accepts, Decided, rwblock_lem}
use prog.Sfs.Balloc.{clearblock, claim, balloc, bused}
use prog.Sfs.Balloc.Laws.{IsValid, in_use, Balloced, balloc_fresh}
use prog.Sfs.Bmap.{hand_back, fresh_direct, bmap_direct, bmap}
use prog.Sfs.Bmap.Direct.{IsSound, DirectMapped, bmap_direct_lem, bmap_stable}
use prog.Sfs.Bmap.Safe.{Answers, bmap_safe}
use prog.Sfs.Trunc.{blocks_of, itrunc}
use prog.Sfs.Trunc.Loops.{cut, freed, Released, NoRepeat, AllOwned-of_each, elem}
use prog.Sfs.Trunc.Laws.{itrunc_no_indirect}
use prog.Prelude.Errno.{eio}
use prog.Prelude.{
  ◌%◌, ◌^◌, ℕ, zero, suc, ◌≡◌, ◌≢◌, refl, List, [], ◌∷◌, Bool, true, false, ret, Reply, ok, err,
  inl, inr, arith, leb, replicate, set, bit_or, get_elem?-replicate,
}

abbrev map10 : Bitmap
map10 = record (padded 10) { v = set (padded 10).v 0 (bit_or 0 1) }

abbrev dev : Device (Unit {0})
dev = record { read = λ block tries s. (ok zeros, s); write = λ block words tries s. (ok tt, s) }

abbrev fs : Fs (Unit {0})
fs = record { nblocks = 10; freemap = map10; freemapdirty = false; disk = tt }

abbrev sv : Vnode
sv = record { direct = replicate 15 0; indirect = 0; size = 0; dirty = false; kind = 1 }

dev-Accepts : Accepts dev
dev-Accepts = record { reads = λ block tries s e. cc; writes = λ block words tries s e. cc }

map10-IsValid : View.IsValid map10
unfolding mark_leftover
map10-IsValid = set_bit-IsValid (padded-IsValid 10 (omega arith)) 0 0 0 refl (omega arith)

map10_zero : used map10 0 ≡ true
unfolding used mark_leftover
map10_zero = refl

fs-IsValid : IsValid fs
fs-IsValid = record {
  map = map10-IsValid;
  fits = omega arith;
  superblock = map10_zero;
  beyond = λ j h. map10-IsValid.leftover j h;
}

sv-IsSound : IsSound fs sv
sv-IsSound = record {
  size = refl;
  owned = λ i b e. let z : 0 ≡ b = get_elem?-replicate {A = ℕ} 15 i 0 b e in inl (omega arith);
}

-- A device whose state counts the failures to come.
abbrev flaky : ℕ → ℕ → Reply (List ℕ) × ℕ
flaky tries zero = (ok zeros, 0)
flaky tries (suc n) = (err eio, n)

rwblock_runs : rwblock flaky 10 ≡ ret (ok zeros, 0)
unfolding rwblock rwblock_from
rwblock_runs = refl

rwblock_lem_example : Decided flaky 11 (rwblock flaky 11)
rwblock_lem_example = rwblock_lem flaky 11

balloc_fresh_example : Balloced fs (balloc dev fs)
balloc_fresh_example = balloc_fresh dev dev-Accepts fs-IsValid

bmap_direct_lem_example : DirectMapped fs sv 3 true (bmap dev fs sv 3 true)
bmap_direct_lem_example =
    bmap_direct_lem dev dev-Accepts fs-IsValid sv sv-IsSound 3 true (omega arith)

bmap_safe_example : Answers fs true (bmap dev fs sv 20 true)
bmap_safe_example = bmap_safe dev dev-Accepts fs-IsValid sv true (inl refl) 20 sv-IsSound

-- After the first allocation block 1 is in use, as direct block 3.
abbrev fs1 : Fs (Unit {0})
fs1 = record fs { freemap = record map10 { v = 3 ∷ 252 ∷ [] }; freemapdirty = true }

abbrev sv1 : Vnode
sv1 = record sv { direct = set sv.direct 3 1; dirty = true }

bmap_runs : bmap dev fs sv 3 true ≡ ret (ok 1, fs1, sv1)
unfolding bmap bmap_direct fresh_direct hand_back balloc claim clearblock writeblock rwblock
    rwblock_from bused alloc alloc_loop alloc_in scan_offset isset mark_leftover
bmap_runs = refl

bmap_stable_example :
    IsValid fs1
    × IsSound fs1 sv1
    × (◌≢◌ {A = ℕ} 1 0)
    × ((again : Bool) → bmap dev fs1 sv1 3 again ≡ ret (ok 1, fs1, sv1))
bmap_stable_example = bmap_stable dev dev-Accepts fs-IsValid sv sv-IsSound 3 (omega arith) bmap_runs

stable :
    IsValid fs1
    × IsSound fs1 sv1
    × (◌≢◌ {A = ℕ} 1 0)
    × ((again : Bool) → bmap dev fs1 sv1 3 again ≡ ret (ok 1, fs1, sv1))
stable = bmap_stable dev dev-Accepts fs-IsValid sv sv-IsSound 3 (omega arith) bmap_runs

fs1-IsValid : IsValid fs1
fs1-IsValid = stable.0

one_used : in_use fs1 1 ≡ true
unfolding used
one_used = refl

sv1-NoRepeat : NoRepeat sv1.direct
unfolding elem
sv1-NoRepeat = (
  inl refl,
  (
    inl refl,
    (
      inl refl,
      (
        inr refl,
        (
          inl refl,
          (
            inl refl,
            (
              inl refl,
              (
                inl refl,
                (
                  inl refl,
                  (inl refl, (inl refl, (inl refl, (inl refl, (inl refl, (inl refl, tt)))))),
                ),
              ),
            ),
          ),
        ),
      ),
    ),
  ),
)

itrunc_no_indirect_example :
    (fs' : Fs (Unit {0})) × (itrunc dev fs1 sv1 600
      ≡ ret (
        ok tt,
        fs',
        record sv1 {
          direct = cut (leb (blocks_of 600)) 0 sv1.direct;
          size = 600 % 2 ^ 32;
          dirty = true;
        },
      ))
    × Released fs1 (freed (leb (blocks_of 600)) 0 sv1.direct) fs'
itrunc_no_indirect_example =
    itrunc_no_indirect fs1-IsValid dev sv1 600 refl (AllOwned-of_each fs1 sv1.direct stable.1.owned)
      sv1-NoRepeat

no_more : elem 1 [] ≡ false
unfolding elem
no_more = refl
