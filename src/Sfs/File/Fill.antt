-- ===== src/Sfs/File/Fill.antt =====
-- Moves that fill the buffers of a uio with the bytes of a file.
use prog.Uio.{Rw, uio_read, Seg, Uio, right_space, uiomove}
use prog.Uio.Move.{spot, total, Moved, from_of, to_of, Reach}
use prog.Uio.Ready.{IsReady, Done, amount, Reach-part}
use prog.Uio.Loop.{loop_lem}
use prog.Libc.Memory.{Memory}
use prog.Copyinout.{Mmu}
use prog.Prelude.{
  ℕ, suc, ◌+◌, ◌-◌, ◌^◌, ◌<◌, ◌≤◌, ◌≡◌, ◌≢◌, inl, inr, refl, sym, ap, subst, ◌∙◌, ltb, true, Option,
  ret, arith, length, Bool-cases,
}

-- The same buffers from byte `n` on, and part of the kernel's bytes.
IsReady-later :
    (mmu : Mmu) (seg : Seg) (rw : Rw) (at : ℕ → ℕ) (all ptr k n : ℕ)
    → IsReady mmu seg rw at all ptr k
    → IsReady mmu seg rw (λ i. at (n + i)) (all - n) ptr k
IsReady-later mmu seg rw at all ptr k n ready =
    let no_shift : ptr + 0 ≡ ptr = omega arith in
    record {
      apart = λ i j h l. ready.apart (n + i) j (omega (arith, h)) l;
      single = λ i j h l. ready.single (n + i) (n + j) (omega (arith, h)) (omega (arith, l));
      reach = subst (Reach mmu seg rw (λ i. at (n + i)) (all - n)) no_shift (
          Reach-part mmu seg rw at (λ i. at (n + i)) all (all - n) n ptr 0 (λ i h. omega (arith, h))
            (λ i h. refl) ready.reach);
    }

pub IsReady-within :
    (mmu : Mmu) (seg : Seg) (rw : Rw) (at : ℕ → ℕ) (all ptr k skip len : ℕ)
    → skip + len ≤ k
    → IsReady mmu seg rw at all ptr k
    → IsReady mmu seg rw at all (ptr + skip) len
IsReady-within mmu seg rw at all ptr k skip len low ready = record {
  apart =
      λ i j h l e. ready.apart i (skip + j) h (omega (arith, l, low)) (e ∙ add_assoc ptr skip j);
  single = ready.single;
  reach =
      Reach-part mmu seg rw at at all all 0 ptr skip (λ i h. omega (arith, h))
        (λ i h. ap at (omega arith)) ready.reach;
}
  where
    add_assoc : (a b c : ℕ) → a + b + c ≡ a + (b + c)
    add_assoc a b c = omega arith

module _ (mmu : Mmu) (curas : Option ℕ) (iobuf zeros_at lh_buf : ℕ) where
  -- A uio for reading whose buffers, with their bytes at `at`, are apart from each other and from the
  -- kernel's three buffers.
  pub record IsReader (u : Uio) (at : ℕ → ℕ) (all : ℕ) : Type 0 where
    pub sum : total u.iov ≡ all
    pub agree : (i : ℕ) → i < all → spot u.iov i ≡ at i
    pub fits : u.resid ≤ all
    pub small : u.resid < 2 ^ 32
    pub space : right_space u.segflg curas u.space ≡ true
    pub reads : u.rw ≡ uio_read
    pub via_iobuf : IsReady mmu u.segflg u.rw at all iobuf 512
    pub via_lh : IsReady mmu u.segflg u.rw at all lh_buf 512
    pub via_zeros : IsReady mmu u.segflg u.rw at all zeros_at 16

  -- What is left of the uio after `n` bytes.
  pub record Left (n : ℕ) (u : Uio) (at : ℕ → ℕ) (all : ℕ) (u' : Uio) : Type 0 where
    pub left : total u'.iov + n ≡ all
    pub places : (i : ℕ) → i < total u'.iov → spot u'.iov i ≡ at (n + i)
    pub same : (u'.segflg ≡ u.segflg) × (u'.rw ≡ u.rw) × (u'.space ≡ u.space)
    pub resid : u'.resid + n ≡ u.resid
    pub offset : u'.offset ≡ u.offset + n

  -- `n` bytes of the file with the bytes `content` are in the buffers; memory has changed only there and
  -- in the kernel's two buffers.
  pub record Filled (content : ℕ → ℕ) (n offset : ℕ) (at : ℕ → ℕ) (mem mem' : Memory) : Type 0 where
    pub filled : (i : ℕ) → i < n → mem' (at i) ≡ content (offset + i)
    pub kept :
        (a : ℕ)
        → ((i : ℕ) → i < n → at i ≢ a)
        → ((i : ℕ) → i < 512 → iobuf + i ≢ a)
        → ((i : ℕ) → i < 512 → lh_buf + i ≢ a)
        → mem' a ≡ mem a

  pub IsReader-later :
      (n : ℕ) (u u' : Uio) (at : ℕ → ℕ) (all : ℕ)
      → IsReader u at all
      → Left n u at all u'
      → IsReader u' (λ i. at (n + i)) (all - n)
  IsReader-later n u u' at all r l =
      let carry : (ptr k : ℕ)
          → IsReady mmu u.segflg u.rw at all ptr k
          → IsReady mmu u'.segflg u'.rw (λ i. at (n + i)) (all - n) ptr k =
        λ ptr k ready.
          subst (λ s. IsReady mmu s u'.rw (λ i. at (n + i)) (all - n) ptr k) (sym l.same.0)
            (subst (λ d. IsReady mmu u.segflg d (λ i. at (n + i)) (all - n) ptr k) (sym l.same.1)
              (IsReady-later mmu u.segflg u.rw at all ptr k n ready)) in
      record {
        sum = omega (arith, l.left);
        agree = λ i h. l.places i (omega (arith, h, l.left));
        fits = omega (arith, l.resid, r.fits);
        small = omega (arith, l.resid, r.small);
        space =
            subst (λ s. right_space s curas u'.space ≡ true) (sym l.same.0)
              (subst (λ s. right_space u.segflg curas s ≡ true) (sym l.same.2) r.space);
        reads = l.same.1 ∙ r.reads;
        via_iobuf = carry iobuf 512 r.via_iobuf;
        via_lh = carry lh_buf 512 r.via_lh;
        via_zeros = carry zeros_at 16 r.via_zeros;
      }

  -- uiomove of bytes at `ptr`.
  pub move_from :
      (ptr n : ℕ) (u : Uio) (mem : Memory) (at : ℕ → ℕ) (all : ℕ)
      → IsReader u at all
      → n ≤ u.resid
      → IsReady mmu u.segflg u.rw at all ptr n
      → (u' : Uio) × (mem' : Memory) × (uiomove mmu curas ptr n u mem ≡ ret (0, u', mem'))
        × Left n u at all u'
        × Moved n (λ i. ptr + i) at mem mem'
  unfolding uiomove
  move_from ptr n u mem at all r low ready =
      let (u', mem', run, done) =
        loop_lem mmu u.segflg u.rw u.space (suc (n + length u.iov)) ptr n u.offset u.resid u.iov mem
          at all (omega arith) r.sum r.agree r.fits r.small (inl low) ready in
      let all_moved : amount n u.resid ≡ n = ground (arith, low) in
      let d = subst (λ m. Done u at all ptr m mem u' mem') all_moved done in
      (
        u',
        mem',
        rw r.space run,
        record {
          left = d.left;
          places = d.places;
          same = d.same;
          resid = d.resid;
          offset = d.offset;
        },
        subst (λ dir. Moved n (from_of dir at ptr) (to_of dir at ptr) mem mem') r.reads d.moved,
      )

  -- One after the other.
  pub Left-then :
      (n m : ℕ) (u u1 u2 : Uio) (at : ℕ → ℕ) (all : ℕ)
      → n ≤ all
      → Left n u at all u1
      → Left m u1 (λ i. at (n + i)) (all - n) u2
      → Left (n + m) u at all u2
  Left-then n m u u1 u2 at all low a b = record {
    left = omega (arith, b.left, low);
    places = λ i h. b.places i h ∙ ap at (omega arith);
    same = (b.same.0 ∙ a.same.0, b.same.1 ∙ a.same.1, b.same.2 ∙ a.same.2);
    resid = omega (arith, a.resid, b.resid);
    offset = omega (arith, a.offset, b.offset);
  }

  pub Filled-then :
      (content : ℕ → ℕ) (n m offset : ℕ) (u : Uio) (at : ℕ → ℕ) (all : ℕ) (mem mem1 mem2 : Memory)
      → IsReader u at all
      → n + m ≤ all
      → Filled content n offset at mem mem1
      → Filled content m (offset + n) (λ i. at (n + i)) mem1 mem2
      → Filled content (n + m) offset at mem mem2
  Filled-then content n m offset u at all mem mem1 mem2 r low a b = record {
    filled = λ i h. elim (Bool-cases (ltb i n)) [
      | inl early ↦
          b.kept (at i)
            (λ j l e.
              r.via_iobuf.single i (n + j) (ground (arith, early)) (omega (arith, l, low)) (sym e))
            (λ j l e. r.via_iobuf.apart i j (ground (arith, early, low)) l (sym e))
            (λ j l e. r.via_lh.apart i j (ground (arith, early, low)) l (sym e))
          ∙ a.filled i (ground (arith, early))
      | inr late ↦
          let e : n + (i - n) ≡ i = ground (arith, late) in
          subst (λ t. mem2 (at t) ≡ content (offset + t)) e
            (b.filled (i - n) (ground (arith, late, h)) ∙ ap content (omega arith))
    ];
    kept = λ x out io lh.
        b.kept x (λ i h. out (n + i) (omega (arith, h))) io lh
        ∙ a.kept x (λ i h. out i (omega (arith, h))) io lh;
  }
