-- ===== src/Uio/Ready.antt =====
-- What a move needs of the buffers, what it does, and moves one after the other.
use prog.Uio.{Rw, uio_read, uio_write, Seg, userispace, userspace, sysspace, Uio}
use prog.Uio.Move.{spot, total, Moved, Moved-then, Moved-same, from_of, to_of, Touchable, Reach}
use prog.Libc.Memory.{Memory}
use prog.Copyinout.{Mmu, userspacetop}
use prog.Prelude.{
  ℕ, ◌+◌, ◌-◌, ◌<◌, ◌≤◌, ◌≡◌, ◌≢◌, refl, sym, subst, ◌∙◌, ltb, if◌then◌else◌, true, arith,
}

-- The buffers are apart from each other and from the kernel's `n` bytes, and can be reached.
pub record IsReady (mmu : Mmu) (seg : Seg) (rw : Rw) (at : ℕ → ℕ) (m ptr n : ℕ) : Type 0 where
  pub apart : (i j : ℕ) → i < m → j < n → at i ≢ ptr + j
  pub single : (i j : ℕ) → i < j → j < m → at i ≢ at j
  pub reach : Reach mmu seg rw at m ptr

-- A move of `m` bytes: the uio afterwards, and memory.
pub record Done (u : Uio) (at : ℕ → ℕ) (all ptr m : ℕ) (mem : Memory) (u' : Uio) (mem' : Memory)
    : Type 0 where
  pub left : total u'.iov + m ≡ all
  pub places : (i : ℕ) → i < total u'.iov → spot u'.iov i ≡ at (m + i)
  pub resid : u'.resid + m ≡ u.resid
  pub offset : u'.offset ≡ u.offset + m
  pub same : (u'.segflg ≡ u.segflg) × (u'.rw ≡ u.rw) × (u'.space ≡ u.space)
  pub moved : Moved m (from_of u.rw at ptr) (to_of u.rw at ptr) mem mem'

abbrev pub amount : ℕ → ℕ → ℕ
amount n resid = if ltb n resid then n else resid

pub Touchable-part :
    (mmu : Mmu) (rw : Rw) (at at' : ℕ → ℕ) (m m' s : ℕ)
    → ((i : ℕ) → i < m' → s + i < m)
    → ((i : ℕ) → i < m' → at (s + i) ≡ at' i)
    → Touchable mmu rw at m
    → Touchable mmu rw at' m'
Touchable-part mmu uio_read at at' m m' s low same all = λ i h.
    let (user, fine) = all (s + i) (low i h) in
    (
      subst (λ a. a < userspacetop) (same i h) user,
      subst (λ a. mmu.writable a ≡ true) (same i h) fine,
    )
Touchable-part mmu uio_write at at' m m' s low same all = λ i h.
    let (user, fine) = all (s + i) (low i h) in
    (
      subst (λ a. a < userspacetop) (same i h) user,
      subst (λ a. mmu.readable a ≡ true) (same i h) fine,
    )

pub Reach-part :
    (mmu : Mmu) (seg : Seg) (rw : Rw) (at at' : ℕ → ℕ) (m m' s ptr d : ℕ)
    → ((i : ℕ) → i < m' → s + i < m)
    → ((i : ℕ) → i < m' → at (s + i) ≡ at' i)
    → Reach mmu seg rw at m ptr
    → Reach mmu seg rw at' m' (ptr + d)
Reach-part mmu sysspace rw at at' m m' s ptr d low same reach = tt
Reach-part mmu userspace rw at at' m m' s ptr d low same (kernel, all) =
    (omega (arith, kernel), Touchable-part mmu rw at at' m m' s low same all)
Reach-part mmu userispace rw at at' m m' s ptr d low same (kernel, all) =
    (omega (arith, kernel), Touchable-part mmu rw at at' m m' s low same all)

-- What is left of it after `s` bytes.
pub IsReady-rest :
    (mmu : Mmu) (seg : Seg) (rw : Rw) (at : ℕ → ℕ) (m ptr n s : ℕ)
    → s ≤ n
    → s ≤ m
    → IsReady mmu seg rw at m ptr n
    → IsReady mmu seg rw (λ i. at (s + i)) (m - s) (ptr + s) (n - s)
IsReady-rest mmu seg rw at m ptr n s low low' ready = record {
  apart = λ i j h k e.
      ready.apart (s + i) (s + j) (omega (arith, h)) (omega (arith, k)) (e ∙ add_assoc ptr s j);
  single = λ i j h k. ready.single (s + i) (s + j) (omega (arith, h)) (omega (arith, k));
  reach =
      Reach-part mmu seg rw at (λ i. at (s + i)) m (m - s) s ptr s (λ i h. omega (arith, h))
        (λ i h. refl) ready.reach;
}
  where
    add_assoc : (a b c : ℕ) → a + b + c ≡ a + (b + c)
    add_assoc a b c = omega arith

-- Two moves, one after the other.
pub two_moves :
    (rw : Rw) (at : ℕ → ℕ) (ptr s m all n : ℕ) (mem mem1 mem2 : Memory)
    → s + m ≤ all
    → s + m ≤ n
    → ((i j : ℕ) → i < all → j < n → at i ≢ ptr + j)
    → ((i j : ℕ) → i < j → j < all → at i ≢ at j)
    → Moved s (from_of rw at ptr) (to_of rw at ptr) mem mem1
    → Moved m
        (from_of rw (λ i. at (s + i)) (ptr + s))
        (to_of rw (λ i. at (s + i)) (ptr + s))
        mem1
        mem2
    → Moved (s + m) (from_of rw at ptr) (to_of rw at ptr) mem mem2
two_moves uio_read at ptr s m all n mem mem1 mem2 fits fits' apart single first second =
    Moved-then s m (from_of uio_read at ptr) (to_of uio_read at ptr) mem mem1 mem2
      (λ i j h k. apart i (s + j) (omega (arith, h, k, fits)) (omega (arith, k, fits')))
      (λ i j h k e. single i (s + j) (omega (arith, h)) (omega (arith, k, fits)) (sym e)) first
      (Moved-same m _ _ (λ i. ptr + (s + i)) (λ i. at (s + i)) mem1 mem2 (λ i h. omega arith)
        (λ i h. refl) second)
two_moves uio_write at ptr s m all n mem mem1 mem2 fits fits' apart single first second =
    Moved-then s m (from_of uio_write at ptr) (to_of uio_write at ptr) mem mem1 mem2
      (λ i j h k e. apart (s + j) i (omega (arith, k, fits)) (omega (arith, h, k, fits')) (sym e))
      (λ i j h k e. omega (arith, e, h)) first
      (Moved-same m _ _ (λ i. at (s + i)) (λ i. ptr + (s + i)) mem1 mem2 (λ i h. refl)
        (λ i h. omega arith) second)
