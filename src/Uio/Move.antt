-- ===== src/Uio/Move.antt =====
-- uiomove as one copy between the kernel's bytes and those of the buffers, in order.
use prog.Uio.{Rw, uio_read, uio_write, Seg, userispace, userspace, sysspace, Iovec, transfer_bytes}
use prog.Libc.Memory.{Memory, memmove}
use prog.Libc.Memory.Copies.{moved, memmove_lem}
use prog.Copyinout.{Mmu, userspacetop, copyin, copyout}
use prog.Copyinout.Region.{Within, copyin_lem, copyout_lem}
use prog.Prelude.{
  ℕ, ◌+◌, ◌-◌, ◌<◌, ◌≤◌, ◌≡◌, ◌≢◌, inl, inr, refl, sym, ap, subst, ◌∙◌, ltb, leb, ◌&&◌,
  if◌then◌else◌, List, [], ◌∷◌, Bool, true, arith, Bool-cases,
}

-- Byte `i` of the buffers, and how many they hold.
abbrev pub spot : List Iovec → ℕ → ℕ
spot [] i = 0
spot (v ∷ vs) i = if ltb i v.len then v.base + i else spot vs (i - v.len)

abbrev pub total : List Iovec → ℕ
total [] = 0
total (v ∷ vs) = v.len + total vs

-- `m` bytes are copied, and no other byte changes.
abbrev pub Moved : ℕ → (ℕ → ℕ) → (ℕ → ℕ) → Memory → Memory → Type 0
Moved m from to mem mem' =
    ((i : ℕ) → i < m → mem' (to i) ≡ mem (from i))
    × ((a : ℕ) → ((i : ℕ) → i < m → to i ≢ a) → mem' a ≡ mem a)

pub Moved-then :
    (s m : ℕ) (from to : ℕ → ℕ) (mem mem1 mem2 : Memory)
    → ((i j : ℕ) → i < s → j < m → to i ≢ from (s + j))
    → ((i j : ℕ) → i < s → j < m → to (s + j) ≢ to i)
    → Moved s from to mem mem1
    → Moved m (λ i. from (s + i)) (λ i. to (s + i)) mem1 mem2
    → Moved (s + m) from to mem mem2
Moved-then s m from to mem mem1 mem2 apart differ (first, kept) (second, kept') = (
  λ i h. elim (Bool-cases (ltb i s)) [
    | inl early ↦
        kept' (to i) (λ j l. differ i j (ground (arith, early)) l) ∙ first i (ground (arith, early))
    | inr late ↦
        let e : s + (i - s) ≡ i = ground (arith, late) in
        subst (λ t. mem2 (to t) ≡ mem (from t)) e
          (second (i - s) (ground (arith, late, h))
            ∙ kept (from (s + (i - s))) (λ j l. apart j (i - s) l (ground (arith, late, h))))
  ],
  λ a out.
      kept' a (λ i l. out (s + i) (omega (arith, l))) ∙ kept a (λ i l. out i (omega (arith, l))),
)

moved-Moved :
    (dst src len : ℕ) (mem mem' : Memory)
    → ((x : ℕ) → mem' x ≡ moved dst src dst (dst + len) mem x)
    → Moved len (λ i. src + i) (λ i. dst + i) mem mem'
moved-Moved dst src len mem mem' so = (
  λ i h.
      let back : src + (dst + i - dst) ≡ src + i = omega arith in
      let hit : (leb dst (dst + i) && ltb (dst + i) (dst + len)) ≡ true = ground (arith, h) in
      so (dst + i) ∙ rw (hit, back) refl,
  λ a out. elim (Bool-cases (leb dst a && ltb a (dst + len))) [
    | inl inside ↦ absurd (out (a - dst) (ground (arith, inside)) (ground (arith, inside)))
    | inr outside ↦ so a ∙ rw outside refl
  ],
)

pub Moved-same :
    (m : ℕ) (from to from' to' : ℕ → ℕ) (mem mem' : Memory)
    → ((i : ℕ) → i < m → from i ≡ from' i)
    → ((i : ℕ) → i < m → to i ≡ to' i)
    → Moved m from to mem mem'
    → Moved m from' to' mem mem'
Moved-same m from to from' to' mem mem' f t (copied, kept) = (
  λ i h. ap mem' (sym (t i h)) ∙ copied i h ∙ ap mem (f i h),
  λ a out. kept a (λ i h e. out i h (sym (t i h) ∙ e)),
)

-- Where byte `i` comes from and goes to, for buffers with the bytes at `at`.
abbrev pub from_of : Rw → (ℕ → ℕ) → ℕ → ℕ → ℕ
from_of uio_read at ptr i = ptr + i
from_of uio_write at ptr i = at i

abbrev pub to_of : Rw → (ℕ → ℕ) → ℕ → ℕ → ℕ
to_of uio_read at ptr i = at i
to_of uio_write at ptr i = ptr + i

-- Bytes of user space that the process may touch.
abbrev pub Touchable : Mmu → Rw → (ℕ → ℕ) → ℕ → Type 0
Touchable mmu uio_read at m = (i : ℕ) → i < m → (at i < userspacetop) × (mmu.writable (at i) ≡ true)
Touchable mmu uio_write at m =
    (i : ℕ) → i < m → (at i < userspacetop) × (mmu.readable (at i) ≡ true)

-- Buffers in the kernel, or in user space with the other side in the kernel.
abbrev pub Reach : Mmu → Seg → Rw → (ℕ → ℕ) → ℕ → ℕ → Type 0
Reach mmu sysspace rw at m ptr = Unit {0}
Reach mmu _ rw at m ptr = (userspacetop ≤ ptr) × Touchable mmu rw at m

whole_region :
    (touch : ℕ → Bool) (base size : ℕ)
    → 0 < size
    → ((i : ℕ) → i < size → (base + i < userspacetop) × (touch (base + i) ≡ true))
    → Within base size
whole_region touch base size some_bytes all =
    (some_bytes, omega (arith, (all (size - 1) (omega (arith, some_bytes))).0, some_bytes))

pair_of : (r : ℕ × Memory) → r.0 ≡ 0 → r ≡ (0, r.1)
pair_of (a, b) e = ap (λ z. (z, b)) e

module _ (mmu : Mmu) (base ptr size : ℕ) (mem : Memory) (some_bytes : 0 < size) where
  user_out :
      userspacetop ≤ ptr
      → Touchable mmu uio_read (λ i. base + i) size
      → (mem1 : Memory) × (copyout mmu ptr base size mem ≡ (0, mem1))
        × Moved size (λ i. ptr + i) (λ i. base + i) mem mem1
  user_out kernel all =
      let within = whole_region mmu.writable base size some_bytes all in
      elim (copyout_lem mmu ptr base size mem (omega (arith, within.1, within.0))
        (omega (arith, within.1)) kernel) [
          | inr (outside, e) ↦ absurd (outside within)
          | inl (_, inr (e, k, low, bad, _, _, _, _, _)) ↦
              absurd (ground (arith, (all k low).1, bad))
          | inl (_, inl (e, _, copied)) ↦ (
            (copyout mmu ptr base size mem).1,
            pair_of _ e,
            moved-Moved base ptr size mem _ copied,
          )
        ]

  user_in :
      userspacetop ≤ ptr
      → Touchable mmu uio_write (λ i. base + i) size
      → (mem1 : Memory) × (copyin mmu base ptr size mem ≡ (0, mem1))
        × Moved size (λ i. base + i) (λ i. ptr + i) mem mem1
  user_in kernel all =
      let within = whole_region mmu.readable base size some_bytes all in
      elim (copyin_lem mmu base ptr size mem (omega (arith, within.1, within.0))
        (omega (arith, within.1)) kernel) [
          | inr (outside, e) ↦ absurd (outside within)
          | inl (_, inr (e, k, low, bad, _, _, _, _, _)) ↦
              absurd (ground (arith, (all k low).1, bad))
          | inl (_, inl (e, _, copied)) ↦ (
            (copyin mmu base ptr size mem).1,
            pair_of _ e,
            moved-Moved ptr base size mem _ copied,
          )
        ]

  pub transfer_bytes_lem :
      (seg : Seg) (rw : Rw)
      → Reach mmu seg rw (λ i. base + i) size ptr
      → (mem1 : Memory) × (transfer_bytes mmu seg rw base ptr size mem ≡ (0, mem1))
        × Moved size (from_of rw (λ i. base + i) ptr) (to_of rw (λ i. base + i) ptr) mem mem1
  unfolding transfer_bytes
  transfer_bytes_lem sysspace uio_read reach = (
    memmove base ptr size mem,
    refl,
    moved-Moved base ptr size mem _ (memmove_lem base ptr size mem),
  )
  transfer_bytes_lem sysspace uio_write reach = (
    memmove ptr base size mem,
    refl,
    moved-Moved ptr base size mem _ (memmove_lem ptr base size mem),
  )
  transfer_bytes_lem userspace uio_read (kernel, all) = user_out kernel all
  transfer_bytes_lem userspace uio_write (kernel, all) = user_in kernel all
  transfer_bytes_lem userispace uio_read (kernel, all) = user_out kernel all
  transfer_bytes_lem userispace uio_write (kernel, all) = user_in kernel all
