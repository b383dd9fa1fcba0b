-- ===== src/Vm/Addrspace/Copy.antt =====
-- What as_copy copies, and what it does not.
use prog.Libc.Memory.{memmove}
use prog.Libc.Memory.Copies.{memmove_lem}
use prog.Vm.Ram.{page_size, paddr_to_kvaddr}
use prog.Vm.Coremap.{Coremap}
use prog.Vm.Addrspace.{
  Addrspace, Memory, zero_region, alloc_base, prepare_load, stackpages, as_copy, as_create, no_page,
  ptable_size,
}
use prog.Prelude.{
  ℕ, ◌+◌, ◌-◌, ◌*◌, ◌<◌, ◌≤◌, ◌≡◌, ◌≢◌, ◌⊎◌, refl, ◌∙◌, some, ret, ok, arith, replicate, test_ne,
}

-- Two regions of memory have no byte in common.
abbrev pub Disjoint : ℕ → ℕ → ℕ → ℕ → Type 0
Disjoint a n b m = (a + n ≤ b) ⊎ (b + m ≤ a)

memmove_in :
    (dst src len : ℕ) (mem : Memory) (off : ℕ)
    → off < len
    → memmove dst src len mem (dst + off) ≡ mem (src + off)
memmove_in dst src len mem off h =
    let e : src + (dst + off - dst) ≡ src + off = omega arith in
    memmove_lem dst src len mem (dst + off) ∙ ground (arith, e)

-- A region that a memmove does not write is as it was.
memmove_out :
    (dst src len : ℕ) (mem : Memory) (a n off : ℕ)
    → off < n
    → Disjoint dst len a n
    → memmove dst src len mem (a + off) ≡ mem (a + off)
memmove_out dst src len mem a n off h apart = memmove_lem dst src len mem (a + off) ∙ ground arith

zero_out :
    (p np : ℕ) (mem : Memory) (a n off : ℕ)
    → off < n
    → Disjoint (paddr_to_kvaddr p) (np * page_size) a n
    → zero_region p np mem (a + off) ≡ mem (a + off)
unfolding zero_region
zero_out p np mem a n off h apart = ground arith

-- as_prepare_load, when its three allocations give memory.
prepare_load_lem :
    (owner : ℕ) (space : Addrspace) (c c1 c2 c3 : Coremap) (p1 p2 p3 : ℕ) (mem : Memory)
    → space.pbase1 ≡ 0
    → space.pbase2 ≡ 0
    → space.stackpbase ≡ 0
    → alloc_base owner space.npages1 c ≡ ret (p1, c1)
    → p1 ≢ 0
    → alloc_base owner space.npages2 c1 ≡ ret (p2, c2)
    → p2 ≢ 0
    → alloc_base owner stackpages c2 ≡ ret (p3, c3)
    → p3 ≢ 0
    → prepare_load owner space c mem
      ≡ ret (
        0,
        record space { pbase1 = p1; pbase2 = p2; stackpbase = p3 },
        c3,
        zero_region p3 stackpages (zero_region p2 space.npages2 (zero_region p1 space.npages1 mem)),
      )
unfolding prepare_load
prepare_load_lem owner space c c1 c2 c3 p1 p2 p3 mem z1 z2 z3 a1 n1 a2 n2 a3 n3 =
    rw (z1, z2, z3, a1, test_ne p1 0 n1, a2, test_ne p2 0 n2, a3, test_ne p3 0 n3) refl

-- The region at `a` is apart from the new address space's three regions, at p1, p2 and p3.
pub record Clear (p1 n1 p2 n2 p3 a n : ℕ) : Type 0 where
  pub first : Disjoint (paddr_to_kvaddr p1) (n1 * page_size) a n
  pub second : Disjoint (paddr_to_kvaddr p2) (n2 * page_size) a n
  pub stack : Disjoint (paddr_to_kvaddr p3) (stackpages * page_size) a n

-- The new regions are apart from each other and from the old ones.
pub record Apart (old : Addrspace) (p1 p2 p3 : ℕ) : Type 0 where
  pub new12 :
      Disjoint
        (paddr_to_kvaddr p2)
        (old.npages2 * page_size)
        (paddr_to_kvaddr p1)
        (old.npages1 * page_size)
  pub new13 :
      Disjoint
        (paddr_to_kvaddr p3)
        (stackpages * page_size)
        (paddr_to_kvaddr p1)
        (old.npages1 * page_size)
  pub new23 :
      Disjoint
        (paddr_to_kvaddr p3)
        (stackpages * page_size)
        (paddr_to_kvaddr p2)
        (old.npages2 * page_size)
  pub old1 :
      Clear p1 old.npages1 p2 old.npages2 p3 (paddr_to_kvaddr old.pbase1) (old.npages1 * page_size)
  pub old2 :
      Clear p1 old.npages1 p2 old.npages2 p3 (paddr_to_kvaddr old.pbase2) (old.npages2 * page_size)
  pub old3 :
      Clear p1 old.npages1 p2 old.npages2 p3
        (paddr_to_kvaddr old.stackpbase)
        (stackpages * page_size)

-- `n` pages at `p` hold in `mem'` what those at `q` hold in `mem`.
abbrev pub Holds : ℕ → ℕ → ℕ → Memory → Memory → Type 0
Holds n p q mem' mem =
    (off : ℕ) → off < n * page_size → mem' (paddr_to_kvaddr p + off) ≡ mem (paddr_to_kvaddr q + off)

module _ (old : Addrspace) (p1 p2 p3 : ℕ) (apart : Apart old p1 p2 p3) (mem : Memory) where
  abbrev zeroed : Memory
  zeroed = zero_region p3 stackpages (zero_region p2 old.npages2 (zero_region p1 old.npages1 mem))

  abbrev copied1 : Memory
  copied1 =
      memmove (paddr_to_kvaddr p1) (paddr_to_kvaddr old.pbase1) (old.npages1 * page_size) zeroed

  abbrev copied2 : Memory
  copied2 =
      memmove (paddr_to_kvaddr p2) (paddr_to_kvaddr old.pbase2) (old.npages2 * page_size) copied1

  abbrev copied3 : Memory
  copied3 =
      memmove (paddr_to_kvaddr p3) (paddr_to_kvaddr old.stackpbase) (stackpages * page_size) copied2

  zeroed-Clear :
      (a n off : ℕ)
      → off < n
      → Clear p1 old.npages1 p2 old.npages2 p3 a n
      → zeroed (a + off) ≡ mem (a + off)
  zeroed-Clear a n off h c =
      zero_out p3 stackpages (zero_region p2 old.npages2 (zero_region p1 old.npages1 mem)) a n off h
        c.stack
      ∙ zero_out p2 old.npages2 (zero_region p1 old.npages1 mem) a n off h c.second
      ∙ zero_out p1 old.npages1 mem a n off h c.first

  copied1-Clear :
      (a n off : ℕ)
      → off < n
      → Clear p1 old.npages1 p2 old.npages2 p3 a n
      → copied1 (a + off) ≡ mem (a + off)
  copied1-Clear a n off h c =
      memmove_out (paddr_to_kvaddr p1) (paddr_to_kvaddr old.pbase1) (old.npages1 * page_size) zeroed
        a n off h c.first
      ∙ zeroed-Clear a n off h c

  copied2-Clear :
      (a n off : ℕ)
      → off < n
      → Clear p1 old.npages1 p2 old.npages2 p3 a n
      → copied2 (a + off) ≡ mem (a + off)
  copied2-Clear a n off h c =
      memmove_out (paddr_to_kvaddr p2) (paddr_to_kvaddr old.pbase2) (old.npages2 * page_size)
        copied1 a n off h c.second
      ∙ copied1-Clear a n off h c

  all_copied :
      Holds old.npages1 p1 old.pbase1 copied3 mem
      × Holds old.npages2 p2 old.pbase2 copied3 mem
      × Holds stackpages p3 old.stackpbase copied3 mem
  all_copied = (
    λ off h.
        memmove_out (paddr_to_kvaddr p3) (paddr_to_kvaddr old.stackpbase) (stackpages * page_size)
          copied2 (paddr_to_kvaddr p1) (old.npages1 * page_size) off h apart.new13
        ∙ memmove_out (paddr_to_kvaddr p2) (paddr_to_kvaddr old.pbase2) (old.npages2 * page_size)
            copied1 (paddr_to_kvaddr p1) (old.npages1 * page_size) off h apart.new12
        ∙ memmove_in (paddr_to_kvaddr p1) (paddr_to_kvaddr old.pbase1) (old.npages1 * page_size)
            zeroed off h
        ∙ zeroed-Clear (paddr_to_kvaddr old.pbase1) (old.npages1 * page_size) off h apart.old1,
    λ off h.
        memmove_out (paddr_to_kvaddr p3) (paddr_to_kvaddr old.stackpbase) (stackpages * page_size)
          copied2 (paddr_to_kvaddr p2) (old.npages2 * page_size) off h apart.new23
        ∙ memmove_in (paddr_to_kvaddr p2) (paddr_to_kvaddr old.pbase2) (old.npages2 * page_size)
            copied1 off h
        ∙ copied1-Clear (paddr_to_kvaddr old.pbase2) (old.npages2 * page_size) off h apart.old2,
    λ off h.
        memmove_in (paddr_to_kvaddr p3) (paddr_to_kvaddr old.stackpbase) (stackpages * page_size)
          copied2 off h
        ∙ copied2-Clear (paddr_to_kvaddr old.stackpbase) (stackpages * page_size) off h apart.old3,
  )

  -- When the three allocations give memory that is apart from the old regions, as_copy succeeds: the
  -- copy has the segments of the original, and its regions and its stack hold what those of the
  -- original hold. But the bounds of its heap are whatever kmalloc left there, and its page table is
  -- empty, whatever the original's says.
  pub as_copy_lem :
      (owner : ℕ) (raw : Addrspace) (c c1 c2 c3 : Coremap)
      → alloc_base owner old.npages1 c ≡ ret (p1, c1)
      → p1 ≢ 0
      → alloc_base owner old.npages2 c1 ≡ ret (p2, c2)
      → p2 ≢ 0
      → alloc_base owner stackpages c2 ≡ ret (p3, c3)
      → p3 ≢ 0
      → (new : Addrspace) × (mem' : Memory) × (as_copy owner (some raw) old c mem
          ≡ ret (ok new, c3, mem'))
        × (new.vbase1 ≡ old.vbase1)
        × (new.npages1 ≡ old.npages1)
        × (new.vbase2 ≡ old.vbase2)
        × (new.npages2 ≡ old.npages2)
        × Holds old.npages1 new.pbase1 old.pbase1 mem' mem
        × Holds old.npages2 new.pbase2 old.pbase2 mem' mem
        × Holds stackpages new.stackpbase old.stackpbase mem' mem
        × (new.heapstart ≡ raw.heapstart)
        × (new.heapend ≡ raw.heapend)
        × (new.ptable ≡ replicate ptable_size no_page)
  unfolding as_copy as_create
  as_copy_lem owner raw c c1 c2 c3 a1 n1 a2 n2 a3 n3 =
      let (h1, h2, h3) = all_copied in
      let new : Addrspace = record raw {
        vbase1 = old.vbase1;
        pbase1 = p1;
        npages1 = old.npages1;
        vbase2 = old.vbase2;
        pbase2 = p2;
        npages2 = old.npages2;
        stackpbase = p3;
        ptable = replicate ptable_size no_page;
      } in
      let prepared =
        prepare_load_lem owner (record new { pbase1 = 0; pbase2 = 0; stackpbase = 0 }) c c1 c2 c3 p1
          p2 p3 mem refl refl refl a1 n1 a2 n2 a3 n3 in
      (
        new,
        copied3,
        rw (prepared, test_ne p1 0 n1, test_ne p2 0 n2, test_ne p3 0 n3) refl,
        refl,
        refl,
        refl,
        refl,
        h1,
        h2,
        h3,
        refl,
        refl,
        refl,
      )
