-- ===== src/Vm/Addrspace/Load.antt =====
-- as_prepare_load does not notice that memory has run out.
use prog.Vm.Coremap.{Coremap}
use prog.Vm.Kpages.{alloc_kpages}
use prog.Vm.Addrspace.{Addrspace, Memory, zero_region, prepare_load, stackpages}
use prog.Prelude.{ℕ, ◌≡◌, ret, arith}

-- When alloc_kpages fails in all three allocations, as_prepare_load still reports success. It
-- records 0x80000000 as the base of both regions and of the stack, and clears the memory at the
-- kernel addresses from 0 on.
pub prepare_load_misses_failure :
    (owner : ℕ) (space : Addrspace) (c : Coremap) (mem : Memory)
    → space.pbase1 ≡ 0
    → space.pbase2 ≡ 0
    → space.stackpbase ≡ 0
    → alloc_kpages owner space.npages1 c ≡ ret (0, c)
    → alloc_kpages owner space.npages2 c ≡ ret (0, c)
    → alloc_kpages owner stackpages c ≡ ret (0, c)
    → prepare_load owner space c mem
      ≡ ret (
        0,
        record space { pbase1 = 0x80000000; pbase2 = 0x80000000; stackpbase = 0x80000000 },
        c,
        zero_region 0x80000000 stackpages
            (zero_region 0x80000000 space.npages2 (zero_region 0x80000000 space.npages1 mem)),
      )
unfolding prepare_load
prepare_load_misses_failure owner space c mem z1 z2 z3 f1 f2 f3 = ground arith
