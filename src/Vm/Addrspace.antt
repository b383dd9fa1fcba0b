-- ===== src/Vm/Addrspace.antt =====
-- mipsvm.c: address spaces. dumbvm_can_sleep, which only asserts, is left out; kmalloc's failure is
-- a parameter.
pub mod Regions
pub mod Load
pub mod Copy
use prog.Vm.Ram.{page_size, page_frame, kvaddr_to_paddr, paddr_to_kvaddr}
use prog.Vm.Coremap.{Coremap}
use prog.Vm.Kpages.{alloc_kpages}
use prog.Libc.Memory.{memmove}
use prog.Prelude.Errno.{enosys, enomem}
use prog.Prelude.{
  ℕ, ◌+◌, ◌-◌, ◌*◌, ◌/◌, ◌%◌, ◌^◌, ltb, leb, ◌==◌, not, ◌&&◌, if◌then◌else◌, List, Bool, false,
  true, Option, none, some, replicate, Run, ret, kassert, ◌>>=◌, ◌>>◌, Reply, ok, err,
}

pub record Pte : Type 0 where
  pub va : ℕ
  pub pa : ℕ
  pub valid : Bool

-- struct addrspace.
pub record Addrspace : Type 0 where
  pub vbase1 : ℕ
  pub pbase1 : ℕ
  pub npages1 : ℕ
  pub vbase2 : ℕ
  pub pbase2 : ℕ
  pub npages2 : ℕ
  pub heapstart : ℕ
  pub heapend : ℕ
  pub stackpbase : ℕ
  pub ptable : List Pte

abbrev pub ptable_size : ℕ
ptable_size = 4096

abbrev pub stackpages : ℕ
stackpages = 18

abbrev pub userstack : ℕ
userstack = 0x80000000

abbrev pub no_page : Pte
no_page = record { va = 0xDEADBEEF; pa = 0xDEADBEEF; valid = false }

-- as_create on what kmalloc hands back. The heap's bounds are not initialised.
unfoldable pub as_create : Option Addrspace → Option Addrspace
as_create none = none
as_create (some raw) = some (record raw {
  vbase1 = 0;
  pbase1 = 0;
  npages1 = 0;
  vbase2 = 0;
  pbase2 = 0;
  npages2 = 0;
  stackpbase = 0;
  ptable = replicate ptable_size no_page;
})

-- The page-aligned base and the number of pages of a segment.
pub align_region : ℕ → ℕ → ℕ × ℕ
align_region vaddr sz =
    let sz' = (sz + vaddr % page_size) % 2 ^ 32 in
    (page_frame vaddr, page_frame ((sz' + page_size - 1) % 2 ^ 32) / page_size)

pub define_region : Addrspace → ℕ → ℕ → ℕ × Addrspace
define_region space vaddr sz =
    let (base, npages) = align_region vaddr sz in
    if space.vbase1 == 0
    then (0, record space { vbase1 = base; npages1 = npages })
    else if space.vbase2 == 0
    then (0, record space { vbase2 = base; npages2 = npages })
    else (enosys, space)

-- Physical memory as the kernel addresses it.
abbrev pub Memory : Type 0
Memory = ℕ → ℕ

-- as_zero_region: bzero at the kernel address.
pub zero_region : ℕ → ℕ → Memory → Memory
zero_region paddr npages mem a =
    let start = paddr_to_kvaddr paddr in
    if leb start a && ltb a (start + npages * page_size) then 0 else mem a

-- One allocation of as_prepare_load, `owner` being the current process's address space.
abbrev pub alloc_base : ℕ → ℕ → Coremap → Run (ℕ × Coremap)
alloc_base owner npages c = do (va, c) ← alloc_kpages owner npages c; ret (kvaddr_to_paddr va, c)

pub prepare_load : ℕ → Addrspace → Coremap → Memory → Run (ℕ × Addrspace × Coremap × Memory)
prepare_load owner space c mem = do
  kassert (space.pbase1 == 0)
  kassert (space.pbase2 == 0)
  kassert (space.stackpbase == 0)
  (pbase1, c) ← alloc_base owner space.npages1 c
  let space1 = record space { pbase1 = pbase1 }
  let second : Run (ℕ × Addrspace × Coremap × Memory) = do
    (pbase2, c) ← alloc_base owner space.npages2 c
    let space2 = record space1 { pbase2 = pbase2 }
    let third : Run (ℕ × Addrspace × Coremap × Memory) = do
      (stackpbase, c) ← alloc_base owner stackpages c
      let space3 = record space2 { stackpbase = stackpbase }
      let mem3 =
          zero_region stackpbase stackpages
            (zero_region pbase2 space.npages2 (zero_region pbase1 space.npages1 mem))
      if stackpbase == 0 then ret (enomem, space3, c, mem) else ret (0, space3, c, mem3)
    if pbase2 == 0 then ret (enomem, space2, c, mem) else third
  if pbase1 == 0 then ret (enomem, space1, c, mem) else second

-- as_define_stack: the initial stack pointer.
pub define_stack : Addrspace → Run ℕ
define_stack space = do kassert (not (space.stackpbase == 0)); ret userstack

-- as_copy, `raw` being what kmalloc hands back. The old address space is that of the process `owner`.
unfoldable pub as_copy :
    ℕ → Option Addrspace → Addrspace → Coremap → Memory → Run (Reply Addrspace × Coremap × Memory)
as_copy owner raw old c mem =
    elim (as_create raw) as (λ _. Run (Reply Addrspace × Coremap × Memory)) [
      | none ↦ ret (err enomem, c, mem)
      | some fresh ↦ do
        let new : Addrspace = record fresh {
          vbase1 = old.vbase1;
          npages1 = old.npages1;
          vbase2 = old.vbase2;
          npages2 = old.npages2;
        }
        (r, new, c, mem) ← prepare_load owner new c mem
        let moved : Run (Reply Addrspace × Coremap × Memory) = do
          kassert (not (new.pbase1 == 0))
          kassert (not (new.pbase2 == 0))
          kassert (not (new.stackpbase == 0))
          let mem1 =
              memmove (paddr_to_kvaddr new.pbase1) (paddr_to_kvaddr old.pbase1)
                (old.npages1 * page_size) mem
          let mem2 =
              memmove (paddr_to_kvaddr new.pbase2) (paddr_to_kvaddr old.pbase2)
                (old.npages2 * page_size) mem1
          let mem3 =
              memmove (paddr_to_kvaddr new.stackpbase) (paddr_to_kvaddr old.stackpbase)
                (stackpages * page_size) mem2
          ret (ok new, c, mem3)
        if r == 0 then moved else ret (err enomem, c, mem)
    ]
