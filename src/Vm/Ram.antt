-- ===== src/Vm/Ram.antt =====
-- ram.c: physical memory before the coremap exists, and the address arithmetic of vm.h.
use prog.Prelude.{ℕ, ◌+◌, ◌-◌, ◌*◌, ◌/◌, ◌%◌, ◌^◌, ltb, if◌then◌else◌}

abbrev pub page_size : ℕ
page_size = 4096

abbrev pub kseg0 : ℕ
kseg0 = 0x80000000

-- PADDR_TO_KVADDR and KVADDR_TO_PADDR on 32-bit addresses.
abbrev pub paddr_to_kvaddr : ℕ → ℕ
paddr_to_kvaddr pa = (pa + kseg0) % 2 ^ 32

abbrev pub kvaddr_to_paddr : ℕ → ℕ
kvaddr_to_paddr va = (va + 2 ^ 32 - kseg0) % 2 ^ 32

-- x & PAGE_FRAME
abbrev pub page_frame : ℕ → ℕ
page_frame x = x / 4096 * 4096

pub record Ram : Type 0 where
  pub firstpaddr : ℕ
  pub lastpaddr : ℕ

-- ram_stealmem: the next `npages` pages, or 0 if there are not as many.
unfoldable pub stealmem : ℕ → Ram → ℕ × Ram
stealmem npages r =
    let size = npages * page_size % 2 ^ 32 in
    let end = (r.firstpaddr + size) % 2 ^ 32 in
    if ltb r.lastpaddr end then (0, r) else (r.firstpaddr, record r { firstpaddr = end })
