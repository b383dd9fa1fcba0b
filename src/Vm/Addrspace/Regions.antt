-- ===== src/Vm/Addrspace/Regions.antt =====
-- as_define_region covers the segment by whole pages.
use prog.Vm.Ram.{page_size}
use prog.Vm.Addrspace.{align_region}
use prog.Prelude.{ℕ, ◌+◌, ◌*◌, ◌%◌, ◌^◌, ◌≤◌, ◌<◌, ◌≡◌, arith}

-- The pages that as_define_region notes for a segment that does not come within a page of the end
-- of the 32-bit address space start on a page boundary at or below it, cover it, and are as few as
-- they can be: with one page less its last byte is left out.
pub align_region_covers :
    (vaddr sz : ℕ)
    → 0 < sz
    → vaddr + sz + page_size ≤ 2 ^ 32
    → let r = align_region vaddr sz in
      (r.0 % page_size ≡ 0)
      × (r.0 ≤ vaddr)
      × (vaddr < r.0 + page_size)
      × (vaddr + sz ≤ r.0 + r.1 * page_size)
      × (r.0 + r.1 * page_size < vaddr + sz + page_size)
unfolding align_region
align_region_covers vaddr sz h h' =
    (omega arith, omega arith, omega arith, omega arith, omega arith)
