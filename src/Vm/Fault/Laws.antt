-- ===== src/Vm/Fault/Laws.antt =====
-- vm_fault: which addresses are refused, and what two faults for one page come to.
use prog.Vm.Ram.{page_frame}
use prog.Vm.Coremap.{Entry}
use prog.Vm.Addrspace.{Pte, Addrspace}
use prog.Vm.Fault.{
  Tlb, Machine, pte_hit, place, is_set_up, region_of, map_page, load_page, user_fault,
}
use prog.Vm.Fault.Place.{Unmapped, pte_hit-place, pte_hit-Unmapped}
use prog.Prelude.{ℕ, ◌≡◌, List, true, none, some, arith, ret}

module _ {T : Type 0} (tlb : Tlb T) (owner va paddr : ℕ) (s : Addrspace) (m : Machine T)
    (set_up : is_set_up s ≡ true) (region : region_of s va ≡ some paddr)
    (aligned : page_frame paddr ≡ paddr) where
  user_fault-load : user_fault tlb owner va s m ≡ ret (load_page tlb owner va paddr s m)
  unfolding user_fault
  user_fault-load = ground (arith, set_up, region, aligned)

  user_fault-load_in :
      (s' : Addrspace) (m' : Machine T)
      → is_set_up s' ≡ true
      → region_of s' va ≡ some paddr
      → user_fault tlb owner va s' m' ≡ ret (load_page tlb owner va paddr s' m')
  unfolding user_fault
  user_fault-load_in s' m' a b = ground (arith, a, b, aligned)

  -- A page that is not found gets the entry and the frame that the second loop finds.
  user_fault_new :
      (ps : List Pte) (es : List Entry) (pa : ℕ)
      → pte_hit owner va s.ptable m.coremap.entries ≡ none
      → place owner va s.ptable m.coremap.entries ≡ (ps, some (es, pa))
      → user_fault tlb owner va s m
        ≡ ret (
          0,
          record s { ptable = ps },
          map_page tlb va pa (record m { coremap = record m.coremap { entries = es } }),
        )
  unfolding load_page
  user_fault_new ps es pa first h = ground (arith, user_fault-load, first, h)

  -- In an address space that is set up, and for a page of one of its regions: the first fault for a
  -- page that no page table entry names, when there is an entry and a frame
  -- for it, maps the page to a frame. A second fault for the page maps it to the same frame again,
  -- and changes neither the page table nor the coremap.
  pub user_fault_twice :
      (ps : List Pte) (es : List Entry) (pa : ℕ)
      → Unmapped va s.ptable
      → place owner va s.ptable m.coremap.entries ≡ (ps, some (es, pa))
      → let s' = record s { ptable = ps } in
        let m' = map_page tlb va pa (record m { coremap = record m.coremap { entries = es } }) in
        (user_fault tlb owner va s m ≡ ret (0, s', m'))
        × (user_fault tlb owner va s' m' ≡ ret (0, s', map_page tlb va pa m'))
  unfolding user_fault load_page is_set_up region_of
  user_fault_twice ps es pa u h =
      let first = pte_hit-Unmapped owner va s.ptable m.coremap.entries u in
      let second = pte_hit-place owner va s.ptable ps m.coremap.entries es pa u h in
      (
        user_fault_new ps es pa first h,
        rw (user_fault-load_in (record s { ptable = ps }) _ set_up region, load_page, second),
      )
