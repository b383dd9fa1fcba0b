-- ===== src/Tests/Vm.antt =====
-- Tests of kern/arch/mips/vm: a coremap of three pages, of which the first is in use.
use prog.Vm.Coremap.{PageState, Entry, Coremap, page_alloc}
use prog.Vm.Kpages.{free_run, find_run, alloc_run, alloc_kpages}
use prog.Vm.Kpages.Laws.{KpagesOutcome, alloc_kpages_first_fit}
use prog.Vm.Kpages.Free.{Unrecorded}
use prog.Vm.Addrspace.{Pte, Addrspace, Memory}
use prog.Vm.Fault.{
  Tlb, Machine, place, find_frame, assign_first, is_set_up, region_of, map_page, user_fault,
}
use prog.Vm.Fault.Laws.{user_fault_twice}
use prog.Prelude.{
  ℕ, zero, suc, ◌-◌, ◌^◌, ◌≡◌, refl, List, [], ◌∷◌, Bool, true, false, some, ret, arith,
}

abbrev page : ℕ → PageState → Entry
page pa st = record { aspace = 0; va = 2 ^ 32 - 1; pa = pa; st = st }

abbrev three : Coremap
three = record {
  size = 3;
  entries =
      page 0x5000 PageState.fixed ∷ page 0x6000 PageState.free ∷ page 0x7000 PageState.free ∷ [];
}

abbrev full : Coremap
full = record { size = 1; entries = page 0x5000 PageState.fixed ∷ [] }

alloc_kpages_first_fit_example : KpagesOutcome 9 2 three (alloc_kpages 9 2 three)
alloc_kpages_first_fit_example = alloc_kpages_first_fit three refl 9 2

taken_two :
    alloc_kpages 9 2 three
    ≡ ret (
      0x80006000,
      record three {
        entries =
            page 0x5000 PageState.fixed
            ∷ record (page 0x6000 PageState.dirty) { aspace = 9 }
            ∷ record (page 0x7000 PageState.dirty) { aspace = 9 }
            ∷ [];
      },
    )
unfolding alloc_kpages find_run free_run alloc_run page_alloc
taken_two = refl

three-Unrecorded : Unrecorded 0x80006000 three.entries
three-Unrecorded zero e h = ground (arith, h)
three-Unrecorded (suc zero) e h = ground (arith, h)
three-Unrecorded (suc (suc zero)) e h = ground (arith, h)
three-Unrecorded (suc (suc (suc q))) e h = cc

abbrev space : Addrspace
space = record {
  vbase1 = 0x400000;
  pbase1 = 0;
  npages1 = 2;
  vbase2 = 0x10000000;
  pbase2 = 0;
  npages2 = 1;
  heapstart = 0;
  heapend = 0;
  stackpbase = 0;
  ptable = [];
}

no_room : (n : ℕ) → alloc_kpages 9 (suc n) full ≡ ret (0, full)
unfolding alloc_kpages find_run free_run
no_room n = ground arith

abbrev mem : Memory
mem a = 7

-- A TLB of which only the last entry written is noted.
abbrev tlb : Tlb (ℕ × ℕ)
tlb = record { random = λ hi lo t. (hi, lo); read = λ i t. t; write = λ hi lo i t. (hi, lo) }

abbrev machine : Machine (ℕ × ℕ)
machine = record { coremap = three; tlb = (0, 0) }

abbrev entry : ℕ → ℕ → Bool → Pte
entry va pa valid = record { va = va; pa = pa; valid = valid }

abbrev loaded : List Pte → Addrspace
loaded ps = record space { pbase1 = 0x8000; pbase2 = 0x9000; stackpbase = 0xa000; ptable = ps }

abbrev placed : List Entry
placed =
    page 0x5000 PageState.fixed
    ∷ record { aspace = 9; va = 0x400000; pa = 0x6000; st = PageState.dirty }
    ∷ page 0x7000 PageState.free
    ∷ []

set_up : (ps : List Pte) → is_set_up (loaded ps) ≡ true
unfolding is_set_up
set_up ps = refl

region : (ps : List Pte) → region_of (loaded ps) 0x400000 ≡ some 0x8000
unfolding region_of
region ps = refl

finds : find_frame 9 0x400000 three.entries ≡ some (placed, 0x6000)
unfolding find_frame assign_first
finds = refl

user_fault_twice_example :
    let s = loaded (entry 0xDEADBEEF 0xDEADBEEF false ∷ []) in
    let s' = loaded (entry 0x400000 0x6000 true ∷ []) in
    let m' =
      map_page tlb 0x400000 0x6000
        (record machine { coremap = record three { entries = placed } }) in
    (user_fault tlb 9 0x400000 s machine ≡ ret (0, s', m'))
    × (user_fault tlb 9 0x400000 s' m' ≡ ret (0, s', map_page tlb 0x400000 0x6000 m'))
unfolding place
user_fault_twice_example =
    user_fault_twice tlb 9 0x400000 0x8000 (loaded (entry 0xDEADBEEF 0xDEADBEEF false ∷ [])) machine
      (set_up _) (region _) refl (entry 0x400000 0x6000 true ∷ []) placed 0x6000 (omega arith, tt)
      (rw finds refl)
