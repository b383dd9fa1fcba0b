-- ===== src/Vm/Fault.antt =====
-- mipsvm.c: vm_fault. The coremap's array has `size` entries, so its loops run over the list. The
-- interrupt level, which is raised around the second half, is left out.
pub mod Place
pub mod Laws
use prog.Vm.Ram.{page_size, page_frame}
use prog.Vm.Coremap.{PageState, Entry, Coremap, is_free}
use prog.Vm.Addrspace.{Pte, Addrspace, stackpages, userstack}
use prog.Prelude.Errno.{efault, einval}
use prog.Prelude.{
  ℕ, zero, suc, ◌+◌, ◌-◌, ◌*◌, ◌%◌, ◌^◌, ltb, leb, ◌==◌, not, ◌&&◌, if◌then◌else◌, List, [], ◌∷◌,
  Bool, true, false, Option, none, some, Run, ret, panic, kassert, ◌>>=◌, ◌>>◌, bit_and, bit_or,
}

-- The processor's TLB: its instructions are given.
pub record Tlb (T : Type 0) : Type 0 where
  pub random : ℕ → ℕ → T → T
  pub read : ℕ → T → ℕ × ℕ
  pub write : ℕ → ℕ → ℕ → T → T

-- What a fault can change besides the page table.
pub record Machine (T : Type 0) : Type 0 where
  pub coremap : Coremap
  pub tlb : T

-- pa | TLBLO_DIRTY | TLBLO_VALID
abbrev pub entry_lo : ℕ → ℕ
entry_lo pa = bit_or (bit_or pa 0x400) 0x200

-- Some descriptor gives the page `va` of the address space `owner`.
unfoldable pub resident : ℕ → ℕ → List Entry → Bool
resident owner va [] = false
resident owner va (e ∷ es) =
    if (e.aspace == owner) && (e.va == va) then true else resident owner va es

-- The first search of the page table: the frame of the first entry for `va`, if the page is resident.
pub pte_hit : ℕ → ℕ → List Pte → List Entry → Option ℕ
pte_hit owner va [] es = none
pte_hit owner va (p ∷ ps) es =
    let rest = pte_hit owner va ps es in
    if (p.va == va) && resident owner va es then some p.pa else rest

abbrev pub assign : ℕ → ℕ → Entry → Entry
assign owner va e = record e { aspace = owner; va = va; st = PageState.dirty }

-- The first descriptor of those given that passes the test is assigned; its frame is handed back.
unfoldable pub assign_first : (Entry → Bool) → ℕ → ℕ → List Entry → Option (List Entry × ℕ)
assign_first test owner va [] = none
assign_first test owner va (e ∷ es) =
    let rest = assign_first test owner va es in
    if test e
    then some (assign owner va e ∷ es, e.pa)
    else elim rest [ none ↦ none | some (es', pa) ↦ some (e ∷ es', pa) ]

-- A free frame, frame 0 left aside, or else the first one that another address space holds.
unfoldable pub find_frame : ℕ → ℕ → List Entry → Option (List Entry × ℕ)
find_frame owner va [] = none
find_frame owner va (e ∷ es) =
    let steal = assign_first (λ e. not (e.aspace == owner)) owner va (e ∷ es) in
    elim (assign_first (λ e. is_free e.st) owner va es) [
      | none ↦ steal
      | some (es', pa) ↦ some (e ∷ es', pa)
    ]

-- The second loop over the page table: the first invalid entry for which a frame is found. Invalid
-- entries on the way are marked valid.
unfoldable pub place : ℕ → ℕ → List Pte → List Entry → List Pte × Option (List Entry × ℕ)
place owner va [] es = ([], none)
place owner va (p ∷ ps) es =
    let (ps', r) = place owner va ps es in
    let marked : List Pte × Option (List Entry × ℕ) = elim (find_frame owner va es) [
      | none ↦ (record p { valid = true; va = va } ∷ ps', r)
      | some (es', pa) ↦ (record { va = va; pa = pa; valid = true } ∷ ps, some (es', pa))
    ] in
    if p.valid then (p ∷ ps', r) else marked

-- The assertions on the address space.
unfoldable pub is_set_up : Addrspace → Bool
is_set_up s =
    not (s.vbase1 == 0)
    && not (s.pbase1 == 0)
    && not (s.npages1 == 0)
    && not (s.vbase2 == 0)
    && not (s.pbase2 == 0)
    && not (s.npages2 == 0)
    && not (s.stackpbase == 0)
    && (page_frame s.vbase1 == s.vbase1)
    && (page_frame s.pbase1 == s.pbase1)
    && (page_frame s.vbase2 == s.vbase2)
    && (page_frame s.pbase2 == s.pbase2)
    && (page_frame s.stackpbase == s.stackpbase)

abbrev pub in_range : ℕ → ℕ → ℕ → Bool
in_range base top va = leb base va && ltb va top

-- The region that holds the page, as the frame it would have in the region's own memory.
unfoldable pub region_of : Addrspace → ℕ → Option ℕ
region_of s va =
    let stackbase = userstack - stackpages * page_size in
    if in_range s.vbase1 ((s.vbase1 + s.npages1 * page_size) % 2 ^ 32) va
    then some ((va - s.vbase1 + s.pbase1) % 2 ^ 32)
    else if in_range s.vbase2 ((s.vbase2 + s.npages2 * page_size) % 2 ^ 32) va
    then some ((va - s.vbase2 + s.pbase2) % 2 ^ 32)
    else if in_range stackbase userstack va
    then some ((va - stackbase + s.stackpbase) % 2 ^ 32)
    else none

module _ {T : Type 0} (tlb : Tlb T) where
  -- The loop over the TLB entries at the end, from entry `i` on.
  pub fill_tlb : ℕ → ℕ → ℕ → ℕ → T → Option T
  fill_tlb zero i va paddr t = none
  fill_tlb (suc left) i va paddr t =
      let rest = fill_tlb left (i + 1) va paddr t in
      if bit_and (tlb.read i t).1 0x200 == 0 then some (tlb.write va (entry_lo paddr) i t) else rest

  abbrev pub map_page : ℕ → ℕ → Machine T → Machine T
  map_page va pa m = record m { tlb = tlb.random va (entry_lo pa) m.tlb }

  -- From the two loops over the page table on.
  pub load_page : ℕ → ℕ → ℕ → Addrspace → Machine T → ℕ × Addrspace × Machine T
  load_page owner va paddr s m =
      let (ptable, r) = place owner va s.ptable m.coremap.entries in
      let s' = record s { ptable = ptable } in
      let missing : ℕ × Addrspace × Machine T = elim r [
        | some (es, pa) ↦
            (0, s', map_page va pa (record m { coremap = record m.coremap { entries = es } }))
        | none ↦ elim (fill_tlb 64 0 va paddr m.tlb) [
          | some t ↦ (0, s', record m { tlb = t })
          | none ↦ (efault, s', m)
        ]
      ] in
      elim (pte_hit owner va s.ptable m.coremap.entries) [
        | some pa ↦ (0, s, map_page va pa m)
        | none ↦ missing
      ]

  -- vm_fault in a process with the address space `s`, which is known as `owner`.
  pub user_fault : ℕ → ℕ → Addrspace → Machine T → Run (ℕ × Addrspace × Machine T)
  user_fault owner va s m = do
    kassert (is_set_up s)
    elim (region_of s va) [
      | none ↦ ret (efault, s, m)
      | some paddr ↦ do kassert (page_frame paddr == paddr); ret (load_page owner va paddr s m)
    ]

  -- Without an address space: the frame of the first descriptor for the page.
  pub kernel_fault : ℕ → List Entry → Machine T → ℕ × Machine T
  kernel_fault va [] m = (efault, m)
  kernel_fault va (e ∷ es) m =
      if e.va == page_frame va then (0, map_page va e.pa m) else kernel_fault va es m

  -- The current process, if any, and its address space, if any.
  abbrev pub Current : Type 0
  Current = Option (Option (ℕ × Addrspace))

  pub vm_fault : ℕ → ℕ → Current → Machine T → Run (ℕ × Current × Machine T)
  vm_fault faulttype faultaddress cur m =
      let va = page_frame faultaddress in
      let handled : Run (ℕ × Current × Machine T) = elim cur [
        | none ↦ ret (efault, none, m)
        | some space ↦ elim space [
          | none ↦ let (e, m') = kernel_fault va m.coremap.entries m in ret (e, some none, m')
          | some (owner, s) ↦ do
            (e, s', m') ← user_fault owner va s m
            ret (e, some (some (owner, s')), m')
        ]
      ] in
      if faulttype == 2 then panic else if ltb faulttype 2 then handled else ret (einval, cur, m)
