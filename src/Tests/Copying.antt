-- ===== src/Tests/Copying.antt =====
-- Tests of as_copy: 21 free pages from 0x5000 on, for two segments and a stack.
use prog.Vm.Coremap.{PageState, Entry, Coremap, page_alloc}
use prog.Vm.Kpages.{alloc_kpages, find_run, free_run, alloc_run}
use prog.Vm.Addrspace.{Addrspace, Memory, alloc_base, stackpages, as_copy, no_page, ptable_size}
use prog.Vm.Addrspace.Copy.{Apart, Holds, as_copy_lem}
use prog.Prelude.{
  ℕ, zero, suc, ◌+◌, ◌-◌, ◌*◌, ◌^◌, ◌≡◌, refl, List, [], ◌∷◌, ◌++◌, some, ret, ok, inl, inr, arith,
  replicate,
}

abbrev pages : ℕ → ℕ → PageState → ℕ → List Entry
pages zero pa st aspace = []
pages (suc n) pa st aspace =
    record { aspace = aspace; va = 2 ^ 32 - 1; pa = pa; st = st } ∷ pages n (pa + 0x1000) st aspace

abbrev after : ℕ → ℕ → Coremap
after used left = record {
  size = 21;
  entries =
      pages used 0x5000 PageState.dirty 9 ++ pages left (0x5000 + used * 0x1000) PageState.free 0;
}

abbrev old : Addrspace
old = record {
  vbase1 = 0x400000;
  pbase1 = 0x100000;
  npages1 = 2;
  vbase2 = 0x10000000;
  pbase2 = 0x110000;
  npages2 = 1;
  heapstart = 4;
  heapend = 8;
  stackpbase = 0x120000;
  ptable = [];
}

abbrev garbage : Addrspace
garbage = record old { heapstart = 7; heapend = 7 }

abbrev mem : Memory
mem a = a

regions-Apart : Apart old 0x5000 0x7000 0x8000
regions-Apart = record {
  new12 = inr (omega arith);
  new13 = inr (omega arith);
  new23 = inr (omega arith);
  old1 = record {
    first = inl (omega arith);
    second = inl (omega arith);
    stack = inl (omega arith);
  };
  old2 = record {
    first = inl (omega arith);
    second = inl (omega arith);
    stack = inl (omega arith);
  };
  old3 = record {
    first = inl (omega arith);
    second = inl (omega arith);
    stack = inl (omega arith);
  };
}

first : alloc_base 9 2 (after 0 21) ≡ ret (0x5000, after 2 19)
unfolding alloc_kpages find_run free_run alloc_run page_alloc
first = refl

second : alloc_base 9 1 (after 2 19) ≡ ret (0x7000, after 3 18)
unfolding alloc_kpages find_run free_run alloc_run page_alloc
second = refl

third : alloc_base 9 stackpages (after 3 18) ≡ ret (0x8000, after 21 0)
unfolding alloc_kpages find_run free_run alloc_run page_alloc
third = refl

as_copy_lem_example :
    (new : Addrspace) × (mem' : Memory) × (as_copy 9 (some garbage) old (after 0 21) mem
      ≡ ret (ok new, after 21 0, mem'))
    × (new.vbase1 ≡ 0x400000)
    × (new.npages1 ≡ 2)
    × (new.vbase2 ≡ 0x10000000)
    × (new.npages2 ≡ 1)
    × Holds 2 new.pbase1 0x100000 mem' mem
    × Holds 1 new.pbase2 0x110000 mem' mem
    × Holds stackpages new.stackpbase 0x120000 mem' mem
    × (new.heapstart ≡ 7)
    × (new.heapend ≡ 7)
    × (new.ptable ≡ replicate ptable_size no_page)
as_copy_lem_example =
    as_copy_lem old 0x5000 0x7000 0x8000 regions-Apart mem 9 garbage (after 0 21) (after 2 19)
      (after 3 18) (after 21 0) first (omega arith) second (omega arith) third (omega arith)
