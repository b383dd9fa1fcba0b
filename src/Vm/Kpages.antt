-- ===== src/Vm/Kpages.antt =====
-- mipsvm.c: alloc_kpages and free_kpages. The lock cm_lock is held throughout, and is left out.
pub mod FirstFit
pub mod Laws
pub mod Free
use prog.Vm.Ram.{Ram, stealmem, paddr_to_kvaddr}
use prog.Vm.Coremap.{PageState, Entry, Coremap, is_free, page_alloc}
use prog.Prelude.{
  ℕ, zero, suc, ◌+◌, ◌-◌, ltb, ◌==◌, not, if◌then◌else◌, List, [], ◌∷◌, Bool, true, false, Option,
  none, some, Run, ret, wild, deref, ◌>>=◌, get_elem?, set,
}

-- The inner loop at page `i`: the number of free pages from there on, `npages` at most. It starts
-- at `j` with `left` rounds to go.
unfoldable pub free_run : List Entry → ℕ → ℕ → ℕ → Run ℕ
free_run entries i j zero = ret j
free_run entries i j (suc left) =
    let rest = free_run entries i (j + 1) left in
    elim (get_elem? entries (i + j)) [ none ↦ wild | some e ↦ if is_free e.st then rest else ret j ]

-- The outer loop: the index at which it stops. `left` bounds the rounds: i + left ≥ size.
unfoldable pub find_run : Coremap → ℕ → ℕ → ℕ → Run ℕ
find_run c npages zero i = ret i
find_run c npages (suc left) i =
    let body : Run ℕ = do
      j ← free_run c.entries i 0 npages
      let on = find_run c npages left (i + j + 1)
      if j == npages then ret i else on
    in if ltb i c.size then body else ret i

-- for(j = 0; j < npages; j++) page_alloc(i + j), with `left` pages to go from `p` on.
unfoldable pub alloc_run : ℕ → ℕ → ℕ → Coremap → Run Coremap
alloc_run owner p zero c = ret c
alloc_run owner p (suc left) c = do c ← page_alloc owner p c; alloc_run owner (p + 1) left c

-- alloc_kpages once the coremap is there; `owner` is the current process's address space.
unfoldable pub alloc_kpages : ℕ → ℕ → Coremap → Run (ℕ × Coremap)
alloc_kpages owner npages c = do
  i ← find_run c npages c.size 0
  let taken : Run (ℕ × Coremap) = do
    e ← deref (get_elem? c.entries i)
    c' ← alloc_run owner i npages c
    ret (paddr_to_kvaddr e.pa, c')
  if i == c.size then ret (0, c) else taken

-- alloc_kpages before that: the memory is taken off the ram for good.
pub alloc_kpages_early : ℕ → Ram → ℕ × Ram
alloc_kpages_early npages r =
    let (pa, r') = stealmem npages r in if pa == 0 then (0, r') else (paddr_to_kvaddr pa, r')

-- The loop of free_kpages from page `i` on: the first entry for the address is freed. The entry's
-- address is handed back where an address space owned it, whose mapping is then shot down.
pub free_from : ℕ → ℕ → List Entry → List Entry × Bool
free_from addr zero es = (es, false)
free_from addr (suc left) [] = ([], false)
free_from addr (suc left) (e ∷ es) =
    let (es', owned) = free_from addr left es in
    if e.va == addr
    then (record e { aspace = 0; st = PageState.free } ∷ es, not (e.aspace == 0))
    else (e ∷ es', owned)

pub free_kpages : ℕ → Coremap → Coremap × Bool
free_kpages addr c =
    let (es, owned) = free_from addr c.size c.entries in (record c { entries = es }, owned)
