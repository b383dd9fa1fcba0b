-- ===== src/Vm/Coremap.antt =====
-- mipsvm.c: the coremap, an array of page descriptors. An address space is known by its address,
-- and 0 is NULL.
use prog.Vm.Ram.{page_size}
use prog.Prelude.{
  ℕ, zero, suc, ◌+◌, ◌-◌, ◌*◌, ◌/◌, ◌%◌, ◌^◌, List, [], ◌∷◌, Bool, true, false, Run, ret, kassert,
  deref, ◌>>=◌, ◌>>◌, get_elem?, set, some, ◌≡◌, ◌<◌, ◌≤◌, refl, arith,
}

pub data PageState : Type 0 where
  free dirty fixed clean : PageState

pub record Entry : Type 0 where
  pub aspace : ℕ
  pub va : ℕ
  pub pa : ℕ
  pub st : PageState

pub record Coremap : Type 0 where
  pub size : ℕ
  pub entries : List Entry

abbrev pub is_free : PageState → Bool
is_free PageState.free = true
is_free _ = false

-- vm_bootstrap's loop over the pages, from page `i` on; -1 is 2 ^ 32 - 1 as an address.
pub fresh_entries : ℕ → ℕ → ℕ → List Entry
fresh_entries zero i firstaddr = []
fresh_entries (suc left) i firstaddr =
    record {
      aspace = 0;
      va = 2 ^ 32 - 1;
      pa = (page_size * i + firstaddr) % 2 ^ 32;
      st = PageState.free;
    }
    ∷ fresh_entries left (i + 1) firstaddr

-- vm_bootstrap, given the ram size and the first free address after the coremap was placed.
pub bootstrap : ℕ → ℕ → Coremap
bootstrap lastaddr firstfree =
    let page_num = lastaddr / page_size in
    let firstaddr = firstfree + (page_size - firstfree % page_size) in
    record { size = page_num; entries = fresh_entries page_num 0 firstaddr }

-- page_alloc for the address space `owner`.
unfoldable pub page_alloc : ℕ → ℕ → Coremap → Run Coremap
page_alloc owner pnum c = do
  e ← deref (get_elem? c.entries pnum)
  kassert (is_free e.st)
  ret (record c {
    entries = set c.entries pnum (record e { aspace = owner; st = PageState.dirty });
  })

-- page_alloc on a free page.
pub page_alloc_free :
    (owner pnum : ℕ) (c : Coremap) (e : Entry)
    → get_elem? c.entries pnum ≡ some e
    → is_free e.st ≡ true
    → page_alloc owner pnum c
      ≡ ret (record c {
        entries = set c.entries pnum (record e { aspace = owner; st = PageState.dirty });
      })
unfolding page_alloc
page_alloc_free owner pnum c e at idle = rw (at, idle)

fresh_entries_at :
    (left i firstaddr k : ℕ)
    → k < left
    → get_elem? (fresh_entries left i firstaddr) k
      ≡ some (record {
        aspace = 0;
        va = 2 ^ 32 - 1;
        pa = (page_size * (i + k) + firstaddr) % 2 ^ 32;
        st = PageState.free;
      })
unfolding fresh_entries
fresh_entries_at zero i firstaddr k h = absurd (omega arith)
fresh_entries_at (suc left) i firstaddr zero h = let z : i + 0 ≡ i = omega arith in rw z
fresh_entries_at (suc left) i firstaddr (suc k) h =
    let z : i + 1 + k ≡ i + suc k = omega arith in
    rw (← z) (fresh_entries_at left (i + 1) firstaddr k (omega arith))

-- The coremap of vm_bootstrap has a free page for each page of the ram, from the first free page
-- on; so its last page, and each page that starts at or past the end of the ram, is not memory.
pub bootstrap_past_ram :
    (lastaddr firstfree : ℕ)
    → 0 < lastaddr
    → lastaddr % page_size ≡ 0
    → firstfree < lastaddr
    → lastaddr ≤ 512 * 1024 * 1024
    → let c = bootstrap lastaddr firstfree in
      (e : Entry) × (get_elem? c.entries (c.size - 1) ≡ some e)
      × (is_free e.st ≡ true)
      × (lastaddr ≤ e.pa)
unfolding bootstrap
bootstrap_past_ram lastaddr firstfree h whole low small = (
  _,
  fresh_entries_at (lastaddr / page_size) 0 _ (lastaddr / page_size - 1) (omega arith),
  refl,
  omega arith,
)
