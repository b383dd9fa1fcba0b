-- ===== src/Vm/Kpages/Laws.antt =====
-- What alloc_kpages and free_kpages do to the coremap.
use prog.Vm.Ram.{paddr_to_kvaddr}
use prog.Vm.Coremap.{PageState, Entry, Coremap, page_alloc_free}
use prog.Vm.Kpages.{find_run, alloc_run, alloc_kpages}
use prog.Vm.Kpages.FirstFit.{FreeFrom, Blocked, ShortTail, FoundSpec, find_run-FoundSpec}
use prog.Prelude.{
  ℕ, zero, suc, ◌+◌, ◌<◌, ◌≡◌, refl, ltb, leb, ◌==◌, ◌&&◌, if◌then◌else◌, true, false, some, Run,
  ret, wild, panic, get_elem?, set, length, ◌⊎◌, inl, inr, arith, Bool-cases, lt_of_get_elem?,
  get_elem?-some, subst, get_elem?-set_self, get_elem?-set_ne, length-set, ◌∙◌,
}
use mathlib.Core.Option

-- The descriptor of a page that the kernel has taken for the address space `owner`.
abbrev pub taken : ℕ → Entry → Entry
taken owner e = record e { aspace = owner; st = PageState.dirty }

-- The coremap after `n` pages from `p` on are taken.
pub record Took (owner p n : ℕ) (c c' : Coremap) : Type 0 where
  pub size : c'.size ≡ c.size
  pub whole : length c'.entries ≡ length c.entries
  pub pages :
      (q : ℕ)
      → get_elem? c'.entries q ≡ (
          if leb p q && ltb q (p + n)
          then Option.map (taken owner) (get_elem? c.entries q)
          else get_elem? c.entries q)

module _ (owner : ℕ) where
  alloc_run-Took :
      (left p : ℕ) (c : Coremap)
      → FreeFrom c.entries p (p + left)
      → (c' : Coremap) × (alloc_run owner p left c ≡ ret c') × Took owner p left c c'
  unfolding alloc_run
  alloc_run-Took zero p c fr =
      (c, refl, record { size = refl; whole = refl; pages = λ q. ground arith })
  alloc_run-Took (suc left) p c fr =
      let (e, at, idle) = fr p (omega arith) (omega arith) in
      let (c', run, t) = alloc_run-Took left (p + 1) (c1 e) (rest e) in
      (
        c',
        rw (page_alloc_free owner p c e at idle) run,
        record {
          size = t.size;
          whole = t.whole ∙ length-set c.entries p (taken owner e);
          pages = λ q. elim (Bool-cases (p == q)) [
            | inl same ↦
                let here : p ≡ q = ground arith in
                subst
                  (λ u. get_elem? c'.entries u ≡ (
                    if leb p u && ltb u (p + suc left)
                    then Option.map (taken owner) (get_elem? c.entries u)
                    else get_elem? c.entries u))
                  here (first e at c' t)
            | inr other ↦ ground (
              arith,
              t.pages q,
              get_elem?-set_ne c.entries {i = p} {j = q} (taken owner e) (ground arith),
            )
          ];
        },
      )
    where
      c1 : Entry → Coremap
      c1 e = record c { entries = set c.entries p (taken owner e) }

      rest : (e : Entry) → FreeFrom (c1 e).entries (p + 1) (p + 1 + left)
      rest e r h h' =
          rw (get_elem?-set_ne c.entries {i = p} {j = r} (taken owner e) (omega arith))
            (fr r (omega arith) (omega arith))

      first :
          (e : Entry)
          → get_elem? c.entries p ≡ some e
          → (c' : Coremap) → Took owner (p + 1) left (c1 e) c'
          → get_elem? c'.entries p ≡ (
              if leb p p && ltb p (p + suc left)
              then Option.map (taken owner) (get_elem? c.entries p)
              else get_elem? c.entries p)
      first e at c' t = ground (
        arith,
        t.pages p,
        at,
        get_elem?-set_self c.entries p (taken owner e) (lt_of_get_elem? c.entries p e at),
      )

-- The outcome of alloc_kpages: no run is long enough, or the first such run is taken and its
-- address returned, or the search has run into a short free tail and past the array.
abbrev pub KpagesOutcome : ℕ → ℕ → Coremap → Run (ℕ × Coremap) → Type 0
KpagesOutcome owner npages c r =
    ((r ≡ ret (0, c)) × ((p : ℕ) → p < c.size → Blocked c.entries npages p))
    ⊎ (((p : ℕ) × (e : Entry) × (c' : Coremap) × (r ≡ ret (paddr_to_kvaddr e.pa, c'))
          × (get_elem? c.entries p ≡ some e)
          × FreeFrom c.entries p (p + npages)
          × ((q : ℕ) → q < p → Blocked c.entries npages q)
          × Took owner p npages c c')
        ⊎ ((r ≡ wild) × ShortTail c.entries npages))

module _ (c : Coremap) (whole : length c.entries ≡ c.size) (owner npages : ℕ) where
  -- alloc_kpages takes the first run of free pages that is long enough: those pages become DIRTY
  -- pages of the address space, all others stay as they were, and the result is the kernel address
  -- of the first one. It returns 0 and changes nothing only when a busy page blocks every run.
  -- Otherwise, exactly where it meets a free tail of the array that is too short, it reads past
  -- the array.
  pub alloc_kpages_first_fit : KpagesOutcome owner npages c (alloc_kpages owner npages c)
  unfolding alloc_kpages
  alloc_kpages_first_fit =
      go (find_run c npages c.size 0) refl
        (find_run-FoundSpec c npages whole c.size 0 (omega arith) (omega arith))
    where
      go :
          (r : Run ℕ)
          → find_run c npages c.size 0 ≡ r
          → FoundSpec c.entries npages 0 r
          → KpagesOutcome owner npages c (alloc_kpages owner npages c)
      go (ret k) e (low, before, inl end) =
          let all : (k == c.size) ≡ true = ground arith in
          inl (rw (e, alloc_kpages, all), λ p h. before p (omega arith) (omega arith))
      go (ret k) e (low, before, inr (inside, fr)) =
          let on : (k == c.size) ≡ false = ground arith in
          let (f, at) = get_elem?-some c.entries k inside in
          let (c', run, t) = alloc_run-Took owner npages k c fr in
          inr (
            inl (
              k,
              f,
              c',
              rw (e, alloc_kpages, on, at, run),
              at,
              fr,
              λ q h. before q (omega arith) h,
              t,
            ))
      go wild e short = inr (inr (rw (e, alloc_kpages), short))
      go panic e spec = absurd spec
