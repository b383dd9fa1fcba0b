-- ===== src/Vm/Kpages/Free.antt =====
-- free_kpages, and why it does not give back what alloc_kpages took.
use prog.Vm.Coremap.{Entry, Coremap}
use prog.Vm.Ram.{paddr_to_kvaddr}
use prog.Vm.Kpages.{alloc_kpages, free_from, free_kpages}
use prog.Vm.Kpages.Laws.{Took, KpagesOutcome, alloc_kpages_first_fit}
use prog.Prelude.{
  ℕ, zero, suc, ◌≡◌, ◌≢◌, refl, ◌==◌, List, [], ◌∷◌, false, Option, none, some, ret, get_elem?,
  length, inl, inr, arith, subst, ret-injective, ◌∙◌, sym, ap,
}

-- No descriptor records the address.
abbrev pub Unrecorded : ℕ → List Entry → Type 0
Unrecorded addr es = (q : ℕ) (e : Entry) → get_elem? es q ≡ some e → e.va ≢ addr

free_from-Unrecorded :
    (addr n : ℕ) (es : List Entry) → Unrecorded addr es → free_from addr n es ≡ (es, false)
unfolding free_from
free_from-Unrecorded addr zero es h = refl
free_from-Unrecorded addr (suc n) [] h = refl
free_from-Unrecorded addr (suc n) (e ∷ es) h =
    let other : (e.va == addr) ≡ false = ground (arith, h 0 e refl) in
    ground (arith, other, free_from-Unrecorded addr n es (λ q f at. h (suc q) f at))

-- Taking pages records no address.
Took-Unrecorded :
    (owner p n addr : ℕ) (c c' : Coremap)
    → Took owner p n c c'
    → Unrecorded addr c.entries
    → Unrecorded addr c'.entries
Took-Unrecorded owner p n addr c c' t h q e at = go (get_elem? c.entries q) refl
  where
    go : (o : Option Entry) → get_elem? c.entries q ≡ o → e.va ≢ addr
    go none out = absurd (ground (arith, t.pages q))
    go (some f) there =
        let same : f.va ≡ e.va = ground (arith, t.pages q) in λ z. h q f there (same ∙ z)

-- On a coremap whose array has its size, freeing the address that alloc_kpages has just returned changes nothing and keeps the pages
-- taken, when no descriptor recorded that address before: alloc_kpages does not record it either.
pub free-alloc_leak :
    (c : Coremap) (owner npages addr : ℕ) (c' : Coremap)
    → length c.entries ≡ c.size
    → alloc_kpages owner npages c ≡ ret (addr, c')
    → Unrecorded addr c.entries
    → free_kpages addr c' ≡ (c', false)
unfolding free_kpages
free-alloc_leak c owner npages addr c' whole done clear =
    let still = go (alloc_kpages_first_fit c whole owner npages) in
    ground (arith, free_from-Unrecorded addr c'.size c'.entries still)
  where
    moved :
        (a : ℕ) (d : Coremap)
        → alloc_kpages owner npages c ≡ ret (a, d)
        → Unrecorded addr d.entries
        → Unrecorded addr c'.entries
    moved a d e h =
        let same : d ≡ c' =
          ap (λ (t : ℕ × Coremap). t.1) (ret-injective (a, d) (addr, c') (sym e ∙ done)) in
        subst (λ (d : Coremap). Unrecorded addr d.entries) same h

    go : KpagesOutcome owner npages c (alloc_kpages owner npages c) → Unrecorded addr c'.entries
    go (inl (e, _)) = moved 0 c e clear
    go (inr (inl (p, f, d, e, _, _, _, t))) =
        moved (paddr_to_kvaddr f.pa) d e (Took-Unrecorded owner p npages addr c d t clear)
    go (inr (inr (e, _))) = absurd (ground (arith, e, done))
