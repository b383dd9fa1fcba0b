-- ===== src/Tests/Heap.antt =====
-- A heap with one page of two blocks, one of which is handed out.
use prog.Kmalloc.{
  Pageref, Heap, pageaddr, blocktype_of, write, sizes, find_page, doalloc, kmalloc_search,
  kmalloc_page,
}
use prog.Kmalloc.Pages.{IsPage}
use prog.Kmalloc.Invariant.{IsHeap, Taken, Disjoint}
use prog.Kmalloc.Search.{Searched, kmalloc_search_lem, kmalloc_search-Disjoint}
use prog.Kmalloc.Carve.{down}
use prog.Kmalloc.NewPage.{kmalloc_page_lem}
use prog.Prelude.{
  ℕ, zero, suc, ◌≤◌, ◌+◌, ◌-◌, ◌*◌, ◌/◌, ◌≡◌, inl, inr, refl, sym, subst, ◌∙◌, List, [], ◌∷◌, some,
  ret, arith, get_elem?, Distinct, In,
}

abbrev halves : Pageref
halves = record { pageaddr_and_blocktype = 0x80005007; freelist_offset = 0; nfree = 1 }

abbrev small_heap : Heap
small_heap = record {
  refs = λ _. halves;
  sizebases = [] ∷ [] ∷ [] ∷ [] ∷ [] ∷ [] ∷ [] ∷ (100 ∷ []) ∷ [];
  allbase = 100 ∷ [];
  mem = λ _. 0;
}

abbrev half : ℕ → ℕ
half _ = 2048

abbrev low_half : ℕ → List ℕ
low_half _ = 0 ∷ []

abbrev high_half : ℕ → List ℕ
high_half _ = 1 ∷ []

halves-IsPage : IsPage (λ _. 0) halves 2048 (0 ∷ []) (1 ∷ [])
halves-IsPage = record {
  kind = refl;
  real = omega arith;
  top = omega arith;
  links = (refl, refl);
  count = refl;
  below = λ k i. elim i [
    | inl e ↦ omega (arith, e)
    | inr j ↦ elim j [ inl e ↦ omega (arith, e) | inr n ↦ elim n [ ] ]
  ];
  distinct = ((omega arith, tt), (tt, tt));
  total = refl;
}

only_page : (q : ℕ) → In q (100 ∷ []) → q ≡ 100
only_page q (inl e) = e
only_page q (inr i) = elim i [ ]

same_pages : (xs ys : List ℕ) → some xs ≡ some ys → ys ≡ xs
same_pages xs ys e = cc

abbrev OfKind : ℕ → List ℕ → Type 0
OfKind t ps = Distinct ps × ((p : ℕ) → In p ps → In p (100 ∷ []) × (blocktype_of halves ≡ t))

small_bases : (t : ℕ) (ps : List ℕ) → get_elem? small_heap.sizebases t ≡ some ps → OfKind t ps
small_bases zero ps e = subst (OfKind 0) (sym (same_pages [] ps e)) (tt, λ p i. elim i [ ])
small_bases (suc zero) ps e = subst (OfKind 1) (sym (same_pages [] ps e)) (tt, λ p i. elim i [ ])
small_bases (suc (suc zero)) ps e =
    subst (OfKind 2) (sym (same_pages [] ps e)) (tt, λ p i. elim i [ ])
small_bases (suc (suc (suc zero))) ps e =
    subst (OfKind 3) (sym (same_pages [] ps e)) (tt, λ p i. elim i [ ])
small_bases (suc (suc (suc (suc zero)))) ps e =
    subst (OfKind 4) (sym (same_pages [] ps e)) (tt, λ p i. elim i [ ])
small_bases (suc (suc (suc (suc (suc zero))))) ps e =
    subst (OfKind 5) (sym (same_pages [] ps e)) (tt, λ p i. elim i [ ])
small_bases (suc (suc (suc (suc (suc (suc zero)))))) ps e =
    subst (OfKind 6) (sym (same_pages [] ps e)) (tt, λ p i. elim i [ ])
small_bases (suc (suc (suc (suc (suc (suc (suc zero))))))) ps e =
    subst (OfKind 7) (sym (same_pages (100 ∷ []) ps e)) ((tt, tt), λ p i. (i, refl))
small_bases (suc (suc (suc (suc (suc (suc (suc (suc t)))))))) ps e = cc

small_heap-IsHeap : IsHeap small_heap half low_half high_half
small_heap-IsHeap = record {
  pages = λ p i. halves-IsPage;
  apart = λ p q i j ne e. ne (only_page p i ∙ sym (only_page q j));
  bases = small_bases;
  listed = λ p i. (100 ∷ [], refl, i);
  eight = refl;
  once = (tt, tt);
}

kmalloc_search_lem_example :
    Searched small_heap half low_half high_half 7 (kmalloc_search 7 small_heap)
kmalloc_search_lem_example = kmalloc_search_lem small_heap-IsHeap 7 (omega arith)

abbrev full_heap : Heap
full_heap = record small_heap {
  refs =
      write (λ _. halves) 100
        (record { pageaddr_and_blocktype = 0x80005007; freelist_offset = 0xFFFF; nfree = 0 });
}

search_runs : kmalloc_search 7 small_heap ≡ ret (some 0x80005000, full_heap)
unfolding kmalloc_search find_page doalloc
search_runs = refl

kmalloc_search-Disjoint_example :
    (sz : ℕ) × (get_elem? sizes 7 ≡ some sz)
    × ((p : ℕ) × In p (100 ∷ [])
        × (pageaddr (small_heap.refs p) ≤ 0x80005000)
        × (0x80005000 + sz ≤ pageaddr (small_heap.refs p) + 4096))
    × ((q j : ℕ)
        → In q (100 ∷ [])
        → In j (high_half q)
        → Disjoint 0x80005000 sz (pageaddr (small_heap.refs q) + j * half q) (half q))
kmalloc_search-Disjoint_example =
    kmalloc_search-Disjoint small_heap-IsHeap 7 (omega arith) 0x80005000 full_heap search_runs

kmalloc_page_lem_example :
    (h1 : Heap) × (h' : Heap) × (kmalloc_page 7 0x80006000 101 small_heap
      ≡ ret (0x80006000 + (4096 / 2048 - 1) * 2048, h'))
    × (h1.allbase ≡ 101 ∷ 100 ∷ [])
    × ((q : ℕ) → In q small_heap.allbase → h1.refs q ≡ small_heap.refs q)
    × Taken h1
        (write half 101 2048)
        (write low_half 101 (down (4096 / 2048)))
        (write high_half 101 [])
        (0x80006000 + (4096 / 2048 - 1) * 2048)
        h'
        101
        (4096 / 2048 - 1)
        (down (4096 / 2048 - 1))
kmalloc_page_lem_example =
    kmalloc_page_lem small_heap-IsHeap 7 2048 refl 101 (omega arith, tt) 0x80006000 refl
      (omega arith) (omega arith) (λ q i e. omega (arith, e))
