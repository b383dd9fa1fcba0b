-- ===== src/Kmalloc/Search.antt =====
-- subpage_kmalloc on the pages that are there.
use prog.Kmalloc.{Pageref, Heap, sizes, blocktype_of, pageaddr, find_page, kmalloc_search}
use prog.Kmalloc.Invariant.{
  IsHeap, Taken, Disjoint, same_or_not, doalloc-Taken, block_in_page, blocks-Disjoint,
}
use prog.Prelude.{
  ◌≤◌, ◌≢◌, ◌++◌, Distinct, NotIn-ne, In-append_right, ℕ, ◌+◌, ◌*◌, ◌<◌, ◌≡◌, ◌⊎◌, inl, inr, refl,
  sym, ap, subst, ◌∙◌, ◌==◌, ltb, List, [], ◌∷◌, true, Option, none, some, Run, ret, arith, length,
  get_elem?, get_elem?-some, In, Bool-cases,
}

find_page_lem :
    (refs : ℕ → Pageref) (t : ℕ) (ps : List ℕ)
    → ((p : ℕ) → In p ps → blocktype_of (refs p) ≡ t)
    → ((find_page refs t ps ≡ ret none) × ((p : ℕ) → In p ps → (refs p).nfree ≡ 0))
      ⊎ ((p : ℕ) × In p ps × (0 < (refs p).nfree) × (find_page refs t ps ≡ ret (some p)))
unfolding find_page
find_page_lem refs t [] kinds = inl (refl, λ p i. elim i [ ])
find_page_lem refs t (p ∷ ps) kinds =
    let kind : (blocktype_of (refs p) == t) ≡ true = ground (arith, kinds p (inl refl)) in
    elim (Bool-cases (ltb 0 (refs p).nfree)) [
      | inl some_free ↦ inr (p, inl refl, ground (arith, some_free), rw (kind, some_free) refl)
      | inr none_free ↦
          let empty : (refs p).nfree ≡ 0 = ground (arith, none_free) in
          elim (find_page_lem refs t ps (λ q i. kinds q (inr i))) [
            | inl (run, all) ↦ inl (
              rw (kind, none_free) run,
              λ q i. elim i [ inl e ↦ ap (λ r. (refs r).nfree) e ∙ empty | inr j ↦ all q j ],
            )
            | inr (q, i, f, run) ↦ inr (q, inr i, f, rw (kind, none_free) run)
          ]
    ]

length_zero : (xs : List ℕ) → length xs ≡ 0 → xs ≡ []
length_zero [] h = refl
length_zero (x ∷ xs) h = absurd (omega (arith, h))

positive_split : (xs : List ℕ) → 0 < length xs → (k : ℕ) × (rest : List ℕ) × (xs ≡ k ∷ rest)
positive_split [] h = absurd (omega arith)
positive_split (x ∷ xs) h = (x, xs, refl)

-- What the search comes to: none, every page of the kind being full, or a block taken from a page of
-- the kind.
abbrev pub Searched :
    Heap → (ℕ → ℕ) → (ℕ → List ℕ) → (ℕ → List ℕ) → ℕ → Run (Option ℕ × Heap) → Type 0
Searched h size free used t r =
    ((r ≡ ret (none, h)) × ((p : ℕ) → In p h.allbase → blocktype_of (h.refs p) ≡ t → free p ≡ []))
    ⊎ ((block : ℕ) × (h' : Heap) × (p : ℕ) × (k : ℕ) × (rest : List ℕ) × (r ≡ ret (some block, h'))
        × (get_elem? sizes t ≡ some (size p))
        × Taken h size free used block h' p k rest)

none_taken :
    (r : Run (Option ℕ × Heap)) (block : ℕ) (h h' : Heap)
    → r ≡ ret (none, h)
    → r ≡ ret (some block, h')
    → ⊥
none_taken r block h h' e f = cc

same_block :
    (r : Run (Option ℕ × Heap)) (a b : ℕ) (h h' : Heap)
    → r ≡ ret (some a, h)
    → r ≡ ret (some b, h')
    → a ≡ b
same_block r a b h h' e f = cc

module _ {h : Heap} {size : ℕ → ℕ} {free used : ℕ → List ℕ} (valid : IsHeap h size free used) where
  -- The first part of subpage_kmalloc, on a heap in order and for one of the eight block types: it
  -- either changes nothing, and then every page of that type is full, or it hands out the first free
  -- block of a page of that type; the heap is in order again, with that block among the used ones,
  -- and every other block as it was.
  pub kmalloc_search_lem : (t : ℕ) → t < 8 → Searched h size free used t (kmalloc_search t h)
  unfolding kmalloc_search
  kmalloc_search_lem t low =
      let (ps, there) = get_elem?-some h.sizebases t (omega (arith, valid.eight)) in
      let (once, all) = valid.bases t ps there in
      elim (find_page_lem h.refs t ps (λ p i. (all p i).1)) [
        | inl (run, full) ↦ inl (
          rw (there, run) refl,
          λ p here kind.
              let (ps', there', i) = valid.listed p here in
              let same : ps' ≡ ps =
                same_list ps' ps
                  (sym (subst (λ x. get_elem? h.sizebases x ≡ some ps') kind there') ∙ there) in
              length_zero (free p) (sym (valid.pages p here).count ∙ full p (subst (In p) same i)),
        )
        | inr (p, i, some_free, run) ↦
            let (here, kind) = all p i in
            let page = valid.pages p here in
            let (k, rest, first) = positive_split (free p) (omega (arith, page.count, some_free)) in
            let (h', took, taken) = doalloc-Taken valid p here k rest first in
            inr (
              pageaddr (h.refs p) + k * size p,
              h',
              p,
              k,
              rest,
              rw (there, run, took) refl,
              subst (λ x. get_elem? sizes x ≡ some (size p)) kind page.kind,
              taken,
            )
      ]
    where
      same_list : (xs ys : List ℕ) → some xs ≡ some ys → xs ≡ ys
      same_list xs ys e = cc

  -- On a heap in order and for one of the eight block types, a block that the first part of
  -- subpage_kmalloc hands out has the type's size, lies whole in a page of allbase, and has no byte in
  -- common with any block that was handed out before.
  pub kmalloc_search-Disjoint :
      (t : ℕ)
      → t < 8
      → (block : ℕ) (h' : Heap) → kmalloc_search t h ≡ ret (some block, h')
      → (sz : ℕ) × (get_elem? sizes t ≡ some sz)
        × ((p : ℕ) × In p h.allbase
            × (pageaddr (h.refs p) ≤ block)
            × (block + sz ≤ pageaddr (h.refs p) + 4096))
        × ((q j : ℕ)
            → In q h.allbase
            → In j (used q)
            → Disjoint block sz (pageaddr (h.refs q) + j * size q) (size q))
  kmalloc_search-Disjoint t low block h' got = elim (kmalloc_search_lem t low) [
    | inl (run, full) ↦ absurd (none_taken (kmalloc_search t h) block h h' run got)
    | inr (b, h1, p, k, rest, run, of_kind, taken) ↦
        let same : b ≡ block = same_block (kmalloc_search t h) b block h1 h' run got in
        let at : pageaddr (h.refs p) + k * size p ≡ block = sym taken.at ∙ same in
        let i : In k (free p ++ used p) =
          subst (λ ks. In k (ks ++ used p)) (sym taken.was_free) (inl refl) in
        let once : Distinct ((k ∷ rest) ++ used p) =
          subst (λ ks. Distinct (ks ++ used p)) taken.was_free
            (valid.pages p taken.here).distinct in
        (
          size p,
          of_kind,
          (
            p,
            taken.here,
            omega (arith, at),
            omega (arith, at, block_in_page valid p k taken.here i),
          ),
          λ q j hq u.
              let differ : (p ≢ q) ⊎ (k ≢ j) = elim (same_or_not p q) [
                | inl e ↦
                    let mine : In j (used p) = subst (λ r. In j (used r)) (sym e) u in
                    inr
                      (NotIn-ne k j (rest ++ used p) once.0 (In-append_right j rest (used p) mine))
                | inr n ↦ inl n
              ] in
              subst (λ x. Disjoint x (size p) (pageaddr (h.refs q) + j * size q) (size q)) at
                (blocks-Disjoint valid p k q j taken.here i hq
                  (In-append_right j (free q) (used q) u) differ),
        )
  ]
