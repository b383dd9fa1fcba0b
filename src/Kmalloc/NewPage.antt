-- ===== src/Kmalloc/NewPage.antt =====
-- subpage_kmalloc on a new page.
use prog.Kmalloc.{
  Pageref, Heap, sizes, page_size, invalid_offset, blocktype_of, pageaddr, mkpab, write,
  kmalloc_page,
}
use prog.Kmalloc.Carve.{down, length-down, down_below, Distinct-down, carve_lem}
use prog.Kmalloc.Pages.{Link, entry, IsPage, IsSize, sizes-IsSize, block_inside}
use prog.Kmalloc.Take.{IsPage-frame}
use prog.Kmalloc.Invariant.{
  IsHeap, Taken, same_or_not, write_self, write_ne, doalloc-Taken, block_in_page, page_size_of,
}
use prog.Prelude.{
  ℕ, suc, ◌+◌, ◌-◌, ◌*◌, ◌/◌, ◌%◌, ◌^◌, ◌<◌, ◌≤◌, ◌≡◌, ◌≢◌, ◌⊎◌, inl, inr, refl, sym, ap, subst,
  ◌∙◌, ◌==◌, if◌then◌else◌, List, [], ◌∷◌, true, some, ret, arith, length, get_elem?,
  get_elem?-some, set, get_elem?-set_self, get_elem?-set_ne, length-set, NotIn, Distinct, In,
  In-append_left, NotIn-ne, append_nil, NotIn-each, test_ne, test_self,
}

module _ {h : Heap} {size : ℕ → ℕ} {free used : ℕ → List ℕ} (valid : IsHeap h size free used)
    (t sz : ℕ) (kind : get_elem? sizes t ≡ some sz) (p : ℕ) (fresh : NotIn p h.allbase) (prpage : ℕ)
    (aligned : prpage % page_size ≡ 0) (real : 0 < prpage) (top : prpage + 4096 ≤ 2 ^ 32)
    (new : (q : ℕ) → In q h.allbase → pageaddr (h.refs q) ≢ prpage) where
  s : IsSize sz
  s = (sizes-IsSize t sz kind).1

  low : t < 8
  low = (sizes-IsSize t sz kind).0

  abbrev n : ℕ
  n = 4096 / sz

  abbrev pr : Pageref
  pr = record { pageaddr_and_blocktype = mkpab prpage t; nfree = n; freelist_offset = (n - 1) * sz }

  its_page : pageaddr pr ≡ prpage
  its_page = omega (arith, aligned, low)

  its_kind : blocktype_of pr ≡ t
  its_kind = omega (arith, low)

  offset_short : (n - 1) * sz + sz ≤ 4096
  offset_short = block_inside s (n - 1) (omega (arith, s.some_blocks))

  starts : entry pr ≡ prpage + (n - 1) * sz
  starts =
      ap (λ b. if b then 0 else pageaddr pr + (n - 1) * sz)
        (test_ne ((n - 1) * sz) invalid_offset (omega (arith, offset_short)))
      ∙ ap (λ a. a + (n - 1) * sz) its_page

  module _ (mem : ℕ → ℕ) (links : Link mem prpage sz (down n) (prpage + (n - 1) * sz)) where
    new-IsPage : IsPage mem pr sz (down n) []
    new-IsPage = record {
      kind = subst (λ x. get_elem? sizes x ≡ some sz) (sym its_kind) kind;
      real = subst (λ x. 0 < x) (sym its_page) real;
      top = subst (λ x. x + 4096 ≤ 2 ^ 32) (sym its_page) top;
      links =
          subst (λ x. Link mem x sz (down n) (entry pr)) (sym its_page)
            (subst (Link mem prpage sz (down n)) (sym starts) links);
      count = sym (length-down n);
      below = λ k i. down_below n k (subst (In k) (append_nil (down n)) i);
      distinct = subst Distinct (sym (append_nil (down n))) (Distinct-down n);
      total = omega (arith, length-down n);
    }

    module _ (frame : (x : ℕ) → (x < prpage) ⊎ (prpage + 4096 ≤ x) → mem x ≡ h.mem x) (ps : List ℕ)
        (there : get_elem? h.sizebases t ≡ some ps) where
      abbrev with_page : Heap
      with_page = record {
        refs = write h.refs p pr;
        sizebases = set h.sizebases t (p ∷ ps);
        allbase = p ∷ h.allbase;
        mem = mem;
      }

      not_p : (q : ℕ) → In q h.allbase → p ≢ q
      not_p q i = NotIn-ne p q h.allbase fresh i

      old_page : (q : ℕ) → In q h.allbase → IsPage mem (h.refs q) (size q) (free q) (used q)
      old_page q i =
          IsPage-frame h.mem mem (h.refs q) (size q) (free q) (used q)
            (λ k j. frame (pageaddr (h.refs q) + k * size q) (
              omega (
                arith,
                new q i,
                aligned,
                block_in_page valid q k i (In-append_left k (free q) (used q) j),
                (page_size_of valid q i).least,
              )))
            (valid.pages q i)

      grown_pages :
          (q : ℕ)
          → In q (p ∷ h.allbase)
          → IsPage mem
              (write h.refs p pr q)
              (write size p sz q)
              (write free p (down n) q)
              (write used p [] q)
      grown_pages q (inl e) =
          subst
            (λ r.
              IsPage mem (write h.refs p pr r) (write size p sz r) (write free p (down n) r)
                (write used p [] r))
            (sym e)
            (rw
              (
                write_self h.refs p pr,
                write_self size p sz,
                write_self free p (down n),
                write_self {A = List ℕ} used p [],
              )
              new-IsPage)
      grown_pages q (inr i) =
          let ne = not_p q i in
          rw
            (
              write_ne h.refs p q pr ne,
              write_ne size p q sz ne,
              write_ne free p q (down n) ne,
              write_ne {A = List ℕ} used p q [] ne,
            )
            (old_page q i)

      page_old : (q : ℕ) → In q h.allbase → pageaddr (write h.refs p pr q) ≡ pageaddr (h.refs q)
      page_old q i = ap pageaddr (write_ne h.refs p q pr (not_p q i))

      page_new : (q : ℕ) → q ≡ p → pageaddr (write h.refs p pr q) ≡ prpage
      page_new q e =
          ap (λ r. pageaddr (write h.refs p pr r)) e
          ∙ ap pageaddr (write_self h.refs p pr)
          ∙ its_page

      kind_old :
          (q : ℕ) → In q h.allbase → blocktype_of (write h.refs p pr q) ≡ blocktype_of (h.refs q)
      kind_old q i = ap blocktype_of (write_ne h.refs p q pr (not_p q i))

      kind_new : (q : ℕ) → q ≡ p → blocktype_of (write h.refs p pr q) ≡ t
      kind_new q e =
          ap (λ r. blocktype_of (write h.refs p pr r)) e
          ∙ ap blocktype_of (write_self h.refs p pr)
          ∙ its_kind

      grown_apart :
          (q r : ℕ)
          → In q (p ∷ h.allbase)
          → In r (p ∷ h.allbase)
          → q ≢ r
          → pageaddr (write h.refs p pr q) ≢ pageaddr (write h.refs p pr r)
      grown_apart q r (inl e) (inl f) ne same = ne (e ∙ sym f)
      grown_apart q r (inl e) (inr j) ne same =
          new r j (sym (page_old r j) ∙ sym same ∙ page_new q e)
      grown_apart q r (inr i) (inl f) ne same = new q i (sym (page_old q i) ∙ same ∙ page_new r f)
      grown_apart q r (inr i) (inr j) ne same =
          valid.apart q r i j ne (sym (page_old q i) ∙ same ∙ page_old r j)

      same_list : (xs ys : List ℕ) → some xs ≡ some ys → xs ≡ ys
      same_list xs ys f = cc

      in_range : t < length h.sizebases
      in_range = omega (arith, low, valid.eight)

      grown_bases :
          (t' : ℕ) (qs : List ℕ)
          → get_elem? with_page.sizebases t' ≡ some qs
          → Distinct qs
            × ((q : ℕ) → In q qs → In q (p ∷ h.allbase) × (blocktype_of (write h.refs p pr q) ≡ t'))
      grown_bases t' qs e = elim (same_or_not t t') [
        | inl same ↦
            let got = subst (λ x. get_elem? with_page.sizebases x ≡ some qs) (sym same) e in
            let what : qs ≡ p ∷ ps =
              same_list qs (p ∷ ps)
                (sym got ∙ get_elem?-set_self h.sizebases t (p ∷ ps) in_range) in
            let (d, all) = valid.bases t ps there in
            (
              subst Distinct (sym what) (NotIn-each p ps (λ q i. not_p q (all q i).0), d),
              λ q i. elim (subst (In q) what i) [
                | inl f ↦ (inl f, kind_new q f ∙ same)
                | inr j ↦ (inr (all q j).0, kind_old q (all q j).0 ∙ (all q j).1 ∙ same)
              ],
            )
        | inr ne ↦
            let (d, all) = valid.bases t' qs (sym (get_elem?-set_ne h.sizebases (p ∷ ps) ne) ∙ e) in
            (d, λ q i. (inr (all q i).0, kind_old q (all q i).0 ∙ (all q i).1))
      ]

      grown_listed :
          (q : ℕ)
          → In q (p ∷ h.allbase)
          → (qs : List ℕ) × (get_elem? with_page.sizebases (blocktype_of (write h.refs p pr q))
              ≡ some qs)
            × In q qs
      grown_listed q (inl e) = (
        p ∷ ps,
        ap (get_elem? with_page.sizebases) (kind_new q e)
            ∙ get_elem?-set_self h.sizebases t (p ∷ ps) in_range,
        inl e,
      )
      grown_listed q (inr i) =
          let (qs, at, j) = valid.listed q i in
          elim (same_or_not t (blocktype_of (h.refs q))) [
            | inl same ↦ (
              p ∷ ps,
              ap (get_elem? with_page.sizebases) (kind_old q i ∙ sym same)
                  ∙ get_elem?-set_self h.sizebases t (p ∷ ps) in_range,
              inr (
                  subst (In q)
                    (same_list qs ps (sym at ∙ ap (get_elem? h.sizebases) (sym same) ∙ there)) j),
            )
            | inr ne ↦ (
              qs,
              ap (get_elem? with_page.sizebases) (kind_old q i)
                  ∙ get_elem?-set_ne h.sizebases (p ∷ ps) ne
                  ∙ at,
              j,
            )
          ]

      pub with_page-IsHeap :
          IsHeap with_page (write size p sz) (write free p (down n)) (write used p [])
      with_page-IsHeap = record {
        pages = grown_pages;
        apart = grown_apart;
        bases = grown_bases;
        listed = grown_listed;
        eight = length-set h.sizebases t (p ∷ ps) ∙ valid.eight;
        once = (fresh, valid.once);
      }

  -- The second part of subpage_kmalloc, on a heap in order, for a page that is aligned, not NULL and not
  -- one of the heap's, and a pageref that is on no list: the page is cut into blocks of the size, of
  -- which the last one is handed out; the heap with the new page is in order, and the pages that were
  -- there are as they were.
  pub kmalloc_page_lem :
      (h1 : Heap) × (h' : Heap) × (kmalloc_page t prpage p h
        ≡ ret (prpage + (4096 / sz - 1) * sz, h'))
      × (h1.allbase ≡ p ∷ h.allbase)
      × ((q : ℕ) → In q h.allbase → h1.refs q ≡ h.refs q)
      × Taken h1
          (write size p sz)
          (write free p (down (4096 / sz)))
          (write used p [])
          (prpage + (4096 / sz - 1) * sz)
          h'
          p
          (4096 / sz - 1)
          (down (4096 / sz - 1))
  unfolding kmalloc_page
  kmalloc_page_lem =
      let mem0 = write h.mem prpage 0 in
      let zero_block : 0 * sz ≡ 0 = omega arith in
      let first : prpage + 0 * sz ≡ prpage = omega (arith, zero_block) in
      let ends : mem0 (prpage + 0 * sz) ≡ 0 = ap mem0 first ∙ write_self h.mem prpage 0 in
      let (mem, run, links, frame) =
        carve_lem prpage sz s (4096 / sz - 1) 0 (4096 / sz) mem0 (omega (arith, s.some_blocks))
          (omega arith) (refl, ends) in
      let (ps, there) = get_elem?-some h.sizebases t in_range_t in
      let frame' : (x : ℕ) → (x < prpage) ⊎ (prpage + 4096 ≤ x) → mem x ≡ h.mem x =
        λ x o. frame x o ∙ write_ne h.mem prpage x 0 (omega (arith, o)) in
      let big = with_page-IsHeap mem links frame' ps there in
      let h1 = with_page mem links frame' ps there in
      let n_suc : 4096 / sz ≡ suc (4096 / sz - 1) = omega (arith, s.some_blocks) in
      let (h', took, taken) =
        doalloc-Taken big p (inl refl) (4096 / sz - 1) (down (4096 / sz - 1))
          (write_self free p (down (4096 / sz)) ∙ ap down n_suc) in
      let block : pageaddr (h1.refs p) + (4096 / sz - 1) * write size p sz p
          ≡ prpage + (4096 / sz - 1) * sz =
        ap (λ a. a + (4096 / sz - 1) * write size p sz p)
          (page_new mem links frame' ps there p refl)
        ∙ ap (λ z. prpage + (4096 / sz - 1) * z) (write_self size p sz) in
      let short : (4096 / sz - 1) * sz % 2 ^ 16 ≡ (4096 / sz - 1) * sz =
        omega (arith, offset_short) in
      let whole : (prpage % page_size == 0) ≡ true = ground (arith, aligned) in
      (
        h1,
        h',
        rw (whole, kind, run, short, test_self ((4096 / sz - 1) * sz), there)
            (took ∙ ap (λ b. ret (b, h')) block),
        refl,
        λ q i. write_ne h.refs p q pr (NotIn-ne p q h.allbase fresh i),
        subst
            (λ b.
              Taken h1 (write size p sz) (write free p (down (4096 / sz))) (write used p []) b h' p
                (4096 / sz - 1) (down (4096 / sz - 1)))
            block taken,
      )
    where
      in_range_t : t < length h.sizebases
      in_range_t = omega (arith, low, valid.eight)
