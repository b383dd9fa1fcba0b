-- ===== src/Kmalloc/Take.antt =====
-- Taking the first free block of a page, and putting a used one back.
use prog.Kmalloc.{
  Pageref, Heap, page_size, invalid_offset, pageaddr, blocktype_of, write, fill_deadbeef, doalloc,
  put_back,
}
use prog.Kmalloc.Pages.{Link, entry, IsPage, IsSize, sizes-IsSize, block_apart, block_inside}
use prog.Prelude.{
  ℕ, zero, suc, ◌+◌, ◌-◌, ◌*◌, ◌/◌, ◌%◌, ◌^◌, ◌<◌, ◌≤◌, ◌≡◌, ◌≢◌, ◌⊎◌, inl, inr, refl, sym, ap,
  subst, ◌∙◌, ◌==◌, not, ◌||◌, ltb, if◌then◌else◌, List, [], ◌∷◌, ◌++◌, Bool, true, false, ret,
  arith, length, NotIn, Distinct, In, NotIn-ne, Distinct-place, Distinct-drop, In-drop, In-place,
  In-append_left, append_assoc, length-append, test_ne, test_self, Bool-cases,
}

module _ (mem : ℕ → ℕ) (pr : Pageref) (size k : ℕ) (free used : List ℕ)
    (page : IsPage mem pr size (k ∷ free) used) where
  is_size : IsSize size
  is_size = (sizes-IsSize (blocktype_of pr) size page.kind).1

  k_inside : k * size + size ≤ 4096
  k_inside = block_inside is_size k (page.below k (inl refl))

  -- The free list starts at the block.
  first_offset : (pr.freelist_offset ≡ k * size) × (pr.freelist_offset < 4096)
  first_offset =
      let link = page.links.0 in
      elim (Bool-cases (pr.freelist_offset == invalid_offset)) [
        | inl invalid ↦
            let zero_addr : entry pr ≡ 0 =
              ap (λ b. if b then 0 else pageaddr pr + pr.freelist_offset) invalid in
            absurd (omega (arith, sym zero_addr ∙ link, page.real))
        | inr valid ↦
            let addr : entry pr ≡ pageaddr pr + pr.freelist_offset =
              ap (λ b. if b then 0 else pageaddr pr + pr.freelist_offset) valid in
            let same = sym addr ∙ link in
            (omega (arith, same), omega (arith, same, k_inside, is_size.least))
      ]

  taken-IsPage :
      (off : ℕ)
      → Link mem
          (pageaddr pr)
          size
          free
          (entry (record pr { nfree = length free; freelist_offset = off }))
      → IsPage mem (record pr { nfree = length free; freelist_offset = off }) size free (k ∷ used)
  taken-IsPage off links = record {
    kind = page.kind;
    real = page.real;
    top = page.top;
    links = links;
    count = refl;
    below = λ j h. page.below j (In-drop j free k used h);
    distinct = Distinct-place free k used page.distinct.0 page.distinct.1;
    total = omega (arith, page.total);
  }

-- doalloc takes the first block of the free list.
pub doalloc_lem :
    (p : ℕ) (h : Heap) (size k : ℕ) (free used : List ℕ)
    → IsPage h.mem (h.refs p) size (k ∷ free) used
    → (off : ℕ) × (doalloc p h
        ≡ ret (
          pageaddr (h.refs p) + k * size,
          record h {
            refs =
                write h.refs p (record (h.refs p) { nfree = length free; freelist_offset = off });
          },
        ))
      × IsPage h.mem
          (record (h.refs p) { nfree = length free; freelist_offset = off })
          size
          free
          (k ∷ used)
unfolding doalloc
doalloc_lem p h size k [] used page =
    let pr = h.refs p in
    let (at, low) = first_offset h.mem pr size k [] used page in
    let inside : ltb pr.freelist_offset page_size ≡ true = ground (arith, low) in
    let last : h.mem (pageaddr pr + pr.freelist_offset) ≡ 0 =
      ap (λ o. h.mem (pageaddr pr + o)) at ∙ page.links.1 in
    let none_left : (pr.nfree + 0xFFFF) % 2 ^ 16 ≡ 0 = omega (arith, page.count) in
    (
      invalid_offset,
      rw (inside, last, none_left)
          (ap
            (λ o. ret (
              pageaddr pr + o,
              record h {
                refs = write h.refs p (record pr { nfree = 0; freelist_offset = invalid_offset });
              },
            ))
            at),
      taken-IsPage h.mem pr size k [] used page invalid_offset refl,
    )
doalloc_lem p h size k (j ∷ free) used page =
    let pr = h.refs p in
    let s = is_size h.mem pr size k (j ∷ free) used page in
    let (at, low) = first_offset h.mem pr size k (j ∷ free) used page in
    let inside : ltb pr.freelist_offset page_size ≡ true = ground (arith, low) in
    let next : h.mem (pageaddr pr + pr.freelist_offset) ≡ pageaddr pr + j * size =
      ap (λ o. h.mem (pageaddr pr + o)) at ∙ page.links.1.0 in
    let j_inside = block_inside s j (page.below j (inr (inl refl))) in
    let nonnull : (pageaddr pr + j * size == 0) ≡ false =
      test_ne (pageaddr pr + j * size) 0 (omega (arith, page.real)) in
    let left : (pr.nfree + 0xFFFF) % 2 ^ 16 ≡ suc (length free) =
      omega (arith, page.count, page.total, s.few) in
    let some_left : ltb 0 (suc (length free)) ≡ true = ground arith in
    let back : (pageaddr pr + j * size + 2 ^ 32 - pageaddr pr) % 2 ^ 32 ≡ j * size =
      omega (arith, j_inside) in
    let within : ltb (j * size) page_size ≡ true = ground (arith, j_inside, s.least) in
    let short : j * size % 2 ^ 16 ≡ j * size = omega (arith, j_inside) in
    let valid : (j * size == invalid_offset) ≡ false =
      test_ne (j * size) invalid_offset (omega (arith, j_inside)) in
    let starts : entry (record pr { nfree = suc (length free); freelist_offset = j * size })
        ≡ pageaddr pr + j * size =
      ap (λ b. if b then 0 else pageaddr pr + j * size) valid in
    (
      j * size,
      rw (inside, next, nonnull, left, some_left, back, within, short)
          (ap
            (λ o. ret (
              pageaddr pr + o,
              record h {
                refs =
                    write h.refs p
                      (record pr { nfree = suc (length free); freelist_offset = j * size });
              },
            ))
            at),
      taken-IsPage h.mem pr size k (j ∷ free) used page (j * size) (starts, page.links.1.1),
    )

-- Memory that still has the links of the free blocks.
pub Link-frame :
    (mem mem' : ℕ → ℕ) (page size : ℕ) (ks : List ℕ) (a : ℕ)
    → ((k : ℕ) → In k ks → mem' (page + k * size) ≡ mem (page + k * size))
    → Link mem page size ks a
    → Link mem' page size ks a
Link-frame mem mem' page size [] a same h = h
Link-frame mem mem' page size (k ∷ ks) a same (e, h) = (
  e,
  Link-frame mem mem' page size ks (mem' (page + k * size)) (λ j i. same j (inr i))
      (subst (Link mem page size ks) (sym (same k (inl refl))) h),
)

pub IsPage-frame :
    (mem mem' : ℕ → ℕ) (pr : Pageref) (size : ℕ) (free used : List ℕ)
    → ((k : ℕ) → In k free → mem' (pageaddr pr + k * size) ≡ mem (pageaddr pr + k * size))
    → IsPage mem pr size free used
    → IsPage mem' pr size free used
IsPage-frame mem mem' pr size free used same page = record {
  kind = page.kind;
  real = page.real;
  top = page.top;
  links = Link-frame mem mem' (pageaddr pr) size free (entry pr) same page.links;
  count = page.count;
  below = page.below;
  distinct = page.distinct;
  total = page.total;
}

pub fill_deadbeef_outside :
    (ptr left : ℕ) (mem : ℕ → ℕ) (x : ℕ)
    → (x < ptr) ⊎ (ptr + left * 4 ≤ x)
    → fill_deadbeef ptr left mem x ≡ mem x
unfolding fill_deadbeef
fill_deadbeef_outside ptr zero mem x h = refl
fill_deadbeef_outside ptr (suc left) mem x h =
    fill_deadbeef_outside (ptr + 4) left (write mem ptr 0xDEADBEEF) x (omega arith)
    ∙ ap (λ b. if b then 0xDEADBEEF else mem x) (test_ne ptr x (omega arith))

-- Filling and linking a used block leaves the other blocks' links, and puts it in front of the list.
module _ (p : ℕ) (h : Heap) (size k : ℕ) (free us vs : List ℕ)
    (page : IsPage h.mem (h.refs p) size free (us ++ (k ∷ vs))) where
  abbrev pub filled : ℕ → ℕ
  filled = fill_deadbeef (pageaddr (h.refs p) + k * size) (size / 4) h.mem

  put_size : IsSize size
  put_size = (sizes-IsSize (blocktype_of (h.refs p)) size page.kind).1

  split : free ++ (us ++ (k ∷ vs)) ≡ (free ++ us) ++ (k ∷ vs)
  split = sym (append_assoc free us (k ∷ vs))

  others : free ++ (us ++ vs) ≡ (free ++ us) ++ vs
  others = sym (append_assoc free us vs)

  pub apart_k : NotIn k ((free ++ us) ++ vs) × Distinct ((free ++ us) ++ vs)
  apart_k = Distinct-drop (free ++ us) k vs (subst Distinct split page.distinct)

  pub below_k : k < 4096 / size
  below_k = page.below k (subst (In k) (sym split) (In-place k (free ++ us) k vs (inl refl)))

  k_block : k * size + size ≤ 4096
  k_block = block_inside put_size k below_k

  abbrev pub put_mem : ℕ → ℕ
  put_mem = write filled (pageaddr (h.refs p) + k * size) (entry (h.refs p))

  abbrev pub put_ref : Pageref
  put_ref = record (h.refs p) { freelist_offset = k * size; nfree = suc (length free) }

  -- Only the words of the block change.
  pub put_frame :
      (x : ℕ)
      → (x < pageaddr (h.refs p) + k * size) ⊎ (pageaddr (h.refs p) + k * size + size ≤ x)
      → put_mem x ≡ h.mem x
  put_frame x out =
      ap (λ b. if b then entry (h.refs p) else filled x)
        (test_ne (pageaddr (h.refs p) + k * size) x (omega (arith, put_size.least)))
      ∙ fill_deadbeef_outside (pageaddr (h.refs p) + k * size) (size / 4) h.mem x
          (omega (arith, put_size.words))

  other_block : (j : ℕ) → j ≢ k → (j * size + size ≤ k * size) ⊎ (k * size + size ≤ j * size)
  other_block j ne =
      let order : (j < k) ⊎ (k < j) = omega arith in
      elim order [
        | inl l ↦ inl (block_apart put_size j k l)
        | inr g ↦ inr (block_apart put_size k j g)
      ]

  not_free : (j : ℕ) → In j free → j ≢ k
  not_free j i e =
      NotIn-ne k j ((free ++ us) ++ vs) apart_k.0
        (In-append_left j (free ++ us) vs (In-append_left j free us i)) (sym e)

  put_same :
      (j : ℕ)
      → In j free
      → put_mem (pageaddr (h.refs p) + j * size) ≡ h.mem (pageaddr (h.refs p) + j * size)
  put_same j i = put_frame (pageaddr (h.refs p) + j * size) (elim (other_block j (not_free j i)) [
    | inl l ↦ inl (omega (arith, l, put_size.least))
    | inr g ↦ inr (omega (arith, g))
  ])

  put_links : Link put_mem (pageaddr (h.refs p)) size (k ∷ free) (entry put_ref)
  put_links = (
    ap (λ b. if b then 0 else pageaddr (h.refs p) + k * size)
        (test_ne (k * size) invalid_offset (omega (arith, k_block))),
    subst (Link put_mem (pageaddr (h.refs p)) size free)
        (ap (λ b. if b then entry (h.refs p) else filled (pageaddr (h.refs p) + k * size))
          (sym (test_self (pageaddr (h.refs p) + k * size))))
        (Link-frame h.mem put_mem (pageaddr (h.refs p)) size free (entry (h.refs p)) put_same
          page.links),
  )

  pub put-IsPage : IsPage put_mem put_ref size (k ∷ free) (us ++ vs)
  put-IsPage = record {
    kind = page.kind;
    real = page.real;
    top = page.top;
    links = put_links;
    count = refl;
    below = λ j i. page.below j (
        subst (In j) (sym split) (
          In-place j (free ++ us) k vs
            (elim i [ inl e ↦ inl e | inr r ↦ inr (subst (In j) others r) ])));
    distinct = (subst (NotIn k) (sym others) apart_k.0, subst Distinct (sym others) apart_k.1);
    total = omega (arith, page.total, length-append us (k ∷ vs), length-append us vs);
  }

  entry_ne :
      (js : List ℕ)
      → free ≡ js
      → Link h.mem (pageaddr (h.refs p)) size js (entry (h.refs p))
      → pageaddr (h.refs p) + k * size ≢ entry (h.refs p)
  entry_ne [] e link same = absurd (omega (arith, link, same, page.real))
  entry_ne (j ∷ js) e (link, _) same =
      let apart = other_block j (not_free j (subst (In j) (sym e) (inl refl))) in
      absurd (omega (arith, apart, link, same, put_size.least))

  or_true : (b : Bool) → b || true ≡ true
  or_true true = refl
  or_true false = refl

  pub put_back_lem :
      put_back p (k * size) (record h { mem = filled })
      ≡ ret (record h { mem = put_mem; refs = write h.refs p put_ref })
  unfolding put_back
  put_back_lem =
      let differs =
        test_ne (pageaddr (h.refs p) + k * size) (entry (h.refs p))
          (entry_ne free refl page.links) in
      let checked =
        ap (λ b. ((h.refs p).freelist_offset == invalid_offset) || not b) differs
        ∙ or_true ((h.refs p).freelist_offset == invalid_offset) in
      let short : k * size % 2 ^ 16 ≡ k * size = omega (arith, k_block) in
      let one_more : ((h.refs p).nfree + 1) % 2 ^ 16 ≡ suc (length free) =
        omega (arith, page.count, page.total, put_size.few) in
      rw (checked, short, one_more) refl
