-- ===== src/Kmalloc/Invariant.antt =====
-- When the pages of the heap are in order, and that taking a block keeps them so.
use prog.Kmalloc.{Pageref, Heap, pageaddr, blocktype_of, write, doalloc}
use prog.Kmalloc.Pages.{IsPage, IsSize, sizes-IsSize, block_apart, block_inside}
use prog.Kmalloc.Take.{doalloc_lem, IsPage-frame}
use prog.Prelude.{
  ℕ, ◌+◌, ◌*◌, ◌/◌, ◌%◌, ◌<◌, ◌≤◌, ◌≡◌, ◌≢◌, ◌⊎◌, inl, inr, refl, sym, ap, subst, ◌∙◌, ◌==◌,
  if◌then◌else◌, List, ◌∷◌, ◌++◌, some, ret, arith, length, get_elem?, Distinct, In, In-append_left,
  test_ne, test_self, Bool-cases,
}

-- Every page of allbase is in order, its blocks being of `size p` bytes, those of `free p` in its free
-- list and those of `used p` handed out; no page stands twice, and every list of sizebases holds
-- pages of its kind.
pub record IsHeap (h : Heap) (size : ℕ → ℕ) (free used : ℕ → List ℕ) : Type 0 where
  pub pages : (p : ℕ) → In p h.allbase → IsPage h.mem (h.refs p) (size p) (free p) (used p)
  pub apart :
      (p q : ℕ)
      → In p h.allbase
      → In q h.allbase
      → p ≢ q
      → pageaddr (h.refs p) ≢ pageaddr (h.refs q)
  pub bases :
      (t : ℕ) (ps : List ℕ)
      → get_elem? h.sizebases t ≡ some ps
      → Distinct ps × ((p : ℕ) → In p ps → In p h.allbase × (blocktype_of (h.refs p) ≡ t))
  pub listed :
      (p : ℕ)
      → In p h.allbase
      → (ps : List ℕ) × (get_elem? h.sizebases (blocktype_of (h.refs p)) ≡ some ps) × In p ps
  pub eight : length h.sizebases ≡ 8
  pub once : Distinct h.allbase

-- Two regions of memory have no byte in common.
abbrev pub Disjoint : ℕ → ℕ → ℕ → ℕ → Type 0
Disjoint a n b m = (a + n ≤ b) ⊎ (b + m ≤ a)

pub write_self : {A : Type 0} (f : ℕ → A) (p : ℕ) (v : A) → write f p v p ≡ v
write_self f p v = ap (λ b. if b then v else f p) (test_self p)

pub write_ne : {A : Type 0} (f : ℕ → A) (p q : ℕ) (v : A) → p ≢ q → write f p v q ≡ f q
write_ne f p q v h = ap (λ b. if b then v else f q) (test_ne p q h)

pub same_or_not : (p q : ℕ) → (p ≡ q) ⊎ (p ≢ q)
same_or_not p q = elim (Bool-cases (p == q)) [
  | inl e ↦ inl (ground (arith, e))
  | inr n ↦ inr (ground (arith, n))
]

module _ {h : Heap} {size : ℕ → ℕ} {free used : ℕ → List ℕ} (valid : IsHeap h size free used) where
  abbrev pub addr : ℕ → ℕ → ℕ
  addr p k = pageaddr (h.refs p) + k * size p

  pub page_size_of : (p : ℕ) → In p h.allbase → IsSize (size p)
  page_size_of p here =
      (sizes-IsSize (blocktype_of (h.refs p)) (size p) (valid.pages p here).kind).1

  pub block_in_page :
      (p k : ℕ) → In p h.allbase → In k (free p ++ used p) → k * size p + size p ≤ 4096
  block_in_page p k here i = block_inside (page_size_of p here) k ((valid.pages p here).below k i)

  -- On a heap in order, two different blocks, free or handed out, of pages of allbase have no byte in
  -- common.
  pub blocks-Disjoint :
      (p k q j : ℕ)
      → In p h.allbase
      → In k (free p ++ used p)
      → In q h.allbase
      → In j (free q ++ used q)
      → (p ≢ q) ⊎ (k ≢ j)
      → Disjoint (addr p k) (size p) (addr q j) (size q)
  blocks-Disjoint p k q j hp ik hq ij differ = elim (same_or_not p q) [
    | inr pq ↦
        let pages : (pageaddr (h.refs p) + 4096 ≤ pageaddr (h.refs q))
            ⊎ (pageaddr (h.refs q) + 4096 ≤ pageaddr (h.refs p)) =
          omega (arith, valid.apart p q hp hq pq) in
        elim pages [
          | inl l ↦ inl (omega (arith, l, block_in_page p k hp ik))
          | inr g ↦ inr (omega (arith, g, block_in_page q j hq ij))
        ]
    | inl same ↦ elim differ [
      | inl pq ↦ absurd (pq same)
      | inr kj ↦
          let order : (k < j) ⊎ (j < k) = omega arith in
          let s = page_size_of p hp in
          subst (λ r. Disjoint (addr p k) (size p) (addr r j) (size r)) same
            (elim order [
              | inl l ↦ inl (omega (arith, block_apart s k j l))
              | inr g ↦ inr (omega (arith, block_apart s j k g))
            ])
    ]
  ]

-- One page changes, and memory within it.
module _ {h : Heap} {size : ℕ → ℕ} {free used : ℕ → List ℕ} (valid : IsHeap h size free used)
    (p : ℕ) (here : In p h.allbase) (pr : Pageref)
    (tag : pr.pageaddr_and_blocktype ≡ (h.refs p).pageaddr_and_blocktype) where
  pub same_tags :
      (q : ℕ) → (write h.refs p pr q).pageaddr_and_blocktype ≡ (h.refs q).pageaddr_and_blocktype
  same_tags q = elim (same_or_not p q) [
    | inl same ↦
        ap (λ r. (write h.refs p pr r).pageaddr_and_blocktype) (sym same)
        ∙ ap (λ x. x.pageaddr_and_blocktype) (write_self h.refs p pr)
        ∙ tag
        ∙ ap (λ r. (h.refs r).pageaddr_and_blocktype) same
    | inr ne ↦ ap (λ x. x.pageaddr_and_blocktype) (write_ne h.refs p q pr ne)
  ]

  module _ (mem : ℕ → ℕ) (ks us : List ℕ)
      (frame : (x : ℕ)
        → (x < pageaddr (h.refs p)) ⊎ (pageaddr (h.refs p) + 4096 ≤ x)
        → mem x ≡ h.mem x)
      (page : IsPage mem pr (size p) ks us) where
    other_page : (q : ℕ) → In q h.allbase → p ≢ q → IsPage mem (h.refs q) (size q) (free q) (used q)
    other_page q there ne =
        IsPage-frame h.mem mem (h.refs q) (size q) (free q) (used q)
          (λ k i. frame (addr valid q k) (
            omega (
              arith,
              valid.apart p q here there ne,
              block_in_page valid q k there (In-append_left k (free q) (used q) i),
              (page_size_of valid q there).least,
            )))
          (valid.pages q there)

    changed_page :
        (q : ℕ)
        → In q h.allbase
        → IsPage mem (write h.refs p pr q) (size q) (write free p ks q) (write used p us q)
    changed_page q there = elim (same_or_not p q) [
      | inl same ↦
          subst
            (λ r. IsPage mem (write h.refs p pr r) (size r) (write free p ks r) (write used p us r))
            same (rw (write_self h.refs p pr, write_self free p ks, write_self used p us) page)
      | inr ne ↦
          rw (write_ne h.refs p q pr ne, write_ne free p q ks ne, write_ne used p q us ne)
            (other_page q there ne)
    ]

    pub changed-IsHeap :
        IsHeap
          (record h { mem = mem; refs = write h.refs p pr })
          size
          (write free p ks)
          (write used p us)
    changed-IsHeap = record {
      pages = changed_page;
      apart = λ q r hq hr ne e. valid.apart q r hq hr ne (
          ap (λ t. t / 4096 * 4096) (sym (same_tags q))
          ∙ e
          ∙ ap (λ t. t / 4096 * 4096) (same_tags r));
      bases = λ t ps e.
          let (d, all) = valid.bases t ps e in
          (d, λ q i. ((all q i).0, ap (λ x. x % 4096) (same_tags q) ∙ (all q i).1));
      listed = λ q i.
          subst (λ t. (ps : List ℕ) × (get_elem? h.sizebases (t % 4096) ≡ some ps) × In q ps)
            (sym (same_tags q)) (valid.listed q i);
      eight = valid.eight;
      once = valid.once;
    }

-- What taking a block makes of the heap: block `k` of the page of `p`, the first free one.
pub record Taken (h : Heap) (size : ℕ → ℕ) (free used : ℕ → List ℕ) (block : ℕ) (h' : Heap)
    (p k : ℕ) (rest : List ℕ) : Type 0 where
  pub here : In p h.allbase
  pub was_free : free p ≡ k ∷ rest
  pub at : block ≡ pageaddr (h.refs p) + k * size p
  pub valid : IsHeap h' size (write free p rest) (write used p (k ∷ used p))
  pub same_pages : (q : ℕ) → (h'.refs q).pageaddr_and_blocktype ≡ (h.refs q).pageaddr_and_blocktype
  pub same_all : h'.allbase ≡ h.allbase

module _ {h : Heap} {size : ℕ → ℕ} {free used : ℕ → List ℕ} (valid : IsHeap h size free used)
    (p : ℕ) (here : In p h.allbase) (k : ℕ) (rest : List ℕ) (first : free p ≡ k ∷ rest) where
  pub doalloc-Taken :
      (h' : Heap) × (doalloc p h ≡ ret (pageaddr (h.refs p) + k * size p, h'))
      × Taken h size free used (pageaddr (h.refs p) + k * size p) h' p k rest
  doalloc-Taken =
      let page =
        subst (λ ks. IsPage h.mem (h.refs p) (size p) ks (used p)) first (valid.pages p here) in
      let (off, run, new) = doalloc_lem p h (size p) k rest (used p) page in
      let pr : Pageref = record (h.refs p) { nfree = length rest; freelist_offset = off } in
      (
        record h { refs = write h.refs p pr },
        run,
        record {
          here = here;
          was_free = first;
          at = refl;
          valid = changed-IsHeap valid p here pr refl h.mem rest (k ∷ used p) (λ x o. refl) new;
          same_pages = same_tags valid p here pr refl;
          same_all = refl;
        },
      )
