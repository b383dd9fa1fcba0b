-- ===== src/Kmalloc.antt =====
-- kern/vm/kmalloc.c: the allocator of blocks within pages, without its debugging modes, which are
-- undefined in the file. A list of pagerefs linked through next_samesize or next_all is the list of
-- their addresses. Memory is read and written in words. The calls are cut where they let go of
-- kmalloc_spinlock to call alloc_kpages.
pub mod Pages
pub mod Take
pub mod Invariant
pub mod Search
pub mod Unlink
pub mod Free
pub mod Carve
pub mod NewPage
use prog.Prelude.{
  ℕ, zero, suc, ◌+◌, ◌-◌, ◌*◌, ◌/◌, ◌%◌, ◌^◌, ltb, leb, ◌==◌, not, ◌&&◌, ◌||◌, if◌then◌else◌, List,
  [], ◌∷◌, Option, none, some, Run, ret, panic, wild, kassert, deref, ◌>>=◌, ◌>>◌, get_elem?, set,
  replicate,
}

-- struct pageref, less its links.
pub record Pageref : Type 0 where
  pub pageaddr_and_blocktype : ℕ
  pub freelist_offset : ℕ
  pub nfree : ℕ

abbrev pub page_size : ℕ
page_size = 4096

abbrev pub nsizes : ℕ
nsizes = 8

abbrev pub sizes : List ℕ
sizes = 16 ∷ 32 ∷ 64 ∷ 128 ∷ 256 ∷ 512 ∷ 1024 ∷ 2048 ∷ []

abbrev pub largest_subpage_size : ℕ
largest_subpage_size = 2048

abbrev pub invalid_offset : ℕ
invalid_offset = 0xFFFF

-- PR_PAGEADDR, PR_BLOCKTYPE and MKPAB.
abbrev pub pageaddr : Pageref → ℕ
pageaddr pr = pr.pageaddr_and_blocktype / 4096 * 4096

abbrev pub blocktype_of : Pageref → ℕ
blocktype_of pr = pr.pageaddr_and_blocktype % 4096

abbrev pub mkpab : ℕ → ℕ → ℕ
mkpab pa blk = pa / 4096 * 4096 + blk % 4096

-- The pagerefs in memory, the lists sizebases and allbase, and the words of memory.
pub record Heap : Type 0 where
  pub refs : ℕ → Pageref
  pub sizebases : List (List ℕ)
  pub allbase : List ℕ
  pub mem : ℕ → ℕ

abbrev pub write : {A : Type 0} → (ℕ → A) → ℕ → A → ℕ → A
write f p v q = if p == q then v else f q

-- The loop of blocktype, from size `i` on.
unfoldable pub blocktype_from : ℕ → List ℕ → ℕ → Run ℕ
blocktype_from clientsz [] i = panic
blocktype_from clientsz (size ∷ rest) i =
    let on = blocktype_from clientsz rest (suc i) in if leb clientsz size then ret i else on

abbrev pub blocktype : ℕ → Run ℕ
blocktype clientsz = blocktype_from clientsz sizes 0

-- The loop over sizebases[blktype]: the first page that has a free block.
unfoldable pub find_page : (ℕ → Pageref) → ℕ → List ℕ → Run (Option ℕ)
find_page refs blktype [] = ret none
find_page refs blktype (p ∷ rest) = do
  let on = find_page refs blktype rest
  kassert (blocktype_of (refs p) == blktype)
  if ltb 0 (refs p).nfree then ret (some p) else on

-- doalloc: take the first free block of the page. A difference of addresses wraps around.
unfoldable pub doalloc : ℕ → Heap → Run (ℕ × Heap)
doalloc p h = do
  let pr = h.refs p
  kassert (ltb pr.freelist_offset page_size)
  let prpage = pageaddr pr
  let fl = prpage + pr.freelist_offset
  let next = h.mem fl
  let nfree = (pr.nfree + 0xFFFF) % 2 ^ 16
  let offset = (next + 2 ^ 32 - prpage) % 2 ^ 32
  let more : Run (ℕ × Heap) = do
    kassert (ltb 0 nfree)
    kassert (ltb offset page_size)
    ret (
      fl,
      record h {
        refs = write h.refs p (record pr { nfree = nfree; freelist_offset = offset % 2 ^ 16 });
      },
    )
  let last : Run (ℕ × Heap) = do
    kassert (nfree == 0)
    ret (
      fl,
      record h {
        refs = write h.refs p (record pr { nfree = nfree; freelist_offset = invalid_offset });
      },
    )
  if not (next == 0) then more else last

-- The first part of subpage_kmalloc: a block of a page that is there, or none.
unfoldable pub kmalloc_search : ℕ → Heap → Run (Option ℕ × Heap)
kmalloc_search blktype h = do
  pages ← deref (get_elem? h.sizebases blktype)
  r ← find_page h.refs blktype pages
  elim r [ none ↦ ret (none, h) | some p ↦ do (block, h) ← doalloc p h; ret (some block, h) ]

-- The loop that links the blocks of a new page, from block `i` on, `left` of them.
unfoldable pub carve : ℕ → ℕ → ℕ → ℕ → (ℕ → ℕ) → Run (ℕ → ℕ)
carve page size i zero mem = ret mem
carve page size i (suc left) mem = do
  let next = carve page size (suc i) left (write mem (page + i * size) (page + (i - 1) * size))
  if page + i * size == page + (i - 1) * size then panic else next

-- The second part, from the new pageref `p` on, for the page that alloc_kpages gave.
unfoldable pub kmalloc_page : ℕ → ℕ → ℕ → Heap → Run (ℕ × Heap)
kmalloc_page blktype prpage p h = do
  kassert (prpage % page_size == 0)
  size ← deref (get_elem? sizes blktype)
  let nfree = page_size / size
  mem ← carve prpage size 1 (nfree - 1) (write h.mem prpage 0)
  let offset = (nfree - 1) * size
  kassert (offset % 2 ^ 16 == offset)
  let pr : Pageref = record {
    pageaddr_and_blocktype = mkpab prpage blktype;
    nfree = nfree;
    freelist_offset = offset % 2 ^ 16;
  }
  pages ← deref (get_elem? h.sizebases blktype)
  doalloc p (record {
    refs = write h.refs p pr;
    sizebases = set h.sizebases blktype (p ∷ pages);
    allbase = p ∷ h.allbase;
    mem = mem;
  })

-- fill_deadbeef, over the words left.
unfoldable pub fill_deadbeef : ℕ → ℕ → (ℕ → ℕ) → ℕ → ℕ
fill_deadbeef ptr zero mem = mem
fill_deadbeef ptr (suc left) mem = fill_deadbeef (ptr + 4) left (write mem ptr 0xDEADBEEF)

-- The loop over allbase: the page that the address lies in. A page's end wraps around.
unfoldable pub find_owner : (ℕ → Pageref) → ℕ → List ℕ → Run (Option ℕ)
find_owner refs ptr [] = ret none
find_owner refs ptr (p ∷ rest) = do
  let on = find_owner refs ptr rest
  kassert (ltb (blocktype_of (refs p)) nsizes)
  if leb (pageaddr (refs p)) ptr && ltb ptr ((pageaddr (refs p) + page_size) % 2 ^ 32)
      then ret (some p)
      else on

-- Taking a pageref out of a list: its first occurrence.
unfoldable pub unlink : ℕ → List ℕ → List ℕ
unlink p [] = []
unlink p (q ∷ rest) = let on = unlink p rest in if q == p then rest else q ∷ on

unfoldable pub remove_lists : ℕ → ℕ → Heap → Run Heap
remove_lists p blktype h = do
  kassert (ltb blktype nsizes)
  pages ← deref (get_elem? h.sizebases blktype)
  ret (record h {
    sizebases = set h.sizebases blktype (unlink p pages);
    allbase = unlink p h.allbase;
  })

-- The block at `offset` of the page of `p` goes to the front of its free list.
unfoldable pub put_back : ℕ → ℕ → Heap → Run Heap
put_back p offset h = do
  let pr = h.refs p
  let prpage = pageaddr pr
  let fl = prpage + offset
  let next = if pr.freelist_offset == invalid_offset then 0 else prpage + pr.freelist_offset
  kassert ((pr.freelist_offset == invalid_offset) || not (fl == next))
  ret (record h {
    mem = write h.mem fl next;
    refs =
        write h.refs p
          (record pr { freelist_offset = offset % 2 ^ 16; nfree = (pr.nfree + 1) % 2 ^ 16 });
  })

-- subpage_kfree up to the calls of freepageref and free_kpages. It comes to nothing if the pointer is
-- on no page of the heap; else to the pageref that is to be freed with its page, if any.
unfoldable pub subpage_kfree : ℕ → Heap → Run (Option (Option ℕ) × Heap)
subpage_kfree ptr h = do
  owner ← find_owner h.refs ptr h.allbase
  elim owner [
    | none ↦ ret (none, h)
    | some p ↦ do
      let blktype = blocktype_of (h.refs p)
      let offset = ptr - pageaddr (h.refs p)
      size ← deref (get_elem? sizes blktype)
      let freed : Run (Option (Option ℕ) × Heap) = do
        h ← put_back p offset (record h { mem = fill_deadbeef ptr (size / 4) h.mem })
        kassert (leb (h.refs p).nfree (page_size / size))
        let whole : Run (Option (Option ℕ) × Heap) = do
          h ← remove_lists p blktype h
          ret (some (some p), h)
        if (h.refs p).nfree == page_size / size then whole else ret (some none, h)
      if leb page_size offset || not (offset % size == 0) then panic else freed
  ]
