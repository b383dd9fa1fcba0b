-- ===== src/Kmalloc/Free.antt =====
-- subpage_kfree of a block that was handed out.
use prog.Kmalloc.{Pageref, Heap, pageaddr, write}
use prog.Kmalloc.Pages.{IsPage}
use prog.Kmalloc.Take.{put_mem, put_ref}
use prog.Kmalloc.Invariant.{IsHeap}
use prog.Prelude.{
  ℕ, ◌+◌, ◌*◌, ◌^◌, ◌<◌, ◌≤◌, ◌≡◌, ◌≢◌, ◌⊎◌, subst, List, [], ◌∷◌, ◌++◌, Option, none, some, Run,
  ret, In,
}

-- The address lies in the page.
abbrev pub Holds : (ℕ → Pageref) → ℕ → ℕ → Type 0
Holds refs ptr p = (pageaddr (refs p) ≤ ptr) × (ptr < pageaddr (refs p) + 4096)

-- What freeing block `k` of the page of `p` makes of the heap: the block goes to the front of the free
-- list; or, being the last used one, it takes the page out of the lists.
abbrev pub Freed :
    Heap → (ℕ → ℕ) → (ℕ → List ℕ) → (ℕ → List ℕ) → ℕ → ℕ → Run (Option (Option ℕ) × Heap) → Type 0
Freed h size free used p k r =
    (us : List ℕ) × (vs : List ℕ) × (h' : Heap) × (used p ≡ us ++ (k ∷ vs))
    × ((q : ℕ) → (h'.refs q).pageaddr_and_blocktype ≡ (h.refs q).pageaddr_and_blocktype)
    × (((r ≡ ret (some none, h')) × (h'.allbase ≡ h.allbase))
        ⊎ ((r ≡ ret (some (some p), h'))
            × (us ++ vs ≡ [])
            × ((q : ℕ) → In q h'.allbase → In q h.allbase × (q ≢ p))
            × ((q : ℕ) → In q h.allbase → q ≢ p → In q h'.allbase)))
    × IsHeap h' size (write free p (k ∷ free p)) (write used p (us ++ vs))

module _ {h : Heap} {size : ℕ → ℕ} {free used : ℕ → List ℕ} (valid : IsHeap h size free used)
    (p : ℕ) (here : In p h.allbase) (k : ℕ) (us vs : List ℕ) (handed : used p ≡ us ++ (k ∷ vs))
    (below : (q : ℕ) → In q h.allbase → pageaddr (h.refs q) + 4096 < 2 ^ 32) where
  page : IsPage h.mem (h.refs p) (size p) (free p) (us ++ (k ∷ vs))
  page = subst (IsPage h.mem (h.refs p) (size p) (free p)) handed (valid.pages p here)

  abbrev ptr : ℕ
  ptr = pageaddr (h.refs p) + k * size p

  abbrev put : Heap
  put = record h {
    mem = put_mem p h (size p) k (free p) us vs page;
    refs = write h.refs p (put_ref p h (size p) k (free p) us vs page);
  }
