-- ===== src/Bitmap/Alloc.antt =====
-- bitmap_alloc takes the least unused index.
use prog.Bitmap.{Bitmap, words_for, scan_offset, alloc_in, alloc_loop, alloc}
use prog.Bitmap.Bytes.{bit, each_under, each_under-at}
use prog.Bitmap.View.{IsValid, used, used-set_bit, set_bit-IsValid}
use prog.Bitmap.Mark.{Marked}
use prog.Prelude.Errno.{enospc}
use prog.Prelude.{
  ℕ, zero, suc, ◌+◌, ◌*◌, ◌/◌, ◌%◌, ◌^◌, ◌<◌, ◌≤◌, bit_and, bit_or, ltb, ◌==◌, ◌≡◌, refl, Bool,
  true, false, ◌||◌, arith, Option, none, some, get_elem?, set, length, Run, ret, Reply, ok, err,
  get_elem?-some, Bool-cases, ◌⊎◌, inl, inr, ◌∙◌, ap,
}

-- What the inner loop finds: the first clear bit at or after `o` among the next `k`, if any.
abbrev First : ℕ → ℕ → ℕ → Option ℕ → Type 0
First k o w none = (p : ℕ) → o ≤ p → p < o + k → bit w p ≡ true
First k o w (some q) =
    (o ≤ q) × (q < o + k) × (bit w q ≡ false) × ((p : ℕ) → o ≤ p → p < q → bit w p ≡ true)

still_set :
    (w o q : ℕ)
    → bit w o ≡ true
    → ((p : ℕ) → o + 1 ≤ p → p < q → bit w p ≡ true)
    → (p : ℕ) → o ≤ p
    → p < q
    → bit w p ≡ true
still_set w o q here later p h h' = elim (Bool-cases (p == o)) [
  | inl same ↦ let e : p ≡ o = ground arith in rw e here
  | inr other ↦ later p (ground arith) h'
]

First-suc : (k o w : ℕ) (r : Option ℕ) → bit w o ≡ true → First k (o + 1) w r → First (suc k) o w r
First-suc k o w none here f = still_set w o (o + suc k) here λ p h h'. f p h (omega arith)
First-suc k o w (some q) here (h, h', clear, before) =
    (omega arith, omega arith, clear, still_set w o q here before)

scan_offset-First : (k o w : ℕ) → First k o w (scan_offset k o w)
unfolding scan_offset
scan_offset-First zero o w = λ p h h'. absurd (omega arith)
scan_offset-First (suc k) o w = elim (Bool-cases (bit_and w (2 ^ o) == 0)) [
  | inl clear ↦ rw clear (omega arith, omega arith, ground arith, λ p h h'. absurd (omega arith))
  | inr here ↦ rw here (First-suc k o w _ (rw here) (scan_offset-First k (o + 1) w))
]

has_clear : ℕ → Bool
has_clear w = (w == 255) || elim (scan_offset 8 0 w) [ none ↦ false | some q ↦ true ]

has_clear_table : each_under 256 has_clear ≡ true
unfolding each_under has_clear scan_offset
has_clear_table = refl

full_table : each_under 8 (bit 255) ≡ true
unfolding each_under
full_table = refl

-- The outcome of an allocation: the least unused index is marked, or all are used.
abbrev pub Allocated : Bitmap → Run (Reply ℕ × Bitmap) → Type 0
Allocated b r =
    ((r ≡ ret (err enospc, b)) × ((j : ℕ) → used b j ≡ true))
    ⊎ ((i : ℕ) × (b' : Bitmap) × (r ≡ ret (ok i, b'))
        × (i < b.nbits)
        × (used b i ≡ false)
        × ((j : ℕ) → (i ≤ j) ⊎ (used b j ≡ true))
        × Marked b i b')

module _ {b : Bitmap} (valid : IsValid b) where
  used_at : (ix w j : ℕ) → get_elem? b.v ix ≡ some w → ix ≡ j / 8 → used b j ≡ bit w (j % 8)
  unfolding used
  used_at ix w j e same = rw (← same, e)

  alloc_in-Allocated :
      (ix w q : ℕ)
      → get_elem? b.v ix ≡ some w
      → scan_offset 8 0 w ≡ some q
      → First 8 0 w (some q)
      → ((j : ℕ) → (ix * 8 ≤ j) ⊎ (used b j ≡ true))
      → Allocated b (alloc_in ix w b)
  unfolding alloc_in
  alloc_in-Allocated ix w q e s first below =
      let at : used b (ix * 8 + q) ≡ false =
        ground (arith, used_at ix w (ix * 8 + q) e (omega arith)) in
      let inside : ix * 8 + q < b.nbits = ground (arith, valid.leftover (ix * 8 + q)) in
      inr (
        ix * 8 + q,
        record b { v = set b.v ix (bit_or w (2 ^ q)) },
        ground arith,
        inside,
        at,
        before,
        record {
          valid = set_bit-IsValid valid ix w q e (omega arith);
          same_size = refl;
          bits = used-set_bit valid ix w q e (omega arith);
        },
      )
    where
      before : (j : ℕ) → (ix * 8 + q ≤ j) ⊎ (used b j ≡ true)
      before j = elim (Bool-cases (ltb j (ix * 8 + q))) [
        | inr past ↦ inl (ground arith)
        | inl early ↦ elim (below j) [
          | inr marked ↦ inr marked
          | inl within ↦
              inr (used_at ix w j e (ground arith) ∙ first.3 (j % 8) (omega arith) (ground arith))
        ]
      ]

  -- A word that is not all ones has a clear bit, so the inner loop ends within the word.
  alloc_word-Allocated :
      (ix w : ℕ)
      → get_elem? b.v ix ≡ some w
      → (w == 255) ≡ false
      → ((j : ℕ) → (ix * 8 ≤ j) ⊎ (used b j ≡ true))
      → Allocated b (alloc_in ix w b)
  unfolding has_clear
  alloc_word-Allocated ix w e room below = go (scan_offset 8 0 w) refl (scan_offset-First 8 0 w)
    where
      found : has_clear w ≡ true
      found = each_under-at 256 has_clear w has_clear_table (valid.bytes ix w e)

      go : (r : Option ℕ) → scan_offset 8 0 w ≡ r → First 8 0 w r → Allocated b (alloc_in ix w b)
      go none s first = absurd (ground (arith, found))
      go (some q) s first = alloc_in-Allocated ix w q e s first below

  alloc_loop-Allocated :
      (k ix : ℕ)
      → ix + k ≡ length b.v
      → ((j : ℕ) → (ix * 8 ≤ j) ⊎ (used b j ≡ true))
      → Allocated b (alloc_loop k ix b)
  unfolding alloc_loop
  alloc_loop-Allocated zero ix end below = inl (
    refl,
    λ j. elim (below j) [
      | inl past ↦ valid.leftover j (omega (arith, valid.size))
      | inr marked ↦ marked
    ],
  )
  alloc_loop-Allocated (suc k) ix end below =
      let (w, e) = get_elem?-some b.v ix (omega arith) in
      elim (Bool-cases (w == 255)) [
        | inr room ↦ rw (e, alloc_loop, room) (alloc_word-Allocated ix w e room below)
        | inl full ↦
            rw (e, alloc_loop, full) (alloc_loop-Allocated k (ix + 1) (omega arith) (next w e full))
      ]
    where
      next :
          (w : ℕ)
          → get_elem? b.v ix ≡ some w
          → (w == 255) ≡ true
          → (j : ℕ) → ((ix + 1) * 8 ≤ j) ⊎ (used b j ≡ true)
      next w e full j = elim (below j) [
        | inr marked ↦ inr marked
        | inl past ↦ elim (Bool-cases (ltb j ((ix + 1) * 8))) [
          | inr later ↦ inl (ground arith)
          | inl within ↦ inr (
              used_at ix w j e (ground arith)
              ∙ ap (λ n. bit n (j % 8)) (ground arith)
              ∙ each_under-at 8 (bit 255) (j % 8) full_table (omega arith))
        ]
      ]

  -- On a valid bitmap bitmap_alloc marks the least unused index below nbits and returns it, and
  -- changes nothing but that bit; it fails, with ENOSPC and the bitmap as it was, only when every
  -- index is used; none of its assertions fails and no access is out of bounds.
  pub alloc_least : Allocated b (alloc b)
  unfolding alloc
  alloc_least =
      alloc_loop-Allocated (words_for b.nbits) 0 (omega (arith, valid.size)) λ j. inl (omega arith)
