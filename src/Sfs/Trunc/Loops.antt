-- ===== src/Sfs/Trunc/Loops.antt =====
-- The two loops of sfs_itrunc against what they should keep and free.
use prog.Sfs.Io.{Fs}
use prog.Sfs.Balloc.Laws.{IsValid, in_use, Freed, bfree-in_use}
use prog.Sfs.Bmap.Direct.{Owned}
use prog.Sfs.Trunc.{trunc_direct, trunc_entries}
use prog.Prelude.{
  ℕ, zero, suc, ◌+◌, ◌<◌, ◌≡◌, ◌≢◌, refl, ◌==◌, ◌&&◌, ◌||◌, not, ltb, leb, List, [], ◌∷◌, Bool,
  true, false, some, ret, ◌⊎◌, inl, inr, arith, ◌∙◌, Bool-cases, if◌then◌else◌, subst, get_elem?,
}

-- The entries from index `i` on, with those whose index passes the test cleared.
unfoldable pub cut : (ℕ → Bool) → ℕ → List ℕ → List ℕ
cut test i [] = []
cut test i (b ∷ rest) = (if test i && not (b == 0) then 0 else b) ∷ cut test (suc i) rest

-- Entry by entry: `cut` clears those whose index passes the test, and keeps the others.
pub get_elem?-cut :
    (test : ℕ → Bool) (i k b : ℕ) (xs : List ℕ)
    → get_elem? xs k ≡ some b
    → get_elem? (cut test i xs) k ≡ some (if test (i + k) then 0 else b)
unfolding cut
get_elem?-cut test i k b [] e = cc
get_elem?-cut test i zero b (x ∷ xs) e = let z : i + 0 ≡ i = omega arith in ground (arith, z, e)
get_elem?-cut test i (suc k) b (x ∷ xs) e =
    let z : suc i + k ≡ i + suc k = omega arith in
    subst (λ t. get_elem? (cut test (suc i) xs) k ≡ some (if test t then 0 else b)) z
      (get_elem?-cut test (suc i) k b xs e)

-- Whether block `j` is one of those.
unfoldable pub freed : (ℕ → Bool) → ℕ → List ℕ → ℕ → Bool
freed test i [] j = false
freed test i (b ∷ rest) j = ((test i && not (b == 0)) && (b == j)) || freed test (suc i) rest j

unfoldable pub elem : ℕ → List ℕ → Bool
elem b [] = false
elem b (c ∷ rest) = (b == c) || elem b rest

-- No block is named twice, and each is a hole or in use.
abbrev pub NoRepeat : List ℕ → Type 0
NoRepeat [] = Unit {0}
NoRepeat (b ∷ rest) = ((b ≡ 0) ⊎ (elem b rest ≡ false)) × NoRepeat rest

abbrev pub AllOwned : {S : Type 0} → Fs S → List ℕ → Type 0
AllOwned fs [] = Unit {0}
AllOwned fs (b ∷ rest) = Owned fs b × AllOwned fs rest

-- The same volume, with the blocks that `gone` names no longer in use.
pub record Released {S : Type 0} (fs : Fs S) (gone : ℕ → Bool) (fs' : Fs S) : Type 0 where
  pub valid : IsValid fs'
  pub volume : fs'.nblocks ≡ fs.nblocks
  pub left : (j : ℕ) → in_use fs' j ≡ (not (gone j) && in_use fs j)

once : (b : ℕ) (xs : List ℕ) → b ≢ 0 → (b ≡ 0) ⊎ (elem b xs ≡ false) → elem b xs ≡ false
once b xs nonzero (inl hole) = absurd (nonzero hole)
once b xs nonzero (inr e) = e

module _ {S : Type 0} where
  pub AllOwned-of_each :
      (fs : Fs S) (xs : List ℕ)
      → ((i b : ℕ) → get_elem? xs i ≡ some b → Owned fs b)
      → AllOwned fs xs
  AllOwned-of_each fs [] h = tt
  AllOwned-of_each fs (x ∷ xs) h = (h 0 x refl, AllOwned-of_each fs xs (λ i b e. h (suc i) b e))

  AllOwned-Released :
      {fs fs' : Fs S} (b : ℕ) (xs : List ℕ)
      → Freed fs b fs'
      → elem b xs ≡ false
      → AllOwned fs xs
      → AllOwned fs' xs
  unfolding elem
  AllOwned-Released b [] r e o = tt
  AllOwned-Released b (x ∷ xs) r e (inl hole, o) =
      (inl hole, AllOwned-Released b xs r (ground arith) o)
  AllOwned-Released b (x ∷ xs) r e (inr (inside, used), o) = (
    inr (omega (arith, r.volume), ground (arith, r.left x)),
    AllOwned-Released b xs r (ground arith) o,
  )

  Owned-block : (fs : Fs S) (b : ℕ) → b ≢ 0 → Owned fs b → (b < fs.nblocks) × (in_use fs b ≡ true)
  Owned-block fs b nonzero (inl hole) = absurd (nonzero hole)
  Owned-block fs b nonzero (inr here) = here

  Freed-Released :
      {fs fs1 fs' : Fs S} (b : ℕ) (gone gone' : ℕ → Bool)
      → Freed fs b fs1
      → Released fs1 gone fs'
      → ((j : ℕ) → gone' j ≡ ((b == j) || gone j))
      → Released fs gone' fs'
  Freed-Released b gone gone' f r e = record {
    valid = r.valid;
    volume = r.volume ∙ f.volume;
    left = λ j. ground (arith, r.left j, f.left j, e j);
  }

  Released-same :
      {fs fs' : Fs S} (gone gone' : ℕ → Bool)
      → Released fs gone fs'
      → ((j : ℕ) → gone' j ≡ gone j)
      → Released fs gone' fs'
  Released-same gone gone' r e = record {
    valid = r.valid;
    volume = r.volume;
    left = λ j. r.left j ∙ ground (arith, e j);
  }

  pub trunc_direct-cut :
      (blocklen i : ℕ) (xs : List ℕ) (dirty : Bool) {fs : Fs S}
      → IsValid fs
      → AllOwned fs xs
      → NoRepeat xs
      → (dirty' : Bool) × (fs' : Fs S) × (trunc_direct blocklen i xs dirty fs
          ≡ ret (cut (leb blocklen) i xs, dirty', fs'))
        × Released fs (freed (leb blocklen) i xs) fs'
  unfolding trunc_direct cut freed
  trunc_direct-cut blocklen i [] dirty {fs} valid o n =
      (dirty, fs, refl, record { valid = valid; volume = refl; left = λ j. refl })
  trunc_direct-cut blocklen i (b ∷ xs) dirty {fs} valid o n =
      elim (Bool-cases (leb blocklen i && not (b == 0))) [
        | inr keep ↦
            let (d, f, e, r) = trunc_direct-cut blocklen (suc i) xs dirty valid o.1 n.1 in
            rw keep (
              d,
              f,
              rw e,
              Released-same (freed (leb blocklen) (suc i) xs) (freed (leb blocklen) i (b ∷ xs)) r
                  (λ j. rw keep),
            )
        | inl drop ↦
            let nonzero : b ≢ 0 = ground arith in
            let (inside, marked) = Owned-block fs b nonzero o.0 in
            let (fs1, e1, fr) = bfree-in_use valid b nonzero inside marked in
            let o1 = AllOwned-Released b xs fr (once b xs nonzero n.0) o.1 in
            let (d, f, e, r) = trunc_direct-cut blocklen (suc i) xs true fr.valid o1 n.1 in
            rw (drop, e1)
              (
                d,
                f,
                rw e,
                Freed-Released b (freed (leb blocklen) (suc i) xs) (freed (leb blocklen) i (b ∷ xs))
                    fr r (λ j. rw drop),
              )
      ]

  -- The same for the loop over the indirect block, whose test is another.
  pub trunc_entries-cut :
      (blocklen at : ℕ) (xs : List ℕ) (hasnonzero iddirty : Bool) {fs : Fs S}
      → IsValid fs
      → AllOwned fs xs
      → NoRepeat xs
      → (h d : Bool) × (fs' : Fs S) × (trunc_entries blocklen at xs hasnonzero iddirty fs
          ≡ ret (cut (ltb blocklen) at xs, h, d, fs'))
        × Released fs (freed (ltb blocklen) at xs) fs'
  unfolding trunc_entries cut freed
  trunc_entries-cut blocklen at [] hasnonzero iddirty {fs} valid o n =
      (hasnonzero, iddirty, fs, refl, record { valid = valid; volume = refl; left = λ j. refl })
  trunc_entries-cut blocklen at (b ∷ xs) hasnonzero iddirty {fs} valid o n =
      elim (Bool-cases (ltb blocklen at && not (b == 0))) [
        | inr keep ↦
            let (h, d, f, e, r) =
              trunc_entries-cut blocklen (suc at) xs (not (b == 0) || hasnonzero) iddirty valid o.1
                n.1 in
            rw keep (
              h,
              d,
              f,
              rw e,
              Released-same (freed (ltb blocklen) (suc at) xs) (freed (ltb blocklen) at (b ∷ xs)) r
                  (λ j. rw keep),
            )
        | inl drop ↦
            let nonzero : b ≢ 0 = ground arith in
            let (inside, marked) = Owned-block fs b nonzero o.0 in
            let (fs1, e1, fr) = bfree-in_use valid b nonzero inside marked in
            let o1 = AllOwned-Released b xs fr (once b xs nonzero n.0) o.1 in
            let (h, d, f, e, r) =
              trunc_entries-cut blocklen (suc at) xs hasnonzero true fr.valid o1 n.1 in
            rw (drop, e1)
              (
                h,
                d,
                f,
                rw e,
                Freed-Released b (freed (ltb blocklen) (suc at) xs)
                    (freed (ltb blocklen) at (b ∷ xs)) fr r (λ j. rw drop),
              )
      ]
