-- ===== src/Process/Children.antt =====
-- The array of a new process's children, which sys_fork clears by bytes.
use prog.Process.{memset_ints, minus_one}
use prog.Prelude.{
  ℕ, zero, suc, ◌+◌, ◌*◌, ◌<◌, ◌≡◌, refl, List, [], ◌∷◌, some, arith, length, get_elem?,
}

four_more : (k r : ℕ) → 4 * suc k + r ≡ suc (suc (suc (suc (4 * k + r))))
four_more k r = omega arith

-- memset of as many bytes as the array has entries, 4 * k + r with r below 4, sets the first k
-- entries to -1, and leaves every entry after the next one as kmalloc handed it out.
pub memset_ints_lem :
    (k r : ℕ) (raw : List ℕ)
    → r < 4
    → ((m : ℕ)
        → m < k
        → m < length raw
        → get_elem? (memset_ints (4 * k + r) raw) m ≡ some minus_one)
      × ((m : ℕ) → k < m → get_elem? (memset_ints (4 * k + r) raw) m ≡ get_elem? raw m)
unfolding memset_ints
memset_ints_lem k r [] small = (λ m h l. absurd (omega arith), λ m h. refl)
memset_ints_lem zero zero (x ∷ xs) small = (λ m h l. absurd (omega arith), λ m h. refl)
memset_ints_lem zero (suc zero) (x ∷ xs) small = (λ m h l. absurd (omega arith), at)
  where
    at : (m : ℕ) → 0 < m → get_elem? (memset_ints 1 (x ∷ xs)) m ≡ get_elem? (x ∷ xs) m
    at zero h = absurd (omega arith)
    at (suc m) h = refl
memset_ints_lem zero (suc (suc zero)) (x ∷ xs) small = (λ m h l. absurd (omega arith), at)
  where
    at : (m : ℕ) → 0 < m → get_elem? (memset_ints 2 (x ∷ xs)) m ≡ get_elem? (x ∷ xs) m
    at zero h = absurd (omega arith)
    at (suc m) h = refl
memset_ints_lem zero (suc (suc (suc zero))) (x ∷ xs) small = (λ m h l. absurd (omega arith), at)
  where
    at : (m : ℕ) → 0 < m → get_elem? (memset_ints 3 (x ∷ xs)) m ≡ get_elem? (x ∷ xs) m
    at zero h = absurd (omega arith)
    at (suc m) h = refl
memset_ints_lem zero (suc (suc (suc (suc r)))) (x ∷ xs) small = absurd (omega arith)
memset_ints_lem (suc k) r (x ∷ xs) small =
    rw (four_more k r)
      (marked (memset_ints_lem k r xs small).0, kept (memset_ints_lem k r xs small).1)
  where
    marked :
        ((m : ℕ)
          → m < k
          → m < length xs
          → get_elem? (memset_ints (4 * k + r) xs) m ≡ some minus_one)
        → (m : ℕ) → m < suc k
        → m < suc (length xs)
        → get_elem? (minus_one ∷ memset_ints (4 * k + r) xs) m ≡ some minus_one
    marked ih zero h l = refl
    marked ih (suc m) h l = ih m (omega arith) (omega arith)

    kept :
        ((m : ℕ) → k < m → get_elem? (memset_ints (4 * k + r) xs) m ≡ get_elem? xs m)
        → (m : ℕ) → suc k < m
        → get_elem? (minus_one ∷ memset_ints (4 * k + r) xs) m ≡ get_elem? (x ∷ xs) m
    kept ih zero h = absurd (omega arith)
    kept ih (suc m) h = ih m (omega arith)
