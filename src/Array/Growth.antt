-- ===== src/Array/Growth.antt =====
-- The loop that doubles an array's size.
use prog.Array.{grown}
use prog.Prelude.{
  ℕ, zero, suc, ◌*◌, ◌%◌, ◌^◌, ◌<◌, ◌≤◌, ◌≡◌, ◌≢◌, refl, ap, ◌∙◌, true, ltb, some, false, ◌⊎◌,
  arith, Bool-cases, inl, inr, test_ne,
}

-- `n`, doubled `k` times.
abbrev doubled : ℕ → ℕ → ℕ
doubled zero n = n
doubled (suc k) n = doubled k (n * 2)

module _ (k num n : ℕ) where
  grown_stop : ltb n num ≡ false → grown (suc k) num n ≡ some n
  unfolding grown
  grown_stop stop = rw stop refl

  grown_double :
      ltb n num ≡ true → n ≢ 0 → n * 2 % 2 ^ 32 ≡ n * 2 → grown (suc k) num n ≡ grown k num (n * 2)
  unfolding grown
  grown_double more n0 fits = rw (more, test_ne n 0 n0) (ap (grown k num) fits)

  grown_first : ltb 0 num ≡ true → grown (suc k) num 0 ≡ grown k num 4
  unfolding grown
  grown_first more = rw more refl

enough :
    (k num n : ℕ)
    → 0 < n
    → num ≤ 2 ^ 31
    → num ≤ doubled k n
    → (m : ℕ) × (grown (suc k) num n ≡ some m) × (num ≤ m) × ((m ≡ n) ⊎ (m < 2 * num))
enough zero num n pos top h =
    let stop : ltb n num ≡ false = ground arith in
    (n, grown_stop 0 num n stop, omega arith, inl refl)
enough (suc k) num n pos top h = elim (Bool-cases (ltb n num)) [
  | inr stop ↦ (n, grown_stop (suc k) num n stop, ground (arith, stop), inl refl)
  | inl more ↦
      let fits : n * 2 % 2 ^ 32 ≡ n * 2 = ground (arith, more) in
      let (m, run, big, bound) = enough k num (n * 2) (omega arith) top h in
      let small : m < 2 * num = elim bound [ inl e ↦ ground (arith, more, e) | inr l ↦ l ] in
      (m, grown_double (suc k) num n more (omega arith) fits ∙ run, big, inr small)
]

-- Termination: for up to 2^31 elements the loop of array_preallocate ends within 33 rounds, with a
-- size that is large enough, and is the old one, 4, or less than twice what was asked for.
pub grown_ends :
    (num max : ℕ)
    → num ≤ 2 ^ 31
    → (m : ℕ) × (grown 33 num max ≡ some m) × (num ≤ m) × ((m ≡ max) ⊎ ((m ≡ 4) ⊎ (m < 2 * num)))
grown_ends num zero top = elim (Bool-cases (ltb 0 num)) [
  | inr stop ↦ (0, grown_stop 32 num 0 stop, ground (arith, stop), inl refl)
  | inl more ↦
      let (m, run, big, bound) = enough 31 num 4 (omega arith) top (omega arith) in
      (m, grown_first 32 num 0 more ∙ run, big, inr bound)
]
grown_ends num (suc max) top =
    let (m, run, big, bound) = enough 32 num (suc max) (omega arith) top (omega arith) in
    (m, run, big, elim bound [ inl e ↦ inl e | inr l ↦ inr (inr l) ])
