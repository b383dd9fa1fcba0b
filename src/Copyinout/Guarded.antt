-- ===== src/Copyinout/Guarded.antt =====
-- memcpy under copyfail.
use prog.Copyinout.{touches, guarded_up, guarded_memcpy}
use prog.Libc.Memory.{Memory, copy_unit, by_words}
use prog.Libc.Memory.Copies.{moved, times, times_one, times_four}
use prog.Prelude.Errno.{efault}
use prog.Prelude.{
  ℕ, zero, suc, ◌+◌, ◌-◌, ◌/◌, ◌<◌, ◌≤◌, ◌≡◌, ◌⊎◌, inl, inr, refl, ap, ◌∙◌, Bool, false, arith,
  Bool-cases, subst, true, ltb,
}

-- All bytes can be touched and are copied; or the copy has stopped before the word or byte that holds
-- the first that cannot be touched.
abbrev pub Guarded : (ℕ → Bool) → ℕ → ℕ → ℕ → ℕ → Memory → ℕ × Memory → Type 0
Guarded touch user dst src len mem r =
    ((r.0 ≡ 0)
      × ((j : ℕ) → j < len → touch (user + j) ≡ true)
      × ((x : ℕ) → r.1 x ≡ moved dst src dst (dst + len) mem x))
    ⊎ ((r.0 ≡ efault)
        × (bad : ℕ) × (bad < len)
        × (touch (user + bad) ≡ false)
        × ((j : ℕ) → j < bad → touch (user + j) ≡ true)
        × (k : ℕ) × (k ≤ bad)
        × (bad < k + 4)
        × ((x : ℕ) → r.1 x ≡ moved dst src dst (dst + k) mem x))

-- The bytes of an access, up to the first that cannot be touched.
touches_lem :
    (touch : ℕ → Bool) (at n : ℕ)
    → ((touches touch at n ≡ true) × ((j : ℕ) → j < n → touch (at + j) ≡ true))
      ⊎ ((touches touch at n ≡ false)
          × (bad : ℕ) × (bad < n)
          × (touch (at + bad) ≡ false)
          × ((j : ℕ) → j < bad → touch (at + j) ≡ true))
unfolding touches
touches_lem touch at zero = inl (refl, λ j h. absurd (omega (arith, h)))
touches_lem touch at (suc n) = elim (Bool-cases (touch at)) [
  | inr bad ↦
      let no_shift : at + 0 ≡ at = omega arith in
      inr (rw bad refl, 0, omega arith, ap touch no_shift ∙ bad, λ j h. absurd (omega (arith, h)))
  | inl good ↦ elim (touches_lem touch (at + 1) n) [
    | inl (rest, all) ↦ inl (rw (good, rest) refl, later at n good all)
    | inr (rest, bad, low, stops, all) ↦
        let shift : at + suc bad ≡ at + 1 + bad = omega arith in
        inr (
          rw (good, rest) refl,
          suc bad,
          omega (arith, low),
          ap touch shift ∙ stops,
          later at bad good all,
        )
  ]
]
  where
    later :
        (at n : ℕ)
        → touch at ≡ true
        → ((j : ℕ) → j < n → touch (at + 1 + j) ≡ true)
        → (j : ℕ) → j < suc n
        → touch (at + j) ≡ true
    later at n good all zero h =
        let no_shift : at + 0 ≡ at = omega arith in ap touch no_shift ∙ good
    later at n good all (suc j) h =
        let shift : at + suc j ≡ at + 1 + j = omega arith in
        ap touch shift ∙ all j (omega (arith, h))

-- An ascending copy does not read what it has written.
abbrev pub Ascending : ℕ → ℕ → ℕ → Type 0
Ascending dst src len = (dst ≤ src) ⊎ (src + len ≤ dst)

module _ (touch : ℕ → Bool) (u user dst src len : ℕ) (mem : Memory) (way : Ascending dst src len)
    (some_unit : 0 < u) (small_unit : u ≤ 4) where
  pub unit_step :
      (k : ℕ) (m : Memory)
      → k + u ≤ len
      → ((x : ℕ) → m x ≡ moved dst src dst (dst + k) mem x)
      → (x : ℕ) → copy_unit u (dst + k) (src + k) m x ≡ moved dst src dst (dst + (k + u)) mem x
  unit_step k m room so x = elim way [
    | inl below ↦ ground (arith, so x, so (src + k + (x - (dst + k))))
    | inr above ↦ ground (arith, so x, so (src + k + (x - (dst + k))))
  ]

  -- From here on `n` bytes more can be touched.
  so_far :
      (k n : ℕ)
      → ((j : ℕ) → j < k → touch (user + j) ≡ true)
      → ((j : ℕ) → j < n → touch (user + k + j) ≡ true)
      → (j : ℕ) → j < k + n
      → touch (user + j) ≡ true
  so_far k n before more j h = elim (Bool-cases (ltb j k)) [
    | inl early ↦ before j (ground (arith, early))
    | inr late ↦
        let e : user + k + (j - k) ≡ user + j = ground (arith, late) in
        subst (λ a. touch a ≡ true) e (more (j - k) (ground (arith, late, h)))
  ]

  guarded_up_lem :
      (n k : ℕ) (m : Memory)
      → k + times n u ≡ len
      → ((j : ℕ) → j < k → touch (user + j) ≡ true)
      → ((x : ℕ) → m x ≡ moved dst src dst (dst + k) mem x)
      → Guarded touch user dst src len mem (guarded_up touch u user dst src n k m)
  unfolding guarded_up
  guarded_up_lem zero k m e before so =
      let all : k ≡ len = omega (arith, e) in
      inl (
        refl,
        λ j h. before j (omega (arith, h, all)),
        λ x. so x ∙ ap (λ l. moved dst src dst (dst + l) mem x) all,
      )
  guarded_up_lem (suc n) k m e before so = elim (touches_lem touch (user + k) u) [
    | inl (good, more) ↦ rw good (
        guarded_up_lem n (k + u) (copy_unit u (dst + k) (src + k) m) (omega (arith, e))
          (so_far k u before more) (unit_step k m (omega (arith, e)) so))
    | inr (stops, bad, low, there, more) ↦
        let shift : user + (k + bad) ≡ user + k + bad = omega arith in
        rw stops (
          inr (
            refl,
            k + bad,
            omega (arith, e, low),
            ap touch shift ∙ there,
            so_far k bad before more,
            k,
            omega arith,
            omega (arith, low, small_unit),
            so,
          ))
  ]

pub guarded_memcpy_lem :
    (touch : ℕ → Bool) (user dst src len : ℕ) (mem : Memory)
    → Ascending dst src len
    → Guarded touch user dst src len mem (guarded_memcpy touch user dst src len mem)
unfolding guarded_memcpy
guarded_memcpy_lem touch user dst src len mem way = elim (Bool-cases (by_words dst src len)) [
  | inl words ↦
      let e : 0 + times (len / 4) 4 ≡ len = ground (arith, times_four (len / 4), words) in
      rw words (
        guarded_up_lem touch 4 user dst src len mem way (omega arith) (omega arith) (len / 4) 0 mem
          e (λ j h. absurd (omega (arith, h))) (λ x. ground arith))
  | inr bytes ↦
      let e : 0 + times len 1 ≡ len = omega (arith, times_one len) in
      rw bytes (
        guarded_up_lem touch 1 user dst src len mem way (omega arith) (omega arith) len 0 mem e
          (λ j h. absurd (omega (arith, h))) (λ x. ground arith))
]
