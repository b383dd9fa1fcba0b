-- ===== src/Copyinout/Region.antt =====
-- copyin and copyout of a region.
use prog.Copyinout.{Mmu, userspacetop, copycheck, guarded_memcpy, copyin, copyout}
use prog.Copyinout.Guarded.{Guarded, guarded_memcpy_lem}
use prog.Libc.Memory.{Memory}
use prog.Prelude.Errno.{efault}
use prog.Prelude.{
  ℕ, ◌+◌, ◌-◌, ◌%◌, ◌^◌, ◌<◌, ◌≤◌, ◌≡◌, ◌≢◌, ◌⊎◌, inl, inr, refl, sym, ap, subst, ◌∙◌, ltb, leb,
  if◌then◌else◌, Bool, true, false, Reply, ok, err, arith, Bool-cases, test_ne, test_self,
}

-- What copycheck answers for addresses of 32 bits. A region that is empty, starts in the kernel or
-- wraps around is refused, but for the empty one at 0; else it is cut off at the top of user space.
abbrev pub Checked : ℕ → ℕ → Reply ℕ → Type 0
Checked bot len r =
    ((r ≡ err efault) × ((len ≡ 0) ⊎ ((userspacetop ≤ bot) ⊎ (2 ^ 32 < bot + len))))
    ⊎ (((r ≡ ok userspacetop) × (len ≡ 0))
        ⊎ ((0 < len)
            × (bot < userspacetop)
            × (bot + len ≤ 2 ^ 32)
            × (r ≡ ok (if ltb (userspacetop - bot) len then userspacetop - bot else len))))

pub copycheck_lem :
    (bot len : ℕ) → bot < 2 ^ 32 → len < 2 ^ 32 → Checked bot len (copycheck bot len)
unfolding copycheck
copycheck_lem bot len b l =
    let top = (bot + len + 0xFFFFFFFF) % 2 ^ 32 in
    let some_or_none : (len ≡ 0) ⊎ (0 < len) = omega arith in
    elim (Bool-cases (ltb top bot)) [
      | inl wraps ↦ rw wraps (inl (refl, ground (arith, wraps, b, l)))
      | inr fits ↦ elim (Bool-cases (leb userspacetop bot)) [
        | inl kernel ↦ rw (fits, kernel) (inl (refl, ground (arith, kernel)))
        | inr user ↦ elim (Bool-cases (leb userspacetop top)) [
          | inl over ↦
              rw (fits, user, over)
                (elim some_or_none [
                  | inl empty ↦ inr (inl (ap ok (ground (arith, empty, fits, b)), empty))
                  | inr some_bytes ↦
                      let end : top ≡ bot + len - 1 = ground (arith, fits, some_bytes, b, l) in
                      let cut : ltb (userspacetop - bot) len ≡ true =
                        ground (arith, over, end, user, some_bytes) in
                      inr (
                        inr (
                          some_bytes,
                          ground (arith, user),
                          ground (arith, end, fits, b, l, some_bytes),
                          rw cut refl,
                        ))
                ])
          | inr whole ↦
              rw (fits, user, whole)
                (elim some_or_none [
                  | inl empty ↦ absurd (ground (arith, empty, fits, whole, b, user))
                  | inr some_bytes ↦
                      let end : top ≡ bot + len - 1 = ground (arith, fits, some_bytes, b, l) in
                      let uncut : ltb (userspacetop - bot) len ≡ false =
                        ground (arith, whole, end, user) in
                      inr (
                        inr (
                          some_bytes,
                          ground (arith, user),
                          ground (arith, end, fits, b, l, some_bytes),
                          rw uncut refl,
                        ))
                ])
        ]
      ]
    ]

-- The region is not empty and lies in user space.
abbrev pub Within : ℕ → ℕ → Type 0
Within bot len = (0 < len) × (bot + len ≤ userspacetop)

module _ (bot len : ℕ) (b : bot < 2 ^ 32) (l : len < 2 ^ 32) where
  -- What copyin and copyout make of it.
  whole_or_not :
      (Within bot len × (copycheck bot len ≡ ok len))
      ⊎ ((Within bot len → ⊥)
          × ((copycheck bot len ≡ err efault)
              ⊎ ((stop : ℕ) × (copycheck bot len ≡ ok stop) × (stop ≢ len))))
  whole_or_not = elim (copycheck_lem bot len b l) [
    | inl (e, why) ↦ inr (λ w. ground (arith, w, why), inl e)
    | inr (inl (e, empty)) ↦
        inr (λ w. omega (arith, w.0, empty), inr (userspacetop, e, omega (arith, empty)))
    | inr (inr (some_bytes, user, top, e)) ↦ elim (Bool-cases (ltb (userspacetop - bot) len)) [
      | inl over ↦ inr (
        λ w. ground (arith, w.1, over, user),
        inr (
          userspacetop - bot,
          e ∙ ap (λ t. ok (if t then userspacetop - bot else len)) over,
          ground (arith, over),
        ),
      )
      | inr inside ↦ inl (
        (some_bytes, ground (arith, inside, user)),
        e ∙ ap (λ t. ok (if t then userspacetop - bot else len)) inside,
      )
    ]
  ]

-- What copying between a user region and the kernel comes to: a region that is empty or not within
-- user space is refused and nothing is copied.
abbrev pub Copied : (ℕ → Bool) → ℕ → ℕ → ℕ → ℕ → Memory → ℕ × Memory → Type 0
Copied touch user dst src len mem r =
    (Within user len × Guarded touch user dst src len mem r)
    ⊎ ((Within user len → ⊥) × (r ≡ (efault, mem)))

-- copyin with addresses of 32 bits and a destination in the kernel fails with EFAULT and copies nothing
-- unless the region is not empty and lies in user space. Then either all its bytes can be read, and it
-- copies them and returns 0, or it returns EFAULT and has copied the bytes before the word, or byte,
-- that holds the first that cannot be read.
pub copyin_lem :
    (mmu : Mmu) (usersrc dest len : ℕ) (mem : Memory)
    → usersrc < 2 ^ 32
    → len < 2 ^ 32
    → userspacetop ≤ dest
    → Copied mmu.readable usersrc dest usersrc len mem (copyin mmu usersrc dest len mem)
unfolding copyin
copyin_lem mmu usersrc dest len mem b l kernel = elim (whole_or_not usersrc len b l) [
  | inl (within, e) ↦
      let same : copyin mmu usersrc dest len mem
          ≡ guarded_memcpy mmu.readable usersrc dest usersrc len mem =
        rw (e, copyin, test_self len) refl in
      inl (
        within,
        subst (Guarded mmu.readable usersrc dest usersrc len mem) (sym same) (
            guarded_memcpy_lem mmu.readable usersrc dest usersrc len mem
              (inr (omega (arith, within.1, kernel)))),
      )
  | inr (outside, inl e) ↦ inr (outside, rw (e, copyin) refl)
  | inr (outside, inr (stop, e, ne)) ↦ inr (outside, rw (e, copyin, test_ne stop len ne) refl)
]

-- copyout likewise, for a source in the kernel and bytes that cannot be written.
pub copyout_lem :
    (mmu : Mmu) (src userdest len : ℕ) (mem : Memory)
    → userdest < 2 ^ 32
    → len < 2 ^ 32
    → userspacetop ≤ src
    → Copied mmu.writable userdest userdest src len mem (copyout mmu src userdest len mem)
unfolding copyout
copyout_lem mmu src userdest len mem b l kernel = elim (whole_or_not userdest len b l) [
  | inl (within, e) ↦
      let same : copyout mmu src userdest len mem
          ≡ guarded_memcpy mmu.writable userdest userdest src len mem =
        rw (e, copyout, test_self len) refl in
      inl (
        within,
        subst (Guarded mmu.writable userdest userdest src len mem) (sym same) (
            guarded_memcpy_lem mmu.writable userdest userdest src len mem
              (inl (omega (arith, within.1, kernel)))),
      )
  | inr (outside, inl e) ↦ inr (outside, rw (e, copyout) refl)
  | inr (outside, inr (stop, e, ne)) ↦ inr (outside, rw (e, copyout, test_ne stop len ne) refl)
]
