-- ===== src/Copyinout/Strings.antt =====
-- copystr, copyinstr and copyoutstr.
use prog.Copyinout.{Mmu, userspacetop, copystr_from, copystr, copyinstr}
use prog.Copyinout.Guarded.{Ascending, unit_step}
use prog.Copyinout.Region.{copycheck_lem}
use prog.Libc.Memory.{Memory, copy_unit}
use prog.Libc.Memory.Copies.{moved}
use prog.Prelude.Errno.{efault, enametoolong}
use prog.Prelude.{
  ℕ, zero, suc, ◌+◌, ◌-◌, ◌^◌, ◌<◌, ◌≤◌, ◌≡◌, ◌≢◌, ◌⊎◌, inl, inr, refl, sym, ap, subst, ◌∙◌, ltb,
  ◌==◌, if◌then◌else◌, Bool, true, false, Reply, ok, err, arith, Bool-cases,
}

-- What copystr comes to with room for `room` bytes: the string with its NUL and its length; EFAULT at
-- the first byte that cannot be touched; or no NUL among them, and the error given.
abbrev pub Ended : (ℕ → Bool) → ℕ → ℕ → ℕ → ℕ → ℕ → Memory → Reply ℕ × Memory → Type 0
Ended touch user dest src room full mem r =
    ((n : ℕ) × (n < room)
      × (mem (src + n) ≡ 0)
      × ((j : ℕ) → j < n → mem (src + j) ≢ 0)
      × ((j : ℕ) → j < n + 1 → touch (user + j) ≡ true)
      × (r.0 ≡ ok (n + 1))
      × ((x : ℕ) → r.1 x ≡ moved dest src dest (dest + (n + 1)) mem x))
    ⊎ (((k : ℕ) × (k < room)
          × (touch (user + k) ≡ false)
          × ((j : ℕ) → j < k → mem (src + j) ≢ 0)
          × ((j : ℕ) → j < k → touch (user + j) ≡ true)
          × (r.0 ≡ err efault)
          × ((x : ℕ) → r.1 x ≡ moved dest src dest (dest + k) mem x))
        ⊎ (((j : ℕ) → j < room → mem (src + j) ≢ 0)
            × ((j : ℕ) → j < room → touch (user + j) ≡ true)
            × (r.0 ≡ err full)
            × ((x : ℕ) → r.1 x ≡ moved dest src dest (dest + room) mem x)))

module _ (touch : ℕ → Bool) (user dest src maxlen stoplen : ℕ) (mem : Memory) (room : ℕ)
    (way : Ascending dest src room) where
  abbrev pub full : ℕ
  full = if ltb stoplen maxlen then efault else enametoolong

  abbrev failure : Reply ℕ
  failure = err full

  full_err : (if ltb stoplen maxlen then err efault else err enametoolong) ≡ failure
  full_err = elim (Bool-cases (ltb stoplen maxlen)) [ inl t ↦ rw t refl | inr f ↦ rw f refl ]

  -- The NUL test reads the byte after it was copied, which is the one that was there.
  same_byte :
      (i : ℕ) (m : Memory)
      → i < room
      → ((x : ℕ) → m x ≡ moved dest src dest (dest + i) mem x)
      → copy_unit 1 (dest + i) (src + i) m (src + i) ≡ mem (src + i)
  same_byte i m low so = elim way [
    | inl below ↦ ground (arith, so (src + i), low, below)
    | inr above ↦ ground (arith, so (src + i), low, above)
  ]

  touched :
      (i : ℕ)
      → ((j : ℕ) → j < i → touch (user + j) ≡ true)
      → touch (user + i) ≡ true
      → (j : ℕ) → j < i + 1
      → touch (user + j) ≡ true
  touched i before here j h =
      let order : (j < i) ⊎ (j ≡ i) = omega (arith, h) in
      elim order [
        | inl early ↦ before j early
        | inr same ↦ subst (λ t. touch (user + t) ≡ true) (sym same) here
      ]

  copystr_from_lem :
      (left i : ℕ) (m : Memory)
      → i + left ≡ room
      → ((x : ℕ) → m x ≡ moved dest src dest (dest + i) mem x)
      → ((j : ℕ) → j < i → mem (src + j) ≢ 0)
      → ((j : ℕ) → j < i → touch (user + j) ≡ true)
      → Ended touch user dest src room full mem
          (copystr_from touch user dest src maxlen stoplen left i m)
  unfolding copystr_from
  copystr_from_lem zero i m e so text open_to =
      let all : i ≡ room = omega (arith, e) in
      inr (
        inr (
          λ j h. text j (omega (arith, h, all)),
          λ j h. open_to j (omega (arith, h, all)),
          full_err,
          λ x. so x ∙ ap (λ l. moved dest src dest (dest + l) mem x) all,
        ))
  copystr_from_lem (suc left) i m e so text open_to =
      let low : i < room = omega (arith, e) in
      let byte = same_byte i m low so in
      let one : i + 1 ≡ suc i = omega arith in
      let next : (x : ℕ)
          → copy_unit 1 (dest + i) (src + i) m x ≡ moved dest src dest (dest + (i + 1)) mem x =
        unit_step touch 1 user dest src room mem way (omega arith) (omega arith) i m
          (omega (arith, low)) so in
      elim (Bool-cases (touch (user + i))) [
        | inr bad ↦ rw bad (inr (inl (i, low, bad, text, open_to, refl, so)))
        | inl good ↦ elim (Bool-cases (mem (src + i) == 0)) [
          | inl nul ↦
              rw (good, byte, nul)
                (inl (i, low, ground (arith, nul), text, touched i open_to good, refl, next))
          | inr char ↦
              rw (good, byte, char)
                (copystr_from_lem left (suc i) (copy_unit 1 (dest + i) (src + i) m)
                  (omega (arith, e))
                  (λ x. next x ∙ ap (λ l. moved dest src dest (dest + l) mem x) one)
                  (λ j h.
                    let order : (j < i) ⊎ (j ≡ i) = omega (arith, h) in
                    elim order [
                      | inl before ↦ text j before
                      | inr same ↦
                          subst (λ t. mem (src + t) ≢ 0) (sym same) (λ z. ground (arith, char, z))
                    ])
                  (λ j h. touched i open_to good j (omega (arith, h))))
        ]
      ]

  pub copystr_lem :
      room ≡ (if ltb maxlen stoplen then maxlen else stoplen)
      → Ended touch user dest src room full mem (copystr touch user dest src maxlen stoplen mem)
  unfolding copystr
  copystr_lem e =
      subst
        (λ n.
          Ended touch user dest src room full mem
            (copystr_from touch user dest src maxlen stoplen n 0 mem))
        e
        (copystr_from_lem room 0 mem (omega arith) (λ x. ground arith) (λ j h. omega (arith, h))
          (λ j h. absurd (omega (arith, h))))

-- The bytes of a buffer of `len` bytes at `bot` that lie in user space.
abbrev pub user_part : ℕ → ℕ → ℕ
user_part bot len = if ltb (userspacetop - bot) len then userspacetop - bot else len

user_part_lem :
    (bot len : ℕ)
    → bot < userspacetop
    → (bot + user_part bot len ≤ userspacetop)
      × (user_part bot len ≡ (if ltb len (user_part bot len) then len else user_part bot len))
      × (ltb (user_part bot len) len ≡ ltb (userspacetop - bot) len)
user_part_lem bot len user = elim (Bool-cases (ltb (userspacetop - bot) len)) [
  | inl over ↦ rw over (omega (arith, user), rw (over_back over) refl, over)
  | inr inside ↦ rw inside (ground (arith, inside, user), rw (test_lt len) refl, test_lt len)
]
  where
    test_lt : (n : ℕ) → ltb n n ≡ false
    test_lt n = ground arith

    over_back : ltb (userspacetop - bot) len ≡ true → ltb len (userspacetop - bot) ≡ false
    over_back h = ground (arith, h)

-- copyinstr with addresses of 32 bits and a destination in the kernel. A buffer that starts in the
-- kernel or wraps around fails with EFAULT, with nothing copied. Else, for a buffer that is not empty:
-- a string whose NUL lies in the part of the buffer that is in user space, and whose bytes can all be
-- read, is copied with its NUL, and its length with the NUL handed back; a byte that cannot be read,
-- with no NUL before it, stops the copy with EFAULT; and where all of that part can be read and holds no
-- NUL, it fails with EFAULT if the buffer reaches into the kernel, and with ENAMETOOLONG if not.
pub copyinstr_lem :
    (mmu : Mmu) (usersrc dest len : ℕ) (mem : Memory)
    → usersrc < 2 ^ 32
    → len < 2 ^ 32
    → userspacetop ≤ dest
    → 0 < len
    → ((copyinstr mmu usersrc dest len mem ≡ (err efault, mem))
        × ((userspacetop ≤ usersrc) ⊎ (2 ^ 32 < usersrc + len)))
      ⊎ ((usersrc < userspacetop)
          × Ended mmu.readable usersrc dest usersrc
              (user_part usersrc len)
              (if ltb (userspacetop - usersrc) len then efault else enametoolong)
              mem
              (copyinstr mmu usersrc dest len mem))
unfolding copyinstr
copyinstr_lem mmu usersrc dest len mem b l kernel some_bytes =
    elim (copycheck_lem usersrc len b l) [
      | inl (e, inl empty) ↦ absurd (omega (arith, empty, some_bytes))
      | inl (e, inr why) ↦ inl (rw (e, copyinstr) refl, why)
      | inr (inl (e, empty)) ↦ absurd (omega (arith, empty, some_bytes))
      | inr (inr (_, user, top, e)) ↦
          let stop = user_part usersrc len in
          let same : copyinstr mmu usersrc dest len mem
              ≡ copystr mmu.readable usersrc dest usersrc len stop mem =
            rw (e, copyinstr) refl in
          let (below, room, tests) = user_part_lem usersrc len user in
          let done =
            copystr_lem mmu.readable usersrc dest usersrc len stop mem stop
              (inr (omega (arith, below, kernel))) room in
          inr (
            user,
            subst
                (λ t.
                  Ended mmu.readable usersrc dest usersrc stop (if t then efault else enametoolong)
                    mem (copyinstr mmu usersrc dest len mem))
                tests
                (subst
                  (Ended mmu.readable usersrc dest usersrc stop
                    (if ltb stop len then efault else enametoolong) mem)
                  (sym same) done),
          )
    ]
