-- ===== src/Libc/Memory/Copies.antt =====
-- The copying loops give what the memory held before, whichever way the regions overlap.
use prog.Libc.Memory.{
  Memory, copy_unit, copy_up, copy_down, by_words, memcpy, memmove, fill_unit, fill, memset, bzero,
}
use prog.Prelude.{
  ℕ, zero, suc, ◌+◌, ◌-◌, ◌*◌, ◌/◌, ◌%◌, ◌≤◌, ◌≡◌, refl, ltb, leb, ◌==◌, ◌&&◌, if◌then◌else◌, arith,
  Bool-cases, inl, inr, ◌∙◌, sym, ap,
}

-- `n` units of `u` bytes.
abbrev pub times : ℕ → ℕ → ℕ
times zero u = 0
times (suc n) u = u + times n u

pub times_one : (n : ℕ) → times n 1 ≡ n
times_one zero = refl
times_one (suc n) = omega (arith, times_one n)

pub times_four : (n : ℕ) → times n 4 ≡ n * 4
times_four zero = refl
times_four (suc n) = omega (arith, times_four n)

-- The memory after the bytes from `lo` to `hi` of the destination are copied.
abbrev pub moved : ℕ → ℕ → ℕ → ℕ → Memory → Memory
moved dst src lo hi mem a = if leb lo a && ltb a hi then mem (src + (a - dst)) else mem a

module _ (u dst src : ℕ) (mem : Memory) where
  up_step :
      (k : ℕ) (m : Memory)
      → dst ≤ src
      → ((x : ℕ) → m x ≡ moved dst src dst (dst + k) mem x)
      → (x : ℕ) → copy_unit u (dst + k) (src + k) m x ≡ moved dst src dst (dst + (k + u)) mem x
  up_step k m below so x = ground (arith, so x, so (src + k + (x - (dst + k))))

  copy_up_lem :
      (n k : ℕ) (m : Memory)
      → dst ≤ src
      → ((x : ℕ) → m x ≡ moved dst src dst (dst + k) mem x)
      → (x : ℕ) → copy_up u dst src n k m x ≡ moved dst src dst (dst + (k + times n u)) mem x
  unfolding copy_up
  copy_up_lem zero k m below so x = let e : k + 0 ≡ k = omega arith in rw e (so x)
  copy_up_lem (suc n) k m below so x =
      let e : k + u + times n u ≡ k + (u + times n u) = omega arith in
      rw (← e)
        (copy_up_lem n (k + u) (copy_unit u (dst + k) (src + k) m) below (up_step k m below so) x)

  down_step :
      (k hi : ℕ) (m : Memory)
      → src ≤ dst
      → u ≤ k
      → dst + k ≤ hi
      → ((x : ℕ) → m x ≡ moved dst src (dst + k) hi mem x)
      → (x : ℕ)
      → copy_unit u (dst + (k - u)) (src + (k - u)) m x ≡ moved dst src (dst + (k - u)) hi mem x
  down_step k hi m above room top so x =
      ground (arith, so x, so (src + (k - u) + (x - (dst + (k - u)))))

  copy_down_lem :
      (n k hi : ℕ) (m : Memory)
      → src ≤ dst
      → k ≡ times n u
      → dst + k ≤ hi
      → ((x : ℕ) → m x ≡ moved dst src (dst + k) hi mem x)
      → (x : ℕ) → copy_down u dst src n k m x ≡ moved dst src dst hi mem x
  unfolding copy_down
  copy_down_lem zero k hi m above e top so x =
      let z : dst + k ≡ dst = omega (arith, e) in so x ∙ ap (λ l. moved dst src l hi mem x) z
  copy_down_lem (suc n) k hi m above e top so x =
      copy_down_lem n (k - u) hi (copy_unit u (dst + (k - u)) (src + (k - u)) m) above
        (omega (arith, e)) (omega (arith, top)) (down_step k hi m above (omega (arith, e)) top so) x

started : (dst src : ℕ) (mem : Memory) (x : ℕ) → mem x ≡ moved dst src dst (dst + 0) mem x
started dst src mem x = ground arith

untouched : (dst src k : ℕ) (mem : Memory) (x : ℕ) → mem x ≡ moved dst src (dst + k) (dst + k) mem x
untouched dst src k mem x = ground arith

-- memcpy where the destination does not lie above the source.
memcpy_lem :
    (dst src len : ℕ) (mem : Memory)
    → dst ≤ src
    → (x : ℕ) → memcpy dst src len mem x ≡ moved dst src dst (dst + len) mem x
unfolding memcpy
memcpy_lem dst src len mem below x = elim (Bool-cases (by_words dst src len)) [
  | inl words ↦
      let e : 0 + times (len / 4) 4 ≡ len = ground (arith, times_four (len / 4), words) in
      rw words (
        copy_up_lem 4 dst src mem (len / 4) 0 mem below (started dst src mem) x
        ∙ ap (λ l. moved dst src dst (dst + l) mem x) e)
  | inr bytes ↦
      let e : 0 + times len 1 ≡ len = omega (arith, times_one len) in
      rw bytes (
        copy_up_lem 1 dst src mem len 0 mem below (started dst src mem) x
        ∙ ap (λ l. moved dst src dst (dst + l) mem x) e)
]

-- Equivalence with a copy from a snapshot: whichever way the two regions overlap and however they are
-- aligned, after memmove each byte of the destination is the one that the source held before, and
-- every other byte is as it was.
pub memmove_lem :
    (dst src len : ℕ) (mem : Memory) (x : ℕ)
    → memmove dst src len mem x
      ≡ (if leb dst x && ltb x (dst + len) then mem (src + (x - dst)) else mem x)
unfolding memmove
memmove_lem dst src len mem x = elim (Bool-cases (ltb dst src)) [
  | inl below ↦ rw below (memcpy_lem dst src len mem (ground (arith, below)) x)
  | inr above ↦ elim (Bool-cases (by_words dst src len)) [
    | inl words ↦
        let e : len ≡ times (len / 4) 4 = ground (arith, times_four (len / 4), words) in
        rw (above, words)
          (copy_down_lem 4 dst src mem (len / 4) len (dst + len) mem (ground (arith, above)) e
            (omega arith) (untouched dst src len mem) x)
    | inr bytes ↦
        rw (above, bytes)
          (copy_down_lem 1 dst src mem len len (dst + len) mem (ground (arith, above))
            (omega (arith, times_one len)) (omega arith) (untouched dst src len mem) x)
  ]
]

-- The memory after the bytes from `lo` to `hi` are set.
abbrev filled : ℕ → ℕ → ℕ → Memory → Memory
filled ch lo hi mem a = if leb lo a && ltb a hi then ch else mem a

fill_lem :
    (u p ch n k : ℕ) (mem m : Memory)
    → ((x : ℕ) → m x ≡ filled ch p (p + k) mem x)
    → (x : ℕ) → fill u p ch n k m x ≡ filled ch p (p + (k + times n u)) mem x
unfolding fill
fill_lem u p ch zero k mem m so x = let e : k + 0 ≡ k = omega arith in rw e (so x)
fill_lem u p ch (suc n) k mem m so x =
    let e : k + u + times n u ≡ k + (u + times n u) = omega arith in
    rw (← e)
      (fill_lem u p ch n (k + u) mem (fill_unit u (p + k) ch m) (λ y. ground (arith, so y)) x)

-- bzero, by words or by bytes, does what memset with 0 does.
pub bzero-memset : (p len : ℕ) (mem : Memory) (x : ℕ) → bzero p len mem x ≡ memset p 0 len mem x
unfolding bzero memset
bzero-memset p len mem x =
    let start : (y : ℕ) → mem y ≡ filled 0 p (p + 0) mem y = λ y. ground arith in
    let by_bytes = fill_lem 1 p 0 len 0 mem mem start x in
    elim (Bool-cases ((p % 4 == 0) && (len % 4 == 0))) [
      | inl words ↦
          let e : times (len / 4) 4 ≡ times len 1 =
            ground (arith, times_four (len / 4), times_one len, words) in
          rw words (fill_lem 4 p 0 (len / 4) 0 mem mem start x ∙ rw e (sym by_bytes))
      | inr bytes ↦ rw bytes refl
    ]

pub bzero_lem :
    (p len : ℕ) (mem : Memory) (x : ℕ)
    → bzero p len mem x ≡ (if leb p x && ltb x (p + len) then 0 else mem x)
unfolding memset
bzero_lem p len mem x =
    let e : 0 + times len 1 ≡ len = omega (arith, times_one len) in
    bzero-memset p len mem x
    ∙ fill_lem 1 p 0 len 0 mem mem (λ y. ground arith) x
    ∙ ap (λ l. filled 0 p (p + l) mem x) e
