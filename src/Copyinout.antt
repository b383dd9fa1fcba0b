-- ===== src/Copyinout.antt =====
-- kern/vm/copyinout.c. Kernel and user addresses lie in one memory. Which user addresses can be read
-- and written is a parameter: any other access ends in copyfail, which leaves what was copied so far.
pub mod Guarded
pub mod Region
pub mod Strings
use prog.Libc.Memory.{Memory, copy_unit, by_words}
use prog.Prelude.Errno.{efault, enametoolong}
use prog.Prelude.{
  ℕ, zero, suc, ◌+◌, ◌-◌, ◌/◌, ◌%◌, ◌^◌, ltb, leb, ◌==◌, ◌&&◌, if◌then◌else◌, Bool, true, Reply, ok,
  err,
}

-- The user addresses that the process's translations allow to read and to write.
pub record Mmu : Type 0 where
  pub readable : ℕ → Bool
  pub writable : ℕ → Bool

abbrev pub userspacetop : ℕ
userspacetop = 0x80000000

-- copycheck: the stoplen, or EFAULT. Addresses wrap around.
unfoldable pub copycheck : ℕ → ℕ → Reply ℕ
copycheck bot len =
    let top = (bot + len + 0xFFFFFFFF) % 2 ^ 32 in
    if ltb top bot
    then err efault
    else if leb userspacetop bot
    then err efault
    else if leb userspacetop top
    then ok (userspacetop - bot)
    else ok len

-- Whether an access to `n` bytes from `at` on goes through.
unfoldable pub touches : (ℕ → Bool) → ℕ → ℕ → Bool
touches touch at zero = true
touches touch at (suc n) = touch at && touches touch (at + 1) n

-- The loop of memcpy, under copyfail: as copy_up, where `touch` tells whether the access to the user
-- region, that starts at `user`, goes through.
unfoldable pub guarded_up : (ℕ → Bool) → ℕ → ℕ → ℕ → ℕ → ℕ → ℕ → Memory → ℕ × Memory
guarded_up touch u user dst src zero k mem = (0, mem)
guarded_up touch u user dst src (suc n) k mem =
    let rest = guarded_up touch u user dst src n (k + u) (copy_unit u (dst + k) (src + k) mem) in
    if touches touch (user + k) u then rest else (efault, mem)

unfoldable pub guarded_memcpy : (ℕ → Bool) → ℕ → ℕ → ℕ → ℕ → Memory → ℕ × Memory
guarded_memcpy touch user dst src len mem =
    if by_words dst src len
    then guarded_up touch 4 user dst src (len / 4) 0 mem
    else guarded_up touch 1 user dst src len 0 mem

unfoldable pub copyin : Mmu → ℕ → ℕ → ℕ → Memory → ℕ × Memory
copyin mmu usersrc dest len mem = elim (copycheck usersrc len) [
  | err e ↦ (e, mem)
  | ok stoplen ↦
      if stoplen == len
      then guarded_memcpy mmu.readable usersrc dest usersrc len mem
      else (efault, mem)
]

unfoldable pub copyout : Mmu → ℕ → ℕ → ℕ → Memory → ℕ × Memory
copyout mmu src userdest len mem = elim (copycheck userdest len) [
  | err e ↦ (e, mem)
  | ok stoplen ↦
      if stoplen == len
      then guarded_memcpy mmu.writable userdest userdest src len mem
      else (efault, mem)
]

-- The loop of copystr from `i` on, `left` rounds; and gotlen.
unfoldable pub copystr_from : (ℕ → Bool) → ℕ → ℕ → ℕ → ℕ → ℕ → ℕ → ℕ → Memory → Reply ℕ × Memory
copystr_from touch user dest src maxlen stoplen zero i mem =
    (if ltb stoplen maxlen then err efault else err enametoolong, mem)
copystr_from touch user dest src maxlen stoplen (suc left) i mem =
    let mem' = copy_unit 1 (dest + i) (src + i) mem in
    let next = copystr_from touch user dest src maxlen stoplen left (suc i) mem' in
    if touch (user + i)
    then if mem' (src + i) == 0 then (ok (i + 1), mem') else next
    else (err efault, mem)

unfoldable pub copystr : (ℕ → Bool) → ℕ → ℕ → ℕ → ℕ → ℕ → Memory → Reply ℕ × Memory
copystr touch user dest src maxlen stoplen mem =
    copystr_from touch user dest src maxlen stoplen (if ltb maxlen stoplen then maxlen else stoplen)
      0 mem

unfoldable pub copyinstr : Mmu → ℕ → ℕ → ℕ → Memory → Reply ℕ × Memory
copyinstr mmu usersrc dest len mem = elim (copycheck usersrc len) [
  | err e ↦ (err e, mem)
  | ok stoplen ↦ copystr mmu.readable usersrc dest usersrc len stoplen mem
]

unfoldable pub copyoutstr : Mmu → ℕ → ℕ → ℕ → Memory → Reply ℕ × Memory
copyoutstr mmu src userdest len mem = elim (copycheck userdest len) [
  | err e ↦ (err e, mem)
  | ok stoplen ↦ copystr mmu.writable userdest userdest src len stoplen mem
]
