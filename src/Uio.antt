-- ===== src/Uio.antt =====
-- kern/lib/uio.c: uiomove, uiomovezeros and uio_kinit. uio_iovcnt is the length of the list of iovecs.
-- No buffer rolls over the top of memory; uio_offset has 64 bits and is taken as unbounded.
pub mod Move
pub mod Ready
pub mod Rounds
pub mod Loop
pub mod Laws
use prog.Libc.Memory.{Memory, memmove}
use prog.Copyinout.{Mmu, copyin, copyout}
use prog.Prelude.{
  ℕ, zero, suc, ◌+◌, ◌-◌, ◌%◌, ◌^◌, ltb, ◌==◌, not, ◌||◌, if◌then◌else◌, List, [], ◌∷◌, Bool, true,
  false, Option, none, some, Run, ret, panic, wild, kassert, deref, ◌>>=◌, ◌>>◌, get_elem?, length,
}

pub data Rw : Type 0 where
  uio_read : Rw
  uio_write : Rw

pub data Seg : Type 0 where
  userispace : Seg
  userspace : Seg
  sysspace : Seg

pub record Iovec : Type 0 where
  pub base : ℕ
  pub len : ℕ

pub record Uio : Type 0 where
  pub iov : List Iovec
  pub offset : ℕ
  pub resid : ℕ
  pub segflg : Seg
  pub rw : Rw
  pub space : Option ℕ

-- The switch: copy `size` bytes between the kernel's `ptr` and the buffer at `base`.
unfoldable pub transfer_bytes : Mmu → Seg → Rw → ℕ → ℕ → ℕ → Memory → ℕ × Memory
transfer_bytes mmu sysspace uio_read base ptr size mem = (0, memmove base ptr size mem)
transfer_bytes mmu sysspace uio_write base ptr size mem = (0, memmove ptr base size mem)
transfer_bytes mmu _ uio_read base ptr size mem = copyout mmu ptr base size mem
transfer_bytes mmu _ uio_write base ptr size mem = copyin mmu base ptr size mem

-- uio_iov++ and uio_iovcnt--.
unfoldable pub next_iov : List Iovec → Run (List Iovec)
next_iov [] = wild
next_iov (v ∷ []) = panic
next_iov (v ∷ w ∷ ws) = ret (w ∷ ws)

abbrev pub advance_iov : ℕ → List Iovec → List Iovec
advance_iov size [] = []
advance_iov size (v ∷ vs) = record { base = v.base + size; len = v.len - size } ∷ vs

abbrev pub advance : ℕ → Uio → Uio
advance size u = record u {
  iov = advance_iov size u.iov;
  resid = (u.resid + 2 ^ 32 - size) % 2 ^ 32;
  offset = u.offset + size;
}

-- Where a round of the loop leaves it: with a result, or with what is still to be done.
pub data Round : Type 0 where
  stop : ℕ × Uio × Memory → Round
  go_on : ℕ → ℕ → Uio → Memory → Round

unfoldable pub move_round : Mmu → ℕ → ℕ → Uio → Memory → Run Round
move_round mmu ptr n u mem =
    let round : Run Round = do
      v ← deref (get_elem? u.iov 0)
      let size = if ltb n v.len then n else v.len
      let next : Run Round = do vs ← next_iov u.iov; ret (go_on ptr n (record u { iov = vs }) mem)
      let (result, mem') = transfer_bytes mmu u.segflg u.rw v.base ptr size mem
      let copy =
          if result == 0
          then go_on (ptr + size) (n - size) (advance size u) mem'
          else stop (result, u, mem')
      if size == 0 then next else ret copy
    in if (n == 0) || (u.resid == 0) then ret (stop (0, u, mem)) else round

-- The loop of uiomove. Each round takes an iovec or some bytes off.
unfoldable pub move_loop : Mmu → ℕ → ℕ → ℕ → Uio → Memory → Run (ℕ × Uio × Memory)
move_loop mmu zero ptr n u mem = wild
move_loop mmu (suc fuel) ptr n u mem = do
  r ← move_round mmu ptr n u mem
  elim r [ stop out ↦ ret out | go_on ptr n u mem ↦ move_loop mmu fuel ptr n u mem ]

abbrev pub is_space : Option ℕ → Option ℕ → Bool
is_space none none = true
is_space (some a) (some b) = a == b
is_space _ _ = false

-- The assertion on uio_space, where `curas` is proc_getas().
abbrev pub right_space : Seg → Option ℕ → Option ℕ → Bool
right_space sysspace curas space = is_space space none
right_space _ curas space = is_space space curas

unfoldable pub uiomove : Mmu → Option ℕ → ℕ → ℕ → Uio → Memory → Run (ℕ × Uio × Memory)
uiomove mmu curas ptr n u mem = do
  kassert (right_space u.segflg curas u.space)
  move_loop mmu (suc (n + length u.iov)) ptr n u mem

abbrev pub is_read : Rw → Bool
is_read uio_read = true
is_read uio_write = false

-- The loop of uiomovezeros, `zeros_at` being the address of its sixteen zeros.
unfoldable pub zeros_loop : Mmu → Option ℕ → ℕ → ℕ → ℕ → Uio → Memory → Run (ℕ × Uio × Memory)
zeros_loop mmu curas zeros_at zero n u mem = wild
zeros_loop mmu curas zeros_at (suc fuel) n u mem = elim (n == 0) [
  | true ↦ ret (0, u, mem)
  | false ↦ do
    let amt = if ltb n 16 then n else 16
    (result, u, mem) ← uiomove mmu curas zeros_at amt u mem
    elim (result == 0) [
      | true ↦ zeros_loop mmu curas zeros_at fuel (n - amt) u mem
      | false ↦ ret (result, u, mem)
    ]
]

unfoldable pub uiomovezeros : Mmu → Option ℕ → ℕ → ℕ → Uio → Memory → Run (ℕ × Uio × Memory)
uiomovezeros mmu curas zeros_at n u mem = do
  kassert (is_read u.rw)
  zeros_loop mmu curas zeros_at (suc n) n u mem

unfoldable pub uio_kinit : ℕ → ℕ → ℕ → Rw → Uio
uio_kinit kbuf len pos rw = record {
  iov = record { base = kbuf; len = len } ∷ [];
  resid = len;
  offset = pos;
  segflg = sysspace;
  rw = rw;
  space = none;
}
