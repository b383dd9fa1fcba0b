-- ===== src/Uio/Rounds.antt =====
-- One round of the loop of uiomove.
use prog.Uio.{Rw, Seg, Iovec, Uio, transfer_bytes, next_iov, advance, move_round, move_loop}
use prog.Libc.Memory.{Memory}
use prog.Copyinout.{Mmu}
use prog.Prelude.{
  ℕ, suc, ◌+◌, ◌-◌, ◌≡◌, ◌≢◌, refl, ltb, ◌==◌, ◌||◌, if◌then◌else◌, List, ◌∷◌, true, false, Option,
  ret, test_ne,
}

module _ (mmu : Mmu) (seg : Seg) (dir : Rw) (space : Option ℕ) where
  abbrev uio : List Iovec → ℕ → ℕ → Uio
  uio iov offset resid = record {
    iov = iov;
    offset = offset;
    resid = resid;
    segflg = seg;
    rw = dir;
    space = space;
  }

  -- One round of the loop.
  pub round_ends :
      (fuel ptr n offset resid : ℕ) (iov : List Iovec) (mem : Memory)
      → ((n == 0) || (resid == 0)) ≡ true
      → move_loop mmu (suc fuel) ptr n (uio iov offset resid) mem
        ≡ ret (0, uio iov offset resid, mem)
  unfolding move_loop move_round
  round_ends fuel ptr n offset resid iov mem e = rw e refl

  pub round_next :
      (fuel ptr n offset resid : ℕ) (v w : Iovec) (ws : List Iovec) (mem : Memory)
      → ((n == 0) || (resid == 0)) ≡ false
      → (if ltb n v.len then n else v.len) ≡ 0
      → move_loop mmu (suc fuel) ptr n (uio (v ∷ w ∷ ws) offset resid) mem
        ≡ move_loop mmu fuel ptr n (uio (w ∷ ws) offset resid) mem
  unfolding move_loop move_round next_iov
  round_next fuel ptr n offset resid v w ws mem e z = rw (e, z) refl

  pub round_copy :
      (fuel ptr n offset resid size : ℕ) (v : Iovec) (vs : List Iovec) (mem mem1 : Memory)
      → ((n == 0) || (resid == 0)) ≡ false
      → (if ltb n v.len then n else v.len) ≡ size
      → size ≢ 0
      → transfer_bytes mmu seg dir v.base ptr size mem ≡ (0, mem1)
      → move_loop mmu (suc fuel) ptr n (uio (v ∷ vs) offset resid) mem
        ≡ move_loop mmu fuel (ptr + size) (n - size) (advance size (uio (v ∷ vs) offset resid)) mem1
  unfolding move_loop move_round
  round_copy fuel ptr n offset resid size v vs mem mem1 e z some_bytes t =
      rw (e, z, test_ne size 0 some_bytes, t) refl
