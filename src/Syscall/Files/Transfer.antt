-- ===== src/Syscall/Files/Transfer.antt =====
-- What sys_read and sys_write hand back.
use prog.Syscall.Files.{Fdesc, Files, Vfs, Moved, transfer, sys_read, sys_write, update}
use prog.Prelude.{
  ℕ, ◌-◌, ◌^◌, ◌≤◌, ◌<◌, ◌≡◌, ◌≢◌, refl, none, some, ret, wild, ok, arith, ap, get_elem?, test_self,
  test_ne, ltb-zero,
}

module _ {V : Type 0} (vfs : Vfs V) where
  -- What VOP_WRITE of the descriptor `d` leaves.
  abbrev pub written : Fdesc → ℕ → ℕ → Files V → Moved × V
  written d buf size k = vfs.vop_write d.vn d.offset buf size k.fs

  -- sys_write of an open descriptor and a buffer that is not NULL always reports success, whatever
  -- error number VOP_WRITE returned, which is positive where the test is for a negative one. It hands
  -- back how many bytes were taken from the buffer, where VOP_WRITE leaves no more of them than there
  -- were, and the descriptor's offset is the one that VOP_WRITE left.
  pub sys_write_succeeds :
      (fd buf size p : ℕ) (d : Fdesc) (k : Files V)
      → buf ≢ 0
      → get_elem? k.fdtable fd ≡ some (some p)
      → k.heap p ≡ some d
      → size < 2 ^ 32
      → (written d buf size k).0.resid ≤ size
      → (k' : Files V) × (sys_write vfs fd buf size k
          ≡ ret (ok (size - (written d buf size k).0.resid), k'))
        × (k'.fdtable ≡ k.fdtable)
        × (k'.heap p ≡ some (record d { offset = (written d buf size k).0.offset }))
        × (k'.fs ≡ (written d buf size k).1)
  unfolding sys_write transfer
  sys_write_succeeds fd buf size p d k some_buf here points small resid =
      let m = (written d buf size k).0 in
      let k' : Files V = record k {
        heap = update k.heap p (some (record d { offset = m.offset }));
        fs = (written d buf size k).1;
      } in
      (
        k',
        rw (test_ne buf 0 some_buf, here, points, ltb-zero m.errno)
            (ap (λ n. ret (ok n, k')) (omega arith)),
        refl,
        rw (test_self p) refl,
        refl,
      )

  -- sys_read of an open descriptor stores through the new uio's field `uio_iov`, which nothing has
  -- set: with no memory behind it, no read into a buffer that is not NULL, of one byte or more,
  -- returns.
  pub sys_read_wild :
      (fd buf size p : ℕ) (k : Files V)
      → buf ≢ 0
      → size ≢ 0
      → get_elem? k.fdtable fd ≡ some (some p)
      → sys_read vfs none fd buf size k ≡ wild
  unfolding sys_read
  sys_read_wild fd buf size p k some_buf some_size here =
      rw (here, test_ne buf 0 some_buf, test_ne size 0 some_size) refl
