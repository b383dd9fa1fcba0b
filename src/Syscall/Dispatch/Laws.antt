-- ===== src/Syscall/Dispatch/Laws.antt =====
-- What a process sees of a system call in its registers.
use prog.Syscall.Dispatch.{Trapframe, Result, Handlers, dispatch, syscall, result}
use prog.Syscall.Files.{Files, Vfs, Fdesc, sys_write}
use prog.Syscall.Files.Transfer.{written, sys_write_succeeds}
use prog.Prelude.Errno.{enosys}
use prog.Prelude.{
  ℕ, ◌+◌, ◌-◌, ◌%◌, ◌^◌, ◌≤◌, ◌<◌, ◌==◌, ◌≡◌, ◌≢◌, inl, inr, refl, Bool, true, false, if◌then◌else◌,
  List, [], ◌∷◌, some, ret, ◌>>=◌, arith, get_elem?, Bool-cases,
}

-- The numbers of the switch's cases.
abbrev pub calls : List ℕ
calls = 119 ∷ 113 ∷ 45 ∷ 50 ∷ 55 ∷ 49 ∷ 5 ∷ 0 ∷ 2 ∷ 4 ∷ 7 ∷ 3 ∷ []

abbrev pub listed : ℕ → List ℕ → Bool
listed n [] = false
listed n (c ∷ cs) = if n == c then true else listed n cs

-- What a process finds in its registers after a call with the result `r` that left the trapframe `left`.
pub record Convention {K : Type 0} (r : Result K) (left after : Trapframe) : Type 0 where
  pub next : after.epc ≡ (left.epc + 4) % 2 ^ 32
  pub success : r.errno ≡ 0 → (after.a3 ≡ 0) × (after.v0 ≡ r.retval)
  pub failure : r.errno ≢ 0 → (after.a3 ≡ 1) × (after.v0 ≡ r.errno)
  pub arguments : (after.a0 ≡ left.a0) × (after.a1 ≡ left.a1) × (after.a2 ≡ left.a2)

module _ {K : Type 0} (h : Handlers K) where
  -- The call that a process asks for by the number in v0, with the arguments in a0, a1 and a2: what it
  -- comes to, and the trapframe it leaves.
  pub data Called (tf : Trapframe) (k : K) (r : Result K) (left : Trapframe) : Type 0 where
    on_reboot : tf.v0 ≡ 119 → h.reboot tf.a0 k ≡ ret r → left ≡ tf → Called tf k r left
    on_time : tf.v0 ≡ 113 → h.time tf.a0 tf.a1 k ≡ ret r → left ≡ tf → Called tf k r left
    on_open_file :
        tf.v0 ≡ 45 → h.open_file tf.a0 tf.a1 tf.a2 k ≡ ret r → left ≡ tf → Called tf k r left
    on_read : tf.v0 ≡ 50 → h.read tf.a0 tf.a1 tf.a2 k ≡ ret r → left ≡ tf → Called tf k r left
    on_write : tf.v0 ≡ 55 → h.write tf.a0 tf.a1 tf.a2 k ≡ ret r → left ≡ tf → Called tf k r left
    on_close : tf.v0 ≡ 49 → h.close tf.a0 k ≡ ret r → left ≡ tf → Called tf k r left
    on_getpid : tf.v0 ≡ 5 → h.getpid k ≡ ret r → left ≡ tf → Called tf k r left
    on_execv : tf.v0 ≡ 2 → h.execv tf.a0 tf.a1 k ≡ ret r → left ≡ tf → Called tf k r left
    on_sbrk : tf.v0 ≡ 7 → h.sbrk tf.a0 k ≡ ret r → left ≡ tf → Called tf k r left
    on_fork : tf.v0 ≡ 0 → h.fork tf k ≡ ret r → left ≡ tf → Called tf k r left
    on_waitpid :
        (a1 : ℕ)
        → tf.v0 ≡ 4
        → h.waitpid tf.a0 tf.a1 tf.a2 k ≡ ret (r, a1)
        → left ≡ record tf { a1 = a1 }
        → Called tf k r left
    on_exit :
        (k' : K)
        → tf.v0 ≡ 3
        → h.exit tf.a0 k ≡ ret k'
        → r ≡ record { errno = 0; retval = 0; state = k' }
        → left ≡ tf
        → Called tf k r left
    on_other :
        listed tf.v0 calls ≡ false
        → r ≡ record { errno = enosys; retval = 0; state = k }
        → left ≡ tf
        → Called tf k r left

  dispatch_lem :
      (tf : Trapframe) (k : K) (r : Result K) (left : Trapframe)
      → Called tf k r left
      → dispatch h tf k ≡ ret (r, left)
  unfolding dispatch
  dispatch_lem tf k r left (on_reboot c run e) = ground (arith, c, run, e)
  dispatch_lem tf k r left (on_time c run e) = ground (arith, c, run, e)
  dispatch_lem tf k r left (on_open_file c run e) = ground (arith, c, run, e)
  dispatch_lem tf k r left (on_read c run e) = ground (arith, c, run, e)
  dispatch_lem tf k r left (on_write c run e) = ground (arith, c, run, e)
  dispatch_lem tf k r left (on_close c run e) = ground (arith, c, run, e)
  dispatch_lem tf k r left (on_getpid c run e) = ground (arith, c, run, e)
  dispatch_lem tf k r left (on_execv c run e) = ground (arith, c, run, e)
  dispatch_lem tf k r left (on_sbrk c run e) = ground (arith, c, run, e)
  dispatch_lem tf k r left (on_fork c run e) = ground (arith, c, run, e)
  dispatch_lem tf k r left (on_waitpid a1 c run e) = ground (arith, c, run, e)
  dispatch_lem tf k r left (on_exit k' c run f e) = ground (arith, c, run, f, e)
  dispatch_lem tf k r left (on_other far f e) = ground (arith, far, f, e)

  convention_lem :
      (tf : Trapframe) (k : K) (r : Result K) (left : Trapframe)
      → dispatch h tf k ≡ ret (r, left)
      → (after : Trapframe) × (syscall h tf k ≡ ret (after, r.state)) × Convention r left after
  unfolding syscall
  convention_lem tf k r left run = elim (Bool-cases (r.errno == 0)) [
    | inl z ↦
        let zero_error : r.errno ≡ 0 = ground (arith, z) in
        (
          record left { v0 = r.retval; a3 = 0; epc = (left.epc + 4) % 2 ^ 32 },
          rw (run, z) refl,
          record {
            next = refl;
            success = λ e. (refl, refl);
            failure = λ n. absurd (n zero_error);
            arguments = (refl, refl, refl);
          },
        )
    | inr n ↦
        let real_error : r.errno ≢ 0 = ground (arith, n) in
        (
          record left { v0 = r.errno; a3 = 1; epc = (left.epc + 4) % 2 ^ 32 },
          rw (run, n) refl,
          record {
            next = refl;
            success = λ e. absurd (real_error e);
            failure = λ m. (refl, refl);
            arguments = (refl, refl, refl);
          },
        )
  ]

  -- Where the call that v0 asks for, or ENOSYS for a number that is no call's, comes to a result, the
  -- dispatcher returns with the state that the call left. The process goes on at the next instruction.
  -- It finds 0 in a3 and the call's value in v0 if the error number is 0, and 1 in a3 and the error
  -- number in v0 if it is not; a0, a1 and a2 are as the call left them.
  pub syscall_lem :
      (tf : Trapframe) (k : K) (r : Result K) (left : Trapframe)
      → Called tf k r left
      → (after : Trapframe) × (syscall h tf k ≡ ret (after, r.state)) × Convention r left after
  syscall_lem tf k r left call = convention_lem tf k r left (dispatch_lem tf k r left call)

  -- A number that is none of the switch's fails with ENOSYS, leaves the kernel's state alone, and
  -- the process goes on at the next instruction.
  pub syscall_unknown :
      (tf : Trapframe) (k : K)
      → listed tf.v0 calls ≡ false
      → syscall h tf k ≡ ret (record tf { v0 = enosys; a3 = 1; epc = (tf.epc + 4) % 2 ^ 32 }, k)
  unfolding syscall dispatch
  syscall_unknown tf k far = ground (arith, far)

-- A dispatcher whose SYS_write is sys_write: a process that writes through an open descriptor to a
-- buffer that is not NULL sees a success, with the number of bytes taken, also where VOP_WRITE
-- returned an error number.
pub syscall-sys_write :
    {V : Type 0} (vfs : Vfs V) (h : Handlers (Files V))
    → ((fd buf size : ℕ) (k : Files V)
        → h.write fd buf size k ≡ (sys_write vfs fd buf size k >>= λ r. ret (result r)))
    → (tf : Trapframe) (p : ℕ) (d : Fdesc) (k : Files V) → tf.v0 ≡ 55
    → tf.a1 ≢ 0
    → get_elem? k.fdtable tf.a0 ≡ some (some p)
    → k.heap p ≡ some d
    → tf.a2 < 2 ^ 32
    → (written vfs d tf.a1 tf.a2 k).0.resid ≤ tf.a2
    → (tf' : Trapframe) × (k' : Files V) × (syscall h tf k ≡ ret (tf', k'))
      × (tf'.a3 ≡ 0)
      × (tf'.v0 ≡ tf.a2 - (written vfs d tf.a1 tf.a2 k).0.resid)
unfolding syscall dispatch result
syscall-sys_write vfs h writes tf p d k number buf here points small resid =
    let (k', run, _, _, _) =
      sys_write_succeeds vfs tf.a0 tf.a1 tf.a2 p d k buf here points small resid in
    let n = tf.a2 - (written vfs d tf.a1 tf.a2 k).0.resid in
    (
      record tf { v0 = n; a3 = 0; epc = (tf.epc + 4) % 2 ^ 32 },
      k',
      rw (number, writes tf.a0 tf.a1 tf.a2 k, run) refl,
      refl,
      refl,
    )
