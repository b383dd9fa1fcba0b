-- ===== src/Syscall/Dispatch.antt =====
-- syscall(): the dispatcher. The calls are the fields of an interface, which Files and Sbrk fill for
-- the calls that they model. The assertions on the interrupt level are left out.
pub mod Laws
use prog.Prelude.Errno.{enosys}
use prog.Prelude.{ℕ, ◌+◌, ◌%◌, ◌^◌, ◌==◌, not, if◌then◌else◌, Run, ret, ◌>>=◌, Reply, ok, err}

-- The registers of struct trapframe that the dispatcher and the calls use.
pub record Trapframe : Type 0 where
  pub v0 : ℕ
  pub a0 : ℕ
  pub a1 : ℕ
  pub a2 : ℕ
  pub a3 : ℕ
  pub epc : ℕ

-- A call's error number, or 0, with the value it stores through `retval`, which starts as 0.
pub record Result (K : Type 0) : Type 0 where
  pub errno : ℕ
  pub retval : ℕ
  pub state : K

-- waitpid gets a pointer to the trapframe's a1, and leaves a value there.
pub record Handlers (K : Type 0) : Type 0 where
  pub reboot : ℕ → K → Run (Result K)
  pub time : ℕ → ℕ → K → Run (Result K)
  pub open_file : ℕ → ℕ → ℕ → K → Run (Result K)
  pub read : ℕ → ℕ → ℕ → K → Run (Result K)
  pub write : ℕ → ℕ → ℕ → K → Run (Result K)
  pub close : ℕ → K → Run (Result K)
  pub getpid : K → Run (Result K)
  pub fork : Trapframe → K → Run (Result K)
  pub execv : ℕ → ℕ → K → Run (Result K)
  pub waitpid : ℕ → ℕ → ℕ → K → Run (Result K × ℕ)
  pub sbrk : ℕ → K → Run (Result K)
  pub exit : ℕ → K → Run K

module _ {K : Type 0} (h : Handlers K) where
  -- A call that leaves the trapframe alone.
  abbrev plain : Trapframe → Run (Result K) → Run (Result K × Trapframe)
  plain tf call = call >>= λ r. ret (r, tf)

  -- The switch on the call's number.
  pub dispatch : Trapframe → K → Run (Result K × Trapframe)
  dispatch tf k =
      let waited : Run (Result K × Trapframe) =
        h.waitpid tf.a0 tf.a1 tf.a2 k >>= λ (r, a1). ret (r, record tf { a1 = a1 }) in
      let exited : Run (Result K × Trapframe) =
        h.exit tf.a0 k >>= λ k'. ret (record { errno = 0; retval = 0; state = k' }, tf) in
      if tf.v0 == 119
      then plain tf (h.reboot tf.a0 k)
      else if tf.v0 == 113
      then plain tf (h.time tf.a0 tf.a1 k)
      else if tf.v0 == 45
      then plain tf (h.open_file tf.a0 tf.a1 tf.a2 k)
      else if tf.v0 == 50
      then plain tf (h.read tf.a0 tf.a1 tf.a2 k)
      else if tf.v0 == 55
      then plain tf (h.write tf.a0 tf.a1 tf.a2 k)
      else if tf.v0 == 49
      then plain tf (h.close tf.a0 k)
      else if tf.v0 == 5
      then plain tf (h.getpid k)
      else if tf.v0 == 0
      then plain tf (h.fork tf k)
      else if tf.v0 == 2
      then plain tf (h.execv tf.a0 tf.a1 k)
      else if tf.v0 == 4
      then waited
      else if tf.v0 == 7
      then plain tf (h.sbrk tf.a0 k)
      else if tf.v0 == 3
      then exited
      else ret (record { errno = enosys; retval = 0; state = k }, tf)

  pub syscall : Trapframe → K → Run (Trapframe × K)
  syscall tf k = do
    (r, tf') ← dispatch tf k
    let done : Trapframe =
        if not (r.errno == 0)
        then record tf' { v0 = r.errno; a3 = 1; epc = (tf'.epc + 4) % 2 ^ 32 }
        else record tf' { v0 = r.retval; a3 = 0; epc = (tf'.epc + 4) % 2 ^ 32 }
    ret (done, r.state)

-- The replies of the calls on files, as the dispatcher gets them.
pub result : {K : Type 0} → Reply ℕ × K → Result K
result (ok n, k) = record { errno = 0; retval = n; state = k }
result (err e, k) = record { errno = e; retval = 0; state = k }
