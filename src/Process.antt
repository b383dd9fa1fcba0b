-- ===== src/Process.antt =====
-- kern/arch/mips/syscall/syscall.c: fork, waitpid and exit, over the table proc_Array of
-- kern/include/proc_array.h. A process is known by the address of its struct proc. A semaphore is its
-- counter (Synch.Semaphore). __PID_MAX is a parameter, `pid_max`, where a theorem does not need it.
pub mod Children
pub mod Fork
pub mod Wait
use prog.Prelude.Errno.{enproc}
use prog.Prelude.{
  ℕ, zero, suc, ◌+◌, ◌-◌, ◌%◌, ◌^◌, ◌==◌, if◌then◌else◌, List, [], ◌∷◌, Bool, true, false, Option,
  none, some, Run, ret, wild, deref, ◌>>=◌, ◌>>◌, Reply, ok, err, get_elem?, set, drop, replicate,
  get_or,
}

-- struct proc, less its name and its spinlock. The address space and the directory are addresses.
-- p_children is an array of ints, given by their two's complement.
pub record Proc : Type 0 where
  pub id : ℕ
  pub exitcode : ℕ
  pub parent : ℕ
  pub children : List ℕ
  pub parsem : ℕ
  pub childsem : ℕ
  pub numthreads : ℕ
  pub space : ℕ
  pub cwd : ℕ

-- proc_Array, the processes in memory, whether proc_Lock is held, and the processes whose new thread
-- thread_fork has put on a run queue.
pub record Table : Type 0 where
  pub procs : List (Option ℕ)
  pub heap : ℕ → Option Proc
  pub locked : Bool
  pub started : List ℕ

-- Where a step of a call ends: it returns, or it sleeps on a lock or a semaphore.
pub data Step (A : Type 0) : Type 0 where
  done : A → Step A
  blocked : Step A

abbrev pub update : (ℕ → Option Proc) → ℕ → Option Proc → ℕ → Option Proc
update heap p v q = if p == q then v else heap q

-- -1 as an int.
abbrev pub minus_one : ℕ
minus_one = 0xFFFFFFFF

-- for(i = 1; i < __PID_MAX; i++) if(proc_Array[i] == NULL) break;
unfoldable pub find_pid : List (Option ℕ) → ℕ → ℕ
find_pid [] i = i
find_pid (none ∷ procs) i = i
find_pid (some p ∷ procs) i = find_pid procs (suc i)

-- memset(children, -1, n): `n` bytes of an array of 4-byte ints, whose first byte is the high one.
pub memset_ints : ℕ → List ℕ → List ℕ
memset_ints n [] = []
memset_ints zero (x ∷ xs) = x ∷ xs
memset_ints (suc zero) (x ∷ xs) = (0xFF000000 + x % 2 ^ 24) ∷ xs
memset_ints (suc (suc zero)) (x ∷ xs) = (0xFFFF0000 + x % 2 ^ 16) ∷ xs
memset_ints (suc (suc (suc zero))) (x ∷ xs) = (0xFFFFFF00 + x % 2 ^ 8) ∷ xs
memset_ints (suc (suc (suc (suc n)))) (x ∷ xs) = minus_one ∷ memset_ints n xs

-- for(j = 0; j < __PID_MAX; j++) if(p_children[j] == -1) break;
unfoldable pub find_child : List ℕ → ℕ → ℕ
find_child [] j = j
find_child (c ∷ children) j =
    let rest = find_child children (suc j) in if c == minus_one then j else rest

-- proc_addthread.
pub add_thread : ℕ → Table → Run Table
add_thread p k = do
  c ← deref (k.heap p)
  ret (record k {
    heap = update k.heap p (some (record c { numthreads = (c.numthreads + 1) % 2 ^ 32 }));
  })

-- thread_fork, as far as the process goes. `made` tells whether thread_create and the kmalloc of the
-- stack gave memory; sys_fork does not look at the result.
pub thread_fork : Bool → ℕ → Table → Run Table
thread_fork made p k = do
  let spawned : Run Table = do k ← add_thread p k; ret (record k { started = p ∷ k.started })
  if made then spawned else ret k

-- sys_fork of the process `cur`, from the search for a number on. `p` is what kmalloc handed back for
-- the new process, `raw` what its memory holds, and `newas` the address space that as_copy made.
pub fork_locked : ℕ → Bool → ℕ → ℕ → ℕ → Proc → Table → Run (Reply ℕ × Table)
fork_locked pid_max made newas cur p raw k =
    let i = find_pid (drop 1 k.procs) 1 in
    let forked : Run (Reply ℕ × Table) = do
      c ← deref (k.heap cur)
      let new : Proc = record raw {
        id = i;
        numthreads = 1;
        space = newas;
        cwd = c.cwd;
        parent = c.id;
        parsem = 0;
        childsem = 0;
        children = memset_ints pid_max raw.children;
      }
      let k' : Table = record k {
        procs = set k.procs i (some p);
        heap = update k.heap p (some new);
      }
      let j = find_child c.children 0
      let child : Proc = record c { children = set c.children j i }
      let entered : Run (Reply ℕ × Table) = do
        k'' ←
            thread_fork made p
              (record k' { heap = update k'.heap cur (some child); locked = false })
        ret (ok i, k'')
      if j == pid_max then ret (err enproc, k') else entered
    in if i == pid_max then ret (err enproc, k) else forked

-- `fresh` is what kmalloc hands back for the new process.
pub sys_fork : ℕ → Bool → ℕ → ℕ → Option ℕ → Proc → Table → Run (Step (Reply ℕ × Table))
sys_fork pid_max made newas cur fresh raw k =
    let entered : Run (Step (Reply ℕ × Table)) = do
      p ← deref fresh
      r ←
          fork_locked pid_max made newas cur p raw
            (record k { heap = update k.heap p (some raw); locked = true })
      ret (done r)
    in if k.locked then ret blocked else entered

pub sys_getpid : ℕ → Table → Run (Reply ℕ)
sys_getpid cur k = do c ← deref (k.heap cur); ret (ok c.id)

-- The test of the table in sys_waitpid: the process whose semaphore is given to P.
pub waitpid_find : ℕ → Table → Run (Option ℕ)
waitpid_find pid k = deref (get_elem? k.procs pid)

-- Its call of P on the semaphore of the process at `p`, also when it is woken.
pub waitpid_p : ℕ → Table → Run (Step Table)
waitpid_p p k = do
  c ← deref (k.heap p)
  let woken : Proc = record c { childsem = c.childsem - 1 }
  if c.childsem == 0
      then ret blocked
      else ret (done (record k { heap = update k.heap p (some woken) }))

-- What follows P, where the table is read again: *returncode and *retval.
pub waitpid_end : ℕ → Table → Run (ℕ × ℕ)
waitpid_end pid k = do
  slot ← deref (get_elem? k.procs pid)
  p ← deref slot
  c ← deref (k.heap p)
  ret (c.exitcode, pid)

-- sys_waitpid with nothing in between.
pub sys_waitpid : ℕ → Table → Run (Step (Reply (ℕ × ℕ) × Table))
sys_waitpid pid k = do
  slot ← waitpid_find pid k
  elim slot [
    | none ↦ ret (done (err minus_one, k))
    | some p ↦ do
      r ← waitpid_p p k
      elim r [
        | blocked ↦ ret blocked
        | done k' ↦ do values ← waitpid_end pid k'; ret (done (ok values, k'))
      ]
  ]

-- sys__exit up to the call of P.
pub exit_start : ℕ → ℕ → Table → Run Table
exit_start code cur k = do
  c ← deref (k.heap cur)
  ret (record k {
    heap =
        update k.heap cur
          (some (record c { exitcode = code; childsem = (c.childsem + 1) % 2 ^ 32 }));
  })

-- for(i = 0; p_children[i] != -1; i++) V(proc_Array[p_children[i]]->p_parsem);
pub release_children : List ℕ → Table → Run Table
release_children [] k = wild
release_children (c ∷ children) k =
    let released : Run Table = do
      slot ← deref (get_elem? k.procs c)
      p ← deref slot
      q ← deref (k.heap p)
      release_children children (record k {
        heap = update k.heap p (some (record q { parsem = (q.parsem + 1) % 2 ^ 32 }));
      })
    in if c == minus_one then ret k else released

-- From the call of P until thread_exit.
pub exit_end : ℕ → Table → Run (Step Table)
exit_end cur k = do
  c ← deref (k.heap cur)
  let woken : Proc = record c { parsem = c.parsem - 1 }
  let left : Table = record k {
    procs = set k.procs c.id none;
    heap = update k.heap cur (some woken);
  }
  let released : Run (Step Table) = do k' ← release_children c.children left; ret (done k')
  if c.parsem == 0 then ret blocked else released
