-- ===== src/Process/Fork.antt =====
-- What sys_fork does to the table of processes.
use prog.Process.{Proc, Table, done, blocked, update, find_pid, fork_locked, sys_fork}
use prog.Prelude.Errno.{enproc}
use prog.Prelude.{
  ℕ, ◌+◌, ◌≤◌, ◌<◌, ◌≡◌, ◌≢◌, refl, List, ◌∷◌, Bool, true, false, Option, none, some, ret, err,
  length, get_elem?, set, drop, test_self,
}

-- From `i` on: every entry before `j` is taken, and that at `j` is free or `j` is past the end.
pub record Least (procs : List (Option ℕ)) (i j : ℕ) : Type 0 where
  pub above : i ≤ j
  pub within : j ≤ i + length procs
  pub taken : (m : ℕ) → i + m < j → (p : ℕ) × (get_elem? procs m ≡ some (some p))
  pub free : (m : ℕ) → i + m ≡ j → m < length procs → get_elem? procs m ≡ some none

-- The process table after a fork of `c` (at `cur`) made process `i` (at `p`).
pub record Forked (k : Table) (newas cur p : ℕ) (c : Proc) (i : ℕ) (k' : Table) : Type 0 where
  pub range : (1 ≤ i) × (i < length k.procs)
  pub free : get_elem? k.procs i ≡ some none
  pub least : (m : ℕ) → 1 ≤ m → m < i → (q : ℕ) × (get_elem? k.procs m ≡ some (some q))
  pub entry : get_elem? k'.procs i ≡ some (some p)
  pub others : (m : ℕ) → i ≢ m → get_elem? k'.procs m ≡ get_elem? k.procs m
  pub child :
      (d : Proc) × (k'.heap p ≡ some d)
      × (d.id ≡ i)
      × (d.parent ≡ c.id)
      × (d.space ≡ newas)
      × (d.cwd ≡ c.cwd)
      × (d.parsem ≡ 0)
      × (d.childsem ≡ 0)
      × (d.numthreads ≡ 2)
  pub noted :
      (j : ℕ) × (k'.heap cur ≡ some (record c { children = set c.children j i }))
      × (j < length c.children)
  pub rest : (q : ℕ) → q ≢ p → q ≢ cur → k'.heap q ≡ k.heap q
  pub unlocked : k'.locked ≡ false
  pub runs : k'.started ≡ p ∷ k.started

module _ (pid_max newas cur p : ℕ) (raw c : Proc) (k : Table) (open_lock : k.locked ≡ false)
    (here : k.heap cur ≡ some c) (apart : p ≢ cur) (size : length k.procs ≡ pid_max)
    (some_room : 0 < pid_max) where
  -- Without a free number sys_fork fails with ENPROC, but keeps proc_Lock, so that every later call of
  -- sys_fork, by any process, sleeps for good.
  pub sys_fork_locks :
      find_pid (drop 1 k.procs) 1 ≡ pid_max
      → (made : Bool)
      → (k' : Table) × (sys_fork pid_max made newas cur (some p) raw k
          ≡ ret (done (err enproc, k')))
        × ((max : ℕ) (made' : Bool) (newas' other : ℕ) (fresh : Option ℕ) (raw' : Proc)
            → sys_fork max made' newas' other fresh raw' k' ≡ ret blocked)
  unfolding sys_fork fork_locked
  sys_fork_locks full made = (
    record k { heap = update k.heap p (some raw); locked = true },
    rw (open_lock, full, test_self pid_max) refl,
    λ max made' newas' other fresh raw'. refl,
  )
