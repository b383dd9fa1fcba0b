-- ===== src/Synch/Lock.antt =====
-- kern/thread/synch.c: locks. `lock_holder` is a cpu. `booted` is CURCPU_EXISTS().
use prog.Synch.Wchan.{wchan_create, wchan_sleep, wchan_wakeone}
use prog.Synch.Semaphore.{Outcome, asleep, done}
use prog.Prelude.{
  ℕ, suc, ◌+◌, ◌-◌, ◌%◌, ◌^◌, ◌≤◌, ltb, ◌==◌, not, if◌then◌else◌, ◌≡◌, ◌≢◌, refl, List, [], ◌∷◌,
  ◌++◌, Bool, true, false, Option, none, some, Run, ret, panic, kassert, ◌>>◌, arith, length,
  length-append, ap, test_ne,
}

pub record Lock : Type 0 where
  pub count : ℕ
  pub holder : Option ℕ
  pub wchan : List ℕ

-- The three arguments are whether kmalloc, kstrdup and the kmalloc in wchan_create succeed.
unfoldable pub lock_create : Bool → Bool → Bool → Option Lock
lock_create alloc name chan =
    if not alloc then none else if not name then none else elim (wchan_create chan) [
      | none ↦ none
      | some wc ↦ some (record { count = 1; holder = none; wchan = wc })
    ]

unfoldable pub lock_do_i_hold : Bool → ℕ → Lock → Bool
lock_do_i_hold booted cpu lock =
    let held : Bool = elim lock.holder [ none ↦ false | some c ↦ c == cpu ] in
    if not booted then true else held

-- lock_acquire of the thread `t` on `cpu`, from the point where it has the spinlock.
unfoldable pub acquire_step : ℕ → ℕ → Lock → Run (Outcome × Lock)
acquire_step t cpu lock =
    if lock.count == 0
    then ret (asleep, record lock { wchan = wchan_sleep t lock.wchan })
    else (kassert (ltb 0 lock.count)
        >> ret (done, record lock { count = lock.count - 1; holder = some cpu }))

-- lock_release on `cpu`: the threads made runnable, and the lock.
unfoldable pub lock_release : Bool → ℕ → Lock → Run (List ℕ × Lock)
lock_release booted cpu lock =
    let count = (lock.count + 1) % 2 ^ 32 in
    let (woken, wc) = wchan_wakeone lock.wchan in
    kassert (lock_do_i_hold booted cpu lock)
    >> (kassert (ltb 0 count) >> ret (woken, record { count = count; holder = none; wchan = wc }))

-- A lock, and the threads that are past lock_acquire and have not called lock_release.
pub record Held : Type 0 where
  pub lock : Lock
  pub owners : List ℕ

-- The steps of threads that release only a lock that they hold.
pub data Step (booted : Bool) (a b : Held) : Type 0 where
  wait :
      (t cpu : ℕ) (lock : Lock)
      → acquire_step t cpu a.lock ≡ ret (asleep, lock)
      → b ≡ record a { lock = lock }
      → Step booted a b
  enter :
      (t cpu : ℕ) (lock : Lock)
      → acquire_step t cpu a.lock ≡ ret (done, lock)
      → b ≡ record { lock = lock; owners = t ∷ a.owners }
      → Step booted a b
  leave :
      (us vs : List ℕ) (t cpu : ℕ) (woken : List ℕ) (lock : Lock)
      → a.owners ≡ us ++ (t ∷ vs)
      → lock_release booted cpu a.lock ≡ ret (woken, lock)
      → b ≡ record { lock = lock; owners = us ++ vs }
      → Step booted a b

pub data Reach (booted : Bool) (s : Held) : Held → Type 0 where
  here : Reach booted s s
  next : {a b : Held} → Reach booted s a → Step booted a b → Reach booted s b

acquire_asleep :
    (t cpu : ℕ) (l l' : Lock) → acquire_step t cpu l ≡ ret (asleep, l') → l'.count ≡ l.count
unfolding acquire_step
acquire_asleep t cpu l l' h = ground (arith, h)

acquire_done :
    (t cpu : ℕ) (l l' : Lock) → acquire_step t cpu l ≡ ret (done, l') → l.count ≡ suc l'.count
unfolding acquire_step
acquire_done t cpu l l' h = ground (arith, h)

acquire_holder :
    (t cpu : ℕ) (l l' : Lock) → acquire_step t cpu l ≡ ret (done, l') → l'.holder ≡ some cpu
unfolding acquire_step
acquire_holder t cpu l l' h = ground (arith, h)

release_count :
    (booted : Bool) (cpu : ℕ) (l : Lock) (woken : List ℕ) (l' : Lock)
    → l.count ≤ 1
    → lock_release booted cpu l ≡ ret (woken, l')
    → l'.count ≡ suc l.count
unfolding lock_release
release_count booted cpu l woken l' small h = ground (arith, h)

pub release_holder :
    (booted : Bool) (cpu : ℕ) (l : Lock) (woken : List ℕ) (l' : Lock)
    → lock_release booted cpu l ≡ ret (woken, l')
    → l'.holder ≡ none
unfolding lock_release
release_holder booted cpu l woken l' h = ground (arith, h)

Exclusive : Held → Type 0
Exclusive s = s.lock.count + length s.owners ≡ 1

Step-Exclusive : (booted : Bool) (a b : Held) → Step booted a b → Exclusive a → Exclusive b
unfolding Exclusive
Step-Exclusive booted a b (wait t cpu lock run e) h =
    rw e (omega (arith, h, acquire_asleep t cpu a.lock lock run))
Step-Exclusive booted a b (enter t cpu lock run e) h =
    rw e (omega (arith, h, acquire_done t cpu a.lock lock run))
Step-Exclusive booted a b (leave us vs t cpu woken lock own run e) h = rw e (
    omega (
      arith,
      h,
      ap length own,
      length-append us (t ∷ vs),
      length-append us vs,
      release_count booted cpu a.lock woken lock (omega (arith, h)) run,
    ))

Reach-Exclusive : {booted : Bool} {a b : Held} → Exclusive a → Reach booted a b → Exclusive b
Reach-Exclusive h here = h
Reach-Exclusive {booted = booted} h (next {a = a} {b = b} r st) =
    Step-Exclusive booted a b st (Reach-Exclusive h r)

-- Mutual exclusion: however the steps of threads that release only what they hold follow each
-- other, on a lock that lock_create made, the lock is free and nobody holds it, or its count is
-- zero and just one thread holds it.
pub lock_excludes :
    (booted : Bool) (lock : Lock)
    → lock_create true true true ≡ some lock
    → (s : Held) → Reach booted (record { lock = lock; owners = [] }) s
    → s.lock.count + length s.owners ≡ 1
unfolding lock_create wchan_create Exclusive
lock_excludes booted lock made s r = Reach-Exclusive (ground (arith, made)) r

-- A thread that took a lock on one cpu and runs on another when it releases it is stopped by the
-- assertion in lock_release: the holder that a lock notes is the cpu, not the thread.
pub lock_release_migrated :
    (t cpu cpu' : ℕ) (l l' : Lock)
    → cpu ≢ cpu'
    → acquire_step t cpu l ≡ ret (done, l')
    → lock_release true cpu' l' ≡ panic
unfolding lock_release lock_do_i_hold
lock_release_migrated t cpu cpu' l l' h run =
    rw (acquire_holder t cpu l l' run, test_ne cpu cpu' h) refl
