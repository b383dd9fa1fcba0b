-- ===== src/Synch/Semaphore.antt =====
-- kern/thread/synch.c: semaphores. The counter is a word of 32 bits.
use prog.Synch.Wchan.{wchan_create, wchan_sleep, wchan_wakeone}
use prog.Prelude.{
  ℕ, suc, ◌+◌, ◌-◌, ◌%◌, ◌^◌, ◌<◌, ltb, ◌==◌, not, if◌then◌else◌, ◌≡◌, List, Bool, true, Option,
  none, some, Run, ret, kassert, ◌>>◌, arith,
}

pub record Semaphore : Type 0 where
  pub count : ℕ
  pub wchan : List ℕ

-- The three arguments are whether kmalloc, kstrdup and the kmalloc in wchan_create succeed.
unfoldable pub sem_create : Bool → Bool → Bool → ℕ → Option Semaphore
sem_create alloc name chan initial_count =
    if not alloc then none else if not name then none else elim (wchan_create chan) [
      | none ↦ none
      | some wc ↦ some (record { count = initial_count; wchan = wc })
    ]

-- Where a step of P ends: asleep in wchan_sleep, to test the counter again once woken, or done.
pub data Outcome : Type 0 where
  asleep : Outcome
  done : Outcome

-- P of the thread `t`, from the point where it has the spinlock.
unfoldable pub p_step : ℕ → Semaphore → Run (Outcome × Semaphore)
p_step t sem =
    if sem.count == 0
    then ret (asleep, record sem { wchan = wchan_sleep t sem.wchan })
    else (kassert (ltb 0 sem.count) >> ret (done, record sem { count = sem.count - 1 }))

-- The threads made runnable, and the semaphore.
unfoldable pub v_step : Semaphore → Run (List ℕ × Semaphore)
v_step sem =
    let count = (sem.count + 1) % 2 ^ 32 in
    let (woken, wc) = wchan_wakeone sem.wchan in
    kassert (ltb 0 count) >> ret (woken, record { count = count; wchan = wc })

-- The steps of a semaphore. `ps` and `vs` count the calls of P and V that are done; nothing in the
-- code reads them.
pub record Trace : Type 0 where
  pub sem : Semaphore
  pub ps : ℕ
  pub vs : ℕ

pub data Step (a b : Trace) : Type 0 where
  sleep :
      (t : ℕ) (sem : Semaphore)
      → p_step t a.sem ≡ ret (asleep, sem)
      → b ≡ record a { sem = sem }
      → Step a b
  pass :
      (t : ℕ) (sem : Semaphore)
      → p_step t a.sem ≡ ret (done, sem)
      → b ≡ record { sem = sem; ps = suc a.ps; vs = a.vs }
      → Step a b
  raise :
      (woken : List ℕ) (sem : Semaphore)
      → v_step a.sem ≡ ret (woken, sem)
      → b ≡ record { sem = sem; ps = a.ps; vs = suc a.vs }
      → Step a b

pub data Reach (s : Trace) : Trace → Type 0 where
  here : Reach s s
  next : {a b : Trace} → Reach s a → Step a b → Reach s b

p_step_asleep :
    (t : ℕ) (sem sem' : Semaphore)
    → p_step t sem ≡ ret (asleep, sem')
    → (sem.count ≡ 0) × (sem'.count ≡ 0)
unfolding p_step
p_step_asleep t sem sem' h = ground (arith, h)

p_step_done :
    (t : ℕ) (sem sem' : Semaphore) → p_step t sem ≡ ret (done, sem') → sem.count ≡ suc sem'.count
unfolding p_step
p_step_done t sem sem' h = ground (arith, h)

v_step_done :
    (sem : Semaphore) (woken : List ℕ) (sem' : Semaphore)
    → sem.count < 2 ^ 32
    → v_step sem ≡ ret (woken, sem')
    → (sem'.count ≡ suc sem.count) × (sem'.count < 2 ^ 32)
unfolding v_step
v_step_done sem woken sem' small h = ground (arith, h)

-- What holds after every sequence of steps: the counter is exact.
Balanced : ℕ → Trace → Type 0
Balanced initial s = (s.ps + s.sem.count ≡ initial + s.vs) × (s.sem.count < 2 ^ 32)

Step-Balanced : (initial : ℕ) (a b : Trace) → Step a b → Balanced initial a → Balanced initial b
unfolding Balanced
Step-Balanced initial a b (sleep t sem run e) (h, small) =
    rw e (
      omega (arith, h, p_step_asleep t a.sem sem run),
      omega (arith, p_step_asleep t a.sem sem run),
    )
Step-Balanced initial a b (pass t sem run e) (h, small) = rw e (
  omega (arith, h, p_step_done t a.sem sem run),
  omega (arith, small, p_step_done t a.sem sem run),
)
Step-Balanced initial a b (raise woken sem run e) (h, small) =
    let (count, below) = v_step_done a.sem woken sem small run in
    rw e (omega (arith, h, count), below)

Reach-Balanced : (initial : ℕ) {a b : Trace} → Balanced initial a → Reach a b → Balanced initial b
Reach-Balanced initial h here = h
Reach-Balanced initial h (next {a = a} {b = b} r st) =
    Step-Balanced initial a b st (Reach-Balanced initial h r)

-- However the steps of the threads' calls of P and V follow each other on a semaphore that
-- sem_create made, the calls of P that are done and the counter add up to the initial count and the
-- calls of V that are done: no more calls of P are done than those allow, none is lost, and the
-- counter does not wrap around.
pub sem_create-Reach :
    (initial_count : ℕ)
    → initial_count < 2 ^ 32
    → (sem : Semaphore) → sem_create true true true initial_count ≡ some sem
    → (s : Trace) → Reach (record { sem = sem; ps = 0; vs = 0 }) s
    → (s.ps + s.sem.count ≡ initial_count + s.vs) × (s.sem.count < 2 ^ 32)
unfolding sem_create wchan_create Balanced
sem_create-Reach initial small sem made s r = Reach-Balanced initial (ground (arith, made)) r
