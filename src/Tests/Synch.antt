-- ===== src/Tests/Synch.antt =====
-- Tests of kern/thread: two threads on two cpus.
use prog.Synch.Wchan.{wchan_create, wchan_sleep, wchan_wakeone}
use prog.Synch.Semaphore
use prog.Synch.Semaphore.{
  Semaphore, sem_create, p_step, v_step, Trace, asleep, done, sem_create-Reach,
}
use prog.Synch.Lock
use prog.Synch.Lock.{
  Lock, Held, lock_create, lock_do_i_hold, acquire_step, lock_release, lock_excludes,
  lock_release_migrated,
}
use prog.Synch.Rwlock.{Rwlock, rwlock_create, write_step, write_start}
use prog.Synch.Rwlock.Holders.{noted}
use prog.Synch.Rwlock.Exclusion
use prog.Synch.Rwlock.Exclusion.{IsIdle, rwlock_excludes}
use prog.Prelude.{
  ℕ, ◌+◌, ◌<◌, ◌^◌, ◌≡◌, refl, List, [], ◌∷◌, true, false, Option, none, some, ret, wild, arith,
  length, replicate,
}

abbrev sem0 : Semaphore
sem0 = record { count = 0; wchan = [] }

made0 : sem_create true true true 0 ≡ some sem0
unfolding sem_create wchan_create
made0 = refl

sleeps : p_step 4 sem0 ≡ ret (asleep, record sem0 { wchan = 4 ∷ [] })
unfolding p_step wchan_sleep
sleeps = refl

wakes : v_step (record sem0 { wchan = 4 ∷ [] }) ≡ ret (4 ∷ [], record sem0 { count = 1 })
unfolding v_step wchan_wakeone
wakes = refl

-- A thread waits, and another calls V.
woken_trace :
    Semaphore.Reach
      (record { sem = sem0; ps = 0; vs = 0 })
      (record { sem = record sem0 { count = 1 }; ps = 0; vs = 1 })
woken_trace =
    Semaphore.Reach.next
      (Semaphore.Reach.next Semaphore.Reach.here
        (Semaphore.Step.sleep 4 (record sem0 { wchan = 4 ∷ [] }) sleeps refl))
      (Semaphore.Step.raise (4 ∷ []) (record sem0 { count = 1 }) wakes refl)

sem_create-Reach_example : (0 + 1 ≡ 0 + 1) × (1 < 2 ^ 32)
sem_create-Reach_example =
    sem_create-Reach 0 (omega arith) sem0 made0
      (record { sem = record sem0 { count = 1 }; ps = 0; vs = 1 }) woken_trace

abbrev lock0 : Lock
lock0 = record { count = 1; holder = none; wchan = [] }

abbrev lock1 : Lock
lock1 = record { count = 0; holder = some 2; wchan = [] }

made_lock : lock_create true true true ≡ some lock0
unfolding lock_create wchan_create
made_lock = refl

acquires : acquire_step 4 2 lock0 ≡ ret (done, lock1)
unfolding acquire_step
acquires = refl

lock_trace :
    Lock.Reach true
      (record { lock = lock0; owners = [] })
      (record { lock = lock1; owners = 4 ∷ [] })
lock_trace = Lock.Reach.next Lock.Reach.here (Lock.Step.enter 4 2 lock1 acquires refl)

lock_excludes_example : 0 + length {A = ℕ} (4 ∷ []) ≡ 1
lock_excludes_example =
    lock_excludes true lock0 made_lock (record { lock = lock1; owners = 4 ∷ [] }) lock_trace

unfoldable none_read : List (Option ℕ)
none_read = replicate 1000 none

abbrev rw0 : Rwlock
rw0 = record {
  reader_count = 0;
  readers = none_read;
  writer_holder = none;
  writer_in = false;
  writer_waiting = 0;
  wchan = [];
}

rw0-IsIdle : IsIdle rw0
unfolding none_read
rw0-IsIdle = record { no_count = refl; no_readers = refl; no_writer = refl }

creates : rwlock_create true true true ≡ wild
unfolding rwlock_create wchan_create
creates = refl

abbrev rw1 : Rwlock
rw1 = record rw0 { writer_in = true; writer_holder = some 2 }

writes : write_start 4 2 rw0 ≡ (done, rw1)
unfolding write_start write_step
writes = refl

rw_trace : Exclusion.Reach rw0 rw1
rw_trace = Exclusion.Reach.next Exclusion.Reach.here (Exclusion.Step.write 4 2 done writes)

rwlock_excludes_example : (0 ≡ noted none_read) × (true ≡ true → noted none_read ≡ 0)
rwlock_excludes_example = rwlock_excludes rw0 rw0-IsIdle rw1 rw_trace
