-- ===== src/Tests/Wakeups.antt =====
-- Tests of kern/thread/synch.c: thread 4 on cpu 2 waits on a condition variable.
use prog.Synch.Wchan.{wchan_create, wchan_sleep, wchan_wakeone, wchan_wakeall, drain}
use prog.Synch.Lock.{Lock, lock_do_i_hold, lock_release}
use prog.Synch.Cv.{
  Cv, cv_create, spinning, wait_start, wait_release, wait_sleep, signal_step, broadcast_step,
}
use prog.Synch.Cv.Steps.{State, Step, Reach, move, entered, released, asleep}
use prog.Synch.Cv.Wakeups.{start, cv_wait_wakes}
use prog.Prelude.{ℕ, ◌≡◌, ◌⊎◌, refl, List, [], ◌∷◌, ◌++◌, true, none, some, ret}

abbrev free_lock : Lock
free_lock = record { count = 1; holder = none; wchan = [] }

abbrev held_lock : Lock
held_lock = record { count = 0; holder = some 2; wchan = [] }

abbrev new_cv : Cv
new_cv = record { wchan = []; count = 0; spin = none }

creates : cv_create true true true ≡ some new_cv
unfolding cv_create wchan_create
creates = refl

abbrev at_start : State
at_start = start new_cv held_lock

abbrev at_entry : State
at_entry = record at_start { cv = record new_cv { spin = some 4 }; at = move at_start.at 4 entered }

abbrev at_release : State
at_release = record at_entry {
  cv = record new_cv { count = 1; spin = some 4 };
  lock = free_lock;
  at = move at_entry.at 4 released;
  freed = 4 ∷ [];
}

abbrev sleeper : Cv
sleeper = record { wchan = 4 ∷ []; count = 1; spin = none }

abbrev at_sleep : State
at_sleep = record at_release { cv = sleeper; at = move at_release.at 4 asleep }

enters : wait_start true 2 4 new_cv held_lock ≡ ret (some at_entry.cv)
unfolding wait_start lock_do_i_hold spinning
enters = refl

releases : wait_release true 2 at_entry.cv held_lock ≡ ret ([], at_release.cv, free_lock)
unfolding wait_release lock_release lock_do_i_hold wchan_wakeone
releases = refl

joins : sleeper ≡ wait_sleep 4 at_release.cv
unfolding wait_sleep wchan_sleep
joins = refl

spins : signal_step at_release.cv ≡ none
unfolding signal_step spinning
spins = refl

at_sleep_lem :
    at_sleep
    ≡ record at_release { cv = wait_sleep 4 at_release.cv; at = move at_release.at 4 asleep }
unfolding wait_sleep wchan_sleep
at_sleep_lem = refl

sleeps : Reach true at_start at_sleep
sleeps =
    Reach.next
      (Reach.next (Reach.next Reach.here (Step.enter 4 2 at_entry.cv refl enters refl))
        (Step.release 4 2 [] at_release.cv free_lock refl releases refl))
      (Step.sleep 4 refl at_sleep_lem)

signals : signal_step sleeper ≡ some (4 ∷ [], record sleeper { wchan = [] })
unfolding signal_step spinning wchan_wakeone
signals = refl

broadcasts : broadcast_step sleeper ≡ some (4 ∷ [], record sleeper { wchan = [] })
unfolding broadcast_step spinning wchan_wakeall drain
broadcasts = refl

cv_wait_wakes_example :
    (◌≡◌ {A = List ℕ} (4 ∷ []) ([] ++ ((4 ∷ []) ++ [])))
    × (((◌≡◌ {A = List ℕ} (4 ∷ []) []) × (◌≡◌ {A = List ℕ} [] []))
        ⊎ ((t : ℕ) × (◌≡◌ {A = List ℕ} (4 ∷ []) (t ∷ []))))
    × (◌≡◌ {A = List ℕ} (4 ∷ []) ([] ++ (4 ∷ [])))
    × (◌≡◌ {A = List ℕ} [] [])
cv_wait_wakes_example =
    cv_wait_wakes true new_cv held_lock creates at_sleep sleeps (4 ∷ [])
      (record sleeper { wchan = [] }) signals (4 ∷ []) (record sleeper { wchan = [] }) broadcasts
