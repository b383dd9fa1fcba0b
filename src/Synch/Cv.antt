-- ===== src/Synch/Cv.antt =====
-- kern/thread/synch.c: condition variables. Each call is cut into its steps, between which other threads
-- run; the last one, where it has one, is lock_acquire (Lock).
pub mod Steps
pub mod Wakeups
use prog.Synch.Wchan.{wchan_create, wchan_sleep, wchan_wakeone, wchan_wakeall}
use prog.Synch.Lock.{Lock, lock_do_i_hold, lock_release}
use prog.Prelude.{
  ℕ, ◌+◌, ◌-◌, ◌%◌, ◌^◌, not, if◌then◌else◌, List, Bool, Option, none, some, Run, ret, kassert,
  ◌>>=◌, ◌>>◌,
}

-- `spin` is the thread that holds the spinlock cv_lock.
pub record Cv : Type 0 where
  pub wchan : List ℕ
  pub count : ℕ
  pub spin : Option ℕ

-- The three arguments are whether kmalloc, kstrdup and the kmalloc in wchan_create succeed.
unfoldable pub cv_create : Bool → Bool → Bool → Option Cv
cv_create alloc name chan =
    if not alloc then none else if not name then none else elim (wchan_create chan) [
      | none ↦ none
      | some wc ↦ some (record { wchan = wc; count = 0; spin = none })
    ]

-- A step that needs the spinlock: where a thread holds it, the caller spins.
unfoldable pub spinning : {A : Type 0} → Cv → A → Option A
spinning cv a = elim cv.spin [ none ↦ some a | some t ↦ none ]

-- cv_wait of the thread `t` on `cpu`: the assertion, and spinlock_acquire.
unfoldable pub wait_start : Bool → ℕ → ℕ → Cv → Lock → Run (Option Cv)
wait_start booted cpu t cv lock =
    kassert (lock_do_i_hold booted cpu lock) >> ret (spinning cv (record cv { spin = some t }))

-- Its call of lock_release, and the count: the threads made runnable, and both objects.
unfoldable pub wait_release : Bool → ℕ → Cv → Lock → Run (List ℕ × Cv × Lock)
wait_release booted cpu cv lock = do
  (woken, lock') ← lock_release booted cpu lock
  ret (woken, record cv { count = (cv.count + 1) % 2 ^ 32 }, lock')

-- Its call of wchan_sleep, which frees the spinlock once the thread is on the channel.
unfoldable pub wait_sleep : ℕ → Cv → Cv
wait_sleep t cv = record cv { wchan = wchan_sleep t cv.wchan; spin = none }

-- What cv_wait does once woken, before it calls lock_acquire: wchan_sleep takes the spinlock again, and
-- cv_wait frees it.
unfoldable pub woken_step : Cv → Option Cv
woken_step cv = spinning cv (record cv { count = (cv.count + 2 ^ 32 - 1) % 2 ^ 32 })

-- The first step of cv_signal and of cv_broadcast.
unfoldable pub notify_start : Bool → ℕ → Lock → Run (List ℕ × Lock)
notify_start booted cpu lock =
    kassert (lock_do_i_hold booted cpu lock) >> lock_release booted cpu lock

-- Their second step, under the spinlock: the threads made runnable, and the condition variable.
unfoldable pub signal_step : Cv → Option (List ℕ × Cv)
signal_step cv =
    let (woken, wc) = wchan_wakeone cv.wchan in spinning cv (woken, record cv { wchan = wc })

unfoldable pub broadcast_step : Cv → Option (List ℕ × Cv)
broadcast_step cv =
    let (woken, wc) = wchan_wakeall cv.wchan in spinning cv (woken, record cv { wchan = wc })
