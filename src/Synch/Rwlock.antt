-- ===== src/Synch/Rwlock.antt =====
-- kern/thread/synch.c: readers-writer locks. The mode is one of the two that the kernel's calls
-- pass; any other only prints a message.
pub mod Holders
pub mod Exclusion
use prog.Synch.Wchan.{wchan_create, wchan_sleep, wchan_wakeall}
use prog.Synch.Semaphore.{Outcome, asleep, done}
use prog.Prelude.{
  ℕ, suc, ◌+◌, ◌-◌, ◌%◌, ◌^◌, ◌==◌, not, ◌&&◌, ◌||◌, if◌then◌else◌, List, [], ◌∷◌, Bool, true,
  false, Option, none, some, Run, ret, panic, wild, kassert, ◌>>=◌, ◌>>◌, set, replicate,
}

-- `readers` is the array reader_holders. writer_waiting is an int, and wraps around as a word.
pub record Rwlock : Type 0 where
  pub reader_count : ℕ
  pub readers : List (Option ℕ)
  pub writer_holder : Option ℕ
  pub writer_in : Bool
  pub writer_waiting : ℕ
  pub wchan : List ℕ

abbrev pub max_readers : ℕ
max_readers = 1000

-- The three arguments are whether kmalloc, kstrdup and the kmalloc in wchan_create succeed. Where all
-- do, the memset at the end writes sizeof(struct cpu) * max_readers bytes into the array of max_readers
-- pointers, and so past the structure.
unfoldable pub rwlock_create : Bool → Bool → Bool → Run (Option Rwlock)
rwlock_create alloc name chan =
    if not alloc
    then ret none
    else if not name
    then ret none
    else elim (wchan_create chan) [ none ↦ ret none | some wc ↦ wild ]

-- for(i = 0; rwlock->reader_holders[i] != NULL; i++) {}
pub find_free : List (Option ℕ) → ℕ → Run ℕ
find_free [] i = wild
find_free (none ∷ readers) i = ret i
find_free (some c ∷ readers) i = find_free readers (suc i)

-- The loop over the holders in rwlock_release, with `match` and `i`.
pub find_holder : ℕ → List (Option ℕ) → ℕ → Option ℕ
find_holder cpu [] i = none
find_holder cpu (none ∷ readers) i = find_holder cpu readers (suc i)
find_holder cpu (some c ∷ readers) i =
    let rest = find_holder cpu readers (suc i) in if c == cpu then some i else rest

-- rwlock_acquire for READ of the thread `t` on `cpu`, once it has the spinlock.
pub read_step : ℕ → ℕ → Rwlock → Run (Outcome × Rwlock)
read_step t cpu l =
    let going : Run (Outcome × Rwlock) = do
      i ← find_free l.readers 0
      ret (
        done,
        record l {
          reader_count = (l.reader_count + 1) % 2 ^ 32;
          readers = set l.readers i (some cpu);
        },
      )
    in if l.writer_in || (not (l.writer_waiting == 0) && not (l.reader_count == 0))
      then ret (asleep, record l { wchan = wchan_sleep t l.wchan })
      else going

-- The loop of rwlock_acquire for WRITE, and what comes before it.
unfoldable pub write_step : ℕ → ℕ → Rwlock → Outcome × Rwlock
write_step t cpu l =
    if not (l.reader_count == 0) || l.writer_in
    then (asleep, record l { wchan = wchan_sleep t l.wchan })
    else (
      done,
      record l {
        writer_in = true;
        writer_waiting = (l.writer_waiting + 2 ^ 32 - 1) % 2 ^ 32;
        writer_holder = some cpu;
      },
    )

unfoldable pub write_start : ℕ → ℕ → Rwlock → Outcome × Rwlock
write_start t cpu l =
    write_step t cpu (record l { writer_waiting = (l.writer_waiting + 1) % 2 ^ 32 })

-- rwlock_release on `cpu`, for READ and for WRITE: the threads made runnable, and the lock.
pub read_release : ℕ → Rwlock → Run (List ℕ × Rwlock)
read_release cpu l =
    let (woken, wc) = wchan_wakeall l.wchan in
    elim (find_holder cpu l.readers 0) [
      | none ↦ panic
      | some i ↦ ret (
        woken,
        record l {
          readers = set l.readers i none;
          reader_count = (l.reader_count + 2 ^ 32 - 1) % 2 ^ 32;
          wchan = wc;
        },
      )
    ]

pub write_release : ℕ → Rwlock → Run (List ℕ × Rwlock)
write_release cpu l =
    let (woken, wc) = wchan_wakeall l.wchan in
    let held : Bool = elim l.writer_holder [ none ↦ false | some c ↦ c == cpu ] in
    kassert held >> ret (woken, record l { writer_holder = none; writer_in = false; wchan = wc })
