-- ===== src/Synch/Wchan.antt =====
-- kern/thread/thread.c: the threads that sleep on a wait channel, in the order of their list.
-- What becomes of a thread that is made runnable is the scheduler's part, and is left out.
use prog.Prelude.{ℕ, Bool, if◌then◌else◌, Option, some, none, List, [], ◌∷◌, ◌++◌}

unfoldable pub wchan_create : Bool → Option (List ℕ)
wchan_create given = if given then some [] else none

-- Until the call of thread_switch; what comes after is a step of its own.
unfoldable pub wchan_sleep : ℕ → List ℕ → List ℕ
wchan_sleep t wc = wc ++ (t ∷ [])

-- The thread that is made runnable, if there is one, and the rest.
unfoldable pub wchan_wakeone : List ℕ → List ℕ × List ℕ
wchan_wakeone [] = ([], [])
wchan_wakeone (t ∷ wc) = (t ∷ [], wc)

-- The two loops over the threads.
unfoldable pub drain : List ℕ → List ℕ → List ℕ
drain [] list = list
drain (t ∷ wc) list = drain wc (list ++ (t ∷ []))

unfoldable pub wchan_wakeall : List ℕ → List ℕ × List ℕ
wchan_wakeall wc = (drain wc [], [])
