-- ===== src/Tests/Processes.antt =====
-- Tests of kern/arch/mips/syscall/syscall.c: fork, waitpid and exit with four process numbers.
use prog.Process.{Proc, Table, find_pid, minus_one}
use prog.Prelude.{ℕ, suc, zero, ◌≡◌, refl, [], ◌∷◌, List, Option, some, none, false}

abbrev raw : Proc
raw = record {
  id = 9;
  exitcode = 9;
  parent = 9;
  children = 5 ∷ 6 ∷ 7 ∷ 8 ∷ [];
  parsem = 9;
  childsem = 9;
  numthreads = 9;
  space = 9;
  cwd = 9;
}

abbrev shell : Proc
shell = record {
  id = 1;
  exitcode = 0;
  parent = 0;
  children = minus_one ∷ 0 ∷ 0 ∷ 0 ∷ [];
  parsem = 0;
  childsem = 0;
  numthreads = 1;
  space = 30;
  cwd = 31;
}

abbrev table : List (Option ℕ) → Table
table procs = record {
  procs = procs;
  heap = λ p. elim p [ suc zero ↦ some shell | _ ↦ none ];
  locked = false;
  started = [];
}

abbrev one_process : Table
one_process = table (none ∷ some 1 ∷ none ∷ none ∷ [])

abbrev all_taken : Table
all_taken = table (none ∷ some 1 ∷ some 1 ∷ some 1 ∷ [])

none_left : find_pid (some 1 ∷ some 1 ∷ some 1 ∷ []) 1 ≡ 4
unfolding find_pid
none_left = refl
