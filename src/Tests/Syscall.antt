-- ===== src/Tests/Syscall.antt =====
-- Tests of kern/arch/mips/syscall: a table of three slots over a file system with one vnode.
use prog.Syscall.Files.{Fdesc, Files, Vfs, find_fd, share, sys_open, sys_write, sys_close}
use prog.Syscall.Files.OpenClose.{FirstFree, sys_open-sys_close}
use prog.Syscall.Files.Share.{pointers, referenced, AllLive, share_counts}
use prog.Syscall.Sbrk
use prog.Syscall.Sbrk.{round_up, sys_sbrk, sys_sbrk_lem, sys_sbrk_overshoots}
use prog.Syscall.Dispatch.{Trapframe, Result, Handlers, syscall, result}
use prog.Syscall.Dispatch.Laws.{Convention, Called, syscall_lem, syscall_unknown, calls, listed}
use prog.Vm.Addrspace.{Addrspace}
use prog.Prelude.Errno.{enosys}
use prog.Prelude.{
  ℕ, zero, suc, ◌+◌, ◌-◌, ◌≡◌, refl, List, [], ◌∷◌, true, false, Option, none, some, ret, panic,
  ◌>>=◌, Reply, ok, arith, get_elem?,
}

abbrev vfs : Reply ℕ → Vfs ℕ
vfs r = record {
  copyinstr = λ p v. (0, p);
  vfs_open = λ name flags mode v. (r, v);
  vfs_close = λ vn v. suc v;
  stat_size = λ vn v. 100;
  vop_read = λ vn off buf size v. (record { errno = 32; offset = off; resid = size }, v);
  vop_write = λ vn off buf size v. (record { errno = 36; offset = off + 2; resid = size - 2 }, v);
}

abbrev desc : ℕ → Fdesc
desc n = record { path = 40; flags = 1; refcount = n; offset = 6; vn = 77 }

abbrev files : List (Option ℕ) → Files ℕ
files slots = record {
  fdtable = slots;
  heap = λ p. elim p [ suc zero ↦ some (desc 2) | _ ↦ none ];
  fs = 5;
}

abbrev one_free : Files ℕ
one_free = files (some 1 ∷ none ∷ some 1 ∷ [])

abbrev no_free : Files ℕ
no_free = files (some 1 ∷ [])

lowest : find_fd one_free.fdtable 0 ≡ 1
unfolding find_fd
lowest = refl

at_end : find_fd no_free.fdtable 0 ≡ 1
unfolding find_fd
at_end = refl

sys_open-sys_close_example :
    FirstFree one_free.fdtable (find_fd one_free.fdtable 0)
    × (k1 : Files ℕ) × (sys_open (vfs (ok 77)) true true (some 9) (desc 0) 40 32 0 one_free
        ≡ ret (ok (find_fd one_free.fdtable 0), k1))
    × (get_elem? k1.fdtable (find_fd one_free.fdtable 0) ≡ some (some 9))
    × (k2 : Files ℕ) × (sys_close (vfs (ok 77)) (find_fd one_free.fdtable 0) k1 ≡ ret (ok 0, k2))
    × (k2.fdtable ≡ one_free.fdtable)
    × ((q : ℕ) → k2.heap q ≡ one_free.heap q)
    × (k2.fs ≡ 6)
sys_open-sys_close_example =
    sys_open-sys_close (vfs (ok 77)) 9 (desc 0) 40 32 0 77 5 one_free (omega arith) refl
      (omega (arith, lowest)) refl

one_free-AllLive : AllLive one_free.fdtable one_free.heap
unfolding AllLive
one_free-AllLive = ((desc 2, refl), ((desc 2, refl), tt))

share_counts_example :
    (heap' : ℕ → Option Fdesc) × (share one_free.fdtable one_free.heap ≡ ret heap')
    × ((q : ℕ) → heap' q ≡ referenced (pointers q one_free.fdtable) (one_free.heap q))
share_counts_example = share_counts one_free.fdtable one_free.heap one_free-AllLive

abbrev heap : Addrspace
heap = record {
  vbase1 = 0;
  pbase1 = 0;
  npages1 = 0;
  vbase2 = 0;
  pbase2 = 0;
  npages2 = 0;
  heapstart = 0x1000;
  heapend = 0x2000;
  stackpbase = 0x8000;
  ptable = [];
}

heap-IsValid : Sbrk.IsValid heap
heap-IsValid = record { above = omega arith; below = omega arith; aligned = refl }

sys_sbrk_lem_example : Sbrk.Moved 8 heap (sys_sbrk 8 heap)
sys_sbrk_lem_example = sys_sbrk_lem heap-IsValid 8 (omega arith)

sbrk_runs : sys_sbrk 8 heap ≡ (ok 0x2000, record heap { heapend = 0x200c })
unfolding sys_sbrk round_up
sbrk_runs = refl

-- A kernel whose calls other than SYS_write stop it.
abbrev handlers : Handlers (Files ℕ)
handlers = record {
  reboot = λ a k. panic;
  time = λ a b k. panic;
  open_file = λ a b c k. panic;
  read = λ a b c k. panic;
  write = λ fd buf size k. sys_write (vfs (ok 77)) fd buf size k >>= λ r. ret (result r);
  close = λ a k. panic;
  getpid = λ k. panic;
  fork = λ tf k. panic;
  execv = λ a b k. panic;
  waitpid = λ a b c k. panic;
  sbrk = λ a k. panic;
  exit = λ a k. panic;
}

abbrev frame : ℕ → Trapframe
frame n = record { v0 = n; a0 = 0; a1 = 4096; a2 = 10; a3 = 7; epc = 0x400100 }

unknown : listed 90 calls ≡ false
unknown = refl

unknown_runs :
    syscall handlers (frame 90) one_free
    ≡ ret (record (frame 90) { v0 = enosys; a3 = 1; epc = 0x400104 }, one_free)
unknown_runs = syscall_unknown handlers (frame 90) one_free unknown

abbrev failed : Result (Files ℕ)
failed = record { errno = enosys; retval = 0; state = one_free }

syscall_lem_example :
    (after : Trapframe) × (syscall handlers (frame 90) one_free ≡ ret (after, one_free))
    × Convention failed (frame 90) after
syscall_lem_example =
    syscall_lem handlers (frame 90) one_free failed (frame 90) (Called.on_other unknown refl refl)
