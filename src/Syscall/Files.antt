-- ===== src/Syscall/Files.antt =====
-- sys_open, sys_read, sys_write and sys_close. A file descriptor is a slot of the thread's table,
-- which points to a descriptor on the heap; after a fork two tables point to the same ones. The
-- descriptors' locks are uncontended here, and left out.
pub mod Flags
pub mod OpenClose
pub mod Transfer
pub mod Share
use prog.Prelude.Errno.{enodev, einval, enomem, eio, ebadf, efault}
use prog.Prelude.{
  ℕ, zero, suc, ◌+◌, ◌-◌, ◌%◌, ◌^◌, ltb, ◌==◌, not, ◌&&◌, ◌||◌, if◌then◌else◌, List, [], ◌∷◌, Bool,
  true, false, Option, none, some, Run, ret, wild, deref, ◌>>=◌, ◌>>◌, Reply, ok, err, bit_and,
  get_elem?, set,
}

-- struct fdesc. `path` stands for the name's buffer, `vn` for the vnode.
pub record Fdesc : Type 0 where
  pub path : ℕ
  pub flags : ℕ
  pub refcount : ℕ
  pub offset : ℕ
  pub vn : ℕ

-- What a read or write of a vnode leaves in the uio, with its error number.
pub record Moved : Type 0 where
  pub errno : ℕ
  pub offset : ℕ
  pub resid : ℕ

-- The virtual file system below, with its state.
pub record Vfs (V : Type 0) : Type 0 where
  -- The error number, and what the name's buffer holds then.
  pub copyinstr : ℕ → V → ℕ × ℕ
  pub vfs_open : ℕ → ℕ → ℕ → V → Reply ℕ × V
  pub vfs_close : ℕ → V → V
  pub stat_size : ℕ → V → ℕ
  pub vop_read : ℕ → ℕ → ℕ → ℕ → V → Moved × V
  pub vop_write : ℕ → ℕ → ℕ → ℕ → V → Moved × V

-- The current thread's table, the descriptors on the heap, and the file system's state.
pub record Files (V : Type 0) : Type 0 where
  pub fdtable : List (Option ℕ)
  pub heap : ℕ → Option Fdesc
  pub fs : V

abbrev pub open_max : ℕ
open_max = 128

abbrev pub o_append : ℕ
o_append = 32

abbrev pub update : (ℕ → Option Fdesc) → ℕ → Option Fdesc → ℕ → Option Fdesc
update heap p v q = if p == q then v else heap q

-- C's `!` on an int.
abbrev pub lnot : ℕ → ℕ
lnot x = if x == 0 then 1 else 0

-- flags & !(O_CREAT | O_EXCL | O_TRUNC | O_APPEND), and the test of it.
pub flags_refused : ℕ → Bool
flags_refused flags =
    let flagmask = bit_and flags (lnot 60) in
    not (flagmask == 0) && not (flagmask == 1) && not (flagmask == 2)

-- for(fd = 0; fd < OPEN_MAX; fd++) if(t_fdtable[fd] == NULL) break;
unfoldable pub find_fd : List (Option ℕ) → ℕ → ℕ
find_fd [] fd = fd
find_fd (none ∷ slots) fd = fd
find_fd (some p ∷ slots) fd = find_fd slots (suc fd)

module _ {V : Type 0} (vfs : Vfs V) where
  abbrev pub Call : Type 0
  Call = Run (Reply ℕ × Files V)

  -- sys_open once the slot `fd` points to the new descriptor `p`.
  pub open_at : ℕ → ℕ → ℕ → ℕ → ℕ → Files V → Call
  open_at filename flags mode fd p k =
      let (ret', name) = vfs.copyinstr filename k.fs in
      let failed : Files V = record k { heap = update k.heap p none } in
      let (r, fs) = vfs.vfs_open name flags mode k.fs in
      let tried : Call = elim r [
        | err e ↦ ret (err e, record failed { fs = fs })
        | ok vn ↦
            let offset = if bit_and flags o_append == 0 then 0 else vfs.stat_size vn fs in
            let d : Fdesc = record {
              path = name;
              flags = flags;
              refcount = 1;
              offset = offset;
              vn = vn;
            } in
            ret (ok fd, record k { heap = update k.heap p (some d); fs = fs })
      ] in
      if ltb ret' 0 then ret (err eio, failed) else tried

  -- `named`, `stats` and `fresh` are what the three calls of kmalloc hand back; `raw` is what the
  -- new descriptor's memory holds.
  pub sys_open : Bool → Bool → Option ℕ → Fdesc → ℕ → ℕ → ℕ → Files V → Call
  sys_open named stats fresh raw filename flags mode k =
      let opened : Call = elim fresh [
        | none ↦ ret (err enomem, k)
        | some p ↦
            let fd = find_fd k.fdtable 0 in
            let k' : Files V = record k {
              fdtable = set k.fdtable fd (some p);
              heap = update k.heap p (some raw);
            } in
            -- With no slot left this is a write past the table.
            deref (get_elem? k.fdtable fd) >>= λ _. open_at filename flags mode fd p k'
      ] in
      if filename == 0
      then ret (err enodev, k)
      else if flags_refused flags
      then ret (err einval, k)
      else if not named
      then ret (err enomem, k)
      else if not stats
      then ret (err enomem, k)
      else opened

  -- The descriptor of `fd`, or none where the slot is NULL. There is no test of `fd`.
  abbrev pub slot : ℕ → Files V → Run (Option ℕ)
  slot fd k = deref (get_elem? k.fdtable fd)

  -- The transfer itself, and what is noted of it. As in the source, an error is a negative number.
  pub transfer : (ℕ → ℕ → ℕ → ℕ → V → Moved × V) → ℕ → ℕ → ℕ → Files V → Call
  transfer io p buf size k = do
    d ← deref (k.heap p)
    let (m, fs) = io d.vn d.offset buf size k.fs
    let k' : Files V = record k {
      heap = update k.heap p (some (record d { offset = m.offset }));
      fs = fs;
    }
    if ltb m.errno 0
        then ret (err m.errno, record k { fs = fs })
        else ret (ok ((size + 2 ^ 32 - m.resid) % 2 ^ 32), k')

  -- `iov` is what the uio_iov field of the new uio points to: kmalloc does not set it.
  pub sys_read : Option ℕ → ℕ → ℕ → ℕ → Files V → Call
  sys_read iov fd buf size k = do
    s ← slot fd k
    elim s [
      | none ↦ ret (err ebadf, k)
      | some p ↦
          let going : Call = deref iov >>= λ _. transfer vfs.vop_read p buf size k in
          if (buf == 0) || (size == 0) then ret (err ebadf, k) else going
    ]

  pub sys_write : ℕ → ℕ → ℕ → Files V → Call
  sys_write fd buf size k =
      let checked : Call = do
        s ← slot fd k
        elim s [ none ↦ ret (err ebadf, k) | some p ↦ transfer vfs.vop_write p buf size k ]
      in if buf == 0 then ret (err efault, k) else checked

  -- sys_close for the descriptor `p`.
  pub drop_ref : ℕ → ℕ → Fdesc → Files V → Files V
  drop_ref fd p d k =
      let refcount = (d.refcount + 2 ^ 32 - 1) % 2 ^ 32 in
      if refcount == 0
      then record {
        fdtable = set k.fdtable fd none;
        heap = update k.heap p none;
        fs = vfs.vfs_close d.vn k.fs;
      }
      else record k { heap = update k.heap p (some (record d { refcount = refcount })) }

  pub sys_close : ℕ → Files V → Call
  sys_close fd k = do
    s ← slot fd k
    elim s [
      | none ↦ ret (err ebadf, k)
      | some p ↦ do d ← deref (k.heap p); ret (ok 0, drop_ref fd p d k)
    ]

-- enter_forked_process: the child's table is the parent's, and each descriptor in it counts one
-- more reference.
pub share : List (Option ℕ) → (ℕ → Option Fdesc) → Run (ℕ → Option Fdesc)
share [] heap = ret heap
share (none ∷ slots) heap = share slots heap
share (some p ∷ slots) heap = do
  d ← deref (heap p)
  share slots (update heap p (some (record d { refcount = (d.refcount + 1) % 2 ^ 32 })))
