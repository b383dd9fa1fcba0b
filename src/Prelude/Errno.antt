-- ===== src/Prelude/Errno.antt =====
-- kern/include/kern/errno.h
use Prim.Native.Nat.{ℕ}

abbrev pub enosys : ℕ
enosys = 1

abbrev pub enomem : ℕ
enomem = 3

abbrev pub efault : ℕ
efault = 6

abbrev pub einval : ℕ
einval = 8

abbrev pub enproc : ℕ
enproc = 12

abbrev pub enodev : ℕ
enodev = 25

abbrev pub ebadf : ℕ
ebadf = 30

abbrev pub eio : ℕ
eio = 32

abbrev pub enospc : ℕ
enospc = 36

abbrev pub efbig : ℕ
efbig = 38

abbrev pub enoent : ℕ
enoent = 19

abbrev pub eexist : ℕ
eexist = 22

abbrev pub enametoolong : ℕ
enametoolong = 7
