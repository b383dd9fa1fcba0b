-- ===== src/Tests.antt =====
-- The theorems at concrete inputs, and tests of the definitions.
mod Bitmap
mod Sfs
mod Directory
mod Vm
mod Copying
mod Syscall
mod Synch
mod Wakeups
mod Threads
mod Processes
mod Libc
mod Arrays
mod Heap
mod Moves
mod Reading
