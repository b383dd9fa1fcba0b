-- ===== src/Syscall.antt =====
-- kern/arch/mips/syscall/syscall.c: the open files of a process, the heap's end, the dispatcher.
pub mod Files
pub mod Sbrk
pub mod Dispatch
