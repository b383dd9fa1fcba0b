-- ===== src/Synch.antt =====
-- kern/thread: wait channels (thread.c) and the primitives built on them (synch.c). A step is what
-- runs between two points at which the primitive's spinlock is free: its acquisition, wchan_sleep,
-- which frees it, and its release. In a step the spinlock is held, so no other step comes between.
pub mod Wchan
pub mod Semaphore
pub mod Lock
pub mod Rwlock
pub mod Cv
