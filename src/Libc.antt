-- ===== src/Libc.antt =====
-- common/libc: the functions that the kernel shares with user programs. Memory is bytes by address;
-- a string is the list of its bytes before the one that is 0.
pub mod Memory
pub mod Text
