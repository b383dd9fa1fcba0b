-- ===== src/Vm.antt =====
-- kern/arch/mips/vm/mipsvm.c and ram.c: physical pages, address spaces and page faults.
pub mod Ram
pub mod Coremap
pub mod Kpages
pub mod Addrspace
pub mod Fault
