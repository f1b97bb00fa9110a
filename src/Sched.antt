-- ===== src/Sched.antt =====
-- The tasks of kernel/sched and the system calls over them.
pub mod Waitq
pub mod Files
pub mod Signals
pub mod Regs
pub mod Tasks
