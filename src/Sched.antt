-- ===== src/Sched.antt =====
-- The schedulers: kernel/src/sched, and what the kernel needs of any of them.
pub mod Rrmq
pub mod Fifo
pub mod Policy
