-- ===== src/Proc.antt =====
-- Processes and their scheduling: kernel/src/proc.
pub mod Process
pub mod Scheduler
pub mod Thread
pub mod Syscall
mod Tests
