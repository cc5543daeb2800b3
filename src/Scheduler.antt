-- ===== src/Scheduler.antt =====
-- server/sched.c: the table of input handlers.
pub mod Handlers
pub mod Table
pub mod Refined
mod Examples
