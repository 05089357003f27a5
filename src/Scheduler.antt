-- ===== src/Scheduler.antt =====
-- crates/televault-scheduler: the guard that keeps two backups of a profile apart, the kinds of
-- schedule, their expressions, and their next runs.
pub mod Guard
pub mod Types
pub mod Clock
pub mod Expression
pub mod Interval
pub mod Cron
pub mod NextRun
pub mod Records
pub mod Effects
pub mod Service
pub mod Execution
pub mod Loop
pub mod Tests
