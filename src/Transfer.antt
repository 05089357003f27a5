-- ===== src/Transfer.antt =====
-- crates/televault-transfer: the state machine of a transfer, its queue, and the workers.
pub mod Error
pub mod State
pub mod Retry
pub mod Job
pub mod Progress
pub mod Effects
pub mod Worker
pub mod Queue
pub mod Engine
pub mod Samples
pub mod Tests
