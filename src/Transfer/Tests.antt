-- ===== src/Transfer/Tests.antt =====
-- The transfer code on concrete inputs.
pub mod Jobs
pub mod Queue
pub mod Worker
pub mod Engine
