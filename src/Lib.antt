-- ===== src/Lib.antt =====
-- TELEVAULT backs up folders to a Telegram channel: files are split into chunks, described by a
-- manifest, sent by a transfer engine through a storage provider, and kept in snapshots that a
-- retention policy thins out. This library models the core of it and proves what keeps it correct.
--
-- The parts, and how they meet:
--   * Core (crates/televault-core): the enums of models.rs and the error of error.rs in Core.Models
--     and Core.Error; the checks of validation.rs and the identifiers of ids.rs in Core.Validation, with
--     `Path::components` of Unix.
--   * Crypto (crates/televault-crypto): aad.rs in Crypto.Aad.
--   * Manifest (crates/televault-manifest): types.rs, version.rs and error.rs in Manifest.Types;
--     chunk.rs in Manifest.Chunk; ManifestV1 of manifest.rs in Manifest.Root, whose check calls
--     those of the parts and of Core.Validation.
--   * Storage (crates/televault-storage): error.rs and the requests and results of types.rs, and the
--     trait of provider.rs as the record StorageProvider of its answers, which the workers take;
--     mock.rs, the provider in memory, in Storage.Objects and Storage.Mock.
--     There SHA-256 is a parameter, a reader is what its reads give, and a writer takes all the bytes.
--   * Transfer (crates/televault-transfer): state.rs in Transfer.State; retry.rs in Transfer.Retry;
--     job.rs in Transfer.Job; progress.rs in Transfer.Progress; error.rs in Transfer.Error; queue.rs
--     in Transfer.Queue; worker.rs in Transfer.Worker; engine.rs in Transfer.Engine. A worker changes
--     the job that it is handed by `Action`s (Transfer.Effects), in which what was changed before an
--     error stays; the engine runs a worker and hands the job back to the queue.
--   * Retention (crates/televault-backup/src/retention): types.rs, policy.rs, evaluator.rs and
--     engine.rs in Retention.Types, Retention.Policy, Retention.Evaluator and Retention.Engine, which runs
--     the decisions against the catalogue of Db.
--   * Backup (crates/televault-backup/src/change_detector.rs): Backup.ChangeDetector, with the scanned
--     file of scanner.rs and the rows of crates/televault-db/src/models.rs. SHA-256 is a parameter.
--   * Scheduler (crates/televault-scheduler): guard.rs in Scheduler.Guard; types.rs in Scheduler.Types;
--     expression.rs in Scheduler.Expression, Scheduler.Interval, Scheduler.Cron, Scheduler.Cron.Search
--     and Scheduler.NextRun, over the calendar and time zone of chrono, which are parameters
--     (Scheduler.Clock). A computation that can panic is an Outcome. service.rs is in
--     Scheduler.Records, Scheduler.Effects (the state), Scheduler.Service (the operations, over the
--     catalogue of Db and the registry of Scheduler.Guard), Scheduler.Execution (one execution of a
--     schedule, in which the backup is a parameter) and Scheduler.Loop (one round of the loop).
--   * Db (crates/televault-db): the catalogue of db.rs, with the rows of models.rs and the foreign keys
--     of migrations/, in Db.Catalog, Db.Profiles, Db.Files, Db.Chunks, Db.Snapshots, Db.Schedules and
--     Db.Retention. A table is a list of rows (Db.Table); an SQL statement is a function on it that
--     checks its keys and cascades as the schema says, and a transaction that fails leaves the tables
--     as they were.
--
-- How the source is read. Integers are natural numbers, with the wrap-around of `as u32` and of the
-- unchecked additions written out. A string is the list of its code points. `Result` is
-- Prelude.Results, with `?` as the bind of a do block. Sets and maps keyed by identifiers are lists in
-- which a key stands once (Prelude.Keyed). The operations of the queue and of the guard hold a lock
-- from beginning to end, so that the threads' calls are a sequence of steps: Transfer.Queue.Steps and
-- Scheduler.Guard.Exclusive have the step relations, with every operation in any order. Requeueing is
-- a step for any job, as the source allows, or where a theorem says so for active jobs only, since a
-- waiting job that is requeued waits twice and is handed out twice. What other
-- threads do to a cancellation token between two looks at it, what the provider answers, and whether
-- a staging file opens, are parameters.
--
-- Bounds. The retry loop of the engine runs on fuel, which is max_retries + 2 rounds: each round that
-- is followed by another counts a retry, or leaves the job in a state that the next round refuses. The
-- search of a cron expression in UTC runs on the minutes of its horizon, since each round goes on by a
-- minute at least; in local time its fuel is a parameter. A step of a cron field runs on the largest
-- value and three rounds. The other loops are recursions on lists.
--
-- Not modelled: JSON (serde), how SQLite stores tables and orders rows that compare equal,
-- floating-point numbers (a parameter of the delay), the clock (the source writes a fixed time stamp
-- into jobs), poisoned locks of the queue, the file system, the network, the cipher and its keys, the
-- backup, restore, repair and verification pipelines and the applications.
pub mod Prelude
pub mod Core
pub mod Crypto
pub mod Db
pub mod Manifest
pub mod Storage
pub mod Transfer
pub mod Retention
pub mod Backup
pub mod Scheduler
