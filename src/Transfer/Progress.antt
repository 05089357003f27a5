-- ===== src/Transfer/Progress.antt =====
-- crates/televault-transfer/src/progress.rs: the counters of a stream and the throttled reports.
pub mod Throttle
use televault.Prelude.{
  ℕ, ◌+◌, ◌-◌, ◌%◌, ◌^◌, ◌*◌, Bool, true, false, ◌||◌, List, [], ◌∷◌, ◌++◌, Text, leb, ltb,
  if◌then◌else◌,
}
use televault.Core.Models.{TransferDirection}
use televault.Transfer.State.{TransferState, transferring}

-- `PROGRESS_THROTTLE_BYTE_DELTA`.
abbrev pub progress_throttle_byte_delta : ℕ
progress_throttle_byte_delta = 256 * 1024

pub record TransferProgress : Type 0 where
  pub job_id : Text
  pub file_id : Text
  pub chunk_id : Text
  pub chunk_index : ℕ
  pub total_chunks : ℕ
  pub direction : TransferDirection
  pub bytes_transferred : ℕ
  pub total_bytes : ℕ
  pub state : TransferState

pub record ProgressContext : Type 0 where
  pub job_id : Text
  pub file_id : Text
  pub chunk_id : Text
  pub chunk_index : ℕ
  pub total_chunks : ℕ
  pub total_bytes : ℕ

-- The counters of a `ProgressReader` or a `ProgressWriter`, which differ in the direction that
-- they report. `callback` says whether one is installed.
pub record Meter : Type 0 where
  pub ctx : ProgressContext
  pub direction : TransferDirection
  pub bytes : ℕ  -- u64
  pub last_reported_bytes : ℕ  -- u64
  pub callback : Bool

-- `ProgressReader::new`, `ProgressWriter::new`.
abbrev pub new_meter : TransferDirection → ProgressContext → Bool → Meter
new_meter direction ctx callback = record {
  ctx = ctx;
  direction = direction;
  bytes = 0;
  last_reported_bytes = 0;
  callback = callback;
}

-- The report that the callback is handed.
abbrev pub report : Meter → TransferProgress
report m = record {
  job_id = m.ctx.job_id;
  file_id = m.ctx.file_id;
  chunk_id = m.ctx.chunk_id;
  chunk_index = m.ctx.chunk_index;
  total_chunks = m.ctx.total_chunks;
  direction = m.direction;
  bytes_transferred = m.bytes;
  total_bytes = m.ctx.total_bytes;
  state = transferring;
}

-- `check_emit_progress`: the meter after it and the reports made.
unfoldable pub check_emit_progress : Meter → Bool → Meter × List TransferProgress
check_emit_progress m force =
    let delta = m.bytes - m.last_reported_bytes in
    if m.callback
    then (if force || leb progress_throttle_byte_delta delta
        then (record m { last_reported_bytes = m.bytes }, report m ∷ [])
        else (m, []))
    else (m, [])

-- `Read::read` after the inner reader has returned `n` bytes.
unfoldable pub on_read : Meter → ℕ → Meter × List TransferProgress
unfolding check_emit_progress
on_read m n =
    if ltb 0 n
    then check_emit_progress (record m { bytes = (m.bytes + n) % 2 ^ 64 }) false
    else check_emit_progress m true

-- `Write::write` after the inner writer has taken `n` bytes.
unfoldable pub on_write : Meter → ℕ → Meter × List TransferProgress
unfolding check_emit_progress
on_write m n =
    if ltb 0 n
    then check_emit_progress (record m { bytes = (m.bytes + n) % 2 ^ 64 }) false
    else (m, [])

-- The successive calls of a stream, with all the reports in order.
unfoldable pub stream :
    (Meter → ℕ → Meter × List TransferProgress) → Meter → List ℕ → Meter × List TransferProgress
stream op m [] = (m, [])
stream op m (n ∷ ns) =
    let (m', now) = op m n in let (m'', later) = stream op m' ns in (m'', now ++ later)
