-- ===== src/Core/Models.antt =====
-- crates/televault-core/src/models.rs: the cross-cutting enums.
use televault.Prelude.{Bool, true, false, Text, text}

pub data BackupStatus : Type 0 where
  idle scanning backing_up completed failed cancelled : BackupStatus

-- `Display for BackupStatus`.
abbrev pub status_text : BackupStatus → Text
status_text BackupStatus.idle = text "idle"
status_text BackupStatus.scanning = text "scanning"
status_text BackupStatus.backing_up = text "backing_up"
status_text BackupStatus.completed = text "completed"
status_text BackupStatus.failed = text "failed"
status_text BackupStatus.cancelled = text "cancelled"

-- `status == BackupStatus::Completed`, and the like.
abbrev pub is_completed : BackupStatus → Bool
is_completed BackupStatus.completed = true
is_completed _ = false

abbrev pub is_failed : BackupStatus → Bool
is_failed BackupStatus.failed = true
is_failed _ = false

abbrev pub is_scanning : BackupStatus → Bool
is_scanning BackupStatus.scanning = true
is_scanning _ = false

abbrev pub is_backing_up : BackupStatus → Bool
is_backing_up BackupStatus.backing_up = true
is_backing_up _ = false

pub data TransferStatus : Type 0 where
  pending transferring paused completed failed cancelled : TransferStatus

pub data TransferDirection : Type 0 where
  upload download : TransferDirection

pub data CompressionAlgorithm : Type 0 where
  none zstd : CompressionAlgorithm

pub data EncryptionAlgorithm : Type 0 where
  aes256_gcm : EncryptionAlgorithm
