-- ===== src/Retention/Types.antt =====
-- crates/televault-backup/src/retention/types.rs: candidates, decisions and the report.
use televault.Prelude.{ℕ, Bool, Option, List, Text}
use televault.Core.Models.{BackupStatus}
use televault.Retention.Policy.{RetentionPolicy}

pub data RetentionAction : Type 0 where
  keep prune : RetentionAction

pub data RetentionReason : Type 0 where
  keep_latest keep_within_retention_window keep_latest_successful keep_count_limit protected_active
        protected_sole_snapshot prune_expired prune_excess_snapshot prune_failed_snapshot
        prune_incomplete_snapshot prune_empty :
      RetentionReason

pub record RetentionCandidate : Type 0 where
  pub snapshot_id : Text
  pub profile_id : Text
  pub created_at : Text
  pub status : BackupStatus
  pub version_count : ℕ
  pub is_active : Bool
  pub age_secs : ℕ

pub record RetentionDecision : Type 0 where
  pub snapshot_id : Text
  pub action : RetentionAction
  pub reason : RetentionReason
  pub description : Text
  pub snapshot_status : BackupStatus
  pub snapshot_created_at : Text
  pub age_secs : ℕ
  pub version_count : ℕ

pub record RetentionEvaluation : Type 0 where
  pub profile_id : Text
  pub evaluated_at : Text
  pub policy : RetentionPolicy
  pub decisions : List RetentionDecision
  pub snapshots_evaluated : ℕ
  pub snapshots_kept : ℕ
  pub snapshots_pruned : ℕ

pub record RetentionResult : Type 0 where
  pub profile_id : Text
  pub executed_at : Text
  pub dry_run : Bool
  pub evaluation : RetentionEvaluation
  pub pruned_snapshots : List Text
  pub pruned_versions_count : ℕ
  pub success : Bool
  pub error_message : Option Text
