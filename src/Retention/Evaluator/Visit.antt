-- ===== src/Retention/Evaluator/Visit.antt =====
-- What one round of the loop decides (crates/televault-backup/src/retention/evaluator.rs).
use televault.Prelude.{
  ℕ, ◌+◌, ◌<◌, ◌≤◌, Bool, true, false, ◌≡◌, ◌≢◌, ◌⊎◌, inl, inr, Option, none, some, Text, [], ◌∷◌,
  ◌++◌, arith, refl,
}
use televault.Core.Models.{BackupStatus}
use televault.Retention.Types.{keep, prune, RetentionCandidate, RetentionDecision}
use televault.Retention.Policy.{RetentionPolicy}
use televault.Retention.Evaluator.{Tally, decision, push_keep, push_prune}

-- The number is beyond the limit, if there is one.
abbrev pub Exceeds : Option ℕ → ℕ → Type 0
Exceeds none n = Unit
Exceeds (some limit) n = limit < n

-- Some limit is set, and the snapshot is beyond every limit that is.
abbrev pub OutOfLimits : RetentionPolicy → ℕ → RetentionCandidate → Type 0
OutOfLimits policy seen c =
    Exceeds policy.keep_latest_n seen
    × Exceeds policy.keep_newer_than_secs c.age_secs
    × ((policy.keep_latest_n ≢ none) ⊎ (policy.keep_newer_than_secs ≢ none))

abbrev pub Unwanted : RetentionPolicy → RetentionCandidate → Type 0
Unwanted policy c =
    (policy.prune_failed ≡ true)
    ⊎ ((policy.keep_newer_than_secs ≢ none) × Exceeds policy.keep_newer_than_secs c.age_secs)

abbrev pub Why : RetentionPolicy → ℕ → RetentionCandidate → Type 0
Why policy seen c =
    ((c.status ≡ BackupStatus.completed)
      × (((policy.prune_empty ≡ true) × (c.version_count ≡ 0)) ⊎ OutOfLimits policy seen c))
    ⊎ ((c.status ≢ BackupStatus.completed) × Unwanted policy c)

-- Why a snapshot may be pruned: it is settled, none of the rules that protect a snapshot applies,
-- and it is completed, but empty or out of every limit that is set, or it is incomplete and
-- unwanted or too old. `seen` counts the completed snapshots up to this one, itself included.
pub record MayPrune (policy : RetentionPolicy) (total : ℕ) (latest : Option Text) (idx seen : ℕ)
    (c : RetentionCandidate) : Type 0 where
  pub not_active : c.is_active ≡ false
  pub not_scanning : c.status ≢ BackupStatus.scanning
  pub not_backing_up : c.status ≢ BackupStatus.backing_up
  pub not_sole : total ≢ 1
  pub not_newest : (policy.keep_latest_always ≡ false) ⊎ (idx ≢ 0)
  pub not_landmark : (policy.keep_latest_successful ≡ false) ⊎ (latest ≢ some c.snapshot_id)
  pub why : Why policy seen c

abbrev pub one_if : Bool → ℕ
one_if true = 1
one_if false = 0

-- One decision was pushed, about the candidate, and counted; a pruned one for a reason in `Reason`.
pub record Visited (Reason : Type 0) (c : RetentionCandidate) (seen : ℕ) (t t' : Tally)
    : Type 0 where
  pub made : RetentionDecision
  pub pushed : t'.decisions ≡ t.decisions ++ made ∷ []
  pub about : made ≡ decision made.action made.reason made.description c
  pub counted :
      ((made.action ≡ keep)
        × (t'.snapshots_kept ≡ t.snapshots_kept + 1)
        × (t'.snapshots_pruned ≡ t.snapshots_pruned))
      ⊎ ((made.action ≡ prune)
          × (t'.snapshots_kept ≡ t.snapshots_kept)
          × (t'.snapshots_pruned ≡ t.snapshots_pruned + 1)
          × Reason)
  pub ranked : t'.completed_rank ≤ seen

module _ {Reason : Type 0} (c : RetentionCandidate) (seen : ℕ) (t u : Tally)
    (same : u.decisions ≡ t.decisions) (kept : u.snapshots_kept ≡ t.snapshots_kept)
    (pruned : u.snapshots_pruned ≡ t.snapshots_pruned) (rank : u.completed_rank ≤ seen) where
  pub keeps : (reason : _) (text : _) → Visited Reason c seen t (push_keep reason text c u)
  keeps reason text = record {
    made = decision keep reason text c;
    pushed = ground arith;
    about = refl;
    counted = inl (refl, omega arith, pruned);
    ranked = rank;
  }

  pub prunes :
      (reason : _) (text : _) → Reason → Visited Reason c seen t (push_prune reason text c u)
  prunes reason text why = record {
    made = decision prune reason text c;
    pushed = ground arith;
    about = refl;
    counted = inr (refl, kept, omega arith, why);
    ranked = rank;
  }
