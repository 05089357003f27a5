-- ===== src/Retention/Evaluator/Sorted.antt =====
-- What sorting the snapshots keeps, and the latest successful one among them
-- (crates/televault-backup/src/retention/evaluator.rs).
use televault.Prelude.{
  ◌≡◌, refl, Option, none, some, List, [], ◌∷◌, arith, length, All, Text, text_eq→eq,
}
use televault.Prelude.Sorting.{All-sort_by, length-sort_by}
use televault.Core.Models.{BackupStatus}
use televault.Retention.Types.{RetentionCandidate}
use televault.Retention.Evaluator.{newest_first, sort_candidates, latest_successful}
use televault.Retention.Evaluator.Branches.{Landmark}

pub All-sort_candidates :
    (P : RetentionCandidate → Type 0) (cs : List RetentionCandidate)
    → All P cs
    → All P (sort_candidates cs)
unfolding sort_candidates
All-sort_candidates P cs h = All-sort_by newest_first P cs h

pub length-sort_candidates :
    (cs : List RetentionCandidate) → length (sort_candidates cs) ≡ length cs
unfolding sort_candidates
length-sort_candidates cs = length-sort_by newest_first cs

-- Snapshots with one identifier have one status.
abbrev pub HasStatus : (Text → BackupStatus) → RetentionCandidate → Type 0
HasStatus status_of c = status_of c.snapshot_id ≡ c.status

module _ (status_of : Text → BackupStatus) where
  pub latest_successful_lem :
      (cs : List RetentionCandidate) (k : Text)
      → All (HasStatus status_of) cs
      → latest_successful cs ≡ some k
      → status_of k ≡ BackupStatus.completed
  unfolding latest_successful
  latest_successful_lem [] k h e = ground arith
  latest_successful_lem (c ∷ cs) k h e = ground (arith, latest_successful_lem cs k)

  landmark_lem :
      (latest : Option Text) (c : RetentionCandidate)
      → ((k : Text) → latest ≡ some k → status_of k ≡ BackupStatus.completed)
      → HasStatus status_of c
      → Landmark latest c
  landmark_lem none c f h m = ground arith
  landmark_lem (some k) c f h m = ground (arith, f k refl, text_eq→eq k c.snapshot_id m)

  pub landmarks_lem :
      (latest : Option Text) (cs : List RetentionCandidate)
      → ((k : Text) → latest ≡ some k → status_of k ≡ BackupStatus.completed)
      → All (HasStatus status_of) cs
      → All (Landmark latest) cs
  landmarks_lem latest [] f h = tt
  landmarks_lem latest (c ∷ cs) f h = (landmark_lem latest c f h.0, landmarks_lem latest cs f h.1)
