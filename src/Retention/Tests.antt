-- ===== src/Retention/Tests.antt =====
-- Retention on concrete inputs: four snapshots of a profile, of which one is pruned.
pub mod Runs
use mathlib.Core.List.{Memᴰ}
use televault.Core.Models.{is_completed}
use televault.Prelude.{
  inl, inr, false, compare_text, ℕ, ◌+◌, ◌≤◌, ◌≡◌, refl, ◌≢◌, ◌⊎◌, true, false, none, some, List,
  [], ◌∷◌, map, arith, if◌then◌else◌, length, All, Text, text, text_eq, compare_text, err,
}
use mathlib.Core.List.{Perm}
use televault.Prelude.Sorting.{IsSorted, sort_by, insert_by}
use televault.Core.Models.{BackupStatus}
use televault.Retention.Types.{keep, prune, RetentionCandidate, keep, prune}
use televault.Retention.Policy.{invalid_policy, RetentionPolicy, validate_policy}
use televault.Retention.Evaluator.{
  newest_first, sort_candidates, latest_successful, by_limits, on_completed, on_incomplete, visit,
  visit_all, tally, evaluate,
}
use televault.Retention.Evaluator.Order.{Newer, Descends, sort_candidates_lem}
use televault.Retention.Evaluator.Kept.{Judged, count_kept, count_pruned}
use televault.Retention.Evaluator.Sorted.{HasStatus}
use televault.Retention.Evaluator.Report.{
  evaluate-Judged, evaluate_counts, evaluate_keeps_landmark, evaluate_keeps_one,
}

abbrev snapshot : Text → Text → BackupStatus → ℕ → RetentionCandidate
snapshot snapshot_id created_at status age_secs = record {
  snapshot_id = snapshot_id;
  profile_id = text "profile-a";
  created_at = created_at;
  status = status;
  version_count = 3;
  is_active = false;
  age_secs = age_secs;
}

abbrev snapshots : List RetentionCandidate
snapshots =
    snapshot (text "s1") (text "2026-01-01") BackupStatus.completed 300
    ∷ snapshot (text "s4") (text "2026-01-04") BackupStatus.failed 0
    ∷ snapshot (text "s3") (text "2026-01-03") BackupStatus.completed 100
    ∷ snapshot (text "s2") (text "2026-01-02") BackupStatus.completed 200
    ∷ []

-- The two latest completed snapshots.
abbrev policy : RetentionPolicy
policy = record {
  profile_id = text "profile-a";
  keep_latest_n = some 2;
  keep_newer_than_secs = none;
  keep_latest_successful = true;
  keep_latest_always = true;
  prune_failed = false;
  prune_empty = false;
  enabled = true;
}

abbrev status_of : Text → BackupStatus
status_of k = if text_eq k (text "s4") then BackupStatus.failed else BackupStatus.completed

known : All (HasStatus status_of) snapshots
unfolding text_eq
known = (refl, (refl, (refl, (refl, tt))))

abbrev now : Text
now = text "2026-01-05"

abbrev sorted : List RetentionCandidate
sorted = sort_candidates snapshots

decides :
    map (λ d. d.action) (evaluate (text "profile-a") policy snapshots now).decisions
    ≡ keep ∷ keep ∷ keep ∷ prune ∷ []
unfolding evaluate tally visit_all visit on_completed on_incomplete by_limits sort_candidates
    sort_by insert_by newest_first compare_text latest_successful text_eq
decides = refl

evaluate-Judged_example :
    Judged policy
      (length sorted)
      (latest_successful sorted)
      0
      0
      sorted
      (evaluate (text "profile-a") policy snapshots now).decisions
evaluate-Judged_example = evaluate-Judged status_of (text "profile-a") policy snapshots now known

abbrev landmark : RetentionCandidate
landmark = snapshot (text "s3") (text "2026-01-03") BackupStatus.completed 100

landmark_newest :
    All (λ d. (is_completed d.status ≡ false) ⊎ (d ≡ landmark) ⊎ Newer landmark d) snapshots
unfolding compare_text
landmark_newest = (inr (inr (inl refl)), (inl refl, (inr (inl refl), (inr (inr (inl refl)), tt))))

evaluate_keeps_landmark_example :
    All
      (λ d. (d.snapshot_id ≢ text "s3") ⊎ (d.action ≡ keep))
      (evaluate (text "profile-a") policy snapshots now).decisions
evaluate_keeps_landmark_example =
    evaluate_keeps_landmark status_of (text "profile-a") policy snapshots now known landmark
      (Memᴰ.tail (Memᴰ.tail (Memᴰ.head refl))) refl landmark_newest refl

evaluate_keeps_one_example : 1 ≤ (evaluate (text "profile-a") policy snapshots now).snapshots_kept
evaluate_keeps_one_example =
    evaluate_keeps_one status_of (text "profile-a") policy snapshots now known refl (ground arith)

sort_candidates_lem_example : Perm sorted snapshots × Descends sorted
sort_candidates_lem_example = sort_candidates_lem snapshots

-- A policy with a limit of zero is refused.
zero_refused :
    validate_policy (record policy { keep_latest_n = some 0 })
    ≡ err (invalid_policy (text "keep_latest_n must be greater than zero"))
unfolding validate_policy
zero_refused = refl
