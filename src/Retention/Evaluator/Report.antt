-- ===== src/Retention/Evaluator/Report.antt =====
-- The report of `RetentionEvaluator::evaluate`: what it decides, why, and what it counts
-- (crates/televault-backup/src/retention/evaluator.rs).
use televault.Retention.Evaluator.Sorted.{
  HasStatus, All-sort_candidates, length-sort_candidates, latest_successful_lem, landmarks_lem,
}
use televault.Retention.Policy.{RetentionPolicy}
use televault.Retention.Evaluator.Visit.{one_if}
use televault.Retention.Evaluator.Kept.{Judged, count_kept, count_pruned, visit_all-Looped}
use mathlib.Core.List.{Memᴰ}
use televault.Retention.Evaluator.Order.{Newer, latest_successful-sort_candidates}
use televault.Prelude.{
  inr, sym, ap, ◌∙◌, false, ℕ, suc, ◌+◌, ◌≤◌, ◌≡◌, refl, ◌≢◌, ◌⊎◌, inl, true, Option, some, List,
  [], ◌∷◌, map, arith, ◌==◌, if◌then◌else◌, length, All, Text, if_split,
}
use televault.Core.Models.{is_completed, BackupStatus}
use televault.Retention.Types.{RetentionCandidate, RetentionDecision, keep}
use televault.Retention.Evaluator.{
  sort_candidates, latest_successful, Tally, visit_all, start, disabled, report, tally, evaluate,
  RetentionDecision, RetentionPolicy,
}

module _ (policy : RetentionPolicy) (total : ℕ) (latest : Option Text) where
  disabled-Judged :
      (idx seen : ℕ) (cs : List RetentionCandidate)
      → Judged policy total latest idx seen cs (map disabled cs)
  disabled-Judged idx seen [] = tt
  disabled-Judged idx seen (c ∷ cs) =
      (refl, inl refl, disabled-Judged (suc idx) (seen + one_if (is_completed c.status)) cs)

  Judged-count :
      (idx seen : ℕ) (cs : List RetentionCandidate) (ds : List RetentionDecision)
      → Judged policy total latest idx seen cs ds
      → count_kept ds + count_pruned ds ≡ length cs
  Judged-count idx seen [] [] j = ground arith
  Judged-count idx seen [] (d ∷ ds) j = elim j [ ]
  Judged-count idx seen (c ∷ cs) [] j = elim j [ ]
  Judged-count idx seen (c ∷ cs) (d ∷ ds) j =
      ground (arith, Judged-count (suc idx) (seen + one_if (is_completed c.status)) cs ds j.2)

  Judged-landmark :
      (idx seen : ℕ) (cs : List RetentionCandidate) (ds : List RetentionDecision)
      → Judged policy total latest idx seen cs ds
      → policy.keep_latest_successful ≡ true
      → All (λ d. (latest ≢ some d.snapshot_id) ⊎ (d.action ≡ keep)) ds
  Judged-landmark idx seen [] [] j k = tt
  Judged-landmark idx seen [] (d ∷ ds) j k = elim j [ ]
  Judged-landmark idx seen (c ∷ cs) [] j k = elim j [ ]
  Judged-landmark idx seen (c ∷ cs) (d ∷ ds) (a, b, j) k = (
    ground (arith, a, b),
    Judged-landmark (suc idx) (seen + one_if (is_completed c.status)) cs ds j k,
  )

  Judged-newest :
      (seen : ℕ) (cs : List RetentionCandidate) (ds : List RetentionDecision)
      → Judged policy total latest 0 seen cs ds
      → policy.keep_latest_always ≡ true
      → 1 ≤ length cs
      → 1 ≤ count_kept ds
  Judged-newest seen [] ds j k n = ground arith
  Judged-newest seen (c ∷ cs) [] j k n = elim j [ ]
  Judged-newest seen (c ∷ cs) (d ∷ ds) (a, b, j) k n = ground (arith, a, b)

-- Decisions that spare the landmark spare the snapshot that it is.
spared :
    (id : Text) (latest : Option Text) (ds : List RetentionDecision)
    → latest ≡ some id
    → All (λ d. (latest ≢ some d.snapshot_id) ⊎ (d.action ≡ keep)) ds
    → All (λ d. (d.snapshot_id ≢ id) ⊎ (d.action ≡ keep)) ds
spared id latest [] e h = tt
spared id latest (d ∷ ds) e (inl other, t) =
    (inl (λ same. other (e ∙ ap some (sym same))), spared id latest ds e t)
spared id latest (d ∷ ds) e (inr kept, t) = (inr kept, spared id latest ds e t)

count_kept-disabled : (cs : List RetentionCandidate) → count_kept (map disabled cs) ≡ length cs
count_kept-disabled [] = refl
count_kept-disabled (c ∷ cs) = omega (arith, count_kept-disabled cs)

count_pruned-disabled : (cs : List RetentionCandidate) → count_pruned (map disabled cs) ≡ 0
count_pruned-disabled [] = refl
count_pruned-disabled (c ∷ cs) = omega (arith, count_pruned-disabled cs)

-- The variables after the loop agree with the decisions.
pub record Reported (policy : RetentionPolicy) (sorted : List RetentionCandidate) (t : Tally)
    : Type 0 where
  pub judged : Judged policy (length sorted) (latest_successful sorted) 0 0 sorted t.decisions
  pub kept : t.snapshots_kept ≡ count_kept t.decisions
  pub pruned : t.snapshots_pruned ≡ count_pruned t.decisions

module _ (policy : RetentionPolicy) (status_of : Text → BackupStatus) where
  looped-Reported :
      (sorted : List RetentionCandidate)
      → All (HasStatus status_of) sorted
      → Reported policy sorted
          (visit_all policy (length sorted) (latest_successful sorted) 0 sorted start)
  looped-Reported sorted h =
      let latest = latest_successful sorted in
      let l = visit_all-Looped policy (length sorted) latest sorted 0 0 start (omega arith) (
        landmarks_lem status_of latest sorted (λ k. latest_successful_lem status_of sorted k h)
          h) in
      let same : _ ≡ l.made = l.pushed in
      record {
        judged = rw same l.judged;
        kept = rw same (omega (arith, l.kept));
        pruned = rw same (omega (arith, l.pruned));
      }

  disabled-Reported :
      (sorted : List RetentionCandidate)
      → Reported policy sorted
          (record start { decisions = map disabled sorted; snapshots_kept = length sorted })
  disabled-Reported sorted = record {
    judged = disabled-Judged policy (length sorted) (latest_successful sorted) 0 0 sorted;
    kept = omega (arith, count_kept-disabled sorted);
    pruned = omega (arith, count_pruned-disabled sorted);
  }

  tally-Reported :
      (sorted : List RetentionCandidate)
      → All (HasStatus status_of) sorted
      → Reported policy sorted (tally policy sorted)
  unfolding tally
  tally-Reported sorted h =
      search (if_split (Reported policy sorted), disabled-Reported sorted, looped-Reported sorted h)

-- The early return for no snapshots reports what the rest would.
early :
    (profile_id : Text) (policy : RetentionPolicy) (now : Text) (sorted : List RetentionCandidate)
    → (if length sorted == 0
        then report profile_id policy now 0 start
        else report profile_id policy now (length sorted) (tally policy sorted))
      ≡ report profile_id policy now (length sorted) (tally policy sorted)
unfolding tally visit_all
early profile_id policy now [] = ground arith
early profile_id policy now (c ∷ cs) = ground arith

module _ (status_of : Text → BackupStatus) (profile_id : Text) (policy : RetentionPolicy)
    (cs : List RetentionCandidate) (now : Text) (h : All (HasStatus status_of) cs) where
  reported : Reported policy (sort_candidates cs) (tally policy (sort_candidates cs))
  reported =
      tally-Reported policy status_of (sort_candidates cs)
        (All-sort_candidates (HasStatus status_of) cs h)

  -- Where the snapshots with one identifier have one status: the decisions stand in the sorted
  -- order, each about its snapshot, and a snapshot is pruned only if it may be: it is settled, not
  -- the only one, not the newest or the latest successful one where the policy protects these, and
  -- it is completed, but empty where these are unwanted, or beyond every limit that is set, or it is
  -- incomplete and unwanted or too old. The rank counts the completed snapshots that are not older.
  pub evaluate-Judged :
      Judged policy
        (length (sort_candidates cs))
        (latest_successful (sort_candidates cs))
        0
        0
        (sort_candidates cs)
        (evaluate profile_id policy cs now).decisions
  unfolding evaluate
  evaluate-Judged = rw (early profile_id policy now (sort_candidates cs)) reported.judged

  -- Where the snapshots with one identifier have one status: every snapshot is counted once, as kept
  -- or as pruned, and the counts are those of the decisions.
  pub evaluate_counts :
      let r = evaluate profile_id policy cs now in
      (r.snapshots_evaluated ≡ length cs)
      × (r.snapshots_kept ≡ count_kept r.decisions)
      × (r.snapshots_pruned ≡ count_pruned r.decisions)
      × (r.snapshots_kept + r.snapshots_pruned ≡ length cs)
  unfolding evaluate
  evaluate_counts = rw (early profile_id policy now (sort_candidates cs)) (
    length-sort_candidates cs,
    reported.kept,
    reported.pruned,
    omega (
      arith,
      reported.kept,
      reported.pruned,
      length-sort_candidates cs,
      Judged-count policy _ _ 0 0 (sort_candidates cs) _ reported.judged,
    ),
  )

  -- Where the snapshots with one identifier have one status and the policy keeps the latest
  -- successful one: let a completed snapshot be newer than every other completed one (or of the same
  -- time and with the larger identifier); no decision on its identifier prunes.
  pub evaluate_keeps_landmark :
      (c : RetentionCandidate)
      → Memᴰ c cs
      → is_completed c.status ≡ true
      → All (λ d. (is_completed d.status ≡ false) ⊎ (d ≡ c) ⊎ Newer c d) cs
      → policy.keep_latest_successful ≡ true
      → All
          (λ d. (d.snapshot_id ≢ c.snapshot_id) ⊎ (d.action ≡ keep))
          (evaluate profile_id policy cs now).decisions
  evaluate_keeps_landmark c m done newest k =
      spared c.snapshot_id _ _ (latest_successful-sort_candidates cs c m done newest)
        (Judged-landmark policy _ _ 0 0 (sort_candidates cs) _ evaluate-Judged k)

  -- Where the snapshots with one identifier have one status, the policy keeps the newest snapshot,
  -- and there is one: at least one snapshot is kept.
  pub evaluate_keeps_one :
      policy.keep_latest_always ≡ true
      → 1 ≤ length cs
      → 1 ≤ (evaluate profile_id policy cs now).snapshots_kept
  evaluate_keeps_one k n = omega (
    arith,
    evaluate_counts.1,
    Judged-newest policy _ _ 0 (sort_candidates cs) _ evaluate-Judged k
        (omega (arith, n, length-sort_candidates cs)),
  )
