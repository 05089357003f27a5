-- ===== src/Retention/Evaluator.antt =====
-- crates/televault-backup/src/retention/evaluator.rs: the decision on each snapshot of a profile.
pub mod Order
pub mod Visit
pub mod Branches
pub mod Kept
pub mod Sorted
pub mod Report
use televault.Prelude.{
  ℕ, zero, suc, ◌+◌, Bool, true, false, not, ◌&&◌, ◌||◌, Option, none, some, is_none, List, [], ◌∷◌,
  ◌++◌, map, length, Text, text, text_eq, compare_text, decimal, ◌==◌, leb, if◌then◌else◌, Ordering,
}
use televault.Prelude.Sorting.{sort_by}
use televault.Core.Models.{
  BackupStatus, status_text, is_completed, is_failed, is_scanning, is_backing_up,
}
use televault.Retention.Types.{
  RetentionAction, keep, prune, RetentionReason, keep_latest, keep_within_retention_window,
  keep_latest_successful, keep_count_limit, protected_active, protected_sole_snapshot,
  prune_expired, prune_excess_snapshot, prune_failed_snapshot, prune_incomplete_snapshot,
  prune_empty, RetentionCandidate, RetentionDecision, RetentionEvaluation,
}
use televault.Retention.Policy.{RetentionPolicy}

-- The comparison that `sort_by` is given: newest first, and larger identifiers first at one time.
unfoldable pub newest_first : RetentionCandidate → RetentionCandidate → Ordering
newest_first a b = elim (compare_text b.created_at a.created_at) [
  | Ordering.eq ↦ compare_text b.snapshot_id a.snapshot_id
  | Ordering.lt ↦ Ordering.lt
  | Ordering.gt ↦ Ordering.gt
]

-- The clone of the candidates, sorted.
unfoldable pub sort_candidates : List RetentionCandidate → List RetentionCandidate
sort_candidates cs = sort_by newest_first cs

-- `sorted.iter().find(|c| c.status == Completed).map(|c| c.snapshot_id.clone())`
unfoldable pub latest_successful : List RetentionCandidate → Option Text
latest_successful [] = none
latest_successful (c ∷ cs) =
    if is_completed c.status then some c.snapshot_id else latest_successful cs

-- The variables of the loop.
pub record Tally : Type 0 where
  pub decisions : List RetentionDecision
  pub completed_rank : ℕ
  pub snapshots_kept : ℕ
  pub snapshots_pruned : ℕ

abbrev pub decision :
    RetentionAction → RetentionReason → Text → RetentionCandidate → RetentionDecision
decision action reason description c = record {
  snapshot_id = c.snapshot_id;
  action = action;
  reason = reason;
  description = description;
  snapshot_status = c.status;
  snapshot_created_at = c.created_at;
  age_secs = c.age_secs;
  version_count = c.version_count;
}

-- `decisions.push(... Keep ...); snapshots_kept += 1;` and the same with `Prune`.
abbrev pub push_keep : RetentionReason → Text → RetentionCandidate → Tally → Tally
push_keep reason description c t = record t {
  decisions = t.decisions ++ decision keep reason description c ∷ [];
  snapshots_kept = t.snapshots_kept + 1;
}

abbrev pub push_prune : RetentionReason → Text → RetentionCandidate → Tally → Tally
push_prune reason description c t = record t {
  decisions = t.decisions ++ decision prune reason description c ∷ [];
  snapshots_pruned = t.snapshots_pruned + 1;
}

abbrev next_rank : Tally → Tally
next_rank t = record t { completed_rank = t.completed_rank + 1 }

abbrev within : Option ℕ → ℕ → Bool
within none n = false
within (some limit) n = leb n limit

-- The `unwrap()` of a limit that is known to be set.
abbrev limit_text : Option ℕ → Text
limit_text none = []
limit_text (some n) = decimal n

-- The `match (policy.keep_newer_than_secs, policy.keep_latest_n)` of the prune decision.
abbrev prune_reason : Option ℕ → Option ℕ → RetentionReason
prune_reason (some _) _ = prune_expired
prune_reason none _ = prune_excess_snapshot

abbrev prune_description : Option ℕ → Option ℕ → ℕ → ℕ → Text
prune_description (some _) (some max_n) age rank =
    text "Age "
    ++ (decimal age
        ++ (text "s exceeds limit and rank #"
            ++ (decimal rank ++ (text " exceeds limit " ++ decimal max_n))))
prune_description (some max_age) none age rank =
    text "Snapshot age "
    ++ (decimal age ++ (text "s exceeds configured limit of " ++ (decimal max_age ++ text "s")))
prune_description none (some max_n) age rank =
    text "Snapshot rank #"
    ++ (decimal rank ++ (text " exceeds latest " ++ (decimal max_n ++ text " limit")))
prune_description none none age rank =
    text "Snapshot rank #" ++ (decimal rank ++ text " pruned by default policy")

abbrev pub is_protected : RetentionCandidate → Bool
is_protected c = c.is_active || is_scanning c.status || is_backing_up c.status

abbrev pub is_landmark : Option Text → RetentionCandidate → Bool
is_landmark none c = false
is_landmark (some k) c = text_eq k c.snapshot_id

module _ (policy : RetentionPolicy) where
  -- The union of the two limits, for a completed snapshot whose rank is counted.
  unfoldable pub by_limits : RetentionCandidate → Tally → Tally
  by_limits c t =
      let age = policy.keep_newer_than_secs in
      let count = policy.keep_latest_n in
      let rank = decimal t.completed_rank in
      if is_none age && is_none count
      then push_keep keep_within_retention_window
          (text "No age or count limits configured; snapshot preserved") c t
      else if within age c.age_secs && within count t.completed_rank
      then push_keep keep_within_retention_window
          (text "Within retention window (age "
            ++ (decimal c.age_secs ++ (text "s) and count limit (rank #" ++ (rank ++ text ")"))))
          c t
      else if within age c.age_secs
      then push_keep keep_within_retention_window
          (text "Within configured age window (age "
            ++ (decimal c.age_secs ++ (text "s <= limit " ++ (limit_text age ++ text "s)"))))
          c t
      else if within count t.completed_rank
      then push_keep keep_count_limit
          (text "Within latest "
            ++ (limit_text count ++ (text " snapshots limit (rank #" ++ (rank ++ text ")"))))
          c t
      else push_prune (prune_reason age count)
          (prune_description age count c.age_secs t.completed_rank) c t

  -- `if candidate.status == BackupStatus::Completed { ... }`
  unfoldable pub on_completed : RetentionCandidate → Tally → Tally
  unfolding by_limits
  on_completed c t =
      if policy.prune_empty && c.version_count == 0
      then push_prune prune_empty (text "Completed snapshot contains 0 associated file versions") c
          (next_rank t)
      else by_limits c (next_rank t)

  -- The snapshots that are not completed: failed ones, and cancelled or idle ones.
  unfoldable pub on_incomplete : RetentionCandidate → Tally → Tally
  on_incomplete c t =
      let kept =
        within policy.keep_newer_than_secs c.age_secs || is_none policy.keep_newer_than_secs in
      let named = text "Incomplete snapshot (" ++ status_text c.status in
      if is_failed c.status
      then if policy.prune_failed
        then push_prune prune_failed_snapshot (text "Failed snapshot pruned by retention policy") c
            t
        else if kept
        then push_keep keep_within_retention_window
            (text "Failed snapshot preserved (prune_failed is disabled)") c t
        else push_prune prune_failed_snapshot
            (text "Failed snapshot exceeds retention age window ("
              ++ (decimal c.age_secs ++ text "s)"))
            c t
      else if policy.prune_failed
      then push_prune prune_incomplete_snapshot (named ++ text ") pruned by retention policy") c t
      else if kept
      then push_keep keep_within_retention_window
          (named ++ text ") preserved (prune_failed is disabled)") c t
      else push_prune prune_incomplete_snapshot
          (named ++ (text ") exceeds retention age window (" ++ (decimal c.age_secs ++ text "s)")))
          c t

  -- The body of the loop, for the candidate at place `idx` of `total`.
  unfoldable pub visit : ℕ → Option Text → ℕ → RetentionCandidate → Tally → Tally
  visit total latest idx c t =
      if is_protected c
      then push_keep protected_active (text "Snapshot is actively being created or in use") c t
      else if total == 1
      then push_keep protected_sole_snapshot (text "Sole snapshot for profile is preserved") c t
      else if idx == 0 && policy.keep_latest_always
      then push_keep keep_latest (text "Most recent snapshot for profile is preserved") c
          (if is_completed c.status then next_rank t else t)
      else if policy.keep_latest_successful && is_landmark latest c
      then push_keep keep_latest_successful
          (text "Latest successful (Completed) recovery point is preserved") c (next_rank t)
      else if is_completed c.status
      then on_completed c t
      else on_incomplete c t

  -- `for (idx, candidate) in sorted.iter().enumerate()`
  unfoldable pub visit_all : ℕ → Option Text → ℕ → List RetentionCandidate → Tally → Tally
  visit_all total latest idx [] t = t
  visit_all total latest idx (c ∷ cs) t =
      visit_all total latest (suc idx) cs (visit total latest idx c t)

abbrev pub start : Tally
start = record { decisions = []; completed_rank = 0; snapshots_kept = 0; snapshots_pruned = 0 }

-- The decision of a policy that is disabled.
abbrev pub disabled : RetentionCandidate → RetentionDecision
disabled =
    decision keep keep_within_retention_window
      (text "Retention policy is disabled; keeping snapshot")

abbrev pub report : Text → RetentionPolicy → Text → ℕ → Tally → RetentionEvaluation
report profile_id policy evaluated_at total t = record {
  profile_id = profile_id;
  evaluated_at = evaluated_at;
  policy = policy;
  decisions = t.decisions;
  snapshots_evaluated = total;
  snapshots_kept = t.snapshots_kept;
  snapshots_pruned = t.snapshots_pruned;
}

-- What the loop or the early return leaves in the variables.
unfoldable pub tally : RetentionPolicy → List RetentionCandidate → Tally
tally policy sorted =
    if not policy.enabled
    then record start { decisions = map disabled sorted; snapshots_kept = length sorted }
    else visit_all policy (length sorted) (latest_successful sorted) 0 sorted start

-- `RetentionEvaluator::evaluate`. With no candidate the early return is the report of the empty
-- tally, which is what the rest computes too.
unfoldable pub evaluate :
    Text → RetentionPolicy → List RetentionCandidate → Text → RetentionEvaluation
evaluate profile_id policy candidates evaluated_at =
    let sorted = sort_candidates candidates in
    if length sorted == 0
    then report profile_id policy evaluated_at 0 start
    else report profile_id policy evaluated_at (length sorted) (tally policy sorted)
