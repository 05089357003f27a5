-- ===== src/Retention/Evaluator/Branches.antt =====
-- Every branch of the loop's body pushes one decision and counts it
-- (crates/televault-backup/src/retention/evaluator.rs).
use televault.Prelude.{
  text_eq_refl, text, Text, inr, inl, true, ℕ, ◌≤◌, false, ◌≡◌, ◌≢◌, ◌⊎◌, Option, none, some, arith,
  if_split, ◌&&◌, is_none, if◌then◌else◌, Bool-cases, ◌||◌, refl, ◌==◌, ◌+◌,
}
use televault.Retention.Types.{RetentionCandidate}
use televault.Retention.Policy.{RetentionPolicy}
use televault.Retention.Evaluator.{
  keep_latest_successful, push_keep, is_completed, is_landmark, visit, is_protected, next_rank,
  on_completed, on_incomplete, Tally, by_limits, within,
}
use televault.Retention.Evaluator.Visit.{
  Exceeds, OutOfLimits, Unwanted, Why, MayPrune, one_if, Visited, keeps, prunes,
}

out_of_limits :
    (count age : Option ℕ) (seen secs : ℕ)
    → (is_none age && is_none count) ≡ false
    → within age secs ≡ false
    → within count seen ≡ false
    → Exceeds count seen × Exceeds age secs × ((count ≢ none) ⊎ (age ≢ none))
out_of_limits none none seen secs h0 h2 h3 = ground arith
out_of_limits none (some a) seen secs h0 h2 h3 = ground arith
out_of_limits (some n) age seen secs h0 h2 h3 = ground arith

too_old :
    (age : Option ℕ) (secs : ℕ)
    → (within age secs || is_none age) ≡ false
    → (age ≢ none) × Exceeds age secs
too_old none secs h = ground arith
too_old (some a) secs h = ground arith

module _ (policy : RetentionPolicy) {Reason : Type 0} (c : RetentionCandidate) (seen : ℕ)
    (t u : Tally) (same : u.decisions ≡ t.decisions) (kept : u.snapshots_kept ≡ t.snapshots_kept)
    (pruned : u.snapshots_pruned ≡ t.snapshots_pruned) where
  by_limits-Visited :
      u.completed_rank ≤ seen
      → (OutOfLimits policy u.completed_rank c → Reason)
      → Visited Reason c seen t (by_limits policy c u)
  unfolding by_limits
  by_limits-Visited rank why =
      let keeping = keeps {Reason = Reason} c seen t u same kept pruned rank in
      let pruning = prunes {Reason = Reason} c seen t u same kept pruned rank in
      search
        (
          if_split (Visited Reason c seen t),
          keeping,
          pruning,
          why,
          out_of_limits policy.keep_latest_n policy.keep_newer_than_secs u.completed_rank
              c.age_secs,
        )
        depth 14

module _ (policy : RetentionPolicy) {Reason : Type 0} (c : RetentionCandidate) (t : Tally) where
  on_completed-Visited :
      (((policy.prune_empty ≡ true) × (c.version_count ≡ 0))
          ⊎ OutOfLimits policy (t.completed_rank + 1) c
        → Reason)
      → Visited Reason c (t.completed_rank + 1) t (on_completed policy c t)
  unfolding on_completed
  on_completed-Visited why = elim (Bool-cases (policy.prune_empty && c.version_count == 0)) [
    | inl h ↦
        rw h
          (prunes c _ t (next_rank t) refl refl refl (omega arith) _ _ (why (inl (ground arith))))
    | inr h ↦ rw h (
        by_limits-Visited policy c _ t (next_rank t) refl refl refl (omega arith)
          (λ o. why (inr o)))
  ]

  on_incomplete-Visited :
      (Unwanted policy c → Reason) → Visited Reason c t.completed_rank t (on_incomplete policy c t)
  unfolding on_incomplete
  on_incomplete-Visited why =
      let keeping = keeps {Reason = Reason} c t.completed_rank t t refl refl refl (omega arith) in
      let pruning = prunes {Reason = Reason} c t.completed_rank t t refl refl refl (omega arith) in
      let wanted : policy.prune_failed ≡ true → Reason = λ p. why (inl p) in
      let old : (within policy.keep_newer_than_secs c.age_secs
              || is_none policy.keep_newer_than_secs)
            ≡ false
          → Reason =
        λ h. why (inr (too_old policy.keep_newer_than_secs c.age_secs h)) in
      search (if_split (Visited Reason c t.completed_rank t), keeping, pruning, wanted, old) depth
        14

-- What is known of the place, the rank and the landmark where a candidate is visited.
abbrev pub Landmark : Option Text → RetentionCandidate → Type 0
Landmark latest c = is_landmark latest c ≡ true → is_completed c.status ≡ true

module _ (policy : RetentionPolicy) (total : ℕ) (latest : Option Text) (idx : ℕ)
    (c : RetentionCandidate) where
  may_prune :
      (seen : ℕ)
      → is_protected c ≡ false
      → (total == 1) ≡ false
      → (idx == 0 && policy.keep_latest_always) ≡ false
      → (policy.keep_latest_successful && is_landmark latest c) ≡ false
      → Why policy seen c
      → MayPrune policy total latest idx seen c
  may_prune seen free many later plain why = record {
    not_active = ground arith;
    not_scanning = ground arith;
    not_backing_up = ground arith;
    not_sole = ground arith;
    not_newest = ground arith;
    not_landmark = ground (arith, text_eq_refl c.snapshot_id);
    why = why;
  }

  keep_latest-Visited :
      {Reason : Type 0} (t : Tally) (reason : _) (description : _)
      → Visited Reason c
          (t.completed_rank + one_if (is_completed c.status))
          t
          (push_keep reason description c (if is_completed c.status then next_rank t else t))
  keep_latest-Visited t reason description = elim (Bool-cases (is_completed c.status)) [
    | inl h ↦ rw h (keeps c _ t (next_rank t) refl refl refl (omega arith) reason description)
    | inr h ↦ rw h (keeps c _ t t refl refl refl (omega arith) reason description)
  ]

  visit_plain :
      (t : Tally)
      → Landmark latest c
      → is_protected c ≡ false
      → (total == 1) ≡ false
      → (idx == 0 && policy.keep_latest_always) ≡ false
      → Visited
          (MayPrune policy total latest idx (t.completed_rank + one_if (is_completed c.status)) c)
          c
          (t.completed_rank + one_if (is_completed c.status))
          t
          (if policy.keep_latest_successful && is_landmark latest c
            then push_keep keep_latest_successful
                (text "Latest successful (Completed) recovery point is preserved")
                c
                (next_rank t)
            else if is_completed c.status
            then on_completed policy c t
            else on_incomplete policy c t)
  visit_plain t landmark p o n =
      let none_seen : t.completed_rank + 0 ≡ t.completed_rank = omega arith in
      elim (Bool-cases (is_completed c.status)) [
        | inl d ↦ elim (Bool-cases (policy.keep_latest_successful && is_landmark latest c)) [
          | inl k ↦ rw (d, k) (keeps c _ t (next_rank t) refl refl refl (omega arith) _ _)
          | inr k ↦
              rw (d, k)
                (on_completed-Visited policy c t
                  (λ out. may_prune (t.completed_rank + 1) p o n k (inl (ground arith, out))))
        ]
        | inr d ↦ elim (Bool-cases (policy.keep_latest_successful && is_landmark latest c)) [
          | inl k ↦ absurd (ground (arith, landmark))
          | inr k ↦
              rw (d, k, none_seen)
                (on_incomplete-Visited policy c t
                  (λ u. may_prune t.completed_rank p o n k (inr (ground arith, u))))
        ]
      ]

  pub visit-Visited :
      (t : Tally)
      → Landmark latest c
      → Visited
          (MayPrune policy total latest idx (t.completed_rank + one_if (is_completed c.status)) c)
          c
          (t.completed_rank + one_if (is_completed c.status))
          t
          (visit policy total latest idx c t)
  unfolding visit
  visit-Visited t landmark =
      let seen = t.completed_rank + one_if (is_completed c.status) in
      let keeping = keeps c seen t t refl refl refl (omega arith) in
      elim (Bool-cases (is_protected c)) [
        | inl p ↦ rw p (keeping _ _)
        | inr p ↦ elim (Bool-cases (total == 1)) [
          | inl o ↦ rw (p, o) (keeping _ _)
          | inr o ↦ elim (Bool-cases (idx == 0 && policy.keep_latest_always)) [
            | inl n ↦ rw (p, o, n) (keep_latest-Visited t _ _)
            | inr n ↦ rw (p, o, n) (visit_plain t landmark p o n)
          ]
        ]
      ]
