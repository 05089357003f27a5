-- ===== src/Retention/Evaluator/Kept.antt =====
-- What the loop decides on the sorted snapshots, and what it counts
-- (crates/televault-backup/src/retention/evaluator.rs).
use televault.Prelude.{
  sym, not, suc, ℕ, ◌+◌, ◌≤◌, Bool, true, false, ◌≡◌, ◌⊎◌, inl, inr, Option, none, some, List, ◌++◌,
  ◌∷◌, [], arith, Text, All,
}
use mathlib.Core.List.{append_assoc, append-nil}
use televault.Core.Models.{is_completed}
use televault.Retention.Types.{RetentionCandidate, RetentionDecision, RetentionAction, keep, prune}
use televault.Retention.Policy.{RetentionPolicy}
use televault.Retention.Evaluator.{Tally, visit_all, decision, visit}
use televault.Retention.Evaluator.Visit.{Exceeds, Why, MayPrune, one_if, Visited}
use televault.Retention.Evaluator.Branches.{Landmark, visit-Visited}

-- The decisions are about the candidates, in their order, and one that does not keep its snapshot
-- may prune it: `idx` counts the candidates before, and `seen` the completed ones among them.
abbrev pub Judged :
    RetentionPolicy
    → ℕ
    → Option Text
    → ℕ
    → ℕ
    → List RetentionCandidate
    → List RetentionDecision
    → Type 0
Judged policy total latest idx seen [] [] = Unit
Judged policy total latest idx seen [] (d ∷ ds) = ⊥
Judged policy total latest idx seen (c ∷ cs) [] = ⊥
Judged policy total latest idx seen (c ∷ cs) (d ∷ ds) =
    (d ≡ decision d.action d.reason d.description c)
    × ((d.action ≡ keep)
        ⊎ ((d.action ≡ prune)
            × MayPrune policy total latest idx (seen + one_if (is_completed c.status)) c))
    × Judged policy total latest (suc idx) (seen + one_if (is_completed c.status)) cs ds

abbrev pub is_keep : RetentionAction → Bool
is_keep keep = true
is_keep prune = false

abbrev pub count_kept : List RetentionDecision → ℕ
count_kept [] = 0
count_kept (d ∷ ds) = one_if (is_keep d.action) + count_kept ds

abbrev pub count_pruned : List RetentionDecision → ℕ
count_pruned [] = 0
count_pruned (d ∷ ds) = one_if (not (is_keep d.action)) + count_pruned ds

Exceeds-later : (o : Option ℕ) (s u : ℕ) → s ≤ u → Exceeds o s → Exceeds o u
Exceeds-later none s u h e = e
Exceeds-later (some n) s u h e = omega arith

Why-later :
    (policy : RetentionPolicy) (s u : ℕ) (c : RetentionCandidate)
    → s ≤ u
    → Why policy s c
    → Why policy u c
Why-later policy s u c h (inl (d, inl e)) = inl (d, inl e)
Why-later policy s u c h (inl (d, inr (n, a, o))) =
    inl (d, inr (Exceeds-later policy.keep_latest_n s u h n, a, o))
Why-later policy s u c h (inr w) = inr w

module _ (policy : RetentionPolicy) (total : ℕ) (latest : Option Text) where
  MayPrune-later :
      (idx s u : ℕ) (c : RetentionCandidate)
      → s ≤ u
      → MayPrune policy total latest idx s c
      → MayPrune policy total latest idx u c
  MayPrune-later idx s u c h m = record {
    not_active = m.not_active;
    not_scanning = m.not_scanning;
    not_backing_up = m.not_backing_up;
    not_sole = m.not_sole;
    not_newest = m.not_newest;
    not_landmark = m.not_landmark;
    why = Why-later policy s u c h m.why;
  }

  judge :
      (c : RetentionCandidate) (idx seen s : ℕ) (t u : Tally)
      → s ≤ seen
      → (v : Visited (MayPrune policy total latest idx s c) c s t u)
      → (v.made.action ≡ keep) ⊎ ((v.made.action ≡ prune) × MayPrune policy total latest idx seen c)
  judge c idx seen s t u h v = ground (arith, v.counted, MayPrune-later idx s seen c)

  counts :
      (c : RetentionCandidate) (idx s : ℕ) (t u : Tally)
      (v : Visited (MayPrune policy total latest idx s c) c s t u)
      → (u.snapshots_kept ≡ t.snapshots_kept + one_if (is_keep v.made.action))
        × (u.snapshots_pruned ≡ t.snapshots_pruned + one_if (not (is_keep v.made.action)))
  counts c idx s t u v = ground (arith, v.counted)

  pub record Looped (idx seen : ℕ) (cs : List RetentionCandidate) (t u : Tally) : Type 0 where
    pub made : List RetentionDecision
    pub pushed : u.decisions ≡ t.decisions ++ made
    pub judged : Judged policy total latest idx seen cs made
    pub kept : u.snapshots_kept ≡ t.snapshots_kept + count_kept made
    pub pruned : u.snapshots_pruned ≡ t.snapshots_pruned + count_pruned made

  pub visit_all-Looped :
      (cs : List RetentionCandidate) (idx seen : ℕ) (t : Tally)
      → t.completed_rank ≤ seen
      → All (Landmark latest) cs
      → Looped idx seen cs t (visit_all policy total latest idx cs t)
  unfolding visit_all
  visit_all-Looped [] idx seen t r h = record {
    made = [];
    pushed = sym (append-nil t.decisions);
    judged = tt;
    kept = ground arith;
    pruned = ground arith;
  }
  visit_all-Looped (c ∷ cs) idx seen t r h =
      let n = one_if (is_completed c.status) in
      let u = visit policy total latest idx c t in
      let one = visit-Visited policy total latest idx c t h.0 in
      let rest = visit_all-Looped cs (suc idx) (seen + n) u (omega (arith, one.ranked)) h.1 in
      let counted = counts c idx (t.completed_rank + n) t u one in
      record {
        made = one.made ∷ rest.made;
        pushed =
            ground
              (arith, rest.pushed, one.pushed, append_assoc t.decisions (one.made ∷ []) rest.made);
        judged = (
          one.about,
          judge c idx (seen + n) (t.completed_rank + n) t u (omega arith) one,
          rest.judged,
        );
        kept = omega (arith, rest.kept, counted.0);
        pruned = omega (arith, rest.pruned, counted.1);
      }
