-- ===== src/Transfer/Queue/Invariant.antt =====
-- What holds of the queue between two operations, whichever threads make them
-- (crates/televault-transfer/src/queue.rs).
use televault.Prelude.{
  ◌⊎◌, ℕ, ◌≤◌, ◌<◌, true, false, ◌≡◌, sym, subst, is_some, [], ◌∷◌, ◌++◌, length, Text, text_eq_iff,
  arith, ok,
}
use televault.Transfer.Job.{TransferJob}
use televault.Prelude.Keyed.{
  lookup, insert, contains, Distinct, lookup-insert, contains-append, contains-remove,
  Distinct-remove, Distinct-snoc, length-remove,
}
use televault.Transfer.Queue.{Queue, new_queue, submit, cancel_token, finish_job, requeue_job}

-- What each identifier may be at once.
pub record IsKnown (q : Queue) (k : Text) : Type 0 where
  -- not waiting and running at once
  pub apart : (contains q.pending k ≡ false) ⊎ (contains q.active k ≡ false)
  pub pending_tokened : (contains q.pending k ≡ false) ⊎ (is_some (lookup k q.tokens) ≡ true)
  pub active_tokened : (contains q.active k ≡ false) ⊎ (is_some (lookup k q.tokens) ≡ true)
  pub tokened_registered :
      (is_some (lookup k q.tokens) ≡ false) ⊎ (is_some (lookup k q.jobs) ≡ true)

pub record Inv (q : Queue) : Type 0 where
  pub capped : length q.active ≤ q.max_concurrency
  pub roomy : 0 < q.max_concurrency
  pub pending_distinct : Distinct q.pending
  pub active_distinct : Distinct q.active
  pub known : (k : Text) → IsKnown q k

pub new_queue-Inv : (n : ℕ) → Inv (new_queue n)
unfolding new_queue contains lookup
new_queue-Inv n = record {
  capped = omega arith;
  roomy = omega arith;
  pending_distinct = tt;
  active_distinct = tt;
  known = λ k. ground arith;
}

-- The queue after a submission that is accepted.
abbrev pub submitted : Queue → TransferJob → Queue
submitted q job = record q {
  pending = q.pending ++ job.job_id ∷ [];
  tokens = insert job.job_id false q.tokens;
  jobs = insert job.job_id job q.jobs;
}

pub submit-eq-ok :
    (q : Queue) (job : TransferJob) {k : Text} {q' : Queue}
    → submit q job ≡ ok (k, q')
    → (is_some (lookup job.job_id q.jobs) ≡ false) × (k ≡ job.job_id) × (q' ≡ submitted q job)
unfolding submit
submit-eq-ok q job h = ground arith

-- A key that is not registered is nowhere.
fresh :
    (q : Queue) (k : Text)
    → IsKnown q k
    → is_some (lookup k q.jobs) ≡ false
    → (contains q.pending k ≡ false) × (contains q.active k ≡ false)
fresh q k i h = ground arith

submitted-IsKnown :
    (q : Queue) (job : TransferJob) (k : Text)
    → IsKnown q k
    → IsKnown q job.job_id
    → is_some (lookup job.job_id q.jobs) ≡ false
    → IsKnown (submitted q job) k
unfolding contains
submitted-IsKnown q job k i j h = record {
  apart = ground (
    arith,
    fresh q job.job_id j h,
    text_eq_iff job.job_id k,
    contains-append q.pending (job.job_id ∷ []) k,
  );
  pending_tokened = ground (
    arith,
    text_eq_iff job.job_id k,
    contains-append q.pending (job.job_id ∷ []) k,
    lookup-insert job.job_id k false q.tokens,
  );
  active_tokened = ground (arith, lookup-insert job.job_id k false q.tokens);
  tokened_registered =
      ground
        (arith, lookup-insert job.job_id k false q.tokens, lookup-insert job.job_id k job q.jobs);
}

pub submit-Inv :
    (q : Queue) (job : TransferJob) (k : Text) (q' : Queue)
    → Inv q
    → submit q job ≡ ok (k, q')
    → Inv q'
submit-Inv q job k q' i h =
    let (free, _, e) = submit-eq-ok q job h in
    let (waiting, running) = fresh q job.job_id (i.known job.job_id) free in
    subst Inv (sym e) (record {
      capped = i.capped;
      roomy = i.roomy;
      pending_distinct = Distinct-snoc q.pending job.job_id i.pending_distinct waiting;
      active_distinct = i.active_distinct;
      known = λ j. submitted-IsKnown q job j (i.known j) (i.known job.job_id) free;
    })

pub finish_job-Inv : (q : Queue) (job : TransferJob) → Inv q → Inv (finish_job q job)
unfolding finish_job
finish_job-Inv q job i = record {
  capped = omega (arith, i, length-remove q.active job.job_id);
  roomy = i.roomy;
  pending_distinct = i.pending_distinct;
  active_distinct = Distinct-remove q.active job.job_id i.active_distinct;
  known = λ k. ground (
    arith,
    i.known k,
    contains-remove q.active job.job_id k,
    lookup-insert job.job_id k job q.jobs,
  );
}

pub requeue_job-Inv :
    (q : Queue) (job : TransferJob)
    → Inv q
    → contains q.active job.job_id ≡ true
    → Inv (requeue_job q job)
unfolding requeue_job contains
requeue_job-Inv q job i h = record {
  capped = omega (arith, i, length-remove q.active job.job_id);
  roomy = i.roomy;
  pending_distinct =
      Distinct-snoc q.pending job.job_id i.pending_distinct (ground (arith, i.known job.job_id));
  active_distinct = Distinct-remove q.active job.job_id i.active_distinct;
  known = λ k. ground (
    arith,
    i.known k,
    i.known job.job_id,
    text_eq_iff job.job_id k,
    contains-append q.pending (job.job_id ∷ []) k,
    contains-remove q.active job.job_id k,
    lookup-insert job.job_id k job q.jobs,
  );
}

pub cancel_token-Inv : (q : Queue) (k : Text) → Inv q → Inv (cancel_token q k)
unfolding cancel_token
cancel_token-Inv q k i = record {
  capped = ground arith;
  roomy = ground arith;
  pending_distinct = ground arith;
  active_distinct = ground arith;
  known =
      λ j. ground (arith, i.known j, i.known k, text_eq_iff k j, lookup-insert k j true q.tokens);
}
