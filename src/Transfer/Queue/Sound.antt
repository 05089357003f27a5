-- ===== src/Transfer/Queue/Sound.antt =====
-- What holds of the queue whatever its callers do, also where they requeue a job that they do not hold
-- (crates/televault-transfer/src/queue.rs).
use televault.Transfer.Queue.{
  try_cancel, cancel_found, Queue, new_queue, submit, cancel_token, cancel_job, cancel,
  acquire_next_job, finish_job, requeue_job,
}
use televault.Transfer.Queue.Invariant.{submit-eq-ok}
use televault.Transfer.Queue.Fifo.{acquire_next_job-IsFirst}
use televault.Prelude.Keyed.{
  lookup, insert, lookup-insert, contains, add, remove, Distinct, contains-remove, contains-add,
  Distinct-remove, Distinct-add, length-remove, length-add,
}
use televault.Transfer.Job.{TransferJob}
use televault.Prelude.{
  ℕ, ◌≤◌, ◌<◌, ◌≡◌, sym, ap, subst, ◌⊎◌, inl, inr, true, false, Option, none, some, List, [], ◌∷◌,
  ◌++◌, arith, is_some, length, Text, text_eq_iff, ok,
}

pub record IsSound (q : Queue) (k : Text) : Type 0 where
  pub active_tokened : (contains q.active k ≡ false) ⊎ (is_some (lookup k q.tokens) ≡ true)
  pub tokened_registered :
      (is_some (lookup k q.tokens) ≡ false) ⊎ (is_some (lookup k q.jobs) ≡ true)

pub record Sound (q : Queue) : Type 0 where
  pub capped : length q.active ≤ q.max_concurrency
  pub roomy : 0 < q.max_concurrency
  pub active_distinct : Distinct q.active
  pub sound : (k : Text) → IsSound q k

pub new_queue-Sound : (n : ℕ) → Sound (new_queue n)
unfolding new_queue contains lookup
new_queue-Sound n = record {
  capped = omega arith;
  roomy = omega arith;
  active_distinct = tt;
  sound = λ k. ground arith;
}

pub submit-Sound :
    (q : Queue) (job : TransferJob) (k : Text) (q' : Queue)
    → Sound q
    → submit q job ≡ ok (k, q')
    → Sound q'
submit-Sound q job k q' i h =
    let (free, _, e) = submit-eq-ok q job h in
    subst Sound (sym e) (record {
      capped = i.capped;
      roomy = i.roomy;
      active_distinct = i.active_distinct;
      sound = λ j. ground (
        arith,
        i.sound j,
        text_eq_iff job.job_id j,
        lookup-insert job.job_id j false q.tokens,
        lookup-insert job.job_id j job q.jobs,
      );
    })

-- A job is handed back, and may wait again.
handed_back-Sound :
    (q : Queue) (job : TransferJob) (pending : List Text)
    → Sound q
    → Sound (record q {
      active = remove job.job_id q.active;
      jobs = insert job.job_id job q.jobs;
      pending = pending;
    })
handed_back-Sound q job pending i = record {
  capped = omega (arith, i, length-remove q.active job.job_id);
  roomy = i.roomy;
  active_distinct = Distinct-remove q.active job.job_id i.active_distinct;
  sound = λ k. ground (
    arith,
    i.sound k,
    contains-remove q.active job.job_id k,
    lookup-insert job.job_id k job q.jobs,
  );
}

pub finish_job-Sound : (q : Queue) (job : TransferJob) → Sound q → Sound (finish_job q job)
unfolding finish_job
finish_job-Sound q job i = handed_back-Sound q job q.pending i

pub requeue_job-Sound : (q : Queue) (job : TransferJob) → Sound q → Sound (requeue_job q job)
unfolding requeue_job
requeue_job-Sound q job i = handed_back-Sound q job (q.pending ++ job.job_id ∷ []) i

pub cancel_token-Sound : (q : Queue) (k : Text) → Sound q → Sound (cancel_token q k)
unfolding cancel_token
cancel_token-Sound q k i = record {
  capped = ground arith;
  roomy = ground arith;
  active_distinct = ground arith;
  sound =
      λ j. ground (arith, i.sound j, i.sound k, text_eq_iff k j, lookup-insert k j true q.tokens);
}

cancel_found-Sound :
    (q : Queue) (k : Text) (found : Option TransferJob) → Sound q → Sound (cancel_found q k found)
cancel_found-Sound q k none i = i
cancel_found-Sound q k (some job) i = record {
  capped = i.capped;
  roomy = i.roomy;
  active_distinct = i.active_distinct;
  sound = λ j. ground (arith, i.sound j, lookup-insert k j (try_cancel job) q.jobs);
}

abbrev waiting : List Text → Queue → Queue
waiting pending q = record q { pending = pending }

waiting-Sound : (q : Queue) (pending : List Text) → Sound q → Sound (waiting pending q)
waiting-Sound q pending i = record {
  capped = i.capped;
  roomy = i.roomy;
  active_distinct = i.active_distinct;
  sound = λ k. record {
    active_tokened = (i.sound k).active_tokened;
    tokened_registered = (i.sound k).tokened_registered;
  };
}

pub cancel-Sound : (q : Queue) (k : Text) → Sound q → Sound (cancel q k)
unfolding cancel cancel_job
cancel-Sound q k i =
    let t = cancel_token q k in
    waiting-Sound (cancel_found t k (lookup k t.jobs)) _
      (cancel_found-Sound t k (lookup k t.jobs) (cancel_token-Sound q k i))

taken-Sound :
    (q : Queue) (k : Text) (rest : List Text)
    → Sound q
    → length q.active < q.max_concurrency
    → lookup k q.tokens ≡ some false
    → Sound (record q { pending = rest; active = add k q.active })
taken-Sound q k rest i room live = record {
  capped = omega (arith, length-add q.active k);
  roomy = i.roomy;
  active_distinct = Distinct-add q.active k i.active_distinct;
  sound = λ j. ground (arith, i.sound j, text_eq_iff k j, contains-add q.active k j);
}

pub acquire_next_job-Sound : (q : Queue) → Sound q → Sound (acquire_next_job q).1
acquire_next_job-Sound q i = elim (acquire_next_job-IsFirst q) [
  | inl (full, e) ↦ subst Sound (ap (λ p. p.1) (sym e)) i
  | inr (room, inl (e, all)) ↦ subst Sound (ap (λ p. p.1) (sym e)) (waiting-Sound q [] i)
  | inr (room, inr f) ↦
      subst Sound (ap (λ p. p.1) (sym f.handed_out)) (taken-Sound q f.key f.rest i room f.live)
]
