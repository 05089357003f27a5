-- ===== src/Transfer/Queue.antt =====
-- crates/televault-transfer/src/queue.rs: the transfer queue. Each operation holds the lock from
-- its beginning to its end, so operations of several threads are a sequence of these functions.
-- A poisoned lock (a thread panicked under it) is not modelled. The maps and sets keyed by a job's
-- identifier are association lists; a cancellation token is the flag that its clones share.
pub mod Invariant
pub mod Fifo
pub mod Acquire
pub mod Cancel
pub mod Sound
pub mod Steps
use televault.Prelude.{
  ℕ, Bool, true, false, Option, none, some, is_some, List, [], ◌∷◌, ◌++◌, map, length, leb, max,
  Text, text, Result, ok, err, if◌then◌else◌,
}
use televault.Transfer.Error.{TransferError, invalid_job}
use televault.Transfer.State.{TransferState, cancelled}
use televault.Transfer.Job.{TransferJob, transition}
use televault.Prelude.Keyed.{lookup, insert, add, remove}

-- `QueueInner`. A token is named by the identifier of the job that it was made for, and `tokens`
-- holds its flag.
pub record Queue : Type 0 where
  pub pending : List Text
  pub jobs : List (Text × TransferJob)
  pub active : List Text
  pub tokens : List (Text × Bool)
  pub max_concurrency : ℕ

-- `TransferQueue::new`.
unfoldable pub new_queue : ℕ → Queue
new_queue max_concurrency = record {
  pending = [];
  jobs = [];
  active = [];
  tokens = [];
  max_concurrency = max max_concurrency 1;
}

abbrev already_registered : Text → TransferError
already_registered k = invalid_job (text "Job '" ++ (k ++ text "' is already registered in queue"))

-- `TransferQueue::submit`: the name of the token that it returns, and the queue after it.
unfoldable pub submit : Queue → TransferJob → Result TransferError (Text × Queue)
submit q job =
    if is_some (lookup job.job_id q.jobs)
    then err (already_registered job.job_id)
    else ok (
      job.job_id,
      record q {
        pending = q.pending ++ job.job_id ∷ [];
        tokens = insert job.job_id false q.tokens;
        jobs = insert job.job_id job q.jobs;
      },
    )

-- `CancellationToken::cancel`, by whoever holds the token of job `k`.
unfoldable pub cancel_token : Queue → Text → Queue
cancel_token q k = elim (lookup k q.tokens) [
  | some flag ↦ record q { tokens = insert k true q.tokens }
  | none ↦ q
]

-- `let _ = job.transition(TransferState::Cancelled);`
abbrev try_cancel : TransferJob → TransferJob
try_cancel job = elim (transition job cancelled) [ ok job' ↦ job' | err e ↦ job ]

-- The body of `if let Some(job) = guard.jobs.get_mut(job_id)`.
abbrev cancel_found : Queue → Text → Option TransferJob → Queue
cancel_found q k none = q
cancel_found q k (some job) = record q { jobs = insert k (try_cancel job) q.jobs }

unfoldable pub cancel_job : Queue → Text → Queue
cancel_job q k = cancel_found q k (lookup k q.jobs)

-- `TransferQueue::cancel`.
unfoldable pub cancel : Queue → Text → Queue
unfolding cancel_token cancel_job
cancel q k = let q' = cancel_job (cancel_token q k) k in record q' { pending = remove k q'.pending }

-- `TransferQueue::get_job`.
unfoldable pub get_job : Queue → Text → Option TransferJob
get_job q k = lookup k q.jobs

-- `TransferQueue::pending_count` and `TransferQueue::active_count`.
unfoldable pub pending_count : Queue → ℕ
pending_count q = length q.pending

unfoldable pub active_count : Queue → ℕ
active_count q = length q.active

abbrev pub Acquired : Type 0
Acquired = Option (TransferJob × Text) × Queue

-- One round of the `while let` of `acquire_next_job`, with the flag of the token and the job of `k`;
-- `next` is what the further rounds come to.
unfoldable pub acquire_round :
    Queue → Text → List Text → Option Bool → Option TransferJob → Acquired → Acquired
acquire_round q k rest (some false) (some job) next =
    (some (job, k), record q { pending = rest; active = add k q.active })
acquire_round q k rest _ _ next = next

-- The `while let` of `acquire_next_job`, over what is left of `pending`.
unfoldable pub acquire_loop : Queue → List Text → Acquired
acquire_loop q [] = (none, record q { pending = [] })
acquire_loop q (k ∷ rest) =
    acquire_round q k rest (lookup k q.tokens) (lookup k q.jobs) (acquire_loop q rest)

-- `TransferQueue::acquire_next_job`: the job with its token, and the queue after it.
unfoldable pub acquire_next_job : Queue → Acquired
acquire_next_job q =
    if leb q.max_concurrency (length q.active) then (none, q) else acquire_loop q q.pending

-- `TransferQueue::finish_job`.
unfoldable pub finish_job : Queue → TransferJob → Queue
finish_job q job = record q {
  active = remove job.job_id q.active;
  jobs = insert job.job_id job q.jobs;
}

-- `TransferQueue::requeue_job`.
unfoldable pub requeue_job : Queue → TransferJob → Queue
requeue_job q job = record q {
  active = remove job.job_id q.active;
  jobs = insert job.job_id job q.jobs;
  pending = q.pending ++ job.job_id ∷ [];
}
