-- ===== src/Transfer/Queue/Cancel.antt =====
-- Cancelling a job keeps the queue in order, and takes the job out of it for good
-- (crates/televault-transfer/src/queue.rs).
use televault.Prelude.{Option, none, some, Text, arith}
use televault.Transfer.Job.{TransferJob}
use televault.Prelude.Keyed.{lookup, remove, lookup-insert, contains-remove, Distinct-remove}
use televault.Transfer.Queue.{Queue, cancel, cancel_found, try_cancel, cancel_job}
use televault.Transfer.Queue.Invariant.{Inv, cancel_token-Inv}

cancel_found-Inv :
    (q : Queue) (k : Text) (found : Option TransferJob) → Inv q → Inv (cancel_found q k found)
cancel_found-Inv q k none i = i
cancel_found-Inv q k (some job) i = record {
  capped = i.capped;
  roomy = i.roomy;
  pending_distinct = i.pending_distinct;
  active_distinct = i.active_distinct;
  known = λ j. ground (arith, i.known j, lookup-insert k j (try_cancel job) q.jobs);
}

cancel_job-Inv : (q : Queue) (k : Text) → Inv q → Inv (cancel_job q k)
unfolding cancel_job
cancel_job-Inv q k i = cancel_found-Inv q k (lookup k q.jobs) i

removed-Inv : (q : Queue) (k : Text) → Inv q → Inv (record q { pending = remove k q.pending })
removed-Inv q k i = record {
  capped = i.capped;
  roomy = i.roomy;
  pending_distinct = Distinct-remove q.pending k i.pending_distinct;
  active_distinct = i.active_distinct;
  known = λ j. ground (arith, i.known j, contains-remove q.pending k j);
}

pub cancel-Inv : (q : Queue) (k : Text) → Inv q → Inv (cancel q k)
unfolding cancel
cancel-Inv q k i = removed-Inv _ k (cancel_job-Inv _ k (cancel_token-Inv q k i))
