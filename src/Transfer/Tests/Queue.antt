-- ===== src/Transfer/Tests/Queue.antt =====
-- The queue on concrete inputs: two jobs are submitted, handed out, cancelled.
use televault.Transfer.Queue.Steps.{submitting, acquiring, finishing, requeueing, here, next}
use televault.Transfer.Queue.Sound.{Sound}
use televault.Prelude.{
  ◌≤◌, ◌<◌, ◌≡◌, refl, ◌≢◌, ◌⊎◌, true, false, none, some, [], ◌∷◌, is_some, length, text, text_eq,
  ok,
}
use televault.Transfer.State.{transition_to}
use televault.Prelude.Keyed.{lookup, insert, remove, add, contains}
use televault.Transfer.Job.{TransferJob, transition}
use televault.Transfer.Queue.{
  Queue, new_queue, submit, cancel_token, cancel_job, cancel, acquire_round, acquire_loop,
  acquire_next_job, finish_job, requeue_job,
}
use televault.Transfer.Queue.Invariant.{Inv}
use televault.Transfer.Queue.Fifo.{acquire_next_job-IsFirst, Outcome}
use televault.Transfer.Queue.Steps.{
  Anyone, Held, Reach, Reach-Inv, Reach-Sound, Exclusive, acquire_next_job-Exclusive,
  cancel_never_acquired, submitting, here, next,
}
use televault.Transfer.Samples.{job_1, job_2}

abbrev one_waits : Queue
one_waits = record {
  pending = text "job-1" ∷ [];
  jobs = (text "job-1", job_1) ∷ [];
  active = [];
  tokens = (text "job-1", false) ∷ [];
  max_concurrency = 2;
}

abbrev two_wait : Queue
two_wait = record {
  pending = text "job-1" ∷ text "job-2" ∷ [];
  jobs = (text "job-1", job_1) ∷ (text "job-2", job_2) ∷ [];
  active = [];
  tokens = (text "job-1", false) ∷ (text "job-2", false) ∷ [];
  max_concurrency = 2;
}

submits_1 : submit (new_queue 2) job_1 ≡ ok (text "job-1", one_waits)
unfolding submit new_queue lookup insert
submits_1 = refl

submits_2 : submit one_waits job_2 ≡ ok (text "job-2", two_wait)
unfolding submit lookup insert text_eq
submits_2 = refl

submitted_twice : (Back : Queue → TransferJob → Type 0) → Reach Back (new_queue 2) two_wait
submitted_twice Back =
    next (next here (submitting job_1 (text "job-1") one_waits submits_1))
      (submitting job_2 (text "job-2") two_wait submits_2)

Reach-Inv_example : Inv two_wait
Reach-Inv_example = Reach-Inv 2 two_wait (submitted_twice Held)

acquires_1 : (acquire_next_job two_wait).0 ≡ some (job_1, text "job-1")
unfolding acquire_next_job acquire_loop acquire_round lookup text_eq
acquires_1 = refl

acquire_next_job-Exclusive_example :
    Exclusive two_wait job_1 (text "job-1") (acquire_next_job two_wait).1
acquire_next_job-Exclusive_example =
    acquire_next_job-Exclusive 2 two_wait job_1 (text "job-1") (submitted_twice Held) acquires_1

acquire_next_job-IsFirst_example :
    ((2 ≤ length two_wait.active) × (acquire_next_job two_wait ≡ (none, two_wait)))
    ⊎ ((length two_wait.active < 2) × Outcome two_wait two_wait.pending (acquire_next_job two_wait))
acquire_next_job-IsFirst_example = acquire_next_job-IsFirst two_wait

-- With the first job cancelled, the second is handed out.
acquires_2 : (acquire_next_job (cancel two_wait (text "job-1"))).0 ≡ some (job_2, text "job-2")
unfolding acquire_next_job acquire_loop acquire_round cancel cancel_token cancel_job lookup insert
    remove text_eq transition transition_to
acquires_2 = refl

-- The first job is handed out, finished, cancelled and requeued: the second is handed out next.
abbrev first_gone : Queue
first_gone = finish_job (acquire_next_job two_wait).1 job_1

abbrev requeued : Queue
requeued = requeue_job (cancel first_gone (text "job-1")) job_1

reaches_requeued : Reach Anyone (cancel first_gone (text "job-1")) requeued
reaches_requeued = next here (requeueing job_1 tt)

reaches_gone : Reach Anyone (new_queue 2) first_gone
reaches_gone = next (next (submitted_twice Anyone) acquiring) (finishing job_1)

knows_1 : is_some (lookup (text "job-1") first_gone.tokens) ≡ true
unfolding lookup text_eq acquire_next_job acquire_loop acquire_round finish_job
knows_1 = refl

acquires_other : (acquire_next_job requeued).0 ≡ some (job_2, text "job-2")
unfolding acquire_next_job acquire_loop acquire_round cancel cancel_token cancel_job lookup insert
    remove text_eq transition transition_to finish_job requeue_job add contains
acquires_other = refl

cancel_never_acquired_example : text "job-2" ≢ text "job-1"
cancel_never_acquired_example =
    cancel_never_acquired 2 first_gone requeued (text "job-1") job_2 (text "job-2") reaches_gone
      knows_1 reaches_requeued acquires_other

-- A job that waits and is requeued waits twice, and is handed out twice.
abbrev twice : Queue
twice = requeue_job one_waits job_1

Reach-Sound_example : Sound (acquire_next_job twice).1
Reach-Sound_example = Reach-Sound 2 (acquire_next_job twice).1 (
    next
      (next (next here (submitting job_1 (text "job-1") one_waits submits_1)) (requeueing job_1 tt))
      acquiring)

handed_out_twice :
    ((acquire_next_job twice).0 ≡ some (job_1, text "job-1"))
    × ((acquire_next_job (acquire_next_job twice).1).0 ≡ some (job_1, text "job-1"))
unfolding acquire_next_job acquire_loop acquire_round lookup insert remove text_eq requeue_job add
    contains
handed_out_twice = (refl, refl)
