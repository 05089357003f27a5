-- ===== src/Transfer/Queue/Steps.antt =====
-- The queue under all its callers: submitters, cancellers and workers, in any order
-- (crates/televault-transfer/src/queue.rs).
use televault.Transfer.Queue.Cancel.{cancel-Inv}
use televault.Prelude.{
  ℕ, ◌≤◌, ◌<◌, true, false, ◌≡◌, ◌≢◌, refl, sym, subst, ap, ◌∙◌, inl, inr, Option, none, some,
  is_some, length, Text, text_eq_iff, arith, ok,
}
use televault.Transfer.Queue.{
  Queue, new_queue, submit, cancel_token, cancel, cancel_job, cancel_found, acquire_next_job,
  finish_job, requeue_job,
}
use televault.Prelude.Keyed.{lookup, contains, lookup-insert}
use televault.Transfer.Job.{TransferJob}
use televault.Transfer.Queue.Invariant.{
  Inv, new_queue-Inv, submit-Inv, submit-eq-ok, finish_job-Inv, requeue_job-Inv, cancel_token-Inv,
}
use televault.Transfer.Queue.Fifo.{IsFirst, acquire_next_job-IsFirst}
use televault.Transfer.Queue.Acquire.{IsFirst-Inv, acquire_next_job-Inv}
use televault.Transfer.Queue.Cancel.{cancel-Inv}
use televault.Transfer.Queue.Sound.{
  Sound, new_queue-Sound, submit-Sound, cancel-Sound, cancel_token-Sound, acquire_next_job-Sound,
  finish_job-Sound, requeue_job-Sound,
}

-- Which jobs callers requeue: `requeue_job` itself takes any job.
abbrev pub Anyone : Queue → TransferJob → Type 0
Anyone q job = Unit

-- Those that are active, as a worker holds them.
abbrev pub Held : Queue → TransferJob → Type 0
Held q job = contains q.active job.job_id ≡ true

-- One operation, by callers that requeue only the jobs that `Back` allows.
pub data Step (Back : Queue → TransferJob → Type 0) (q : Queue) : Queue → Type 0 where
  submitting :
      (job : TransferJob) (k : Text) (q' : Queue) → submit q job ≡ ok (k, q') → Step Back q q'
  cancelling : (k : Text) → Step Back q (cancel q k)
  cancelling_token : (k : Text) → Step Back q (cancel_token q k)
  acquiring : Step Back q (acquire_next_job q).1
  finishing : (job : TransferJob) → Step Back q (finish_job q job)
  requeueing : (job : TransferJob) → Back q job → Step Back q (requeue_job q job)

pub data Reach (Back : Queue → TransferJob → Type 0) (q : Queue) : Queue → Type 0 where
  here : Reach Back q q
  next : {s t : Queue} → Reach Back q s → Step Back s t → Reach Back q t

Step-Inv : {q q' : Queue} → Step Held q q' → Inv q → Inv q'
Step-Inv {q} (submitting job k q' h) i = submit-Inv q job k q' i h
Step-Inv {q} (cancelling k) i = cancel-Inv q k i
Step-Inv {q} (cancelling_token k) i = cancel_token-Inv q k i
Step-Inv {q} acquiring i = acquire_next_job-Inv q i
Step-Inv {q} (finishing job) i = finish_job-Inv q job i
Step-Inv {q} (requeueing job h) i = requeue_job-Inv q job i h

Reach-Inv_from : {q q' : Queue} → Reach Held q q' → Inv q → Inv q'
Reach-Inv_from here i = i
Reach-Inv_from (next r s) i = Step-Inv s (Reach-Inv_from r i)

-- Where callers requeue a job only while it is active, whatever else they do, in any order: a queue
-- never has more active jobs than its bound (at least one), never has a job waiting twice or waiting
-- and active at once, and has a token and an entry for every job that waits or is active.
pub Reach-Inv : (n : ℕ) (q : Queue) → Reach Held (new_queue n) q → Inv q
Reach-Inv n q r = Reach-Inv_from r (new_queue-Inv n)

Step-Sound : {q q' : Queue} → Step Anyone q q' → Sound q → Sound q'
Step-Sound {q} (submitting job k q' h) i = submit-Sound q job k q' i h
Step-Sound {q} (cancelling k) i = cancel-Sound q k i
Step-Sound {q} (cancelling_token k) i = cancel_token-Sound q k i
Step-Sound {q} acquiring i = acquire_next_job-Sound q i
Step-Sound {q} (finishing job) i = finish_job-Sound q job i
Step-Sound {q} (requeueing job h) i = requeue_job-Sound q job i

Reach-Sound_from : {q q' : Queue} → Reach Anyone q q' → Sound q → Sound q'
Reach-Sound_from here i = i
Reach-Sound_from (next r s) i = Step-Sound s (Reach-Sound_from r i)

-- Whatever callers do, in any order, also where they requeue jobs that are not active or that the queue
-- does not know: a queue never has more active jobs than its bound (at least one), never has a job
-- active twice, and has a token and an entry for every job that is active, and an entry for every
-- token.
pub Reach-Sound : (n : ℕ) (q : Queue) → Reach Anyone (new_queue n) q → Sound q
Reach-Sound n q r = Reach-Sound_from r (new_queue-Sound n)

-- A job that was handed out, seen from the queues before and after.
pub record Exclusive (q : Queue) (job : TransferJob) (key : Text) (q' : Queue) : Type 0 where
  pub was_idle : contains q.active key ≡ false
  pub is_active : contains q'.active key ≡ true
  pub not_cancelled : lookup key q.tokens ≡ some false
  pub registered : lookup key q.jobs ≡ some job
  pub capped : length q'.active ≤ q'.max_concurrency

same_parts :
    {j j' : TransferJob} {k k' : Text}
    → ◌≡◌ {A = Option (TransferJob × Text)} (some (j, k)) (some (j', k'))
    → (j ≡ j') × (k ≡ k')
same_parts h = ground arith

IsFirst-Exclusive :
    (q : Queue) (job : TransferJob) (key : Text)
    → Inv q
    → length q.active < q.max_concurrency
    → (acquire_next_job q).0 ≡ some (job, key)
    → IsFirst q q.pending (acquire_next_job q)
    → Exclusive q job key (acquire_next_job q).1
IsFirst-Exclusive q job key i room h f =
    let (after, idle, busy) = IsFirst-Inv q (acquire_next_job q) i room f in
    let (jobs, keys) = same_parts (sym (ap (λ p. p.0) f.handed_out) ∙ h) in
    record {
      was_idle = subst (λ k. contains q.active k ≡ false) keys idle;
      is_active = subst (λ k. contains (acquire_next_job q).1.active k ≡ true) keys busy;
      not_cancelled = subst (λ k. lookup k q.tokens ≡ some false) keys f.live;
      registered = subst (λ k. lookup k q.jobs ≡ some job) keys (f.registered ∙ ap some jobs);
      capped = after.capped;
    }

-- In every queue that callers can bring about who requeue a job only while it is active, a job that is
-- handed out was not active, is active now, is the one registered under its identifier, was not
-- cancelled, and keeps within the bound: no two workers ever hold the same job.
pub acquire_next_job-Exclusive :
    (n : ℕ) (q : Queue) (job : TransferJob) (key : Text)
    → Reach Held (new_queue n) q
    → (acquire_next_job q).0 ≡ some (job, key)
    → Exclusive q job key (acquire_next_job q).1
acquire_next_job-Exclusive n q job key r h = elim (acquire_next_job-IsFirst q) [
  | inl (full, e) ↦ absurd (cc (h, ap (λ p. p.0) e))
  | inr (room, inl (e, all)) ↦ absurd (cc (h, ap (λ p. p.0) e))
  | inr (room, inr f) ↦ IsFirst-Exclusive q job key (Reach-Inv n q r) room h f
]

acquire_tokens : (q : Queue) → (acquire_next_job q).1.tokens ≡ q.tokens
acquire_tokens q = elim (acquire_next_job-IsFirst q) [
  | inl (full, e) ↦ ap (λ p. p.1.tokens) e
  | inr (room, inl (e, all)) ↦ ap (λ p. p.1.tokens) e
  | inr (room, inr f) ↦ ap (λ p. p.1.tokens) f.handed_out
]

abbrev IsCancelled : Text → Queue → Type 0
IsCancelled k q = lookup k q.tokens ≡ some true

cancel_token-IsCancelled :
    (q : Queue) (j k : Text) → IsCancelled k q → IsCancelled k (cancel_token q j)
unfolding cancel_token
cancel_token-IsCancelled q j k h = ground (arith, lookup-insert j k true q.tokens)

IsCancelled-token :
    (q : Queue) (k : Text) → is_some (lookup k q.tokens) ≡ true → IsCancelled k (cancel_token q k)
unfolding cancel_token
IsCancelled-token q k h = ground (arith, lookup-insert k k true q.tokens, text_eq_iff k k)

found_tokens :
    (q : Queue) (k : Text) (found : Option TransferJob) → (cancel_found q k found).tokens ≡ q.tokens
found_tokens q k none = refl
found_tokens q k (some job) = refl

cancel_tokens : (q : Queue) (k : Text) → (cancel q k).tokens ≡ (cancel_token q k).tokens
unfolding cancel cancel_job
cancel_tokens q k = found_tokens (cancel_token q k) k (lookup k (cancel_token q k).jobs)

handed_back_tokens :
    (q : Queue) (job : TransferJob) (k : Text)
    → IsCancelled k q
    → IsCancelled k (finish_job q job) × IsCancelled k (requeue_job q job)
unfolding finish_job requeue_job
handed_back_tokens q job k c = (c, c)

Step-IsCancelled :
    {q q' : Queue} (k : Text) → Step Anyone q q' → Sound q → IsCancelled k q → IsCancelled k q'
Step-IsCancelled {q} k (submitting job j q' h) i c =
    let (free, _, e) = submit-eq-ok q job h in
    subst (IsCancelled k) (sym e) (
      ground (
        arith,
        i.sound job.job_id,
        text_eq_iff job.job_id k,
        lookup-insert job.job_id k false q.tokens,
      ))
Step-IsCancelled {q} k (cancelling j) i c =
    ap (lookup k) (cancel_tokens q j) ∙ cancel_token-IsCancelled q j k c
Step-IsCancelled {q} k (cancelling_token j) i c = cancel_token-IsCancelled q j k c
Step-IsCancelled {q} k acquiring i c = ap (lookup k) (acquire_tokens q) ∙ c
Step-IsCancelled {q} k (finishing job) i c = (handed_back_tokens q job k c).0
Step-IsCancelled {q} k (requeueing job h) i c = (handed_back_tokens q job k c).1

Reach-IsCancelled :
    {q q' : Queue} (k : Text) → Reach Anyone q q' → Sound q → IsCancelled k q → IsCancelled k q'
Reach-IsCancelled k here i c = c
Reach-IsCancelled k (next r s) i c =
    Step-IsCancelled k s (Reach-Sound_from r i) (Reach-IsCancelled k r i c)

cancel-IsCancelled :
    (q : Queue) (k : Text) → is_some (lookup k q.tokens) ≡ true → IsCancelled k (cancel q k)
cancel-IsCancelled q k h = ap (lookup k) (cancel_tokens q k) ∙ IsCancelled-token q k h

-- A job that is handed out was not cancelled.
handed_out_live :
    (q : Queue) (job : TransferJob) (key : Text)
    → (acquire_next_job q).0 ≡ some (job, key)
    → lookup key q.tokens ≡ some false
handed_out_live q job key h = elim (acquire_next_job-IsFirst q) [
  | inl (full, e) ↦ absurd (cc (h, ap (λ p. p.0) e))
  | inr (room, inl (e, all)) ↦ absurd (cc (h, ap (λ p. p.0) e))
  | inr (room, inr f) ↦
      let (jobs, keys) = same_parts (sym (ap (λ p. p.0) f.handed_out) ∙ h) in
      subst (λ k. lookup k q.tokens ≡ some false) keys f.live
]

-- After `cancel` of a job that has a token, whatever callers do, also where they requeue jobs that are
-- not active, the job of that identifier is never handed out again.
pub cancel_never_acquired :
    (n : ℕ) (q q' : Queue) (k : Text) (job : TransferJob) (key : Text)
    → Reach Anyone (new_queue n) q
    → is_some (lookup k q.tokens) ≡ true
    → Reach Anyone (cancel q k) q'
    → (acquire_next_job q').0 ≡ some (job, key)
    → key ≢ k
cancel_never_acquired n q q' k job key before known after h e =
    let i = cancel-Sound q k (Reach-Sound n q before) in
    let gone = Reach-IsCancelled k after i (cancel-IsCancelled q k known) in
    cc (gone, handed_out_live q' job key h, e)
