-- ===== src/Transfer/Queue/Fifo.antt =====
-- Which job `acquire_next_job` hands out (crates/televault-transfer/src/queue.rs).
use televault.Prelude.{
  Bool, ◌≤◌, ◌<◌, true, false, ◌≡◌, ◌≢◌, refl, ap, ◌⊎◌, inl, inr, Option, none, some, List, [], ◌∷◌,
  ◌++◌, length, leb, Text, arith, Bool-cases, All,
}
use televault.Transfer.Job.{TransferJob}
use televault.Prelude.Keyed.{lookup, add}
use televault.Transfer.Queue.{Queue, Acquired, acquire_round, acquire_loop, acquire_next_job}

-- A waiting identifier that the loop drops: its token is cancelled or missing, or its job is.
abbrev pub IsDropped : Queue → Text → Type 0
IsDropped q k = (lookup k q.tokens ≢ some false) ⊎ (lookup k q.jobs ≡ none)

-- The job handed out is the first waiting one that is not dropped; those before it are gone.
pub record IsFirst (q : Queue) (waiting : List Text) (result : Acquired) : Type 0 where
  pub job : TransferJob
  pub key : Text
  pub dropped : List Text
  pub rest : List Text
  pub split : waiting ≡ dropped ++ key ∷ rest
  pub all_dropped : All (IsDropped q) dropped
  pub live : lookup key q.tokens ≡ some false
  pub registered : lookup key q.jobs ≡ some job
  pub handed_out :
      result ≡ (some (job, key), record q { pending = rest; active = add key q.active })

IsFirst-skip :
    (q : Queue) (k : Text) (ps : List Text) (result : Acquired)
    → IsDropped q k
    → IsFirst q ps result
    → IsFirst q (k ∷ ps) result
IsFirst-skip q k ps result d f = record {
  job = f.job;
  key = f.key;
  dropped = k ∷ f.dropped;
  rest = f.rest;
  split = ap (◌∷◌ k) f.split;
  all_dropped = (d, f.all_dropped);
  live = f.live;
  registered = f.registered;
  handed_out = f.handed_out;
}

-- What a call can come to.
abbrev pub Outcome : Queue → List Text → Acquired → Type 0
Outcome q ps result =
    ((result ≡ (none, record q { pending = [] })) × All (IsDropped q) ps) ⊎ IsFirst q ps result

skip :
    (q : Queue) (k : Text) (ps : List Text) (result : Acquired)
    → IsDropped q k
    → Outcome q ps result
    → Outcome q (k ∷ ps) result
skip q k ps result d (inl (e, all)) = inl (e, (d, all))
skip q k ps result d (inr f) = inr (IsFirst-skip q k ps result d f)

acquire_round_lem :
    (q : Queue) (k : Text) (ps : List Text) (flag : Option Bool) (job : Option TransferJob)
    (next : Acquired)
    → lookup k q.tokens ≡ flag
    → lookup k q.jobs ≡ job
    → Outcome q ps next
    → Outcome q (k ∷ ps) (acquire_round q k ps flag job next)
unfolding acquire_round
acquire_round_lem q k ps (some false) (some job) next h n ih = inr (record {
  job = job;
  key = k;
  dropped = [];
  rest = ps;
  split = refl;
  all_dropped = tt;
  live = h;
  registered = n;
  handed_out = refl;
})
acquire_round_lem q k ps (some false) none next h n ih = skip q k ps next (inr n) ih
acquire_round_lem q k ps (some true) job next h n ih =
    skip q k ps next (inl (rw h (ground arith))) ih
acquire_round_lem q k ps none job next h n ih = skip q k ps next (inl (rw h (ground arith))) ih

pub acquire_loop_lem : (q : Queue) (ps : List Text) → Outcome q ps (acquire_loop q ps)
unfolding acquire_loop
acquire_loop_lem q [] = inl (refl, tt)
acquire_loop_lem q (k ∷ ps) = acquire_round_lem q k ps _ _ _ refl refl (acquire_loop_lem q ps)

-- With a free slot, the call hands out the first waiting job that is neither cancelled nor unknown,
-- or empties a queue that has none; with no free slot it changes nothing.
pub acquire_next_job-IsFirst :
    (q : Queue)
    → ((q.max_concurrency ≤ length q.active) × (acquire_next_job q ≡ (none, q)))
      ⊎ ((length q.active < q.max_concurrency) × Outcome q q.pending (acquire_next_job q))
unfolding acquire_next_job
acquire_next_job-IsFirst q = elim (Bool-cases (leb q.max_concurrency (length q.active))) [
  | inl full ↦ inl (ground arith, rw full)
  | inr free ↦ inr (ground arith, rw free (acquire_loop_lem q q.pending))
]
