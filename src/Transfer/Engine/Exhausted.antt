-- ===== src/Transfer/Engine/Exhausted.antt =====
-- The retry loop when every round fails, and when it succeeds (crates/televault-transfer/src/engine.rs).
use televault.Prelude.{
  ℕ, zero, suc, ◌+◌, ◌-◌, ◌<◌, ◌^◌, Bool, true, false, ◌&&◌, ◌≡◌, Option, none, some, Result, ok,
  err, arith, ap, ◌∙◌, refl, length, if◌then◌else◌, [], ◌∷◌, length-append,
}
use native.Mathlib.Nat.{mod-eq_of_lt}
use televault.Manifest.Types.{StorageReference}
use televault.Storage.Error.{StorageError}
use televault.Storage.Types.{UploadRequest}
use televault.Transfer.Error.{TransferError, is_retryable, storage}
use televault.Transfer.State.{retrying}
use televault.Transfer.Retry.{
  RetryPolicy, Float, can_retry, calculate_backoff, can_retry_lt, can_retry_ge,
}
use televault.Transfer.Worker.Phases.{can_start}
use televault.Transfer.Worker.Upload.{execute_upload_retries}
use televault.Transfer.Engine.{
  Engine, Round, upload_stream, execute_staged_upload, rest_after, after_upload,
}

-- Every round of the loop meets a retryable failure of the provider, and nobody cancels.
pub record AlwaysFails (world : ℕ → Round) : Type 0 where
  pub error : ℕ → StorageError
  pub not_before : (n : ℕ) → (world n).cancelled_before ≡ false
  pub opens : (n : ℕ) → (world n).open_error ≡ none
  pub not_at_start : (n : ℕ) → (world n).seen.at_start ≡ false
  pub not_at_failure : (n : ℕ) → (world n).seen.at_failure ≡ false
  pub fails : (n : ℕ) (q : UploadRequest) → ((world n).provider.upload q).result ≡ err (error n)
  pub retryable : (n : ℕ) → is_retryable (storage (error n)) ≡ true

module _ {A : Type 0} (x y : A) (b c : Bool) where
  if_retry_no : c ≡ false → (if b && c then x else y) ≡ y
  if_retry_no h = ground arith

  if_retry_yes : b ≡ true → c ≡ true → (if b && c then x else y) ≡ x
  if_retry_yes h k = rw (h, k)

module _ {F64 : Type 0} (policy : RetryPolicy F64) (callback : Bool) (float : Float F64)
    (cleanup : Result StorageError (Unit {0})) (world : ℕ → Round) where
  abbrev loop : ℕ → ℕ → Engine → Option (Result TransferError StorageReference × Engine)
  loop = execute_staged_upload policy callback float cleanup world

  abbrev attempt : ℕ → Engine → Result TransferError StorageReference × Engine
  attempt n s = upload_stream policy callback (world n).provider (world n).seen s

  abbrev later : ℕ → Engine → Engine
  later n s = rest_after policy callback float cleanup world (attempt n s).1

  after_upload_of_err :
      (p : Result TransferError StorageReference × Engine) (e : TransferError)
      (again : Option (Result TransferError StorageReference × Engine))
      → p.0 ≡ err e
      → after_upload policy callback float cleanup world p again ≡ (
          if is_retryable e && can_retry policy p.1.run.job.retry_count
          then again
          else some (err e, p.1))
  unfolding after_upload
  after_upload_of_err (ok reference, s) e again h = cc
  after_upload_of_err (err y, s) e again h = cc

  round_lem :
      (fuel n : ℕ) (s : Engine) (e : TransferError)
      → (world n).cancelled_before ≡ false
      → (world n).open_error ≡ none
      → (attempt n s).0 ≡ err e
      → loop (suc fuel) n s ≡ (
          if is_retryable e && can_retry policy (attempt n s).1.run.job.retry_count
          then loop fuel (suc n) (later n s)
          else some (err e, (attempt n s).1))
  unfolding execute_staged_upload
  round_lem fuel n s e c o h = rw (c, o) (after_upload_of_err (attempt n s) e _ h)

  module _ (always : AlwaysFails world) (word : policy.max_retries < 2 ^ 32) where
    attempt_fails :
        (n : ℕ) (s : Engine)
        → can_start s.run.job.state ≡ true
        → s.run.job.retry_count < policy.max_retries
        → ((attempt n s).0 ≡ err (storage (always.error n)))
          × ((attempt n s).1.run.job.state ≡ retrying)
          × ((attempt n s).1.run.job.retry_count ≡ s.run.job.retry_count + 1)
          × ((attempt n s).1.slept ≡ s.slept)
    unfolding upload_stream
    attempt_fails n s h k =
        let (x, state, count) =
          execute_upload_retries policy callback (world n).provider (world n).seen s.run
            (always.error n) h (always.not_at_start n) (always.not_at_failure n) (always.fails n _)
            (always.retryable n) (can_retry_lt policy s.run.job.retry_count k) in
        let small : s.run.job.retry_count + 1 < 2 ^ 32 = omega arith in
        (x, state, count ∙ mod-eq_of_lt small, refl)

    -- What is left when the loop gives up after `k` more retries.
    record GivenUp (k n : ℕ) (s : Engine)
        (result : Option (Result TransferError StorageReference × Engine)) : Type 0 where
      last : Engine
      returned : result ≡ some (err (storage (always.error (n + k))), last)
      hangs : last.run.job.state ≡ retrying
      count : last.run.job.retry_count ≡ policy.max_retries
      waits : length last.slept ≡ length s.slept + k

    gives_up :
        (k fuel n : ℕ) (s : Engine)
        → k < fuel
        → can_start s.run.job.state ≡ true
        → s.run.job.retry_count + suc k ≡ policy.max_retries
        → GivenUp k n s (loop fuel n s)
    gives_up k zero n s f h c = absurd (omega arith)
    gives_up zero (suc fuel) n s f h c =
        let e = storage (always.error n) in
        let (x, state, count, slept) = attempt_fails n s h (omega arith) in
        let full = can_retry_ge policy (attempt n s).1.run.job.retry_count (omega arith) in
        let eq = round_lem fuel n s e (always.not_before n) (always.opens n) x in
        record {
          last = (attempt n s).1;
          returned =
              eq
              ∙ if_retry_no _ _ (is_retryable e)
                  (can_retry policy (attempt n s).1.run.job.retry_count) full
              ∙ ap (λ m. some (err (storage (always.error m)), (attempt n s).1)) (omega arith);
          hangs = state;
          count = omega arith;
          waits = ap length slept ∙ omega arith;
        }
    gives_up (suc k) (suc fuel) n s f h c =
        let e = storage (always.error n) in
        let (x, state, count, slept) = attempt_fails n s h (omega arith) in
        let room = can_retry_lt policy (attempt n s).1.run.job.retry_count (omega arith) in
        let eq = round_lem fuel n s e (always.not_before n) (always.opens n) x in
        let rest =
          gives_up k fuel (suc n) (later n s) (omega arith) (ap can_start state) (omega arith) in
        record {
          last = rest.last;
          returned =
              eq
              ∙ if_retry_yes _ _ (is_retryable e)
                  (can_retry policy (attempt n s).1.run.job.retry_count) (always.retryable n) room
              ∙ rest.returned
              ∙ ap (λ m. some (err (storage (always.error m)), rest.last)) (omega arith);
          hangs = rest.hangs;
          count = rest.count;
          waits = omega (
            arith,
            rest.waits,
            ap length slept,
            length-append {0} (attempt n s).1.slept
                (calculate_backoff float policy ((attempt n s).1.run.job.retry_count - 1) ∷ []),
          );
        }

    -- Where every round fails with a retryable error, nobody cancels, the policy has at least one
    -- retry and fewer than 2^32, and the job can start and has no retry counted: the loop returns the
    -- error of the `max_retries`-th round, after `max_retries - 1` waits, and leaves the job
    -- `retrying` with all its retries counted, so that the last of them is never made.
    pub execute_staged_upload_exhausted :
        (s : Engine) (retries : ℕ)
        → policy.max_retries ≡ suc retries
        → can_start s.run.job.state ≡ true
        → s.run.job.retry_count ≡ 0
        → s.slept ≡ []
        → (last : Engine) × (execute_staged_upload policy callback float cleanup world
              (policy.max_retries + 2)
              0
              s
            ≡ some (err (storage (always.error retries)), last))
          × (last.run.job.state ≡ retrying)
          × (last.run.job.retry_count ≡ policy.max_retries)
          × (length last.slept ≡ retries)
    execute_staged_upload_exhausted s retries m h c w =
        let g = gives_up retries (policy.max_retries + 2) 0 s (omega arith) h (omega arith) in
        (
          g.last,
          g.returned ∙ ap (λ n. some (err (storage (always.error n)), g.last)) (omega arith),
          g.hangs,
          g.count,
          omega (arith, g.waits, ap length w),
        )
