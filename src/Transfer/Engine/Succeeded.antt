-- ===== src/Transfer/Engine/Succeeded.antt =====
-- The retry loop when it succeeds (crates/televault-transfer/src/engine.rs).
use televault.Prelude.{
  ◌≤◌, ◌<◌, ◌+◌, false, none, refl, sym, ◌∙◌, ◌⊎◌, ℕ, zero, suc, Bool, ◌≡◌, inl, inr, Option, some,
  Result, ok, err, Bool-cases, Option-cases, ap, arith, subst,
}
use televault.Manifest.Types.{StorageReference}
use televault.Storage.Error.{StorageError}
use televault.Transfer.Error.{TransferError}
use televault.Transfer.Retry.{RetryPolicy, Float}
use televault.Transfer.Job.{TransferJob}
use televault.Transfer.Worker.{upload_request}
use televault.Transfer.Worker.Steady.{Asks, execute_upload-Steady}
use televault.Transfer.Worker.Upload.{Uploaded, execute_upload-Uploaded}
use televault.Transfer.Engine.{
  Engine, Round, upload_stream, execute_staged_upload, rest_after, after_upload,
}

module _ {F64 : Type 0} (policy : RetryPolicy F64) (callback : Bool) (float : Float F64)
    (cleanup : Result StorageError (Unit {0})) (world : ℕ → Round) where
  abbrev loop : ℕ → ℕ → Engine → Option (Result TransferError StorageReference × Engine)
  loop = execute_staged_upload policy callback float cleanup world

  after_upload_ok :
      (p : Result TransferError StorageReference × Engine)
      (again : Option (Result TransferError StorageReference × Engine))
      (reference : StorageReference) (s : Engine)
      → after_upload policy callback float cleanup world p again ≡ some (ok reference, s)
      → (p ≡ (ok reference, s)) ⊎ (again ≡ some (ok reference, s))
  unfolding after_upload
  after_upload_ok (ok r, t) again reference s h = ground arith
  after_upload_ok (err e, t) again reference s h = ground arith

  attempt_Uploaded :
      (n : ℕ) (s : Engine) (reference : StorageReference) (s' : Engine)
      → upload_stream policy callback (world n).provider (world n).seen s ≡ (ok reference, s')
      → Uploaded (world n).provider s.run.job reference s'.run.job
  unfolding upload_stream
  attempt_Uploaded n s reference s' h =
      subst (λ t. Uploaded (world n).provider s.run.job reference t.run.job) (ap (λ p. p.1) h)
        (execute_upload-Uploaded policy callback (world n).provider (world n).seen s.run reference
          (ap (λ p. p.0) h))

  -- One of the rounds `first`, .., `first + rounds - 1` went to the provider and stored what the job
  -- stands for: the round was not cancelled and its staging file opened, the provider took an upload
  -- with the request of the job and verified it, and the job ended completed with the reference and
  -- still stands for the same request.
  pub record StoredIn (first rounds : ℕ) (job : TransferJob) (reference : StorageReference)
      (after : TransferJob) : Type 0 where
    pub round : ℕ
    pub not_before : first ≤ round
    pub within : round < first + rounds
    pub not_cancelled : (world round).cancelled_before ≡ false
    pub opened : (world round).open_error ≡ none
    pub before : TransferJob
    pub same_request : upload_request before ≡ upload_request job
    pub uploaded : Uploaded (world round).provider before reference after
    pub kept_request : upload_request after ≡ upload_request job

  attempt_same :
      (n : ℕ) (s : Engine)
      → upload_request (upload_stream policy callback (world n).provider (world n).seen s).1.run.job
        ≡ upload_request s.run.job
  unfolding upload_stream Asks
  attempt_same n s = execute_upload-Steady policy callback (world n).provider (world n).seen s.run

  later :
      (n fuel : ℕ) (s next : Engine) (reference : StorageReference) (s' : Engine)
      → upload_request next.run.job ≡ upload_request s.run.job
      → StoredIn (suc n) fuel next.run.job reference s'.run.job
      → StoredIn n (suc fuel) s.run.job reference s'.run.job
  later n fuel s next reference s' same i = record {
    round = i.round;
    not_before = omega (arith, i.not_before);
    within = omega (arith, i.within);
    not_cancelled = i.not_cancelled;
    opened = i.opened;
    before = i.before;
    same_request = i.same_request ∙ same;
    uploaded = i.uploaded;
    kept_request = i.kept_request ∙ same;
  }

  -- A staged upload that returns a reference, in at most `fuel` rounds from round `n` on: in one of
  -- these rounds, which was not cancelled and whose staging file opened, the provider took an upload
  -- with the request of the caller's job and verified it, and it has left the job completed with
  -- that reference and its byte count, and still standing for the same request.
  pub execute_staged_upload-Uploaded :
      (fuel n : ℕ) (s : Engine) (reference : StorageReference) (s' : Engine)
      → execute_staged_upload policy callback float cleanup world fuel n s ≡ some (ok reference, s')
      → StoredIn n fuel s.run.job reference s'.run.job
  unfolding execute_staged_upload
  execute_staged_upload-Uploaded zero n s reference s' h = cc
  execute_staged_upload-Uploaded (suc fuel) n s reference s' h =
      elim (Bool-cases (world n).cancelled_before) [
        | inl c ↦ absurd (cc (rw c at h))
        | inr c ↦ elim (Option-cases (world n).open_error) [
          | inr (e, o) ↦ absurd (cc (rw (c, o) at h))
          | inl o ↦
              let result = upload_stream policy callback (world n).provider (world n).seen s in
              elim (after_upload_ok result _ reference s' (rw (c, o) at h)) [
                | inl done ↦ record {
                  round = n;
                  not_before = omega arith;
                  within = omega arith;
                  not_cancelled = c;
                  opened = o;
                  before = s.run.job;
                  same_request = refl;
                  uploaded = attempt_Uploaded n s reference s' done;
                  kept_request = ap (λ p. upload_request p.1.run.job) (sym done) ∙ attempt_same n s;
                }
                | inr again ↦
                    let next = rest_after policy callback float cleanup world result.1 in
                    later n fuel s next reference s' (attempt_same n s)
                      (execute_staged_upload-Uploaded fuel (suc n) next reference s' again)
              ]
        ]
      ]
