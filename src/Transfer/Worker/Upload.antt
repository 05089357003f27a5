-- ===== src/Transfer/Worker/Upload.antt =====
-- What one execution of an upload leaves behind (crates/televault-transfer/src/worker.rs).
use televault.Prelude.{
  false, ◌&&◌, ◌+◌, ◌<◌, ◌^◌, ◌%◌, Bool, true, ◌≡◌, ◌⊎◌, inl, inr, some, Result, ok, err,
  Result-cases, arith, ◌∙◌, ap, subst, refl, sym, Bool-cases,
}
use televault.Manifest.Types.{StorageReference}
use televault.Storage.Error.{StorageError}
use televault.Storage.Types.{UploadResult, StorageProvider}
use televault.Transfer.Error.{TransferError, is_retryable, storage}
use televault.Transfer.State.{transferring, verifying, completed, failed, retrying, cancelled}
use televault.Transfer.Retry.{RetryPolicy, can_retry}
use televault.Transfer.Job.{TransferJob}
use televault.Transfer.Effects.{Run, >>=-of_err, and_then, ◌>>=◌}
use televault.Transfer.Worker.{
  upload_rest, Observed, upload_request, verification_request, on_storage_error, execute_upload,
  send, begin_upload, confirm, complete_upload,
}
use televault.Transfer.Worker.Phases.{
  on_storage_error_retries, can_start, at_state, begin_upload_starts, begin_upload_cancelled,
  begin_upload-eq-ok, AfterStorageError, on_storage_error_lem, on_storage_error-fails, reported,
  send_ok, send_err, AfterConfirm, confirm-eq-ok, confirm_fails, complete_upload_lem,
}

-- What an upload that went through leaves behind.
pub record Uploaded (provider : StorageProvider) (before : TransferJob)
    (reference : StorageReference) (after : TransferJob) : Type 0 where
  pub answer : UploadResult
  pub stored : (provider.upload (upload_request before)).result ≡ ok answer
  pub returned : answer.storage_reference ≡ reference
  pub verified : provider.verify (verification_request before answer) ≡ ok true
  pub finished : after.state ≡ completed
  pub referenced : after.storage_reference ≡ some reference
  pub counted : after.bytes_transferred ≡ answer.bytes_uploaded

-- The ways in which an upload of a job can end.
abbrev pub Ends :
    {F64 : Type 0}
    → RetryPolicy F64
    → StorageProvider
    → TransferJob
    → Result TransferError StorageReference × Run
    → Type 0
Ends policy provider before (ok reference, r) = Uploaded provider before reference r.job
Ends policy provider before (err x, r) =
    ((x ≡ TransferError.cancelled)
      × (r.job.state ≡ cancelled)
      × (r.job.retry_count ≡ before.retry_count))
    ⊎ ((is_retryable x ≡ true)
        × (before.retry_count < policy.max_retries)
        × (r.job.state ≡ retrying)
        × (r.job.retry_count ≡ (before.retry_count + 1) % 2 ^ 32))
    ⊎ (((is_retryable x && can_retry policy before.retry_count) ≡ false)
        × (r.job.state ≡ failed)
        × (r.job.retry_count ≡ before.retry_count))
    ⊎ ((e : StorageError) × (u : UploadResult) × (provider.verify (verification_request before u)
          ≡ err e)
        × (x ≡ storage e)
        × (r.job.state ≡ verifying)
        × (r.job.retry_count ≡ before.retry_count))

module _ {F64 : Type 0} (policy : RetryPolicy F64) (callback : Bool) (provider : StorageProvider)
    (seen : Observed) (j : TransferJob) where
  completes :
      (r : Run) (u : UploadResult)
      → (provider.upload (upload_request j)).result ≡ ok u
      → provider.verify (verification_request j u) ≡ ok true
      → r.job.state ≡ verifying
      → Ends policy provider j (complete_upload callback u r)
  completes r u stored verified h =
      let (r', eq, finished, referenced, counted) = complete_upload_lem callback u r h in
      subst (Ends policy provider j) (sym eq) (record {
        answer = u;
        stored = stored;
        returned = refl;
        verified = verified;
        finished = finished;
        referenced = referenced;
        counted = counted;
      })

  confirm-Ends :
      (r : Run) (u : UploadResult) (x : TransferError)
      → verification_request r.job u ≡ verification_request j u
      → r.job.retry_count ≡ j.retry_count
      → AfterConfirm r
          (provider.verify (verification_request r.job u))
          (x, (confirm provider seen.at_end u r).1)
      → Ends policy provider j (err x, (confirm provider seen.at_end u r).1)
  confirm-Ends r u x same count (inl (c, e)) =
      inl (c, ap (λ s. s.job.state) e, ap (λ s. s.job.retry_count) e ∙ count)
  confirm-Ends r u x same count (inr (inl (e, v, s, a))) = inr (
      inr (
        inr (
          e,
          u,
          ap provider.verify (sym same) ∙ v,
          s,
          ap (λ t. t.job.state) a,
          ap (λ t. t.job.retry_count) a ∙ count,
        )))
  confirm-Ends r u x same count (inr (inr (v, s, c, n))) =
      inr (inr (inl (ap (λ b. b && can_retry policy j.retry_count) n, s, c ∙ count)))

  finish :
      (r : Run) (u : UploadResult)
      → (provider.upload (upload_request j)).result ≡ ok u
      → verification_request r.job u ≡ verification_request j u
      → r.job.state ≡ transferring
      → r.job.retry_count ≡ j.retry_count
      → Ends policy provider j
          ((confirm provider seen.at_end u >>= λ _. complete_upload callback u) r)
  finish r u stored same sending count =
      let f = λ (_ : Unit {0}). complete_upload callback u in
      let m = confirm provider seen.at_end u in
      elim (Result-cases (m r).0) [
        | inl (a, h) ↦
            let (v, eq) = confirm-eq-ok provider seen.at_end u r sending h in
            subst (Ends policy provider j) (sym (ap (and_then f) eq))
              (completes (at_state verifying r) u stored (rw same at v) refl)
        | inr (x, h) ↦
            subst (Ends policy provider j) (sym (>>=-of_err m f r x h))
              (confirm-Ends r u x same count (confirm_fails provider seen.at_end u r sending x h))
      ]

  storage_error_Ends :
      (r : Run) (e : StorageError) (x : TransferError) (r' : Run)
      → r.job.retry_count ≡ j.retry_count
      → AfterStorageError policy r e (x, r')
      → Ends policy provider j (err x, r')
  storage_error_Ends r e x r' count (inl (c, a)) =
      inl (c, ap (λ s. s.job.state) a, ap (λ s. s.job.retry_count) a ∙ count)
  storage_error_Ends r e x r' count (inr (inl (c, t, l, s, n))) =
      inr (inl (ap is_retryable c ∙ t, omega arith, s, omega arith))
  storage_error_Ends r e x r' count (inr (inr (c, t, s, n))) =
      inr (inr (inl (rw (c, ← count) t, s, n ∙ count)))

  transmit :
      (r : Run) (job : TransferJob)
      → upload_request job ≡ upload_request j
      → r.job.state ≡ transferring
      → r.job.retry_count ≡ j.retry_count
      → ((u : UploadResult) → verification_request r.job u ≡ verification_request j u)
      → Ends policy provider j (
          (send policy callback provider seen.at_failure job >>= λ u.
          confirm provider seen.at_end u >>= λ _. complete_upload callback u)
            r)
  transmit r job same sending count checks =
      let f =
        λ (u : UploadResult). confirm provider seen.at_end u >>= λ _. complete_upload callback u in
      let r' = reported policy callback provider seen.at_failure job r in
      elim (Result-cases (provider.upload (upload_request job)).result) [
        | inl (u, h) ↦
            subst (Ends policy provider j)
              (sym (ap (and_then f) (send_ok policy callback provider seen.at_failure job r u h)))
              (finish r' u (rw same at h) (checks u) sending count)
        | inr (e, h) ↦
            let eq =
              ap (and_then f) (send_err policy callback provider seen.at_failure job r e h) in
            elim (Result-cases
              (on_storage_error policy {A = UploadResult} seen.at_failure e r').0) [
                | inl (u, k) ↦ absurd (on_storage_error-fails policy r' seen.at_failure e u k)
                | inr (x, k) ↦
                    subst (Ends policy provider j)
                      (sym (eq ∙ >>=-of_err (on_storage_error policy seen.at_failure e) f r' x k))
                      (storage_error_Ends r' e x _ count
                        (on_storage_error_lem policy r' seen.at_failure e x sending k))
              ]
      ]

Ends-of_ok :
    {F64 : Type 0} (policy : RetryPolicy F64) (provider : StorageProvider) (j : TransferJob)
    (p : Result TransferError StorageReference × Run) (reference : StorageReference)
    → Ends policy provider j p
    → p.0 ≡ ok reference
    → Uploaded provider j reference p.1.job
Ends-of_ok policy provider j (ok reference', r) reference ends h =
    subst (λ x. Uploaded provider j x r.job) (cc) ends
Ends-of_ok policy provider j (err x, r) reference ends h = cc

module _ {F64 : Type 0} (policy : RetryPolicy F64) (callback : Bool) (provider : StorageProvider)
    (seen : Observed) where
  -- An upload that is taken up ends in one of these ways: stored, verified and completed with the
  -- provider's reference and byte count; cancelled; with a retryable error, one retry counted and
  -- the job `retrying`; failed; or with the error of the verification request itself, in which case
  -- the job is left `verifying`.
  pub execute_upload-Ends :
      (r : Run)
      → can_start r.job.state ≡ true
      → Ends policy provider r.job (execute_upload policy callback provider seen r)
  unfolding execute_upload
  execute_upload-Ends r start =
      let f = upload_rest policy callback provider seen in
      elim (Bool-cases seen.at_start) [
        | inl c ↦
            subst (Ends policy provider r.job)
              (sym
                (ap (and_then f) (ap (λ b. begin_upload b r) c ∙ begin_upload_cancelled r start)))
              (inl (refl, refl, refl))
        | inr c ↦
            subst (Ends policy provider r.job)
              (sym (ap (and_then f) (ap (λ b. begin_upload b r) c ∙ begin_upload_starts r start)))
              (transmit policy callback provider seen r.job (at_state transferring r)
                (at_state transferring r).job refl refl refl (λ u. refl))
      ]

  -- An upload that reports success was taken up, stored by the provider and verified there, and
  -- the job is completed with the provider's reference and byte count.
  pub execute_upload-Uploaded :
      (r : Run) (reference : StorageReference)
      → (execute_upload policy callback provider seen r).0 ≡ ok reference
      → Uploaded provider r.job reference (execute_upload policy callback provider seen r).1.job
  unfolding execute_upload
  execute_upload-Uploaded r reference h =
      let f = upload_rest policy callback provider seen in
      elim (Result-cases (begin_upload seen.at_start r).0) [
        | inl (job, k) ↦
            let started = (begin_upload-eq-ok r seen.at_start job k).1 in
            Ends-of_ok policy provider r.job (execute_upload policy callback provider seen r)
              reference (execute_upload-Ends r started) h
        | inr (x, k) ↦ cc
      ]

module _ {F64 : Type 0} (policy : RetryPolicy F64) (callback : Bool) (provider : StorageProvider)
    (seen : Observed) where
  -- Where an upload is taken up, a retryable failure of the provider, with a retry left and no
  -- cancellation, is returned, counts one retry and leaves the job `retrying`.
  pub execute_upload_retries :
      (r : Run) (e : StorageError)
      → can_start r.job.state ≡ true
      → seen.at_start ≡ false
      → seen.at_failure ≡ false
      → (provider.upload (upload_request r.job)).result ≡ err e
      → is_retryable (storage e) ≡ true
      → can_retry policy r.job.retry_count ≡ true
      → ((execute_upload policy callback provider seen r).0 ≡ err (storage e))
        × ((execute_upload policy callback provider seen r).1.job.state ≡ retrying)
        × ((execute_upload policy callback provider seen r).1.job.retry_count
            ≡ (r.job.retry_count + 1) % 2 ^ 32)
  unfolding execute_upload
  execute_upload_retries r e start a b fails t c =
      let begun = at_state transferring r in
      let f = upload_rest policy callback provider seen in
      let g =
        λ (u : UploadResult). confirm provider seen.at_end u >>= λ _. complete_upload callback u in
      let r' = reported policy callback provider seen.at_failure begun.job begun in
      let (x, s, n) = on_storage_error_retries policy {A = UploadResult} r' e refl t c in
      let eq =
        ap (and_then f) (ap (λ b. begin_upload b r) a ∙ begin_upload_starts r start)
        ∙ ap (and_then g)
            (send_err policy callback provider seen.at_failure begun.job begun e fails)
        ∙ ap (λ b. and_then g (on_storage_error policy b e r')) b
        ∙ >>=-of_err (on_storage_error policy false e) g r' (storage e) x in
      (ap (λ p. p.0) eq, ap (λ p. p.1.job.state) eq ∙ s, ap (λ p. p.1.job.retry_count) eq ∙ n)
