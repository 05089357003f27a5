-- ===== src/Transfer/Worker/Download.antt =====
-- What one execution of a download leaves behind (crates/televault-transfer/src/worker.rs).
use televault.Prelude.{
  ℕ, ◌+◌, ◌<◌, ◌^◌, ◌%◌, Bool, true, false, ◌≡◌, ◌⊎◌, inl, inr, some, Result, ok, err, Result-cases,
  arith, ◌∙◌, ap, subst, refl, sym, Bool-cases, ◌++◌,
}
use televault.Manifest.Types.{StorageReference}
use televault.Storage.Error.{StorageError}
use televault.Storage.Types.{DownloadResult, StorageProvider}
use televault.Transfer.Error.{TransferError, is_retryable}
use televault.Transfer.State.{transferring, completed, failed, retrying, cancelled, transition_to}
use televault.Transfer.Retry.{RetryPolicy}
use televault.Transfer.Job.{TransferJob, transition}
use televault.Transfer.Effects.{Run, >>=-of_err, and_then, ◌>>=◌}
use televault.Transfer.Worker.{
  Observed, download_request, download_reports, on_storage_error, execute_download, receive,
  begin_download, complete_download,
}
use televault.Transfer.Worker.Phases.{
  can_start, at_state, AfterStorageError, on_storage_error_lem, on_storage_error-fails,
}

begin_download_starts :
    (r : Run) (s : StorageReference)
    → can_start r.job.state ≡ true
    → r.job.storage_reference ≡ some s
    → begin_download false r ≡ (ok ((at_state transferring r).job, s), at_state transferring r)
unfolding begin_download transition transition_to
begin_download_starts r s h k = ground arith

begin_download_cancelled :
    (r : Run)
    → can_start r.job.state ≡ true
    → begin_download true r ≡ (err TransferError.cancelled, at_state cancelled r)
unfolding begin_download transition transition_to
begin_download_cancelled r h = ground arith

-- The ways in which a download of a job from `s` can end.
abbrev pub Ends :
    {F64 : Type 0}
    → RetryPolicy F64
    → StorageProvider
    → TransferJob
    → StorageReference
    → Result TransferError ℕ × Run
    → Type 0
Ends policy provider before s (ok n, r) =
    (d : DownloadResult) × ((provider.download (download_request before s)).result ≡ ok d)
    × (d.bytes_downloaded ≡ n)
    × (r.job.state ≡ completed)
    × (r.job.bytes_transferred ≡ n)
Ends policy provider before s (err x, r) =
    ((x ≡ TransferError.cancelled)
      × (r.job.retry_count ≡ before.retry_count)
      × ((r.job.state ≡ cancelled) ⊎ (r.job.state ≡ transferring)))
    ⊎ ((is_retryable x ≡ true)
        × (before.retry_count < policy.max_retries)
        × (r.job.state ≡ retrying)
        × (r.job.retry_count ≡ (before.retry_count + 1) % 2 ^ 32))
    ⊎ ((r.job.state ≡ failed) × (r.job.retry_count ≡ before.retry_count))

complete_download_done :
    (callback : Bool) (d : DownloadResult) (r : Run)
    → r.job.state ≡ transferring
    → (r' : Run) × (complete_download callback false d r ≡ (ok d.bytes_downloaded, r'))
      × (r'.job.state ≡ completed)
      × (r'.job.bytes_transferred ≡ d.bytes_downloaded)
unfolding complete_download transition transition_to
complete_download_done callback d r h =
    ((complete_download callback false d r).1, ground arith, ground arith, ground arith)

complete_download_late :
    (callback : Bool) (d : DownloadResult) (r : Run)
    → complete_download callback true d r ≡ (err TransferError.cancelled, r)
unfolding complete_download
complete_download_late callback d r = refl

module _ {F64 : Type 0} (policy : RetryPolicy F64) (callback : Bool) (provider : StorageProvider)
    (seen : Observed) (j : TransferJob) (s : StorageReference) where
  complete_download-Ends :
      (r : Run) (d : DownloadResult)
      → (provider.download (download_request j s)).result ≡ ok d
      → r.job.state ≡ transferring
      → r.job.retry_count ≡ j.retry_count
      → Ends policy provider j s (complete_download callback seen.at_end d r)
  complete_download-Ends r d h sending count = elim (Bool-cases seen.at_end) [
    | inl c ↦
        subst (Ends policy provider j s)
          (sym (ap (λ b. complete_download callback b d r) c ∙ complete_download_late callback d r))
          (inl (refl, count, inr sending))
    | inr c ↦
        let (r', eq, finished, counted) = complete_download_done callback d r sending in
        subst (Ends policy provider j s) (sym (ap (λ b. complete_download callback b d r) c ∙ eq))
          (d, h, refl, finished, counted)
  ]

  storage_error_Ends :
      (r : Run) (e : StorageError) (x : TransferError) (r' : Run)
      → r.job.retry_count ≡ j.retry_count
      → AfterStorageError policy r e (x, r')
      → Ends policy provider j s (err x, r')
  storage_error_Ends r e x r' count (inl (c, a)) =
      inl (c, ap (λ t. t.job.retry_count) a ∙ count, inl (ap (λ t. t.job.state) a))
  storage_error_Ends r e x r' count (inr (inl (c, t, l, f, n))) =
      inr (inl (ap is_retryable c ∙ t, omega arith, f, omega arith))
  storage_error_Ends r e x r' count (inr (inr (c, t, f, n))) = inr (inr (f, n ∙ count))

  abbrev received : TransferJob → Run → Run
  received job r = record r {
    reports =
        r.reports
        ++ download_reports callback job (provider.download (download_request job s)).moved;
  }

  receive_ok :
      (cancel : Bool) (job : TransferJob) (r : Run) (d : DownloadResult)
      → (provider.download (download_request job s)).result ≡ ok d
      → receive policy callback provider cancel job s r ≡ (ok d, received job r)
  unfolding receive
  receive_ok cancel job r d h = rw h

  receive_err :
      (cancel : Bool) (job : TransferJob) (r : Run) (e : StorageError)
      → (provider.download (download_request job s)).result ≡ err e
      → receive policy callback provider cancel job s r
        ≡ on_storage_error policy cancel e (received job r)
  unfolding receive
  receive_err cancel job r e h = rw h

  receive-Ends :
      (r : Run) (job : TransferJob)
      → download_request job s ≡ download_request j s
      → r.job.state ≡ transferring
      → r.job.retry_count ≡ j.retry_count
      → Ends policy provider j s (
          (receive policy callback provider seen.at_failure job s
              >>= complete_download callback seen.at_end)
            r)
  receive-Ends r job same sending count =
      let cancel = seen.at_failure in
      let f = complete_download callback seen.at_end in
      let r' = received job r in
      elim (Result-cases (provider.download (download_request job s)).result) [
        | inl (d, h) ↦
            subst (Ends policy provider j s) (sym (ap (and_then f) (receive_ok cancel job r d h)))
              (complete_download-Ends r' d (rw same at h) sending count)
        | inr (e, h) ↦
            let eq = ap (and_then f) (receive_err cancel job r e h) in
            elim (Result-cases (on_storage_error policy {A = DownloadResult} cancel e r').0) [
              | inl (d, k) ↦ absurd (on_storage_error-fails policy r' cancel e d k)
              | inr (x, k) ↦
                  subst (Ends policy provider j s)
                    (sym (eq ∙ >>=-of_err (on_storage_error policy cancel e) f r' x k))
                    (storage_error_Ends r' e x _ count
                      (on_storage_error_lem policy r' cancel e x sending k))
            ]
      ]

module _ {F64 : Type 0} (policy : RetryPolicy F64) (callback : Bool) (provider : StorageProvider)
    (seen : Observed) (r : Run) (s : StorageReference) (start : can_start r.job.state ≡ true)
    (sourced : r.job.storage_reference ≡ some s) where
  abbrev rest : TransferJob × StorageReference → Run → Result TransferError ℕ × Run
  rest x =
      receive policy callback provider seen.at_failure x.0 x.1
      >>= complete_download callback seen.at_end

  abbrev begun : Run
  begun = at_state transferring r

  starts :
      seen.at_start ≡ false
      → execute_download policy callback provider seen r ≡ rest (begun.job, s) begun
  unfolding execute_download
  starts c =
      ap (and_then rest) (ap (λ b. begin_download b r) c ∙ begin_download_starts r s start sourced)

  -- A download of a job with a reference that is taken up ends in one of these ways: with the bytes
  -- of the provider's answer and the job completed; cancelled, where the job is `cancelled` or left
  -- `transferring`; with a retryable error, one retry counted and the job `retrying`; or failed.
  pub execute_download-Ends :
      Ends policy provider r.job s (execute_download policy callback provider seen r)
  unfolding execute_download
  execute_download-Ends = elim (Bool-cases seen.at_start) [
    | inl c ↦
        subst (Ends policy provider r.job s)
          (sym (
            ap (and_then rest) (ap (λ b. begin_download b r) c ∙ begin_download_cancelled r start)))
          (inl (refl, refl, inl refl))
    | inr c ↦
        subst (Ends policy provider r.job s) (sym (starts c))
          (receive-Ends policy callback provider seen r.job s begun begun.job refl refl refl)
  ]

  -- A download with a reference that is taken up, succeeds at the provider, and is cancelled after
  -- its last byte returns `Cancelled`, but leaves the job `transferring`.
  pub execute_download_cancelled_late :
      (d : DownloadResult)
      → seen.at_start ≡ false
      → seen.at_end ≡ true
      → (provider.download (download_request r.job s)).result ≡ ok d
      → ((execute_download policy callback provider seen r).0 ≡ err TransferError.cancelled)
        × ((execute_download policy callback provider seen r).1.job.state ≡ transferring)
  execute_download_cancelled_late d c late h =
      let got =
        receive_ok policy callback provider seen r.job s seen.at_failure begun.job begun d h in
      let end = received policy callback provider seen r.job s begun.job begun in
      let eq =
        starts c
        ∙ ap (and_then (complete_download callback seen.at_end)) got
        ∙ ap (λ b. complete_download callback b d end) late
        ∙ complete_download_late callback d end in
      (ap (λ p. p.0) eq, ap (λ p. p.1.job.state) eq)
