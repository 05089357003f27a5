-- ===== src/Transfer/Worker/Steady.antt =====
-- The workers ask the provider about one chunk: what they do to a job leaves the request that it stands
-- for (crates/televault-transfer/src/worker.rs).
use televault.Transfer.State.{TransferState, transition_to}
use televault.Transfer.Job.{TransferJob, transition}
use televault.Transfer.Error.{
  TransferError, is_retryable, storage_text, verification_failed, storage,
}
use televault.Transfer.Effects.{
  Run, Action, and_then, ◌>>◌, pure, fail, get_job, modify, emit, when, move, move_quietly, lift,
}
use televault.Transfer.Retry.{RetryPolicy, can_retry}
use televault.Storage.Types.{UploadRequest, UploadResult, StorageProvider}
use televault.Storage.Error.{StorageError}
use televault.Transfer.Worker.{
  Observed, final_report, upload_request, verification_request, stop_if, retry_later, give_up,
  on_storage_error, or_fail, begin_upload, send, confirm, complete_upload, execute_upload,
}
use televault.Prelude.{
  ◌+◌, ◌%◌, ◌^◌, ◌≡◌, refl, ◌∙◌, inl, inr, Bool, not, ◌&&◌, some, [], ◌∷◌, arith, if_split, text,
  Result, ok, err, map_err, Result-cases,
}

-- After a statement, the job stands for a request.
unfoldable pub Asks : {A : Type 0} → UploadRequest → Result TransferError A × Run → Type 0
Asks u x = upload_request x.1.job ≡ u

asks :
    {A : Type 0} (u : UploadRequest) (x : Result TransferError A × Run)
    → upload_request x.1.job ≡ u
    → Asks u x
unfolding Asks
asks u x h = h

-- A statement that leaves the job's request as it was.
abbrev pub Steady : {A : Type 0} → Action A → Type 0
Steady m = (r : Run) → Asks (upload_request r.job) (m r)

then-Steady :
    {A B : Type 0} (u : UploadRequest) (f : A → Action B) (x : Result TransferError A × Run)
    → Asks u x
    → ((a : A) → Steady (f a))
    → Asks u (and_then f x)
unfolding Asks
then-Steady u f (ok a, r) h k = k a r ∙ h
then-Steady u f (err e, r) h k = h

when-Steady : (test : Bool) (body : Action (Unit {0})) → Steady body → Steady (when test body)
when-Steady test body h r =
    if_split (λ (m : Action (Unit {0})). Asks (upload_request r.job) (m r)) test (λ e. h r)
      (λ e. asks _ _ refl)

transition_same :
    (j : TransferJob) (next : TransferState) (j' : TransferJob)
    → transition j next ≡ ok j'
    → upload_request j' ≡ upload_request j
unfolding transition
transition_same j next j' h = elim (Result-cases (transition_to j.state next)) [
  | inl (s, e) ↦ ground (arith, rw e at h)
  | inr (x, e) ↦ absurd (cc (rw e at h))
]

move-Steady : (next : TransferState) → Steady (move next)
unfolding Asks
move-Steady next r = elim (Result-cases (transition r.job next)) [
  | inl (j, e) ↦ rw (move, e) (transition_same r.job next j e)
  | inr (x, e) ↦ rw (move, e) refl
]

move_quietly-Steady : (next : TransferState) → Steady (move_quietly next)
unfolding Asks
move_quietly-Steady next r = elim (Result-cases (transition r.job next)) [
  | inl (j, e) ↦ rw (move_quietly, e) (transition_same r.job next j e)
  | inr (x, e) ↦ rw (move_quietly, e) refl
]

stop_if-Steady : (c : Bool) → Steady (stop_if c)
stop_if-Steady c =
    when-Steady c (move_quietly TransferState.cancelled >> fail TransferError.cancelled) (λ r.
      then-Steady (upload_request r.job) (λ _. fail TransferError.cancelled)
        (move_quietly TransferState.cancelled r) (move_quietly-Steady TransferState.cancelled r)
        (λ a t. asks _ _ refl))

module _ {F64 : Type 0} (policy : RetryPolicy F64) where
  retry_later-Steady : (A : Type 0) (e : StorageError) → Steady {A = A} (retry_later e)
  retry_later-Steady A e r =
      then-Steady (upload_request r.job)
        (λ _.
          (modify (λ job. record job {
            retry_count = (job.retry_count + 1) % 2 ^ 32;
            error_message = some (storage_text e);
          })
            >> fail (storage e)))
        (move TransferState.retrying r) (move-Steady TransferState.retrying r)
        (λ a t. asks _ _ refl)

  give_up-Steady : (A : Type 0) (e : StorageError) → Steady {A = A} (give_up e)
  give_up-Steady A e r =
      then-Steady (upload_request r.job)
        (λ _.
          (modify (λ job. record job { error_message = some (storage_text e) })
            >> fail (storage e)))
        (move TransferState.failed r) (move-Steady TransferState.failed r) (λ a t. asks _ _ refl)

  on_storage_error-Steady :
      (A : Type 0) (cancel : Bool) (e : StorageError)
      → Steady {A = A} (on_storage_error policy cancel e)
  unfolding on_storage_error
  on_storage_error-Steady A cancel e r =
      then-Steady (upload_request r.job) _ (stop_if cancel r) (stop_if-Steady cancel r) (λ a t.
        if_split (λ (m : Action A). Asks (upload_request t.job) (m t))
          (is_retryable (storage e) && can_retry policy t.job.retry_count) {x = retry_later e}
          {y = give_up e} (λ h. retry_later-Steady A e t) (λ h. give_up-Steady A e t))

  or_fail-Steady :
      (A : Type 0) (cancel : Bool) (x : Result StorageError A) → Steady (or_fail policy cancel x)
  or_fail-Steady A cancel (ok a) r = asks _ _ refl
  or_fail-Steady A cancel (err e) r = on_storage_error-Steady A cancel e r

  send-Steady :
      (callback : Bool) (provider : StorageProvider) (cancel : Bool) (job : TransferJob)
      → Steady (send policy callback provider cancel job)
  unfolding send
  send-Steady callback provider cancel job r =
      or_fail-Steady UploadResult cancel (provider.upload (upload_request job)).result _

begin_upload-Steady : (cancel : Bool) → Steady (begin_upload cancel)
unfolding begin_upload
begin_upload-Steady cancel r =
    then-Steady (upload_request r.job) _ (stop_if cancel r) (stop_if-Steady cancel r) (λ a s.
      then-Steady (upload_request s.job) _ (move TransferState.preparing s)
        (move-Steady TransferState.preparing s)
        (λ b t.
          then-Steady (upload_request t.job) (λ _. get_job) (move TransferState.transferring t)
            (move-Steady TransferState.transferring t) (λ c v. asks _ _ refl)))

abbrev no_match : Action (Unit {0})
no_match = do
  modify (λ j. record j { error_message = some (text "Remote verification check returned false") })
  fail (verification_failed (text "Remote verification check returned false"))

confirm-Steady :
    (provider : StorageProvider) (cancel : Bool) (u : UploadResult)
    → Steady (confirm provider cancel u)
unfolding confirm
confirm-Steady provider cancel u r =
    then-Steady (upload_request r.job) _ (stop_if cancel r) (stop_if-Steady cancel r) (λ a s.
      then-Steady (upload_request s.job) _ (move TransferState.verifying s)
        (move-Steady TransferState.verifying s)
        (λ b t.
          then-Steady (upload_request t.job) _
            (lift (map_err storage (provider.verify (verification_request t.job u))) t)
            (asks _ _ refl)
            (λ verified. when-Steady (not verified) (move TransferState.failed >> no_match) (λ v.
              then-Steady (upload_request v.job) (λ _. no_match) (move TransferState.failed v)
                (move-Steady TransferState.failed v) (λ c w. asks _ _ refl)))))

complete_upload-Steady : (callback : Bool) (u : UploadResult) → Steady (complete_upload callback u)
unfolding complete_upload
complete_upload-Steady callback u r =
    then-Steady (upload_request r.job) _ (move TransferState.completed r)
      (move-Steady TransferState.completed r)
      (λ a s.
        let counted = record s {
          job = record s.job {
            storage_reference = some u.storage_reference;
            bytes_transferred = u.bytes_uploaded;
          };
        } in
        then-Steady (upload_request s.job) (λ _. pure u.storage_reference)
          (when callback (emit (final_report counted.job u.bytes_uploaded ∷ [])) counted)
          (when-Steady callback (emit (final_report counted.job u.bytes_uploaded ∷ []))
            (λ t. asks _ _ refl) counted)
          (λ b t. asks _ _ refl))

-- An upload, however it ends, leaves the request that its job stands for.
pub execute_upload-Steady :
    {F64 : Type 0} (policy : RetryPolicy F64) (callback : Bool) (provider : StorageProvider)
    (seen : Observed)
    → Steady (execute_upload policy callback provider seen)
unfolding execute_upload
execute_upload-Steady policy callback provider seen r =
    then-Steady (upload_request r.job) _ (begin_upload seen.at_start r)
      (begin_upload-Steady seen.at_start r)
      (λ job s.
        then-Steady (upload_request s.job) _ (send policy callback provider seen.at_failure job s)
          (send-Steady policy callback provider seen.at_failure job s)
          (λ u t.
            then-Steady (upload_request t.job) _ (confirm provider seen.at_end u t)
              (confirm-Steady provider seen.at_end u t) (λ c. complete_upload-Steady callback u)))
