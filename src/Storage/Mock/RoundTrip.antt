-- ===== src/Storage/Mock/RoundTrip.antt =====
-- crates/televault-storage/src/mock.rs: what an upload leaves for the later requests.
use televault.Storage.Error.{IoError}
use televault.Prelude.Keyed.{lookup, insert, lookup-insert, lookup-erase}
use televault.Prelude.Parsing.{eq_ignore_ascii_case_refl, signed_decimal}
use televault.Storage.Types.{UploadRequest, UploadResult, DownloadRequest, VerificationRequest}
use televault.Storage.Mock.{
  read_all, next_id, accept_upload, new_reference, new_object, upload_result, upload_mock, content,
  accept_download, download_mock, verify_mock, delete_mock,
}
use televault.Storage.Objects.{MockStoredObject, MockStorageProvider, reference_key, store}
use televault.Prelude.{
  the, ℕ, ◌*◌, ◌≤◌, ◌≡◌, refl, inl, inr, Bool, true, false, ◌&&◌, some, List, ◌++◌, arith, ltb,
  ◌==◌, length, Text, text, text_eq_refl, Result, ok, ◌>>=◌, Result-cases, the,
}

accept_upload-read_all :
    (sha256 : List ℕ → Text) (request : UploadRequest) (reads : List (Result IoError (List ℕ)))
    (fails : Bool) {bytes : List ℕ}
    → accept_upload sha256 request reads fails ≡ ok bytes
    → read_all reads ≡ ok bytes
unfolding accept_upload
accept_upload-read_all sha256 request reads fails h = elim (Result-cases (read_all reads)) [
  | inl (b, k) ↦ ground arith
  | inr (e, k) ↦ ground arith
]

upload_mock-ok :
    (sha256 : List ℕ → Text) (request : UploadRequest) (reads : List (Result IoError (List ℕ)))
    (p q : MockStorageProvider) (r : UploadResult) (bytes : List ℕ)
    → upload_mock sha256 request reads p ≡ ok (r, q)
    → read_all reads ≡ ok bytes
    → let reference = new_reference p.target_chat_id p.next_message_id in
      let key = signed_decimal p.target_chat_id ++ (text ":" ++ signed_decimal p.next_message_id) in
      (r ≡ upload_result sha256 reference bytes)
      × (q
          ≡ store key
              (new_object sha256 request bytes)
              (record p { next_message_id = next_id p.next_message_id }))
unfolding upload_mock reference_key
upload_mock-ok sha256 request reads p q r bytes h k =
    elim (Result-cases (accept_upload sha256 request reads p.fail_uploads)) [
      | inl (b, g) ↦
          let same = accept_upload-read_all sha256 request reads p.fail_uploads g in ground arith
      | inr (e, g) ↦ ground arith
    ]

abbrev pub download_of : UploadRequest → UploadResult → DownloadRequest
download_of request r = record {
  file_id = request.file_id;
  chunk_id = request.chunk_id;
  storage_reference = r.storage_reference;
  expected_size_bytes = r.bytes_uploaded;
  expected_sha256 = r.verified_sha256;
}

abbrev pub verification_of : UploadResult → VerificationRequest
verification_of r = record {
  storage_reference = r.storage_reference;
  expected_size_bytes = r.bytes_uploaded;
  expected_sha256 = r.verified_sha256;
}

lookup-store :
    (key : Text) (o : MockStoredObject) (m : List (Text × MockStoredObject))
    → lookup key (insert key o m) ≡ some o
lookup-store key o m = ground (arith, lookup-insert key key o m, text_eq_refl key)

-- An upload whose request expects at most 4 MiB and whose reader gives `bytes` up to its end, when the
-- provider accepts it and is set to fail neither downloads nor verifications: the download of the
-- returned reference, against the returned hash, gives exactly these bytes; the verification against
-- the returned size and hash says true; and once the reference is deleted, the verification says false.
pub download_mock-upload_mock :
    (sha256 : List ℕ → Text) (request : UploadRequest) (reads : List (Result IoError (List ℕ)))
    (p q : MockStorageProvider) (r : UploadResult) (bytes : List ℕ)
    → request.expected_size_bytes ≤ 4 * 1024 * 1024
    → p.fail_downloads ≡ false
    → p.fail_verifications ≡ false
    → read_all reads ≡ ok bytes
    → upload_mock sha256 request reads p ≡ ok (r, q)
    → (download_mock sha256 (download_of request r) q ≡ (
      ok (record { bytes_downloaded = length bytes; verified_sha256 = some (sha256 bytes) }),
      bytes,
    ))
      × (verify_mock (verification_of r) q ≡ ok true)
      × ((delete_mock (record { storage_reference = r.storage_reference }) q
            >>= (λ d. verify_mock (verification_of r) d.1))
          ≡ ok false)
unfolding download_mock verify_mock delete_mock reference_key accept_download content
download_mock-upload_mock sha256 request reads p q r bytes small d v k h =
    let made = upload_mock-ok sha256 request reads p q r bytes h k in
    let key = signed_decimal p.target_chat_id ++ (text ":" ++ signed_decimal p.next_message_id) in
    let o = new_object sha256 request bytes in
    rw
      (
        made.0,
        made.1,
        d,
        v,
        lookup-erase key key (insert key o p.objects),
        text_eq_refl key,
        lookup-store key o p.objects,
        the (ltb (4 * 1024 * 1024) request.expected_size_bytes ≡ false) (ground arith),
        eq_ignore_ascii_case_refl (sha256 bytes),
        the ((length bytes == length bytes) ≡ true) (ground arith),
        the ((ltb 0 (length bytes) && false) ≡ false) (ground arith),
      )
      (refl, refl, refl)
