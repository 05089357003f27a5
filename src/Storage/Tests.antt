-- ===== src/Storage/Tests.antt =====
-- The storage provider in memory on one object of three bytes.
use televault.Manifest.Types.{StorageReference}
use televault.Storage.Error.{IoError}
use televault.Prelude.Parsing.{eq_ignore_ascii_case}
use televault.Prelude.Int.{pos, negsuc}
use televault.Storage.Types.{UploadRequest, UploadResult}
use televault.Storage.Mock.{
  read_all, accept_upload, new_reference, new_object, upload_result, upload_mock, download_mock,
  verify_mock, delete_mock,
}
use televault.Storage.Objects.{MockStorageProvider, new_mock, reference_key, store}
use televault.Storage.Mock.RoundTrip.{download_of, verification_of, download_mock-upload_mock}
use televault.Prelude.{
  ℕ, ◌≡◌, refl, true, false, some, List, [], ◌∷◌, ◌++◌, arith, length, Text, text, decimal, Result,
  ok, ◌>>=◌,
}

-- A stand-in for SHA-256.
abbrev digest : List ℕ → Text
digest bytes = text "h" ++ decimal (length bytes)

abbrev three_bytes : UploadRequest
three_bytes = record {
  file_id = text "f1";
  chunk_id = text "c1";
  chunk_index = 0;
  total_chunks = 1;
  expected_size_bytes = 3;
  expected_sha256 = some (text "H3");
  resumable = false;
}

abbrev two_reads : List (Result IoError (List ℕ))
two_reads = ok (1 ∷ 2 ∷ []) ∷ ok (3 ∷ []) ∷ ok [] ∷ []

abbrev its_reference : StorageReference
its_reference = new_reference (negsuc 1001234567889) (pos 1000)

abbrev its_result : UploadResult
its_result = upload_result digest its_reference (1 ∷ 2 ∷ 3 ∷ [])

abbrev with_three : MockStorageProvider
with_three =
    store (text "-1001234567890:1000") (new_object digest three_bytes (1 ∷ 2 ∷ 3 ∷ []))
      (record new_mock { next_message_id = pos 1001 })

three_bytes_uploaded :
    upload_mock digest three_bytes two_reads new_mock ≡ ok (its_result, with_three)
unfolding upload_mock accept_upload read_all reference_key eq_ignore_ascii_case decimal
three_bytes_uploaded = refl

three_bytes_read : read_all two_reads ≡ ok (1 ∷ 2 ∷ 3 ∷ [])
unfolding read_all
three_bytes_read = refl

download_mock-upload_mock_example :
    (download_mock digest (download_of three_bytes its_result) with_three
      ≡ (ok (record { bytes_downloaded = 3; verified_sha256 = some (text "h3") }), 1 ∷ 2 ∷ 3 ∷ []))
    × (verify_mock (verification_of its_result) with_three ≡ ok true)
    × ((delete_mock (record { storage_reference = its_reference }) with_three
          >>= (λ d. verify_mock (verification_of its_result) d.1))
        ≡ ok false)
unfolding decimal
download_mock-upload_mock_example =
    download_mock-upload_mock digest three_bytes two_reads new_mock with_three its_result
      (1 ∷ 2 ∷ 3 ∷ []) (omega arith) refl refl three_bytes_read three_bytes_uploaded
