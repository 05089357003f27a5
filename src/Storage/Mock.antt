-- ===== src/Storage/Mock.antt =====
-- crates/televault-storage/src/mock.rs: the operations of the storage provider in memory. A reader is
-- what its successive reads give, and a writer takes all the bytes.
pub mod RoundTrip
use televault.Storage.Objects.{
  in_memory, virtual_large, MockPayload, MockStoredObject, MockStorageProvider, new_mock,
  set_fail_uploads, set_fail_downloads, set_fail_verifications, stored_objects_count, reference_key,
  mock_time, store, insert_virtual_object, insert_in_memory_object, corrupted, missing,
  corrupt_object,
}
use televault.Manifest.Types.{telegram, local_staging, pending}
use televault.Storage.Types.{verified}
use televault.Storage.Error.{
  io, invalid_reference, upload_failed, download_failed, verification_failed, not_found,
}
use televault.Prelude.Keyed.{lookup, insert, erase}
use televault.Prelude.Parsing.{eq_ignore_ascii_case, signed_decimal}
use televault.Prelude.Int.{ℤ, pos, negsuc}
use televault.Storage.Error.{IoError, StorageError}
use televault.Storage.Types.{
  UploadRequest, UploadResult, DownloadRequest, DownloadResult, VerificationRequest, DeleteRequest,
  RemoteObjectMetadata,
}
use televault.Manifest.Types.{StorageReference}
use televault.Prelude.{
  zero, ℕ, zero, suc, ◌-◌, ◌*◌, Bool, true, false, not, ◌&&◌, Option, none, some, List, [], ◌∷◌,
  ◌++◌, ltb, ◌==◌, if◌then◌else◌, length, Text, text, decimal, Result, ok, err, ◌>>=◌, ◌>>◌, guard,
}

-- The loop that reads the stream: the bytes of the successive reads, up to an empty one.
unfoldable pub read_all : List (Result IoError (List ℕ)) → Result StorageError (List ℕ)
read_all [] = ok []
read_all (err e ∷ reads) = err (io e)
read_all (ok [] ∷ reads) = ok []
read_all (ok (b ∷ bs) ∷ reads) = do rest ← read_all reads; ok ((b ∷ bs) ++ rest)

abbrev pub hash_fits : Text → Option Text → Bool
hash_fits calculated none = true
hash_fits calculated (some expected) = eq_ignore_ascii_case calculated expected

abbrev first_byte : List ℕ → ℕ
first_byte [] = 0
first_byte (b ∷ bs) = b

-- `fetch_add(1)`, below the wrap at 2 ^ 63.
abbrev pub next_id : ℤ → ℤ
next_id (pos n) = pos (suc n)
next_id (negsuc zero) = pos 0
next_id (negsuc (suc n)) = negsuc n

abbrev or_none : Option Text → Text
or_none none = []
or_none (some t) = t

-- The checks of `upload`, up to the message's number: the bytes read.
unfoldable pub accept_upload :
    (List ℕ → Text)
    → UploadRequest
    → List (Result IoError (List ℕ))
    → Bool
    → Result StorageError (List ℕ)
accept_upload sha256 request reads fails = do
  guard (not fails) (upload_failed (text "Simulated mock upload failure") true)
  bytes ← read_all reads
  guard
      (not (ltb 0 request.expected_size_bytes && not (length bytes == request.expected_size_bytes)))
      (upload_failed
        (text "Streamed size mismatch: read "
          ++ (decimal (length bytes)
              ++ (text " bytes, expected "
                  ++ (decimal request.expected_size_bytes ++ text " bytes"))))
        false)
  guard (hash_fits (sha256 bytes) request.expected_sha256) (
      verification_failed (
        text "Upload SHA-256 mismatch: calculated '"
        ++ (sha256 bytes
            ++ (text "', expected '" ++ (or_none request.expected_sha256 ++ text "'")))))
  ok bytes

abbrev pub new_reference : ℤ → ℤ → StorageReference
new_reference chat_id msg_id =
    telegram chat_id msg_id (text "tg_mock_file_" ++ signed_decimal msg_id)

abbrev pub new_object : (List ℕ → Text) → UploadRequest → List ℕ → MockStoredObject
new_object sha256 request bytes = record {
  payload =
      if ltb (4 * 1024 * 1024) request.expected_size_bytes
      then virtual_large (first_byte bytes)
      else in_memory bytes;
  sha256_hex = sha256 bytes;
  size_bytes = length bytes;
  created_at = mock_time;
}

abbrev pub upload_result : (List ℕ → Text) → StorageReference → List ℕ → UploadResult
upload_result sha256 reference bytes = record {
  storage_reference = reference;
  bytes_uploaded = length bytes;
  verified_sha256 = some (sha256 bytes);
  remote_status = verified;
}

-- `upload`
unfoldable pub upload_mock :
    (List ℕ → Text)
    → UploadRequest
    → List (Result IoError (List ℕ))
    → MockStorageProvider
    → Result StorageError (UploadResult × MockStorageProvider)
upload_mock sha256 request reads p = do
  bytes ← accept_upload sha256 request reads p.fail_uploads
  let reference = new_reference p.target_chat_id p.next_message_id
  key ← reference_key reference
  ok (
    upload_result sha256 reference bytes,
    store key (new_object sha256 request bytes)
        (record p { next_message_id = next_id p.next_message_id }),
  )

unfoldable pub repeat_byte : ℕ → ℕ → List ℕ
repeat_byte zero b = []
repeat_byte (suc n) b = b ∷ repeat_byte n b

-- The bytes of an object, as they are written out.
unfoldable pub content : MockPayload → ℕ → List ℕ
content (in_memory bytes) size = bytes
content (virtual_large fill_byte) size = repeat_byte size fill_byte

abbrev pub present : Text → Option MockStoredObject → Result StorageError MockStoredObject
present key none = missing key (text "' not found in mock store")
present key (some o) = ok o

unfoldable pub accept_download :
    (List ℕ → Text) → DownloadRequest → List ℕ → Result StorageError DownloadResult
accept_download sha256 request bytes = do
  guard (hash_fits (sha256 bytes) request.expected_sha256) (
      verification_failed (
        text "Download SHA-256 mismatch: calculated '"
        ++ (sha256 bytes
            ++ (text "', expected '" ++ (or_none request.expected_sha256 ++ text "'")))))
  ok (record { bytes_downloaded = length bytes; verified_sha256 = some (sha256 bytes) })

-- The bytes are written before their hash is known.
abbrev pub download_object :
    (List ℕ → Text)
    → DownloadRequest
    → Text
    → Option MockStoredObject
    → Result StorageError DownloadResult × List ℕ
download_object sha256 request key none = (missing key (text "' not found in mock store"), [])
download_object sha256 request key (some o) =
    let bytes = content o.payload o.size_bytes in (accept_download sha256 request bytes, bytes)

abbrev download_at :
    (List ℕ → Text)
    → DownloadRequest
    → Result StorageError Text
    → MockStorageProvider
    → Result StorageError DownloadResult × List ℕ
download_at sha256 request (err e) p = (err e, [])
download_at sha256 request (ok key) p = download_object sha256 request key (lookup key p.objects)

-- `download`, to a writer that takes all the bytes: the result, and the bytes that were written.
unfoldable pub download_mock :
    (List ℕ → Text)
    → DownloadRequest
    → MockStorageProvider
    → Result StorageError DownloadResult × List ℕ
download_mock sha256 request p =
    if p.fail_downloads
    then (err (download_failed (text "Simulated mock download failure") true), [])
    else download_at sha256 request (reference_key request.storage_reference) p

abbrev pub verify_object : VerificationRequest → Option MockStoredObject → Bool
verify_object request none = false
verify_object request (some o) =
    not (ltb 0 request.expected_size_bytes && not (o.size_bytes == request.expected_size_bytes))
    && hash_fits o.sha256_hex request.expected_sha256

-- `verify`
unfoldable pub verify_mock : VerificationRequest → MockStorageProvider → Result StorageError Bool
verify_mock request p = if p.fail_verifications then ok false else (do
  key ← reference_key request.storage_reference
  ok (verify_object request (lookup key p.objects)))

-- `get_metadata`
unfoldable pub get_metadata :
    StorageReference → MockStorageProvider → Result StorageError RemoteObjectMetadata
get_metadata reference p = do
  key ← reference_key reference
  o ← present key (lookup key p.objects)
  ok (record {
    remote_id = key;
    size_bytes = o.size_bytes;
    sha256_hash = some o.sha256_hex;
    storage_reference = reference;
    created_at = some o.created_at;
  })

-- `delete`
unfoldable pub delete_mock :
    DeleteRequest → MockStorageProvider → Result StorageError (Unit {0} × MockStorageProvider)
delete_mock request p = do
  key ← reference_key request.storage_reference
  ok (tt, record p { objects = erase key p.objects })
