-- ===== src/Storage/Types.antt =====
-- crates/televault-storage/src/{types,provider}.rs: the requests and results of a storage provider.
use televault.Prelude.{ℕ, Bool, true, false, Option, List, Text, Result}
use televault.Manifest.Types.{StorageReference}
use televault.Storage.Error.{StorageError}

pub data StorageStatus : Type 0 where
  pending uploading uploaded verifying verified failed retrying deleted : StorageStatus

-- `StorageStatus::is_remotely_complete`.
unfoldable pub is_remotely_complete : StorageStatus → Bool
is_remotely_complete verified = true
is_remotely_complete _ = false

-- `StorageStatus::is_in_flight`.
unfoldable pub is_in_flight : StorageStatus → Bool
is_in_flight uploading = true
is_in_flight verifying = true
is_in_flight _ = false

pub record UploadRequest : Type 0 where
  pub file_id : Text
  pub chunk_id : Text
  pub chunk_index : ℕ
  pub total_chunks : ℕ
  pub expected_size_bytes : ℕ
  pub expected_sha256 : Option Text
  pub resumable : Bool

pub record UploadResult : Type 0 where
  pub storage_reference : StorageReference
  pub bytes_uploaded : ℕ
  pub verified_sha256 : Option Text
  pub remote_status : StorageStatus

pub record DownloadRequest : Type 0 where
  pub file_id : Text
  pub chunk_id : Text
  pub storage_reference : StorageReference
  pub expected_size_bytes : ℕ
  pub expected_sha256 : Option Text

pub record DownloadResult : Type 0 where
  pub bytes_downloaded : ℕ
  pub verified_sha256 : Option Text

pub record VerificationRequest : Type 0 where
  pub storage_reference : StorageReference
  pub expected_size_bytes : ℕ
  pub expected_sha256 : Option Text

pub record DeleteRequest : Type 0 where
  pub storage_reference : StorageReference

pub record RemoteObjectMetadata : Type 0 where
  pub remote_id : Text
  pub size_bytes : ℕ
  pub sha256_hash : Option Text
  pub storage_reference : StorageReference
  pub created_at : Option Text

-- How a provider answers one request with a stream: the successive counts of bytes that it took
-- from the reader, or handed to the writer, and the result.
pub record Answer (A : Type 0) : Type 0 where
  pub moved : List ℕ
  pub result : Result StorageError A

-- The answers of a `StorageProvider` during one execution of a transfer.
pub record StorageProvider : Type 0 where
  pub upload : UploadRequest → Answer UploadResult
  pub download : DownloadRequest → Answer DownloadResult
  pub verify : VerificationRequest → Result StorageError Bool
