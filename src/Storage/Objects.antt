-- ===== src/Storage/Objects.antt =====
-- crates/televault-storage/src/mock.rs: the objects of the provider in memory, and how they are put there
-- and corrupted. SHA-256 is a parameter.
use televault.Manifest.Types.{telegram, local_staging, pending}
use televault.Storage.Error.{invalid_reference, not_found}
use televault.Prelude.Keyed.{lookup, insert}
use televault.Prelude.Parsing.{signed_decimal}
use televault.Prelude.Int.{ℤ, pos, negsuc}
use televault.Storage.Error.{StorageError}
use televault.Manifest.Types.{StorageReference}
use televault.Prelude.{
  ℕ, ◌-◌, Bool, false, Option, none, some, List, [], ◌∷◌, ◌++◌, length, Text, text, Result, ok, err,
  ◌>>=◌,
}

pub data MockPayload : Type 0 where
  in_memory : List ℕ → MockPayload
  virtual_large : (fill_byte : ℕ) → MockPayload

pub record MockStoredObject : Type 0 where
  pub payload : MockPayload
  pub sha256_hex : Text
  pub size_bytes : ℕ
  pub created_at : Text

pub record MockStorageProvider : Type 0 where
  pub objects : List (Text × MockStoredObject)
  pub next_message_id : ℤ
  pub target_chat_id : ℤ
  pub fail_uploads : Bool
  pub fail_downloads : Bool
  pub fail_verifications : Bool

-- `MockStorageProvider::new`
abbrev pub new_mock : MockStorageProvider
new_mock = record {
  objects = [];
  next_message_id = pos 1000;
  target_chat_id = negsuc 1001234567889;
  fail_uploads = false;
  fail_downloads = false;
  fail_verifications = false;
}

abbrev pub set_fail_uploads : Bool → MockStorageProvider → MockStorageProvider
set_fail_uploads fail p = record p { fail_uploads = fail }

abbrev pub set_fail_downloads : Bool → MockStorageProvider → MockStorageProvider
set_fail_downloads fail p = record p { fail_downloads = fail }

abbrev pub set_fail_verifications : Bool → MockStorageProvider → MockStorageProvider
set_fail_verifications fail p = record p { fail_verifications = fail }

-- `stored_objects_count`
abbrev pub stored_objects_count : MockStorageProvider → ℕ
stored_objects_count p = length p.objects

-- `reference_key`
unfoldable pub reference_key : StorageReference → Result StorageError Text
reference_key (telegram chat_id message_id file_id) =
    ok (signed_decimal chat_id ++ (text ":" ++ signed_decimal message_id))
reference_key (local_staging relative_path) = ok (text "local:" ++ relative_path)
reference_key pending = err (invalid_reference (text "Cannot address a pending storage reference"))

abbrev pub mock_time : Text
mock_time = text "2026-10-07T12:00:00Z"

abbrev pub store : Text → MockStoredObject → MockStorageProvider → MockStorageProvider
store key o p = record p { objects = insert key o p.objects }

-- `insert_virtual_object`
unfoldable pub insert_virtual_object :
    StorageReference
    → ℕ
    → ℕ
    → Text
    → MockStorageProvider
    → Result StorageError (Unit {0} × MockStorageProvider)
insert_virtual_object reference size_bytes fill_byte sha256_hex p = do
  key ← reference_key reference
  ok (
    tt,
    store key
        (record {
          payload = virtual_large fill_byte;
          sha256_hex = sha256_hex;
          size_bytes = size_bytes;
          created_at = mock_time;
        })
        p,
  )

-- `insert_in_memory_object`
unfoldable pub insert_in_memory_object :
    (List ℕ → Text)
    → StorageReference
    → List ℕ
    → MockStorageProvider
    → Result StorageError (Text × MockStorageProvider)
insert_in_memory_object sha256 reference bytes p = do
  key ← reference_key reference
  ok (
    sha256 bytes,
    store key
        (record {
          payload = in_memory bytes;
          sha256_hex = sha256 bytes;
          size_bytes = length bytes;
          created_at = mock_time;
        })
        p,
  )

-- `b ^ 0xFF`
abbrev flip_bits : ℕ → ℕ
flip_bits b = 255 - b

abbrev corrupt_bytes : List ℕ → List ℕ
corrupt_bytes [] = 0xAA ∷ []
corrupt_bytes (b ∷ bs) = flip_bits b ∷ bs

unfoldable pub corrupted : (List ℕ → Text) → MockStoredObject → MockPayload → MockStoredObject
corrupted sha256 o (in_memory bytes) = record o {
  payload = in_memory (corrupt_bytes bytes);
  sha256_hex = sha256 (corrupt_bytes bytes);
}
corrupted sha256 o (virtual_large fill_byte) = record o {
  payload = virtual_large (flip_bits fill_byte);
  sha256_hex = text "corrupted_virtual_large_hash";
}

abbrev pub missing : {A : Type 0} → Text → Text → Result StorageError A
missing key end = err (not_found (text "Reference '" ++ (key ++ end)))

abbrev corrupt_at :
    (List ℕ → Text)
    → Text
    → Option MockStoredObject
    → MockStorageProvider
    → Result StorageError (Unit {0} × MockStorageProvider)
corrupt_at sha256 key none p = missing key (text "' not found")
corrupt_at sha256 key (some o) p = ok (tt, store key (corrupted sha256 o o.payload) p)

-- `corrupt_object`
unfoldable pub corrupt_object :
    (List ℕ → Text)
    → StorageReference
    → MockStorageProvider
    → Result StorageError (Unit {0} × MockStorageProvider)
corrupt_object sha256 reference p = do
  key ← reference_key reference
  corrupt_at sha256 key (lookup key p.objects) p
