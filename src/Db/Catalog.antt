-- ===== src/Db/Catalog.antt =====
-- crates/televault-db/src/{models,error}.rs and migrations/: the tables of the catalogue, its errors, and
-- statements that read and change it. The tables of Telegram accounts, of transfer jobs and of the text
-- search are left out.
pub mod Laws
use televault.Core.Validation.{new_id}
use televault.Core.Error.{AppError, app_error_text}
use televault.Backup.ChangeDetector.{FileRecord, VersionRecord}
use televault.Retention.Policy.{RetentionPolicyRecord}
use televault.Core.Models.{BackupStatus}
use televault.Prelude.{
  ℕ, Bool, Option, none, some, List, [], ◌∷◌, ◌==◌, if◌then◌else◌, Text, Result, ok, err,
}

-- What SQLite refuses.
pub data SqlError : Type 0 where
  unique_failed : (columns : Text) → SqlError
  foreign_key_failed : SqlError
  conversion_failed : Text → SqlError

pub data DbError : Type 0 where
  connection migration : Text → DbError
  sql : SqlError → DbError
  serialization : Text → DbError
  manifest : Text → DbError
  constraint : Text → DbError
  not_found : (entity id : Text) → DbError
  invalid_data : Text → DbError
  transaction : Text → DbError
  lock_poisoned : Text → DbError

pub record ProfileRecord : Type 0 where
  pub profile_id : Text
  pub name : Text
  pub description : Option Text
  pub source_path : Text
  pub enabled : Bool
  pub created_at : Text
  pub updated_at : Text

pub record ManifestRecord : Type 0 where
  pub manifest_id : Text
  pub file_id : Text
  pub manifest_version : Text
  pub serialized_manifest : Text
  pub created_at : Text
  pub updated_at : Text

pub record ChunkRecord : Type 0 where
  pub chunk_id : Text
  pub file_id : Text
  pub manifest_id : Text
  pub chunk_index : ℕ
  pub plaintext_size : ℕ
  pub stored_size : ℕ
  pub integrity_hash : Text
  pub storage_reference : Text
  pub status : Text
  pub created_at : Text
  pub updated_at : Text

pub record SnapshotRecord : Type 0 where
  pub snapshot_id : Text
  pub profile_id : Text
  pub status : BackupStatus
  pub metadata : Option Text
  pub created_at : Text

-- A row of `snapshots`, where the status is a text.
pub record SnapshotRow : Type 0 where
  pub snapshot_id : Text
  pub profile_id : Text
  pub status : Text
  pub metadata : Option Text
  pub created_at : Text

pub record ScheduleRecord : Type 0 where
  pub schedule_id : Text
  pub profile_id : Text
  pub schedule_type : Text
  pub expression : Text
  pub timezone : Text
  pub enabled : Bool
  pub next_run_at : Option Text
  pub last_run_at : Option Text
  pub last_status : Option Text
  pub last_error_code : Option Text
  pub created_at : Text
  pub updated_at : Text

pub record ScheduleHistoryRecord : Type 0 where
  pub history_id : Text
  pub schedule_id : Text
  pub profile_id : Text
  pub started_at : Text
  pub completed_at : Option Text
  pub status : Text
  pub snapshot_id : Option Text
  pub files_processed : ℕ
  pub bytes_transferred : ℕ
  pub error_code : Option Text
  pub error_message : Option Text

pub record RetentionHistoryRecord : Type 0 where
  pub history_id : Text
  pub profile_id : Text
  pub executed_at : Text
  pub dry_run : Bool
  pub snapshots_evaluated : ℕ
  pub snapshots_kept : ℕ
  pub snapshots_pruned : ℕ
  pub pruned_snapshot_ids : Text
  pub decisions_summary : Text
  pub status : Text
  pub error_message : Option Text

pub record RepairHistoryRecord : Type 0 where
  pub repair_id : Text
  pub profile_id : Text
  pub snapshot_id : Option Text
  pub file_id : Text
  pub manifest_id : Text
  pub chunk_id : Text
  pub chunk_index : ℕ
  pub repair_type : Text
  pub finding_code : Text
  pub old_storage_reference : Text
  pub new_storage_reference : Text
  pub status : Text
  pub bytes_processed : ℕ
  pub duration_ms : ℕ
  pub error_message : Option Text
  pub repaired_at : Text

pub record Catalog : Type 0 where
  pub profiles : List ProfileRecord
  pub files : List FileRecord
  pub manifests : List ManifestRecord
  pub chunks : List ChunkRecord
  pub snapshots : List SnapshotRow
  pub versions : List VersionRecord
  pub schedules : List ScheduleRecord
  pub schedule_history : List ScheduleHistoryRecord
  pub retention_policies : List RetentionPolicyRecord
  pub retention_history : List RetentionHistoryRecord
  pub repair_history : List RepairHistoryRecord

-- Statements on a connection: the first error ends them.
abbrev pub Query : Type 0 → Type 0
Query A = Catalog → Result DbError (A × Catalog)

abbrev pub continue :
    {A B : Type 0} → Result DbError (A × Catalog) → (A → Query B) → Result DbError (B × Catalog)
continue (ok p) rest = rest p.0 p.1
continue (err e) rest = err e

infixl 5 ◌>>=◌ ◌>>◌
abbrev pub ◌>>=◌ : {A B : Type 0} → Query A → (A → Query B) → Query B
(step >>= rest) db = continue (step db) rest

abbrev pub ◌>>◌ : {B : Type 0} → Query (Unit {0}) → Query B → Query B
(step >> rest) db = continue (step db) (λ u. rest)

abbrev pub return : {A : Type 0} → A → Query A
return a db = ok (a, db)

abbrev pub fail : {A : Type 0} → DbError → Query A
fail e db = err e

-- A result that no statement gives.
abbrev pub given : {A : Type 0} → Result DbError A → Query A
given (ok a) db = ok (a, db)
given (err e) db = err e

-- `SELECT`s.
abbrev pub reads : {A : Type 0} → (Catalog → A) → Query A
reads f db = ok (f db, db)

-- `INSERT`, `UPDATE` and `DELETE`, once they are allowed.
abbrev pub writes : (Catalog → Catalog) → Query (Unit {0})
writes f db = ok (tt, f db)

-- What a statement requires of the tables.
abbrev pub requires : (Catalog → Bool) → DbError → Query (Unit {0})
requires test e db = if test db then ok (tt, db) else err e

-- `if affected == 0 { return Err(NotFound) }`
abbrev pub check_affected : Text → Text → ℕ → Query (Unit {0})
check_affected entity id n = if n == 0 then fail (not_found entity id) else return tt

-- `with_transaction`, and a single statement: an error leaves the tables as they were.
abbrev pub committed :
    {A : Type 0} → Catalog → Result DbError (A × Catalog) → Result DbError A × Catalog
committed db (ok p) = (ok p.0, p.1)
committed db (err e) = (err e, db)

unfoldable pub with_transaction : {A : Type 0} → Query A → Catalog → Result DbError A × Catalog
with_transaction f db = committed db (f db)

abbrev then_rows :
    {A : Type 0} → Result DbError A → Result DbError (List A) → Result DbError (List A)
then_rows (err e) rest = err e
then_rows (ok a) (err e) = err e
then_rows (ok a) (ok rows) = ok (a ∷ rows)

abbrev some_row : {A : Type 0} → Result DbError A → Result DbError (Option A)
some_row (ok a) = ok (some a)
some_row (err e) = err e

abbrev pub with_catalog : {A : Type 0} → Catalog → Result DbError A → Result DbError (A × Catalog)
with_catalog db (ok a) = ok (a, db)
with_catalog db (err e) = err e

-- Reading rows: the first that cannot be converted ends it.
unfoldable pub map_rows : {R A : Type 0} → (R → Result DbError A) → List R → Result DbError (List A)
map_rows f [] = ok []
map_rows f (r ∷ t) = then_rows (f r) (map_rows f t)

abbrev pub map_first :
    {R A : Type 0} → (R → Result DbError A) → Option R → Result DbError (Option A)
map_first f none = ok none
map_first f (some r) = some_row (f r)

abbrev pub query_rows :
    {R A : Type 0} → (R → Result DbError A) → (Catalog → List R) → Query (List A)
query_rows f rows db = with_catalog db (map_rows f (rows db))

-- `query_row(..).optional()`
abbrev pub query_row :
    {R A : Type 0} → (R → Result DbError A) → (Catalog → Option R) → Query (Option A)
query_row f row db = with_catalog db (map_first f (row db))

-- An identifier that is read back is checked again.
abbrev read_checked : Result AppError Text → Result DbError Text
read_checked (ok id) = ok id
read_checked (err e) = err (sql (conversion_failed (app_error_text e)))

abbrev pub read_id : Text → Text → Result DbError Text
read_id entity s = read_checked (new_id entity s)

abbrev pub read_optional_id : Text → Option Text → Result DbError (Option Text)
read_optional_id entity none = ok none
read_optional_id entity (some s) = some_row (read_id entity s)
