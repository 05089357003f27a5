-- ===== src/Retention/Engine.antt =====
-- crates/televault-backup/src/retention/engine.rs: the retention policy of a profile run against the
-- catalogue.
pub mod Reading
pub mod Run
use televault.Db.Catalog.{
  connection, migration, sql, serialization, manifest, constraint, not_found, invalid_data,
  transaction, lock_poisoned,
}
use televault.Retention.Policy.{profile_not_found, snapshot_protected, snapshot_not_found, database}
use televault.Retention.Types.{keep, prune}
use televault.Prelude.Keyed.{contains}
use televault.Retention.Policy.{
  RetentionPolicy, default_for_profile, RetentionError, validate_policy, RetentionPolicyRecord,
  to_db_record, from_db_record,
}
use televault.Retention.Types.{
  RetentionAction, RetentionCandidate, RetentionDecision, RetentionEvaluation, RetentionResult,
}
use televault.Retention.Evaluator.{evaluate}
use televault.Core.Models.{is_scanning, is_backing_up}
use televault.Db.Catalog.{
  SqlError, DbError, ProfileRecord, SnapshotRecord, RetentionHistoryRecord, Catalog, Query,
  with_transaction,
}
use televault.Db.Profiles.{get_profile}
use televault.Db.Snapshots.{
  list_snapshots_by_profile, count_versions_by_snapshot, record_retention_history, prune_snapshots,
}
use televault.Db.Retention.{save_retention_policy, get_retention_policy}
use televault.Prelude.{
  ℕ, ◌-◌, ◌/◌, ◌%◌, ◌^◌, Bool, true, false, ◌||◌, Option, none, some, List, [], ◌∷◌, ◌++◌, leb,
  if◌then◌else◌, length, Text, text, text_eq, Result, ok, err,
}

-- What the engine takes from elsewhere: the time, as an instant in nanoseconds and as a text, the
-- instants of texts, the identifiers of new entries, the JSON of serde, and how SQLite words its errors.
pub record Context : Type 0 where
  pub now : ℕ
  pub now_text : Text
  pub parse_time : Text → Option ℕ
  pub unique_id : Text
  pub ids_json : List Text → Text
  pub decisions_json : List RetentionDecision → Text
  pub sql_text : SqlError → Text

-- `Display for DbError`
unfoldable pub db_error_text : (SqlError → Text) → DbError → Text
db_error_text sql_text (connection s) = text "Database connection error: " ++ s
db_error_text sql_text (migration s) = text "Database migration error: " ++ s
db_error_text sql_text (sql e) = text "SQLite error: " ++ sql_text e
db_error_text sql_text (serialization s) = text "Database serialization error: " ++ s
db_error_text sql_text (manifest s) = text "Manifest error: " ++ s
db_error_text sql_text (constraint s) = text "Database constraint violation: " ++ s
db_error_text sql_text (not_found entity id) =
    text "Database entity '" ++ (entity ++ (text "' not found: " ++ id))
db_error_text sql_text (invalid_data s) = text "Invalid database data: " ++ s
db_error_text sql_text (transaction s) = text "Transaction error: " ++ s
db_error_text sql_text (lock_poisoned s) = text "Database lock poisoned: " ++ s

abbrev missing_entity : Text → Text → RetentionError → RetentionError
missing_entity entity id other =
    if text_eq entity (text "Snapshot")
    then snapshot_not_found id
    else if text_eq entity (text "Profile")
    then profile_not_found id
    else other

-- `From<DbError> for RetentionError`
unfoldable pub from_db_error : (SqlError → Text) → DbError → RetentionError
from_db_error sql_text (not_found entity id) =
    missing_entity entity id (database (db_error_text sql_text (not_found entity id)))
from_db_error sql_text e = database (db_error_text sql_text e)

-- The calls that an operation makes, one after the other: each commits what it changes.
abbrev pub Session : Type 0 → Type 0
Session A = Catalog → Result RetentionError A × Catalog

abbrev pub proceed :
    {A B : Type 0}
    → Result RetentionError A × Catalog
    → (A → Session B)
    → Result RetentionError B × Catalog
proceed (ok a, db) rest = rest a db
proceed (err e, db) rest = (err e, db)

infixl 5 ◌>>=◌ ◌>>◌
abbrev pub ◌>>=◌ : {A B : Type 0} → Session A → (A → Session B) → Session B
(step >>= rest) db = proceed (step db) rest

abbrev pub ◌>>◌ : {B : Type 0} → Session (Unit {0}) → Session B → Session B
(step >> rest) db = proceed (step db) (λ u. rest)

abbrev pub result : {A : Type 0} → Result RetentionError A → Session A
result r db = (r, db)

abbrev pub call_result :
    {A : Type 0}
    → (SqlError → Text)
    → Result DbError A × Catalog
    → Result RetentionError A × Catalog
call_result sql_text (ok a, db) = (ok a, db)
call_result sql_text (err e, db) = (err (from_db_error sql_text e), db)

-- `.map_err(RetentionError::from)?`
abbrev pub call : {A : Type 0} → Context → Query A → Session A
call ctx q db = call_result ctx.sql_text (with_transaction q db)

-- `let _ = ..`
abbrev pub ignore : {A : Type 0} → Query A → Session (Unit {0})
ignore q db = (ok tt, (with_transaction q db).1)

abbrev pub policy_or_default : Text → Option RetentionPolicyRecord → RetentionPolicy
policy_or_default profile_id none = default_for_profile profile_id
policy_or_default profile_id (some rec) = from_db_record rec

-- `RetentionEngine::get_retention_policy`
unfoldable pub get_policy : Context → Text → Session RetentionPolicy
get_policy ctx profile_id = do
  rec ← call ctx (get_retention_policy profile_id)
  result (ok (policy_or_default profile_id rec))

abbrev pub profile_required : Text → Option ProfileRecord → Session (Unit {0})
profile_required id none = result (err (profile_not_found id))
profile_required id (some p) = result (ok tt)

-- `RetentionEngine::save_retention_policy`
unfoldable pub save_policy : Context → RetentionPolicy → Session (Unit {0})
save_policy ctx policy = do
  result (validate_policy policy)
  profile ← call ctx (get_profile policy.profile_id)
  profile_required policy.profile_id profile
  call ctx (save_retention_policy (to_db_record policy ctx.now_text ctx.now_text))

-- `parse_snapshot_age_secs`
abbrev age_of : ℕ → Option ℕ → ℕ
age_of now none = 0
age_of now (some t) = if leb t now then (now - t) / 1000000000 else 0

unfoldable pub snapshot_age_secs : Context → Text → ℕ
snapshot_age_secs ctx created_at = age_of ctx.now (ctx.parse_time created_at)

unfoldable pub candidate : Context → List Text → SnapshotRecord → ℕ → RetentionCandidate
candidate ctx active snap version_count = record {
  snapshot_id = snap.snapshot_id;
  profile_id = snap.profile_id;
  created_at = snap.created_at;
  status = snap.status;
  version_count = version_count;
  is_active =
      contains active snap.snapshot_id || (is_scanning snap.status || is_backing_up snap.status);
  age_secs = snapshot_age_secs ctx snap.created_at;
}

-- The loop over the snapshots.
unfoldable pub candidates_of :
    Context → List Text → List SnapshotRecord → Session (List RetentionCandidate)
candidates_of ctx active [] = result (ok [])
candidates_of ctx active (snap ∷ snaps) = do
  version_count ← call ctx (count_versions_by_snapshot snap.snapshot_id)
  rest ← candidates_of ctx active snaps
  result (ok (candidate ctx active snap version_count ∷ rest))

abbrev pub effective_policy : Context → Text → Option RetentionPolicy → Session RetentionPolicy
effective_policy ctx profile_id none = get_policy ctx profile_id
effective_policy ctx profile_id (some p) = result (validate_policy p) >> result (ok p)

-- `RetentionEngine::evaluate_retention`
unfoldable pub evaluate_retention :
    Context → Text → Option RetentionPolicy → List Text → Session RetentionEvaluation
evaluate_retention ctx profile_id custom_policy active = do
  policy ← effective_policy ctx profile_id custom_policy
  snapshots ← call ctx (list_snapshots_by_profile profile_id)
  candidates ← candidates_of ctx active snapshots
  result (ok (evaluate profile_id policy candidates ctx.now_text))

abbrev pub is_prune : RetentionAction → Bool
is_prune keep = false
is_prune prune = true

unfoldable pub pruned_ids : List RetentionDecision → List Text
pruned_ids [] = []
pruned_ids (d ∷ ds) =
    let rest = pruned_ids ds in if is_prune d.action then d.snapshot_id ∷ rest else rest

abbrev pub map_ok : {A B : Type 0} → (A → B) → Result RetentionError A → Result RetentionError B
map_ok f (ok a) = ok (f a)
map_ok f (err e) = err e

-- The decisions to prune, each with the check that the snapshot is not active.
unfoldable pub snapshots_to_prune :
    List Text → List RetentionDecision → Result RetentionError (List Text)
snapshots_to_prune active [] = ok []
snapshots_to_prune active (d ∷ ds) =
    let rest = snapshots_to_prune active ds in
    if is_prune d.action
    then (if contains active d.snapshot_id
          || (is_scanning d.snapshot_status || is_backing_up d.snapshot_status)
        then err
            (snapshot_protected d.snapshot_id (text "Snapshot became active during evaluation"))
        else map_ok (λ (ids : List Text). d.snapshot_id ∷ ids) rest)
    else rest

abbrev as_u32 : ℕ → ℕ
as_u32 n = n % 2 ^ 32

abbrev pub history_of :
    Context
    → Text
    → Bool
    → RetentionEvaluation
    → (prefix : Text) → ℕ
    → Text
    → RetentionHistoryRecord
history_of ctx profile_id dry_run evaluation prefix pruned ids = record {
  history_id = prefix ++ ctx.unique_id;
  profile_id = profile_id;
  executed_at = ctx.now_text;
  dry_run = dry_run;
  snapshots_evaluated = as_u32 evaluation.snapshots_evaluated;
  snapshots_kept = as_u32 evaluation.snapshots_kept;
  snapshots_pruned = as_u32 pruned;
  pruned_snapshot_ids = ids;
  decisions_summary = ctx.decisions_json evaluation.decisions;
  status = text "completed";
  error_message = none;
}

abbrev pub result_of : Context → Text → Bool → RetentionEvaluation → List Text → ℕ → RetentionResult
result_of ctx profile_id dry_run evaluation pruned count = record {
  profile_id = profile_id;
  executed_at = ctx.now_text;
  dry_run = dry_run;
  evaluation = evaluation;
  pruned_snapshots = pruned;
  pruned_versions_count = count;
  success = true;
  error_message = none;
}

unfoldable pub dry_run_of : Context → Text → RetentionEvaluation → Session RetentionResult
dry_run_of ctx profile_id evaluation = do
  ignore (
      record_retention_history (
        history_of ctx profile_id true evaluation (text "rethist-dry-") evaluation.snapshots_pruned
          (ctx.ids_json (pruned_ids evaluation.decisions))))
  result (ok (result_of ctx profile_id true evaluation [] 0))

unfoldable pub prune_all :
    Context → Text → RetentionEvaluation → List Text → Session RetentionResult
prune_all ctx profile_id evaluation [] = do
  call ctx (
      record_retention_history
        (history_of ctx profile_id false evaluation (text "rethist-") 0 (text "[]")))
  result (ok (result_of ctx profile_id false evaluation [] 0))
prune_all ctx profile_id evaluation (id ∷ ids) = do
  count ← call ctx (
      prune_snapshots (id ∷ ids) (
        some (
          history_of ctx profile_id false evaluation (text "rethist-") (length (id ∷ ids))
            (ctx.ids_json (id ∷ ids)))))
  result (ok (result_of ctx profile_id false evaluation (id ∷ ids) count))

-- `RetentionEngine::execute_retention`
unfoldable pub execute_retention :
    Context → Text → Option RetentionPolicy → List Text → Bool → Session RetentionResult
execute_retention ctx profile_id custom_policy active dry_run = do
  profile ← call ctx (get_profile profile_id)
  profile_required profile_id profile
  evaluation ← evaluate_retention ctx profile_id custom_policy active
  (if dry_run then dry_run_of ctx profile_id evaluation else (do
    ids ← result (snapshots_to_prune active evaluation.decisions)
    prune_all ctx profile_id evaluation ids))
