-- ===== src/Retention/Engine/Reading.antt =====
-- The calls of a retention run that leave the catalogue alone.
use televault.Db.Catalog.{
  SqlError, DbError, SnapshotRecord, Catalog, Query, committed, with_transaction, with_catalog,
  map_rows, map_first, query_rows, query_row,
}
use televault.Retention.Policy.{RetentionPolicy, RetentionError, validate_policy}
use televault.Retention.Evaluator.{evaluate}
use televault.Db.Table.{select, first}
use televault.Db.Profiles.{is_profile, map_profile_row, get_profile}
use televault.Db.Snapshots.{
  map_snapshot_row, newest_snapshots, list_snapshots_by_profile, count_versions_by_snapshot,
}
use televault.Db.Retention.{of_profile, map_retention_policy_row, get_retention_policy}
use televault.Retention.Engine.{
  Context, Session, proceed, ◌>>=◌, result, call_result, call, policy_or_default, get_policy,
  candidate, candidates_of, effective_policy, evaluate_retention,
}
use televault.Prelude.{◌≡◌, refl, ◌∙◌, Option, none, some, List, [], ◌∷◌, Text, Result, ok, err}

-- An operation that leaves the catalogue alone.
abbrev pub Reads : {A : Type 0} → Session A → Type 0
Reads s = (db : Catalog) → (s db).1 ≡ db

proceed-Reads :
    {A B : Type 0} (rest : A → Session B) (r : Result RetentionError A × Catalog) (db : Catalog)
    → r.1 ≡ db
    → ((a : A) → Reads (rest a))
    → (proceed r rest).1 ≡ db
proceed-Reads rest (ok a, d) db h k = k a d ∙ h
proceed-Reads rest (err e, d) db h k = h

>>=-Reads :
    {A B : Type 0} (s : Session A) (rest : A → Session B)
    → Reads s
    → ((a : A) → Reads (rest a))
    → Reads (s >>= rest)
>>=-Reads s rest h k db = proceed-Reads rest (s db) db (h db) k

call_result-same :
    {A : Type 0} (sql_text : SqlError → Text) (r : Result DbError A × Catalog) (db : Catalog)
    → r.1 ≡ db
    → (call_result sql_text r).1 ≡ db
call_result-same sql_text (ok a, d) db h = h
call_result-same sql_text (err e, d) db h = h

-- Statements that read.
call-Reads :
    {A : Type 0} (ctx : Context) (q : Query A)
    → ((db : Catalog) → (with_transaction q db).1 ≡ db)
    → Reads (call ctx q)
call-Reads ctx q h db = call_result-same ctx.sql_text (with_transaction q db) db (h db)

committed_reads :
    {A : Type 0} (db : Catalog) (r : Result DbError A) → (committed db (with_catalog db r)).1 ≡ db
committed_reads db (ok a) = refl
committed_reads db (err e) = refl

query_rows_reads :
    {R A : Type 0} (f : R → Result DbError A) (rows : Catalog → List R) (db : Catalog)
    → (with_transaction (query_rows f rows) db).1 ≡ db
unfolding with_transaction
query_rows_reads f rows db = committed_reads db (map_rows f (rows db))

query_row_reads :
    {R A : Type 0} (f : R → Result DbError A) (row : Catalog → Option R) (db : Catalog)
    → (with_transaction (query_row f row) db).1 ≡ db
unfolding with_transaction
query_row_reads f row db = committed_reads db (map_first f (row db))

pub get_profile-Reads : (ctx : Context) (id : Text) → Reads (call ctx (get_profile id))
unfolding get_profile
get_profile-Reads ctx id =
    call-Reads ctx (get_profile id)
      (query_row_reads map_profile_row (λ db. first (select (is_profile id) db.profiles)))

list_snapshots-Reads : (ctx : Context) (id : Text) → Reads (call ctx (list_snapshots_by_profile id))
unfolding list_snapshots_by_profile
list_snapshots-Reads ctx id =
    call-Reads ctx (list_snapshots_by_profile id)
      (query_rows_reads map_snapshot_row (newest_snapshots id))

count_versions-Reads :
    (ctx : Context) (id : Text) → Reads (call ctx (count_versions_by_snapshot id))
unfolding with_transaction count_versions_by_snapshot
count_versions-Reads ctx id db = refl

get_policy-Reads : (ctx : Context) (id : Text) → Reads (get_policy ctx id)
unfolding get_policy get_retention_policy
get_policy-Reads ctx id =
    >>=-Reads (call ctx (get_retention_policy id)) (λ rec. result (ok (policy_or_default id rec)))
      (call-Reads ctx (get_retention_policy id) (
        query_row_reads map_retention_policy_row
          (λ db. first (select (of_profile id) db.retention_policies))))
      (λ rec db. refl)

effective_policy-Reads :
    (ctx : Context) (id : Text) (custom : Option RetentionPolicy)
    → Reads (effective_policy ctx id custom)
effective_policy-Reads ctx id none = get_policy-Reads ctx id
effective_policy-Reads ctx id (some p) =
    >>=-Reads (result (validate_policy p)) (λ u. result (ok p)) (λ db. refl) (λ u db. refl)

candidates_of-Reads :
    (ctx : Context) (active : List Text) (snaps : List SnapshotRecord)
    → Reads (candidates_of ctx active snaps)
unfolding candidates_of
candidates_of-Reads ctx active [] = λ db. refl
candidates_of-Reads ctx active (snap ∷ snaps) =
    >>=-Reads (call ctx (count_versions_by_snapshot snap.snapshot_id))
      (λ n.
        candidates_of ctx active snaps
        >>= (λ rest. result (ok (candidate ctx active snap n ∷ rest))))
      (count_versions-Reads ctx snap.snapshot_id)
      (λ n.
        >>=-Reads (candidates_of ctx active snaps)
          (λ rest. result (ok (candidate ctx active snap n ∷ rest)))
          (candidates_of-Reads ctx active snaps) (λ rest db. refl))

pub evaluate_retention-Reads :
    (ctx : Context) (id : Text) (custom : Option RetentionPolicy) (active : List Text)
    → Reads (evaluate_retention ctx id custom active)
unfolding evaluate_retention
evaluate_retention-Reads ctx id custom active =
    >>=-Reads (effective_policy ctx id custom)
      (λ policy. call ctx (list_snapshots_by_profile id) >>= (λ snapshots.
        candidates_of ctx active snapshots
        >>= (λ candidates. result (ok (evaluate id policy candidates ctx.now_text)))))
      (effective_policy-Reads ctx id custom)
      (λ policy.
        >>=-Reads (call ctx (list_snapshots_by_profile id))
          (λ snapshots.
            candidates_of ctx active snapshots
            >>= (λ candidates. result (ok (evaluate id policy candidates ctx.now_text))))
          (list_snapshots-Reads ctx id)
          (λ snapshots.
            >>=-Reads (candidates_of ctx active snapshots)
              (λ candidates. result (ok (evaluate id policy candidates ctx.now_text)))
              (candidates_of-Reads ctx active snapshots) (λ candidates db. refl)))
