-- ===== src/Db/Retention.antt =====
-- crates/televault-db/src/db.rs: the statements on retention policies and their history.
use televault.Db.Catalog.{sql, unique_failed, foreign_key_failed}
use televault.Prelude.Sorting.{sort_by}
use televault.Retention.Policy.{RetentionPolicyRecord}
use televault.Db.Table.{
  select, delete_where, update_where, any, first, append_row, descending, limit,
}
use televault.Db.Catalog.{
  DbError, RetentionHistoryRecord, Catalog, Query, ◌>>=◌, ◌>>◌, reads, writes, requires, query_rows,
  query_row, read_id,
}
use televault.Db.Profiles.{is_profile}
use televault.Prelude.{
  ℕ, Bool, not, ◌&&◌, ◌||◌, Option, List, if◌then◌else◌, Text, text, text_eq, Result, ok, err,
}

abbrev pub of_profile : Text → RetentionPolicyRecord → Bool
of_profile id p = text_eq p.profile_id id

unfoldable pub set_policy : RetentionPolicyRecord → RetentionPolicyRecord → RetentionPolicyRecord
set_policy policy p = record p {
  keep_latest_n = policy.keep_latest_n;
  keep_newer_than_secs = policy.keep_newer_than_secs;
  keep_latest_successful = policy.keep_latest_successful;
  keep_latest_always = policy.keep_latest_always;
  prune_failed = policy.prune_failed;
  prune_empty = policy.prune_empty;
  enabled = policy.enabled;
  updated_at = policy.updated_at;
}

-- Another profile's policy has the identifier.
abbrev id_taken : RetentionPolicyRecord → RetentionPolicyRecord → Bool
id_taken policy p = text_eq p.policy_id policy.policy_id && not (of_profile policy.profile_id p)

-- `save_retention_policy`: a profile has one policy, whose identifier stays.
unfoldable pub save_retention_policy : RetentionPolicyRecord → Query (Unit {0})
save_retention_policy policy = do
  requires (λ (db : Catalog). not (any (id_taken policy) db.retention_policies))
      (sql (unique_failed (text "retention_policies.policy_id")))
  there ← reads (λ (db : Catalog). any (of_profile policy.profile_id) db.retention_policies)
  requires (λ (db : Catalog). there || any (is_profile policy.profile_id) db.profiles)
      (sql foreign_key_failed)
  writes (λ (db : Catalog). record db {
    retention_policies =
        if there
        then update_where (of_profile policy.profile_id) (set_policy policy) db.retention_policies
        else append_row policy db.retention_policies;
  })

abbrev checked_policy :
    RetentionPolicyRecord → Result DbError Text → Result DbError RetentionPolicyRecord
checked_policy p (ok id) = ok (record p { profile_id = id })
checked_policy p (err e) = err e

-- `map_retention_policy_row`
unfoldable pub map_retention_policy_row :
    RetentionPolicyRecord → Result DbError RetentionPolicyRecord
map_retention_policy_row p = checked_policy p (read_id (text "Profile") p.profile_id)

-- `get_retention_policy`
unfoldable pub get_retention_policy : Text → Query (Option RetentionPolicyRecord)
get_retention_policy id =
    query_row map_retention_policy_row
      (λ (db : Catalog). first (select (of_profile id) db.retention_policies))

-- `delete_retention_policy`
unfoldable pub delete_retention_policy : Text → Query (Unit {0})
delete_retention_policy id = writes (λ (db : Catalog). record db {
  retention_policies = delete_where (of_profile id) db.retention_policies;
})

abbrev checked_history :
    RetentionHistoryRecord → Result DbError Text → Result DbError RetentionHistoryRecord
checked_history h (ok id) = ok (record h { profile_id = id })
checked_history h (err e) = err e

-- `map_retention_history_row`
unfoldable pub map_retention_history_row :
    RetentionHistoryRecord → Result DbError RetentionHistoryRecord
map_retention_history_row h = checked_history h (read_id (text "Profile") h.profile_id)

-- `list_retention_history`
unfoldable pub list_retention_history : Text → ℕ → Query (List RetentionHistoryRecord)
list_retention_history id n = query_rows map_retention_history_row (λ (db : Catalog). limit n (
    sort_by (descending (λ (h : RetentionHistoryRecord). h.executed_at))
      (select (λ (h : RetentionHistoryRecord). text_eq h.profile_id id) db.retention_history)))
