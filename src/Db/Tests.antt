-- ===== src/Db/Tests.antt =====
-- The catalogue on concrete rows.
use televault.Core.Validation.{validate_identifier_string, new_id}
use televault.Db.Table.{delete_where, update_where, count, any}
use televault.Db.Catalog.{ProfileRecord, SnapshotRecord, Catalog, with_transaction}
use televault.Db.Profiles.{create_profile, delete_profile}
use televault.Db.Snapshots.{
  create_snapshot, delete_snapshot, prune_each, prune_snapshots, reconcile_snapshots,
}
use televault.Db.Snapshots.Pruned.{PruneResult, prune_snapshots-PruneResult}
use televault.Db.Integrity.{Intact}
use televault.Core.Models.{scanning}
use televault.Db.Integrity.Operations.{
  Statement, creates_profile, creates_snapshot, deletes_profile, prunes_snapshots, execute,
  execute_all, new_catalog, catalog-Intact,
}
use televault.Prelude.{
  find_bad, trim, byte_len, ◌≡◌, refl, true, none, List, [], ◌∷◌, text, text_eq, ok,
}

abbrev pub documents : ProfileRecord
documents = record {
  profile_id = text "prof-1";
  name = text "Documents";
  description = none;
  source_path = text "/home/u/documents";
  enabled = true;
  created_at = text "2026-01-01T00:00:00Z";
  updated_at = text "2026-01-01T00:00:00Z";
}

abbrev first_backup : SnapshotRecord
first_backup = record {
  snapshot_id = text "snap-1";
  profile_id = text "prof-1";
  status = scanning;
  metadata = none;
  created_at = text "2026-01-02T00:00:00Z";
}

abbrev statements : List Statement
statements =
    creates_profile documents
    ∷ creates_snapshot first_backup
    ∷ deletes_profile (text "prof-1")
    ∷ prunes_snapshots (text "snap-1" ∷ text "snap-2" ∷ []) none
    ∷ []

abbrev pub with_snapshot : Catalog
with_snapshot = record new_catalog {
  profiles = documents ∷ [];
  snapshots =
      record {
        snapshot_id = text "snap-1";
        profile_id = text "prof-1";
        status = text "scanning";
        metadata = none;
        created_at = text "2026-01-02T00:00:00Z";
      }
      ∷ [];
}

-- A profile with a snapshot cannot be deleted, and a list with an unknown snapshot prunes nothing.
statements_run : execute_all statements new_catalog ≡ with_snapshot
unfolding execute_all execute with_transaction prune_snapshots prune_each delete_snapshot count
    delete_profile create_snapshot any create_profile text_eq delete_where
statements_run = refl

catalog-Intact_example : Intact (execute_all statements new_catalog)
catalog-Intact_example = catalog-Intact statements

prune_snapshots-PruneResult_example :
    PruneResult
      (text "snap-1" ∷ [])
      with_snapshot
      (with_transaction (prune_snapshots (text "snap-1" ∷ []) none) with_snapshot)
prune_snapshots-PruneResult_example =
    prune_snapshots-PruneResult (text "snap-1" ∷ []) none with_snapshot

prunes_first :
    with_transaction (prune_snapshots (text "snap-1" ∷ []) none) with_snapshot
    ≡ (ok 0, record with_snapshot { snapshots = [] })
unfolding with_transaction prune_snapshots prune_each delete_snapshot count text_eq delete_where
    update_where
prunes_first = refl

valid_ids :
    (new_id (text "Snapshot") (text "snap-1") ≡ ok (text "snap-1"))
    × (new_id (text "Profile") (text "prof-1") ≡ ok (text "prof-1"))
    × (create_snapshot first_backup (record with_snapshot { snapshots = [] })
        ≡ ok (tt, with_snapshot))
unfolding new_id validate_identifier_string trim byte_len find_bad create_snapshot any text_eq
valid_ids = (refl, refl, refl)

abbrev reconciled : Catalog
reconciled = record with_snapshot {
  snapshots =
      record {
        snapshot_id = text "snap-1";
        profile_id = text "prof-1";
        status = text "failed";
        metadata = none;
        created_at = text "2026-01-02T00:00:00Z";
      }
      ∷ [];
}

reconciles_first : reconcile_snapshots (λ note. note) with_snapshot ≡ ok (1, reconciled)
unfolding reconcile_snapshots count update_where text_eq
reconciles_first = refl
