-- ===== src/Db/Integrity/Histories.antt =====
-- The statements of crates/televault-db/src/db.rs that write histories keep the catalogue intact.
use televault.Db.Integrity.Inserts.{All-append_row, snapshot_links}
use televault.Db.Catalog.{
  ScheduleHistoryRecord, RetentionHistoryRecord, RepairHistoryRecord, Catalog,
}
use televault.Db.Table.{append_row}
use televault.Db.Chunks.{record_repair_history}
use televault.Db.Snapshots.{record_retention_history}
use televault.Db.Schedules.{record_schedule_history}
use televault.Db.Catalog.Laws.{After}
use televault.Db.Integrity.{EntryLinks, PruningLinks, RepairLinks, Intact, Intact-grown}
use televault.Prelude.{arith}

record_schedule_history-added :
    (e : ScheduleHistoryRecord) (db : Catalog)
    → Intact db
    → EntryLinks db e
    → Intact (record db { schedule_history = append_row e db.schedule_history })
record_schedule_history-added e db i l =
    Intact-grown db (record db { schedule_history = append_row e db.schedule_history })
      (λ k h. h, λ k h. h, λ k h. h, λ k h. h, λ k h. h, λ k h. h)
      (
        i.0,
        i.1,
        i.2,
        i.3,
        i.4,
        i.5,
        All-append_row (EntryLinks db) db.schedule_history e i.6 l,
        i.7,
        i.8,
        i.9,
      )

pub record_schedule_history-Intact :
    (e : ScheduleHistoryRecord) (db : Catalog)
    → Intact db
    → After Intact (record_schedule_history e db)
unfolding record_schedule_history
record_schedule_history-Intact e db i = ground (arith, record_schedule_history-added e db i)

record_retention_history-added :
    (e : RetentionHistoryRecord) (db : Catalog)
    → Intact db
    → PruningLinks db e
    → Intact (record db { retention_history = append_row e db.retention_history })
record_retention_history-added e db i l =
    Intact-grown db (record db { retention_history = append_row e db.retention_history })
      (λ k h. h, λ k h. h, λ k h. h, λ k h. h, λ k h. h, λ k h. h)
      (
        i.0,
        i.1,
        i.2,
        i.3,
        i.4,
        i.5,
        i.6,
        i.7,
        All-append_row (PruningLinks db) db.retention_history e i.8 l,
        i.9,
      )

pub record_retention_history-Intact :
    (e : RetentionHistoryRecord) (db : Catalog)
    → Intact db
    → After Intact (record_retention_history e db)
unfolding record_retention_history
record_retention_history-Intact e db i = ground (arith, record_retention_history-added e db i)

record_repair_history-added :
    (e : RepairHistoryRecord) (db : Catalog)
    → Intact db
    → RepairLinks db e
    → Intact (record db { repair_history = append_row e db.repair_history })
record_repair_history-added e db i l =
    Intact-grown db (record db { repair_history = append_row e db.repair_history })
      (λ k h. h, λ k h. h, λ k h. h, λ k h. h, λ k h. h, λ k h. h)
      (
        i.0,
        i.1,
        i.2,
        i.3,
        i.4,
        i.5,
        i.6,
        i.7,
        i.8,
        All-append_row (RepairLinks db) db.repair_history e i.9 l,
      )

pub record_repair_history-Intact :
    (e : RepairHistoryRecord) (db : Catalog) → Intact db → After Intact (record_repair_history e db)
unfolding record_repair_history
record_repair_history-Intact e db i =
    ground (arith, record_repair_history-added e db i, snapshot_links e.snapshot_id db)
