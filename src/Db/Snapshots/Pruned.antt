-- ===== src/Db/Snapshots/Pruned.antt =====
-- `Database::prune_snapshots_transactional` does all of it or nothing.
use televault.Db.Catalog.{
  DbError, SnapshotRow, RetentionHistoryRecord, RepairHistoryRecord, Catalog, continue, ◌>>◌,
  return, committed, with_transaction,
}
use televault.Backup.ChangeDetector.{VersionRecord}
use televault.Db.Table.{delete_where, update_where, count, is_text}
use televault.Prelude.Keyed.{contains}
use televault.Db.Snapshots.{
  is_snapshot, in_snapshot, delete_snapshot, record_retention_history, prune_each, record_if_some,
  prune_snapshots,
}
use televault.Db.Table.Laws.{delete-delete, count-delete, delete_nothing}
use televault.Prelude.{
  ℕ, ◌+◌, ◌≡◌, refl, sym, ◌∙◌, inl, inr, ◌||◌, Option, none, some, List, [], ◌∷◌, arith, ◌==◌,
  Bool-cases, length, Text, text_eq, text_eq_iff, Result, ok, err,
}

-- The snapshots of the list are gone with their versions, which are counted, and nothing else.
abbrev pub Pruned : List Text → Catalog → ℕ → Catalog → Type 0
Pruned ids db n out =
    (out.snapshots ≡ delete_where (λ (s : SnapshotRow). contains ids s.snapshot_id) db.snapshots)
    × (out.versions ≡ delete_where (λ (v : VersionRecord). contains ids v.snapshot_id) db.versions)
    × (n + length out.versions ≡ length db.versions)
    × (out.profiles ≡ db.profiles)
    × (out.files ≡ db.files)
    × (out.manifests ≡ db.manifests)
    × (out.chunks ≡ db.chunks)

abbrev Then : List Text → Catalog → Result DbError (ℕ × Catalog) → Type 0
Then ids db (ok p) = Pruned ids db p.0 p.1
Then ids db (err e) = Unit

same_test :
    (id : Text) (ids : List Text) (k : Text)
    → contains (id ∷ ids) k ≡ (text_eq k id || contains ids k)
unfolding contains
same_test id ids k = ground (arith, text_eq_iff id k, text_eq_iff k id)

abbrev after_first : Text → Catalog → Catalog
after_first id db = record db {
  versions = delete_where (in_snapshot id) db.versions;
  snapshots = delete_where (is_snapshot id) db.snapshots;
  repair_history =
      update_where (λ (h : RepairHistoryRecord). is_text h.snapshot_id id)
        (λ (h : RepairHistoryRecord). record h { snapshot_id = none }) db.repair_history;
}

Pruned-step :
    (id : Text) (ids : List Text) (db out : Catalog) (n : ℕ)
    → Pruned ids (after_first id db) n out
    → Pruned (id ∷ ids) db (count (in_snapshot id) db.versions + n) out
Pruned-step id ids db out n h = (
  h.0
      ∙ delete-delete (λ s. contains ids s.snapshot_id) (is_snapshot id)
          (λ s. contains (id ∷ ids) s.snapshot_id) db.snapshots
          (λ s. same_test id ids s.snapshot_id),
  h.1
      ∙ delete-delete (λ v. contains ids v.snapshot_id) (in_snapshot id)
          (λ v. contains (id ∷ ids) v.snapshot_id) db.versions
          (λ v. same_test id ids v.snapshot_id),
  omega (arith, count-delete (in_snapshot id) db.versions, h.2),
  h.3,
  h.4,
  h.5,
  h.6,
)

Then-step :
    (id : Text) (ids : List Text) (db : Catalog) (r : Result DbError (ℕ × Catalog))
    → Then ids (after_first id db) r
    → Then
        (id ∷ ids)
        db
        (continue r (λ others. return (count (in_snapshot id) db.versions + others)))
Then-step id ids db (ok p) h = Pruned-step id ids db p.1 p.0 h
Then-step id ids db (err e) h = tt

prune_each-Then : (ids : List Text) (db : Catalog) → Then ids db (prune_each ids db)
unfolding prune_each delete_snapshot contains
prune_each-Then [] db = (
  sym (delete_nothing (λ s. contains [] s.snapshot_id) db.snapshots (λ s. refl)),
  sym (delete_nothing (λ v. contains [] v.snapshot_id) db.versions (λ v. refl)),
  omega arith,
  refl,
  refl,
  refl,
  refl,
)
prune_each-Then (id ∷ ids) db = elim (Bool-cases (count (is_snapshot id) db.snapshots == 0)) [
  | inl z ↦ rw z tt
  | inr z ↦ rw z (
      Then-step id ids db (prune_each ids (after_first id db))
        (prune_each-Then ids (after_first id db)))
]

Then-history :
    (ids : List Text) (history : Option RetentionHistoryRecord) (db : Catalog)
    (r : Result DbError (ℕ × Catalog))
    → Then ids db r
    → Then ids db (continue r (λ total. record_if_some history >> return total))
unfolding record_retention_history
Then-history ids none db (ok p) h = h
Then-history ids (some e) db (ok p) h = ground (arith, h)
Then-history ids history db (err e) h = tt

-- What a call comes to: all of it, or an error and the catalogue as it was.
abbrev pub PruneResult : List Text → Catalog → Result DbError ℕ × Catalog → Type 0
PruneResult ids db (ok n, out) = Pruned ids db n out
PruneResult ids db (err e, out) = out ≡ db

committed-PruneResult :
    (ids : List Text) (db : Catalog) (r : Result DbError (ℕ × Catalog))
    → Then ids db r
    → PruneResult ids db (committed db r)
committed-PruneResult ids db (ok p) h = h
committed-PruneResult ids db (err e) h = refl

-- Pruning snapshots either succeeds, and has deleted exactly the snapshots of the list and the versions in
-- them, whose number it returns, and left profiles, files, manifests and chunks alone; or it fails, and
-- has changed nothing.
pub prune_snapshots-PruneResult :
    (ids : List Text) (history : Option RetentionHistoryRecord) (db : Catalog)
    → PruneResult ids db (with_transaction (prune_snapshots ids history) db)
unfolding with_transaction prune_snapshots
prune_snapshots-PruneResult ids history db =
    committed-PruneResult ids db (prune_snapshots ids history db)
      (Then-history ids history db (prune_each ids db) (prune_each-Then ids db))
