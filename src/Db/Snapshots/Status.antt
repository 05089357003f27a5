-- ===== src/Db/Snapshots/Status.antt =====
-- The statuses of snapshots in the catalogue: written and read back, updated, and reconciled.
use televault.Db.Catalog.{SnapshotRecord, SnapshotRow, Catalog}
use televault.Core.Validation.{new_id}
use televault.Db.Table.{update_where, count}
use televault.Db.Snapshots.{
  is_snapshot, create_snapshot, read_status, map_snapshot_row, get_snapshot, is_interrupted,
  reconcile_snapshots,
}
use televault.Db.Table.Laws.{select_append_new, All-unit, All-update}
use televault.Core.Models.{
  BackupStatus, status_text, idle, scanning, backing_up, completed, failed, cancelled,
}
use televault.Prelude.{
  ℕ, ◌+◌, ◌≡◌, refl, inl, inr, Bool, true, false, Option, some, List, [], ◌∷◌, arith, Bool-cases,
  All, Text, text, text_eq, text_eq_iff, text_eq_refl, ok,
}

read_status_text : (s : BackupStatus) → read_status (status_text s) ≡ ok s
unfolding read_status text_eq
read_status_text idle = refl
read_status_text scanning = refl
read_status_text backing_up = refl
read_status_text completed = refl
read_status_text failed = refl
read_status_text cancelled = refl

abbrev row_of : SnapshotRecord → SnapshotRow
row_of s = record {
  snapshot_id = s.snapshot_id;
  profile_id = s.profile_id;
  status = status_text s.status;
  metadata = s.metadata;
  created_at = s.created_at;
}

map_snapshot_row-row_of :
    (s : SnapshotRecord)
    → new_id (text "Snapshot") s.snapshot_id ≡ ok s.snapshot_id
    → new_id (text "Profile") s.profile_id ≡ ok s.profile_id
    → map_snapshot_row (row_of s) ≡ ok s
unfolding map_snapshot_row
map_snapshot_row-row_of s h k = rw h (rw k (rw (read_status_text s.status) refl))

-- A snapshot with valid identifiers that has been inserted is read back as it was.
pub get_snapshot-create_snapshot :
    (s : SnapshotRecord) (db after : Catalog)
    → new_id (text "Snapshot") s.snapshot_id ≡ ok s.snapshot_id
    → new_id (text "Profile") s.profile_id ≡ ok s.profile_id
    → create_snapshot s db ≡ ok (tt, after)
    → get_snapshot s.snapshot_id after ≡ ok (some s, after)
unfolding get_snapshot create_snapshot
get_snapshot-create_snapshot s db after h k e = ground (
  arith,
  select_append_new (is_snapshot s.snapshot_id) db.snapshots (row_of s),
  map_snapshot_row-row_of s h k,
  text_eq_refl s.snapshot_id,
)

abbrev pub is_failed_row : SnapshotRow → Bool
is_failed_row s = text_eq s.status (text "failed")

-- No text is "failed" and one of the interrupted statuses.
interrupted_not_failed : (s : SnapshotRow) → is_interrupted s ≡ true → is_failed_row s ≡ false
unfolding text_eq
interrupted_not_failed s h = ground (
  arith,
  text_eq_iff s.status (text "scanning"),
  text_eq_iff s.status (text "backing_up"),
  text_eq_iff s.status (text "failed"),
)

none_interrupted :
    (note : Option Text → Option Text) (t : List SnapshotRow)
    → All
        (λ s. is_interrupted s ≡ false)
        (update_where is_interrupted
          (λ s. record s { status = text "failed"; metadata = note s.metadata })
          t)
unfolding text_eq
none_interrupted note t =
    All-update (λ s. Unit {0}) (λ s. is_interrupted s ≡ false) is_interrupted
      (λ s. record s { status = text "failed"; metadata = note s.metadata }) t (λ s u h. refl)
      (λ s u h. h) (All-unit t)

count-failed :
    (note : Option Text → Option Text) (t : List SnapshotRow)
    → count is_failed_row (
        update_where is_interrupted
          (λ s. record s { status = text "failed"; metadata = note s.metadata })
          t)
      ≡ count is_failed_row t + count is_interrupted t
unfolding count update_where
count-failed note [] = refl
count-failed note (s ∷ t) = elim (Bool-cases (is_interrupted s)) [
  | inl h ↦ rw h (
      rw (interrupted_not_failed s h)
        (ground (arith, count-failed note t, text_eq_refl (text "failed"))))
  | inr h ↦ rw h (ground (arith, count-failed note t))
]

-- Reconciling leaves no snapshot that is being scanned or backed up: it makes exactly these failed, and
-- returns how many they were.
pub reconcile_snapshots_ends :
    (note : Option Text → Option Text) (db after : Catalog) (n : ℕ)
    → reconcile_snapshots note db ≡ ok (n, after)
    → (n ≡ count is_interrupted db.snapshots)
      × All (λ s. is_interrupted s ≡ false) after.snapshots
      × (count is_failed_row after.snapshots ≡ count is_failed_row db.snapshots + n)
unfolding reconcile_snapshots
reconcile_snapshots_ends note db after n e =
    ground (arith, count-failed note db.snapshots, none_interrupted note db.snapshots)
