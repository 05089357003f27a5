-- ===== src/Db/Integrity/FileDeletes.antt =====
-- Deleting files, manifests and chunks keeps referential integrity, and so does the repair of a chunk.
use televault.Db.Catalog.{DbError, ManifestRecord, ChunkRecord, RepairHistoryRecord, Catalog}
use televault.Backup.ChangeDetector.{FileRecord, VersionRecord}
use televault.Db.Table.{delete_where, update_where, count, any}
use televault.Db.Files.{
  is_file, is_manifest, is_chunk, of_manifest, without_manifest, delete_manifest, of_file_manifest,
  chunk_goes, repair_goes, without_file, version_needs_file, delete_file,
}
use televault.Db.Chunks.{delete_chunks_by_file, atomic_apply_chunk_repair}
use televault.Db.Table.Laws.{
  none_of, All-map, All-and, All-delete, any-delete_others, any-delete_key,
}
use televault.Db.Catalog.Laws.{After}
use televault.Db.Integrity.{
  has_profile, has_file, has_manifest, has_snapshot, has_or_null, FileLinks, ManifestLinks,
  ChunkLinks, VersionLinks, RepairLinks, Intact,
}
use televault.Db.Integrity.Histories.{record_repair_history-Intact}
use televault.Db.Integrity.Updates.{manifests-updated, chunks-updated}
use televault.Prelude.{
  ℕ, ◌≡◌, refl, inl, inr, true, false, ◌&&◌, ◌||◌, arith, ◌==◌, Bool-cases, Text, text_eq, Result,
  ok, err,
}

pub delete_chunks_by_file-Intact :
    (id : Text) (db : Catalog) → Intact db → After Intact (delete_chunks_by_file id db)
unfolding delete_chunks_by_file
delete_chunks_by_file-Intact id db i =
    let goes = λ (c : ChunkRecord). text_eq c.file_id id in
    (
      i.0,
      i.1,
      All-delete (ChunkLinks db) (ChunkLinks db) goes db.chunks (λ c l e. l) i.2,
      i.3,
      i.4,
      i.5,
      i.6,
      i.7,
      i.8,
      All-delete (RepairLinks db)
          (λ h.
            (has_profile db h.profile_id ≡ true)
            × (has_or_null (has_snapshot db) h.snapshot_id ≡ true)
            × (has_file db h.file_id ≡ true)
            × (has_manifest db h.manifest_id ≡ true)
            × (any (is_chunk h.chunk_id) (delete_where goes db.chunks) ≡ true))
          (λ h. any (λ (c : ChunkRecord). goes c && text_eq c.chunk_id h.chunk_id) db.chunks)
          db.repair_history
          (λ h l e.
            (l.0, l.1, l.2, l.3, any-delete_others (is_chunk h.chunk_id) goes db.chunks e l.4))
          i.9,
    )

without_manifest-Intact :
    (id : Text) (db : Catalog)
    → any (λ (v : VersionRecord). text_eq v.manifest_id id) db.versions ≡ false
    → Intact db
    → Intact (without_manifest id db)
unfolding without_manifest
without_manifest-Intact id db n i =
    let rest : Catalog = record db {
      manifests = delete_where (is_manifest id) db.manifests;
      chunks = delete_where (of_manifest id) db.chunks;
    } in
    let survives = λ (k : Text) (e : text_eq k id ≡ false) (l : has_manifest db k ≡ true).
      any-delete_key (λ (m : ManifestRecord). m.manifest_id) id k db.manifests e l in
    (
      i.0,
      All-delete (ManifestLinks db) (ManifestLinks db) (is_manifest id) db.manifests (λ m l e. l)
          i.1,
      All-delete (ChunkLinks db) (ChunkLinks rest) (of_manifest id) db.chunks
          (λ c l e. (l.0, survives c.manifest_id e l.1)) i.2,
      i.3,
      All-map (λ v. VersionLinks db v × (text_eq v.manifest_id id ≡ false)) (VersionLinks rest)
          db.versions (λ v l. (l.0.0, l.0.1, survives v.manifest_id l.1 l.0.2))
          (All-and (VersionLinks db) (λ v. text_eq v.manifest_id id ≡ false) db.versions i.4
            (none_of (λ v. text_eq v.manifest_id id) db.versions n)),
      i.5,
      i.6,
      i.7,
      i.8,
      All-delete (RepairLinks db) (RepairLinks rest)
          (λ h.
            text_eq h.manifest_id id
            || any (λ (c : ChunkRecord). of_manifest id c && text_eq c.chunk_id h.chunk_id)
                db.chunks)
          db.repair_history
          (λ h l e. (
            l.0,
            l.1,
            l.2,
            survives h.manifest_id (ground arith) l.3,
            any-delete_others (is_chunk h.chunk_id) (of_manifest id) db.chunks (ground arith) l.4,
          ))
          i.9,
    )

pub delete_manifest-Intact :
    (id : Text) (db : Catalog) → Intact db → After Intact (delete_manifest id db)
unfolding delete_manifest
delete_manifest-Intact id db i = ground (arith, without_manifest-Intact id db)

without_file-Intact :
    (id : Text) (db : Catalog)
    → any (version_needs_file id db) db.versions ≡ false
    → Intact db
    → Intact (without_file id db)
unfolding without_file
without_file-Intact id db n i =
    let rest : Catalog = record db {
      files = delete_where (is_file id) db.files;
      manifests = delete_where (λ (m : ManifestRecord). text_eq m.file_id id) db.manifests;
      chunks = delete_where (chunk_goes id db) db.chunks;
    } in
    let file_stays = λ (k : Text) (e : text_eq k id ≡ false) (l : has_file db k ≡ true).
      any-delete_key (λ (f : FileRecord). f.file_id) id k db.files e l in
    let manifest_stays =
      λ (k : Text) (e : of_file_manifest id db k ≡ false) (l : has_manifest db k ≡ true).
        any-delete_others (is_manifest k) (λ (m : ManifestRecord). text_eq m.file_id id)
          db.manifests e l in
    (
      All-delete (FileLinks db) (FileLinks db) (is_file id) db.files (λ f l e. l) i.0,
      All-delete (ManifestLinks db) (ManifestLinks rest) (λ m. text_eq m.file_id id) db.manifests
          (λ m l e. file_stays m.file_id e l) i.1,
      All-delete (ChunkLinks db) (ChunkLinks rest) (chunk_goes id db) db.chunks
          (λ c l e. (
            file_stays c.file_id (ground arith) l.0,
            manifest_stays c.manifest_id (ground arith) l.1,
          ))
          i.2,
      i.3,
      All-map (λ v. VersionLinks db v × (version_needs_file id db v ≡ false)) (VersionLinks rest)
          db.versions
          (λ v l. (
            file_stays v.file_id (ground arith) l.0.0,
            l.0.1,
            manifest_stays v.manifest_id (ground arith) l.0.2,
          ))
          (All-and (VersionLinks db) (λ v. version_needs_file id db v ≡ false) db.versions i.4
            (none_of (version_needs_file id db) db.versions n)),
      i.5,
      i.6,
      i.7,
      i.8,
      All-delete (RepairLinks db) (RepairLinks rest) (repair_goes id db) db.repair_history
          (λ h l e. (
            l.0,
            l.1,
            file_stays h.file_id (ground arith) l.2,
            manifest_stays h.manifest_id (ground arith) l.3,
            any-delete_others (is_chunk h.chunk_id) (chunk_goes id db) db.chunks (ground arith) l.4,
          ))
          i.9,
    )

pub delete_file-Intact : (id : Text) (db : Catalog) → Intact db → After Intact (delete_file id db)
unfolding delete_file
delete_file-Intact id db i = ground (arith, without_file-Intact id db)

pub atomic_apply_chunk_repair-Intact :
    (chunk_id new_reference new_hash : Text) (new_stored_size : ℕ) (updated_at manifest_id : Text)
    (serialized : Result DbError Text) (history : RepairHistoryRecord) (db : Catalog)
    → Intact db
    → After Intact (
        atomic_apply_chunk_repair chunk_id new_reference new_hash new_stored_size updated_at
          manifest_id serialized history db)
unfolding atomic_apply_chunk_repair
atomic_apply_chunk_repair-Intact chunk_id new_reference new_hash new_stored_size updated_at
      manifest_id (err e) history db i =
    ground arith
atomic_apply_chunk_repair-Intact chunk_id new_reference new_hash new_stored_size updated_at
      manifest_id (ok json) history db i =
    let repaired : ChunkRecord → ChunkRecord = λ c. record c {
      storage_reference = new_reference;
      integrity_hash = new_hash;
      stored_size = new_stored_size;
      updated_at = updated_at;
    } in
    let rewritten : ManifestRecord → ManifestRecord =
      λ m. record m { serialized_manifest = json; updated_at = updated_at } in
    let db1 : Catalog = record db {
      chunks = update_where (is_chunk chunk_id) repaired db.chunks;
    } in
    let db2 : Catalog = record db1 {
      manifests = update_where (is_manifest manifest_id) rewritten db.manifests;
    } in
    elim (Bool-cases (count (is_chunk chunk_id) db.chunks == 0)) [
      | inl z ↦ rw z tt
      | inr z ↦ rw z (elim (Bool-cases (count (is_manifest manifest_id) db.manifests == 0)) [
        | inl y ↦ rw y tt
        | inr y ↦ rw y (
            record_repair_history-Intact history db2 (
              manifests-updated db1 (is_manifest manifest_id) rewritten (λ r. refl) (λ r l. l)
                (chunks-updated db (is_chunk chunk_id) repaired (λ r. refl) (λ r l. l) i)))
      ])
    ]
