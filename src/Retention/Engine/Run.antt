-- ===== src/Retention/Engine/Run.antt =====
-- What running a retention policy can do to the catalogue.
use televault.Db.Profiles.{get_profile}
use televault.Retention.Engine.Reading.{Reads, get_profile-Reads, evaluate_retention-Reads}
use televault.Prelude.Keyed.{contains}
use televault.Retention.Policy.{RetentionPolicy, RetentionError}
use televault.Retention.Types.{RetentionDecision, RetentionEvaluation, RetentionResult}
use televault.Core.Models.{is_scanning, is_backing_up}
use televault.Db.Catalog.{
  DbError, ProfileRecord, RetentionHistoryRecord, Catalog, Query, committed, with_transaction,
}
use televault.Db.Snapshots.{record_retention_history, prune_snapshots}
use televault.Db.Snapshots.Pruned.{Pruned, PruneResult, prune_snapshots-PruneResult}
use televault.Db.Table.Laws.{delete_nothing}
use televault.Retention.Engine.{
  Context, Session, proceed, ◌>>=◌, result, call_result, call, profile_required, evaluate_retention,
  is_prune, pruned_ids, map_ok, snapshots_to_prune, history_of, result_of, dry_run_of, prune_all,
  execute_retention,
}
use televault.Prelude.{
  ℕ, ◌≡◌, refl, sym, ◌∙◌, subst, ◌⊎◌, inl, inr, Bool, true, false, ◌||◌, Option, none, some, List,
  [], ◌∷◌, arith, if◌then◌else◌, Bool-cases, length, All, Text, text, Result, ok, err,
}

-- What a run comes to.
abbrev pub Safe :
    List Text → Bool → Catalog → Result RetentionError RetentionResult × Catalog → Type 0
Safe active dry_run db (ok r, out) =
    Pruned r.pruned_snapshots db r.pruned_versions_count out
    × All (λ id. contains active id ≡ false) r.pruned_snapshots
    × ((dry_run ≡ false) ⊎ (r.pruned_snapshots ≡ []))
Safe active dry_run db (err e, out) = out ≡ db

proceed-Safe :
    {A : Type 0} (active : List Text) (dry_run : Bool) (db : Catalog)
    (r : Result RetentionError A × Catalog) (rest : A → Session RetentionResult)
    → r.1 ≡ db
    → ((a : A) → Safe active dry_run db (rest a db))
    → Safe active dry_run db (proceed r rest)
proceed-Safe active dry_run db (ok a, d) rest h k =
    subst (λ (c : Catalog). Safe active dry_run db (rest a c)) (sym h) (k a)
proceed-Safe active dry_run db (err e, d) rest h k = h

Pruned-none :
    (db out : Catalog)
    → out.snapshots ≡ db.snapshots
    → out.versions ≡ db.versions
    → out.profiles ≡ db.profiles
    → out.files ≡ db.files
    → out.manifests ≡ db.manifests
    → out.chunks ≡ db.chunks
    → Pruned [] db 0 out
unfolding contains
Pruned-none db out s v p f m c = (
  s ∙ sym (delete_nothing (λ s. contains [] s.snapshot_id) db.snapshots (λ s. refl)),
  v ∙ sym (delete_nothing (λ v. contains [] v.snapshot_id) db.versions (λ v. refl)),
  rw v (omega arith),
  p,
  f,
  m,
  c,
)

recorded :
    (h : RetentionHistoryRecord) (db out : Catalog)
    → record_retention_history h db ≡ ok (tt, out)
    → Pruned [] db 0 out
unfolding record_retention_history
recorded h db out e =
    Pruned-none db out (ground arith) (ground arith) (ground arith) (ground arith) (ground arith)
      (ground arith)

answered :
    {A : Type 0} (ctx : Context) (active : List Text) (dry_run : Bool) (db : Catalog)
    (rest : A → Session RetentionResult) (r : Result DbError (A × Catalog))
    → ((a : A) (out : Catalog) → r ≡ ok (a, out) → Safe active dry_run db (rest a out))
    → Safe active dry_run db (proceed (call_result ctx.sql_text (committed db r)) rest)
answered ctx active dry_run db rest (ok p) h = h p.0 p.1 refl
answered ctx active dry_run db rest (err e) h = refl

-- A call that fails has changed nothing.
call-Safe :
    {A : Type 0} (ctx : Context) (active : List Text) (dry_run : Bool) (db : Catalog) (q : Query A)
    (rest : A → Session RetentionResult)
    → ((a : A) (out : Catalog) → q db ≡ ok (a, out) → Safe active dry_run db (rest a out))
    → Safe active dry_run db (proceed (call ctx q db) rest)
unfolding with_transaction
call-Safe ctx active dry_run db q rest h = answered ctx active dry_run db rest (q db) h

pruned :
    (ids : List Text) (history : Option RetentionHistoryRecord) (db out : Catalog) (n : ℕ)
    → prune_snapshots ids history db ≡ ok (n, out)
    → Pruned ids db n out
unfolding with_transaction
pruned ids history db out n e =
    subst (λ (r : Result DbError (ℕ × Catalog)). PruneResult ids db (committed db r)) e
      (prune_snapshots-PruneResult ids history db)

-- The identifiers that are passed on to be pruned.
abbrev Approved : List Text → Result RetentionError (List Text) → Type 0
Approved active (ok ids) = All (λ id. contains active id ≡ false) ids
Approved active (err e) = Unit

Approved-cons :
    (active : List Text) (id : Text) (r : Result RetentionError (List Text))
    → contains active id ≡ false
    → Approved active r
    → Approved active (map_ok (λ (ids : List Text). id ∷ ids) r)
Approved-cons active id (ok ids) h k = (h, k)
Approved-cons active id (err e) h k = tt

not_active :
    (active : List Text) (ds : List RetentionDecision)
    → Approved active (snapshots_to_prune active ds)
unfolding snapshots_to_prune
not_active active [] = tt
not_active active (d ∷ ds) = elim (Bool-cases (is_prune d.action)) [
  | inl p ↦
      rw p
        (elim (Bool-cases (
          contains active d.snapshot_id
          || (is_scanning d.snapshot_status || is_backing_up d.snapshot_status))) [
            | inl a ↦ rw a tt
            | inr a ↦ rw a (
                Approved-cons active d.snapshot_id (snapshots_to_prune active ds) (ground arith)
                  (not_active active ds))
          ])
  | inr p ↦ rw p (not_active active ds)
]

noted :
    (db : Catalog) (r : Result DbError (Unit {0} × Catalog))
    → ((out : Catalog) → r ≡ ok (tt, out) → Pruned [] db 0 out)
    → Pruned [] db 0 (committed db r).1
noted db (ok p) h = h p.1 refl
noted db (err e) h = Pruned-none db db refl refl refl refl refl refl

dry_run_of-Safe :
    (ctx : Context) (id : Text) (active : List Text) (dry_run : Bool)
    (evaluation : RetentionEvaluation) (db : Catalog)
    → Safe active dry_run db (dry_run_of ctx id evaluation db)
unfolding dry_run_of with_transaction
dry_run_of-Safe ctx id active dry_run evaluation db =
    let h =
      history_of ctx id true evaluation (text "rethist-dry-") evaluation.snapshots_pruned
        (ctx.ids_json (pruned_ids evaluation.decisions)) in
    (noted db (record_retention_history h db) (λ out e. recorded h db out e), tt, inr refl)

prune_all-Safe :
    (ctx : Context) (id : Text) (active : List Text) (evaluation : RetentionEvaluation)
    (ids : List Text) (db : Catalog)
    → All (λ k. contains active k ≡ false) ids
    → Safe active false db (prune_all ctx id evaluation ids db)
unfolding prune_all
prune_all-Safe ctx id active evaluation [] db h =
    let entry = history_of ctx id false evaluation (text "rethist-") 0 (text "[]") in
    call-Safe ctx active false db (record_retention_history entry)
      (λ u. result (ok (result_of ctx id false evaluation [] 0)))
      (λ u out e. (recorded entry db out e, tt, inl refl))
prune_all-Safe ctx id active evaluation (k ∷ ids) db h =
    let entry = some (
      history_of ctx id false evaluation (text "rethist-") (length (k ∷ ids))
        (ctx.ids_json (k ∷ ids))) in
    call-Safe ctx active false db (prune_snapshots (k ∷ ids) entry)
      (λ n. result (ok (result_of ctx id false evaluation (k ∷ ids) n)))
      (λ n out e. (pruned (k ∷ ids) entry db out n e, h, inl refl))

-- The rest of a run, once the policy has been evaluated.
Approved-Safe :
    (ctx : Context) (id : Text) (active : List Text) (evaluation : RetentionEvaluation)
    (db : Catalog) (r : Result RetentionError (List Text))
    → Approved active r
    → Safe active false db (proceed (result r db) (λ ids. prune_all ctx id evaluation ids))
Approved-Safe ctx id active evaluation db (ok ids) h =
    prune_all-Safe ctx id active evaluation ids db h
Approved-Safe ctx id active evaluation db (err e) h = refl

evaluated-Safe :
    (ctx : Context) (id : Text) (active : List Text) (dry_run : Bool)
    (evaluation : RetentionEvaluation) (db : Catalog)
    → Safe active dry_run db (
        (if dry_run
            then dry_run_of ctx id evaluation
            else (result (snapshots_to_prune active evaluation.decisions)
                >>= (λ ids. prune_all ctx id evaluation ids)))
          db)
evaluated-Safe ctx id active true evaluation db = dry_run_of-Safe ctx id active true evaluation db
evaluated-Safe ctx id active false evaluation db =
    Approved-Safe ctx id active evaluation db (snapshots_to_prune active evaluation.decisions)
      (not_active active evaluation.decisions)

profile_required-Reads : (id : Text) (p : Option ProfileRecord) → Reads (profile_required id p)
profile_required-Reads id none = λ db. refl
profile_required-Reads id (some p) = λ db. refl

-- A retention run either fails, and has left the catalogue exactly as it was; or it succeeds, and has
-- deleted exactly the snapshots that it reports, with their versions, whose number it reports, and left
-- profiles, files, manifests and chunks alone. It reports no active snapshot, and a dry run reports none.
pub execute_retention-Safe :
    (ctx : Context) (profile_id : Text) (custom_policy : Option RetentionPolicy)
    (active : List Text) (dry_run : Bool) (db : Catalog)
    → Safe active dry_run db (execute_retention ctx profile_id custom_policy active dry_run db)
unfolding execute_retention
execute_retention-Safe ctx profile_id custom_policy active dry_run db =
    proceed-Safe active dry_run db (call ctx (get_profile profile_id) db) _
      (get_profile-Reads ctx profile_id db)
      (λ p.
        proceed-Safe active dry_run db (profile_required profile_id p db) _
          (profile_required-Reads profile_id p db)
          (λ u.
            proceed-Safe active dry_run db
              (evaluate_retention ctx profile_id custom_policy active db) _
              (evaluate_retention-Reads ctx profile_id custom_policy active db)
              (λ evaluation. evaluated-Safe ctx profile_id active dry_run evaluation db)))
