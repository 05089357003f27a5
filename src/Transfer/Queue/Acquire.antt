-- ===== src/Transfer/Queue/Acquire.antt =====
-- Handing out a job keeps the queue in order (crates/televault-transfer/src/queue.rs).
use televault.Prelude.{
  ◌<◌, true, false, ◌≡◌, sym, subst, ap, ◌∙◌, inl, inr, List, [], ◌∷◌, ◌++◌, length, Text,
  text_eq_iff, arith,
}
use televault.Prelude.Keyed.{contains, add, Distinct, contains-add, Distinct-add, length-add}
use televault.Transfer.Queue.{Queue, Acquired, acquire_next_job}
use televault.Transfer.Queue.Fifo.{IsFirst, acquire_next_job-IsFirst}
use televault.Transfer.Queue.Invariant.{IsKnown, Inv}

contains-suffix :
    (ds : List Text) (k : Text) (ps : List Text) (j : Text)
    → contains ps j ≡ true
    → contains (ds ++ k ∷ ps) j ≡ true
unfolding contains
contains-suffix [] k ps j h = ground arith
contains-suffix (d ∷ ds) k ps j h = ground (arith, contains-suffix ds k ps j)

contains-middle : (ds : List Text) (k : Text) (ps : List Text) → contains (ds ++ k ∷ ps) k ≡ true
unfolding contains
contains-middle [] k ps = ground (arith, text_eq_iff k k)
contains-middle (d ∷ ds) k ps = ground (arith, contains-middle ds k ps)

Distinct-suffix :
    (ds : List Text) (k : Text) (ps : List Text)
    → Distinct (ds ++ k ∷ ps)
    → Distinct ps × (contains ps k ≡ false)
Distinct-suffix [] k ps d = (d.1, d.0)
Distinct-suffix (c ∷ ds) k ps d = Distinct-suffix ds k ps d.1

taken-IsKnown :
    (q : Queue) (ps : List Text) (k j : Text)
    → IsKnown q j
    → IsKnown q k
    → contains q.pending k ≡ true
    → contains ps k ≡ false
    → (contains ps j ≡ true → contains q.pending j ≡ true)
    → IsKnown (record q { pending = ps; active = add k q.active }) j
taken-IsKnown q ps k j i known waiting gone h =
    ground (arith, text_eq_iff k j, contains-add q.active k j)

-- The queue after a job was handed out, and the job's key, which was not running before.
pub IsFirst-Inv :
    (q : Queue) (result : Acquired)
    → Inv q
    → length q.active < q.max_concurrency
    → (f : IsFirst q q.pending result)
    → Inv result.1 × (contains q.active f.key ≡ false) × (contains result.1.active f.key ≡ true)
IsFirst-Inv q result i room f =
    let d : Distinct (f.dropped ++ f.key ∷ f.rest) = subst Distinct f.split i.pending_distinct in
    let at_key = ap (λ ps. contains ps f.key) f.split ∙ contains-middle f.dropped f.key f.rest in
    let (distinct, gone) = Distinct-suffix f.dropped f.key f.rest d in
    (
      subst Inv (ap (λ p. p.1) (sym f.handed_out)) (record {
        capped = omega (arith, length-add q.active f.key);
        roomy = i.roomy;
        pending_distinct = distinct;
        active_distinct = Distinct-add q.active f.key i.active_distinct;
        known = λ j.
            taken-IsKnown q f.rest f.key j (i.known j) (i.known f.key) at_key gone
              (λ h. ap (λ ps. contains ps j) f.split ∙ contains-suffix f.dropped f.key f.rest j h);
      }),
      ground (arith, (i.known f.key).apart, at_key),
      ap (λ p. contains p.1.active f.key) f.handed_out
          ∙ ground (arith, contains-add q.active f.key f.key, text_eq_iff f.key f.key),
    )

emptied : (q : Queue) (k : Text) → IsKnown q k → IsKnown (record q { pending = [] }) k
unfolding contains
emptied q k i = ground arith

pub acquire_next_job-Inv : (q : Queue) → Inv q → Inv (acquire_next_job q).1
acquire_next_job-Inv q i = elim (acquire_next_job-IsFirst q) [
  | inl (full, e) ↦ subst Inv (ap (λ p. p.1) (sym e)) i
  | inr (room, inl (e, all)) ↦ subst Inv (ap (λ p. p.1) (sym e)) (record {
    capped = i.capped;
    roomy = i.roomy;
    pending_distinct = tt;
    active_distinct = i.active_distinct;
    known = λ k. emptied q k (i.known k);
  })
  | inr (room, inr f) ↦ (IsFirst-Inv q _ i room f).0
]
