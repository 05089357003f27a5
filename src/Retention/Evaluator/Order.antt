-- ===== src/Retention/Evaluator/Order.antt =====
-- The order in which snapshots are decided, and the latest successful one
-- (crates/televault-backup/src/retention/evaluator.rs).
use televault.Prelude.Sorting.{
  sort_by, IsSorted, sort_by-perm, sort_by-IsSorted, All-sort_by, Mem-sort_by,
}
use televault.Retention.Types.{RetentionCandidate}
use televault.Retention.Evaluator.{newest_first, sort_candidates, latest_successful}
use mathlib.Core.List.{Perm, Memᴰ}
use televault.Core.Models.{is_completed}
use mathlib.Core.List.{Perm, Memᴰ}
use televault.Core.Models.{is_completed}
use mathlib.Core.List.{Perm, Memᴰ}
use televault.Core.Models.{is_completed}
use televault.Prelude.{
  compare_text-flip, compare_text-eq, compare_text_refl, compare_text_trans, flip, Ordering, ◌≡◌,
  refl, sym, ap, ◌∙◌, subst, ◌≢◌, ◌⊎◌, inl, inr, true, false, some, List, [], ◌∷◌, arith,
  Bool-cases, if_split, All, compare_text, compare_text-flip, compare_text-eq, compare_text_refl,
  compare_text_trans, flip,
}

newest_first-flip : (a b : RetentionCandidate) → newest_first b a ≡ flip (newest_first a b)
unfolding newest_first
newest_first-flip a b = ground (
  arith,
  compare_text-flip b.created_at a.created_at,
  compare_text-flip b.snapshot_id a.snapshot_id,
)

-- One snapshot is newer than another, or of the same time and with the larger identifier.
abbrev pub Newer : RetentionCandidate → RetentionCandidate → Type 0
Newer a b =
    (compare_text a.created_at b.created_at ≡ Ordering.gt)
    ⊎ ((a.created_at ≡ b.created_at) × (compare_text a.snapshot_id b.snapshot_id ≡ Ordering.gt))

-- Or it has the same time and identifier.
abbrev pub NotOlder : RetentionCandidate → RetentionCandidate → Type 0
NotOlder a b = Newer a b ⊎ ((a.created_at ≡ b.created_at) × (a.snapshot_id ≡ b.snapshot_id))

-- Each element is not older than the next.
abbrev pub Descends : List RetentionCandidate → Type 0
Descends [] = Unit
Descends (a ∷ []) = Unit
Descends (a ∷ b ∷ bs) = NotOlder a b × Descends (b ∷ bs)

newest_first-NotOlder : (a b : RetentionCandidate) → newest_first a b ≢ Ordering.gt → NotOlder a b
unfolding newest_first
newest_first-NotOlder a b h = ground (
  arith,
  compare_text-flip b.created_at a.created_at,
  compare_text-flip b.snapshot_id a.snapshot_id,
  compare_text-eq a.created_at b.created_at,
  compare_text-eq a.snapshot_id b.snapshot_id,
)

Newer-newest_first : (a b : RetentionCandidate) → Newer a b → newest_first b a ≡ Ordering.gt
unfolding newest_first
Newer-newest_first a b (inl h) = rw (newest_first, h) refl
Newer-newest_first a b (inr (e, h)) =
    let same = ap (compare_text a.created_at) (sym e) ∙ compare_text_refl a.created_at in
    rw (newest_first, same, h) refl

newest_first_trans :
    (a b c : RetentionCandidate)
    → newest_first a b ≢ Ordering.gt
    → newest_first b c ≢ Ordering.gt
    → newest_first a c ≢ Ordering.gt
unfolding newest_first
newest_first_trans a b c h k = ground (
  arith,
  compare_text_trans c.created_at b.created_at a.created_at,
  compare_text_trans c.snapshot_id b.snapshot_id a.snapshot_id,
  compare_text-flip a.created_at b.created_at,
  compare_text-flip b.created_at c.created_at,
  compare_text-eq c.created_at a.created_at,
)

sorted-Descends : (cs : List RetentionCandidate) → IsSorted newest_first cs → Descends cs
sorted-Descends [] h = tt
sorted-Descends (a ∷ []) h = tt
sorted-Descends (a ∷ b ∷ bs) (h, t) = (newest_first-NotOlder a b h, sorted-Descends (b ∷ bs) t)

-- The snapshots are decided in an order that has each of them once, in which each is newer than the
-- next, or has the same time and an identifier that is larger or the same.
pub sort_candidates_lem :
    (cs : List RetentionCandidate) → Perm (sort_candidates cs) cs × Descends (sort_candidates cs)
unfolding sort_candidates
sort_candidates_lem cs = (
  sort_by-perm newest_first cs,
  sorted-Descends (sort_by newest_first cs) (sort_by-IsSorted newest_first newest_first-flip cs),
)

-- The first snapshot is not behind any other.
sorted-All :
    (a : RetentionCandidate) (cs : List RetentionCandidate)
    → IsSorted newest_first (a ∷ cs)
    → All (λ c. newest_first a c ≢ Ordering.gt) cs
sorted-All a [] h = tt
sorted-All a (b ∷ []) (h, t) = (h, tt)
sorted-All a (b ∷ c ∷ cs) (h, (k, t)) = (h, sorted-All a (c ∷ cs) (newest_first_trans a b c h k, t))

All-Mem : {A : Type 0} (P : A → Type 0) (x : A) (xs : List A) → Memᴰ x xs → All P xs → P x
All-Mem P x [] m h = elim m [ ]
All-Mem P x (y ∷ ys) (Memᴰ.head e) h = subst P (sym e) h.0
All-Mem P x (y ∷ ys) (Memᴰ.tail m) h = All-Mem P x ys m h.1

not_behind_itself : (a : RetentionCandidate) → newest_first a a ≢ Ordering.gt
unfolding newest_first
not_behind_itself a =
    ground (arith, compare_text_refl a.created_at, compare_text_refl a.snapshot_id)

IsSorted-tail :
    (a : RetentionCandidate) (cs : List RetentionCandidate)
    → IsSorted newest_first (a ∷ cs)
    → IsSorted newest_first cs
IsSorted-tail a [] h = tt
IsSorted-tail a (b ∷ bs) (h, t) = t

-- The latest successful snapshot is a completed one, and no completed one comes before it.
abbrev NoneNewer : List RetentionCandidate → RetentionCandidate → RetentionCandidate → Type 0
NoneNewer cs c l =
    (latest_successful cs ≡ some l.snapshot_id)
    × Memᴰ l cs
    × (is_completed l.status ≡ true)
    × (newest_first l c ≢ Ordering.gt)

found_first :
    (a : RetentionCandidate) (cs : List RetentionCandidate)
    → is_completed a.status ≡ true
    → latest_successful (a ∷ cs) ≡ some a.snapshot_id
unfolding latest_successful
found_first a cs h =
    if_split (λ r. r ≡ some a.snapshot_id) (is_completed a.status) (λ e. refl) (λ e. cc)

latest_successful-NoneNewer :
    (cs : List RetentionCandidate) (c : RetentionCandidate)
    → IsSorted newest_first cs
    → Memᴰ c cs
    → is_completed c.status ≡ true
    → (l : RetentionCandidate) × NoneNewer cs c l
unfolding latest_successful
latest_successful-NoneNewer [] c h m done = elim m [ ]
latest_successful-NoneNewer (a ∷ cs) c h (Memᴰ.head e) done =
    let there = subst (λ x. is_completed x.status ≡ true) e done in
    let first = subst (λ x. newest_first a x ≢ Ordering.gt) (sym e) (not_behind_itself a) in
    (a, (found_first a cs there, Memᴰ.head refl, there, first))
latest_successful-NoneNewer (a ∷ cs) c h (Memᴰ.tail m) done =
    elim (Bool-cases (is_completed a.status)) [
      | inl there ↦ (
        a,
        (
          found_first a cs there,
          Memᴰ.head refl,
          there,
          All-Mem (λ x. newest_first a x ≢ Ordering.gt) c cs m (sorted-All a cs h),
        ),
      )
      | inr gone ↦
          let (l, (first, mem, ends, before)) =
            latest_successful-NoneNewer cs c (IsSorted-tail a cs h) m done in
          (
            l,
            (
              if_split (λ r. r ≡ some l.snapshot_id) (is_completed a.status) (λ e. cc) (λ e. first),
              Memᴰ.tail mem,
              ends,
              before,
            ),
          )
    ]

-- A completed snapshot that is newer than every other completed one is the latest successful one.
abbrev pub IsNewestCompleted : List RetentionCandidate → RetentionCandidate → Type 0
IsNewestCompleted cs c = All (λ d. (is_completed d.status ≡ false) ⊎ (d ≡ c) ⊎ Newer c d) cs

pub latest_successful-sort_candidates :
    (cs : List RetentionCandidate) (c : RetentionCandidate)
    → Memᴰ c cs
    → is_completed c.status ≡ true
    → IsNewestCompleted cs c
    → latest_successful (sort_candidates cs) ≡ some c.snapshot_id
unfolding sort_candidates
latest_successful-sort_candidates cs c m done newest =
    let sorted = sort_by newest_first cs in
    let (l, (first, mem, ends, before)) =
      latest_successful-NoneNewer sorted c (sort_by-IsSorted newest_first newest_first-flip cs)
        (Mem-sort_by newest_first cs m) done in
    elim (All-Mem _ l sorted mem (All-sort_by newest_first _ cs newest)) [
      | inl other ↦ absurd (cc (other, ends))
      | inr (inl same) ↦ first ∙ ap (λ x. some x.snapshot_id) same
      | inr (inr newer) ↦ absurd (before (Newer-newest_first c l newer))
    ]
