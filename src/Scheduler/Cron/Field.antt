-- ===== src/Scheduler/Cron/Field.antt =====
-- The sets that the items of a cron field make.
use televault.Scheduler.Clock.{found, failed, panicked, out_of_fuel}
use televault.Scheduler.Clock.{Outcome, ◌>>=◌, ok_or, found, failed, panicked, out_of_fuel}
use televault.Scheduler.Guard.{SchedulerError}
use televault.Prelude.Parsing.{
  split, has_char, strip_prefix, digits, after_plus, at_most, parse_u32, set_insert,
}
use televault.Scheduler.Cron.{
  insert_range, insert_steps, item_steps, item_range, item_value, plain_item, insert_item,
  insert_items,
}
use televault.Prelude.{
  ℕ, zero, suc, ◌+◌, ◌-◌, ◌%◌, ◌^◌, ◌≤◌, ◌<◌, ◌≡◌, refl, inl, inr, false, ◌||◌, Option, none, some,
  List, [], ◌∷◌, arith, ltb, leb, ◌==◌, Bool-cases, if_split, All, Text, text, text_eq, trim, the,
  ltb→lt,
}

abbrev pub AtMost : ℕ → List ℕ → Type 0
AtMost max values = All (λ v. v ≤ max) values

pub AtMost-insert : (max v : ℕ) (s : List ℕ) → v ≤ max → AtMost max s → AtMost max (set_insert v s)
unfolding set_insert
AtMost-insert max v [] h k = (h, k)
AtMost-insert max v (w ∷ s) h k =
    search (if_split (AtMost max), if_split (AtMost max), AtMost-insert max v s h k.1, h, k, k.0)
      depth 12

AtMost-range :
    (max n v : ℕ) (s : List ℕ) → n + v ≤ suc max → AtMost max s → AtMost max (insert_range n v s)
unfolding insert_range
AtMost-range max zero v s h k = k
AtMost-range max (suc n) v s h k =
    AtMost-range max n (suc v) (set_insert v s) (omega arith)
      (AtMost-insert max v s (omega arith) k)

-- A loop ends with a set within the bound, or an error.
abbrev pub Bounded : ℕ → Outcome (List ℕ) → Type 0
Bounded max (found values) = AtMost max values
Bounded max (failed e) = Unit
Bounded max panicked = ⊥
Bounded max out_of_fuel = ⊥

-- A step that cannot wrap around ends by growth, a longer one at once.
Bounded-small :
    (fuel step max v : ℕ) (s : List ℕ)
    → 0 < step
    → step + max < 2 ^ 32
    → 0 < fuel
    → max + 2 ≤ fuel + v
    → AtMost max s
    → Bounded max (insert_steps fuel step max v s)
unfolding insert_steps
Bounded-small zero step max v s p b h f k = omega arith
Bounded-small (suc fuel) step max v s p b h f k = elim (Bool-cases (leb v max)) [
  | inl e ↦ rw e (
      Bounded-small fuel step max ((v + step) % 2 ^ 32) (set_insert v s) p b (ground arith)
        (ground arith) (AtMost-insert max v s (ground arith) k))
  | inr e ↦ rw e k
]

-- A step beyond the bound, from a value where it does not wrap around, and from any of 0 and 1.
Bounded-over :
    (fuel step max v : ℕ) (s : List ℕ)
    → max < (v + step) % 2 ^ 32
    → AtMost max s
    → Bounded max (insert_steps (suc (suc fuel)) step max v s)
unfolding insert_steps
Bounded-over fuel step max v s b k = elim (Bool-cases (leb v max)) [
  | inl e ↦ rw e (
      rw (the (leb ((v + step) % 2 ^ 32) max ≡ false) (ground arith))
        (AtMost-insert max v s (ground arith) k))
  | inr e ↦ rw e k
]

Bounded-large :
    (fuel step max v : ℕ) (s : List ℕ)
    → 2 ^ 32 ≤ step + max
    → step < 2 ^ 32
    → v ≤ 1
    → max < 100
    → AtMost max s
    → Bounded max (insert_steps (suc (suc (suc fuel))) step max v s)
unfolding insert_steps
Bounded-large fuel step max v s h b c d k = elim (Bool-cases (ltb (v + step) (2 ^ 32))) [
  | inl e ↦ Bounded-over (suc fuel) step max v s (ground arith) k
  | inr e ↦ elim (Bool-cases (leb v max)) [
    | inl l ↦ rw l (
        Bounded-over fuel step max ((v + step) % 2 ^ 32) (set_insert v s) (ground arith)
          (AtMost-insert max v s (ground arith) k))
    | inr l ↦ rw l k
  ]
]

-- The loop from 0 or 1, with a step of 32 bits.
Bounded-steps :
    (step max v : ℕ) (s : List ℕ)
    → 0 < step
    → step < 2 ^ 32
    → v ≤ 1
    → max < 100
    → AtMost max s
    → Bounded max (insert_steps (max + 3) step max v s)
Bounded-steps step max v s p b h c k = elim (Bool-cases (ltb (step + max) (2 ^ 32))) [
  | inl e ↦
      Bounded-small (max + 3) step max v s p (ltb→lt (step + max) (2 ^ 32) e) (omega arith)
        (omega arith) k
  | inr e ↦
      rw (the (max + 3 ≡ suc (suc (suc max))) (omega arith))
        (Bounded-large max step max v s (ground arith) b h c k)
]

at_most_lt : (o : Option ℕ) (n : ℕ) → at_most (2 ^ 32 - 1) o ≡ some n → n < 2 ^ 32
at_most_lt none n h = ground arith
at_most_lt (some m) n h = ground arith

parse_u32_lt : (s : Text) (n : ℕ) → parse_u32 s ≡ some n → n < 2 ^ 32
unfolding parse_u32
parse_u32_lt s n h = at_most_lt (digits (after_plus s)) n h

-- The parts of a parse: a number, and what is made of it.
Bounded-number :
    (max : ℕ) (e : SchedulerError) (o : Option ℕ) (rest : ℕ → Outcome (List ℕ))
    → ((n : ℕ) → o ≡ some n → Bounded max (rest n))
    → Bounded max (ok_or e o >>= rest)
Bounded-number max e none rest h = tt
Bounded-number max e (some n) rest h = h n refl

Bounded-bind :
    (max : ℕ) (r : Outcome (List ℕ)) (rest : List ℕ → Outcome (List ℕ))
    → Bounded max r
    → ((s : List ℕ) → AtMost max s → Bounded max (rest s))
    → Bounded max (r >>= rest)
Bounded-bind max (found s) rest k h = h s k
Bounded-bind max (failed e) rest k h = tt
Bounded-bind max panicked rest k h = k
Bounded-bind max out_of_fuel rest k h = k

module _ (min max : ℕ) (name : Text) (l : min ≤ 1) (u : max < 100) (b : min ≤ max) where
  Bounded-item_steps :
      (step_str : Text) (s : List ℕ)
      → AtMost max s
      → Bounded max (item_steps min max name step_str s)
  unfolding item_steps
  Bounded-item_steps step_str s k = Bounded-number max _ (parse_u32 step_str) _ (λ step e.
      elim (Bool-cases (step == 0)) [
        | inl z ↦ rw z tt
        | inr z ↦
            rw z (Bounded-steps step max min s (ground arith) (parse_u32_lt step_str step e) l u k)
      ])

  Bounded-item_range :
      (item : Text) (parts : List Text) (s : List ℕ)
      → AtMost max s
      → Bounded max (item_range min max name item parts s)
  unfolding item_range
  Bounded-item_range item [] s k = tt
  Bounded-item_range item (p ∷ []) s k = tt
  Bounded-item_range item (p ∷ q ∷ r ∷ parts) s k = tt
  Bounded-item_range item (p ∷ q ∷ []) s k = Bounded-number max _ (parse_u32 p) _ (λ start e.
      Bounded-number max _ (parse_u32 q) _ (λ end d.
        elim (Bool-cases (ltb end start || ltb start min || ltb max end)) [
          | inl z ↦ rw z tt
          | inr z ↦ rw z (AtMost-range max (suc end - start) start s (ground arith) k)
        ]))

  Bounded-item_value :
      (item : Text) (s : List ℕ) → AtMost max s → Bounded max (item_value min max name item s)
  unfolding item_value
  Bounded-item_value item s k = Bounded-number max _ (parse_u32 item) _ (λ val e.
      elim (Bool-cases (ltb val min || ltb max val)) [
        | inl z ↦ rw z tt
        | inr z ↦ rw z (AtMost-insert max val s (ground arith) k)
      ])

  Bounded-plain_item :
      (item : Text) (step : Option Text) (s : List ℕ)
      → AtMost max s
      → Bounded max (plain_item min max name item step s)
  unfolding plain_item
  Bounded-plain_item item (some step_str) s k = Bounded-item_steps step_str s k
  Bounded-plain_item item none s k = elim (Bool-cases (has_char b'-' item)) [
    | inl z ↦ rw z (Bounded-item_range item (split b'-' item) s k)
    | inr z ↦ rw z (Bounded-item_value item s k)
  ]

  Bounded-item :
      (item : Text) (s : List ℕ) → AtMost max s → Bounded max (insert_item min max name item s)
  unfolding insert_item
  Bounded-item item s k = elim (Bool-cases (text_eq item (text "*"))) [
    | inl z ↦ rw z (AtMost-range max (suc max - min) min s (omega arith) k)
    | inr z ↦ rw z (Bounded-plain_item item (strip_prefix (text "*/") item) s k)
  ]

  pub Bounded-items :
      (items : List Text) (s : List ℕ)
      → AtMost max s
      → Bounded max (insert_items min max name items s)
  unfolding insert_items
  Bounded-items [] s k = k
  Bounded-items (item ∷ items) s k =
      Bounded-bind max (insert_item min max name (trim item) s) _ (Bounded-item (trim item) s k)
        (λ s' k'. Bounded-items items s' k')
