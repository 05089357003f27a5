-- ===== src/Transfer/Progress/Throttle.antt =====
-- What the reports of a stream say (crates/televault-transfer/src/progress.rs).
use televault.Prelude.{
  ℕ, ◌+◌, ◌≤◌, ◌<◌, ◌^◌, ◌≡◌, List, [], ◌∷◌, ◌++◌, length, length-append, arith, subst, ◌*◌,
}
use televault.Transfer.Progress.{
  TransferProgress, Meter, on_read, on_write, stream, progress_throttle_byte_delta,
}

abbrev pub sum : List ℕ → ℕ
sum [] = 0
sum (n ∷ ns) = n + sum ns

-- The reports lie between two counts, and do not go back.
abbrev pub Ascends : ℕ → List TransferProgress → ℕ → Type 0
Ascends lo [] hi = lo ≤ hi
Ascends lo (r ∷ rs) hi = (lo ≤ r.bytes_transferred) × Ascends r.bytes_transferred rs hi

Ascends-append :
    (lo mid hi : ℕ) (rs ss : List TransferProgress)
    → Ascends lo rs mid
    → Ascends mid ss hi
    → Ascends lo (rs ++ ss) hi
Ascends-append lo mid hi [] [] h k = omega arith
Ascends-append lo mid hi [] (s ∷ ss) h k = (omega arith, k.1)
Ascends-append lo mid hi (r ∷ rs) ss h k =
    (h.0, Ascends-append r.bytes_transferred mid hi rs ss h.1 k)

-- One read: the count grows by its bytes, and what is reported is the new count.
read_step :
    (m : Meter) (n : ℕ)
    → m.bytes + n < 2 ^ 64
    → ((on_read m n).0.bytes ≡ m.bytes + n) × Ascends m.bytes (on_read m n).1 (m.bytes + n)
unfolding on_read
read_step m n h = ground arith

-- While no count overflows, the meter ends at the bytes read, and the reports never go back and
-- never exceed what has been read.
pub stream-Ascends :
    (m : Meter) (ns : List ℕ)
    → m.bytes + sum ns < 2 ^ 64
    → ((stream on_read m ns).0.bytes ≡ m.bytes + sum ns)
      × Ascends m.bytes (stream on_read m ns).1 (m.bytes + sum ns)
unfolding stream
stream-Ascends m [] h = (omega arith, omega arith)
stream-Ascends m (n ∷ ns) h =
    let m' = (on_read m n).0 in
    let (count, ups) = read_step m n (omega arith) in
    let (ends, rest) = stream-Ascends m' ns (omega arith) in
    let sums : m.bytes + n + sum ns ≡ m.bytes + sum (n ∷ ns) = omega arith in
    (
      omega (arith, ends, count),
      Ascends-append m.bytes (m.bytes + n) (m.bytes + sum (n ∷ ns)) (on_read m n).1
          (stream on_read m' ns).1 ups
          (subst (λ b. Ascends (m.bytes + n) (stream on_read m' ns).1 b) sums
            (subst (λ b. Ascends b (stream on_read m' ns).1 (b + sum ns)) count rest)),
    )

abbrev Metered : Meter → Type 0
Metered m = m.last_reported_bytes ≤ m.bytes

-- One write: each report is paid for by the bytes since the last.
write_step :
    (m : Meter) (n : ℕ)
    → m.bytes + n < 2 ^ 64
    → Metered m
    → ((on_write m n).0.bytes ≡ m.bytes + n)
      × Metered (on_write m n).0
      × (m.last_reported_bytes + progress_throttle_byte_delta * length (on_write m n).1
          ≤ (on_write m n).0.last_reported_bytes)
unfolding on_write
write_step m n h k = ground arith

writes_paid :
    (m : Meter) (ns : List ℕ)
    → m.bytes + sum ns < 2 ^ 64
    → Metered m
    → m.last_reported_bytes + progress_throttle_byte_delta * length (stream on_write m ns).1
      ≤ m.bytes + sum ns
unfolding stream
writes_paid m [] h k = omega arith
writes_paid m (n ∷ ns) h k =
    let m' = (on_write m n).0 in
    let (count, metered, paid) = write_step m n (omega arith) k in
    let rest = writes_paid m' ns (omega arith) metered in
    omega (arith, length-append {0} (on_write m n).1 (stream on_write m' ns).1)

-- A download of fewer than 2^64 bytes, in writes of any sizes to a fresh meter, makes at most one
-- report for each 256 KiB.
pub stream-throttled :
    (m : Meter) (ns : List ℕ)
    → m.bytes ≡ 0
    → m.last_reported_bytes ≡ 0
    → sum ns < 2 ^ 64
    → length (stream on_write m ns).1 * progress_throttle_byte_delta ≤ sum ns
stream-throttled m ns b l h = omega (arith, writes_paid m ns (omega arith) (omega arith))
