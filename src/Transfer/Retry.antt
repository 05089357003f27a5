-- ===== src/Transfer/Retry.antt =====
-- crates/televault-transfer/src/retry.rs: how often, and after what delay, a transfer is tried again.
use televault.Prelude.{
  ℕ, suc, ◌<◌, ◌≡◌, true, false, ◌≤◌, ◌-◌, ◌%◌, ◌^◌, Bool, ltb, ◌==◌, if◌then◌else◌, min, max,
  arith,
}
use televault.Prelude.Int.{ℤ, pos, negsuc}

pub record RetryPolicy (F64 : Type 0) : Type 0 where
  pub max_retries : ℕ
  pub initial_backoff_ms : ℕ
  pub max_backoff_ms : ℕ
  pub backoff_factor : F64

-- `RetryPolicy::can_retry`.
unfoldable pub can_retry : {F64 : Type 0} → RetryPolicy F64 → ℕ → Bool
can_retry p attempts_so_far = ltb attempts_so_far p.max_retries

pub can_retry_lt :
    {F64 : Type 0} (p : RetryPolicy F64) (n : ℕ) → n < p.max_retries → can_retry p n ≡ true
unfolding can_retry
can_retry_lt p n h = ground arith

pub can_retry_ge :
    {F64 : Type 0} (p : RetryPolicy F64) (n : ℕ) → p.max_retries ≤ n → can_retry p n ≡ false
unfolding can_retry
can_retry_ge p n h = ground arith

-- The floating-point operations of the delay: `f64` and its rounding are not modelled, and stand
-- for whatever the processor computes.
pub record Float (F64 : Type 0) : Type 0 where
  pub of_u64 : ℕ → F64
  pub powi : F64 → ℤ → F64
  pub mul : F64 → F64 → F64
  -- `.round() as u64`
  pub round_to_u64 : F64 → ℕ

-- `n as i32` of a `u32`.
abbrev as_i32 : ℕ → ℤ
as_i32 n = let w = n % 2 ^ 32 in if ltb w (2 ^ 31) then pos w else negsuc (2 ^ 32 - 1 - w)

-- `RetryPolicy::calculate_backoff`, in milliseconds.
unfoldable pub calculate_backoff : {F64 : Type 0} → Float F64 → RetryPolicy F64 → ℕ → ℕ
calculate_backoff float p attempt =
    if attempt == 0
    then p.initial_backoff_ms
    else let factor = float.powi p.backoff_factor (as_i32 attempt) in
      let calculated_ms =
        float.round_to_u64 (float.mul (float.of_u64 p.initial_backoff_ms) factor) in
      min calculated_ms p.max_backoff_ms

-- Whatever the floating-point operations compute, the delay never exceeds the larger of the initial
-- delay and the ceiling, and from the second attempt on it never exceeds the ceiling.
pub calculate_backoff_bounds :
    {F64 : Type 0} (float : Float F64) (p : RetryPolicy F64) (attempt : ℕ)
    → (calculate_backoff float p attempt ≤ max p.initial_backoff_ms p.max_backoff_ms)
      × (calculate_backoff float p (suc attempt) ≤ p.max_backoff_ms)
unfolding calculate_backoff
calculate_backoff_bounds float p attempt = ground arith
