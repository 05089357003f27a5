-- ===== src/Transfer/Effects.antt =====
-- Statements of the workers: they change the job that they were handed, report progress, and may
-- return early with an error. What they changed before the error stays.
use televault.Prelude.{Bool, List, ◌++◌, Result, ok, err, if◌then◌else◌, ◌≡◌, ap}
use televault.Transfer.Error.{TransferError}
use televault.Transfer.State.{TransferState}
use televault.Transfer.Job.{TransferJob, transition}
use televault.Transfer.Progress.{TransferProgress}

pub record Run : Type 0 where
  pub job : TransferJob
  pub reports : List TransferProgress

abbrev pub Action : Type 0 → Type 0
Action A = Run → Result TransferError A × Run

-- What follows a statement: `f`, or nothing after an error.
abbrev pub and_then :
    {A B : Type 0} → (A → Action B) → Result TransferError A × Run → Result TransferError B × Run
and_then f (result, r) = elim result [ ok a ↦ f a r | err e ↦ (err e, r) ]

infixl 5 ◌>>=◌ ◌>>◌
abbrev pub ◌>>=◌ : {A B : Type 0} → Action A → (A → Action B) → Action B
◌>>=◌ m f r = and_then f (m r)

abbrev pub ◌>>◌ : {B : Type 0} → Action (Unit {0}) → Action B → Action B
m >> k = m >>= λ _. k

abbrev pub pure : {A : Type 0} → A → Action A
pure a r = (ok a, r)

-- `return Err(e)`
abbrev pub fail : {A : Type 0} → TransferError → Action A
fail e r = (err e, r)

abbrev pub get_job : Action TransferJob
get_job r = (ok r.job, r)

abbrev pub modify : (TransferJob → TransferJob) → Action (Unit {0})
modify f r = (ok tt, record r { job = f r.job })

abbrev pub emit : List TransferProgress → Action (Unit {0})
emit ps r = (ok tt, record r { reports = r.reports ++ ps })

-- `if test { body }`
abbrev pub when : Bool → Action (Unit {0}) → Action (Unit {0})
when test body = if test then body else pure tt

-- `job.transition(next)?`
abbrev pub move : TransferState → Action (Unit {0})
move next r = elim (transition r.job next) [
  | ok job ↦ (ok tt, record r { job = job })
  | err e ↦ (err e, r)
]

-- `let _ = job.transition(next);`
abbrev pub move_quietly : TransferState → Action (Unit {0})
move_quietly next r = elim (transition r.job next) [
  | ok job ↦ (ok tt, record r { job = job })
  | err e ↦ (ok tt, r)
]

-- `value?`
abbrev pub lift : {A : Type 0} → Result TransferError A → Action A
lift v r = (v, r)

module _ {A B : Type 0} (m : Action A) (f : A → Action B) (r : Run) where
  -- A chain goes on after a first part that succeeds, and ends with the error of one that fails.
  pub >>=-of_ok : (a : A) → (m r).0 ≡ ok a → (m >>= f) r ≡ f a (m r).1
  >>=-of_ok a h = ap (λ v. and_then f (v, (m r).1)) h

  pub >>=-of_err : (e : TransferError) → (m r).0 ≡ err e → (m >>= f) r ≡ (err e, (m r).1)
  >>=-of_err e h = ap (λ v. and_then f (v, (m r).1)) h
