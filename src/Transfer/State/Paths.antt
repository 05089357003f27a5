-- ===== src/Transfer/State/Paths.antt =====
-- What a transfer can go through (crates/televault-transfer/src/state.rs): the states that it ends
-- in, and those that it must pass.
use televault.Prelude.{
  Bool, true, false, ◌≡◌, refl, sym, ◌⊎◌, inl, inr, List, [], ◌∷◌, Result, ok, >>=-eq-ok, ◌>>=◌,
  arith,
}
use televault.Transfer.Error.{TransferError}
use televault.Transfer.State.{
  TransferState, pending, preparing, transferring, completed, failed, cancelled, transition_to,
  is_terminal, is_active,
}
use mathlib.Core.List.{Memᴰ}

-- Transitions asked for in turn, where a refused one ends the run.
unfoldable pub run : TransferState → List TransferState → Result TransferError TransferState
run s [] = ok s
run s (next ∷ rest) = transition_to s next >>= λ s'. run s' rest

step_of_terminal :
    (s next s' : TransferState) → is_terminal s ≡ true → transition_to s next ≡ ok s' → s' ≡ s
unfolding is_terminal transition_to
step_of_terminal s next s' t h = ground arith

-- From a completed, failed or cancelled transfer, no sequence of accepted transitions leads to
-- another state.
pub terminal_absorbs :
    (s : TransferState) (path : List TransferState) (s' : TransferState)
    → is_terminal s ≡ true
    → run s path ≡ ok s'
    → s' ≡ s
unfolding run
terminal_absorbs s [] s' t h = cc
terminal_absorbs s (next ∷ rest) s' t h =
    let (m, moved, ends) = >>=-eq-ok (transition_to s next) (λ u. run u rest) h in
    let stays = step_of_terminal s next m t moved in
    cc (stays, terminal_absorbs m rest s' (cc (stays)) ends)

-- Each state is queued, active or terminal, and no two of these.
pub state_classes :
    (s : TransferState)
    → ((s ≡ pending) × (is_active s ≡ false) × (is_terminal s ≡ false))
      ⊎ ((is_active s ≡ true) × (is_terminal s ≡ false))
      ⊎ ((is_active s ≡ false) × (is_terminal s ≡ true))
unfolding is_active is_terminal
state_classes s = ground arith

-- A transfer that has not ended can always be cancelled and can always fail.
pub can_always_stop :
    (s : TransferState)
    → is_terminal s ≡ false
    → (transition_to s cancelled ≡ ok cancelled) × (transition_to s failed ≡ ok failed)
unfolding is_terminal transition_to
can_always_stop s h = ground arith

-- States that a transfer has before any byte was sent.
abbrev is_unsent : TransferState → Bool
is_unsent pending = true
is_unsent preparing = true
is_unsent failed = true
is_unsent cancelled = true
is_unsent _ = false

step_unsent :
    (s next s' : TransferState)
    → is_unsent s ≡ true
    → transition_to s next ≡ ok s'
    → (next ≡ transferring) ⊎ (is_unsent s' ≡ true)
unfolding transition_to
step_unsent s next s' u h = ground arith

run_unsent :
    (s : TransferState) (path : List TransferState)
    → is_unsent s ≡ true
    → run s path ≡ ok completed
    → Memᴰ transferring path
unfolding run
run_unsent s [] u h = ground arith
run_unsent s (next ∷ rest) u h =
    let (m, moved, ends) = >>=-eq-ok (transition_to s next) (λ t. run t rest) h in
    elim (step_unsent s next m u moved) [
      | inl e ↦ Memᴰ.head (sym e)
      | inr e ↦ Memᴰ.tail (run_unsent m rest e ends)
    ]

-- Every way from a queued transfer to a completed one passes through `transferring`.
pub completed_needs_transferring :
    (path : List TransferState) → run pending path ≡ ok completed → Memᴰ transferring path
completed_needs_transferring path h = run_unsent pending path refl h
