-- ===== src/Transfer/State.antt =====
-- crates/televault-transfer/src/state.rs: the states of a transfer and its transition rules.
pub mod Paths
use televault.Prelude.{
  Bool, true, false, Text, text, Result, ok, err, if◌then◌else◌, not, arith, ◌≡◌,
}
use televault.Core.Models.{TransferStatus}
use televault.Transfer.Error.{TransferError, invalid_state_transition}

pub data TransferState : Type 0 where
  pending preparing transferring verifying completed failed retrying cancelled : TransferState

-- `*current == target`, the derived equality.
abbrev pub same_state : TransferState → TransferState → Bool
same_state pending pending = true
same_state preparing preparing = true
same_state transferring transferring = true
same_state verifying verifying = true
same_state completed completed = true
same_state failed failed = true
same_state retrying retrying = true
same_state cancelled cancelled = true
same_state _ _ = false

-- The arms of the `match` below its first.
abbrev follows : TransferState → TransferState → Bool
follows pending preparing = true
follows pending cancelled = true
follows pending failed = true
follows preparing transferring = true
follows preparing failed = true
follows preparing cancelled = true
follows transferring verifying = true
follows transferring completed = true
follows transferring retrying = true
follows transferring failed = true
follows transferring cancelled = true
follows verifying completed = true
follows verifying retrying = true
follows verifying failed = true
follows verifying cancelled = true
follows retrying preparing = true
follows retrying transferring = true
follows retrying failed = true
follows retrying cancelled = true
follows _ _ = false

-- `TransferState::can_transition_to`.
unfoldable pub can_transition_to : TransferState → TransferState → Bool
can_transition_to current next = if same_state current next then true else follows current next

-- `Display for TransferState`.
unfoldable pub state_text : TransferState → Text
state_text pending = text "pending"
state_text preparing = text "preparing"
state_text transferring = text "transferring"
state_text verifying = text "verifying"
state_text completed = text "completed"
state_text failed = text "failed"
state_text retrying = text "retrying"
state_text cancelled = text "cancelled"

-- `TransferState::transition_to`: the new value of `*self`.
unfoldable pub transition_to : TransferState → TransferState → Result TransferError TransferState
unfolding can_transition_to
transition_to s next =
    if not (can_transition_to s next)
    then err (invalid_state_transition (state_text s) (state_text next))
    else ok next

-- `TransferState::is_terminal`.
unfoldable pub is_terminal : TransferState → Bool
is_terminal completed = true
is_terminal failed = true
is_terminal cancelled = true
is_terminal _ = false

-- `TransferState::is_active`.
unfoldable pub is_active : TransferState → Bool
is_active preparing = true
is_active transferring = true
is_active verifying = true
is_active retrying = true
is_active _ = false

-- `TransferState::to_transfer_status`.
unfoldable pub to_transfer_status : TransferState → TransferStatus
to_transfer_status pending = TransferStatus.pending
to_transfer_status preparing = TransferStatus.pending
to_transfer_status transferring = TransferStatus.transferring
to_transfer_status verifying = TransferStatus.transferring
to_transfer_status retrying = TransferStatus.paused
to_transfer_status completed = TransferStatus.completed
to_transfer_status failed = TransferStatus.failed
to_transfer_status cancelled = TransferStatus.cancelled
