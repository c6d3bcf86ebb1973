-- ===== src/Mediated/Mediator/Transition.antt =====
-- The mediator's transition: `state_transition` of
-- src/gatecoin/transfer/mediated_transfer/mediator.py.
use gatecoin.Common.{ℕ, Option, none, some, [], Result, ok, assert_some, ◌>>=◌, ◌>>◌, Fault}
use gatecoin.Externals.{Externals}
use gatecoin.State.{LockedTransferSignedState}
use gatecoin.Channel.Receive.{ReceiveUnlock, ReceiveLockExpired}
use gatecoin.Mediated.Waiting.{ReceiveSecretReveal, ContractReceiveSecretReveal}
use gatecoin.Mediated.Channels.{Channels}
use gatecoin.Mediated.Mediator.{MediatorTransferState, sanity_check, Iteration, clear_if_finalized}
use gatecoin.Mediated.Mediator.Forward.{Fees, ActionInitMediator, handle_init}
use gatecoin.Mediated.Mediator.Handle.{
  Step, handle_block, handle_refundtransfer, handle_offchain_secretreveal,
  handle_onchain_secretreveal,
}
use gatecoin.Mediated.Mediator.Receive.{handle_unlock, handle_lock_expired}

pub data MediatorChange : Type 0 where
  action_init_mediator : ActionInitMediator → MediatorChange
  -- block number and hash
  block : ℕ → ℕ → MediatorChange
  receive_transfer_refund : LockedTransferSignedState → MediatorChange
  receive_secret_reveal : ReceiveSecretReveal → MediatorChange
  contract_receive_secret_reveal : ContractReceiveSecretReveal → MediatorChange
  receive_unlock : ReceiveUnlock → MediatorChange
  receive_lock_expired : ReceiveLockExpired → MediatorChange
  other : MediatorChange

-- The handler of a change to a running task.
unfoldable pub step :
    Externals → Fees → MediatorTransferState → MediatorChange → Channels → ℕ → ℕ → ℕ → Result Step
step x fees s (action_init_mediator m) h prng block_number block_hash = ok (s, h, prng, [])
step x fees s (block number hash) h prng block_number block_hash =
    handle_block x fees s h number hash prng
step x fees s (receive_transfer_refund t) h prng block_number block_hash =
    handle_refundtransfer x fees s t h prng block_number
step x fees s (receive_secret_reveal m) h prng block_number block_hash =
    handle_offchain_secretreveal x s m h prng block_number block_hash
step x fees s (contract_receive_secret_reveal m) h prng block_number block_hash =
    handle_onchain_secretreveal x s m h prng
step x fees s (receive_unlock m) h prng block_number block_hash = handle_unlock x s m h prng
step x fees s (receive_lock_expired m) h prng block_number block_hash =
    ok (handle_lock_expired x s m h block_number prng)
step x fees s other h prng block_number block_hash = ok (s, h, prng, [])

unfoldable pub dispatch :
    Externals
    → Fees
    → Option MediatorTransferState
    → MediatorChange
    → Channels
    → ℕ
    → ℕ
    → ℕ
    → Result Iteration
dispatch x fees none (action_init_mediator m) h prng block_number block_hash =
    handle_init x fees m h prng block_number
dispatch x fees none other h prng block_number block_hash = ok (none, h, prng, [])
dispatch x fees task change h prng block_number block_hash = do
  s ← assert_some task Fault.state_missing
  (s', h', prng', events) ← step x fees s change h prng block_number block_hash
  ok (some s', h', prng', events)

-- Of what a handler returns, the task is checked, and dropped once it is finalized.
abbrev pub check_task : Option MediatorTransferState → Channels → Result (Unit {0})
check_task none h = ok tt
check_task (some s) h = sanity_check s h

unfoldable pub state_transition :
    Externals
    → Fees
    → Option MediatorTransferState
    → MediatorChange
    → Channels
    → ℕ
    → ℕ
    → ℕ
    → Result Iteration
state_transition x fees task change h prng block_number block_hash = do
  (task', h', prng', events) ← dispatch x fees task change h prng block_number block_hash
  check_task task' h'
  ok (clear_if_finalized (task', h', prng', events))
