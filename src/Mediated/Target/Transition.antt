-- ===== src/Mediated/Target/Transition.antt =====
-- The target's dispatch and its sanity check: `state_transition` and `sanity_check` of
-- src/gatecoin/transfer/mediated_transfer/target.py.
use gatecoin.Common.{
  ℕ, not, ◌==◌, Option, none, some, is_some, [], Result, ok, assert, assert_some, ◌>>=◌, ◌>>◌,
  Fault,
}
use gatecoin.Externals.{Externals}
use gatecoin.State.{NettingChannelState}
use gatecoin.Channel.Query.{get_lock}
use gatecoin.Channel.Receive.{ReceiveUnlock, ReceiveLockExpired}
use gatecoin.Mediated.Waiting.{ReceiveSecretReveal, ContractReceiveSecretReveal}
use gatecoin.Mediated.Target.{
  TargetTransferState, ActionInitTarget, Iteration, handle_inittarget, handle_offchain_secretreveal,
  handle_onchain_secretreveal, handle_unlock, handle_block, handle_lock_expired,
}

pub data TargetChange : Type 0 where
  action_init_target : ActionInitTarget → TargetChange
  -- block number and hash
  block : ℕ → ℕ → TargetChange
  receive_secret_reveal : ReceiveSecretReveal → TargetChange
  contract_receive_secret_reveal : ContractReceiveSecretReveal → TargetChange
  receive_unlock : ReceiveUnlock → TargetChange
  receive_lock_expired : ReceiveLockExpired → TargetChange
  other : TargetChange

-- A task that goes on has its lock, one that ends has it no more.
unfoldable pub sanity_check :
    Option TargetTransferState
    → Option TargetTransferState
    → NettingChannelState
    → Result (Unit {0})
sanity_check old (some s) c =
    assert (is_some (get_lock c.partner_state s.transfer.lock.secrethash)) Fault.lock_cleared
sanity_check (some s) none c =
    assert (not (is_some (get_lock c.partner_state s.transfer.lock.secrethash)))
      Fault.lock_not_cleared
sanity_check none none c = ok tt

unfoldable pub dispatch :
    Externals
    → Option TargetTransferState
    → TargetChange
    → NettingChannelState
    → ℕ
    → ℕ
    → Result Iteration
dispatch x none (action_init_target m) c block_number prng =
    handle_inittarget x m c block_number prng
dispatch x (some s) (action_init_target m) c block_number prng = ok (some s, c, prng, [])
dispatch x task (block number hash) c block_number prng = do
  assert (number == block_number) Fault.block_number_mismatch
  s ← assert_some task Fault.state_missing
  handle_block s c number hash prng
dispatch x task (receive_secret_reveal m) c block_number prng = do
  s ← assert_some task Fault.state_missing
  ok (handle_offchain_secretreveal x s m c block_number prng)
dispatch x task (contract_receive_secret_reveal m) c block_number prng = do
  s ← assert_some task Fault.state_missing
  handle_onchain_secretreveal s m c prng
dispatch x task (receive_unlock m) c block_number prng = do
  s ← assert_some task Fault.state_missing
  handle_unlock x s m c prng
dispatch x task (receive_lock_expired m) c block_number prng = do
  s ← assert_some task Fault.state_missing
  ok (handle_lock_expired x s m c block_number prng)
dispatch x task other c block_number prng = ok (task, c, prng, [])

unfoldable pub state_transition :
    Externals
    → Option TargetTransferState
    → TargetChange
    → NettingChannelState
    → ℕ
    → ℕ
    → Result Iteration
state_transition x task change c block_number prng = do
  (task', c', prng', events) ← dispatch x task change c block_number prng
  sanity_check task task' c'
  ok (task', c', prng', events)
