-- ===== src/Mediated/Tests.antt =====
-- The target and the mediator at concrete values, for what the theorems about
-- src/gatecoin/transfer/mediated_transfer say there.
use gatecoin.Common.{
  ℕ, ◌≡◌, ◌+◌, ◌<◌, refl, true, false, none, some, [], ◌∷◌, raise, Fault, Returns, arith, min_ℤ,
  max_ℤ, ◌-ℤ◌, ◌+ℤ◌,
}
use gatecoin.State.{
  NettingChannelState, LockedTransferSignedState, max_key, offchain_total_withdraw, total_withdraw,
  transferred_amount,
}
use gatecoin.Channel.Query.{
  locksroot_of_no_locks, get_lock, get_status, get_receiver_expiration_threshold,
  is_secret_known_offchain, get_next_nonce, get_current_balanceproof, get_distributable,
  balance_with, get_amount_locked, get_amount_unclaimed_onchain, get_balance,
}
use gatecoin.Channel.Lock.{compute_locks_with, has_data, compute_locksroot, join_words, encoded}
use gatecoin.Channel.Check.{
  is_valid_lockedtransfer, valid_lockedtransfer_check, is_balance_proof_usable_onchain,
  is_balance_proof_safe_for_onchain_operations, is_valid_balanceproof_signature, is_valid_signature,
  hash_balance_data,
}
use gatecoin.Channel.Receive.{handle_receive_lockedtransfer}
use gatecoin.Channel.Tests.{
  toy, side, channel, lock, signed, first_proof, theirs, theirs-IsSound, unlock,
}
use gatecoin.Mediated.Waiting.{payer_address_metadata}
use gatecoin.Mediated.Target as Target
use gatecoin.Mediated.Target.Transition as Transition
use gatecoin.Mediated.Target.{TargetTransferState, ActionInitTarget}
use gatecoin.Mediated.Target.Sound.{IsKept, CanWait}
use gatecoin.Mediated.Target.Steps.{state_transition-IsKept, inittarget-early}
use gatecoin.Mediated.Target.Blocks.{run_blocks, registrations, run_blocks-registrations}

abbrev pub transfer : LockedTransferSignedState
transfer = record {
  payment_identifier = 6;
  token = 9;
  lock = lock;
  initiator = 1;
  target = 2;
  message_identifier = 5;
  route_states = [];
  balance_proof = signed 1 first_proof;
  metadata = none;
  secret = none;
}

abbrev task : TargetTransferState
task = record {
  from_hop = record { node_address = 1; channel_identifier = 3 };
  transfer = transfer;
  secret = none;
  status = Target.secret_request;
}

can_wait : CanWait 50 10 20
can_wait = record {
  block_positive = omega arith;
  timeout_positive = omega arith;
  late = omega arith;
}

state_transition-IsKept_example :
    Returns
      (IsKept toy (some task))
      (Transition.state_transition toy (some task) (Transition.receive_unlock unlock) theirs 20 4)
unfolding get_lock
state_transition-IsKept_example =
    state_transition-IsKept toy theirs 20 4 (some task) (Transition.receive_unlock unlock)
      theirs-IsSound (record { pending = refl; can_wait = can_wait; fits = omega arith }, refl)

-- The channel once the secret is known.
abbrev pub learned : NettingChannelState
learned = record theirs {
  partner_state = record (theirs.partner_state) {
    secrethashes_to_lockedlocks = [];
    secrethashes_to_unlockedlocks = (107, record { lock = lock; secret = 7 }) ∷ [];
  };
}

run_blocks-registrations_example :
    Returns
      (λ events. registrations events ≡ 1)
      (run_blocks (some task) learned ((30, 1) ∷ (41, 2) ∷ (42, 3) ∷ []) 4)
unfolding is_secret_known_offchain get_status get_receiver_expiration_threshold
run_blocks-registrations_example =
    run_blocks-registrations learned refl task ((30, 1) ∷ (41, 2) ∷ (42, 3) ∷ []) 4 refl (
      wait 30 (omega arith),
      omega arith,
      (wait 41 (omega arith), omega arith, (wait 42 (omega arith), omega arith, tt)),
    )
  where
    wait : (n : ℕ) → 0 < n → CanWait 50 10 n
    wait n h = record { block_positive = h; timeout_positive = omega arith; late = omega arith }

-- A transfer whose lock has an expiration within the reveal timeout.
abbrev early : ActionInitTarget
early = record {
  from_hop = record { node_address = 1; channel_identifier = 3 };
  transfer = record transfer {
    lock = record { amount = 10; expiration = 8; secrethash = 107 };
    balance_proof =
        signed 1 (record first_proof {
          locksroot = 8 + 10 + 107 + locksroot_of_no_locks;
          balance_hash = 0;
        });
  };
  received_valid_secret = false;
}

early-accepted :
    (handle_receive_lockedtransfer toy
      (channel (side 2) (side 1))
      early.transfer
      (payer_address_metadata early.transfer)).1
    ≡ true
unfolding handle_receive_lockedtransfer is_valid_lockedtransfer valid_lockedtransfer_check
    is_balance_proof_usable_onchain get_status is_balance_proof_safe_for_onchain_operations
    get_next_nonce is_valid_balanceproof_signature is_valid_signature hash_balance_data
    compute_locks_with has_data compute_locksroot join_words encoded get_current_balanceproof
    get_distributable min_ℤ max_ℤ ◌-ℤ◌ ◌+ℤ◌ balance_with get_amount_locked
    get_amount_unclaimed_onchain get_balance max_key offchain_total_withdraw total_withdraw
    transferred_amount
early-accepted = refl

inittarget-early_example :
    Transition.state_transition toy none
      (Transition.action_init_target early)
      (channel (side 2) (side 1))
      20
      4
    ≡ raise Fault.expiration_too_early
inittarget-early_example =
    inittarget-early toy early (channel (side 2) (side 1)) 20 4 refl early-accepted refl
      (omega arith) (omega arith) (omega arith)
