-- ===== src/Mediated/MediatorTests.antt =====
-- The mediator at concrete values, for what the theorems about
-- src/gatecoin/transfer/mediated_transfer/mediator.py and src/gatecoin/messages/transfers.py say
-- there.
use gatecoin.Common.{
  ◌≡◌, ◌≤◌, ◌+◌, refl, true, none, some, [], ◌∷◌, ok, raise, Fault, IfReturns, arith, ◌⊎◌, min_ℤ,
  max_ℤ, ◌-ℤ◌, ◌+ℤ◌,
}
use gatecoin.State.{
  received, NettingChannelState, LockedTransferUnsignedState, max_key, offchain_total_withdraw,
  total_withdraw, transferred_amount,
}
use gatecoin.Channel.Query.{
  get_lock, get_status, get_receiver_expiration_threshold, is_lock_pending, get_next_nonce,
  get_current_balanceproof, get_distributable, balance_with, get_amount_locked,
  get_amount_unclaimed_onchain, get_balance,
}
use gatecoin.Channel.Lock.{
  compute_locks_without, remove_data, has_data, compute_locksroot, join_words, encoded, del_lock,
}
use gatecoin.Channel.Check.{
  is_balance_proof_usable_onchain, is_balance_proof_safe_for_onchain_operations,
  is_valid_balanceproof_signature, is_valid_signature, hash_balance_data, is_valid_unlock,
}
use gatecoin.Channel.Send.{get_address_metadata}
use gatecoin.Channel.Receive as Receive
use gatecoin.Channel.Receive.{processed, handle_receive_lockedtransfer}
use gatecoin.Channel.Tests.{
  toy, id, side, channel, lock, signed, first_proof, unlock_proof, ours, theirs, ours-IsSound,
  theirs-IsSound, unlock,
}
use gatecoin.Mediated.Channels.{Channels, AreSound, get_channel, write, write-AreSound}
use gatecoin.Mediated.Target.Blocks.{registrations}
use gatecoin.Mediated.Tests.{transfer}
use gatecoin.Mediated.Mediator.{
  get_payer_channel, get_payee_channel, MediationPairState, MediatorTransferState, payer_pending,
  payee_secret_revealed, expired, clear_if_finalized, has_secret_registration_started,
}
use gatecoin.Mediated.Mediator.Forward.{Fees, forward_transfer_pair}
use gatecoin.Mediated.Mediator.Secrets.{balanceproof_for_pair}
use gatecoin.Mediated.Mediator.Onchain.{
  payer_channels, events_for_onchain_secretreveal_if_dangerzone,
  events_for_onchain_secretreveal_if_closed,
}
use gatecoin.Mediated.Mediator.Handle.{handle_block}
use gatecoin.Mediated.Mediator.Transition.{state_transition, receive_unlock, receive_secret_reveal}
use gatecoin.Mediated.Mediator.Steps.{state_transition-AreSound}
use gatecoin.Mediated.Mediator.Registered.{count, dangerzone-registrations, closed-registrations}
use gatecoin.Mediated.Mediator.BlockEvents.{handle_block-registrations}
use gatecoin.Mediated.Mediator.Payment.{
  IsSafeToPay, balanceproof_for_pair-safe, IsAlike, forward_transfer_pair-IsAlike,
}
use gatecoin.Mediated.Mediator.Finalized.{AreCleared, IsCleared, clear-AreCleared}
use gatecoin.Mediated.Mediator.Faults.{unlock-secret_missing, expired-again}
use gatecoin.Mediated.Target.{claim_failed}
use gatecoin.Message.{as_bytes, lock_from_bytes, lock_from_bytes-as_bytes}

-- The channel that the lock came in by, and the one that it goes on by.
abbrev payee_channel : NettingChannelState
payee_channel = record ours { canonical_identifier = record id { channel_identifier = 4 } }

abbrev nothing : Channels
nothing = record {
  store = [];
  by_identifier = (3, 0) ∷ (4, 1) ∷ [];
  by_address = (20, 1, 0) ∷ (20, 2, 1) ∷ [];
}

abbrev channels : Channels
channels = record nothing { store = (0, theirs) ∷ (1, payee_channel) ∷ [] }

channels-AreSound : AreSound toy channels
unfolding write
channels-AreSound =
    write-AreSound toy (write nothing 0 theirs)
      (write-AreSound toy nothing (λ reference c here. absurd (cc here)) 0 theirs theirs-IsSound) 1
      payee_channel ours-IsSound

abbrev sent : LockedTransferUnsignedState
sent = record {
  payment_identifier = 6;
  token = 9;
  lock = lock;
  initiator = 1;
  target = 2;
  balance_proof = record first_proof {
    canonical_identifier = record id { channel_identifier = 4 };
  };
  route_states = [];
  metadata = none;
  secret = none;
}

abbrev pair : MediationPairState
pair = record {
  payer_transfer = transfer;
  payee_address = 2;
  payee_transfer = sent;
  payer_state = payer_pending;
  payee_state = payee_secret_revealed;
}

abbrev mediating : MediatorTransferState
mediating = record {
  secrethash = 107;
  routes = [];
  refunded_channels = [];
  secret = none;
  transfers_pair = pair ∷ [];
  waiting_transfer = none;
}

abbrev fees : Fees
fees amount payer payee = ok (some amount)

state_transition-AreSound_example :
    IfReturns
      (λ r. AreSound toy r.1)
      (state_transition toy fees
        (some mediating)
        (receive_secret_reveal (record { sender = 2; secret = 7 }))
        channels
        4
        20
        0)
state_transition-AreSound_example =
    state_transition-AreSound toy fees (some mediating)
      (receive_secret_reveal (record { sender = 2; secret = 7 })) channels 4 20 0 channels-AreSound
      tt

handle_block-registrations_example :
    IfReturns (λ r. registrations r.3 ≤ 1) (handle_block toy fees mediating channels 45 0 4)
handle_block-registrations_example = handle_block-registrations toy fees mediating channels 45 0 4

dangerzone-registrations_example :
    IfReturns
      (λ r.
        registrations r.1
          + count (
              has_secret_registration_started (payer_channels channels (pair ∷ [])) (pair ∷ []) 107)
        ≤ 1)
      (events_for_onchain_secretreveal_if_dangerzone channels 107 (pair ∷ []) 45 0)
dangerzone-registrations_example = dangerzone-registrations channels 107 (pair ∷ []) 45 0

closed-registrations_example :
    registrations (events_for_onchain_secretreveal_if_closed channels (pair ∷ []) 7 107 0).1
      + count
          (has_secret_registration_started (payer_channels channels (pair ∷ [])) (pair ∷ []) 107)
    ≤ 1
closed-registrations_example = closed-registrations channels 7 107 (pair ∷ []) 0

balanceproof_for_pair-safe_example :
    IfReturns
      (λ r. (r ≡ (pair, channels, 4, [])) ⊎ IsSafeToPay channels pair 20)
      (balanceproof_for_pair toy channels pair 4 20 7 107)
balanceproof_for_pair-safe_example = balanceproof_for_pair-safe toy channels pair 4 20 7 107

forward_transfer_pair-IsAlike_example :
    IfReturns
      (IsAlike transfer)
      (forward_transfer_pair toy fees transfer theirs (channel (side 2) (side 3)) 4 20)
forward_transfer_pair-IsAlike_example =
    forward_transfer_pair-IsAlike toy fees transfer theirs (channel (side 2) (side 3)) 4 20 refl

-- The channels after the locks have gone.
abbrev cleared : Channels
cleared = record channels {
  store = (0, channel (side 2) (side 1)) ∷ (1, channel (side 1) (side 2)) ∷ [];
}

clear-AreCleared_example : AreCleared cleared 107 (pair ∷ []) × IsCleared cleared 107 none
unfolding clear_if_finalized get_payer_channel get_payee_channel get_channel is_lock_pending
clear-AreCleared_example = clear-AreCleared mediating cleared 4 [] refl

unlocked-theirs :
    Receive.handle_unlock toy theirs unlock none
    ≡ ok (
      record theirs {
        partner_state = record (side 1) {
          balance_proof = some (received (signed 1 unlock_proof));
          nonce = 2;
        };
      },
      true,
      processed 1 none 8 ∷ [],
    )
unfolding Receive.handle_unlock is_valid_unlock get_lock compute_locks_without remove_data del_lock
    is_lock_pending is_balance_proof_usable_onchain get_status
    is_balance_proof_safe_for_onchain_operations get_next_nonce is_valid_balanceproof_signature
    is_valid_signature hash_balance_data has_data compute_locksroot join_words encoded
    get_current_balanceproof get_distributable min_ℤ max_ℤ ◌-ℤ◌ ◌+ℤ◌ balance_with get_amount_locked
    get_amount_unclaimed_onchain get_balance max_key offchain_total_withdraw total_withdraw
    transferred_amount
unlocked-theirs = refl

unlock-secret_missing_example :
    state_transition toy fees (some mediating) (receive_unlock unlock) channels 4 20 0
    ≡ raise Fault.secret_missing
unfolding get_channel get_address_metadata
unlock-secret_missing_example =
    unlock-secret_missing toy fees mediating channels unlock pair 0 theirs _ _ 4 20 0 refl refl refl
      refl unlocked-theirs

abbrev stuck : MediatorTransferState
stuck = record mediating {
  transfers_pair = [];
  waiting_transfer = some (record { transfer = transfer; state = expired });
}

expired-again_example :
    handle_block toy fees stuck channels 60 0 4
    ≡ ok (stuck, channels, 4, claim_failed transfer ∷ [])
unfolding get_channel get_receiver_expiration_threshold
expired-again_example =
    expired-again toy fees stuck channels (record { transfer = transfer; state = expired }) 0 theirs
      60 0 4 refl refl refl refl refl (omega arith)

lock_from_bytes-as_bytes_example : lock_from_bytes (as_bytes lock) ≡ ok lock
lock_from_bytes-as_bytes_example =
    lock_from_bytes-as_bytes lock (omega arith) (omega arith) (omega arith)
