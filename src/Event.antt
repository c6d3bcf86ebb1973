-- ===== src/Event.antt =====
-- The events that the state machine of a channel returns: src/gatecoin/transfer/events.py and
-- src/gatecoin/transfer/mediated_transfer/events.py. The reason of a refusal is a name for the
-- message text of the source.
use gatecoin.Common.{ℕ, ℤ, Bool, Option, List}
use gatecoin.State.{
  CanonicalIdentifier, BalanceProofUnsignedState, BalanceProofSignedState,
  LockedTransferUnsignedState,
}

pub data Reason : Type 0 where
  -- is_lock_expired
  lock_unlocked_onchain lock_not_yet_expired : Reason
  -- is_valid_signature
  signature_not_recovered signature_of_another : Reason
  -- is_balance_proof_usable_onchain
  channel_already_closed channel_identifier_mismatch token_network_mismatch : Reason
  chain_id_mismatch overflow_onchain nonce_not_sequential : Reason
  -- the checks of locks
  unlocked_onchain lock_not_known same_lock_twice too_many_pending : Reason
  locksroot_mismatch transferred_amount_mismatch locked_amount_mismatch : Reason
  exceeds_distributable refund_does_not_match : Reason
  -- the checks of withdraws
  channel_not_opened withdraw_decreased withdraw_did_not_increase : Reason
  insufficient_balance withdraw_overflow identifier_mismatch : Reason
  invalid_participant invalid_sender withdraw_not_found : Reason
  total_withdraw_mismatch expiration_mismatch withdraw_not_expired : Reason
  -- the checks of cooperative settles
  our_locks_pending partner_locks_pending our_withdraws_pending : Reason
  partner_withdraws_pending not_maximum_withdraw differing_expiration : Reason
  -- set_reveal_timeout
  reveal_timeout_too_large : Reason

pub record SendHeader : Type 0 where
  pub recipient : ℕ
  pub recipient_metadata : Option ℕ
  pub canonical_identifier : CanonicalIdentifier
  pub message_identifier : ℕ

pub record SendLockedTransfer : Type 0 where
  pub header : SendHeader
  pub transfer : LockedTransferUnsignedState

pub record SendUnlock : Type 0 where
  pub header : SendHeader
  pub payment_identifier : ℕ
  pub token_address : ℕ
  pub balance_proof : BalanceProofUnsignedState
  pub secret : ℕ
  pub secrethash : ℕ

pub record SendLockExpired : Type 0 where
  pub header : SendHeader
  pub balance_proof : BalanceProofUnsignedState
  pub secrethash : ℕ

pub record Withdraw : Type 0 where
  pub total_withdraw : ℕ
  pub participant : ℕ
  pub expiration : ℕ
  pub nonce : ℕ

pub record SecretRequest : Type 0 where
  pub payment_identifier : ℕ
  pub amount : ℕ
  pub expiration : ℕ
  pub secrethash : ℕ

pub record SecretReveal : Type 0 where
  pub secret : ℕ
  pub secrethash : ℕ

-- A payment that has arrived, without the address of the registry.
pub record PaymentReceived : Type 0 where
  pub token_network_address : ℕ
  pub identifier : ℕ
  pub amount : ℕ
  pub initiator : ℕ

-- A payment that has been sent, and one that has failed, without the address of the registry.
pub record PaymentSent : Type 0 where
  pub token_network_address : ℕ
  pub identifier : ℕ
  pub amount : ℕ
  pub target : ℕ
  pub secret : ℕ
  pub route : List ℕ

pub data FailureReason : Type 0 where
  lock_expired lock_expired_after_request : FailureReason
  -- no route could be used; the second where one asked for too high a fee
  no_usable_route no_usable_route_for_fee : FailureReason

pub record PaymentFailed : Type 0 where
  pub token_network_address : ℕ
  pub identifier : ℕ
  pub target : ℕ
  pub reason : FailureReason

pub data Event : Type 0 where
  send_locked_transfer : SendLockedTransfer → Event
  send_unlock : SendUnlock → Event
  send_lock_expired : SendLockExpired → Event
  send_secret_request : SendHeader → SecretRequest → Event
  send_secret_reveal : SendHeader → SecretReveal → Event
  -- expiration, secret, block hash
  contract_send_secret_reveal : ℕ → ℕ → ℕ → Event
  payment_received_success : PaymentReceived → Event
  payment_sent_success : PaymentSent → Event
  payment_sent_failed : PaymentFailed → Event
  -- secrethash, route, token network
  route_failed : ℕ → List ℕ → ℕ → Event
  -- payment identifier, the amount meant and the amount asked for
  invalid_secret_request : ℕ → ℕ → ℕ → Event
  -- payment identifier, secrethash; a failure's reason is text
  unlock_success unlock_failed unlock_claim_success unlock_claim_failed : ℕ → ℕ → Event
  unexpected_secret_reveal : ℕ → Event
  send_processed : SendHeader → Event
  send_withdraw_request : SendHeader → Withdraw → Bool → Event
  send_withdraw_confirmation : SendHeader → Withdraw → Event
  send_withdraw_expired : SendHeader → Withdraw → Event
  -- identifier, total withdraw, expiration, partner signature, block hash
  contract_send_withdraw : CanonicalIdentifier → ℕ → ℕ → ℕ → ℕ → Event
  -- identifier, our and the partner's total withdraw, expiration, the partner's signatures of our
  -- withdraw and of its own, block hash
  contract_send_coop_settle : CanonicalIdentifier → ℤ → ℤ → ℕ → ℕ → ℕ → ℕ → Event
  contract_send_close : CanonicalIdentifier → Option BalanceProofSignedState → ℕ → Event
  contract_send_settle : CanonicalIdentifier → ℕ → Event
  -- expiration, balance proof, block hash
  contract_send_update_transfer : ℕ → BalanceProofSignedState → ℕ → Event
  -- identifier, sender of the locks, block hash
  contract_send_batch_unlock : CanonicalIdentifier → ℕ → ℕ → Event
  invalid_received_transfer_refund invalid_received_locked_transfer : ℕ → Reason → Event
  invalid_received_lock_expired invalid_received_unlock : ℕ → Reason → Event
  invalid_received_withdraw_request invalid_received_withdraw : ℕ → Reason → Event
  invalid_received_withdraw_expired : ℕ → Reason → Event
  invalid_action_withdraw invalid_action_set_reveal_timeout : ℕ → Reason → Event
  invalid_action_coop_settle : ℤ → Reason → Event
