-- ===== src/State.antt =====
-- The state that a node keeps of a channel: src/gatecoin/transfer/state.py, with the balance proofs
-- of src/gatecoin/transfer/architecture.py and the identifiers of
-- src/gatecoin/transfer/identifiers.py. Hashes, addresses, signatures and secrets are numbers, a
-- fixed-width byte string being its value; amounts, nonces and block numbers are natural numbers.
use gatecoin.Common.{ℕ, ◌^◌, ◌-◌, Bool, ◌&&◌, ◌==◌, Option, none, some, List, [], ◌∷◌, Dict, max, ℤ}

abbrev pub uint256_max : ℕ
uint256_max = 2 ^ 256 - 1

abbrev pub uint64_max : ℕ
uint64_max = 2 ^ 64 - 1

pub record CanonicalIdentifier : Type 0 where
  pub chain_identifier : ℕ
  pub token_network_address : ℕ
  pub channel_identifier : ℕ

abbrev pub same_identifier : CanonicalIdentifier → CanonicalIdentifier → Bool
same_identifier a b =
    a.chain_identifier == b.chain_identifier
    && a.token_network_address == b.token_network_address
    && a.channel_identifier == b.channel_identifier

pub record BalanceProofUnsignedState : Type 0 where
  pub nonce : ℕ
  pub transferred_amount : ℕ
  pub locked_amount : ℕ
  pub locksroot : ℕ
  pub canonical_identifier : CanonicalIdentifier
  pub balance_hash : ℕ

-- A received balance proof has the fields of an unsigned one and three more.
pub record BalanceProofSignedState : Type 0 where
  pub unsigned : BalanceProofUnsignedState
  pub open unsigned use *
  pub message_hash : ℕ
  pub signature : ℕ
  pub sender : ℕ

-- `Union[BalanceProofSignedState, BalanceProofUnsignedState]`
pub data BalanceProof : Type 0 where
  received : BalanceProofSignedState → BalanceProof
  local : BalanceProofUnsignedState → BalanceProof

abbrev pub proof_fields : BalanceProof → BalanceProofUnsignedState
proof_fields (received b) = b.unsigned
proof_fields (local b) = b

pub record HashTimeLockState : Type 0 where
  pub amount : ℕ
  pub expiration : ℕ
  pub secrethash : ℕ

-- The 96 bytes of `Lock.as_bytes`, as three words.
abbrev pub EncodedData : Type 0
EncodedData = ℕ × ℕ × ℕ

pub record UnlockPartialProofState : Type 0 where
  pub lock : HashTimeLockState
  pub secret : ℕ

pub data ExecutionResult : Type 0 where
  success failure : ExecutionResult

pub record TransactionExecutionStatus : Type 0 where
  pub started_block_number : Option ℕ
  pub finished_block_number : Option ℕ
  pub result : Option ExecutionResult

pub record ExpiredWithdrawState : Type 0 where
  pub total_withdraw : ℕ
  pub expiration : ℕ
  pub nonce : ℕ
  pub recipient_metadata : Option ℕ

pub record PendingWithdrawState : Type 0 where
  pub total_withdraw : ℕ
  pub expiration : ℕ
  pub nonce : ℕ
  pub recipient_metadata : Option ℕ

pub record CoopSettleState : Type 0 where
  pub total_withdraw_initiator : ℤ
  pub total_withdraw_partner : ℤ
  pub expiration : ℕ
  pub partner_signature_request : Option ℕ
  pub partner_signature_confirmation : Option ℕ
  pub transaction : Option TransactionExecutionStatus

pub record NettingChannelEndState : Type 0 where
  pub address : ℕ
  pub contract_balance : ℕ
  pub onchain_total_withdraw : ℕ
  pub withdraws_pending : Dict PendingWithdrawState
  pub initiated_coop_settle : Option CoopSettleState
  pub withdraws_expired : List ExpiredWithdrawState
  pub secrethashes_to_lockedlocks : Dict HashTimeLockState
  pub secrethashes_to_unlockedlocks : Dict UnlockPartialProofState
  pub secrethashes_to_onchain_unlockedlocks : Dict UnlockPartialProofState
  pub balance_proof : Option BalanceProof
  pub pending_locks : List EncodedData
  pub onchain_locksroot : ℕ
  pub nonce : ℕ

-- `max(self.withdraws_pending, default=0)`: the largest key
unfoldable pub max_key : Dict PendingWithdrawState → ℕ
max_key [] = 0
max_key ((k, w) ∷ d) = max k (max_key d)

-- the properties of `NettingChannelEndState`
unfoldable pub offchain_total_withdraw : NettingChannelEndState → ℕ
offchain_total_withdraw e = max_key e.withdraws_pending

unfoldable pub total_withdraw : NettingChannelEndState → ℕ
total_withdraw e = max (offchain_total_withdraw e) e.onchain_total_withdraw

unfoldable pub transferred_amount : NettingChannelEndState → ℕ
transferred_amount e = elim e.balance_proof [
  | none ↦ 0
  | some b ↦ (proof_fields b).transferred_amount
]

pub record FeeScheduleState : Type 0 where
  pub cap_fees : Bool
  pub flat : ℕ
  pub proportional : ℕ
  pub imbalance_penalty : Option (List (ℕ × ℕ))

pub record NettingChannelState : Type 0 where
  pub canonical_identifier : CanonicalIdentifier
  pub token_address : ℕ
  pub reveal_timeout : ℕ
  pub settle_timeout : ℕ
  pub fee_schedule : FeeScheduleState
  pub our_state : NettingChannelEndState
  pub partner_state : NettingChannelEndState
  pub close_transaction : Option TransactionExecutionStatus
  pub settle_transaction : Option TransactionExecutionStatus
  pub update_transaction : Option TransactionExecutionStatus

pub data ChannelState : Type 0 where
  closed closing opened settled settling unusable : ChannelState

-- A possible route for a payment.
pub record RouteState : Type 0 where
  pub route : List ℕ
  pub address_to_metadata : Dict ℕ
  -- the token network that a node on the route goes on in, where it is another one
  pub swaps : Dict ℕ
  -- below 0 where a mediator pays for a better balance of its channels
  pub estimated_fee : ℤ

pub record LockedTransferUnsignedState : Type 0 where
  pub payment_identifier : ℕ
  pub token : ℕ
  pub lock : HashTimeLockState
  pub initiator : ℕ
  pub target : ℕ
  pub balance_proof : BalanceProofUnsignedState
  pub route_states : List RouteState
  pub metadata : Option ℕ
  pub secret : Option ℕ

pub record LockedTransferSignedState : Type 0 where
  pub payment_identifier : ℕ
  pub token : ℕ
  pub lock : HashTimeLockState
  pub initiator : ℕ
  pub target : ℕ
  pub message_identifier : ℕ
  pub route_states : List RouteState
  pub balance_proof : BalanceProofSignedState
  pub metadata : Option ℕ
  pub secret : Option ℕ
