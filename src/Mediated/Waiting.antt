-- ===== src/Mediated/Waiting.antt =====
-- What the state machines of mediated transfers share: `is_safe_to_wait` of
-- src/gatecoin/transfer/mediated_transfer/mediator.py, src/gatecoin/transfer/secret_registry.py,
-- the properties of a received transfer in src/gatecoin/transfer/mediated_transfer/state.py, and
-- the state changes about secrets.
use gatecoin.Common.{
  ℕ, ◌+◌, Bool, true, false, ltb, if◌then◌else◌, Option, List, [], ◌∷◌, Result, ok, assert, ◌>>◌,
  Fault,
}
use gatecoin.State.{ChannelState, NettingChannelState, LockedTransferSignedState}
use gatecoin.Event.{Event}
use gatecoin.Channel.Query.{get_status}
use gatecoin.Channel.Send.{get_address_metadata}

-- A `ReceiveSecretReveal` with its secrethash, the hash of the secret.
pub record ReceiveSecretReveal : Type 0 where
  pub sender : ℕ
  pub secret : ℕ

pub record ContractReceiveSecretReveal : Type 0 where
  pub secrethash : ℕ
  pub secret : ℕ
  pub block_number : ℕ

-- More blocks are left than the reveal timeout. The difference of the expiration and the block
-- number may be negative.
unfoldable pub is_safe_to_wait : ℕ → ℕ → ℕ → Result Bool
is_safe_to_wait expiration reveal_timeout block_number = do
  assert (ltb 0 block_number) Fault.block_number_not_positive
  assert (ltb 0 reveal_timeout) Fault.reveal_timeout_not_positive
  assert (ltb reveal_timeout expiration) Fault.expiration_too_early
  ok (ltb (reveal_timeout + block_number) expiration)

-- `in CHANNEL_STATES_UP_TO_CLOSED`
abbrev pub is_up_to_closed : ChannelState → Bool
is_up_to_closed ChannelState.opened = true
is_up_to_closed ChannelState.closing = true
is_up_to_closed ChannelState.closed = true
is_up_to_closed _ = false

-- `secret_registry.events_for_onchain_secretreveal`
unfoldable pub secret_registry_events : NettingChannelState → ℕ → ℕ → ℕ → List Event
secret_registry_events c secret expiration block_hash =
    if is_up_to_closed (get_status c)
    then Event.contract_send_secret_reveal expiration secret block_hash ∷ []
    else []

abbrev pub payer_address : LockedTransferSignedState → ℕ
payer_address t = t.balance_proof.sender

unfoldable pub payer_address_metadata : LockedTransferSignedState → Option ℕ
payer_address_metadata t = get_address_metadata (payer_address t) t.route_states

unfoldable pub initiator_address_metadata : LockedTransferSignedState → Option ℕ
initiator_address_metadata t = get_address_metadata t.initiator t.route_states
