-- ===== src/Mediated/Initiator.antt =====
-- One transfer of a payment, as its initiator sees it: the handlers of
-- src/gatecoin/transfer/mediated_transfer/initiator.py, with `InitiatorTransferState` of
-- src/gatecoin/transfer/mediated_transfer/state.py. A handler returns the task, the channel and
-- the random generator as it leaves them, and the events.
pub mod Route
pub mod Transition
pub mod Sound
pub mod Run
pub mod Started
use gatecoin.Common.{
  ℕ, Bool, true, false, not, ◌&&◌, ltb, leb, ◌==◌, if◌then◌else◌, lookup, Option, none, some,
  is_some, List, [], ◌∷◌, ◌++◌, map, Result, ok, assert, ◌>>=◌, ◌>>◌, Fault,
}
use gatecoin.Externals.{Externals}
use gatecoin.State.{HashTimeLockState, NettingChannelState, RouteState, LockedTransferUnsignedState}
use gatecoin.Event.{
  Event, PaymentSent, FailureReason, PaymentFailed, send_lock_expired, send_unlock, unlock_success,
  unlock_failed, send_secret_reveal, payment_sent_success, payment_sent_failed, route_failed,
  invalid_secret_request,
}
use gatecoin.Channel.Query.{
  get_lock, get_status, is_opened, get_sender_expiration_threshold,
  lock_exists_in_either_channel_side,
}
use gatecoin.Channel.Check.{is_ok, is_lock_expired}
use gatecoin.Channel.Secret.{register_onchain_secret}
use gatecoin.Channel.Send.{UnlockRequest, get_address_metadata}
use gatecoin.Channel.Send as Send
use gatecoin.Mediated.Waiting.{ReceiveSecretReveal, ContractReceiveSecretReveal}
use gatecoin.Mediated.Target.{unordered}

-- No secret is `ABSENT_SECRET`. The address of the registry is left out.
pub record TransferDescription : Type 0 where
  pub payment_identifier : ℕ
  pub amount : ℕ
  pub token_network_address : ℕ
  pub initiator : ℕ
  pub target : ℕ
  pub secret : Option ℕ
  pub secrethash : ℕ
  pub lock_timeout : Option ℕ

pub data InitiatorStatus : Type 0 where
  transfer_pending transfer_secret_revealed transfer_expired : InitiatorStatus

abbrev pub is_expired : InitiatorStatus → Bool
is_expired transfer_expired = true
is_expired _ = false

pub record InitiatorTransferState : Type 0 where
  pub route : RouteState
  pub transfer_description : TransferDescription
  pub channel_identifier : ℕ
  pub transfer : LockedTransferUnsignedState
  pub received_secret_request : Bool
  pub transfer_state : InitiatorStatus

-- What a handler returns.
abbrev pub Iteration : Type 0
Iteration = Option InitiatorTransferState × NettingChannelState × ℕ × List Event

abbrev pub unlock_request : InitiatorTransferState → NettingChannelState → ℕ → ℕ → ℕ → UnlockRequest
unlock_request s c identifier block_number secret = record {
  message_identifier = identifier;
  payment_identifier = s.transfer_description.payment_identifier;
  secret = secret;
  block_number = block_number;
  recipient_metadata = get_address_metadata c.partner_state.address (s.route ∷ []);
}

abbrev pub payment_sent : InitiatorTransferState → NettingChannelState → ℕ → PaymentSent
payment_sent s c secret = record {
  token_network_address = c.canonical_identifier.token_network_address;
  identifier = s.transfer_description.payment_identifier;
  amount = s.transfer_description.amount;
  target = s.transfer_description.target;
  secret = secret;
  route = s.route.route;
}

-- The payment is done: the channel, the random generator and the events.
unfoldable pub events_for_unlock_lock :
    Externals
    → InitiatorTransferState
    → NettingChannelState
    → ℕ
    → ℕ
    → ℕ
    → ℕ
    → Result (NettingChannelState × ℕ × List Event)
events_for_unlock_lock x s c secret secrethash prng block_number = do
  let d = s.transfer_description
  let (identifier, next) = x.randint prng
  (c', unlock) ← Send.send_unlock x c (unlock_request s c identifier block_number secret) secrethash
  ok (
    c',
    next,
    send_unlock unlock
        ∷ payment_sent_success (payment_sent s c' secret)
        ∷ unlock_success d.payment_identifier d.secrethash
        ∷ [],
  )

abbrev pub expiry_reason : Bool → FailureReason
expiry_reason true = FailureReason.lock_expired_after_request
expiry_reason false = FailureReason.lock_expired

abbrev pub payment_failed : TransferDescription → FailureReason → PaymentFailed
payment_failed d reason = record {
  token_network_address = d.token_network_address;
  identifier = d.payment_identifier;
  target = d.target;
  reason = reason;
}

abbrev pub failures : InitiatorTransferState → List Event
failures s =
    let d = s.transfer_description in
    payment_sent_failed (payment_failed d (expiry_reason s.received_secret_request))
    ∷ route_failed s.transfer.lock.secrethash s.route.route d.token_network_address
    ∷ unlock_failed d.payment_identifier d.secrethash
    ∷ []

-- The expiry is sent while the channel is open.
abbrev pub expiry_message :
    Externals
    → InitiatorTransferState
    → NettingChannelState
    → HashTimeLockState
    → ℕ
    → Result (NettingChannelState × ℕ × List Event)
expiry_message x s c l prng =
    let sending : Result (NettingChannelState × ℕ × List Event) = do
      (c', prng', messages) ←
          Send.send_lock_expired x c l prng
            (get_address_metadata c.partner_state.address (s.route ∷ []))
      ok (c', prng', map send_lock_expired messages)
    in if is_opened (get_status c) then sending else ok (c, prng, [])

-- The lock has expired: the task stays while the lock is in the channel.
unfoldable pub expire :
    Externals
    → InitiatorTransferState
    → NettingChannelState
    → HashTimeLockState
    → ℕ
    → Result Iteration
expire x s c l prng = do
  (c', prng', events) ← expiry_message x s c l prng
  ok (
    if lock_exists_in_either_channel_side c' s.transfer.lock.secrethash
        then some (record s { transfer_state = transfer_expired })
        else none,
    c',
    prng',
    events ++ failures s,
  )

unfoldable pub handle_block :
    Externals → InitiatorTransferState → NettingChannelState → ℕ → ℕ → Result Iteration
handle_block x s c block_number prng =
    let secrethash = s.transfer.lock.secrethash in
    elim (lookup secrethash c.our_state.secrethashes_to_lockedlocks) [
      | none ↦
          if is_some (lookup secrethash c.partner_state.secrethashes_to_lockedlocks)
          then ok (some s, c, prng, [])
          else ok (none, c, prng, [])
      | some l ↦
          let over = is_ok (
            is_lock_expired c.our_state l block_number
              (get_sender_expiration_threshold l.expiration)) in
          if over && not (is_expired s.transfer_state)
          then expire x s c l prng
          else ok (some s, c, prng, [])
    ]
