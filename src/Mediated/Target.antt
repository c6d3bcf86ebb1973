-- ===== src/Mediated/Target.antt =====
-- The target of a mediated transfer: src/gatecoin/transfer/mediated_transfer/target.py, with
-- `TargetTransferState` of src/gatecoin/transfer/mediated_transfer/state.py. A handler returns the
-- task, the channel and the random generator as it leaves them, and the events.
pub mod Transition
pub mod Sound
pub mod Steps
pub mod Blocks
use gatecoin.Common.{
  ℕ, Bool, true, false, not, ◌&&◌, leb, ◌==◌, if◌then◌else◌, Option, none, some, is_some, List, [],
  ◌∷◌, ◌++◌, Result, ok, assert, assert_some, ◌>>=◌, ◌>>◌, Fault,
}
use gatecoin.Externals.{Externals}
use gatecoin.State.{uint256_max, NettingChannelState, LockedTransferSignedState}
use gatecoin.Event.{Event, SendHeader, SecretRequest, SecretReveal, PaymentReceived}
use gatecoin.Channel.Query.{
  get_lock, get_secret, get_receiver_expiration_threshold, is_secret_known,
  is_secret_known_offchain,
}
use gatecoin.Channel.Check.{is_ok, is_lock_expired, is_transfer_expired}
use gatecoin.Channel.Receive.{
  ReceiveUnlock, ReceiveLockExpired, canonical_identifier_unordered_queue,
  handle_receive_lockedtransfer, handle_receive_lock_expired,
}
use gatecoin.Channel.Receive as Receive
use gatecoin.Channel.Secret.{register_offchain_secret, register_onchain_secret}
use gatecoin.Mediated.Waiting.{
  ReceiveSecretReveal, ContractReceiveSecretReveal, is_safe_to_wait, secret_registry_events,
  payer_address_metadata, initiator_address_metadata,
}

pub data TargetStatus : Type 0 where
  expired reveal_secret onchain_secret_reveal onchain_unlock secret_request : TargetStatus

abbrev pub is_expired : TargetStatus → Bool
is_expired TargetStatus.expired = true
is_expired _ = false

abbrev pub has_onchain_reveal_started : TargetStatus → Bool
has_onchain_reveal_started TargetStatus.onchain_secret_reveal = true
has_onchain_reveal_started _ = false

pub record HopState : Type 0 where
  pub node_address : ℕ
  pub channel_identifier : ℕ

pub record TargetTransferState : Type 0 where
  pub from_hop : HopState
  pub transfer : LockedTransferSignedState
  pub secret : Option ℕ
  pub status : TargetStatus

pub record ActionInitTarget : Type 0 where
  pub from_hop : HopState
  pub transfer : LockedTransferSignedState
  pub received_valid_secret : Bool

-- What a handler returns.
abbrev pub Iteration : Type 0
Iteration = Option TargetTransferState × NettingChannelState × ℕ × List Event

-- A header for the queue of messages that need no order.
abbrev pub unordered : ℕ → Option ℕ → ℕ → SendHeader
unordered recipient metadata identifier = record {
  recipient = recipient;
  recipient_metadata = metadata;
  canonical_identifier = canonical_identifier_unordered_queue;
  message_identifier = identifier;
}

abbrev pub claim_failed : LockedTransferSignedState → Event
claim_failed t = Event.unlock_claim_failed t.payment_identifier t.lock.secrethash

unfoldable pub events_for_onchain_secretreveal :
    TargetTransferState → NettingChannelState → ℕ → ℕ → Result (TargetTransferState × List Event)
events_for_onchain_secretreveal s c block_number block_hash = do
  let l = s.transfer.lock
  safe ← is_safe_to_wait l.expiration c.reveal_timeout block_number
  let reveal : Result (TargetTransferState × List Event) = do
    secret ← assert_some (get_secret c.partner_state l.secrethash) Fault.secret_missing
    ok (
      record s { status = TargetStatus.onchain_secret_reveal },
      secret_registry_events c secret l.expiration block_hash,
    )
  if not safe
        && is_secret_known_offchain c.partner_state l.secrethash
        && not (has_onchain_reveal_started s.status)
      then reveal
      else ok (s, [])

-- A transfer whose balance proof has been accepted: without its secret, the target asks for it
-- while it is safe to wait.
unfoldable pub init_accepted :
    Externals → ActionInitTarget → NettingChannelState → ℕ → ℕ → List Event → Result Iteration
init_accepted x m c block_number prng events =
    let t = m.transfer in
    let s : TargetTransferState = record {
      from_hop = m.from_hop;
      transfer = t;
      secret = none;
      status = TargetStatus.secret_request;
    } in
    let (identifier, next) = x.randint prng in
    let request =
      Event.send_secret_request (unordered t.initiator (initiator_address_metadata t) identifier)
        (record {
          payment_identifier = t.payment_identifier;
          amount = t.lock.amount;
          expiration = t.lock.expiration;
          secrethash = t.lock.secrethash;
        }) in
    let asking : Result Iteration = do
      safe ← is_safe_to_wait t.lock.expiration c.reveal_timeout block_number
      if safe then ok (some s, c, next, events ++ request ∷ []) else ok (some s, c, prng, events)
    in if m.received_valid_secret then ok (some s, c, prng, events) else asking

unfoldable pub handle_inittarget :
    Externals → ActionInitTarget → NettingChannelState → ℕ → ℕ → Result Iteration
handle_inittarget x m c block_number prng = do
  let t = m.transfer
  assert
      (c.canonical_identifier.channel_identifier
        == t.balance_proof.canonical_identifier.channel_identifier)
      Fault.ids_do_not_match
  let (c', accepted, events) = handle_receive_lockedtransfer x c t (payer_address_metadata t)
  if accepted
      then init_accepted x m c' block_number prng events
      else ok (none, c', prng, events ++ claim_failed t ∷ [])

unfoldable pub handle_offchain_secretreveal :
    Externals → TargetTransferState → ReceiveSecretReveal → NettingChannelState → ℕ → ℕ → Iteration
handle_offchain_secretreveal x s m c block_number prng =
    let secrethash = x.sha256 m.secret in
    let (identifier, next) = x.randint prng in
    if secrethash == s.transfer.lock.secrethash
      && not (is_transfer_expired s.transfer c block_number)
    then (
      some (record s { status = TargetStatus.reveal_secret; secret = some m.secret }),
      register_offchain_secret c m.secret secrethash,
      next,
      Event.send_secret_reveal
            (unordered s.from_hop.node_address (payer_address_metadata s.transfer) identifier)
            (record { secret = m.secret; secrethash = secrethash })
          ∷ [],
    )
    else (some s, c, prng, [])

unfoldable pub handle_onchain_secretreveal :
    TargetTransferState → ContractReceiveSecretReveal → NettingChannelState → ℕ → Result Iteration
handle_onchain_secretreveal s m c prng =
    let learned : Result Iteration = do
      c' ← register_onchain_secret c m.secret m.secrethash m.block_number true
      ok (
        some (record s { status = TargetStatus.onchain_unlock; secret = some m.secret }),
        c',
        prng,
        [],
      )
    in if m.secrethash == s.transfer.lock.secrethash then learned else ok (some s, c, prng, [])

-- The constructor of the payment event refuses an amount above 256 bits.
unfoldable pub handle_unlock :
    Externals → TargetTransferState → ReceiveUnlock → NettingChannelState → ℕ → Result Iteration
handle_unlock x s m c prng = do
  let t = s.transfer
  (c', accepted, events) ← Receive.handle_unlock x c m (payer_address_metadata t)
  let paid : Result Iteration = do
    assert (leb t.lock.amount uint256_max) Fault.amount_too_large
    ok (
      none,
      c',
      prng,
      events
          ++ Event.payment_received_success (record {
            token_network_address = c'.canonical_identifier.token_network_address;
            identifier = t.payment_identifier;
            amount = t.lock.amount;
            initiator = t.initiator;
          })
            ∷ Event.unlock_claim_success t.payment_identifier t.lock.secrethash
            ∷ [],
    )
  if accepted then paid else ok (some s, c', prng, events)

unfoldable pub handle_block :
    TargetTransferState → NettingChannelState → ℕ → ℕ → ℕ → Result Iteration
handle_block s c block_number block_hash prng =
    let l = s.transfer.lock in
    let over = is_ok (
      is_lock_expired c.our_state l block_number
        (get_receiver_expiration_threshold l.expiration)) in
    let revealing : Result Iteration = do
      (s', events) ← events_for_onchain_secretreveal s c block_number block_hash
      ok (some s', c, prng, events)
    in if over && not (is_expired s.status)
      then ok
          (some (record s { status = TargetStatus.expired }), c, prng, claim_failed s.transfer ∷ [])
      else if is_secret_known c.partner_state l.secrethash
      then revealing
      else ok (some s, c, prng, [])

unfoldable pub handle_lock_expired :
    Externals → TargetTransferState → ReceiveLockExpired → NettingChannelState → ℕ → ℕ → Iteration
handle_lock_expired x s m c block_number prng =
    let (c', events) =
      handle_receive_lock_expired x c m block_number (payer_address_metadata s.transfer) in
    if is_some (get_lock c'.partner_state s.transfer.lock.secrethash)
    then (some s, c', prng, events)
    else (none, c', prng, events ++ claim_failed s.transfer ∷ [])
