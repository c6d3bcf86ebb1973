-- ===== src/Mediated/Mediator.antt =====
-- The state of a mediator, src/gatecoin/transfer/mediated_transfer/state.py, and what is read off
-- it: `is_lock_valid` to `clear_if_finalized` of
-- src/gatecoin/transfer/mediated_transfer/mediator.py.
pub mod Forward
pub mod Secrets
pub mod Onchain
pub mod Expiry
pub mod Handle
pub mod Receive
pub mod Transition
pub mod Sound
pub mod Released
pub mod Received
pub mod Forwarded
pub mod Handled
pub mod Steps
pub mod Registered
pub mod BlockEvents
pub mod Payment
pub mod Finalized
pub mod Faults
use gatecoin.Common.{
  ℕ, Bool, true, false, not, ◌&&◌, ◌||◌, leb, ◌==◌, if◌then◌else◌, Option, none, some, is_some,
  List, [], ◌∷◌, Result, ok, assert, ◌>>=◌, ◌>>◌, Fault,
}
use gatecoin.State.{
  NettingChannelState, RouteState, LockedTransferUnsignedState, LockedTransferSignedState,
}
use gatecoin.Event.{Event}
use gatecoin.Channel.Query.{is_lock_pending, is_secret_known_onchain}
use gatecoin.Mediated.Waiting.{payer_address}
use gatecoin.Mediated.Channels.{Channels, get_channel}

pub data PayeeState : Type 0 where
  payee_pending payee_secret_revealed payee_contract_unlock payee_balance_proof : PayeeState
  payee_expired : PayeeState

pub data PayerState : Type 0 where
  payer_pending payer_secret_revealed payer_waiting_unlock payer_waiting_secret_reveal : PayerState
  payer_balance_proof payer_expired : PayerState

-- `in STATE_SECRET_KNOWN`
abbrev pub payee_knows_secret : PayeeState → Bool
payee_knows_secret payee_secret_revealed = true
payee_knows_secret payee_contract_unlock = true
payee_knows_secret payee_balance_proof = true
payee_knows_secret _ = false

abbrev pub payer_knows_secret : PayerState → Bool
payer_knows_secret payer_secret_revealed = true
payer_knows_secret payer_waiting_unlock = true
payer_knows_secret payer_balance_proof = true
payer_knows_secret _ = false

-- `in STATE_TRANSFER_PAID`
abbrev pub payee_paid : PayeeState → Bool
payee_paid payee_contract_unlock = true
payee_paid payee_balance_proof = true
payee_paid _ = false

abbrev pub payer_paid : PayerState → Bool
payer_paid payer_balance_proof = true
payer_paid _ = false

-- `in STATE_TRANSFER_FINAL`
abbrev pub payee_final : PayeeState → Bool
payee_final payee_contract_unlock = true
payee_final payee_balance_proof = true
payee_final payee_expired = true
payee_final _ = false

abbrev pub payer_final : PayerState → Bool
payer_final payer_balance_proof = true
payer_final payer_expired = true
payer_final _ = false

abbrev pub is_payer_pending : PayerState → Bool
is_payer_pending payer_pending = true
is_payer_pending _ = false

abbrev pub is_waiting_secret_reveal : PayerState → Bool
is_waiting_secret_reveal payer_waiting_secret_reveal = true
is_waiting_secret_reveal _ = false

pub record MediationPairState : Type 0 where
  pub payer_transfer : LockedTransferSignedState
  pub payee_address : ℕ
  pub payee_transfer : LockedTransferUnsignedState
  pub payer_state : PayerState
  pub payee_state : PayeeState

pub data WaitingStatus : Type 0 where
  waiting expired : WaitingStatus

pub record WaitingTransferState : Type 0 where
  pub transfer : LockedTransferSignedState
  pub state : WaitingStatus

pub record MediatorTransferState : Type 0 where
  pub secrethash : ℕ
  pub routes : List RouteState
  pub refunded_channels : List ℕ
  pub secret : Option ℕ
  pub transfers_pair : List MediationPairState
  pub waiting_transfer : Option WaitingTransferState

unfoldable pub is_lock_valid : ℕ → ℕ → Bool
is_lock_valid expiration block_number = leb block_number expiration

unfoldable pub is_send_transfer_almost_equal :
    LockedTransferUnsignedState → LockedTransferSignedState → Bool
is_send_transfer_almost_equal send received =
    send.payment_identifier == received.payment_identifier
    && send.token == received.token
    && send.lock.expiration == received.lock.expiration
    && send.lock.secrethash == received.lock.secrethash
    && send.initiator == received.initiator
    && send.target == received.target

abbrev pub any_onchain : List NettingChannelState → ℕ → Bool
any_onchain [] secrethash = false
any_onchain (c ∷ cs) secrethash =
    is_secret_known_onchain c.partner_state secrethash || any_onchain cs secrethash

abbrev pub any_waiting_reveal : List MediationPairState → Bool
any_waiting_reveal [] = false
any_waiting_reveal (p ∷ ps) = is_waiting_secret_reveal p.payer_state || any_waiting_reveal ps

unfoldable pub has_secret_registration_started :
    List NettingChannelState → List MediationPairState → ℕ → Bool
has_secret_registration_started channels pairs secrethash =
    any_onchain channels secrethash || any_waiting_reveal pairs

abbrev pub payee_identifier : MediationPairState → ℕ
payee_identifier p = p.payee_transfer.balance_proof.canonical_identifier.channel_identifier

abbrev pub payer_identifier : MediationPairState → ℕ
payer_identifier p = p.payer_transfer.balance_proof.canonical_identifier.channel_identifier

unfoldable pub get_payee_channel : Channels → MediationPairState → Option (ℕ × NettingChannelState)
get_payee_channel h p = get_channel h (payee_identifier p)

unfoldable pub get_payer_channel : Channels → MediationPairState → Option (ℕ × NettingChannelState)
get_payer_channel h p = get_channel h (payer_identifier p)

-- One of the two transfers is not final.
abbrev pub is_pair_pending : MediationPairState → Bool
is_pair_pending p = not (payee_final p.payee_state) || not (payer_final p.payer_state)

unfoldable pub get_pending_transfer_pairs : List MediationPairState → List MediationPairState
get_pending_transfer_pairs [] = []
get_pending_transfer_pairs (p ∷ ps) =
    if is_pair_pending p then p ∷ get_pending_transfer_pairs ps else get_pending_transfer_pairs ps

abbrev any_paid : List MediationPairState → Bool
any_paid [] = false
any_paid (p ∷ ps) = payee_paid p.payee_state || payer_paid p.payer_state || any_paid ps

abbrev check_pairs : Channels → List MediationPairState → Result (Unit {0})
check_pairs h [] = ok tt
check_pairs h (p ∷ ps) = do
  elim (get_payee_channel h p) [
    | none ↦ ok tt
    | some _ ↦
        assert (is_send_transfer_almost_equal p.payee_transfer p.payer_transfer)
          Fault.transfers_too_different
  ]
  check_pairs h ps

-- A pair and the one after it.
abbrev check_refunds : Channels → List MediationPairState → Result (Unit {0})
check_refunds h [] = ok tt
check_refunds h (original ∷ []) = ok tt
check_refunds h (original ∷ refund ∷ ps) = do
  assert (original.payee_address == payer_address refund.payer_transfer) Fault.address_mismatch
  elim (get_payer_channel h refund) [
    | none ↦ ok tt
    | some _ ↦
        assert (is_send_transfer_almost_equal original.payee_transfer refund.payer_transfer)
          Fault.transfers_too_different
  ]
  check_refunds h (refund ∷ ps)

-- `transfers_pair[-1]`
abbrev pub last_pair : List MediationPairState → Option MediationPairState
last_pair [] = none
last_pair (p ∷ []) = some p
last_pair (p ∷ q ∷ ps) = last_pair (q ∷ ps)

abbrev check_waiting :
    Channels → Option MediationPairState → Option WaitingTransferState → Result (Unit {0})
check_waiting h (some p) (some w) = elim (get_payee_channel h p) [
  | none ↦ ok tt
  | some _ ↦
      assert (is_send_transfer_almost_equal p.payee_transfer w.transfer)
        Fault.transfers_too_different
]
check_waiting h none _ = ok tt
check_waiting h (some p) none = ok tt

abbrev check_secrethash : ℕ → List MediationPairState → Result (Unit {0})
check_secrethash secrethash [] = ok tt
check_secrethash secrethash (p ∷ ps) =
    assert (secrethash == p.payer_transfer.lock.secrethash) Fault.secrethash_mismatch

-- The states of a pair are those of their types here.
unfoldable pub sanity_check : MediatorTransferState → Channels → Result (Unit {0})
sanity_check s h = do
  if any_paid s.transfers_pair then assert (is_some s.secret) Fault.secret_missing else ok tt
  check_secrethash s.secrethash s.transfers_pair
  check_pairs h s.transfers_pair
  check_refunds h s.transfers_pair
  check_waiting h (last_pair s.transfers_pair) s.waiting_transfer

-- The lock of a secrethash is pending on one side of a channel, if the channel is there.
abbrev pub pending_received : Option (ℕ × NettingChannelState) → ℕ → Bool
pending_received none secrethash = false
pending_received (some (_, c)) secrethash = is_lock_pending c.partner_state secrethash

abbrev pub pending_sent : Option (ℕ × NettingChannelState) → ℕ → Bool
pending_sent none secrethash = false
pending_sent (some (_, c)) secrethash = is_lock_pending c.our_state secrethash

abbrev pub any_pending : Channels → ℕ → List MediationPairState → Bool
any_pending h secrethash [] = false
any_pending h secrethash (p ∷ ps) =
    pending_received (get_payer_channel h p) secrethash
    || pending_sent (get_payee_channel h p) secrethash
    || any_pending h secrethash ps

abbrev pub waiting_pending : Channels → ℕ → Option WaitingTransferState → Bool
waiting_pending h secrethash none = false
waiting_pending h secrethash (some w) =
    pending_received
      (get_channel h w.transfer.balance_proof.canonical_identifier.channel_identifier) secrethash

-- What a handler returns: the task, the channels, the random generator and the events.
abbrev pub Iteration : Type 0
Iteration = Option MediatorTransferState × Channels × ℕ × List Event

unfoldable pub clear_if_finalized : Iteration → Iteration
clear_if_finalized (none, h, prng, events) = (none, h, prng, events)
clear_if_finalized (some s, h, prng, events) =
    if any_pending h s.secrethash s.transfers_pair
      || waiting_pending h s.secrethash s.waiting_transfer
    then (some s, h, prng, events)
    else (none, h, prng, events)
