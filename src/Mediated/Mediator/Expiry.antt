-- ===== src/Mediated/Mediator/Expiry.antt =====
-- Giving locks up: `events_for_expired_pairs` and `events_to_remove_expired_locks` of
-- src/gatecoin/transfer/mediated_transfer/mediator.py.
use gatecoin.Common.{
  ℕ, Bool, true, false, not, ◌&&◌, leb, contains, lookup, if◌then◌else◌, Option, none, some, List,
  [], ◌∷◌, ◌++◌, map, Result, ok, assert, ◌>>=◌, ◌>>◌, Fault,
}
use gatecoin.Externals.{Externals}
use gatecoin.State.{
  HashTimeLockState, NettingChannelEndState, NettingChannelState, LockedTransferSignedState,
}
use gatecoin.Event.{Event, send_lock_expired, unlock_failed}
use gatecoin.Channel.Query.{
  get_status, is_opened, get_receiver_expiration_threshold, get_sender_expiration_threshold,
}
use gatecoin.Channel.Check.{is_lock_expired, is_ok, is_transfer_expired}
use gatecoin.Channel.Send.{get_address_metadata}
use gatecoin.Channel.Send as Send
use gatecoin.Mediated.Channels.{Channels, write}
use gatecoin.Mediated.Target.{claim_failed}
use gatecoin.Mediated.Mediator.{
  payer_expired, payee_expired, MediationPairState, WaitingStatus, waiting, expired,
  WaitingTransferState, MediatorTransferState, is_pair_pending, get_payee_channel,
  get_payer_channel,
}

unfoldable pub expire_pairs :
    Channels → List MediationPairState → ℕ → List MediationPairState × List Event
expire_pairs h [] block_number = ([], [])
expire_pairs h (p ∷ ps) block_number =
    let (ps', events) = expire_pairs h ps block_number in
    elim (get_payer_channel h p) [
      | none ↦ (p ∷ ps', events)
      | some (_, c) ↦
          if is_pair_pending p && is_transfer_expired p.payer_transfer c block_number
          then (
            record p { payer_state = payer_expired } ∷ ps',
            claim_failed p.payer_transfer ∷ events,
          )
          else (p ∷ ps', events)
    ]

abbrev pub is_waiting : WaitingStatus → Bool
is_waiting waiting = true
is_waiting expired = false

abbrev pub expire_waiting :
    Option WaitingTransferState → ℕ → Option WaitingTransferState × List Event
expire_waiting none block_number = (none, [])
expire_waiting (some w) block_number =
    if is_waiting w.state
      && leb (get_receiver_expiration_threshold w.transfer.lock.expiration) block_number
    then (some (record w { state = expired }), claim_failed w.transfer ∷ [])
    else (some w, [])

unfoldable pub events_for_expired_pairs :
    Channels → MediatorTransferState → ℕ → MediatorTransferState × List Event
events_for_expired_pairs h s block_number =
    let (pairs, events) = expire_pairs h s.transfers_pair block_number in
    let (w, later) = expire_waiting s.waiting_transfer block_number in
    (record s { transfers_pair = pairs; waiting_transfer = w }, events ++ later)

-- The lock that was sent and is not claimed on chain.
unfoldable pub expirable_lock : NettingChannelEndState → ℕ → Result (Option HashTimeLockState)
expirable_lock e secrethash = elim (lookup secrethash e.secrethashes_to_lockedlocks) [
  | some l ↦ do
    assert (not (contains secrethash e.secrethashes_to_unlockedlocks)) Fault.already_unlocked
    ok (some l)
  | none ↦ elim (lookup secrethash e.secrethashes_to_unlockedlocks) [
    | some p ↦ ok (some p.lock)
    | none ↦ ok none
  ]
]

-- The pair, its channel, the random generator and the events.
unfoldable pub expire_lock :
    Externals
    → NettingChannelState
    → MediationPairState
    → HashTimeLockState
    → Option ℕ
    → ℕ
    → ℕ
    → Result (MediationPairState × NettingChannelState × ℕ × List Event)
expire_lock x c p l metadata block_number prng =
    let over =
      is_ok (
        is_lock_expired c.our_state l block_number
          (get_sender_expiration_threshold l.expiration)) in
    let sending : Result (MediationPairState × NettingChannelState × ℕ × List Event) = do
      (c', prng', messages) ← Send.send_lock_expired x c l prng metadata
      ok (
        record p { payee_state = payee_expired },
        c',
        prng',
        map send_lock_expired messages
            ++ unlock_failed p.payee_transfer.payment_identifier p.payee_transfer.lock.secrethash
              ∷ [],
      )
    in if over && is_opened (get_status c) then sending else ok (p, c, prng, [])

unfoldable pub expire_pair :
    Externals
    → LockedTransferSignedState
    → ℕ
    → Channels
    → MediationPairState
    → ℕ
    → ℕ
    → Result (MediationPairState × Channels × ℕ × List Event)
expire_pair x initial secrethash h p block_number prng = elim (get_payee_channel h p) [
  | none ↦ ok (p, h, prng, [])
  | some (reference, c) ↦ do
    found ← expirable_lock c.our_state secrethash
    elim found [
      | none ↦ ok (p, h, prng, [])
      | some l ↦ do
        (p', c', prng', events) ←
            expire_lock x c p l (get_address_metadata p.payee_address initial.route_states)
              block_number prng
        ok (p', write h reference c', prng', events)
    ]
]

unfoldable pub remove_expired_locks :
    Externals
    → LockedTransferSignedState
    → ℕ
    → Channels
    → List MediationPairState
    → ℕ
    → ℕ
    → Result (List MediationPairState × Channels × ℕ × List Event)
remove_expired_locks x initial secrethash h [] block_number prng = ok ([], h, prng, [])
remove_expired_locks x initial secrethash h (p ∷ ps) block_number prng = do
  (p', h₁, prng₁, events) ← expire_pair x initial secrethash h p block_number prng
  (ps', h₂, prng₂, later) ← remove_expired_locks x initial secrethash h₁ ps block_number prng₁
  ok (p' ∷ ps', h₂, prng₂, events ++ later)

unfoldable pub events_to_remove_expired_locks :
    Externals
    → MediatorTransferState
    → Channels
    → ℕ
    → ℕ
    → Result (MediatorTransferState × Channels × ℕ × List Event)
events_to_remove_expired_locks x s h block_number prng = elim s.transfers_pair [
  | [] ↦ ok (s, h, prng, [])
  | p ∷ _ ↦ do
    (pairs, h', prng', events) ←
        remove_expired_locks x p.payer_transfer s.secrethash h s.transfers_pair block_number prng
    ok (record s { transfers_pair = pairs }, h', prng', events)
]
