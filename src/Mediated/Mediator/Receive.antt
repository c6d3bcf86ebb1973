-- ===== src/Mediated/Mediator/Receive.antt =====
-- The mediator's handlers of received unlocks and expiries: `handle_unlock` and
-- `handle_lock_expired` of src/gatecoin/transfer/mediated_transfer/mediator.py.
use gatecoin.Common.{
  ℕ, ◌==◌, if◌then◌else◌, Option, none, some, is_some, List, [], ◌∷◌, ◌++◌, Result, ok, ◌>>=◌,
}
use gatecoin.Externals.{Externals}
use gatecoin.Event.{Event, unlock_claim_success}
use gatecoin.Channel.Query.{get_lock}
use gatecoin.Channel.Send.{get_address_metadata}
use gatecoin.Channel.Receive.{ReceiveUnlock, ReceiveLockExpired, handle_receive_lock_expired}
use gatecoin.Channel.Receive as Receive
use gatecoin.Mediated.Waiting.{payer_address}
use gatecoin.Mediated.Channels.{Channels, get_channel, write}
use gatecoin.Mediated.Mediator.{
  payer_balance_proof, payer_expired, MediationPairState, WaitingTransferState,
  MediatorTransferState, get_payer_channel,
}
use gatecoin.Mediated.Mediator.Secrets.{waiting_identifier}
use gatecoin.Mediated.Mediator.Handle.{Step}

-- The unlock, for each pair whose payer sent it.
unfoldable pub unlock_pairs :
    Externals
    → MediatorTransferState
    → ReceiveUnlock
    → Channels
    → List MediationPairState
    → Result (List MediationPairState × Channels × List Event)
unlock_pairs x s m h [] = ok ([], h, [])
unlock_pairs x s m h (p ∷ ps) =
    let sender = m.balance_proof.sender in
    let skipping : Result (List MediationPairState × Channels × List Event) = do
      (ps', h', events) ← unlock_pairs x s m h ps
      ok (p ∷ ps', h', events)
    in if payer_address p.payer_transfer == sender
      then elim (get_channel h m.balance_proof.canonical_identifier.channel_identifier) [
        | none ↦ skipping
        | some (reference, c) ↦ do
          (c', accepted, events) ←
              Receive.handle_unlock x c m (get_address_metadata sender s.routes)
          (ps', h', later) ← unlock_pairs x s m (write h reference c') ps
          ok (
            if accepted then record p { payer_state = payer_balance_proof } ∷ ps' else p ∷ ps',
            h',
            if accepted
                then events
                  ++ unlock_claim_success p.payee_transfer.payment_identifier
                      p.payee_transfer.lock.secrethash
                    ∷ later
                else events ++ later,
          )
      ]
      else skipping

unfoldable pub handle_unlock :
    Externals → MediatorTransferState → ReceiveUnlock → Channels → ℕ → Result Step
handle_unlock x s m h prng = do
  (pairs, h', events) ← unlock_pairs x s m h s.transfers_pair
  ok (record s { transfers_pair = pairs }, h', prng, events)

-- The expiry, in the payer's channel of each pair; `none` for the events where a channel is
-- missing.
unfoldable pub lock_expired_pairs :
    Externals
    → MediatorTransferState
    → ReceiveLockExpired
    → Channels
    → ℕ
    → List MediationPairState
    → List MediationPairState × Channels × Option (List Event)
lock_expired_pairs x s m h block_number [] = ([], h, some [])
lock_expired_pairs x s m h block_number (p ∷ ps) = elim (get_payer_channel h p) [
  | none ↦ (p ∷ ps, h, none)
  | some (reference, c) ↦
      let (c', events) =
        handle_receive_lock_expired x c m block_number
          (get_address_metadata c.partner_state.address s.routes) in
      let p' =
        if is_some (get_lock c'.partner_state s.secrethash)
        then p
        else record p { payer_state = payer_expired } in
      let (ps', h', later) = lock_expired_pairs x s m (write h reference c') block_number ps in
      (p' ∷ ps', h', elim later [ none ↦ none | some es ↦ some (events ++ es) ])
]

abbrev pub lock_expired_waiting :
    Externals
    → MediatorTransferState
    → ReceiveLockExpired
    → Channels
    → ℕ
    → Option WaitingTransferState
    → Channels × List Event
lock_expired_waiting x s m h block_number none = (h, [])
lock_expired_waiting x s m h block_number (some w) = elim (get_channel h (waiting_identifier w)) [
  | none ↦ (h, [])
  | some (reference, c) ↦
      let (c', events) =
        handle_receive_lock_expired x c m block_number
          (get_address_metadata c.partner_state.address s.routes) in
      (write h reference c', events)
]

-- With a channel missing, the handler returns no event and leaves the waiting transfer alone.
unfoldable pub handle_lock_expired :
    Externals → MediatorTransferState → ReceiveLockExpired → Channels → ℕ → ℕ → Step
handle_lock_expired x s m h block_number prng =
    let (pairs, h', found) = lock_expired_pairs x s m h block_number s.transfers_pair in
    let s' = record s { transfers_pair = pairs } in
    elim found [
      | none ↦ (s', h', prng, [])
      | some events ↦
          let (h₂, later) = lock_expired_waiting x s' m h' block_number s'.waiting_transfer in
          (s', h₂, prng, events ++ later)
    ]
