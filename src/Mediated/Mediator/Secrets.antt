-- ===== src/Mediated/Mediator/Secrets.antt =====
-- Secrets in the mediator: `set_offchain_secret` to `set_offchain_reveal_state`,
-- `events_for_secretreveal` and `events_for_balanceproof` of
-- src/gatecoin/transfer/mediated_transfer/mediator.py. The pairs are returned as they are left.
use gatecoin.Common.{
  ℕ, Bool, true, false, not, ◌&&◌, ◌==◌, if◌then◌else◌, Option, none, some, List, [], ◌∷◌, ◌++◌,
  Result, ok, ◌>>=◌,
}
use gatecoin.Externals.{Externals}
use gatecoin.State.{NettingChannelState}
use gatecoin.Event.{
  Event, send_secret_reveal, send_unlock, unlock_success, unexpected_secret_reveal,
}
use gatecoin.Channel.Query.{get_status, is_opened}
use gatecoin.Channel.Send.{UnlockRequest, get_address_metadata}
use gatecoin.Channel.Send as Send
use gatecoin.Channel.Secret.{register_offchain_secret, register_onchain_secret}
use gatecoin.Mediated.Waiting.{is_safe_to_wait, payer_address, payer_address_metadata}
use gatecoin.Mediated.Channels.{Channels, get_channel, write}
use gatecoin.Mediated.Target.{unordered}
use gatecoin.Mediated.Mediator.{
  payee_secret_revealed, payee_balance_proof, payer_secret_revealed, payee_knows_secret,
  payer_knows_secret, payee_paid, is_payer_pending, MediationPairState, WaitingTransferState,
  MediatorTransferState, payee_identifier, payer_identifier, get_payee_channel, get_payer_channel,
}

-- The secret in the channel of an identifier, if the channel is there.
abbrev pub set_offchain_at : Channels → ℕ → ℕ → ℕ → Channels
set_offchain_at h identifier secret secrethash = elim (get_channel h identifier) [
  | none ↦ h
  | some (reference, c) ↦ write h reference (register_offchain_secret c secret secrethash)
]

unfoldable pub set_offchain_pairs : Channels → List MediationPairState → ℕ → ℕ → Channels
set_offchain_pairs h [] secret secrethash = h
set_offchain_pairs h (p ∷ ps) secret secrethash =
    let h₁ = set_offchain_at h (payer_identifier p) secret secrethash in
    let h₂ = set_offchain_at h₁ (payee_identifier p) secret secrethash in
    set_offchain_pairs h₂ ps secret secrethash

abbrev pub waiting_identifier : WaitingTransferState → ℕ
waiting_identifier w = w.transfer.balance_proof.canonical_identifier.channel_identifier

unfoldable pub set_offchain_secret :
    MediatorTransferState → Channels → ℕ → ℕ → MediatorTransferState × Channels × List Event
set_offchain_secret s h secret secrethash =
    let s' = record s { secret = some secret } in
    let h' = set_offchain_pairs h s.transfers_pair secret secrethash in
    elim s.waiting_transfer [
      | none ↦ (s', h', [])
      | some w ↦ (
        s',
        set_offchain_at h' (waiting_identifier w) secret secrethash,
        unexpected_secret_reveal secrethash ∷ [],
      )
    ]

abbrev pub set_onchain_at : Channels → ℕ → ℕ → ℕ → ℕ → Result Channels
set_onchain_at h identifier secret secrethash block_number = elim (get_channel h identifier) [
  | none ↦ ok h
  | some (reference, c) ↦ do
    c' ← register_onchain_secret c secret secrethash block_number true
    ok (write h reference c')
]

unfoldable pub set_onchain_pairs : Channels → List MediationPairState → ℕ → ℕ → ℕ → Result Channels
set_onchain_pairs h [] secret secrethash block_number = ok h
set_onchain_pairs h (p ∷ ps) secret secrethash block_number = do
  h₁ ← set_onchain_at h (payer_identifier p) secret secrethash block_number
  h₂ ← set_onchain_at h₁ (payee_identifier p) secret secrethash block_number
  set_onchain_pairs h₂ ps secret secrethash block_number

unfoldable pub set_onchain_secret :
    MediatorTransferState
    → Channels
    → ℕ
    → ℕ
    → ℕ
    → Result (MediatorTransferState × Channels × List Event)
set_onchain_secret s h secret secrethash block_number = do
  let s' = record s { secret = some secret }
  h₁ ← set_onchain_pairs h s.transfers_pair secret secrethash block_number
  elim s.waiting_transfer [
    | none ↦ ok (s', h₁, [])
    | some w ↦ do
      h₂ ← set_onchain_at h₁ (waiting_identifier w) secret secrethash block_number
      ok (s', h₂, unexpected_secret_reveal secrethash ∷ [])
  ]

unfoldable pub set_offchain_reveal_state : List MediationPairState → ℕ → List MediationPairState
set_offchain_reveal_state [] payee_address = []
set_offchain_reveal_state (p ∷ ps) payee_address =
    let rest = set_offchain_reveal_state ps payee_address in
    if p.payee_address == payee_address
    then record p { payee_state = payee_secret_revealed } ∷ rest
    else p ∷ rest

-- From the last pair to the first.
unfoldable pub events_for_secretreveal :
    Externals → List MediationPairState → ℕ → ℕ → List MediationPairState × ℕ × List Event
events_for_secretreveal x [] secret prng = ([], prng, [])
events_for_secretreveal x (p ∷ ps) secret prng =
    let (ps', prng', events) = events_for_secretreveal x ps secret prng in
    let (identifier, next) = x.randint prng' in
    let t = p.payer_transfer in
    if payee_knows_secret p.payee_state
      && not (payer_knows_secret p.payer_state)
      && is_payer_pending p.payer_state
    then (
      record p { payer_state = payer_secret_revealed } ∷ ps',
      next,
      events
          ++ send_secret_reveal (unordered (payer_address t) (payer_address_metadata t) identifier)
              (record { secret = secret; secrethash = x.sha256 secret })
            ∷ [],
    )
    else (p ∷ ps', prng', events)

abbrev pub is_open : Option (ℕ × NettingChannelState) → Bool
is_open none = false
is_open (some (_, c)) = is_opened (get_status c)

-- Waiting is safe in the payer's channel, if it is there.
abbrev pub is_safe_to_send : Option (ℕ × NettingChannelState) → MediationPairState → ℕ → Result Bool
is_safe_to_send none p block_number = ok false
is_safe_to_send (some (_, c)) p block_number =
    is_safe_to_wait p.payer_transfer.lock.expiration c.reveal_timeout block_number

abbrev pub unlock_request : MediationPairState → ℕ → ℕ → ℕ → UnlockRequest
unlock_request p identifier block_number secret = record {
  message_identifier = identifier;
  payment_identifier = p.payee_transfer.payment_identifier;
  secret = secret;
  block_number = block_number;
  recipient_metadata = get_address_metadata p.payee_address p.payee_transfer.route_states;
}

-- The balance proof of one pair.
unfoldable pub send_balanceproof :
    Externals
    → Channels
    → MediationPairState
    → ℕ
    → ℕ
    → ℕ
    → ℕ
    → Result (MediationPairState × Channels × ℕ × List Event)
send_balanceproof x h p prng block_number secret secrethash =
    let (identifier, next) = x.randint prng in
    elim (get_payee_channel h p) [
      | none ↦ ok (p, h, prng, [])
      | some (reference, c) ↦ do
        (c', unlock) ←
            Send.send_unlock x c (unlock_request p identifier block_number secret) secrethash
        ok (
          record p { payee_state = payee_balance_proof },
          write h reference c',
          next,
          send_unlock unlock
              ∷ unlock_success p.payer_transfer.payment_identifier p.payer_transfer.lock.secrethash
              ∷ [],
        )
    ]

-- The balance proof of one pair, where it is due.
unfoldable pub balanceproof_for_pair :
    Externals
    → Channels
    → MediationPairState
    → ℕ
    → ℕ
    → ℕ
    → ℕ
    → Result (MediationPairState × Channels × ℕ × List Event)
balanceproof_for_pair x h p prng block_number secret secrethash = do
  safe ← is_safe_to_send (get_payer_channel h p) p block_number
  if is_open (get_payee_channel h p)
        && payee_knows_secret p.payee_state
        && not (payee_paid p.payee_state)
        && safe
      then send_balanceproof x h p prng block_number secret secrethash
      else ok (p, h, prng, [])

-- From the last pair to the first.
unfoldable pub events_for_balanceproof :
    Externals
    → Channels
    → List MediationPairState
    → ℕ
    → ℕ
    → ℕ
    → ℕ
    → Result (List MediationPairState × Channels × ℕ × List Event)
events_for_balanceproof x h [] prng block_number secret secrethash = ok ([], h, prng, [])
events_for_balanceproof x h (p ∷ ps) prng block_number secret secrethash = do
  (ps', h₁, prng₁, later) ← events_for_balanceproof x h ps prng block_number secret secrethash
  (p', h₂, prng₂, events) ← balanceproof_for_pair x h₁ p prng₁ block_number secret secrethash
  ok (p' ∷ ps', h₂, prng₂, later ++ events)
