-- ===== src/Mediated/Mediator/Onchain.antt =====
-- Registering a secret on chain: `events_for_onchain_secretreveal_if_dangerzone` and
-- `events_for_onchain_secretreveal_if_closed` of
-- src/gatecoin/transfer/mediated_transfer/mediator.py.
use gatecoin.Common.{
  ℕ, Bool, true, not, ◌&&◌, if◌then◌else◌, none, some, List, [], ◌∷◌, ◌++◌, Result, ok, assert_some,
  ◌>>=◌, Fault,
}
use gatecoin.State.{NettingChannelState}
use gatecoin.Event.{Event}
use gatecoin.Channel.Query.{get_lock, get_secret, get_status, is_closed, is_secret_known}
use gatecoin.Mediated.Waiting.{is_safe_to_wait, secret_registry_events}
use gatecoin.Mediated.Channels.{Channels}
use gatecoin.Mediated.Mediator.{
  payer_waiting_secret_reveal, MediationPairState, is_pair_pending, has_secret_registration_started,
  get_payer_channel,
}

abbrev pub payer_channels : Channels → List MediationPairState → List NettingChannelState
payer_channels h [] = []
payer_channels h (p ∷ ps) = elim (get_payer_channel h p) [
  | none ↦ payer_channels h ps
  | some (_, c) ↦ c ∷ payer_channels h ps
]

-- One pair whose lock is in the danger zone, and whether a transaction has been sent.
unfoldable pub reveal_pair :
    NettingChannelState
    → MediationPairState
    → ℕ
    → ℕ
    → Bool
    → Result (MediationPairState × Bool × List Event)
reveal_pair c p block_number block_hash sent = do
  let l = p.payer_transfer.lock
  let p' = record p { payer_state = payer_waiting_secret_reveal }
  safe ← is_safe_to_wait l.expiration c.reveal_timeout block_number
  let revealing : Result (MediationPairState × Bool × List Event) = do
    secret ← assert_some (get_secret c.partner_state l.secrethash) Fault.secret_missing
    ok (p', true, secret_registry_events c secret l.expiration block_hash)
  if not safe && is_secret_known c.partner_state l.secrethash
      then (if sent then ok (p', sent, []) else revealing)
      else ok (p, sent, [])

unfoldable pub dangerzone_pairs :
    Channels
    → List MediationPairState
    → ℕ
    → ℕ
    → Bool
    → Result (List MediationPairState × List Event)
dangerzone_pairs h [] block_number block_hash sent = ok ([], [])
dangerzone_pairs h (p ∷ ps) block_number block_hash sent = do
  (p', sent', events) ← elim (get_payer_channel h p) [
    | none ↦ ok (p, sent, [])
    | some (_, c) ↦
        if is_pair_pending p then reveal_pair c p block_number block_hash sent else ok (p, sent, [])
  ]
  (ps', later) ← dangerzone_pairs h ps block_number block_hash sent'
  ok (p' ∷ ps', events ++ later)

unfoldable pub events_for_onchain_secretreveal_if_dangerzone :
    Channels → ℕ → List MediationPairState → ℕ → ℕ → Result (List MediationPairState × List Event)
events_for_onchain_secretreveal_if_dangerzone h secrethash pairs block_number block_hash =
    dangerzone_pairs h pairs block_number block_hash
      (has_secret_registration_started (payer_channels h pairs) pairs secrethash)

-- One pair whose payer's channel is closed.
unfoldable pub reveal_closed :
    NettingChannelState
    → MediationPairState
    → ℕ
    → ℕ
    → ℕ
    → Bool
    → MediationPairState × Bool × List Event
reveal_closed c p secret secrethash block_hash sent =
    let p' = record p { payer_state = payer_waiting_secret_reveal } in
    if is_closed (get_status c)
    then (if sent then (p', sent, []) else elim (get_lock c.partner_state secrethash) [
      | none ↦ (p', sent, [])
      | some l ↦ (p', true, secret_registry_events c secret l.expiration block_hash)
    ])
    else (p, sent, [])

unfoldable pub closed_pairs :
    Channels → List MediationPairState → ℕ → ℕ → ℕ → Bool → List MediationPairState × List Event
closed_pairs h [] secret secrethash block_hash sent = ([], [])
closed_pairs h (p ∷ ps) secret secrethash block_hash sent =
    let (p', sent', events) : MediationPairState × Bool × List Event =
      elim (get_payer_channel h p) [
        | none ↦ (p, sent, [])
        | some (_, c) ↦
            if is_pair_pending p
            then reveal_closed c p secret secrethash block_hash sent
            else (p, sent, [])
      ] in
    let (ps', later) = closed_pairs h ps secret secrethash block_hash sent' in
    (p' ∷ ps', events ++ later)

unfoldable pub events_for_onchain_secretreveal_if_closed :
    Channels → List MediationPairState → ℕ → ℕ → ℕ → List MediationPairState × List Event
events_for_onchain_secretreveal_if_closed h pairs secret secrethash block_hash =
    closed_pairs h pairs secret secrethash block_hash
      (has_secret_registration_started (payer_channels h pairs) pairs secrethash)
