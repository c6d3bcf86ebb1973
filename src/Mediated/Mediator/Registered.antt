-- ===== src/Mediated/Mediator/Registered.antt =====
-- How often the mediator registers a secret on chain: `handle_block` and the two functions
-- `events_for_onchain_secretreveal_if_…` of src/gatecoin/transfer/mediated_transfer/mediator.py.
use gatecoin.Common.{
  ℕ, ◌+◌, ◌≤◌, ◌≡◌, Bool, true, false, not, ◌&&◌, none, some, List, [], ◌∷◌, ◌++◌, ok, Result,
  IfReturns, IfReturns-bind, IfReturns-trivial, Bool-cases, Option-cases, inl, inr, arith,
  if◌then◌else◌,
}
use gatecoin.State.{NettingChannelState}
use gatecoin.Event.{Event}
use gatecoin.Channel.Query.{get_secret, is_secret_known, get_lock}
use gatecoin.Mediated.Waiting.{is_safe_to_wait, secret_registry_events}
use gatecoin.Mediated.Target.Blocks.{registrations}
use gatecoin.Mediated.Channels.{Channels}
use gatecoin.Mediated.Mediator.{
  MediationPairState, is_pair_pending, has_secret_registration_started, get_payer_channel,
}
use gatecoin.Mediated.Mediator.Onchain.{
  payer_channels, reveal_pair, dangerzone_pairs, events_for_onchain_secretreveal_if_dangerzone,
  reveal_closed, closed_pairs, events_for_onchain_secretreveal_if_closed,
}

abbrev pub count : Bool → ℕ
count true = 1
count false = 0

pub registrations-append :
    (xs ys : List Event) → registrations (xs ++ ys) ≡ registrations xs + registrations ys
registrations-append [] ys = omega arith
registrations-append (e ∷ es) ys = ground (arith, registrations-append es ys)

registry-le :
    (c : NettingChannelState) (secret expiration hash : ℕ)
    → registrations (secret_registry_events c secret expiration hash) ≤ 1
unfolding secret_registry_events
registry-le c secret expiration hash = ground arith

reveal_pair-count :
    (c : NettingChannelState) (p : MediationPairState) (number hash : ℕ) (sent : Bool)
    → IfReturns (λ r. registrations r.2 + count sent ≤ count r.1) (reveal_pair c p number hash sent)
unfolding reveal_pair
reveal_pair-count c p number hash sent =
    IfReturns-bind (λ _. Unit {0}) (λ r. registrations r.2 + count sent ≤ count r.1)
      (is_safe_to_wait p.payer_transfer.lock.expiration c.reveal_timeout number) _
      (IfReturns-trivial (is_safe_to_wait p.payer_transfer.lock.expiration c.reveal_timeout number))
      (λ safe _.
        elim (Bool-cases
          (not safe && is_secret_known c.partner_state p.payer_transfer.lock.secrethash)) [
            | inl e ↦
                elim (Option-cases (get_secret c.partner_state p.payer_transfer.lock.secrethash)) [
                  | inl unknown ↦ ground arith
                  | inr (secret, known) ↦
                      ground (arith, registry-le c secret p.payer_transfer.lock.expiration hash)
                ]
            | inr e ↦ ground arith
          ])

abbrev danger_pair :
    Channels → MediationPairState → ℕ → ℕ → Bool → Result (MediationPairState × Bool × List Event)
danger_pair h p number hash sent = elim (get_payer_channel h p) [
  | none ↦ ok (p, sent, [])
  | some (_, c) ↦ if is_pair_pending p then reveal_pair c p number hash sent else ok (p, sent, [])
]

danger_pair-count :
    (h : Channels) (p : MediationPairState) (number hash : ℕ) (sent : Bool)
    → IfReturns (λ r. registrations r.2 + count sent ≤ count r.1) (danger_pair h p number hash sent)
danger_pair-count h p number hash sent = elim (Option-cases (get_payer_channel h p)) [
  | inl missing ↦ rw (missing, danger_pair) (omega arith)
  | inr ((_, c), here) ↦
      rw (here, danger_pair)
        (elim (Bool-cases (is_pair_pending p)) [
          | inl e ↦ rw e (reveal_pair-count c p number hash sent)
          | inr e ↦ rw e (omega arith)
        ])
]

dangerzone_pairs-count :
    (h : Channels) (ps : List MediationPairState) (number hash : ℕ) (sent : Bool)
    → IfReturns (λ r. registrations r.1 + count sent ≤ 1) (dangerzone_pairs h ps number hash sent)
unfolding dangerzone_pairs
dangerzone_pairs-count h [] number hash sent = ground arith
dangerzone_pairs-count h (p ∷ ps) number hash sent =
    IfReturns-bind (λ r. registrations r.2 + count sent ≤ count r.1)
      (λ r. registrations r.1 + count sent ≤ 1) (danger_pair h p number hash sent) _
      (danger_pair-count h p number hash sent)
      (λ (p', sent', events) k.
        IfReturns-bind (λ r. registrations r.1 + count sent' ≤ 1)
          (λ r. registrations r.1 + count sent ≤ 1) (dangerzone_pairs h ps number hash sent') _
          (dangerzone_pairs-count h ps number hash sent')
          (λ (ps', later) k₂. omega (arith, k, k₂, registrations-append events later)))

-- For locks that near their expiration, whenever the call returns, a secret is registered on
-- chain at most once, and not at all when a registration has been seen or started in one of the
-- pairs.
pub dangerzone-registrations :
    (h : Channels) (secrethash : ℕ) (ps : List MediationPairState) (number hash : ℕ)
    → IfReturns
        (λ r.
          registrations r.1
            + count (has_secret_registration_started (payer_channels h ps) ps secrethash)
          ≤ 1)
        (events_for_onchain_secretreveal_if_dangerzone h secrethash ps number hash)
unfolding events_for_onchain_secretreveal_if_dangerzone
dangerzone-registrations h secrethash ps number hash =
    dangerzone_pairs-count h ps number hash
      (has_secret_registration_started (payer_channels h ps) ps secrethash)

reveal_closed-count :
    (c : NettingChannelState) (p : MediationPairState) (secret secrethash hash : ℕ) (sent : Bool)
    → let r = reveal_closed c p secret secrethash hash sent in
      registrations r.2 + count sent ≤ count r.1
unfolding reveal_closed
reveal_closed-count c p secret secrethash hash sent =
    elim (Option-cases (get_lock c.partner_state secrethash)) [
      | inl unknown ↦ ground arith
      | inr (l, known) ↦ ground (arith, registry-le c secret l.expiration hash)
    ]

closed_pairs-count :
    (h : Channels) (ps : List MediationPairState) (secret secrethash hash : ℕ) (sent : Bool)
    → registrations (closed_pairs h ps secret secrethash hash sent).1 + count sent ≤ 1
unfolding closed_pairs
closed_pairs-count h [] secret secrethash hash sent = ground arith
closed_pairs-count h (p ∷ ps) secret secrethash hash sent =
    elim (Option-cases (get_payer_channel h p)) [
      | inl missing ↦
          rw (missing, closed_pairs) (closed_pairs-count h ps secret secrethash hash sent)
      | inr ((_, c), here) ↦
          rw (here, closed_pairs)
            (elim (Bool-cases (is_pair_pending p)) [
              | inl e ↦
                  let r = reveal_closed c p secret secrethash hash sent in
                  let later = (closed_pairs h ps secret secrethash hash r.1).1 in
                  rw e (
                    omega (
                      arith,
                      reveal_closed-count c p secret secrethash hash sent,
                      closed_pairs-count h ps secret secrethash hash r.1,
                      registrations-append r.2 later,
                    ))
              | inr e ↦ rw e (closed_pairs-count h ps secret secrethash hash sent)
            ])
    ]

-- For payers' channels that are closed, a secret is registered on chain at most once, and not at
-- all when a registration has been seen or started in one of the pairs.
pub closed-registrations :
    (h : Channels) (secret secrethash : ℕ) (ps : List MediationPairState) (hash : ℕ)
    → registrations (events_for_onchain_secretreveal_if_closed h ps secret secrethash hash).1
        + count (has_secret_registration_started (payer_channels h ps) ps secrethash)
      ≤ 1
unfolding events_for_onchain_secretreveal_if_closed
closed-registrations h secret secrethash ps hash =
    closed_pairs-count h ps secret secrethash hash
      (has_secret_registration_started (payer_channels h ps) ps secrethash)
