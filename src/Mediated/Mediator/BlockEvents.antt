-- ===== src/Mediated/Mediator/BlockEvents.antt =====
-- A block makes the mediator register a secret at most once: `handle_block` of
-- src/gatecoin/transfer/mediated_transfer/mediator.py.
use gatecoin.Common.{
  ℕ, ◌+◌, ◌≤◌, ◌≡◌, refl, ◌&&◌, Option, none, some, List, [], ◌∷◌, ◌++◌, map, Fault, IfReturns,
  IfReturns-bind, IfReturns-trivial, Bool-cases, Option-cases, List-cases, Result-cases, inl, inr,
  arith, assert, ◌==◌, ◌∙◌,
}
use gatecoin.Externals.{Externals}
use gatecoin.State.{NettingChannelState, LockedTransferSignedState, HashTimeLockState}
use gatecoin.Event.{SendLockExpired, send_lock_expired, unlock_failed}
use gatecoin.Channel.Check.{is_transfer_expired}
use gatecoin.Channel.Send as Send
use gatecoin.Channel.Send.{get_address_metadata}
use gatecoin.Mediated.Waiting.{payer_address}
use gatecoin.Mediated.Target.Blocks.{registrations}
use gatecoin.Mediated.Channels.{Channels, get_channel}
use gatecoin.Mediated.Mediator.{
  MediationPairState, WaitingTransferState, MediatorTransferState, is_pair_pending,
  has_secret_registration_started, get_payee_channel, get_payer_channel,
}
use gatecoin.Mediated.Mediator.Forward.{
  Fees, filter_acceptable_routes, try_routes, mediate_transfer,
}
use gatecoin.Mediated.Mediator.Secrets.{waiting_identifier}
use gatecoin.Mediated.Mediator.Onchain.{
  payer_channels, events_for_onchain_secretreveal_if_dangerzone,
}
use gatecoin.Mediated.Mediator.Expiry.{
  expire_pairs, expire_waiting, events_for_expired_pairs, expirable_lock, expire_lock, expire_pair,
  remove_expired_locks, events_to_remove_expired_locks,
}
use gatecoin.Mediated.Mediator.Handle.{retry, handle_block}
use gatecoin.Mediated.Mediator.Registered.{count, registrations-append, dangerzone-registrations}

-- The other events of a block.
messages-registrations : (es : List SendLockExpired) → registrations (map send_lock_expired es) ≡ 0
messages-registrations [] = refl
messages-registrations (e ∷ es) = messages-registrations es

expire_lock-registrations :
    (x : Externals) (c : NettingChannelState) (p : MediationPairState) (l : HashTimeLockState)
    (metadata : Option ℕ) (number prng : ℕ)
    → IfReturns (λ r. registrations r.3 ≡ 0) (expire_lock x c p l metadata number prng)
unfolding expire_lock
expire_lock-registrations x c p l metadata number prng =
    elim (Result-cases (Send.send_lock_expired x c l prng metadata)) [
      | inl ((c', prng', es), e) ↦ ground (
        arith,
        messages-registrations es,
        registrations-append (map send_lock_expired es) (
            unlock_failed p.payee_transfer.payment_identifier p.payee_transfer.lock.secrethash
            ∷ []),
      )
      | inr (f, e) ↦ ground arith
    ]

expire_pair-registrations :
    (x : Externals) (initial : LockedTransferSignedState) (secrethash : ℕ) (h : Channels)
    (p : MediationPairState) (number prng : ℕ)
    → IfReturns (λ r. registrations r.3 ≡ 0) (expire_pair x initial secrethash h p number prng)
unfolding expire_pair
expire_pair-registrations x initial secrethash h p number prng =
    elim (Option-cases (get_payee_channel h p)) [
      | inl missing ↦ rw (missing, expire_pair) refl
      | inr ((reference, c), here) ↦
          rw (here, expire_pair)
            (IfReturns-bind (λ _. Unit {0}) (λ r. registrations r.3 ≡ 0)
              (expirable_lock c.our_state secrethash) _
              (IfReturns-trivial (expirable_lock c.our_state secrethash))
              (λ o _. elim (Option-cases o) [
                | inl e ↦ rw e refl
                | inr (l, e) ↦ rw e (
                    IfReturns-bind (λ r. registrations r.3 ≡ 0) (λ r. registrations r.3 ≡ 0)
                      (expire_lock x c p l
                        (get_address_metadata p.payee_address initial.route_states) number prng)
                      _
                      (expire_lock-registrations x c p l
                        (get_address_metadata p.payee_address initial.route_states) number prng)
                      (λ r k. k))
              ]))
    ]

remove_expired-registrations :
    (x : Externals) (initial : LockedTransferSignedState) (secrethash : ℕ) (h : Channels)
    (ps : List MediationPairState) (number prng : ℕ)
    → IfReturns
        (λ r. registrations r.3 ≡ 0)
        (remove_expired_locks x initial secrethash h ps number prng)
unfolding remove_expired_locks
remove_expired-registrations x initial secrethash h [] number prng = refl
remove_expired-registrations x initial secrethash h (p ∷ ps) number prng =
    IfReturns-bind (λ r. registrations r.3 ≡ 0) (λ r. registrations r.3 ≡ 0)
      (expire_pair x initial secrethash h p number prng) _
      (expire_pair-registrations x initial secrethash h p number prng)
      (λ (_, h₁, prng₁, events) k.
        IfReturns-bind (λ r. registrations r.3 ≡ 0) (λ r. registrations r.3 ≡ 0)
          (remove_expired_locks x initial secrethash h₁ ps number prng₁) _
          (remove_expired-registrations x initial secrethash h₁ ps number prng₁)
          (λ r k₂. omega (arith, k, k₂, registrations-append events r.3)))

events_to_remove-registrations :
    (x : Externals) (s : MediatorTransferState) (h : Channels) (number prng : ℕ)
    → IfReturns (λ r. registrations r.3 ≡ 0) (events_to_remove_expired_locks x s h number prng)
unfolding events_to_remove_expired_locks
events_to_remove-registrations x s h number prng = elim (List-cases s.transfers_pair) [
  | inl e ↦ rw (e, events_to_remove_expired_locks) refl
  | inr (p, ps, e) ↦
      rw (e, events_to_remove_expired_locks)
        (IfReturns-bind (λ r. registrations r.3 ≡ 0) (λ r. registrations r.3 ≡ 0)
          (remove_expired_locks x p.payer_transfer s.secrethash h s.transfers_pair number prng) _
          (remove_expired-registrations x p.payer_transfer s.secrethash h s.transfers_pair number
            prng)
          (λ r k. k))
]

expire_pairs-registrations :
    (h : Channels) (ps : List MediationPairState) (number : ℕ)
    → registrations (expire_pairs h ps number).1 ≡ 0
unfolding expire_pairs
expire_pairs-registrations h [] number = refl
expire_pairs-registrations h (p ∷ ps) number = elim (Option-cases (get_payer_channel h p)) [
  | inl missing ↦ rw (missing, expire_pairs) (expire_pairs-registrations h ps number)
  | inr ((_, c), here) ↦
      rw (here, expire_pairs)
        (elim (Bool-cases (is_pair_pending p && is_transfer_expired p.payer_transfer c number)) [
          | inl e ↦ rw e (expire_pairs-registrations h ps number)
          | inr e ↦ rw e (expire_pairs-registrations h ps number)
        ])
]

expired-registrations :
    (h : Channels) (s : MediatorTransferState) (number : ℕ)
    → registrations (events_for_expired_pairs h s number).1 ≡ 0
unfolding events_for_expired_pairs
expired-registrations h s number =
    registrations-append (expire_pairs h s.transfers_pair number).1
      (expire_waiting s.waiting_transfer number).1
    ∙ omega
        (arith, expire_pairs-registrations h s.transfers_pair number, waiting s.waiting_transfer)
  where
    waiting : (o : Option WaitingTransferState) → registrations (expire_waiting o number).1 ≡ 0
    waiting none = refl
    waiting (some w) = ground arith

module _ (x : Externals) (fees : Fees) where
  mediate-registrations :
      (s : MediatorTransferState) (h : Channels) (payer : NettingChannelState) (prng : ℕ)
      (t : LockedTransferSignedState) (number : ℕ)
      → IfReturns (λ r. registrations r.3 ≡ 0) (mediate_transfer x fees s h payer prng t number)
  unfolding mediate_transfer
  mediate-registrations s h payer prng t number =
      let routes =
        filter_acceptable_routes h s.refunded_channels
          payer.canonical_identifier.token_network_address payer.our_state.address s.routes in
      IfReturns-bind (λ _. Unit {0}) (λ r. registrations r.3 ≡ 0)
        (assert (payer.partner_state.address == payer_address t) Fault.sender_mismatch) _
        (IfReturns-trivial
          (assert (payer.partner_state.address == payer_address t) Fault.sender_mismatch))
        (λ _ _.
          IfReturns-bind (λ _. Unit {0}) (λ r. registrations r.3 ≡ 0)
            (try_routes x fees h t payer prng number routes) _
            (IfReturns-trivial (try_routes x fees h t payer prng number routes))
            (λ o _. elim (Option-cases o) [ inl e ↦ rw e refl | inr (f, e) ↦ rw e refl ]))

  retry-registrations :
      (s : MediatorTransferState) (h : Channels) (prng number : ℕ)
      → IfReturns (λ r. registrations r.3 ≡ 0) (retry x fees s h prng number)
  unfolding retry
  retry-registrations s h prng number = elim (Option-cases s.waiting_transfer) [
    | inl none_waits ↦ rw (none_waits, retry) refl
    | inr (w, waits) ↦ elim (Option-cases (get_channel h (waiting_identifier w))) [
      | inl missing ↦ rw (waits, missing, retry) refl
      | inr ((_, c), here) ↦
          rw (waits, here, retry)
            (IfReturns-bind (λ r. registrations r.3 ≡ 0) (λ r. registrations r.3 ≡ 0)
              (mediate_transfer x fees s h c prng w.transfer number) _
              (mediate-registrations s h c prng w.transfer number) (λ r k. k))
    ]
  ]

  -- Whenever the mediator's block handler returns, its events register a secret on chain at most
  -- once.
  pub handle_block-registrations :
      (s : MediatorTransferState) (h : Channels) (number hash prng : ℕ)
      → IfReturns (λ r. registrations r.3 ≤ 1) (handle_block x fees s h number hash prng)
  unfolding handle_block
  handle_block-registrations s h number hash prng =
      IfReturns-bind (λ r. registrations r.3 ≡ 0) (λ r. registrations r.3 ≤ 1)
        (retry x fees s h prng number) _ (retry-registrations s h prng number)
        (λ (s₁, h₁, prng₁, mediated) k₁.
          IfReturns-bind (λ r. registrations r.3 ≡ 0) (λ r. registrations r.3 ≤ 1)
            (events_to_remove_expired_locks x s₁ h₁ number prng₁) _
            (events_to_remove-registrations x s₁ h₁ number prng₁)
            (λ (s₂, h₂, prng₂, expired) k₂.
              IfReturns-bind
                (λ r.
                  registrations r.1
                    + count (
                        has_secret_registration_started (payer_channels h₂ s₂.transfers_pair)
                          s₂.transfers_pair s₂.secrethash)
                  ≤ 1)
                (λ r. registrations r.3 ≤ 1)
                (events_for_onchain_secretreveal_if_dangerzone h₂ s₂.secrethash s₂.transfers_pair
                  number hash)
                _ (dangerzone-registrations h₂ s₂.secrethash s₂.transfers_pair number hash)
                (λ (pairs, reveals) k₃.
                  let failed =
                    (events_for_expired_pairs h₂ (record s₂ { transfers_pair = pairs }) number).1 in
                  omega (
                    arith,
                    k₁,
                    k₂,
                    k₃,
                    expired-registrations h₂ (record s₂ { transfers_pair = pairs }) number,
                    registrations-append (mediated ++ failed ++ reveals) expired,
                    registrations-append (mediated ++ failed) reveals,
                    registrations-append mediated failed,
                  ))))
