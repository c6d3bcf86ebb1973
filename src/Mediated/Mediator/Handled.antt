-- ===== src/Mediated/Mediator/Handled.antt =====
-- The mediator's handlers keep every channel sound: those of
-- src/gatecoin/transfer/mediated_transfer/mediator.py that `state_transition` calls.
use gatecoin.Common.{
  ℕ, ◌≡◌, none, some, is_some, IfReturns, IfReturns-bind, IfReturns-of_Returns, IfReturns-trivial,
  Bool-cases, Option-cases, inl, inr, ◌==◌, not, ◌&&◌,
}
use gatecoin.Externals.{Externals}
use gatecoin.State.{NettingChannelState, LockedTransferSignedState}
use gatecoin.Channel.Query.{get_lock}
use gatecoin.Channel.Check.{is_transfer_expired}
use gatecoin.Channel.Receive as Receive
use gatecoin.Channel.Receive.Sound.{handle_refundtransfer-IsSound}
use gatecoin.Mediated.Waiting.{ReceiveSecretReveal, ContractReceiveSecretReveal}
use gatecoin.Mediated.Channels.{
  Channels, AreSound, get_channel, write, write-AreSound, get_channel-IsSound,
}
use gatecoin.Mediated.Mediator.{
  MediationPairState, WaitingTransferState, MediatorTransferState, last_pair, get_payer_channel,
}
use gatecoin.Mediated.Mediator.Forward.{Fees, filter_acceptable_routes, mediate_transfer}
use gatecoin.Mediated.Mediator.Secrets.{
  waiting_identifier, set_offchain_secret, set_onchain_secret, set_offchain_reveal_state,
  events_for_secretreveal, events_for_balanceproof,
}
use gatecoin.Mediated.Mediator.Onchain.{
  events_for_onchain_secretreveal_if_dangerzone, events_for_onchain_secretreveal_if_closed,
}
use gatecoin.Mediated.Mediator.Expiry.{events_to_remove_expired_locks}
use gatecoin.Mediated.Mediator.Handle.{
  refunded, secret_learned, retry, handle_block, refund_last, handle_refundtransfer,
  handle_offchain_secretreveal, handle_onchain_secretreveal,
}
use gatecoin.Mediated.Mediator.Transition.{
  MediatorChange, action_init_mediator, block, receive_transfer_refund, step,
}
use gatecoin.Mediated.Mediator.Sound.{
  set_offchain_secret-AreSound, set_onchain_secret-AreSound, events_for_balanceproof-AreSound,
}
use gatecoin.Mediated.Mediator.Released.{events_to_remove_expired_locks-AreSound}
use gatecoin.Mediated.Mediator.Received.{handle_unlock-AreSound, handle_lock_expired-AreSound}
use gatecoin.Mediated.Mediator.Forwarded.{AreUnsent, mediate_transfer-AreSound}

-- The routes that a transfer received through `c` may go on by lead to unused channels.
abbrev pub MayForward :
    MediatorTransferState → Channels → NettingChannelState → LockedTransferSignedState → Type 0
MayForward s h c t = AreUnsent h c t.lock.secrethash (
    filter_acceptable_routes h s.refunded_channels c.canonical_identifier.token_network_address
      c.our_state.address s.routes)

module _ (x : Externals) (fees : Fees) (s : MediatorTransferState) (h : Channels) where
  -- Where a change makes the task forward a transfer, it may.
  abbrev pub IsReady : MediatorChange → Type 0
  IsReady (block number hash) =
      (w : WaitingTransferState) (reference : ℕ) (c : NettingChannelState)
      → s.waiting_transfer ≡ some w
      → get_channel h (waiting_identifier w) ≡ some (reference, c)
      → MayForward s h c w.transfer
  IsReady (receive_transfer_refund t) =
      (p : MediationPairState) (reference : ℕ) (c : NettingChannelState)
      → last_pair s.transfers_pair ≡ some p
      → get_channel h t.balance_proof.canonical_identifier.channel_identifier ≡ some (reference, c)
      → let c' = (Receive.handle_refundtransfer x p.payee_transfer c t).0 in
        (get_lock c.partner_state t.lock.secrethash ≡ none)
        × MayForward (refunded s c') (write h reference c') c' t
  IsReady _ = Unit

  module _ (sound : AreSound x h) where
    secret_learned-AreSound :
        (prng number hash secret secrethash payee : ℕ)
        → IfReturns
            (λ r. AreSound x r.1)
            (secret_learned x s h prng number hash secret secrethash payee)
    unfolding secret_learned
    secret_learned-AreSound prng number hash secret secrethash payee =
        let (s', h', _) = set_offchain_secret s h secret secrethash in
        let (pairs₁, _) =
          events_for_onchain_secretreveal_if_closed h'
            (set_offchain_reveal_state s'.transfers_pair payee) secret secrethash hash in
        let (pairs₂, prng₁, _) = events_for_secretreveal x pairs₁ secret prng in
        IfReturns-bind (λ r. AreSound x r.1) (λ r. AreSound x r.1)
          (events_for_balanceproof x h' pairs₂ prng₁ number secret secrethash) _
          (events_for_balanceproof-AreSound x h' pairs₂ prng₁ number secret secrethash
            (set_offchain_secret-AreSound x s h secret secrethash sound))
          (λ r k. k)

    retry-AreSound :
        (prng number hash : ℕ)
        → IsReady (block number hash)
        → IfReturns (λ r. AreSound x r.1) (retry x fees s h prng number)
    unfolding retry
    retry-AreSound prng number hash ready = elim (Option-cases s.waiting_transfer) [
      | inl none_waits ↦ rw (none_waits, retry) sound
      | inr (w, waits) ↦ elim (Option-cases (get_channel h (waiting_identifier w))) [
        | inl missing ↦ rw (waits, missing, retry) sound
        | inr ((reference, c), here) ↦
            rw (waits, here, retry)
              (IfReturns-bind (λ r. AreSound x r.1) (λ r. AreSound x r.1)
                (mediate_transfer x fees s h c prng w.transfer number) _
                (mediate_transfer-AreSound x fees w.transfer s h c prng number sound
                  (ready w reference c waits here))
                (λ r k. k))
      ]
    ]

    refund_last-AreSound :
        (t : LockedTransferSignedState) (prng number : ℕ)
        → IsReady (receive_transfer_refund t)
        → IfReturns (λ r. AreSound x r.1) (refund_last x fees s t h prng number)
    unfolding refund_last
    refund_last-AreSound t prng number ready = elim (Option-cases (last_pair s.transfers_pair)) [
      | inl no_pair ↦ rw (no_pair, refund_last) tt
      | inr (p, last) ↦
          elim (Option-cases
            (get_channel h t.balance_proof.canonical_identifier.channel_identifier)) [
              | inl missing ↦ rw (last, missing, refund_last) sound
              | inr ((reference, c), here) ↦
                  let (fresh, may) = ready p reference c last here in
                  let c' = (Receive.handle_refundtransfer x p.payee_transfer c t).0 in
                  let kept : AreSound x (write h reference c') =
                    write-AreSound x h sound reference c'
                      (handle_refundtransfer-IsSound x c p.payee_transfer t
                        (get_channel-IsSound x h sound
                          t.balance_proof.canonical_identifier.channel_identifier reference c here)
                        fresh).0 in
                  rw (last, here, refund_last)
                    (elim (Bool-cases (Receive.handle_refundtransfer x p.payee_transfer c t).1) [
                      | inl e ↦ rw e (
                          IfReturns-bind (λ r. AreSound x r.1) (λ r. AreSound x r.1)
                            (mediate_transfer x fees (refunded s c') (write h reference c') c' prng
                              t number)
                            _
                            (mediate_transfer-AreSound x fees t (refunded s c')
                              (write h reference c') c' prng number kept may)
                            (λ r k. k))
                      | inr e ↦ rw e kept
                    ])
            ]
    ]

    offchain-AreSound :
        (m : ReceiveSecretReveal) (prng number hash : ℕ)
        → IfReturns (λ r. AreSound x r.1) (handle_offchain_secretreveal x s m h prng number hash)
    unfolding handle_offchain_secretreveal
    offchain-AreSound m prng number hash = elim (Option-cases (last_pair s.transfers_pair)) [
      | inl no_pair ↦ rw (no_pair, handle_offchain_secretreveal) sound
      | inr (p, last) ↦ elim (Option-cases (get_payer_channel h p)) [
        | inl missing ↦ rw (last, missing, handle_offchain_secretreveal) sound
        | inr ((reference, c), here) ↦
            rw (last, here, handle_offchain_secretreveal)
              (elim (Bool-cases (
                not (is_some s.secret)
                && x.sha256 m.secret == s.secrethash
                && not (is_transfer_expired p.payer_transfer c number))) [
                  | inl e ↦ rw e (
                      secret_learned-AreSound prng number hash m.secret (x.sha256 m.secret)
                        m.sender)
                  | inr e ↦ rw e sound
                ])
      ]
    ]

    onchain-AreSound :
        (m : ContractReceiveSecretReveal) (prng : ℕ)
        → IfReturns (λ r. AreSound x r.1) (handle_onchain_secretreveal x s m h prng)
    unfolding handle_onchain_secretreveal
    onchain-AreSound m prng = elim (Bool-cases (m.secrethash == s.secrethash)) [
      | inl e ↦
          rw (e, handle_onchain_secretreveal)
            (IfReturns-bind (λ r. AreSound x r.1) (λ r. AreSound x r.1)
              (set_onchain_secret s h m.secret m.secrethash m.block_number) _
              (IfReturns-of_Returns (λ r. AreSound x r.1)
                (set_onchain_secret s h m.secret m.secrethash m.block_number)
                (set_onchain_secret-AreSound x s h m.secret m.secrethash m.block_number sound))
              (λ (s', h', _) k.
                IfReturns-bind (λ r. AreSound x r.1) (λ r. AreSound x r.1)
                  (events_for_balanceproof x h' s'.transfers_pair prng m.block_number m.secret
                    m.secrethash)
                  _
                  (events_for_balanceproof-AreSound x h' s'.transfers_pair prng m.block_number
                    m.secret m.secrethash k)
                  (λ r k₂. k₂)))
      | inr e ↦ rw (e, handle_onchain_secretreveal) sound
    ]

    block-AreSound :
        (prng number hash : ℕ)
        → IsReady (block number hash)
        → IfReturns (λ r. AreSound x r.1) (handle_block x fees s h number hash prng)
    unfolding handle_block
    block-AreSound prng number hash ready =
        IfReturns-bind (λ r. AreSound x r.1) (λ r. AreSound x r.1) (retry x fees s h prng number) _
          (retry-AreSound prng number hash ready)
          (λ (s₁, h₁, prng₁, _) k₁.
            IfReturns-bind (λ r. AreSound x r.1) (λ r. AreSound x r.1)
              (events_to_remove_expired_locks x s₁ h₁ number prng₁) _
              (events_to_remove_expired_locks-AreSound x s₁ h₁ number prng₁ k₁)
              (λ (s₂, h₂, _, _) k₂.
                IfReturns-bind (λ _. Unit {0}) (λ r. AreSound x r.1)
                  (events_for_onchain_secretreveal_if_dangerzone h₂ s₂.secrethash s₂.transfers_pair
                    number hash)
                  _
                  (IfReturns-trivial (
                    events_for_onchain_secretreveal_if_dangerzone h₂ s₂.secrethash s₂.transfers_pair
                      number hash))
                  (λ _ _. k₂)))

    pub step-AreSound :
        (change : MediatorChange) (prng number hash : ℕ)
        → IsReady change
        → IfReturns (λ r. AreSound x r.1) (step x fees s change h prng number hash)
    unfolding step handle_refundtransfer
    step-AreSound (action_init_mediator m) prng number hash ready = sound
    step-AreSound (block n b) prng number hash ready = block-AreSound prng n b ready
    step-AreSound (receive_transfer_refund t) prng number hash ready =
        elim (Option-cases s.secret) [
          | inl unknown ↦
              rw (unknown, handle_refundtransfer) (refund_last-AreSound t prng number ready)
          | inr (secret, known) ↦ rw (known, handle_refundtransfer) sound
        ]
    step-AreSound (MediatorChange.receive_secret_reveal m) prng number hash ready =
        offchain-AreSound m prng number hash
    step-AreSound (MediatorChange.contract_receive_secret_reveal m) prng number hash ready =
        onchain-AreSound m prng
    step-AreSound (MediatorChange.receive_unlock m) prng number hash ready =
        handle_unlock-AreSound x s m h prng sound
    step-AreSound (MediatorChange.receive_lock_expired m) prng number hash ready =
        handle_lock_expired-AreSound x s m h number prng sound
    step-AreSound MediatorChange.other prng number hash ready = sound
