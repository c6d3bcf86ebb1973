-- ===== src/Mediated/Mediator/Sound.antt =====
-- The channels stay sound under the mediator's handling of secrets and balance proofs, in
-- src/gatecoin/transfer/mediated_transfer/mediator.py.
use gatecoin.Common.{
  ℕ, true, List, [], ◌∷◌, IfReturns, IfReturns-bind, IfReturns-trivial, Returns-bind, Returns,
  Bool-cases, Option-cases, inl, inr, not, ◌&&◌,
}
use gatecoin.Externals.{Externals}
use gatecoin.Channel.Send as Send
use gatecoin.Channel.Send.Partial.{send_unlock-IfReturns}
use gatecoin.Channel.Receive.Sound.{IsSoundChannel}
use gatecoin.Channel.Secret.{register_onchain_secret}
use gatecoin.Channel.Secret.Sound.{
  register_offchain_secret-IsSound, register_onchain_secret-IsSound,
}
use gatecoin.Mediated.Channels.{
  Channels, AreSound, get_channel, write-AreSound, get_channel-IsSound,
}
use gatecoin.Mediated.Mediator.{
  MediationPairState, MediatorTransferState, payee_identifier, payer_identifier, get_payee_channel,
  get_payer_channel, payee_knows_secret, payee_paid,
}
use gatecoin.Mediated.Mediator.Secrets.{
  set_offchain_at, set_offchain_pairs, set_offchain_secret, set_onchain_at, set_onchain_pairs,
  set_onchain_secret, waiting_identifier, is_open, is_safe_to_send, unlock_request,
  send_balanceproof, balanceproof_for_pair, events_for_balanceproof,
}

module _ (x : Externals) where
  set_offchain_at-AreSound :
      (h : Channels) (identifier secret secrethash : ℕ)
      → AreSound x h
      → AreSound x (set_offchain_at h identifier secret secrethash)
  set_offchain_at-AreSound h identifier secret secrethash sound =
      elim (Option-cases (get_channel h identifier)) [
        | inl missing ↦ rw (missing, set_offchain_at) sound
        | inr ((reference, c), here) ↦
            rw (here, set_offchain_at)
              (write-AreSound x h sound reference _
                (register_offchain_secret-IsSound x c secret secrethash
                  (get_channel-IsSound x h sound identifier reference c here)).0)
      ]

  set_offchain_pairs-AreSound :
      (ps : List MediationPairState) (h : Channels) (secret secrethash : ℕ)
      → AreSound x h
      → AreSound x (set_offchain_pairs h ps secret secrethash)
  unfolding set_offchain_pairs
  set_offchain_pairs-AreSound [] h secret secrethash sound = sound
  set_offchain_pairs-AreSound (p ∷ ps) h secret secrethash sound =
      set_offchain_pairs-AreSound ps _ secret secrethash (
        set_offchain_at-AreSound _ (payee_identifier p) secret secrethash
          (set_offchain_at-AreSound h (payer_identifier p) secret secrethash sound))

  pub set_offchain_secret-AreSound :
      (s : MediatorTransferState) (h : Channels) (secret secrethash : ℕ)
      → AreSound x h
      → AreSound x (set_offchain_secret s h secret secrethash).1
  unfolding set_offchain_secret
  set_offchain_secret-AreSound s h secret secrethash sound =
      let pairs = set_offchain_pairs-AreSound s.transfers_pair h secret secrethash sound in
      elim (Option-cases s.waiting_transfer) [
        | inl e ↦ rw e pairs
        | inr (w, e) ↦
            rw e (set_offchain_at-AreSound _ (waiting_identifier w) secret secrethash pairs)
      ]

  set_onchain_at-AreSound :
      (h : Channels) (identifier secret secrethash block : ℕ)
      → AreSound x h
      → Returns (AreSound x) (set_onchain_at h identifier secret secrethash block)
  set_onchain_at-AreSound h identifier secret secrethash block sound =
      elim (Option-cases (get_channel h identifier)) [
        | inl missing ↦ rw (missing, set_onchain_at) sound
        | inr ((reference, c), here) ↦
            rw (here, set_onchain_at)
              (Returns-bind _ (AreSound x) (register_onchain_secret c secret secrethash block true)
                _
                (register_onchain_secret-IsSound x c secret secrethash block
                  (get_channel-IsSound x h sound identifier reference c here))
                (λ c' k. write-AreSound x h sound reference c' k.0))
      ]

  set_onchain_pairs-AreSound :
      (ps : List MediationPairState) (h : Channels) (secret secrethash block : ℕ)
      → AreSound x h
      → Returns (AreSound x) (set_onchain_pairs h ps secret secrethash block)
  unfolding set_onchain_pairs
  set_onchain_pairs-AreSound [] h secret secrethash block sound = sound
  set_onchain_pairs-AreSound (p ∷ ps) h secret secrethash block sound =
      Returns-bind (AreSound x) (AreSound x)
        (set_onchain_at h (payer_identifier p) secret secrethash block) _
        (set_onchain_at-AreSound h (payer_identifier p) secret secrethash block sound)
        (λ h₁ s₁.
          Returns-bind (AreSound x) (AreSound x)
            (set_onchain_at h₁ (payee_identifier p) secret secrethash block) _
            (set_onchain_at-AreSound h₁ (payee_identifier p) secret secrethash block s₁)
            (λ h₂ s₂. set_onchain_pairs-AreSound ps h₂ secret secrethash block s₂))

  pub set_onchain_secret-AreSound :
      (s : MediatorTransferState) (h : Channels) (secret secrethash block : ℕ)
      → AreSound x h
      → Returns (λ r. AreSound x r.1) (set_onchain_secret s h secret secrethash block)
  unfolding set_onchain_secret
  set_onchain_secret-AreSound s h secret secrethash block sound =
      Returns-bind (AreSound x) (λ r. AreSound x r.1)
        (set_onchain_pairs h s.transfers_pair secret secrethash block) _
        (set_onchain_pairs-AreSound s.transfers_pair h secret secrethash block sound)
        (λ h₁ s₁. elim (Option-cases s.waiting_transfer) [
          | inl e ↦ rw e s₁
          | inr (w, e) ↦ rw e (
              Returns-bind (AreSound x) (λ r. AreSound x r.1)
                (set_onchain_at h₁ (waiting_identifier w) secret secrethash block) _
                (set_onchain_at-AreSound h₁ (waiting_identifier w) secret secrethash block s₁)
                (λ h₂ s₂. s₂))
        ])

  send_balanceproof-AreSound :
      (h : Channels) (p : MediationPairState) (prng block secret secrethash : ℕ)
      → AreSound x h
      → IfReturns (λ r. AreSound x r.1) (send_balanceproof x h p prng block secret secrethash)
  unfolding send_balanceproof get_payee_channel
  send_balanceproof-AreSound h p prng block secret secrethash sound =
      elim (Option-cases (get_channel h (payee_identifier p))) [
        | inl missing ↦ rw (missing, send_balanceproof, get_payee_channel) sound
        | inr ((reference, c), here) ↦
            rw (here, send_balanceproof, get_payee_channel)
              (let q = unlock_request p (x.randint prng).0 block secret in
                IfReturns-bind (λ r. IsSoundChannel x r.0) (λ r. AreSound x r.1)
                  (Send.send_unlock x c q secrethash) _
                  (send_unlock-IfReturns x c
                    (get_channel-IsSound x h sound (payee_identifier p) reference c here) q
                    secrethash)
                  (λ r s. write-AreSound x h sound reference r.0 s))
      ]

  balanceproof_for_pair-AreSound :
      (h : Channels) (p : MediationPairState) (prng block secret secrethash : ℕ)
      → AreSound x h
      → IfReturns (λ r. AreSound x r.1) (balanceproof_for_pair x h p prng block secret secrethash)
  unfolding balanceproof_for_pair
  balanceproof_for_pair-AreSound h p prng block secret secrethash sound =
      IfReturns-bind (λ _. Unit {0}) (λ r. AreSound x r.1)
        (is_safe_to_send (get_payer_channel h p) p block) _
        (IfReturns-trivial (is_safe_to_send (get_payer_channel h p) p block))
        (λ safe _.
          elim (Bool-cases (
            is_open (get_payee_channel h p)
            && payee_knows_secret p.payee_state
            && not (payee_paid p.payee_state)
            && safe)) [
              | inl e ↦ rw e (send_balanceproof-AreSound h p prng block secret secrethash sound)
              | inr e ↦ rw e sound
            ])

  pub events_for_balanceproof-AreSound :
      (h : Channels) (ps : List MediationPairState) (prng block secret secrethash : ℕ)
      → AreSound x h
      → IfReturns
          (λ r. AreSound x r.1)
          (events_for_balanceproof x h ps prng block secret secrethash)
  unfolding events_for_balanceproof
  events_for_balanceproof-AreSound h [] prng block secret secrethash sound = sound
  events_for_balanceproof-AreSound h (p ∷ ps) prng block secret secrethash sound =
      IfReturns-bind (λ r. AreSound x r.1) (λ r. AreSound x r.1)
        (events_for_balanceproof x h ps prng block secret secrethash) _
        (events_for_balanceproof-AreSound h ps prng block secret secrethash sound)
        (λ (_, h₁, prng₁, _) s₁.
          IfReturns-bind (λ r. AreSound x r.1) (λ r. AreSound x r.1)
            (balanceproof_for_pair x h₁ p prng₁ block secret secrethash) _
            (balanceproof_for_pair-AreSound h₁ p prng₁ block secret secrethash s₁) (λ r s₂. s₂))
