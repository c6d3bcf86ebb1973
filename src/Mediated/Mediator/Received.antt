-- ===== src/Mediated/Mediator/Received.antt =====
-- The channels stay sound when the mediator receives unlocks and expiries, in
-- src/gatecoin/transfer/mediated_transfer/mediator.py.
use gatecoin.Common.{
  ℕ, ◌≡◌, Option, none, some, List, [], ◌∷◌, IfReturns, IfReturns-bind, IfReturns-of_Returns,
  Bool-cases, Option-cases, inl, inr, ◌==◌,
}
use gatecoin.Externals.{Externals}
use gatecoin.Channel.Send.{get_address_metadata}
use gatecoin.Channel.Receive as Receive
use gatecoin.Channel.Receive.{ReceiveUnlock, ReceiveLockExpired, handle_receive_lock_expired}
use gatecoin.Channel.Receive.Sound.{
  IsSoundChannel, handle_unlock-IsSound, handle_receive_lock_expired-IsSound,
}
use gatecoin.Mediated.Channels.{
  Channels, AreSound, get_channel, write, write-AreSound, get_channel-IsSound,
}
use gatecoin.Mediated.Waiting.{payer_address}
use gatecoin.Mediated.Mediator.{
  MediationPairState, MediatorTransferState, WaitingTransferState, payer_identifier,
  get_payer_channel,
}
use gatecoin.Mediated.Mediator.Secrets.{waiting_identifier}
use gatecoin.Mediated.Mediator.Receive.{
  unlock_pairs, handle_unlock, lock_expired_pairs, lock_expired_waiting, handle_lock_expired,
}

module _ (x : Externals) where
  unlock_pairs-AreSound :
      (s : MediatorTransferState) (m : ReceiveUnlock) (ps : List MediationPairState) (h : Channels)
      → AreSound x h
      → IfReturns (λ r. AreSound x r.1) (unlock_pairs x s m h ps)
  unfolding unlock_pairs
  unlock_pairs-AreSound s m [] h sound = sound
  unlock_pairs-AreSound s m (p ∷ ps) h sound =
      elim (Bool-cases (payer_address p.payer_transfer == m.balance_proof.sender)) [
        | inl e ↦
            elim (Option-cases
              (get_channel h m.balance_proof.canonical_identifier.channel_identifier)) [
                | inl missing ↦
                    rw (e, missing)
                      (IfReturns-bind (λ r. AreSound x r.1) (λ r. AreSound x r.1)
                        (unlock_pairs x s m h ps) _ (unlock_pairs-AreSound s m ps h sound)
                        (λ r k. k))
                | inr ((reference, c), here) ↦
                    rw (e, here)
                      (IfReturns-bind (λ r. IsSoundChannel x r.0 × (r.0.our_state ≡ c.our_state))
                        (λ r. AreSound x r.1)
                        (Receive.handle_unlock x c m
                          (get_address_metadata m.balance_proof.sender s.routes))
                        _
                        (IfReturns-of_Returns
                          (λ r. IsSoundChannel x r.0 × (r.0.our_state ≡ c.our_state))
                          (Receive.handle_unlock x c m
                            (get_address_metadata m.balance_proof.sender s.routes))
                          (handle_unlock-IsSound x c m
                            (get_address_metadata m.balance_proof.sender s.routes)
                            (get_channel-IsSound x h sound
                              m.balance_proof.canonical_identifier.channel_identifier reference c
                              here)))
                        (λ (c', accepted, events) k.
                          IfReturns-bind (λ r. AreSound x r.1) (λ r. AreSound x r.1)
                            (unlock_pairs x s m (write h reference c') ps) _
                            (unlock_pairs-AreSound s m ps (write h reference c')
                              (write-AreSound x h sound reference c' k.0))
                            (λ r k₂. k₂)))
              ]
        | inr e ↦ rw e (
            IfReturns-bind (λ r. AreSound x r.1) (λ r. AreSound x r.1) (unlock_pairs x s m h ps) _
              (unlock_pairs-AreSound s m ps h sound) (λ r k. k))
      ]

  pub handle_unlock-AreSound :
      (s : MediatorTransferState) (m : ReceiveUnlock) (h : Channels) (prng : ℕ)
      → AreSound x h
      → IfReturns (λ r. AreSound x r.1) (handle_unlock x s m h prng)
  unfolding handle_unlock
  handle_unlock-AreSound s m h prng sound =
      IfReturns-bind (λ r. AreSound x r.1) (λ r. AreSound x r.1)
        (unlock_pairs x s m h s.transfers_pair) _
        (unlock_pairs-AreSound s m s.transfers_pair h sound) (λ r k. k)

  lock_expired_pairs-AreSound :
      (s : MediatorTransferState) (m : ReceiveLockExpired) (block : ℕ)
      (ps : List MediationPairState) (h : Channels)
      → AreSound x h
      → AreSound x (lock_expired_pairs x s m h block ps).1
  unfolding lock_expired_pairs get_payer_channel
  lock_expired_pairs-AreSound s m block [] h sound = sound
  lock_expired_pairs-AreSound s m block (p ∷ ps) h sound =
      elim (Option-cases (get_channel h (payer_identifier p))) [
        | inl missing ↦ rw (missing, lock_expired_pairs, get_payer_channel) sound
        | inr ((reference, c), here) ↦
            rw (here, lock_expired_pairs, get_payer_channel)
              (lock_expired_pairs-AreSound s m block ps _ (
                write-AreSound x h sound reference _
                  (handle_receive_lock_expired-IsSound x c m block
                    (get_address_metadata c.partner_state.address s.routes)
                    (get_channel-IsSound x h sound (payer_identifier p) reference c here)).0))
      ]

  lock_expired_waiting-AreSound :
      (s : MediatorTransferState) (m : ReceiveLockExpired) (h : Channels) (block : ℕ)
      (o : Option WaitingTransferState)
      → AreSound x h
      → AreSound x (lock_expired_waiting x s m h block o).0
  lock_expired_waiting-AreSound s m h block none sound = sound
  lock_expired_waiting-AreSound s m h block (some w) sound =
      elim (Option-cases (get_channel h (waiting_identifier w))) [
        | inl missing ↦ rw (missing, lock_expired_waiting) sound
        | inr ((reference, c), here) ↦
            rw (here, lock_expired_waiting)
              (write-AreSound x h sound reference _
                (handle_receive_lock_expired-IsSound x c m block
                  (get_address_metadata c.partner_state.address s.routes)
                  (get_channel-IsSound x h sound (waiting_identifier w) reference c here)).0)
      ]

  pub handle_lock_expired-AreSound :
      (s : MediatorTransferState) (m : ReceiveLockExpired) (h : Channels) (block prng : ℕ)
      → AreSound x h
      → AreSound x (handle_lock_expired x s m h block prng).1
  unfolding handle_lock_expired
  handle_lock_expired-AreSound s m h block prng sound =
      let pairs = lock_expired_pairs-AreSound s m block s.transfers_pair h sound in
      elim (Option-cases (lock_expired_pairs x s m h block s.transfers_pair).2) [
        | inl e ↦ rw (e, handle_lock_expired) pairs
        | inr (events, e) ↦
            rw (e, handle_lock_expired)
              (lock_expired_waiting-AreSound
                (record s {
                  transfers_pair = (lock_expired_pairs x s m h block s.transfers_pair).0;
                })
                m (lock_expired_pairs x s m h block s.transfers_pair).1 block s.waiting_transfer
                pairs)
      ]
