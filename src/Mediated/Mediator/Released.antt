-- ===== src/Mediated/Mediator/Released.antt =====
-- The channels stay sound when the mediator gives locks up, in src/gatecoin/transfer/mediated_transfer/mediator.py.
use gatecoin.Common.{
  ℕ, ◌≡◌, Option, some, List, [], ◌∷◌, ok, IfReturns, IfReturns-bind, Bool-cases, Option-cases,
  List-cases, Result-cases, inl, inr, ◌&&◌, lookup, arith, ap, ◌∙◌,
}
use gatecoin.Externals.{Externals}
use gatecoin.State.{HashTimeLockState, NettingChannelState, LockedTransferSignedState}
use gatecoin.Channel.Query.{get_lock, get_status, is_opened, get_sender_expiration_threshold}
use gatecoin.Channel.Check.{is_lock_expired, is_ok}
use gatecoin.Channel.Send as Send
use gatecoin.Channel.Send.{get_address_metadata}
use gatecoin.Channel.Send.Partial.{send_lock_expired-IfReturns}
use gatecoin.Channel.Receive.Sound.{IsSoundChannel}
use gatecoin.Mediated.Channels.{
  Channels, AreSound, get_channel, write-AreSound, get_channel-IsSound,
}
use gatecoin.Mediated.Mediator.{
  MediationPairState, MediatorTransferState, payee_identifier, get_payee_channel,
}
use gatecoin.Mediated.Mediator.Expiry.{
  expirable_lock, expire_lock, expire_pair, remove_expired_locks, events_to_remove_expired_locks,
}

module _ (x : Externals) where
  own :
      (c : NettingChannelState) (h : ℕ) (l : HashTimeLockState)
      → IsSoundChannel x c
      → get_lock c.our_state h ≡ some l
      → get_lock c.our_state l.secrethash ≡ some l
  own c h l sound here = ap (get_lock c.our_state) (sound.our_index.listed h l here).0 ∙ here

  expirable-found :
      (c : NettingChannelState) (h : ℕ) (o : Option HashTimeLockState)
      → IsSoundChannel x c
      → expirable_lock c.our_state h ≡ ok o
      → (l : HashTimeLockState) → o ≡ some l
      → get_lock c.our_state h ≡ some l
  unfolding expirable_lock get_lock
  expirable-found c h o sound e l same =
      elim (Option-cases (lookup h c.our_state.secrethashes_to_lockedlocks)) [
        | inl missing ↦ ground (arith, sound.our_index.apart h)
        | inr (k, here) ↦ ground (arith, sound.our_index.apart h)
      ]

  -- A lock that may be expired is found under its own secrethash.
  expirable-get_lock :
      (c : NettingChannelState) (secrethash : ℕ)
      → IsSoundChannel x c
      → IfReturns
          (λ o. (l : HashTimeLockState) → o ≡ some l → get_lock c.our_state l.secrethash ≡ some l)
          (expirable_lock c.our_state secrethash)
  expirable-get_lock c secrethash sound =
      elim (Result-cases (expirable_lock c.our_state secrethash)) [
        | inl (o, e) ↦
            rw e
              (λ l same. own c secrethash l sound (expirable-found c secrethash o sound e l same))
        | inr (f, e) ↦ rw e tt
      ]

  expire_lock-IsSound :
      (c : NettingChannelState) (p : MediationPairState) (l : HashTimeLockState)
      (metadata : Option ℕ) (block prng : ℕ)
      → IsSoundChannel x c
      → get_lock c.our_state l.secrethash ≡ some l
      → IfReturns (λ r. IsSoundChannel x r.1) (expire_lock x c p l metadata block prng)
  unfolding expire_lock is_lock_expired
  expire_lock-IsSound c p l metadata block prng sound here =
      elim (Option-cases (lookup l.secrethash c.our_state.secrethashes_to_onchain_unlockedlocks)) [
        | inl missing ↦
            elim (Bool-cases (
              is_ok
                (is_lock_expired c.our_state l block (get_sender_expiration_threshold l.expiration))
              && is_opened (get_status c))) [
                | inl e ↦
                    rw (e, expire_lock)
                      (IfReturns-bind (λ r. IsSoundChannel x r.0) (λ r. IsSoundChannel x r.1)
                        (Send.send_lock_expired x c l prng metadata) _
                        (send_lock_expired-IfReturns x c sound l prng metadata here missing)
                        (λ r k. k))
                | inr e ↦ rw (e, expire_lock) sound
              ]
        | inr (o, claimed) ↦ rw (claimed, expire_lock, is_lock_expired) sound
      ]

  expire_pair-AreSound :
      (initial : LockedTransferSignedState) (secrethash : ℕ) (h : Channels) (p : MediationPairState)
      (block prng : ℕ)
      → AreSound x h
      → IfReturns (λ r. AreSound x r.1) (expire_pair x initial secrethash h p block prng)
  unfolding expire_pair get_payee_channel
  expire_pair-AreSound initial secrethash h p block prng sound =
      elim (Option-cases (get_channel h (payee_identifier p))) [
        | inl missing ↦ rw (missing, expire_pair, get_payee_channel) sound
        | inr ((reference, c), here) ↦
            rw (here, expire_pair, get_payee_channel)
              (let kept = get_channel-IsSound x h sound (payee_identifier p) reference c here in
                IfReturns-bind
                  (λ o.
                    (l : HashTimeLockState)
                    → o ≡ some l
                    → get_lock c.our_state l.secrethash ≡ some l)
                  (λ r. AreSound x r.1) (expirable_lock c.our_state secrethash) _
                  (expirable-get_lock c secrethash kept)
                  (λ o found. elim (Option-cases o) [
                    | inl e ↦ rw e sound
                    | inr (l, e) ↦ rw e (
                        IfReturns-bind (λ r. IsSoundChannel x r.1) (λ r. AreSound x r.1)
                          (expire_lock x c p l
                            (get_address_metadata p.payee_address initial.route_states) block prng)
                          _
                          (expire_lock-IsSound c p l
                            (get_address_metadata p.payee_address initial.route_states) block prng
                            kept (found l e))
                          (λ r s. write-AreSound x h sound reference r.1 s))
                  ]))
      ]

  remove_expired_locks-AreSound :
      (initial : LockedTransferSignedState) (secrethash : ℕ) (ps : List MediationPairState)
      (h : Channels) (block prng : ℕ)
      → AreSound x h
      → IfReturns (λ r. AreSound x r.1) (remove_expired_locks x initial secrethash h ps block prng)
  unfolding remove_expired_locks
  remove_expired_locks-AreSound initial secrethash [] h block prng sound = sound
  remove_expired_locks-AreSound initial secrethash (p ∷ ps) h block prng sound =
      IfReturns-bind (λ r. AreSound x r.1) (λ r. AreSound x r.1)
        (expire_pair x initial secrethash h p block prng) _
        (expire_pair-AreSound initial secrethash h p block prng sound)
        (λ (_, h₁, prng₁, _) s₁.
          IfReturns-bind (λ r. AreSound x r.1) (λ r. AreSound x r.1)
            (remove_expired_locks x initial secrethash h₁ ps block prng₁) _
            (remove_expired_locks-AreSound initial secrethash ps h₁ block prng₁ s₁) (λ r s₂. s₂))

  pub events_to_remove_expired_locks-AreSound :
      (s : MediatorTransferState) (h : Channels) (block prng : ℕ)
      → AreSound x h
      → IfReturns (λ r. AreSound x r.1) (events_to_remove_expired_locks x s h block prng)
  unfolding events_to_remove_expired_locks
  events_to_remove_expired_locks-AreSound s h block prng sound =
      elim (List-cases s.transfers_pair) [
        | inl e ↦ rw (e, events_to_remove_expired_locks) sound
        | inr (p, ps, e) ↦
            rw (e, events_to_remove_expired_locks)
              (IfReturns-bind (λ r. AreSound x r.1) (λ r. AreSound x r.1)
                (remove_expired_locks x p.payer_transfer s.secrethash h s.transfers_pair block prng)
                _
                (remove_expired_locks-AreSound p.payer_transfer s.secrethash s.transfers_pair h
                  block prng sound)
                (λ r k. k))
      ]
