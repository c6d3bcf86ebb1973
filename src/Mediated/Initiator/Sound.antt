-- ===== src/Mediated/Initiator/Sound.antt =====
-- The channel of the initiator's transfer stays sound over any changes: the handlers of
-- src/gatecoin/transfer/mediated_transfer/initiator.py.
use gatecoin.Common.{
  ℕ, ◌≡◌, lookup, Option, some, none, List, [], ◌∷◌, true, IfReturns, IfReturns-bind, Option-cases,
  Bool-cases, Result-cases, inl, inr, arith, ap, ◌∙◌, Returns, subst,
}
use gatecoin.Externals.{Externals}
use gatecoin.State.{HashTimeLockState, NettingChannelState}
use gatecoin.Channel.Query.{get_lock, get_status, is_opened}
use gatecoin.Channel.Check.{is_lock_expired}
use gatecoin.Channel.Receive.Sound.{IsSoundChannel}
use gatecoin.Channel.Secret.{register_onchain_secret}
use gatecoin.Channel.Secret.Moves.{SameLocks}
use gatecoin.Channel.Secret.Sound.{register_onchain_secret-IsSound}
use gatecoin.Channel.Send as Send
use gatecoin.Channel.Send.{get_address_metadata}
use gatecoin.Channel.Send.Partial.{send_lock_expired-IfReturns, send_unlock-IfReturns}
use gatecoin.Mediated.Waiting.{ReceiveSecretReveal, ContractReceiveSecretReveal}
use gatecoin.Mediated.Initiator.{
  InitiatorTransferState, unlock_request, events_for_unlock_lock, expiry_message, expire,
  handle_block,
}
use gatecoin.Mediated.Initiator.Transition.{
  ReceiveSecretRequest, handle_secretrequest, finish, handle_offchain_secretreveal,
  handle_onchain_secretreveal, InitiatorChange, block, receive_secret_request,
  receive_secret_reveal, contract_receive_secret_reveal, other, state_transition,
}
use gatecoin.Mediated.Initiator.Run.{run}

module _ (x : Externals) (s : InitiatorTransferState) (prng : ℕ) where
  expire-IsSound :
      (c : NettingChannelState) (l : HashTimeLockState)
      → IsSoundChannel x c
      → get_lock c.our_state l.secrethash ≡ some l
      → lookup l.secrethash c.our_state.secrethashes_to_onchain_unlockedlocks ≡ none
      → IfReturns (λ r. IsSoundChannel x r.1) (expire x s c l prng)
  unfolding expire
  expire-IsSound c l sound here unclaimed =
      IfReturns-bind (λ r. IsSoundChannel x r.0) (λ r. IsSoundChannel x r.1)
        (expiry_message x s c l prng) _ message (λ r k. k)
    where
      message : IfReturns (λ r. IsSoundChannel x r.0) (expiry_message x s c l prng)
      message = elim (Bool-cases (is_opened (get_status c))) [
        | inl e ↦
            let metadata = get_address_metadata c.partner_state.address (s.route ∷ []) in
            rw e (
              IfReturns-bind (λ r. IsSoundChannel x r.0) (λ r. IsSoundChannel x r.0)
                (Send.send_lock_expired x c l prng metadata) _
                (send_lock_expired-IfReturns x c sound l prng metadata here unclaimed) (λ r k. k))
        | inr e ↦ rw e sound
      ]

  finish-IsSound :
      (c : NettingChannelState) (secret secrethash number : ℕ)
      → IsSoundChannel x c
      → IfReturns (λ r. IsSoundChannel x r.1) (finish x s c secret secrethash prng number)
  unfolding finish events_for_unlock_lock
  finish-IsSound c secret secrethash number sound =
      let q = unlock_request s c (x.randint prng).0 number secret in
      elim (Result-cases (Send.send_unlock x c q secrethash)) [
        | inl (r, e) ↦
            rw (e, finish, events_for_unlock_lock)
              (subst (IfReturns (λ r. IsSoundChannel x r.0)) e
                (send_unlock-IfReturns x c sound q secrethash))
        | inr (f, e) ↦ rw (e, finish, events_for_unlock_lock) tt
      ]

  own :
      (c : NettingChannelState) (h : ℕ) (l : HashTimeLockState)
      → IsSoundChannel x c
      → lookup h c.our_state.secrethashes_to_lockedlocks ≡ some l
      → get_lock c.our_state l.secrethash ≡ some l
  unfolding get_lock
  own c h l sound here = ap (get_lock c.our_state) (sound.our_index.listed h l found).0 ∙ found
    where
      found : get_lock c.our_state h ≡ some l
      found = ground (arith, here)

  block-IsSound :
      (c : NettingChannelState) (number : ℕ)
      → IsSoundChannel x c
      → IfReturns (λ r. IsSoundChannel x r.1) (handle_block x s c number prng)
  unfolding handle_block is_lock_expired
  block-IsSound c number sound =
      elim (Option-cases
        (lookup s.transfer.lock.secrethash c.our_state.secrethashes_to_lockedlocks)) [
          | inl missing ↦ ground arith
          | inr (l, here) ↦
              elim (Option-cases
                (lookup l.secrethash c.our_state.secrethashes_to_onchain_unlockedlocks)) [
                  | inl unclaimed ↦ ground (
                    arith,
                    expire-IsSound c l sound (own c s.transfer.lock.secrethash l sound here)
                        unclaimed,
                  )
                  | inr (p, claimed) ↦ ground arith
                ]
        ]

  request-IsSound :
      (c : NettingChannelState) (m : ReceiveSecretRequest)
      → IsSoundChannel x c
      → IfReturns (λ r. IsSoundChannel x r.1) (handle_secretrequest x s m c prng)
  unfolding handle_secretrequest
  request-IsSound c m sound = ground arith

  offchain-IsSound :
      (c : NettingChannelState) (m : ReceiveSecretReveal) (number : ℕ)
      → IsSoundChannel x c
      → IfReturns (λ r. IsSoundChannel x r.1) (handle_offchain_secretreveal x s m c prng number)
  unfolding handle_offchain_secretreveal
  offchain-IsSound c m number sound =
      ground (arith, finish-IsSound c m.secret (x.sha256 m.secret) number sound)

  onchain-IsSound :
      (c : NettingChannelState) (m : ContractReceiveSecretReveal) (number : ℕ)
      → IsSoundChannel x c
      → IfReturns (λ r. IsSoundChannel x r.1) (handle_onchain_secretreveal x s m c prng number)
  unfolding handle_onchain_secretreveal
  onchain-IsSound c m number sound =
      let secrethash = s.transfer_description.secrethash in
      let registered = register_onchain_secret c m.secret secrethash m.block_number true in
      elim (Result-cases registered) [
        | inl (c', e) ↦
            let (kept, _, _) =
              subst
                (Returns (λ c₁.
                  IsSoundChannel x c₁
                  × SameLocks c.our_state c₁.our_state
                  × SameLocks c.partner_state c₁.partner_state))
                e (register_onchain_secret-IsSound x c m.secret secrethash m.block_number sound) in
            ground (arith, kept, finish-IsSound c' m.secret m.secrethash number kept)
        | inr (f, e) ↦ ground arith
      ]

  step-IsSound :
      (change : InitiatorChange) (c : NettingChannelState) (number : ℕ)
      → IsSoundChannel x c
      → IfReturns (λ r. IsSoundChannel x r.1) (state_transition x s change c prng number)
  unfolding state_transition
  step-IsSound (block n) c number sound = block-IsSound c n sound
  step-IsSound (receive_secret_request m) c number sound = request-IsSound c m sound
  step-IsSound (receive_secret_reveal m) c number sound = offchain-IsSound c m number sound
  step-IsSound (contract_receive_secret_reveal m) c number sound = onchain-IsSound c m number sound
  step-IsSound other c number sound = sound

-- Over any changes to a transfer of the initiator in a sound channel, whenever the run returns,
-- the channel is sound.
pub run-IsSound :
    (x : Externals) (task : Option InitiatorTransferState) (changes : List (InitiatorChange × ℕ))
    (c : NettingChannelState) (prng : ℕ)
    → IsSoundChannel x c
    → IfReturns (λ r. IsSoundChannel x r.1) (run x task changes c prng)
unfolding run
run-IsSound x none changes c prng sound = sound
run-IsSound x (some s) [] c prng sound = sound
run-IsSound x (some s) ((change, number) ∷ changes) c prng sound =
    IfReturns-bind (λ r. IsSoundChannel x r.1) (λ r. IsSoundChannel x r.1)
      (state_transition x s change c prng number) _ (step-IsSound x s prng change c number sound)
      (λ (s', c', prng', events) kept.
        IfReturns-bind (λ r. IsSoundChannel x r.1) (λ r. IsSoundChannel x r.1)
          (run x s' changes c' prng') _ (run-IsSound x s' changes c' prng' kept) (λ r k. k))
