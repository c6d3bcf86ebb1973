-- ===== src/Mediated/Target/Blocks.antt =====
-- The target and the blocks before its lock expires: `handle_block` of
-- src/gatecoin/transfer/mediated_transfer/target.py.
use gatecoin.Common.{
  ℕ, ◌+◌, ◌<◌, ◌≡◌, refl, Bool, true, false, ◌||◌, ◌&&◌, not, leb, if◌then◌else◌, Option, none,
  some, List, [], ◌∷◌, ◌++◌, suc, arith, Result, ok, ◌>>=◌, Returns, Returns-bind, Option-cases,
  Bool-cases, lookup, inl, inr,
}
use gatecoin.State.{NettingChannelState}
use gatecoin.Event.{Event, contract_send_secret_reveal}
use gatecoin.Channel.Query.{
  get_secret, get_status, get_receiver_expiration_threshold, is_secret_known,
  is_secret_known_offchain,
}
use gatecoin.Channel.Check.{is_lock_expired}
use gatecoin.Mediated.Waiting.{is_up_to_closed, secret_registry_events}
use gatecoin.Mediated.Target.{
  TargetTransferState, has_onchain_reveal_started, onchain_secret_reveal,
  events_for_onchain_secretreveal, handle_block,
}
use gatecoin.Mediated.Target.Sound.{CanWait, is_safe_to_wait-eq}

-- The events of a task over some blocks, given by their numbers and hashes.
unfoldable pub run_blocks :
    Option TargetTransferState → NettingChannelState → List (ℕ × ℕ) → ℕ → Result (List Event)
run_blocks none c blocks prng = ok []
run_blocks (some s) c [] prng = ok []
run_blocks (some s) c ((number, hash) ∷ blocks) prng = do
  (s', c', prng', events) ← handle_block s c number hash prng
  later ← run_blocks s' c' blocks prng'
  ok (events ++ later)

-- How many of the events register a secret on chain.
abbrev pub is_registration : Event → Bool
is_registration (contract_send_secret_reveal expiration secret hash) = true
is_registration _ = false

abbrev pub registrations : List Event → ℕ
registrations [] = 0
registrations (e ∷ es) =
    let later = registrations es in if is_registration e then suc later else later

-- The block leaves no more than the reveal timeout.
abbrev pub is_dangerous : TargetTransferState → NettingChannelState → ℕ → Bool
is_dangerous s c number = leb s.transfer.lock.expiration (c.reveal_timeout + number)

abbrev pub any_dangerous : TargetTransferState → NettingChannelState → List (ℕ × ℕ) → Bool
any_dangerous s c [] = false
any_dangerous s c ((number, hash) ∷ blocks) = is_dangerous s c number || any_dangerous s c blocks

-- The blocks come before the one at which the target gives the lock up.
abbrev pub AreInTime : TargetTransferState → NettingChannelState → List (ℕ × ℕ) → Type 0
AreInTime s c [] = Unit
AreInTime s c ((number, hash) ∷ blocks) =
    CanWait s.transfer.lock.expiration c.reveal_timeout number
    × (number < get_receiver_expiration_threshold s.transfer.lock.expiration)
    × AreInTime s c blocks

module _ (c : NettingChannelState) (is_open : is_up_to_closed (get_status c) ≡ true) where
  -- Before the danger zone a block changes nothing; in it, the secret goes on chain once.
  handle_block-eq :
      (s : TargetTransferState) (number hash prng secret : ℕ)
      → is_secret_known_offchain c.partner_state s.transfer.lock.secrethash ≡ true
      → get_secret c.partner_state s.transfer.lock.secrethash ≡ some secret
      → CanWait s.transfer.lock.expiration c.reveal_timeout number
      → number < get_receiver_expiration_threshold s.transfer.lock.expiration
      → handle_block s c number hash prng
        ≡ ok (
            if is_dangerous s c number && not (has_onchain_reveal_started s.status)
            then (
              some (record s { status = onchain_secret_reveal }),
              c,
              prng,
              contract_send_secret_reveal s.transfer.lock.expiration secret hash ∷ [],
            )
            else (some s, c, prng, []))
  unfolding handle_block events_for_onchain_secretreveal is_secret_known_offchain is_secret_known
      is_lock_expired secret_registry_events
  handle_block-eq s number hash prng secret known this can early =
      ground (arith, is_safe_to_wait-eq s.transfer.lock.expiration c.reveal_timeout number can)

  known-secret :
      (s : TargetTransferState)
      → is_secret_known_offchain c.partner_state s.transfer.lock.secrethash ≡ true
      → (secret : ℕ) × (get_secret c.partner_state s.transfer.lock.secrethash ≡ some secret)
  unfolding is_secret_known_offchain get_secret
  known-secret s known =
      elim (Option-cases
        (lookup s.transfer.lock.secrethash c.partner_state.secrethashes_to_unlockedlocks)) [
          | inl missing ↦ absurd (ground arith)
          | inr (p, here) ↦ (p.secret, ground arith)
        ]

  -- When the secret of a task's lock is known off chain and its channel is at most closed, the
  -- target registers the secret on chain exactly once over any sequence of blocks before it gives
  -- the lock up, if one of them leaves no more than the reveal timeout and no registration has
  -- been sent, and otherwise never. The blocks and the reveal timeout are positive and the
  -- expiration lies after the reveal timeout; no handler fails.
  pub run_blocks-registrations :
      (s : TargetTransferState) (blocks : List (ℕ × ℕ)) (prng : ℕ)
      → is_secret_known_offchain c.partner_state s.transfer.lock.secrethash ≡ true
      → AreInTime s c blocks
      → Returns
          (λ events. registrations events ≡ (
            if any_dangerous s c blocks && not (has_onchain_reveal_started s.status) then 1 else 0))
          (run_blocks (some s) c blocks prng)
  unfolding run_blocks
  run_blocks-registrations s [] prng known early = refl
  run_blocks-registrations s ((number, hash) ∷ blocks) prng known early =
      let (secret, this) = known-secret s known in
      let eq = handle_block-eq s number hash prng secret known this early.0 early.1 in
      let t = record s { status = onchain_secret_reveal } in
      elim (Bool-cases (is_dangerous s c number && not (has_onchain_reveal_started s.status))) [
        | inl e ↦
            rw (eq, e)
              (Returns-bind
                (λ events. registrations events ≡ (
                  if any_dangerous t c blocks && not (has_onchain_reveal_started t.status)
                  then 1
                  else 0))
                _ (run_blocks (some t) c blocks prng) _
                (run_blocks-registrations t blocks prng known early.2) (λ events h. ground arith))
        | inr e ↦
            rw (eq, e)
              (Returns-bind
                (λ events. registrations events ≡ (
                  if any_dangerous s c blocks && not (has_onchain_reveal_started s.status)
                  then 1
                  else 0))
                _ (run_blocks (some s) c blocks prng) _
                (run_blocks-registrations s blocks prng known early.2) (λ events h. ground arith))
      ]
