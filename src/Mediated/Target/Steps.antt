-- ===== src/Mediated/Target/Steps.antt =====
-- One transition of the target: `state_transition` of
-- src/gatecoin/transfer/mediated_transfer/target.py.
use gatecoin.Common.{
  ℕ, ◌≤◌, ◌<◌, ◌≡◌, refl, true, false, Option, none, some, is_some, arith, ok, raise, Fault,
  Returns, Returns-bind,
}
use gatecoin.Externals.{Externals}
use gatecoin.State.{uint256_max, NettingChannelState}
use gatecoin.Channel.Query.{get_lock}
use gatecoin.Channel.Receive.{handle_receive_lockedtransfer}
use gatecoin.Channel.Receive.Sound.{IsSoundChannel}
use gatecoin.Mediated.Waiting.{is_safe_to_wait, payer_address_metadata}
use gatecoin.Mediated.Target.{
  TargetTransferState, ActionInitTarget, init_accepted, handle_inittarget,
}
use gatecoin.Mediated.Target.Transition.{
  TargetChange, action_init_target, block, receive_unlock, dispatch, sanity_check, state_transition,
}
use gatecoin.Mediated.Target.Sound.{
  IsKept, IsSettled, CanWait, inittarget-IsKept, offchain-IsKept, onchain-IsKept, unlock-IsKept,
  block-IsKept, lock_expired-IsKept,
}

-- A task whose lock is pending, with numbers in their ranges.
pub record IsRunning (c : NettingChannelState) (s : TargetTransferState) (block_number : ℕ)
    : Type 0 where
  pub pending : is_some (get_lock c.partner_state s.transfer.lock.secrethash) ≡ true
  pub can_wait : CanWait s.transfer.lock.expiration c.reveal_timeout block_number
  pub fits : s.transfer.lock.amount ≤ uint256_max

-- The change is meant for the task: what the callers of the state machine route by.
abbrev pub Matches : Externals → TargetTransferState → ℕ → TargetChange → Type 0
Matches x s block_number (block number hash) = number ≡ block_number
Matches x s block_number (receive_unlock m) = x.sha256 m.secret ≡ s.transfer.lock.secrethash
Matches x s block_number _ = Unit

-- A task that runs gets a change meant for it; without a task, a transfer for this channel comes
-- under a new secrethash.
abbrev pub IsReady :
    Externals → Option TargetTransferState → TargetChange → NettingChannelState → ℕ → Type 0
IsReady x (some s) change c block_number =
    IsRunning c s block_number × Matches x s block_number change
IsReady x none (action_init_target m) c block_number =
    (c.canonical_identifier.channel_identifier
      ≡ m.transfer.balance_proof.canonical_identifier.channel_identifier)
    × (get_lock c.partner_state m.transfer.lock.secrethash ≡ none)
    × CanWait m.transfer.lock.expiration c.reveal_timeout block_number
IsReady x none _ c block_number = ⊥

module _ (x : Externals) (c : NettingChannelState) (block_number prng : ℕ) where
  dispatch-IsKept :
      (task : Option TargetTransferState) (change : TargetChange)
      → IsSoundChannel x c
      → IsReady x task change c block_number
      → Returns (IsKept x task) (dispatch x task change c block_number prng)
  unfolding dispatch
  dispatch-IsKept none (action_init_target m) sound r =
      inittarget-IsKept x c sound m block_number prng r.0 r.1 r.2
  dispatch-IsKept none (block number hash) sound r = absurd r
  dispatch-IsKept none (receive_unlock m) sound r = absurd r
  dispatch-IsKept none (TargetChange.receive_secret_reveal m) sound r = absurd r
  dispatch-IsKept none (TargetChange.contract_receive_secret_reveal m) sound r = absurd r
  dispatch-IsKept none (TargetChange.receive_lock_expired m) sound r = absurd r
  dispatch-IsKept none TargetChange.other sound r = absurd r
  dispatch-IsKept (some s) (action_init_target m) sound r = (sound, r.0.pending)
  dispatch-IsKept (some s) (block number hash) sound r =
      ground (arith, block-IsKept x c sound s number hash prng r.0.pending)
  dispatch-IsKept (some s) (TargetChange.receive_secret_reveal m) sound r =
      offchain-IsKept x c sound s m block_number prng r.0.pending
  dispatch-IsKept (some s) (TargetChange.contract_receive_secret_reveal m) sound r =
      onchain-IsKept x c sound s m prng r.0.pending
  dispatch-IsKept (some s) (receive_unlock m) sound r =
      unlock-IsKept x c sound s m prng r.0.pending r.1 r.0.fits
  dispatch-IsKept (some s) (TargetChange.receive_lock_expired m) sound r =
      lock_expired-IsKept x c sound s m block_number prng
  dispatch-IsKept (some s) TargetChange.other sound r = (sound, r.0.pending)

  settled-sanity_check :
      (old new : Option TargetTransferState) (d : NettingChannelState)
      → IsSettled old new d
      → sanity_check old new d ≡ ok tt
  unfolding sanity_check
  settled-sanity_check old (some s) d h = ground arith
  settled-sanity_check (some s) none d h = ground arith
  settled-sanity_check none none d h = refl

  -- A transition of the target on a sound channel returns, with no assertion failing, the sanity
  -- check included: for a running task whose lock is pending, with a positive block number and
  -- reveal timeout, an expiration after the reveal timeout and an amount of 256 bits, and a
  -- change that is meant for it (the current block, an unlock with the secret of its lock); and
  -- for a first transfer through this channel, under a secrethash that the partner has no lock
  -- for. The channel is sound afterwards, the task goes on only while its lock is pending and
  -- ends only when it is gone.
  pub state_transition-IsKept :
      (task : Option TargetTransferState) (change : TargetChange)
      → IsSoundChannel x c
      → IsReady x task change c block_number
      → Returns (IsKept x task) (state_transition x task change c block_number prng)
  unfolding state_transition
  state_transition-IsKept task change sound ready =
      Returns-bind (IsKept x task) (IsKept x task) (dispatch x task change c block_number prng) _
        (dispatch-IsKept task change sound ready)
        (λ r kept. rw (settled-sanity_check task r.0 r.1 kept.1) kept)

-- A first transfer that the channel accepts, with the right channel identifier, makes the target
-- fail an assertion when the expiration of its lock is at most the reveal timeout, the block
-- number and the reveal timeout are positive and no valid secret came with it.
pub inittarget-early :
    (x : Externals) (m : ActionInitTarget) (c : NettingChannelState) (block_number prng : ℕ)
    → c.canonical_identifier.channel_identifier
      ≡ m.transfer.balance_proof.canonical_identifier.channel_identifier
    → (handle_receive_lockedtransfer x c m.transfer (payer_address_metadata m.transfer)).1 ≡ true
    → m.received_valid_secret ≡ false
    → 0 < block_number
    → 0 < c.reveal_timeout
    → m.transfer.lock.expiration ≤ c.reveal_timeout
    → state_transition x none (action_init_target m) c block_number prng
      ≡ raise Fault.expiration_too_early
unfolding state_transition dispatch handle_inittarget init_accepted is_safe_to_wait
    handle_receive_lockedtransfer
inittarget-early x m c block_number prng same accepted unknown later positive early = ground arith
