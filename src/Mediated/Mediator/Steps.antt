-- ===== src/Mediated/Mediator/Steps.antt =====
-- The mediator's transition keeps every channel sound: `state_transition` of
-- src/gatecoin/transfer/mediated_transfer/mediator.py.
use gatecoin.Common.{
  ℕ, ◌≡◌, refl, Option, none, some, IfReturns, IfReturns-bind, IfReturns-trivial, lookup, subst,
  sym, arith,
}
use gatecoin.Externals.{Externals}
use gatecoin.State.{NettingChannelState}
use gatecoin.Channel.Query.{get_lock}
use gatecoin.Mediated.Channels.{Channels, AreSound}
use gatecoin.Mediated.Mediator.{MediatorTransferState, Iteration, clear_if_finalized}
use gatecoin.Mediated.Mediator.Forward.{Fees}
use gatecoin.Mediated.Mediator.Transition.{
  MediatorChange, action_init_mediator, block, receive_transfer_refund, step, dispatch, check_task,
  state_transition,
}
use gatecoin.Mediated.Mediator.Forwarded.{IsUnsent, handle_init-AreSound}
use gatecoin.Mediated.Mediator.Handled.{IsReady, step-AreSound}

module _ (x : Externals) (fees : Fees) where
  -- A task starts under a secrethash that no channel has a lock for; one that runs forwards only
  -- to unused channels.
  abbrev pub MayStep : Option MediatorTransferState → MediatorChange → Channels → Type 0
  MayStep (some s) change h = IsReady x fees s h change
  MayStep none (action_init_mediator m) h =
      IsUnsent h m.from_transfer.lock.secrethash
      × ((reference : ℕ) (c : NettingChannelState)
          → lookup reference h.store ≡ some c
          → get_lock c.partner_state m.from_transfer.lock.secrethash ≡ none)
  MayStep none _ h = Unit

  dispatch-AreSound :
      (task : Option MediatorTransferState) (change : MediatorChange) (h : Channels)
      (prng number hash : ℕ)
      → AreSound x h
      → MayStep task change h
      → IfReturns (λ r. AreSound x r.1) (dispatch x fees task change h prng number hash)
  unfolding dispatch
  dispatch-AreSound (some s) change h prng number hash sound ready =
      IfReturns-bind (λ r. AreSound x r.1) (λ r. AreSound x r.1)
        (step x fees s change h prng number hash) _
        (step-AreSound x fees s h sound change prng number hash ready) (λ r k. k)
  dispatch-AreSound none (action_init_mediator m) h prng number hash sound ready =
      handle_init-AreSound x fees m h prng number sound ready.0 ready.1
  dispatch-AreSound none (block n b) h prng number hash sound ready = tt
  dispatch-AreSound none (receive_transfer_refund t) h prng number hash sound ready = tt
  dispatch-AreSound none (MediatorChange.receive_secret_reveal m) h prng number hash sound ready =
      tt
  dispatch-AreSound none (MediatorChange.contract_receive_secret_reveal m) h prng number hash sound
        ready =
      tt
  dispatch-AreSound none (MediatorChange.receive_unlock m) h prng number hash sound ready = tt
  dispatch-AreSound none (MediatorChange.receive_lock_expired m) h prng number hash sound ready = tt
  dispatch-AreSound none MediatorChange.other h prng number hash sound ready = sound

  clear-channels : (r : Iteration) → (clear_if_finalized r).1 ≡ r.1
  unfolding clear_if_finalized
  clear-channels (none, h, prng, events) = refl
  clear-channels (some s, h, prng, events) = ground arith

  -- Whenever a transition of the mediator returns, it leaves every channel of the store sound, if
  -- all were sound before. A task must start under a secrethash that no channel has a lock for,
  -- and where a block or a refund makes a running task forward a transfer, the acceptable routes
  -- must lead to channels in which we have sent no lock under its secrethash; a refund must also
  -- come under a secrethash that the partner has no lock for. The same object may be reached by
  -- identifier and by address.
  pub state_transition-AreSound :
      (task : Option MediatorTransferState) (change : MediatorChange) (h : Channels)
      (prng number hash : ℕ)
      → AreSound x h
      → MayStep task change h
      → IfReturns (λ r. AreSound x r.1) (state_transition x fees task change h prng number hash)
  unfolding state_transition
  state_transition-AreSound task change h prng number hash sound ready =
      IfReturns-bind (λ r. AreSound x r.1) (λ r. AreSound x r.1)
        (dispatch x fees task change h prng number hash) _
        (dispatch-AreSound task change h prng number hash sound ready)
        (λ (task', h', prng', events) k.
          IfReturns-bind (λ _. Unit {0}) (λ r. AreSound x r.1) (check_task task' h') _
            (IfReturns-trivial (check_task task' h'))
            (λ _ _. subst (AreSound x) (sym (clear-channels (task', h', prng', events))) k))
