-- ===== src/Mediated/Mediator/Faults.antt =====
-- Changes that the mediator's transition does not expect:
-- src/gatecoin/transfer/mediated_transfer/mediator.py.
use gatecoin.Common.{ℕ, ◌≡◌, ◌≤◌, true, none, some, List, [], ◌∷◌, ok, raise, Fault, arith}
use gatecoin.Externals.{Externals}
use gatecoin.State.{NettingChannelState}
use gatecoin.Event.{Event}
use gatecoin.Channel.Query.{get_receiver_expiration_threshold}
use gatecoin.Channel.Send.{get_address_metadata}
use gatecoin.Channel.Receive as Receive
use gatecoin.Channel.Receive.{ReceiveUnlock}
use gatecoin.Mediated.Waiting.{payer_address}
use gatecoin.Mediated.Channels.{Channels, get_channel}
use gatecoin.Mediated.Target.{claim_failed}
use gatecoin.Mediated.Mediator.{
  MediationPairState, WaitingTransferState, expired, MediatorTransferState, sanity_check,
}
use gatecoin.Mediated.Mediator.Forward.{
  Fees, mediate_transfer, filter_acceptable_routes, try_routes,
}
use gatecoin.Mediated.Mediator.Secrets.{waiting_identifier}
use gatecoin.Mediated.Mediator.Onchain.{
  events_for_onchain_secretreveal_if_dangerzone, dangerzone_pairs,
}
use gatecoin.Mediated.Mediator.Expiry.{
  events_for_expired_pairs, expire_pairs, events_to_remove_expired_locks,
}
use gatecoin.Mediated.Mediator.Handle.{retry, handle_block}
use gatecoin.Mediated.Mediator.Receive.{unlock_pairs, handle_unlock}
use gatecoin.Mediated.Mediator.Transition.{receive_unlock, step, dispatch, state_transition}

module _ (x : Externals) (fees : Fees) (s : MediatorTransferState) (h : Channels) where
  -- When the payer of a task's only pair unlocks its transfer while the mediator's task does not
  -- have the secret yet, and the channel accepts the unlock, the transition fails the assertion
  -- that a paid transfer has a secret.
  pub unlock-secret_missing :
      (m : ReceiveUnlock) (p : MediationPairState) (reference : ℕ) (c c' : NettingChannelState)
      (events : List Event) (prng number hash : ℕ)
      → s.secret ≡ none
      → s.transfers_pair ≡ p ∷ []
      → payer_address p.payer_transfer ≡ m.balance_proof.sender
      → get_channel h m.balance_proof.canonical_identifier.channel_identifier ≡ some (reference, c)
      → Receive.handle_unlock x c m (get_address_metadata m.balance_proof.sender s.routes)
        ≡ ok (c', true, events)
      → state_transition x fees (some s) (receive_unlock m) h prng number hash
        ≡ raise Fault.secret_missing
  unfolding state_transition dispatch step handle_unlock unlock_pairs sanity_check
  unlock-secret_missing m p reference c c' events prng number hash unknown single from here
        accepted =
      ground arith

  -- A mediator whose only transfer waits without any route, for a channel whose partner sent it,
  -- answers every block past the receiver's expiration threshold with one more failure event for
  -- the transfer, whether it was marked as expired before or not, and is left marked as expired.
  pub expired-again :
      (w : WaitingTransferState) (reference : ℕ) (c : NettingChannelState) (number hash prng : ℕ)
      → s.waiting_transfer ≡ some w
      → s.transfers_pair ≡ []
      → s.routes ≡ []
      → get_channel h (waiting_identifier w) ≡ some (reference, c)
      → c.partner_state.address ≡ payer_address w.transfer
      → get_receiver_expiration_threshold w.transfer.lock.expiration ≤ number
      → handle_block x fees s h number hash prng
        ≡ ok (
          record s { waiting_transfer = some (record { transfer = w.transfer; state = expired }) },
          h,
          prng,
          claim_failed w.transfer ∷ [],
        )
  unfolding handle_block retry mediate_transfer filter_acceptable_routes try_routes
      events_to_remove_expired_locks events_for_onchain_secretreveal_if_dangerzone dangerzone_pairs
      events_for_expired_pairs expire_pairs
  expired-again w reference c number hash prng waits none_forwarded no_routes here from late =
      ground arith
