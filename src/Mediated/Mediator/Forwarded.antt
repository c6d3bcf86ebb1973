-- ===== src/Mediated/Mediator/Forwarded.antt =====
-- Forwarding a transfer keeps the channels sound and makes a pair of two like transfers:
-- src/gatecoin/transfer/mediated_transfer/mediator.py, `forward_transfer_pair` to `handle_init`.
use gatecoin.Common.{
  ℕ, ◌-◌, ◌≡◌, Option, none, some, List, [], ◌∷◌, leb, assert, Fault, IfReturns, IfReturns-bind,
  IfReturns-trivial, Bool-cases, Option-cases, inl, inr, lookup, arith, ◌==◌, subst, ◌∙◌, ap,
}
use gatecoin.Externals.{Externals}
use gatecoin.State.{NettingChannelState, RouteState, LockedTransferSignedState}
use gatecoin.Event.{SendLockedTransfer}
use gatecoin.Channel.Query.{get_lock}
use gatecoin.Channel.Usable.{is_channel_usable_for_mediation}
use gatecoin.Channel.Send.{send_lockedtransfer}
use gatecoin.Channel.Send.Partial.{send_lockedtransfer-IfReturns}
use gatecoin.Channel.Receive.{handle_receive_lockedtransfer}
use gatecoin.Channel.Receive.Sound.{IsSoundChannel, handle_receive_lockedtransfer-IsSound}
use gatecoin.Mediated.Channels.{
  Channels, AreSound, get_channel, write, write-all, write-AreSound, get_channel-lookup,
  get_channel_to-lookup,
}
use gatecoin.Mediated.Waiting.{payer_address, payer_address_metadata}
use gatecoin.Mediated.Mediator.{MediationPairState, MediatorTransferState}
use gatecoin.Mediated.Mediator.Forward.{
  hop_after, filter_acceptable_routes, Fees, Forwarded, forward_request, forward_amount,
  forward_transfer_pair, next_channel, try_routes, mediate_transfer, ActionInitMediator,
  init_mediation, handle_init,
}

-- No route leads to a channel in which we have sent a lock under the secrethash.
abbrev pub AreUnsent : Channels → NettingChannelState → ℕ → List RouteState → Type 0
AreUnsent h payer secrethash [] = Unit
AreUnsent h payer secrethash (r ∷ rs) =
    ((reference : ℕ) (c : NettingChannelState)
      → next_channel h payer r ≡ some (reference, c)
      → get_lock c.our_state secrethash ≡ none)
    × AreUnsent h payer secrethash rs

-- No channel has a lock that we have sent under the secrethash.
abbrev pub IsUnsent : Channels → ℕ → Type 0
IsUnsent h secrethash =
    (reference : ℕ) (c : NettingChannelState)
    → lookup reference h.store ≡ some c
    → get_lock c.our_state secrethash ≡ none

pub next_channel-lookup :
    (h : Channels) (payer : NettingChannelState) (r : RouteState) (reference : ℕ)
    (c : NettingChannelState)
    → next_channel h payer r ≡ some (reference, c)
    → lookup reference h.store ≡ some c
unfolding next_channel
next_channel-lookup h payer r reference c e =
    elim (Option-cases (hop_after payer.our_state.address r.route)) [
      | inl missing ↦ absurd (ground arith)
      | inr (next_hop, here) ↦ elim (Option-cases (lookup payer.our_state.address r.swaps)) [
        | inl same ↦
            get_channel_to-lookup h payer.canonical_identifier.token_network_address next_hop
              reference c (ground arith)
        | inr (network, other) ↦ get_channel_to-lookup h network next_hop reference c (ground arith)
      ]
    ]

pub IsUnsent-AreUnsent :
    (h : Channels) (payer : NettingChannelState) (secrethash : ℕ) (rs : List RouteState)
    → IsUnsent h secrethash
    → AreUnsent h payer secrethash rs
IsUnsent-AreUnsent h payer secrethash [] unsent = tt
IsUnsent-AreUnsent h payer secrethash (r ∷ rs) unsent = (
  λ reference c e. unsent reference c (next_channel-lookup h payer r reference c e),
  IsUnsent-AreUnsent h payer secrethash rs unsent,
)

module _ (x : Externals) (fees : Fees) (t : LockedTransferSignedState) where
  -- The payee's channel after a forwarded transfer.
  abbrev SoundForward : Option Forwarded → Type 0
  SoundForward none = Unit
  SoundForward (some (_, c, _, _)) = IsSoundChannel x c

  forward_amount-IsSound :
      (payee : NettingChannelState) (prng block amount : ℕ)
      → IsSoundChannel x payee
      → get_lock payee.our_state t.lock.secrethash ≡ none
      → IfReturns SoundForward (forward_amount x t payee prng block amount)
  unfolding forward_amount
  forward_amount-IsSound payee prng block amount sound unsent =
      elim (Bool-cases (is_channel_usable_for_mediation payee amount (t.lock.expiration - block))) [
        | inl e ↦
            rw (e, forward_amount)
              (IfReturns-bind (λ _. Unit {0}) SoundForward
                (assert (leb (t.lock.expiration - block) payee.settle_timeout)
                  Fault.settle_timeout_too_small)
                _
                (IfReturns-trivial (
                  assert (leb (t.lock.expiration - block) payee.settle_timeout)
                    Fault.settle_timeout_too_small))
                (λ _ _.
                  IfReturns-bind (λ r. IsSoundChannel x r.0) SoundForward
                    (send_lockedtransfer x payee
                      (forward_request t payee amount (x.randint prng).0))
                    _
                    (send_lockedtransfer-IfReturns x payee sound
                      (forward_request t payee amount (x.randint prng).0) unsent)
                    (λ r k. k)))
        | inr e ↦ rw (e, forward_amount) tt
      ]

  forward_transfer_pair-IsSound :
      (payer payee : NettingChannelState) (prng block : ℕ)
      → IsSoundChannel x payee
      → get_lock payee.our_state t.lock.secrethash ≡ none
      → IfReturns SoundForward (forward_transfer_pair x fees t payer payee prng block)
  unfolding forward_transfer_pair
  forward_transfer_pair-IsSound payer payee prng block sound unsent =
      IfReturns-bind (λ _. Unit {0}) SoundForward (fees t.lock.amount payer payee) _
        (IfReturns-trivial (fees t.lock.amount payer payee))
        (λ o _. elim (Option-cases o) [
          | inl e ↦ rw e tt
          | inr (a, e) ↦ rw e (elim (Bool-cases (a == 0)) [
            | inl z ↦ rw z tt
            | inr z ↦ rw z (forward_amount-IsSound payee prng block a sound unsent)
          ])
        ])

  -- The channels after a route has been tried.
  abbrev SoundRoute : Option (MediationPairState × Channels × ℕ × SendLockedTransfer) → Type 0
  SoundRoute none = Unit
  SoundRoute (some (_, h, _, _)) = AreSound x h

  try_routes-AreSound :
      (h : Channels) (payer : NettingChannelState) (prng block : ℕ) (rs : List RouteState)
      → AreSound x h
      → AreUnsent h payer t.lock.secrethash rs
      → IfReturns SoundRoute (try_routes x fees h t payer prng block rs)
  unfolding try_routes
  try_routes-AreSound h payer prng block [] sound unsent = tt
  try_routes-AreSound h payer prng block (r ∷ rs) sound unsent =
      let rest = try_routes-AreSound h payer prng block rs sound unsent.1 in
      elim (Option-cases (next_channel h payer r)) [
        | inl missing ↦ rw (missing, try_routes) rest
        | inr ((reference, c), here) ↦
            rw (here, try_routes)
              (IfReturns-bind SoundForward SoundRoute
                (forward_transfer_pair x fees t payer c prng block) _
                (forward_transfer_pair-IsSound payer c prng block
                  (sound reference c (next_channel-lookup h payer r reference c here))
                  (unsent.0 reference c here))
                (λ o k. elim (Option-cases o) [
                  | inl e ↦ rw e rest
                  | inr (f, e) ↦
                      rw e (write-AreSound x h sound reference f.1 (subst SoundForward e k))
                ]))
      ]

  pub mediate_transfer-AreSound :
      (s : MediatorTransferState) (h : Channels) (payer : NettingChannelState) (prng block : ℕ)
      → AreSound x h
      → AreUnsent h payer t.lock.secrethash (
          filter_acceptable_routes h s.refunded_channels
            payer.canonical_identifier.token_network_address payer.our_state.address s.routes)
      → IfReturns (λ r. AreSound x r.1) (mediate_transfer x fees s h payer prng t block)
  unfolding mediate_transfer
  mediate_transfer-AreSound s h payer prng block sound unsent =
      let routes =
        filter_acceptable_routes h s.refunded_channels
          payer.canonical_identifier.token_network_address payer.our_state.address s.routes in
      IfReturns-bind (λ _. Unit {0}) (λ r. AreSound x r.1)
        (assert (payer.partner_state.address == payer_address t) Fault.sender_mismatch) _
        (IfReturns-trivial
          (assert (payer.partner_state.address == payer_address t) Fault.sender_mismatch))
        (λ _ _.
          IfReturns-bind SoundRoute (λ r. AreSound x r.1)
            (try_routes x fees h t payer prng block routes) _
            (try_routes-AreSound h payer prng block routes sound unsent)
            (λ o k. elim (Option-cases o) [
              | inl e ↦ rw e sound
              | inr (f, e) ↦ rw e (subst SoundRoute e k)
            ]))

module _ (x : Externals) (fees : Fees) (m : ActionInitMediator) where
  pub handle_init-AreSound :
      (h : Channels) (prng block : ℕ)
      → AreSound x h
      → IsUnsent h m.from_transfer.lock.secrethash
      → ((reference : ℕ) (c : NettingChannelState)
          → lookup reference h.store ≡ some c
          → get_lock c.partner_state m.from_transfer.lock.secrethash ≡ none)
      → IfReturns (λ r. AreSound x r.1) (handle_init x fees m h prng block)
  unfolding handle_init init_mediation
  handle_init-AreSound h prng block sound unsent unreceived =
      elim (Option-cases (get_channel h m.from_hop.channel_identifier)) [
        | inl missing ↦ rw (missing, handle_init) sound
        | inr ((reference, c), here) ↦
            let md = payer_address_metadata m.from_transfer in
            let c' = (handle_receive_lockedtransfer x c m.from_transfer md).0 in
            let found = get_channel-lookup h m.from_hop.channel_identifier reference c here in
            let kept : IsSoundChannel x c' × (c'.our_state ≡ c.our_state) =
              handle_receive_lockedtransfer-IsSound x c m.from_transfer md (sound reference c found)
                (unreceived reference c found) in
            let h' = write h reference c' in
            let sound' : AreSound x h' = write-AreSound x h sound reference c' kept.0 in
            let unsent' : IsUnsent h' m.from_transfer.lock.secrethash =
              write-all (λ d. get_lock d.our_state m.from_transfer.lock.secrethash ≡ none) h
                reference c' unsent
                (ap (λ e. get_lock e m.from_transfer.lock.secrethash) kept.1
                  ∙ unsent reference c found) in
            let s : MediatorTransferState = record {
              secrethash = m.from_transfer.lock.secrethash;
              routes = m.candidate_route_states;
              refunded_channels = [];
              secret = none;
              transfers_pair = [];
              waiting_transfer = none;
            } in
            rw (here, handle_init)
              (elim (Bool-cases (handle_receive_lockedtransfer x c m.from_transfer md).1) [
                | inl e ↦
                    rw (e, init_mediation)
                      (IfReturns-bind (λ r. AreSound x r.1) (λ r. AreSound x r.1)
                        (mediate_transfer x fees s h' c' prng m.from_transfer block) _
                        (mediate_transfer-AreSound x fees m.from_transfer s h' c' prng block sound'
                          (IsUnsent-AreUnsent h' c' m.from_transfer.lock.secrethash _ unsent'))
                        (λ r k. k))
                | inr e ↦ rw e sound'
              ])
      ]
