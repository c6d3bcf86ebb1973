-- ===== src/Mediated/Mediator/Forward.antt =====
-- Forwarding a transfer: `forward_transfer_pair`, `mediate_transfer` and `handle_init` of
-- src/gatecoin/transfer/mediated_transfer/mediator.py, `filter_acceptable_routes` of
-- src/gatecoin/transfer/routes.py and `hop_after` of src/gatecoin/transfer/state.py.
use gatecoin.Common.{
  ℕ, ◌-◌, Bool, false, not, ◌||◌, leb, ◌==◌, if◌then◌else◌, Option, none, some, List, [], ◌∷◌, ◌++◌,
  lookup, Result, ok, assert, ◌>>=◌, ◌>>◌, Fault,
}
use gatecoin.Externals.{Externals}
use gatecoin.State.{NettingChannelState, RouteState, LockedTransferSignedState}
use gatecoin.Event.{Event, SendLockedTransfer, send_locked_transfer}
use gatecoin.Channel.Usable.{is_channel_usable_for_mediation}
use gatecoin.Channel.Send.{TransferRequest, send_lockedtransfer, get_address_metadata}
use gatecoin.Channel.Receive.{handle_receive_lockedtransfer}
use gatecoin.Mediated.Waiting.{payer_address, payer_address_metadata}
use gatecoin.Mediated.Channels.{Channels, get_channel, get_channel_to, write}
use gatecoin.Mediated.Target.{HopState}
use gatecoin.Mediated.Mediator.{
  payee_pending, payer_pending, MediationPairState, waiting, MediatorTransferState, Iteration,
}

-- The one after the first occurrence of the address.
unfoldable pub hop_after : ℕ → List ℕ → Option ℕ
hop_after address [] = none
hop_after address (a ∷ []) = none
hop_after address (a ∷ b ∷ route) =
    let rest = hop_after address (b ∷ route) in if a == address then some b else rest

abbrev pub member : ℕ → List ℕ → Bool
member n [] = false
member n (m ∷ ms) = m == n || member n ms

-- `if not next_hop: continue`: an address is never empty bytes.
abbrev pub is_acceptable : Channels → List ℕ → ℕ → ℕ → RouteState → Bool
is_acceptable h blacklisted network our_address r = elim (hop_after our_address r.route) [
  | none ↦ false
  | some next_hop ↦ elim (get_channel_to h network next_hop) [
    | none ↦ false
    | some (_, c) ↦ not (member c.canonical_identifier.channel_identifier blacklisted)
  ]
]

unfoldable pub filter_acceptable_routes :
    Channels → List ℕ → ℕ → ℕ → List RouteState → List RouteState
filter_acceptable_routes h blacklisted network our_address [] = []
filter_acceptable_routes h blacklisted network our_address (r ∷ rs) =
    let rest = filter_acceptable_routes h blacklisted network our_address rs in
    if is_acceptable h blacklisted network our_address r then r ∷ rest else rest

-- `get_amount_without_fees`: the amount received, the payer's and the payee's channel.
abbrev pub Fees : Type 0
Fees = ℕ → NettingChannelState → NettingChannelState → Result (Option ℕ)

-- A pair, the payee's channel, the random generator and the message.
abbrev pub Forwarded : Type 0
Forwarded = MediationPairState × NettingChannelState × ℕ × SendLockedTransfer

abbrev pub forward_request :
    LockedTransferSignedState → NettingChannelState → ℕ → ℕ → TransferRequest
forward_request t payee amount identifier = record {
  initiator = t.initiator;
  target = t.target;
  amount = amount;
  message_identifier = identifier;
  payment_identifier = t.payment_identifier;
  expiration = t.lock.expiration;
  secret = t.secret;
  secrethash = t.lock.secrethash;
  route_states = t.route_states;
  recipient_metadata = get_address_metadata payee.partner_state.address t.route_states;
  previous_metadata = t.metadata;
}

-- A lock timeout below 0 is one of 0 here: neither lets a channel be used.
unfoldable pub forward_amount :
    Externals
    → LockedTransferSignedState
    → NettingChannelState
    → ℕ
    → ℕ
    → ℕ
    → Result (Option Forwarded)
forward_amount x t payee prng block_number amount =
    let lock_timeout = t.lock.expiration - block_number in
    let (identifier, next) = x.randint prng in
    let sending : Result (Option Forwarded) = do
      assert (leb lock_timeout payee.settle_timeout) Fault.settle_timeout_too_small
      (payee', event) ← send_lockedtransfer x payee (forward_request t payee amount identifier)
      ok (
          some (
            record {
              payer_transfer = t;
              payee_address = payee.partner_state.address;
              payee_transfer = event.transfer;
              payer_state = payer_pending;
              payee_state = payee_pending;
            },
            payee',
            next,
            event,
          ))
    in if is_channel_usable_for_mediation payee amount lock_timeout then sending else ok none

unfoldable pub forward_transfer_pair :
    Externals
    → Fees
    → LockedTransferSignedState
    → NettingChannelState
    → NettingChannelState
    → ℕ
    → ℕ
    → Result (Option Forwarded)
forward_transfer_pair x get_amount_without_fees t payer payee prng block_number = do
  amount ← get_amount_without_fees t.lock.amount payer payee
  elim amount [
    | none ↦ ok none
    | some a ↦ if a == 0 then ok none else forward_amount x t payee prng block_number a
  ]

-- The channel that a route goes on through: in the token network it swaps to, if it does.
unfoldable pub next_channel :
    Channels → NettingChannelState → RouteState → Option (ℕ × NettingChannelState)
next_channel h payer r = elim (hop_after payer.our_state.address r.route) [
  | none ↦ none
  | some next_hop ↦ elim (lookup payer.our_state.address r.swaps) [
    | none ↦ get_channel_to h payer.canonical_identifier.token_network_address next_hop
    | some network ↦ get_channel_to h network next_hop
  ]
]

-- The first of the routes that works, and the channels after it.
unfoldable pub try_routes :
    Externals
    → Fees
    → Channels
    → LockedTransferSignedState
    → NettingChannelState
    → ℕ
    → ℕ
    → List RouteState
    → Result (Option (MediationPairState × Channels × ℕ × SendLockedTransfer))
try_routes x fees h t payer prng block_number [] = ok none
try_routes x fees h t payer prng block_number (r ∷ rs) =
    let rest = try_routes x fees h t payer prng block_number rs in
    elim (next_channel h payer r) [
      | none ↦ rest
      | some (reference, payee) ↦ do
        forwarded ← forward_transfer_pair x fees t payer payee prng block_number
        elim forwarded [
          | none ↦ rest
          | some (pair, payee', prng', event) ↦
              ok (some (pair, write h reference payee', prng', event))
        ]
    ]

unfoldable pub mediate_transfer :
    Externals
    → Fees
    → MediatorTransferState
    → Channels
    → NettingChannelState
    → ℕ
    → LockedTransferSignedState
    → ℕ
    → Result (MediatorTransferState × Channels × ℕ × List Event)
mediate_transfer x fees s h payer prng t block_number = do
  assert (payer.partner_state.address == payer_address t) Fault.sender_mismatch
  let routes =
      filter_acceptable_routes h s.refunded_channels
        payer.canonical_identifier.token_network_address payer.our_state.address s.routes
  forwarded ← try_routes x fees h t payer prng block_number routes
  elim forwarded [
    | none ↦ ok (
      record s { waiting_transfer = some (record { transfer = t; state = waiting }) },
      h,
      prng,
      [],
    )
    | some (pair, h', prng', event) ↦ ok (
      record s { transfers_pair = s.transfers_pair ++ pair ∷ [] },
      h',
      prng',
      send_locked_transfer event ∷ [],
    )
  ]

pub record ActionInitMediator : Type 0 where
  pub from_hop : HopState
  pub candidate_route_states : List RouteState
  pub from_transfer : LockedTransferSignedState

-- The task and the channels after a transfer is accepted.
unfoldable pub init_mediation :
    Externals
    → Fees
    → ActionInitMediator
    → Channels
    → NettingChannelState
    → ℕ
    → ℕ
    → List Event
    → Result Iteration
init_mediation x fees m h payer prng block_number events = do
  (s, h', prng', mediated) ←
      mediate_transfer x fees
        (record {
          secrethash = m.from_transfer.lock.secrethash;
          routes = m.candidate_route_states;
          refunded_channels = [];
          secret = none;
          transfers_pair = [];
          waiting_transfer = none;
        })
        h payer prng m.from_transfer block_number
  ok (some s, h', prng', events ++ mediated)

unfoldable pub handle_init :
    Externals → Fees → ActionInitMediator → Channels → ℕ → ℕ → Result Iteration
handle_init x fees m h prng block_number =
    let t = m.from_transfer in
    elim (get_channel h m.from_hop.channel_identifier) [
      | none ↦ ok (none, h, prng, [])
      | some (reference, c) ↦
          let (c', accepted, events) =
            handle_receive_lockedtransfer x c t (payer_address_metadata t) in
          let h' = write h reference c' in
          if accepted
          then init_mediation x fees m h' c' prng block_number events
          else ok (none, h', prng, events)
    ]
