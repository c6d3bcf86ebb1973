-- ===== src/Mediated/Initiator/Route.antt =====
-- The route of a payment: `calculate_fee_margin`, `calculate_safe_amount_with_fee`,
-- `try_new_route` and `send_lockedtransfer` of
-- src/gatecoin/transfer/mediated_transfer/initiator.py. An estimated fee may be negative. The
-- arithmetic of floats is a parameter.
use gatecoin.Common.{
  ℕ, ◌+◌, Bool, true, false, ◌==◌, if◌then◌else◌, Option, none, some, List, [], ◌∷◌, Result, ok,
  raise, assert, ◌>>=◌, ◌>>◌, Fault, ℤ, pos, negsuc, abs_ℤ, eqb_ℤ, leb_ℤ, ltb_ℤ, ◌+ℤ◌,
}
use gatecoin.Externals.{Externals}
use gatecoin.State.{NettingChannelState, RouteState}
use gatecoin.Event.{
  Event, SendLockedTransfer, send_locked_transfer, payment_sent_failed, FailureReason,
}
use gatecoin.Channel.Query.{get_safe_initial_expiration, get_distributable, get_status, is_opened}
use gatecoin.Channel.Usable.{ChannelUsability, usable, is_channel_usable_for_new_transfer}
use gatecoin.Channel.Send.{TransferRequest, get_address_metadata}
use gatecoin.Channel.Send as Send
use gatecoin.Mediated.Channels.{Channels, deref, get_channel_to, write}
use gatecoin.Mediated.Mediator.Forward.{hop_after}
use gatecoin.Mediated.Initiator.{
  TransferDescription, InitiatorTransferState, transfer_pending, payment_failed,
}

-- Python's floats of at least 0, as far as the source computes with them.
pub record Floats : Type 1 where
  pub Float : Type 0
  -- the literal of a number of digits after the point: 0.03 is `decimal 3 2`
  pub decimal : ℕ → ℕ → Float
  -- an int times a float
  pub times : ℕ → Float → Float
  pub add : Float → Float → Float
  -- `int(ceil(x))` and `int(x)`
  pub ceil : Float → ℕ
  pub int : Float → ℕ

abbrev default_mediation_fee_margin : (f : Floats) → f.Float
default_mediation_fee_margin f = f.decimal 3 2

abbrev payment_amount_based_fee_margin : (f : Floats) → f.Float
payment_amount_based_fee_margin f = f.decimal 5 4

abbrev max_mediation_fee_perc : (f : Floats) → f.Float
max_mediation_fee_perc f = f.decimal 2 1

abbrev pub calculate_fee_margin : Floats → ℕ → ℤ → ℕ
calculate_fee_margin f amount fee =
    if eqb_ℤ fee (pos 0)
    then 0
    else f.ceil (
        f.add (f.times (abs_ℤ fee) (default_mediation_fee_margin f))
          (f.times amount (payment_amount_based_fee_margin f)))

unfoldable pub calculate_safe_amount_with_fee : Floats → ℕ → ℤ → ℤ
calculate_safe_amount_with_fee f amount fee =
    pos amount +ℤ fee +ℤ pos (calculate_fee_margin f amount fee)

-- `max_amount_limit`
abbrev pub max_amount : Floats → ℕ → ℕ
max_amount f amount = amount + f.int (f.times amount (max_mediation_fee_perc f))

-- A route, with the channel to its next hop and the channel's reference.
abbrev pub Choice : Type 0
Choice = ℕ × NettingChannelState × RouteState

abbrev pub is_usable : ChannelUsability → Bool
is_usable usable = true
is_usable _ = false

-- The first route whose fee is within the limit and whose channel can be used; without one, did a
-- fee exceed the limit?
unfoldable pub choose_route :
    Floats → Channels → TransferDescription → ℕ → List RouteState → Option Choice × Bool
choose_route f h d our_address [] = (none, false)
choose_route f h d our_address (r ∷ rs) =
    let rest = choose_route f h d our_address rs in
    elim (hop_after our_address r.route) [
      | none ↦ rest
      | some next_hop ↦ elim (get_channel_to h d.token_network_address next_hop) [
        | none ↦ rest
        | some (reference, c) ↦
            let amount = calculate_safe_amount_with_fee f d.amount r.estimated_fee in
            if ltb_ℤ (pos (max_amount f d.amount)) amount
            then (rest.0, true)
            else if is_usable (is_channel_usable_for_new_transfer c amount d.lock_timeout)
            then (some (reference, c, r), false)
            else rest
      ]
    ]

abbrev pub transfer_request :
    TransferDescription → NettingChannelState → ℕ → ℕ → ℕ → List RouteState → TransferRequest
transfer_request d c identifier block_number amount routes = record {
  initiator = d.initiator;
  target = d.target;
  amount = amount;
  message_identifier = identifier;
  payment_identifier = d.payment_identifier;
  expiration = get_safe_initial_expiration block_number c.reveal_timeout d.lock_timeout;
  secret = d.secret;
  secrethash = d.secrethash;
  route_states = routes;
  recipient_metadata = get_address_metadata c.partner_state.address routes;
  previous_metadata = none;
}

-- `create_sendlockedtransfer` of an amount below 0, which gets as far as the lock.
abbrev pub refuse_negative :
    NettingChannelState → ℤ → Result (NettingChannelState × SendLockedTransfer)
refuse_negative c amount = do
  assert (leb_ℤ amount (get_distributable c.our_state c.partner_state)) Fault.not_enough_balance
  assert (is_opened (get_status c)) Fault.channel_not_open
  raise Fault.negative_amount

unfoldable pub send_lockedtransfer :
    Externals
    → Floats
    → TransferDescription
    → NettingChannelState
    → ℕ
    → ℕ
    → RouteState
    → List RouteState
    → Result (NettingChannelState × SendLockedTransfer)
send_lockedtransfer x f d c identifier block_number r routes = do
  assert (c.canonical_identifier.token_network_address == d.token_network_address)
      Fault.address_mismatch
  elim (calculate_safe_amount_with_fee f d.amount r.estimated_fee) [
    | pos amount ↦
        Send.send_lockedtransfer x c (transfer_request d c identifier block_number amount routes)
    | negsuc n ↦ refuse_negative c (negsuc n)
  ]

-- What a new route gives: the task, the channels, the random generator and the events.
abbrev pub NewRoute : Type 0
NewRoute = Option InitiatorTransferState × Channels × ℕ × List Event

-- Our address, as the first of the channels has it.
abbrev pub our_address : Channels → Option ℕ
our_address h = elim h.by_address [
  | [] ↦ none
  | (network, address, reference) ∷ entries ↦ elim (deref h (some reference)) [
    | none ↦ none
    | some (_, c) ↦ some c.our_state.address
  ]
]

abbrev pub choice : Floats → Channels → TransferDescription → List RouteState → Option Choice × Bool
choice f h d routes = elim (our_address h) [
  | none ↦ (none, false)
  | some address ↦ choose_route f h d address routes
]

abbrev pub route_reason : Bool → FailureReason
route_reason true = FailureReason.no_usable_route_for_fee
route_reason false = FailureReason.no_usable_route

unfoldable pub start_transfer :
    Externals
    → Floats
    → Channels
    → List RouteState
    → TransferDescription
    → ℕ
    → ℕ
    → Choice
    → Result NewRoute
start_transfer x f h routes d prng block_number (reference, c, r) = do
  let (identifier, next) = x.randint prng
  (c', event) ← send_lockedtransfer x f d c identifier block_number r routes
  ok (
    some (record {
      route = r;
      transfer_description = d;
      channel_identifier = c'.canonical_identifier.channel_identifier;
      transfer = event.transfer;
      received_secret_request = false;
      transfer_state = transfer_pending;
    }),
    write h reference c',
    next,
    send_locked_transfer event ∷ [],
  )

unfoldable pub try_new_route :
    Externals → Floats → Channels → List RouteState → TransferDescription → ℕ → ℕ → Result NewRoute
try_new_route x f h routes d prng block_number =
    let (chosen, exceeded) = choice f h d routes in
    elim chosen [
      | none ↦
          ok (none, h, prng, payment_sent_failed (payment_failed d (route_reason exceeded)) ∷ [])
      | some c ↦ start_transfer x f h routes d prng block_number c
    ]
