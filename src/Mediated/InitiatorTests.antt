-- ===== src/Mediated/InitiatorTests.antt =====
-- The initiator at concrete values, for what the theorems about
-- src/gatecoin/transfer/mediated_transfer/initiator.py say there.
use gatecoin.Common.{
  ℕ, ◌*◌, ◌/◌, ◌^◌, ◌-◌, pos, negsuc, ◌+ℤ◌, ◌+◌, ◌≤◌, ◌≡◌, refl, false, none, some, [], ◌∷◌,
  IfReturns,
}
use gatecoin.State.{NettingChannelState, RouteState, LockedTransferUnsignedState}
use gatecoin.Channel.Query.{get_lock}
use gatecoin.Channel.Tests.{ours-IsSound, toy, side, channel, lock, first_proof, ours, new-IsSound}
use gatecoin.Channel.Receive.Sound.{IsSoundChannel}
use gatecoin.Mediated.Channels.{Channels, AreSound, write, write-all, write-AreSound}
use gatecoin.Mediated.Mediator.Forwarded.{IsUnsent}
use gatecoin.Mediated.Initiator.{TransferDescription, InitiatorTransferState, transfer_pending}
use gatecoin.Mediated.Initiator.Transition.{
  ReceiveSecretRequest, block, receive_secret_request, receive_secret_reveal, handle_secretrequest,
}
use gatecoin.Mediated.Initiator.Run.{run, reveals, allowed, run-reveals}
use gatecoin.Mediated.Initiator.Sound.{run-IsSound}
use gatecoin.Mediated.Initiator.Route.{Floats, calculate_safe_amount_with_fee, try_new_route}
use gatecoin.Mediated.Initiator.Started.{IsPaid, try_new_route-IsPaid}

abbrev route : RouteState
route = record {
  route = 1 ∷ 2 ∷ [];
  address_to_metadata = [];
  swaps = [];
  estimated_fee = negsuc 1;
}

abbrev description : TransferDescription
description = record {
  payment_identifier = 6;
  amount = 7;
  token_network_address = 20;
  initiator = 1;
  target = 2;
  secret = some 7;
  secrethash = 107;
  lock_timeout = none;
}

abbrev transfer : LockedTransferUnsignedState
transfer = record {
  payment_identifier = 6;
  token = 9;
  lock = lock;
  initiator = 1;
  target = 2;
  balance_proof = first_proof;
  route_states = route ∷ [];
  metadata = none;
  secret = some 7;
}

abbrev task : InitiatorTransferState
task = record {
  route = route;
  transfer_description = description;
  channel_identifier = 3;
  transfer = transfer;
  received_secret_request = false;
  transfer_state = transfer_pending;
}

abbrev secret_request : ReceiveSecretRequest
secret_request = record {
  sender = 2;
  payment_identifier = 6;
  amount = 8;
  expiration = 50;
  secrethash = 107;
}

-- The first request is answered with the secret.
request-answered :
    IfReturns (λ r. reveals r.3 ≡ 1) (handle_secretrequest toy task secret_request ours 4)
unfolding handle_secretrequest get_lock
request-answered = refl

run-reveals_example :
    IfReturns
      (λ r. reveals r.3 + allowed r.0 ≤ 1)
      (run toy
        (some task)
        ((receive_secret_request secret_request, 20)
          ∷ (receive_secret_request secret_request, 21)
          ∷ (block 30, 30)
          ∷ (receive_secret_reveal (record { sender = 2; secret = 7 }), 31)
          ∷ [])
        ours
        4)
run-reveals_example =
    run-reveals toy (some task)
      ((receive_secret_request secret_request, 20)
        ∷ (receive_secret_request secret_request, 21)
        ∷ (block 30, 30)
        ∷ (receive_secret_reveal (record { sender = 2; secret = 7 }), 31)
        ∷ [])
      ours 4

abbrev no_channels : Channels
no_channels = record { store = []; by_identifier = (3, 0) ∷ []; by_address = (20, 2, 0) ∷ [] }

abbrev fresh : NettingChannelState
fresh = channel (side 1) (side 2)

abbrev channels : Channels
channels = record no_channels { store = (0, fresh) ∷ [] }

channels-AreSound : AreSound toy channels
unfolding write
channels-AreSound =
    write-AreSound toy no_channels (λ reference c here. absurd (cc here)) 0 fresh (new-IsSound 1 2)

channels-IsUnsent : IsUnsent channels 107
unfolding write get_lock
channels-IsUnsent =
    write-all (λ c. get_lock c.our_state 107 ≡ none) no_channels 0 fresh
      (λ reference c here. absurd (cc here)) refl

-- Floats as numbers of ten-thousandths.
abbrev floats : Floats
floats = record {
  Float = ℕ;
  decimal = λ n digits. n * 10 ^ (4 - digits);
  times = λ n x. n * x;
  add = λ x y. x + y;
  ceil = λ x. (x + 9999) / 10000;
  int = λ x. x / 10000;
}

-- A negative fee, and the margin of the formula.
safe_amount : calculate_safe_amount_with_fee floats 7 (negsuc 1) ≡ pos 6
unfolding calculate_safe_amount_with_fee ◌+ℤ◌
safe_amount = refl

try_new_route-IsPaid_example :
    IfReturns
      (λ r. AreSound toy r.1 × IsPaid floats description r.1 r.0)
      (try_new_route toy floats channels (route ∷ []) description 4 20)
try_new_route-IsPaid_example =
    try_new_route-IsPaid toy floats channels description channels-AreSound channels-IsUnsent
      (route ∷ []) 4 20

run-IsSound_example :
    IfReturns
      (λ r. IsSoundChannel toy r.1)
      (run toy
        (some task)
        ((receive_secret_request secret_request, 20)
          ∷ (receive_secret_reveal (record { sender = 2; secret = 7 }), 31)
          ∷ [])
        ours
        4)
run-IsSound_example =
    run-IsSound toy (some task)
      ((receive_secret_request secret_request, 20)
        ∷ (receive_secret_reveal (record { sender = 2; secret = 7 }), 31)
        ∷ [])
      ours 4 ours-IsSound
