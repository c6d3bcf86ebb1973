-- ===== src/Channel/Tests/Chain.antt =====
-- Withdraws, settles and events on chain at concrete values: src/gatecoin/transfer/channel.py.
use gatecoin.Common.{
  ◌≢◌, ◌↔◌, ℕ, ◌≡◌, refl, Bool, true, false, none, some, List, [], ◌∷◌, pos, ◌-ℤ◌, ◌+ℤ◌, arith, ok,
  raise, Fault, Returns, is_some, ◌⊎◌, min_ℤ, max_ℤ,
}
use gatecoin.State.{
  ChannelState, CoopSettleState, NettingChannelState, total_withdraw, offchain_total_withdraw,
  max_key, transferred_amount,
}
use gatecoin.Event.{Event}
use gatecoin.Channel.Query.{
  get_safe_initial_expiration, get_amount_locked, get_balance, get_current_balanceproof,
  get_distributable, get_lock, get_max_withdraw_amount, get_next_nonce,
  get_number_of_pending_transfers, get_status,
}
use gatecoin.Channel.Check.{is_valid_signature, is_valid_amount}
use gatecoin.Channel.Lock.{compute_locksroot, encoded, has_data, join_words}
use gatecoin.Channel.Receive.Sound.{IsSoundChannel}
use gatecoin.Channel.Send.{send_lockedtransfer}
use gatecoin.Channel.Usable.{
  usable, is_channel_usable_for_new_transfer, IsNewRequest, usable-send_lockedtransfer,
}
use gatecoin.Channel.Withdraw.{send_withdraw_request}
use gatecoin.Channel.Check.{success}
use gatecoin.Channel.WithdrawCheck.{
  is_valid_total_withdraw, is_valid_action_coopsettle, ReceiveWithdrawRequest,
  is_valid_withdraw_request, is_valid_withdraw, is_valid_channel_total_withdraw,
}
use gatecoin.Channel.WithdrawHandle.{
  handle_action_coop_settle, started, handle_action_withdraw, handle_receive_withdraw_request,
}
use gatecoin.Channel.WithdrawCover.{
  IsCovered, handle_action_withdraw-IsCovered, handle_receive_withdraw_request-IsCovered,
}
use gatecoin.Channel.SettleRequest.{
  IsFullRequest, our_request, our_confirmation, stale_settle_raises_iff, settle_request-events,
}
use gatecoin.Channel.Onchain.{
  ContractReceiveChannelClosed, finished, handle_channel_closed, handle_channel_deposit,
  settle_closed,
}
use gatecoin.Channel.Transition.{StateChange, check_withdraws, sanity_check, state_transition}
use gatecoin.Channel.Sanity.{sanity_check-ok}
use gatecoin.Channel.Deposit.{state_transition-deposit}
use gatecoin.Channel.Closing.{handle_channel_closed_once, settle_closed_once}
use gatecoin.Channel.Tests.{
  toy, id, side, channel, request, signed, first_proof, ours, theirs, new-IsSound, ours-IsSound,
}

abbrev fresh_channel : NettingChannelState
fresh_channel = channel (side 1) (side 2)

request-usable : is_channel_usable_for_new_transfer fresh_channel (pos 10) (some 20) ≡ usable
unfolding is_channel_usable_for_new_transfer get_status get_number_of_pending_transfers
    get_distributable get_balance get_current_balanceproof get_amount_locked total_withdraw
    transferred_amount offchain_total_withdraw max_key min_ℤ max_ℤ ◌+ℤ◌ ◌-ℤ◌ is_valid_amount
request-usable = refl

request-IsNewRequest : IsNewRequest toy fresh_channel request
unfolding get_lock compute_locksroot join_words encoded has_data
request-IsNewRequest = record {
  positive = omega arith;
  unused = refl;
  fresh = refl;
  expiration_fits = omega arith;
  nonce_fits = omega arith;
  identifier_fits = omega arith;
  not_empty = refl;
}

usable-send_lockedtransfer_example :
    Returns
      (λ r. IsSoundChannel toy r.0 × (r.0.partner_state ≡ side 2))
      (send_lockedtransfer toy fresh_channel request)
usable-send_lockedtransfer_example =
    usable-send_lockedtransfer toy fresh_channel request (some 20) (new-IsSound 1 2) request-usable
      request-IsNewRequest

sanity_check-ok_example : sanity_check toy ours ≡ ok tt
unfolding check_withdraws
sanity_check-ok_example = sanity_check-ok toy ours refl ours-IsSound refl

state_transition-deposit_example :
    let d = (handle_channel_deposit toy ours 2 150 0).0 in
    (state_transition toy ours (StateChange.contract_receive_channel_deposit 2 150 0) 40 0 4
      ≡ ok (some d, 4, []))
    × IsSoundChannel toy d
unfolding check_withdraws
state_transition-deposit_example =
    state_transition-deposit toy ours 2 150 0 40 0 4 refl ours-IsSound refl

-- The partner closes the channel of the second node.
abbrev close : ContractReceiveChannelClosed
close = record { channel_identifier = 3; transaction_from = 1; block_number = 60; block_hash = 7 }

handle_channel_closed_once_example :
    Returns
      (λ r.
        (get_status r.0 ≡ ChannelState.closed)
        × ((◌≡◌ {A = ℕ} 1 2 × (r.1 ≡ [])) ⊎ (is_some r.0.update_transaction ≡ true))
        × (handle_channel_closed r.0 close ≡ ok (r.0, [])))
      (handle_channel_closed theirs close)
unfolding get_status
handle_channel_closed_once_example =
    handle_channel_closed_once theirs close close (signed 1 first_proof) refl refl refl

abbrev closed_channel : NettingChannelState
closed_channel = record ours { close_transaction = some (finished 60) }

abbrev settling_channel : NettingChannelState
settling_channel = record closed_channel { settle_transaction = some (started 101) }

settle_closed_once_example :
    (get_status closed_channel ≡ ChannelState.closed)
    × (get_status settling_channel ≡ ChannelState.settling)
    × ◌≡◌ {A = List Event} [] []
    × (settle_closed settling_channel 102 8 ≡ ok (settling_channel, []))
unfolding settle_closed get_status
settle_closed_once_example =
    settle_closed_once closed_channel settling_channel 101 7 102 8 (Event.contract_send_settle id 7)
      [] refl

side-IsCovered : (a b : ℕ) → IsCovered (side a) (side b)
unfolding total_withdraw transferred_amount offchain_total_withdraw max_key
side-IsCovered a b = omega arith

handle_action_withdraw-IsCovered_example :
    let (c, _, _) = handle_action_withdraw toy fresh_channel 30 none 40 4 in
    IsCovered c.our_state c.partner_state
    × IsCovered c.partner_state c.our_state
    × ((total_withdraw c.our_state ≡ 30) ⊎ (c ≡ fresh_channel))
handle_action_withdraw-IsCovered_example =
    handle_action_withdraw-IsCovered fresh_channel 30 toy none 40 4 (side-IsCovered 1 2)
      (side-IsCovered 2 1)

abbrev withdraw : ℕ → Bool → ReceiveWithdrawRequest
withdraw total settle = record {
  sender = 2;
  message_identifier = 11;
  canonical_identifier = id;
  total_withdraw = total;
  nonce = 1;
  expiration = 50;
  signature = 2;
  participant = 2;
  coop_settle = settle;
  sender_metadata = none;
}

handle_receive_withdraw_request-IsCovered_example :
    Returns
      (λ r.
        IsCovered r.0.our_state r.0.partner_state
        × IsCovered r.0.partner_state r.0.our_state
        × ((total_withdraw r.0.partner_state ≡ 30) ⊎ (r.0 ≡ fresh_channel)))
      (handle_receive_withdraw_request toy fresh_channel (withdraw 30 false) 40 7 4)
handle_receive_withdraw_request-IsCovered_example =
    handle_receive_withdraw_request-IsCovered toy fresh_channel (withdraw 30 false) 40 7 4 refl refl
      (side-IsCovered 1 2) (side-IsCovered 2 1)

-- The channel in which we initiate a settle, and the same after a deposit of the partner's.
abbrev before_deposit : NettingChannelState
before_deposit = channel (side 1) (record (side 2) { contract_balance = 80 })

abbrev settle : CoopSettleState
settle = record {
  total_withdraw_initiator = pos 100;
  total_withdraw_partner = pos 80;
  expiration = 59;
  partner_signature_request = none;
  partner_signature_confirmation = none;
  transaction = none;
}

abbrev settling : NettingChannelState
settling = channel (record (side 1) { initiated_coop_settle = some settle }) (side 2)

abbrev late_request : ReceiveWithdrawRequest
late_request = record (withdraw 100 true) { expiration = 59 }

before-can_settle :
    is_valid_action_coopsettle before_deposit
      (get_max_withdraw_amount before_deposit.our_state before_deposit.partner_state)
    ≡ success
unfolding is_valid_action_coopsettle is_valid_total_withdraw get_status ◌-ℤ◌ get_max_withdraw_amount
    ◌+ℤ◌ transferred_amount total_withdraw offchain_total_withdraw max_key get_balance
    is_valid_channel_total_withdraw get_number_of_pending_transfers
before-can_settle = refl

settling-carried :
    settling.our_state.initiated_coop_settle
    ≡ (handle_action_coop_settle toy before_deposit none 40 4).0.our_state.initiated_coop_settle
unfolding handle_action_coop_settle is_valid_action_coopsettle is_valid_total_withdraw get_status
    ◌-ℤ◌ get_max_withdraw_amount ◌+ℤ◌ transferred_amount total_withdraw offchain_total_withdraw
    max_key get_balance is_valid_channel_total_withdraw get_number_of_pending_transfers
    send_withdraw_request get_safe_initial_expiration
settling-carried = refl

full-IsFullRequest : IsFullRequest toy settling late_request
unfolding is_valid_withdraw_request is_valid_withdraw is_valid_signature
    is_valid_channel_total_withdraw get_max_withdraw_amount get_number_of_pending_transfers
    get_balance get_next_nonce total_withdraw transferred_amount offchain_total_withdraw max_key
    ◌+ℤ◌ ◌-ℤ◌
full-IsFullRequest = record { accepted = refl; full = refl; unlocked = refl }

stale_settle_raises_iff_example :
    (handle_receive_withdraw_request toy settling late_request 41 7 4
      ≡ raise Fault.coop_settle_amount_mismatch)
    ↔ (get_max_withdraw_amount (side 2) (side 1)
        ≢ get_max_withdraw_amount (record (side 2) { contract_balance = 80 }) (side 1))
unfolding get_safe_initial_expiration get_max_withdraw_amount transferred_amount
stale_settle_raises_iff_example =
    stale_settle_raises_iff toy settling late_request 41 7 4 before_deposit none 40 4
      before-can_settle settling-carried full-IsFullRequest refl

fresh-IsFullRequest : IsFullRequest toy fresh_channel (withdraw 100 true)
unfolding is_valid_withdraw_request is_valid_withdraw is_valid_signature
    is_valid_channel_total_withdraw get_max_withdraw_amount get_number_of_pending_transfers
    get_balance get_next_nonce total_withdraw transferred_amount offchain_total_withdraw max_key
    ◌+ℤ◌ ◌-ℤ◌
fresh-IsFullRequest = record { accepted = refl; full = refl; unlocked = refl }

settle_request-events_example :
    Returns
      (λ r.
        r.2
        ≡ our_request toy fresh_channel (withdraw 100 true) 100 4
          ∷ our_request toy fresh_channel (withdraw 100 true) 100 4
          ∷ our_confirmation fresh_channel (withdraw 100 true)
          ∷ [])
      (handle_receive_withdraw_request toy fresh_channel (withdraw 100 true) 40 7 4)
unfolding get_number_of_pending_transfers get_status get_max_withdraw_amount total_withdraw
    transferred_amount ◌+ℤ◌ ◌-ℤ◌
settle_request-events_example =
    settle_request-events toy fresh_channel (withdraw 100 true) 40 7 4 100 fresh-IsFullRequest refl
      refl refl refl refl
