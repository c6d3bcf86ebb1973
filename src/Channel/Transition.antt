-- ===== src/Channel/Transition.antt =====
-- The state machine of a channel: src/gatecoin/transfer/channel.py, `sanity_check`,
-- `handle_state_transitions` and `state_transition`.
use gatecoin.Common.{
  ℕ, Bool, true, ◌&&◌, ◌||◌, ltb, ◌==◌, Option, none, some, is_some, List, [], ◌∷◌, Dict, pos, ◌+ℤ◌,
  leb_ℤ, eqb_ℤ, Result, ok, assert, ◌>>=◌, ◌>>◌, Fault,
}
use gatecoin.Externals.{Externals}
use gatecoin.State.{
  EncodedData, HashTimeLockState, UnlockPartialProofState, PendingWithdrawState,
  NettingChannelEndState, NettingChannelState,
}
use gatecoin.Event.{Event}
use gatecoin.Channel.Query.{
  get_amount_locked, get_balance, get_capacity, get_current_balanceproof, get_distributable,
}
use gatecoin.Channel.Lock.{encoded, has_data, compute_locksroot}
use gatecoin.Channel.WithdrawCheck.{
  ReceiveWithdrawRequest, ReceiveWithdrawConfirmation, ReceiveWithdrawExpired,
}
use gatecoin.Channel.WithdrawHandle.{
  handle_action_coop_settle, handle_action_withdraw, handle_action_set_reveal_timeout,
  handle_receive_withdraw_request, handle_receive_withdraw_confirmation,
  handle_receive_withdraw_expired,
}
use gatecoin.Channel.Onchain.{
  ContractReceiveChannelClosed, ContractReceiveChannelSettled, handle_action_close, handle_block,
  handle_channel_closed, handle_channel_updated_transfer, handle_channel_settled,
  handle_channel_deposit, handle_channel_withdraw, handle_channel_batch_unlock,
}

-- The state changes that a channel handles, with the fields that it reads; all others leave it as
-- it is.
pub data StateChange : Type 0 where
  -- block number and hash
  block : ℕ → ℕ → StateChange
  action_channel_close : ℕ → StateChange
  action_channel_coop_settle : Option ℕ → StateChange
  -- total withdraw, metadata
  action_channel_withdraw : ℕ → Option ℕ → StateChange
  action_channel_set_reveal_timeout : ℕ → StateChange
  receive_withdraw_request : ReceiveWithdrawRequest → StateChange
  receive_withdraw_confirmation : ReceiveWithdrawConfirmation → StateChange
  receive_withdraw_expired : ReceiveWithdrawExpired → StateChange
  contract_receive_channel_closed : ContractReceiveChannelClosed → StateChange
  contract_receive_update_transfer : ℕ → StateChange
  contract_receive_channel_settled : ContractReceiveChannelSettled → StateChange
  -- participant, total, the configured imbalance fee
  contract_receive_channel_deposit : ℕ → ℕ → ℕ → StateChange
  contract_receive_channel_withdraw : ℕ → ℕ → ℕ → StateChange
  contract_receive_channel_batch_unlock : ℕ → StateChange
  other : StateChange

-- The withdraws that are pending grow, unless a cooperative settle is under way, and each is found
-- by its total.
unfoldable pub check_withdraws : Bool → ℕ → Dict PendingWithdrawState → Result (Unit {0})
check_withdraws settle previous [] = ok tt
check_withdraws settle previous ((k, w) ∷ d) = do
  assert (settle || ltb previous w.total_withdraw) Fault.withdraws_not_ordered
  assert (k == w.total_withdraw) Fault.withdraw_key_mismatch
  check_withdraws settle w.total_withdraw d

-- Each value of the dict is among the pending locks.
unfoldable pub locks_listed : Dict HashTimeLockState → List EncodedData → Bool
locks_listed [] locks = true
locks_listed ((_, l) ∷ d) locks = has_data (encoded l) locks && locks_listed d locks

unfoldable pub unlocks_listed : Dict UnlockPartialProofState → List EncodedData → Bool
unlocks_listed [] locks = true
unlocks_listed ((_, p) ∷ d) locks = has_data (encoded p.lock) locks && unlocks_listed d locks

unfoldable pub check_listed : NettingChannelEndState → Result (Unit {0})
check_listed e = do
  assert (locks_listed e.secrethashes_to_lockedlocks e.pending_locks) Fault.locks_not_synchronized
  assert (unlocks_listed e.secrethashes_to_unlockedlocks e.pending_locks)
      Fault.locks_not_synchronized
  assert (unlocks_listed e.secrethashes_to_onchain_unlockedlocks e.pending_locks)
      Fault.locks_not_synchronized

unfoldable pub sanity_check : Externals → NettingChannelState → Result (Unit {0})
sanity_check x c = do
  let our = c.our_state
  let partner = c.partner_state
  let settle = is_some our.initiated_coop_settle || is_some partner.initiated_coop_settle
  check_withdraws settle 0 our.withdraws_pending
  let our_balance = get_balance our partner
  let partner_balance = get_balance partner our
  assert (leb_ℤ (pos 0) our_balance) Fault.our_balance_negative
  assert (leb_ℤ (pos 0) partner_balance) Fault.partner_balance_negative
  assert (eqb_ℤ (our_balance +ℤ partner_balance) (get_capacity c)) Fault.deposit_not_accounted
  let (our_root, _, _, our_locked) = get_current_balanceproof our
  let (partner_root, _, _, partner_locked) = get_current_balanceproof partner
  assert (get_amount_locked partner == partner_locked) Fault.partner_locked_mismatch
  assert (get_amount_locked our == our_locked) Fault.our_locked_mismatch
  assert (leb_ℤ (get_distributable our partner +ℤ pos (get_amount_locked our)) our_balance)
      Fault.our_distributable_exceeds
  assert (leb_ℤ (get_distributable partner our +ℤ pos (get_amount_locked partner)) partner_balance)
      Fault.partner_distributable_exceeds
  assert (compute_locksroot x our.pending_locks == our_root) Fault.our_locksroot_mismatch
  assert (compute_locksroot x partner.pending_locks == partner_root)
      Fault.partner_locksroot_mismatch
  check_listed partner
  check_listed our

-- A handler that returns no generator has not drawn from it.
abbrev keep : ℕ → NettingChannelState × List Event → Option NettingChannelState × ℕ × List Event
keep prng (c, events) = (some c, prng, events)

abbrev kept :
    ℕ
    → Result (NettingChannelState × List Event)
    → Result (Option NettingChannelState × ℕ × List Event)
kept prng r = r >>= λ p. ok (keep prng p)

abbrev drawn : NettingChannelState × ℕ × List Event → Option NettingChannelState × ℕ × List Event
drawn (c, prng, events) = (some c, prng, events)

abbrev removed :
    ℕ → Option NettingChannelState × List Event → Option NettingChannelState × ℕ × List Event
removed prng (c, events) = (c, prng, events)

unfoldable pub handle_state_transitions :
    Externals
    → NettingChannelState
    → StateChange
    → ℕ
    → ℕ
    → ℕ
    → Result (Option NettingChannelState × ℕ × List Event)
handle_state_transitions x c (block number hash) block_number block_hash prng =
    handle_block x c number hash block_number prng >>= λ r. ok (drawn r)
handle_state_transitions x c (action_channel_close id) block_number block_hash prng =
    kept prng (handle_action_close c id block_number block_hash)
handle_state_transitions x c (action_channel_coop_settle metadata) block_number block_hash prng =
    ok (drawn (handle_action_coop_settle x c metadata block_number prng))
handle_state_transitions x c (action_channel_withdraw total metadata) block_number block_hash prng =
    ok (drawn (handle_action_withdraw x c total metadata block_number prng))
handle_state_transitions x c (action_channel_set_reveal_timeout timeout) block_number block_hash
      prng =
    ok (keep prng (handle_action_set_reveal_timeout c timeout))
handle_state_transitions x c (receive_withdraw_request m) block_number block_hash prng =
    handle_receive_withdraw_request x c m block_number block_hash prng >>= λ r. ok (drawn r)
handle_state_transitions x c (receive_withdraw_confirmation m) block_number block_hash prng =
    kept prng (handle_receive_withdraw_confirmation x c m block_number block_hash)
handle_state_transitions x c (receive_withdraw_expired m) block_number block_hash prng =
    ok (keep prng (handle_receive_withdraw_expired c m block_number))
handle_state_transitions x c (contract_receive_channel_closed m) block_number block_hash prng =
    kept prng (handle_channel_closed c m)
handle_state_transitions x c (contract_receive_update_transfer id) block_number block_hash prng =
    ok (keep prng (handle_channel_updated_transfer c id block_number))
handle_state_transitions x c (contract_receive_channel_settled m) block_number block_hash prng =
    handle_channel_settled c m >>= λ r. ok (removed prng r)
handle_state_transitions x c (contract_receive_channel_deposit p total fee) block_number block_hash
      prng =
    ok (keep prng (handle_channel_deposit x c p total fee))
handle_state_transitions x c (contract_receive_channel_withdraw p total fee) block_number block_hash
      prng =
    ok (keep prng (handle_channel_withdraw x c p total fee))
handle_state_transitions x c (contract_receive_channel_batch_unlock sender) block_number block_hash
      prng =
    ok (removed prng (handle_channel_batch_unlock c sender))
handle_state_transitions x c other block_number block_hash prng = ok (some c, prng, [])

unfoldable pub state_transition :
    Externals
    → NettingChannelState
    → StateChange
    → ℕ
    → ℕ
    → ℕ
    → Result (Option NettingChannelState × ℕ × List Event)
state_transition x c change block_number block_hash prng = do
  (c', prng', events) ← handle_state_transitions x c change block_number block_hash prng
  elim c' [
    | none ↦ ok (none, prng', events)
    | some d ↦ sanity_check x d >> ok (some d, prng', events)
  ]
