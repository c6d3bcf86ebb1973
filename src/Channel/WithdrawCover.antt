-- ===== src/Channel/WithdrawCover.antt =====
-- Withdraws never overdraw a side: src/gatecoin/transfer/channel.py, `_handle_action_withdraw` and
-- `_handle_receive_withdraw_request`.
use gatecoin.Common.{
  ℕ, ◌+◌, ◌≤◌, ◌≡◌, refl, true, false, Option, none, [], ◌∷◌, Dict, insert, max, pos, ◌-ℤ◌, ◌≤ℤ◌,
  int_laws, arith, Returns, inl, inr, ◌⊎◌,
}
use gatecoin.Externals.{Externals}
use gatecoin.State.{
  NettingChannelEndState, NettingChannelState, PendingWithdrawState, max_key, total_withdraw,
  transferred_amount, offchain_total_withdraw,
}
use gatecoin.Event.{Reason}
use gatecoin.Channel.Query.{
  get_balance, get_status, is_prior_to_closed, get_next_nonce, get_safe_initial_expiration,
}
use gatecoin.Channel.Check.{SuccessOrError, success, error}
use gatecoin.Channel.Balance.{get_balance_parts}
use gatecoin.Channel.WithdrawCheck.{
  ReceiveWithdrawRequest, is_valid_total_withdraw, is_valid_withdraw_request,
}
use gatecoin.Channel.Withdraw.{add_pending, send_withdraw_request}
use gatecoin.Channel.WithdrawHandle.{
  handle_action_withdraw, handle_receive_withdraw_request, requested_withdraw,
}

-- What a side has withdrawn and transferred is covered by its deposit and what it received: its
-- balance is not negative.
abbrev pub IsCovered : NettingChannelEndState → NettingChannelEndState → Type 0
IsCovered s r = total_withdraw s + transferred_amount s ≤ s.contract_balance + transferred_amount r

max_key-insert :
    (k : ℕ) (w : PendingWithdrawState) (d : Dict PendingWithdrawState)
    → max_key (insert k w d) ≡ max k (max_key d)
unfolding max_key
max_key-insert k w [] = ground arith
max_key-insert k w ((j, v) ∷ d) = ground (arith, max_key-insert k w d)

module _ (s r : NettingChannelEndState) (w : PendingWithdrawState) where
  add_pending-total :
      total_withdraw s ≤ w.total_withdraw → total_withdraw (add_pending s w) ≡ w.total_withdraw
  unfolding total_withdraw offchain_total_withdraw
  add_pending-total more = ground (arith, max_key-insert w.total_withdraw w s.withdraws_pending)

  add_pending-IsCovered :
      total_withdraw s ≤ w.total_withdraw
      → w.total_withdraw + transferred_amount s ≤ s.contract_balance + transferred_amount r
      → IsCovered (add_pending s w) r
  unfolding transferred_amount
  add_pending-IsCovered more covered = rw (add_pending-total more) covered

  -- The other side is not concerned.
  add_pending-other : IsCovered r s → IsCovered r (add_pending s w)
  unfolding transferred_amount
  add_pending-other h = h

answer-cases : (s : SuccessOrError) → (s ≡ success) ⊎ ((r : Reason) × (s ≡ error r))
answer-cases success = inl refl
answer-cases (error r) = inr (r, refl)

module _ (c : NettingChannelState) (total : ℕ) where
  success-amount :
      is_valid_total_withdraw c (pos total) false ≡ success
      → (is_prior_to_closed (get_status c) ≡ true)
        × (pos 1 ≤ℤ pos total -ℤ pos (total_withdraw c.our_state))
        × (pos total -ℤ pos (total_withdraw c.our_state) ≤ℤ get_balance c.our_state c.partner_state)
  unfolding is_valid_total_withdraw
  success-amount h = ground arith

  -- The new total increases, and is covered.
  success-covered :
      is_valid_total_withdraw c (pos total) false ≡ success
      → (total_withdraw c.our_state + 1 ≤ total)
        × (total + transferred_amount c.our_state
            ≤ c.our_state.contract_balance + transferred_amount c.partner_state)
  success-covered h = (
    omega (int_laws, success-amount h),
    omega (int_laws, success-amount h, get_balance_parts c.our_state c.partner_state),
  )

  -- If what each side has withdrawn and transferred was covered by its deposit and what it
  -- received, it is so after the action of a withdraw, and either our total withdraw is the one
  -- asked for or the channel has not changed.
  pub handle_action_withdraw-IsCovered :
      (x : Externals) (metadata : Option ℕ) (block_number prng : ℕ)
      → IsCovered c.our_state c.partner_state
      → IsCovered c.partner_state c.our_state
      → let (c', _, _) = handle_action_withdraw x c total metadata block_number prng in
        IsCovered c'.our_state c'.partner_state
        × IsCovered c'.partner_state c'.our_state
        × ((total_withdraw c'.our_state ≡ total) ⊎ (c' ≡ c))
  unfolding handle_action_withdraw send_withdraw_request
  handle_action_withdraw-IsCovered x metadata block_number prng h k =
      elim (answer-cases (is_valid_total_withdraw c (pos total) false)) [
        | inl accepted ↦
            let (prior, _, _) = success-amount accepted in
            let (more, covered) = success-covered accepted in
            let w : PendingWithdrawState = record {
              total_withdraw = total;
              expiration = get_safe_initial_expiration block_number c.reveal_timeout none;
              nonce = get_next_nonce c.our_state;
              recipient_metadata = metadata;
            } in
            let enough : total_withdraw c.our_state ≤ total = omega arith in
            rw (accepted, handle_action_withdraw, prior, send_withdraw_request)
              (
                add_pending-IsCovered c.our_state c.partner_state w enough covered,
                add_pending-other c.our_state c.partner_state w k,
                inl (add_pending-total c.our_state c.partner_state w enough),
              )
        | inr (reason, refused) ↦ rw (refused, handle_action_withdraw) (h, k, inr refl)
      ]

module _ (x : Externals) (c : NettingChannelState) (m : ReceiveWithdrawRequest) where
  request-amount :
      is_valid_withdraw_request x c m ≡ success
      → (pos 0 ≤ℤ pos m.total_withdraw -ℤ pos (total_withdraw c.partner_state))
        × (pos m.total_withdraw -ℤ pos (total_withdraw c.partner_state)
            ≤ℤ get_balance c.partner_state c.our_state)
  unfolding is_valid_withdraw_request
  request-amount h = ground arith

  request-covered :
      is_valid_withdraw_request x c m ≡ success
      → (total_withdraw c.partner_state ≤ m.total_withdraw)
        × (m.total_withdraw + transferred_amount c.partner_state
            ≤ c.partner_state.contract_balance + transferred_amount c.our_state)
  request-covered h = (
    omega (int_laws, request-amount h),
    omega (int_laws, request-amount h, get_balance_parts c.partner_state c.our_state),
  )

  -- A received withdraw request outside of any cooperative settle is answered without a failing
  -- assertion. If what each side has withdrawn and transferred was covered by its deposit and
  -- what it received, it is so afterwards, and either the partner's total withdraw is the
  -- requested one or the channel has not changed.
  pub handle_receive_withdraw_request-IsCovered :
      (block_number block_hash prng : ℕ)
      → c.our_state.initiated_coop_settle ≡ none
      → m.coop_settle ≡ false
      → IsCovered c.our_state c.partner_state
      → IsCovered c.partner_state c.our_state
      → Returns
          (λ r.
            IsCovered r.0.our_state r.0.partner_state
            × IsCovered r.0.partner_state r.0.our_state
            × ((total_withdraw r.0.partner_state ≡ m.total_withdraw) ⊎ (r.0 ≡ c)))
          (handle_receive_withdraw_request x c m block_number block_hash prng)
  unfolding handle_receive_withdraw_request total_withdraw offchain_total_withdraw
      transferred_amount
  handle_receive_withdraw_request-IsCovered block_number block_hash prng no_settle plain h k =
      elim (answer-cases (is_valid_withdraw_request x c m)) [
        | inl accepted ↦
            let (enough, covered) = request-covered accepted in
            let w = requested_withdraw m in
            rw (accepted, handle_receive_withdraw_request, no_settle, plain)
              (
                add_pending-other c.partner_state c.our_state w h,
                add_pending-IsCovered c.partner_state c.our_state w enough covered,
                inl (add_pending-total c.partner_state c.our_state w enough),
              )
        | inr (reason, refused) ↦ rw (refused, handle_receive_withdraw_request) (h, k, inr refl)
      ]
