-- ===== src/Channel/Onchain.antt =====
-- What happens on chain: src/gatecoin/transfer/channel.py, `set_closed` to
-- `update_contract_balance`, `events_for_close` and from `_handle_block` to
-- `_handle_channel_batch_unlock`, with the state changes of src/gatecoin/transfer/state_change.py.
use gatecoin.Common.{
  ℕ, ◌+◌, Bool, true, false, not, ◌&&◌, ◌||◌, ltb, ◌==◌, ◌++◌, if◌then◌else◌, Option, none, some,
  is_some, List, [], ◌∷◌, erase, pos, eqb_ℤ, Result, ok, raise, assert, assert_some, ◌>>=◌, ◌>>◌,
  Fault,
}
use gatecoin.Externals.{Externals}
use gatecoin.State.{
  BalanceProof, BalanceProofSignedState, received, local, CoopSettleState, ExecutionResult,
  NettingChannelEndState, NettingChannelState, TransactionExecutionStatus,
}
use gatecoin.Event.{Event}
use gatecoin.Channel.Query.{
  get_capacity, get_status, is_opened, is_closed, is_settled, is_prior_to_closed,
  locksroot_of_no_locks,
}
use gatecoin.Channel.Withdraw.{events_for_expired_withdraws}
use gatecoin.Channel.WithdrawHandle.{started}

pub record ContractReceiveChannelClosed : Type 0 where
  pub channel_identifier : ℕ
  pub transaction_from : ℕ
  pub block_number : ℕ
  pub block_hash : ℕ

pub record ContractReceiveChannelSettled : Type 0 where
  pub channel_identifier : ℕ
  pub our_onchain_locksroot : ℕ
  pub our_transferred_amount : ℕ
  pub partner_onchain_locksroot : ℕ
  pub partner_transferred_amount : ℕ
  pub block_number : ℕ
  pub block_hash : ℕ

abbrev pub finished : ℕ → TransactionExecutionStatus
finished block_number = record {
  started_block_number = none;
  finished_block_number = some block_number;
  result = some ExecutionResult.success;
}

-- The three functions that follow share this: a transaction that has no block number yet, or the
-- number 0, is finished now.
abbrev pub finish : Option TransactionExecutionStatus → ℕ → TransactionExecutionStatus
finish none block_number = finished block_number
finish (some t) block_number =
    let now = record t {
      finished_block_number = some block_number;
      result = some ExecutionResult.success;
    } in
    elim t.finished_block_number [ none ↦ now | some n ↦ if n == 0 then now else t ]

unfoldable pub set_closed : NettingChannelState → ℕ → NettingChannelState
set_closed c block_number = record c {
  close_transaction = some (finish c.close_transaction block_number);
}

unfoldable pub set_settled : NettingChannelState → ℕ → NettingChannelState
set_settled c block_number = record c {
  settle_transaction = some (finish c.settle_transaction block_number);
}

unfoldable pub set_coop_settled : NettingChannelEndState → ℕ → Result NettingChannelEndState
set_coop_settled e block_number = do
  s ← assert_some e.initiated_coop_settle Fault.coop_settle_missing
  ok (record e {
    initiated_coop_settle =
        some (record s { transaction = some (finish s.transaction block_number) });
  })

unfoldable pub update_contract_balance : NettingChannelEndState → ℕ → NettingChannelEndState
update_contract_balance e contract_balance =
    if ltb e.contract_balance contract_balance
    then record e { contract_balance = contract_balance }
    else e

-- The balance proof of the partner, which has to be a signed one.
abbrev pub signed_proof : Option BalanceProof → Result (Option BalanceProofSignedState)
signed_proof none = ok none
signed_proof (some (received b)) = ok (some b)
signed_proof (some (local b)) = raise Fault.balance_proof_not_signed

unfoldable pub events_for_close :
    NettingChannelState → ℕ → ℕ → Result (NettingChannelState × List Event)
events_for_close c block_number block_hash =
    let closing : Result (NettingChannelState × List Event) = do
      b ← signed_proof c.partner_state.balance_proof
      ok (
        record c { close_transaction = some (started block_number) },
        Event.contract_send_close c.canonical_identifier b block_hash ∷ [],
      )
    in if is_prior_to_closed (get_status c) then closing else ok (c, [])

unfoldable pub handle_action_close :
    NettingChannelState → ℕ → ℕ → ℕ → Result (NettingChannelState × List Event)
handle_action_close c channel_identifier block_number block_hash = do
  assert (c.canonical_identifier.channel_identifier == channel_identifier) Fault.ids_do_not_match
  events_for_close c block_number block_hash

-- A closed channel is settled once its settle timeout is over.
unfoldable pub settle_closed :
    NettingChannelState → ℕ → ℕ → Result (NettingChannelState × List Event)
settle_closed c block_number block_hash =
    let settling : Result (NettingChannelState × List Event) = do
      t ← assert_some c.close_transaction Fault.close_block_missing
      n ← assert_some t.finished_block_number Fault.close_block_missing
      assert (ltb 0 n) Fault.close_block_missing
      if ltb (n + c.settle_timeout) block_number
          then ok (
            record c { settle_transaction = some (started block_number) },
            Event.contract_send_settle c.canonical_identifier block_hash ∷ [],
          )
          else ok (c, [])
    in if is_closed (get_status c) then settling else ok (c, [])

unfoldable pub handle_block :
    Externals → NettingChannelState → ℕ → ℕ → ℕ → ℕ → Result (NettingChannelState × ℕ × List Event)
handle_block x c action_number action_hash block_number prng = do
  assert (action_number == block_number) Fault.block_number_mismatch
  (c₁, prng', expired) ←
      (if is_opened (get_status c)
        then events_for_expired_withdraws x c block_number prng
        else ok (c, prng, []))
  (c₂, settle) ← settle_closed c₁ action_number action_hash
  ok (c₂, prng', expired ++ settle)

unfoldable pub handle_channel_closed :
    NettingChannelState → ContractReceiveChannelClosed → Result (NettingChannelState × List Event)
handle_channel_closed c m =
    let c' = set_closed c m.block_number in
    let just_closed =
      m.channel_identifier == c.canonical_identifier.channel_identifier
      && is_prior_to_closed (get_status c) in
    let call_update =
      not (m.transaction_from == c.our_state.address)
      && is_some c.partner_state.balance_proof
      && not (is_some c.update_transaction) in
    let updating : Result (NettingChannelState × List Event) = do
      proof ← signed_proof c.partner_state.balance_proof
      b ← assert_some proof Fault.no_balance_proof
      ok (
        record c' { update_transaction = some (started m.block_number) },
        Event.contract_send_update_transfer (m.block_number + c.settle_timeout) b m.block_hash ∷ [],
      )
    in if not just_closed then ok (c, []) else if call_update then updating else ok (c', [])

unfoldable pub handle_channel_updated_transfer :
    NettingChannelState → ℕ → ℕ → NettingChannelState × List Event
handle_channel_updated_transfer c channel_identifier block_number =
    if channel_identifier == c.canonical_identifier.channel_identifier
    then (record c { update_transaction = some (finished block_number) }, [])
    else (c, [])

-- Does a settlement with these two amounts, and without locks, match the cooperative settle?
abbrev pub matches_settle : CoopSettleState → ContractReceiveChannelSettled → ℕ → ℕ → Bool
matches_settle s m initiator partner =
    eqb_ℤ s.total_withdraw_initiator (pos initiator)
    && m.our_onchain_locksroot == locksroot_of_no_locks
    && eqb_ℤ s.total_withdraw_partner (pos partner)
    && m.partner_onchain_locksroot == locksroot_of_no_locks

-- The side that initiated a matching cooperative settle, if it did, with its settle finished.
unfoldable pub coop_settled :
    NettingChannelEndState
    → ContractReceiveChannelSettled
    → ℕ
    → ℕ
    → Result (NettingChannelEndState × Bool)
coop_settled e m initiator partner = elim e.initiated_coop_settle [
  | none ↦ ok (e, false)
  | some s ↦
      let settled : Result (NettingChannelEndState × Bool) = do
        e' ← set_coop_settled e m.block_number
        ok (e', true)
      in if matches_settle s m initiator partner then settled else ok (e, false)
]

unfoldable pub handle_channel_settled :
    NettingChannelState
    → ContractReceiveChannelSettled
    → Result (Option NettingChannelState × List Event)
handle_channel_settled c m =
    let settled : Result (Option NettingChannelState × List Event) = do
      let c₁ = set_settled c m.block_number
      (our, by_us) ←
          coop_settled c₁.our_state m m.our_transferred_amount m.partner_transferred_amount
      (partner, by_partner) ←
          coop_settled c₁.partner_state m m.partner_transferred_amount m.our_transferred_amount
      let coop = by_us || by_partner
      let our' =
          if coop then record our { onchain_total_withdraw = m.our_transferred_amount } else our
      let partner' =
          if coop
          then record partner { onchain_total_withdraw = m.partner_transferred_amount }
          else partner
      if m.our_onchain_locksroot == locksroot_of_no_locks
            && m.partner_onchain_locksroot == locksroot_of_no_locks
          then ok (none, [])
          else ok (
            some (record c₁ {
              our_state = record our' { onchain_locksroot = m.our_onchain_locksroot };
              partner_state = record partner' { onchain_locksroot = m.partner_onchain_locksroot };
            }),
            Event.contract_send_batch_unlock c.canonical_identifier c.partner_state.address
                  m.block_hash
                ∷ [],
          )
    in if m.channel_identifier == c.canonical_identifier.channel_identifier
      then settled
      else ok (some c, [])

-- `proportional_fee` is the fee that the configuration has for the channel's token.
unfoldable pub update_fee_schedule_after_balance_change :
    Externals → NettingChannelState → ℕ → NettingChannelState
update_fee_schedule_after_balance_change x c proportional_fee = record c {
  fee_schedule = record (c.fee_schedule) {
    imbalance_penalty = x.imbalance_fees (get_capacity c) proportional_fee;
  };
}

unfoldable pub handle_channel_deposit :
    Externals → NettingChannelState → ℕ → ℕ → ℕ → NettingChannelState × List Event
handle_channel_deposit x c participant contract_balance proportional_fee =
    let our = record c { our_state = update_contract_balance c.our_state contract_balance } in
    let partner = record c {
      partner_state = update_contract_balance c.partner_state contract_balance;
    } in
    let c' =
      if participant == c.our_state.address
      then our
      else if participant == c.partner_state.address
      then partner
      else c in
    (update_fee_schedule_after_balance_change x c' proportional_fee, [])

-- The pending withdraw of this total is done.
abbrev pub withdrawn : NettingChannelEndState → ℕ → NettingChannelEndState
withdrawn e total = record e {
  withdraws_pending = erase total e.withdraws_pending;
  onchain_total_withdraw = total;
}

unfoldable pub handle_channel_withdraw :
    Externals → NettingChannelState → ℕ → ℕ → ℕ → NettingChannelState × List Event
handle_channel_withdraw x c participant total proportional_fee =
    let our = record c { our_state = withdrawn c.our_state total } in
    let partner = record c { partner_state = withdrawn c.partner_state total } in
    if participant == c.our_state.address
    then (update_fee_schedule_after_balance_change x our proportional_fee, [])
    else if participant == c.partner_state.address
    then (update_fee_schedule_after_balance_change x partner proportional_fee, [])
    else (c, [])

abbrev pub cleared : NettingChannelEndState → NettingChannelEndState
cleared e = record e { onchain_locksroot = locksroot_of_no_locks }

unfoldable pub handle_channel_batch_unlock :
    NettingChannelState → ℕ → Option NettingChannelState × List Event
handle_channel_batch_unlock c sender =
    let our = record c { our_state = cleared c.our_state } in
    let partner = record c { partner_state = cleared c.partner_state } in
    let c' =
      if sender == c.our_state.address
      then our
      else if sender == c.partner_state.address
      then partner
      else c in
    if not (is_settled (get_status c))
    then (some c, [])
    else if c'.our_state.onchain_locksroot == locksroot_of_no_locks
        && c'.partner_state.onchain_locksroot == locksroot_of_no_locks
    then (none, [])
    else (some c', [])
