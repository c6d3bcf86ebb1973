-- ===== src/Channel/Query.antt =====
-- What the node reads off the state of a channel: amounts, balances, locks and the status, of
-- src/gatecoin/transfer/channel.py.
use gatecoin.Common.{
  ℕ, ◌+◌, ◌*◌, ◌-◌, Bool, true, false, ◌||◌, ◌==◌, if◌then◌else◌, Option, none, some, or_else,
  is_some, length, lookup, contains, sum_of, ℤ, pos, ◌+ℤ◌, ◌-ℤ◌, max_ℤ, min_ℤ,
}
use gatecoin.State.{
  uint256_max, HashTimeLockState, UnlockPartialProofState, NettingChannelEndState,
  NettingChannelState, TransactionExecutionStatus, ExecutionResult, ChannelState, proof_fields,
  total_withdraw, transferred_amount,
}

-- `keccak(b"")`, of constants.py
abbrev pub locksroot_of_no_locks : ℕ
locksroot_of_no_locks = 0xc5d2460186f7233c927e7db2dcc703c0e500b653ca82273b7bfad8045d85a470

-- constants.py and settings.py
abbrev pub maximum_pending_transfers : ℕ
maximum_pending_transfers = 160

abbrev pub default_number_of_block_confirmations : ℕ
default_number_of_block_confirmations = 5

-- The block that the `lock_timeout` or twice the `reveal_timeout` reaches, less one. A channel's
-- `reveal_timeout` is positive, so that nothing is cut off at 0.
unfoldable pub get_safe_initial_expiration : ℕ → ℕ → Option ℕ → ℕ
get_safe_initial_expiration block_number reveal_timeout lock_timeout =
    let default : ℕ = block_number + reveal_timeout * 2 in
    let expiration : ℕ = elim lock_timeout [
      | none ↦ default
      | some t ↦ if t == 0 then default else block_number + t
    ] in
    expiration - 1

unfoldable pub get_sender_expiration_threshold : ℕ → ℕ
get_sender_expiration_threshold expiration = expiration + default_number_of_block_confirmations * 2

unfoldable pub get_receiver_expiration_threshold : ℕ → ℕ
get_receiver_expiration_threshold expiration = expiration + default_number_of_block_confirmations

unfoldable pub is_lock_pending : NettingChannelEndState → ℕ → Bool
is_lock_pending e h =
    contains h e.secrethashes_to_lockedlocks
    || contains h e.secrethashes_to_unlockedlocks
    || contains h e.secrethashes_to_onchain_unlockedlocks

unfoldable pub is_lock_locked : NettingChannelEndState → ℕ → Bool
is_lock_locked e h = contains h e.secrethashes_to_lockedlocks

unfoldable pub is_secret_known : NettingChannelEndState → ℕ → Bool
is_secret_known e h =
    contains h e.secrethashes_to_unlockedlocks || contains h e.secrethashes_to_onchain_unlockedlocks

unfoldable pub is_secret_known_offchain : NettingChannelEndState → ℕ → Bool
is_secret_known_offchain e h = contains h e.secrethashes_to_unlockedlocks

unfoldable pub is_secret_known_onchain : NettingChannelEndState → ℕ → Bool
is_secret_known_onchain e h = contains h e.secrethashes_to_onchain_unlockedlocks

unfoldable pub get_secret : NettingChannelEndState → ℕ → Option ℕ
get_secret e h =
    elim (or_else (lookup h e.secrethashes_to_unlockedlocks)
      (lookup h e.secrethashes_to_onchain_unlockedlocks)) [ none ↦ none | some p ↦ some p.secret ]

-- The lock of either partial proof.
abbrev pub lock_of : Option UnlockPartialProofState → Option HashTimeLockState
lock_of none = none
lock_of (some p) = some p.lock

unfoldable pub get_lock : NettingChannelEndState → ℕ → Option HashTimeLockState
get_lock e h = or_else (lookup h e.secrethashes_to_lockedlocks) (
    lock_of (
      or_else (lookup h e.secrethashes_to_unlockedlocks)
        (lookup h e.secrethashes_to_onchain_unlockedlocks)))

unfoldable pub lock_exists_in_either_channel_side : NettingChannelState → ℕ → Bool
unfolding get_lock
lock_exists_in_either_channel_side c h =
    is_some (or_else (get_lock c.our_state h) (get_lock c.partner_state h))

abbrev pub lock_amount : HashTimeLockState → ℕ
lock_amount l = l.amount

abbrev pub unlock_amount : UnlockPartialProofState → ℕ
unlock_amount p = p.lock.amount

unfoldable pub get_amount_unclaimed_onchain : NettingChannelEndState → ℕ
get_amount_unclaimed_onchain e = sum_of unlock_amount e.secrethashes_to_onchain_unlockedlocks

unfoldable pub get_amount_locked : NettingChannelEndState → ℕ
unfolding get_amount_unclaimed_onchain
get_amount_locked e =
    sum_of lock_amount e.secrethashes_to_lockedlocks
    + sum_of unlock_amount e.secrethashes_to_unlockedlocks
    + get_amount_unclaimed_onchain e

unfoldable pub get_capacity : NettingChannelState → ℤ
get_capacity c =
    pos c.our_state.contract_balance
    -ℤ pos (total_withdraw c.our_state)
    +ℤ pos c.partner_state.contract_balance
    -ℤ pos (total_withdraw c.partner_state)

-- `_get_balance`
unfoldable pub balance_with : NettingChannelEndState → NettingChannelEndState → Bool → ℤ
balance_with sender receiver subtract_withdraws =
    let withdraw : ℕ = if subtract_withdraws then total_withdraw sender else 0 in
    pos sender.contract_balance
    -ℤ pos withdraw
    -ℤ pos (transferred_amount sender)
    +ℤ pos (transferred_amount receiver)

unfoldable pub get_balance : NettingChannelEndState → NettingChannelEndState → ℤ
unfolding balance_with
get_balance sender receiver = balance_with sender receiver true

unfoldable pub get_max_withdraw_amount : NettingChannelEndState → NettingChannelEndState → ℤ
unfolding balance_with
get_max_withdraw_amount sender receiver = balance_with sender receiver false

-- The locksroot, nonce, transferred and locked amount of the current balance proof.
unfoldable pub get_current_balanceproof : NettingChannelEndState → ℕ × ℕ × ℕ × ℕ
get_current_balanceproof e = elim e.balance_proof [
  | none ↦ (locksroot_of_no_locks, 0, 0, 0)
  | some b ↦ (
    (proof_fields b).locksroot,
    e.nonce,
    (proof_fields b).transferred_amount,
    get_amount_locked e,
  )
]

unfoldable pub get_distributable : NettingChannelEndState → NettingChannelEndState → ℤ
unfolding get_current_balanceproof
get_distributable sender receiver =
    let (_, _, transferred, locked) = get_current_balanceproof sender in
    let distributable : ℤ = get_balance sender receiver -ℤ pos (get_amount_locked sender) in
    let overflow_limit : ℤ = max_ℤ (pos uint256_max -ℤ pos transferred -ℤ pos locked) (pos 0) in
    min_ℤ overflow_limit distributable

unfoldable pub get_next_nonce : NettingChannelEndState → ℕ
get_next_nonce e = e.nonce + 1

unfoldable pub get_number_of_pending_transfers : NettingChannelEndState → ℕ
get_number_of_pending_transfers e = length e.pending_locks

-- The state of one transaction: done, under way, or failed.
abbrev transaction_state : TransactionExecutionStatus → ChannelState → ChannelState → ChannelState
transaction_state t finished running = elim t.result [
  | some r ↦ elim r [
    | ExecutionResult.success ↦ finished
    | ExecutionResult.failure ↦ elim t.finished_block_number [
      | none ↦ running
      | some _ ↦ ChannelState.unusable
    ]
  ]
  | none ↦ elim t.finished_block_number [ none ↦ running | some _ ↦ ChannelState.unusable ]
]

unfoldable pub get_status : NettingChannelState → ChannelState
get_status c = elim c.settle_transaction [
  | some t ↦ transaction_state t ChannelState.settled ChannelState.settling
  | none ↦ elim c.close_transaction [
    | some t ↦ transaction_state t ChannelState.closed ChannelState.closing
    | none ↦ ChannelState.opened
  ]
]

abbrev pub is_opened : ChannelState → Bool
is_opened ChannelState.opened = true
is_opened _ = false

abbrev pub is_closed : ChannelState → Bool
is_closed ChannelState.closed = true
is_closed _ = false

abbrev pub is_settled : ChannelState → Bool
is_settled ChannelState.settled = true
is_settled _ = false

-- `in CHANNEL_STATES_PRIOR_TO_CLOSED`
abbrev pub is_prior_to_closed : ChannelState → Bool
is_prior_to_closed ChannelState.opened = true
is_prior_to_closed ChannelState.closing = true
is_prior_to_closed _ = false
