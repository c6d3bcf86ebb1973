-- ===== src/Channel/WithdrawCheck.antt =====
-- The checks of withdraws and cooperative settles: src/gatecoin/transfer/channel.py,
-- `is_withdraw_expired`, `is_valid_withdraw` and from `is_valid_total_withdraw` to
-- `is_valid_withdraw_expired`, with the messages of src/gatecoin/transfer/state_change.py.
use gatecoin.Common.{
  ℕ, ◌+◌, Bool, true, not, ◌&&◌, ltb, leb, ◌==◌, if◌then◌else◌, Option, none, some, List, [], ◌∷◌,
  lookup, ℤ, pos, ◌+ℤ◌, ◌-ℤ◌, ltb_ℤ, leb_ℤ, eqb_ℤ,
}
use gatecoin.Externals.{Externals}
use gatecoin.State.{
  uint256_max, CanonicalIdentifier, same_identifier, ExpiredWithdrawState, PendingWithdrawState,
  NettingChannelEndState, NettingChannelState, offchain_total_withdraw, total_withdraw,
}
use gatecoin.Event.{Reason}
use gatecoin.Channel.Query.{
  get_balance, get_next_nonce, get_number_of_pending_transfers, get_receiver_expiration_threshold,
  get_status, is_opened,
}
use gatecoin.Channel.Check.{SuccessOrError, success, error, is_valid_signature}

pub record ReceiveWithdrawRequest : Type 0 where
  pub sender : ℕ
  pub message_identifier : ℕ
  pub canonical_identifier : CanonicalIdentifier
  pub total_withdraw : ℕ
  pub nonce : ℕ
  pub expiration : ℕ
  pub signature : ℕ
  pub participant : ℕ
  pub coop_settle : Bool
  pub sender_metadata : Option ℕ

pub record ReceiveWithdrawConfirmation : Type 0 where
  pub sender : ℕ
  pub message_identifier : ℕ
  pub canonical_identifier : CanonicalIdentifier
  pub total_withdraw : ℕ
  pub nonce : ℕ
  pub expiration : ℕ
  pub signature : ℕ
  pub participant : ℕ

pub record ReceiveWithdrawExpired : Type 0 where
  pub sender : ℕ
  pub message_identifier : ℕ
  pub canonical_identifier : CanonicalIdentifier
  pub total_withdraw : ℕ
  pub expiration : ℕ
  pub nonce : ℕ
  pub participant : ℕ

unfoldable pub is_withdraw_expired : ℕ → ℕ → Bool
is_withdraw_expired block_number threshold = leb threshold block_number

unfoldable pub is_valid_channel_total_withdraw : ℤ → Bool
is_valid_channel_total_withdraw total = leb_ℤ total (pos uint256_max)

-- The signature of a request or a confirmation, with the fields that it covers.
unfoldable pub is_valid_withdraw :
    Externals → CanonicalIdentifier → ℕ → ℕ → ℕ → ℕ → ℕ → SuccessOrError
is_valid_withdraw x cid participant total expiration signature sender =
    is_valid_signature x
      (x.pack_withdraw cid.token_network_address cid.chain_identifier cid.channel_identifier
        participant total expiration)
      signature sender

unfoldable pub is_valid_total_withdraw : NettingChannelState → ℤ → Bool → SuccessOrError
is_valid_total_withdraw c our_total allow_zero =
    let balance = get_balance c.our_state c.partner_state in
    let amount = our_total -ℤ pos (total_withdraw c.our_state) in
    if not (is_opened (get_status c))
    then error Reason.channel_not_opened
    else if ltb_ℤ amount (pos 0)
    then error Reason.withdraw_decreased
    else if not allow_zero && eqb_ℤ amount (pos 0)
    then error Reason.withdraw_did_not_increase
    else if ltb_ℤ balance amount
    then error Reason.insufficient_balance
    else if not
        (is_valid_channel_total_withdraw (our_total +ℤ pos (total_withdraw c.partner_state)))
    then error Reason.withdraw_overflow
    else success

unfoldable pub is_valid_action_coopsettle : NettingChannelState → ℤ → SuccessOrError
is_valid_action_coopsettle c our_total = elim (is_valid_total_withdraw c our_total true) [
  | error r ↦ error r
  | success ↦
      if ltb 0 (get_number_of_pending_transfers c.our_state)
      then error Reason.our_locks_pending
      else if ltb 0 (get_number_of_pending_transfers c.partner_state)
      then error Reason.partner_locks_pending
      else if ltb 0 (offchain_total_withdraw c.our_state)
      then error Reason.our_withdraws_pending
      else if ltb 0 (offchain_total_withdraw c.partner_state)
      then error Reason.partner_withdraws_pending
      else success
]

unfoldable pub is_valid_withdraw_request :
    Externals → NettingChannelState → ReceiveWithdrawRequest → SuccessOrError
is_valid_withdraw_request x c m =
    let balance = get_balance c.partner_state c.our_state in
    let amount = pos m.total_withdraw -ℤ pos (total_withdraw c.partner_state) in
    if not (same_identifier c.canonical_identifier m.canonical_identifier)
    then error Reason.identifier_mismatch
    else if not (m.participant == c.partner_state.address)
    then error Reason.invalid_participant
    else if not (m.sender == c.partner_state.address)
    then error Reason.invalid_sender
    else if ltb_ℤ amount (pos 0)
    then error Reason.withdraw_decreased
    else if ltb_ℤ balance amount
    then error Reason.insufficient_balance
    else if not (m.nonce == get_next_nonce c.partner_state)
    then error Reason.nonce_not_sequential
    else if not
        (is_valid_channel_total_withdraw (pos (m.total_withdraw + total_withdraw c.our_state)))
    then error Reason.withdraw_overflow
    else is_valid_withdraw x m.canonical_identifier m.participant m.total_withdraw m.expiration
        m.signature m.sender

-- The expiration of the first expired withdraw of this total.
unfoldable pub find_expired : ℕ → List ExpiredWithdrawState → Option ℕ
find_expired total [] = none
find_expired total (w ∷ ws) =
    if w.total_withdraw == total then some w.expiration else find_expired total ws

-- The expiration of the withdraw that a confirmation is for: a pending one, or an expired one.
unfoldable pub requested_expiration : NettingChannelEndState → ℕ → Option ℕ
requested_expiration e total = elim (lookup total e.withdraws_pending) [
  | some w ↦ some w.expiration
  | none ↦ find_expired total e.withdraws_expired
]

unfoldable pub is_valid_withdraw_confirmation :
    Externals → NettingChannelState → ReceiveWithdrawConfirmation → SuccessOrError
is_valid_withdraw_confirmation x c m = elim (requested_expiration c.our_state m.total_withdraw) [
  | none ↦ error Reason.withdraw_not_found
  | some expiration ↦
      if not (same_identifier c.canonical_identifier m.canonical_identifier)
      then error Reason.identifier_mismatch
      else if not (m.total_withdraw == total_withdraw c.our_state)
      then error Reason.total_withdraw_mismatch
      else if not (m.nonce == get_next_nonce c.partner_state)
      then error Reason.nonce_not_sequential
      else if not (m.expiration == expiration)
      then error Reason.expiration_mismatch
      else if not (m.participant == c.our_state.address)
      then error Reason.invalid_participant
      else if not (m.sender == c.partner_state.address)
      then error Reason.invalid_sender
      else if not (
          is_valid_channel_total_withdraw (pos (m.total_withdraw + total_withdraw c.partner_state)))
      then error Reason.withdraw_overflow
      else is_valid_withdraw x m.canonical_identifier m.participant m.total_withdraw m.expiration
          m.signature m.sender
]

unfoldable pub is_valid_withdraw_expired :
    NettingChannelState → ReceiveWithdrawExpired → PendingWithdrawState → ℕ → SuccessOrError
unfolding is_withdraw_expired
is_valid_withdraw_expired c m w block_number =
    if not (is_withdraw_expired block_number (get_receiver_expiration_threshold w.expiration))
    then error Reason.withdraw_not_expired
    else if not (same_identifier c.canonical_identifier m.canonical_identifier)
    then error Reason.identifier_mismatch
    else if not (m.sender == c.partner_state.address)
    then error Reason.invalid_sender
    else if not (m.total_withdraw == w.total_withdraw)
    then error Reason.total_withdraw_mismatch
    else if not (m.nonce == get_next_nonce c.partner_state)
    then error Reason.nonce_not_sequential
    else success
