-- ===== src/Channel/Usable.antt =====
-- May a new transfer use the channel: src/gatecoin/transfer/channel.py,
-- `is_channel_usable_for_new_transfer` and `is_channel_usable_for_mediation`; and that what these
-- let through can be sent.
use gatecoin.Common.{
  ℕ, ◌<◌, ◌≤◌, ◌≡◌, ◌*◌, Bool, true, false, not, ◌&&◌, ltb, leb, ◌==◌, if◌then◌else◌, Option, none,
  some, ℤ, pos, ltb_ℤ, arith, Returns,
}
use gatecoin.Externals.{Externals}
use gatecoin.State.{uint256_max, uint64_max, NettingChannelState}
use gatecoin.Channel.Query.{
  get_distributable, get_lock, get_number_of_pending_transfers, get_status, is_opened,
  maximum_pending_transfers, locksroot_of_no_locks,
}
use gatecoin.Channel.Lock.{encoded, has_data, compute_locksroot}
use gatecoin.Channel.Check.{is_valid_amount}
use gatecoin.Channel.Receive.Sound.{IsSoundChannel}
use gatecoin.Channel.Send.{TransferRequest, send_lockedtransfer}
use gatecoin.Channel.Send.Sound.{CanSend, requested, locks_after, send_lockedtransfer-IsSound}

pub data ChannelUsability : Type 0 where
  usable not_opened invalid_settle_timeout channel_reached_pending_limit : ChannelUsability
  channel_doesnt_have_enough_distributable : ChannelUsability
  channel_balance_proof_would_overflow locktimeout_mismatch : ChannelUsability

-- No lock timeout, or one between the reveal timeout and the settle timeout.
abbrev pub lock_timeout_valid : NettingChannelState → Option ℕ → Bool
lock_timeout_valid c none = true
lock_timeout_valid c (some t) = leb t c.settle_timeout && ltb c.reveal_timeout t

unfoldable pub is_channel_usable_for_new_transfer :
    NettingChannelState → ℤ → Option ℕ → ChannelUsability
is_channel_usable_for_new_transfer c amount lock_timeout =
    if not (is_opened (get_status c))
    then not_opened
    else if not (leb (c.reveal_timeout * 2) c.settle_timeout)
    then invalid_settle_timeout
    else if leb maximum_pending_transfers (get_number_of_pending_transfers c.our_state)
    then channel_reached_pending_limit
    else if ltb_ℤ (get_distributable c.our_state c.partner_state) amount
    then channel_doesnt_have_enough_distributable
    else if not (is_valid_amount c.our_state amount)
    then channel_balance_proof_would_overflow
    else if not (lock_timeout_valid c lock_timeout)
    then locktimeout_mismatch
    else usable

unfoldable pub is_channel_usable_for_mediation : NettingChannelState → ℕ → ℕ → Bool
is_channel_usable_for_mediation c amount lock_timeout =
    elim (is_channel_usable_for_new_transfer c (pos amount) (some lock_timeout)) [
      | usable ↦ true
      | not_opened ↦ false
      | invalid_settle_timeout ↦ false
      | channel_reached_pending_limit ↦ false
      | channel_doesnt_have_enough_distributable ↦ false
      | channel_balance_proof_would_overflow ↦ false
      | locktimeout_mismatch ↦ false
    ]

-- What remains for the caller to make sure of: the lock is new, and the numbers fit.
pub record IsNewRequest (x : Externals) (c : NettingChannelState) (q : TransferRequest)
    : Type 0 where
  pub positive : 0 < q.amount
  pub unused : get_lock c.our_state q.secrethash ≡ none
  pub fresh : has_data (encoded (requested x c q)) c.our_state.pending_locks ≡ false
  pub expiration_fits : q.expiration ≤ uint256_max
  pub nonce_fits : c.our_state.nonce < uint64_max
  pub identifier_fits : c.canonical_identifier.channel_identifier ≤ uint256_max
  pub not_empty : (compute_locksroot x (locks_after x c q) == locksroot_of_no_locks) ≡ false

module _ (x : Externals) (c : NettingChannelState) (q : TransferRequest)
    (lock_timeout : Option ℕ) where
  usable-CanSend :
      is_channel_usable_for_new_transfer c (pos q.amount) lock_timeout ≡ usable
      → IsNewRequest x c q
      → CanSend x c q
  unfolding is_channel_usable_for_new_transfer
  usable-CanSend ready h = record {
    is_open = ground arith;
    positive = h.positive;
    covered = ground arith;
    unused = h.unused;
    fresh = h.fresh;
    expiration_fits = h.expiration_fits;
    nonce_fits = h.nonce_fits;
    identifier_fits = h.identifier_fits;
    not_empty = h.not_empty;
  }

  -- When `is_channel_usable_for_new_transfer` lets an amount through on a sound channel, a
  -- transfer of that amount is sent without a failing assertion, if the amount is positive, the
  -- secrethash and the lock are unused, the expiration, the nonce and the channel identifier fit
  -- their types and the new locksroot is not that of no locks. The channel is sound afterwards
  -- and the partner's side unchanged.
  pub usable-send_lockedtransfer :
      IsSoundChannel x c
      → is_channel_usable_for_new_transfer c (pos q.amount) lock_timeout ≡ usable
      → IsNewRequest x c q
      → Returns
          (λ r. IsSoundChannel x r.0 × (r.0.partner_state ≡ c.partner_state))
          (send_lockedtransfer x c q)
  usable-send_lockedtransfer sound ready h =
      send_lockedtransfer-IsSound x c q sound (usable-CanSend ready h)
