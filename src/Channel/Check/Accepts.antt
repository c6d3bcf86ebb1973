-- ===== src/Channel/Check/Accepts.antt =====
-- What the checks of src/gatecoin/transfer/channel.py accept, beside the descriptions of it in
-- Sound.antt.
use gatecoin.Common.{ℕ, ◌≡◌, ◌↔◌, List}
use gatecoin.Externals.{Externals}
use gatecoin.State.{
  BalanceProofSignedState, EncodedData, HashTimeLockState, NettingChannelEndState,
  NettingChannelState,
}
use gatecoin.Channel.Check.{
  valid, valid_lockedtransfer_check, is_valid_unlock, is_valid_lock_expired,
}
use gatecoin.Channel.Check.Sound.{
  IsNewLock, valid-IsNewLock, IsNewLock-valid, IsReleased, valid-IsReleased, IsReleased-valid,
  IsExpiry, valid-IsExpiry, IsExpiry-valid,
}

module _ (x : Externals) (c : NettingChannelState) (s r : NettingChannelEndState)
    (b : BalanceProofSignedState) (locks : List EncodedData) where
  -- The check of a locked transfer accepts with a list of locks exactly when the balance proof is
  -- usable on chain (open channel, right identifiers, no overflow, next nonce, signed by the
  -- sender), the lock is new and the list is the pending ones with it, there are not too many,
  -- the locksroot and the amounts are those after the lock, and its amount can be distributed.
  pub lockedtransfer_accepted_iff :
      (l : HashTimeLockState)
      → (valid_lockedtransfer_check x c s r b l ≡ valid locks) ↔ IsNewLock x c s r b l locks
  lockedtransfer_accepted_iff l =
      (valid-IsNewLock x c s r b l locks, IsNewLock-valid x c s r b l locks)

  -- The check of an unlock accepts with a list of locks exactly when the balance proof is usable
  -- on chain, the secrethash is that of a known lock which is pending, the list is the pending
  -- ones without it, the locksroot and the locked amount are those after its removal, and the
  -- transferred amount has grown by the lock's.
  pub unlock_accepted_iff :
      (h : ℕ)
      → (is_valid_unlock x h b c s ≡ valid locks)
        ↔ ((l : HashTimeLockState) × IsReleased x c s b h locks l)
  unlock_accepted_iff h = (
    valid-IsReleased x c s b h locks,
    λ (l, released). IsReleased-valid x c s b h locks l released,
  )

  -- The check of an expiry accepts with a list of locks exactly when the balance proof is usable
  -- on chain, the secrethash is that of a pending lock of the partner's which is not unlocked on
  -- chain on either side, the block is past its expiration by the number of confirmations, the
  -- list is the pending locks without it, the locksroot and the locked amount are those after its
  -- removal, and the transferred amount has not changed.
  pub lock_expired_accepted_iff :
      (h block_number : ℕ)
      → (is_valid_lock_expired x h b c s r block_number ≡ valid locks)
        ↔ ((l : HashTimeLockState) × IsExpiry x c s r b h block_number locks l)
  lock_expired_accepted_iff h block_number = (
    valid-IsExpiry x c s r b h block_number locks,
    λ (l, expiry). IsExpiry-valid x c s r b h block_number locks l expiry,
  )
