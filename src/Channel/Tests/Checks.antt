-- ===== src/Channel/Tests/Checks.antt =====
-- The checks of received balance proofs at concrete values: src/gatecoin/transfer/channel.py.
use gatecoin.Common.{◌≡◌, ◌↔◌, [], ◌∷◌}
use gatecoin.State.{HashTimeLockState}
use gatecoin.Channel.Check.{
  valid, valid_lockedtransfer_check, is_valid_unlock, is_valid_lock_expired,
}
use gatecoin.Channel.Check.Sound.{IsNewLock, IsReleased, IsExpiry}
use gatecoin.Channel.Check.Accepts.{
  lockedtransfer_accepted_iff, unlock_accepted_iff, lock_expired_accepted_iff,
}
use gatecoin.Channel.Tests.{
  toy, side, channel, signed, first_proof, lock, theirs, unlock_proof, expired_proof,
}

lockedtransfer_accepted_iff_example :
    let c = channel (side 2) (side 1) in
    (valid_lockedtransfer_check toy c (side 1) (side 2) (signed 1 first_proof) lock
      ≡ valid ((50, 10, 107) ∷ []))
    ↔ IsNewLock toy c (side 1) (side 2) (signed 1 first_proof) lock ((50, 10, 107) ∷ [])
lockedtransfer_accepted_iff_example =
    lockedtransfer_accepted_iff toy (channel (side 2) (side 1)) (side 1) (side 2)
      (signed 1 first_proof) ((50, 10, 107) ∷ []) lock

unlock_accepted_iff_example :
    (is_valid_unlock toy 107 (signed 1 unlock_proof) theirs theirs.partner_state ≡ valid []) ↔ (
      (l : HashTimeLockState) × IsReleased toy theirs theirs.partner_state
        (signed 1 unlock_proof)
        107
        []
        l)
unlock_accepted_iff_example =
    unlock_accepted_iff toy theirs theirs.partner_state theirs.our_state (signed 1 unlock_proof) []
      107

lock_expired_accepted_iff_example :
    (is_valid_lock_expired toy 107
        (signed 1 expired_proof)
        theirs
        theirs.partner_state
        theirs.our_state
        60
      ≡ valid [])
    ↔ ((l : HashTimeLockState) × IsExpiry toy theirs theirs.partner_state theirs.our_state
          (signed 1 expired_proof)
          107
          60
          []
          l)
lock_expired_accepted_iff_example =
    lock_expired_accepted_iff toy theirs theirs.partner_state theirs.our_state
      (signed 1 expired_proof) [] 107 60
