-- ===== src/Channel/Receive/Sound.antt =====
-- The handlers of received messages about locks keep the invariant of the channel.
use gatecoin.Common.{
  ℕ, ◌≡◌, refl, Option, none, List, arith, int_laws, ap, ◌∙◌, Returns, Returns-bind, inl, inr,
}
use gatecoin.Externals.{Externals}
use gatecoin.State.{
  BalanceProofSignedState, received, EncodedData, HashTimeLockState, NettingChannelState,
  LockedTransferSignedState, LockedTransferUnsignedState,
}
use gatecoin.Channel.Query.{get_lock}
use gatecoin.Channel.Index.{del_lock-eq, del_unclaimed_lock-eq}
use gatecoin.Channel.Lock.{del_lock, del_unclaimed_lock, compute_locksroot}
use gatecoin.Channel.Check.{
  valid, valid_lockedtransfer_check, is_valid_lockedtransfer, is_valid_refund, is_valid_unlock,
  is_valid_lock_expired,
}
use gatecoin.Channel.Check.Sound.{
  valid-refund, IsReleased, IsExpiry, valid-IsNewLock, checked-cases, valid-IsReleased,
  valid-IsExpiry,
}
use gatecoin.Channel.Invariant.{
  IsSound, IsSound-swap, new_lock-IsSound, old_lock-IsSound, current-IsBacked,
}
use gatecoin.Channel.Receive.{
  take_over, take_over_lock, handle_receive_lockedtransfer, handle_refundtransfer, handle_unlock,
  handle_receive_lock_expired, ReceiveUnlock, ReceiveLockExpired,
}

-- The invariant of the whole channel.
abbrev pub IsSoundChannel : Externals → NettingChannelState → Type 0
IsSoundChannel x c = IsSound x c.our_state c.partner_state

module _ (x : Externals) (c : NettingChannelState) where
  pub accepted-IsSound :
      (b : BalanceProofSignedState) (l : HashTimeLockState) (locks : List EncodedData)
      → IsSoundChannel x c
      → get_lock c.partner_state l.secrethash ≡ none
      → valid_lockedtransfer_check x c c.partner_state c.our_state b l ≡ valid locks
      → IsSound x c.our_state (take_over_lock c.partner_state b locks l)
  accepted-IsSound b l locks h fresh accepted =
      let n = valid-IsNewLock x c c.partner_state c.our_state b l locks accepted in
      let k = current-IsBacked x c.partner_state h.partner_backed in
      rw n.appended (
        IsSound-swap (
          new_lock-IsSound x c.partner_state c.our_state (received b) b.nonce l fresh n.covered
            (n.amounts.0 ∙ ap (compute_locksroot x) n.appended) (n.amounts.1 ∙ k.0)
            (omega (arith, n.amounts.2, k.1)) (IsSound-swap h)))

  -- A received locked transfer under a secrethash that the partner has no lock for leaves a sound
  -- channel sound, whether it is accepted or refused, and our side of the channel unchanged.
  pub handle_receive_lockedtransfer-IsSound :
      (m : LockedTransferSignedState) (metadata : Option ℕ)
      → IsSoundChannel x c
      → get_lock c.partner_state m.lock.secrethash ≡ none
      → let (c', _, _) = handle_receive_lockedtransfer x c m metadata in
        IsSoundChannel x c' × (c'.our_state ≡ c.our_state)
  unfolding handle_receive_lockedtransfer is_valid_lockedtransfer
  handle_receive_lockedtransfer-IsSound m metadata h fresh =
      elim (checked-cases
        (valid_lockedtransfer_check x c c.partner_state c.our_state m.balance_proof m.lock)) [
          | inl (locks, e) ↦
              rw (e, handle_receive_lockedtransfer)
                (accepted-IsSound m.balance_proof m.lock locks h fresh e, refl)
          | inr (r, e) ↦ rw (e, handle_receive_lockedtransfer) (h, refl)
        ]

  -- A received refund under a secrethash that the partner has no lock for leaves a sound channel
  -- sound, whether it is accepted or refused, and our side of the channel unchanged.
  pub handle_refundtransfer-IsSound :
      (t : LockedTransferUnsignedState) (m : LockedTransferSignedState)
      → IsSoundChannel x c
      → get_lock c.partner_state m.lock.secrethash ≡ none
      → let (c', _, _) = handle_refundtransfer x t c m in
        IsSoundChannel x c' × (c'.our_state ≡ c.our_state)
  unfolding handle_refundtransfer
  handle_refundtransfer-IsSound t m h fresh =
      elim (checked-cases (is_valid_refund x m c c.partner_state c.our_state t)) [
        | inl (locks, e) ↦
            rw (e, handle_refundtransfer)
              (
                accepted-IsSound m.balance_proof m.lock locks h fresh
                    (valid-refund x m c c.partner_state c.our_state t locks e).0,
                refl,
              )
        | inr (r, e) ↦ rw (e, handle_refundtransfer) (h, refl)
      ]

  released-IsSound :
      (secrethash : ℕ) (b : BalanceProofSignedState) (l : HashTimeLockState)
      (locks : List EncodedData)
      → IsSoundChannel x c
      → IsReleased x c c.partner_state b secrethash locks l
      → Returns (IsSound x c.our_state) (del_lock (take_over c.partner_state b locks) secrethash)
  unfolding get_lock
  released-IsSound secrethash b l locks h e =
      let k = current-IsBacked x c.partner_state h.partner_backed in
      rw (del_lock-eq (take_over c.partner_state b locks) secrethash l e.known, e.removed)
        (IsSound-swap (
          old_lock-IsSound x c.partner_state c.our_state (received b) b.nonce l secrethash l.amount
            e.known (omega arith) (e.amounts.0 ∙ ap (compute_locksroot x) e.removed)
            (omega (arith, e.amounts.1, k.0)) (omega (int_laws, e.amounts.2, k.1))
            (IsSound-swap h)))

  -- On a sound channel a received unlock is accepted or refused, and no assertion fails: the lock
  -- that an accepted unlock deletes is always pending. The channel is sound afterwards and our
  -- side unchanged.
  pub handle_unlock-IsSound :
      (m : ReceiveUnlock) (metadata : Option ℕ)
      → IsSoundChannel x c
      → Returns
          (λ r. IsSoundChannel x r.0 × (r.0.our_state ≡ c.our_state))
          (handle_unlock x c m metadata)
  unfolding handle_unlock
  handle_unlock-IsSound m metadata h =
      elim (checked-cases
        (is_valid_unlock x (x.sha256 m.secret) m.balance_proof c c.partner_state)) [
          | inl (locks, e) ↦
              let (l, rel) =
                valid-IsReleased x c c.partner_state m.balance_proof (x.sha256 m.secret) locks e in
              rw (e, handle_unlock)
                (Returns-bind (IsSound x c.our_state)
                  (λ r. IsSoundChannel x r.0 × (r.0.our_state ≡ c.our_state))
                  (del_lock (take_over c.partner_state m.balance_proof locks) (x.sha256 m.secret)) _
                  (released-IsSound (x.sha256 m.secret) m.balance_proof l locks h rel)
                  (λ partner sound. (sound, refl)))
          | inr (r, e) ↦ rw (e, handle_unlock) (h, refl)
        ]

  expired-IsSound :
      (secrethash block_number : ℕ) (b : BalanceProofSignedState) (l : HashTimeLockState)
      (locks : List EncodedData)
      → IsSoundChannel x c
      → IsExpiry x c c.partner_state c.our_state b secrethash block_number locks l
      → IsSound x c.our_state (del_unclaimed_lock (take_over c.partner_state b locks) secrethash)
  unfolding get_lock
  expired-IsSound secrethash block_number b l locks h e =
      let k = current-IsBacked x c.partner_state h.partner_backed in
      rw
        (
          del_unclaimed_lock-eq (take_over c.partner_state b locks) secrethash (ground arith),
          e.removed,
        )
        (IsSound-swap (
          old_lock-IsSound x c.partner_state c.our_state (received b) b.nonce l secrethash 0
            (ground arith) (omega arith) (e.amounts.0 ∙ ap (compute_locksroot x) e.removed)
            (omega (arith, e.amounts.1, k.0)) (omega (int_laws, e.amounts.2, k.1))
            (IsSound-swap h)))

  -- A received expiry of a lock leaves a sound channel sound, whether it is accepted or refused,
  -- and our side of the channel unchanged.
  pub handle_receive_lock_expired-IsSound :
      (m : ReceiveLockExpired) (block_number : ℕ) (metadata : Option ℕ)
      → IsSoundChannel x c
      → let (c', _) = handle_receive_lock_expired x c m block_number metadata in
        IsSoundChannel x c' × (c'.our_state ≡ c.our_state)
  unfolding handle_receive_lock_expired
  handle_receive_lock_expired-IsSound m block_number metadata h =
      elim (checked-cases (
        is_valid_lock_expired x m.secrethash m.balance_proof c c.partner_state c.our_state
          block_number)) [
            | inl (locks, e) ↦
                let (l, expiry) =
                  valid-IsExpiry x c c.partner_state c.our_state m.balance_proof m.secrethash
                    block_number locks e in
                rw (e, handle_receive_lock_expired)
                  (expired-IsSound m.secrethash block_number m.balance_proof l locks h expiry, refl)
            | inr (r, e) ↦ rw (e, handle_receive_lock_expired) (h, refl)
          ]
