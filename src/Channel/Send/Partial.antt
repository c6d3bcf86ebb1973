-- ===== src/Channel/Send/Partial.antt =====
-- The calls of src/gatecoin/transfer/channel.py that send locks, unlocks and expiries keep the
-- invariant whenever they return, with less asked of the caller.
use gatecoin.Common.{
  ℕ, ◌≡◌, ◌≢◌, Option, none, some, pos, ◌-ℤ◌, arith, int_laws, ap, ◌∙◌, ok, IfReturns, Result-cases,
  Option-cases, inl, inr, lookup,
}
use gatecoin.Externals.{Externals}
use gatecoin.State.{
  HashTimeLockState, NettingChannelState, local, transferred_amount, BalanceProofUnsignedState,
}
use gatecoin.Event.{SendUnlock}
use gatecoin.Channel.Query.{get_amount_locked, get_lock, get_next_nonce}
use gatecoin.Channel.Lock.{
  encoded, remove_data, compute_locks_without, compute_locksroot, del_unclaimed_lock,
}
use gatecoin.Channel.Check.{new_balance_proof}
use gatecoin.Channel.Index.{del_unclaimed_lock-eq}
use gatecoin.Channel.Invariant.{old_lock-IsSound}
use gatecoin.Channel.Receive.Sound.{IsSoundChannel}
use gatecoin.Channel.Send.{
  TransferRequest, send_lockedtransfer, UnlockRequest, send_unlock, send_lock_expired,
  create_sendexpiredlock,
}
use gatecoin.Channel.Send.Sound.{
  send_lockedtransfer-ok, sent-IsSound, HasFields, new_balance_proof-ok,
}
use gatecoin.Channel.Send.Release.{send_unlock-ok}

module _ (x : Externals) (c : NettingChannelState) (s : IsSoundChannel x c) where
  pub send_lockedtransfer-IfReturns :
      (q : TransferRequest)
      → get_lock c.our_state q.secrethash ≡ none
      → IfReturns (λ r. IsSoundChannel x r.0) (send_lockedtransfer x c q)
  send_lockedtransfer-IfReturns q unused = elim (Result-cases (send_lockedtransfer x c q)) [
    | inl ((c', event), e) ↦
        let (sent, eq) = send_lockedtransfer-ok x c q c' event e in
        rw (e, eq) (sent-IsSound x c q event s unused sent)
    | inr (f, e) ↦ rw e tt
  ]

  unlock_unknown :
      (q : UnlockRequest) (h : ℕ) (r : NettingChannelState × SendUnlock)
      → get_lock c.our_state h ≡ none
      → send_unlock x c q h ≢ ok r
  unfolding send_unlock
  unlock_unknown q h r unknown e = ground arith

  pub send_unlock-IfReturns :
      (q : UnlockRequest) (h : ℕ) → IfReturns (λ r. IsSoundChannel x r.0) (send_unlock x c q h)
  send_unlock-IfReturns q h = elim (Result-cases (send_unlock x c q h)) [
    | inl ((c', event), e) ↦ elim (Option-cases (get_lock c.our_state h)) [
      | inl unknown ↦ absurd (unlock_unknown q h (c', event) unknown e)
      | inr (l, here) ↦
          let (u, eq) = send_unlock-ok x c q l h c' event here e in
          rw (e, eq)
            (old_lock-IsSound x c.our_state c.partner_state (local event.balance_proof)
              (get_next_nonce c.our_state) l l.secrethash l.amount
              (ap (get_lock c.our_state) (s.our_index.listed h l here).0 ∙ here) (omega arith)
              u.proof.locksroot_eq (omega (arith, u.proof.transferred_eq))
              (omega (int_laws, u.proof.locked_eq)) s)
    ]
    | inr (f, e) ↦ rw e tt
  ]

  -- Our side after the expiry of a lock.
  expired-IsSound :
      (l : HashTimeLockState) (b : BalanceProofUnsignedState)
      → get_lock c.our_state l.secrethash ≡ some l
      → lookup l.secrethash c.our_state.secrethashes_to_onchain_unlockedlocks ≡ none
      → HasFields
          (get_next_nonce c.our_state)
          (transferred_amount c.our_state)
          (pos (get_amount_locked c.our_state) -ℤ pos l.amount)
          (compute_locksroot x (remove_data (encoded l) c.our_state.pending_locks))
          c.canonical_identifier
          b
      → IsSoundChannel x (record c {
        our_state =
            del_unclaimed_lock
              (record (c.our_state) {
                pending_locks = remove_data (encoded l) c.our_state.pending_locks;
                balance_proof = some (local b);
                nonce = b.nonce;
              })
              l.secrethash;
      })
  expired-IsSound l b here not_onchain f =
      rw
        (del_unclaimed_lock-eq
          (record (c.our_state) {
            pending_locks = remove_data (encoded l) c.our_state.pending_locks;
            balance_proof = some (local b);
            nonce = b.nonce;
          })
          l.secrethash not_onchain)
        (old_lock-IsSound x c.our_state c.partner_state (local b) b.nonce l l.secrethash 0 here
          (omega arith) f.locksroot_eq (omega (arith, f.transferred_eq))
          (omega (int_laws, f.locked_eq)) s)

  pub send_lock_expired-IfReturns :
      (l : HashTimeLockState) (prng : ℕ) (metadata : Option ℕ)
      → get_lock c.our_state l.secrethash ≡ some l
      → lookup l.secrethash c.our_state.secrethashes_to_onchain_unlockedlocks ≡ none
      → IfReturns (λ r. IsSoundChannel x r.0) (send_lock_expired x c l prng metadata)
  unfolding send_lock_expired create_sendexpiredlock compute_locks_without transferred_amount
  send_lock_expired-IfReturns l prng metadata here not_onchain =
      elim (Result-cases (
        new_balance_proof x (get_next_nonce c.our_state) (transferred_amount c.our_state)
          (pos (get_amount_locked c.our_state) -ℤ pos l.amount)
          (compute_locksroot x (remove_data (encoded l) c.our_state.pending_locks))
          c.canonical_identifier)) [
            | inl (b, e) ↦ ground (
              arith,
              expired-IsSound l b here not_onchain (
                  new_balance_proof-ok x (get_next_nonce c.our_state)
                    (transferred_amount c.our_state)
                    (pos (get_amount_locked c.our_state) -ℤ pos l.amount)
                    (compute_locksroot x (remove_data (encoded l) c.our_state.pending_locks))
                    c.canonical_identifier b e),
            )
            | inr (f, e) ↦ ground arith
          ]
