-- ===== src/Channel/Send/Sound.antt =====
-- What the calls that send locks, unlocks and expiries build, and that they keep the invariant.
use gatecoin.Common.{
  ℕ, ◌+◌, ◌≤◌, ◌<◌, ◌≡◌, refl, true, false, none, List, [], ◌∷◌, ◌++◌, ℤ, pos, pos_part, neg_part,
  ◌≤ℤ◌, arith, ok, raise, Returns, Result-cases, inl, inr, ◌==◌, ◌≢◌, Fault,
}
use gatecoin.Externals.{Externals}
use gatecoin.State.{
  uint256_max, uint64_max, CanonicalIdentifier, BalanceProofUnsignedState, local, EncodedData,
  HashTimeLockState, NettingChannelState, transferred_amount,
}
use gatecoin.Event.{SendLockedTransfer}
use gatecoin.Channel.Query.{
  get_amount_locked, get_distributable, get_lock, get_next_nonce, get_status, is_opened,
  locksroot_of_no_locks,
}
use gatecoin.Channel.Lock.{encoded, has_data, compute_locks_with, compute_locksroot, new_lock}
use gatecoin.Channel.Check.{new_balance_proof, hash_balance_data}
use gatecoin.Channel.Balance.{fits_of_distributable}
use gatecoin.Channel.Index.{with_lock}
use gatecoin.Channel.Invariant.{IsSound, with_proof, IsBacked, current-IsBacked, new_lock-IsSound}
use gatecoin.Channel.Receive.Sound.{IsSoundChannel}
use gatecoin.Channel.Send.{TransferRequest, create_sendlockedtransfer, send_lockedtransfer}

-- The fields of a new balance proof.
pub record HasFields (nonce transferred : ℕ) (locked : ℤ) (locksroot : ℕ)
    (cid : CanonicalIdentifier) (b : BalanceProofUnsignedState) : Type 0 where
  pub nonce_eq : b.nonce ≡ nonce
  pub transferred_eq : b.transferred_amount ≡ transferred
  pub locked_eq : b.locked_amount + neg_part locked ≡ pos_part locked
  pub locksroot_eq : b.locksroot ≡ locksroot
  pub identifier_eq : b.canonical_identifier ≡ cid

module _ (x : Externals) (nonce transferred : ℕ) (locked : ℤ) (locksroot : ℕ)
    (cid : CanonicalIdentifier) where
  pub new_balance_proof-ok :
      (b : BalanceProofUnsignedState)
      → new_balance_proof x nonce transferred locked locksroot cid ≡ ok b
      → HasFields nonce transferred locked locksroot cid b
  unfolding new_balance_proof
  new_balance_proof-ok b h = ground arith

  -- The ranges of the fields of a balance proof.
  pub record InRange : Type 0 where
    pub positive : 0 < nonce
    pub nonce_fits : nonce ≤ uint64_max
    pub transferred_fits : transferred ≤ uint256_max
    pub identifier_fits : cid.channel_identifier ≤ uint256_max
    pub not_negative : neg_part locked ≡ 0
    pub locked_fits : pos_part locked ≤ uint256_max

  abbrev pub built : BalanceProofUnsignedState
  built = record {
    nonce = nonce;
    transferred_amount = transferred;
    locked_amount = pos_part locked;
    locksroot = locksroot;
    canonical_identifier = cid;
    balance_hash = hash_balance_data x transferred (pos_part locked) locksroot;
  }

  -- A balance proof within the ranges of its fields is built.
  pub new_balance_proof_total :
      InRange → new_balance_proof x nonce transferred locked locksroot cid ≡ ok built
  unfolding new_balance_proof
  new_balance_proof_total h = ground arith

module _ (x : Externals) (c : NettingChannelState) (q : TransferRequest) where
  -- The lock that the request asks for.
  abbrev pub requested : HashTimeLockState
  requested = record { amount = q.amount; expiration = q.expiration; secrethash = q.secrethash }

  -- The pending locks with the new one.
  abbrev pub locks_after : List EncodedData
  locks_after = c.our_state.pending_locks ++ encoded requested ∷ []

  -- What a locked transfer that is sent is about.
  pub record IsSent (event : SendLockedTransfer) : Type 0 where
    pub covered : pos q.amount ≤ℤ get_distributable c.our_state c.partner_state
    pub is_open : is_opened (get_status c) ≡ true
    pub fresh : has_data (encoded requested) c.our_state.pending_locks ≡ false
    pub lock_eq : event.transfer.lock ≡ requested
    pub proof :
        HasFields
          (get_next_nonce c.our_state)
          (transferred_amount c.our_state)
          (pos (get_amount_locked c.our_state + q.amount))
          (compute_locksroot x locks_after)
          c.canonical_identifier
          event.transfer.balance_proof

  create-IsSent :
      (event : SendLockedTransfer) (locks : List EncodedData)
      → create_sendlockedtransfer x c q ≡ ok (event, locks)
      → IsSent event × (locks ≡ locks_after)
  unfolding create_sendlockedtransfer new_lock compute_locks_with
  create-IsSent event locks h =
      elim (Result-cases (
        new_balance_proof x (get_next_nonce c.our_state) (transferred_amount c.our_state)
          (pos (get_amount_locked c.our_state + q.amount)) (compute_locksroot x locks_after)
          c.canonical_identifier)) [
            | inl (b, e) ↦ ground (
              arith,
              new_balance_proof-ok x (get_next_nonce c.our_state) (transferred_amount c.our_state)
                  (pos (get_amount_locked c.our_state + q.amount)) (compute_locksroot x locks_after)
                  c.canonical_identifier b e,
            )
            | inr (f, e) ↦ absurd (ground arith)
          ]

  pub send_lockedtransfer-ok :
      (c' : NettingChannelState) (event : SendLockedTransfer)
      → send_lockedtransfer x c q ≡ ok (c', event)
      → IsSent event
        × (c' ≡ record c {
          our_state =
              with_proof
                (with_lock c.our_state locks_after requested)
                (local event.transfer.balance_proof)
                event.transfer.balance_proof.nonce;
        })
  unfolding send_lockedtransfer
  send_lockedtransfer-ok c' event h = elim (Result-cases (create_sendlockedtransfer x c q)) [
    | inl ((ev, locks), e) ↦ ground (arith, create-IsSent ev locks e)
    | inr (f, e) ↦ absurd (ground arith)
  ]

  -- What the caller of `send_lockedtransfer` has to make sure of.
  pub record CanSend : Type 0 where
    pub is_open : is_opened (get_status c) ≡ true
    pub positive : 0 < q.amount
    pub covered : pos q.amount ≤ℤ get_distributable c.our_state c.partner_state
    pub unused : get_lock c.our_state q.secrethash ≡ none
    pub fresh : has_data (encoded requested) c.our_state.pending_locks ≡ false
    pub expiration_fits : q.expiration ≤ uint256_max
    pub nonce_fits : c.our_state.nonce < uint64_max
    pub identifier_fits : c.canonical_identifier.channel_identifier ≤ uint256_max
    pub not_empty : (compute_locksroot x locks_after == locksroot_of_no_locks) ≡ false

  CanSend-InRange :
      IsBacked x c.our_state
      → CanSend
      → InRange x
          (get_next_nonce c.our_state)
          (transferred_amount c.our_state)
          (pos (get_amount_locked c.our_state + q.amount))
          (compute_locksroot x locks_after)
          c.canonical_identifier
  unfolding get_next_nonce
  CanSend-InRange back h = omega (
    arith,
    h,
    current-IsBacked x c.our_state back,
    fits_of_distributable c.our_state c.partner_state q.amount h.positive h.covered,
  )

  -- No assertion fails.
  send_lockedtransfer_total :
      IsBacked x c.our_state → CanSend → (f : Fault) → send_lockedtransfer x c q ≢ raise f
  unfolding send_lockedtransfer create_sendlockedtransfer new_lock compute_locks_with
  send_lockedtransfer_total back h f = ground (
    arith,
    new_balance_proof_total x (get_next_nonce c.our_state) (transferred_amount c.our_state)
        (pos (get_amount_locked c.our_state + q.amount)) (compute_locksroot x locks_after)
        c.canonical_identifier (CanSend-InRange back h),
    current-IsBacked x c.our_state back,
    fits_of_distributable c.our_state c.partner_state q.amount h.positive h.covered,
  )

  pub sent-IsSound :
      (event : SendLockedTransfer)
      → IsSoundChannel x c
      → get_lock c.our_state q.secrethash ≡ none
      → IsSent event
      → IsSound x
          (with_proof
            (with_lock c.our_state locks_after requested)
            (local event.transfer.balance_proof)
            event.transfer.balance_proof.nonce)
          c.partner_state
  sent-IsSound event h unused sent =
      new_lock-IsSound x c.our_state c.partner_state (local event.transfer.balance_proof)
        event.transfer.balance_proof.nonce requested unused sent.covered sent.proof.locksroot_eq
        sent.proof.transferred_eq (omega (arith, sent.proof.locked_eq)) h

  -- On a sound channel that is open, a transfer is sent without a failing assertion when its
  -- amount is positive and at most what can be distributed, its secrethash and its lock are
  -- unused, the numbers fit their types and the new locksroot is not that of no locks. The
  -- channel is sound afterwards and the partner's side unchanged.
  pub send_lockedtransfer-IsSound :
      IsSoundChannel x c
      → CanSend
      → Returns
          (λ r. IsSoundChannel x r.0 × (r.0.partner_state ≡ c.partner_state))
          (send_lockedtransfer x c q)
  send_lockedtransfer-IsSound h can = elim (Result-cases (send_lockedtransfer x c q)) [
    | inl ((c', event), e) ↦
        let (sent, eq) = send_lockedtransfer-ok c' event e in
        rw (e, eq) (sent-IsSound event h can.unused sent, refl)
    | inr (f, e) ↦ absurd (send_lockedtransfer_total h.our_backed can f e)
  ]
