-- ===== src/Channel/Check/Sound.antt =====
-- When the checks of received balance proofs and locks succeed.
use gatecoin.Common.{
  ℕ, ◌+◌, ◌≤◌, ◌≡◌, true, false, Option, some, List, [], ◌∷◌, ◌++◌, length, ℤ, pos, pos_part,
  neg_part, or_else, lookup, contains, ◌≤ℤ◌, ◌-ℤ◌, arith, refl, Option-cases, Bool-cases, inl, inr,
  ◌⊎◌,
}
use gatecoin.Externals.{Externals}
use gatecoin.State.{
  uint256_max, BalanceProofSignedState, EncodedData, HashTimeLockState, NettingChannelEndState,
  NettingChannelState, LockedTransferSignedState, LockedTransferUnsignedState,
}
use gatecoin.Event.{Reason}
use gatecoin.Channel.Query.{
  get_current_balanceproof, get_distributable, get_lock, get_next_nonce, get_status,
  maximum_pending_transfers, is_opened, lock_of, get_receiver_expiration_threshold,
  default_number_of_block_confirmations,
}
use gatecoin.Channel.Lock.{
  encoded, has_data, remove_data, compute_locks_with, compute_locks_without, compute_locksroot,
}
use gatecoin.Channel.Check.{
  SuccessOrError, success, error, PendingLocksStateOrError, valid, invalid, check_amounts,
  check_usable, is_balance_proof_usable_onchain, is_balance_proof_safe_for_onchain_operations,
  is_valid_balanceproof_signature, valid_lockedtransfer_check, is_valid_unlock, is_lock_expired,
  is_valid_lock_expired, is_valid_refund, refund_transfer_matches_transfer,
}

-- A balance proof that the contract accepts after the ones received before.
pub record IsUsable (x : Externals) (b : BalanceProofSignedState) (c : NettingChannelState)
    (sender : NettingChannelEndState) : Type 0 where
  pub is_open : is_opened (get_status c) ≡ true
  pub channel :
      b.canonical_identifier.channel_identifier ≡ c.canonical_identifier.channel_identifier
  pub network :
      b.canonical_identifier.token_network_address ≡ c.canonical_identifier.token_network_address
  pub chain : b.canonical_identifier.chain_identifier ≡ c.canonical_identifier.chain_identifier
  pub fits : b.transferred_amount + b.locked_amount ≤ uint256_max
  pub next_nonce : b.nonce ≡ get_next_nonce sender
  pub signed : is_valid_balanceproof_signature x b sender.address ≡ success

module _ (x : Externals) (b : BalanceProofSignedState) (c : NettingChannelState)
    (sender : NettingChannelEndState) where
  pub success-IsUsable :
      is_balance_proof_usable_onchain x b c sender ≡ success → IsUsable x b c sender
  unfolding is_balance_proof_usable_onchain is_balance_proof_safe_for_onchain_operations
  success-IsUsable h = ground arith

  pub IsUsable-success :
      IsUsable x b c sender → is_balance_proof_usable_onchain x b c sender ≡ success
  unfolding is_balance_proof_usable_onchain is_balance_proof_safe_for_onchain_operations
  IsUsable-success h = ground arith

pub checked-cases :
    (p : PendingLocksStateOrError)
    → ((locks : List EncodedData) × (p ≡ valid locks)) ⊎ ((r : Reason) × (p ≡ invalid r))
checked-cases (valid locks) = inl (locks, refl)
checked-cases (invalid r) = inr (r, refl)

pub check_usable-valid :
    (s : SuccessOrError) (next : PendingLocksStateOrError) (locks : List EncodedData)
    → check_usable s next ≡ valid locks
    → (s ≡ success) × (next ≡ valid locks)
check_usable-valid success next locks h = (refl, h)
check_usable-valid (error r) next locks h = cc

-- The balance proof has these amounts.
abbrev pub HasAmounts : BalanceProofSignedState → ℕ → ℕ → ℤ → Type 0
HasAmounts b locksroot transferred locked =
    (b.locksroot ≡ locksroot)
    × (b.transferred_amount ≡ transferred)
    × (b.locked_amount + neg_part locked ≡ pos_part locked)

pub check_amounts-valid :
    (b : BalanceProofSignedState) (locksroot transferred : ℕ) (locked : ℤ)
    (next : PendingLocksStateOrError) (locks : List EncodedData)
    → check_amounts b locksroot transferred locked next ≡ valid locks
    → HasAmounts b locksroot transferred locked × (next ≡ valid locks)
check_amounts-valid b locksroot transferred locked next locks h = ground arith

module _ (x : Externals) (c : NettingChannelState) (s r : NettingChannelEndState)
    (b : BalanceProofSignedState) (l : HashTimeLockState) (locks : List EncodedData) where
  -- What makes a locked transfer acceptable.
  pub record IsNewLock : Type 0 where
    pub usable : IsUsable x b c s
    pub fresh : has_data (encoded l) s.pending_locks ≡ false
    pub appended : locks ≡ s.pending_locks ++ encoded l ∷ []
    pub few : length locks ≤ maximum_pending_transfers
    pub amounts :
        HasAmounts b
          (compute_locksroot x locks)
          (get_current_balanceproof s).2
          (pos ((get_current_balanceproof s).3 + l.amount))
    pub covered : pos l.amount ≤ℤ get_distributable s r

  pub valid-IsNewLock : valid_lockedtransfer_check x c s r b l ≡ valid locks → IsNewLock
  unfolding valid_lockedtransfer_check compute_locks_with
  valid-IsNewLock h = elim (Bool-cases (has_data (encoded l) s.pending_locks)) [
    | inl old ↦ absurd (ground arith)
    | inr new ↦ ground (arith, success-IsUsable x b c s)
  ]

  pub IsNewLock-valid : IsNewLock → valid_lockedtransfer_check x c s r b l ≡ valid locks
  unfolding valid_lockedtransfer_check compute_locks_with
  IsNewLock-valid h = ground (arith, IsUsable-success x b c s h.usable)

module _ (x : Externals) (c : NettingChannelState) (s : NettingChannelEndState)
    (b : BalanceProofSignedState) (h : ℕ) (locks : List EncodedData) where
  -- What makes an unlock acceptable, for its lock.
  pub record IsReleased (l : HashTimeLockState) : Type 0 where
    pub usable : IsUsable x b c s
    pub known : get_lock s h ≡ some l
    pub listed : has_data (encoded l) s.pending_locks ≡ true
    pub removed : locks ≡ remove_data (encoded l) s.pending_locks
    pub amounts :
        HasAmounts b
          (compute_locksroot x locks)
          ((get_current_balanceproof s).2 + l.amount)
          (pos (get_current_balanceproof s).3 -ℤ pos l.amount)

  pub valid-IsReleased :
      is_valid_unlock x h b c s ≡ valid locks → (l : HashTimeLockState) × IsReleased l
  unfolding is_valid_unlock compute_locks_without
  valid-IsReleased e = elim (Option-cases (get_lock s h)) [
    | inl unknown ↦ absurd (ground arith)
    | inr (l, known) ↦ (l, ground (arith, success-IsUsable x b c s))
  ]

  pub IsReleased-valid :
      (l : HashTimeLockState) → IsReleased l → is_valid_unlock x h b c s ≡ valid locks
  unfolding is_valid_unlock compute_locks_without
  IsReleased-valid l e = ground (arith, IsUsable-success x b c s e.usable)

-- The lock of a secrethash that has not been unlocked on chain.
abbrev pub unclaimed_lock : NettingChannelEndState → ℕ → Option HashTimeLockState
unclaimed_lock e h =
    or_else (lookup h e.secrethashes_to_lockedlocks)
      (lock_of (lookup h e.secrethashes_to_unlockedlocks))

module _ (x : Externals) (c : NettingChannelState) (s r : NettingChannelEndState)
    (b : BalanceProofSignedState) (h block_number : ℕ) (locks : List EncodedData) where
  -- What makes the expiry of a lock acceptable, for the lock.
  pub record IsExpiry (l : HashTimeLockState) : Type 0 where
    pub usable : IsUsable x b c s
    pub not_onchain : contains h c.partner_state.secrethashes_to_onchain_unlockedlocks ≡ false
    pub known : unclaimed_lock c.partner_state h ≡ some l
    pub listed : has_data (encoded l) s.pending_locks ≡ true
    pub removed : locks ≡ remove_data (encoded l) s.pending_locks
    pub not_received : contains l.secrethash r.secrethashes_to_onchain_unlockedlocks ≡ false
    pub over : l.expiration + default_number_of_block_confirmations ≤ block_number
    pub amounts :
        HasAmounts b
          (compute_locksroot x locks)
          (get_current_balanceproof s).2
          (pos (get_current_balanceproof s).3 -ℤ pos l.amount)

  pub valid-IsExpiry :
      is_valid_lock_expired x h b c s r block_number ≡ valid locks
      → (l : HashTimeLockState) × IsExpiry l
  unfolding is_valid_lock_expired compute_locks_without is_lock_expired
      get_receiver_expiration_threshold
  valid-IsExpiry e = elim (Option-cases (unclaimed_lock c.partner_state h)) [
    | inl unknown ↦ absurd (ground arith)
    | inr (l, known) ↦ (l, ground (arith, success-IsUsable x b c s))
  ]

  pub IsExpiry-valid :
      (l : HashTimeLockState)
      → IsExpiry l
      → is_valid_lock_expired x h b c s r block_number ≡ valid locks
  unfolding is_valid_lock_expired compute_locks_without is_lock_expired
      get_receiver_expiration_threshold
  IsExpiry-valid l e = ground (arith, IsUsable-success x b c s e.usable)

-- A valid refund is a valid locked transfer that mirrors the transfer which was sent.
pub valid-refund :
    (x : Externals) (m : LockedTransferSignedState) (c : NettingChannelState)
    (s r : NettingChannelEndState) (t : LockedTransferUnsignedState) (locks : List EncodedData)
    → is_valid_refund x m c s r t ≡ valid locks
    → (valid_lockedtransfer_check x c s r m.balance_proof m.lock ≡ valid locks)
      × (refund_transfer_matches_transfer m t ≡ true)
unfolding is_valid_refund
valid-refund x m c s r t locks h = ground arith
