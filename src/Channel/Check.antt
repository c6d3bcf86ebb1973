-- ===== src/Channel/Check.antt =====
-- The checks of received balance proofs and locks: src/gatecoin/transfer/channel.py, from
-- `is_lock_expired` to `is_valid_unlock`, with `hash_balance_data` of
-- src/gatecoin/transfer/utils/__init__.py and the constructor of `BalanceProofUnsignedState` in
-- src/gatecoin/transfer/architecture.py.
pub mod Sound
pub mod Accepts
use gatecoin.Common.{
  ℕ, ◌+◌, Bool, true, false, not, ◌&&◌, ltb, leb, ◌==◌, if◌then◌else◌, Option, none, some, is_some,
  or_else, List, [], ◌∷◌, length, lookup, contains, ℤ, pos, pos_part, neg_part, ◌+ℤ◌, ◌-ℤ◌, leb_ℤ,
  ltb_ℤ, eqb_ℤ, Result, ok, assert, ◌>>=◌, ◌>>◌, Fault,
}
use gatecoin.Externals.{Externals}
use gatecoin.State.{
  uint256_max, uint64_max, CanonicalIdentifier, BalanceProofUnsignedState, BalanceProofSignedState,
  EncodedData, HashTimeLockState, NettingChannelEndState, NettingChannelState,
  LockedTransferSignedState, LockedTransferUnsignedState,
}
use gatecoin.Event.{Reason}
use gatecoin.Channel.Query.{
  get_current_balanceproof, get_distributable, get_lock, get_next_nonce, get_status, is_opened,
  get_receiver_expiration_threshold, get_sender_expiration_threshold, lock_of,
  maximum_pending_transfers, locksroot_of_no_locks,
}
use gatecoin.Channel.Lock.{encoded, compute_locks_with, compute_locks_without, compute_locksroot}

pub data SuccessOrError : Type 0 where
  success : SuccessOrError
  error : Reason → SuccessOrError

-- `PendingLocksStateOrError`
pub data PendingLocksStateOrError : Type 0 where
  valid : List EncodedData → PendingLocksStateOrError
  invalid : Reason → PendingLocksStateOrError

abbrev pub is_ok : SuccessOrError → Bool
is_ok success = true
is_ok (error _) = false

-- The hash of the two amounts and the locksroot; 0 stands for `EMPTY_HASH`.
unfoldable pub hash_balance_data : Externals → ℕ → ℕ → ℕ → ℕ
hash_balance_data x transferred locked locksroot =
    if transferred == 0 && locked == 0 && locksroot == locksroot_of_no_locks
    then 0
    else x.keccak (transferred ∷ locked ∷ locksroot ∷ [])

-- `BalanceProofUnsignedState(…)`. The locked amount is a difference; `to_bytes` refuses it when it
-- is negative or takes more than 32 bytes.
unfoldable pub new_balance_proof :
    Externals → ℕ → ℕ → ℤ → ℕ → CanonicalIdentifier → Result BalanceProofUnsignedState
new_balance_proof x nonce transferred locked locksroot cid = do
  assert (ltb 0 nonce) Fault.nonce_not_positive
  assert (leb nonce uint64_max) Fault.nonce_too_large
  assert (leb transferred uint256_max) Fault.transferred_amount_too_large
  assert (leb cid.channel_identifier uint256_max) Fault.channel_id_invalid
  assert (neg_part locked == 0 && leb (pos_part locked) uint256_max)
      Fault.locked_amount_out_of_range
  ok (record {
    nonce = nonce;
    transferred_amount = transferred;
    locked_amount = pos_part locked;
    locksroot = locksroot;
    canonical_identifier = cid;
    balance_hash = hash_balance_data x transferred (pos_part locked) locksroot;
  })

unfoldable pub is_lock_expired : NettingChannelEndState → HashTimeLockState → ℕ → ℕ → SuccessOrError
is_lock_expired e l block_number threshold =
    if contains l.secrethash e.secrethashes_to_onchain_unlockedlocks
    then error Reason.lock_unlocked_onchain
    else if ltb block_number threshold
    then error Reason.lock_not_yet_expired
    else success

unfoldable pub is_transfer_expired : LockedTransferSignedState → NettingChannelState → ℕ → Bool
unfolding is_lock_expired
is_transfer_expired t c block_number = is_ok (
    is_lock_expired c.our_state t.lock block_number
      (get_sender_expiration_threshold t.lock.expiration))

unfoldable pub is_balance_proof_safe_for_onchain_operations : BalanceProofSignedState → Bool
is_balance_proof_safe_for_onchain_operations b =
    leb (b.transferred_amount + b.locked_amount) uint256_max

unfoldable pub is_valid_amount : NettingChannelEndState → ℤ → Bool
is_valid_amount e amount =
    let (_, _, transferred, locked) = get_current_balanceproof e in
    leb_ℤ (pos (transferred + locked) +ℤ amount) (pos uint256_max)

unfoldable pub is_valid_signature : Externals → List ℕ → ℕ → ℕ → SuccessOrError
is_valid_signature x signed signature sender = elim (x.recover signed signature) [
  | none ↦ error Reason.signature_not_recovered
  | some signer ↦ if sender == signer then success else error Reason.signature_of_another
]

unfoldable pub is_valid_balanceproof_signature :
    Externals → BalanceProofSignedState → ℕ → SuccessOrError
unfolding is_valid_signature
is_valid_balanceproof_signature x b sender =
    is_valid_signature x
      (x.pack_balance_proof b.canonical_identifier.token_network_address
        b.canonical_identifier.chain_identifier b.canonical_identifier.channel_identifier b.nonce
        (hash_balance_data x b.transferred_amount b.locked_amount b.locksroot) b.message_hash)
      b.signature sender

unfoldable pub is_balance_proof_usable_onchain :
    Externals
    → BalanceProofSignedState
    → NettingChannelState
    → NettingChannelEndState
    → SuccessOrError
is_balance_proof_usable_onchain x b c sender =
    let cid = b.canonical_identifier in
    if not (is_opened (get_status c))
    then error Reason.channel_already_closed
    else if not (cid.channel_identifier == c.canonical_identifier.channel_identifier)
    then error Reason.channel_identifier_mismatch
    else if not (cid.token_network_address == c.canonical_identifier.token_network_address)
    then error Reason.token_network_mismatch
    else if not (cid.chain_identifier == c.canonical_identifier.chain_identifier)
    then error Reason.chain_id_mismatch
    else if not (is_balance_proof_safe_for_onchain_operations b)
    then error Reason.overflow_onchain
    else if not (b.nonce == get_next_nonce sender)
    then error Reason.nonce_not_sequential
    else is_valid_balanceproof_signature x b sender.address

-- What the three messages about locks have in common: the balance proof has this locksroot and
-- these amounts.
abbrev pub check_amounts :
    BalanceProofSignedState → ℕ → ℕ → ℤ → PendingLocksStateOrError → PendingLocksStateOrError
check_amounts b locksroot transferred locked next =
    if not (b.locksroot == locksroot)
    then invalid Reason.locksroot_mismatch
    else if not (b.transferred_amount == transferred)
    then invalid Reason.transferred_amount_mismatch
    else if not (eqb_ℤ (pos b.locked_amount) locked)
    then invalid Reason.locked_amount_mismatch
    else next

-- `elif not is_valid_balance_proof`
abbrev pub check_usable : SuccessOrError → PendingLocksStateOrError → PendingLocksStateOrError
check_usable success next = next
check_usable (error r) next = invalid r

unfoldable pub valid_lockedtransfer_check :
    Externals
    → NettingChannelState
    → NettingChannelEndState
    → NettingChannelEndState
    → BalanceProofSignedState
    → HashTimeLockState
    → PendingLocksStateOrError
valid_lockedtransfer_check x c sender receiver b l =
    let (_, _, transferred, locked) = get_current_balanceproof sender in
    check_usable (is_balance_proof_usable_onchain x b c sender)
      (elim (compute_locks_with sender.pending_locks l) [
        | none ↦ invalid Reason.same_lock_twice
        | some locks ↦
            if ltb maximum_pending_transfers (length locks)
            then invalid Reason.too_many_pending
            else check_amounts b (compute_locksroot x locks) transferred (pos (locked + l.amount)) (
                if ltb_ℤ (get_distributable sender receiver) (pos l.amount)
                then invalid Reason.exceeds_distributable
                else valid locks)
      ])

unfoldable pub is_valid_lockedtransfer :
    Externals
    → LockedTransferSignedState
    → NettingChannelState
    → NettingChannelEndState
    → NettingChannelEndState
    → PendingLocksStateOrError
is_valid_lockedtransfer x t c sender receiver =
    valid_lockedtransfer_check x c sender receiver t.balance_proof t.lock

unfoldable pub is_valid_lock_expired :
    Externals
    → ℕ
    → BalanceProofSignedState
    → NettingChannelState
    → NettingChannelEndState
    → NettingChannelEndState
    → ℕ
    → PendingLocksStateOrError
is_valid_lock_expired x secrethash b c sender receiver block_number =
    let (_, _, transferred, locked) = get_current_balanceproof sender in
    if contains secrethash c.partner_state.secrethashes_to_onchain_unlockedlocks
    then invalid Reason.unlocked_onchain
    else elim (or_else (lookup secrethash c.partner_state.secrethashes_to_lockedlocks)
        (lock_of (lookup secrethash c.partner_state.secrethashes_to_unlockedlocks))) [
          | none ↦ invalid Reason.lock_not_known
          | some l ↦
              check_usable (is_balance_proof_usable_onchain x b c sender)
                (elim (compute_locks_without sender.pending_locks (encoded l)) [
                  | none ↦ invalid Reason.same_lock_twice
                  | some locks ↦
                      check_usable
                        (is_lock_expired receiver l block_number
                          (get_receiver_expiration_threshold l.expiration))
                        (check_amounts b (compute_locksroot x locks) transferred
                          (pos locked -ℤ pos l.amount) (valid locks))
                ])
        ]

unfoldable pub refund_transfer_matches_transfer :
    LockedTransferSignedState → LockedTransferUnsignedState → Bool
refund_transfer_matches_transfer refund t =
    if refund.balance_proof.sender == t.target
    then false
    else t.payment_identifier == refund.payment_identifier
      && t.lock.amount == refund.lock.amount
      && t.lock.secrethash == refund.lock.secrethash
      && t.target == refund.target
      && t.lock.expiration == refund.lock.expiration
      && t.token == refund.token

unfoldable pub is_valid_refund :
    Externals
    → LockedTransferSignedState
    → NettingChannelState
    → NettingChannelEndState
    → NettingChannelEndState
    → LockedTransferUnsignedState
    → PendingLocksStateOrError
is_valid_refund x refund c sender receiver t =
    elim (valid_lockedtransfer_check x c sender receiver refund.balance_proof refund.lock) [
      | invalid r ↦ invalid r
      | valid locks ↦
          if refund_transfer_matches_transfer refund t
          then valid locks
          else invalid Reason.refund_does_not_match
    ]

unfoldable pub is_valid_unlock :
    Externals
    → ℕ
    → BalanceProofSignedState
    → NettingChannelState
    → NettingChannelEndState
    → PendingLocksStateOrError
is_valid_unlock x secrethash b c sender =
    let (_, _, transferred, locked) = get_current_balanceproof sender in
    elim (get_lock sender secrethash) [
      | none ↦ invalid Reason.lock_not_known
      | some l ↦ elim (compute_locks_without sender.pending_locks (encoded l)) [
        | none ↦ invalid Reason.lock_not_known
        | some locks ↦ check_usable (is_balance_proof_usable_onchain x b c sender) (
            check_amounts b (compute_locksroot x locks) (transferred + l.amount)
              (pos locked -ℤ pos l.amount) (valid locks))
      ]
    ]
