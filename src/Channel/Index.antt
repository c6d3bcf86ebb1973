-- ===== src/Channel/Index.antt =====
-- How the pending locks of one side of a channel are indexed by secrethash, and that registering
-- and deleting a lock keep it so: the dicts of `NettingChannelEndState` in
-- src/gatecoin/transfer/state.py.
use gatecoin.Common.{
  ℕ, ◌+◌, ◌≡◌, ◌≢◌, true, none, some, List, [], ◌∷◌, ◌++◌, ◌⊎◌, inl, inr, lookup, insert, erase,
  IsDict, arith, Bool-cases, lookup-insert_self, lookup-insert_ne, lookup-erase_self,
  lookup-erase_ne, erase_missing, insert-IsDict, erase-IsDict, sum_of-insert_new, sum_of-erase,
  ◌==◌, ok,
}
use gatecoin.State.{EncodedData, HashTimeLockState, NettingChannelEndState}
use gatecoin.Channel.Query.{
  get_lock, get_amount_locked, lock_amount, unlock_amount, is_lock_pending,
}
use gatecoin.Channel.Lock.{
  encoded, has_data, remove_data, has_data-append, has_data-append_self, has_data-remove_ne,
  del_lock, del_unclaimed_lock,
}

-- A secrethash stands in one of the three dicts at most.
abbrev pub AtMostOne : NettingChannelEndState → ℕ → Type 0
AtMostOne e k =
    ((lookup k e.secrethashes_to_unlockedlocks ≡ none)
      × (lookup k e.secrethashes_to_onchain_unlockedlocks ≡ none))
    ⊎ ((lookup k e.secrethashes_to_lockedlocks ≡ none)
        × (lookup k e.secrethashes_to_onchain_unlockedlocks ≡ none))
    ⊎ ((lookup k e.secrethashes_to_lockedlocks ≡ none)
        × (lookup k e.secrethashes_to_unlockedlocks ≡ none))

-- Each indexed lock has the secrethash that it is found by, and is among the pending locks.
pub record IsIndexed (e : NettingChannelEndState) : Type 0 where
  pub locked_dict : IsDict e.secrethashes_to_lockedlocks
  pub unlocked_dict : IsDict e.secrethashes_to_unlockedlocks
  pub onchain_dict : IsDict e.secrethashes_to_onchain_unlockedlocks
  pub apart : (k : ℕ) → AtMostOne e k
  pub listed :
      (k : ℕ) (l : HashTimeLockState)
      → get_lock e k ≡ some l
      → (l.secrethash ≡ k) × (has_data (encoded l) e.pending_locks ≡ true)

-- One more locked lock.
abbrev pub with_lock :
    NettingChannelEndState → List EncodedData → HashTimeLockState → NettingChannelEndState
with_lock e locks l = record e {
  pending_locks = locks;
  secrethashes_to_lockedlocks = insert l.secrethash l e.secrethashes_to_lockedlocks;
}

-- One lock less, wherever it was found.
abbrev pub without_lock : NettingChannelEndState → List EncodedData → ℕ → NettingChannelEndState
without_lock e locks h = record e {
  pending_locks = locks;
  secrethashes_to_lockedlocks = erase h e.secrethashes_to_lockedlocks;
  secrethashes_to_unlockedlocks = erase h e.secrethashes_to_unlockedlocks;
  secrethashes_to_onchain_unlockedlocks = erase h e.secrethashes_to_onchain_unlockedlocks;
}

module _ (e : NettingChannelEndState) (l : HashTimeLockState) where
  pub amount-with_lock :
      (locks : List EncodedData)
      → get_lock e l.secrethash ≡ none
      → get_amount_locked (with_lock e locks l) ≡ get_amount_locked e + l.amount
  unfolding get_amount_locked get_lock
  amount-with_lock locks fresh =
      ground (arith, sum_of-insert_new l.secrethash l lock_amount e.secrethashes_to_lockedlocks)

  with_lock-listed :
      (k : ℕ) (m : HashTimeLockState)
      → get_lock e l.secrethash ≡ none
      → IsIndexed e
      → get_lock (with_lock e (e.pending_locks ++ encoded l ∷ []) l) k ≡ some m
      → (m.secrethash ≡ k) × (has_data (encoded m) (e.pending_locks ++ encoded l ∷ []) ≡ true)
  unfolding get_lock
  with_lock-listed k m fresh i found = elim (Bool-cases (k == l.secrethash)) [
    | inl same ↦ ground (
      arith,
      lookup-insert_self l.secrethash l e.secrethashes_to_lockedlocks,
      has_data-append_self (encoded l) e.pending_locks,
    )
    | inr other ↦ ground (
      arith,
      lookup-insert_ne k l.secrethash l e.secrethashes_to_lockedlocks,
      i.listed k m,
      has_data-append (encoded m) e.pending_locks (encoded l ∷ []),
    )
  ]

  with_lock-apart :
      (k : ℕ) (locks : List EncodedData)
      → get_lock e l.secrethash ≡ none
      → IsIndexed e
      → AtMostOne (with_lock e locks l) k
  unfolding get_lock
  with_lock-apart k locks fresh i = elim (Bool-cases (k == l.secrethash)) [
    | inl same ↦ inl (ground arith, ground arith)
    | inr other ↦
        rw (lookup-insert_ne k l.secrethash l e.secrethashes_to_lockedlocks (λ p. ground arith))
          (i.apart k)
  ]

  pub with_lock-IsIndexed :
      get_lock e l.secrethash ≡ none
      → IsIndexed e
      → IsIndexed (with_lock e (e.pending_locks ++ encoded l ∷ []) l)
  with_lock-IsIndexed fresh i = record {
    locked_dict = insert-IsDict l.secrethash l e.secrethashes_to_lockedlocks i.locked_dict;
    unlocked_dict = i.unlocked_dict;
    onchain_dict = i.onchain_dict;
    apart = λ k. with_lock-apart k (e.pending_locks ++ encoded l ∷ []) fresh i;
    listed = λ k m found. with_lock-listed k m fresh i found;
  }

module _ (e : NettingChannelEndState) (h : ℕ) where
  pub amount-without_lock :
      (l : HashTimeLockState) (locks : List EncodedData)
      → IsIndexed e
      → get_lock e h ≡ some l
      → get_amount_locked (without_lock e locks h) + l.amount ≡ get_amount_locked e
  unfolding get_amount_locked get_lock
  amount-without_lock l locks i found = ground (
    arith,
    i.apart h,
    sum_of-erase h lock_amount e.secrethashes_to_lockedlocks,
    sum_of-erase h unlock_amount e.secrethashes_to_unlockedlocks,
    sum_of-erase h unlock_amount e.secrethashes_to_onchain_unlockedlocks,
  )

  get_lock-without_lock_self :
      (locks : List EncodedData) → IsIndexed e → get_lock (without_lock e locks h) h ≡ none
  unfolding get_lock
  get_lock-without_lock_self locks i = rw (
    lookup-erase_self h e.secrethashes_to_lockedlocks i.locked_dict,
    lookup-erase_self h e.secrethashes_to_unlockedlocks i.unlocked_dict,
    lookup-erase_self h e.secrethashes_to_onchain_unlockedlocks i.onchain_dict,
  )

  get_lock-without_lock_ne :
      (k : ℕ) (locks : List EncodedData)
      → k ≢ h
      → get_lock (without_lock e locks h) k ≡ get_lock e k
  unfolding get_lock
  get_lock-without_lock_ne k locks n = rw (
    lookup-erase_ne h k e.secrethashes_to_lockedlocks n,
    lookup-erase_ne h k e.secrethashes_to_unlockedlocks n,
    lookup-erase_ne h k e.secrethashes_to_onchain_unlockedlocks n,
  )

  without_lock-apart :
      (k : ℕ) (locks : List EncodedData) → IsIndexed e → AtMostOne (without_lock e locks h) k
  without_lock-apart k locks i = elim (Bool-cases (k == h)) [
    | inl same ↦ inl (
      ground (arith, lookup-erase_self h e.secrethashes_to_unlockedlocks i.unlocked_dict),
      ground (arith, lookup-erase_self h e.secrethashes_to_onchain_unlockedlocks i.onchain_dict),
    )
    | inr other ↦
        let n : k ≢ h = λ p. ground arith in
        rw
          (
            lookup-erase_ne h k e.secrethashes_to_lockedlocks n,
            lookup-erase_ne h k e.secrethashes_to_unlockedlocks n,
            lookup-erase_ne h k e.secrethashes_to_onchain_unlockedlocks n,
          )
          (i.apart k)
  ]

  without_lock-listed :
      (k : ℕ) (l m : HashTimeLockState)
      → get_lock e h ≡ some l
      → IsIndexed e
      → get_lock (without_lock e (remove_data (encoded l) e.pending_locks) h) k ≡ some m
      → (m.secrethash ≡ k) × (has_data (encoded m) (remove_data (encoded l) e.pending_locks) ≡ true)
  unfolding encoded
  without_lock-listed k l m here i found = elim (Bool-cases (k == h)) [
    | inl same ↦
        absurd
          (ground (arith, get_lock-without_lock_self (remove_data (encoded l) e.pending_locks) i))
    | inr other ↦ ground (
      arith,
      get_lock-without_lock_ne k (remove_data (encoded l) e.pending_locks),
      i.listed k m,
      i.listed h l here,
      has_data-remove_ne (encoded m) (encoded l) e.pending_locks,
    )
  ]

  pub without_lock-IsIndexed :
      (l : HashTimeLockState)
      → get_lock e h ≡ some l
      → IsIndexed e
      → IsIndexed (without_lock e (remove_data (encoded l) e.pending_locks) h)
  without_lock-IsIndexed l here i = record {
    locked_dict = erase-IsDict h e.secrethashes_to_lockedlocks i.locked_dict;
    unlocked_dict = erase-IsDict h e.secrethashes_to_unlockedlocks i.unlocked_dict;
    onchain_dict = erase-IsDict h e.secrethashes_to_onchain_unlockedlocks i.onchain_dict;
    apart = λ k. without_lock-apart k (remove_data (encoded l) e.pending_locks) i;
    listed = λ k m found. without_lock-listed k l m here i found;
  }

  -- Deleting a pending lock clears the three dicts, and leaves the pending locks.
  pub del_lock-eq :
      (l : HashTimeLockState)
      → get_lock e h ≡ some l
      → del_lock e h ≡ ok (without_lock e e.pending_locks h)
  unfolding del_lock get_lock is_lock_pending
  del_lock-eq l here = ground arith

  -- Where the lock has not been unlocked on chain, this is what `_del_unclaimed_lock` does too.
  pub del_unclaimed_lock-eq :
      lookup h e.secrethashes_to_onchain_unlockedlocks ≡ none
      → del_unclaimed_lock e h ≡ without_lock e e.pending_locks h
  unfolding del_unclaimed_lock
  del_unclaimed_lock-eq none_onchain =
      ground (arith, erase_missing h e.secrethashes_to_onchain_unlockedlocks)
