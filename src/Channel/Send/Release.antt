-- ===== src/Channel/Send/Release.antt =====
-- What `send_unlock` and `send_lock_expired` build, and that they keep the invariant.
use gatecoin.Common.{
  ℕ, ◌+◌, ◌≤◌, ◌<◌, ◌≡◌, ◌≢◌, refl, true, Option, none, some, List, [], ◌∷◌, pos, ◌-ℤ◌, int_laws,
  arith, ok, raise, Returns, Fault, Result-cases, inl, inr, lookup, contains, ◌⊎◌, erase_missing,
  length, ap, ◌∙◌,
}
use gatecoin.Externals.{Externals}
use gatecoin.State.{
  uint256_max, uint64_max, BalanceProof, local, EncodedData, HashTimeLockState,
  NettingChannelEndState, NettingChannelState, transferred_amount,
}
use gatecoin.Event.{SendUnlock, SendLockExpired}
use gatecoin.Channel.Query.{
  get_amount_locked, get_lock, get_next_nonce, get_status, is_opened, is_lock_pending,
}
use gatecoin.Channel.Lock.{
  encoded, has_data, remove_data, compute_locks_without, compute_locksroot, del_lock,
  del_unclaimed_lock,
}
use gatecoin.Channel.Check.{new_balance_proof, is_lock_expired}
use gatecoin.Channel.Index.{IsIndexed, amount-without_lock, without_lock}
use gatecoin.Channel.Invariant.{IsBacked, with_proof, old_lock-IsSound, without_lock_facts}
use gatecoin.Channel.Receive.Sound.{IsSoundChannel}
use gatecoin.Channel.Send.{
  UnlockRequest, create_unlock, send_unlock, create_sendexpiredlock, send_lock_expired,
}
use gatecoin.Channel.Send.Sound.{
  HasFields, InRange, built, new_balance_proof-ok, new_balance_proof_total,
}

-- Our side of the channel after a lock has left with a balance proof of ours.
abbrev pub released :
    NettingChannelState → HashTimeLockState → BalanceProof → ℕ → NettingChannelEndState
released c l b n =
    with_proof
      (without_lock c.our_state (remove_data (encoded l) c.our_state.pending_locks) l.secrethash) b
      n

module _ (x : Externals) (c : NettingChannelState) (q : UnlockRequest) (l : HashTimeLockState) where
  -- What an unlock that is sent is about.
  pub record IsUnlocked (event : SendUnlock) : Type 0 where
    pub is_open : is_opened (get_status c) ≡ true
    pub pending : is_lock_pending c.our_state l.secrethash ≡ true
    pub listed : has_data (encoded l) c.our_state.pending_locks ≡ true
    pub in_time :
        (contains l.secrethash c.our_state.secrethashes_to_onchain_unlockedlocks ≡ true)
        ⊎ (q.block_number < l.expiration)
    pub proof :
        HasFields
          (get_next_nonce c.our_state)
          (l.amount + transferred_amount c.our_state)
          (pos (get_amount_locked c.our_state) -ℤ pos l.amount)
          (compute_locksroot x (remove_data (encoded l) c.our_state.pending_locks))
          c.canonical_identifier
          event.balance_proof

  create_unlock-ok :
      (c' : NettingChannelState) (event : SendUnlock) (locks : List EncodedData)
      → create_unlock x c q l ≡ ok (c', event, locks)
      → IsUnlocked event
        × (locks ≡ remove_data (encoded l) c.our_state.pending_locks)
        × (c'
            ≡ record c { our_state = record (c.our_state) { nonce = get_next_nonce c.our_state } })
  unfolding create_unlock compute_locks_without is_lock_expired transferred_amount
  create_unlock-ok c' event locks h =
      elim (Result-cases (
        new_balance_proof x (get_next_nonce c.our_state) (l.amount + transferred_amount c.our_state)
          (pos (get_amount_locked c.our_state) -ℤ pos l.amount)
          (compute_locksroot x (remove_data (encoded l) c.our_state.pending_locks))
          c.canonical_identifier)) [
            | inl (b, e) ↦ ground (
              arith,
              new_balance_proof-ok x (get_next_nonce c.our_state)
                  (l.amount + transferred_amount c.our_state)
                  (pos (get_amount_locked c.our_state) -ℤ pos l.amount)
                  (compute_locksroot x (remove_data (encoded l) c.our_state.pending_locks))
                  c.canonical_identifier b e,
            )
            | inr (f, e) ↦ absurd (ground arith)
          ]

  pub send_unlock-ok :
      (h : ℕ) (c' : NettingChannelState) (event : SendUnlock)
      → get_lock c.our_state h ≡ some l
      → send_unlock x c q h ≡ ok (c', event)
      → IsUnlocked event
        × (c' ≡ record c {
          our_state = released c l (local event.balance_proof) (get_next_nonce c.our_state);
        })
  unfolding send_unlock del_lock
  send_unlock-ok h c' event here e = elim (Result-cases (create_unlock x c q l)) [
    | inl ((c₁, ev, locks), f) ↦ ground (arith, create_unlock-ok c₁ ev locks f)
    | inr (f, g) ↦ absurd (ground arith)
  ]

-- The claim of one lock never exceeds what is locked.
lock-le-amount :
    (e : NettingChannelEndState) (h : ℕ) (l : HashTimeLockState)
    → IsIndexed e
    → get_lock e h ≡ some l
    → l.amount ≤ get_amount_locked e
lock-le-amount e h l i here = omega (arith, amount-without_lock e h l (e.pending_locks) i here)

-- A side that has a lock has a balance proof.
lock-balance_proof :
    (x : Externals) (e : NettingChannelEndState) (h : ℕ) (l : HashTimeLockState)
    → IsIndexed e
    → IsBacked x e
    → get_lock e h ≡ some l
    → e.balance_proof ≢ none
unfolding has_data
lock-balance_proof x e h l i b here no_proof = ground (arith, i.listed h l here)

module _ (x : Externals) (c : NettingChannelState) (q : UnlockRequest) (h : ℕ)
    (l : HashTimeLockState) where
  -- What the caller of `send_unlock` has to make sure of.
  pub record CanUnlock : Type 0 where
    pub is_open : is_opened (get_status c) ≡ true
    pub known : get_lock c.our_state h ≡ some l
    pub in_time :
        (contains h c.our_state.secrethashes_to_onchain_unlockedlocks ≡ true)
        ⊎ (q.block_number < l.expiration)
    pub fits : transferred_amount c.our_state + get_amount_locked c.our_state ≤ uint256_max
    pub nonce_fits : c.our_state.nonce < uint64_max
    pub identifier_fits : c.canonical_identifier.channel_identifier ≤ uint256_max

  CanUnlock-InRange :
      IsIndexed c.our_state
      → CanUnlock
      → InRange x
          (get_next_nonce c.our_state)
          (l.amount + transferred_amount c.our_state)
          (pos (get_amount_locked c.our_state) -ℤ pos l.amount)
          (compute_locksroot x (remove_data (encoded l) c.our_state.pending_locks))
          c.canonical_identifier
  unfolding get_next_nonce ◌-ℤ◌
  CanUnlock-InRange i can = ground (arith, lock-le-amount c.our_state h l i can.known)

  send_unlock_total :
      IsIndexed c.our_state
      → IsBacked x c.our_state
      → CanUnlock
      → (f : Fault) → send_unlock x c q h ≢ raise f
  unfolding send_unlock create_unlock del_lock compute_locks_without is_lock_expired
      transferred_amount is_lock_pending get_lock
  send_unlock_total i b can f raised = ground (
    arith,
    new_balance_proof_total x (get_next_nonce c.our_state)
        (l.amount + transferred_amount c.our_state)
        (pos (get_amount_locked c.our_state) -ℤ pos l.amount)
        (compute_locksroot x (remove_data (encoded l) c.our_state.pending_locks))
        c.canonical_identifier (CanUnlock-InRange i can),
    lock-balance_proof x c.our_state h l i b can.known,
    i.listed h l can.known,
  )

  -- On a sound channel that is open, the unlock of a known lock that is unlocked on chain or has
  -- not expired is sent without a failing assertion when the amounts and the nonce fit their
  -- types. The channel is sound afterwards, the partner's side unchanged, and the lock's amount
  -- has moved from what is locked to what is transferred.
  pub send_unlock-IsSound :
      IsSoundChannel x c
      → CanUnlock
      → Returns
          (λ r.
            IsSoundChannel x r.0
            × (r.0.partner_state ≡ c.partner_state)
            × (transferred_amount r.0.our_state ≡ l.amount + transferred_amount c.our_state)
            × (get_amount_locked r.0.our_state + l.amount ≡ get_amount_locked c.our_state))
          (send_unlock x c q h)
  unfolding transferred_amount
  send_unlock-IsSound s can = elim (Result-cases (send_unlock x c q h)) [
    | inl ((c', event), e) ↦
        let (u, eq) = send_unlock-ok x c q l h c' event can.known e in
        let b = local event.balance_proof in
        let n = get_next_nonce c.our_state in
        let here : get_lock c.our_state l.secrethash ≡ some l =
          ap (get_lock c.our_state) (s.our_index.listed h l can.known).0 ∙ can.known in
        rw (e, eq)
          (
            old_lock-IsSound x c.our_state c.partner_state b n l l.secrethash l.amount here
                (omega arith) u.proof.locksroot_eq (omega (arith, u.proof.transferred_eq))
                (omega (int_laws, u.proof.locked_eq)) s,
            refl,
            u.proof.transferred_eq,
            (without_lock_facts c.our_state b n l.secrethash l
                (remove_data (encoded l) c.our_state.pending_locks) s.our_index here).0,
          )
    | inr (f, e) ↦ absurd (send_unlock_total s.our_index s.our_backed can f e)
  ]

module _ (x : Externals) (c : NettingChannelState) (l : HashTimeLockState) (prng : ℕ)
    (metadata : Option ℕ) where
  -- What the caller of `send_lock_expired` has to make sure of.
  pub record CanExpire : Type 0 where
    pub is_open : is_opened (get_status c) ≡ true
    pub known : get_lock c.our_state l.secrethash ≡ some l
    pub not_onchain : lookup l.secrethash c.our_state.secrethashes_to_onchain_unlockedlocks ≡ none
    pub fits : transferred_amount c.our_state + get_amount_locked c.our_state ≤ uint256_max
    pub nonce_fits : c.our_state.nonce < uint64_max
    pub identifier_fits : c.canonical_identifier.channel_identifier ≤ uint256_max

  -- The message that is sent.
  abbrev pub expiry : SendLockExpired
  expiry = record {
    header = record {
      recipient = c.partner_state.address;
      recipient_metadata = metadata;
      canonical_identifier = c.canonical_identifier;
      message_identifier = (x.randint prng).0;
    };
    balance_proof =
        built x (get_next_nonce c.our_state) (transferred_amount c.our_state)
          (pos (get_amount_locked c.our_state) -ℤ pos l.amount)
          (compute_locksroot x (remove_data (encoded l) c.our_state.pending_locks))
          c.canonical_identifier;
    secrethash = l.secrethash;
  }

  CanExpire-InRange :
      IsIndexed c.our_state
      → CanExpire
      → InRange x
          (get_next_nonce c.our_state)
          (transferred_amount c.our_state)
          (pos (get_amount_locked c.our_state) -ℤ pos l.amount)
          (compute_locksroot x (remove_data (encoded l) c.our_state.pending_locks))
          c.canonical_identifier
  unfolding get_next_nonce ◌-ℤ◌
  CanExpire-InRange i can = ground (arith, lock-le-amount c.our_state l.secrethash l i can.known)

  send_lock_expired-eq :
      IsIndexed c.our_state
      → IsBacked x c.our_state
      → CanExpire
      → send_lock_expired x c l prng metadata
        ≡ ok (
          record c {
            our_state = released c l (local expiry.balance_proof) (get_next_nonce c.our_state);
          },
          (x.randint prng).1,
          expiry ∷ [],
        )
  unfolding send_lock_expired create_sendexpiredlock compute_locks_without transferred_amount
      del_unclaimed_lock
  send_lock_expired-eq i b can = ground (
    arith,
    new_balance_proof_total x (get_next_nonce c.our_state) (transferred_amount c.our_state)
        (pos (get_amount_locked c.our_state) -ℤ pos l.amount)
        (compute_locksroot x (remove_data (encoded l) c.our_state.pending_locks))
        c.canonical_identifier (CanExpire-InRange i can),
    lock-balance_proof x c.our_state l.secrethash l i b can.known,
    i.listed l.secrethash l can.known,
    erase_missing l.secrethash c.our_state.secrethashes_to_onchain_unlockedlocks can.not_onchain,
  )

  -- On a sound channel that is open, the expiry of a known lock that is not unlocked on chain is
  -- sent as one message without a failing assertion when the amounts and the nonce fit their
  -- types. The channel is sound afterwards, the partner's side unchanged, and the lock's amount
  -- is no longer locked and has not been transferred.
  pub send_lock_expired-IsSound :
      IsSoundChannel x c
      → CanExpire
      → Returns
          (λ r.
            IsSoundChannel x r.0
            × (r.0.partner_state ≡ c.partner_state)
            × (transferred_amount r.0.our_state ≡ transferred_amount c.our_state)
            × (get_amount_locked r.0.our_state + l.amount ≡ get_amount_locked c.our_state)
            × (length r.2 ≡ 1))
          (send_lock_expired x c l prng metadata)
  unfolding transferred_amount
  send_lock_expired-IsSound s can =
      let b = local expiry.balance_proof in
      let n = get_next_nonce c.our_state in
      let r = CanExpire-InRange s.our_index can in
      rw (send_lock_expired-eq s.our_index s.our_backed can) (
        old_lock-IsSound x c.our_state c.partner_state b n l l.secrethash 0 can.known (omega arith)
            refl (omega arith) (omega (int_laws, r.not_negative)) s,
        refl,
        refl,
        (without_lock_facts c.our_state b n l.secrethash l
            (remove_data (encoded l) c.our_state.pending_locks) s.our_index can.known).0,
        refl,
      )
