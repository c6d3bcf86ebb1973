-- ===== src/Channel/Secret/Recorded.antt =====
-- What registering a secret records on each side of a channel: src/gatecoin/transfer/channel.py,
-- `register_offchain_secret` and `register_onchain_secret`.
use gatecoin.Common.{
  ℕ, ◌≡◌, Bool, true, false, not, ◌&&◌, leb, ltb, ◌==◌, if◌then◌else◌, none, some, arith,
  Bool-cases, Option-cases, inl, inr, lookup, contains, erase, lookup-insert_self, lookup-insert_ne,
  lookup-erase_self, lookup-erase_ne, Returns, Returns-bind, Returns-both,
}
use gatecoin.Externals.{Externals}
use gatecoin.State.{HashTimeLockState, NettingChannelEndState, NettingChannelState}
use gatecoin.Channel.Query.{get_lock, get_secret, is_lock_locked}
use gatecoin.Channel.Index.{IsIndexed}
use gatecoin.Channel.Receive.Sound.{IsSoundChannel}
use gatecoin.Channel.Secret.{
  register_secret_endstate, register_onchain_secret_endstate, register_offchain_secret,
  register_onchain_secret,
}
use gatecoin.Channel.Secret.Moves.{SameLocks, SameLocks-IsSound, unlocked, partial, claimed}
use gatecoin.Channel.Secret.Sound.{
  candidate, register_onchain-eq, register_onchain-skip, register_offchain_secret-IsSound,
  register_onchain-SameLocks,
}

-- The secret of one hash becomes known where it is taken, all other secrets stay, and the lock is
-- then no longer a locked one.
pub record IsRecorded (taken : Bool) (secret h : ℕ) (e e' : NettingChannelEndState) : Type 0 where
  pub secrets :
      (k : ℕ) → get_secret e' k ≡ (if k == h && taken then some secret else get_secret e k)
  pub locked : (k : ℕ) → is_lock_locked e' k ≡ (is_lock_locked e k && not (k == h && taken))

-- The lock is pending, not unlocked on chain and not expired at the block.
abbrev pub is_claimable : NettingChannelEndState → ℕ → ℕ → Bool
is_claimable e h block = elim (get_lock e h) [
  | none ↦ false
  | some l ↦ not (contains h e.secrethashes_to_onchain_unlockedlocks) && leb block l.expiration
]

unlocked-secret :
    (e : NettingChannelEndState) (secret h k : ℕ) (l : HashTimeLockState)
    → get_secret (unlocked e secret h l) k ≡ (if k == h then some secret else get_secret e k)
unfolding get_secret
unlocked-secret e secret h k l = elim (Bool-cases (k == h)) [
  | inl same ↦
      ground (arith, lookup-insert_self h (partial e secret h l) e.secrethashes_to_unlockedlocks)
  | inr other ↦
      ground (arith, lookup-insert_ne k h (partial e secret h l) e.secrethashes_to_unlockedlocks)
]

unlocked-locked :
    (e : NettingChannelEndState) (secret h k : ℕ) (l : HashTimeLockState)
    → IsIndexed e
    → is_lock_locked (unlocked e secret h l) k ≡ (is_lock_locked e k && not (k == h))
unfolding is_lock_locked
unlocked-locked e secret h k l i = elim (Bool-cases (k == h)) [
  | inl same ↦ ground (arith, lookup-erase_self h e.secrethashes_to_lockedlocks i.locked_dict)
  | inr other ↦ ground (arith, lookup-erase_ne h k e.secrethashes_to_lockedlocks)
]

claimed-secret :
    (e : NettingChannelEndState) (secret h k : ℕ) (l : HashTimeLockState)
    → IsIndexed e
    → get_secret (claimed e secret h l) k ≡ (if k == h then some secret else get_secret e k)
unfolding get_secret
claimed-secret e secret h k l i = elim (Bool-cases (k == h)) [
  | inl same ↦ ground (
    arith,
    lookup-erase_self h e.secrethashes_to_unlockedlocks i.unlocked_dict,
    lookup-insert_self h (partial e secret h l) (erase h e.secrethashes_to_onchain_unlockedlocks),
  )
  | inr other ↦ ground (
    arith,
    lookup-erase_ne h k e.secrethashes_to_unlockedlocks,
    lookup-erase_ne h k e.secrethashes_to_onchain_unlockedlocks,
    lookup-insert_ne k h (partial e secret h l) (erase h e.secrethashes_to_onchain_unlockedlocks),
  )
]

register_secret-IsRecorded :
    (e : NettingChannelEndState) (secret h : ℕ)
    → IsIndexed e
    → IsRecorded (is_lock_locked e h) secret h e (register_secret_endstate e secret h)
unfolding register_secret_endstate is_lock_locked
register_secret-IsRecorded e secret h i =
    elim (Option-cases (lookup h e.secrethashes_to_lockedlocks)) [
      | inl missing ↦ record { secrets = λ k. ground arith; locked = λ k. ground arith }
      | inr (l, here) ↦ record {
        secrets = λ k. ground (arith, unlocked-secret e secret h k l);
        locked = λ k. ground (arith, unlocked-locked e secret h k l i);
      }
    ]

claimed-locked :
    (e : NettingChannelEndState) (secret h k : ℕ) (l : HashTimeLockState)
    → IsIndexed e
    → is_lock_locked (claimed e secret h l) k ≡ (is_lock_locked e k && not (k == h))
unfolding is_lock_locked
claimed-locked e secret h k l i = elim (Bool-cases (k == h)) [
  | inl same ↦ ground (arith, lookup-erase_self h e.secrethashes_to_lockedlocks i.locked_dict)
  | inr other ↦ ground (arith, lookup-erase_ne h k e.secrethashes_to_lockedlocks)
]

no_candidate-claimable :
    (e : NettingChannelEndState) (h block : ℕ)
    → candidate e h ≡ none
    → is_claimable e h block ≡ false
unfolding get_lock
no_candidate-claimable e h block missing = ground arith

candidate-claimable :
    (e : NettingChannelEndState) (h block : ℕ) (l : HashTimeLockState)
    → IsIndexed e
    → candidate e h ≡ some l
    → is_claimable e h block ≡ leb block l.expiration
unfolding get_lock
candidate-claimable e h block l i here = ground (arith, i.apart h)

not_taken :
    (e : NettingChannelEndState) (secret h : ℕ) (taken : Bool)
    → taken ≡ false
    → IsRecorded taken secret h e e
not_taken e secret h taken e' = record { secrets = λ k. ground arith; locked = λ k. ground arith }

register_onchain-IsRecorded :
    (e : NettingChannelEndState) (secret h block : ℕ)
    → IsIndexed e
    → Returns
        (IsRecorded (is_claimable e h block) secret h e)
        (register_onchain_secret_endstate e secret h block true)
register_onchain-IsRecorded e secret h block i = elim (Option-cases (candidate e h)) [
  | inl missing ↦
      rw (register_onchain-skip e secret h block (inl missing))
        (not_taken e secret h (is_claimable e h block) (no_candidate-claimable e h block missing))
  | inr (l, here) ↦ elim (Bool-cases (ltb l.expiration block)) [
    | inl late ↦ rw (register_onchain-skip e secret h block (inr (l, here, late))) (
        not_taken e secret h (is_claimable e h block)
          (ground (arith, candidate-claimable e h block l i here)))
    | inr in_time ↦ rw (register_onchain-eq e secret h block l here in_time) (record {
      secrets = λ k.
          ground (arith, claimed-secret e secret h k l i, candidate-claimable e h block l i here);
      locked = λ k.
          ground (arith, claimed-locked e secret h k l i, candidate-claimable e h block l i here);
    })
  ]
]

register_onchain_kept :
    (e : NettingChannelEndState) (secret h block : ℕ)
    → IsIndexed e
    → Returns
        (λ e'. SameLocks e e' × IsRecorded (is_claimable e h block) secret h e e')
        (register_onchain_secret_endstate e secret h block true)
register_onchain_kept e secret h block i =
    Returns-both (SameLocks e) (IsRecorded (is_claimable e h block) secret h e)
      (register_onchain_secret_endstate e secret h block true)
      (register_onchain-SameLocks e secret h block i)
      (register_onchain-IsRecorded e secret h block i)

module _ (x : Externals) (c : NettingChannelState) (secret h : ℕ) (s : IsSoundChannel x c) where
  -- A secret learned off chain is taken by each side of a sound channel exactly where it has a
  -- locked lock of that hash: there the secret of that hash is the new one and the lock no longer
  -- a locked one. All other secrets and locked locks stay, every lock is still found, no amount
  -- or balance proof changes, and the channel is sound afterwards.
  pub register_offchain_secret-AreRecorded :
      let c' = register_offchain_secret c secret h in
      IsSoundChannel x c'
      × SameLocks c.our_state c'.our_state
      × SameLocks c.partner_state c'.partner_state
      × IsRecorded (is_lock_locked c.our_state h) secret h c.our_state c'.our_state
      × IsRecorded (is_lock_locked c.partner_state h) secret h c.partner_state c'.partner_state
  unfolding register_offchain_secret
  register_offchain_secret-AreRecorded =
      let (kept, our, partner) = register_offchain_secret-IsSound x c secret h s in
      (
        kept,
        our,
        partner,
        register_secret-IsRecorded c.our_state secret h s.our_index,
        register_secret-IsRecorded c.partner_state secret h s.partner_index,
      )

  -- A secret that was registered on chain is taken by each side of a sound channel, without a
  -- failing assertion, exactly where its lock is pending, not unlocked on chain before and not
  -- expired at the block of the registering: there the secret of that hash is the new one and the
  -- lock no longer a locked one. All other secrets and locked locks stay, every lock is still
  -- found, no amount or balance proof changes, and the channel is sound afterwards.
  pub register_onchain_secret-AreRecorded :
      (block : ℕ)
      → Returns
          (λ c'.
            IsSoundChannel x c'
            × SameLocks c.our_state c'.our_state
            × SameLocks c.partner_state c'.partner_state
            × IsRecorded (is_claimable c.our_state h block) secret h c.our_state c'.our_state
            × IsRecorded
                (is_claimable c.partner_state h block)
                secret
                h
                c.partner_state
                c'.partner_state)
          (register_onchain_secret c secret h block true)
  unfolding register_onchain_secret
  register_onchain_secret-AreRecorded block =
      Returns-bind _ _ (register_onchain_secret_endstate c.our_state secret h block true) _
        (register_onchain_kept c.our_state secret h block s.our_index)
        (λ our (a, recorded).
          Returns-bind _ _ (register_onchain_secret_endstate c.partner_state secret h block true) _
            (register_onchain_kept c.partner_state secret h block s.partner_index)
            (λ partner (b, other). (
              SameLocks-IsSound x c.our_state our c.partner_state partner a b s,
              a,
              b,
              recorded,
              other,
            )))
