-- ===== src/Channel/Secret/Sound.antt =====
-- Registering a secret in a channel: src/gatecoin/transfer/channel.py, `register_offchain_secret`
-- and `register_onchain_secret`.
use gatecoin.Common.{
  ℕ, ◌≡◌, refl, true, false, Option, none, some, arith, ◌∙◌, Bool-cases, Option-cases, inl, inr,
  ◌⊎◌, ◌<◌, ◌≤◌, or_else, lookup, erase, lookup-insert_self, lookup-erase_self, ok, Returns,
  Returns-bind, ltb,
}
use gatecoin.Externals.{Externals}
use gatecoin.State.{HashTimeLockState, NettingChannelEndState, NettingChannelState}
use gatecoin.Channel.Query.{get_lock, lock_of, get_secret, is_lock_locked, is_lock_pending}
use gatecoin.Channel.Lock.{del_lock}
use gatecoin.Channel.Index.{IsIndexed}
use gatecoin.Channel.Receive.Sound.{IsSoundChannel}
use gatecoin.Channel.Secret.{
  register_secret_endstate, register_onchain_secret_endstate, register_offchain_secret,
  register_onchain_secret,
}
use gatecoin.Channel.Secret.Moves.{
  SameLocks, SameLocks-refl, SameLocks-IsSound, partial, unlocked-SameLocks, claimed,
  claimed-get_lock, claimed-SameLocks,
}

register_secret-SameLocks :
    (e : NettingChannelEndState) (secret h : ℕ)
    → IsIndexed e
    → SameLocks e (register_secret_endstate e secret h)
unfolding register_secret_endstate
register_secret-SameLocks e secret h i =
    elim (Option-cases (lookup h e.secrethashes_to_lockedlocks)) [
      | inl missing ↦ rw (missing, register_secret_endstate) (SameLocks-refl e)
      | inr (l, here) ↦ rw (here, register_secret_endstate) (unlocked-SameLocks e secret h l i here)
    ]

pub register_offchain_secret-IsSound :
    (x : Externals) (c : NettingChannelState) (secret h : ℕ)
    → IsSoundChannel x c
    → let c' = register_offchain_secret c secret h in
      IsSoundChannel x c'
      × SameLocks c.our_state c'.our_state
      × SameLocks c.partner_state c'.partner_state
unfolding register_offchain_secret
register_offchain_secret-IsSound x c secret h s =
    let our = register_secret-SameLocks c.our_state secret h s.our_index in
    let partner = register_secret-SameLocks c.partner_state secret h s.partner_index in
    (SameLocks-IsSound x c.our_state _ c.partner_state _ our partner s, our, partner)

-- The lock that an on-chain secret is for.
abbrev pub candidate : NettingChannelEndState → ℕ → Option HashTimeLockState
candidate e h =
    or_else (lock_of (lookup h e.secrethashes_to_unlockedlocks))
      (lookup h e.secrethashes_to_lockedlocks)

pub candidate-get_lock :
    (e : NettingChannelEndState) (h : ℕ) (l : HashTimeLockState)
    → IsIndexed e
    → candidate e h ≡ some l
    → get_lock e h ≡ some l
unfolding get_lock
candidate-get_lock e h l i here = ground (arith, i.apart h)

pub register_onchain-eq :
    (e : NettingChannelEndState) (secret h block : ℕ) (l : HashTimeLockState)
    → candidate e h ≡ some l
    → ltb l.expiration block ≡ false
    → register_onchain_secret_endstate e secret h block true ≡ ok (claimed e secret h l)
unfolding register_onchain_secret_endstate del_lock is_lock_pending
register_onchain-eq e secret h block l here in_time = ground arith

pub register_onchain-skip :
    (e : NettingChannelEndState) (secret h block : ℕ)
    → (candidate e h ≡ none)
      ⊎ ((l : HashTimeLockState) × (candidate e h ≡ some l) × (ltb l.expiration block ≡ true))
    → register_onchain_secret_endstate e secret h block true ≡ ok e
unfolding register_onchain_secret_endstate
register_onchain-skip e secret h block (inl missing) = ground arith
register_onchain-skip e secret h block (inr (l, here, late)) = ground arith

pub register_onchain-SameLocks :
    (e : NettingChannelEndState) (secret h block : ℕ)
    → IsIndexed e
    → Returns (SameLocks e) (register_onchain_secret_endstate e secret h block true)
register_onchain-SameLocks e secret h block i = elim (Option-cases (candidate e h)) [
  | inl missing ↦ rw (register_onchain-skip e secret h block (inl missing)) (SameLocks-refl e)
  | inr (l, here) ↦ elim (Bool-cases (ltb l.expiration block)) [
    | inl late ↦
        rw (register_onchain-skip e secret h block (inr (l, here, late))) (SameLocks-refl e)
    | inr in_time ↦
        rw (register_onchain-eq e secret h block l here in_time)
          (claimed-SameLocks e secret h l i (candidate-get_lock e h l i here))
  ]
]

pub register_onchain_secret-IsSound :
    (x : Externals) (c : NettingChannelState) (secret h block : ℕ)
    → IsSoundChannel x c
    → Returns
        (λ c'.
          IsSoundChannel x c'
          × SameLocks c.our_state c'.our_state
          × SameLocks c.partner_state c'.partner_state)
        (register_onchain_secret c secret h block true)
unfolding register_onchain_secret
register_onchain_secret-IsSound x c secret h block s =
    Returns-bind (SameLocks c.our_state) _
      (register_onchain_secret_endstate c.our_state secret h block true) _
      (register_onchain-SameLocks c.our_state secret h block s.our_index)
      (λ our a.
        Returns-bind (SameLocks c.partner_state) _
          (register_onchain_secret_endstate c.partner_state secret h block true) _
          (register_onchain-SameLocks c.partner_state secret h block s.partner_index)
          (λ partner b. (SameLocks-IsSound x c.our_state our c.partner_state partner a b s, a, b)))

get_lock-candidate :
    (e : NettingChannelEndState) (h : ℕ) (l : HashTimeLockState)
    → IsIndexed e
    → get_lock e h ≡ some l
    → lookup h e.secrethashes_to_onchain_unlockedlocks ≡ none
    → candidate e h ≡ some l
unfolding get_lock
get_lock-candidate e h l i here not_onchain = ground (arith, i.apart h)

claimed-secret :
    (e : NettingChannelEndState) (secret h : ℕ) (l : HashTimeLockState)
    → IsIndexed e
    → get_secret (claimed e secret h l) h ≡ some secret
unfolding get_secret
claimed-secret e secret h l i = ground (
  arith,
  lookup-erase_self h e.secrethashes_to_unlockedlocks i.unlocked_dict,
  lookup-insert_self h (partial e secret h l) (erase h e.secrethashes_to_onchain_unlockedlocks),
)

claimed-locked :
    (e : NettingChannelEndState) (secret h : ℕ) (l : HashTimeLockState)
    → IsIndexed e
    → is_lock_locked (claimed e secret h l) h ≡ false
unfolding is_lock_locked
claimed-locked e secret h l i =
    ground (arith, lookup-erase_self h e.secrethashes_to_lockedlocks i.locked_dict)

-- When a secret is registered on chain for a lock of a well-indexed side, not unlocked on chain
-- before, then either the lock had expired before that block and the side does not change, or it
-- had not and the secret is known, the lock is still found and is no longer a locked one.
pub register_onchain_secret_known :
    (e : NettingChannelEndState) (secret h block : ℕ) (l : HashTimeLockState)
    → IsIndexed e
    → get_lock e h ≡ some l
    → lookup h e.secrethashes_to_onchain_unlockedlocks ≡ none
    → Returns
        (λ e'.
          ((l.expiration < block) × (e' ≡ e))
          ⊎ ((block ≤ l.expiration)
              × (get_secret e' h ≡ some secret)
              × (get_lock e' h ≡ some l)
              × (is_lock_locked e' h ≡ false)))
        (register_onchain_secret_endstate e secret h block true)
register_onchain_secret_known e secret h block l i here not_onchain =
    let found = get_lock-candidate e h l i here not_onchain in
    elim (Bool-cases (ltb l.expiration block)) [
      | inl late ↦
          rw (register_onchain-skip e secret h block (inr (l, found, late)))
            (inl (ground arith, refl))
      | inr in_time ↦ rw (register_onchain-eq e secret h block l found in_time) (
          inr (
            ground arith,
            claimed-secret e secret h l i,
            claimed-get_lock e secret h l h i here ∙ here,
            claimed-locked e secret h l i,
          ))
    ]
