-- ===== src/Channel/Secret.antt =====
-- Registering a secret, learned off chain or on chain: src/gatecoin/transfer/channel.py,
-- `register_secret_endstate` to `register_onchain_secret`.
pub mod Moves
pub mod Sound
pub mod Recorded
use gatecoin.Common.{
  ℕ, Bool, if◌then◌else◌, ltb, Option, none, some, lookup, insert, erase, or_else, Result, ok,
  ◌>>=◌,
}
use gatecoin.State.{
  HashTimeLockState, UnlockPartialProofState, NettingChannelEndState, NettingChannelState,
}
use gatecoin.Channel.Query.{lock_of}
use gatecoin.Channel.Lock.{del_lock}

unfoldable pub register_secret_endstate : NettingChannelEndState → ℕ → ℕ → NettingChannelEndState
register_secret_endstate e secret h = elim (lookup h e.secrethashes_to_lockedlocks) [
  | none ↦ e
  | some l ↦ record e {
    secrethashes_to_lockedlocks = erase h e.secrethashes_to_lockedlocks;
    secrethashes_to_unlockedlocks =
        insert h (record { lock = l; secret = secret }) e.secrethashes_to_unlockedlocks;
  }
]

-- The lock as an unlocked one on chain.
abbrev pub claim_onchain :
    NettingChannelEndState → ℕ → ℕ → HashTimeLockState → NettingChannelEndState
claim_onchain e secret h l = record e {
  secrethashes_to_onchain_unlockedlocks =
      insert h (record { lock = l; secret = secret }) e.secrethashes_to_onchain_unlockedlocks;
}

-- An unlocked lock is preferred to a locked one; a lock that expired before the secret was mined
-- stays as it is.
unfoldable pub register_onchain_secret_endstate :
    NettingChannelEndState → ℕ → ℕ → ℕ → Bool → Result NettingChannelEndState
register_onchain_secret_endstate e secret h block delete_lock =
    elim (or_else (lock_of (lookup h e.secrethashes_to_unlockedlocks))
      (lookup h e.secrethashes_to_lockedlocks)) [
        | none ↦ ok e
        | some l ↦
            let claimed : Result NettingChannelEndState = do
              e' ← if delete_lock then del_lock e h else ok e
              ok (claim_onchain e' secret h l)
            in if ltb l.expiration block then ok e else claimed
      ]

unfoldable pub register_offchain_secret : NettingChannelState → ℕ → ℕ → NettingChannelState
register_offchain_secret c secret h = record c {
  our_state = register_secret_endstate c.our_state secret h;
  partner_state = register_secret_endstate c.partner_state secret h;
}

unfoldable pub register_onchain_secret :
    NettingChannelState → ℕ → ℕ → ℕ → Bool → Result NettingChannelState
register_onchain_secret c secret h block delete_lock = do
  our ← register_onchain_secret_endstate c.our_state secret h block delete_lock
  partner ← register_onchain_secret_endstate c.partner_state secret h block delete_lock
  ok (record c { our_state = our; partner_state = partner })
