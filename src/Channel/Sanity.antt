-- ===== src/Channel/Sanity.antt =====
-- The invariant of a channel and `sanity_check` of src/gatecoin/transfer/channel.py, and a deposit.
use gatecoin.Common.{
  ℕ, ◌≡◌, refl, true, some, List, [], ◌∷◌, Dict, IsDict, lookup, pos, ◌≤ℤ◌, int_laws, arith, ok,
  inl, inr, Bool-cases, Option-cases, is_some, ◌||◌, ◌==◌,
}
use gatecoin.Externals.{Externals}
use gatecoin.State.{
  EncodedData, HashTimeLockState, UnlockPartialProofState, NettingChannelEndState,
  NettingChannelState,
}
use gatecoin.Channel.Query.{get_balance, get_current_balanceproof, get_lock, locksroot_of_no_locks}
use gatecoin.Channel.Lock.{encoded, has_data, join_words, compute_locksroot}
use gatecoin.Channel.Balance.{balance-add-capacity, distributable-locked-le}
use gatecoin.Channel.Index.{IsIndexed}
use gatecoin.Channel.Invariant.{IsBacked, IsSolvent, current-IsBacked}
use gatecoin.Channel.Receive.Sound.{IsSoundChannel}
use gatecoin.Channel.Transition.{
  check_withdraws, locks_listed, unlocks_listed, check_listed, sanity_check,
}

locks-listed :
    (d : Dict HashTimeLockState) (locks : List EncodedData)
    → IsDict d
    → ((k : ℕ) (l : HashTimeLockState) → lookup k d ≡ some l → has_data (encoded l) locks ≡ true)
    → locks_listed d locks ≡ true
unfolding locks_listed
locks-listed [] locks once h = refl
locks-listed ((j, m) ∷ d) locks once h =
    let rest : (k : ℕ) (l : HashTimeLockState)
        → lookup k d ≡ some l
        → has_data (encoded l) locks ≡ true =
      λ k l found. elim (Bool-cases (k == j)) [
        | inl same ↦ absurd (ground arith)
        | inr other ↦ h k l (ground arith)
      ] in
    ground (arith, h j m, locks-listed d locks once.1 rest)

unlocks-listed :
    (d : Dict UnlockPartialProofState) (locks : List EncodedData)
    → IsDict d
    → ((k : ℕ) (p : UnlockPartialProofState)
        → lookup k d ≡ some p
        → has_data (encoded p.lock) locks ≡ true)
    → unlocks_listed d locks ≡ true
unfolding unlocks_listed
unlocks-listed [] locks once h = refl
unlocks-listed ((j, m) ∷ d) locks once h =
    let rest : (k : ℕ) (p : UnlockPartialProofState)
        → lookup k d ≡ some p
        → has_data (encoded p.lock) locks ≡ true =
      λ k p found. elim (Bool-cases (k == j)) [
        | inl same ↦ absurd (ground arith)
        | inr other ↦ h k p (ground arith)
      ] in
    ground (arith, h j m, unlocks-listed d locks once.1 rest)

check_listed-ok : (e : NettingChannelEndState) → IsIndexed e → check_listed e ≡ ok tt
unfolding check_listed get_lock
check_listed-ok e i = ground (
  arith,
  locks-listed e.secrethashes_to_lockedlocks e.pending_locks i.locked_dict
      (λ k l found. (i.listed k l (ground arith)).1),
  unlocks-listed e.secrethashes_to_unlockedlocks e.pending_locks i.unlocked_dict
      (λ k p found. (i.listed k p.lock (ground (arith, i.apart k))).1),
  unlocks-listed e.secrethashes_to_onchain_unlockedlocks e.pending_locks i.onchain_dict
      (λ k p found. (i.listed k p.lock (ground (arith, i.apart k))).1),
)

-- The balance of a side is what is not yet spent.
balance_nonnegative : (s r : NettingChannelEndState) → IsSolvent s r → pos 0 ≤ℤ get_balance s r
unfolding get_balance
balance_nonnegative s r h = omega (int_laws, h)

-- The hash of no locks is the constant of the sources.
current-root :
    (x : Externals) (e : NettingChannelEndState)
    → x.keccak [] ≡ locksroot_of_no_locks
    → IsBacked x e
    → compute_locksroot x e.pending_locks ≡ (get_current_balanceproof e).0
unfolding get_current_balanceproof compute_locksroot join_words
current-root x e empty b = elim (Option-cases e.balance_proof) [
  | inl missing ↦ ground arith
  | inr (p, there) ↦ ground arith
]

-- `sanity_check` passes on every sound channel whose own pending withdraws are found by their
-- totals and in growing order (in any order during a cooperative settle), where the constant of
-- no locks is the hash of the empty list.
pub sanity_check-ok :
    (x : Externals) (c : NettingChannelState)
    → x.keccak [] ≡ locksroot_of_no_locks
    → IsSoundChannel x c
    → check_withdraws
        (is_some c.our_state.initiated_coop_settle || is_some c.partner_state.initiated_coop_settle)
        0
        c.our_state.withdraws_pending
      ≡ ok tt
    → sanity_check x c ≡ ok tt
unfolding sanity_check
sanity_check-ok x c empty h w = ground (
  arith,
  balance_nonnegative c.our_state c.partner_state h.our_solvent,
  balance_nonnegative c.partner_state c.our_state h.partner_solvent,
  balance-add-capacity c,
  current-IsBacked x c.our_state h.our_backed,
  current-IsBacked x c.partner_state h.partner_backed,
  current-root x c.our_state empty h.our_backed,
  current-root x c.partner_state empty h.partner_backed,
  distributable-locked-le c.our_state c.partner_state,
  distributable-locked-le c.partner_state c.our_state,
  check_listed-ok c.our_state h.our_index,
  check_listed-ok c.partner_state h.partner_index,
)
