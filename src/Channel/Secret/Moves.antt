-- ===== src/Channel/Secret/Moves.antt =====
-- A lock that moves between the dicts of one side of a channel, as `register_secret_endstate` and
-- `register_onchain_secret_endstate` of src/gatecoin/transfer/channel.py move it.
use gatecoin.Common.{
  ℕ, ◌≡◌, ◌≢◌, refl, Option, none, some, arith, ◌∙◌, Bool-cases, inl, inr, lookup, insert, erase,
  lookup-insert_self, lookup-insert_ne, ◌==◌, lookup-erase_self, lookup-erase_ne, insert-IsDict,
  erase-IsDict, sum_of-insert_new, sum_of-erase, subst, sym,
}
use gatecoin.Externals.{Externals}
use gatecoin.State.{
  HashTimeLockState, UnlockPartialProofState, NettingChannelEndState, total_withdraw,
  transferred_amount, offchain_total_withdraw, BalanceProof,
}
use gatecoin.Channel.Query.{get_lock, get_amount_locked, lock_amount, unlock_amount}
use gatecoin.Channel.Index.{IsIndexed, AtMostOne}
use gatecoin.Channel.Invariant.{IsSound, Backs}

-- What a side keeps when only the index of its locks changes.
pub record SameLocks (e e' : NettingChannelEndState) : Type 0 where
  pub index : IsIndexed e → IsIndexed e'
  pub locks : (k : ℕ) → get_lock e' k ≡ get_lock e k
  pub amount : get_amount_locked e' ≡ get_amount_locked e
  pub withdraw : total_withdraw e' ≡ total_withdraw e
  pub transferred : transferred_amount e' ≡ transferred_amount e
  pub deposit : e'.contract_balance ≡ e.contract_balance
  pub proof : e'.balance_proof ≡ e.balance_proof
  pub pending : e'.pending_locks ≡ e.pending_locks

pub SameLocks-refl : (e : NettingChannelEndState) → SameLocks e e
SameLocks-refl e = record {
  index = λ i. i;
  locks = λ k. refl;
  amount = refl;
  withdraw = refl;
  transferred = refl;
  deposit = refl;
  proof = refl;
  pending = refl;
}

Backs-SameLocks :
    (x : Externals) (e e' : NettingChannelEndState) (b : Option BalanceProof)
    → get_amount_locked e' ≡ get_amount_locked e
    → e'.pending_locks ≡ e.pending_locks
    → Backs x e b
    → Backs x e' b
Backs-SameLocks x e e' none a p h = ground arith
Backs-SameLocks x e e' (some b) a p h = ground arith

pub SameLocks-IsSound :
    (x : Externals) (a a' b b' : NettingChannelEndState)
    → SameLocks a a'
    → SameLocks b b'
    → IsSound x a b
    → IsSound x a' b'
SameLocks-IsSound x a a' b b' s t h = record {
  our_index = s.index h.our_index;
  partner_index = t.index h.partner_index;
  our_backed =
      subst (Backs x a') (sym s.proof)
        (Backs-SameLocks x a a' a.balance_proof s.amount s.pending h.our_backed);
  partner_backed =
      subst (Backs x b') (sym t.proof)
        (Backs-SameLocks x b b' b.balance_proof t.amount t.pending h.partner_backed);
  our_solvent = rw (s.amount, s.withdraw, s.transferred, s.deposit, t.transferred) h.our_solvent;
  partner_solvent =
      rw (t.amount, t.withdraw, t.transferred, t.deposit, s.transferred) h.partner_solvent;
}

module _ (e : NettingChannelEndState) (secret h : ℕ) (l : HashTimeLockState) where
  -- The partial proof that is stored.
  abbrev pub partial : UnlockPartialProofState
  partial = record { lock = l; secret = secret }

  abbrev pub unlocked : NettingChannelEndState
  unlocked = record e {
    secrethashes_to_lockedlocks = erase h e.secrethashes_to_lockedlocks;
    secrethashes_to_unlockedlocks = insert h partial e.secrethashes_to_unlockedlocks;
  }

  unlocked-get_lock :
      (k : ℕ)
      → IsIndexed e
      → lookup h e.secrethashes_to_lockedlocks ≡ some l
      → get_lock unlocked k ≡ get_lock e k
  unfolding get_lock
  unlocked-get_lock k i here = elim (Bool-cases (k == h)) [
    | inl same ↦ ground (
      arith,
      lookup-erase_self h e.secrethashes_to_lockedlocks i.locked_dict,
      lookup-insert_self h partial e.secrethashes_to_unlockedlocks,
    )
    | inr other ↦ ground (
      arith,
      lookup-erase_ne h k e.secrethashes_to_lockedlocks,
      lookup-insert_ne k h partial e.secrethashes_to_unlockedlocks,
    )
  ]

  unlocked-amount :
      IsIndexed e
      → lookup h e.secrethashes_to_lockedlocks ≡ some l
      → get_amount_locked unlocked ≡ get_amount_locked e
  unfolding get_amount_locked
  unlocked-amount i here = ground (
    arith,
    i.apart h,
    sum_of-erase h lock_amount e.secrethashes_to_lockedlocks,
    sum_of-insert_new h partial unlock_amount e.secrethashes_to_unlockedlocks,
  )

  unlocked-apart :
      (k : ℕ) → IsIndexed e → lookup h e.secrethashes_to_lockedlocks ≡ some l → AtMostOne unlocked k
  unlocked-apart k i here = elim (Bool-cases (k == h)) [
    | inl same ↦
        ground (arith, i.apart h, lookup-erase_self h e.secrethashes_to_lockedlocks i.locked_dict)
    | inr other ↦
        let n : k ≢ h = λ p. ground arith in
        rw
          (
            lookup-erase_ne h k e.secrethashes_to_lockedlocks n,
            lookup-insert_ne k h partial e.secrethashes_to_unlockedlocks n,
          )
          (i.apart k)
  ]

  pub unlocked-SameLocks :
      IsIndexed e → lookup h e.secrethashes_to_lockedlocks ≡ some l → SameLocks e unlocked
  unfolding total_withdraw offchain_total_withdraw transferred_amount
  unlocked-SameLocks i here = record {
    index = λ _. record {
      locked_dict = erase-IsDict h e.secrethashes_to_lockedlocks i.locked_dict;
      unlocked_dict = insert-IsDict h partial e.secrethashes_to_unlockedlocks i.unlocked_dict;
      onchain_dict = i.onchain_dict;
      apart = λ k. unlocked-apart k i here;
      listed = λ k m found. i.listed k m (sym (unlocked-get_lock k i here) ∙ found);
    };
    locks = λ k. unlocked-get_lock k i here;
    amount = unlocked-amount i here;
    withdraw = refl;
    transferred = refl;
    deposit = refl;
    proof = refl;
    pending = refl;
  }

  abbrev pub claimed : NettingChannelEndState
  claimed = record e {
    secrethashes_to_lockedlocks = erase h e.secrethashes_to_lockedlocks;
    secrethashes_to_unlockedlocks = erase h e.secrethashes_to_unlockedlocks;
    secrethashes_to_onchain_unlockedlocks =
        insert h partial (erase h e.secrethashes_to_onchain_unlockedlocks);
  }

  pub claimed-get_lock :
      (k : ℕ) → IsIndexed e → get_lock e h ≡ some l → get_lock claimed k ≡ get_lock e k
  unfolding get_lock
  claimed-get_lock k i here = elim (Bool-cases (k == h)) [
    | inl same ↦ ground (
      arith,
      lookup-erase_self h e.secrethashes_to_lockedlocks i.locked_dict,
      lookup-erase_self h e.secrethashes_to_unlockedlocks i.unlocked_dict,
      lookup-insert_self h partial (erase h e.secrethashes_to_onchain_unlockedlocks),
    )
    | inr other ↦ ground (
      arith,
      lookup-erase_ne h k e.secrethashes_to_lockedlocks,
      lookup-erase_ne h k e.secrethashes_to_unlockedlocks,
      lookup-erase_ne h k e.secrethashes_to_onchain_unlockedlocks,
      lookup-insert_ne k h partial (erase h e.secrethashes_to_onchain_unlockedlocks),
    )
  ]

  claimed-amount :
      IsIndexed e → get_lock e h ≡ some l → get_amount_locked claimed ≡ get_amount_locked e
  unfolding get_amount_locked get_lock
  claimed-amount i here = ground (
    arith,
    i.apart h,
    sum_of-erase h lock_amount e.secrethashes_to_lockedlocks,
    sum_of-erase h unlock_amount e.secrethashes_to_unlockedlocks,
    sum_of-erase h unlock_amount e.secrethashes_to_onchain_unlockedlocks,
    sum_of-insert_new h partial unlock_amount (erase h e.secrethashes_to_onchain_unlockedlocks)
        (lookup-erase_self h e.secrethashes_to_onchain_unlockedlocks i.onchain_dict),
  )

  claimed-apart : (k : ℕ) → IsIndexed e → AtMostOne claimed k
  claimed-apart k i = elim (Bool-cases (k == h)) [
    | inl same ↦ ground (
      arith,
      lookup-erase_self h e.secrethashes_to_lockedlocks i.locked_dict,
      lookup-erase_self h e.secrethashes_to_unlockedlocks i.unlocked_dict,
    )
    | inr other ↦
        let n : k ≢ h = λ p. ground arith in
        rw
          (
            lookup-erase_ne h k e.secrethashes_to_lockedlocks n,
            lookup-erase_ne h k e.secrethashes_to_unlockedlocks n,
            lookup-insert_ne k h partial (erase h e.secrethashes_to_onchain_unlockedlocks) n,
            lookup-erase_ne h k e.secrethashes_to_onchain_unlockedlocks n,
          )
          (i.apart k)
  ]

  pub claimed-SameLocks : IsIndexed e → get_lock e h ≡ some l → SameLocks e claimed
  unfolding total_withdraw offchain_total_withdraw transferred_amount
  claimed-SameLocks i here = record {
    index = λ _. record {
      locked_dict = erase-IsDict h e.secrethashes_to_lockedlocks i.locked_dict;
      unlocked_dict = erase-IsDict h e.secrethashes_to_unlockedlocks i.unlocked_dict;
      onchain_dict =
          insert-IsDict h partial (erase h e.secrethashes_to_onchain_unlockedlocks)
            (erase-IsDict h e.secrethashes_to_onchain_unlockedlocks i.onchain_dict);
      apart = λ k. claimed-apart k i;
      listed = λ k m found. i.listed k m (sym (claimed-get_lock k i here) ∙ found);
    };
    locks = λ k. claimed-get_lock k i here;
    amount = claimed-amount i here;
    withdraw = refl;
    transferred = refl;
    deposit = refl;
    proof = refl;
    pending = refl;
  }
