-- ===== src/Channel/Invariant.antt =====
-- The invariant of a channel, which `sanity_check` of src/gatecoin/transfer/channel.py tests in
-- part, and how a new, an unlocked and an expired lock keep it. A side is the sender of a balance
-- proof; the other side is its receiver.
use gatecoin.Common.{
  ℕ, ◌+◌, ◌≤◌, ◌≡◌, refl, Option, none, some, List, [], ◌∷◌, ◌++◌, pos, ◌≤ℤ◌, arith,
}
use gatecoin.Externals.{Externals}
use gatecoin.State.{
  BalanceProof, EncodedData, HashTimeLockState, NettingChannelEndState, proof_fields,
  total_withdraw, transferred_amount, offchain_total_withdraw,
}
use gatecoin.Channel.Query.{
  get_lock, get_amount_locked, get_distributable, get_current_balanceproof,
}
use gatecoin.Channel.Lock.{encoded, remove_data, compute_locksroot}
use gatecoin.Channel.Balance.{covered_of_distributable}
use gatecoin.Channel.Index.{
  IsIndexed, with_lock, without_lock, amount-with_lock, amount-without_lock, with_lock-IsIndexed,
  without_lock-IsIndexed,
}

-- The locked amount and the locksroot of a balance proof are those of the pending locks; without a
-- balance proof nothing is locked.
abbrev pub Backs : Externals → NettingChannelEndState → Option BalanceProof → Type 0
Backs x e none = (get_amount_locked e ≡ 0) × (e.pending_locks ≡ [])
Backs x e (some b) =
    ((proof_fields b).locksroot ≡ compute_locksroot x e.pending_locks)
    × ((proof_fields b).locked_amount ≡ get_amount_locked e)

abbrev pub IsBacked : Externals → NettingChannelEndState → Type 0
IsBacked x e = Backs x e e.balance_proof

-- What the sender has locked, withdrawn and sent is covered by its deposit and what it received.
abbrev pub IsSolvent : NettingChannelEndState → NettingChannelEndState → Type 0
IsSolvent s r =
    get_amount_locked s + total_withdraw s + transferred_amount s
    ≤ s.contract_balance + transferred_amount r

-- Both sides of a channel.
pub record IsSound (x : Externals) (our partner : NettingChannelEndState) : Type 0 where
  pub our_index : IsIndexed our
  pub partner_index : IsIndexed partner
  pub our_backed : IsBacked x our
  pub partner_backed : IsBacked x partner
  pub our_solvent : IsSolvent our partner
  pub partner_solvent : IsSolvent partner our

pub IsSound-swap : {x : Externals} {a b : NettingChannelEndState} → IsSound x a b → IsSound x b a
IsSound-swap h = record {
  our_index = h.partner_index;
  partner_index = h.our_index;
  our_backed = h.partner_backed;
  partner_backed = h.our_backed;
  our_solvent = h.partner_solvent;
  partner_solvent = h.our_solvent;
}

-- A side with another balance proof and nonce.
abbrev pub with_proof : NettingChannelEndState → BalanceProof → ℕ → NettingChannelEndState
with_proof e b n = record e { balance_proof = some b; nonce = n }

module _ (e : NettingChannelEndState) (b : BalanceProof) (n : ℕ) where
  with_proof-IsIndexed : IsIndexed e → IsIndexed (with_proof e b n)
  unfolding get_lock
  with_proof-IsIndexed i = record {
    locked_dict = i.locked_dict;
    unlocked_dict = i.unlocked_dict;
    onchain_dict = i.onchain_dict;
    apart = i.apart;
    listed = i.listed;
  }

-- What the invariant reads of a side that has one more lock and a new balance proof.
pub with_lock_facts :
    (s : NettingChannelEndState) (b : BalanceProof) (n : ℕ) (l : HashTimeLockState)
    (locks : List EncodedData)
    → get_lock s l.secrethash ≡ none
    → let s' = with_proof (with_lock s locks l) b n in
      (get_amount_locked s' ≡ get_amount_locked s + l.amount)
      × (total_withdraw s' ≡ total_withdraw s)
      × (transferred_amount s' ≡ (proof_fields b).transferred_amount)
unfolding get_amount_locked total_withdraw offchain_total_withdraw transferred_amount
with_lock_facts s b n l locks fresh = (amount-with_lock s l locks fresh, refl, refl)

-- The same for a side with one lock less.
pub without_lock_facts :
    (s : NettingChannelEndState) (b : BalanceProof) (n h : ℕ) (l : HashTimeLockState)
    (locks : List EncodedData)
    → IsIndexed s
    → get_lock s h ≡ some l
    → let s' = with_proof (without_lock s locks h) b n in
      (get_amount_locked s' + l.amount ≡ get_amount_locked s)
      × (total_withdraw s' ≡ total_withdraw s)
      × (transferred_amount s' ≡ (proof_fields b).transferred_amount)
unfolding get_amount_locked total_withdraw offchain_total_withdraw transferred_amount
without_lock_facts s b n h l locks i here = (amount-without_lock s h l locks i here, refl, refl)

module _ (x : Externals) (s r : NettingChannelEndState) (b : BalanceProof) (n : ℕ)
    (l : HashTimeLockState) where
  -- A lock under a secrethash that is not in use, covered by what the sender can distribute.
  pub new_lock-IsSound :
      get_lock s l.secrethash ≡ none
      → pos l.amount ≤ℤ get_distributable s r
      → (proof_fields b).locksroot ≡ compute_locksroot x (s.pending_locks ++ encoded l ∷ [])
      → (proof_fields b).transferred_amount ≡ transferred_amount s
      → (proof_fields b).locked_amount ≡ get_amount_locked s + l.amount
      → IsSound x s r
      → IsSound x (with_proof (with_lock s (s.pending_locks ++ encoded l ∷ []) l) b n) r
  new_lock-IsSound fresh covered root sent locked h = record {
    our_index =
        with_proof-IsIndexed (with_lock s (s.pending_locks ++ encoded l ∷ []) l) b n
          (with_lock-IsIndexed s l fresh h.our_index);
    partner_index = h.partner_index;
    our_backed = (root, omega (arith, facts));
    partner_backed = h.partner_backed;
    our_solvent = omega (arith, facts, covered_of_distributable s r l.amount covered);
    partner_solvent = omega (arith, facts, h.partner_solvent);
  }
    where
      facts :
          let s' = with_proof (with_lock s (s.pending_locks ++ encoded l ∷ []) l) b n in
          (get_amount_locked s' ≡ get_amount_locked s + l.amount)
          × (total_withdraw s' ≡ total_withdraw s)
          × (transferred_amount s' ≡ (proof_fields b).transferred_amount)
      facts = with_lock_facts s b n l (s.pending_locks ++ encoded l ∷ []) fresh

  -- A lock that leaves for `gain` more transferred: all of its amount, or nothing.
  pub old_lock-IsSound :
      (h gain : ℕ)
      → get_lock s h ≡ some l
      → gain ≤ l.amount
      → (proof_fields b).locksroot ≡ compute_locksroot x (remove_data (encoded l) s.pending_locks)
      → (proof_fields b).transferred_amount ≡ transferred_amount s + gain
      → (proof_fields b).locked_amount + l.amount ≡ get_amount_locked s
      → IsSound x s r
      → IsSound x (with_proof (without_lock s (remove_data (encoded l) s.pending_locks) h) b n) r
  old_lock-IsSound h gain here part root sent locked i = record {
    our_index =
        with_proof-IsIndexed (without_lock s (remove_data (encoded l) s.pending_locks) h) b n
          (without_lock-IsIndexed s h l here i.our_index);
    partner_index = i.partner_index;
    our_backed = (root, omega (arith, facts));
    partner_backed = i.partner_backed;
    our_solvent = omega (arith, facts, i.our_solvent);
    partner_solvent = omega (arith, facts, i.partner_solvent);
  }
    where
      facts :
          let s' = with_proof (without_lock s (remove_data (encoded l) s.pending_locks) h) b n in
          (get_amount_locked s' + l.amount ≡ get_amount_locked s)
          × (total_withdraw s' ≡ total_withdraw s)
          × (transferred_amount s' ≡ (proof_fields b).transferred_amount)
      facts =
          without_lock_facts s b n h l (remove_data (encoded l) s.pending_locks) i.our_index here

-- The last two amounts of the current balance proof, for a side whose locks it backs.
pub current-IsBacked :
    (x : Externals) (e : NettingChannelEndState)
    → IsBacked x e
    → ((get_current_balanceproof e).2 ≡ transferred_amount e)
      × ((get_current_balanceproof e).3 ≡ get_amount_locked e)
unfolding get_current_balanceproof transferred_amount
current-IsBacked x e h = ground arith
