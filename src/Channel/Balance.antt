-- ===== src/Channel/Balance.antt =====
-- The balances of a channel: src/gatecoin/transfer/channel.py, `get_balance`, `get_capacity` and
-- `get_distributable`.
use gatecoin.Common.{
  ℕ, ◌+◌, ◌≤◌, ◌≡◌, arith, pos, pos_part, neg_part, ◌+ℤ◌, ◌-ℤ◌, ◌≤ℤ◌, int_laws, min_ℤ_le, max_ℤ,
  max_ℤ_lub, max_ℤ_zero, ◌<◌,
}
use gatecoin.State.{
  uint256_max, NettingChannelEndState, NettingChannelState, total_withdraw, transferred_amount,
}
use gatecoin.Channel.Query.{
  get_balance, get_capacity, get_distributable, get_amount_locked, get_current_balanceproof,
}

-- The balances of the two sides of a channel add up to its capacity, whatever has been
-- transferred.
pub balance-add-capacity :
    (c : NettingChannelState)
    → get_balance c.our_state c.partner_state +ℤ get_balance c.partner_state c.our_state
      ≡ get_capacity c
unfolding get_balance get_capacity
balance-add-capacity c = omega int_laws

module _ (s r : NettingChannelEndState) where
  pub get_balance_parts :
      pos_part (get_balance s r) + total_withdraw s + transferred_amount s
      ≡ neg_part (get_balance s r) + s.contract_balance + transferred_amount r
  unfolding get_balance
  get_balance_parts = omega int_laws

  distributable_le :
      (get_distributable s r ≤ℤ get_balance s r -ℤ pos (get_amount_locked s))
      × (get_distributable s r ≤ℤ pos uint256_max)
  unfolding get_distributable
  distributable_le = (
    (min_ℤ_le _ _).1,
    omega (
      int_laws,
      min_ℤ_le (max_ℤ (pos uint256_max -ℤ pos bp.2 -ℤ pos bp.3) (pos 0))
          (get_balance s r -ℤ pos (get_amount_locked s)),
      max_ℤ_lub (pos uint256_max -ℤ pos bp.2 -ℤ pos bp.3) (pos 0) (pos uint256_max),
    ),
  )
    where
      bp : ℕ × ℕ × ℕ × ℕ
      bp = get_current_balanceproof s

  -- What a side can distribute together with what it has locked is at most its balance.
  pub distributable-locked-le :
      get_distributable s r +ℤ pos (get_amount_locked s) ≤ℤ get_balance s r
  distributable-locked-le = omega (int_laws, distributable_le)

  -- What is sent must be covered by the deposit, the withdraws, the transfers and the locks.
  pub covered_of_distributable :
      (amount : ℕ)
      → pos amount ≤ℤ get_distributable s r
      → amount + get_amount_locked s + total_withdraw s + transferred_amount s
        ≤ s.contract_balance + transferred_amount r
  covered_of_distributable amount h = omega (int_laws, distributable-locked-le, get_balance_parts)

  -- Nor do the amounts overflow.
  pub fits_of_distributable :
      (amount : ℕ)
      → 0 < amount
      → pos amount ≤ℤ get_distributable s r
      → (get_current_balanceproof s).2 + (get_current_balanceproof s).3 + amount ≤ uint256_max
  unfolding get_distributable
  fits_of_distributable amount p h = omega (
    int_laws,
    max_ℤ_zero (pos uint256_max -ℤ pos bp.2 -ℤ pos bp.3) amount p (
        omega (
          arith,
          min_ℤ_le (max_ℤ (pos uint256_max -ℤ pos bp.2 -ℤ pos bp.3) (pos 0))
              (get_balance s r -ℤ pos (get_amount_locked s)),
          h,
        )),
  )
    where
      bp : ℕ × ℕ × ℕ × ℕ
      bp = get_current_balanceproof s
