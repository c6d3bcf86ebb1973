-- ===== src/Channel/Deposit.antt =====
-- A deposit through the whole transition of a channel: src/gatecoin/transfer/channel.py,
-- `_handle_channel_deposit` and `state_transition`.
use gatecoin.Common.{
  ℕ, ◌≤◌, ◌≡◌, refl, Option, none, some, [], ltb, arith, inl, inr, Bool-cases, is_some, ◌||◌, ok,
  ◌==◌,
}
use gatecoin.Externals.{Externals}
use gatecoin.State.{
  NettingChannelEndState, NettingChannelState, total_withdraw, transferred_amount,
  offchain_total_withdraw, BalanceProof,
}
use gatecoin.Channel.Query.{get_amount_locked, get_lock, locksroot_of_no_locks}
use gatecoin.Channel.Invariant.{IsSound, IsSound-swap, Backs}
use gatecoin.Channel.Receive.Sound.{IsSoundChannel}
use gatecoin.Channel.Onchain.{
  handle_channel_deposit, update_contract_balance, update_fee_schedule_after_balance_change,
}
use gatecoin.Channel.Transition.{
  StateChange, check_withdraws, handle_state_transitions, state_transition,
}
use gatecoin.Channel.Sanity.{sanity_check-ok}

-- A side with a larger deposit.
abbrev funded : NettingChannelEndState → ℕ → NettingChannelEndState
funded e n = record e { contract_balance = n }

funded-Backs :
    (x : Externals) (e : NettingChannelEndState) (n : ℕ) (b : Option BalanceProof)
    → Backs x e b
    → Backs x (funded e n) b
unfolding get_amount_locked
funded-Backs x e n none h = h
funded-Backs x e n (some b) h = h

funded-IsSound :
    (x : Externals) (s r : NettingChannelEndState) (n : ℕ)
    → s.contract_balance ≤ n
    → IsSound x s r
    → IsSound x (funded s n) r
unfolding get_amount_locked get_lock total_withdraw offchain_total_withdraw transferred_amount
funded-IsSound x s r n more h = record {
  our_index = record {
    locked_dict = h.our_index.locked_dict;
    unlocked_dict = h.our_index.unlocked_dict;
    onchain_dict = h.our_index.onchain_dict;
    apart = h.our_index.apart;
    listed = h.our_index.listed;
  };
  partner_index = h.partner_index;
  our_backed = funded-Backs x s n s.balance_proof h.our_backed;
  partner_backed = h.partner_backed;
  our_solvent = omega (arith, h.our_solvent);
  partner_solvent = h.partner_solvent;
}

update-IsSound :
    (x : Externals) (s r : NettingChannelEndState) (n : ℕ)
    → IsSound x s r
    → IsSound x (update_contract_balance s n) r
unfolding update_contract_balance
update-IsSound x s r n h = elim (Bool-cases (ltb s.contract_balance n)) [
  | inl more ↦ rw more (funded-IsSound x s r n (ground arith) h)
  | inr less ↦ rw less h
]

update-pending :
    (e : NettingChannelEndState) (n : ℕ)
    → ((update_contract_balance e n).withdraws_pending ≡ e.withdraws_pending)
      × ((update_contract_balance e n).initiated_coop_settle ≡ e.initiated_coop_settle)
unfolding update_contract_balance
update-pending e n = ground arith

module _ (x : Externals) (c : NettingChannelState) (participant total fee : ℕ) where
  abbrev deposited : NettingChannelState
  deposited = (handle_channel_deposit x c participant total fee).0

  deposited-IsSound : IsSoundChannel x c → IsSoundChannel x deposited
  unfolding handle_channel_deposit update_fee_schedule_after_balance_change
  deposited-IsSound h = elim (Bool-cases (participant == c.our_state.address)) [
    | inl ours ↦ rw ours (update-IsSound x c.our_state c.partner_state total h)
    | inr other ↦ elim (Bool-cases (participant == c.partner_state.address)) [
      | inl theirs ↦
          rw (other, theirs)
            (IsSound-swap (update-IsSound x c.partner_state c.our_state total (IsSound-swap h)))
      | inr nobody ↦ rw (other, nobody) h
    ]
  ]

  deposited-pending :
      (deposited.our_state.withdraws_pending ≡ c.our_state.withdraws_pending)
      × (deposited.our_state.initiated_coop_settle ≡ c.our_state.initiated_coop_settle)
      × (deposited.partner_state.initiated_coop_settle ≡ c.partner_state.initiated_coop_settle)
  unfolding handle_channel_deposit update_fee_schedule_after_balance_change
  deposited-pending =
      ground (arith, update-pending c.our_state total, update-pending c.partner_state total)

  deposited_silent : (handle_channel_deposit x c participant total fee).1 ≡ []
  unfolding handle_channel_deposit
  deposited_silent = refl

  -- A deposit goes through `state_transition`, with its sanity check, on every sound channel
  -- whose own pending withdraws are found by their totals and in growing order (in any order
  -- during a cooperative settle), where the constant of no locks is the hash of the empty list.
  -- No event and no random number comes of it, and the channel is sound afterwards, whoever made
  -- the deposit.
  pub state_transition-deposit :
      (block_number block_hash prng : ℕ)
      → x.keccak [] ≡ locksroot_of_no_locks
      → IsSoundChannel x c
      → check_withdraws
          (is_some c.our_state.initiated_coop_settle
            || is_some c.partner_state.initiated_coop_settle)
          0
          c.our_state.withdraws_pending
        ≡ ok tt
      → (state_transition x c
            (StateChange.contract_receive_channel_deposit participant total fee)
            block_number
            block_hash
            prng
          ≡ ok (some deposited, prng, []))
        × IsSoundChannel x deposited
  unfolding state_transition handle_state_transitions
  state_transition-deposit block_number block_hash prng empty h w =
      let p = deposited-pending in
      let s = deposited-IsSound h in
      let checked = sanity_check-ok x deposited empty s (rw (p.0, p.1, p.2) w) in
      (ground (arith, checked, deposited_silent), s)
