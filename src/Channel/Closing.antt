-- ===== src/Channel/Closing.antt =====
-- Closing and settling a channel: src/gatecoin/transfer/channel.py, `_handle_channel_closed` and
-- `_handle_block`.
use gatecoin.Common.{
  ℕ, ◌+◌, ◌≡◌, refl, Bool, true, false, not, ◌&&◌, ◌==◌, Option, some, is_some, List, [], ◌∷◌,
  arith, inl, inr, ◌⊎◌, Bool-cases, Returns, ok,
}
use gatecoin.State.{
  ChannelState, BalanceProof, BalanceProofSignedState, received, NettingChannelState,
  TransactionExecutionStatus,
}
use gatecoin.Event.{Event}
use gatecoin.Channel.Query.{get_status, is_prior_to_closed}
use gatecoin.Channel.WithdrawHandle.{started}
use gatecoin.Channel.Onchain.{
  ContractReceiveChannelClosed, set_closed, signed_proof, handle_channel_closed, settle_closed,
}

-- The partner's balance proof, if there is one, is signed.
abbrev IsSigned : Option BalanceProof → Type 0
IsSigned p = (b : Option BalanceProofSignedState) × (signed_proof p ≡ ok b)

closed-status :
    (c : NettingChannelState) (n : ℕ)
    → is_prior_to_closed (get_status c) ≡ true
    → get_status (set_closed c n) ≡ ChannelState.closed
unfolding get_status set_closed
closed-status c n prior = ground arith

closed_silent :
    (c : NettingChannelState) (m : ContractReceiveChannelClosed)
    → get_status c ≡ ChannelState.closed
    → handle_channel_closed c m ≡ ok (c, [])
unfolding handle_channel_closed
closed_silent c m closed = ground arith

-- The channel after a close, with this update transaction.
abbrev after_close :
    NettingChannelState → ℕ → Option TransactionExecutionStatus → NettingChannelState
after_close c n u = record (set_closed c n) { update_transaction = u }

after_close-status :
    (c : NettingChannelState) (n : ℕ) (u : Option TransactionExecutionStatus)
    → is_prior_to_closed (get_status c) ≡ true
    → get_status (after_close c n u) ≡ ChannelState.closed
unfolding get_status set_closed
after_close-status c n u prior = ground arith

-- Is our node to send the update of the partner's balance proof?
abbrev needs_update : NettingChannelState → ContractReceiveChannelClosed → Bool
needs_update c m =
    not (m.transaction_from == c.our_state.address)
    && is_some c.partner_state.balance_proof
    && not (is_some c.update_transaction)

module _ (c : NettingChannelState) (m : ContractReceiveChannelClosed) where
  quiet-eq :
      (m.channel_identifier == c.canonical_identifier.channel_identifier) ≡ true
      → is_prior_to_closed (get_status c) ≡ true
      → needs_update c m ≡ false
      → handle_channel_closed c m
        ≡ ok (after_close c m.block_number (set_closed c m.block_number).update_transaction, [])
  unfolding handle_channel_closed
  quiet-eq id prior quiet = rw (id, prior, quiet) refl

  update-eq :
      (b : BalanceProofSignedState)
      → (m.channel_identifier == c.canonical_identifier.channel_identifier) ≡ true
      → is_prior_to_closed (get_status c) ≡ true
      → needs_update c m ≡ true
      → c.partner_state.balance_proof ≡ some (received b)
      → handle_channel_closed c m
        ≡ ok (
          after_close c m.block_number (some (started m.block_number)),
          Event.contract_send_update_transfer (m.block_number + c.settle_timeout) b m.block_hash
              ∷ [],
        )
  unfolding handle_channel_closed
  update-eq b id prior needed proof = rw (id, prior, needed, proof) refl

quiet_reason :
    (c : NettingChannelState) (m : ContractReceiveChannelClosed) (b : BalanceProofSignedState)
    → c.partner_state.balance_proof ≡ some (received b)
    → needs_update c m ≡ false
    → (m.transaction_from ≡ c.our_state.address)
      ⊎ (is_some (set_closed c m.block_number).update_transaction ≡ true)
unfolding set_closed
quiet_reason c m b proof quiet = ground arith

-- When a channel that is open or closing and has a signed balance proof of the partner's is
-- closed on chain, its status is closed afterwards. Either we closed it ourselves and nothing is
-- sent, or an update transaction is on record; a second closing event changes nothing and sends
-- nothing.
pub handle_channel_closed_once :
    (c : NettingChannelState) (m m' : ContractReceiveChannelClosed) (b : BalanceProofSignedState)
    → (m.channel_identifier == c.canonical_identifier.channel_identifier) ≡ true
    → is_prior_to_closed (get_status c) ≡ true
    → c.partner_state.balance_proof ≡ some (received b)
    → Returns
        (λ r.
          (get_status r.0 ≡ ChannelState.closed)
          × (((m.transaction_from ≡ c.our_state.address) × (r.1 ≡ []))
              ⊎ (is_some r.0.update_transaction ≡ true))
          × (handle_channel_closed r.0 m' ≡ ok (r.0, [])))
        (handle_channel_closed c m)
handle_channel_closed_once c m m' b id prior proof = elim (Bool-cases (needs_update c m)) [
  | inl needed ↦
      let u = some (started m.block_number) in
      let closed = after_close-status c m.block_number u prior in
      rw (update-eq c m b id prior needed proof)
        (closed, inr refl, closed_silent (after_close c m.block_number u) m' closed)
  | inr quiet ↦
      let u = (set_closed c m.block_number).update_transaction in
      let closed = after_close-status c m.block_number u prior in
      rw (quiet-eq c m id prior quiet) (
        closed,
        elim (quiet_reason c m b proof quiet) [ inl own ↦ inl (own, refl) | inr known ↦ inr known ],
        closed_silent (after_close c m.block_number u) m' closed,
      )
]

-- The part of the block handler that settles sends at most one event, only when the channel is
-- closed; the channel is settling afterwards, and no later block makes it send again.
pub settle_closed_once :
    (c c' : NettingChannelState) (n hash n' hash' : ℕ) (e : Event) (events : List Event)
    → settle_closed c n hash ≡ ok (c', e ∷ events)
    → (get_status c ≡ ChannelState.closed)
      × (get_status c' ≡ ChannelState.settling)
      × (events ≡ [])
      × (settle_closed c' n' hash' ≡ ok (c', []))
unfolding settle_closed get_status
settle_closed_once c c' n hash n' hash' e events h = ground arith
