-- ===== src/Channel/SettleRequest.antt =====
-- What a withdraw request that belongs to a cooperative settle leads to:
-- src/gatecoin/transfer/channel.py, `_handle_receive_withdraw_request`.
use gatecoin.Common.{
  ℕ, ◌≡◌, refl, true, false, none, some, [], ◌∷◌, pos, eqb_ℤ, ◌+ℤ◌, ◌-ℤ◌, arith, raise, Fault,
  Returns, ltb, ℤ, ap, Option, ◌+◌, ◌↔◌, ◌≢◌, ◌∙◌, eq_of_parts, Bool-cases, inl, inr, sym,
}
use gatecoin.Externals.{Externals}
use gatecoin.State.{
  CoopSettleState, NettingChannelEndState, NettingChannelState, PendingWithdrawState,
  transferred_amount,
}
use gatecoin.Event.{Event}
use gatecoin.Channel.Query.{
  get_max_withdraw_amount, get_next_nonce, get_safe_initial_expiration,
  get_number_of_pending_transfers, get_status, is_prior_to_closed,
}
use gatecoin.Channel.Check.{success}
use gatecoin.Channel.Withdraw.{add_pending, send_withdraw_request}
use gatecoin.Channel.WithdrawCheck.{
  is_valid_action_coopsettle, ReceiveWithdrawRequest, is_valid_withdraw_request,
}
use gatecoin.Channel.WithdrawHandle.{
  events_for_coop_settle, handle_action_coop_settle, requested_withdraw,
  handle_receive_withdraw_request, settle_request,
}

max-pending :
    (s r : NettingChannelEndState) (w : PendingWithdrawState)
    → get_max_withdraw_amount (add_pending s w) r ≡ get_max_withdraw_amount s r
unfolding get_max_withdraw_amount transferred_amount
max-pending s r w = refl

max-pending_other :
    (s r : NettingChannelEndState) (w : PendingWithdrawState)
    → get_max_withdraw_amount r (add_pending s w) ≡ get_max_withdraw_amount r s
unfolding get_max_withdraw_amount transferred_amount
max-pending_other s r w = refl

module _ (x : Externals) (c : NettingChannelState) (m : ReceiveWithdrawRequest) where
  -- The request is valid, for all that the partner can withdraw, and the partner has no locks.
  pub record IsFullRequest : Type 0 where
    pub accepted : is_valid_withdraw_request x c m ≡ success
    pub full :
        eqb_ℤ (get_max_withdraw_amount c.partner_state c.our_state) (pos m.total_withdraw) ≡ true
    pub unlocked : ltb 0 (get_number_of_pending_transfers c.partner_state) ≡ false

-- Our withdraw request for a total, by the expiration of the partner's.
abbrev pub our_request : Externals → NettingChannelState → ReceiveWithdrawRequest → ℕ → ℕ → Event
our_request x c m total prng =
    Event.send_withdraw_request
      (record {
        recipient = c.partner_state.address;
        recipient_metadata = m.sender_metadata;
        canonical_identifier = c.canonical_identifier;
        message_identifier = (x.randint prng).0;
      })
      (record {
        total_withdraw = total;
        participant = c.our_state.address;
        expiration = m.expiration;
        nonce = c.our_state.nonce + 1;
      })
      false

-- The confirmation of the partner's request, with the nonce after that of our request.
abbrev pub our_confirmation : NettingChannelState → ReceiveWithdrawRequest → Event
our_confirmation c m =
    Event.send_withdraw_confirmation
      (record {
        recipient = c.partner_state.address;
        recipient_metadata = m.sender_metadata;
        canonical_identifier = c.canonical_identifier;
        message_identifier = m.message_identifier;
      })
      (record {
        total_withdraw = m.total_withdraw;
        participant = c.partner_state.address;
        expiration = m.expiration;
        nonce = c.our_state.nonce + 1 + 1;
      })

eqb-eq : (a b : ℤ) → eqb_ℤ a b ≡ true → a ≡ b
eqb-eq a b h = eq_of_parts a b (ground (arith, h))

-- What our cooperative settle records, whether or not its withdraw request is sent.
abbrev initiated : NettingChannelState → ℕ → CoopSettleState
initiated c block_number = record {
  total_withdraw_initiator = get_max_withdraw_amount c.our_state c.partner_state;
  total_withdraw_partner = get_max_withdraw_amount c.partner_state c.our_state;
  expiration = get_safe_initial_expiration block_number c.reveal_timeout none;
  partner_signature_request = none;
  partner_signature_confirmation = none;
  transaction = none;
}

coop_settle-initiated :
    (x : Externals) (c : NettingChannelState) (metadata : Option ℕ) (block_number prng : ℕ)
    → is_valid_action_coopsettle c (get_max_withdraw_amount c.our_state c.partner_state) ≡ success
    → (handle_action_coop_settle x c metadata block_number prng).0.our_state.initiated_coop_settle
      ≡ some (initiated c block_number)
unfolding handle_action_coop_settle send_withdraw_request
coop_settle-initiated x c metadata block_number prng valid = ground arith

module _ (x : Externals) (c : NettingChannelState) (m : ReceiveWithdrawRequest)
    (block_number block_hash prng : ℕ) where
  stale_settle_raises :
      (s : CoopSettleState)
      → IsFullRequest x c m
      → c.our_state.initiated_coop_settle ≡ some s
      → s.expiration ≡ m.expiration
      → eqb_ℤ s.total_withdraw_partner (pos m.total_withdraw) ≡ false
      → handle_receive_withdraw_request x c m block_number block_hash prng
        ≡ raise Fault.coop_settle_amount_mismatch
  unfolding handle_receive_withdraw_request settle_request get_number_of_pending_transfers
  stale_settle_raises s h ours same other = ground (
    arith,
    h.accepted,
    h.full,
    h.unlocked,
    max-pending c.partner_state c.our_state (requested_withdraw m),
  )

  current_settle_passes :
      (s : CoopSettleState)
      → IsFullRequest x c m
      → c.our_state.initiated_coop_settle ≡ some s
      → s.expiration ≡ m.expiration
      → eqb_ℤ s.total_withdraw_partner (pos m.total_withdraw) ≡ true
      → handle_receive_withdraw_request x c m block_number block_hash prng
        ≢ raise Fault.coop_settle_amount_mismatch
  unfolding handle_receive_withdraw_request settle_request get_number_of_pending_transfers
      events_for_coop_settle
  current_settle_passes s h ours same equal raised = ground (
    arith,
    h.accepted,
    h.full,
    h.unlocked,
    max-pending c.partner_state c.our_state (requested_withdraw m),
  )

  -- We initiate a cooperative settle by a valid action, and the channel still has what it
  -- recorded when a valid withdraw request of the partner's comes, with the expiration of the
  -- settle, for all that the partner can withdraw by then and without pending locks of the
  -- partner's. The handler of the request fails the assertion on the settle's total exactly when
  -- what the partner can withdraw is no longer what it was when we initiated.
  pub stale_settle_raises_iff :
      (before : NettingChannelState) (metadata : Option ℕ) (started_at generator : ℕ)
      → is_valid_action_coopsettle before
          (get_max_withdraw_amount before.our_state before.partner_state)
        ≡ success
      → c.our_state.initiated_coop_settle
        ≡ (handle_action_coop_settle x before metadata started_at
            generator).0.our_state.initiated_coop_settle
      → IsFullRequest x c m
      → m.expiration ≡ get_safe_initial_expiration started_at before.reveal_timeout none
      → (handle_receive_withdraw_request x c m block_number block_hash prng
          ≡ raise Fault.coop_settle_amount_mismatch)
        ↔ (get_max_withdraw_amount c.partner_state c.our_state
            ≢ get_max_withdraw_amount before.partner_state before.our_state)
  stale_settle_raises_iff before metadata started_at generator valid carried h same =
      let ours = carried ∙ coop_settle-initiated x before metadata started_at generator valid in
      let s = initiated before started_at in
      let full = eqb-eq max_now (pos m.total_withdraw) h.full in
      (
        λ raised same_max.
            current_settle_passes s h ours (sym same)
              (ap (λ t. eqb_ℤ t (pos m.total_withdraw)) (sym same_max) ∙ h.full) raised,
        λ changed. elim (Bool-cases (eqb_ℤ max_before (pos m.total_withdraw))) [
          | inl equal ↦
              absurd (changed (full ∙ sym (eqb-eq max_before (pos m.total_withdraw) equal)))
          | inr other ↦ stale_settle_raises s h ours (sym same) other
        ],
      )
    where
      max_now : ℤ
      max_now = get_max_withdraw_amount c.partner_state c.our_state

      max_before : ℤ
      max_before = get_max_withdraw_amount before.partner_state before.our_state

  -- When the partner initiates a cooperative settle by a valid request for all that it can
  -- withdraw, neither side has pending locks, we have initiated no settle, the channel is open or
  -- closing and what we can withdraw is not negative, the events are twice the same withdraw
  -- request of ours, for all that we can withdraw, by the partner's expiration and with our next
  -- nonce, and then the confirmation of the partner's request, with the nonce after that.
  pub settle_request-events :
      (total : ℕ)
      → IsFullRequest x c m
      → get_max_withdraw_amount c.our_state c.partner_state ≡ pos total
      → c.our_state.initiated_coop_settle ≡ none
      → m.coop_settle ≡ true
      → ltb 0 (get_number_of_pending_transfers c.our_state) ≡ false
      → is_prior_to_closed (get_status c) ≡ true
      → Returns
          (λ r.
            r.2
            ≡ our_request x c m total prng
              ∷ our_request x c m total prng
              ∷ our_confirmation c m
              ∷ [])
          (handle_receive_withdraw_request x c m block_number block_hash prng)
  unfolding handle_receive_withdraw_request settle_request get_number_of_pending_transfers
      send_withdraw_request get_status get_next_nonce get_max_withdraw_amount ◌+ℤ◌ ◌-ℤ◌
      transferred_amount
  settle_request-events total h most ours settle free prior =
      rw
        (
          h.accepted,
          handle_receive_withdraw_request,
          ours,
          settle,
          settle_request,
          max-pending c.partner_state c.our_state (requested_withdraw m),
          h.full,
          h.unlocked,
          free,
          prior,
          max-pending_other c.partner_state c.our_state (requested_withdraw m),
          most,
        )
        refl
