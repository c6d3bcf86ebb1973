-- ===== src/Channel/WithdrawHandle.antt =====
-- The handlers of withdraws and cooperative settles: src/gatecoin/transfer/channel.py, from
-- `_handle_action_coop_settle` to `_handle_receive_withdraw_expired`, with the state changes of
-- src/gatecoin/transfer/state_change.py as arguments.
use gatecoin.Common.{
  ℕ, Bool, true, false, not, ◌&&◌, ◌||◌, ltb, leb, ◌==◌, ◌*◌, ◌++◌, if◌then◌else◌, Option, none,
  some, is_some, List, [], ◌∷◌, lookup, erase, pos, pos_part, ◌-ℤ◌, leb_ℤ, eqb_ℤ, Result, ok,
  assert, assert_some, ◌>>=◌, ◌>>◌, Fault,
}
use gatecoin.Externals.{Externals}
use gatecoin.State.{
  PendingWithdrawState, CoopSettleState, NettingChannelState, TransactionExecutionStatus,
}
use gatecoin.Event.{Event, Reason}
use gatecoin.Channel.Query.{
  get_max_withdraw_amount, get_next_nonce, get_number_of_pending_transfers,
  get_safe_initial_expiration,
}
use gatecoin.Channel.Check.{success, error}
use gatecoin.Channel.Receive.{processed}
use gatecoin.Channel.WithdrawCheck.{
  ReceiveWithdrawRequest, ReceiveWithdrawConfirmation, ReceiveWithdrawExpired,
  is_valid_total_withdraw, is_valid_action_coopsettle, is_valid_withdraw_request,
  is_valid_withdraw_confirmation, is_valid_withdraw_expired,
}
use gatecoin.Channel.Withdraw.{add_pending, send_withdraw_request, without_settle}

-- Our total of a cooperative settle has passed `is_valid_total_withdraw`, so it is not negative.
unfoldable pub handle_action_coop_settle :
    Externals → NettingChannelState → Option ℕ → ℕ → ℕ → NettingChannelState × ℕ × List Event
handle_action_coop_settle x c metadata block_number prng =
    let our_total = get_max_withdraw_amount c.our_state c.partner_state in
    let partner_total = get_max_withdraw_amount c.partner_state c.our_state in
    let expiration = get_safe_initial_expiration block_number c.reveal_timeout none in
    let settle : CoopSettleState = record {
      total_withdraw_initiator = our_total;
      total_withdraw_partner = partner_total;
      expiration = expiration;
      partner_signature_request = none;
      partner_signature_confirmation = none;
      transaction = none;
    } in
    elim (is_valid_action_coopsettle c our_total) [
      | success ↦
          send_withdraw_request x
            (record c { our_state = record (c.our_state) { initiated_coop_settle = some settle } })
            (pos_part our_total) expiration prng metadata true
      | error r ↦ (c, prng, Event.invalid_action_coop_settle our_total r ∷ [])
    ]

unfoldable pub handle_action_withdraw :
    Externals → NettingChannelState → ℕ → Option ℕ → ℕ → ℕ → NettingChannelState × ℕ × List Event
handle_action_withdraw x c total metadata block_number prng =
    elim (is_valid_total_withdraw c (pos total) false) [
      | success ↦
          send_withdraw_request x c total
            (get_safe_initial_expiration block_number c.reveal_timeout none) prng metadata false
      | error r ↦ (c, prng, Event.invalid_action_withdraw total r ∷ [])
    ]

unfoldable pub handle_action_set_reveal_timeout :
    NettingChannelState → ℕ → NettingChannelState × List Event
handle_action_set_reveal_timeout c reveal_timeout =
    if leb 7 reveal_timeout && leb (reveal_timeout * 2) c.settle_timeout
    then (record c { reveal_timeout = reveal_timeout }, [])
    else (
      c,
      Event.invalid_action_set_reveal_timeout reveal_timeout Reason.reveal_timeout_too_large ∷ [],
    )

-- `expiration >= block_number - reveal_timeout`
abbrev pub has_time : NettingChannelState → ℕ → ℕ → Bool
has_time c expiration block_number =
    leb_ℤ (pos block_number -ℤ pos c.reveal_timeout) (pos expiration)

abbrev pub started : ℕ → TransactionExecutionStatus
started block_number = record {
  started_block_number = some block_number;
  finished_block_number = none;
  result = none;
}

-- The settle is the one that we initiated and that the channel has.
unfoldable pub events_for_coop_settle :
    NettingChannelState → CoopSettleState → ℕ → ℕ → Result (NettingChannelState × List Event)
events_for_coop_settle c s block_number block_hash = elim s.partner_signature_request [
  | none ↦ ok (c, [])
  | some request ↦ elim s.partner_signature_confirmation [
    | none ↦ ok (c, [])
    | some confirmation ↦
        let settled : Result (NettingChannelState × List Event) = do
          ours ← assert_some c.our_state.initiated_coop_settle Fault.coop_settle_missing
          ok (
            record c {
              our_state = record (c.our_state) {
                initiated_coop_settle =
                    some (record ours { transaction = some (started block_number) });
              };
            },
            Event.contract_send_coop_settle c.canonical_identifier s.total_withdraw_initiator
                  s.total_withdraw_partner s.expiration confirmation request block_hash
                ∷ [],
          )
        in if has_time c s.expiration block_number then settled else ok (c, [])
  ]
]

-- The cooperative settle that goes with a request, once the withdraw is stored: the channel, the
-- generator and the events so far, or the reason of a refusal. A request of the partner's is
-- answered by one of ours, which stands twice in the events (`events.extend(events)`). A total
-- of ours below 0, which takes transfers beyond our deposit, is cut off at 0.
unfoldable pub settle_request :
    Externals
    → NettingChannelState
    → ReceiveWithdrawRequest
    → ℕ
    → ℕ
    → ℕ
    → Result (NettingChannelState × ℕ × List Event × Option Reason)
settle_request x c m block_number block_hash prng =
    let refused : Reason → Result (NettingChannelState × ℕ × List Event × Option Reason) =
      λ r. ok (c, prng, [], some r) in
    if not (eqb_ℤ (get_max_withdraw_amount c.partner_state c.our_state) (pos m.total_withdraw))
    then refused Reason.not_maximum_withdraw
    else if ltb 0 (get_number_of_pending_transfers c.partner_state)
    then refused Reason.partner_locks_pending
    else elim c.our_state.initiated_coop_settle [
      | some s ↦
          let s' : CoopSettleState = record s { partner_signature_request = some m.signature } in
          let joined : Result (NettingChannelState × ℕ × List Event × Option Reason) = do
            assert (eqb_ℤ s.total_withdraw_partner (pos m.total_withdraw))
                Fault.coop_settle_amount_mismatch
            (c', events) ←
                events_for_coop_settle
                  (record c {
                    our_state = record (c.our_state) { initiated_coop_settle = some s' };
                  })
                  s' block_number block_hash
            ok (c', prng, events, none)
          in if not (s.expiration == m.expiration)
            then refused Reason.differing_expiration
            else joined
      | none ↦
          let our_total = get_max_withdraw_amount c.our_state c.partner_state in
          let s : CoopSettleState = record {
            total_withdraw_initiator = pos m.total_withdraw;
            total_withdraw_partner = our_total;
            expiration = m.expiration;
            partner_signature_request = some m.signature;
            partner_signature_confirmation = none;
            transaction = none;
          } in
          let (c', prng', events) =
            send_withdraw_request x
              (record c {
                partner_state = record (c.partner_state) { initiated_coop_settle = some s };
              })
              (pos_part our_total) m.expiration prng m.sender_metadata false in
          if ltb 0 (get_number_of_pending_transfers c.our_state)
          then refused Reason.our_locks_pending
          else ok (c', prng', events ++ events, none)
    ]

-- The withdraw of the partner's that a request is for.
abbrev pub requested_withdraw : ReceiveWithdrawRequest → PendingWithdrawState
requested_withdraw m = record {
  total_withdraw = m.total_withdraw;
  expiration = m.expiration;
  nonce = m.nonce;
  recipient_metadata = m.sender_metadata;
}

-- The end of `_handle_receive_withdraw_request`: a confirmation, with the next nonce of ours, after
-- the events so far.
abbrev pub confirm :
    NettingChannelState → ReceiveWithdrawRequest → List Event → NettingChannelState × List Event
confirm c m events =
    let nonce = get_next_nonce c.our_state in
    (
      record c { our_state = record (c.our_state) { nonce = nonce } },
      events
          ++ Event.send_withdraw_confirmation
              (record {
                recipient = c.partner_state.address;
                recipient_metadata = m.sender_metadata;
                canonical_identifier = c.canonical_identifier;
                message_identifier = m.message_identifier;
              })
              (record {
                total_withdraw = m.total_withdraw;
                participant = c.partner_state.address;
                expiration = m.expiration;
                nonce = nonce;
              })
            ∷ [],
    )

-- The withdraw and the nonce of the request are stored before a cooperative settle is refused.
unfoldable pub handle_receive_withdraw_request :
    Externals
    → NettingChannelState
    → ReceiveWithdrawRequest
    → ℕ
    → ℕ
    → ℕ
    → Result (NettingChannelState × ℕ × List Event)
handle_receive_withdraw_request x c m block_number block_hash prng =
    elim (is_valid_withdraw_request x c m) [
      | error r ↦ ok (c, prng, Event.invalid_received_withdraw_request m.total_withdraw r ∷ [])
      | success ↦
          let c₁ = record c {
            partner_state = add_pending c.partner_state (requested_withdraw m);
          } in
          let plain : Result (NettingChannelState × ℕ × List Event) =
            (let (c₂, events) = confirm c₁ m [] in ok (c₂, prng, events)) in
          let settling : Result (NettingChannelState × ℕ × List Event) = do
            (c₂, prng', events, refusal) ← settle_request x c₁ m block_number block_hash prng
            elim refusal [
              | some r ↦
                  ok (c₂, prng', Event.invalid_received_withdraw_request m.total_withdraw r ∷ [])
              | none ↦ let (c₃, all) = confirm c₂ m events in ok (c₃, prng', all)
            ]
          in if is_some c₁.our_state.initiated_coop_settle || m.coop_settle then settling else plain
    ]

abbrev pub metadata_of : Option PendingWithdrawState → Option ℕ
metadata_of none = none
metadata_of (some w) = w.recipient_metadata

unfoldable pub handle_receive_withdraw_confirmation :
    Externals
    → NettingChannelState
    → ReceiveWithdrawConfirmation
    → ℕ
    → ℕ
    → Result (NettingChannelState × List Event)
handle_receive_withdraw_confirmation x c m block_number block_hash =
    let metadata = metadata_of (lookup m.total_withdraw c.our_state.withdraws_pending) in
    let c₁ = record c { partner_state = record (c.partner_state) { nonce = m.nonce } } in
    let answer = processed c.partner_state.address metadata m.message_identifier in
    let onchain =
      Event.contract_send_withdraw m.canonical_identifier m.total_withdraw m.expiration m.signature
        block_hash in
    let unsettled : Result (NettingChannelState × List Event) =
      if has_time c m.expiration block_number
      then ok (c₁, answer ∷ onchain ∷ [])
      else ok (c₁, answer ∷ []) in
    elim (is_valid_withdraw_confirmation x c m) [
      | error r ↦ ok (c, Event.invalid_received_withdraw m.total_withdraw r ∷ [])
      | success ↦ elim c.our_state.initiated_coop_settle [
        | some s ↦ do
          let s' = record s { partner_signature_confirmation = some m.signature }
          assert (not (is_some c.partner_state.initiated_coop_settle)) Fault.both_coop_settle
          (c₂, events) ←
              events_for_coop_settle
                (record c₁ {
                  our_state = record (c₁.our_state) { initiated_coop_settle = some s' };
                })
                s' block_number block_hash
          ok (c₂, answer ∷ events)
        | none ↦ elim c.partner_state.initiated_coop_settle [
          | some _ ↦ ok (c₁, answer ∷ [])
          | none ↦ unsettled
        ]
      ]
    ]

unfoldable pub handle_receive_withdraw_expired :
    NettingChannelState → ReceiveWithdrawExpired → ℕ → NettingChannelState × List Event
handle_receive_withdraw_expired c m block_number =
    elim (lookup m.total_withdraw c.partner_state.withdraws_pending) [
      | none ↦ (
        c,
        Event.invalid_received_withdraw_expired m.total_withdraw Reason.withdraw_not_found ∷ [],
      )
      | some w ↦ elim (is_valid_withdraw_expired c m w block_number) [
        | error r ↦ (c, Event.invalid_received_withdraw_expired m.total_withdraw r ∷ [])
        | success ↦ (
          record c {
            partner_state = record (c.partner_state) {
              withdraws_pending = erase w.total_withdraw c.partner_state.withdraws_pending;
              nonce = m.nonce;
              initiated_coop_settle = without_settle c.partner_state.initiated_coop_settle w;
            };
          },
          processed c.partner_state.address w.recipient_metadata m.message_identifier ∷ [],
        )
      ]
    ]
