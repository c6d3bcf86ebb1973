-- ===== src/Channel/Withdraw.antt =====
-- Requests of withdraws and their expiry: src/gatecoin/transfer/channel.py,
-- `send_withdraw_request` and `events_for_expired_withdraws`. A random generator is its state, which a call that draws a
-- number returns.
use gatecoin.Common.{
  ℕ, Bool, not, ◌&&◌, ◌==◌, ◌++◌, if◌then◌else◌, Option, none, some, List, [], ◌∷◌, contains,
  insert, erase, pos, eqb_ℤ, Result, ok, assert, ◌>>=◌, ◌>>◌, Fault,
}
use gatecoin.Externals.{Externals}
use gatecoin.State.{
  PendingWithdrawState, CoopSettleState, NettingChannelEndState, NettingChannelState,
}
use gatecoin.Event.{Event}
use gatecoin.Channel.Query.{
  get_next_nonce, get_sender_expiration_threshold, get_status, is_prior_to_closed,
}
use gatecoin.Channel.WithdrawCheck.{is_withdraw_expired}

-- A side that has one more pending withdraw.
abbrev pub add_pending : NettingChannelEndState → PendingWithdrawState → NettingChannelEndState
add_pending e w = record e {
  nonce = w.nonce;
  withdraws_pending = insert w.total_withdraw w e.withdraws_pending;
}

unfoldable pub send_withdraw_request :
    Externals
    → NettingChannelState
    → ℕ
    → ℕ
    → ℕ
    → Option ℕ
    → Bool
    → NettingChannelState × ℕ × List Event
send_withdraw_request x c total expiration prng metadata coop_settle =
    let nonce = get_next_nonce c.our_state in
    let w : PendingWithdrawState = record {
      total_withdraw = total;
      expiration = expiration;
      nonce = nonce;
      recipient_metadata = metadata;
    } in
    let (identifier, next) = x.randint prng in
    if not (is_prior_to_closed (get_status c)) then (c, prng, []) else (
      record c { our_state = add_pending c.our_state w },
      next,
      Event.send_withdraw_request
            (record {
              recipient = c.partner_state.address;
              recipient_metadata = metadata;
              canonical_identifier = c.canonical_identifier;
              message_identifier = identifier;
            })
            (record {
              total_withdraw = total;
              participant = c.our_state.address;
              expiration = expiration;
              nonce = nonce;
            })
            coop_settle
          ∷ [],
    )

-- A cooperative settle is over when the withdraw that goes with it has expired.
abbrev pub without_settle : Option CoopSettleState → PendingWithdrawState → Option CoopSettleState
without_settle none w = none
without_settle (some s) w =
    if eqb_ℤ s.total_withdraw_initiator (pos w.total_withdraw) && s.expiration == w.expiration
    then none
    else some s

-- One round of the loop of `events_for_expired_withdraws`; `del` raises on a missing key.
unfoldable pub expire_withdraw :
    Externals
    → NettingChannelState
    → PendingWithdrawState
    → ℕ
    → Result (NettingChannelState × ℕ × Event)
expire_withdraw x c w prng = do
  let our = c.our_state
  let nonce = get_next_nonce our
  let (identifier, next) = x.randint prng
  assert (contains w.total_withdraw our.withdraws_pending) Fault.missing_key
  ok (
    record c {
      our_state = record our {
        nonce = nonce;
        initiated_coop_settle = without_settle our.initiated_coop_settle w;
        withdraws_expired =
            our.withdraws_expired
            ++ record {
              total_withdraw = w.total_withdraw;
              expiration = w.expiration;
              nonce = w.nonce;
              recipient_metadata = w.recipient_metadata;
            }
              ∷ [];
        withdraws_pending = erase w.total_withdraw our.withdraws_pending;
      };
    },
    next,
    Event.send_withdraw_expired
        (record {
          recipient = c.partner_state.address;
          recipient_metadata = w.recipient_metadata;
          canonical_identifier = c.canonical_identifier;
          message_identifier = identifier;
        })
        (record {
          total_withdraw = w.total_withdraw;
          participant = our.address;
          expiration = w.expiration;
          nonce = nonce;
        }),
  )

-- The loop, through the withdraws that were pending at its start, up to the first that has not
-- expired.
unfoldable pub expire_withdraws :
    Externals
    → ℕ
    → List (ℕ × PendingWithdrawState)
    → NettingChannelState
    → ℕ
    → Result (NettingChannelState × ℕ × List Event)
expire_withdraws x block_number [] c prng = ok (c, prng, [])
expire_withdraws x block_number ((_, w) ∷ ws) c prng =
    let round : Result (NettingChannelState × ℕ × List Event) = do
      (c₁, prng₁, event) ← expire_withdraw x c w prng
      (c₂, prng₂, events) ← expire_withdraws x block_number ws c₁ prng₁
      ok (c₂, prng₂, event ∷ events)
    in if is_withdraw_expired block_number (get_sender_expiration_threshold w.expiration)
      then round
      else ok (c, prng, [])

unfoldable pub events_for_expired_withdraws :
    Externals → NettingChannelState → ℕ → ℕ → Result (NettingChannelState × ℕ × List Event)
events_for_expired_withdraws x c block_number prng =
    expire_withdraws x block_number c.our_state.withdraws_pending c prng
