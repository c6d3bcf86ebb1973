-- ===== src/Channel/Send.antt =====
-- Messages about locks that this node sends: src/gatecoin/transfer/channel.py, from
-- `create_sendlockedtransfer` to `send_unlock`, `create_sendexpiredlock` and `send_lock_expired`,
-- with `get_address_metadata` of src/gatecoin/transfer/state.py. Each call returns the state of
-- the channel as it leaves it.
pub mod Sound
pub mod Release
pub mod Partial
use gatecoin.Common.{
  ℕ, ◌+◌, Bool, true, false, not, leb, ◌==◌, if◌then◌else◌, Option, none, some, or_else, List, [],
  ◌∷◌, Dict, lookup, insert, ℤ, pos, ◌-ℤ◌, leb_ℤ, Result, ok, assert, assert_some, ◌>>=◌, ◌>>◌,
  Fault,
}
use gatecoin.Externals.{Externals}
use gatecoin.State.{
  uint256_max, BalanceProofUnsignedState, BalanceProof, local, proof_fields, EncodedData,
  HashTimeLockState, NettingChannelEndState, NettingChannelState, RouteState,
  LockedTransferUnsignedState, transferred_amount,
}
use gatecoin.Event.{SendHeader, SendLockedTransfer, SendUnlock, SendLockExpired}
use gatecoin.Channel.Query.{
  get_amount_locked, get_distributable, get_lock, get_next_nonce, get_status, is_lock_pending,
  is_opened, locksroot_of_no_locks,
}
use gatecoin.Channel.Lock.{
  encoded, new_lock, compute_locks_with, compute_locks_without, compute_locksroot, del_lock,
  del_unclaimed_lock,
}
use gatecoin.Channel.Check.{new_balance_proof, is_lock_expired, is_ok}

unfoldable pub get_address_metadata : ℕ → List RouteState → Option ℕ
get_address_metadata address [] = none
get_address_metadata address (r ∷ rs) =
    or_else (lookup address r.address_to_metadata) (get_address_metadata address rs)

-- The arguments of `send_lockedtransfer` after the channel.
pub record TransferRequest : Type 0 where
  pub initiator : ℕ
  pub target : ℕ
  pub amount : ℕ
  pub message_identifier : ℕ
  pub payment_identifier : ℕ
  pub expiration : ℕ
  pub secret : Option ℕ
  pub secrethash : ℕ
  pub route_states : List RouteState
  pub recipient_metadata : Option ℕ
  pub previous_metadata : Option ℕ

unfoldable pub create_sendlockedtransfer :
    Externals
    → NettingChannelState
    → TransferRequest
    → Result (SendLockedTransfer × List EncodedData)
create_sendlockedtransfer x c q = do
  let our = c.our_state
  assert (leb_ℤ (pos q.amount) (get_distributable our c.partner_state)) Fault.not_enough_balance
  assert (is_opened (get_status c)) Fault.channel_not_open
  lock ← new_lock q.amount q.expiration q.secrethash
  locks ← assert_some (compute_locks_with our.pending_locks lock) Fault.lock_already_registered
  assert (leb (transferred_amount our + q.amount) uint256_max) Fault.result_overflows
  proof ←
      new_balance_proof x (get_next_nonce our) (transferred_amount our)
        (pos (get_amount_locked our + q.amount)) (compute_locksroot x locks) c.canonical_identifier
  assert (not (proof.locksroot == locksroot_of_no_locks)) Fault.balance_proof_empty
  ok (
    record {
      header = record {
        recipient = c.partner_state.address;
        recipient_metadata =
            or_else q.recipient_metadata
              (get_address_metadata c.partner_state.address q.route_states);
        canonical_identifier = c.canonical_identifier;
        message_identifier = q.message_identifier;
      };
      transfer = record {
        payment_identifier = q.payment_identifier;
        token = c.token_address;
        lock = lock;
        initiator = q.initiator;
        target = q.target;
        balance_proof = proof;
        route_states = q.route_states;
        metadata = q.previous_metadata;
        secret = q.secret;
      };
    },
    locks,
  )

unfoldable pub send_lockedtransfer :
    Externals
    → NettingChannelState
    → TransferRequest
    → Result (NettingChannelState × SendLockedTransfer)
send_lockedtransfer x c q = do
  (event, locks) ← create_sendlockedtransfer x c q
  let t = event.transfer
  let our = c.our_state
  ok (
    record c {
      our_state = record our {
        balance_proof = some (local t.balance_proof);
        nonce = t.balance_proof.nonce;
        pending_locks = locks;
        secrethashes_to_lockedlocks =
            insert t.lock.secrethash t.lock our.secrethashes_to_lockedlocks;
      };
    },
    event,
  )

-- The arguments of `create_unlock` after the channel, but for the lock.
pub record UnlockRequest : Type 0 where
  pub message_identifier : ℕ
  pub payment_identifier : ℕ
  pub secret : ℕ
  pub block_number : ℕ
  pub recipient_metadata : Option ℕ

-- The nonce is written to the channel here, the rest by `send_unlock`.
unfoldable pub create_unlock :
    Externals
    → NettingChannelState
    → UnlockRequest
    → HashTimeLockState
    → Result (NettingChannelState × SendUnlock × List EncodedData)
create_unlock x c q l = do
  let our = c.our_state
  assert (is_lock_pending our l.secrethash) Fault.lock_not_pending
  assert (is_opened (get_status c)) Fault.channel_not_open
  assert (not (is_ok (is_lock_expired our l q.block_number l.expiration))) Fault.lock_is_expired
  b ← assert_some our.balance_proof Fault.no_balance_proof
  locks ← assert_some (compute_locks_without our.pending_locks (encoded l)) Fault.lock_unknown
  proof ←
      new_balance_proof x (get_next_nonce our) (l.amount + (proof_fields b).transferred_amount)
        (pos (get_amount_locked our) -ℤ pos l.amount) (compute_locksroot x locks)
        c.canonical_identifier
  ok (
    record c { our_state = record our { nonce = get_next_nonce our } },
    record {
      header = record {
        recipient = c.partner_state.address;
        recipient_metadata = q.recipient_metadata;
        canonical_identifier = c.canonical_identifier;
        message_identifier = q.message_identifier;
      };
      payment_identifier = q.payment_identifier;
      token_address = c.token_address;
      balance_proof = proof;
      secret = q.secret;
      secrethash = x.sha256 q.secret;
    },
    locks,
  )

unfoldable pub send_unlock :
    Externals → NettingChannelState → UnlockRequest → ℕ → Result (NettingChannelState × SendUnlock)
send_unlock x c q secrethash = do
  l ← assert_some (get_lock c.our_state secrethash) Fault.lock_unknown
  (c', unlock, locks) ← create_unlock x c q l
  let our = c'.our_state
  our' ←
      del_lock
        (record our { balance_proof = some (local unlock.balance_proof); pending_locks = locks })
        l.secrethash
  ok (record c' { our_state = our' }, unlock)

-- `none` where the lock is not among the pending ones.
unfoldable pub create_sendexpiredlock :
    Externals
    → NettingChannelState
    → HashTimeLockState
    → ℕ
    → Option ℕ
    → Result (Option (SendLockExpired × List EncodedData × ℕ))
create_sendexpiredlock x c l prng metadata = do
  let our = c.our_state
  b ← assert_some our.balance_proof Fault.no_balance_proof
  elim (compute_locks_without our.pending_locks (encoded l)) [
    | none ↦ ok none
    | some locks ↦ do
      proof ←
          new_balance_proof x (get_next_nonce our) (proof_fields b).transferred_amount
            (pos (get_amount_locked our) -ℤ pos l.amount) (compute_locksroot x locks)
            c.canonical_identifier
      let (identifier, prng') = x.randint prng
      ok (
          some (
            record {
              header = record {
                recipient = c.partner_state.address;
                recipient_metadata = metadata;
                canonical_identifier = proof.canonical_identifier;
                message_identifier = identifier;
              };
              balance_proof = proof;
              secrethash = l.secrethash;
            },
            locks,
            prng',
          ))
  ]

-- The channel, the random generator and the messages.
unfoldable pub send_lock_expired :
    Externals
    → NettingChannelState
    → HashTimeLockState
    → ℕ
    → Option ℕ
    → Result (NettingChannelState × ℕ × List SendLockExpired)
send_lock_expired x c l prng metadata = do
  assert (is_opened (get_status c)) Fault.channel_not_open
  sent ← create_sendexpiredlock x c l prng metadata
  elim sent [
    | none ↦ ok (c, prng, [])
    | some (event, locks, prng') ↦
        let our = c.our_state in
        ok (
          record c {
            our_state =
                del_unclaimed_lock
                  (record our {
                    pending_locks = locks;
                    balance_proof = some (local event.balance_proof);
                    nonce = event.balance_proof.nonce;
                  })
                  l.secrethash;
          },
          prng',
          event ∷ [],
        )
  ]
