-- ===== src/Channel/Tests.antt =====
-- Two nodes and their channel at concrete values, for what the theorems about
-- src/gatecoin/transfer/channel.py say there. The functions from outside are simple ones: a
-- signature is the signer's address, and a hash a sum.
mod Chain
mod Checks
use gatecoin.Common.{
  ℕ, suc, ◌+◌, ◌<◌, ◌≤◌, ◌≡◌, refl, true, false, none, some, List, [], ◌∷◌, length, pos, ◌+ℤ◌, ◌-ℤ◌,
  ◌≤ℤ◌, min_ℤ, max_ℤ, arith, inl, inr, ok, Returns, ◌⊎◌,
}
use gatecoin.Externals.{Externals}
use gatecoin.State.{
  CanonicalIdentifier, BalanceProofUnsignedState, BalanceProofSignedState, BalanceProof, local,
  received, HashTimeLockState, NettingChannelEndState, NettingChannelState,
  LockedTransferSignedState, LockedTransferUnsignedState, total_withdraw, transferred_amount,
  offchain_total_withdraw, max_key,
}
use gatecoin.Event.{SendLockedTransfer}
use gatecoin.Channel.Query.{
  locksroot_of_no_locks, get_amount_locked, get_balance, get_capacity, get_current_balanceproof,
  get_distributable, get_lock, get_next_nonce, get_secret, is_lock_locked, get_status,
}
use gatecoin.Channel.Lock.{
  encoded, join_words, compute_locksroot, compute_locks_with, new_lock, has_data,
}
use gatecoin.Channel.Index.{IsIndexed}
use gatecoin.Channel.Check.{
  hash_balance_data, new_balance_proof, is_valid_balanceproof_signature, is_valid_signature,
}
use gatecoin.Channel.Balance.{balance-add-capacity}
use gatecoin.Channel.Invariant.{IsSound, IsSound-swap, new_lock-IsSound}
use gatecoin.Channel.Receive.{
  ReceiveUnlock, ReceiveLockExpired, handle_receive_lockedtransfer, handle_refundtransfer,
  handle_unlock, handle_receive_lock_expired,
}
use gatecoin.Channel.Receive.Sound.{
  IsSoundChannel, handle_receive_lockedtransfer-IsSound, handle_refundtransfer-IsSound,
  handle_unlock-IsSound, handle_receive_lock_expired-IsSound,
}
use gatecoin.Channel.Secret.{
  register_offchain_secret, register_onchain_secret, register_onchain_secret_endstate,
}
use gatecoin.Channel.Secret.Moves.{SameLocks}
use gatecoin.Channel.Secret.Recorded.{
  IsRecorded, register_offchain_secret-AreRecorded, register_onchain_secret-AreRecorded,
}
use gatecoin.Channel.Secret.Sound.{register_onchain_secret_known}
use gatecoin.Channel.Send.{
  TransferRequest, UnlockRequest, create_sendlockedtransfer, get_address_metadata,
  send_lockedtransfer, send_unlock, send_lock_expired,
}
use gatecoin.Channel.Send.Sound.{CanSend, send_lockedtransfer-IsSound}
use gatecoin.Channel.Send.Release.{
  CanUnlock, CanExpire, send_unlock-IsSound, send_lock_expired-IsSound,
}
use gatecoin.Channel.Agreement.{Agree, Mirrors, IsDelivered, transfer_delivered}

abbrev sum : List ℕ → ℕ
sum [] = locksroot_of_no_locks
sum (n ∷ ns) = n + sum ns

abbrev pub toy : Externals
toy = record {
  keccak = sum;
  sha256 = λ n. n + 100;
  pack_balance_proof = λ a b c d e f. a ∷ b ∷ c ∷ d ∷ e ∷ f ∷ [];
  pack_withdraw = λ a b c d e f. a ∷ b ∷ c ∷ d ∷ e ∷ f ∷ [];
  recover = λ text signature. some signature;
  randint = λ n. (n, suc n);
  imbalance_fees = λ capacity fee. none;
}

abbrev pub id : CanonicalIdentifier
id = record { chain_identifier = 1; token_network_address = 20; channel_identifier = 3 }

abbrev pub side : ℕ → NettingChannelEndState
side address = record {
  address = address;
  contract_balance = 100;
  onchain_total_withdraw = 0;
  withdraws_pending = [];
  initiated_coop_settle = none;
  withdraws_expired = [];
  secrethashes_to_lockedlocks = [];
  secrethashes_to_unlockedlocks = [];
  secrethashes_to_onchain_unlockedlocks = [];
  balance_proof = none;
  pending_locks = [];
  onchain_locksroot = 0;
  nonce = 0;
}

abbrev pub channel : NettingChannelEndState → NettingChannelEndState → NettingChannelState
channel our partner = record {
  canonical_identifier = id;
  token_address = 9;
  reveal_timeout = 10;
  settle_timeout = 40;
  fee_schedule = record { cap_fees = true; flat = 0; proportional = 0; imbalance_penalty = none };
  our_state = our;
  partner_state = partner;
  close_transaction = none;
  settle_transaction = none;
  update_transaction = none;
}

side-IsIndexed : (address : ℕ) → IsIndexed (side address)
unfolding get_lock
side-IsIndexed address = record {
  locked_dict = tt;
  unlocked_dict = tt;
  onchain_dict = tt;
  apart = λ k. inl (refl, refl);
  listed = λ k l h. absurd (ground arith);
}

pub new-IsSound : (a b : ℕ) → IsSound toy (side a) (side b)
unfolding get_amount_locked total_withdraw transferred_amount offchain_total_withdraw max_key
new-IsSound a b = record {
  our_index = side-IsIndexed a;
  partner_index = side-IsIndexed b;
  our_backed = (refl, refl);
  partner_backed = (refl, refl);
  our_solvent = omega arith;
  partner_solvent = omega arith;
}

abbrev pub lock : HashTimeLockState
lock = record { amount = 10; expiration = 50; secrethash = 107 }

abbrev pub request : TransferRequest
request = record {
  initiator = 1;
  target = 2;
  amount = 10;
  message_identifier = 5;
  payment_identifier = 6;
  expiration = 50;
  secret = some 7;
  secrethash = 107;
  route_states = [];
  recipient_metadata = none;
  previous_metadata = none;
}

abbrev proof : ℕ → ℕ → ℕ → ℕ → BalanceProofUnsignedState
proof nonce transferred locked root = record {
  nonce = nonce;
  transferred_amount = transferred;
  locked_amount = locked;
  locksroot = root;
  canonical_identifier = id;
  balance_hash = hash_balance_data toy transferred locked root;
}

abbrev pub signed : ℕ → BalanceProofUnsignedState → BalanceProofSignedState
signed address b = record { unsigned = b; message_hash = 0; signature = address; sender = address }

abbrev pub first_proof : BalanceProofUnsignedState
first_proof = proof 1 0 10 (sum (50 ∷ 10 ∷ 107 ∷ []))

abbrev pub unlock_proof : BalanceProofUnsignedState
unlock_proof = proof 2 10 0 locksroot_of_no_locks

abbrev pub expired_proof : BalanceProofUnsignedState
expired_proof = proof 2 0 0 locksroot_of_no_locks

abbrev pub locked_side : NettingChannelEndState
locked_side = record (side 1) {
  secrethashes_to_lockedlocks = (107, lock) ∷ [];
  pending_locks = (50, 10, 107) ∷ [];
  balance_proof = some (local first_proof);
  nonce = 1;
}

pub covered : pos 10 ≤ℤ get_distributable (side 1) (side 2)
unfolding get_distributable get_balance get_current_balanceproof get_amount_locked total_withdraw
    transferred_amount offchain_total_withdraw max_key min_ℤ max_ℤ ◌+ℤ◌ ◌-ℤ◌
covered = omega arith

sent-IsSound :
    (b : BalanceProof)
    → (b ≡ local first_proof) ⊎ (b ≡ received (signed 1 first_proof))
    → IsSound toy (record locked_side { balance_proof = some b }) (side 2)
unfolding get_lock compute_locksroot join_words encoded transferred_amount get_amount_locked
sent-IsSound b (inl e) =
    new_lock-IsSound toy (side 1) (side 2) b 1 lock refl covered (rw e refl) (rw e refl) (rw e refl)
      (new-IsSound 1 2)
sent-IsSound b (inr e) =
    new_lock-IsSound toy (side 1) (side 2) b 1 lock refl covered (rw e refl) (rw e refl) (rw e refl)
      (new-IsSound 1 2)

-- What the first node has, and the second node's mirror of it.
abbrev pub ours : NettingChannelState
ours = channel locked_side (side 2)

abbrev pub theirs : NettingChannelState
theirs =
    channel (side 2) (record locked_side { balance_proof = some (received (signed 1 first_proof)) })

pub ours-IsSound : IsSoundChannel toy ours
ours-IsSound = sent-IsSound (local first_proof) (inl refl)

pub theirs-IsSound : IsSoundChannel toy theirs
theirs-IsSound = IsSound-swap (sent-IsSound (received (signed 1 first_proof)) (inr refl))

balance-add-capacity_example :
    get_balance locked_side (side 2) +ℤ get_balance (side 2) locked_side ≡ get_capacity ours
balance-add-capacity_example = balance-add-capacity ours

request-CanSend : CanSend toy (channel (side 1) (side 2)) request
unfolding get_status get_lock compute_locksroot join_words encoded has_data
request-CanSend = record {
  is_open = refl;
  positive = omega arith;
  covered = covered;
  unused = refl;
  fresh = refl;
  expiration_fits = omega arith;
  nonce_fits = omega arith;
  identifier_fits = omega arith;
  not_empty = refl;
}

send_lockedtransfer-IsSound_example :
    Returns
      (λ r. IsSoundChannel toy r.0 × (r.0.partner_state ≡ side 2))
      (send_lockedtransfer toy (channel (side 1) (side 2)) request)
send_lockedtransfer-IsSound_example =
    send_lockedtransfer-IsSound toy (channel (side 1) (side 2)) request (new-IsSound 1 2)
      request-CanSend

abbrev unlock_request : UnlockRequest
unlock_request = record {
  message_identifier = 5;
  payment_identifier = 6;
  secret = 7;
  block_number = 30;
  recipient_metadata = none;
}

can_unlock : CanUnlock toy ours unlock_request 107 lock
unfolding get_status get_lock transferred_amount get_amount_locked
can_unlock = record {
  is_open = refl;
  known = refl;
  in_time = inr (omega arith);
  fits = omega arith;
  nonce_fits = omega arith;
  identifier_fits = omega arith;
}

send_unlock-IsSound_example :
    Returns
      (λ r.
        IsSoundChannel toy r.0
        × (r.0.partner_state ≡ side 2)
        × (transferred_amount r.0.our_state ≡ 10 + transferred_amount locked_side)
        × (get_amount_locked r.0.our_state + 10 ≡ get_amount_locked locked_side))
      (send_unlock toy ours unlock_request 107)
send_unlock-IsSound_example =
    send_unlock-IsSound toy ours unlock_request 107 lock ours-IsSound can_unlock

can_expire : CanExpire toy ours lock 4 none
unfolding get_status get_lock transferred_amount get_amount_locked
can_expire = record {
  is_open = refl;
  known = refl;
  not_onchain = refl;
  fits = omega arith;
  nonce_fits = omega arith;
  identifier_fits = omega arith;
}

send_lock_expired-IsSound_example :
    Returns
      (λ r.
        IsSoundChannel toy r.0
        × (r.0.partner_state ≡ side 2)
        × (transferred_amount r.0.our_state ≡ transferred_amount locked_side)
        × (get_amount_locked r.0.our_state + 10 ≡ get_amount_locked locked_side)
        × (length r.2 ≡ 1))
      (send_lock_expired toy ours lock 4 none)
send_lock_expired-IsSound_example =
    send_lock_expired-IsSound toy ours lock 4 none ours-IsSound can_expire

abbrev transfer : LockedTransferSignedState
transfer = record {
  payment_identifier = 6;
  token = 9;
  lock = lock;
  initiator = 1;
  target = 2;
  message_identifier = 5;
  route_states = [];
  balance_proof = signed 1 first_proof;
  metadata = none;
  secret = some 7;
}

-- The second node receives what the first sent.
handle_receive_lockedtransfer-IsSound_example :
    let (d, _, _) = handle_receive_lockedtransfer toy (channel (side 2) (side 1)) transfer none in
    IsSoundChannel toy d × (d.our_state ≡ side 2)
unfolding get_lock
handle_receive_lockedtransfer-IsSound_example =
    handle_receive_lockedtransfer-IsSound toy (channel (side 2) (side 1)) transfer none
      (new-IsSound 2 1) refl

abbrev first_transfer : LockedTransferUnsignedState
first_transfer = record {
  payment_identifier = 6;
  token = 9;
  lock = record { amount = 10; expiration = 60; secrethash = 107 };
  initiator = 1;
  target = 4;
  balance_proof = first_proof;
  route_states = [];
  metadata = none;
  secret = none;
}

handle_refundtransfer-IsSound_example :
    let (d, _, _) = handle_refundtransfer toy first_transfer (channel (side 2) (side 1)) transfer in
    IsSoundChannel toy d × (d.our_state ≡ side 2)
unfolding get_lock
handle_refundtransfer-IsSound_example =
    handle_refundtransfer-IsSound toy (channel (side 2) (side 1)) first_transfer transfer
      (new-IsSound 2 1) refl

abbrev pub unlock : ReceiveUnlock
unlock = record {
  sender = 1;
  message_identifier = 8;
  secret = 7;
  balance_proof = signed 1 unlock_proof;
}

handle_unlock-IsSound_example :
    Returns
      (λ r. IsSoundChannel toy r.0 × (r.0.our_state ≡ side 2))
      (handle_unlock toy theirs unlock none)
handle_unlock-IsSound_example = handle_unlock-IsSound toy theirs unlock none theirs-IsSound

abbrev lock_expired : ReceiveLockExpired
lock_expired = record {
  sender = 1;
  message_identifier = 8;
  secrethash = 107;
  balance_proof = signed 1 expired_proof;
}

handle_receive_lock_expired-IsSound_example :
    let (d, _) = handle_receive_lock_expired toy theirs lock_expired 60 none in
    IsSoundChannel toy d × (d.our_state ≡ side 2)
handle_receive_lock_expired-IsSound_example =
    handle_receive_lock_expired-IsSound toy theirs lock_expired 60 none theirs-IsSound

register_offchain_secret-AreRecorded_example :
    let c = register_offchain_secret ours 7 107 in
    IsSoundChannel toy c
    × SameLocks locked_side c.our_state
    × SameLocks (side 2) c.partner_state
    × IsRecorded true 7 107 locked_side c.our_state
    × IsRecorded false 7 107 (side 2) c.partner_state
unfolding is_lock_locked
register_offchain_secret-AreRecorded_example =
    register_offchain_secret-AreRecorded toy ours 7 107 ours-IsSound

register_onchain_secret-AreRecorded_example :
    Returns
      (λ c.
        IsSoundChannel toy c
        × SameLocks locked_side c.our_state
        × SameLocks (side 2) c.partner_state
        × IsRecorded true 7 107 locked_side c.our_state
        × IsRecorded false 7 107 (side 2) c.partner_state)
      (register_onchain_secret ours 7 107 45 true)
unfolding get_lock
register_onchain_secret-AreRecorded_example =
    register_onchain_secret-AreRecorded toy ours 7 107 ours-IsSound 45

register_onchain_secret_known_example :
    Returns
      (λ e.
        ((50 < 45) × (e ≡ locked_side))
        ⊎ ((45 ≤ 50)
            × (get_secret e 107 ≡ some 7)
            × (get_lock e 107 ≡ some lock)
            × (is_lock_locked e 107 ≡ false)))
      (register_onchain_secret_endstate locked_side 7 107 45 true)
unfolding get_lock
register_onchain_secret_known_example =
    register_onchain_secret_known locked_side 7 107 45 lock ours-IsSound.our_index refl refl

abbrev sent_event : SendLockedTransfer
sent_event = record {
  header = record {
    recipient = 2;
    recipient_metadata = none;
    canonical_identifier = id;
    message_identifier = 5;
  };
  transfer = record {
    payment_identifier = 6;
    token = 9;
    lock = lock;
    initiator = 1;
    target = 2;
    balance_proof = first_proof;
    route_states = [];
    metadata = none;
    secret = some 7;
  };
}

request-sent : send_lockedtransfer toy (channel (side 1) (side 2)) request ≡ ok (ours, sent_event)
unfolding send_lockedtransfer create_sendlockedtransfer new_lock compute_locks_with
    new_balance_proof get_distributable get_balance get_current_balanceproof get_amount_locked
    total_withdraw transferred_amount offchain_total_withdraw max_key min_ℤ max_ℤ ◌+ℤ◌ ◌-ℤ◌
    get_status get_next_nonce compute_locksroot join_words encoded has_data get_address_metadata
request-sent = refl

mirror : (e : NettingChannelEndState) → Mirrors e e
mirror e = record {
  address = refl;
  nonce = refl;
  pending = refl;
  locks = λ k. refl;
  amount = refl;
  withdraw = refl;
  transferred = refl;
  deposit = refl;
}

delivered :
    IsDelivered toy
      (channel (side 1) (side 2))
      (channel (side 2) (side 1))
      request
      sent_event
      (signed 1 first_proof)
unfolding get_status is_valid_balanceproof_signature is_valid_signature
delivered = record {
  is_open = refl;
  carried = refl;
  signed = refl;
  room = omega arith;
  positive = omega arith;
}

transfer_delivered_example :
    let (d, accepted, _) =
      handle_receive_lockedtransfer toy (channel (side 2) (side 1)) transfer none in
    (accepted ≡ true) × IsSoundChannel toy ours × IsSoundChannel toy d × Agree ours d
unfolding get_lock
transfer_delivered_example =
    transfer_delivered toy (channel (side 1) (side 2)) (channel (side 2) (side 1)) ours request
      sent_event transfer none (new-IsSound 1 2) (new-IsSound 2 1)
      (record { identifier = refl; ours = mirror (side 1); theirs = mirror (side 2) }) refl
      request-sent refl delivered
