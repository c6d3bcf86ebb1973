-- ===== src/Mediated/Initiator/Transition.antt =====
-- What reaches the transfer of an initiator: `handle_secretrequest` to `state_transition` of
-- src/gatecoin/transfer/mediated_transfer/initiator.py.
use gatecoin.Common.{
  ℕ, Bool, true, not, ◌&&◌, ltb, leb, ◌==◌, if◌then◌else◌, none, some, [], ◌∷◌, Result, ok, ◌>>=◌,
  Fault,
}
use gatecoin.Externals.{Externals}
use gatecoin.State.{HashTimeLockState, NettingChannelState}
use gatecoin.Event.{send_secret_reveal, invalid_secret_request}
use gatecoin.Channel.Query.{get_lock, get_status, is_opened}
use gatecoin.Channel.Check.{is_ok, is_lock_expired}
use gatecoin.Channel.Secret.{register_onchain_secret}
use gatecoin.Channel.Send.{get_address_metadata}
use gatecoin.Mediated.Waiting.{ReceiveSecretReveal, ContractReceiveSecretReveal}
use gatecoin.Mediated.Target.{unordered}
use gatecoin.Mediated.Initiator.{
  transfer_secret_revealed, TransferDescription, InitiatorTransferState, Iteration,
  events_for_unlock_lock, handle_block,
}

pub record ReceiveSecretRequest : Type 0 where
  pub sender : ℕ
  pub payment_identifier : ℕ
  pub amount : ℕ
  pub expiration : ℕ
  pub secrethash : ℕ

abbrev pub is_from_target : TransferDescription → ReceiveSecretRequest → Bool
is_from_target d m =
    m.sender == d.target
    && m.secrethash == d.secrethash
    && m.payment_identifier == d.payment_identifier

-- The answer to the first request: the secret, or an event that the request is invalid.
abbrev pub answer :
    Externals
    → InitiatorTransferState
    → ReceiveSecretRequest
    → HashTimeLockState
    → NettingChannelState
    → ℕ
    → Iteration
answer x s m l c prng =
    let d = s.transfer_description in
    let s' : InitiatorTransferState = record s { received_secret_request = true } in
    let invalid : Iteration =
      (some s', c, prng, invalid_secret_request m.payment_identifier d.amount m.amount ∷ []) in
    let (identifier, next) = x.randint prng in
    elim d.secret [
      | none ↦ invalid
      | some secret ↦
          if leb d.amount m.amount && m.expiration == l.expiration
          then (
            some (record s' { transfer_state = transfer_secret_revealed }),
            c,
            next,
            send_secret_reveal
                  (unordered d.target (get_address_metadata d.target (s.route ∷ [])) identifier)
                  (record { secret = secret; secrethash = x.sha256 secret })
                ∷ [],
          )
          else invalid
    ]

unfoldable pub handle_secretrequest :
    Externals
    → InitiatorTransferState
    → ReceiveSecretRequest
    → NettingChannelState
    → ℕ
    → Result Iteration
handle_secretrequest x s m c prng =
    let d = s.transfer_description in
    if not (is_from_target d m)
    then ok (some s, c, prng, [])
    else elim (get_lock c.our_state d.secrethash) [
      | none ↦ Result.raise Fault.lock_unknown
      | some l ↦
          if s.received_secret_request then ok (some s, c, prng, []) else ok (answer x s m l c prng)
    ]

-- The lock of the transfer has expired, without a wait.
abbrev pub lock_is_over : InitiatorTransferState → NettingChannelState → ℕ → Bool
lock_is_over s c block_number =
    let l = s.transfer.lock in is_ok (is_lock_expired c.our_state l block_number l.expiration)

-- The unlock, after which the task is done.
unfoldable pub finish :
    Externals → InitiatorTransferState → NettingChannelState → ℕ → ℕ → ℕ → ℕ → Result Iteration
finish x s c secret secrethash prng block_number = do
  (c', prng', events) ← events_for_unlock_lock x s c secret secrethash prng block_number
  ok (none, c', prng', events)

unfoldable pub handle_offchain_secretreveal :
    Externals
    → InitiatorTransferState
    → ReceiveSecretReveal
    → NettingChannelState
    → ℕ
    → ℕ
    → Result Iteration
handle_offchain_secretreveal x s m c prng block_number =
    let secrethash = x.sha256 m.secret in
    if secrethash == s.transfer_description.secrethash
      && is_opened (get_status c)
      && m.sender == c.partner_state.address
      && not (lock_is_over s c block_number)
    then finish x s c m.secret secrethash prng block_number
    else ok (some s, c, prng, [])

unfoldable pub handle_onchain_secretreveal :
    Externals
    → InitiatorTransferState
    → ContractReceiveSecretReveal
    → NettingChannelState
    → ℕ
    → ℕ
    → Result Iteration
handle_onchain_secretreveal x s m c prng block_number =
    let secrethash = s.transfer_description.secrethash in
    let learned : Result Iteration = do
      c' ← register_onchain_secret c m.secret secrethash m.block_number true
      if is_opened (get_status c') && not (lock_is_over s c' block_number)
          then finish x s c' m.secret m.secrethash prng block_number
          else ok (some s, c', prng, [])
    in if m.secrethash == secrethash && not (ltb s.transfer.lock.expiration m.block_number)
      then learned
      else ok (some s, c, prng, [])

pub data InitiatorChange : Type 0 where
  block : ℕ → InitiatorChange
  receive_secret_request : ReceiveSecretRequest → InitiatorChange
  receive_secret_reveal : ReceiveSecretReveal → InitiatorChange
  contract_receive_secret_reveal : ContractReceiveSecretReveal → InitiatorChange
  other : InitiatorChange

unfoldable pub state_transition :
    Externals
    → InitiatorTransferState
    → InitiatorChange
    → NettingChannelState
    → ℕ
    → ℕ
    → Result Iteration
state_transition x s (block number) c prng block_number = handle_block x s c number prng
state_transition x s (receive_secret_request m) c prng block_number =
    handle_secretrequest x s m c prng
state_transition x s (receive_secret_reveal m) c prng block_number =
    handle_offchain_secretreveal x s m c prng block_number
state_transition x s (contract_receive_secret_reveal m) c prng block_number =
    handle_onchain_secretreveal x s m c prng block_number
state_transition x s other c prng block_number = ok (some s, c, prng, [])
