-- ===== src/Mediated/Mediator/Handle.antt =====
-- The mediator's handlers of blocks, refunds and secrets: `secret_learned`, and `handle_block` to
-- `handle_onchain_secretreveal` of src/gatecoin/transfer/mediated_transfer/mediator.py.
use gatecoin.Common.{
  ℕ, Bool, false, not, ◌&&◌, ◌||◌, ◌==◌, if◌then◌else◌, none, some, is_some, List, [], ◌∷◌, ◌++◌,
  Result, ok, assert_some, ◌>>=◌, Fault,
}
use gatecoin.Externals.{Externals}
use gatecoin.State.{NettingChannelState, LockedTransferSignedState}
use gatecoin.Event.{Event, send_locked_transfer}
use gatecoin.Channel.Check.{is_transfer_expired}
use gatecoin.Channel.Receive.{ReceiveUnlock, ReceiveLockExpired, handle_receive_lock_expired}
use gatecoin.Channel.Receive as Receive
use gatecoin.Mediated.Waiting.{ReceiveSecretReveal, ContractReceiveSecretReveal}
use gatecoin.Mediated.Channels.{Channels, get_channel, write}
use gatecoin.Mediated.Mediator.{MediatorTransferState, get_payer_channel, last_pair}
use gatecoin.Mediated.Mediator.Forward.{Fees, mediate_transfer}
use gatecoin.Mediated.Mediator.Secrets.{
  waiting_identifier, set_offchain_secret, set_onchain_secret, set_offchain_reveal_state,
  events_for_secretreveal, events_for_balanceproof,
}
use gatecoin.Mediated.Mediator.Onchain.{
  events_for_onchain_secretreveal_if_dangerzone, events_for_onchain_secretreveal_if_closed,
}
use gatecoin.Mediated.Mediator.Expiry.{events_for_expired_pairs, events_to_remove_expired_locks}

-- What a handler of a running task returns.
abbrev pub Step : Type 0
Step = MediatorTransferState × Channels × ℕ × List Event

unfoldable pub secret_learned :
    Externals → MediatorTransferState → Channels → ℕ → ℕ → ℕ → ℕ → ℕ → ℕ → Result Step
secret_learned x s h prng block_number block_hash secret secrethash payee_address = do
  let (s', h', unexpected) = set_offchain_secret s h secret secrethash
  let pairs = set_offchain_reveal_state s'.transfers_pair payee_address
  let (pairs₁, onchain) =
      events_for_onchain_secretreveal_if_closed h' pairs secret secrethash block_hash
  let (pairs₂, prng₁, offchain) = events_for_secretreveal x pairs₁ secret prng
  (pairs₃, h₂, prng₂, proofs) ←
      events_for_balanceproof x h' pairs₂ prng₁ block_number secret secrethash
  ok (record s' { transfers_pair = pairs₃ }, h₂, prng₂, unexpected ++ offchain ++ proofs ++ onchain)

abbrev pub is_mediation : ℕ → Event → Bool
is_mediation secrethash (send_locked_transfer e) = e.transfer.lock.secrethash == secrethash
is_mediation secrethash _ = false

abbrev pub any_mediation : ℕ → List Event → Bool
any_mediation secrethash [] = false
any_mediation secrethash (e ∷ es) = is_mediation secrethash e || any_mediation secrethash es

-- Another attempt for a transfer that waits.
unfoldable pub retry : Externals → Fees → MediatorTransferState → Channels → ℕ → ℕ → Result Step
retry x fees s h prng block_number = elim s.waiting_transfer [
  | none ↦ ok (s, h, prng, [])
  | some w ↦ elim (get_channel h (waiting_identifier w)) [
    | none ↦ ok (s, h, prng, [])
    | some (_, c) ↦ do
      (s', h', prng', events) ← mediate_transfer x fees s h c prng w.transfer block_number
      ok (
        if any_mediation w.transfer.lock.secrethash events
            then record s' { waiting_transfer = none }
            else s',
        h',
        prng',
        events,
      )
  ]
]

unfoldable pub handle_block :
    Externals → Fees → MediatorTransferState → Channels → ℕ → ℕ → ℕ → Result Step
handle_block x fees s h block_number block_hash prng = do
  (s₁, h₁, prng₁, mediated) ← retry x fees s h prng block_number
  (s₂, h₂, prng₂, expired) ← events_to_remove_expired_locks x s₁ h₁ block_number prng₁
  (pairs, reveals) ←
      events_for_onchain_secretreveal_if_dangerzone h₂ s₂.secrethash s₂.transfers_pair block_number
        block_hash
  let (s₃, failed) = events_for_expired_pairs h₂ (record s₂ { transfers_pair = pairs }) block_number
  ok (s₃, h₂, prng₂, mediated ++ failed ++ reveals ++ expired)

abbrev pub refunded : MediatorTransferState → NettingChannelState → MediatorTransferState
refunded s c = record s {
  refunded_channels = s.refunded_channels ++ c.canonical_identifier.channel_identifier ∷ [];
}

-- A refund for the pair that was last.
unfoldable pub refund_last :
    Externals
    → Fees
    → MediatorTransferState
    → LockedTransferSignedState
    → Channels
    → ℕ
    → ℕ
    → Result Step
refund_last x fees s t h prng block_number = do
  p ← assert_some (last_pair s.transfers_pair) Fault.pair_missing
  elim (get_channel h t.balance_proof.canonical_identifier.channel_identifier) [
    | none ↦ ok (s, h, prng, [])
    | some (reference, c) ↦
        let (c', accepted, events) = Receive.handle_refundtransfer x p.payee_transfer c t in
        let h' = write h reference c' in
        let mediating : Result Step = do
          (s₂, h₂, prng₂, mediated) ←
              mediate_transfer x fees (refunded s c') h' c' prng t block_number
          ok (s₂, h₂, prng₂, events ++ mediated)
        in if accepted then mediating else ok (s, h', prng, events)
  ]

unfoldable pub handle_refundtransfer :
    Externals
    → Fees
    → MediatorTransferState
    → LockedTransferSignedState
    → Channels
    → ℕ
    → ℕ
    → Result Step
handle_refundtransfer x fees s t h prng block_number = elim s.secret [
  | none ↦ refund_last x fees s t h prng block_number
  | some _ ↦ ok (s, h, prng, [])
]

unfoldable pub handle_offchain_secretreveal :
    Externals → MediatorTransferState → ReceiveSecretReveal → Channels → ℕ → ℕ → ℕ → Result Step
handle_offchain_secretreveal x s m h prng block_number block_hash =
    let secrethash = x.sha256 m.secret in
    elim (last_pair s.transfers_pair) [
      | none ↦ ok (s, h, prng, [])
      | some p ↦ elim (get_payer_channel h p) [
        | none ↦ ok (s, h, prng, [])
        | some (_, c) ↦
            if not (is_some s.secret)
              && secrethash == s.secrethash
              && not (is_transfer_expired p.payer_transfer c block_number)
            then secret_learned x s h prng block_number block_hash m.secret secrethash m.sender
            else ok (s, h, prng, [])
      ]
    ]

unfoldable pub handle_onchain_secretreveal :
    Externals → MediatorTransferState → ContractReceiveSecretReveal → Channels → ℕ → Result Step
handle_onchain_secretreveal x s m h prng =
    let learned : Result Step = do
      (s', h', unexpected) ← set_onchain_secret s h m.secret m.secrethash m.block_number
      (pairs, h₂, prng₂, proofs) ←
          events_for_balanceproof x h' s'.transfers_pair prng m.block_number m.secret m.secrethash
      ok (record s' { transfers_pair = pairs }, h₂, prng₂, unexpected ++ proofs)
    in if m.secrethash == s.secrethash then learned else ok (s, h, prng, [])
