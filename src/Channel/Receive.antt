-- ===== src/Channel/Receive.antt =====
-- Messages about locks that this node receives: src/gatecoin/transfer/channel.py, from
-- `handle_refundtransfer` to `handle_unlock`, and the state changes of
-- src/gatecoin/transfer/mediated_transfer/state_change.py and src/gatecoin/transfer/state_change.py
-- that they take. A handler returns the channel, whether the message was valid, and the events.
pub mod Sound
use gatecoin.Common.{
  ℕ, Bool, true, false, Option, none, some, List, [], ◌∷◌, insert, Result, ok, ◌>>=◌,
}
use gatecoin.Externals.{Externals}
use gatecoin.State.{
  CanonicalIdentifier, BalanceProofSignedState, received, EncodedData, HashTimeLockState,
  NettingChannelEndState, NettingChannelState, LockedTransferSignedState,
  LockedTransferUnsignedState,
}
use gatecoin.Event.{
  Event, send_processed, invalid_received_locked_transfer, invalid_received_lock_expired,
  invalid_received_unlock, invalid_received_transfer_refund, SendHeader,
}
use gatecoin.Channel.Lock.{del_lock, del_unclaimed_lock}
use gatecoin.Channel.Check.{
  PendingLocksStateOrError, valid, invalid, is_valid_lockedtransfer, is_valid_lock_expired,
  is_valid_refund, is_valid_unlock,
}
use gatecoin.Channel.Send.{get_address_metadata}

-- `ReceiveLockExpired`
pub record ReceiveLockExpired : Type 0 where
  pub sender : ℕ
  pub balance_proof : BalanceProofSignedState
  pub secrethash : ℕ
  pub message_identifier : ℕ

-- `ReceiveUnlock`; its secrethash is the hash of the secret.
pub record ReceiveUnlock : Type 0 where
  pub sender : ℕ
  pub balance_proof : BalanceProofSignedState
  pub message_identifier : ℕ
  pub secret : ℕ

-- identifiers.py: chain 0, the empty address, channel 0
abbrev pub canonical_identifier_unordered_queue : CanonicalIdentifier
canonical_identifier_unordered_queue = record {
  chain_identifier = 0;
  token_network_address = 0;
  channel_identifier = 0;
}

-- `SendProcessed(recipient, recipient_metadata, message_identifier, …)`
abbrev pub processed : ℕ → Option ℕ → ℕ → Event
processed recipient metadata identifier = send_processed (record {
  recipient = recipient;
  recipient_metadata = metadata;
  canonical_identifier = canonical_identifier_unordered_queue;
  message_identifier = identifier;
})

-- The partner's side takes over a balance proof and the pending locks that go with it.
abbrev pub take_over :
    NettingChannelEndState → BalanceProofSignedState → List EncodedData → NettingChannelEndState
take_over e b locks = record e {
  balance_proof = some (received b);
  nonce = b.nonce;
  pending_locks = locks;
}

abbrev pub take_over_lock :
    NettingChannelEndState
    → BalanceProofSignedState
    → List EncodedData
    → HashTimeLockState
    → NettingChannelEndState
take_over_lock e b locks l = record e {
  balance_proof = some (received b);
  nonce = b.nonce;
  pending_locks = locks;
  secrethashes_to_lockedlocks = insert l.secrethash l e.secrethashes_to_lockedlocks;
}

unfoldable pub handle_refundtransfer :
    Externals
    → LockedTransferUnsignedState
    → NettingChannelState
    → LockedTransferSignedState
    → NettingChannelState × Bool × List Event
handle_refundtransfer x received_transfer c refund =
    elim (is_valid_refund x refund c c.partner_state c.our_state received_transfer) [
      | valid locks ↦ (
        record c {
          partner_state = take_over_lock c.partner_state refund.balance_proof locks refund.lock;
        },
        true,
        processed refund.balance_proof.sender
              (get_address_metadata c.partner_state.address received_transfer.route_states)
              refund.message_identifier
            ∷ [],
      )
      | invalid r ↦
          (c, false, invalid_received_transfer_refund received_transfer.payment_identifier r ∷ [])
    ]

unfoldable pub handle_receive_lock_expired :
    Externals
    → NettingChannelState
    → ReceiveLockExpired
    → ℕ
    → Option ℕ
    → NettingChannelState × List Event
handle_receive_lock_expired x c m block_number metadata =
    elim (is_valid_lock_expired x m.secrethash m.balance_proof c c.partner_state c.our_state
      block_number) [
        | valid locks ↦ (
          record c {
            partner_state =
                del_unclaimed_lock (take_over c.partner_state m.balance_proof locks) m.secrethash;
          },
          processed m.balance_proof.sender metadata m.message_identifier ∷ [],
        )
        | invalid r ↦ (c, invalid_received_lock_expired m.secrethash r ∷ [])
      ]

unfoldable pub handle_receive_lockedtransfer :
    Externals
    → NettingChannelState
    → LockedTransferSignedState
    → Option ℕ
    → NettingChannelState × Bool × List Event
handle_receive_lockedtransfer x c m metadata =
    elim (is_valid_lockedtransfer x m c c.partner_state c.our_state) [
      | valid locks ↦ (
        record c { partner_state = take_over_lock c.partner_state m.balance_proof locks m.lock },
        true,
        processed m.balance_proof.sender metadata m.message_identifier ∷ [],
      )
      | invalid r ↦ (c, false, invalid_received_locked_transfer m.payment_identifier r ∷ [])
    ]

-- The assertion of `_del_lock` is passed on.
unfoldable pub handle_unlock :
    Externals
    → NettingChannelState
    → ReceiveUnlock
    → Option ℕ
    → Result (NettingChannelState × Bool × List Event)
handle_unlock x c m metadata =
    let secrethash = x.sha256 m.secret in
    elim (is_valid_unlock x secrethash m.balance_proof c c.partner_state) [
      | valid locks ↦ do
        partner ← del_lock (take_over c.partner_state m.balance_proof locks) secrethash
        ok (
          record c { partner_state = partner },
          true,
          processed m.balance_proof.sender metadata m.message_identifier ∷ [],
        )
      | invalid r ↦ ok (c, false, invalid_received_unlock secrethash r ∷ [])
    ]
