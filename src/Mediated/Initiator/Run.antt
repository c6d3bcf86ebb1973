-- ===== src/Mediated/Initiator/Run.antt =====
-- The changes that reach one transfer of the initiator, one after the other: `state_transition` of
-- src/gatecoin/transfer/mediated_transfer/initiator.py, whose caller drops a transfer that has
-- ended.
use gatecoin.Common.{
  ℕ, ◌+◌, ◌≤◌, ◌≡◌, Bool, true, false, if◌then◌else◌, suc, lookup, Option, none, some, List, [],
  ◌∷◌, ◌++◌, map, Result, ok, ◌>>=◌, arith, IfReturns, IfReturns-bind, IfReturns-trivial,
  Result-cases, Option-cases, Bool-cases, refl, inl, inr,
}
use gatecoin.Externals.{Externals}
use gatecoin.State.{HashTimeLockState, NettingChannelState}
use gatecoin.Event.{Event, send_lock_expired, SendLockExpired, send_secret_reveal}
use gatecoin.Channel.Query.{get_status, is_opened}
use gatecoin.Channel.Secret.{register_onchain_secret}
use gatecoin.Channel.Send as Send
use gatecoin.Channel.Send.{get_address_metadata}
use gatecoin.Mediated.Waiting.{ReceiveSecretReveal, ContractReceiveSecretReveal}
use gatecoin.Mediated.Initiator.{
  InitiatorTransferState, Iteration, events_for_unlock_lock, failures, expiry_message, expire,
  handle_block,
}
use gatecoin.Mediated.Initiator.Transition.{
  ReceiveSecretRequest, handle_secretrequest, finish, handle_offchain_secretreveal,
  handle_onchain_secretreveal, InitiatorChange, block, receive_secret_request,
  receive_secret_reveal, contract_receive_secret_reveal, other, state_transition,
}

-- The transfer over some changes, each with the number of the block it comes in.
unfoldable pub run :
    Externals
    → Option InitiatorTransferState
    → List (InitiatorChange × ℕ)
    → NettingChannelState
    → ℕ
    → Result Iteration
run x none changes c prng = ok (none, c, prng, [])
run x (some s) [] c prng = ok (some s, c, prng, [])
run x (some s) ((change, number) ∷ changes) c prng = do
  (s', c', prng', events) ← state_transition x s change c prng number
  (s₂, c₂, prng₂, later) ← run x s' changes c' prng'
  ok (s₂, c₂, prng₂, events ++ later)

-- How many of the events reveal a secret to another node.
abbrev pub is_reveal : Event → Bool
is_reveal (send_secret_reveal header message) = true
is_reveal _ = false

abbrev pub reveals : List Event → ℕ
reveals [] = 0
reveals (e ∷ es) = let later = reveals es in if is_reveal e then suc later else later

-- How often a transfer may still reveal its secret: once, up to the first secret request.
abbrev pub allowed : Option InitiatorTransferState → ℕ
allowed none = 0
allowed (some s) = if s.received_secret_request then 0 else 1

reveals-append : (es fs : List Event) → reveals (es ++ fs) ≡ reveals es + reveals fs
reveals-append [] fs = omega arith
reveals-append (e ∷ es) fs = ground (arith, reveals-append es fs)

messages-reveals : (es : List SendLockExpired) → reveals (map send_lock_expired es) ≡ 0
messages-reveals [] = omega arith
messages-reveals (e ∷ es) = ground (arith, messages-reveals es)

-- What a handler spends and leaves is within what was allowed.
abbrev IsWithin : InitiatorTransferState → Iteration → Type 0
IsWithin s r = reveals r.3 + allowed r.0 ≤ allowed (some s)

module _ (x : Externals) (s : InitiatorTransferState) (c : NettingChannelState) (prng : ℕ) where
  message-reveals :
      (l : HashTimeLockState) → IfReturns (λ r. reveals r.2 ≡ 0) (expiry_message x s c l prng)
  message-reveals l = elim (Bool-cases (is_opened (get_status c))) [
    | inl e ↦
        let metadata = get_address_metadata c.partner_state.address (s.route ∷ []) in
        rw e (
          IfReturns-bind (λ _. Unit {0}) (λ r. reveals r.2 ≡ 0)
            (Send.send_lock_expired x c l prng metadata) _
            (IfReturns-trivial (Send.send_lock_expired x c l prng metadata))
            (λ r _. messages-reveals r.2))
    | inr e ↦ rw e refl
  ]

  expire-IsWithin : (l : HashTimeLockState) → IfReturns (IsWithin s) (expire x s c l prng)
  unfolding expire
  expire-IsWithin l =
      IfReturns-bind (λ r. reveals r.2 ≡ 0) (IsWithin s) (expiry_message x s c l prng) _
        (message-reveals l) (λ r none_yet. ground (arith, reveals-append r.2 (failures s)))

  block-IsWithin : (number : ℕ) → IfReturns (IsWithin s) (handle_block x s c number prng)
  unfolding handle_block
  block-IsWithin number =
      elim (Option-cases
        (lookup s.transfer.lock.secrethash c.our_state.secrethashes_to_lockedlocks)) [
          | inl missing ↦ ground arith
          | inr (l, here) ↦ ground (arith, expire-IsWithin l)
        ]

  request-IsWithin :
      (m : ReceiveSecretRequest) → IfReturns (IsWithin s) (handle_secretrequest x s m c prng)
  unfolding handle_secretrequest
  request-IsWithin m = ground arith

  finish-IsWithin :
      (c' : NettingChannelState) (secret secrethash number : ℕ)
      → IfReturns (IsWithin s) (finish x s c' secret secrethash prng number)
  unfolding finish events_for_unlock_lock
  finish-IsWithin c' secret secrethash number = ground arith

  offchain-IsWithin :
      (m : ReceiveSecretReveal) (number : ℕ)
      → IfReturns (IsWithin s) (handle_offchain_secretreveal x s m c prng number)
  unfolding handle_offchain_secretreveal
  offchain-IsWithin m number = ground (arith, finish-IsWithin c m.secret (x.sha256 m.secret) number)

  onchain-IsWithin :
      (m : ContractReceiveSecretReveal) (number : ℕ)
      → IfReturns (IsWithin s) (handle_onchain_secretreveal x s m c prng number)
  unfolding handle_onchain_secretreveal
  onchain-IsWithin m number =
      let secrethash = s.transfer_description.secrethash in
      elim (Result-cases (register_onchain_secret c m.secret secrethash m.block_number true)) [
        | inl (c', e) ↦ ground (arith, finish-IsWithin c' m.secret m.secrethash number)
        | inr (f, e) ↦ ground arith
      ]

  step-IsWithin :
      (change : InitiatorChange) (number : ℕ)
      → IfReturns (IsWithin s) (state_transition x s change c prng number)
  unfolding state_transition
  step-IsWithin (block n) number = block-IsWithin n
  step-IsWithin (receive_secret_request m) number = request-IsWithin m
  step-IsWithin (receive_secret_reveal m) number = offchain-IsWithin m number
  step-IsWithin (contract_receive_secret_reveal m) number = onchain-IsWithin m number
  step-IsWithin other number = omega arith

-- Over any changes to a transfer of the initiator, whenever the run returns, the secret reveals
-- that it sends and those that it may still send are together at most those allowed before: one
-- for a transfer that has had no secret request, none for one that has had a request or has
-- ended.
pub run-reveals :
    (x : Externals) (task : Option InitiatorTransferState) (changes : List (InitiatorChange × ℕ))
    (c : NettingChannelState) (prng : ℕ)
    → IfReturns (λ r. reveals r.3 + allowed r.0 ≤ allowed task) (run x task changes c prng)
unfolding run
run-reveals x none changes c prng = omega arith
run-reveals x (some s) [] c prng = ground arith
run-reveals x (some s) ((change, number) ∷ changes) c prng =
    IfReturns-bind (IsWithin s) (IsWithin s) (state_transition x s change c prng number) _
      (step-IsWithin x s c prng change number)
      (λ (s', c', prng', events) first.
        IfReturns-bind (λ r. reveals r.3 + allowed r.0 ≤ allowed s') (IsWithin s)
          (run x s' changes c' prng') _ (run-reveals x s' changes c' prng')
          (λ r later. omega (arith, reveals-append events r.3)))
