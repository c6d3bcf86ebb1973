-- ===== src/Mediated/Initiator/Started.antt =====
-- The start of a payment's transfer: `try_new_route` of
-- src/gatecoin/transfer/mediated_transfer/initiator.py.
use gatecoin.Common.{
  ℕ, ◌+◌, ◌≤◌, ◌≤ℤ◌, pos, pos_part, neg_part, ℤ-cases, int_laws, sym, ◌∙◌, lookup-insert_self, ◌≡◌,
  lookup, Option, none, some, List, [], ◌∷◌, ok, arith, IfReturns, IfReturns-bind, Option-cases,
  Result-cases, inl, inr, refl, subst, ap,
}
use gatecoin.Externals.{Externals}
use gatecoin.State.{
  BalanceProof, local, EncodedData, NettingChannelEndState, HashTimeLockState, NettingChannelState,
  RouteState,
}
use gatecoin.Event.{SendLockedTransfer}
use gatecoin.Channel.Query.{get_lock}
use gatecoin.Channel.Receive.Sound.{IsSoundChannel}
use gatecoin.Channel.Index.{with_lock}
use gatecoin.Channel.Invariant.{with_proof}
use gatecoin.Channel.Send as Send
use gatecoin.Channel.Send.{TransferRequest}
use gatecoin.Channel.Send.Sound.{requested, locks_after, send_lockedtransfer-ok}
use gatecoin.Channel.Send.Partial.{send_lockedtransfer-IfReturns}
use gatecoin.Mediated.Channels.{
  Channels, AreSound, get_channel_to, get_channel_to-lookup, write, write-AreSound,
}
use gatecoin.Mediated.Mediator.Forward.{hop_after}
use gatecoin.Mediated.Mediator.Forwarded.{IsUnsent}
use gatecoin.Mediated.Initiator.{TransferDescription, InitiatorTransferState}
use gatecoin.Mediated.Initiator.Route.{
  Floats, calculate_safe_amount_with_fee, Choice, choose_route, max_amount, transfer_request,
  send_lockedtransfer, our_address, choice, start_transfer, try_new_route,
}

-- The channel is in the store, and the amount within the limit.
abbrev IsChoice : Floats → Channels → TransferDescription → Option Choice → Type 0
IsChoice f h d none = Unit
IsChoice f h d (some (reference, c, r)) =
    (lookup reference h.store ≡ some c)
    × (calculate_safe_amount_with_fee f d.amount r.estimated_fee ≤ℤ pos (max_amount f d.amount))

-- The lock pays the payment and the fee of the route with its margin, within the limit, under the
-- secrethash of the payment.
pub record IsPaying (f : Floats) (d : TransferDescription) (r : RouteState) (l : HashTimeLockState)
    : Type 0 where
  pub amount_eq : pos l.amount ≡ calculate_safe_amount_with_fee f d.amount r.estimated_fee
  pub covers : d.amount ≤ l.amount + neg_part r.estimated_fee
  pub within : l.amount ≤ max_amount f d.amount
  pub secrethash_eq : l.secrethash ≡ d.secrethash

-- A channel of the store, with the identifier, has the lock as one of ours.
abbrev pub IsLocked : Channels → ℕ → HashTimeLockState → Type 0
IsLocked h identifier l =
    (reference : ℕ) × (c : NettingChannelState) × (lookup reference h.store ≡ some c)
    × (c.canonical_identifier.channel_identifier ≡ identifier)
    × (get_lock c.our_state l.secrethash ≡ some l)

abbrev pub IsPaid : Floats → TransferDescription → Channels → Option InitiatorTransferState → Type 0
IsPaid f d h none = Unit
IsPaid f d h (some s) =
    IsPaying f d s.route s.transfer.lock × IsLocked h s.channel_identifier s.transfer.lock

with_lock-get_lock :
    (e : NettingChannelEndState) (locks : List EncodedData) (l : HashTimeLockState)
    (b : BalanceProof) (nonce : ℕ)
    → get_lock (with_proof (with_lock e locks l) b nonce) l.secrethash ≡ some l
unfolding get_lock
with_lock-get_lock e locks l b nonce =
    ground (arith, lookup-insert_self l.secrethash l e.secrethashes_to_lockedlocks)

module _ (f : Floats) (h : Channels) (d : TransferDescription) where
  choose_route-IsChoice :
      (address : ℕ) (rs : List RouteState) → IsChoice f h d (choose_route f h d address rs).0
  unfolding choose_route
  choose_route-IsChoice address [] = tt
  choose_route-IsChoice address (r ∷ rs) = elim (Option-cases (hop_after address r.route)) [
    | inl missing ↦ rw (missing, choose_route) (choose_route-IsChoice address rs)
    | inr (hop, next) ↦ elim (Option-cases (get_channel_to h d.token_network_address hop)) [
      | inl missing ↦ rw (next, missing, choose_route) (choose_route-IsChoice address rs)
      | inr ((reference, c), here) ↦ ground (
        arith,
        choose_route-IsChoice address rs,
        get_channel_to-lookup h d.token_network_address hop reference c here,
      )
    ]
  ]

  choice-IsChoice : (rs : List RouteState) → IsChoice f h d (choice f h d rs).0
  choice-IsChoice rs = elim (Option-cases (our_address h)) [
    | inl missing ↦ rw (missing, choice) tt
    | inr (address, here) ↦ rw (here, choice) (choose_route-IsChoice address rs)
  ]

  paying :
      (r : RouteState) (l : HashTimeLockState)
      → calculate_safe_amount_with_fee f d.amount r.estimated_fee ≡ pos l.amount
      → calculate_safe_amount_with_fee f d.amount r.estimated_fee ≤ℤ pos (max_amount f d.amount)
      → l.secrethash ≡ d.secrethash
      → IsPaying f d r l
  unfolding calculate_safe_amount_with_fee
  paying r l total within same = record {
    amount_eq = sym total;
    covers = omega (int_laws, ap pos_part total, ap neg_part total);
    within = omega (arith, ap pos_part total, ap neg_part total, within);
    secrethash_eq = same;
  }

module _ (x : Externals) (f : Floats) (h : Channels) (d : TransferDescription)
    (sound : AreSound x h) (unsent : IsUnsent h d.secrethash) where
  sent-IsPaying :
      (rs : List RouteState) (identifier block_number reference : ℕ) (c c' : NettingChannelState)
      (r : RouteState) (event : SendLockedTransfer) (amount : ℕ)
      → IsChoice f h d (some (reference, c, r))
      → calculate_safe_amount_with_fee f d.amount r.estimated_fee ≡ pos amount
      → Send.send_lockedtransfer x c (transfer_request d c identifier block_number amount rs)
        ≡ ok (c', event)
      → IsPaying f d r event.transfer.lock
        × (get_lock c'.our_state event.transfer.lock.secrethash ≡ some event.transfer.lock)
        × AreSound x (write h reference c')
  sent-IsPaying rs identifier block_number reference c c' r event amount (here, within) total e =
      let q = transfer_request d c identifier block_number amount rs in
      let kept =
        subst (IfReturns (λ p. IsSoundChannel x p.0)) e (
          send_lockedtransfer-IfReturns x c (sound reference c here) q (unsent reference c here)) in
      let (sent, eq) = send_lockedtransfer-ok x c q c' event e in
      (
        paying f h d r event.transfer.lock
            (total ∙ ap pos (sym (ap HashTimeLockState.amount sent.lock_eq))) within
            (ap HashTimeLockState.secrethash sent.lock_eq),
        rw (eq, sent.lock_eq)
            (with_lock-get_lock c.our_state (locks_after x c q) (requested x c q)
              (local event.transfer.balance_proof) event.transfer.balance_proof.nonce),
        write-AreSound x h sound reference c' kept,
      )

  -- What a transfer that is sent leads to.
  abbrev SentWell : RouteState → ℕ → NettingChannelState × SendLockedTransfer → Type 0
  SentWell r reference (c', event) =
      IsPaying f d r event.transfer.lock
      × (get_lock c'.our_state event.transfer.lock.secrethash ≡ some event.transfer.lock)
      × AreSound x (write h reference c')

  sending-SentWell :
      (rs : List RouteState) (identifier block_number reference : ℕ) (c : NettingChannelState)
      (r : RouteState)
      → IsChoice f h d (some (reference, c, r))
      → IfReturns (SentWell r reference) (send_lockedtransfer x f d c identifier block_number r rs)
  unfolding send_lockedtransfer
  sending-SentWell rs identifier block_number reference c r chosen =
      elim (ℤ-cases (calculate_safe_amount_with_fee f d.amount r.estimated_fee)) [
        | inl (amount, total) ↦
            elim (Result-cases (
              Send.send_lockedtransfer x c
                (transfer_request d c identifier block_number amount rs))) [
                  | inl ((c', event), e) ↦ ground (
                    arith,
                    sent-IsPaying rs identifier block_number reference c c' r event amount chosen
                        total e,
                  )
                  | inr (fault, e) ↦ ground arith
                ]
        | inr (n, total) ↦ ground arith
      ]

  written-IsLocked :
      (reference : ℕ) (c : NettingChannelState) (l : HashTimeLockState)
      → get_lock c.our_state l.secrethash ≡ some l
      → IsLocked (write h reference c) c.canonical_identifier.channel_identifier l
  unfolding write
  written-IsLocked reference c l here =
      (reference, c, lookup-insert_self reference c h.store, refl, here)

  start-IsPaid :
      (rs : List RouteState) (prng block_number : ℕ) (c : Choice)
      → IsChoice f h d (some c)
      → IfReturns
          (λ r. AreSound x r.1 × IsPaid f d r.1 r.0)
          (start_transfer x f h rs d prng block_number c)
  unfolding start_transfer
  start-IsPaid rs prng block_number (reference, c, r) chosen =
      let identifier = (x.randint prng).0 in
      IfReturns-bind (SentWell r reference) (λ r. AreSound x r.1 × IsPaid f d r.1 r.0)
        (send_lockedtransfer x f d c identifier block_number r rs) _
        (sending-SentWell rs identifier block_number reference c r chosen)
        (λ (c', event) (paid, here, kept).
          (kept, (paid, written-IsLocked reference c' event.transfer.lock here)))

  -- When every channel is sound and none has a lock that we have sent under the secrethash of the
  -- payment, then, whenever `try_new_route` returns, every channel is sound. If it has started a
  -- transfer, then its lock is under that secrethash and of the safe amount for the fee that its
  -- route estimates, which is at least the payment, less a negative fee, and at most the limit
  -- for payment and fees, and a channel with the identifier of the task has the lock among those
  -- that we have sent.
  pub try_new_route-IsPaid :
      (rs : List RouteState) (prng block_number : ℕ)
      → IfReturns
          (λ r. AreSound x r.1 × IsPaid f d r.1 r.0)
          (try_new_route x f h rs d prng block_number)
  unfolding try_new_route
  try_new_route-IsPaid rs prng block_number =
      let chosen = choice-IsChoice f h d rs in
      elim (Option-cases (choice f h d rs).0) [
        | inl e ↦ rw (e, try_new_route) (sound, tt)
        | inr (c, e) ↦
            rw (e, try_new_route)
              (start-IsPaid rs prng block_number c (subst (IsChoice f h d) e chosen))
      ]
