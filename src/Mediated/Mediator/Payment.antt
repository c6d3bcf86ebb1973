-- ===== src/Mediated/Mediator/Payment.antt =====
-- When the mediator pays the payee, and what it forwards: `events_for_balanceproof` and
-- `forward_transfer_pair` of src/gatecoin/transfer/mediated_transfer/mediator.py.
use gatecoin.Common.{
  ℕ, ◌+◌, ◌<◌, ◌≡◌, refl, Bool, true, false, not, ◌&&◌, ◌==◌, Option, none, some, List, [], ok,
  raise, Result, IfReturns, IfReturns-bind, IfReturns-trivial, Bool-cases, Option-cases,
  Result-cases, inl, inr, ◌⊎◌, arith, pos, ap, ◌∙◌, subst,
}
use gatecoin.Externals.{Externals}
use gatecoin.State.{NettingChannelState, LockedTransferSignedState, transferred_amount}
use gatecoin.Event.{Event}
use gatecoin.Channel.Query.{get_status, is_opened, get_next_nonce, get_amount_locked}
use gatecoin.Channel.Lock.{compute_locksroot, compute_locks_with, new_lock}
use gatecoin.Channel.Check.{new_balance_proof}
use gatecoin.Channel.Send.{TransferRequest, create_sendlockedtransfer, send_lockedtransfer}
use gatecoin.Channel.Send.Sound.{locks_after}
use gatecoin.Mediated.Waiting.{is_safe_to_wait}
use gatecoin.Mediated.Channels.{Channels}
use gatecoin.Mediated.Mediator.{
  MediationPairState, payee_knows_secret, payee_paid, get_payee_channel, get_payer_channel,
  is_send_transfer_almost_equal,
}
use gatecoin.Mediated.Mediator.Forward.{
  Fees, Forwarded, forward_request, forward_amount, forward_transfer_pair,
}
use gatecoin.Mediated.Mediator.Secrets.{
  is_open, is_safe_to_send, send_balanceproof, balanceproof_for_pair,
}

-- The payer's channel leaves more than the reveal timeout to unlock on chain.
pub record IsPayerSafe (h : Channels) (p : MediationPairState) (number : ℕ) : Type 0 where
  pub payer_reference : ℕ
  pub payer : NettingChannelState
  pub payer_there : get_payer_channel h p ≡ some (payer_reference, payer)
  pub in_time : payer.reveal_timeout + number < p.payer_transfer.lock.expiration

-- What makes it safe to pay the payee of a pair.
pub record IsSafeToPay (h : Channels) (p : MediationPairState) (number : ℕ) : Type 0 where
  pub secret_known : payee_knows_secret p.payee_state ≡ true
  pub not_paid : payee_paid p.payee_state ≡ false
  pub payee_reference : ℕ
  pub payee : NettingChannelState
  pub payee_there : get_payee_channel h p ≡ some (payee_reference, payee)
  pub payee_open : is_opened (get_status payee) ≡ true
  pub payer_safe : IsPayerSafe h p number

safe_to_wait-true :
    (expiration timeout number : ℕ)
    → is_safe_to_wait expiration timeout number ≡ ok true
    → timeout + number < expiration
unfolding is_safe_to_wait
safe_to_wait-true expiration timeout number h = ground arith

payer-safe :
    (h : Channels) (p : MediationPairState) (number : ℕ)
    → IfReturns
        (λ safe. safe ≡ true → IsPayerSafe h p number)
        (is_safe_to_send (get_payer_channel h p) p number)
payer-safe h p number = elim (Option-cases (get_payer_channel h p)) [
  | inl missing ↦ rw (missing, is_safe_to_send) (λ e. cc)
  | inr ((reference, c), here) ↦
      rw (here, is_safe_to_send)
        (elim (Result-cases
          (is_safe_to_wait p.payer_transfer.lock.expiration c.reveal_timeout number)) [
            | inl (safe, e) ↦ rw e (λ held. record {
              payer_reference = reference;
              payer = c;
              payer_there = here;
              in_time =
                  safe_to_wait-true p.payer_transfer.lock.expiration c.reveal_timeout number
                    (e ∙ ap ok held);
            })
            | inr (f, e) ↦ rw e tt
          ])
]

payee-open :
    (h : Channels) (p : MediationPairState)
    → is_open (get_payee_channel h p) ≡ true
    → (reference : ℕ) × (c : NettingChannelState) × (get_payee_channel h p ≡ some (reference, c))
      × (is_opened (get_status c) ≡ true)
payee-open h p e = elim (Option-cases (get_payee_channel h p)) [
  | inl missing ↦ absurd (ground arith)
  | inr ((reference, c), here) ↦ (reference, c, here, ground arith)
]

and_true4 :
    (a b c d : Bool)
    → (a && b && not c && d) ≡ true
    → (a ≡ true) × (b ≡ true) × (c ≡ false) × (d ≡ true)
and_true4 a b c d h = ground arith

-- Whenever the step of `events_for_balanceproof` for one pair returns, either nothing has changed
-- and nothing is sent, or the payee knows the secret and has not been paid, its channel is there
-- and open, and the payer's channel is there with more blocks left than its reveal timeout until
-- the payer's lock expires.
pub balanceproof_for_pair-safe :
    (x : Externals) (h : Channels) (p : MediationPairState) (prng number secret secrethash : ℕ)
    → IfReturns
        (λ r. (r ≡ (p, h, prng, [])) ⊎ IsSafeToPay h p number)
        (balanceproof_for_pair x h p prng number secret secrethash)
unfolding balanceproof_for_pair
balanceproof_for_pair-safe x h p prng number secret secrethash =
    IfReturns-bind (λ safe. safe ≡ true → IsPayerSafe h p number)
      (λ r. (r ≡ (p, h, prng, [])) ⊎ IsSafeToPay h p number)
      (is_safe_to_send (get_payer_channel h p) p number) _ (payer-safe h p number)
      (λ safe timely.
        elim (Bool-cases (
          is_open (get_payee_channel h p)
          && payee_knows_secret p.payee_state
          && not (payee_paid p.payee_state)
          && safe)) [
            | inl e ↦
                let (opened, known, unpaid, held) =
                  and_true4 (is_open (get_payee_channel h p)) (payee_knows_secret p.payee_state)
                    (payee_paid p.payee_state) safe e in
                let (reference, c, here, up) = payee-open h p opened in
                rw e (
                  always (send_balanceproof x h p prng number secret secrethash)
                    (λ r. (r ≡ (p, h, prng, [])) ⊎ IsSafeToPay h p number)
                    (λ _. inr (record {
                      secret_known = known;
                      not_paid = unpaid;
                      payee_reference = reference;
                      payee = c;
                      payee_there = here;
                      payee_open = up;
                      payer_safe = timely held;
                    })))
            | inr e ↦ rw e (inl refl)
          ])
  where
    always :
        (m : Result (MediationPairState × Channels × ℕ × List Event))
        (Q : MediationPairState × Channels × ℕ × List Event → Type 0)
        → ((r : MediationPairState × Channels × ℕ × List Event) → Q r)
        → IfReturns Q m
    always (ok a) Q q = q a
    always (raise f) Q q = tt

sent-fields :
    (x : Externals) (c : NettingChannelState) (q : TransferRequest)
    → IfReturns
        (λ r.
          let t = r.1.transfer in
          (t.payment_identifier ≡ q.payment_identifier)
          × (t.token ≡ c.token_address)
          × (t.lock.expiration ≡ q.expiration)
          × (t.lock.secrethash ≡ q.secrethash)
          × (t.initiator ≡ q.initiator)
          × (t.target ≡ q.target))
        (send_lockedtransfer x c q)
unfolding send_lockedtransfer create_sendlockedtransfer new_lock compute_locks_with
sent-fields x c q =
    elim (Result-cases (
      new_balance_proof x (get_next_nonce c.our_state) (transferred_amount c.our_state)
        (pos (get_amount_locked c.our_state + q.amount)) (compute_locksroot x (locks_after x c q))
        c.canonical_identifier)) [ inl (b, e) ↦ ground arith | inr (f, e) ↦ ground arith ]

-- The pair of a transfer that is forwarded.
abbrev pub IsAlike : LockedTransferSignedState → Option Forwarded → Type 0
IsAlike t none = Unit
IsAlike t (some (p, _, _, _)) =
    (p.payer_transfer ≡ t)
    × (is_send_transfer_almost_equal p.payee_transfer p.payer_transfer ≡ true)

amount-IsAlike :
    (x : Externals) (t : LockedTransferSignedState) (payee : NettingChannelState)
    (prng number amount : ℕ)
    → payee.token_address ≡ t.token
    → IfReturns (IsAlike t) (forward_amount x t payee prng number amount)
unfolding forward_amount is_send_transfer_almost_equal
amount-IsAlike x t payee prng number amount same =
    let q = forward_request t payee amount (x.randint prng).0 in
    let fields = sent-fields x payee q in
    elim (Result-cases (send_lockedtransfer x payee q)) [
      | inl ((c', event), e) ↦
          let known =
            subst
              (IfReturns (λ r.
                let u = r.1.transfer in
                (u.payment_identifier ≡ q.payment_identifier)
                × (u.token ≡ payee.token_address)
                × (u.lock.expiration ≡ q.expiration)
                × (u.lock.secrethash ≡ q.secrethash)
                × (u.initiator ≡ q.initiator)
                × (u.target ≡ q.target)))
              e fields in
          ground arith
      | inr (f, e) ↦ ground arith
    ]

-- Whenever a transfer is forwarded through a channel of its own token, the new pair has it as the
-- payer's transfer, and the two transfers of the pair are alike in the sense of `sanity_check`.
pub forward_transfer_pair-IsAlike :
    (x : Externals) (fees : Fees) (t : LockedTransferSignedState)
    (payer payee : NettingChannelState) (prng number : ℕ)
    → payee.token_address ≡ t.token
    → IfReturns (IsAlike t) (forward_transfer_pair x fees t payer payee prng number)
unfolding forward_transfer_pair
forward_transfer_pair-IsAlike x fees t payer payee prng number same =
    IfReturns-bind (λ _. Unit {0}) (IsAlike t) (fees t.lock.amount payer payee) _
      (IfReturns-trivial (fees t.lock.amount payer payee))
      (λ o _. elim (Option-cases o) [
        | inl e ↦ rw e tt
        | inr (a, e) ↦ rw e (elim (Bool-cases (a == 0)) [
          | inl z ↦ rw z tt
          | inr z ↦ rw z (amount-IsAlike x t payee prng number a same)
        ])
      ])
