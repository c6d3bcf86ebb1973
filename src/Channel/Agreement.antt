-- ===== src/Channel/Agreement.antt =====
-- The two nodes of a channel: what one sends by src/gatecoin/transfer/channel.py the other accepts
-- by the same file, and both go on with the same view of the sender's side.
use gatecoin.Common.{
  ℕ, ◌+◌, ◌≤◌, ◌<◌, ◌≡◌, refl, true, Option, none, some, List, [], ◌∷◌, ◌++◌, length, pos, ◌≤ℤ◌,
  arith, ap, ◌∙◌, sym, ok, Bool-cases, inl, inr, if◌then◌else◌, ◌==◌, lookup-insert_self,
  lookup-insert_ne, subst,
}
use gatecoin.Externals.{Externals}
use gatecoin.State.{
  CanonicalIdentifier, BalanceProofUnsignedState, BalanceProof, BalanceProofSignedState, received,
  local, EncodedData, HashTimeLockState, NettingChannelEndState, NettingChannelState,
  LockedTransferSignedState, proof_fields, total_withdraw, transferred_amount,
}
use gatecoin.Event.{SendLockedTransfer}
use gatecoin.Channel.Query.{
  get_amount_locked, get_balance, get_current_balanceproof, get_distributable, get_lock,
  get_next_nonce, get_status, is_opened, maximum_pending_transfers,
}
use gatecoin.Channel.Lock.{encoded, has_data, compute_locksroot}
use gatecoin.Channel.Balance.{fits_of_distributable}
use gatecoin.Channel.Check.{
  success, valid, valid_lockedtransfer_check, is_valid_lockedtransfer,
  is_valid_balanceproof_signature,
}
use gatecoin.Channel.Check.Sound.{IsNewLock-valid}
use gatecoin.Channel.Index.{with_lock}
use gatecoin.Channel.Invariant.{IsBacked, with_proof, with_lock_facts, current-IsBacked}
use gatecoin.Channel.Send.{TransferRequest, send_lockedtransfer}
use gatecoin.Channel.Send.Sound.{
  IsSent, HasFields, requested, locks_after, send_lockedtransfer-ok, sent-IsSound,
}
use gatecoin.Channel.Receive.{handle_receive_lockedtransfer, take_over_lock}
use gatecoin.Channel.Receive.Sound.{IsSoundChannel, accepted-IsSound}

-- The other node's view `e'` of a side `e`.
pub record Mirrors (e e' : NettingChannelEndState) : Type 0 where
  pub address : e'.address ≡ e.address
  pub nonce : e'.nonce ≡ e.nonce
  pub pending : e'.pending_locks ≡ e.pending_locks
  pub locks : (k : ℕ) → get_lock e' k ≡ get_lock e k
  pub amount : get_amount_locked e' ≡ get_amount_locked e
  pub withdraw : total_withdraw e' ≡ total_withdraw e
  pub transferred : transferred_amount e' ≡ transferred_amount e
  pub deposit : e'.contract_balance ≡ e.contract_balance

-- The node's channel `c` and the partner's channel `d`.
pub record Agree (c d : NettingChannelState) : Type 0 where
  pub identifier : d.canonical_identifier ≡ c.canonical_identifier
  pub ours : Mirrors c.our_state d.partner_state
  pub theirs : Mirrors c.partner_state d.our_state

balance-Mirrors :
    (s s' r r' : NettingChannelEndState)
    → Mirrors s s'
    → Mirrors r r'
    → get_balance s' r' ≡ get_balance s r
unfolding get_balance
balance-Mirrors s s' r r' m n = cc (m.deposit, m.withdraw, m.transferred, n.transferred)

distributable-Mirrors :
    (x : Externals) (s s' r r' : NettingChannelEndState)
    → IsBacked x s
    → IsBacked x s'
    → Mirrors s s'
    → Mirrors r r'
    → get_distributable s' r' ≡ get_distributable s r
unfolding get_distributable
distributable-Mirrors x s s' r r' b b' m n =
    let k = current-IsBacked x s b in
    let k' = current-IsBacked x s' b' in
    cc (balance-Mirrors s s' r r' m n, k.0, k.1, k'.0, k'.1, m.transferred, m.amount)

get_lock-with_lock :
    (s : NettingChannelEndState) (b : BalanceProof) (n : ℕ) (l : HashTimeLockState)
    (locks : List EncodedData) (k : ℕ)
    → get_lock (with_proof (with_lock s locks l) b n) k
      ≡ (if k == l.secrethash then some l else get_lock s k)
unfolding get_lock
get_lock-with_lock s b n l locks k = elim (Bool-cases (k == l.secrethash)) [
  | inl same ↦ ground (arith, lookup-insert_self l.secrethash l s.secrethashes_to_lockedlocks)
  | inr other ↦ ground (arith, lookup-insert_ne k l.secrethash l s.secrethashes_to_lockedlocks)
]

module _ (x : Externals) (c d : NettingChannelState) (q : TransferRequest)
    (event : SendLockedTransfer) (b : BalanceProofSignedState) where
  -- The partner gets the balance proof of the transfer with a signature that it can check, while
  -- it has room for one more pending lock and its channel is open.
  pub record IsDelivered : Type 0 where
    pub is_open : is_opened (get_status d) ≡ true
    pub carried : b.unsigned ≡ event.transfer.balance_proof
    pub signed : is_valid_balanceproof_signature x b d.partner_state.address ≡ success
    pub room : length (locks_after x c q) ≤ maximum_pending_transfers
    pub positive : 0 < q.amount

  delivered-valid :
      IsSoundChannel x c
      → IsSoundChannel x d
      → Agree c d
      → IsSent x c q event
      → IsDelivered
      → valid_lockedtransfer_check x d d.partner_state d.our_state b event.transfer.lock
        ≡ valid (locks_after x c q)
  unfolding get_next_nonce
  delivered-valid s t g sent h =
      subst
        (λ l.
          valid_lockedtransfer_check x d d.partner_state d.our_state b l
          ≡ valid (locks_after x c q))
        (sym sent.lock_eq)
        (IsNewLock-valid x d d.partner_state d.our_state b (requested x c q) (locks_after x c q)
          (record {
            usable = record {
              is_open = h.is_open;
              channel = ap (λ (i : CanonicalIdentifier). i.channel_identifier) same;
              network = ap (λ (i : CanonicalIdentifier). i.token_network_address) same;
              chain = ap (λ (i : CanonicalIdentifier). i.chain_identifier) same;
              fits = omega (
                arith,
                f.transferred_eq,
                f.locked_eq,
                k,
                fits_of_distributable c.our_state c.partner_state q.amount h.positive sent.covered,
              );
              next_nonce = omega (arith, f.nonce_eq, g.ours.nonce);
              signed = h.signed;
            };
            fresh = ap (has_data (encoded (requested x c q))) g.ours.pending ∙ sent.fresh;
            appended =
                ap (λ (p : List EncodedData). p ++ encoded (requested x c q) ∷ [])
                  (sym g.ours.pending);
            few = h.room;
            amounts = (
              f.locksroot_eq,
              omega (arith, f.transferred_eq, k', g.ours.transferred),
              omega (arith, f.locked_eq, k', g.ours.amount),
            );
            covered =
                subst (λ z. pos q.amount ≤ℤ z)
                  (sym (
                    distributable-Mirrors x c.our_state d.partner_state c.partner_state d.our_state
                      s.our_backed t.partner_backed g.ours g.theirs))
                  sent.covered;
          }))
    where
      f :
          HasFields
            (get_next_nonce c.our_state)
            (transferred_amount c.our_state)
            (pos (get_amount_locked c.our_state + q.amount))
            (compute_locksroot x (locks_after x c q))
            c.canonical_identifier
            b.unsigned
      f = subst (HasFields _ _ _ _ _) (sym h.carried) sent.proof

      same : b.canonical_identifier ≡ d.canonical_identifier
      same = f.identifier_eq ∙ sym g.identifier

      k :
          ((get_current_balanceproof c.our_state).2 ≡ transferred_amount c.our_state)
          × ((get_current_balanceproof c.our_state).3 ≡ get_amount_locked c.our_state)
      k = current-IsBacked x c.our_state s.our_backed

      k' :
          ((get_current_balanceproof d.partner_state).2 ≡ transferred_amount d.partner_state)
          × ((get_current_balanceproof d.partner_state).3 ≡ get_amount_locked d.partner_state)
      k' = current-IsBacked x d.partner_state t.partner_backed

new_lock-Mirrors :
    (s s' : NettingChannelEndState) (b b' : BalanceProof) (n : ℕ) (l : HashTimeLockState)
    (locks : List EncodedData)
    → Mirrors s s'
    → get_lock s l.secrethash ≡ none
    → (proof_fields b').transferred_amount ≡ (proof_fields b).transferred_amount
    → Mirrors (with_proof (with_lock s locks l) b n) (with_proof (with_lock s' locks l) b' n)
new_lock-Mirrors s s' b b' n l locks m unused same =
    let f = with_lock_facts s b n l locks unused in
    let f' = with_lock_facts s' b' n l locks (m.locks l.secrethash ∙ unused) in
    record {
      address = m.address;
      nonce = refl;
      pending = refl;
      locks = λ k.
          cc (get_lock-with_lock s b n l locks k, get_lock-with_lock s' b' n l locks k, m.locks k);
      amount = omega (arith, f.0, f'.0, m.amount);
      withdraw = f'.1 ∙ m.withdraw ∙ sym f.1;
      transferred = f'.2 ∙ same ∙ sym f.2;
      deposit = m.deposit;
    }

-- The same where the other node takes over the signed balance proof.
taken-Mirrors :
    (s s' : NettingChannelEndState) (b : BalanceProofSignedState) (p : BalanceProofUnsignedState)
    (l l' : HashTimeLockState) (locks : List EncodedData)
    → Mirrors s s'
    → get_lock s l.secrethash ≡ none
    → l' ≡ l
    → b.unsigned ≡ p
    → Mirrors (with_proof (with_lock s locks l) (local p) p.nonce) (take_over_lock s' b locks l')
taken-Mirrors s s' b p l l' locks m unused same carried =
    let start =
      new_lock-Mirrors s s' (local b.unsigned) (received b) b.nonce l locks m unused refl in
    subst
      (λ k.
        Mirrors (with_proof (with_lock s locks l) (local p) p.nonce) (take_over_lock s' b locks k))
      (sym same)
      (subst
        (λ u.
          Mirrors (with_proof (with_lock s locks l) (local u) u.nonce)
            (take_over_lock s' b locks l))
        carried start)

module _ (x : Externals) (c d c' : NettingChannelState) (q : TransferRequest)
    (event : SendLockedTransfer) (t : LockedTransferSignedState) (metadata : Option ℕ) where
  -- Two nodes whose channels are sound and agree go on agreeing over a locked transfer: what
  -- `send_lockedtransfer` builds under a secrethash that the sender has no lock for, when it
  -- reaches the partner with a signature that the partner can check, with a positive amount, an
  -- open channel and room for one more pending lock, is accepted by
  -- `handle_receive_lockedtransfer`. Both channels are sound afterwards, and each node has the
  -- same view of both sides.
  pub transfer_delivered :
      IsSoundChannel x c
      → IsSoundChannel x d
      → Agree c d
      → get_lock c.our_state q.secrethash ≡ none
      → send_lockedtransfer x c q ≡ ok (c', event)
      → t.lock ≡ event.transfer.lock
      → IsDelivered x c d q event t.balance_proof
      → let (d', accepted, _) = handle_receive_lockedtransfer x d t metadata in
        (accepted ≡ true) × IsSoundChannel x c' × IsSoundChannel x d' × Agree c' d'
  unfolding handle_receive_lockedtransfer is_valid_lockedtransfer
  transfer_delivered s r g unused sends same h =
      let (sent, eq) = send_lockedtransfer-ok x c q c' event sends in
      let lock_eq : t.lock ≡ requested x c q = same ∙ sent.lock_eq in
      let unused' : get_lock d.partner_state t.lock.secrethash ≡ none =
        ap (λ (l : HashTimeLockState). get_lock d.partner_state l.secrethash) lock_eq
        ∙ g.ours.locks q.secrethash
        ∙ unused in
      let accepts : valid_lockedtransfer_check x d d.partner_state d.our_state t.balance_proof
            t.lock
          ≡ valid (locks_after x c q) =
        subst
          (λ l.
            valid_lockedtransfer_check x d d.partner_state d.our_state t.balance_proof l
            ≡ valid (locks_after x c q))
          (sym same) (delivered-valid x c d q event t.balance_proof s r g sent h) in
      rw (accepts, handle_receive_lockedtransfer)
        (
          refl,
          subst (IsSoundChannel x) (sym eq) (sent-IsSound x c q event s unused sent),
          accepted-IsSound x d t.balance_proof t.lock (locks_after x c q) r unused' accepts,
          subst (λ e. Agree e taken) (sym eq)
              (record {
                identifier = g.identifier;
                ours =
                    taken-Mirrors c.our_state d.partner_state t.balance_proof
                      event.transfer.balance_proof (requested x c q) t.lock (locks_after x c q)
                      g.ours unused lock_eq h.carried;
                theirs = g.theirs;
              }),
        )
    where
      taken : NettingChannelState
      taken = record d {
        partner_state = take_over_lock d.partner_state t.balance_proof (locks_after x c q) t.lock;
      }
