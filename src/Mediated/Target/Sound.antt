-- ===== src/Mediated/Target/Sound.antt =====
-- The target's task and the channel that its lock is in: what the handlers of
-- src/gatecoin/transfer/mediated_transfer/target.py keep.
use gatecoin.Common.{
  ℕ, ◌<◌, ◌≤◌, ◌≡◌, refl, true, false, Option, none, some, is_some, List, arith, ◌==◌, ◌∙◌, ap, inl,
  inr, ok, Returns, Returns-bind, Result-cases, Bool-cases, lookup-erase_self, lookup-insert_self,
  IsDict, ltb, ◌+◌, not, ◌&&◌, subst,
}
use gatecoin.Externals.{Externals}
use gatecoin.State.{
  uint256_max, HashTimeLockState, NettingChannelEndState, NettingChannelState,
  LockedTransferSignedState, EncodedData, BalanceProofSignedState,
}
use gatecoin.Channel.Query.{get_lock, get_secret, is_secret_known_offchain}
use gatecoin.Channel.Lock.{del_lock}
use gatecoin.Channel.Index.{del_lock-eq}
use gatecoin.Channel.Check.{
  valid_lockedtransfer_check, is_valid_lockedtransfer, is_valid_unlock, is_transfer_expired,
}
use gatecoin.Channel.Check.Sound.{checked-cases, valid-IsReleased}
use gatecoin.Channel.Receive as Receive
use gatecoin.Channel.Receive.{
  ReceiveUnlock, ReceiveLockExpired, take_over, take_over_lock, handle_receive_lockedtransfer,
}
use gatecoin.Channel.Receive.Sound.{
  IsSoundChannel, accepted-IsSound, handle_unlock-IsSound, handle_receive_lock_expired-IsSound,
}
use gatecoin.Channel.Secret.{register_offchain_secret, register_onchain_secret}
use gatecoin.Channel.Secret.Sound.{
  register_offchain_secret-IsSound, register_onchain_secret-IsSound,
}
use gatecoin.Mediated.Waiting.{
  ReceiveSecretReveal, ContractReceiveSecretReveal, is_safe_to_wait, payer_address_metadata,
}
use gatecoin.Mediated.Target.{
  TargetTransferState, ActionInitTarget, Iteration, events_for_onchain_secretreveal, init_accepted,
  handle_inittarget, handle_offchain_secretreveal, handle_onchain_secretreveal, handle_unlock,
  handle_block, handle_lock_expired,
}

-- A lock that is taken over is found.
taken-get_lock :
    (e : NettingChannelEndState) (m : LockedTransferSignedState) (locks : List EncodedData)
    → is_some (get_lock (take_over_lock e m.balance_proof locks m.lock) m.lock.secrethash) ≡ true
unfolding get_lock
taken-get_lock e m locks =
    ground (arith, lookup-insert_self m.lock.secrethash m.lock e.secrethashes_to_lockedlocks)

-- A lock that is deleted is not found.
deleted-get_lock :
    (e : NettingChannelEndState) (h : ℕ) (l : HashTimeLockState)
    → IsDict e.secrethashes_to_lockedlocks
    → IsDict e.secrethashes_to_unlockedlocks
    → IsDict e.secrethashes_to_onchain_unlockedlocks
    → get_lock e h ≡ some l
    → Returns (λ e'. is_some (get_lock e' h) ≡ false) (del_lock e h)
unfolding get_lock
deleted-get_lock e h l locked unlocked onchain here = rw (del_lock-eq e h l here) (
    ground (
      arith,
      lookup-erase_self h e.secrethashes_to_lockedlocks locked,
      lookup-erase_self h e.secrethashes_to_unlockedlocks unlocked,
      lookup-erase_self h e.secrethashes_to_onchain_unlockedlocks onchain,
    ))

-- The task goes on with its lock, or has ended without it.
abbrev pub IsSettled :
    Option TargetTransferState → Option TargetTransferState → NettingChannelState → Type 0
IsSettled old (some s) c = is_some (get_lock c.partner_state s.transfer.lock.secrethash) ≡ true
IsSettled (some s) none c = is_some (get_lock c.partner_state s.transfer.lock.secrethash) ≡ false
IsSettled none none c = Unit

-- What a handler leaves behind.
abbrev pub IsKept : Externals → Option TargetTransferState → Iteration → Type 0
IsKept x old r = IsSoundChannel x r.1 × IsSettled old r.0 r.1

-- The numbers with which `is_safe_to_wait` does not fail.
pub record CanWait (expiration reveal_timeout block_number : ℕ) : Type 0 where
  pub block_positive : 0 < block_number
  pub timeout_positive : 0 < reveal_timeout
  pub late : reveal_timeout < expiration

pub is_safe_to_wait-eq :
    (expiration reveal_timeout block_number : ℕ)
    → CanWait expiration reveal_timeout block_number
    → is_safe_to_wait expiration reveal_timeout block_number
      ≡ ok (ltb (reveal_timeout + block_number) expiration)
unfolding is_safe_to_wait
is_safe_to_wait-eq expiration reveal_timeout block_number can = ground arith

module _ (x : Externals) (c : NettingChannelState) (sound : IsSoundChannel x c) where
  pub inittarget-IsKept :
      (m : ActionInitTarget) (block_number prng : ℕ)
      → c.canonical_identifier.channel_identifier
        ≡ m.transfer.balance_proof.canonical_identifier.channel_identifier
      → get_lock c.partner_state m.transfer.lock.secrethash ≡ none
      → CanWait m.transfer.lock.expiration c.reveal_timeout block_number
      → Returns (IsKept x none) (handle_inittarget x m c block_number prng)
  unfolding handle_inittarget handle_receive_lockedtransfer is_valid_lockedtransfer init_accepted
  inittarget-IsKept m block_number prng same fresh can =
      elim (checked-cases (
        valid_lockedtransfer_check x c c.partner_state c.our_state m.transfer.balance_proof
          m.transfer.lock)) [
            | inl (locks, e) ↦ ground (
              arith,
              accepted-IsSound x c m.transfer.balance_proof m.transfer.lock locks sound fresh e,
              taken-get_lock c.partner_state m.transfer locks,
              is_safe_to_wait-eq m.transfer.lock.expiration c.reveal_timeout block_number can,
            )
            | inr (r, e) ↦ ground arith
          ]

  pub offchain-IsKept :
      (s : TargetTransferState) (m : ReceiveSecretReveal) (block_number prng : ℕ)
      → is_some (get_lock c.partner_state s.transfer.lock.secrethash) ≡ true
      → IsKept x (some s) (handle_offchain_secretreveal x s m c block_number prng)
  unfolding handle_offchain_secretreveal register_offchain_secret
  offchain-IsKept s m block_number prng here =
      let (kept, _, partner) =
        register_offchain_secret-IsSound x c m.secret (x.sha256 m.secret) sound in
      elim (Bool-cases (
        x.sha256 m.secret == s.transfer.lock.secrethash
        && not (is_transfer_expired s.transfer c block_number))) [
          | inl e ↦
              rw (e, handle_offchain_secretreveal)
                (kept, ap is_some (partner.locks s.transfer.lock.secrethash) ∙ here)
          | inr e ↦ rw (e, handle_offchain_secretreveal) (sound, here)
        ]

  pub onchain-IsKept :
      (s : TargetTransferState) (m : ContractReceiveSecretReveal) (prng : ℕ)
      → is_some (get_lock c.partner_state s.transfer.lock.secrethash) ≡ true
      → Returns (IsKept x (some s)) (handle_onchain_secretreveal s m c prng)
  unfolding handle_onchain_secretreveal
  onchain-IsKept s m prng here = elim (Bool-cases (m.secrethash == s.transfer.lock.secrethash)) [
    | inl e ↦
        rw (e, handle_onchain_secretreveal)
          (Returns-bind _ (IsKept x (some s))
            (register_onchain_secret c m.secret m.secrethash m.block_number true) _
            (register_onchain_secret-IsSound x c m.secret m.secrethash m.block_number sound)
            (λ c' k. (k.0, ap is_some (k.2.locks s.transfer.lock.secrethash) ∙ here)))
    | inr e ↦ rw (e, handle_onchain_secretreveal) (sound, here)
  ]

  known :
      (h : ℕ) (l : HashTimeLockState)
      → get_lock c.partner_state h ≡ some l
      → (locks : List EncodedData) (b : BalanceProofSignedState)
      → get_lock (take_over c.partner_state b locks) h ≡ some l
  unfolding get_lock
  known h l here locks b = here

  unlock-get_lock :
      (m : ReceiveUnlock) (metadata : Option ℕ)
      → Returns
          (λ r.
            (r.1 ≡ true → is_some (get_lock r.0.partner_state (x.sha256 m.secret)) ≡ false)
            × (r.1 ≡ false → r.0 ≡ c))
          (Receive.handle_unlock x c m metadata)
  unfolding Receive.handle_unlock
  unlock-get_lock m metadata =
      elim (checked-cases
        (is_valid_unlock x (x.sha256 m.secret) m.balance_proof c c.partner_state)) [
          | inl (locks, e) ↦
              let (l, rel) =
                valid-IsReleased x c c.partner_state m.balance_proof (x.sha256 m.secret) locks e in
              rw (e, Receive.handle_unlock)
                (Returns-bind (λ p. is_some (get_lock p (x.sha256 m.secret)) ≡ false)
                  (λ r.
                    (r.1 ≡ true → is_some (get_lock r.0.partner_state (x.sha256 m.secret)) ≡ false)
                    × (r.1 ≡ false → r.0 ≡ c))
                  (del_lock (take_over c.partner_state m.balance_proof locks) (x.sha256 m.secret)) _
                  (deleted-get_lock (take_over c.partner_state m.balance_proof locks)
                    (x.sha256 m.secret) l sound.partner_index.locked_dict
                    sound.partner_index.unlocked_dict sound.partner_index.onchain_dict
                    (known (x.sha256 m.secret) l rel.known locks m.balance_proof))
                  (λ partner gone. (λ t. gone, λ f. cc)))
          | inr (r, e) ↦ rw (e, Receive.handle_unlock) (λ t. cc, λ f. refl)
        ]

  pub unlock-IsKept :
      (s : TargetTransferState) (m : ReceiveUnlock) (prng : ℕ)
      → is_some (get_lock c.partner_state s.transfer.lock.secrethash) ≡ true
      → x.sha256 m.secret ≡ s.transfer.lock.secrethash
      → s.transfer.lock.amount ≤ uint256_max
      → Returns (IsKept x (some s)) (handle_unlock x s m c prng)
  unfolding handle_unlock
  unlock-IsKept s m prng here same fits =
      let metadata = payer_address_metadata s.transfer in
      elim (Result-cases (Receive.handle_unlock x c m metadata)) [
        | inl ((c', accepted, events), e) ↦
            let (kept, _) =
              subst (Returns (λ r. IsSoundChannel x r.0 × (r.0.our_state ≡ c.our_state))) e
                (handle_unlock-IsSound x c m metadata sound) in
            let (gone, stays) =
              subst
                (Returns (λ r.
                  (r.1 ≡ true → is_some (get_lock r.0.partner_state (x.sha256 m.secret)) ≡ false)
                  × (r.1 ≡ false → r.0 ≡ c)))
                e (unlock-get_lock m metadata) in
            ground arith
        | inr (f, e) ↦ absurd (
            subst (Returns (λ r. IsSoundChannel x r.0 × (r.0.our_state ≡ c.our_state))) e
              (handle_unlock-IsSound x c m metadata sound))
      ]

  pub block-IsKept :
      (s : TargetTransferState) (block_number block_hash prng : ℕ)
      → is_some (get_lock c.partner_state s.transfer.lock.secrethash) ≡ true
      → CanWait s.transfer.lock.expiration c.reveal_timeout block_number
      → Returns (IsKept x (some s)) (handle_block s c block_number block_hash prng)
  unfolding handle_block events_for_onchain_secretreveal is_secret_known_offchain get_secret
  block-IsKept s block_number block_hash prng here can =
      ground
        (arith, is_safe_to_wait-eq s.transfer.lock.expiration c.reveal_timeout block_number can)

  pub lock_expired-IsKept :
      (s : TargetTransferState) (m : ReceiveLockExpired) (block_number prng : ℕ)
      → IsKept x (some s) (handle_lock_expired x s m c block_number prng)
  unfolding handle_lock_expired
  lock_expired-IsKept s m block_number prng =
      let c' =
        (Receive.handle_receive_lock_expired x c m block_number
          (payer_address_metadata s.transfer)).0 in
      let kept =
        (handle_receive_lock_expired-IsSound x c m block_number (payer_address_metadata s.transfer)
          sound).0 in
      elim (Bool-cases (is_some (get_lock c'.partner_state s.transfer.lock.secrethash))) [
        | inl e ↦ rw (e, handle_lock_expired) (kept, e)
        | inr e ↦ rw (e, handle_lock_expired) (kept, e)
      ]
