-- ===== src/Mediated/Mediator/Finalized.antt =====
-- When the mediator's task ends: `clear_if_finalized` of
-- src/gatecoin/transfer/mediated_transfer/mediator.py.
use gatecoin.Common.{ℕ, ◌≡◌, Bool, false, ◌||◌, Option, none, some, List, [], ◌∷◌, arith}
use gatecoin.State.{NettingChannelState, NettingChannelEndState}
use gatecoin.Event.{Event}
use gatecoin.Channel.Query.{get_lock, is_lock_pending}
use gatecoin.Mediated.Channels.{Channels, get_channel}
use gatecoin.Mediated.Mediator.{
  MediationPairState, WaitingTransferState, MediatorTransferState, get_payee_channel,
  get_payer_channel, any_pending, waiting_pending, pending_received, pending_sent,
  clear_if_finalized,
}
use gatecoin.Mediated.Mediator.Secrets.{waiting_identifier}

-- The channel, if it is there, has no received or no sent lock.
abbrev pub NoneReceived : Option (ℕ × NettingChannelState) → ℕ → Type 0
NoneReceived none secrethash = Unit
NoneReceived (some (_, c)) secrethash = get_lock c.partner_state secrethash ≡ none

abbrev pub NoneSent : Option (ℕ × NettingChannelState) → ℕ → Type 0
NoneSent none secrethash = Unit
NoneSent (some (_, c)) secrethash = get_lock c.our_state secrethash ≡ none

abbrev pub AreCleared : Channels → ℕ → List MediationPairState → Type 0
AreCleared h secrethash [] = Unit
AreCleared h secrethash (p ∷ ps) =
    NoneReceived (get_payer_channel h p) secrethash
    × NoneSent (get_payee_channel h p) secrethash
    × AreCleared h secrethash ps

abbrev pub IsCleared : Channels → ℕ → Option WaitingTransferState → Type 0
IsCleared h secrethash none = Unit
IsCleared h secrethash (some w) = NoneReceived (get_channel h (waiting_identifier w)) secrethash

not_pending-get_lock :
    (e : NettingChannelEndState) (h : ℕ) → is_lock_pending e h ≡ false → get_lock e h ≡ none
unfolding is_lock_pending get_lock
not_pending-get_lock e h k = ground arith

received-none :
    (o : Option (ℕ × NettingChannelState)) (h : ℕ) → pending_received o h ≡ false → NoneReceived o h
received-none none h e = tt
received-none (some (_, c)) h e = not_pending-get_lock c.partner_state h e

sent-none : (o : Option (ℕ × NettingChannelState)) (h : ℕ) → pending_sent o h ≡ false → NoneSent o h
sent-none none h e = tt
sent-none (some (_, c)) h e = not_pending-get_lock c.our_state h e

or_false : (a b : Bool) → (a || b) ≡ false → (a ≡ false) × (b ≡ false)
or_false a b h = ground arith

or_false3 : (a b c : Bool) → (a || b || c) ≡ false → (a ≡ false) × (b ≡ false) × (c ≡ false)
or_false3 a b c h = ground arith

pairs-cleared :
    (h : Channels) (secrethash : ℕ) (ps : List MediationPairState)
    → any_pending h secrethash ps ≡ false
    → AreCleared h secrethash ps
pairs-cleared h secrethash [] e = tt
pairs-cleared h secrethash (p ∷ ps) e =
    let (a, b, others) =
      or_false3 (pending_received (get_payer_channel h p) secrethash)
        (pending_sent (get_payee_channel h p) secrethash) (any_pending h secrethash ps) e in
    (
      received-none (get_payer_channel h p) secrethash a,
      sent-none (get_payee_channel h p) secrethash b,
      pairs-cleared h secrethash ps others,
    )

-- When `clear_if_finalized` drops the mediator's task, no channel of a payer has a received lock
-- under its secrethash, no channel of a payee a sent one, and the channel of a transfer that
-- waits no received one, as far as these channels are there.
pub clear-AreCleared :
    (s : MediatorTransferState) (h : Channels) (prng : ℕ) (events : List Event)
    → (clear_if_finalized (some s, h, prng, events)).0 ≡ none
    → AreCleared h s.secrethash s.transfers_pair × IsCleared h s.secrethash s.waiting_transfer
unfolding clear_if_finalized
clear-AreCleared s h prng events e =
    let (pairs, rest) =
      or_false (any_pending h s.secrethash s.transfers_pair)
        (waiting_pending h s.secrethash s.waiting_transfer) (ground arith) in
    (pairs-cleared h s.secrethash s.transfers_pair pairs, waiting s.waiting_transfer rest)
  where
    waiting :
        (o : Option WaitingTransferState)
        → waiting_pending h s.secrethash o ≡ false
        → IsCleared h s.secrethash o
    waiting none k = tt
    waiting (some w) k = received-none (get_channel h (waiting_identifier w)) s.secrethash k
