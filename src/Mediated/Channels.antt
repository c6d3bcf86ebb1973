-- ===== src/Mediated/Channels.antt =====
-- The channels that a state machine of transfers works on. `channelidentifiers_to_channels` and
-- `addresses_to_channel` of src/gatecoin/transfer/state.py hold the same objects, so that a change
-- made through one is seen through the other: both are tables of references into one store.
use gatecoin.Common.{
  ℕ, ◌≡◌, sym, ◌∙◌, subst, true, ◌&&◌, ◌==◌, if◌then◌else◌, Option, none, some, List, [], ◌∷◌, Dict,
  lookup, insert, arith, Bool-cases, Option-cases, inl, inr, lookup-insert_self, lookup-insert_ne,
}
use gatecoin.Externals.{Externals}
use gatecoin.State.{NettingChannelState}
use gatecoin.Channel.Receive.Sound.{IsSoundChannel}

pub record Channels : Type 0 where
  pub store : Dict NettingChannelState
  -- channel identifier to reference
  pub by_identifier : Dict ℕ
  -- token network and partner's address to reference
  pub by_address : List (ℕ × ℕ × ℕ)

abbrev pub deref : Channels → Option ℕ → Option (ℕ × NettingChannelState)
deref h none = none
deref h (some reference) = elim (lookup reference h.store) [
  | none ↦ none
  | some c ↦ some (reference, c)
]

abbrev find_reference : List (ℕ × ℕ × ℕ) → ℕ → ℕ → Option ℕ
find_reference [] network address = none
find_reference ((n, a, reference) ∷ entries) network address =
    if n == network && a == address then some reference else find_reference entries network address

-- `channelidentifiers_to_channels.get(identifier)`
unfoldable pub get_channel : Channels → ℕ → Option (ℕ × NettingChannelState)
get_channel h identifier = deref h (lookup identifier h.by_identifier)

-- `addresses_to_channel.get((network, address))`
unfoldable pub get_channel_to : Channels → ℕ → ℕ → Option (ℕ × NettingChannelState)
get_channel_to h network address = deref h (find_reference h.by_address network address)

-- What becomes of the channel under a reference.
unfoldable pub write : Channels → ℕ → NettingChannelState → Channels
write h reference c = record h { store = insert reference c h.store }

-- Every channel is sound.
abbrev pub AreSound : Externals → Channels → Type 0
AreSound x h =
    (reference : ℕ) (c : NettingChannelState)
    → lookup reference h.store ≡ some c
    → IsSoundChannel x c

written :
    (h : Channels) (other reference : ℕ) (c d : NettingChannelState)
    → (other == reference) ≡ true
    → lookup other (insert reference c h.store) ≡ some d
    → c ≡ d
written h other reference c d same here = cc (lookup-insert_self reference c h.store, key, here)
  where
    key : other ≡ reference
    key = ground arith

deref-lookup :
    (h : Channels) (o : Option ℕ) (reference : ℕ) (c : NettingChannelState)
    → deref h o ≡ some (reference, c)
    → lookup reference h.store ≡ some c
deref-lookup h none reference c e = absurd (ground arith)
deref-lookup h (some r) reference c e = elim (Option-cases (lookup r h.store)) [
  | inl missing ↦ absurd (ground arith)
  | inr (d, here) ↦ ground arith
]

-- What is found is in the store.
pub get_channel-lookup :
    (h : Channels) (identifier reference : ℕ) (c : NettingChannelState)
    → get_channel h identifier ≡ some (reference, c)
    → lookup reference h.store ≡ some c
unfolding get_channel
get_channel-lookup h identifier reference c e =
    deref-lookup h (lookup identifier h.by_identifier) reference c e

pub get_channel_to-lookup :
    (h : Channels) (network address reference : ℕ) (c : NettingChannelState)
    → get_channel_to h network address ≡ some (reference, c)
    → lookup reference h.store ≡ some c
unfolding get_channel_to
get_channel_to-lookup h network address reference c e =
    deref-lookup h (find_reference h.by_address network address) reference c e

-- What holds of every channel and of a new value holds after the value is written.
pub write-all :
    (P : NettingChannelState → Type 0) (h : Channels) (reference : ℕ) (c : NettingChannelState)
    → ((other : ℕ) (d : NettingChannelState) → lookup other h.store ≡ some d → P d)
    → P c
    → (other : ℕ) (d : NettingChannelState) → lookup other (write h reference c).store ≡ some d
    → P d
unfolding write
write-all P h reference c all s other d here = elim (Bool-cases (other == reference)) [
  | inl e ↦ subst P (written h other reference c d e here) s
  | inr e ↦ all other d (sym (lookup-insert_ne other reference c h.store (ground arith)) ∙ here)
]

module _ (x : Externals) (h : Channels) (sound : AreSound x h) where
  pub write-AreSound :
      (reference : ℕ) (c : NettingChannelState)
      → IsSoundChannel x c
      → AreSound x (write h reference c)
  write-AreSound reference c s = write-all (IsSoundChannel x) h reference c sound s

  pub get_channel-IsSound :
      (identifier reference : ℕ) (c : NettingChannelState)
      → get_channel h identifier ≡ some (reference, c)
      → IsSoundChannel x c
  get_channel-IsSound identifier reference c e =
      sound reference c (get_channel-lookup h identifier reference c e)
