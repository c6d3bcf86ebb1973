-- ===== src/Channel/Lock.antt =====
-- The pending locks of one side of a channel and the dicts that index them:
-- src/gatecoin/transfer/channel.py, `compute_locks_with` to `compute_locksroot`, `_del_lock`, with
-- the encoding of `Lock` in src/gatecoin/messages/transfers.py.
use gatecoin.Common.{
  ℕ, ◌≡◌, Bool, true, false, ◌&&◌, ◌||◌, ltb, ◌==◌, if◌then◌else◌, Option, none, some, List, [],
  ◌∷◌, ◌++◌, Result, ok, assert, ◌>>◌, erase, not, arith, Fault,
}
use gatecoin.Externals.{Externals}
use gatecoin.State.{uint256_max, EncodedData, HashTimeLockState, NettingChannelEndState}
use gatecoin.Channel.Query.{is_lock_pending}

-- `Lock.as_bytes`: expiration, amount and secrethash, 32 bytes each
unfoldable pub encoded : HashTimeLockState → EncodedData
encoded l = (l.expiration, l.amount, l.secrethash)

abbrev pub same_data : EncodedData → EncodedData → Bool
same_data (a, b, c) (a', b', c') = a == a' && b == b' && c == c'

-- `HashTimeLockState(amount, expiration, secrethash)`, which builds a `Lock`
unfoldable pub new_lock : ℕ → ℕ → ℕ → Result HashTimeLockState
new_lock amount expiration secrethash = do
  assert (not (ltb uint256_max amount)) Fault.amount_too_large
  assert (not (ltb uint256_max expiration)) Fault.expiration_too_large
  ok (record { amount = amount; expiration = expiration; secrethash = secrethash })

-- `data in locks`
unfoldable pub has_data : EncodedData → List EncodedData → Bool
has_data d [] = false
has_data d (x ∷ xs) = same_data d x || has_data d xs

-- `locks.remove(data)`: the first occurrence
unfoldable pub remove_data : EncodedData → List EncodedData → List EncodedData
remove_data d [] = []
remove_data d (x ∷ xs) = if same_data d x then xs else x ∷ remove_data d xs

unfoldable pub compute_locks_with : List EncodedData → HashTimeLockState → Option (List EncodedData)
compute_locks_with locks l =
    if has_data (encoded l) locks then none else some (locks ++ encoded l ∷ [])

unfoldable pub compute_locks_without : List EncodedData → EncodedData → Option (List EncodedData)
compute_locks_without locks d = if has_data d locks then some (remove_data d locks) else none

-- `b"".join(locks.locks)`, as words
unfoldable pub join_words : List EncodedData → List ℕ
join_words [] = []
join_words ((a, b, c) ∷ xs) = a ∷ b ∷ c ∷ join_words xs

unfoldable pub compute_locksroot : Externals → List EncodedData → ℕ
compute_locksroot x locks = x.keccak (join_words locks)

unfoldable pub del_unclaimed_lock : NettingChannelEndState → ℕ → NettingChannelEndState
del_unclaimed_lock e h = record e {
  secrethashes_to_lockedlocks = erase h e.secrethashes_to_lockedlocks;
  secrethashes_to_unlockedlocks = erase h e.secrethashes_to_unlockedlocks;
}

-- This leaves the pending locks.
unfoldable pub del_lock : NettingChannelEndState → ℕ → Result NettingChannelEndState
unfolding del_unclaimed_lock
del_lock e h = do
  assert (is_lock_pending e h) Fault.lock_not_pending
  let e' = del_unclaimed_lock e h
  ok (record e' {
    secrethashes_to_onchain_unlockedlocks = erase h e'.secrethashes_to_onchain_unlockedlocks;
  })

pub same_data_iff : (d x : EncodedData) → (same_data d x ≡ true) → d ≡ x
same_data_iff (a, b, c) (a', b', c') h = ground arith

pub same_data_refl : (d : EncodedData) → same_data d d ≡ true
same_data_refl (a, b, c) = ground arith

pub has_data-append_self :
    (d : EncodedData) (xs : List EncodedData) → has_data d (xs ++ d ∷ []) ≡ true
unfolding has_data
has_data-append_self d [] = ground (arith, same_data_refl d)
has_data-append_self d (x ∷ xs) = ground (arith, has_data-append_self d xs)

pub has_data-append :
    (d : EncodedData) (xs ys : List EncodedData)
    → has_data d xs ≡ true
    → has_data d (xs ++ ys) ≡ true
unfolding has_data
has_data-append d [] ys h = cc
has_data-append d (x ∷ xs) ys h = ground (arith, has_data-append d xs ys)

-- Removing one datum keeps every other one.
pub has_data-remove_ne :
    (d k : EncodedData) (xs : List EncodedData)
    → same_data k d ≡ false
    → has_data d xs ≡ true
    → has_data d (remove_data k xs) ≡ true
unfolding has_data remove_data
has_data-remove_ne d k [] n h = cc
has_data-remove_ne d k (x ∷ xs) n h = ground (
  arith,
  has_data-remove_ne d k xs n,
  same_data_iff d x,
  same_data_iff k x,
  same_data_refl d,
  same_data_refl k,
)
