-- ===== src/Common/Results.antt =====
-- How a Python call ends: with a value, or by an exception. Each `assert` of the sources and each
-- check of a constructor is one fault.
use gatecoin.Common.Base.{Bool, true, false, Option, none, some, ◌≡◌, refl, ◌⊎◌, inl, inr}

pub data Fault : Type 0 where
  -- a constructor refuses its values (ValueError, OverflowError)
  amount_too_large expiration_too_large nonce_too_large transferred_amount_too_large : Fault
  locked_amount_out_of_range nonce_not_positive channel_id_invalid balance_proof_empty : Fault
  negative_amount missing_key : Fault
  -- an assertion about what the caller made sure of
  not_enough_balance channel_not_open lock_already_registered result_overflows : Fault
  lock_not_pending lock_is_expired no_balance_proof lock_unknown ids_do_not_match : Fault
  block_number_mismatch close_block_missing coop_settle_missing both_coop_settle : Fault
  coop_settle_amount_mismatch balance_proof_not_signed : Fault
  -- an assertion of a state machine of transfers
  block_number_not_positive reveal_timeout_not_positive expiration_too_early : Fault
  state_missing secret_missing channel_missing settle_timeout_too_small sender_mismatch : Fault
  already_unlocked pair_missing lock_not_cleared lock_cleared secrethash_mismatch : Fault
  transfers_too_different address_mismatch : Fault
  -- an assertion of `sanity_check`
  withdraws_not_ordered withdraw_key_mismatch our_balance_negative : Fault
  partner_balance_negative deposit_not_accounted our_locked_mismatch : Fault
  partner_locked_mismatch our_distributable_exceeds partner_distributable_exceeds : Fault
  our_locksroot_mismatch partner_locksroot_mismatch locks_not_synchronized : Fault

pub data Result {ℓ} (A : Type ℓ) : Type ℓ where
  ok : A → Result A
  raise : Fault → Result A

infixl 5 ◌>>=◌ ◌>>◌
abbrev pub ◌>>=◌ {ℓ κ} : {A : Type ℓ} {B : Type κ} → Result A → (A → Result B) → Result B
ok a >>= f = f a
raise e >>= f = raise e

abbrev pub ◌>>◌ {ℓ} : {B : Type ℓ} → Result (Unit {0}) → Result B → Result B
m >> k = m >>= λ _. k

-- `assert b`
abbrev pub assert : Bool → Fault → Result (Unit {0})
assert true e = ok tt
assert false e = raise e

-- `assert o is not None`
abbrev pub assert_some {ℓ} : {A : Type ℓ} → Option A → Fault → Result A
assert_some none e = raise e
assert_some (some a) e = ok a

-- The call returns, and its value has the property.
abbrev pub Returns {ℓ} : {A : Type ℓ} → (A → Type 0) → Result A → Type 0
Returns P (ok a) = P a
Returns P (raise e) = ⊥

-- The rule for a call that goes on with the value of another.
pub Returns-bind {ℓ κ} :
    {A : Type ℓ} {B : Type κ} (P : A → Type 0) (Q : B → Type 0) (m : Result A) (f : A → Result B)
    → Returns P m
    → ((a : A) → P a → Returns Q (f a))
    → Returns Q (m >>= f)
Returns-bind P Q (ok a) f h k = k a h
Returns-bind P Q (raise e) f h k = absurd h

pub Returns-both {ℓ} :
    {A : Type ℓ} (P Q : A → Type 0) (m : Result A)
    → Returns P m
    → Returns Q m
    → Returns (λ a. P a × Q a) m
Returns-both P Q (ok a) h k = (h, k)
Returns-both P Q (raise e) h k = h

pub Result-cases {ℓ} :
    {A : Type ℓ} (r : Result A) → ((a : A) × (r ≡ ok a)) ⊎ ((e : Fault) × (r ≡ raise e))
Result-cases (ok a) = inl (a, refl)
Result-cases (raise e) = inr (e, refl)

-- If the call returns, its value has the property.
abbrev pub IfReturns {ℓ} : {A : Type ℓ} → (A → Type 0) → Result A → Type 0
IfReturns P (ok a) = P a
IfReturns P (raise e) = Unit

pub IfReturns-bind {ℓ κ} :
    {A : Type ℓ} {B : Type κ} (P : A → Type 0) (Q : B → Type 0) (m : Result A) (f : A → Result B)
    → IfReturns P m
    → ((a : A) → P a → IfReturns Q (f a))
    → IfReturns Q (m >>= f)
IfReturns-bind P Q (ok a) f h k = k a h
IfReturns-bind P Q (raise e) f h k = tt

pub IfReturns-of_Returns {ℓ} :
    {A : Type ℓ} (P : A → Type 0) (m : Result A) → Returns P m → IfReturns P m
IfReturns-of_Returns P (ok a) h = h
IfReturns-of_Returns P (raise e) h = absurd h

-- A property that always holds.
pub IfReturns-trivial {ℓ} : {A : Type ℓ} (m : Result A) → IfReturns (λ _. Unit) m
IfReturns-trivial (ok a) = tt
IfReturns-trivial (raise e) = tt
