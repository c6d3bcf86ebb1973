-- ===== src/Message.antt =====
-- The bytes of a lock: `Lock` of src/gatecoin/messages/transfers.py. A byte is a number below 256.
use Prim.Native.Nat.{◌%◌}
use native.Mathlib.Nat.{pow-suc}
use gatecoin.Common.{
  ℕ, zero, suc, ◌+◌, ◌*◌, ◌/◌, ◌^◌, ◌<◌, ◌≡◌, refl, ◌==◌, if◌then◌else◌, List, [], ◌∷◌, ◌++◌,
  length, Result, ok, raise, Fault, arith, ap, ◌∙◌, sym,
}
use gatecoin.State.{HashTimeLockState}
use gatecoin.Channel.Lock.{new_lock}

-- `n.to_bytes(width, byteorder="big")`, for a number that fits
unfoldable pub to_bytes : ℕ → ℕ → List ℕ
to_bytes zero n = []
to_bytes (suc width) n = to_bytes width (n / 256) ++ n % 256 ∷ []

-- The number that some more bytes make of one.
abbrev pub append_bytes : ℕ → List ℕ → ℕ
append_bytes n [] = n
append_bytes n (b ∷ bs) = append_bytes (n * 256 + b) bs

-- `int.from_bytes(bytes, byteorder="big")`
unfoldable pub from_bytes : List ℕ → ℕ
from_bytes bs = append_bytes 0 bs

-- `bytes[:n]` and `bytes[n:]`
abbrev pub take : ℕ → List ℕ → List ℕ
take zero bs = []
take (suc n) [] = []
take (suc n) (b ∷ bs) = b ∷ take n bs

abbrev pub drop : ℕ → List ℕ → List ℕ
drop zero bs = bs
drop (suc n) [] = []
drop (suc n) (b ∷ bs) = drop n bs

-- `as_bytes`; the secrethash is 32 bytes already.
unfoldable pub as_bytes : HashTimeLockState → List ℕ
as_bytes l = to_bytes 32 l.expiration ++ (to_bytes 32 l.amount ++ to_bytes 32 l.secrethash)

-- `Lock.from_bytes`, with the checks of the constructor. `ishash` asks for 32 bytes.
unfoldable pub lock_from_bytes : List ℕ → Result HashTimeLockState
lock_from_bytes bs =
    let rest = drop 64 bs in
    if length rest == 32
    then new_lock (from_bytes (take 32 (drop 32 bs))) (from_bytes (take 32 bs)) (from_bytes rest)
    else raise Fault.secrethash_mismatch

length-append : (xs ys : List ℕ) → length (xs ++ ys) ≡ length xs + length ys
length-append [] ys = omega arith
length-append (x ∷ xs) ys = omega (arith, length-append xs ys)

pub length-to_bytes : (width n : ℕ) → length (to_bytes width n) ≡ width
unfolding to_bytes
length-to_bytes zero n = refl
length-to_bytes (suc width) n =
    length-append (to_bytes width (n / 256)) (n % 256 ∷ [])
    ∙ omega (arith, length-to_bytes width (n / 256))

append_bytes-append :
    (n : ℕ) (xs : List ℕ) (b : ℕ) → append_bytes n (xs ++ b ∷ []) ≡ append_bytes n xs * 256 + b
append_bytes-append n [] b = refl
append_bytes-append n (x ∷ xs) b = append_bytes-append (n * 256 + x) xs b

div_fits : (width n : ℕ) → n < 256 ^ suc width → n / 256 < 256 ^ width
div_fits width n h = omega (arith, pow-suc 256 width)

-- x
pub from_bytes-to_bytes : (width n : ℕ) → n < 256 ^ width → from_bytes (to_bytes width n) ≡ n
unfolding from_bytes to_bytes
from_bytes-to_bytes zero n fits = omega (arith, fits)
from_bytes-to_bytes (suc width) n fits =
    append_bytes-append 0 (to_bytes width (n / 256)) (n % 256)
    ∙ omega (arith, from_bytes-to_bytes width (n / 256) (div_fits width n fits))

take-append : (n : ℕ) (xs ys : List ℕ) → length xs ≡ n → take n (xs ++ ys) ≡ xs
take-append zero [] ys h = refl
take-append (suc n) [] ys h = absurd (omega (arith, h))
take-append zero (x ∷ xs) ys h = absurd (omega (arith, h))
take-append (suc n) (x ∷ xs) ys h = ap (λ zs. x ∷ zs) (take-append n xs ys (omega (arith, h)))

drop-append : (n : ℕ) (xs ys : List ℕ) → length xs ≡ n → drop n (xs ++ ys) ≡ ys
drop-append zero [] ys h = refl
drop-append (suc n) [] ys h = absurd (omega (arith, h))
drop-append zero (x ∷ xs) ys h = absurd (omega (arith, h))
drop-append (suc n) (x ∷ xs) ys h = drop-append n xs ys (omega (arith, h))

drop-nil : (n : ℕ) → drop n [] ≡ []
drop-nil zero = refl
drop-nil (suc n) = refl

drop_same : (i j : ℕ) (bs : List ℕ) → i ≡ j → drop i bs ≡ drop j bs
drop_same i j bs same = ap (λ k. drop k bs) same

drop-drop : (n m : ℕ) (bs : List ℕ) → drop n (drop m bs) ≡ drop (m + n) bs
drop-drop n zero bs = drop_same n (0 + n) bs (omega arith)
drop-drop n (suc m) [] = drop-nil n ∙ sym (drop-nil (suc m + n))
drop-drop n (suc m) (b ∷ bs) =
    drop-drop n m bs ∙ drop_same (suc (m + n)) (suc m + n) (b ∷ bs) (omega arith)

-- What is read from the three slices.
from_slices :
    (l : HashTimeLockState) (bs : List ℕ)
    → from_bytes (take 32 bs) ≡ l.expiration
    → from_bytes (take 32 (drop 32 bs)) ≡ l.amount
    → from_bytes (drop 64 bs) ≡ l.secrethash
    → length (drop 64 bs) ≡ 32
    → l.amount < 2 ^ 256
    → l.expiration < 2 ^ 256
    → lock_from_bytes bs ≡ ok l
unfolding lock_from_bytes new_lock
from_slices l bs e a h n amount expiration = ground arith

-- A lock whose amount, expiration and secrethash take at most 256 bits is read back from its 96
-- bytes.
pub lock_from_bytes-as_bytes :
    (l : HashTimeLockState)
    → l.amount < 2 ^ 256
    → l.expiration < 2 ^ 256
    → l.secrethash < 2 ^ 256
    → lock_from_bytes (as_bytes l) ≡ ok l
unfolding as_bytes
lock_from_bytes-as_bytes l amount expiration secrethash =
    let a = to_bytes 32 l.expiration in
    let b = to_bytes 32 l.amount in
    let c = to_bytes 32 l.secrethash in
    let first = drop-append 32 a (b ++ c) (length-to_bytes 32 l.expiration) in
    let last : drop 64 (a ++ (b ++ c)) ≡ c =
      sym (drop-drop 32 32 (a ++ (b ++ c)))
      ∙ ap (drop 32) first
      ∙ drop-append 32 b c (length-to_bytes 32 l.amount) in
    from_slices l (a ++ (b ++ c))
      (ap from_bytes (take-append 32 a (b ++ c) (length-to_bytes 32 l.expiration))
        ∙ from_bytes-to_bytes 32 l.expiration expiration)
      (ap (λ bs. from_bytes (take 32 bs)) first
        ∙ ap from_bytes (take-append 32 b c (length-to_bytes 32 l.amount))
        ∙ from_bytes-to_bytes 32 l.amount amount)
      (ap from_bytes last ∙ from_bytes-to_bytes 32 l.secrethash secrethash)
      (ap length last ∙ length-to_bytes 32 l.secrethash) amount expiration
