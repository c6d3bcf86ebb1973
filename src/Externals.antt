-- ===== src/Externals.antt =====
-- What the node takes from outside: the hash functions, the packing of signed data by the
-- contracts package, the recovery of a signer, and the random generator. (utils/signer.py and
-- utils/packing.py of src/gatecoin only call these.) `imbalance_fees` stands for
-- `calculate_imbalance_fees` of src/gatecoin/transfer/mediated_transfer/mediation_fee.py, which
-- computes with floats.
use gatecoin.Common.{ℕ, ℤ, Option, List}

pub record Externals : Type 0 where
  -- the hash of a sequence of 32-byte words
  pub keccak : List ℕ → ℕ
  pub sha256 : ℕ → ℕ
  -- token network, chain, channel, nonce, balance hash, additional hash
  pub pack_balance_proof : ℕ → ℕ → ℕ → ℕ → ℕ → ℕ → List ℕ
  -- token network, chain, channel, participant, total withdraw, expiration
  pub pack_withdraw : ℕ → ℕ → ℕ → ℕ → ℕ → ℕ → List ℕ
  -- the address that signed the data, unless the recovery raises
  pub recover : List ℕ → ℕ → Option ℕ
  -- `randint(0, UINT64_MAX)`: a number and the generator's next state
  pub randint : ℕ → ℕ × ℕ
  -- capacity, proportional imbalance fee
  pub imbalance_fees : ℤ → ℕ → Option (List (ℕ × ℕ))
