-- ===== src/Common/Dicts.antt =====
-- A Python dict keyed by numbers, in insertion order. Hashes, addresses and identifiers are the
-- numbers that their bytes spell.
use gatecoin.Common.Base.{
  ℕ, ◌+◌, ◌≡◌, refl, ◌≢◌, Bool, Option, none, some, List, [], ◌∷◌, arith, ◌==◌, if◌then◌else◌,
  is_some,
}

abbrev pub Dict : Type 0 → Type 0
Dict V = List (ℕ × V)

module _ {V : Type 0} where
  -- `entries.get(key)`
  abbrev pub lookup : ℕ → Dict V → Option V
  lookup key [] = none
  lookup key ((first, value) ∷ entries) = if key == first then some value else lookup key entries

  -- `key in entries`
  abbrev pub contains : ℕ → Dict V → Bool
  contains key entries = is_some (lookup key entries)

  -- No key stands twice.
  abbrev pub IsDict : Dict V → Type 0
  IsDict [] = Unit
  IsDict ((first, _) ∷ entries) = (lookup first entries ≡ none) × IsDict entries

  -- The measure of a value that may be missing.
  abbrev pub measure_of : (V → ℕ) → Option V → ℕ
  measure_of size none = 0
  measure_of size (some value) = size value

  -- The sum of a measure over the values.
  abbrev pub sum_of : (V → ℕ) → Dict V → ℕ
  sum_of size [] = 0
  sum_of size ((_, value) ∷ entries) = size value + sum_of size entries

  module _ (key : ℕ) where
    -- `del entries[key]`, and nothing on a missing key
    abbrev pub erase : Dict V → Dict V
    erase [] = []
    erase (entry ∷ entries) =
        let others = erase entries in if key == entry.0 then entries else entry ∷ others

    pub lookup-erase_ne :
        (other : ℕ) (entries : Dict V)
        → other ≢ key
        → lookup other (erase entries) ≡ lookup other entries
    lookup-erase_ne other [] apart = refl
    lookup-erase_ne other (entry ∷ entries) apart =
        ground (arith, lookup-erase_ne other entries apart)

    pub lookup-erase_self : (entries : Dict V) → IsDict entries → lookup key (erase entries) ≡ none
    lookup-erase_self [] once = refl
    lookup-erase_self (entry ∷ entries) once = ground (arith, lookup-erase_self entries once.1)

    pub erase-IsDict : (entries : Dict V) → IsDict entries → IsDict (erase entries)
    erase-IsDict [] once = tt
    erase-IsDict (entry ∷ entries) once =
        ground (arith, erase-IsDict entries once.1, lookup-erase_ne entry.0 entries)

    pub erase_missing : (entries : Dict V) → lookup key entries ≡ none → erase entries ≡ entries
    erase_missing [] absent = refl
    erase_missing (entry ∷ entries) absent = ground (arith, erase_missing entries)

    pub sum_of-erase :
        (size : V → ℕ) (entries : Dict V)
        → sum_of size (erase entries) + measure_of size (lookup key entries) ≡ sum_of size entries
    sum_of-erase size [] = omega arith
    sum_of-erase size (entry ∷ entries) = ground (arith, sum_of-erase size entries)

  module _ (key : ℕ) (value : V) where
    -- `entries[key] = value`
    abbrev pub insert : Dict V → Dict V
    insert [] = (key, value) ∷ []
    insert (entry ∷ entries) =
        let others = insert entries in
        if key == entry.0 then (key, value) ∷ entries else entry ∷ others

    -- What is found after a write.
    lookup-insert :
        (other : ℕ) (entries : Dict V)
        → lookup other (insert entries)
          ≡ (if other == key then some value else lookup other entries)
    lookup-insert other [] = ground arith
    lookup-insert other (entry ∷ entries) = ground (arith, lookup-insert other entries)

    pub lookup-insert_self : (entries : Dict V) → lookup key (insert entries) ≡ some value
    lookup-insert_self entries = ground (arith, lookup-insert key entries)

    pub insert-IsDict : (entries : Dict V) → IsDict entries → IsDict (insert entries)
    insert-IsDict [] once = (refl, tt)
    insert-IsDict (entry ∷ entries) once =
        ground (arith, insert-IsDict entries once.1, lookup-insert entry.0 entries)

    pub sum_of-insert_new :
        (size : V → ℕ) (entries : Dict V)
        → lookup key entries ≡ none
        → sum_of size (insert entries) ≡ sum_of size entries + size value
    sum_of-insert_new size [] absent = omega arith
    sum_of-insert_new size (entry ∷ entries) absent = ground (arith, sum_of-insert_new size entries)

  pub lookup-insert_ne :
      (other key : ℕ) (value : V) (entries : Dict V)
      → other ≢ key
      → lookup other (insert key value entries) ≡ lookup other entries
  lookup-insert_ne other key value entries apart =
      ground (arith, lookup-insert key value other entries)
