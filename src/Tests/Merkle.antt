-- ===== src/Tests/Merkle.antt =====
-- Merkle roots, with hashes that keep what they hash.
use native.Mathlib.Decide.{ℕ_discrete}
use bmchain_core.Protocol.Merkle.Root.{Root, calculate_merkle_root-Root}
use bmchain_core.Protocol.Merkle.Collisions.{
  PairCollision, RootCollision, IsHashed, calculate_merkle_root_collides,
}
use bmchain_core.Protocol.Merkle.{
  calculate_merkle_root, merkle_loop, level, carry, hash_pairs, at, write,
}
use bmchain_core.Prelude.{ℕ, [], ◌∷◌, List, ◌≡◌, ok, arith, refl, map, ◌+◌, ◌⊎◌}

-- the tree of what was hashed
data Digest : Type 0 where
  of_transaction : ℕ → Digest
  of_pair : Digest → Digest → Digest

-- three transactions, which are numbers
abbrev transactions : List ℕ
transactions = 1 ∷ 2 ∷ 3 ∷ []

abbrev no_checksum : Digest
no_checksum = of_transaction 0

abbrev root_of_three : Digest
root_of_three = of_pair (of_pair (of_transaction 1) (of_transaction 2)) (of_transaction 3)

-- the third digest moves up
calculate_merkle_root_run :
    calculate_merkle_root of_pair of_transaction no_checksum (λ d. d) transactions
    ≡ ok root_of_three
unfolding calculate_merkle_root merkle_loop level carry hash_pairs at write
calculate_merkle_root_run = refl

calculate_merkle_root-Root_example :
    (root : Digest) × (calculate_merkle_root of_pair of_transaction no_checksum
        (λ d. d)
        transactions
      ≡ ok root)
    × Root of_pair (map of_transaction transactions) root
calculate_merkle_root-Root_example =
    calculate_merkle_root-Root of_pair of_transaction no_checksum (λ d. d) transactions
      (omega arith)

-- other transactions, whose digests have the same sum
abbrev others : List ℕ
others = 2 ∷ 1 ∷ 3 ∷ []

abbrev add : ℕ → ℕ → ℕ
add a b = a + b

same_sums :
    calculate_merkle_root add (λ n. n) 0 (λ d. d) transactions
    ≡ calculate_merkle_root add (λ n. n) 0 (λ d. d) others
unfolding calculate_merkle_root merkle_loop level carry hash_pairs at write
same_sums = refl

calculate_merkle_root_collides_example :
    (map (λ n. n) transactions ≡ map (λ n. n) others)
    ⊎ PairCollision add (IsHashed add) (map (λ n. n) transactions) (map (λ n. n) others)
    ⊎ RootCollision add (λ d. d) (map (λ n. n) transactions) (map (λ n. n) others)
calculate_merkle_root_collides_example =
    calculate_merkle_root_collides add ℕ_discrete (λ n. n) 0 (λ d. d) transactions others
      (omega arith) refl same_sums
