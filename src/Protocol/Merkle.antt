-- ===== src/Protocol/Merkle.antt =====
-- `signed_block::calculate_merkle_root` (libraries/protocol/block.cpp): the digests of the transactions
-- are hashed in pairs, in place, until one is left. The hash functions belong to the fc library and
-- are parameters, and so is the digest of a transaction, which the library packs and hashes; a vector is
-- a list, and `null_pointer` an index out of its range. A block has fewer
-- than 2^32 transactions, so that the `uint32_t` indices are natural numbers.
pub mod Pairs
pub mod Root
pub mod Collisions
use bmchain_core.Prelude.{
  ℕ, zero, suc, [], ◌∷◌, List, Result, or_throw, ok, if◌then◌else◌, err, ◌>>=◌, get_elem?, ◌+◌, ◌%◌,
  ◌/◌, Error, length, ◌==◌, ltb, ◌-◌, map,
}

module _ {Digest : Type 0} where
  -- `ids[i]`, read and written
  unfoldable pub at : ℕ → List Digest → Result Digest
  at i ids = or_throw (get_elem? ids i) Error.null_pointer

  unfoldable pub write : ℕ → Digest → List Digest → List Digest
  write i d [] = []
  write zero d (x ∷ rest) = d ∷ rest
  write (suc i) d (x ∷ rest) = x ∷ write i d rest

  -- a digest without a pair moves up
  unfoldable pub carry : ℕ → List Digest → Result (List Digest)
  carry n ids =
      if n % 2 == 1 then (do last ← at (n - n % 2) ids; ok (write (n / 2) last ids)) else ok ids

module _ {Digest : Type 0} (hash : Digest → Digest → Digest) where
  -- the inner loop, as often as `i += 2` stays below `i_max`
  unfoldable pub hash_pairs : ℕ → ℕ → ℕ → List Digest → Result (List Digest)
  hash_pairs zero i k ids = ok ids
  hash_pairs (suc rounds) i k ids = do
    first ← at i ids
    second ← at (i + 1) ids
    hash_pairs rounds (i + 2) (k + 1) (write k (hash first second) ids)

  -- one round of the outer loop, on `n` digests, and how many are left
  unfoldable pub level : ℕ → List Digest → Result (List Digest)
  level n ids = do paired ← hash_pairs (n / 2) 0 0 ids; carry n paired

  unfoldable pub merkle_loop : ℕ → ℕ → List Digest → Result (List Digest)
  merkle_loop zero n ids = err Error.out_of_fuel
  merkle_loop (suc fuel) n ids =
      if ltb 1 n then (do next ← level n ids; merkle_loop fuel (n / 2 + n % 2) next) else ok ids

  -- `calculate_merkle_root` of a block's transactions, where `checksum` is the hash of the last digest
  unfoldable pub calculate_merkle_root :
      {Transaction Checksum : Type 0}
      → (Transaction → Digest)
      → Checksum
      → (Digest → Checksum)
      → List Transaction
      → Result Checksum
  calculate_merkle_root merkle_digest none_yet checksum [] = ok none_yet
  calculate_merkle_root merkle_digest none_yet checksum (t ∷ rest) = do
    let ids = map merkle_digest (t ∷ rest)
    left ← merkle_loop (suc (length ids)) (length ids) ids
    root ← at 0 left
    ok (checksum root)
