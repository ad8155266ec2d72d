-- ===== src/Protocol/Merkle/Root.antt =====
-- The root of a list of digests, level by level, and the loop of `calculate_merkle_root` as its
-- computation.
use bmchain_core.Protocol.Merkle.{carry, level, merkle_loop, calculate_merkle_root, at, write}
use bmchain_core.Protocol.Merkle.Pairs.{
  pairs, hash_pairs-Paired, append_assoc, at-append, write-append,
}
use bmchain_core.Prelude.{
  ℕ, zero, suc, [], ◌∷◌, List, length, ◌≡◌, ◌/◌, ok, ◌+◌, ◌++◌, ◌%◌, arith, refl, ap, ◌*◌, ◌≤◌,
  ◌==◌, false, sym, ◌∙◌, true, ◌-◌, length-append, ltb, map,
}
use mathlib.Core.Path.{subst}

module _ {Digest : Type 0} (hash : Digest → Digest → Digest) where
  -- the digest that is left when the list is hashed in pairs until it is alone
  pub data Root : List Digest → Digest → Type 0 where
    alone : {d : Digest} → Root (d ∷ []) d
    paired :
        {a b : Digest} {rest : List Digest} {root : Digest}
        → Root (pairs hash (a ∷ b ∷ rest)) root
        → Root (a ∷ b ∷ rest) root

  pub length-pairs : (xs : List Digest) → length (pairs hash xs) ≡ length xs / 2 + length xs % 2
  unfolding pairs
  length-pairs [] = refl
  length-pairs (a ∷ []) = refl
  length-pairs (a ∷ b ∷ rest) = omega (arith, length-pairs rest)

  -- what is overwritten by the digest that moves up
  slot :
      (stale junk : List Digest) (x : Digest)
      → (y : Digest) × (ys : List Digest) × (stale ++ x ∷ junk ≡ y ∷ ys)
  slot [] junk x = (x, junk, refl)
  slot (q ∷ rest) junk x = (q, rest ++ x ∷ junk, refl)

  append_nil : (xs : List Digest) → xs ++ [] ≡ xs
  append_nil [] = refl
  append_nil (x ∷ xs) = ap (λ l. x ∷ l) (append_nil xs)

  -- the last digest of an odd list moves up
  carry-pairs :
      (n : ℕ) (done stale left junk live : List Digest)
      → length done ≡ n / 2
      → length done + length stale ≡ 2 * (n / 2)
      → length left ≡ n % 2
      → done ++ pairs hash left ≡ pairs hash live
      → (junk' : List Digest) × (carry n (done ++ (stale ++ (left ++ junk)))
          ≡ ok (pairs hash live ++ junk'))
  unfolding carry pairs
  carry-pairs n done stale [] junk live size total lone hashed =
      let even : (n % 2 == 1) ≡ false = ground (arith, lone) in
      (
        stale ++ junk,
        rw even (ap (λ l. ok (l ++ (stale ++ junk))) (sym (append_nil done) ∙ hashed)),
      )
  carry-pairs n done stale (x ∷ []) junk live size total lone hashed =
      let odd : (n % 2 == 1) ≡ true = ground (arith, lone) in
      let (y, ys, over) = slot stale junk x in
      let read : at (n - n % 2) (done ++ (stale ++ x ∷ junk)) ≡ ok x =
        ap (at (n - n % 2)) (sym (append_assoc done stale (x ∷ junk)))
        ∙ at-append (n - n % 2) (done ++ stale) x junk
            (omega (arith, total, lone, length-append done stale)) in
      let written : write (n / 2) x (done ++ (stale ++ x ∷ junk)) ≡ (done ++ x ∷ []) ++ ys =
        ap (λ l. write (n / 2) x (done ++ l)) over
        ∙ ap (λ k. write k x (done ++ y ∷ ys)) (sym size)
        ∙ write-append done x y ys
        ∙ sym (append_assoc done (x ∷ []) ys) in
      (ys, rw (odd, read) (ap ok written ∙ ap (λ l. ok (l ++ ys)) hashed))
  carry-pairs n done stale (x ∷ z ∷ rest) junk live size total lone hashed =
      absurd (omega (arith, lone))

  -- one round, in place, with what earlier rounds have left behind the digests
  level-pairs :
      (live junk : List Digest)
      → (junk' : List Digest) × (level hash (length live) (live ++ junk)
          ≡ ok (pairs hash live ++ junk'))
  unfolding level
  level-pairs live junk =
      let n = length live in
      let (ids, run, p) = hash_pairs-Paired hash (n / 2) [] [] live junk refl (omega arith) in
      let (junk', carried) =
        carry-pairs n p.done p.stale p.left junk live (omega (arith, p.size))
          (omega (arith, p.total)) (omega (arith, p.lone)) p.hashed in
      (junk', rw (run, p.same) carried)

  merkle_loop-Root :
      (fuel : ℕ) (live junk : List Digest)
      → 1 ≤ length live
      → length live ≤ fuel
      → (root : Digest) × (junk' : List Digest) × (merkle_loop hash fuel
            (length live)
            (live ++ junk)
          ≡ ok (root ∷ junk'))
        × Root live root
  unfolding merkle_loop
  merkle_loop-Root zero live junk some_left enough = absurd (omega (arith, some_left, enough))
  merkle_loop-Root (suc fuel) [] junk some_left enough = absurd (omega (arith, some_left))
  merkle_loop-Root (suc fuel) (d ∷ []) junk some_left enough = (d, junk, refl, alone)
  merkle_loop-Root (suc fuel) (a ∷ b ∷ rest) junk some_left enough =
      let live = a ∷ b ∷ rest in
      let (later, run) = level-pairs live junk in
      let fewer = length-pairs live in
      let (root, junk', looped, derived) =
        merkle_loop-Root fuel (pairs hash live) later (omega (arith, fewer))
          (omega (arith, fewer, enough)) in
      let more : ltb 1 (length live) ≡ true = ground arith in
      (root, junk', rw (more, run, sym fewer) looped, paired derived)

  -- For a block with transactions the root is computed, and it is the checksum of the digest that is
  -- left when the list of their digests is hashed in pairs, level by level, an odd one moving up.
  pub calculate_merkle_root-Root :
      {Transaction Checksum : Type 0} (merkle_digest : Transaction → Digest) (none_yet : Checksum)
      (checksum : Digest → Checksum) (transactions : List Transaction)
      → 1 ≤ length transactions
      → (root : Digest) × (calculate_merkle_root hash merkle_digest none_yet checksum transactions
          ≡ ok (checksum root))
        × Root (map merkle_digest transactions) root
  unfolding calculate_merkle_root at
  calculate_merkle_root-Root merkle_digest none_yet checksum [] some_left =
      absurd (omega (arith, some_left))
  calculate_merkle_root-Root merkle_digest none_yet checksum (t ∷ rest) some_left =
      let ids = map merkle_digest (t ∷ rest) in
      let (root, junk, run, derived) =
        merkle_loop-Root (suc (length ids)) ids [] (omega arith) (omega arith) in
      let looped : merkle_loop hash (suc (length ids)) (length ids) ids ≡ ok (root ∷ junk) =
        subst (λ l. merkle_loop hash (suc (length ids)) (length ids) l ≡ ok (root ∷ junk))
          (append_nil ids) run in
      (root, rw looped refl, derived)
