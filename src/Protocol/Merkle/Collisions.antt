-- ===== src/Protocol/Merkle/Collisions.antt =====
-- What two blocks with one merkle root have in common (`calculate_merkle_root`,
-- libraries/protocol/block.cpp).
use bmchain_core.Prelude.{
  List, ◌≡◌, ◌≢◌, length, ◌≤◌, ◌∷◌, ◌⊎◌, map, inl, arith, ap, inr, [], refl, suc,
}
use bmchain_core.Protocol.Merkle.{calculate_merkle_root, List}
use bmchain_core.Protocol.Merkle.Pairs.{pairs}
use bmchain_core.Protocol.Merkle.Root.{
  Root, alone, paired, length-pairs, calculate_merkle_root-Root,
}

length-map : {A B : Type 0} (f : A → B) (xs : List A) → length (map f xs) ≡ length xs
length-map f [] = refl
length-map f (x ∷ xs) = ap suc (length-map f xs)

module _ {Digest : Type 0} (hash : Digest → Digest → Digest) where
  -- two neighbours that one round hashes together
  pub data IsPair (a b : Digest) : List Digest → Type 0 where
    first : {rest : List Digest} → IsPair a b (a ∷ b ∷ rest)
    later : {x y : Digest} {rest : List Digest} → IsPair a b rest → IsPair a b (x ∷ y ∷ rest)

  -- the pairs that are hashed on the way to the root of a list
  pub data IsHashed (a b : Digest) : List Digest → Type 0 where
    here : {xs : List Digest} → IsPair a b xs → IsHashed a b xs
    above : {xs : List Digest} → IsHashed a b (pairs hash xs) → IsHashed a b xs

  -- Two different pairs with one hash, each hashed on the way to the root of its list.
  pub record PairCollision (Met : Digest → Digest → List Digest → Type 0) (xs ys : List Digest)
      : Type 0 where
    pub a : Digest
    pub b : Digest
    pub c : Digest
    pub d : Digest
    pub in_first : Met a b xs
    pub in_second : Met c d ys
    pub one_hash : hash a b ≡ hash c d
    pub different : (a ≡ c) × (b ≡ d) → ⊥

  -- the roots of the two lists, different and with one checksum
  pub record RootCollision {Checksum : Type 0} (checksum : Digest → Checksum) (xs ys : List Digest)
      : Type 0 where
    pub r : Digest
    pub s : Digest
    pub of_first : Root hash xs r
    pub of_second : Root hash ys s
    pub one_checksum : checksum r ≡ checksum s
    pub unequal : r ≢ s

  module _ (digest_eq : (a b : Digest) → Dec (a ≡ b)) where
    pairs_collide :
        (xs ys : List Digest)
        → length xs ≡ length ys
        → pairs hash xs ≡ pairs hash ys
        → (xs ≡ ys) ⊎ PairCollision IsPair xs ys
    unfolding pairs
    pairs_collide [] [] size same = inl refl
    pairs_collide [] (y ∷ ys) size same = absurd (omega (arith, size))
    pairs_collide (x ∷ xs) [] size same = absurd (omega (arith, size))
    pairs_collide (x ∷ []) (y ∷ []) size same = inl same
    pairs_collide (x ∷ []) (y ∷ z ∷ ys) size same = absurd (omega (arith, size))
    pairs_collide (x ∷ z ∷ xs) (y ∷ []) size same = absurd (omega (arith, size))
    pairs_collide (a ∷ b ∷ xs) (c ∷ d ∷ ys) size same =
        let one_hash : hash a b ≡ hash c d = cc in
        let others : pairs hash xs ≡ pairs hash ys = cc in
        elim (pairs_collide xs ys (omega (arith, size)) others) [
          | inr k ↦ inr (record {
            a = k.a;
            b = k.b;
            c = k.c;
            d = k.d;
            in_first = later k.in_first;
            in_second = later k.in_second;
            one_hash = k.one_hash;
            different = k.different;
          })
          | inl rest ↦ elim (digest_eq a c) [
            | no left ↦ inr (record {
              a = a;
              b = b;
              c = c;
              d = d;
              in_first = first;
              in_second = first;
              one_hash = one_hash;
              different = λ same_pair. left same_pair.0;
            })
            | yes left ↦ elim (digest_eq b d) [
              | no right ↦ inr (record {
                a = a;
                b = b;
                c = c;
                d = d;
                in_first = first;
                in_second = first;
                one_hash = one_hash;
                different = λ same_pair. right same_pair.1;
              })
              | yes right ↦ inl cc
            ]
          ]
        ]

    Root_collide :
        {xs ys : List Digest} {r s : Digest}
        → Root hash xs r
        → Root hash ys s
        → r ≡ s
        → length xs ≡ length ys
        → (xs ≡ ys) ⊎ PairCollision IsHashed xs ys
    Root_collide alone alone same size = inl (ap (λ d. d ∷ []) same)
    Root_collide alone (paired q) same size = absurd (omega (arith, size))
    Root_collide (paired p) alone same size = absurd (omega (arith, size))
    Root_collide (paired {a = a} {b = b} {rest = xs} p) (paired {a = c} {b = d} {rest = ys} q) same
          size =
        let sizes : length (pairs hash (a ∷ b ∷ xs)) ≡ length (pairs hash (c ∷ d ∷ ys)) =
          omega (arith, length-pairs hash (a ∷ b ∷ xs), length-pairs hash (c ∷ d ∷ ys), size) in
        elim (Root_collide p q same sizes) [
          | inr k ↦ inr (record {
            a = k.a;
            b = k.b;
            c = k.c;
            d = k.d;
            in_first = above k.in_first;
            in_second = above k.in_second;
            one_hash = k.one_hash;
            different = k.different;
          })
          | inl level ↦ elim (pairs_collide (a ∷ b ∷ xs) (c ∷ d ∷ ys) size level) [
            | inl equal ↦ inl equal
            | inr k ↦ inr (record {
              a = k.a;
              b = k.b;
              c = k.c;
              d = k.d;
              in_first = here k.in_first;
              in_second = here k.in_second;
              one_hash = k.one_hash;
              different = k.different;
            })
          ]
        ]

    -- Two blocks with the same number of transactions, at least one, and the same merkle root have
    -- transactions with the same digests, in the same order; or the hashes collide where they are used:
    -- two different pairs, hashed on the way to the one root and to the other, have one hash, or the two
    -- last digests differ and have one checksum.
    pub calculate_merkle_root_collides :
        {Transaction Checksum : Type 0} (merkle_digest : Transaction → Digest) (none_yet : Checksum)
        (checksum : Digest → Checksum) (first second : List Transaction)
        → 1 ≤ length first
        → length first ≡ length second
        → calculate_merkle_root hash merkle_digest none_yet checksum first
          ≡ calculate_merkle_root hash merkle_digest none_yet checksum second
        → (map merkle_digest first ≡ map merkle_digest second)
          ⊎ PairCollision IsHashed (map merkle_digest first) (map merkle_digest second)
          ⊎ RootCollision checksum (map merkle_digest first) (map merkle_digest second)
    calculate_merkle_root_collides merkle_digest none_yet checksum xs ys some_left size same =
        let (r, run, root_of_xs) =
          calculate_merkle_root-Root hash merkle_digest none_yet checksum xs some_left in
        let (s, run', root_of_ys) =
          calculate_merkle_root-Root hash merkle_digest none_yet checksum ys
            (omega (arith, some_left, size)) in
        let sums : checksum r ≡ checksum s = cc in
        elim (digest_eq r s) [
          | no unequal ↦ inr (
              inr (record {
                r = r;
                s = s;
                of_first = root_of_xs;
                of_second = root_of_ys;
                one_checksum = sums;
                unequal = unequal;
              }))
          | yes equal ↦
              elim (Root_collide root_of_xs root_of_ys equal
                (omega (arith, length-map merkle_digest xs, length-map merkle_digest ys, size))) [
                  | inl digests ↦ inl digests
                  | inr k ↦ inr (inl k)
                ]
        ]
