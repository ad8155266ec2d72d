-- ===== src/Protocol/Merkle/Pairs.antt =====
-- One round of the outer loop, in place, is the list of the digests hashed in pairs.
use bmchain_core.Protocol.Merkle.{write, at, hash_pairs}
use bmchain_core.Prelude.{
  ℕ, zero, suc, [], ◌∷◌, some, List, get_elem?, length, ◌++◌, ◌≡◌, ap, length-append, ok, ◌*◌, ◌+◌,
  refl, ◌∙◌, ◌≤◌, arith, sym,
}

module _ {Digest : Type 0} where
  pub get-append :
      (xs : List Digest) (y : Digest) (ys : List Digest)
      → get_elem? (xs ++ y ∷ ys) (length xs) ≡ some y
  get-append [] y ys = refl
  get-append (x ∷ xs) y ys = get-append xs y ys

  pub write-append :
      (xs : List Digest) (d y : Digest) (ys : List Digest)
      → write (length xs) d (xs ++ y ∷ ys) ≡ xs ++ d ∷ ys
  unfolding write
  write-append [] d y ys = refl
  write-append (x ∷ xs) d y ys = ap (λ l. x ∷ l) (write-append xs d y ys)

  pub append_assoc : (xs ys zs : List Digest) → (xs ++ ys) ++ zs ≡ xs ++ (ys ++ zs)
  append_assoc [] ys zs = refl
  append_assoc (x ∷ xs) ys zs = ap (λ l. x ∷ l) (append_assoc xs ys zs)

  pub length-snoc : (xs : List Digest) (d : Digest) → length (xs ++ d ∷ []) ≡ suc (length xs)
  length-snoc [] d = refl
  length-snoc (x ∷ xs) d = ap suc (length-snoc xs d)

  -- the first of what a pair overtakes
  overtaken :
      (stale : List Digest) (a b : Digest)
      → (q : Digest) × (later : List Digest) × (stale ++ a ∷ b ∷ [] ≡ q ∷ later)
        × (length later ≡ suc (length stale))
  overtaken [] a b = (a, b ∷ [], refl, refl)
  overtaken (q ∷ rest) a b =
      (q, rest ++ a ∷ b ∷ [], refl, length-append rest (a ∷ b ∷ []) ∙ omega arith)

  pub at-append :
      (i : ℕ) (xs : List Digest) (y : Digest) (ys : List Digest)
      → i ≡ length xs
      → at i (xs ++ y ∷ ys) ≡ ok y
  unfolding at
  at-append i xs y ys e = rw (e, get-append xs y ys) refl

module _ {Digest : Type 0} (hash : Digest → Digest → Digest) where
  -- the list hashed in pairs; a last one without a pair stays
  unfoldable pub pairs : List Digest → List Digest
  pairs [] = []
  pairs (a ∷ []) = a ∷ []
  pairs (a ∷ b ∷ rest) = hash a b ∷ pairs rest

  -- What the array holds after the inner loop: the pairs, something that was overtaken, and the rest.
  pub record Paired (before : List Digest) (rounds : ℕ) (rest junk result : List Digest)
      : Type 0 where
    pub done : List Digest
    pub stale : List Digest
    pub left : List Digest
    pub same : result ≡ done ++ (stale ++ (left ++ junk))
    pub size : length done ≡ length before + rounds
    pub total : length done + length stale ≡ 2 * (length before + rounds)
    pub lone : length left + 2 * rounds ≡ length rest
    pub hashed : done ++ pairs left ≡ before ++ pairs rest

  pub hash_pairs-Paired :
      (rounds : ℕ) (before stale rest junk : List Digest)
      → length stale ≡ length before
      → 2 * rounds ≤ length rest
      → (result : List Digest) × (hash_pairs hash rounds
            (2 * length before)
            (length before)
            (before ++ (stale ++ (rest ++ junk)))
          ≡ ok result)
        × Paired before rounds rest junk result
  unfolding hash_pairs pairs
  hash_pairs-Paired zero before stale rest junk even enough = (
    before ++ (stale ++ (rest ++ junk)),
    refl,
    record {
      done = before;
      stale = stale;
      left = rest;
      same = refl;
      size = omega arith;
      total = omega (arith, even);
      lone = omega arith;
      hashed = refl;
    },
  )
  hash_pairs-Paired (suc rounds) before stale [] junk even enough = absurd (omega (arith, enough))
  hash_pairs-Paired (suc rounds) before stale (a ∷ []) junk even enough =
      absurd (omega (arith, enough))
  hash_pairs-Paired (suc rounds) before stale (a ∷ b ∷ rest) junk even enough =
      let h = hash a b in
      let (q, later, first, longer) = overtaken stale a b in
      let (result, run, paired) =
        hash_pairs-Paired rounds (before ++ h ∷ []) later rest junk
          (longer ∙ ap suc even ∙ sym (length-snoc before h)) (omega (arith, enough)) in
      let ids : before ++ (stale ++ a ∷ b ∷ (rest ++ junk))
          ≡ before ++ q ∷ (later ++ (rest ++ junk)) =
        ap (λ l. before ++ l)
          (sym (append_assoc stale (a ∷ b ∷ []) (rest ++ junk))
            ∙ ap (λ l. l ++ (rest ++ junk)) first) in
      let read_a : at (2 * length before) (before ++ (stale ++ a ∷ b ∷ (rest ++ junk))) ≡ ok a =
        ap (at (2 * length before)) (sym (append_assoc before stale (a ∷ b ∷ (rest ++ junk))))
        ∙ at-append (2 * length before) (before ++ stale) a (b ∷ (rest ++ junk))
            (omega (arith, even, length-append before stale)) in
      let read_b : at (2 * length before + 1) (before ++ (stale ++ a ∷ b ∷ (rest ++ junk))) ≡ ok b =
        ap (at (2 * length before + 1)) (
          ap (λ l. before ++ l) (sym (append_assoc stale (a ∷ []) (b ∷ (rest ++ junk))))
          ∙ sym (append_assoc before (stale ++ a ∷ []) (b ∷ (rest ++ junk))))
        ∙ at-append (2 * length before + 1) (before ++ (stale ++ a ∷ [])) b (rest ++ junk)
            (omega (arith, even, length-append before (stale ++ a ∷ []), length-snoc stale a)) in
      let written : write (length before) h (before ++ (stale ++ a ∷ b ∷ (rest ++ junk)))
          ≡ (before ++ h ∷ []) ++ (later ++ (rest ++ junk)) =
        ap (write (length before) h) ids
        ∙ write-append before h q (later ++ (rest ++ junk))
        ∙ sym (append_assoc before (h ∷ []) (later ++ (rest ++ junk))) in
      let more : length (before ++ h ∷ []) ≡ suc (length before) = length-snoc before h in
      let i' : 2 * length before + 2 ≡ 2 * length (before ++ h ∷ []) = omega (arith, more) in
      let k' : length before + 1 ≡ length (before ++ h ∷ []) = omega (arith, more) in
      (
        result,
        rw (read_a, read_b, written, i', k') run,
        record {
          done = paired.done;
          stale = paired.stale;
          left = paired.left;
          same = paired.same;
          size = omega (arith, paired.size, more);
          total = omega (arith, paired.total, more);
          lone = omega (arith, paired.lone);
          hashed = paired.hashed ∙ append_assoc before (h ∷ []) (pairs rest);
        },
      )
