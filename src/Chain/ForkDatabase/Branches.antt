-- ===== src/Chain/ForkDatabase/Branches.antt =====
-- `fetch_branch_from`: it ends, and its two branches lead from the two blocks to one ancestor.
use bmchain_core.Prelude.{
  ℕ, zero, suc, ◌<◌, ◌≡◌, refl, List, [], ◌∷◌, ◌++◌, arith, Bool-cases, inl, inr, Error, Ends, ends,
  bind-Ends, throw-Ends, IsThrown, ltb, find_by, some, All-find_by, find_by-selected,
}
use bmchain_core.Chain.ForkDatabase.{
  BlockId, Item, ForkDb, block_num, id_eq, held, lock, climb, meet, fetch_branch_from, has_block_id,
}
use bmchain_core.Chain.ForkDatabase.Links.{IsLinkedIn, IsLinked, lock-IsLinkedIn, All-index}

-- The items lead from the block of one id, each to its previous, down to the id `ancestor`.
abbrev pub Descends : BlockId → List Item → BlockId → Type 0
Descends id [] ancestor = id ≡ ancestor
Descends id (i ∷ t) ancestor = (i.id ≡ id) × Descends i.data_block.previous t ancestor

Descends-append :
    (a b c : BlockId) (xs ys : List Item)
    → Descends a xs b
    → Descends b ys c
    → Descends a (xs ++ ys) c
Descends-append a b c [] ys h k = rw h k
Descends-append a b c (i ∷ xs) ys h k = (h.0, Descends-append i.data_block.previous b c xs ys h.1 k)

-- an exception of a failed test
assertion-IsThrown : IsThrown Error.assertion
assertion-IsThrown e = cc

module _ (db : ForkDb) (linked : IsLinked db) where
  IsLive : Item → Type 0
  IsLive = IsLinkedIn db.next_address (held db)

  climb-Descends :
      (fuel stop : ℕ) (i : Item)
      → IsLive i
      → i.num < fuel
      → Ends (λ r. IsLive r.1 × Descends i.id r.0 r.1.id) (climb fuel db stop i)
  unfolding climb IsLive
  climb-Descends zero stop i own enough = ground arith
  climb-Descends (suc fuel) stop i own enough =
      elim (Bool-cases (ltb stop (block_num i.data_block))) [
        | inl above ↦
            rw (climb, above)
              (bind-Ends
                (throw-Ends (lock db i) Error.assertion assertion-IsThrown
                  λ p e. lock-IsLinkedIn db i p linked own e)
                λ p (live, below, id).
                  bind-Ends (climb-Descends fuel stop p live (omega (arith, below, enough)))
                    λ (rest, j) (live', down). ends (live', (refl, rw (← id) down)))
        | inr reached ↦ rw (climb, reached) (ends (own, refl))
      ]

  meet-Descends :
      (fuel : ℕ) (i j : Item)
      → IsLive i
      → IsLive j
      → i.num < fuel
      → Ends
          (λ r. (ancestor : BlockId) × Descends i.id r.0 ancestor × Descends j.id r.1 ancestor)
          (meet fuel db i j)
  unfolding meet IsLive
  meet-Descends zero i j own_i own_j enough = ground arith
  meet-Descends (suc fuel) i j own_i own_j enough =
      elim (Bool-cases (id_eq i.data_block.previous j.data_block.previous)) [
        | inl met ↦
            rw (meet, met) (ends (i.data_block.previous, (refl, refl), (refl, ground arith)))
        | inr apart ↦
            rw (meet, apart)
              (bind-Ends
                (throw-Ends (lock db i) Error.assertion assertion-IsThrown
                  λ p e. lock-IsLinkedIn db i p linked own_i e)
                λ p (live_p, below, id_p).
                  bind-Ends
                    (throw-Ends (lock db j) Error.assertion assertion-IsThrown
                      λ q e. lock-IsLinkedIn db j q linked own_j e)
                    λ q (live_q, _, id_q).
                      bind-Ends
                        (meet-Descends fuel p q live_p live_q (omega (arith, below, enough)))
                        λ (first, second) (ancestor, down_p, down_q).
                          ends (ancestor, (refl, rw (← id_p) down_p), (refl, rw (← id_q) down_q)))
      ]

  found-IsLive :
      (id : BlockId) (i : Item)
      → find_by (has_block_id id) db.index ≡ some i
      → IsLive i × (i.id ≡ id)
  unfolding IsLive
  found-IsLive id i found = (
    All-find_by IsLive (has_block_id id) db.index i (All-index IsLive db.head db.index linked)
        found,
    ground (arith, find_by-selected (has_block_id id) db.index i found),
  )

  -- Two blocks of a linked fork database: the search for their branches ends. The branches lead from
  -- the blocks, each item to its previous, down to one common ancestor, or a test throws.
  pub fetch_branch_from-Descends :
      (first second : BlockId)
      → Ends
          (λ r. (ancestor : BlockId) × Descends first r.0 ancestor × Descends second r.1 ancestor)
          (fetch_branch_from first second db)
  unfolding fetch_branch_from
  fetch_branch_from-Descends first second =
      bind-Ends
        (throw-Ends (find_by (has_block_id first) db.index) Error.assertion assertion-IsThrown
          (found-IsLive first))
        λ i (live_i, id_i).
          bind-Ends
            (throw-Ends (find_by (has_block_id second) db.index) Error.assertion assertion-IsThrown
              (found-IsLive second))
            λ j (live_j, id_j).
              bind-Ends (climb-Descends (suc i.num) (block_num j.data_block) i live_i (omega arith))
                λ (xs, i') (live_i', down_i).
                  bind-Ends
                    (climb-Descends (suc j.num) (block_num i'.data_block) j live_j (omega arith))
                    λ (ys, j') (live_j', down_j).
                      bind-Ends (meet-Descends (suc i'.num) i' j' live_i' live_j' (omega arith))
                        λ (us, vs) (ancestor, down_i', down_j'). ends (
                          ancestor,
                          Descends-append first i'.id ancestor xs us (rw (← id_i) down_i) down_i',
                          Descends-append second j'.id ancestor ys vs (rw (← id_j) down_j) down_j',
                        )
