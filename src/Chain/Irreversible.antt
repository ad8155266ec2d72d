-- ===== src/Chain/Irreversible.antt =====
-- `update_last_irreversible_block` (libraries/chain/database.cpp): the block number that a threshold of
-- the scheduled witnesses has confirmed. The commit and the block log, which follow, are left out. A last
-- confirmed block is the number of a block, a `uint32_t`.
use bmchain_core.Prelude.{
  ℕ, zero, suc, ◌+◌, ◌-◌, ◌*◌, ◌/◌, ◌<◌, ◌≤◌, ◌≡◌, refl, List, [], ◌∷◌, Option, none, some, length,
  get_elem?, ltb, leb, if◌then◌else◌, arith, Bool-cases, Option-cases, inl, inr,
}
use bmchain_core.Protocol.Config.{blocks_per_day, max_witnesses, hundred_percent}

abbrev pub irreversible_threshold : ℕ
irreversible_threshold = 7500

abbrev pub start_miner_voting_block : ℕ
start_miner_voting_block = blocks_per_day * 30

-- the order of the witnesses by the last block that they confirmed
unfoldable pub insert : ℕ → List ℕ → List ℕ
insert n [] = n ∷ []
insert n (m ∷ t) = let rest = insert n t in if leb n m then n ∷ m ∷ t else m ∷ rest

unfoldable pub sorted : List ℕ → List ℕ
unfolding insert
sorted [] = []
sorted (n ∷ t) = insert n (sorted t)

-- the position that `nth_element` settles
unfoldable pub offset_of : ℕ → ℕ
offset_of count = (hundred_percent - irreversible_threshold) * count / hundred_percent

-- the block that is confirmed by enough of the witnesses, for their last confirmed blocks
unfoldable pub confirmed_block : List ℕ → Option ℕ
unfolding sorted offset_of
confirmed_block confirmed = get_elem? (sorted confirmed) (offset_of (length confirmed))

-- the last irreversible block after `head`, from the last one and the witnesses' last confirmed blocks
unfoldable pub update_last_irreversible_block : ℕ → ℕ → List ℕ → ℕ
unfolding confirmed_block
update_last_irreversible_block head last confirmed =
    if ltb head start_miner_voting_block
    then if ltb max_witnesses head then head - max_witnesses else last
    else elim (confirmed_block confirmed) [ none ↦ last | some n ↦ if ltb last n then n else last ]

-- how many have confirmed a block
unfoldable pub confirmations : ℕ → List ℕ → ℕ
confirmations n [] = 0
confirmations n (m ∷ t) = let rest = confirmations n t in if leb n m then suc rest else rest

-- numbers in ascending order, from `low`
abbrev Ascends : ℕ → List ℕ → Type 0
Ascends low [] = Unit {0}
Ascends low (n ∷ t) = (low ≤ n) × Ascends n t

insert-Ascends : (low n : ℕ) (t : List ℕ) → low ≤ n → Ascends low t → Ascends low (insert n t)
unfolding insert
insert-Ascends low n [] h k = (h, tt)
insert-Ascends low n (m ∷ t) h k = elim (Bool-cases (leb n m)) [
  | inl less ↦ rw less (h, (ground arith, k.1))
  | inr more ↦ rw more (k.0, insert-Ascends m n t (ground arith) k.1)
]

sorted-Ascends : (t : List ℕ) → Ascends 0 (sorted t)
unfolding sorted
sorted-Ascends [] = tt
sorted-Ascends (n ∷ t) = insert-Ascends 0 n (sorted t) (omega arith) (sorted-Ascends t)

confirmations-insert :
    (b n : ℕ) (t : List ℕ) → confirmations b (insert n t) ≡ confirmations b (n ∷ t)
unfolding insert confirmations
confirmations-insert b n [] = refl
confirmations-insert b n (m ∷ t) = ground (arith, confirmations-insert b n t)

confirmations-sorted : (b : ℕ) (t : List ℕ) → confirmations b (sorted t) ≡ confirmations b t
unfolding sorted confirmations
confirmations-sorted b [] = refl
confirmations-sorted b (n ∷ t) =
    ground (arith, confirmations-insert b n (sorted t), confirmations-sorted b t)

length-insert : (n : ℕ) (t : List ℕ) → length (insert n t) ≡ suc (length t)
unfolding insert
length-insert n [] = refl
length-insert n (m ∷ t) = ground (arith, length-insert n t)

length-sorted : (t : List ℕ) → length (sorted t) ≡ length t
unfolding sorted
length-sorted [] = refl
length-sorted (n ∷ t) = omega (arith, length-insert n (sorted t), length-sorted t)

-- from a low bound on, all of an ascending list confirm it
all_confirm : (b low : ℕ) (t : List ℕ) → b ≤ low → Ascends low t → confirmations b t ≡ length t
unfolding confirmations
all_confirm b low [] h k = refl
all_confirm b low (n ∷ t) h k = ground (arith, k.0, all_confirm b n t (omega (arith, k.0)) k.1)

confirmations-get_elem? :
    (b low i : ℕ) (t : List ℕ)
    → Ascends low t
    → get_elem? t i ≡ some b
    → length t ≤ confirmations b t + i
unfolding confirmations
confirmations-get_elem? b low i [] k h = omega arith
confirmations-get_elem? b low zero (n ∷ t) k h =
    ground (arith, all_confirm b n t (ground arith) k.1)
confirmations-get_elem? b low (suc i) (n ∷ t) k h =
    ground (arith, confirmations-get_elem? b n i t k.1 h)

-- A block that the update makes irreversible, after the first days, is one that all witnesses but the
-- allowed share have confirmed: three quarters of them at the least.
pub update_last_irreversible_block-confirmations :
    (head last : ℕ) (confirmed : List ℕ)
    → start_miner_voting_block ≤ head
    → last < update_last_irreversible_block head last confirmed
    → length confirmed * irreversible_threshold
      ≤ confirmations (update_last_irreversible_block head last confirmed) confirmed
        * hundred_percent
unfolding update_last_irreversible_block confirmed_block offset_of
update_last_irreversible_block-confirmations head last confirmed late moved =
    elim (Option-cases (get_elem? (sorted confirmed) (offset_of (length confirmed)))) [
      | inl nobody ↦ ground (arith, nobody)
      | inr (b, reached) ↦
          let same : update_last_irreversible_block head last confirmed ≡ b =
            ground (arith, reached) in
          let enough =
            confirmations-get_elem? b 0 (offset_of (length confirmed)) (sorted confirmed)
              (sorted-Ascends confirmed) reached in
          rw same (
            omega (arith, rw (confirmations-sorted b confirmed, length-sorted confirmed) at enough))
    ]
