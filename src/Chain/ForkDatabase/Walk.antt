-- ===== src/Chain/ForkDatabase/Walk.antt =====
-- The main branch: `walk_main_branch_to_num`, `fetch_block_by_number` and
-- `fetch_block_on_main_branch_by_number` of libraries/chain/fork_database.cpp.
use mathlib.Core.Path.{subst}
use bmchain_core.Prelude.{
  ℕ, zero, suc, ◌<◌, ◌≤◌, ◌≡◌, List, [], ◌∷◌, some, none, Option, true, false, ltb, ◌==◌,
  if◌then◌else◌, ok, err, Result, Error, or_throw, ◌>>=◌, arith, Bool-cases, Option-cases, inl, inr,
  Ends, ends, bind-Ends, throw-Ends, All,
}
use bmchain_core.Chain.ForkDatabase.{Item, ForkDb, held, with_head, lock}
use bmchain_core.Chain.ForkDatabase.Links.{IsLinkedIn, IsLinked, lock-IsLinkedIn}
use bmchain_core.Chain.ForkDatabase.Reached.{Reached, Reached-IsLinked}

unfoldable pub walk : ℕ → ForkDb → ℕ → Item → Result (Option Item)
unfolding lock
walk zero db num i = err Error.out_of_fuel
walk (suc fuel) db num i = elim (ltb num i.num) [
  | false ↦ ok (some i)
  | true ↦ elim (lock db i) [ none ↦ ok none | some p ↦ walk fuel db num p ]
]

-- `walk_main_branch_to_num`: it reads through the head
unfoldable pub walk_main_branch_to_num : ℕ → ForkDb → Result (Option Item)
unfolding walk
walk_main_branch_to_num num db = do
  h ← or_throw db.head Error.null_pointer
  if ltb h.num num then ok none else walk (suc h.num) db num h

unfoldable pub with_num : ℕ → List Item → List Item
with_num num [] = []
with_num num (i ∷ t) = let rest = with_num num t in if i.num == num then i ∷ rest else rest

-- `fetch_block_by_number`
unfoldable pub fetch_block_by_number : ℕ → ForkDb → List Item
unfolding with_num
fetch_block_by_number num db = with_num num db.index

-- the block, where it is the only one of its number
unfoldable pub on_main_branch : ℕ → ForkDb → List Item → Result (Option Item)
unfolding walk_main_branch_to_num
on_main_branch num db [] = ok none
on_main_branch num db (i ∷ []) = ok (some i)
on_main_branch num db (i ∷ j ∷ t) = walk_main_branch_to_num num db

-- `fetch_block_on_main_branch_by_number`
unfoldable pub fetch_block_on_main_branch_by_number : ℕ → ForkDb → Result (Option Item)
unfolding fetch_block_by_number on_main_branch
fetch_block_on_main_branch_by_number num db = on_main_branch num db (fetch_block_by_number num db)

abbrev pub HasNum : ℕ → Option Item → Type 0
HasNum num none = Unit {0}
HasNum num (some i) = i.num ≡ num

walk-HasNum :
    (fuel : ℕ) (db : ForkDb) (num : ℕ) (i : Item)
    → IsLinked db
    → IsLinkedIn db.next_address (held db) i
    → num ≤ i.num
    → i.num < fuel
    → Ends (HasNum num) (walk fuel db num i)
unfolding walk
walk-HasNum zero db num i linked own h enough = ground arith
walk-HasNum (suc fuel) db num i linked own h enough = elim (Bool-cases (ltb num i.num)) [
  | inr there ↦ rw (walk, there) (ends (ground arith))
  | inl above ↦ elim (Option-cases (lock db i)) [
    | inl gone ↦ rw (walk, above, gone) (ends tt)
    | inr (p, locked) ↦
        let (live, below, _) = lock-IsLinkedIn db i p linked own locked in
        rw (walk, above, locked)
          (walk-HasNum fuel db num p linked live (ground (arith, below))
            (omega (arith, below, enough)))
  ]
]

with_num-HasNum : (num : ℕ) (t : List Item) → All (λ i. i.num ≡ num) (with_num num t)
unfolding with_num
with_num-HasNum num [] = tt
with_num-HasNum num (x ∷ t) = elim (Bool-cases (x.num == num)) [
  | inl same ↦ rw same (ground (arith, same), with_num-HasNum num t)
  | inr other ↦ rw other (with_num-HasNum num t)
]

All-head :
    (P : Item → Type 0) (head : Option Item) (t : List Item) (h : Item)
    → head ≡ some h
    → All P (with_head head t)
    → P h
All-head P none t h e all = cc
All-head P (some x) t h e all = let same : x ≡ h = ground arith in subst P same all.0

module _ (db : ForkDb) (num : ℕ) (linked : IsLinked db) where
  walk_main_branch_to_num-HasNum : Ends (HasNum num) (walk_main_branch_to_num num db)
  unfolding walk_main_branch_to_num
  walk_main_branch_to_num-HasNum =
      bind-Ends (throw-Ends db.head Error.null_pointer (λ e. cc) λ h e. e) λ h headed.
        elim (Bool-cases (ltb h.num num)) [
          | inl short ↦ rw short (ends tt)
          | inr long ↦ rw long (
              walk-HasNum (suc h.num) db num h linked
                (All-head (IsLinkedIn db.next_address (held db)) db.head db.index h headed linked)
                (ground arith) (omega arith))
        ]

  on_main_branch-HasNum :
      (t : List Item) → All (λ i. i.num ≡ num) t → Ends (HasNum num) (on_main_branch num db t)
  unfolding on_main_branch
  on_main_branch-HasNum [] h = ends tt
  on_main_branch-HasNum (i ∷ []) h = ends h.0
  on_main_branch-HasNum (i ∷ j ∷ t) h = walk_main_branch_to_num-HasNum

-- In a fork database that pushes, pops, starts, removals, changes of the size, resets and changes of
-- the head to an item of the index reach from an empty one, the look-up of a number on the main branch ends, and
-- an item that it finds has the number.
pub fetch_block_on_main_branch_by_number-HasNum :
    {size : ℕ} {db : ForkDb} (num : ℕ)
    → Reached size db
    → Ends (HasNum num) (fetch_block_on_main_branch_by_number num db)
unfolding fetch_block_on_main_branch_by_number fetch_block_by_number
fetch_block_on_main_branch_by_number-HasNum {db = db} num r =
    on_main_branch-HasNum db num (Reached-IsLinked r) (fetch_block_by_number num db)
      (with_num-HasNum num db.index)
