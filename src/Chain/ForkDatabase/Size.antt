-- ===== src/Chain/ForkDatabase/Size.antt =====
-- `fork_database::set_max_size` (libraries/chain/fork_database.cpp): both of its loops erase the first
-- item by number while it is too old.
use bmchain_core.Chain.ForkDatabase.Links.{IsLinked, narrowed_links}
use bmchain_core.Prelude.{
  ℕ, zero, suc, ◌-◌, ◌<◌, ◌≤◌, ◌≡◌, refl, true, false, ltb, leb, if◌then◌else◌, List, [], ◌∷◌,
  length, remove_by, Option, none, some, Result, ok, err, Error, ◌>>=◌, Bool, All, All-imp,
  All-remove_by, Ends, ends, arith, Bool-cases, Option-cases, inl, inr, ◌+◌, bind-Ends,
}
use bmchain_core.Chain.ForkDatabase.{Item, ForkDb, has_block_id, with_head, held}

-- the first item of the index `block_num`
unfoldable pub oldest : List Item → Option Item
oldest [] = none
oldest (i ∷ t) = elim (oldest t) [
  | none ↦ some i
  | some j ↦ if leb j.num i.num then some j else some i
]

unfoldable pub drop_old : ℕ → ℕ → List Item → Result (List Item)
unfolding oldest
drop_old zero bound t = err Error.out_of_fuel
drop_old (suc fuel) bound t = elim (oldest t) [
  | none ↦ ok t
  | some i ↦ elim (ltb i.num bound) [
    | false ↦ ok t
    | true ↦ drop_old fuel bound (remove_by (has_block_id i.id) t)
  ]
]

-- `fork_database::set_max_size`, with a round for each item and one that finds none
unfoldable pub set_max_size : ℕ → ForkDb → Result ForkDb
unfolding drop_old
set_max_size size db = elim db.head [
  | none ↦ ok (record db { max_size = size })
  | some h ↦ do
    index ← drop_old (suc (length db.index)) (h.num - size) db.index
    unlinked ← drop_old (suc (length db.unlinked_index)) (h.num - size) db.unlinked_index
    ok (record db { max_size = size; index = index; unlinked_index = unlinked })
]

oldest-empty : (t : List Item) → oldest t ≡ none → t ≡ []
unfolding oldest
oldest-empty [] h = refl
oldest-empty (i ∷ t) h = elim (Option-cases (oldest t)) [
  | inl last ↦ ground arith
  | inr (j, rest) ↦ ground arith
]

oldest-bounds :
    (bound : ℕ) (t : List Item) {i : Item}
    → oldest t ≡ some i
    → bound ≤ i.num
    → All (λ j. bound ≤ j.num) t
unfolding oldest
oldest-bounds bound [] h k = tt
oldest-bounds bound (j ∷ t) h k = elim (Option-cases (oldest t)) [
  | inl last ↦ (ground arith, ground (arith, oldest-empty t last))
  | inr (i, rest) ↦
      let low : bound ≤ i.num = ground arith in (ground arith, oldest-bounds bound t rest low)
]

oldest-found :
    (t : List Item) (i : Item)
    → oldest t ≡ some i
    → suc (length (remove_by (has_block_id i.id) t)) ≡ length t
unfolding oldest remove_by
oldest-found [] i h = cc
oldest-found (j ∷ t) i h = elim (Option-cases (oldest t)) [
  | inl last ↦ ground (arith, oldest-empty t last)
  | inr (k, rest) ↦ ground (arith, oldest-found t k rest)
]

-- what is left of a list after erasures
pub data Left (t : List Item) : List Item → Type 0 where
  untouched : Left t t
  erased : {u : List Item} (p : Item → Bool) → Left t u → Left t (remove_by p u)

Left-All : (P : Item → Type 0) {t u : List Item} → Left t u → All P t → All P u
Left-All P untouched h = h
Left-All P (erased {u = u} p left) h = All-remove_by P p u (Left-All P left h)

drop_old-Left :
    (fuel bound : ℕ) (t u : List Item)
    → length u < fuel
    → Left t u
    → Ends (λ t'. All (λ i. bound ≤ i.num) t' × Left t t') (drop_old fuel bound u)
unfolding drop_old
drop_old-Left zero bound t u enough left = ground arith
drop_old-Left (suc fuel) bound t u enough left = elim (Option-cases (oldest u)) [
  | inl empty ↦ rw (drop_old, empty) (ends (rw (oldest-empty u empty) tt, left))
  | inr (i, first) ↦ elim (Bool-cases (ltb i.num bound)) [
    | inr young ↦
        rw (drop_old, first, young) (ends (oldest-bounds bound u first (ground arith), left))
    | inl old ↦
        rw (drop_old, first, old)
          (drop_old-Left fuel bound t (remove_by (has_block_id i.id) u)
            (omega (arith, oldest-found u i first)) (erased (has_block_id i.id) left))
  ]
]

All-with_head :
    (P : Item → Type 0) (head : Option Item) (t u : List Item)
    → Left t u
    → All P (with_head head t)
    → All P (with_head head u)
All-with_head P none t u left h = Left-All P left h
All-with_head P (some x) t u left h = (h.0, Left-All P left h.1)

-- no item of a database is further behind its head than its size
abbrev pub IsWithin : ForkDb → Type 0
IsWithin db = (h : Item) → db.head ≡ some h → All (λ i. h.num ≤ i.num + db.max_size) db.index

-- Setting the size of a linked fork database ends; it leaves the database linked, with no item
-- further behind the head than the size.
pub set_max_size-Ends :
    (size : ℕ) (db : ForkDb)
    → IsLinked db
    → Ends (λ db'. IsLinked db' × IsWithin db') (set_max_size size db)
unfolding set_max_size
set_max_size-Ends size db linked = elim (Option-cases db.head) [
  | inl no_head ↦ rw no_head (ends ((rw no_head at linked), λ h e. ground (arith, no_head)))
  | inr (x, headed) ↦ rw headed (
      bind-Ends
        (drop_old-Left (suc (length db.index)) (x.num - size) db.index db.index (omega arith)
          untouched)
        λ index (young, left).
          bind-Ends
            (drop_old-Left (suc (length db.unlinked_index)) (x.num - size) db.unlinked_index
              db.unlinked_index (omega arith) untouched)
            λ unlinked _.
              let kept =
                narrowed_links db.next_address (held db) (with_head db.head index)
                  (λ P. All-with_head P db.head db.index index left) linked in
              ends (
                (rw headed at kept),
                λ h e.
                    let same : h ≡ x = ground (arith, headed, e) in
                    rw same (
                      All-imp (λ i. x.num - size ≤ i.num) (λ i. x.num ≤ i.num + size) index
                        (λ i low. omega (arith, low)) young),
              ))
]
