-- ===== src/Chain/ForkDatabase/Reached.antt =====
-- The fork databases that the operations reach, from an empty one. `set_head` is given an item of the
-- index, as in the only call of it (`_push_block`, libraries/chain/database.cpp), whose item comes from
-- `fetch_branch_from`.
use bmchain_core.Chain.ForkDatabase.Size.{set_max_size, set_max_size-Ends}
use bmchain_core.Prelude.{
  Ends-ok, ℕ, suc, ◌<◌, ◌≤◌, ◌≡◌, refl, List, [], ◌∷◌, some, none, Option, remove_by, All,
  All-remove_by, ok, arith, Gives, gives, Gives-ok, bind-Gives, step-Gives, throw-Gives,
  assert-Gives, inl, inr, Bool-cases, Error, Ends, All-imp, ◌⊎◌, ltb, find_by, All-find_by,
}
use bmchain_core.Chain.ForkDatabase.{
  BlockId, Block, Item, ForkDb, block_num, block_id, has_block_id, held, with_head, lock, new_item,
  insert_item, longer, in_window, parent_of, push_item, push_block, pop_block, start_block, reset,
  remove, fetch_branch_from, set_head,
}
use bmchain_core.Chain.ForkDatabase.Links.{
  IsLinkedIn, IsLinked, narrowed_links, joined, All-index, All-insert, push_item-IsLinked, lock-All,
  Coherent,
}
use bmchain_core.Chain.ForkDatabase.Branches.{Descends, fetch_branch_from-Descends}

pop_block-IsLinked : (db : ForkDb) → IsLinked db → Gives IsLinked (pop_block db)
unfolding pop_block lock
pop_block-IsLinked db linked =
    bind-Gives (throw-Gives db.head Error.assertion λ h e. e) λ h at_head.
      bind-Gives (throw-Gives (lock db h) Error.assertion λ p e. e) λ p locked. gives (
        narrowed_links db.next_address (held db) (p ∷ db.index)
          (λ P all. (lock-All P db h p all locked, All-index P db.head db.index all)) linked)

start_block-IsLinked : (b : Block) (db : ForkDb) → IsLinked db → IsLinked (start_block b db)
unfolding start_block new_item
start_block-IsLinked b db linked =
    let i = new_item b none db.next_address in
    narrowed_links (suc db.next_address) (i ∷ held db) (i ∷ insert_item i db.index)
      (λ P (h, all). (h, All-insert P i db.index h (All-index P db.head db.index all)))
      (
        (
          (refl, refl, omega arith, λ a e. cc),
          (
            (λ _. refl, λ e. cc),
            All-imp (IsLinkedIn db.next_address (held db)) (Coherent i) (held db)
                (λ p ((_, _, low, _), _). (λ same. ground (arith, low), λ e. cc)) linked,
          ),
        ),
        joined db.next_address (held db) i (held db) refl linked,
      )

remove-IsLinked : (id : BlockId) (db : ForkDb) → IsLinked db → IsLinked (remove id db)
unfolding remove
remove-IsLinked id db linked =
    narrowed_links db.next_address (held db)
      (with_head db.head (remove_by (has_block_id id) db.index))
      (λ P. All-with_head-remove P id db.head db.index) linked
  where
    All-with_head-remove :
        (P : Item → Type 0) (id : BlockId) (head : Option Item) (t : List Item)
        → All P (with_head head t)
        → All P (with_head head (remove_by (has_block_id id) t))
    All-with_head-remove P id none t h = All-remove_by P (has_block_id id) t h
    All-with_head-remove P id (some x) t h = (h.0, All-remove_by P (has_block_id id) t h.1)

set_head-IsLinked :
    (id : BlockId) (h : Item) (db : ForkDb)
    → find_by (has_block_id id) db.index ≡ some h
    → IsLinked db
    → IsLinked (set_head (some h) db)
unfolding set_head
set_head-IsLinked id h db found linked =
    narrowed_links db.next_address (held db) (h ∷ db.index)
      (λ P all.
        let indexed = All-index P db.head db.index all in
        (All-find_by P (has_block_id id) db.index h indexed found, indexed))
      linked

-- the fork databases that the operations reach from an empty one whose size is `size` at first
pub data Reached (size : ℕ) : ForkDb → Type 0 where
  empty :
      Reached size
        (record { max_size = size; unlinked_index = []; index = []; head = none; next_address = 0 })
  started : {db : ForkDb} (b : Block) → Reached size db → Reached size (start_block b db)
  pushed :
      {db db' : ForkDb} (b : Block) → Reached size db → push_item b db ≡ ok db' → Reached size db'
  popped : {db db' : ForkDb} → Reached size db → pop_block db ≡ ok db' → Reached size db'
  removed : {db : ForkDb} (id : BlockId) → Reached size db → Reached size (remove id db)
  resized :
      {db db' : ForkDb} (s : ℕ) → Reached size db → set_max_size s db ≡ ok db' → Reached size db'
  switched :
      {db : ForkDb} {h : Item} (id : BlockId)
      → Reached size db
      → find_by (has_block_id id) db.index ≡ some h
      → Reached size (set_head (some h) db)
  cleared : {db : ForkDb} → Reached size db → Reached size (reset db)

-- Every fork database that pushes, pops, starts, removals, changes of the size, resets and changes of
-- the head to an item of the index reach from an empty one is linked: a link that locks leads to the block that
-- the item names as its previous one, with the number below.
pub Reached-IsLinked : {size : ℕ} {db : ForkDb} → Reached size db → IsLinked db
unfolding reset
Reached-IsLinked empty = tt
Reached-IsLinked (started {db = db} b r) = start_block-IsLinked b db (Reached-IsLinked r)
Reached-IsLinked (pushed {db = db} b r h) =
    Gives-ok (push_item-IsLinked b db (Reached-IsLinked r)) h
Reached-IsLinked (popped {db = db} r h) = Gives-ok (pop_block-IsLinked db (Reached-IsLinked r)) h
Reached-IsLinked (removed {db = db} id r) = remove-IsLinked id db (Reached-IsLinked r)
Reached-IsLinked (resized {db = db} s r h) =
    (Ends-ok (set_max_size-Ends s db (Reached-IsLinked r)) h).0
Reached-IsLinked (switched {db = db} {h = h} id r found) =
    set_head-IsLinked id h db found (Reached-IsLinked r)
Reached-IsLinked (cleared r) = tt

-- In a fork database that pushes, pops, starts, removals, changes of the size, resets and changes of
-- the head to an item of the index reach from an empty one, the search for the branches of two blocks ends: it
-- throws, or its branches lead from the two blocks, each item to its previous, to one common ancestor.
pub fetch_branch_from-Ends :
    {size : ℕ} {db : ForkDb} (first second : BlockId)
    → Reached size db
    → Ends
        (λ r. (ancestor : BlockId) × Descends first r.0 ancestor × Descends second r.1 ancestor)
        (fetch_branch_from first second db)
fetch_branch_from-Ends {db = db} first second r =
    fetch_branch_from-Descends db (Reached-IsLinked r) first second

-- The head after a push: the greater of two numbers, the old head where they are equal.
abbrev pub IsLonger : Item → Block → ForkDb → Type 0
IsLonger h b db' =
    (h' : Item) × (db'.head ≡ some h')
    × (((h.num < block_num b) × (h'.id ≡ block_id b) × (h'.num ≡ block_num b))
        ⊎ ((block_num b ≤ h.num) × (h' ≡ h)))

pushed_head-IsLonger :
    (b : Block) (db : ForkDb) (h : Item) → db.head ≡ some h → Gives (IsLonger h b) (push_item b db)
unfolding push_item longer new_item
pushed_head-IsLonger b db h headed = assert-Gives (in_window b db) λ _.
    step-Gives (parent_of b db) λ prev _.
      let i = new_item b prev db.next_address in
      elim (Bool-cases (ltb h.num (block_num b))) [
        | inl more ↦ gives (i, ground (arith, headed, more), inl (ground arith, refl, refl))
        | inr less ↦ gives (h, ground (arith, headed, less), inr (ground arith, refl))
      ]

-- A push that returns makes the new block the head if its number is greater than the head's, and
-- keeps the head if not; it returns the head.
pub push_block-IsLonger :
    (b : Block) (db : ForkDb) {h : Item}
    → db.head ≡ some h
    → Gives (λ r. IsLonger h b r.0 × (r.1 ≡ r.0.head)) (push_block b db)
unfolding push_block
push_block-IsLonger b db {h} headed =
    bind-Gives (pushed_head-IsLonger b db h headed) λ db' longer_now. gives (longer_now, refl)
