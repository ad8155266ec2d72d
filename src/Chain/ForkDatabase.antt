-- ===== src/Chain/ForkDatabase.antt =====
-- `fork_database` (libraries/chain/fork_database.cpp, fork_database.hpp), with the numbers and ids of
-- blocks (libraries/protocol/block.cpp). An item has an address, to which the weak pointers of its
-- children point: such a pointer locks while the index or the head holds the item.
pub mod Links
pub mod Branches
pub mod Reached
pub mod Walk
pub mod Size
use bmchain_core.Prelude.{
  ℕ, zero, suc, ◌+◌, ◌-◌, ◌%◌, ◌^◌, Bool, true, false, not, ◌&&◌, ◌||◌, List, [], ◌∷◌, ◌++◌, ltb,
  leb, ◌==◌, if◌then◌else◌, find_by, remove_by, Option, none, some, Result, ok, err, Error,
  fc_assert, or_throw, ◌>>=◌, ◌>>◌,
}

-- `block_id_type`: the number in its first word, and the hash in the others
pub record BlockId : Type 0 where
  pub num : ℕ
  pub hash : ℕ

-- A signed block, as far as the fork database reads it; `digest` is its hash.
pub record Block : Type 0 where
  pub previous : BlockId
  pub digest : ℕ

abbrev pub id_eq : BlockId → BlockId → Bool
id_eq a b = (a.num == b.num) && (a.hash == b.hash)

-- `block_id_type()`
abbrev pub no_id : BlockId
no_id = record { num = 0; hash = 0 }

-- `block_header::block_num`, in a `uint32_t`
unfoldable pub block_num : Block → ℕ
block_num b = suc b.previous.num % 2 ^ 32

-- `signed_block_header::id`
unfoldable pub block_id : Block → BlockId
block_id b = record { num = block_num b; hash = b.digest }

-- `fork_item`
pub record Item : Type 0 where
  pub address : ℕ
  pub prev : Option ℕ
  pub num : ℕ
  pub invalid : Bool
  pub id : BlockId
  pub data_block : Block

pub record ForkDb : Type 0 where
  pub max_size : ℕ
  pub unlinked_index : List Item
  pub index : List Item
  pub head : Option Item
  pub next_address : ℕ

abbrev pub has_block_id : BlockId → Item → Bool
has_block_id id i = id_eq i.id id

abbrev pub is_at : ℕ → Item → Bool
is_at address i = i.address == address

abbrev pub with_head : Option Item → List Item → List Item
with_head none t = t
with_head (some h) t = h ∷ t

-- the items that are alive
abbrev pub held : ForkDb → List Item
held db = with_head db.head db.index

-- `prev.lock()`
unfoldable pub lock : ForkDb → Item → Option Item
lock db i = elim i.prev [ none ↦ none | some a ↦ find_by (is_at a) (held db) ]

-- the constructor of `fork_item`, at a new address
unfoldable pub new_item : Block → Option ℕ → ℕ → Item
unfolding block_num block_id
new_item b prev address = record {
  address = address;
  prev = prev;
  num = block_num b;
  invalid = false;
  id = block_id b;
  data_block = b;
}

-- `_index.insert`, which refuses a second item of one id
unfoldable pub insert_item : Item → List Item → List Item
insert_item i t = elim (find_by (has_block_id i.id) t) [ none ↦ i ∷ t | some _ ↦ t ]

-- `fork_database::reset`
unfoldable pub reset : ForkDb → ForkDb
reset db = record db { head = none; index = [] }

-- `fork_database::pop_block`
unfoldable pub pop_block : ForkDb → Result ForkDb
unfolding lock
pop_block db = do
  h ← or_throw db.head Error.assertion
  p ← or_throw (lock db h) Error.assertion
  ok (record db { head = some p })

-- `fork_database::start_block`
unfoldable pub start_block : Block → ForkDb → ForkDb
unfolding new_item insert_item
start_block b db =
    let i = new_item b none db.next_address in
    record db { index = insert_item i db.index; head = some i; next_address = suc db.next_address }

-- the number that a new block must exceed: `max( 0, head - max_size )`
unfoldable pub window : ForkDb → ℕ
window db = elim db.head [ none ↦ 0 | some h ↦ h.num - db.max_size ]

-- whether a block is within the range that is cached
unfoldable pub in_window : Block → ForkDb → Bool
unfolding window block_num
in_window b db = elim db.head [ none ↦ true | some _ ↦ ltb (window db) (block_num b) ]

-- the item that a new block links to, if the database has a head and the block a previous id
unfoldable pub parent_of : Block → ForkDb → Result (Option ℕ)
parent_of b db = elim db.head [
  | none ↦ ok none
  | some _ ↦ if id_eq b.previous no_id then ok none else (do
    p ← or_throw (find_by (has_block_id b.previous) db.index) Error.unlinkable
    fc_assert (not p.invalid)
    ok (some p.address))
]

-- the head after an insertion: the new item, if its number is greater
unfoldable pub longer : Option Item → Item → Option Item
longer none i = some i
longer (some h) i = if ltb h.num i.num then some i else some h

-- `fork_database::_push_block`
unfoldable pub push_item : Block → ForkDb → Result ForkDb
unfolding in_window parent_of new_item insert_item longer
push_item b db = do
  fc_assert (in_window b db)
  prev ← parent_of b db
  let i = new_item b prev db.next_address
  ok (record db {
    index = insert_item i db.index;
    head = longer db.head i;
    next_address = suc db.next_address;
  })

-- `fork_database::push_block`: a block that does not link is thrown back before it is cached
unfoldable pub push_block : Block → ForkDb → Result (ForkDb × Option Item)
unfolding push_item
push_block b db = do db' ← push_item b db; ok (db', db'.head)

-- `fork_database::fetch_block`, `is_known_block`
unfoldable pub fetch_block : BlockId → ForkDb → Option Item
fetch_block id db = elim (find_by (has_block_id id) db.index) [
  | some i ↦ some i
  | none ↦ find_by (has_block_id id) db.unlinked_index
]

unfoldable pub is_known_block : BlockId → ForkDb → Bool
is_known_block id db = elim (find_by (has_block_id id) db.index) [
  | some _ ↦ true
  | none ↦ elim (find_by (has_block_id id) db.unlinked_index) [ some _ ↦ true | none ↦ false ]
]

-- `fork_database::set_head`, `remove`
unfoldable pub set_head : Option Item → ForkDb → ForkDb
set_head h db = record db { head = h }

unfoldable pub remove : BlockId → ForkDb → ForkDb
remove id db = record db { index = remove_by (has_block_id id) db.index }

-- The first two loops of `fetch_branch_from`: down to a number, with the items on the way.
unfoldable pub climb : ℕ → ForkDb → ℕ → Item → Result (List Item × Item)
unfolding lock block_num
climb zero db stop i = err Error.out_of_fuel
climb (suc fuel) db stop i = elim (ltb stop (block_num i.data_block)) [
  | false ↦ ok ([], i)
  | true ↦ do
    p ← or_throw (lock db i) Error.assertion
    (rest, j) ← climb fuel db stop p
    ok (i ∷ rest, j)
]

-- The third loop: both branches down to items with one previous id.
unfoldable pub meet : ℕ → ForkDb → Item → Item → Result (List Item × List Item)
unfolding lock
meet zero db i j = err Error.out_of_fuel
meet (suc fuel) db i j = elim (id_eq i.data_block.previous j.data_block.previous) [
  | true ↦ ok (i ∷ [], j ∷ [])
  | false ↦ do
    p ← or_throw (lock db i) Error.assertion
    q ← or_throw (lock db j) Error.assertion
    (first, second) ← meet fuel db p q
    ok (i ∷ first, j ∷ second)
]

-- `fork_database::fetch_branch_from`
unfoldable pub fetch_branch_from : BlockId → BlockId → ForkDb → Result (List Item × List Item)
unfolding climb meet block_num
fetch_branch_from first second db = do
  i ← or_throw (find_by (has_block_id first) db.index) Error.assertion
  j ← or_throw (find_by (has_block_id second) db.index) Error.assertion
  (xs, i') ← climb (suc i.num) db (block_num j.data_block) i
  (ys, j') ← climb (suc j.num) db (block_num i'.data_block) j
  (us, vs) ← meet (suc i'.num) db i' j'
  ok (xs ++ us, ys ++ vs)
