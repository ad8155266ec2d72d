-- ===== src/Tests/Blocks.antt =====
-- Fork databases and slots.
use bmchain_core.Chain.ForkDatabase.Size.{IsWithin, set_max_size, set_max_size-Ends}
use bmchain_core.Chain.Irreversible.{
  update_last_irreversible_block, confirmed_block, sorted, insert, offset_of, confirmations,
  update_last_irreversible_block-confirmations,
}
use bmchain_core.Prelude.{
  ℕ, ◌≡◌, refl, [], ◌∷◌, ok, none, some, Gives, Ends, find_by, arith, ◌<◌, ◌≤◌, false, ◌+◌, ◌*◌,
}
use bmchain_core.Chain.ForkDatabase.{
  BlockId, Block, Item, ForkDb, block_num, block_id, new_item, insert_item, longer, in_window,
  window, parent_of, push_item, push_block, start_block, fetch_branch_from, climb, meet, set_head,
}
use bmchain_core.Chain.ForkDatabase.Branches.{Descends}
use bmchain_core.Chain.ForkDatabase.Links.{IsLinked}
use bmchain_core.Chain.ForkDatabase.Reached.{
  Reached, empty, started, pushed, Reached-IsLinked, fetch_branch_from-Ends, IsLonger,
  push_block-IsLonger, switched,
}
use bmchain_core.Chain.ForkDatabase.Walk.{
  HasNum, fetch_block_on_main_branch_by_number, fetch_block_on_main_branch_by_number-HasNum,
}
use bmchain_core.Chain.Slots.{
  Schedule, get_slot_time, get_slot_at_time, get_slot_at_time-get_slot_time,
  get_slot_at_time-bounds,
}

abbrev id_of : ℕ → ℕ → BlockId
id_of num hash = record { num = num; hash = hash }

-- a first block, and two blocks on top of it
abbrev first_block : Block
first_block = record { previous = id_of 9 1; digest = 2 }

abbrev left_block : Block
left_block = record { previous = id_of 10 2; digest = 3 }

abbrev right_block : Block
right_block = record { previous = id_of 10 2; digest = 4 }

abbrev first_item : Item
first_item = record {
  address = 0;
  prev = none;
  num = 10;
  invalid = false;
  id = id_of 10 2;
  data_block = first_block;
}

abbrev left_item : Item
left_item = record {
  address = 1;
  prev = some 0;
  num = 11;
  invalid = false;
  id = id_of 11 3;
  data_block = left_block;
}

abbrev right_item : Item
right_item = record {
  address = 2;
  prev = some 0;
  num = 11;
  invalid = false;
  id = id_of 11 4;
  data_block = right_block;
}

abbrev one_block : ForkDb
one_block = record {
  max_size = 4;
  unlinked_index = [];
  index = first_item ∷ [];
  head = some first_item;
  next_address = 1;
}

abbrev two_blocks : ForkDb
two_blocks = record {
  max_size = 4;
  unlinked_index = [];
  index = left_item ∷ first_item ∷ [];
  head = some left_item;
  next_address = 2;
}

abbrev two_branches : ForkDb
two_branches = record {
  max_size = 4;
  unlinked_index = [];
  index = right_item ∷ left_item ∷ first_item ∷ [];
  head = some left_item;
  next_address = 3;
}

one_block-Reached : Reached 4 one_block
unfolding start_block new_item insert_item find_by block_num block_id
one_block-Reached = started first_block empty

left_runs : push_item left_block one_block ≡ ok two_blocks
unfolding push_item in_window window parent_of longer new_item insert_item find_by block_num
    block_id
left_runs = refl

right_runs : push_item right_block two_blocks ≡ ok two_branches
unfolding push_item in_window window parent_of longer new_item insert_item find_by block_num
    block_id
right_runs = refl

two_branches-Reached : Reached 4 two_branches
two_branches-Reached = pushed right_block (pushed left_block one_block-Reached left_runs) right_runs

-- the head is moved to the block on the right
abbrev right_head : ForkDb
right_head = record two_branches { head = some right_item }

right_head-Reached : Reached 4 right_head
unfolding set_head find_by
right_head-Reached = switched (id_of 11 4) two_branches-Reached refl

Reached-IsLinked_example : IsLinked right_head
Reached-IsLinked_example = Reached-IsLinked right_head-Reached

fetch_branch_from-Ends_example :
    Ends
      (λ r.
        (ancestor : BlockId) × Descends (id_of 11 3) r.0 ancestor
        × Descends (id_of 11 4) r.1 ancestor)
      (fetch_branch_from (id_of 11 3) (id_of 11 4) two_branches)
fetch_branch_from-Ends_example =
    fetch_branch_from-Ends (id_of 11 3) (id_of 11 4) two_branches-Reached

push_block-IsLonger_example :
    Gives
      (λ r. IsLonger first_item left_block r.0 × (r.1 ≡ r.0.head))
      (push_block left_block one_block)
push_block-IsLonger_example = push_block-IsLonger left_block one_block refl

fetch_block_on_main_branch_by_number-HasNum_example :
    Ends (HasNum 11) (fetch_block_on_main_branch_by_number 11 two_branches)
fetch_block_on_main_branch_by_number-HasNum_example =
    fetch_block_on_main_branch_by_number-HasNum 11 two_branches-Reached

-- the branches that are found
branches_run :
    fetch_branch_from (id_of 11 3) (id_of 11 4) two_branches ≡ ok (left_item ∷ [], right_item ∷ [])
unfolding fetch_branch_from climb meet find_by block_num
branches_run = refl

abbrev schedule : Schedule
schedule = record {
  head_block_number = 5;
  time = 1000;
  current_aslot = 7;
  current_shuffled_witnesses = 1 ∷ 2 ∷ 3 ∷ [];
  num_scheduled_witnesses = 3;
}

get_slot_at_time-get_slot_time_example : get_slot_at_time (get_slot_time 4 schedule) schedule ≡ 4
get_slot_at_time-get_slot_time_example =
    get_slot_at_time-get_slot_time 4 schedule (omega arith) (omega arith)

get_slot_at_time-bounds_example :
    (get_slot_time (get_slot_at_time 1008 schedule) schedule ≤ 1008)
    × (1008 < get_slot_time (get_slot_at_time 1008 schedule + 1) schedule)
unfolding get_slot_time
get_slot_at_time-bounds_example =
    get_slot_at_time-bounds 1008 schedule (omega arith) (omega arith) (omega arith)

update_last_irreversible_block-confirmations_example :
    4 * 7500
    ≤ confirmations
        (update_last_irreversible_block 1000000 10 (25 ∷ 20 ∷ 30 ∷ 21 ∷ []))
        (25 ∷ 20 ∷ 30 ∷ 21 ∷ [])
      * 10000
unfolding update_last_irreversible_block confirmed_block sorted insert offset_of
update_last_irreversible_block-confirmations_example =
    update_last_irreversible_block-confirmations 1000000 10 (25 ∷ 20 ∷ 30 ∷ 21 ∷ []) (omega arith)
      (omega arith)

set_max_size-Ends_example : Ends (λ db'. IsLinked db' × IsWithin db') (set_max_size 0 two_branches)
set_max_size-Ends_example = set_max_size-Ends 0 two_branches (Reached-IsLinked two_branches-Reached)
