-- ===== src/Chain/Slots.antt =====
-- The slots of block production: `get_slot_time`, `get_slot_at_time` and `get_scheduled_witness`
-- (libraries/chain/database.cpp). A `time_point_sec` and a slot number are a `uint32_t`.
use bmchain_core.Prelude.{
  ℕ, ◌+◌, ◌-◌, ◌*◌, ◌/◌, ◌%◌, ◌^◌, ◌<◌, ◌≤◌, ◌≡◌, List, Option, get_elem?, ltb, ◌==◌, if◌then◌else◌,
  arith,
}
use bmchain_core.Protocol.Config.{block_interval}

-- what the slots are computed from: `dynamic_global_property_object` and `witness_schedule_object`
pub record Schedule : Type 0 where
  pub head_block_number : ℕ
  pub time : ℕ
  pub current_aslot : ℕ
  pub current_shuffled_witnesses : List ℕ
  pub num_scheduled_witnesses : ℕ

-- `database::get_slot_time`
unfoldable pub get_slot_time : ℕ → Schedule → ℕ
get_slot_time slot_num s =
    if slot_num == 0
    then 0
    else if s.head_block_number == 0
    then (s.time + slot_num * block_interval % 2 ^ 32) % 2 ^ 32
    else (s.time / block_interval * block_interval + slot_num * block_interval % 2 ^ 32) % 2 ^ 32

-- `database::get_slot_at_time`
unfoldable pub get_slot_at_time : ℕ → Schedule → ℕ
unfolding get_slot_time
get_slot_at_time at s =
    let first_slot_time = get_slot_time 1 s in
    if ltb at first_slot_time then 0 else ((at - first_slot_time) / block_interval + 1) % 2 ^ 32

-- `database::get_scheduled_witness`
unfoldable pub get_scheduled_witness : ℕ → Schedule → Option ℕ
get_scheduled_witness slot_num s =
    get_elem? s.current_shuffled_witnesses
      ((s.current_aslot + slot_num) % s.num_scheduled_witnesses)

-- The slot at the time of a slot is that slot, if the time does not pass the range of a `uint32_t`.
pub get_slot_at_time-get_slot_time :
    (n : ℕ) (s : Schedule)
    → 0 < n
    → s.time + n * block_interval < 2 ^ 32
    → get_slot_at_time (get_slot_time n s) s ≡ n
unfolding get_slot_at_time get_slot_time
get_slot_at_time-get_slot_time n s positive fits = ground arith

-- A time from the first slot on lies in the slot that it is assigned: from the slot's time up to the
-- next slot's, if that does not pass the range of a `uint32_t`.
pub get_slot_at_time-bounds :
    (at : ℕ) (s : Schedule)
    → get_slot_time 1 s ≤ at
    → s.time + 2 * block_interval < 2 ^ 32
    → at + 2 * block_interval < 2 ^ 32
    → (get_slot_time (get_slot_at_time at s) s ≤ at)
      × (at < get_slot_time (get_slot_at_time at s + 1) s)
unfolding get_slot_at_time get_slot_time
get_slot_at_time-bounds at s from fits_first fits = (ground arith, ground arith)
