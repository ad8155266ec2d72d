-- ===== src/Protocol/Config.antt =====
-- libraries/protocol/include/bmchain/protocol/config.hpp: the constants that the model uses, with
-- the values of the live network (IS_TEST_NET not defined). A symbol is the `uint64_t` of its bytes,
-- the decimals first.
use bmchain_core.Prelude.{ℕ, ◌+◌, ◌*◌, ◌^◌}

abbrev pub bmt_symbol : ℕ
bmt_symbol = 3 + b'B' * 0x100 + b'M' * 0x10000 + b'T' * 0x1000000

abbrev pub vests_symbol : ℕ
vests_symbol =
    6 + b'V' * 0x100 + b'E' * 0x10000 + b'S' * 0x1000000 + b'T' * 0x100000000 + b'S' * 0x10000000000

abbrev pub block_interval : ℕ
block_interval = 3

abbrev pub blocks_per_day : ℕ
blocks_per_day = 28800

abbrev pub max_witnesses : ℕ
max_witnesses = 21

abbrev pub hundred_percent : ℕ
hundred_percent = 10000

abbrev pub content_reward_percent_new : ℕ
content_reward_percent_new = 9000

abbrev pub daily_inflation_rate_restriction : ℕ
daily_inflation_rate_restriction = 20

abbrev pub using_close_content : ℕ
using_close_content = 1

abbrev pub savings_withdraw_intervals : ℕ
savings_withdraw_intervals = 30

abbrev pub savings_withdraw_interval_seconds : ℕ
savings_withdraw_interval_seconds = 604800

abbrev pub cashout_window_seconds : ℕ
cashout_window_seconds = 604800

abbrev pub max_proxy_recursion_depth : ℕ
max_proxy_recursion_depth = 4

abbrev pub max_share_supply : ℕ
max_share_supply = 1000000000000000

abbrev pub min_account_name_length : ℕ
min_account_name_length = 3

abbrev pub max_account_name_length : ℕ
max_account_name_length = 16

abbrev pub max_memo_size : ℕ
max_memo_size = 2048

abbrev pub max_permlink_length : ℕ
max_permlink_length = 256

abbrev pub max_sig_check_depth : ℕ
max_sig_check_depth = 2

abbrev pub max_account_witness_votes : ℕ
max_account_witness_votes = 30

abbrev pub min_curation_percent : ℕ
min_curation_percent = 2500

-- `BMCHAIN_NULL_ACCOUNT`, the name "null"
abbrev pub null_account : ℕ
null_account = b'n' * 2 ^ 120 + b'u' * 2 ^ 112 + b'l' * 2 ^ 104 + b'l' * 2 ^ 96
