-- ===== src/Lib.antt =====
-- The core of the BMChain node: the amounts of the protocol, the objects of the chain database, and
-- the operations that move them.
--
-- A node applies the operations of signed blocks to a database of objects. Each operation has an
-- evaluator (libraries/chain/bmchain_evaluator.cpp), which tests its conditions with FC_ASSERT, and
-- changes accounts, escrows and orders through the primitives of `database`
-- (libraries/chain/database.cpp). An exception undoes the operation. Here an evaluator is a function
-- from the database to a `Result`, and an exception is an error value.
--
-- Prelude             Boolean tests, integers over the native numbers, tables of objects, exceptions
-- Protocol/Fc         the fc library's checked integers, a submodule, as a parameter with its laws
-- Protocol/Config     constants of libraries/protocol/include/bmchain/protocol/config.hpp
-- Protocol/Asset      `asset`, Protocol/Price `price` (libraries/protocol/asset.cpp, asset.hpp)
-- Protocol/AccountName `is_valid_account_name`, and the grammar of names (libraries/protocol/authority.cpp)
-- Protocol/FixedString `fixed_string` (libraries/protocol/include/bmchain/protocol/fixed_string.hpp)
-- Protocol/Authority  `authority`, Protocol/SignState `sign_state` (libraries/protocol/sign_state.cpp)
-- Protocol/Merkle     `calculate_merkle_root` (libraries/protocol/block.cpp)
-- Validation          `validate` of the operations (libraries/protocol/bmchain_operations.cpp)
-- Chain/Objects       the objects of the database (libraries/chain/include/bmchain/chain)
-- Chain/Accounts      `get_account`, `adjust_balance` and its kin (libraries/chain/database.cpp)
-- Chain/Supply        the sum of `validate_invariants`
-- Chain/Escrow        the escrow evaluators, `expire_escrow_ratification` (libraries/chain/database.cpp)
-- Chain/Transfers     transfers, savings, `adjust_supply` and `pay_fee`
-- Chain/ContentOrders the sale of encrypted content
-- Chain/Market        limit orders: creation, matching, cancellation, expiration
-- Chain/CustomTokens  the custom token evaluators (libraries/chain/custom_token_evaluator.cpp)
-- Chain/Delegations   `delegate_vesting_shares_evaluator` and `clear_expired_delegations`
-- Chain/Emission      `pay_reward_funds` and `process_funds_bmchain`
-- Chain/Slots         `get_slot_time`, `get_slot_at_time`, `get_scheduled_witness`
-- Chain/Irreversible  `update_last_irreversible_block`
-- Chain/ForkDatabase  `fork_database` (libraries/chain/fork_database.cpp)
-- Chain/Voting        votes for witnesses and proxies
-- Chain/Vesting       `create_vesting`, the claim of rewards, `clear_null_account_balance`
-- Chain/Operations    `apply_operation` for transfers, savings, escrows, limit orders and content
--                     orders, and histories of these operations
-- Tests               a concrete arithmetic, small databases, and runs
--
-- An index of the database is the list of its objects in the order of creation, unless a file says
-- otherwise; an index by another
-- key is computed from it. An amount is an integer, and every sum of amounts goes through the checked
-- arithmetic of the parameter; a product that the source forms in plain `int64_t`s wraps around. Account names, permlinks and ids are numbers; a name is the number of its
-- `fixed_string`, and `Protocol/FixedString` gives its text.
--
-- A transaction's operations are validated (`validate`) before an evaluator sees them; the two meet in
-- Validation/Solvency. The tests of UTF-8 and JSON, which the fc library makes, are the parameter `Text`
-- of the validation, and the active authority of an account is a parameter of `sign_state`.
--
-- The loop over expired orders runs on fuel: one round for each order and one that finds none, which
-- is enough, since each round removes an order. The loops over expired delegations and over
-- escrows that were not ratified run on their number and one more, for the same reason. The walks of
-- the fork database run on the number of their block and one more, which is enough, since a link leads
-- to the number below. The loop over the labels of
-- a name runs on its length and one more, since each round consumes a dot; the walk along proxies on
-- five rounds, since each adds an account to a set of at most four. The rounds of the merkle root run on the
-- number of digests and one more, since each round leaves fewer. The recursions of `sign_state` and of
-- the proxied votes count down to the depth at which the source stops them.
--
-- Not modelled: the undo store of libraries/chainbase (a copy of another project; an exception here
-- leaves the old database), networking, the wallet, plugins and APIs, virtual operations (a log), and
-- the asserts that a release build drops.
pub mod Prelude
pub mod Protocol
pub mod Chain
pub mod Validation
pub mod Tests
