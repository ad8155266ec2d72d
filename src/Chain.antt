-- ===== src/Chain.antt =====
-- libraries/chain: the objects of the database, and the operations that change them.
pub mod Objects
pub mod Accounts
pub mod Supply
pub mod Escrow
pub mod Transfers
pub mod ContentOrders
pub mod Market
pub mod Operations
pub mod ForkDatabase
pub mod Irreversible
pub mod Slots
pub mod Voting
pub mod Vesting
pub mod Emission
pub mod Delegations
pub mod CustomTokens
