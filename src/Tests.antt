-- ===== src/Tests.antt =====
-- Runs of the model on small databases, one for each property that has conditions.
pub mod Fixtures
pub mod Protocol
pub mod Chain
pub mod Blocks
pub mod Tokens
pub mod Names
pub mod Votes
pub mod Merkle
