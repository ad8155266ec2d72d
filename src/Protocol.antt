-- ===== src/Protocol.antt =====
-- libraries/protocol: assets, prices, authorities.
pub mod Fc
pub mod Config
pub mod AccountName
pub mod Authority
pub mod Asset
pub mod FixedString
pub mod Merkle
pub mod Price
pub mod SignState
