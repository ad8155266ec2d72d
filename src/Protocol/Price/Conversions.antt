-- ===== src/Protocol/Price/Conversions.antt =====
-- Conversions at a price, there and back: `operator *` of libraries/protocol/asset.cpp.
use bmchain_core.Prelude.{List, ℕ, ◌≡◌, pos}
use bmchain_core.Protocol.Fc.{Fc}
use bmchain_core.Protocol.Asset.{Asset}
use bmchain_core.Protocol.Price.{Price, List, ℕ, ◌≡◌}

-- the sides of a price, for amounts that are not negative
abbrev pub amount_of : ℕ → ℕ → Asset
amount_of n s = record { amount = pos n; symbol = s }

abbrev pub ratio : Asset → Asset → Price
ratio base quote = record { base = base; quote = quote }
