-- ===== src/Tests/Protocol.antt =====
-- Conversions at prices.
use bmchain_core.Protocol.Price.{Price}
use bmchain_core.Protocol.Price.Conversions.{ratio}
use bmchain_core.Tests.Fixtures.{reference_fc, bmt, vests}

-- 3 BMT for 7 VESTS
abbrev rate : Price
rate = ratio (bmt 3) (vests 7)
