-- ===== src/Protocol/Price.antt =====
-- `struct price` of libraries/protocol (asset.hpp, asset.cpp): a ratio of two assets, and the
-- conversion of an asset by it, which rounds down.
pub mod Conversions
use native.Mathlib.Nat.{mul_comm, mul-le-mul, mod-eq_of_lt, div-mul-le_self, div-le_of_le-mul}
use bmchain_core.Prelude.{
  ℕ, ◌*◌, ◌/◌, ◌%◌, ◌^◌, ◌<◌, ◌≡◌, Bool, true, false, not, ◌&&◌, ◌||◌, arith, ltb, ◌==◌,
  if◌then◌else◌, ℤ, pos, ◌≤ℤ◌, ltb_ℤ, Result, ok, err, fc_assert, ◌>>=◌, ◌>>◌, Error, List, Gives,
  gives, Gives-ok, assert-Gives, step-Gives, refl, Bool-cases, inl, inr, ◌≤◌,
}
use bmchain_core.Protocol.Fc.{Fc}
use bmchain_core.Protocol.Asset.{Asset, symbol_name, names_eq}

pub record Price : Type 0 where
  pub base : Asset
  pub quote : Asset

-- `operator ~`
abbrev pub invert : Price → Price
invert p = record { base = p.quote; quote = p.base }

module _ ⦃fc : Fc⦄ where
  -- `operator *` on one side of the price: `a * to / from`, in 128 bits
  unfoldable pub scale : ℤ → ℤ → ℤ → ℕ → Result Asset
  scale a to from symbol = do
    fc_assert (ltb_ℤ (pos 0) from)
    let r = fc.uint128_of a * fc.uint128_of to % 2 ^ 128 / fc.uint128_of from
    fc_assert (r / 2 ^ 64 == 0)
    ok (record { amount = fc.int64_of r; symbol = symbol })

  -- The second test of `operator *`: an asset of the quote's symbol.
  unfoldable pub mul_by_quote : List ℕ → Asset → Price → Result Asset
  unfolding scale
  mul_by_quote name a b = do
    quote_name ← symbol_name b.quote.symbol
    if names_eq name quote_name
        then scale a.amount b.base.amount b.quote.amount b.base.symbol
        else err Error.assertion

  -- `operator *`
  unfoldable pub asset_mul : Asset → Price → Result Asset
  unfolding scale mul_by_quote
  asset_mul a b = do
    name ← symbol_name a.symbol
    base_name ← symbol_name b.base.symbol
    if names_eq name base_name
        then scale a.amount b.quote.amount b.base.amount b.quote.symbol
        else mul_by_quote name a b

  -- The cross products that order two prices of one market.
  unfoldable pub cross : Price → Price → ℕ
  cross a b = fc.uint128_of b.quote.amount * fc.uint128_of a.base.amount % 2 ^ 128

  -- `operator ==`
  unfoldable pub price_eq : Price → Price → Bool
  unfolding cross
  price_eq a b =
      (a.base.symbol == b.base.symbol)
      && (a.quote.symbol == b.quote.symbol)
      && (cross a b == cross b a)

  -- `operator <`
  unfoldable pub price_lt : Price → Price → Bool
  unfolding cross
  price_lt a b =
      if ltb a.base.symbol b.base.symbol
      then true
      else if ltb b.base.symbol a.base.symbol
      then false
      else if ltb a.quote.symbol b.quote.symbol
      then true
      else if ltb b.quote.symbol a.quote.symbol
      then false
      else ltb (cross a b) (cross b a)

  -- `operator <=`
  unfoldable pub price_le : Price → Price → Bool
  unfolding price_eq price_lt
  price_le a b = price_eq a b || price_lt a b

-- `operator /`
unfoldable pub price_of : Asset → Asset → Result Price
price_of base quote = do
  base_name ← symbol_name base.symbol
  quote_name ← symbol_name quote.symbol
  fc_assert (not (names_eq base_name quote_name))
  ok (record { base = base; quote = quote })

pub price_of-base : (a b : Asset) → Gives (λ p. p.base ≡ a) (price_of a b)
unfolding price_of
price_of-base a b = step-Gives (symbol_name a.symbol) λ base_name _.
    step-Gives (symbol_name b.symbol)
      λ quote_name _. assert-Gives (not (names_eq base_name quote_name)) λ _. gives refl

module _ ⦃fc : Fc⦄ where
  private_bound : (a b : ℕ) → a < 2 ^ 63 → b < 2 ^ 63 → a * b < 2 ^ 128
  private_bound a b h k = grind (arith, mul-le-mul {n₁ = a} {m₁ = 2 ^ 63} {n₂ = b} {m₂ = 2 ^ 63})

  -- A conversion of a nonnegative amount at positive sides of a price, all below 2^63, returns the
  -- exact quotient, rounded down, if that is below 2^63.
  pub scale_floor :
      (a q d s : ℕ)
      → a < 2 ^ 63
      → q < 2 ^ 63
      → 0 < d
      → d < 2 ^ 63
      → a * q / d < 2 ^ 63
      → scale (pos a) (pos q) (pos d) s ≡ ok (record { amount = pos (a * q / d); symbol = s })
  unfolding scale
  scale_floor a q d s ha hq hd0 hd hr =
      rw
        (
          fc.uint128_of_pos a ha,
          fc.uint128_of_pos q hq,
          fc.uint128_of_pos d hd,
          mod-eq_of_lt (private_bound a q ha hq),
        )
        (ground (arith, fc.int64_of_fits (a * q / d) hr))

  -- What a conversion of amounts in range returns.
  pub scale-Gives :
      (a q d s : ℕ)
      → a < 2 ^ 63
      → q < 2 ^ 63
      → d < 2 ^ 63
      → Gives
          (λ b.
            (0 < d) × (b.symbol ≡ s) × (b.amount ≡ fc.int64_of (a * q / d)) × (a * q / d < 2 ^ 64))
          (scale (pos a) (pos q) (pos d) s)
  unfolding scale
  scale-Gives a q d s ha hq hd =
      rw
        (
          fc.uint128_of_pos a ha,
          fc.uint128_of_pos q hq,
          fc.uint128_of_pos d hd,
          mod-eq_of_lt (private_bound a q ha hq),
        )
        (assert-Gives (ltb_ℤ (pos 0) (pos d)) λ h.
          assert-Gives (a * q / d / 2 ^ 64 == 0)
            λ k. gives (ground arith, refl, refl, ground arith))

  pub nonneg_fits :
      (r : ℕ) → r < 2 ^ 64 → pos 0 ≤ℤ fc.int64_of r → (fc.int64_of r ≡ pos r) × (r < 2 ^ 63)
  nonneg_fits r h k = elim (Bool-cases (ltb r (2 ^ 63))) [
    | inl small ↦ (fc.int64_of_fits r (ground arith), ground arith)
    | inr big ↦ ground (arith, fc.int64_of_wraps r)
  ]

  back-le : (n q d : ℕ) → n * q / d * d / q ≤ n
  back-le n q d = div-le_of_le-mul q (rw (mul_comm q n) (div-mul-le_self (n * q) d))

  -- A nonnegative amount that is scaled to a nonnegative amount, and then back with the sides swapped,
  -- does not grow, for sides that are not negative, all below 2^63.
  pub scale-scale-le :
      (n q d s t : ℕ) {b c : Asset}
      → n < 2 ^ 63
      → q < 2 ^ 63
      → d < 2 ^ 63
      → scale (pos n) (pos q) (pos d) s ≡ ok b
      → pos 0 ≤ℤ b.amount
      → scale b.amount (pos d) (pos q) t ≡ ok c
      → c.amount ≤ℤ pos n
  scale-scale-le n q d s t {b} {c} hn hq hd e nonneg e' =
      let (_, _, amount, small) = Gives-ok (scale-Gives n q d s hn hq hd) e in
      let (exact, fits) = nonneg_fits (n * q / d) small (rw amount at nonneg) in
      let m : ℕ = n * q / d in
      let back : scale (pos m) (pos d) (pos q) t ≡ ok c = rw (← exact, ← amount) e' in
      let (_, _, returned, _) = Gives-ok (scale-Gives m d q t fits hd hq) back in
      rw (returned, fc.int64_of_fits (m * d / q) (omega (arith, back-le n q d)))
        (omega (arith, back-le n q d))
