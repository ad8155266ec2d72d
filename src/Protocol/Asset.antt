-- ===== src/Protocol/Asset.antt =====
-- `struct asset` of libraries/protocol (asset.hpp, asset.cpp): an amount with its symbol. Sums and
-- orders of assets throw unless the symbols agree.
use bmchain_core.Prelude.{
  ℕ, zero, suc, ◌/◌, ◌%◌, ◌^◌, ◌≡◌, refl, Bool, true, false, not, ◌&&◌, List, [], ◌∷◌, arith, ◌==◌,
  ltb, if◌then◌else◌, ℤ, ◌+ℤ◌, ◌-ℤ◌, neg_ℤ, ltb_ℤ, eqb_ℤ, Result, ok, fc_assert, ◌>>=◌, ◌>>◌, Gives,
  gives, bind-Gives, assert-Gives, ◌≤ℤ◌,
}
use bmchain_core.Protocol.Fc.{
  Fc, safe_add, safe_sub, safe_neg, safe_add-Gives, safe_sub-Gives, safe_neg-Gives,
}

pub record Asset : Type 0 where
  pub amount : ℤ
  pub symbol : ℕ

-- the bytes of a NUL-terminated string that starts at the lowest byte of `n`
unfoldable pub c_string : ℕ → ℕ → List ℕ
c_string zero n = []
c_string (suc k) n = let rest = n % 256 ∷ c_string k (n / 256) in if n % 256 == 0 then [] else rest

-- `asset::symbol_name`
unfoldable pub symbol_name : ℕ → Result (List ℕ)
symbol_name s = do fc_assert (s / 2 ^ 56 == 0); ok (c_string 7 (s / 256))

abbrev pub names_eq : List ℕ → List ℕ → Bool
names_eq [] [] = true
names_eq (x ∷ xs) (y ∷ ys) = (x == y) && names_eq xs ys
names_eq _ _ = false

-- `asset::decimals`
unfoldable pub decimals : ℕ → Result ℕ
decimals s = do fc_assert (ltb (s % 256) 15); ok (s % 256)

-- `operator ==`, `<`, `<=`, `>`, `>=`
unfoldable pub asset_eq : Asset → Asset → Bool
asset_eq a b = (a.symbol == b.symbol) && eqb_ℤ a.amount b.amount

unfoldable pub asset_lt : Asset → Asset → Result Bool
asset_lt a b = do fc_assert (a.symbol == b.symbol); ok (ltb_ℤ a.amount b.amount)

unfoldable pub asset_le : Asset → Asset → Result Bool
unfolding asset_eq asset_lt
asset_le a b = if asset_eq a b then ok true else asset_lt a b

unfoldable pub asset_gt : Asset → Asset → Result Bool
unfolding asset_le
asset_gt a b = do ok (not (← asset_le a b))

unfoldable pub asset_ge : Asset → Asset → Result Bool
unfolding asset_lt
asset_ge a b = do ok (not (← asset_lt a b))

-- `FC_ASSERT( a >= b )`, `FC_ASSERT( a <= b )`, `FC_ASSERT( a > b )`
unfoldable pub assert_ge : Asset → Asset → Result (Unit {0})
unfolding asset_ge
assert_ge a b = do enough ← asset_ge a b; fc_assert enough

unfoldable pub assert_le : Asset → Asset → Result (Unit {0})
unfolding asset_le
assert_le a b = do within ← asset_le a b; fc_assert within

unfoldable pub assert_gt : Asset → Asset → Result (Unit {0})
unfolding asset_gt
assert_gt a b = do more ← asset_gt a b; fc_assert more

-- What a passed test says.
pub assert_ge-le :
    (a b : Asset) → assert_ge a b ≡ ok tt → (a.symbol ≡ b.symbol) × (b.amount ≤ℤ a.amount)
unfolding assert_ge
assert_ge-le a b h = ground arith

pub assert_le-le :
    (a b : Asset) → assert_le a b ≡ ok tt → (a.symbol ≡ b.symbol) × (a.amount ≤ℤ b.amount)
unfolding assert_le
assert_le-le a b h = ground arith

module _ ⦃fc : Fc⦄ where
  -- `operator +` and `+=`
  unfoldable pub asset_add : Asset → Asset → Result Asset
  asset_add a b = do
    fc_assert (a.symbol == b.symbol)
    c ← safe_add a.amount b.amount
    ok (record { amount = c; symbol = a.symbol })

  -- binary `operator -` and `-=`
  unfoldable pub asset_sub : Asset → Asset → Result Asset
  asset_sub a b = do
    fc_assert (a.symbol == b.symbol)
    c ← safe_sub a.amount b.amount
    ok (record { amount = c; symbol = a.symbol })

  -- unary `operator -`
  unfoldable pub asset_neg : Asset → Result Asset
  asset_neg a = do c ← safe_neg a.amount; ok (record { amount = c; symbol = a.symbol })

  pub asset_add-Gives :
      (a b : Asset)
      → Gives
          (λ c. (c.amount ≡ a.amount +ℤ b.amount) × (c.symbol ≡ a.symbol) × (b.symbol ≡ a.symbol))
          (asset_add a b)
  unfolding asset_add
  asset_add-Gives a b =
      assert-Gives (a.symbol == b.symbol)
        λ e. bind-Gives (safe_add-Gives a.amount b.amount) λ c h. gives (h, refl, ground arith)

  pub asset_sub-Gives :
      (a b : Asset)
      → Gives
          (λ c. (c.amount ≡ a.amount -ℤ b.amount) × (c.symbol ≡ a.symbol) × (b.symbol ≡ a.symbol))
          (asset_sub a b)
  unfolding asset_sub
  asset_sub-Gives a b =
      assert-Gives (a.symbol == b.symbol)
        λ e. bind-Gives (safe_sub-Gives a.amount b.amount) λ c h. gives (h, refl, ground arith)

  pub asset_neg-Gives :
      (a : Asset) → Gives (λ c. (c.amount ≡ neg_ℤ a.amount) × (c.symbol ≡ a.symbol)) (asset_neg a)
  unfolding asset_neg
  asset_neg-Gives a = bind-Gives (safe_neg-Gives a.amount) λ c h. gives (h, refl)
