-- ===== src/Chain/Emission.antt =====
-- The printing of BMT: `pay_reward_funds` and `process_funds_bmchain`
-- (libraries/chain/database.cpp).
pub mod Conservation
use bmchain_core.Prelude.{
  ℕ, ◌+◌, ◌*◌, ◌/◌, ◌%◌, Bool, true, false, not, ◌&&◌, List, [], ◌∷◌, ◌==◌, if◌then◌else◌, ℤ, pos,
  negsuc, ◌-ℤ◌, leb_ℤ, Option, none, some, Result, ok, err, Error, fc_assert, or_throw, ◌>>=◌, ◌>>◌,
  ◌*ℤ◌, wrap_int64,
}
use bmchain_core.Protocol.Fc.{Fc, safe_add, safe_sub, safe_mul}
use bmchain_core.Protocol.Config.{
  bmt_symbol, hundred_percent, content_reward_percent_new, daily_inflation_rate_restriction,
}
use bmchain_core.Protocol.Asset.{Asset, asset_add}
use bmchain_core.Chain.Objects.{Account, RewardFund, Props, Db}
use bmchain_core.Chain.Accounts.{modify_account}
use bmchain_core.Chain.Voting.{get_witness}

abbrev pub bmt_of : ℤ → Asset
bmt_of a = record { amount = a; symbol = bmt_symbol }

-- the division of an `int64_t` by a positive number, which rounds towards zero
abbrev pub quot : ℤ → ℕ → ℤ
quot (pos n) d = pos (n / d)
quot (negsuc n) d = pos 0 -ℤ pos ((n + 1) / d)

module _ ⦃fc : Fc⦄ where
  -- the loop of `pay_reward_funds`, with the rewards used before
  unfoldable pub pay_funds : ℤ → ℤ → List RewardFund → Result (List RewardFund × ℤ)
  pay_funds reward used [] = ok ([], used)
  pay_funds reward used (f ∷ t) = do
    product ← safe_mul reward (pos f.percent_content_rewards)
    let r = quot product hundred_percent
    b ← asset_add f.reward_balance (bmt_of r)
    used' ← safe_add used r
    _ ← fc_assert (leb_ℤ used' reward)
    (rest, all) ← pay_funds reward used' t
    ok (record f { reward_balance = b } ∷ rest, all)

  -- `database::pay_reward_funds`
  unfoldable pub pay_reward_funds : ℤ → List RewardFund → Result (List RewardFund × ℤ)
  unfolding pay_funds
  pay_reward_funds reward t = pay_funds reward (pos 0) t

  -- the witness's balance
  unfoldable pub reward_witness : ℤ → Account → Result Account
  reward_witness r a = do b ← asset_add a.balance (bmt_of r); ok (record a { balance = b })

  -- whether the emission of the day is used up, in the middle of a day; the product of the test is one
  -- of plain `int64_t`s
  unfoldable pub is_exhausted : Props → Bool
  is_exhausted p =
      leb_ℤ
        (quot
          (quot (wrap_int64 (p.current_supply.amount *ℤ pos daily_inflation_rate_restriction)) 100)
          365)
        p.daily_emission.amount
      && not (p.head_block_number % 28800 == 0)

  -- the global properties after `printed` new BMT
  unfoldable pub print : ℤ → Props → Result Props
  print printed p = do
    let spent = if p.head_block_number % 28800 == 0 then bmt_of (pos 0) else p.daily_emission
    current ← asset_add p.current_supply (bmt_of printed)
    virtual ← asset_add p.virtual_supply (bmt_of printed)
    daily ← asset_add spent (bmt_of printed)
    ok (record p { current_supply = current; virtual_supply = virtual; daily_emission = daily })

  -- `database::process_funds_bmchain`, for a number of new BMT, whose product is of plain `int64_t`s
  unfoldable pub process_funds_bmchain : ℤ → Db → Result Db
  unfolding pay_reward_funds reward_witness is_exhausted print
  process_funds_bmchain new_bmt db = if is_exhausted db.props then ok db else (do
    (funds, content) ←
        pay_reward_funds
          (quot (wrap_int64 (new_bmt *ℤ pos content_reward_percent_new)) hundred_percent)
          db.reward_funds
    witness ← safe_sub new_bmt content
    cwit ← get_witness db.props.current_witness db
    accounts ← modify_account cwit.owner (reward_witness witness) db.accounts
    printed ← safe_add content witness
    props ← print printed db.props
    ok (record db { accounts = accounts; reward_funds = funds; props = props }))
