-- ===== src/Chain/Accounts.antt =====
-- The account index: `database::get_account`, `modify` of an account, and the balances
-- (`adjust_balance`, `adjust_savings_balance`, `adjust_reward_balance`, `get_balance`,
-- `get_savings_balance`, libraries/chain/database.cpp).
pub mod Sums
pub mod Lookup
pub mod Covered
use bmchain_core.Prelude.{
  ℕ, Bool, List, Result, ok, fc_assert, or_throw, ◌>>=◌, ◌>>◌, Error, ◌==◌, find_by, replace_by,
}
use bmchain_core.Protocol.Fc.{Fc}
use bmchain_core.Protocol.Config.{bmt_symbol}
use bmchain_core.Protocol.Asset.{Asset, asset_add}
use bmchain_core.Chain.Objects.{Account}

abbrev pub Accounts : Type 0
Accounts = List Account

abbrev pub named : ℕ → Account → Bool
named n a = a.name == n

-- `database::get_account`
unfoldable pub get_account : ℕ → Accounts → Result Account
get_account n t = or_throw (find_by (named n) t) Error.not_found

-- `modify( get_account( n ), f )`
unfoldable pub modify_account : ℕ → (Account → Result Account) → Accounts → Result Accounts
unfolding get_account
modify_account n f t = do a ← get_account n t; b ← f a; ok (replace_by (named n) b t)

-- `database::get_balance`, `database::get_savings_balance`
unfoldable pub get_balance : Account → ℕ → Result Asset
get_balance a symbol = do fc_assert (symbol == bmt_symbol); ok a.balance

unfoldable pub get_savings_balance : Account → ℕ → Result Asset
get_savings_balance a symbol = do fc_assert (symbol == bmt_symbol); ok a.savings_balance

module _ ⦃fc : Fc⦄ where
  unfoldable pub add_balance : Asset → Account → Result Account
  add_balance delta a = do
    fc_assert (delta.symbol == bmt_symbol)
    b ← asset_add a.balance delta
    ok (record a { balance = b })

  unfoldable pub add_savings_balance : Asset → Account → Result Account
  add_savings_balance delta a = do
    fc_assert (delta.symbol == bmt_symbol)
    b ← asset_add a.savings_balance delta
    ok (record a { savings_balance = b })

  unfoldable pub add_reward_balance : Asset → Account → Result Account
  add_reward_balance delta a = do
    fc_assert (delta.symbol == bmt_symbol)
    b ← asset_add a.reward_bmt_balance delta
    ok (record a { reward_bmt_balance = b })

  -- `database::adjust_balance`
  unfoldable pub adjust_balance : ℕ → Asset → Accounts → Result Accounts
  unfolding modify_account add_balance
  adjust_balance n delta = modify_account n (add_balance delta)

  -- `database::adjust_savings_balance`
  unfoldable pub adjust_savings_balance : ℕ → Asset → Accounts → Result Accounts
  unfolding modify_account add_savings_balance
  adjust_savings_balance n delta = modify_account n (add_savings_balance delta)

  -- `database::adjust_reward_balance`
  unfoldable pub adjust_reward_balance : ℕ → Asset → Accounts → Result Accounts
  unfolding modify_account add_reward_balance
  adjust_reward_balance n delta = modify_account n (add_reward_balance delta)
