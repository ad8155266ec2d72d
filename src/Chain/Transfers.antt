-- ===== src/Chain/Transfers.antt =====
-- `transfer_evaluator`, `transfer_to_savings_evaluator`, `cancel_transfer_from_savings_evaluator`
-- (libraries/chain/bmchain_evaluator.cpp), and `pay_fee`, `adjust_supply`
-- (libraries/chain/database.cpp).
pub mod Conservation
pub mod Balances
use bmchain_core.Prelude.{
  ℕ, ◌+◌, ◌%◌, ◌*◌, Bool, true, false, not, ◌&&◌, List, ltb, leb, ◌==◌, if◌then◌else◌, ℤ, pos,
  ltb_ℤ, leb_ℤ, eqb_ℤ, ◌*ℤ◌, find_by, remove_by, Result, ok, fc_assert, or_throw, ◌>>=◌, ◌>>◌,
  Error,
}
use bmchain_core.Protocol.Fc.{Fc, safe_mul}
use bmchain_core.Protocol.Config.{bmt_symbol, blocks_per_day}
use bmchain_core.Protocol.Asset.{Asset, asset_add, asset_neg, assert_ge}
use bmchain_core.Chain.Objects.{Account, SavingsWithdraw, Props, Db}
use bmchain_core.Chain.Accounts.{
  get_account, get_balance, modify_account, adjust_balance, adjust_savings_balance,
}

pub record Transfer : Type 0 where
  pub sender : ℕ
  pub to : ℕ
  pub amount : Asset

-- the key of the index `by_from_rid`
abbrev pub has_request : ℕ → ℕ → SavingsWithdraw → Bool
has_request sender id s = (s.sender == sender) && (s.request_id == id)

-- the proof of activity that a challenged sender gives by its transfer
unfoldable pub prove_active : ℕ → Account → Result Account
prove_active now a = ok (
    if a.active_challenged
    then record a { active_challenged = false; last_active_proved = now }
    else a)

-- one request fewer, in a `uint8_t`
unfoldable pub drop_request : Account → Result Account
drop_request a =
    ok (record a { savings_withdraw_requests = (a.savings_withdraw_requests + 255) % 256 })

module _ ⦃fc : Fc⦄ where
  -- `transfer_evaluator::do_apply`
  unfoldable pub transfer : Transfer → Db → Result Db
  unfolding prove_active
  transfer o db = do
    _ ← get_account o.sender db.accounts
    _ ← get_account o.to db.accounts
    proved ← modify_account o.sender (prove_active db.props.time) db.accounts
    from_account ← get_account o.sender proved
    funds ← get_balance from_account o.amount.symbol
    _ ← assert_ge funds o.amount
    debit ← asset_neg o.amount
    debited ← adjust_balance o.sender debit proved
    accounts ← adjust_balance o.to o.amount debited
    ok (record db { accounts = accounts })

  -- `transfer_to_savings_evaluator::do_apply`
  unfoldable pub transfer_to_savings : Transfer → Db → Result Db
  transfer_to_savings o db = do
    from_account ← get_account o.sender db.accounts
    _ ← get_account o.to db.accounts
    funds ← get_balance from_account o.amount.symbol
    _ ← assert_ge funds o.amount
    debit ← asset_neg o.amount
    debited ← adjust_balance o.sender debit db.accounts
    accounts ← adjust_savings_balance o.to o.amount debited
    ok (record db { accounts = accounts })

  -- `cancel_transfer_from_savings_evaluator::do_apply`
  unfoldable pub cancel_transfer_from_savings : ℕ → ℕ → Db → Result Db
  unfolding drop_request
  cancel_transfer_from_savings sender id db = do
    swo ← or_throw (find_by (has_request sender id) db.savings_withdraws) Error.not_found
    refunded ← adjust_savings_balance swo.sender swo.amount db.accounts
    accounts ← modify_account sender drop_request refunded
    ok (record db {
      accounts = accounts;
      savings_withdraws = remove_by (has_request sender id) db.savings_withdraws;
    })

  -- what `adjust_supply` prints for the vesting fund on top
  unfoldable pub new_vesting : Asset → Bool → Result Asset
  new_vesting delta adjust_vesting =
      if adjust_vesting && ltb_ℤ (pos 0) delta.amount
      then (do
        amount ← safe_mul delta.amount (pos 9)
        ok (record { amount = amount; symbol = bmt_symbol }))
      else ok (record { amount = pos 0; symbol = bmt_symbol })

  -- `database::adjust_supply`
  unfoldable pub adjust_supply : Asset → Bool → Props → Result Props
  unfolding new_vesting
  adjust_supply delta adjust_vesting p = do
    fc_assert (delta.symbol == bmt_symbol)
    vesting ←
        new_vesting delta (adjust_vesting && not (ltb p.head_block_number (blocks_per_day * 7)))
    all ← asset_add delta vesting
    current ← asset_add p.current_supply all
    virtual ← asset_add p.virtual_supply all
    fund ← asset_add p.total_vesting_fund_bmt vesting
    ok (record p {
      current_supply = current;
      virtual_supply = virtual;
      total_vesting_fund_bmt = fund;
    })

  -- `database::pay_fee`
  unfoldable pub pay_fee : ℕ → Asset → Db → Result Db
  unfolding adjust_supply
  pay_fee n fee db =
      fc_assert (leb_ℤ (pos 0) fee.amount)
      >> (if eqb_ℤ fee.amount (pos 0) then ok db else (do
        account ← get_account n db.accounts
        _ ← assert_ge account.balance fee
        debit ← asset_neg fee
        accounts ← adjust_balance n debit db.accounts
        props ← adjust_supply debit false db.props
        ok (record db { accounts = accounts; props = props })))
