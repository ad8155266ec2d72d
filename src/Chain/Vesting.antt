-- ===== src/Chain/Vesting.antt =====
-- Vesting shares: `create_vesting` and `clear_null_account_balance` (libraries/chain/database.cpp),
-- `claim_reward_balance_evaluator` (libraries/chain/bmchain_evaluator.cpp).
pub mod Books
pub mod Claims
pub mod Burning
use bmchain_core.Chain.Transfers.{adjust_supply}
use bmchain_core.Chain.Voting.{adjust_proxied_vote}
use bmchain_core.Protocol.Config.{null_account, bmt_symbol, max_proxy_recursion_depth}
use bmchain_core.Chain.Delegations.{get_vesting_share_price}
use bmchain_core.Chain.Accounts.{
  get_account, modify_account, adjust_reward_balance, adjust_balance, adjust_savings_balance,
}
use bmchain_core.Protocol.Price.{Price, asset_mul}
use bmchain_core.Protocol.Asset.{Asset, asset_add, asset_eq, asset_sub, assert_le, asset_neg}
use bmchain_core.Chain.Objects.{Account, Props, Db}
use bmchain_core.Protocol.Fc.{Fc}
use bmchain_core.Prelude.{
  ℕ, none, some, Result, Bool, if◌then◌else◌, ok, ◌>>=◌, pos, ltb_ℤ, or_throw, ◌*◌, ◌%◌, false, ◌^◌,
  ◌/◌, Error,
}

-- `claim_reward_balance_operation`
pub record ClaimReward : Type 0 where
  pub account : ℕ
  pub reward_bmt : Asset
  pub reward_vests : Asset

module _ ⦃fc : Fc⦄ where
  -- `dynamic_global_property_object::get_reward_vesting_share_price`
  unfoldable pub get_reward_vesting_share_price : Props → Result Price
  get_reward_vesting_share_price p = do
    shares ← asset_add p.total_vesting_shares p.pending_rewarded_vesting_shares
    fund ← asset_add p.total_vesting_fund_bmt p.pending_rewarded_vesting_bmt
    ok (record { base = shares; quote = fund })

  -- The two changes of `create_vesting` to the account and to the global properties: of the rewards,
  -- or of the vested shares.
  unfoldable pub add_reward_vesting : Asset → Asset → Account → Result Account
  add_reward_vesting shares bmt a = do
    balance ← asset_add a.reward_vesting_balance shares
    worth ← asset_add a.reward_vesting_bmt bmt
    ok (record a { reward_vesting_balance = balance; reward_vesting_bmt = worth })

  unfoldable pub add_pending : Asset → Asset → Props → Result Props
  add_pending shares bmt p = do
    pending ← asset_add p.pending_rewarded_vesting_shares shares
    worth ← asset_add p.pending_rewarded_vesting_bmt bmt
    ok (record p {
      pending_rewarded_vesting_shares = pending;
      pending_rewarded_vesting_bmt = worth;
    })

  unfoldable pub add_vested : Asset → Account → Result Account
  add_vested shares a = do
    vested ← asset_add a.vesting_shares shares
    ok (record a { vesting_shares = vested })

  unfoldable pub add_fund : Asset → Asset → Props → Result Props
  add_fund shares bmt p = do
    fund ← asset_add p.total_vesting_fund_bmt bmt
    vested ← asset_add p.total_vesting_shares shares
    ok (record p { total_vesting_fund_bmt = fund; total_vesting_shares = vested })

  -- `database::create_vesting`
  unfoldable pub create_reward_vesting : ℕ → Asset → Db → Result (Asset × Db)
  create_reward_vesting n bmt db = do
    rate ← get_reward_vesting_share_price db.props
    shares ← asset_mul bmt rate
    accounts ← modify_account n (add_reward_vesting shares bmt) db.accounts
    props ← add_pending shares bmt db.props
    ok (shares, record db { accounts = accounts; props = props })

  unfoldable pub create_vested : ℕ → Asset → Db → Result (Asset × Db)
  create_vested n bmt db = do
    shares ← asset_mul bmt (get_vesting_share_price db.props)
    accounts ← modify_account n (add_vested shares) db.accounts
    props ← add_fund shares bmt db.props
    account ← get_account n accounts
    voted ←
        adjust_proxied_vote max_proxy_recursion_depth account shares.amount
          (record db { accounts = accounts; props = props })
    ok (shares, voted)

  unfoldable pub create_vesting : ℕ → Asset → Bool → Db → Result (Asset × Db)
  create_vesting n bmt to_reward_balance db =
      if to_reward_balance then create_reward_vesting n bmt db else create_vested n bmt db

  -- the BMT that a claim of vesting shares moves along
  unfoldable pub reward_bmt_of : Asset → Account → Result Asset
  reward_bmt_of shares a =
      if asset_eq shares a.reward_vesting_balance then ok a.reward_vesting_bmt else (do
        part ←
            or_throw
              (fc.to_uint64 (
                fc.uint128_of shares.amount
                * fc.uint128_of a.reward_vesting_bmt.amount
                % 2 ^ 128
                / fc.uint128_of a.reward_vesting_balance.amount))
              Error.overflow
        ok (record { amount = fc.int64_of part; symbol = bmt_symbol }))

  unfoldable pub claim_vesting : Asset → Asset → Account → Result Account
  claim_vesting shares bmt a = do
    vested ← asset_add a.vesting_shares shares
    balance ← asset_sub a.reward_vesting_balance shares
    worth ← asset_sub a.reward_vesting_bmt bmt
    ok (record a {
      vesting_shares = vested;
      reward_vesting_balance = balance;
      reward_vesting_bmt = worth;
    })

  unfoldable pub claim_pending : Asset → Asset → Props → Result Props
  claim_pending shares bmt p = do
    vested ← asset_add p.total_vesting_shares shares
    fund ← asset_add p.total_vesting_fund_bmt bmt
    pending ← asset_sub p.pending_rewarded_vesting_shares shares
    worth ← asset_sub p.pending_rewarded_vesting_bmt bmt
    ok (record p {
      total_vesting_shares = vested;
      total_vesting_fund_bmt = fund;
      pending_rewarded_vesting_shares = pending;
      pending_rewarded_vesting_bmt = worth;
    })

  -- `claim_reward_balance_evaluator::do_apply`
  unfoldable pub claim_reward_balance : ClaimReward → Db → Result Db
  claim_reward_balance op db = do
    acnt ← get_account op.account db.accounts
    _ ← assert_le op.reward_bmt acnt.reward_bmt_balance
    _ ← assert_le op.reward_vests acnt.reward_vesting_balance
    bmt ← reward_bmt_of op.reward_vests acnt
    debit ← asset_neg op.reward_bmt
    debited ← adjust_reward_balance op.account debit db.accounts
    credited ← adjust_balance op.account op.reward_bmt debited
    accounts ← modify_account op.account (claim_vesting op.reward_vests bmt) credited
    props ← claim_pending op.reward_vests bmt db.props
    account ← get_account op.account accounts
    adjust_proxied_vote max_proxy_recursion_depth account op.reward_vests.amount
        (record db { accounts = accounts; props = props })

-- `to.vesting_shares.amount = 0`, and the two of the rewards
unfoldable pub drop_vested : Account → Result Account
drop_vested a = ok (record a { vesting_shares = record a.vesting_shares { amount = pos 0 } })

unfoldable pub drop_reward_vesting : Account → Result Account
drop_reward_vesting a = ok (record a {
  reward_vesting_bmt = record a.reward_vesting_bmt { amount = pos 0 };
  reward_vesting_balance = record a.reward_vesting_balance { amount = pos 0 };
})

-- the total so far, and the database
abbrev pub Burning : Type 0
Burning = Asset × Db

module _ ⦃fc : Fc⦄ where
  -- The five conditions of `clear_null_account_balance`, on what the account of null holds.
  unfoldable pub burn_balance : Burning → Result Burning
  burn_balance (total, db) = do
    a ← get_account null_account db.accounts
    (if ltb_ℤ (pos 0) a.balance.amount
        then (do
          total' ← asset_add total a.balance
          debit ← asset_neg a.balance
          accounts ← adjust_balance null_account debit db.accounts
          ok (total', record db { accounts = accounts }))
        else ok (total, db))

  unfoldable pub burn_savings : Burning → Result Burning
  burn_savings (total, db) = do
    a ← get_account null_account db.accounts
    (if ltb_ℤ (pos 0) a.savings_balance.amount
        then (do
          total' ← asset_add total a.savings_balance
          debit ← asset_neg a.savings_balance
          accounts ← adjust_savings_balance null_account debit db.accounts
          ok (total', record db { accounts = accounts }))
        else ok (total, db))

  unfoldable pub burn_vested : Burning → Result Burning
  burn_vested (total, db) = do
    a ← get_account null_account db.accounts
    (if ltb_ℤ (pos 0) a.vesting_shares.amount
        then (do
          converted ← asset_mul a.vesting_shares (get_vesting_share_price db.props)
          vested ← asset_sub db.props.total_vesting_shares a.vesting_shares
          fund ← asset_sub db.props.total_vesting_fund_bmt converted
          accounts ← modify_account null_account drop_vested db.accounts
          total' ← asset_add total converted
          ok (
            total',
            record db {
              accounts = accounts;
              props = record db.props {
                total_vesting_shares = vested;
                total_vesting_fund_bmt = fund;
              };
            },
          ))
        else ok (total, db))

  unfoldable pub burn_reward : Burning → Result Burning
  burn_reward (total, db) = do
    a ← get_account null_account db.accounts
    (if ltb_ℤ (pos 0) a.reward_bmt_balance.amount
        then (do
          total' ← asset_add total a.reward_bmt_balance
          debit ← asset_neg a.reward_bmt_balance
          accounts ← adjust_reward_balance null_account debit db.accounts
          ok (total', record db { accounts = accounts }))
        else ok (total, db))

  unfoldable pub burn_reward_vesting : Burning → Result Burning
  burn_reward_vesting (total, db) = do
    a ← get_account null_account db.accounts
    (if ltb_ℤ (pos 0) a.reward_vesting_balance.amount
        then (do
          total' ← asset_add total a.reward_vesting_bmt
          pending ← asset_sub db.props.pending_rewarded_vesting_shares a.reward_vesting_balance
          worth ← asset_sub db.props.pending_rewarded_vesting_bmt a.reward_vesting_bmt
          accounts ← modify_account null_account drop_reward_vesting db.accounts
          ok (
            total',
            record db {
              accounts = accounts;
              props = record db.props {
                pending_rewarded_vesting_shares = pending;
                pending_rewarded_vesting_bmt = worth;
              };
            },
          ))
        else ok (total, db))

  -- `database::clear_null_account_balance`
  unfoldable pub burn_supply : Burning → Result Db
  burn_supply (total, db) =
      if ltb_ℤ (pos 0) total.amount
      then (do
        minus ← asset_neg total
        props ← adjust_supply minus false db.props
        ok (record db { props = props }))
      else ok db

  unfoldable pub clear_null_account_balance : Db → Result Db
  clear_null_account_balance db = do
    balance ← burn_balance (record { amount = pos 0; symbol = bmt_symbol }, db)
    savings ← burn_savings balance
    vested ← burn_vested savings
    reward ← burn_reward vested
    all ← burn_reward_vesting reward
    burn_supply all
