-- ===== src/Chain/Delegations.antt =====
-- `delegate_vesting_shares_evaluator` (libraries/chain/bmchain_evaluator.cpp) and
-- `clear_expired_delegations` (libraries/chain/database.cpp).
pub mod Balance
pub mod Returns
use bmchain_core.Prelude.{
  ℕ, ◌+◌, Bool, true, false, not, ◌&&◌, ◌||◌, List, [], ◌∷◌, ◌++◌, leb, ◌==◌, if◌then◌else◌, ℤ, pos,
  ltb_ℤ, eqb_ℤ, find_by, replace_by, remove_by, Option, none, some, Result, ok, Error, or_throw,
  fc_assert, ◌>>=◌, ◌>>◌, ◌%◌, ◌^◌, ltb, err, suc, length, zero,
}
use bmchain_core.Protocol.Fc.{Fc, safe_sub, safe_mul}
use bmchain_core.Protocol.Config.{bmt_symbol, vests_symbol, cashout_window_seconds}
use bmchain_core.Protocol.Asset.{Asset, asset_add, asset_sub, asset_ge, assert_ge}
use bmchain_core.Protocol.Price.{Price, asset_mul}
use bmchain_core.Chain.Objects.{Account, Delegation, DelegationExpiration, Props, Db}
use bmchain_core.Chain.Accounts.{get_account, modify_account}

-- `delegate_vesting_shares_operation`
pub record Delegate : Type 0 where
  pub delegator : ℕ
  pub delegatee : ℕ
  pub vesting_shares : Asset

-- the key of the index `by_delegation`
abbrev pub is_delegation : Delegate → Delegation → Bool
is_delegation op d = (d.delegator == op.delegator) && (d.delegatee == op.delegatee)

-- `dynamic_global_property_object::get_vesting_share_price`
unfoldable pub get_vesting_share_price : Props → Price
get_vesting_share_price p =
    if eqb_ℤ p.total_vesting_fund_bmt.amount (pos 0) || eqb_ℤ p.total_vesting_shares.amount (pos 0)
    then record {
      base = record { amount = pos 1000; symbol = bmt_symbol };
      quote = record { amount = pos 1000000; symbol = vests_symbol };
    }
    else record { base = p.total_vesting_shares; quote = p.total_vesting_fund_bmt }

abbrev pub max : ℕ → ℕ → ℕ
max a b = if leb a b then b else a

-- when the shares of a decrease are returned
unfoldable pub returned_at : ℕ → Delegation → ℕ
returned_at now d = max ((now + cashout_window_seconds) % 2 ^ 32) d.min_delegation_time

module _ ⦃fc : Fc⦄ where
  -- the shares that the account has neither delegated nor promised to withdraw
  unfoldable pub available_shares : Account → Result Asset
  available_shares a = do
    kept ← asset_sub a.vesting_shares a.delegated_vesting_shares
    leaving ← safe_sub a.to_withdraw a.withdrawn
    asset_sub kept (record { amount = leaving; symbol = vests_symbol })

  unfoldable pub min_delegation : Db → Result Asset
  unfolding get_vesting_share_price
  min_delegation db = do
    ten_fees ← safe_mul db.account_creation_fee.amount (pos 10)
    asset_mul (record { amount = ten_fees; symbol = bmt_symbol }) (get_vesting_share_price db.props)

  unfoldable pub min_update : Db → Result Asset
  unfolding get_vesting_share_price
  min_update db = asset_mul db.account_creation_fee (get_vesting_share_price db.props)

  unfoldable pub add_delegated : Asset → Account → Result Account
  add_delegated delta a = do
    b ← asset_add a.delegated_vesting_shares delta
    ok (record a { delegated_vesting_shares = b })

  unfoldable pub add_received : Asset → Account → Result Account
  add_received delta a = do
    b ← asset_add a.received_vesting_shares delta
    ok (record a { received_vesting_shares = b })

  unfoldable pub sub_received : Asset → Account → Result Account
  sub_received delta a = do
    b ← asset_sub a.received_vesting_shares delta
    ok (record a { received_vesting_shares = b })

  -- no delegation: it is created
  unfoldable pub create_delegation : Delegate → Asset → Asset → Db → Result Db
  unfolding add_delegated add_received
  create_delegation op available least db = do
    _ ← assert_ge available op.vesting_shares
    _ ← assert_ge op.vesting_shares least
    lent ← modify_account op.delegator (add_delegated op.vesting_shares) db.accounts
    accounts ← modify_account op.delegatee (add_received op.vesting_shares) lent
    ok (record db {
      accounts = accounts;
      delegations =
          db.delegations
          ++ record {
            delegator = op.delegator;
            delegatee = op.delegatee;
            vesting_shares = op.vesting_shares;
            min_delegation_time = db.props.time;
          }
            ∷ [];
    })

  -- the delegation is increasing
  unfoldable pub increase_delegation : Delegate → Asset → Asset → Delegation → Db → Result Db
  unfolding add_delegated add_received
  increase_delegation op available update d db = do
    delta ← asset_sub op.vesting_shares d.vesting_shares
    _ ← assert_ge delta update
    _ ← assert_ge available delta
    lent ← modify_account op.delegator (add_delegated delta) db.accounts
    accounts ← modify_account op.delegatee (add_received delta) lent
    ok (record db {
      accounts = accounts;
      delegations =
          replace_by (is_delegation op) (record d { vesting_shares = op.vesting_shares })
            db.delegations;
    })

  -- the conditions of a decrease
  unfoldable pub decrease_guards : Delegate → Asset → Asset → Asset → Delegation → Result (Unit {0})
  decrease_guards op delta least update d =
      if ltb_ℤ (pos 0) op.vesting_shares.amount
      then (assert_ge delta update >> assert_ge op.vesting_shares least)
      else fc_assert (ltb_ℤ (pos 0) d.vesting_shares.amount)

  -- the delegation is decreasing: the difference is returned later
  unfoldable pub decrease_delegation : Delegate → Asset → Asset → Delegation → Db → Result Db
  unfolding decrease_guards returned_at sub_received
  decrease_delegation op least update d db = do
    delta ← asset_sub d.vesting_shares op.vesting_shares
    _ ← decrease_guards op delta least update d
    accounts ← modify_account op.delegatee (sub_received delta) db.accounts
    ok (record db {
      accounts = accounts;
      delegation_expirations =
          db.delegation_expirations
          ++ record {
            delegator = op.delegator;
            vesting_shares = delta;
            expiration = returned_at db.props.time d;
          }
            ∷ [];
      delegations =
          if ltb_ℤ (pos 0) op.vesting_shares.amount
          then replace_by (is_delegation op) (record d { vesting_shares = op.vesting_shares })
              db.delegations
          else remove_by (is_delegation op) db.delegations;
    })

  -- a delegation that is there is increased or decreased
  unfoldable pub change_delegation : Delegate → Asset → Asset → Asset → Delegation → Db → Result Db
  unfolding increase_delegation decrease_delegation
  change_delegation op available least update d db = do
    more ← asset_ge op.vesting_shares d.vesting_shares
    if more
        then increase_delegation op available update d db
        else decrease_delegation op least update d db

  -- `delegate_vesting_shares_evaluator::do_apply`
  unfoldable pub delegate_vesting_shares : Delegate → Db → Result Db
  unfolding available_shares min_delegation min_update create_delegation change_delegation
  delegate_vesting_shares op db = do
    delegator ← get_account op.delegator db.accounts
    _ ← get_account op.delegatee db.accounts
    available ← available_shares delegator
    least ← min_delegation db
    update ← min_update db
    elim (find_by (is_delegation op) db.delegations) [
      | none ↦ create_delegation op available least db
      | some d ↦ change_delegation op available least update d db
    ]

-- The index `by_expiration`: what expires first, the older one of two, and the others.
unfoldable pub take_earliest :
    List DelegationExpiration → Option (DelegationExpiration × List DelegationExpiration)
take_earliest [] = none
take_earliest (x ∷ t) = elim (take_earliest t) [
  | none ↦ some (x, [])
  | some (e, rest) ↦ if ltb e.expiration x.expiration then some (e, x ∷ rest) else some (x, t)
]

module _ ⦃fc : Fc⦄ where
  unfoldable pub sub_delegated : Asset → Account → Result Account
  sub_delegated delta a = do
    b ← asset_sub a.delegated_vesting_shares delta
    ok (record a { delegated_vesting_shares = b })

  -- the loop of `clear_expired_delegations`; each round removes an entry
  unfoldable pub return_expired : ℕ → Db → Result Db
  return_expired zero db = err Error.out_of_fuel
  return_expired (suc fuel) db = elim (take_earliest db.delegation_expirations) [
    | none ↦ ok db
    | some (e, rest) ↦
        if ltb e.expiration db.props.time
        then (do
          accounts ← modify_account e.delegator (sub_delegated e.vesting_shares) db.accounts
          return_expired fuel (record db { accounts = accounts; delegation_expirations = rest }))
        else ok db
  ]

  -- `database::clear_expired_delegations`
  unfoldable pub clear_expired_delegations : Db → Result Db
  clear_expired_delegations db = return_expired (suc (length db.delegation_expirations)) db
