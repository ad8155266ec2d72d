-- ===== src/Chain/Supply.antt =====
-- The supply that `database::validate_invariants` (libraries/chain/database.cpp) adds up from the
-- objects of the database, as an integer. Its assertions on the symbols of the objects are left out.
use bmchain_core.Prelude.{
  Bool, List, [], ◌∷◌, ◌++◌, ℤ, pos, ◌+ℤ◌, Result, ok, err, Error, find_by, none, some, sum_of,
  if◌then◌else◌, ◌==◌, Gives, ◌≡◌, Option-cases, inl, gives, sum_of-snoc, inr, throws, refl,
}
use bmchain_core.Protocol.Config.{bmt_symbol}
use bmchain_core.Protocol.Asset.{Asset}
use bmchain_core.Chain.Objects.{
  Escrow, SavingsWithdraw, LimitOrder, OrderStatus, open_order, completed, canceled, ContentOrder,
  RewardFund, Props, Db,
}
use bmchain_core.Chain.Accounts.Sums.{account_bmt}

abbrev pub asset_amount : Asset → ℤ
asset_amount a = a.amount

unfoldable pub escrow_bmt : Escrow → ℤ
escrow_bmt e = e.bmt_balance.amount +ℤ e.pending_fee.amount

unfoldable pub savings_withdraw_bmt : SavingsWithdraw → ℤ
savings_withdraw_bmt s = s.amount.amount

unfoldable pub order_bmt : LimitOrder → ℤ
order_bmt o = if o.sell_price.base.symbol == bmt_symbol then o.for_sale else pos 0

abbrev pub while_open : OrderStatus → ℤ → ℤ
while_open open_order a = a
while_open completed a = pos 0
while_open canceled a = pos 0

unfoldable pub content_order_bmt : ContentOrder → ℤ
content_order_bmt o = while_open o.status o.price.amount

unfoldable pub fund_bmt : RewardFund → ℤ
fund_bmt f = f.reward_balance.amount

unfoldable pub props_bmt : Props → ℤ
props_bmt p =
    p.total_vesting_fund_bmt.amount +ℤ p.total_reward_fund_bmt.amount
    +ℤ p.pending_rewarded_vesting_bmt.amount

-- `total_supply` of `validate_invariants`
unfoldable pub total_supply : Db → ℤ
total_supply db =
    sum_of account_bmt db.accounts
    +ℤ sum_of asset_amount db.convert_requests
    +ℤ sum_of order_bmt db.limit_orders
    +ℤ sum_of escrow_bmt db.escrows
    +ℤ sum_of savings_withdraw_bmt db.savings_withdraws
    +ℤ sum_of fund_bmt db.reward_funds
    +ℤ sum_of content_order_bmt db.content_orders
    +ℤ props_bmt db.props

-- `create` of chainbase: an object whose unique key is taken is refused.
unfoldable pub create {ℓ} : {A : Type ℓ} → (A → Bool) → A → List A → Result (List A)
create same a t = elim (find_by same t) [ none ↦ ok (t ++ a ∷ []) | some _ ↦ err Error.duplicate ]

-- A created object is added to the sums.
pub create-Gives :
    {A : Type 0} (m : A → ℤ) (same : A → Bool) (a : A) (t : List A)
    → Gives (λ t'. (t' ≡ t ++ a ∷ []) × (sum_of m t' ≡ sum_of m t +ℤ m a)) (create same a t)
unfolding create
create-Gives m same a t = elim (Option-cases (find_by same t)) [
  | inl free ↦ rw (free, create) (gives (refl, sum_of-snoc m a t))
  | inr (_, taken) ↦ rw (taken, create) throws
]
