-- ===== src/Chain/Market.antt =====
-- The internal market: `limit_order_create_evaluator`, `limit_order_create2_evaluator`,
-- `limit_order_cancel_evaluator` (libraries/chain/bmchain_evaluator.cpp), and `apply_order`,
-- `match`, `fill_order`, `cancel_order`, `clear_expired_orders` (libraries/chain/database.cpp).
pub mod Conservation
pub mod Cancellation
pub mod FillOrKill
pub mod Matching
pub mod Expiration
use bmchain_core.Prelude.{
  ℕ, zero, suc, ◌+◌, ◌%◌, Bool, true, false, not, ◌&&◌, ◌||◌, List, [], ◌∷◌, length, ltb, leb, ◌==◌,
  if◌then◌else◌, ℤ, pos, eqb_ℤ, find_by, replace_by, remove_by, Option, none, some, Result, ok, err,
  fc_assert, or_throw, ◌>>=◌, ◌>>◌, Error,
}
use bmchain_core.Protocol.Fc.{Fc, safe_sub}
use bmchain_core.Protocol.Config.{max_share_supply}
use bmchain_core.Protocol.Asset.{Asset, asset_neg, asset_eq, asset_le, assert_ge}
use bmchain_core.Protocol.Price.{Price, invert, asset_mul, price_lt, price_le, price_of}
use bmchain_core.Chain.Objects.{LimitOrder, Db}
use bmchain_core.Chain.Accounts.{get_account, get_balance, adjust_balance}
use bmchain_core.Chain.Supply.{create}

pub record LimitOrderCreate : Type 0 where
  pub owner : ℕ
  pub orderid : ℕ
  pub amount_to_sell : Asset
  pub min_to_receive : Asset
  pub fill_or_kill : Bool
  pub expiration : ℕ

pub record LimitOrderCreate2 : Type 0 where
  pub owner : ℕ
  pub orderid : ℕ
  pub amount_to_sell : Asset
  pub exchange_rate : Price
  pub fill_or_kill : Bool
  pub expiration : ℕ

-- the key of the index `by_account`, and the id
abbrev pub has_orderid : ℕ → ℕ → LimitOrder → Bool
has_orderid seller orderid o = (o.seller == seller) && (o.orderid == orderid)

abbrev pub is_order : ℕ → LimitOrder → Bool
is_order id o = o.id == id

-- `limit_order_object::amount_for_sale`
abbrev pub amount_for_sale : LimitOrder → Asset
amount_for_sale o = record { amount = o.for_sale; symbol = o.sell_price.base.symbol }

-- `database::get_limit_order`: the order id is masked to 16 bits
unfoldable pub get_limit_order : ℕ → ℕ → List LimitOrder → Result LimitOrder
get_limit_order owner orderid t =
    or_throw (find_by (has_orderid owner (orderid % 0x10000)) t) Error.not_found

unfoldable pub get_order : ℕ → List LimitOrder → Result LimitOrder
get_order id t = or_throw (find_by (is_order id) t) Error.not_found

-- the first order of the index `by_expiration`
unfoldable pub earliest : List LimitOrder → Option LimitOrder
earliest [] = none
earliest (o ∷ t) = elim (earliest t) [
  | none ↦ some o
  | some p ↦ if leb o.expiration p.expiration then some o else some p
]

-- the order that the two creations make
unfoldable pub new_order : ℕ → ℕ → Asset → Price → ℕ → Db → LimitOrder
new_order owner orderid amount price expiration db = record {
  id = db.next_limit_order;
  created = db.props.time;
  expiration = expiration;
  seller = owner;
  orderid = orderid;
  for_sale = amount.amount;
  sell_price = price;
}

module _ ⦃fc : Fc⦄ where
  -- Insertion into the order of the index `by_price`: the highest price first, then the lowest id.
  unfoldable pub insert_by_price : LimitOrder → List LimitOrder → List LimitOrder
  insert_by_price o [] = o ∷ []
  insert_by_price o (p ∷ t) =
      if price_lt p.sell_price o.sell_price
        || (not (price_lt o.sell_price p.sell_price) && ltb o.id p.id)
      then o ∷ p ∷ t
      else p ∷ insert_by_price o t

  unfoldable pub by_price : List LimitOrder → List LimitOrder
  unfolding insert_by_price
  by_price [] = []
  by_price (o ∷ t) = insert_by_price o (by_price t)

  -- the orders from `lower_bound( high )` up to `upper_bound( low )`
  unfoldable pub price_range : Price → Price → List LimitOrder → List LimitOrder
  price_range high low [] = []
  price_range high low (o ∷ t) =
      if price_le o.sell_price high && price_le low o.sell_price
      then o ∷ price_range high low t
      else price_range high low t

  -- `price::max`
  unfoldable pub price_max : ℕ → ℕ → Result Price
  price_max base quote =
      price_of (record { amount = pos max_share_supply; symbol = base })
        (record { amount = pos 1; symbol = quote })

  -- `database::cancel_order`
  unfoldable pub cancel_order : LimitOrder → Db → Result Db
  cancel_order o db = do
    accounts ← adjust_balance o.seller (amount_for_sale o) db.accounts
    ok (record db { accounts = accounts; limit_orders = remove_by (is_order o.id) db.limit_orders })

  -- an order that is filled in part: it stays, or is refunded where the rest buys nothing
  unfoldable pub fill_part : LimitOrder → Asset → Db → Result (Db × Bool)
  unfolding cancel_order
  fill_part o pays db = do
    rest ← safe_sub o.for_sale pays.amount
    let o' = record o { for_sale = rest }
    let db' = record db { limit_orders = replace_by (is_order o.id) o' db.limit_orders }
    to_receive ← asset_mul (amount_for_sale o') o'.sell_price
    if eqb_ℤ to_receive.amount (pos 0)
        then (do refunded ← cancel_order o' db'; ok (refunded, true))
        else ok (db', false)

  -- `database::fill_order`: whether the order is gone
  unfoldable pub fill_order : LimitOrder → Asset → Asset → Db → Result (Db × Bool)
  unfolding fill_part
  fill_order o pays receives db = do
    _ ← fc_assert (o.sell_price.base.symbol == pays.symbol)
    _ ← fc_assert (not (pays.symbol == receives.symbol))
    accounts ← adjust_balance o.seller receives db.accounts
    if asset_eq pays (amount_for_sale o)
        then ok (
          record db {
            accounts = accounts;
            limit_orders = remove_by (is_order o.id) db.limit_orders;
          },
          true,
        )
        else fill_part o pays (record db { accounts = accounts })

  -- the amounts of a match: what the new order receives, and what the old order receives
  unfoldable pub trade : LimitOrder → LimitOrder → Price → Result (Asset × Asset)
  trade new old price = do
    wanted ← asset_mul (amount_for_sale old) price
    new_is_smaller ← asset_le (amount_for_sale new) wanted
    if new_is_smaller
        then (do bought ← asset_mul (amount_for_sale new) price; ok (bought, amount_for_sale new))
        else ok (amount_for_sale old, wanted)

  -- `database::match`: whether the new order is gone, and whether the old one is
  unfoldable pub match_orders : LimitOrder → LimitOrder → Price → Db → Result (Db × Bool × Bool)
  unfolding trade fill_order
  match_orders new old price db = do
    (new_receives, old_receives) ← trade new old price
    (db1, new_filled) ← fill_order new old_receives new_receives db
    (db2, old_filled) ← fill_order old new_receives old_receives db1
    ok (db2, new_filled, old_filled)

  -- the loop of `apply_order` over the orders of the range, each read again at its turn
  unfoldable pub match_all : ℕ → List LimitOrder → Db → Result Db
  unfolding match_orders get_order
  match_all id [] db = ok db
  match_all id (o ∷ rest) db = do
    new ← get_order id db.limit_orders
    old ← get_order o.id db.limit_orders
    (db', finished, _) ← match_orders new old old.sell_price db
    elim finished [ true ↦ ok db' | false ↦ match_all id rest db' ]

  -- `database::apply_order`: the new database, and whether the order is gone from it
  unfoldable pub apply_order : LimitOrder → Db → Result (Db × Bool)
  unfolding match_all price_range by_price price_max
  apply_order o db = do
    let max_price = invert o.sell_price
    top ← price_max max_price.base.symbol max_price.quote.symbol
    db' ← match_all o.id (price_range top max_price (by_price db.limit_orders)) db
    ok (db', elim (find_by (is_order o.id) db'.limit_orders) [ none ↦ true | some _ ↦ false ])

  -- The common part of the two creations. `asked` is the price of the order, which may throw.
  unfoldable pub place_order : ℕ → ℕ → Asset → Result Price → Bool → ℕ → Db → Result Db
  unfolding apply_order create new_order
  place_order owner orderid amount asked fill_or_kill expiration db = do
    account ← get_account owner db.accounts
    funds ← get_balance account amount.symbol
    _ ← assert_ge funds amount
    debit ← asset_neg amount
    accounts ← adjust_balance owner debit db.accounts
    price ← asked
    let order = new_order owner orderid amount price expiration db
    orders ← create (has_orderid owner orderid) order db.limit_orders
    (db', filled) ← apply_order order (record db {
      accounts = accounts;
      limit_orders = orders;
      next_limit_order = db.next_limit_order + 1;
    })
    _ ← fc_assert (not fill_or_kill || filled)
    ok db'

  -- `limit_order_create_evaluator::do_apply`
  unfoldable pub limit_order_create : LimitOrderCreate → Db → Result Db
  unfolding place_order
  limit_order_create o db = do
    _ ← fc_assert (ltb db.props.time o.expiration)
    place_order o.owner o.orderid o.amount_to_sell (price_of o.amount_to_sell o.min_to_receive)
        o.fill_or_kill o.expiration db

  -- `limit_order_create2_evaluator::do_apply`
  unfoldable pub limit_order_create2 : LimitOrderCreate2 → Db → Result Db
  unfolding place_order
  limit_order_create2 o db = do
    _ ← fc_assert (ltb db.props.time o.expiration)
    place_order o.owner o.orderid o.amount_to_sell (ok o.exchange_rate) o.fill_or_kill o.expiration
        db

  -- `limit_order_cancel_evaluator::do_apply`, for an operation's `owner` and `orderid`
  unfoldable pub limit_order_cancel : ℕ → ℕ → Db → Result Db
  unfolding get_limit_order cancel_order
  limit_order_cancel owner orderid db = do
    o ← get_limit_order owner orderid db.limit_orders
    cancel_order o db

  -- the loop of `clear_expired_orders`, on fuel
  unfoldable pub clear_expired : ℕ → Db → Result Db
  unfolding earliest cancel_order
  clear_expired zero db = err Error.out_of_fuel
  clear_expired (suc fuel) db = elim (earliest db.limit_orders) [
    | none ↦ ok db
    | some o ↦ elim (ltb o.expiration db.props.time) [
      | false ↦ ok db
      | true ↦ cancel_order o db >>= clear_expired fuel
    ]
  ]

  -- `database::clear_expired_orders`: a round for each order, and one that finds none
  unfoldable pub clear_expired_orders : Db → Result Db
  unfolding clear_expired
  clear_expired_orders db = clear_expired (suc (length db.limit_orders)) db
