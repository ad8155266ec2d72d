-- ===== src/Chain/Market/Conservation.antt =====
-- Orders hold what their owners were charged: the supply under the market's operations, and the ids
-- by which the orders are kept apart.
use mathlib.Core.Path.{subst}
use bmchain_core.Prelude.{
  ℕ, suc, ◌+◌, ◌≤◌, ◌%◌, ◌≡◌, refl, inl, inr, Bool, not, ◌||◌, ◌==◌, List, [], ◌∷◌, ◌++◌, int_laws,
  find_by, remove_by, sum_of-remove_by_sub, some, Result, Error, Gives, gives, Gives-ok, bind-Gives,
  step-Gives, assert-Gives, throw-Gives, arith, Bool-cases, fc_assert, ltb, Gives-imp, ok,
}
use bmchain_core.Protocol.Fc.{Fc}
use bmchain_core.Protocol.Config.{bmt_symbol}
use bmchain_core.Protocol.Asset.{Asset, asset_neg, asset_neg-Gives, assert_ge}
use bmchain_core.Protocol.Price.{Price, price_of-base}
use bmchain_core.Chain.Objects.{LimitOrder, Db, Account}
use bmchain_core.Chain.Accounts.{get_account, get_balance, adjust_balance}
use bmchain_core.Chain.Accounts.Sums.{adjust_balance-Gives}
use bmchain_core.Chain.Supply.{total_supply, order_bmt, create, create-Gives}
use bmchain_core.Chain.Market.{
  has_orderid, is_order, amount_for_sale, get_limit_order, new_order, cancel_order, place_order,
  limit_order_cancel, price_of, limit_order_create, LimitOrderCreate, limit_order_create2,
  LimitOrderCreate2,
}
use bmchain_core.Chain.Market.Matching.{adjust_balance-symbol, apply_order-unmatched}

-- The ids rise along the index, from `low`, and stay below `next`.
abbrev pub IdsRise : ℕ → List LimitOrder → ℕ → Type 0
IdsRise low [] next = low ≤ next
IdsRise low (o ∷ t) next = (low ≤ o.id) × IdsRise (suc o.id) t next

abbrev pub OrderIds : Db → Type 0
OrderIds db = IdsRise 0 db.limit_orders db.next_limit_order

-- An order that any test finds is found by its id.
pub find_by-id :
    (p : LimitOrder → Bool) (low next : ℕ) (t : List LimitOrder) (o : LimitOrder)
    → IdsRise low t next
    → find_by p t ≡ some o
    → (low ≤ o.id) × (find_by (is_order o.id) t ≡ some o)
unfolding find_by
find_by-id p low next [] o ids h = cc
find_by-id p low next (x ∷ t) o ids h = elim (Bool-cases (p x)) [
  | inl hit ↦
      let same : x ≡ o = ground arith in
      (subst (λ y. low ≤ y.id) same ids.0, rw (← same) (ground arith))
  | inr miss ↦
      let later = find_by-id p (suc x.id) next t o ids.1 (rw miss at h) in
      (omega (arith, ids.0, later.0), ground (arith, later.0, later.1))
]

IdsRise-mono :
    (low low' next : ℕ) (t : List LimitOrder)
    → low' ≤ low
    → IdsRise low t next
    → IdsRise low' t next
IdsRise-mono low low' next [] h ids = omega arith
IdsRise-mono low low' next (o ∷ t) h ids = (omega (arith, ids.0), ids.1)

pub IdsRise-remove_by :
    (p : LimitOrder → Bool) (low next : ℕ) (t : List LimitOrder)
    → IdsRise low t next
    → IdsRise low (remove_by p t) next
unfolding remove_by
IdsRise-remove_by p low next [] ids = ids
IdsRise-remove_by p low next (o ∷ t) ids = elim (Bool-cases (p o)) [
  | inl hit ↦ rw hit (IdsRise-mono (suc o.id) low next t (omega (arith, ids.0)) ids.1)
  | inr miss ↦ rw miss (ids.0, IdsRise-remove_by p (suc o.id) next t ids.1)
]

IdsRise-snoc :
    (low next : ℕ) (t : List LimitOrder) (o : LimitOrder)
    → o.id ≡ next
    → IdsRise low t next
    → IdsRise low (t ++ o ∷ []) (next + 1)
IdsRise-snoc low next [] o e ids = (omega arith, omega arith)
IdsRise-snoc low next (x ∷ t) o e ids = (ids.0, IdsRise-snoc (suc x.id) next t o e ids.1)

bmt_order : (o : LimitOrder) → o.sell_price.base.symbol ≡ bmt_symbol → order_bmt o ≡ o.for_sale
unfolding order_bmt
bmt_order o h = ground arith

get_balance-symbol :
    (a : Account) (symbol : ℕ) → Gives (λ _. symbol ≡ bmt_symbol) (get_balance a symbol)
unfolding get_balance
get_balance-symbol a symbol = assert-Gives (symbol == bmt_symbol) λ same. gives (ground arith)

module _ ⦃fc : Fc⦄ where
  -- Cancelling an order gives back what it holds.
  pub cancel_order-Gives :
      (o : LimitOrder) (db : Db)
      → OrderIds db
      → find_by (is_order o.id) db.limit_orders ≡ some o
      → Gives (λ db'. (total_supply db' ≡ total_supply db) × OrderIds db') (cancel_order o db)
  unfolding cancel_order total_supply
  cancel_order-Gives o db ids found =
      step-Gives (adjust_balance o.seller (amount_for_sale o) db.accounts) λ accounts e.
        let paid = Gives-ok (adjust_balance-Gives o.seller (amount_for_sale o) db.accounts) e in
        let bmt = Gives-ok (adjust_balance-symbol o.seller (amount_for_sale o) db.accounts) e in
        gives (
          rw
              (
                paid,
                sum_of-remove_by_sub order_bmt (is_order o.id) o db.limit_orders found,
                bmt_order o bmt,
              )
              (omega int_laws),
          IdsRise-remove_by (is_order o.id) 0 db.next_limit_order db.limit_orders ids,
        )

  -- Where the ids of the orders rise, a cancellation by the owner keeps the supply and the rise of the
  -- ids, if it returns.
  pub limit_order_cancel-Gives :
      (owner orderid : ℕ) (db : Db)
      → OrderIds db
      → Gives
          (λ db'. (total_supply db' ≡ total_supply db) × OrderIds db')
          (limit_order_cancel owner orderid db)
  unfolding limit_order_cancel get_limit_order
  limit_order_cancel-Gives owner orderid db ids =
      bind-Gives
        (throw-Gives (find_by (has_orderid owner (orderid % 0x10000)) db.limit_orders)
          Error.not_found λ o e. e)
        λ o found.
          cancel_order-Gives o db ids
            (find_by-id (has_orderid owner (orderid % 0x10000)) 0 db.next_limit_order
              db.limit_orders o ids found).1

  -- What a creation does: the amount goes from the balance into an order at the end of the index.
  pub place_order-Gives :
      (owner orderid : ℕ) (amount : Asset) (asked : Result Price) (fill_or_kill : Bool)
      (expiration : ℕ) (db : Db)
      → OrderIds db
      → (amount.symbol ≡ bmt_symbol → Gives (λ p. p.base.symbol ≡ bmt_symbol) asked)
      → Gives
          (λ db'. (total_supply db' ≡ total_supply db) × OrderIds db')
          (place_order owner orderid amount asked fill_or_kill expiration db)
  unfolding place_order new_order total_supply
  place_order-Gives owner orderid amount asked fill_or_kill expiration db ids base_bmt =
      step-Gives (get_account owner db.accounts) λ account _.
        bind-Gives (get_balance-symbol account amount.symbol) λ funds sold.
          step-Gives (assert_ge funds amount) λ _ _.
            bind-Gives (asset_neg-Gives amount) λ debit negated.
              bind-Gives (adjust_balance-Gives owner debit db.accounts) λ accounts paid.
                bind-Gives (base_bmt sold) λ price bmt.
                  let order = new_order owner orderid amount price expiration db in
                  bind-Gives
                    (create-Gives order_bmt (has_orderid owner orderid) order db.limit_orders)
                    λ orders (grown, held).
                      bind-Gives
                        (apply_order-unmatched order (record db {
                          accounts = accounts;
                          limit_orders = orders;
                          next_limit_order = db.next_limit_order + 1;
                        }))
                        λ (db', filled) same. assert-Gives (not fill_or_kill || filled) λ _. gives (
                          rw same (
                            rw (paid, held, negated.0, bmt_order order bmt) (omega int_laws),
                            rw grown
                                (IdsRise-snoc 0 db.next_limit_order db.limit_orders order refl ids),
                          ))

  -- Where the ids of the orders rise, `limit_order_create` keeps the supply and the rise of the ids,
  -- if it returns.
  pub limit_order_create-Gives :
      (o : LimitOrderCreate) (db : Db)
      → OrderIds db
      → Gives (λ db'. (total_supply db' ≡ total_supply db) × OrderIds db') (limit_order_create o db)
  unfolding limit_order_create
  limit_order_create-Gives o db ids = step-Gives (fc_assert (ltb db.props.time o.expiration)) λ _ _.
      place_order-Gives o.owner o.orderid o.amount_to_sell
        (price_of o.amount_to_sell o.min_to_receive) o.fill_or_kill o.expiration db ids
        λ bmt. Gives-imp (price_of-base o.amount_to_sell o.min_to_receive) λ p same. rw same bmt

  -- So does `limit_order_create2`, for an exchange rate in BMT.
  pub limit_order_create2-Gives :
      (o : LimitOrderCreate2) (db : Db)
      → OrderIds db
      → o.exchange_rate.base.symbol ≡ bmt_symbol
      → Gives
          (λ db'. (total_supply db' ≡ total_supply db) × OrderIds db')
          (limit_order_create2 o db)
  unfolding limit_order_create2
  limit_order_create2-Gives o db ids bmt =
      step-Gives (fc_assert (ltb db.props.time o.expiration)) λ _ _.
        place_order-Gives o.owner o.orderid o.amount_to_sell (ok o.exchange_rate) o.fill_or_kill
          o.expiration db ids λ _. gives bmt

  -- A creation leaves the escrows alone.
  pub place_order-escrows :
      (owner orderid : ℕ) (amount : Asset) (asked : Result Price) (fill_or_kill : Bool)
      (expiration : ℕ) (db : Db)
      → Gives
          (λ db'. db'.escrows ≡ db.escrows)
          (place_order owner orderid amount asked fill_or_kill expiration db)
  unfolding place_order
  place_order-escrows owner orderid amount asked fill_or_kill expiration db =
      step-Gives (get_account owner db.accounts) λ account _.
        step-Gives (get_balance account amount.symbol) λ funds _.
          step-Gives (assert_ge funds amount) λ _ _. step-Gives (asset_neg amount) λ debit _.
            step-Gives (adjust_balance owner debit db.accounts) λ accounts _.
              step-Gives asked λ price _.
                let order = new_order owner orderid amount price expiration db in
                step-Gives (create (has_orderid owner orderid) order db.limit_orders) λ orders _.
                  bind-Gives
                    (apply_order-unmatched order (record db {
                      accounts = accounts;
                      limit_orders = orders;
                      next_limit_order = db.next_limit_order + 1;
                    }))
                    λ (db', filled) same.
                      assert-Gives (not fill_or_kill || filled) λ _. gives (rw same refl)
