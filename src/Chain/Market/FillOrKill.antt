-- ===== src/Chain/Market/FillOrKill.antt =====
-- Orders that must be filled at once: since no orders match, none of them is accepted.
use bmchain_core.Prelude.{
  ℕ, ◌+◌, ◌≡◌, ◌≢◌, refl, Bool, true, false, ltb, List, [], ◌∷◌, ◌++◌, find_by, none, Result,
  fc_assert, Gives, gives, bind-Gives, step-Gives, assert-Gives, arith, Option-cases, inl, inr, ok,
}
use bmchain_core.Protocol.Fc.{Fc}
use bmchain_core.Protocol.Asset.{Asset, asset_neg, assert_ge}
use bmchain_core.Protocol.Price.{Price, price_of, invert}
use bmchain_core.Chain.Objects.{LimitOrder, Db}
use bmchain_core.Chain.Accounts.{get_account, get_balance, adjust_balance}
use bmchain_core.Chain.Supply.{order_bmt, create-Gives}
use bmchain_core.Chain.Market.{
  LimitOrderCreate, LimitOrderCreate2, limit_order_create2, has_orderid, is_order, new_order,
  apply_order, place_order, limit_order_create, price_range, by_price, price_max,
}
use bmchain_core.Chain.Market.Matching.{match_all-none}

find_by-append :
    (p : LimitOrder → Bool) (t : List LimitOrder) (o : LimitOrder)
    → p o ≡ true
    → find_by p (t ++ o ∷ []) ≢ none
unfolding find_by
find_by-append p [] o h e = ground arith
find_by-append p (x ∷ t) o h e = ground (arith, find_by-append p t o h)

module _ ⦃fc : Fc⦄ where
  apply_order_unfilled :
      (o : LimitOrder) (db : Db)
      → find_by (is_order o.id) db.limit_orders ≢ none
      → Gives (λ r. r.1 ≡ false) (apply_order o db)
  unfolding apply_order
  apply_order_unfilled o db there =
      let max_price = invert o.sell_price in
      step-Gives (price_max max_price.base.symbol max_price.quote.symbol) λ top _.
        bind-Gives (match_all-none o.id (price_range top max_price (by_price db.limit_orders)) db)
          λ db' same. gives (
            rw same (elim (Option-cases (find_by (is_order o.id) db.limit_orders)) [
              | inl gone ↦ absurd (there gone)
              | inr (x, found) ↦ rw found refl
            ]))

  place_order-throws :
      (owner orderid : ℕ) (amount : Asset) (asked : Result Price) (expiration : ℕ) (db : Db)
      → Gives (λ _. ⊥) (place_order owner orderid amount asked true expiration db)
  unfolding place_order new_order
  place_order-throws owner orderid amount asked expiration db =
      step-Gives (get_account owner db.accounts) λ account _.
        step-Gives (get_balance account amount.symbol) λ funds _.
          step-Gives (assert_ge funds amount) λ _ _. step-Gives (asset_neg amount) λ debit _.
            step-Gives (adjust_balance owner debit db.accounts) λ accounts _.
              step-Gives asked λ price _.
                let order = new_order owner orderid amount price expiration db in
                bind-Gives
                  (create-Gives order_bmt (has_orderid owner orderid) order db.limit_orders)
                  λ orders (grown, _).
                    bind-Gives
                      (apply_order_unfilled order
                        (record db {
                          accounts = accounts;
                          limit_orders = orders;
                          next_limit_order = db.next_limit_order + 1;
                        })
                        (rw grown (
                          find_by-append (is_order order.id) db.limit_orders order (ground arith))))
                      λ (db', filled) unfilled.
                        assert-Gives filled λ was_filled. ground (arith, unfilled, was_filled)

  -- No creation of an order that must be filled at once returns, by either of the two evaluators that
  -- create orders: the one that asks for a least amount, and the one that names an exchange rate.
  pub limit_order_create-throws :
      (o : LimitOrderCreate) (o2 : LimitOrderCreate2) (db : Db)
      → o.fill_or_kill ≡ true
      → o2.fill_or_kill ≡ true
      → Gives (λ _. ⊥) (limit_order_create o db) × Gives (λ _. ⊥) (limit_order_create2 o2 db)
  unfolding limit_order_create limit_order_create2
  limit_order_create-throws o o2 db kill kill2 = (
    step-Gives (fc_assert (ltb db.props.time o.expiration)) λ _ _. rw kill (
        place_order-throws o.owner o.orderid o.amount_to_sell
          (price_of o.amount_to_sell o.min_to_receive) o.expiration db),
    step-Gives (fc_assert (ltb db.props.time o2.expiration)) λ _ _. rw kill2 (
        place_order-throws o2.owner o2.orderid o2.amount_to_sell (ok o2.exchange_rate) o2.expiration
          db),
  )
