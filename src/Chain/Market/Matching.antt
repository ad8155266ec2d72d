-- ===== src/Chain/Market/Matching.antt =====
-- No two limit orders ever match: the orders of a match have different symbols, and both sellers
-- would have to receive BMT.
use bmchain_core.Prelude.{
  ℕ, ◌≡◌, refl, ◌≢◌, not, List, [], ◌∷◌, ◌==◌, Gives, gives, bind-Gives, step-Gives, assert-Gives,
  Gives-imp, any-Gives, arith, Bool-cases, inl, inr, ◌∙◌, sym,
}
use bmchain_core.Protocol.Fc.{Fc}
use bmchain_core.Protocol.Config.{bmt_symbol}
use bmchain_core.Protocol.Asset.{Asset, asset_add, asset_eq}
use bmchain_core.Protocol.Price.{Price, invert}
use bmchain_core.Chain.Objects.{LimitOrder, Db}
use bmchain_core.Chain.Accounts.{Accounts, get_account, modify_account, add_balance, adjust_balance}
use bmchain_core.Chain.Market.{
  amount_for_sale, get_order, trade, fill_order, fill_part, match_orders, match_all, price_range,
  by_price, price_max, apply_order,
}

module _ ⦃fc : Fc⦄ where
  pub adjust_balance-symbol :
      (n : ℕ) (delta : Asset) (t : Accounts)
      → Gives (λ _. delta.symbol ≡ bmt_symbol) (adjust_balance n delta t)
  unfolding adjust_balance modify_account add_balance
  adjust_balance-symbol n delta t = step-Gives (get_account n t) λ a _.
      bind-Gives {P = λ _. delta.symbol ≡ bmt_symbol}
        (assert-Gives (delta.symbol == bmt_symbol)
          λ same. step-Gives (asset_add a.balance delta) λ _ _. gives (ground arith))
        λ b same. gives same

  fill_order-symbols :
      (o : LimitOrder) (pays receives : Asset) (db : Db)
      → Gives
          (λ _. (receives.symbol ≡ bmt_symbol) × (pays.symbol ≢ receives.symbol))
          (fill_order o pays receives db)
  unfolding fill_order
  fill_order-symbols o pays receives db =
      assert-Gives (o.sell_price.base.symbol == pays.symbol) λ _.
        assert-Gives (not (pays.symbol == receives.symbol)) λ differ.
          bind-Gives (adjust_balance-symbol o.seller receives db.accounts) λ accounts bmt.
            elim (Bool-cases (asset_eq pays (amount_for_sale o))) [
              | inl all ↦ rw all (gives (bmt, ground arith))
              | inr part ↦ rw part (
                  Gives-imp (any-Gives (fill_part o pays (record db { accounts = accounts })))
                    λ _ _. (bmt, ground arith))
            ]

  -- No match of two limit orders returns: it always throws, because the two sellers are paid in
  -- different symbols and only BMT can be paid.
  pub match_orders-throws :
      (new old : LimitOrder) (price : Price) (db : Db)
      → Gives (λ _. ⊥) (match_orders new old price db)
  unfolding match_orders
  match_orders-throws new old price db =
      step-Gives (trade new old price) λ (new_receives, old_receives) _.
        bind-Gives (fill_order-symbols new old_receives new_receives db)
          λ (db1, _) (bought, differ).
            bind-Gives (fill_order-symbols old new_receives old_receives db1)
              λ _ (sold, _). absurd (differ (sold ∙ sym bought))

  pub match_all-none :
      (id : ℕ) (range : List LimitOrder) (db : Db) → Gives (λ db'. db' ≡ db) (match_all id range db)
  unfolding match_all
  match_all-none id [] db = gives refl
  match_all-none id (o ∷ rest) db = step-Gives (get_order id db.limit_orders) λ new _.
      step-Gives (get_order o.id db.limit_orders)
        λ old _. bind-Gives (match_orders-throws new old old.sell_price db) λ _ never. absurd never

  -- So an order that `apply_order` accepts has met no other, and nothing has changed.
  pub apply_order-unmatched : (o : LimitOrder) (db : Db) → Gives (λ r. r.0 ≡ db) (apply_order o db)
  unfolding apply_order
  apply_order-unmatched o db =
      let max_price = invert o.sell_price in
      step-Gives (price_max max_price.base.symbol max_price.quote.symbol) λ top _.
        bind-Gives (match_all-none o.id (price_range top max_price (by_price db.limit_orders)) db)
          λ db' same. gives same
