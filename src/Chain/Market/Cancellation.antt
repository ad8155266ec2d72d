-- ===== src/Chain/Market/Cancellation.antt =====
-- When a cancellation goes through, and which orders it can reach.
use bmchain_core.Prelude.{
  ℕ, ◌≡◌, ◌%◌, true, some, ◌+ℤ◌, find_by, find_by-selected, IsInt64, Gives, bind-Gives, throw-Gives,
  Error, returns, arith, List, remove_by, ok, ◌++◌, Bool, step-Gives, gives, ◌∷◌, Bool-cases, ap,
  inl, sym, [], ◌∙◌, inr, refl,
}
use bmchain_core.Protocol.Fc.{Fc, safe_add}
use bmchain_core.Protocol.Config.{bmt_symbol}
use bmchain_core.Protocol.Asset.{asset_add}
use bmchain_core.Chain.Objects.{Account, LimitOrder, Db}
use bmchain_core.Chain.Accounts.{named, get_account, modify_account, add_balance, adjust_balance}
use bmchain_core.Chain.Market.Conservation.{OrderIds, find_by-id}
use bmchain_core.Chain.Market.{
  amount_for_sale, is_order, has_orderid, get_limit_order, cancel_order, limit_order_cancel, ◌∷◌,
}

-- One object is taken out of a list; those before it and after it stay.
abbrev pub TakenOut : LimitOrder → List LimitOrder → List LimitOrder → Type 0
TakenOut o t t' =
    (before : List LimitOrder) × (after : List LimitOrder) × (t ≡ before ++ o ∷ after)
    × (t' ≡ before ++ after)

remove_by-TakenOut :
    (p : LimitOrder → Bool) (o : LimitOrder) (t : List LimitOrder)
    → find_by p t ≡ some o
    → TakenOut o t (remove_by p t)
unfolding find_by remove_by
remove_by-TakenOut p o [] found = cc
remove_by-TakenOut p o (x ∷ t) found = elim (Bool-cases (p x)) [
  | inl hit ↦ let same : x ≡ o = ground arith in ([], t, ap (λ y. y ∷ t) same, rw hit refl)
  | inr miss ↦
      let (before, after, whole, rest) = remove_by-TakenOut p o t (rw miss at found) in
      (x ∷ before, after, ap (λ l. x ∷ l) whole, rw miss (ap (λ l. x ∷ l) rest))
]

module _ ⦃fc : Fc⦄ where
  -- A cancellation returns if an order of the owner has the id, taken to 16 bits, its seller exists and
  -- has BMT, it sells BMT, and the seller's new balance fits in an `int64_t`.
  pub limit_order_cancel_covered :
      (owner orderid : ℕ) (db : Db) {o : LimitOrder} {a : Account}
      → find_by (has_orderid owner (orderid % 0x10000)) db.limit_orders ≡ some o
      → find_by (named o.seller) db.accounts ≡ some a
      → o.sell_price.base.symbol ≡ bmt_symbol
      → a.balance.symbol ≡ bmt_symbol
      → IsInt64 (a.balance.amount +ℤ o.for_sale)
      → returns (limit_order_cancel owner orderid db) ≡ true
  unfolding limit_order_cancel get_limit_order cancel_order adjust_balance modify_account
      get_account add_balance asset_add safe_add
  limit_order_cancel_covered owner orderid db {o} {a} there seller sold funds fits =
      ground (arith, fc.add_fits a.balance.amount o.for_sale)

  -- Where the ids of the orders rise, a cancellation that returns has taken one order out of the index
  -- and left the others as they are: an order of the owner whose order id is the given one, taken to 16
  -- bits, so that no order with an order id from 65536 on goes. The owner is paid what it had for sale.
  pub limit_order_cancel-reaches :
      (owner orderid : ℕ) (db : Db)
      → OrderIds db
      → Gives
          (λ db'.
            (o : LimitOrder) × TakenOut o db.limit_orders db'.limit_orders
            × (o.seller ≡ owner)
            × (o.orderid ≡ orderid % 0x10000)
            × (adjust_balance owner (amount_for_sale o) db.accounts ≡ ok db'.accounts))
          (limit_order_cancel owner orderid db)
  unfolding limit_order_cancel get_limit_order cancel_order
  limit_order_cancel-reaches owner orderid db ids =
      let masked = has_orderid owner (orderid % 0x10000) in
      bind-Gives (throw-Gives (find_by masked db.limit_orders) Error.not_found λ o e. e) λ o found.
        let key = find_by-selected masked db.limit_orders o found in
        let seller : o.seller ≡ owner = ground (arith, key) in
        let (_, by_id) = find_by-id masked 0 db.next_limit_order db.limit_orders o ids found in
        step-Gives (adjust_balance o.seller (amount_for_sale o) db.accounts) λ accounts paid.
          gives (
            o,
            remove_by-TakenOut (is_order o.id) o db.limit_orders by_id,
            seller,
            ground (arith, key),
            ap (λ n. adjust_balance n (amount_for_sale o) db.accounts) (sym seller) ∙ paid,
          )
