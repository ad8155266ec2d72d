-- ===== src/Chain/Market/Expiration.antt =====
-- The loop over expired orders: it ends, it leaves none, and it keeps the supply.
use bmchain_core.Prelude.{
  ℕ, zero, suc, ◌<◌, ◌≤◌, ◌≡◌, ◌≢◌, refl, ap, List, [], ◌∷◌, length, ltb, none, some, Result, ok,
  err, Error, find_by, remove_by, arith, Bool, Bool-cases, Option-cases, inl, inr, All, ◌∙◌, Gives,
  gives, Gives-ok, step-Gives, ◌>>=◌,
}
use bmchain_core.Protocol.Fc.{Fc, safe_add}
use bmchain_core.Protocol.Asset.{asset_add}
use bmchain_core.Chain.Objects.{LimitOrder, Db}
use bmchain_core.Chain.Accounts.{adjust_balance, modify_account, get_account, add_balance}
use bmchain_core.Chain.Supply.{total_supply}
use bmchain_core.Chain.Market.{
  is_order, amount_for_sale, earliest, cancel_order, clear_expired, clear_expired_orders,
}
use bmchain_core.Chain.Market.Conservation.{OrderIds, IdsRise, cancel_order-Gives}

-- no order of the index has expired
abbrev pub NoneExpired : ℕ → List LimitOrder → Type 0
NoneExpired now t = All (λ o. now ≤ o.expiration) t

earliest-empty : (t : List LimitOrder) → earliest t ≡ none → t ≡ []
unfolding earliest
earliest-empty [] e = refl
earliest-empty (x ∷ t) e = elim (Option-cases (earliest t)) [
  | inl last ↦ ground arith
  | inr (p, rest) ↦ ground arith
]

none_earlier :
    (now : ℕ) (t : List LimitOrder) {o : LimitOrder}
    → earliest t ≡ some o
    → now ≤ o.expiration
    → NoneExpired now t
unfolding earliest
none_earlier now [] e h = tt
none_earlier now (x ∷ t) e h = elim (Option-cases (earliest t)) [
  | inl last ↦ (ground arith, ground (arith, earliest-empty t last))
  | inr (p, rest) ↦
      let late : now ≤ p.expiration = ground arith in (ground arith, none_earlier now t rest late)
]

-- the earliest order is in the index, under its id
earliest-found :
    (low next : ℕ) (t : List LimitOrder) {o : LimitOrder}
    → IdsRise low t next
    → earliest t ≡ some o
    → (low ≤ o.id) × (find_by (is_order o.id) t ≡ some o)
unfolding earliest find_by
earliest-found low next [] ids e = cc
earliest-found low next (x ∷ t) ids e = elim (Option-cases (earliest t)) [
  | inl last ↦ ground (arith, ids.0)
  | inr (p, rest) ↦
      let (above, found) = earliest-found (suc x.id) next t ids.1 rest in
      ground (arith, ids.0, above, found)
]

length-remove_by :
    (p : LimitOrder → Bool) (t : List LimitOrder) (o : LimitOrder)
    → find_by p t ≡ some o
    → suc (length (remove_by p t)) ≡ length t
unfolding find_by remove_by length
length-remove_by p [] o e = cc
length-remove_by p (x ∷ t) o e = ground (arith, length-remove_by p t o)

-- the exceptions of the program, without the mark of a loop cut short
abbrev pub IsThrown : Error → Type 0
IsThrown e = e ≢ Error.out_of_fuel

-- what a pass leaves: nothing expired, the same supply, or an exception of a refund
pub data Cleared (db : Db) : Result Db → Type 0 where
  cleared :
      {db' : Db}
      → total_supply db' ≡ total_supply db
      → NoneExpired db.props.time db'.limit_orders
      → OrderIds db'
      → Cleared db (ok db')
  thrown : {e : Error} → IsThrown e → Cleared db (err e)

module _ ⦃fc : Fc⦄ where
  cancel_order-IsThrown :
      (o : LimitOrder) (db : Db) {e : Error} → cancel_order o db ≡ err e → IsThrown e
  unfolding cancel_order adjust_balance modify_account get_account add_balance asset_add safe_add
  cancel_order-IsThrown o db h = ground arith

  cancel_order-left :
      (o : LimitOrder) (db : Db)
      → Gives
          (λ db'.
            (db'.limit_orders ≡ remove_by (is_order o.id) db.limit_orders) × (db'.props ≡ db.props))
          (cancel_order o db)
  unfolding cancel_order
  cancel_order-left o db =
      step-Gives (adjust_balance o.seller (amount_for_sale o) db.accounts)
        λ accounts _. gives (refl, refl)

  step-Cleared :
      (fuel : ℕ) (o : LimitOrder) (db : Db) (r : Result Db)
      → cancel_order o db ≡ r
      → OrderIds db
      → find_by (is_order o.id) db.limit_orders ≡ some o
      → length db.limit_orders ≤ fuel
      → ((db' : Db)
          → OrderIds db'
          → length db'.limit_orders < fuel
          → Cleared db' (clear_expired fuel db'))
      → Cleared db (r >>= clear_expired fuel)
  step-Cleared fuel o db (err e) h ids found enough rest = thrown (cancel_order-IsThrown o db h)
  step-Cleared fuel o db (ok db') h ids found enough rest =
      let (supply, ids') = Gives-ok (cancel_order-Gives o db ids found) h in
      let (left, same) = Gives-ok (cancel_order-left o db) h in
      carry db db' (clear_expired fuel db') supply (ap (λ p. p.time) same) (
        rest db' ids' (
          rw left
            (omega (arith, enough, length-remove_by (is_order o.id) db.limit_orders o found))))
    where
      carry :
          (db db' : Db) (r : Result Db)
          → total_supply db' ≡ total_supply db
          → db'.props.time ≡ db.props.time
          → Cleared db' r
          → Cleared db r
      carry db db' _ e t (cleared supply late ids) = cleared (supply ∙ e) (rw (← t) late) ids
      carry db db' _ e t (thrown h) = thrown h

  clear_expired-Cleared :
      (fuel : ℕ) (db : Db)
      → OrderIds db
      → length db.limit_orders < fuel
      → Cleared db (clear_expired fuel db)
  unfolding clear_expired
  clear_expired-Cleared zero db ids enough = ground arith
  clear_expired-Cleared (suc fuel) db ids enough = elim (Option-cases (earliest db.limit_orders)) [
    | inl empty ↦
        rw (clear_expired, empty) (cleared refl (rw (earliest-empty db.limit_orders empty) tt) ids)
    | inr (o, first) ↦ elim (Bool-cases (ltb o.expiration db.props.time)) [
      | inl late ↦
          rw (clear_expired, first, late)
            (step-Cleared fuel o db (cancel_order o db) refl ids
              (earliest-found 0 db.next_limit_order db.limit_orders ids first).1 (omega arith)
              (clear_expired-Cleared fuel))
      | inr early ↦
          rw (clear_expired, first, early)
            (cleared refl (none_earlier db.props.time db.limit_orders first (ground arith)) ids)
    ]
  ]

  -- Where the ids of the orders rise, a pass over the expired orders ends before its fuel does: it
  -- leaves no expired order, the same supply and rising ids, or it throws an exception of a refund.
  pub clear_expired_orders-Cleared : (db : Db) → OrderIds db → Cleared db (clear_expired_orders db)
  unfolding clear_expired_orders
  clear_expired_orders-Cleared db ids =
      clear_expired-Cleared (suc (length db.limit_orders)) db ids (omega arith)
