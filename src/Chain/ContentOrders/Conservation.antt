-- ===== src/Chain/ContentOrders/Conservation.antt =====
-- What the content-order evaluators do to the supply, and to whom a cancellation pays.
use bmchain_core.Prelude.{
  ℕ, ◌≡◌, refl, ◌≢◌, true, false, not, ◌&&◌, ltb, pos, ◌+ℤ◌, ◌-ℤ◌, int_laws, find_by, sum_of-snoc,
  sum_of-replace_by_sub, some, ok, Error, Gives, gives, bind-Gives, step-Gives, assert-Gives,
  throw-Gives, arith, Bool-cases, Option-cases, inl, inr, or_throw,
}
use bmchain_core.Protocol.Fc.{Fc}
use bmchain_core.Protocol.Config.{using_close_content}
use bmchain_core.Protocol.Asset.{
  Asset, asset_add-Gives, asset_sub-Gives, asset_eq, assert_gt, assert_le,
}
use bmchain_core.Chain.Objects.{Account, ContentOrder, canceled, Db}
use bmchain_core.Chain.Accounts.{get_account}
use bmchain_core.Chain.Accounts.Sums.{account_bmt, modify_account-Gives}
use bmchain_core.Chain.Accounts.Lookup.{liquid, plus, modify_account-liquid}
use bmchain_core.Chain.Supply.{total_supply, content_order_bmt}
use bmchain_core.Chain.ContentOrders.{
  ContentOrderCreate, has_permlink, has_id, is_open, is_comment, placed, edited, charge, refund,
  place, edit, content_order_create, cancel, content_order_cancel, content_order_cancel_by_author,
}

-- An open order holds its price; a canceled one holds nothing.
open_bmt : (o : ContentOrder) → is_open o.status ≡ true → content_order_bmt o ≡ o.price.amount
unfolding content_order_bmt
open_bmt o h = ground arith

canceled_bmt : (o : ContentOrder) → content_order_bmt (record o { status = canceled }) ≡ pos 0
unfolding content_order_bmt
canceled_bmt o = refl

still_open :
    (op : ContentOrderCreate) (o : ContentOrder)
    → is_open o.status ≡ true
    → is_open (edited op o).status ≡ true
unfolding edited
still_open op o h = ground arith

module _ ⦃fc : Fc⦄ where
  charge-Gives :
      (amount : Asset) (a : Account)
      → Gives (λ b. account_bmt b ≡ account_bmt a +ℤ (pos 0 -ℤ amount.amount)) (charge amount a)
  unfolding charge account_bmt
  charge-Gives amount a =
      bind-Gives (asset_sub-Gives a.balance amount) λ b h. gives (rw h.0 (omega int_laws))

  refund-Gives :
      (amount : Asset) (a : Account)
      → Gives (λ b. account_bmt b ≡ account_bmt a +ℤ amount.amount) (refund amount a)
  unfolding refund account_bmt
  refund-Gives amount a =
      bind-Gives (asset_add-Gives a.balance amount) λ b h. gives (rw h.0 (omega int_laws))

  place-Gives :
      (op : ContentOrderCreate) (db : Db)
      → Gives (λ db'. total_supply db' ≡ total_supply db) (place op db)
  unfolding place placed total_supply content_order_bmt
  place-Gives op db =
      bind-Gives
        (modify_account-Gives account_bmt op.owner (charge op.price) (pos 0 -ℤ op.price.amount)
          db.accounts (charge-Gives op.price))
        λ accounts paid. gives (
          rw (paid, sum_of-snoc content_order_bmt (placed op db) db.content_orders)
            (omega int_laws))

  -- An edit that changes the price of an open order creates twice the difference of the prices.
  pub edit-Gives :
      (op : ContentOrderCreate) (order : ContentOrder) (db : Db)
      → find_by (has_permlink op) db.content_orders ≡ some order
      → is_open order.status ≡ true
      → asset_eq order.price op.price ≡ false
      → Gives
          (λ db'.
            total_supply db'
            ≡ total_supply db
              +ℤ (op.price.amount -ℤ order.price.amount)
              +ℤ (op.price.amount -ℤ order.price.amount))
          (edit op order db)
  unfolding edit edited total_supply
  edit-Gives op order db found was_open changed =
      let chosen : (is_open order.status && not (asset_eq order.price op.price)) ≡ true =
        rw (was_open, changed) in
      rw chosen (
        bind-Gives (asset_sub-Gives order.price op.price) λ difference sub.
          bind-Gives
            (modify_account-Gives account_bmt op.owner (charge difference)
              (pos 0 -ℤ difference.amount) db.accounts (charge-Gives difference))
            λ accounts charged. gives (
              rw
                (
                  charged,
                  sub.0,
                  sum_of-replace_by_sub content_order_bmt (has_permlink op) order (edited op order)
                      db.content_orders found,
                  open_bmt order was_open,
                  open_bmt (edited op order) (still_open op order was_open),
                )
                (omega int_laws)))

  -- An edit that keeps the price, or of an order that is no longer open, changes nothing.
  edit_kept :
      (op : ContentOrderCreate) (order : ContentOrder) (db : Db)
      → (is_open order.status && not (asset_eq order.price op.price)) ≡ false
      → edit op order db ≡ ok db
  unfolding edit
  edit_kept op order db h = rw h

  cancel-Gives :
      (payee id : ℕ) (order : ContentOrder) (db : Db)
      → find_by (has_id id) db.content_orders ≡ some order
      → Gives (λ db'. total_supply db' ≡ total_supply db) (cancel payee id order db)
  unfolding cancel total_supply
  cancel-Gives payee id order db found = step-Gives (get_account payee db.accounts) λ _ _.
      assert-Gives (is_open order.status) λ was_open.
        bind-Gives
          (modify_account-Gives account_bmt payee (refund order.price) order.price.amount
            db.accounts (refund-Gives order.price))
          λ accounts paid. gives (
            rw
              (
                paid,
                sum_of-replace_by_sub content_order_bmt (has_id id) order
                    (record order { status = canceled }) db.content_orders found,
                open_bmt order was_open,
                canceled_bmt order,
              )
              (omega int_laws))

  -- An operation that finds no order, or one that it does not edit, keeps the supply if it returns.
  pub content_order_create-Gives :
      (op : ContentOrderCreate) (db : Db)
      → ((order : ContentOrder)
          → find_by (has_permlink op) db.content_orders ≡ some order
          → (is_open order.status && not (asset_eq order.price op.price)) ≡ false)
      → Gives (λ db'. total_supply db' ≡ total_supply db) (content_order_create op db)
  unfolding content_order_create
  content_order_create-Gives op db no_edit =
      elim (Bool-cases (ltb db.props.head_block_number using_close_content)) [
        | inl early ↦ rw early (gives refl)
        | inr late ↦ rw late (
            step-Gives (get_account op.owner db.accounts) λ owner _.
              step-Gives (or_throw (find_by (is_comment op) db.comments) Error.not_found)
                λ comment _. step-Gives (assert_gt owner.balance op.price) λ _ _.
                  step-Gives (assert_le comment.price op.price) λ _ _.
                    elim (Option-cases (find_by (has_permlink op) db.content_orders)) [
                      | inl none_yet ↦ rw none_yet (place-Gives op db)
                      | inr (order, found) ↦
                          rw (found, edit_kept op order db (no_edit order found)) (gives refl)
                    ])
      ]

  -- A returned operation that gives an open order of its owner a new price has changed the supply by
  -- twice the difference of the new price and the old: the charge has the wrong sign.
  pub content_order_edit-Gives :
      (op : ContentOrderCreate) (order : ContentOrder) (db : Db)
      → find_by (has_permlink op) db.content_orders ≡ some order
      → is_open order.status ≡ true
      → asset_eq order.price op.price ≡ false
      → ltb db.props.head_block_number using_close_content ≡ false
      → Gives
          (λ db'.
            total_supply db'
            ≡ total_supply db
              +ℤ (op.price.amount -ℤ order.price.amount)
              +ℤ (op.price.amount -ℤ order.price.amount))
          (content_order_create op db)
  unfolding content_order_create
  content_order_edit-Gives op order db found was_open changed late = rw late (
      step-Gives (get_account op.owner db.accounts) λ owner _.
        step-Gives (or_throw (find_by (is_comment op) db.comments) Error.not_found) λ comment _.
          step-Gives (assert_gt owner.balance op.price) λ _ _.
            step-Gives (assert_le comment.price op.price)
              λ _ _. rw found (edit-Gives op order db found was_open changed))

  pub content_order_cancel-Gives :
      (owner id : ℕ) (db : Db)
      → Gives (λ db'. total_supply db' ≡ total_supply db) (content_order_cancel owner id db)
  unfolding content_order_cancel
  content_order_cancel-Gives owner id db =
      elim (Bool-cases (ltb db.props.head_block_number using_close_content)) [
        | inl early ↦ rw early (gives refl)
        | inr late ↦ rw late (
            bind-Gives
              (throw-Gives (find_by (has_id id) db.content_orders) Error.not_found λ o e. e)
              λ order found. cancel-Gives owner id order db found)
      ]

  pub content_order_cancel_by_author-Gives :
      (id : ℕ) (db : Db)
      → Gives (λ db'. total_supply db' ≡ total_supply db) (content_order_cancel_by_author id db)
  unfolding content_order_cancel_by_author
  content_order_cancel_by_author-Gives id db =
      elim (Bool-cases (ltb db.props.head_block_number using_close_content)) [
        | inl early ↦ rw early (gives refl)
        | inr late ↦ rw late (
            bind-Gives
              (throw-Gives (find_by (has_id id) db.content_orders) Error.not_found λ o e. e)
              λ order found. cancel-Gives order.owner id order db found)
      ]

  refund-liquid :
      (amount : Asset) (a : Account)
      → Gives
          (λ b. (b.name ≡ a.name) × (b.balance.amount ≡ a.balance.amount +ℤ amount.amount))
          (refund amount a)
  unfolding refund
  refund-liquid amount a = bind-Gives (asset_add-Gives a.balance amount) λ b h. gives (refl, h.0)

  -- A cancellation of an order that returns has paid its price to the account that the operation
  -- names, and has changed no other balance: the owner of the order, if it is another account,
  -- gets nothing back.
  pub content_order_cancel-pays :
      (payee id : ℕ) (order : ContentOrder) (db : Db)
      → find_by (has_id id) db.content_orders ≡ some order
      → ltb db.props.head_block_number using_close_content ≡ false
      → Gives
          (λ db'.
            (liquid payee db'.accounts ≡ plus (liquid payee db.accounts) order.price.amount)
            × ((k : ℕ) → k ≢ payee → liquid k db'.accounts ≡ liquid k db.accounts))
          (content_order_cancel payee id db)
  unfolding content_order_cancel cancel
  content_order_cancel-pays payee id order db found late =
      rw (late, found)
        (step-Gives (get_account payee db.accounts) λ _ _.
          assert-Gives (is_open order.status) λ was_open.
            bind-Gives
              (modify_account-liquid payee (refund order.price) order.price.amount db.accounts
                (refund-liquid order.price))
              λ accounts paid.
                gives (ground (arith, paid payee), λ k other. ground (arith, paid k)))
