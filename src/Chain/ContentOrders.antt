-- ===== src/Chain/ContentOrders.antt =====
-- The sale of encrypted content: `content_order_create_evaluator`, `content_order_cancel_evaluator`,
-- `content_order_cancel_by_author_evaluator` (libraries/chain/bmchain_evaluator.cpp).
pub mod Conservation
use bmchain_core.Prelude.{
  ℕ, ◌+◌, Bool, true, false, not, ◌&&◌, List, ltb, ◌==◌, if◌then◌else◌, find_by, replace_by, ◌++◌,
  [], ◌∷◌, Option, none, some, Result, ok, fc_assert, or_throw, ◌>>=◌, ◌>>◌, Error,
}
use bmchain_core.Protocol.Fc.{Fc}
use bmchain_core.Protocol.Config.{using_close_content}
use bmchain_core.Protocol.Asset.{Asset, asset_add, asset_sub, asset_eq, assert_gt, assert_le}
use bmchain_core.Chain.Objects.{
  Account, Comment, ContentOrder, OrderStatus, open_order, completed, canceled, Db,
}
use bmchain_core.Chain.Accounts.{get_account, modify_account}

pub record ContentOrderCreate : Type 0 where
  pub author : ℕ
  pub permlink : ℕ
  pub owner : ℕ
  pub price : Asset

-- the key of the index `by_permlink`
abbrev pub has_permlink : ContentOrderCreate → ContentOrder → Bool
has_permlink op o = (o.author == op.author) && (o.permlink == op.permlink) && (o.owner == op.owner)

abbrev pub has_id : ℕ → ContentOrder → Bool
has_id id o = o.id == id

abbrev pub is_comment : ContentOrderCreate → Comment → Bool
is_comment op c = (c.author == op.author) && (c.permlink == op.permlink)

abbrev pub is_open : OrderStatus → Bool
is_open open_order = true
is_open completed = false
is_open canceled = false

abbrev reopened : OrderStatus → OrderStatus
reopened canceled = open_order
reopened open_order = open_order
reopened completed = completed

-- the order that `content_order_create_evaluator` creates
unfoldable pub placed : ContentOrderCreate → Db → ContentOrder
placed op db = record {
  id = db.next_content_order;
  sent_time = db.props.time;
  author = op.author;
  permlink = op.permlink;
  owner = op.owner;
  price = op.price;
  status = open_order;
}

-- an order with the new price
unfoldable pub edited : ContentOrderCreate → ContentOrder → ContentOrder
edited op order = record order { price = op.price; status = reopened order.status }

module _ ⦃fc : Fc⦄ where
  -- `acc.balance -= amount` and `acc.balance += amount`
  unfoldable pub charge : Asset → Account → Result Account
  charge amount a = do b ← asset_sub a.balance amount; ok (record a { balance = b })

  unfoldable pub refund : Asset → Account → Result Account
  refund amount a = do b ← asset_add a.balance amount; ok (record a { balance = b })

  -- no order of this owner for the content: the price is charged and the order is placed
  unfoldable pub place : ContentOrderCreate → Db → Result Db
  unfolding charge placed
  place op db = do
    accounts ← modify_account op.owner (charge op.price) db.accounts
    ok (record db {
      accounts = accounts;
      content_orders = db.content_orders ++ placed op db ∷ [];
      next_content_order = db.next_content_order + 1;
    })

  -- `start edit case`: the owner's open order is there, and takes the new price
  unfoldable pub edit : ContentOrderCreate → ContentOrder → Db → Result Db
  unfolding charge edited
  edit op order db =
      if is_open order.status && not (asset_eq order.price op.price)
      then (do
        difference ← asset_sub order.price op.price
        accounts ← modify_account op.owner (charge difference) db.accounts
        ok (record db {
          accounts = accounts;
          content_orders = replace_by (has_permlink op) (edited op order) db.content_orders;
        }))
      else ok db

  -- `content_order_create_evaluator::do_apply`
  unfoldable pub content_order_create : ContentOrderCreate → Db → Result Db
  unfolding place edit
  content_order_create op db =
      if ltb db.props.head_block_number using_close_content then ok db else (do
        owner ← get_account op.owner db.accounts
        comment ← or_throw (find_by (is_comment op) db.comments) Error.not_found
        _ ← assert_gt owner.balance op.price
        _ ← assert_le comment.price op.price
        elim (find_by (has_permlink op) db.content_orders) [
          | none ↦ place op db
          | some order ↦ edit op order db
        ])

  -- the common part of the two cancellations: `payee` gets the price of the order
  unfoldable pub cancel : ℕ → ℕ → ContentOrder → Db → Result Db
  unfolding refund
  cancel payee id order db = do
    _ ← get_account payee db.accounts
    _ ← fc_assert (is_open order.status)
    accounts ← modify_account payee (refund order.price) db.accounts
    ok (record db {
      accounts = accounts;
      content_orders =
          replace_by (has_id id) (record order { status = canceled }) db.content_orders;
    })

  -- `content_order_cancel_evaluator::do_apply`, for an operation's `owner` and `order_id`
  unfoldable pub content_order_cancel : ℕ → ℕ → Db → Result Db
  unfolding cancel
  content_order_cancel owner id db =
      if ltb db.props.head_block_number using_close_content then ok db else (do
        order ← or_throw (find_by (has_id id) db.content_orders) Error.not_found
        cancel owner id order db)

  -- `content_order_cancel_by_author_evaluator::do_apply`, for an operation's `order_id`
  unfoldable pub content_order_cancel_by_author : ℕ → Db → Result Db
  unfolding cancel
  content_order_cancel_by_author id db =
      if ltb db.props.head_block_number using_close_content then ok db else (do
        order ← or_throw (find_by (has_id id) db.content_orders) Error.not_found
        cancel order.owner id order db)
