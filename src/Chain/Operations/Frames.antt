-- ===== src/Chain/Operations/Frames.antt =====
-- What the operations leave alone: an operation changes only its own index, the accounts aside.
use bmchain_core.Prelude.{ℕ, ◌≡◌, ok, arith, Gives-ok, step-Gives, fc_assert, ltb}
use bmchain_core.Protocol.Fc.{Fc}
use bmchain_core.Chain.Market.Conservation.{place_order-escrows}
use bmchain_core.Protocol.Price.{price_of}
use bmchain_core.Chain.Objects.{Db}
use bmchain_core.Chain.Transfers.{
  Transfer, transfer, transfer_to_savings, cancel_transfer_from_savings,
}
use bmchain_core.Chain.Escrow.{
  EscrowTransfer, EscrowApprove, EscrowDispute, EscrowRelease, escrow_transfer, escrow_approve,
  escrow_dispute, escrow_release, ratify,
}
use bmchain_core.Chain.ContentOrders.{
  ContentOrderCreate, content_order_create, content_order_cancel, content_order_cancel_by_author,
  place, edit, cancel,
}
use bmchain_core.Chain.Market.{
  limit_order_cancel, cancel_order, limit_order_create, limit_order_create2, LimitOrderCreate,
  LimitOrderCreate2,
}

abbrev pub SameOrders : Db → Db → Type 0
SameOrders db db' =
    (db'.limit_orders ≡ db.limit_orders) × (db'.next_limit_order ≡ db.next_limit_order)

abbrev pub SameEscrows : Db → Db → Type 0
SameEscrows db db' = db'.escrows ≡ db.escrows

module _ ⦃fc : Fc⦄ {db' : Db} where
  pub transfer_frame :
      (o : Transfer) (db : Db) → transfer o db ≡ ok db' → SameOrders db db' × SameEscrows db db'
  unfolding transfer
  transfer_frame o db h = (ground arith, ground arith)

  pub transfer_to_savings_frame :
      (o : Transfer) (db : Db)
      → transfer_to_savings o db ≡ ok db'
      → SameOrders db db' × SameEscrows db db'
  unfolding transfer_to_savings
  transfer_to_savings_frame o db h = (ground arith, ground arith)

  pub cancel_transfer_from_savings_frame :
      (sender id : ℕ) (db : Db)
      → cancel_transfer_from_savings sender id db ≡ ok db'
      → SameOrders db db' × SameEscrows db db'
  unfolding cancel_transfer_from_savings
  cancel_transfer_from_savings_frame sender id db h = (ground arith, ground arith)

  pub escrow_transfer_frame :
      (o : EscrowTransfer) (db : Db) → escrow_transfer o db ≡ ok db' → SameOrders db db'
  unfolding escrow_transfer
  escrow_transfer_frame o db h = ground arith

  pub escrow_approve_frame :
      (o : EscrowApprove) (db : Db) → escrow_approve o db ≡ ok db' → SameOrders db db'
  unfolding escrow_approve ratify
  escrow_approve_frame o db h = ground arith

  pub escrow_dispute_frame :
      (o : EscrowDispute) (db : Db) → escrow_dispute o db ≡ ok db' → SameOrders db db'
  unfolding escrow_dispute
  escrow_dispute_frame o db h = ground arith

  pub escrow_release_frame :
      (o : EscrowRelease) (db : Db) → escrow_release o db ≡ ok db' → SameOrders db db'
  unfolding escrow_release
  escrow_release_frame o db h = ground arith

  pub content_order_create_frame :
      (o : ContentOrderCreate) (db : Db)
      → content_order_create o db ≡ ok db'
      → SameOrders db db' × SameEscrows db db'
  unfolding content_order_create place edit
  content_order_create_frame o db h = (ground arith, ground arith)

  pub content_order_cancel_frame :
      (owner id : ℕ) (db : Db)
      → content_order_cancel owner id db ≡ ok db'
      → SameOrders db db' × SameEscrows db db'
  unfolding content_order_cancel cancel
  content_order_cancel_frame owner id db h = (ground arith, ground arith)

  pub content_order_cancel_by_author_frame :
      (id : ℕ) (db : Db)
      → content_order_cancel_by_author id db ≡ ok db'
      → SameOrders db db' × SameEscrows db db'
  unfolding content_order_cancel_by_author cancel
  content_order_cancel_by_author_frame id db h = (ground arith, ground arith)

  pub limit_order_cancel_frame :
      (owner id : ℕ) (db : Db) → limit_order_cancel owner id db ≡ ok db' → SameEscrows db db'
  unfolding limit_order_cancel cancel_order
  limit_order_cancel_frame owner id db h = ground arith

  pub limit_order_create_frame :
      (o : LimitOrderCreate) (db : Db) → limit_order_create o db ≡ ok db' → SameEscrows db db'
  unfolding limit_order_create
  limit_order_create_frame o db h =
      Gives-ok
        (step-Gives (fc_assert (ltb db.props.time o.expiration)) λ _ _.
          place_order-escrows o.owner o.orderid o.amount_to_sell
            (price_of o.amount_to_sell o.min_to_receive) o.fill_or_kill o.expiration db)
        h

  pub limit_order_create2_frame :
      (o : LimitOrderCreate2) (db : Db) → limit_order_create2 o db ≡ ok db' → SameEscrows db db'
  unfolding limit_order_create2
  limit_order_create2_frame o db h =
      Gives-ok
        (step-Gives (fc_assert (ltb db.props.time o.expiration)) λ _ _.
          place_order-escrows o.owner o.orderid o.amount_to_sell (ok o.exchange_rate) o.fill_or_kill
            o.expiration db)
        h
