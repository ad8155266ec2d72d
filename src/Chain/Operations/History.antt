-- ===== src/Chain/Operations/History.antt =====
-- The invariant of the database over histories of operations.
use bmchain_core.Prelude.{◌≡◌, refl, ◌∙◌, ◌&&◌, not, false, find_by, some, ok, Gives-ok}
use bmchain_core.Protocol.Fc.{Fc}
use bmchain_core.Protocol.Config.{bmt_symbol}
use bmchain_core.Protocol.Asset.{asset_eq}
use bmchain_core.Chain.Objects.{ContentOrder, Db}
use bmchain_core.Chain.Supply.{total_supply}
use bmchain_core.Chain.Escrow.Conservation.{
  AllSettled, Keeps, escrow_transfer-Gives, escrow_approve-Gives, escrow_dispute-Gives,
  escrow_release-Gives,
}
use bmchain_core.Chain.Transfers.Conservation.{
  transfer-Gives, transfer_to_savings-Gives, cancel_transfer_from_savings-Gives,
}
use bmchain_core.Chain.ContentOrders.{has_permlink, is_open}
use bmchain_core.Chain.ContentOrders.Conservation.{
  content_order_create-Gives, content_order_cancel-Gives, content_order_cancel_by_author-Gives,
}
use bmchain_core.Chain.Market.Conservation.{
  OrderIds, limit_order_create-Gives, limit_order_create2-Gives, limit_order_cancel-Gives,
}
use bmchain_core.Chain.Operations.{
  Operation, apply_operation, transfer_operation, transfer_to_savings_operation,
  cancel_transfer_from_savings_operation, escrow_transfer_operation, escrow_approve_operation,
  escrow_dispute_operation, escrow_release_operation, limit_order_create_operation,
  limit_order_create2_operation, limit_order_cancel_operation, content_order_create_operation,
  content_order_cancel_operation, content_order_cancel_by_author_operation,
}
use bmchain_core.Chain.Operations.Frames.{
  transfer_frame, transfer_to_savings_frame, cancel_transfer_from_savings_frame,
  escrow_transfer_frame, escrow_approve_frame, escrow_dispute_frame, escrow_release_frame,
  content_order_create_frame, content_order_cancel_frame, content_order_cancel_by_author_frame,
  limit_order_create_frame, limit_order_create2_frame, limit_order_cancel_frame, SameOrders,
  SameEscrows,
}

-- Escrows that are settled, and orders with ids that rise.
abbrev pub IsSound : Db → Type 0
IsSound db = AllSettled db × OrderIds db

-- An operation with its amounts in BMT, and no new price for an open content order.
abbrev pub IsRegular : Operation → Db → Type 0
IsRegular (escrow_transfer_operation o) db = o.fee.symbol ≡ bmt_symbol
IsRegular (limit_order_create2_operation o) db = o.exchange_rate.base.symbol ≡ bmt_symbol
IsRegular (content_order_create_operation o) db =
    (order : ContentOrder)
    → find_by (has_permlink o) db.content_orders ≡ some order
    → (is_open order.status && not (asset_eq order.price o.price)) ≡ false
IsRegular _ db = Unit {0}

-- the supply is kept, and the database stays sound
abbrev pub Preserved : Db → Db → Type 0
Preserved db db' = (total_supply db' ≡ total_supply db) × IsSound db'

module _ (db db' : Db) where
  same_orders : SameOrders db db' → OrderIds db → OrderIds db'
  same_orders (same, next) ids = rw (same, next) ids

  same_escrows : SameEscrows db db' → AllSettled db → AllSettled db'
  same_escrows same settled = rw same settled

  moves_accounts :
      total_supply db' ≡ total_supply db
      → SameOrders db db' × SameEscrows db db'
      → IsSound db
      → Preserved db db'
  moves_accounts supply (orders, escrows) (settled, ids) =
      (supply, (same_escrows escrows settled, same_orders orders ids))

  moves_escrows : Keeps db db' → SameOrders db db' → IsSound db → Preserved db db'
  moves_escrows (supply, settled') orders (settled, ids) =
      (supply, (settled', same_orders orders ids))

  moves_orders :
      (total_supply db' ≡ total_supply db) × OrderIds db'
      → SameEscrows db db'
      → IsSound db
      → Preserved db db'
  moves_orders (supply, ids') escrows (settled, ids) =
      (supply, (same_escrows escrows settled, ids'))

module _ ⦃fc : Fc⦄ where
  operation-Preserved :
      (op : Operation) (db db' : Db)
      → IsRegular op db
      → IsSound db
      → apply_operation op db ≡ ok db'
      → Preserved db db'
  unfolding apply_operation
  operation-Preserved (transfer_operation o) db db' r sound h =
      moves_accounts db db' (Gives-ok (transfer-Gives o db) h) (transfer_frame o db h) sound
  operation-Preserved (transfer_to_savings_operation o) db db' r sound h =
      moves_accounts db db' (Gives-ok (transfer_to_savings-Gives o db) h)
        (transfer_to_savings_frame o db h) sound
  operation-Preserved (cancel_transfer_from_savings_operation n id) db db' r sound h =
      moves_accounts db db' (Gives-ok (cancel_transfer_from_savings-Gives n id db) h)
        (cancel_transfer_from_savings_frame n id db h) sound
  operation-Preserved (escrow_transfer_operation o) db db' r sound h =
      moves_escrows db db' (Gives-ok (escrow_transfer-Gives o db r sound.0) h)
        (escrow_transfer_frame o db h) sound
  operation-Preserved (escrow_approve_operation o) db db' r sound h =
      moves_escrows db db' (Gives-ok (escrow_approve-Gives o db sound.0) h)
        (escrow_approve_frame o db h) sound
  operation-Preserved (escrow_dispute_operation o) db db' r sound h =
      moves_escrows db db' (Gives-ok (escrow_dispute-Gives o db sound.0) h)
        (escrow_dispute_frame o db h) sound
  operation-Preserved (escrow_release_operation o) db db' r sound h =
      moves_escrows db db' (Gives-ok (escrow_release-Gives o db sound.0) h)
        (escrow_release_frame o db h) sound
  operation-Preserved (limit_order_create_operation o) db db' r sound h =
      moves_orders db db' (Gives-ok (limit_order_create-Gives o db sound.1) h)
        (limit_order_create_frame o db h) sound
  operation-Preserved (limit_order_create2_operation o) db db' r sound h =
      moves_orders db db' (Gives-ok (limit_order_create2-Gives o db sound.1 r) h)
        (limit_order_create2_frame o db h) sound
  operation-Preserved (limit_order_cancel_operation n id) db db' r sound h =
      moves_orders db db' (Gives-ok (limit_order_cancel-Gives n id db sound.1) h)
        (limit_order_cancel_frame n id db h) sound
  operation-Preserved (content_order_create_operation o) db db' r sound h =
      moves_accounts db db' (Gives-ok (content_order_create-Gives o db r) h)
        (content_order_create_frame o db h) sound
  operation-Preserved (content_order_cancel_operation n id) db db' r sound h =
      moves_accounts db db' (Gives-ok (content_order_cancel-Gives n id db) h)
        (content_order_cancel_frame n id db h) sound
  operation-Preserved (content_order_cancel_by_author_operation id) db db' r sound h =
      moves_accounts db db' (Gives-ok (content_order_cancel_by_author-Gives id db) h)
        (content_order_cancel_by_author_frame id db h) sound

  -- a history: the regular operations that returned, from a first database to a last
  pub data History (first : Db) : Db → Type 0 where
    start : History first first
    then :
        {db db' : Db} (op : Operation)
        → History first db
        → IsRegular op db
        → apply_operation op db ≡ ok db'
        → History first db'

  -- From a database with settled escrows and rising order ids, every sequence of transfers, transfers
  -- to the savings, cancelled transfers from the savings, escrow operations, limit orders, content
  -- orders and cancellations of orders that return keeps the supply, and leaves settled escrows and
  -- rising order ids, where each fee of an escrow and each exchange rate's base is in BMT, and no open
  -- content order gets a new price.
  pub History-Preserved :
      {first last : Db} → History first last → IsSound first → Preserved first last
  History-Preserved start sound = (refl, sound)
  History-Preserved (then {db = db} op before regular returned) sound =
      let (supply, middle) = History-Preserved before sound in
      let (step, end) = operation-Preserved op db _ regular middle returned in (step ∙ supply, end)
