-- ===== src/Chain/Operations.antt =====
-- Sequences of operations: `database::apply_operation` (libraries/chain/database.cpp) hands an
-- operation to its evaluator, and an exception undoes it, so that a history is a sequence of the
-- operations that returned.
pub mod Frames
pub mod History
use bmchain_core.Prelude.{ℕ, Result}
use bmchain_core.Protocol.Fc.{Fc}
use bmchain_core.Chain.Objects.{Db}
use bmchain_core.Chain.Escrow.{
  EscrowTransfer, EscrowApprove, EscrowDispute, EscrowRelease, escrow_transfer, escrow_approve,
  escrow_dispute, escrow_release,
}
use bmchain_core.Chain.Transfers.{
  Transfer, transfer, transfer_to_savings, cancel_transfer_from_savings,
}
use bmchain_core.Chain.ContentOrders.{
  ContentOrderCreate, content_order_create, content_order_cancel, content_order_cancel_by_author,
}
use bmchain_core.Chain.Market.{
  LimitOrderCreate, LimitOrderCreate2, limit_order_create, limit_order_create2, limit_order_cancel,
}

-- `operation`, as far as transfers, savings, escrows, limit orders and content orders go; the other
-- alternatives are left out.
pub data Operation : Type 0 where
  transfer_operation transfer_to_savings_operation : Transfer → Operation
  cancel_transfer_from_savings_operation : ℕ → ℕ → Operation
  escrow_transfer_operation : EscrowTransfer → Operation
  escrow_approve_operation : EscrowApprove → Operation
  escrow_dispute_operation : EscrowDispute → Operation
  escrow_release_operation : EscrowRelease → Operation
  limit_order_create_operation : LimitOrderCreate → Operation
  limit_order_create2_operation : LimitOrderCreate2 → Operation
  limit_order_cancel_operation : ℕ → ℕ → Operation
  content_order_create_operation : ContentOrderCreate → Operation
  content_order_cancel_operation : ℕ → ℕ → Operation
  content_order_cancel_by_author_operation : ℕ → Operation

module _ ⦃fc : Fc⦄ where
  -- `database::apply_operation`
  unfoldable pub apply_operation : Operation → Db → Result Db
  apply_operation (transfer_operation o) = transfer o
  apply_operation (transfer_to_savings_operation o) = transfer_to_savings o
  apply_operation (cancel_transfer_from_savings_operation sender id) =
      cancel_transfer_from_savings sender id
  apply_operation (escrow_transfer_operation o) = escrow_transfer o
  apply_operation (escrow_approve_operation o) = escrow_approve o
  apply_operation (escrow_dispute_operation o) = escrow_dispute o
  apply_operation (escrow_release_operation o) = escrow_release o
  apply_operation (limit_order_create_operation o) = limit_order_create o
  apply_operation (limit_order_create2_operation o) = limit_order_create2 o
  apply_operation (limit_order_cancel_operation owner id) = limit_order_cancel owner id
  apply_operation (content_order_create_operation o) = content_order_create o
  apply_operation (content_order_cancel_operation owner id) = content_order_cancel owner id
  apply_operation (content_order_cancel_by_author_operation id) = content_order_cancel_by_author id
