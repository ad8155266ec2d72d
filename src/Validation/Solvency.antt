-- ===== src/Validation/Solvency.antt =====
-- Validation and evaluation together: no account, escrow or pending withdrawal falls below zero.
use bmchain_core.Validation.Solvent.{IsSolvent}
use bmchain_core.Validation.Solvent.Transfers.{
  transfer-IsSolvent, transfer_to_savings-IsSolvent, cancel_transfer_from_savings-IsSolvent,
}
use bmchain_core.Validation.Solvent.Escrows.{
  escrow_dispute-IsSolvent, escrow_release-IsSolvent, escrow_transfer-IsSolvent,
  escrow_approve-IsSolvent,
}
use bmchain_core.Validation.Signs.{
  validate_transfer-positive, validate_transfer_to_savings-positive, validate_escrow_transfer-signs,
  validate_escrow_release-sign,
}
use bmchain_core.Chain.Operations.{
  Operation, apply_operation, transfer_operation, transfer_to_savings_operation,
  cancel_transfer_from_savings_operation, escrow_transfer_operation, escrow_approve_operation,
  escrow_dispute_operation, escrow_release_operation,
}
use bmchain_core.Protocol.Fc.{Fc}
use bmchain_core.Validation.Payments.{
  validate_escrow_release, validate_transfer, validate_transfer_to_savings,
  validate_escrow_transfer, validate_cancel_transfer_from_savings, validate_escrow_approve,
  validate_escrow_dispute,
}
use bmchain_core.Validation.{Text}
use bmchain_core.Chain.Objects.{Db}
use bmchain_core.Prelude.{ℕ, ◌≡◌, ok, List, Gives-ok}

-- the payments among the operations, validated with the text that they carry
abbrev pub IsPayment : ⦃t : Text⦄ → Operation → Type 0
IsPayment (transfer_operation o) = (memo : List ℕ) × (validate_transfer o memo ≡ ok tt)
IsPayment (transfer_to_savings_operation o) =
    (memo : List ℕ) × (validate_transfer_to_savings o memo ≡ ok tt)
IsPayment (cancel_transfer_from_savings_operation sender id) =
    validate_cancel_transfer_from_savings sender ≡ ok tt
IsPayment (escrow_transfer_operation o) =
    (json_meta : List ℕ) × (validate_escrow_transfer o json_meta ≡ ok tt)
IsPayment (escrow_approve_operation o) = validate_escrow_approve o ≡ ok tt
IsPayment (escrow_dispute_operation o) = (who : ℕ) × (validate_escrow_dispute o who ≡ ok tt)
IsPayment (escrow_release_operation o) = validate_escrow_release o ≡ ok tt
IsPayment _ = ⊥

-- A transfer, a transfer to the savings, a cancelled transfer from the savings or an escrow operation
-- that `validate` accepts, and that returns, leaves no balance, savings, escrow or pending withdrawal below zero, when none was.
pub payment-IsSolvent :
    ⦃t : Text⦄
    → ⦃fc : Fc⦄ → (op : Operation) (db db' : Db) → IsPayment op
    → IsSolvent db
    → apply_operation op db ≡ ok db'
    → IsSolvent db'
unfolding apply_operation
payment-IsSolvent (transfer_operation o) db db' (memo, valid) solvent h =
    Gives-ok (transfer-IsSolvent db solvent o (validate_transfer-positive o memo valid)) h
payment-IsSolvent (transfer_to_savings_operation o) db db' (memo, valid) solvent h =
    Gives-ok
      (transfer_to_savings-IsSolvent db solvent o
        (validate_transfer_to_savings-positive o memo valid))
      h
payment-IsSolvent (cancel_transfer_from_savings_operation sender id) db db' valid solvent h =
    Gives-ok (cancel_transfer_from_savings-IsSolvent db solvent sender id) h
payment-IsSolvent (escrow_transfer_operation o) db db' (json_meta, valid) solvent h =
    Gives-ok
      (escrow_transfer-IsSolvent db solvent o (validate_escrow_transfer-signs o json_meta valid)) h
payment-IsSolvent (escrow_approve_operation o) db db' valid solvent h =
    Gives-ok (escrow_approve-IsSolvent db solvent o) h
payment-IsSolvent (escrow_dispute_operation o) db db' valid solvent h =
    Gives-ok (escrow_dispute-IsSolvent db solvent o) h
payment-IsSolvent (escrow_release_operation o) db db' valid solvent h =
    Gives-ok (escrow_release-IsSolvent db solvent o (validate_escrow_release-sign o valid)) h
payment-IsSolvent _ db db' valid solvent h = absurd valid
