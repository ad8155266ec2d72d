-- ===== src/Validation/Solvent.antt =====
-- Databases in which nothing is below zero, and the debits that keep them so.
pub mod Transfers
pub mod Escrows
use bmchain_core.Chain.Operations.{
  Operation, apply_operation, transfer_operation, transfer_to_savings_operation,
  cancel_transfer_from_savings_operation, escrow_transfer_operation, escrow_approve_operation,
  escrow_dispute_operation, escrow_release_operation,
}
use bmchain_core.Chain.Supply.{create}
use bmchain_core.Protocol.Config.{bmt_symbol}
use bmchain_core.Protocol.Asset.{Asset, assert_ge, asset_neg-Gives, assert_ge-le, asset_sub-Gives}
use bmchain_core.Chain.Accounts.Covered.{
  IsCovered, modify_account-All, get_account-Gives, adjust_balance-IsCovered, credit-IsCovered,
  adjust_savings_balance-IsCovered,
}
use bmchain_core.Chain.Transfers.{
  transfer, Transfer, prove_active, drop_request, transfer_to_savings, cancel_transfer_from_savings,
  has_request,
}
use bmchain_core.Chain.Escrow.{
  EscrowRelease, EscrowTransfer, get_escrow, released, escrow_dispute, escrow_release,
  EscrowDispute, release_guards, has_key, dispute_guards, opened, fee_paid, vote_to, vote_agent,
  escrow_transfer, ratify, escrow_approve, EscrowApprove, bmt_spent, deadline_guards,
  approve_guards,
}
use bmchain_core.Protocol.Fc.{Fc}
use bmchain_core.Validation.Payments.{
  validate_escrow_release, validate_transfer, validate_transfer_to_savings,
  validate_escrow_transfer, validate_cancel_transfer_from_savings, validate_escrow_approve,
  validate_escrow_dispute,
}
use bmchain_core.Validation.{Text, Asset, validate_account_name}
use bmchain_core.Chain.Accounts.{get_balance, get_account, Accounts, named}
use bmchain_core.Chain.Objects.{Escrow, SavingsWithdraw, Db, Account}
use bmchain_core.Prelude.{
  ℕ, ℤ, pos, All, fc_assert, ◌≤ℤ◌, ltb_ℤ, leb_ℤ, ◌≡◌, ok, List, ◌<ℤ◌, arith, then-ok, Gives,
  fc_assert-ok, step-Gives, not, bind-Gives, ◌==◌, ◌&&◌, ◌||◌, gives, neg_ℤ, find_by, ◌+ℤ◌,
  int_laws, parts_of_eq, some, throw-Gives, Bool-cases, eqb_ℤ, Error, inl, All-replace_by,
  All-find_by, All-remove_by, true, inr, Bool, assert-Gives, Option-cases, Gives-ok, All-snoc,
  throws,
}

abbrev pub IsFunded : Escrow → Type 0
IsFunded e = (pos 0 ≤ℤ e.bmt_balance.amount) × (pos 0 ≤ℤ e.pending_fee.amount)

abbrev pub IsPending : SavingsWithdraw → Type 0
IsPending s = pos 0 ≤ℤ s.amount.amount

abbrev pub IsSolvent : Db → Type 0
IsSolvent db =
    All IsCovered db.accounts × All IsFunded db.escrows × All IsPending db.savings_withdraws

-- what the guards of a payment say of the account that they read
pub guarded :
    (n : ℕ) (amount : Asset) (t : Accounts) (read a : Account) (funds : Asset)
    → find_by (named n) t ≡ some read
    → find_by (named n) t ≡ some a
    → get_balance read amount.symbol ≡ ok funds
    → assert_ge funds amount ≡ ok tt
    → amount.amount ≤ℤ a.balance.amount
unfolding get_balance
guarded n amount t read a funds found also held enough =
    let (_, most) = assert_ge-le funds amount enough in
    let same : funds ≡ a.balance = ground (arith, found, also, held) in ground (arith, most, same)

-- a debit of no more than what is there
pub covers :
    (balance debit amount : ℤ)
    → amount ≤ℤ balance
    → debit ≡ neg_ℤ amount
    → pos 0 ≤ℤ balance +ℤ debit
covers balance debit amount enough e = omega (int_laws, enough, parts_of_eq debit (neg_ℤ amount) e)
