-- ===== src/Validation/Signs.antt =====
-- What `validate` says of the signs of the amounts of an operation.

use bmchain_core.Protocol.Config.{bmt_symbol}
use bmchain_core.Chain.Transfers.{Transfer}
use bmchain_core.Chain.Escrow.{EscrowRelease, EscrowTransfer}
use bmchain_core.Validation.Payments.{
  validate_escrow_release, validate_transfer, validate_transfer_to_savings,
  validate_escrow_transfer,
}
use bmchain_core.Validation.{Text, validate_account_name}
use bmchain_core.Prelude.{
  ℕ, ℤ, pos, fc_assert, ◌≤ℤ◌, ltb_ℤ, leb_ℤ, ◌≡◌, ok, List, ◌<ℤ◌, arith, then-ok, fc_assert-ok, not,
  ◌==◌, ◌&&◌, ◌||◌,
}

positive : (a : ℤ) → fc_assert (ltb_ℤ (pos 0) a) ≡ ok tt → pos 0 <ℤ a
positive a h = ground (arith, fc_assert-ok _ h)

not_negative : (a : ℤ) → fc_assert (leb_ℤ (pos 0) a) ≡ ok tt → pos 0 ≤ℤ a
not_negative a h = ground (arith, fc_assert-ok _ h)

module _ ⦃t : Text⦄ where
  pub validate_transfer-positive :
      (o : Transfer) (memo : List ℕ) → validate_transfer o memo ≡ ok tt → pos 0 <ℤ o.amount.amount
  unfolding validate_transfer
  validate_transfer-positive o memo h =
      let (_, h1) = then-ok (validate_account_name o.sender) h in
      let (_, h2) = then-ok (validate_account_name o.to) h1 in
      positive o.amount.amount (then-ok (fc_assert (ltb_ℤ (pos 0) o.amount.amount)) h2).0

  pub validate_transfer_to_savings-positive :
      (o : Transfer) (memo : List ℕ)
      → validate_transfer_to_savings o memo ≡ ok tt
      → pos 0 <ℤ o.amount.amount
  unfolding validate_transfer_to_savings
  validate_transfer_to_savings-positive o memo h =
      let (_, h1) = then-ok (validate_account_name o.sender) h in
      let (_, h2) = then-ok (validate_account_name o.to) h1 in
      positive o.amount.amount (then-ok (fc_assert (ltb_ℤ (pos 0) o.amount.amount)) h2).0

  pub validate_escrow_transfer-signs :
      (o : EscrowTransfer) (json_meta : List ℕ)
      → validate_escrow_transfer o json_meta ≡ ok tt
      → (pos 0 ≤ℤ o.bmt_amount.amount) × (pos 0 ≤ℤ o.fee.amount) × (o.fee.symbol ≡ bmt_symbol)
  unfolding validate_escrow_transfer
  validate_escrow_transfer-signs o json_meta h =
      let (_, h1) = then-ok (validate_account_name o.sender) h in
      let (_, h2) = then-ok (validate_account_name o.to) h1 in
      let (_, h3) = then-ok (validate_account_name o.agent) h2 in
      let (fee, h4) = then-ok (fc_assert (leb_ℤ (pos 0) o.fee.amount)) h3 in
      let (amount, h5) = then-ok (fc_assert (leb_ℤ (pos 0) o.bmt_amount.amount)) h4 in
      let (_, h6) = then-ok (fc_assert (not (o.sender == o.agent) && not (o.to == o.agent))) h5 in
      let (symbol, _) =
        then-ok (fc_assert ((o.fee.symbol == bmt_symbol) || (o.fee.symbol == bmt_symbol))) h6 in
      (
        not_negative o.bmt_amount.amount amount,
        not_negative o.fee.amount fee,
        ground (arith, fc_assert-ok _ symbol),
      )

pub validate_escrow_release-sign :
    (o : EscrowRelease) → validate_escrow_release o ≡ ok tt → pos 0 ≤ℤ o.bmt_amount.amount
unfolding validate_escrow_release
validate_escrow_release-sign o h =
    let (_, h1) = then-ok (validate_account_name o.sender) h in
    let (_, h2) = then-ok (validate_account_name o.to) h1 in
    let (_, h3) = then-ok (validate_account_name o.agent) h2 in
    let (_, h4) = then-ok (validate_account_name o.who) h3 in
    let (_, h5) = then-ok (validate_account_name o.receiver) h4 in
    let (_, h6) = then-ok (fc_assert _) h5 in
    let (_, h7) = then-ok (fc_assert _) h6 in
    not_negative o.bmt_amount.amount (then-ok (fc_assert _) h7).0
